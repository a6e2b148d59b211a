-- ===== src/Client/Overrun.antt =====
-- What happens where the reply to the last request that was sent has arrived.
use mlx5_netperf.Prelude.{
  ℕ, zero, suc, ◌+◌, ◌^◌, ◌≤◌, ◌<◌, ◌≡◌, refl, ap, sym, ◌∙◌, some, List, [], ◌∷◌, ◌++◌, arith,
  length, get_elem?,
}
use mathlib.Core.List.{append_assoc}
use mlx5_netperf.Prelude.Word.{u32, sub64}
use mlx5_netperf.Prelude.Outcome.{ok, fault}
use mlx5_netperf.Completion.Chain.{Holds}
use mlx5_netperf.Latency.{LatencyDist, Groups}
use mlx5_netperf.Latency.Record.{entries}
use mlx5_netperf.Latency.Unsent.{unsent_fault}
use mlx5_netperf.Requests.{ClientRequest}
use mlx5_netperf.Client.{Env, Config, State, receive_all, evaluate}
use mlx5_netperf.Client.Replies.{Kind, reply, refused, Received, ids_of, mbufs_of, receive_all_lem}

-- An element of a list that is stored in an array.
entries-at :
    (f : ℕ → ℕ) (i n x : ℕ) (xs ys : List ℕ)
    → entries f i n ≡ xs ++ (x ∷ ys)
    → (f (i + length xs) ≡ x) × (length xs < n)
entries-at f i zero x [] ys h = cc
entries-at f i zero x (y ∷ xs) ys h = cc
entries-at f i (suc n) x [] ys h =
    let here : f i ≡ x = cc in (ap f {x = i + 0} {y = i} (omega arith) ∙ here, omega arith)
entries-at f i (suc n) x (y ∷ xs) ys h =
    let later : entries f (suc i) n ≡ xs ++ (x ∷ ys) = cc in
    let (found, below) = entries-at f (suc i) n x xs ys later in
    (ap f {x = i + suc (length xs)} {y = suc i + length xs} (omega arith) ∙ found, omega arith)

ids_of-append :
    (before after : List (ℕ × Kind)) (pkt id : ℕ) (r : ClientRequest)
    → ids_of (before ++ ((pkt, reply id r) ∷ after)) ≡ ids_of before ++ (u32 id ∷ ids_of after)
ids_of-append [] after pkt id r = refl
ids_of-append ((p, refused) ∷ before) after pkt id r = ids_of-append before after pkt id r
ids_of-append ((p, reply j q) ∷ before) after pkt id r =
    ap (λ l. u32 j ∷ l) (ids_of-append before after pkt id r)

-- Where the reply to the last request that was sent is among the packets of a burst, the client's
-- evaluation after it writes out of bounds: it takes the number of the next request less 1 for the
-- number of requests sent. The burst is one that `receive_all` takes, the next request is in the
-- array with its number, less than 2^32, and malloc succeeds.
pub last_reply_overruns :
    (e : Env) (c : Config) (start : ℕ) (s : State) (before after : List (ℕ × Kind)) (pkt id : ℕ)
    (r next : ClientRequest) (memory : ℕ → ℕ) (g : Groups) (dist : LatencyDist) (per_request : ℕ)
    → (let burst = before ++ ((pkt, reply id r) ∷ after) in
        Received c s.memory s.requests s.world.heap burst
        × Holds s.world.rx_buf_mempool (length burst)
        × (s.packet_map.total_count + length burst ≤ 1000000))
    → get_elem? s.requests s.current ≡ some next
    → next.packet_id ≡ suc id
    → suc id < 2 ^ 32
    → (s' : State) × (receive_all e c start s (mbufs_of (before ++ ((pkt, reply id r) ∷ after)))
        ≡ ok s')
      × (evaluate (some memory) (some g) s' dist per_request ≡ fault)
unfolding evaluate
last_reply_overruns e c start s before after pkt id r next memory g dist per_request
      (known, holds, room) found numbered small =
    let burst = before ++ ((pkt, reply id r) ∷ after) in
    let (pool, m, received, outstanding, ticks, done, extended, returned, count) =
      receive_all_lem e c start s burst known holds room in
    let old = entries s.packet_map.ids 0 s.packet_map.total_count in
    let split : entries m.ids 0 m.total_count ≡ (old ++ ids_of before) ++ (u32 id ∷ ids_of after) =
      extended.1
      ∙ ap (λ l. old ++ l) (ids_of-append before after pkt id r)
      ∙ sym (append_assoc old (ids_of before) (u32 id ∷ ids_of after)) in
    let (stored, below) =
      entries-at m.ids 0 m.total_count (u32 id) (old ++ ids_of before) (ids_of after) split in
    let k = length (old ++ ids_of before) in
    let named : u32 (m.ids k) ≡ id =
      ap u32 (ap m.ids {x = k} {y = 0 + k} (omega arith) ∙ stored) ∙ omega arith in
    let one_less : sub64 next.packet_id 1 ≡ id = omega (arith, numbered) in
    (
      record s {
        world = record (s.world) { rx_buf_mempool = pool };
        packet_map = m;
        num_received = received;
        outstanding = outstanding;
        ticks = ticks;
      },
      done,
      rw (found, evaluate, one_less)
          (unsent_fault memory g m dist id per_request k below (omega arith)),
    )
