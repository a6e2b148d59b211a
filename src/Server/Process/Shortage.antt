-- ===== src/Server/Process/Shortage.antt =====
-- What `process_server_requests` does where the mbufs run out.
use mlx5_netperf.Prelude.{
  ℕ, suc, ◌+◌, ◌^◌, ◌<◌, ◌≡◌, refl, sym, ap, false, none, some, List, [], ◌∷◌, ◌++◌, arith, ltb,
  ◌==◌, length, length-append, length-drop, take, get_elem?, set, get_elem?-set_self, Bool-cases,
  inl, inr,
}
use mathlib.Core.Path.{subst}
use mlx5_netperf.Prelude.Update.{lt_of_get_elem?}
use mlx5_netperf.Prelude.Word.{sub64, u64}
use mlx5_netperf.Prelude.Outcome.{ok, fault}
use mlx5_netperf.Mempool.{Mempool, alloc}
use mlx5_netperf.Mempool.Stack.{IsValid, available}
use mlx5_netperf.Completion.{World}
use mlx5_netperf.Headers.{RequestHeader}
use mlx5_netperf.Tx.Post.{free_all}
use mlx5_netperf.Server.{Config, State, read_segments, read_u64}
use mlx5_netperf.Server.Packet.{
  no_mbuf, zero_copy_one, zero_copy_loop, zero_copy_packet, copy_packet, sum_payload, build_reply,
  build_packet,
}
use mlx5_netperf.Server.Packet.Reply.{reply_header}
use mlx5_netperf.Server.Process.{Env, free_earlier, process_loop, process_server_requests}

take_all_but_last : (xs : List ℕ) (x : ℕ) → take (length xs) (xs ++ (x ∷ [])) ≡ xs
take_all_but_last [] x = refl
take_all_but_last (y ∷ ys) x = ap (λ l. y ∷ l) (take_all_but_last ys x)

-- Where the mbufs run out, the packets built before are freed, but for the last of them, whose
-- mbufs are lost; and with none built before the loop's bound wraps and it ends in a fault.
pub free_earlier_lem :
    (rounds : ℕ) (w : World) (firsts : List ℕ) (x : ℕ)
    → length firsts < 2 ^ 32
    → (free_earlier rounds w (firsts ++ (x ∷ [])) ≡ free_all rounds w firsts)
      × (free_earlier rounds w [] ≡ fault)
unfolding free_earlier
free_earlier_lem rounds w firsts x h =
    let bound : sub64 (length (firsts ++ (x ∷ []))) 1 ≡ length firsts =
      omega (arith, length-append firsts (x ∷ [])) in
    let test : ltb (length (firsts ++ (x ∷ []))) (length firsts) ≡ false =
      ground (arith, length-append firsts (x ∷ [])) in
    (rw (bound, test, take_all_but_last firsts x) refl, refl)

empty : (p : Mempool) → IsValid p → available p ≡ [] → alloc p ≡ ok (none, p)
unfolding alloc
empty p v h = ground (arith, ap (λ (l : List ℕ). length l) h, length-drop p.allocated p.free_items)

no_mbuf_copied :
    (rounds : ℕ) (c : Config) (s : State) (request : ℕ) (segments : List ℕ)
    → alloc s.world.mbuf_mempool ≡ ok (none, s.world.mbuf_mempool)
    → copy_packet rounds c s request segments ≡ ok (no_mbuf, s)
unfolding copy_packet
no_mbuf_copied rounds c s request segments h = rw h refl

none_left :
    (c : Config) (w : World) (sum v : ℕ) (vs : List ℕ)
    → 0 < w.refcnts.num_total_segments
    → alloc w.mbuf_mempool ≡ ok (none, w.mbuf_mempool)
    → zero_copy_loop c w sum none (v ∷ vs) ≡ ok (none, w, sum)
unfolding zero_copy_loop zero_copy_one
none_left c w sum v vs t h =
    let some_segments : (w.refcnts.num_total_segments == 0) ≡ false = ground arith in
    rw (some_segments, h) refl

no_mbuf_linked :
    (c : Config) (s : State) (pkt_idx request v : ℕ) (vs : List ℕ) (h : RequestHeader)
    → get_elem? s.request_headers pkt_idx ≡ some h
    → 0 < s.world.refcnts.num_total_segments
    → alloc s.world.mbuf_mempool ≡ ok (none, s.world.mbuf_mempool)
    → (s' : State) × (zero_copy_packet c s pkt_idx request (v ∷ vs) ≡ ok (no_mbuf, s'))
unfolding zero_copy_packet
no_mbuf_linked c s pkt_idx request v vs h e t a =
    let h' = reply_header c s request h in
    (
      record s { request_headers = set s.request_headers pkt_idx h' },
      rw (e, zero_copy_packet, none_left c s.world h'.checksum v vs t a) refl,
    )

no_mbuf_for_reply :
    (rounds : ℕ) (c : Config) (s : State) (pkt_idx request v : ℕ) (vs : List ℕ) (h : RequestHeader)
    → get_elem? s.request_headers pkt_idx ≡ some h
    → 0 < s.world.refcnts.num_total_segments
    → alloc s.world.mbuf_mempool ≡ ok (none, s.world.mbuf_mempool)
    → (s' : State) × (build_reply rounds c s pkt_idx request (v ∷ vs) ≡ ok (no_mbuf, s'))
unfolding build_reply
no_mbuf_for_reply rounds c s pkt_idx request v vs h e t a = elim (Bool-cases (c.zero_copy == 0)) [
  | inl copies ↦ (s, rw copies (no_mbuf_copied rounds c s request (v ∷ vs) a))
  | inr links ↦
      let (s', done) = no_mbuf_linked c s pkt_idx request v vs h e t a in (s', rw links done)
]

-- Summing the payload leaves the pools alone, and the request headers where they are.
summed :
    (c : Config) (s : State) (pkt_idx request : ℕ) (h : RequestHeader)
    → get_elem? s.request_headers pkt_idx ≡ some h
    → ((sum_payload c s pkt_idx request h).world ≡ s.world)
      × (h' : RequestHeader) × (get_elem?
            (sum_payload c s pkt_idx request h).request_headers
            pkt_idx
          ≡ some h')
unfolding sum_payload
summed c s pkt_idx request h e = elim (Bool-cases (c.read_incoming_packet == 1)) [
  | inl sums ↦ rw sums (
    refl,
    _,
    get_elem?-set_self s.request_headers pkt_idx _ (lt_of_get_elem? s.request_headers pkt_idx e),
  )
  | inr other ↦ rw other (refl, h, e)
]

body :
    (rounds : ℕ) (c : Config) (s s' : State) (request : ℕ) (segments : List ℕ) (h : RequestHeader)
    → ltb 32 c.num_segments ≡ false
    → get_elem? s.request_headers 0 ≡ some h
    → read_segments s.memory (u64 ((s.world.heap request).data_ptr + 42)) 0 c.num_segments
      ≡ segments
    → build_reply rounds c (sum_payload c s 0 request h) 0 request segments ≡ ok (no_mbuf, s')
    → build_packet rounds c s 0 request ≡ ok (no_mbuf, s')
unfolding build_packet
body rounds c s s' request segments h b e k done =
    rw (b, e)
      (subst
        (λ l. build_reply rounds c (sum_payload c s 0 request h) 0 request l ≡ ok (no_mbuf, s'))
        (sym k) done)

-- What the body of the loop comes to without a free mbuf.
none_built :
    (rounds : ℕ) (c : Config) (s : State) (request n : ℕ) (h : RequestHeader)
    → c.num_segments ≡ suc n
    → n < 32
    → get_elem? s.request_headers 0 ≡ some h
    → 0 < s.world.refcnts.num_total_segments
    → alloc s.world.mbuf_mempool ≡ ok (none, s.world.mbuf_mempool)
    → (s' : State) × (build_packet rounds c s 0 request ≡ ok (no_mbuf, s'))
unfolding read_segments
none_built rounds c s request n h k small e t a =
    let (same, h', e') = summed c s 0 request h e in
    let payload = u64 ((s.world.heap request).data_ptr + 42) in
    let (s', done) =
      no_mbuf_for_reply rounds c (sum_payload c s 0 request h) 0 request
        (read_u64 s.memory payload (0 + 1)) (read_segments s.memory payload (0 + 1) n) h' e'
        (subst (λ w. 0 < w.refcnts.num_total_segments) (sym same) t)
        (subst (λ w. alloc w.mbuf_mempool ≡ ok (none, w.mbuf_mempool)) (sym same) a) in
    let within : ltb 32 c.num_segments ≡ false = ground arith in
    (
      s',
      body rounds c s s' request
          (read_u64 s.memory payload (0 + 1) ∷ read_segments s.memory payload (0 + 1) n) h within e
          (ap (read_segments s.memory payload 0) k) done,
    )

stopped :
    (e : Env) (c : Config) (s s' : State) (request : ℕ) (requests : List ℕ)
    → (c.echo_mode == 1) ≡ false
    → ltb 32 (length (request ∷ requests)) ≡ false
    → build_packet e.rounds c s 0 request ≡ ok (no_mbuf, s')
    → process_server_requests e c s (request ∷ requests) ≡ fault
unfolding process_server_requests process_loop free_earlier
stopped e c s s' request requests m b h = rw (b, m, h) refl

-- Without a free mbuf, `process_server_requests` does not return the error that it means to for a
-- batch of up to 32 requests: where the server does not echo, whether it copies or not, it ends in
-- a fault, since the loop that frees the packets built before runs from none of them on.
pub no_mbuf_fault :
    (e : Env) (c : Config) (s : State) (request n : ℕ) (requests : List ℕ) (h : RequestHeader)
    → c.echo_mode ≡ 0
    → c.num_segments ≡ suc n
    → n < 32
    → length requests < 32
    → get_elem? s.request_headers 0 ≡ some h
    → 0 < s.world.refcnts.num_total_segments
    → IsValid s.world.mbuf_mempool
    → available s.world.mbuf_mempool ≡ []
    → process_server_requests e c s (request ∷ requests) ≡ fault
no_mbuf_fault e c s request n requests h m k small b at t valid none_free =
    let (s', done) =
      none_built e.rounds c s request n h k small at t
        (empty s.world.mbuf_mempool valid none_free) in
    stopped e c s s' request requests (ground (arith, m)) (ground arith) done
