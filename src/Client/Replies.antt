-- ===== src/Client/Replies.antt =====
-- What the client does with a burst of received packets.
use mlx5_netperf.Prelude.{
  ℕ, suc, ◌+◌, ◌≤◌, ◌<◌, ◌≡◌, refl, sym, ap, ◌∙◌, true, false, Option, none, some, List, [], ◌∷◌,
  ◌++◌, map, arith, ltb, length, get_elem?,
}
use mathlib.Core.List.{append-nil, append_assoc}
use mlx5_netperf.Prelude.Word.{u32, u64, add64, sub64}
use mlx5_netperf.Prelude.Outcome.{ok}
use mlx5_netperf.Mbuf.{Mbuf, rx_completion}
use mlx5_netperf.Mempool.{Mempool}
use mlx5_netperf.Completion.{World, mbuf_free}
use mlx5_netperf.Completion.Chain.{Holds, Returned, free_step}
use mlx5_netperf.Headers.{check_valid_packet}
use mlx5_netperf.Requests.{ClientRequest}
use mlx5_netperf.Latency.{PacketMap, add_latency_to_map, put}
use mlx5_netperf.Latency.Record.{entries, entries-snoc}
use mlx5_netperf.Server.{read, read_u64}
use mlx5_netperf.Client.{Env, Config, State, receive_one, receive_all}

-- A received packet is refused, or it is a reply to a request, by its identifier.
pub data Kind : Type 0 where
  refused : Kind
  reply : ℕ → ClientRequest → Kind

-- The identifier that a packet carries, in an mbuf `b` with its data in `memory`.
abbrev pub id_of : (ℕ → ℕ) → Mbuf → ℕ
id_of memory b = read_u64 memory (u64 (b.data_ptr + 42)) 0

abbrev pub check : Config → (ℕ → ℕ) → Mbuf → Option (ℕ × ℕ)
check c memory b = check_valid_packet (read memory b.data_ptr 42) b.data_ptr b.len c.client_mac

abbrev pub Is : Config → (ℕ → ℕ) → List ClientRequest → Mbuf → Kind → Type 0
Is c memory requests b refused = check c memory b ≡ none
Is c memory requests b (reply id r) =
    (n : ℕ) × (check c memory b ≡ some (u64 (b.data_ptr + 42), n))
    × (id_of memory b ≡ id)
    × (get_elem? requests id ≡ some r)

-- Packets of the receive pool, with the kind of each.
abbrev pub Received : Config → (ℕ → ℕ) → List ClientRequest → (ℕ → Mbuf) → List (ℕ × Kind) → Type 0
Received c memory requests heap [] = Unit {0}
Received c memory requests heap ((pkt, kind) ∷ burst) =
    Is c memory requests (heap pkt) kind
    × ((heap pkt).release ≡ rx_completion)
    × Received c memory requests heap burst

-- The round trip times of the replies, whose clock reads start at `t`, and their identifiers.
abbrev pub rtts_of : Env → ℕ → ℕ → List (ℕ × Kind) → List ℕ
rtts_of e start t [] = []
rtts_of e start t ((pkt, refused) ∷ burst) = rtts_of e start t burst
rtts_of e start t ((pkt, reply id r) ∷ burst) =
    sub64 (sub64 (e.cycles t) start) r.timestamp_offset ∷ rtts_of e start (t + 1) burst

abbrev pub ids_of : List (ℕ × Kind) → List ℕ
ids_of [] = []
ids_of ((pkt, refused) ∷ burst) = ids_of burst
ids_of ((pkt, reply id r) ∷ burst) = u32 id ∷ ids_of burst

abbrev pub mbufs_of : List (ℕ × Kind) → List ℕ
mbufs_of [] = []
mbufs_of ((pkt, kind) ∷ burst) = pkt ∷ mbufs_of burst

-- The packet map `m'` is `m` with these round trip times and identifiers behind.
abbrev pub Extended : List ℕ → List ℕ → PacketMap → PacketMap → Type 0
Extended rtts ids m m' =
    (entries m'.rtts 0 m'.total_count ≡ entries m.rtts 0 m.total_count ++ rtts)
    × (entries m'.ids 0 m'.total_count ≡ entries m.ids 0 m.total_count ++ ids)
    × (m'.total_count ≡ m.total_count + length ids)

-- With room, a sample is recorded behind the others.
pub add_latency_to_map_lem :
    (m : PacketMap) (rtt id : ℕ)
    → m.total_count < 1000000
    → (m' : PacketMap) × (add_latency_to_map m rtt id ≡ ok (true, m'))
      × Extended (rtt ∷ []) (id ∷ []) m m'
unfolding add_latency_to_map
add_latency_to_map_lem m rtt id h =
    let n = m.total_count in
    let one_more : add64 n 1 ≡ suc n = omega arith in
    let room : ltb n 1000000 ≡ true = ground arith in
    let within : ltb 1000000 (suc n) ≡ false = ground arith in
    (
      record { rtts = put m.rtts n rtt; ids = put m.ids n id; total_count = suc n },
      rw (room, one_more, within) refl,
      (
        entries-snoc m.rtts 0 n n rtt (omega arith),
        entries-snoc m.ids 0 n n id (omega arith),
        omega arith,
      ),
    )

Extended-cons :
    (rtt id : ℕ) (rtts ids : List ℕ) (m m' m'' : PacketMap)
    → Extended (rtt ∷ []) (id ∷ []) m m'
    → Extended rtts ids m' m''
    → Extended (rtt ∷ rtts) (id ∷ ids) m m''
Extended-cons rtt id rtts ids m m' m'' (a, b, c) (a', b', c') = (
  a' ∙ ap (λ l. l ++ rtts) a ∙ append_assoc _ (rtt ∷ []) rtts,
  b' ∙ ap (λ l. l ++ ids) b ∙ append_assoc _ (id ∷ []) ids,
  omega arith,
)

-- The buffer of a received packet goes back to the receive pool.
pub free_received :
    (rounds : ℕ) (w : World) (pkt n : ℕ)
    → (w.heap pkt).release ≡ rx_completion
    → Holds w.rx_buf_mempool (suc n)
    → (pool : Mempool) × (mbuf_free rounds w pkt ≡ ok (record w { rx_buf_mempool = pool }))
      × Holds pool n
      × ((xs : List ℕ) (pool' : Mempool)
          → Returned xs pool pool'
          → Returned ((w.heap pkt).head ∷ xs) w.rx_buf_mempool pool')
unfolding mbuf_free
free_received rounds w pkt n e h =
    let (pool, done, holds, back) = free_step w.rx_buf_mempool (w.heap pkt).head n h in
    (pool, rw (e, mbuf_free, done) refl, holds, back)

-- Receiving a burst of packets of which each is refused or answers a request of the array, with
-- room in the packet map, records for the replies, in order, the time that has passed since their
-- request was sent, at one read of the clock for each, and the low 32 bits of their identifiers. It
-- gives the buffers of all of them back, in order, and changes no other part of the state but the
-- two counters.
pub receive_all_lem :
    (e : Env) (c : Config) (start : ℕ) (s : State) (burst : List (ℕ × Kind))
    → Received c s.memory s.requests s.world.heap burst
    → Holds s.world.rx_buf_mempool (length burst)
    → s.packet_map.total_count + length burst ≤ 1000000
    → (pool : Mempool) × (m : PacketMap) × (received outstanding ticks : ℕ) × (receive_all e c start
          s
          (mbufs_of burst)
        ≡ ok (record s {
          world = record (s.world) { rx_buf_mempool = pool };
          packet_map = m;
          num_received = received;
          outstanding = outstanding;
          ticks = ticks;
        }))
      × Extended (rtts_of e start s.ticks burst) (ids_of burst) s.packet_map m
      × Returned (map (λ p. (s.world.heap p).head) (mbufs_of burst)) s.world.rx_buf_mempool pool
      × (ticks ≡ s.ticks + length (ids_of burst))
unfolding receive_all
receive_all_lem e c start s [] k (v, h) room = (
  s.world.rx_buf_mempool,
  s.packet_map,
  s.num_received,
  s.outstanding,
  s.ticks,
  refl,
  (sym (append-nil _), sym (append-nil _), omega arith),
  (v, refl, omega arith),
  omega arith,
)
receive_all_lem e c start s ((pkt, refused) ∷ burst) (is, release, later) h room =
    let (pool₁, freed, holds, back) = free_received e.chain s.world pkt (length burst) release h in
    let s₁ : State = record s { world = record (s.world) { rx_buf_mempool = pool₁ } } in
    let (pool, m, received, outstanding, ticks, done, extended, returned, count) =
      receive_all_lem e c start s₁ burst later holds (omega arith) in
    (
      pool,
      m,
      received,
      outstanding,
      ticks,
      rw (is, receive_one, freed) done,
      extended,
      back _ pool returned,
      count,
    )
receive_all_lem e c start s ((pkt, reply id r) ∷ burst) ((n, is, named, found), release, later) h
      room =
    let (pool₁, freed, holds, back) = free_received e.chain s.world pkt (length burst) release h in
    let rtt = sub64 (sub64 (e.cycles s.ticks) start) r.timestamp_offset in
    let (m₁, added, first) = add_latency_to_map_lem s.packet_map rtt (u32 id) (omega arith) in
    let s₁ : State = record s {
      world = record (s.world) { rx_buf_mempool = pool₁ };
      packet_map = m₁;
      num_received = add64 s.num_received 1;
      outstanding = sub64 s.outstanding 1;
      ticks = s.ticks + 1;
    } in
    let (pool, m, received, outstanding, ticks, done, extended, returned, count) =
      receive_all_lem e c start s₁ burst later holds (omega (arith, first.2)) in
    (
      pool,
      m,
      received,
      outstanding,
      ticks,
      rw (is, receive_one, named, found, named, added, freed) done,
      Extended-cons rtt (u32 id) _ _ s.packet_map m₁ m first extended,
      back _ pool returned,
      omega (arith, count),
    )
