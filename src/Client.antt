-- ===== src/Client.antt =====
-- The client of main.c: `do_client`, which sends one request after the other at their times and
-- records how long the replies took. What it reads of the clock is an argument, read by read; so is
-- what the hardware does in between. NETPERF_ASSERT is empty, as in the release build.
pub mod Send
pub mod Stuck
pub mod Required
pub mod Replies
pub mod Overrun
pub mod Waiting
mod Tests
use mlx5_netperf.Prelude.{
  ℕ, zero, suc, ◌+◌, ◌-◌, ◌*◌, ◌/◌, ◌%◌, ◌^◌, Bool, true, false, Option, none, some, List, [], ◌∷◌,
  ◌++◌, ltb, leb, ◌==◌, if◌then◌else◌, length, get_elem?, set, take, drop,
}
use mlx5_netperf.Prelude.Word.{u32, u64, add64, sub64}
use mlx5_netperf.Prelude.Outcome.{Outcome, ok, fault, ◌>>=◌}
use mlx5_netperf.Mbuf.{Mbuf, tx_completion, init, copy}
use mlx5_netperf.Mempool.{alloc}
use mlx5_netperf.Completion.{World, mbuf_free}
use mlx5_netperf.Headers.{OutgoingHeader, in_memory, le32, check_valid_packet}
use mlx5_netperf.Tx.{Mlx5dv, Txq}
use mlx5_netperf.Tx.Post.{transmit_one}
use mlx5_netperf.Rx.{Rxq, RxState, gather_rx}
use mlx5_netperf.Requests.{ClientRequest}
use mlx5_netperf.Latency.{
  PacketMap, LatencyDist, Groups, add_latency_to_map, calculate_latencies, max_segment_size,
}
use mlx5_netperf.Server.{read, write, read_u64}
use mlx5_netperf.Server.Packet.{update}
use mlx5_netperf.Server.Process.{no_header}

abbrev pub req_mbufs_size : ℕ
req_mbufs_size = 16384

-- The settings of the client, and the header that `init_workload` made.
pub record Config : Type 0 where
  pub num_segments : ℕ
  pub segment_size : ℕ
  pub tx_lkey : ℕ
  pub client_mac : List ℕ
  pub header : OutgoingHeader

-- What the client changes. `ticks` counts the reads of the clock, `current` is the index of
-- `current_request`; `outstanding` is only counted down.
pub record State : Type 0 where
  pub world : World
  pub txq : Txq
  pub rxq : Rxq
  pub total_dropped : ℕ
  pub memory : ℕ → ℕ
  pub requests : List ClientRequest
  pub current : ℕ
  pub packet_map : PacketMap
  pub num_received : ℕ
  pub outstanding : ℕ
  pub ticks : ℕ

-- `cycles n` is what read `n` of the clock gives, `nanos` its conversion in floating point. Before
-- a try to send `nic` may complete sends, and before a call of `mlx5_gather_rx` at read `n` of the
-- clock `deliver n` may put packets into the receive queue's buffers. `tries` and `rounds` bound
-- the loops that wait, and `chain` those over the mbufs of a packet.
pub record Env : Type 0 where
  pub dv : Mlx5dv
  pub cycles : ℕ → ℕ
  pub nanos : ℕ → ℕ
  pub nic : ℕ → Txq → Txq
  pub deliver : ℕ → Rxq → (ℕ → ℕ) → Rxq × (ℕ → ℕ)
  pub tries : ℕ
  pub rounds : ℕ
  pub chain : ℕ

-- The bytes of the array of requests, whose struct is packed.
abbrev pub le64 : ℕ → List ℕ
le64 v = le32 (v % 2 ^ 32) ++ le32 (v / 2 ^ 32)

abbrev pub words : List ℕ → List ℕ
words [] = []
words (x ∷ xs) = le64 x ++ words xs

unfoldable pub request_bytes : List ClientRequest → List ℕ
request_bytes [] = []
request_bytes (r ∷ rs) =
    le64 r.timestamp_offset
    ++ ((le32 r.packet_id ++ (le32 r.id_padding ++ words r.segment_offsets)) ++ request_bytes rs)

unfoldable pub client_payload_size : Config → ℕ
client_payload_size c = u64 (8 * (c.num_segments + 1))

-- What is copied from a request on, behind its timestamp; the array must be long enough.
unfoldable pub payload_of : Config → List ClientRequest → Outcome (List ℕ)
unfolding request_bytes client_payload_size
payload_of c requests =
    let payload = take (client_payload_size c) (drop 8 (request_bytes requests)) in
    if length payload == client_payload_size c then ok payload else fault

-- The mbuf of the current request: `none` where there is no mbuf. Without a buffer the copies write
-- through a null pointer.
unfoldable pub prepare : Config → State → Outcome (Option ℕ × State)
unfolding payload_of
prepare c s = do
  (taken, mbufs) ← alloc s.world.mbuf_mempool
  elim taken [
    | none ↦ ok (none, record s { world = record (s.world) { mbuf_mempool = mbufs } })
    | some pkt ↦ alloc s.world.tx_buf_mempool >>= λ found. elim found.0 [
      | none ↦ fault
      | some buffer ↦
          let b = record (init (s.world.heap pkt) buffer req_mbufs_size 0) {
            release = tx_completion;
            lkey = c.tx_lkey;
          } in
          payload_of c (drop s.current s.requests) >>= λ payload.
          let (header_at, b₁) = copy b (in_memory c.header) 0 in
          let (payload_at, b₂) = copy b₁ payload 44 in
          ok (
            some pkt,
            record s {
              memory = write (write s.memory header_at (in_memory c.header)) payload_at payload;
              world = record (s.world) {
                heap = update s.world.heap pkt b₂;
                mbuf_mempool = mbufs;
                tx_buf_mempool = found.1;
              };
            },
          )
    ]
  ]

-- `while (sent != 1)`, with the tries left.
unfoldable pub transmit : Env → ℕ → World → Txq → ℕ → Outcome (World × Txq)
transmit e zero w v pkt = fault
transmit e (suc tries) w v pkt =
    transmit_one e.dv e.chain w (e.nic tries v) pkt no_header 0 >>= λ tried.
    let again = transmit e tries tried.1 tried.2 pkt in
    if tried.0 then ok (tried.1, tried.2) else again

-- `cycles_offset(start)` at the next read of the clock.
abbrev pub cycles_offset : Env → ℕ → State → ℕ
cycles_offset e start s = sub64 (e.cycles s.ticks) start

-- From the read of the clock to the step to the next request; `start` is `start_cycle_offset`.
unfoldable pub send_current : Env → ℕ → State → ℕ → Outcome State
unfolding transmit
send_current e start s pkt = elim (get_elem? s.requests s.current) [
  | none ↦ fault
  | some r ↦
      let cur_send = cycles_offset e start s in
      transmit e e.tries s.world s.txq pkt >>= λ sent. ok (record s {
        world = sent.0;
        txq = sent.1;
        requests = set s.requests s.current (record r { timestamp_offset = cur_send });
        current = s.current + 1;
        ticks = s.ticks + 1;
      })
]

-- One received packet. An identifier beyond the array of requests is an access out of its bounds.
unfoldable pub receive_one : Env → Config → ℕ → State → ℕ → Outcome State
receive_one e c start s pkt =
    let b = s.world.heap pkt in
    elim (check_valid_packet (read s.memory b.data_ptr 42) b.data_ptr b.len c.client_mac) [
      | none ↦ mbuf_free e.chain s.world pkt >>= λ w. ok (record s { world = w })
      | some (payload, payload_len) ↦
          let id = read_u64 s.memory payload 0 in
          elim (get_elem? s.requests id) [
            | none ↦ fault
            | some r ↦
                let rtt = sub64 (cycles_offset e start s) r.timestamp_offset in
                add_latency_to_map s.packet_map rtt (u32 id) >>= λ added.
                mbuf_free e.chain s.world pkt >>= λ w. ok (record s {
                  world = w;
                  packet_map = added.1;
                  num_received = add64 s.num_received 1;
                  outstanding = sub64 s.outstanding 1;
                  ticks = s.ticks + 1;
                })
          ]
    ]

unfoldable pub receive_all : Env → Config → ℕ → State → List ℕ → Outcome State
unfolding receive_one
receive_all e c start s [] = ok s
receive_all e c start s (pkt ∷ pkts) = do
  s' ← receive_one e c start s pkt
  receive_all e c start s' pkts

-- `mlx5_gather_rx` on the client's queue and receive pool, for up to 32 packets.
unfoldable pub gather : Env → State → Outcome (List ℕ × State)
gather e s =
    let (rxq, memory) = e.deliver s.ticks s.rxq s.memory in
    let before : RxState = record {
      rxq = rxq;
      heap = s.world.heap;
      pool = s.world.rx_buf_mempool;
      total_dropped = s.total_dropped;
    } in
    gather_rx e.dv 32 before >>= λ burst. ok (
      burst.0,
      record s {
        rxq = burst.1.rxq;
        total_dropped = burst.1.total_dropped;
        memory = memory;
        world = record (s.world) { heap = burst.1.heap; rx_buf_mempool = burst.1.pool };
      },
    )

-- `while (true)`, with the rounds left: the state and the lateness budget where it is time for the
-- next request. `last` is `last_sent_cycle`.
unfoldable pub wait : Env → Config → ℕ → ℕ → ℕ → State → ℕ → Outcome (State × ℕ)
unfolding gather receive_all
wait e c start last zero s budget = fault
wait e c start last (suc rounds) s budget = elim (get_elem? s.requests s.current) [
  | none ↦ fault
  | some r ↦
      let s₁ = record s { ticks = s.ticks + 1 } in
      let next : Outcome (State × ℕ) = gather e s₁ >>= λ burst.
      receive_all e c start burst.1 burst.0 >>= λ s₂. wait e c start last rounds s₂ budget in
      if ltb r.timestamp_offset budget
      then ok (s, budget - r.timestamp_offset)
      else if leb (add64 (sub64 r.timestamp_offset budget) last) (cycles_offset e start s)
      then ok (s₁, 0)
      else next
]

-- How the main loop ends: with the time over, or with -ENOMEM.
pub data Ended : Type 0 where
  time_over enomem_returned : Ended

-- One round of the main loop after its test; `none` is the return of -ENOMEM.
unfoldable pub client_round : Env → Config → ℕ → State → ℕ → Outcome (Option ℕ × State)
unfolding prepare send_current wait
client_round e c start s budget = do
  (prepared, s₁) ← prepare c s
  elim prepared [
    | none ↦ ok (none, s₁)
    | some pkt ↦
        let cur_send = cycles_offset e start s₁ in
        send_current e start s₁ pkt >>= λ s₂.
        wait e c start cur_send e.rounds s₂ budget >>= λ waited. ok (some waited.1, waited.0)
  ]

-- The main loop, with the rounds left, up to `end` in nanoseconds.
unfoldable pub client_loop : Env → Config → ℕ → ℕ → ℕ → State → ℕ → Outcome (Ended × State)
unfolding client_round
client_loop e c start end zero s budget = fault
client_loop e c start end (suc rounds) s budget =
    let s₁ = record s { ticks = s.ticks + 1 } in
    let next : Outcome (Ended × State) = client_round e c start s₁ budget >>= λ after.
    elim after.0 [
      | none ↦ ok (enomem_returned, after.1)
      | some budget' ↦ client_loop e c start end rounds after.1 budget'
    ] in
    if ltb (e.nanos (e.cycles s.ticks)) end then next else ok (time_over, s₁)

-- `ceil` of the quotient of two numbers.
abbrev pub ceiling : ℕ → ℕ → ℕ
ceiling a b = (a + b - 1) / b

-- The conversion of a `double` to `int`, which is undefined where it does not fit.
abbrev pub to_int : ℕ → Outcome ℕ
to_int n = if ltb n (2 ^ 31) then ok n else fault

-- `calculate_total_packets_required`. The quotients are below 2^32, so that `double` is exact
-- enough for `ceil`; the first branch ends the process for more than one segment.
unfoldable pub calculate_total_packets_required : ℕ → ℕ → Outcome ℕ
calculate_total_packets_required seg_size nb_segs =
    if ltb max_segment_size seg_size
    then (if nb_segs == 1 then to_int (ceiling seg_size max_segment_size) else fault)
    else if seg_size == 0
    then fault
    else to_int (ceiling nb_segs (max_segment_size / seg_size))

-- What follows the main loop, up to the first function that prints; `per_request` is
-- `total_packets_per_request`.
unfoldable pub evaluate :
    Option (ℕ → ℕ) → Option Groups → State → LatencyDist → ℕ → Outcome LatencyDist
evaluate memory arrays s dist per_request = elim (get_elem? s.requests s.current) [
  | none ↦ fault
  | some r ↦ calculate_latencies memory arrays s.packet_map dist (sub64 r.packet_id 1) per_request
]

-- `ns_to_cycles` converts in floating point, `total_time` is in nanoseconds, and `rounds` bounds
-- the main loop.
unfoldable pub do_client :
    Env
    → Config
    → (ℕ → ℕ)
    → ℕ
    → ℕ
    → Option (ℕ → ℕ)
    → Option Groups
    → State
    → LatencyDist
    → Outcome (Ended × State × LatencyDist)
unfolding client_loop evaluate calculate_total_packets_required
do_client e c ns_to_cycles total_time rounds memory arrays s dist =
    calculate_total_packets_required (u32 c.segment_size) (u32 c.num_segments) >>= λ per_request.
    let start_time = e.nanos (e.cycles s.ticks) in
    let s₁ = record s { ticks = s.ticks + 1; current = 0 } in
    client_loop e c (ns_to_cycles start_time) (add64 start_time total_time) rounds s₁ 0 >>= λ after.
    elim after.0 [
      | enomem_returned ↦ ok (enomem_returned, after.1, dist)
      | time_over ↦ evaluate memory arrays after.1 dist per_request >>= λ dist'.
          ok (time_over, after.1, dist')
    ]
