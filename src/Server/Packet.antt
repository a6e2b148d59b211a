-- ===== src/Server/Packet.antt =====
-- How `process_server_requests` of main.c builds the reply to one request: a chain of mbufs that
-- point into the working set (zero copy), or one mbuf that the segments are copied into.
pub mod Gathered
pub mod Raised
pub mod Chained
pub mod Reply
pub mod Release
use mlx5_netperf.Prelude.{
  ℕ, zero, suc, ◌+◌, ◌-◌, ◌*◌, ◌%◌, ◌^◌, Bool, true, false, Option, none, some, List, [], ◌∷◌, ltb,
  not, ◌&&◌, ◌==◌, if◌then◌else◌, get_elem?, set,
}
use mlx5_netperf.Prelude.Count.{last}
use mlx5_netperf.Prelude.Word.{u32, u64, add64, sub32, sub64}
use mlx5_netperf.Prelude.Outcome.{Outcome, ok, fault, ◌>>=◌}
use mlx5_netperf.Mbuf
use mlx5_netperf.Mbuf.{Mbuf, tx_completion, zero_copy_tx_completion}
use mlx5_netperf.Mempool.{alloc}
use mlx5_netperf.Refcnt.{server_change_refcnt}
use mlx5_netperf.Completion.{World, mbuf_free}
use mlx5_netperf.Headers.{
  RequestHeader, in_packet, request_at, parse_outgoing_request_header,
  parse_outgoing_request_header_into_mbuf,
}
use mlx5_netperf.Server.{
  Config, State, max_scatters, read, write, read_segments, calculate_checksum,
}

-- The heap with one mbuf written.
abbrev pub update : (ℕ → Mbuf) → ℕ → Mbuf → ℕ → Mbuf
update heap m b a = if a == m then b else heap a

-- `get_server_region` of the physical segment of a virtual segment.
abbrev pub region : Config → ℕ → ℕ → ℕ
region c num_total_segments v = u64 (c.server_working_set + v % num_total_segments * c.segment_size)

-- `prev->next = m`, if there is a previous mbuf.
abbrev pub link : (ℕ → Mbuf) → Option ℕ → ℕ → ℕ → Mbuf
link heap none m = heap
link heap (some p) m = update heap p (record (heap p) { next = some m })

-- The block under `using_ref_counting`: the count goes up and is added to the checksum.
unfoldable pub take_reference : World → ℕ → ℕ → Mbuf → Outcome (World × ℕ × Mbuf)
take_reference w v checksum b =
    if w.using_ref_counting == 0
    then ok (w, checksum, b)
    else (server_change_refcnt w.refcnts v 1 >>= λ changed.
        ok (
          record w { refcnts = changed.1 },
          add64 checksum changed.0,
          record b { release_data = v },
        ))

-- One round of the loop over the segments: `none` where no mbuf is left.
unfoldable pub zero_copy_one : Config → World → ℕ → Option ℕ → ℕ → Outcome (Option (ℕ × World × ℕ))
unfolding take_reference
zero_copy_one c w checksum prev v =
    if w.refcnts.num_total_segments == 0
    then fault
    else (alloc w.mbuf_mempool >>= λ found. elim found.0 [
      | none ↦ ok none
      | some m ↦
          let heap = link w.heap prev m in
          let b = record (heap m) { lkey = c.tx_lkey; release = zero_copy_tx_completion } in
          let w₁ = record w { heap = heap; mbuf_mempool = found.1 } in
          take_reference w₁ v checksum b >>= λ counted.
          let b' =
            Mbuf.init counted.2 (region c w.refcnts.num_total_segments v) (u32 c.segment_size) 0 in
          let b'' = record b' { len = u32 c.segment_size } in
          ok (some (m, record (counted.0) { heap = update heap m b'' }, counted.1))
    ])

abbrev pub in_front : ℕ → Option (List ℕ) → Option (List ℕ)
in_front m none = none
in_front m (some ms) = some (m ∷ ms)

-- The loop: the mbufs of the packet (`none` where they ran out), and the checksum.
unfoldable pub zero_copy_loop :
    Config → World → ℕ → Option ℕ → List ℕ → Outcome (Option (List ℕ) × World × ℕ)
unfolding zero_copy_one
zero_copy_loop c w checksum prev [] = ok (some [], w, checksum)
zero_copy_loop c w checksum prev (v ∷ vs) = zero_copy_one c w checksum prev v >>= λ made.
    elim made [
      | none ↦ ok (none, w, checksum)
      | some (m, w', checksum') ↦ zero_copy_loop c w' checksum' (some m) vs >>= λ rest.
          ok (in_front m rest.0, rest.1, rest.2)
    ]

-- What is set of the first and of the last mbuf behind the loop.
unfoldable pub finish_chain : Config → (ℕ → Mbuf) → ℕ → List ℕ → ℕ → Mbuf
finish_chain c heap m ms =
    let heap₁ = update heap m (record (heap m) { nb_segs = u32 c.num_segments }) in
    let heap₂ = update heap₁ (last m ms) (record (heap₁ (last m ms)) { next = none }) in
    update heap₂ m (record (heap₂ m) { pkt_len = u32 (c.segment_size * c.num_segments) })

-- What building a reply comes to: the first mbuf, or an early return of ENOMEM.
pub data Built : Type 0 where
  built : ℕ → Built
  no_mbuf no_buffer : Built

-- The zero-copy branch for request `pkt_idx`, with the segments that it names.
unfoldable pub zero_copy_packet : Config → State → ℕ → ℕ → List ℕ → Outcome (Built × State)
unfolding zero_copy_loop finish_chain
zero_copy_packet c s pkt_idx request segments = elim (get_elem? s.request_headers pkt_idx) [
  | none ↦ fault
  | some h ↦
      let start = request_at (read s.memory (s.world.heap request).data_ptr 58) in
      let payload_size = u64 (c.num_segments * c.segment_size + 16) in
      let h' = parse_outgoing_request_header h start payload_size in
      zero_copy_loop c s.world h'.checksum none segments >>= λ made.
      let headers = set s.request_headers pkt_idx (record h' { checksum = made.2 }) in
      elim made.0 [
        | none ↦ ok (no_mbuf, record s { world = made.1; request_headers = headers })
        | some [] ↦ fault
        | some (m ∷ ms) ↦ ok (
          built m,
          record s {
            world = record (made.1) { heap = finish_chain c made.1.heap m ms };
            request_headers = headers;
          },
        )
      ]
]

abbrev pub data_mbufs_size : ℕ
data_mbufs_size = 16384

abbrev pub header_len : ℕ
header_len = 58

-- The loop of `mbuf_copy`, from segment `seg` on.
unfoldable pub copy_segments : Config → World → Mbuf → ℕ → List ℕ → (ℕ → ℕ) → ℕ → ℕ
copy_segments c w b seg [] memory = memory
copy_segments c w b seg (v ∷ vs) memory =
    let bytes = read memory (region c w.refcnts.num_total_segments v) c.segment_size in
    copy_segments c w b (seg + 1) vs
      (write memory (Mbuf.copy b bytes (header_len + seg * c.segment_size)).0 bytes)

-- The copying branch; an mbuf without buffer is freed as the pool gave it.
unfoldable pub copy_packet : ℕ → Config → State → ℕ → List ℕ → Outcome (Built × State)
unfolding copy_segments
copy_packet rounds c s request segments = alloc s.world.mbuf_mempool >>= λ found. elim found.0 [
  | none ↦ ok (no_mbuf, s)
  | some m ↦
      let w = s.world in
      let b = record (w.heap m) { lkey = c.tx_lkey } in
      let w₁ = record w { heap = update w.heap m b; mbuf_mempool = found.1 } in
      alloc w.tx_buf_mempool >>= λ buffer. elim buffer.0 [
        | none ↦ mbuf_free rounds w₁ m >>= λ w₂. ok (no_buffer, record s { world = w₂ })
        | some buf ↦
            let b₁ = record (Mbuf.init b buf data_mbufs_size 0) {
              release = tx_completion;
              next = none;
            } in
            let payload_size = u64 (c.num_segments * c.segment_size + 16) in
            let start = request_at (read s.memory (w.heap request).data_ptr 58) in
            let h =
              parse_outgoing_request_header_into_mbuf (request_at (read s.memory buf 58)) start
                payload_size in
            let memory = write s.memory buf (in_packet h) in
            let total = u32 (header_len + c.segment_size * c.num_segments) in
            let b₂ = record b₁ { nb_segs = 1; pkt_len = total; len = total } in
            if (w.refcnts.num_total_segments == 0) && not (c.num_segments == 0)
            then fault
            else ok (
              built m,
              record s {
                world = record w₁ { heap = update w.heap m b₂; tx_buf_mempool = buffer.1 };
                memory = copy_segments c w b₁ 0 segments memory;
              },
            )
      ]
]

-- The block under `read_incoming_packet`.
unfoldable pub sum_payload : Config → State → ℕ → ℕ → RequestHeader → State
sum_payload c s pkt_idx request h =
    let b = s.world.heap request in
    let sum = calculate_checksum s.memory (u64 (b.data_ptr + 42)) 20 (sub32 b.len 42) in
    if c.read_incoming_packet == 1
    then record s { request_headers = set s.request_headers pkt_idx (record h { checksum = sum }) }
    else s

unfoldable pub build_reply : ℕ → Config → State → ℕ → ℕ → List ℕ → Outcome (Built × State)
unfolding zero_copy_packet copy_packet
build_reply rounds c s pkt_idx request segments =
    if c.zero_copy == 0
    then copy_packet rounds c s request segments
    else zero_copy_packet c s pkt_idx request segments

-- The body of the loop over the requests.
unfoldable pub build_packet : ℕ → Config → State → ℕ → ℕ → Outcome (Built × State)
unfolding sum_payload build_reply
build_packet rounds c s pkt_idx request =
    let payload = u64 ((s.world.heap request).data_ptr + 42) in
    let segments = read_segments s.memory payload 0 c.num_segments in
    if ltb max_scatters c.num_segments then fault else elim (get_elem? s.request_headers pkt_idx) [
      | none ↦ fault
      | some h ↦ build_reply rounds c (sum_payload c s pkt_idx request h) pkt_idx request segments
    ]
