-- ===== src/Server/Process.antt =====
-- `process_echo_requests` and `process_server_requests` of main.c: a batch of requests is answered,
-- and the replies are sent.
pub mod Shortage
use mlx5_netperf.Prelude.{
  ℕ, zero, suc, ◌+◌, ◌-◌, ◌*◌, ◌%◌, ◌^◌, Bool, true, false, Option, none, some, List, [], ◌∷◌, ◌++◌,
  ltb, ◌==◌, if◌then◌else◌, length, get_elem?, take,
}
use mlx5_netperf.Prelude.Word.{u32, u64, add64, sub64}
use mlx5_netperf.Prelude.Outcome.{Outcome, ok, fault, ◌>>=◌}
use mlx5_netperf.Mbuf.{Mbuf}
use mlx5_netperf.Completion.{World}
use mlx5_netperf.Headers.{OutgoingHeader, RequestHeader, flip, in_packet, request_at}
use mlx5_netperf.Tx.{Mlx5dv, Txq}
use mlx5_netperf.Tx.Post
use mlx5_netperf.Tx.Post.{free_all}
use mlx5_netperf.Server.{Config, State, read, write, batch_size, inlined, post_mbufs}
use mlx5_netperf.Server.Packet.{update, Built, built, no_mbuf, no_buffer, build_packet}

-- What the sends take besides the configuration: rdma-core, the checksum of DPDK, what the hardware
-- does between the tries of `post_mbufs`, how many tries it may take, and how long a chain may be.
pub record Env : Type 0 where
  pub dv : Mlx5dv
  pub rte_raw_cksum : List ℕ → ℕ
  pub nic : ℕ → Txq → Txq
  pub tries : ℕ
  pub rounds : ℕ

-- How a function that returns an error code ends: `done` with 0.
pub data Status : Type 0 where
  done enomem_returned einval_returned : Status

-- A header for the sends that have none, with inline length 0.
abbrev pub no_header : Post.RequestHeader
no_header = record { eth = []; ipv4 = []; udp = []; packet_id = []; checksum = [] }

abbrev pub post_all : Env → State → List (ℕ × Post.RequestHeader × ℕ) → Outcome (Status × State)
post_all e s sends = post_mbufs e.dv e.nic e.rounds e.tries s.world s.txq sends >>= λ sent.
    ok (done, record s { world = sent.0; txq = sent.1 })

-- `flip_headers`: the headers are turned round also where it then returns an error, for a buffer
-- shorter than the reply with `sizeof(RequestHeader)`, 64 bytes.
unfoldable pub flip_headers : Env → State → ℕ → ℕ → Outcome (Status × State)
flip_headers e s request outgoing_size =
    let b = s.world.heap request in
    let r = request_at (read s.memory b.data_ptr 58) in
    let r' = record r { packet_header = flip e.rte_raw_cksum r.packet_header outgoing_size } in
    let s' = record s { memory = write s.memory b.data_ptr (in_packet r') } in
    let size = add64 outgoing_size 64 in
    if ltb b.head_len size
    then ok (einval_returned, s')
    else ok (
      done,
      record s' {
        world = record (s'.world) {
          heap = update s'.world.heap request (record b { len = u32 size });
        };
      },
    )

-- The loop over the requests, with those behind it.
unfoldable pub echo_loop :
    Env → Config → State → List (ℕ × Post.RequestHeader × ℕ) → List ℕ → Outcome (Status × State)
unfolding flip_headers
echo_loop e c s sends [] = post_all e s sends
echo_loop e c s sends (request ∷ requests) =
    let b = record (s.world.heap request) { nb_segs = 1; next = none; lkey = c.rx_lkey } in
    let s₁ = record s { world = record (s.world) { heap = update s.world.heap request b } } in
    flip_headers e s₁ request (u64 (c.num_segments * c.segment_size)) >>= λ flipped.
    elim flipped.0 [
      | done ↦ echo_loop e c flipped.1 (sends ++ ((request, no_header, 0) ∷ [])) requests
      | enomem_returned ↦ ok flipped
      | einval_returned ↦ ok flipped
    ]

unfoldable pub process_echo_requests : Env → Config → State → List ℕ → Outcome (Status × State)
unfolding echo_loop
process_echo_requests e c s requests = echo_loop e c s [] requests

-- `for (pkt = 0; pkt < pkt_idx - 1; pkt++) mbuf_free(send_mbufs[pkt][0])`, where the first mbufs of
-- the earlier packets are `firsts`: for request 0 the bound wraps, and the loop frees what the
-- array holds behind them, which nothing has set.
unfoldable pub free_earlier : ℕ → World → List ℕ → Outcome World
free_earlier rounds w firsts =
    let bound = sub64 (length firsts) 1 in
    if ltb (length firsts) bound then fault else free_all rounds w (take bound firsts)

-- The sends of a batch: header and inline length are those of `init_workload`.
unfoldable pub sends_of : Config → List RequestHeader → List ℕ → List (ℕ × Post.RequestHeader × ℕ)
sends_of c headers [] = []
sends_of c [] (m ∷ ms) = []
sends_of c (h ∷ hs) (m ∷ ms) =
    (if c.zero_copy == 0 then (m, no_header, 0) else (m, inlined h, 58)) ∷ sends_of c hs ms

-- The loop over the requests, with the first mbufs of the packets built before.
unfoldable pub process_loop : Env → Config → State → List ℕ → List ℕ → Outcome (Status × State)
unfolding free_earlier sends_of
process_loop e c s firsts [] = post_all e s (sends_of c s.request_headers firsts)
process_loop e c s firsts (request ∷ requests) =
    build_packet e.rounds c s (length firsts) request >>= λ result. elim result.0 [
      | built m ↦ process_loop e c result.1 (firsts ++ (m ∷ [])) requests
      | no_mbuf ↦ free_earlier e.rounds result.1.world firsts >>= λ w.
          ok (enomem_returned, record (result.1) { world = w })
      | no_buffer ↦ ok (enomem_returned, result.1)
    ]

unfoldable pub process_server_requests : Env → Config → State → List ℕ → Outcome (Status × State)
unfolding process_loop process_echo_requests
process_server_requests e c s requests =
    if ltb batch_size (length requests)
    then fault
    else if c.echo_mode == 1
    then process_echo_requests e c s requests
    else process_loop e c s [] requests
