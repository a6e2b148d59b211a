-- ===== src/Client/Tests.antt =====
-- The theorems on the client, at a request that is sent and packets 1, a reply to it, and 3, which
-- is refused.
use mlx5_netperf.Prelude.{
  ℕ, ◌+◌, ◌*◌, ◌≤◌, ◌<◌, ◌≡◌, ◌⊎◌, refl, sym, ap, none, some, List, [], ◌∷◌, ◌++◌, arith, ltb, ◌==◌,
  if◌then◌else◌, replicate, length,
}
use mathlib.Core.Path.{subst}
use mlx5_netperf.Prelude.Outcome.{ok, fault}
use mlx5_netperf.Mbuf.{Mbuf, tx_completion, rx_completion}
use mlx5_netperf.Mempool.{Mempool, blank}
use mlx5_netperf.Mempool.Stack.{available}
use mlx5_netperf.Completion.{World}
use mlx5_netperf.Completion.Chain.{Holds, Returned}
use mlx5_netperf.Headers.{OutgoingHeader, bswap16, check_valid_packet, in_memory}
use mlx5_netperf.Latency.{PacketMap}
use mlx5_netperf.Latency.{LatencyDist, Groups}
use mlx5_netperf.Requests.{ClientRequest}
use mlx5_netperf.Rx.{Rxq, gather_rx}
use mlx5_netperf.Server.{read, read_u64}
use mlx5_netperf.Server.Packet.{update}
use mlx5_netperf.Tx.{Txq, cqe_status, get_cqe_format}
use mlx5_netperf.Tx.Example.{dv}
use mlx5_netperf.Client.{
  Env, Config, State, prepare, gather, receive_all, wait, evaluate,
  calculate_total_packets_required,
}
use mlx5_netperf.Client.Required.{Least, calculate_total_packets_required_lem}
use mlx5_netperf.Client.Send.{Ready, filled, asked, prepare_lem}
use mlx5_netperf.Client.Replies.{
  Kind, refused, reply, check, id_of, Received, Extended, receive_all_lem,
}
use mlx5_netperf.Client.Overrun.{last_reply_overruns}
use mlx5_netperf.Client.Waiting.{Receives, wait_returns}

abbrev header : OutgoingHeader
header = record {
  eth = record { dhost = replicate 6 0; shost = replicate 6 0; type_field = 8 };
  ipv4 = record {
    version_ihl = 0;
    tos = 0;
    len = 0;
    id = 0;
    off = 0;
    ttl = 0;
    proto = 0;
    chksum = 0;
    saddr = 0;
    daddr = 0;
  };
  udp = record { src_port = 0; dst_port = 0; len = 0; chksum = 0 };
}

abbrev config : Config
config = record {
  num_segments = 2;
  segment_size = 100;
  tx_lkey = 4;
  client_mac = replicate 6 0;
  header = header;
}

abbrev heap : ℕ → Mbuf
heap m = record {
  next = none;
  head = 500;
  data_ptr = if m == 1 then 5000 else 9000;
  head_len = 1000;
  len = 100;
  nb_segs = 1;
  pkt_len = 100;
  rss_hash = 0;
  release_data = 0;
  release = if ltb m 10 then rx_completion else tx_completion;
  num_wqes = 1;
  lkey = 0;
}

-- The packet at 5000 is a UDP packet with identifier 0.
abbrev memory : ℕ → ℕ
memory a = if a == 5012 then 8 else if a == 5023 then 17 else 0

-- One item is in use, two are free.
abbrev pool : ℕ → ℕ → ℕ → Mempool
pool a b c = record blank { free_items = a ∷ b ∷ c ∷ []; allocated = 1; capacity = 3 }

abbrev world : World
world = record {
  heap = heap;
  rx_buf_mempool = record (pool 500 510 520) { allocated = 3 };
  tx_buf_mempool = pool 600 700 800;
  mbuf_mempool = pool 20 21 22;
  using_ref_counting = 0;
  refcnts = record { arrays = []; num_refcnt_arrays = 0; num_total_segments = 0 };
}

abbrev txq : Txq
txq = record {
  buffers = 0 ∷ 0 ∷ [];
  buf = replicate 128 0;
  wqe_cnt = 2;
  stride = 64;
  tx_sq_log_stride = 6;
  qp_num = 5;
  sq_head = 0;
  sq_dbrec = 0;
  bf_reg = [];
  cqes = [];
  cqe_cnt = 2;
  cq_head = 0;
  true_cq_head = 0;
  cq_dbrec = 0;
}

-- A receive queue whose next completion is not there yet.
abbrev rxq : Rxq
rxq = record {
  consumer_idx = 0;
  cqes =
      record {
        cqe = record { op_own = 0xf1; wqe_counter = 0 };
        byte_cnt = 0;
        rss_result = 0;
        sop_drop_qpn = 0;
      }
      ∷ [];
  cqe_cnt = 1;
  cq_dbrec = 0;
  wqe_cnt = 1;
  wq_head = 0;
  wq_dbrec = 0;
  addrs = 0 ∷ [];
  buffers = 0 ∷ [];
}

abbrev request : ℕ → ClientRequest
request id = record {
  timestamp_offset = 10;
  packet_id = id;
  id_padding = 0;
  segment_offsets = replicate 32 7;
}

abbrev state : State
state = record {
  world = world;
  txq = txq;
  rxq = rxq;
  total_dropped = 0;
  memory = memory;
  requests = request 0 ∷ request 1 ∷ [];
  current = 1;
  packet_map = record { rtts = λ i. 0; ids = λ i. 0; total_count = 0 };
  num_received = 0;
  outstanding = 0;
  ticks = 5;
}

-- A clock that goes on by 100 cycles from one read to the next, up to 5000.
abbrev env : Env
env = record {
  dv = dv;
  cycles = λ n. if ltb n 50 then 100 * n else 5000;
  nanos = λ cycles. cycles;
  nic = λ tries v. v;
  deliver = λ n q m. (q, m);
  tries = 4;
  rounds = 10;
  chain = 1;
}

two_packets : calculate_total_packets_required 3000 3 ≡ ok 2
unfolding calculate_total_packets_required
two_packets = refl

ready : Ready world 21 700 (22 ∷ []) (800 ∷ [])
ready = record {
  mbufs_valid = record { full = refl; within = omega arith; small = omega arith };
  buffers_valid = record { full = refl; within = omega arith; small = omega arith };
  next_mbuf = refl;
  next_buffer = refl;
}

header_is_44 : length (in_memory header) ≡ 44
unfolding in_memory
header_is_44 = refl

prepare_lem_example :
    (n : ℕ) × (memory' : ℕ → ℕ) × (mbuf_pool buffer_pool : Mempool) × (n ≡ 68)
    × (prepare config state
        ≡ ok (
          some 21,
          record state {
            memory = memory';
            world = record world {
              heap = update heap 21 (filled config (heap 21) 700 n);
              mbuf_mempool = mbuf_pool;
              tx_buf_mempool = buffer_pool;
            };
          },
        ))
    × (read memory' 700 n ≡ in_memory header ++ asked config (request 1))
    × ((x : ℕ) → (x < 700) ⊎ (700 + n ≤ x) → memory' x ≡ memory x)
    × (Holds mbuf_pool 1 × (available mbuf_pool ≡ 22 ∷ []))
    × (Holds buffer_pool 1 × (available buffer_pool ≡ 800 ∷ []))
prepare_lem_example =
    prepare_lem config state (request 1) [] 21 700 (22 ∷ []) (800 ∷ []) ready refl (omega arith)
      (omega arith) header_is_44 (omega arith)

abbrev burst : List (ℕ × Kind)
burst = (3, refused) ∷ (1, reply 0 (request 0)) ∷ []

refused_three : check config memory (heap 3) ≡ none
unfolding check_valid_packet read bswap16
refused_three = refl

reply_one : check config memory (heap 1) ≡ some (5042, 58)
unfolding check_valid_packet read bswap16
reply_one = refl

reply_to_zero : id_of memory (heap 1) ≡ 0
unfolding read_u64
reply_to_zero = refl

received : Received config memory state.requests heap burst
received = (refused_three, refl, ((58, reply_one, reply_to_zero, refl), refl, tt))

in_use : Holds world.rx_buf_mempool 2
in_use = (record { full = refl; within = omega arith; small = omega arith }, omega arith)

receive_all_lem_example :
    (rx_pool : Mempool) × (m : PacketMap) × (received outstanding ticks : ℕ) × (receive_all env
        config 50 state
        (3 ∷ 1 ∷ [])
      ≡ ok (record state {
        world = record world { rx_buf_mempool = rx_pool };
        packet_map = m;
        num_received = received;
        outstanding = outstanding;
        ticks = ticks;
      }))
    × Extended (440 ∷ []) (0 ∷ []) state.packet_map m
    × Returned (500 ∷ 500 ∷ []) world.rx_buf_mempool rx_pool
    × (ticks ≡ 6)
receive_all_lem_example = receive_all_lem env config 50 state burst received in_use (omega arith)

abbrev no_latencies : LatencyDist
no_latencies = record {
  min_latency = 0;
  max_latency = 0;
  latency_sum = 0;
  total_count = 0;
  latencies = λ i. 0;
  allocated = 0;
}

abbrev no_groups : Groups
no_groups = record { sent_ids = λ i. 0; grouped_rtts = λ r. [] }

last_reply_overruns_example :
    (s' : State) × (receive_all env config 50 state (3 ∷ 1 ∷ []) ≡ ok s')
    × (evaluate (some (λ i. 0)) (some no_groups) s' no_latencies 1 ≡ fault)
last_reply_overruns_example =
    last_reply_overruns env config 50 state ((3, refused) ∷ []) [] 1 0 (request 0) (request 1)
      (λ i. 0) no_groups no_latencies 1 (received, in_use, omega arith) refl refl (omega arith)

calculate_total_packets_required_lem_example :
    (n l : ℕ) × (calculate_total_packets_required 3000 3 ≡ ok n)
    × Least 3 2 n
    × (calculate_total_packets_required 9000 1 ≡ ok l)
    × Least 9000 8192 l
calculate_total_packets_required_lem_example =
    calculate_total_packets_required_lem 3000 3 9000 (omega arith) (omega arith) (omega arith)
      (omega arith) (omega arith)

-- Nothing arrives while the client waits.
abbrev Quiet : State → Type 0
Quiet s = (t : ℕ) × (s ≡ record state { ticks = t })

Quiet-Receives : (t : ℕ) → Receives Quiet env config 50 (record state { ticks = t })
unfolding gather gather_rx receive_all cqe_status get_cqe_format
Quiet-Receives t = (record state { ticks = t }, refl, (t, refl), omega arith, refl, refl)

wait_returns_example : (s' : State) × (wait env config 50 450 10 state 0 ≡ ok (s', 0)) × Quiet s'
wait_returns_example =
    wait_returns env config 50 450 (request 1) 6 Quiet 10 state (λ t h. ground arith)
      (λ s (t, e). (t + 1, ap (λ (x : State). record x { ticks = x.ticks + 1 }) e))
      (λ s (t, e). subst (Receives Quiet env config 50) (sym e) (Quiet-Receives t)) (5, refl) refl
      (omega arith) (omega arith)
