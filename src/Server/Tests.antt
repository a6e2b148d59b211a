-- ===== src/Server/Tests.antt =====
-- The theorems on the server, at packets 1 and 2, which are valid requests, and 3, which is not.
use mlx5_netperf.Prelude.{
  ℕ, zero, suc, ◌≡◌, refl, true, false, none, some, List, [], ◌∷◌, ◌++◌, arith, ltb, ◌==◌,
  if◌then◌else◌, replicate, set,
}
use mlx5_netperf.Prelude.Count.{occurrences}
use mlx5_netperf.Prelude.Outcome.{ok, fault, ◌>>=◌}
use mlx5_netperf.Mbuf.{Mbuf, tx_completion, rx_completion}
use mlx5_netperf.Mempool.{Mempool, blank, alloc, free}
use mlx5_netperf.Mempool.Stack.{IsValid, available}
use mlx5_netperf.Refcnt.{Refcnts, read_count}
use mlx5_netperf.Refcnt.Counts.{count}
use mlx5_netperf.Completion.{World, mbuf_free}
use mlx5_netperf.Completion.Chain.{push_all}
use mlx5_netperf.Headers.{bswap16, RequestHeader, check_valid_packet}
use mlx5_netperf.Tx.{Txq}
use mlx5_netperf.Tx.Example.{dv}
use mlx5_netperf.Server.{Config, State, read}
use mlx5_netperf.Server.Packet.{built, zero_copy_packet, build_packet}
use mlx5_netperf.Server.Packet.Raised.{Room, Raised}
use mlx5_netperf.Server.Packet.Chained.{Distinct, Taken}
use mlx5_netperf.Server.Packet.Reply.{Answers, reply_header, zero_copy_packet_lem}
use mlx5_netperf.Server.Packet.Release.{zero_copy_packet-mbuf_free}
use mlx5_netperf.Server.Process.{Env, enomem_returned, process_server_requests}
use mlx5_netperf.Server.Process.Shortage.{no_mbuf_fault}
use mlx5_netperf.Server.Burst.{free_entries, is_valid, serve_batch, serve_burst}
use mlx5_netperf.Server.Burst.Batches.{AllValid, burst_of_valid, last_invalid}
use mlx5_netperf.Server.Burst.Errors.{freed_twice}

abbrev config : ℕ → Config
config zero_copy = record {
  num_segments = 2;
  segment_size = 100;
  echo_mode = 0;
  zero_copy = zero_copy;
  read_incoming_packet = 0;
  tx_lkey = 4;
  rx_lkey = 5;
  server_working_set = 1000;
  server_mac = replicate 6 0;
}

-- Packets 1 and 2 start at 5000, where a UDP packet lies, and the other mbufs' data at 9000.
abbrev heap : ℕ → Mbuf
heap m = record {
  next = none;
  head = 500;
  data_ptr = if ltb m 3 then 5000 else 9000;
  head_len = 1000;
  len = 100;
  nb_segs = 1;
  pkt_len = 100;
  rss_hash = 0;
  release_data = 0;
  release = if ltb m 10 then rx_completion else tx_completion;
  num_wqes = 1;
  lkey = 0;
}

abbrev memory : ℕ → ℕ
memory a = if a == 5012 then 8 else if a == 5023 then 17 else 0

-- Two transmit mbufs, of which `used` are in use; the transmit buffer is in use.
abbrev mbufs : ℕ → Mempool
mbufs used = record blank { free_items = 21 ∷ 22 ∷ []; allocated = used; capacity = 2 }

abbrev buffers : Mempool
buffers = record blank { free_items = 500 ∷ 600 ∷ 700 ∷ []; allocated = 3; capacity = 3 }

abbrev world : ℕ → World
world used = record {
  heap = heap;
  rx_buf_mempool = buffers;
  tx_buf_mempool = buffers;
  mbuf_mempool = mbufs used;
  using_ref_counting = 1;
  refcnts = record {
    arrays = (1 ∷ 1 ∷ []) ∷ (1 ∷ 5 ∷ []) ∷ [];
    num_refcnt_arrays = 2;
    num_total_segments = 2;
  };
}

-- A send queue with two free slots.
abbrev queue : Txq
queue = record {
  buffers = 0 ∷ 0 ∷ [];
  buf = replicate 128 0;
  wqe_cnt = 2;
  stride = 64;
  tx_sq_log_stride = 6;
  qp_num = 5;
  sq_head = 0;
  sq_dbrec = 0;
  bf_reg = [];
  cqes = [];
  cqe_cnt = 2;
  cq_head = 0;
  true_cq_head = 0;
  cq_dbrec = 0;
}

abbrev blank_header : RequestHeader
blank_header = record {
  packet_header = record {
    eth = record { dhost = replicate 6 0; shost = replicate 6 0; type_field = 0 };
    ipv4 = record {
      version_ihl = 0;
      tos = 0;
      len = 0;
      id = 0;
      off = 0;
      ttl = 0;
      proto = 0;
      chksum = 0;
      saddr = 0;
      daddr = 0;
    };
    udp = record { src_port = 0; dst_port = 0; len = 0; chksum = 0 };
  };
  packet_id = 0;
  id_padding = 0;
  checksum = 0;
}

abbrev state : ℕ → State
state used = record {
  world = world used;
  txq = queue;
  memory = memory;
  request_headers = blank_header ∷ [];
}

abbrev env : Env
env = record { dv = dv; rte_raw_cksum = λ bytes. 0; nic = λ tries v. v; tries = 4; rounds = 4 }

valid_one : is_valid (config 1) (state 0) 1 ≡ true
unfolding is_valid check_valid_packet read bswap16
valid_one = refl

refused_three : is_valid (config 1) (state 0) 3 ≡ false
unfolding is_valid check_valid_packet read bswap16
refused_three = refl

one_valid : AllValid (config 1) (state 0) (1 ∷ [])
unfolding AllValid
one_valid = (valid_one, tt)

burst_of_valid_example :
    serve_burst env (config 1) (state 0) [] (1 ∷ 1 ∷ [])
    ≡ serve_batch env (config 1) (state 0) (1 ∷ 1 ∷ [])
burst_of_valid_example =
    burst_of_valid env (config 1) (state 0) (1 ∷ []) 1 (omega arith) one_valid valid_one

last_invalid_example :
    serve_burst env (config 1) (state 0) [] (1 ∷ 3 ∷ [])
    ≡ (mbuf_free 4 (world 0) 3 >>= λ w. ok (record (state 0) { world = w }))
last_invalid_example =
    last_invalid env (config 1) (state 0) (1 ∷ []) 3 (omega arith) one_valid refused_three

mbufs-IsValid : IsValid (mbufs 0)
mbufs-IsValid = omega arith

mbufs-Distinct : Distinct (available (mbufs 0))
mbufs-Distinct a = ground arith

world-Room : Room (world 0).refcnts (3 ∷ 3 ∷ [])
unfolding read_count
world-Room zero h = ground arith
world-Room (suc zero) h = ground arith
world-Room (suc (suc zero)) h = ground arith
world-Room (suc (suc (suc zero))) h = (5, refl, omega arith)
world-Room (suc (suc (suc (suc j)))) h = ground arith

zero_copy_packet_lem_example :
    (m : ℕ) × (ms : List ℕ) × (heap : ℕ → Mbuf) × (p : Mempool) × (r : Refcnts) × (sum : ℕ)
    × (zero_copy_packet (config 1) (state 0) 0 1 (3 ∷ 3 ∷ [])
        ≡ ok (
          built m,
          record (state 0) {
            world = record (world 0) { heap = heap; mbuf_mempool = p; refcnts = r };
            request_headers =
                set
                  (blank_header ∷ [])
                  0
                  (record (reply_header (config 1) (state 0) 1 blank_header) { checksum = sum });
          },
        ))
    × Answers (config 1) 2 heap m ms (3 ∷ 3 ∷ [])
    × Taken (m ∷ ms) (mbufs 0) p
    × Raised (world 0).refcnts r (3 ∷ 3 ∷ [])
    × ((a : ℕ) → occurrences a (m ∷ ms) ≡ 0 → heap a ≡ (world 0).heap a)
zero_copy_packet_lem_example =
    zero_copy_packet_lem (config 1) (state 0) 0 1 3 (3 ∷ []) blank_header refl refl (omega arith)
      mbufs-IsValid mbufs-Distinct (omega arith) world-Room

zero_copy_packet-mbuf_free_example :
    (m : ℕ) × (ms rest : List ℕ) × (s' : State) × (w : World) × (zero_copy_packet
        (config 1)
        (state 0)
        0
        1
        (3 ∷ 3 ∷ [])
      ≡ ok (built m, s'))
    × (mbuf_free 2 s'.world m ≡ ok w)
    × ((j : ℕ) → count w.refcnts j ≡ count (world 0).refcnts j)
    × IsValid w.mbuf_mempool
    × (21 ∷ 22 ∷ [] ≡ (m ∷ ms) ++ rest)
    × (available w.mbuf_mempool ≡ push_all (m ∷ ms) rest)
    × (w.mbuf_mempool.allocated ≡ 0)
zero_copy_packet-mbuf_free_example =
    zero_copy_packet-mbuf_free (config 1) (state 0) 0 1 3 2 (3 ∷ []) blank_header refl refl
      (omega arith) mbufs-IsValid mbufs-Distinct (omega arith) world-Room (omega arith)

no_mbuf_fault_example : process_server_requests env (config 1) (state 2) (1 ∷ 2 ∷ []) ≡ fault
no_mbuf_fault_example =
    no_mbuf_fault env (config 1) (state 2) 1 1 (2 ∷ []) blank_header refl refl (omega arith)
      (omega arith) refl (omega arith) (omega arith) refl

-- Without a free transmit buffer, the copying server returns ENOMEM, and frees the request.
shortage :
    (s' : State) × (w' : World) × (process_server_requests env (config 0) (state 0) (1 ∷ [])
      ≡ ok (enomem_returned, s'))
    × (free_entries 4 s'.world (some 1 ∷ []) ≡ ok w')
unfolding process_server_requests build_packet alloc mbuf_free free free_entries
shortage = (_, _, refl, refl)

freed_twice_example : serve_batch env (config 0) (state 0) (1 ∷ []) ≡ fault
freed_twice_example =
    freed_twice env (config 0) (state 0) shortage.0 enomem_returned shortage.1 1 [] refl shortage.2
      refl shortage.3
