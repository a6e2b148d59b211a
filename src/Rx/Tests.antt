-- ===== src/Rx/Tests.antt =====
-- The theorems on receiving, at a queue of two slots that hold the buffers at 4096 and 8192, with
-- one packet in the first and another buffer free.
use mlx5_netperf.Prelude.{ℕ, ◌^◌, ◌≡◌, refl, none, [], ◌∷◌, arith}
use mlx5_netperf.Prelude.Word.{u16}
use mlx5_netperf.Prelude.Outcome.{ok}
use mlx5_netperf.Mbuf.{Mbuf, unset}
use mlx5_netperf.Mempool.{Mempool, blank}
use mlx5_netperf.Mempool.Stack.{available}
use mlx5_netperf.Tx.Example.{dv}
use mlx5_netperf.Rx.{RxCqe, Rxq, RxState, gather_rx, refill_rxqueue}
use mlx5_netperf.Rx.Refill.{IsReady, Posted, refill_rxqueue_lem}
use mlx5_netperf.Rx.Receive.{Packet, Waiting, consumed, gather_rx_lem}

abbrev report : ℕ → RxCqe
report op_own = record {
  cqe = record { op_own = op_own; wqe_counter = 0 };
  byte_cnt = 60;
  rss_result = 1;
  sop_drop_qpn = 2 ^ 24;
}

abbrev queue : Rxq
queue = record {
  consumer_idx = 0;
  cqes = report 0x20 ∷ report 0xf1 ∷ [];
  cqe_cnt = 2;
  cq_dbrec = 0;
  wqe_cnt = 2;
  wq_head = 2;
  wq_dbrec = 2;
  addrs = 4224 ∷ 8320 ∷ [];
  buffers = 4096 ∷ 8192 ∷ [];
}

abbrev heap : ℕ → Mbuf
heap m = record {
  next = none;
  head = m;
  data_ptr = m;
  head_len = 2048;
  len = 0;
  nb_segs = 1;
  pkt_len = 0;
  rss_hash = 0;
  release_data = 0;
  release = unset;
  num_wqes = 0;
  lkey = 0;
}

-- Two of the three buffers are posted.
abbrev pool : Mempool
pool = record blank {
  free_items = 4096 ∷ 8192 ∷ 12288 ∷ [];
  allocated = 2;
  capacity = 3;
  item_len = 2048;
}

abbrev packet : Packet
packet = record { mbuf = 4096; report = report 0x20 }

ready : IsReady (consumed dv queue 1 1 0 heap pool 0) 1
ready = record {
  power = refl;
  slots = refl;
  segments = refl;
  head_is_32_bits = omega arith;
  small = omega arith;
  pool_is_valid = record { full = refl; within = omega arith; small = omega arith };
}

waiting : Waiting dv queue 1 1 0 (packet ∷ [])
waiting = (
  (refl, omega arith, refl, refl, omega arith, refl),
  (report 0xf1, refl, omega arith, omega arith),
)

gather_rx_lem_example :
    (s' : RxState) × (gather_rx dv 32 (consumed dv queue 1 1 0 heap pool 0) ≡ ok (4096 ∷ [], s'))
    × IsReady s' 1
    × (available s'.pool ≡ [])
    × Posted 1 (12288 ∷ []) (consumed dv queue 1 1 0 heap pool 0) s'
gather_rx_lem_example =
    gather_rx_lem dv queue 1 1 (omega arith) refl refl 32 0 0 heap pool (packet ∷ []) (12288 ∷ [])
      [] waiting (omega arith) ready refl refl (omega arith)

refill_rxqueue_lem_example :
    (s' : RxState) × (refill_rxqueue 1 (consumed dv queue 1 1 0 heap pool 0) ≡ ok s')
    × IsReady s' 1
    × (available s'.pool ≡ [])
    × Posted 1 (12288 ∷ []) (consumed dv queue 1 1 0 heap pool 0) s'
    × (s'.rxq.wq_dbrec ≡ u16 3)
refill_rxqueue_lem_example =
    refill_rxqueue_lem (12288 ∷ []) [] (consumed dv queue 1 1 0 heap pool 0) 1 ready refl
      (omega arith)
