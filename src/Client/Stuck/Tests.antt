-- ===== src/Client/Stuck/Tests.antt =====
-- The theorem on the client's first send, at a queue of two wqes.
use mlx5_netperf.Prelude.{◌≡◌, refl, none, [], ◌∷◌, replicate, arith}
use mlx5_netperf.Prelude.Outcome.{fault}
use mlx5_netperf.Mbuf.{tx_completion}
use mlx5_netperf.Mempool.{blank}
use mlx5_netperf.Completion.{World}
use mlx5_netperf.Tx.{Txq}
use mlx5_netperf.Tx.Example.{dv}
use mlx5_netperf.Client.{Env, transmit}
use mlx5_netperf.Client.Stuck.{transmit-never}

abbrev world : World
world = record {
  heap = λ m. record {
    next = none;
    head = 600;
    data_ptr = 600;
    head_len = 16384;
    len = 60;
    nb_segs = 0x63636363;
    pkt_len = 60;
    rss_hash = 0;
    release_data = 0;
    release = tx_completion;
    num_wqes = 0;
    lkey = 4;
  };
  rx_buf_mempool = blank;
  tx_buf_mempool = blank;
  mbuf_mempool = blank;
  using_ref_counting = 0;
  refcnts = record { arrays = []; num_refcnt_arrays = 0; num_total_segments = 0 };
}

abbrev txq : Txq
txq = record {
  buffers = 0 ∷ 0 ∷ [];
  buf = replicate 128 0;
  wqe_cnt = 2;
  stride = 64;
  tx_sq_log_stride = 6;
  qp_num = 5;
  sq_head = 0;
  sq_dbrec = 0;
  bf_reg = [];
  cqes = record { op_own = 0xf1; wqe_counter = 0 } ∷ record { op_own = 0xf1; wqe_counter = 0 } ∷ [];
  cqe_cnt = 2;
  cq_head = 0;
  true_cq_head = 0;
  cq_dbrec = 0;
}

abbrev env : Env
env = record {
  dv = dv;
  cycles = λ n. n;
  nanos = λ cycles. cycles;
  nic = λ tries v. v;
  deliver = λ n q m. (q, m);
  tries = 1000;
  rounds = 10;
  chain = 1;
}

transmit-never_example : transmit env 1000 world txq 20 ≡ fault
transmit-never_example =
    transmit-never env world txq 1 1 0 0 20 1000 (λ tries v. refl) (omega arith) (omega arith) refl
      refl
      (record { op_own = 0xf1; wqe_counter = 0 }, refl, omega arith, λ e. absurd (omega (arith, e)))
      refl refl
