-- ===== src/Setup/Txq/Tests.antt =====
-- The theorems on the send queue's setup, at a queue of two wqes and two completions.
use mlx5_netperf.Prelude.{
  ℕ, zero, suc, ◌^◌, ◌<◌, ◌≡◌, refl, none, some, [], ◌∷◌, replicate, arith, get_elem?,
}
use mlx5_netperf.Prelude.Outcome.{ok}
use mlx5_netperf.Mbuf.{Mbuf, unset}
use mlx5_netperf.Tx.{Cqe, Txq, gather_completions}
use mlx5_netperf.Tx.Status.{opcode}
use mlx5_netperf.Tx.Post.{free_wqes, num_wqes}
use mlx5_netperf.Tx.Example.{dv}
use mlx5_netperf.Setup.Txq.{TxAnswers, max_sge, init_txq}
use mlx5_netperf.Setup.Txq.Fresh.{Granted, opened, max_sge-num_wqes, init_txq_lem}

abbrev blank_queue : Txq
blank_queue = record {
  buffers = [];
  buf = [];
  wqe_cnt = 0;
  stride = 0;
  tx_sq_log_stride = 0;
  qp_num = 0;
  sq_head = 0;
  sq_dbrec = 0;
  bf_reg = [];
  cqes = [];
  cqe_cnt = 0;
  cq_head = 0;
  true_cq_head = 0;
  cq_dbrec = 0;
}

abbrev answers : TxAnswers
answers = record {
  create_cq = none;
  create_qp = λ max_send_sge max_inline. none;
  modify_to_init = none;
  modify_to_rtr = none;
  modify_to_rts = none;
  init_obj = none;
  qp_num = 5;
  wqe_cnt = 2;
  stride = 64;
  buf = replicate 128 0;
  cqe_cnt = 2;
  cqe_size = 64;
  cqes = record { op_own = 0xf0; wqe_counter = 0 } ∷ record { op_own = 0xf1; wqe_counter = 0 } ∷ [];
  buffers = some (replicate 2 0);
}

unused : (i : ℕ) (e : Cqe) → get_elem? answers.cqes i ≡ some e → (e.op_own < 256) × (opcode e ≡ 15)
unused zero e h = ground (arith, h)
unused (suc zero) e h = ground (arith, h)
unused (suc (suc i)) e h = cc

granted : Granted dv answers 64 2 58 1 1 (replicate 2 0)
granted = record {
  cq_created = refl;
  qp_created = refl;
  moved_to_init = refl;
  moved_to_rtr = refl;
  moved_to_rts = refl;
  obj_initialized = refl;
  slots = refl;
  completions = refl;
  stride_is_power = (6, refl, omega arith);
  cqe_size_is_power = (6, refl, omega arith);
  all_cqes = refl;
  unused = unused;
  allocated = refl;
  few_slots = omega arith;
  few_completions = omega arith;
}

abbrev packet : Mbuf
packet = record {
  next = none;
  head = 0;
  data_ptr = 0;
  head_len = 0;
  len = 0;
  nb_segs = 2;
  pkt_len = 0;
  rss_hash = 0;
  release_data = 0;
  release = unset;
  num_wqes = 0;
  lkey = 0;
}

max_sge-num_wqes_example :
    (max_sge 58 2 ≡ num_wqes dv packet 58) × (max_sge 0 2 ≡ num_wqes dv packet 0)
max_sge-num_wqes_example = max_sge-num_wqes dv packet 56 (omega arith) (omega arith)

init_txq_lem_example :
    (log_stride : ℕ) × (init_txq 64 2 58 answers blank_queue
      ≡ ok (opened answers (replicate 2 0) blank_queue, log_stride))
    × (2 ^ log_stride ≡ 64)
    × (2 ^ (opened answers (replicate 2 0) blank_queue).tx_sq_log_stride ≡ 64)
    × (free_wqes (opened answers (replicate 2 0) blank_queue) ≡ 2)
    × (gather_completions dv 32 (λ a. packet) (opened answers (replicate 2 0) blank_queue)
        ≡ ok ([], record (opened answers (replicate 2 0) blank_queue) { cq_dbrec = 0 }))
init_txq_lem_example =
    init_txq_lem dv answers 64 2 58 1 1 32 (replicate 2 0) blank_queue (λ a. packet) granted refl
