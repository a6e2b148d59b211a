-- ===== src/Setup/Txq.antt =====
-- Device setup, mlx5_init.c: the send queue. What rdma-core and the allocator answer are arguments.
pub mod Fresh
mod Tests
use mlx5_netperf.Prelude.{ℕ, ◌+◌, ◌/◌, Bool, ◌&&◌, Option, none, some, List, ltb, if◌then◌else◌}
use mlx5_netperf.Stddef.{is_power_of_two}
use mlx5_netperf.Prelude.Word.{add64, sub64}
use mlx5_netperf.Prelude.Outcome.{Outcome, ok, err, fault, Errno, enomem, ◌>>=◌}
use mlx5_netperf.Tx.{Cqe, Txq}
use mlx5_netperf.Setup.{ctz, attempt}

-- The `max_send_sge` that is asked for, in `size_t` arithmetic.
unfoldable pub max_sge : ℕ → ℕ → ℕ
max_sge expected_inline_length num_segments =
    if ltb 0 expected_inline_length
    then (let num_hdr_segs = add64 2 (add64 (sub64 expected_inline_length 2) 15 / 16) in
        add64 (add64 num_hdr_segs num_segments) 3 / 4)
    else (let num_hdr_segs : ℕ = 2 in add64 (add64 num_hdr_segs num_segments) 3 / 4)

-- What rdma-core and `aligned_alloc` answer when the send queue is created: the errors, where that
-- of the queue pair depends on `max_send_sge` and `max_inline_data`, the sizes of the rings, and
-- what their memory holds. The queue pair is moved to its three states one after the other.
pub record TxAnswers : Type 0 where
  pub create_cq : Option Errno
  pub create_qp : ℕ → ℕ → Option Errno
  pub modify_to_init : Option Errno
  pub modify_to_rtr : Option Errno
  pub modify_to_rts : Option Errno
  pub init_obj : Option Errno
  pub qp_num : ℕ
  pub wqe_cnt : ℕ
  pub stride : ℕ
  pub buf : List ℕ
  pub cqe_cnt : ℕ
  pub cqe_size : ℕ
  pub cqes : List Cqe
  pub buffers : Option (List ℕ)

-- The queue with the new rings, and `tx_cq_log_stride`.
attach : TxAnswers → Txq → Outcome (Txq × ℕ)
attach a v = elim (a.buffers) [
  | none ↦ err enomem
  | some buffers ↦ ok (
    record v {
      buffers = buffers;
      buf = a.buf;
      wqe_cnt = a.wqe_cnt;
      stride = a.stride;
      tx_sq_log_stride = ctz 32 a.stride;
      qp_num = a.qp_num;
      cqes = a.cqes;
      cqe_cnt = a.cqe_cnt;
    },
    ctz 32 a.cqe_size,
  )
]

-- `mlx5_init_txq`, whose other arguments it does not read.
unfoldable pub init_txq : ℕ → ℕ → ℕ → TxAnswers → Txq → Outcome (Txq × ℕ)
unfolding attach
init_txq max_inline_data num_segments expected_inline_length a v = attempt (a.create_cq) >>= λ _.
    attempt (a.create_qp (max_sge expected_inline_length num_segments) max_inline_data) >>= λ _.
    attempt (a.modify_to_init) >>= λ _. attempt (a.modify_to_rtr) >>= λ _.
    attempt (a.modify_to_rts) >>= λ _. attempt (a.init_obj) >>= λ _.
    if is_power_of_two (a.cqe_size) && is_power_of_two (a.stride) then attach a v else fault
