-- ===== src/Tx.antt =====
-- The send queue: inc/mlx5.h and the completion side of mlx5_rxtx.c. The hardware's completion
-- queue is data that the driver reads; rdma-core's constants are the parameter `dv`.
pub mod Status
pub mod Gather
pub mod Ring
pub mod Post
pub mod Example
mod Tests
use mlx5_netperf.Prelude.{
  ℕ, zero, suc, ◌+◌, ◌-◌, ◌*◌, ◌/◌, ◌%◌, ◌^◌, ◌≤◌, ◌<◌, ◌≡◌, length, Bool, true, false, not, ◌&&◌,
  Option, none, some, List, [], ◌∷◌, ◌++◌, bit_and, bit_or, arith, ltb, ◌==◌, if◌then◌else◌,
  get_elem?,
}
use mlx5_netperf.Prelude.Word.{u8, u16, u32, add32, sub32}
use mlx5_netperf.Prelude.Outcome.{Outcome, ok, fault, ◌>>=◌}
use mlx5_netperf.Mbuf.{Mbuf}

-- What the driver uses of rdma-core's mlx5dv.h: the owner bit, the opcodes, and the sizes and
-- offsets of the parts of a work request (inline data starts two bytes before a 16-byte border),
-- and the bytes of the three segments by the fields that the driver sets: `qpn_ds` and the
-- operation's index of the control segment (its other fields constant), the inline size of the
-- Ethernet segment, and the length, address and key of a data segment.
pub record Mlx5dv : Type 0 where
  pub cqe_owner_mask : ℕ
  pub cqe_invalid : ℕ
  pub cqe_req : ℕ
  pub ctrl_seg_size : ℕ
  pub inline_hdr_start : ℕ
  pub inline_hdr : ℕ
  pub data_seg_size : ℕ
  pub cqe_resp_send : ℕ
  pub opcode_send : ℕ
  pub ctrl_seg : ℕ → ℕ → List ℕ
  pub eth_seg : ℕ → List ℕ
  pub data_seg : ℕ → ℕ → ℕ → List ℕ
  pub owner_is_bit_0 : cqe_owner_mask ≡ 1
  pub invalid_is_all_ones : cqe_invalid ≡ 15
  pub req_is_valid : cqe_req < 15
  pub ctrl_seg_is_16 : ctrl_seg_size ≡ 16
  pub inline_start_is_14 : inline_hdr_start ≡ 14
  pub inline_hdr_is_16 : inline_hdr ≡ 16
  pub data_seg_is_16 : data_seg_size ≡ 16
  pub resp_send_is_valid : cqe_resp_send < 15
  pub length-ctrl_seg : (qpn_ds opmod_idx : ℕ) → length (ctrl_seg qpn_ds opmod_idx) ≡ 16
  pub length-eth_seg : (inline_hdr_sz : ℕ) → length (eth_seg inline_hdr_sz) ≡ 32
  pub length-data_seg : (byte_count addr lkey : ℕ) → length (data_seg byte_count addr lkey) ≡ 16

-- The fields of `struct mlx5_cqe64` that sending reads; `wqe_counter` after `be16toh`.
pub record Cqe : Type 0 where
  pub op_own : ℕ
  pub wqe_counter : ℕ

-- The heap of mbufs, by address.
abbrev pub Heap : Type 0
Heap = ℕ → Mbuf

-- `struct mlx5_txq`: `buf` is the bytes of the send queue and `bf_reg` the last store to the
-- doorbell register, the fields of `tx_qp_dv.sq` and `tx_cq_dv` under their own names, `cqes` the
-- content of the completion queue, `cq_dbrec` and `sq_dbrec` the doorbell records.
pub record Txq : Type 0 where
  pub buffers : List ℕ
  pub buf : List ℕ
  pub wqe_cnt : ℕ
  pub stride : ℕ
  pub tx_sq_log_stride : ℕ
  pub qp_num : ℕ
  pub sq_head : ℕ
  pub sq_dbrec : ℕ
  pub bf_reg : List ℕ
  pub cqes : List Cqe
  pub cqe_cnt : ℕ
  pub cq_head : ℕ
  pub true_cq_head : ℕ
  pub cq_dbrec : ℕ

-- `POW2MOD`
abbrev pub pow2mod : ℕ → ℕ → ℕ
pow2mod num size = bit_and num (size - 1)

unfoldable pub nr_inflight_tx : Txq → ℕ
nr_inflight_tx v = sub32 v.sq_head v.true_cq_head

-- `!x` of a C integer.
abbrev pub c_not : ℕ → ℕ
c_not x = if x == 0 then 1 else 0

-- The value of a C comparison.
abbrev pub c_bool : Bool → ℕ
c_bool b = if b then 1 else 0

unfoldable pub get_cqe_opcode : Cqe → ℕ
get_cqe_opcode cqe = bit_and cqe.op_own 0xf0 / 2 ^ 4

unfoldable pub get_cqe_format : Cqe → ℕ
get_cqe_format cqe = bit_and cqe.op_own 0xc / 2 ^ 2

module _ (dv : Mlx5dv) where
  unfoldable pub cqe_status : Cqe → ℕ → ℕ → ℕ
  cqe_status cqe cqe_cnt head =
      let parity = u16 (bit_and head cqe_cnt) in
      let op_owner = bit_and cqe.op_own dv.cqe_owner_mask in
      let op_code = bit_and cqe.op_own 0xf0 / 2 ^ 4 in
      u8 (bit_or (c_bool (op_owner == c_not parity) * dv.cqe_invalid) op_code)

  -- One round of the loop: `none` where it breaks, else the mbuf found and the new queue.
  unfoldable pub gather_one : Heap → Txq → Outcome (Option (ℕ × Txq))
  gather_one heap v = elim (get_elem? v.cqes (bit_and v.cq_head (v.cqe_cnt - 1))) [
    | none ↦ fault
    | some cqe ↦
        let opcode = cqe_status cqe v.cqe_cnt v.cq_head in
        if opcode == dv.cqe_invalid
        then ok none
        else if not (opcode == dv.cqe_req)
        then fault
        else if get_cqe_format cqe == 3
        then fault
        else elim (get_elem? v.buffers (bit_and cqe.wqe_counter (v.wqe_cnt - 1))) [
          | none ↦ fault
          | some m ↦ ok (
              some (
                m,
                record v {
                  true_cq_head = add32 v.true_cq_head (heap m).num_wqes;
                  cq_head = add32 v.cq_head 1;
                },
              ))
        ]
  ]

  -- The loop, with what is left of the budget: the mbufs in the order found.
  pub gather_loop : ℕ → Heap → Txq → Outcome (List ℕ × Txq)
  gather_loop zero heap v = ok ([], v)
  gather_loop (suc budget) heap v = do
    found ← gather_one heap v
    elim found [
      | none ↦ ok ([], v)
      | some (m, v') ↦ gather_loop budget heap v' >>= λ rest. ok (m ∷ rest.0, rest.1)
    ]

  -- `mlx5_gather_completions`; the length of the list is the count returned.
  unfoldable pub gather_completions : ℕ → Heap → Txq → Outcome (List ℕ × Txq)
  unfolding gather_loop
  gather_completions budget heap v = do
    done ← gather_loop budget heap v
    ok (done.0, record (done.1) { cq_dbrec = bit_and done.1.cq_head 0xffffff })
