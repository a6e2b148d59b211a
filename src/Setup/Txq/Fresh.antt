-- ===== src/Setup/Txq/Fresh.antt =====
-- The send queue as the setup leaves it: empty, with nothing to collect, and asked for the size
-- that the sends need.
use mlx5_netperf.Prelude.{
  ℕ, suc, zero, ◌+◌, ◌-◌, ◌%◌, ◌^◌, ◌<◌, ◌≡◌, refl, ◌∙◌, some, none, List, [], arith, length,
  get_elem?, get_elem?-of_lt, bit_and,
}
use native.Mathlib.Nat.{one-le-pow, pow-le-pow_right}
use native.Mathlib.Decide.{ℕ_discrete}
use mlx5_netperf.Prelude.Bits.{bit_and_ones}
use mlx5_netperf.Prelude.Outcome.{ok}
use mlx5_netperf.Mbuf.{Mbuf}
use mlx5_netperf.Tx.{
  Mlx5dv, Cqe, Txq, Heap, nr_inflight_tx, cqe_status, gather_one, gather_completions,
}
use mlx5_netperf.Tx.Status.{opcode, owner, phase, cqe_status_ready, cqe_status_not_ready}
use mlx5_netperf.Tx.Post.{free_wqes, num_wqes, num_hdr_segs, num_dpsegs}
use mlx5_netperf.Setup.{ctz}
use mlx5_netperf.Setup.Log.{power_of_two}
use mlx5_netperf.Setup.Txq.{TxAnswers, max_sge, init_txq}

-- The size that `mlx5_init_txq` asks for is the number of wqes that a send of that many mbufs with
-- that inline length takes, for 2 to 2^30 bytes of inline data or none, and fewer than 2^30 mbufs:
-- the one is computed in `size_t`, the other in `int`.
pub max_sge-num_wqes :
    (dv : Mlx5dv) (m : Mbuf) (extra : ℕ)
    → extra < 2 ^ 30
    → m.nb_segs < 2 ^ 30
    → (max_sge (extra + 2) m.nb_segs ≡ num_wqes dv m (extra + 2))
      × (max_sge 0 m.nb_segs ≡ num_wqes dv m 0)
unfolding max_sge num_wqes num_hdr_segs num_dpsegs
max_sge-num_wqes dv m extra h n =
    rw (dv.ctrl_seg_is_16, dv.inline_hdr_is_16, dv.data_seg_is_16) (ground arith)

-- Every call of rdma-core and the allocator succeeds, for queues of 2^w wqes and 2^k completions
-- that no send has used yet: each completion has the invalid opcode.
pub record Granted (dv : Mlx5dv) (a : TxAnswers)
    (max_inline_data num_segments expected_inline_length w k : ℕ) (old : List ℕ) : Type 0 where
  pub cq_created : a.create_cq ≡ none
  pub qp_created : a.create_qp (max_sge expected_inline_length num_segments) max_inline_data ≡ none
  pub moved_to_init : a.modify_to_init ≡ none
  pub moved_to_rtr : a.modify_to_rtr ≡ none
  pub moved_to_rts : a.modify_to_rts ≡ none
  pub obj_initialized : a.init_obj ≡ none
  pub slots : a.wqe_cnt ≡ 2 ^ w
  pub completions : a.cqe_cnt ≡ 2 ^ k
  pub stride_is_power : (e : ℕ) × (a.stride ≡ 2 ^ e) × e < 32
  pub cqe_size_is_power : (e : ℕ) × (a.cqe_size ≡ 2 ^ e) × e < 32
  pub all_cqes : length a.cqes ≡ 2 ^ k
  pub unused :
      (i : ℕ) (e : Cqe)
      → get_elem? a.cqes i ≡ some e
      → (e.op_own < 256) × (opcode e ≡ dv.cqe_invalid)
  pub allocated : a.buffers ≡ some old
  pub few_slots : w < 32
  pub few_completions : k < 16

-- An entry with the invalid opcode has the invalid status, whoever owns it.
invalid_status :
    (dv : Mlx5dv) (e : Cqe) (k head : ℕ)
    → k < 16
    → e.op_own < 256
    → opcode e ≡ dv.cqe_invalid
    → cqe_status dv e (2 ^ k) head ≡ dv.cqe_invalid
invalid_status dv e k head small byte unused = elim (ℕ_discrete (owner e) (phase head (2 ^ k))) [
  | yes p ↦ cqe_status_ready dv e k head small byte p ∙ unused
  | no p ↦ cqe_status_not_ready dv e k head small byte p
]

gather_one-unused :
    (dv : Mlx5dv) (heap : Heap) (v : Txq) (k i : ℕ) (e : Cqe)
    → k < 16
    → v.cqe_cnt ≡ 2 ^ k
    → bit_and v.cq_head (v.cqe_cnt - 1) ≡ i
    → get_elem? v.cqes i ≡ some e
    → e.op_own < 256
    → opcode e ≡ dv.cqe_invalid
    → gather_one dv heap v ≡ ok none
unfolding gather_one
gather_one-unused dv heap v k i e small count place there byte unused =
    let status : cqe_status dv e v.cqe_cnt v.cq_head ≡ dv.cqe_invalid =
      rw count (invalid_status dv e k v.cq_head small byte unused) in
    rw (place, gather_one) (rw there (rw status (ground arith)))

gather_completions-none :
    (dv : Mlx5dv) (heap : Heap) (v : Txq) (budget : ℕ)
    → gather_one dv heap v ≡ ok none
    → gather_completions dv budget heap v ≡ ok ([], record v { cq_dbrec = v.cq_head % 2 ^ 24 })
unfolding gather_completions
gather_completions-none dv heap v zero h = rw (bit_and_ones 24 v.cq_head) refl
gather_completions-none dv heap v (suc budget) h = rw (h, bit_and_ones 24 v.cq_head) refl

-- The queue that the setup makes of `v`.
abbrev pub opened : TxAnswers → List ℕ → Txq → Txq
opened a old v = record v {
  buffers = old;
  buf = a.buf;
  wqe_cnt = a.wqe_cnt;
  stride = a.stride;
  tx_sq_log_stride = ctz 32 a.stride;
  qp_num = a.qp_num;
  cqes = a.cqes;
  cqe_cnt = a.cqe_cnt;
}

-- Where every call succeeds, on a queue whose heads agree, `mlx5_init_txq` attaches the new rings;
-- the logarithms of the strides are those of the strides, all wqes are free, and
-- `mlx5_gather_completions` finds nothing, for any budget, and writes only its doorbell record: the
-- setup does not set the owner bits as that of the receive queue does, but the opcode of an unused
-- completion is invalid.
pub init_txq_lem :
    (dv : Mlx5dv) (a : TxAnswers)
    (max_inline_data num_segments expected_inline_length w k budget : ℕ) (old : List ℕ) (v : Txq)
    (heap : Heap)
    → Granted dv a max_inline_data num_segments expected_inline_length w k old
    → v.sq_head ≡ v.true_cq_head
    → (log_stride : ℕ) × (init_txq max_inline_data num_segments expected_inline_length a v
        ≡ ok (opened a old v, log_stride))
      × (2 ^ log_stride ≡ a.cqe_size)
      × (2 ^ (opened a old v).tx_sq_log_stride ≡ a.stride)
      × (free_wqes (opened a old v) ≡ 2 ^ w)
      × (gather_completions dv budget heap (opened a old v)
          ≡ ok ([], record (opened a old v) { cq_dbrec = v.cq_head % 2 ^ 24 }))
unfolding init_txq free_wqes nr_inflight_tx
init_txq_lem dv a max_inline_data num_segments expected_inline_length w k budget old v heap g same =
    let (sq, sq_stride) = power_of_two a.stride g.stride_is_power in
    let (cq, cq_stride) = power_of_two a.cqe_size g.cqe_size_is_power in
    let i = bit_and v.cq_head (a.cqe_cnt - 1) in
    let bound : i < length a.cqes =
      rw (g.completions, bit_and_ones k v.cq_head, g.all_cqes)
        (omega (arith, one-le-pow k 2 (omega arith))) in
    let (e, there) = get_elem?-of_lt a.cqes i bound in
    let (byte, unused) = g.unused i e there in
    let below : 2 ^ w < 2 ^ 32 = omega (
      arith,
      pow-le-pow_right {n = 2} (omega arith) {i = w} {j = 31} (omega (arith, g.few_slots)),
    ) in
    (
      ctz 32 a.cqe_size,
      rw
          (
            g.cq_created, g.qp_created, g.moved_to_init, g.moved_to_rtr, g.moved_to_rts,
            g.obj_initialized, sq, cq, g.allocated,
          )
          refl,
      cq_stride,
      sq_stride,
      rw g.slots (omega arith),
      gather_completions-none dv heap (opened a old v) budget (
          gather_one-unused dv heap (opened a old v) k i e g.few_completions g.completions refl
            there byte unused),
    )
