-- ===== src/Tx/Post/Fill.antt =====
-- The work request that `mlx5_fill_tx_segment` writes where nothing is inlined.
use mathlib.Core.Path.{subst}
use native.Mathlib.Nat.{one-le-pow, pow-le-pow_right}
use mlx5_netperf.Prelude.{
  ℕ, ◌+◌, ◌*◌, ◌%◌, ◌^◌, ◌≤◌, ◌<◌, ◌≡◌, refl, sym, ap₂, true, false, Option, some, List, [], ◌∷◌,
  ◌++◌, arith, ltb, ◌==◌, length, set, bit_or, Bool-cases, inl, inr,
}
use mlx5_netperf.Prelude.Word.{u16, u32, add32}
use mlx5_netperf.Prelude.Bits.{bit_and_ones}
use mlx5_netperf.Prelude.Outcome.{ok}
use mlx5_netperf.Mbuf.{Mbuf}
use mlx5_netperf.Completion.{World}
use mlx5_netperf.Completion.Chain.{Linked}
use mlx5_netperf.Tx.{Mlx5dv, Heap, Txq, pow2mod}
use mlx5_netperf.Tx.Ring.{get_segment, end_ptr, store, fill_dpsegs}
use mlx5_netperf.Tx.Ring.Inline.{Written, Written-straight}
use mlx5_netperf.Tx.Ring.Scatter.{dpsegs, fill_dpsegs_lem}
use mlx5_netperf.Tx.Post.{
  RequestHeader, set_num_wqes, num_hdr_segs, num_dpsegs, num_wqes, fill_eth, fill_segment,
  fill_tx_segment, free_wqes,
}

-- A send queue of 2^k slots of 64 bytes.
pub record Geometry (v : Txq) (k : ℕ) : Type 0 where
  pub power : v.wqe_cnt ≡ 2 ^ k
  pub stride_is_64 : v.stride ≡ 64
  pub log_stride_is_6 : v.tx_sq_log_stride ≡ 6
  pub bytes : length v.buf ≡ 64 * 2 ^ k
  pub records : length v.buffers ≡ 2 ^ k
  pub small : k ≤ 16

-- Setting the number of wqes of an mbuf leaves the chains and the data segments alone.
Linked-set :
    (heap : Heap) (m n : ℕ) (start : Option ℕ) (ms : List ℕ)
    → Linked heap start ms
    → Linked (set_num_wqes heap m n) start ms
unfolding Linked
Linked-set heap m n start [] l = l
Linked-set heap m n start (a ∷ ms) (here_it_is, l) = (
  here_it_is,
  subst (λ s. Linked (set_num_wqes heap m n) s ms) (sym (same_next heap m n a))
      (Linked-set heap m n (heap a).next ms l),
)
  where
    same_next : (heap : Heap) (m n a : ℕ) → (set_num_wqes heap m n a).next ≡ (heap a).next
    same_next heap m n a = elim (Bool-cases (a == m)) [ inl e ↦ rw e refl | inr e ↦ rw e refl ]

dpsegs-set :
    (dv : Mlx5dv) (heap : Heap) (m n : ℕ) (ms : List ℕ)
    → dpsegs dv (set_num_wqes heap m n) ms ≡ dpsegs dv heap ms
unfolding dpsegs
dpsegs-set dv heap m n [] = refl
dpsegs-set dv heap m n (a ∷ ms) = ap₂ (λ x y. x ++ y) same (dpsegs-set dv heap m n ms)
  where
    same :
        dv.data_seg
          (set_num_wqes heap m n a).len
          (set_num_wqes heap m n a).data_ptr
          (set_num_wqes heap m n a).lkey
        ≡ dv.data_seg (heap a).len (heap a).data_ptr (heap a).lkey
    same = elim (Bool-cases (a == m)) [ inl e ↦ rw e refl | inr e ↦ rw e refl ]

-- The slot of the next work request.
abbrev pub slot : Txq → ℕ → ℕ
slot v k = v.sq_head % 2 ^ k

module _ (v : Txq) (k : ℕ) (g : Geometry v k) where
  small_power : 2 ^ k ≤ 2 ^ 16
  small_power = pow-le-pow_right {n = 2} (omega arith) {i = k} {j = 16} g.small

  below : slot v k < 2 ^ k
  below = omega (arith, one-le-pow k 2 (omega arith))

  pub slot_index : pow2mod v.sq_head v.wqe_cnt ≡ slot v k
  slot_index = rw (g.power, bit_and_ones k v.sq_head) refl

  slot_at : get_segment v (slot v k) ≡ 64 * slot v k
  unfolding get_segment
  slot_at = rw g.log_stride_is_6 (omega (arith, below, small_power))

  end_at : end_ptr v ≡ 16 * (4 * 2 ^ k)
  unfolding end_ptr
  end_at = rw (g.power, g.stride_is_64) (omega (arith, small_power))

  -- The stores into one slot.
  module _ (dv : Mlx5dv) (qpn_ds opmod_idx : ℕ) where
    first_stores :
        (buf₁ buf₂ : List ℕ) × (store v.buf (64 * slot v k) (dv.ctrl_seg qpn_ds opmod_idx)
          ≡ ok buf₁)
        × Written v.buf (64 * slot v k) (dv.ctrl_seg qpn_ds opmod_idx) buf₁
        × (store buf₁ (64 * slot v k + 16) (dv.eth_seg 0) ≡ ok buf₂)
        × Written buf₁ (64 * slot v k + 16) (dv.eth_seg 0) buf₂
        × (length buf₂ ≡ 16 * (4 * 2 ^ k))
    first_stores =
        let size = dv.length-ctrl_seg qpn_ds opmod_idx in
        let size' = dv.length-eth_seg 0 in
        let (buf₁, done, written) =
          Written-straight v.buf (64 * slot v k) (dv.ctrl_seg qpn_ds opmod_idx)
            (omega (arith, g.bytes, below)) (omega (arith, g.bytes, below, size)) in
        let (buf₂, done', written') =
          Written-straight buf₁ (64 * slot v k + 16) (dv.eth_seg 0)
            (omega (arith, g.bytes, below, written.0))
            (omega (arith, g.bytes, below, size', written.0)) in
        (buf₁, buf₂, done, written, done', written', omega (arith, g.bytes, written.0, written'.0))

-- The fields of the control segment that `mlx5_fill_tx_segment` computes for a send.
abbrev pub qpn_ds : Mlx5dv → Txq → Mbuf → ℕ
qpn_ds dv v b = bit_or (add32 (num_hdr_segs dv 0) (num_dpsegs dv b)) (u32 (v.qp_num * 2 ^ 8))

abbrev pub opmod_idx : Mlx5dv → Txq → ℕ
opmod_idx dv v = bit_or (u16 v.sq_head * 2 ^ 8) dv.opcode_send

fill_steps :
    (dv : Mlx5dv) (rounds : ℕ) (w : World) (v : Txq) (m s at end : ℕ) (header : RequestHeader)
    → (buf₁ buf₂ buf' : List ℕ) → pow2mod v.sq_head v.wqe_cnt ≡ s
    → get_segment v s ≡ 64 * s
    → end_ptr v ≡ end
    → 64 * s + 16 + 16 ≡ at
    → (at == end) ≡ false
    → ltb s (length v.buffers) ≡ true
    → store v.buf (64 * s) (dv.ctrl_seg (qpn_ds dv v (w.heap m)) (opmod_idx dv v)) ≡ ok buf₁
    → store buf₁ (64 * s + 16) (dv.eth_seg 0) ≡ ok buf₂
    → fill_dpsegs dv rounds (set_num_wqes w.heap m (num_wqes dv (w.heap m) 0)) end (some m) at buf₂
      ≡ ok buf'
    → fill_segment dv rounds w v m header 0
      ≡ ok (
        record w { heap = set_num_wqes w.heap m (num_wqes dv (w.heap m) 0) },
        record v {
          buf = buf';
          buffers = set v.buffers s m;
          sq_head = add32 v.sq_head (num_wqes dv (w.heap m) 0);
        },
      )
unfolding fill_segment fill_eth end_ptr
fill_steps dv rounds w v m s at end header buf₁ buf₂ buf' index segment last place inside known
      stored stored' done =
    rw (index, segment, dv.ctrl_seg_is_16, last, stored, stored', place, inside, done, known) refl

fill_segment_lem :
    (dv : Mlx5dv) (rounds : ℕ) (w : World) (v : Txq) (k m : ℕ) (ms : List ℕ)
    (header : RequestHeader)
    → Geometry v k
    → Linked w.heap (some m) ms
    → length ms ≤ rounds
    → length ms ≤ 4 * 2 ^ k
    → (buf₁ buf₂ buf' : List ℕ) × (fill_segment dv rounds w v m header 0
        ≡ ok (
          record w { heap = set_num_wqes w.heap m (num_wqes dv (w.heap m) 0) },
          record v {
            buf = buf';
            buffers = set v.buffers (slot v k) m;
            sq_head = add32 v.sq_head (num_wqes dv (w.heap m) 0);
          },
        ))
      × Written v.buf (64 * slot v k) (dv.ctrl_seg (qpn_ds dv v (w.heap m)) (opmod_idx dv v)) buf₁
      × Written buf₁ (64 * slot v k + 16) (dv.eth_seg 0) buf₂
      × Written buf₂ (64 * slot v k + 32) (dpsegs dv w.heap ms) buf'
fill_segment_lem dv rounds w v k m ms header g l enough short =
    let s = slot v k in
    let n = num_wqes dv (w.heap m) 0 in
    let (buf₁, buf₂, stored, written, stored', written', size) =
      first_stores v k g dv (qpn_ds dv v (w.heap m)) (opmod_idx dv v) in
    let (buf', done, scattered) =
      fill_dpsegs_lem dv (set_num_wqes w.heap m n) ms rounds (some m) (4 * s + 2) (4 * 2 ^ k) buf₂
        enough (Linked-set w.heap m n (some m) ms l) size (omega (arith, below v k g)) short in
    (
      buf₁,
      buf₂,
      buf',
      fill_steps dv rounds w v m s (16 * (4 * s + 2)) (16 * (4 * 2 ^ k)) header buf₁ buf₂ buf'
          (slot_index v k g) (slot_at v k g) (end_at v k g) (omega arith) (inside s (below v k g))
          (known s (below v k g)) stored stored' done,
      written,
      written',
      subst (λ at. Written buf₂ at (dpsegs dv w.heap ms) buf') {x = 16 * (4 * s + 2)}
          {y = 64 * s + 32} (omega arith)
          (subst (λ bytes. Written buf₂ (16 * (4 * s + 2)) bytes buf') (dpsegs-set dv w.heap m n ms)
            scattered),
    )
  where
    inside : (s : ℕ) → s < 2 ^ k → (16 * (4 * s + 2) == 16 * (4 * 2 ^ k)) ≡ false
    inside s h = ground arith

    known : (s : ℕ) → s < 2 ^ k → ltb s (length v.buffers) ≡ true
    known s h = ground (arith, g.records)

-- With enough free wqes, `mlx5_fill_tx_segment` without inlining returns 0 and writes one work
-- request: the control segment at the start of the next slot, the Ethernet segment behind it, and
-- from the slot's third 16 bytes on, over the Ethernet segment's second half, the data segments
-- of the whole chain, round the end of the ring; no other byte changes. It records the mbuf for
-- the slot, sets its number of wqes and moves the head by as many. The queue has 2^k slots of 64
-- bytes, and the chain fits into it.
pub fill_tx_segment_lem :
    (dv : Mlx5dv) (rounds : ℕ) (w : World) (v : Txq) (k m : ℕ) (ms : List ℕ)
    (header : RequestHeader)
    → Geometry v k
    → Linked w.heap (some m) ms
    → length ms ≤ rounds
    → length ms ≤ 4 * 2 ^ k
    → num_wqes dv (w.heap m) 0 ≤ free_wqes v
    → (buf₁ buf₂ buf' : List ℕ) × (fill_tx_segment dv rounds w v m header 0
        ≡ ok (
          true,
          record w { heap = set_num_wqes w.heap m (num_wqes dv (w.heap m) 0) },
          record v {
            buf = buf';
            buffers = set v.buffers (slot v k) m;
            sq_head = add32 v.sq_head (num_wqes dv (w.heap m) 0);
          },
        ))
      × Written v.buf (64 * slot v k) (dv.ctrl_seg (qpn_ds dv v (w.heap m)) (opmod_idx dv v)) buf₁
      × Written buf₁ (64 * slot v k + 16) (dv.eth_seg 0) buf₂
      × Written buf₂ (64 * slot v k + 32) (dpsegs dv w.heap ms) buf'
unfolding fill_tx_segment
fill_tx_segment_lem dv rounds w v k m ms header g l enough short room =
    let (buf₁, buf₂, buf', done, a, b, c) =
      fill_segment_lem dv rounds w v k m ms header g l enough short in
    let test : ltb (free_wqes v) (num_wqes dv (w.heap m) 0) ≡ false = ground arith in
    (buf₁, buf₂, buf', rw (test, test, done) refl, a, b, c)
