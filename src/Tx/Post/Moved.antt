-- ===== src/Tx/Post/Moved.antt =====
-- The heads of the send queue after `mlx5_fill_tx_segment` has filled in a send.
use mlx5_netperf.Prelude.{
  ℕ, ◌+◌, ◌^◌, ◌≡◌, refl, sym, ap, ◌∙◌, true, false, some, List, ltb, leb, ◌*◌, bit_or,
  if◌then◌else◌, Bool, Bool-cases, inl, inr, length, set,
}
use mlx5_netperf.Prelude.Inversion.{bind-ok}
use mlx5_netperf.Prelude.Word.{u16, u32, add32, add64, sub64}
use mlx5_netperf.Prelude.Outcome.{Outcome, ok, fault, ◌>>=◌}
use mlx5_netperf.Completion.{World}
use mlx5_netperf.Tx.{Mlx5dv, Txq, pow2mod}
use mlx5_netperf.Tx.Ring.{inline_data, store, fill_dpsegs, get_segment, end_ptr, copy_wrapping}
use mlx5_netperf.Tx.Post.{
  RequestHeader, num_wqes, fill_eth, inline_header, fill_segment, set_num_wqes, num_hdr_segs,
  num_dpsegs,
}

-- The two queues differ in their bytes only.
abbrev Rewritten : Txq → Txq → Type 0
Rewritten v v' = v' ≡ record v { buf = v'.buf }

Rewritten-trans : (v v₁ v₂ : Txq) → Rewritten v v₁ → Rewritten v₁ v₂ → Rewritten v v₂
Rewritten-trans v v₁ v₂ p q = q ∙ ap (λ (x : Txq). record x { buf = v₂.buf }) p

rewritten :
    (v v' : Txq) (o : Outcome (List ℕ))
    → (o >>= λ buf. ok (record v { buf = buf })) ≡ ok v'
    → Rewritten v v'
rewritten v v' o h =
    let (buf, _, e) = bind-ok o (λ buf. ok (record v { buf = buf })) h in
    let same : record v { buf = buf } ≡ v' = cc e in
    sym same ∙ ap (λ (x : Txq). record v { buf = x.buf }) same

-- What a test that guards a result lets through.
checked : {A : Type 0} (test : Bool) (x y : A) → (if test then ok x else fault) ≡ ok y → x ≡ y
checked true x y h = cc h
checked false x y h = absurd (cc h)

-- What a send that is filled in does to the heads.
abbrev pub Moved : Txq → Txq → ℕ → Type 0
Moved v v' wqes =
    (v'.sq_head ≡ add32 v.sq_head wqes)
    × (v'.true_cq_head ≡ v.true_cq_head)
    × (v'.wqe_cnt ≡ v.wqe_cnt)

module _ (dv : Mlx5dv) where
  inline_data-Rewritten :
      (v v' : Txq) (offset : ℕ) (bytes : List ℕ)
      → inline_data dv v offset bytes ≡ ok v'
      → Rewritten v v'
  unfolding inline_data
  inline_data-Rewritten v v' offset bytes h =
      rewritten v v'
        (copy_wrapping v.buf
          (let start =
              get_segment v (pow2mod v.sq_head v.wqe_cnt)
              + dv.ctrl_seg_size
              + dv.inline_hdr_start in
            if leb (end_ptr v) (add64 start offset)
            then sub64 (length bytes) (sub64 (end_ptr v) start)
            else add64 start offset)
          (end_ptr v) bytes)
        h

  inline_header-Rewritten :
      (v v' : Txq) (header : RequestHeader) → inline_header dv v header ≡ ok v' → Rewritten v v'
  unfolding inline_header
  inline_header-Rewritten v v' header h =
      let (v₁, s₁, h₁) = bind-ok (inline_data dv v 0 header.eth) _ h in
      let (v₂, s₂, h₂) = bind-ok (inline_data dv v₁ 14 header.ipv4) _ h₁ in
      let (v₃, s₃, h₃) = bind-ok (inline_data dv v₂ 34 header.udp) _ h₂ in
      let (v₄, s₄, h₄) = bind-ok (inline_data dv v₃ 42 header.packet_id) _ h₃ in
      Rewritten-trans v v₁ v' (inline_data-Rewritten v v₁ 0 header.eth s₁) (
        Rewritten-trans v₁ v₂ v' (inline_data-Rewritten v₁ v₂ 14 header.ipv4 s₂) (
          Rewritten-trans v₂ v₃ v' (inline_data-Rewritten v₂ v₃ 34 header.udp s₃) (
            Rewritten-trans v₃ v₄ v' (inline_data-Rewritten v₃ v₄ 42 header.packet_id s₄)
              (inline_data-Rewritten v₄ v' 50 header.checksum h₄))))

  fill_eth-Rewritten :
      (v : Txq) (eseg inline_len : ℕ) (header : RequestHeader) (r : ℕ × Txq)
      → fill_eth dv v eseg header inline_len ≡ ok r
      → Rewritten v r.1
  unfolding fill_eth
  fill_eth-Rewritten v eseg inline_len header r h =
      let (buf, _, h₁) = bind-ok (store v.buf eseg (dv.eth_seg (u16 inline_len))) _ h in
      elim (Bool-cases (ltb 0 inline_len)) [
        | inl inlined ↦
            let (v₂, s₂, e) =
              bind-ok (inline_header dv (record v { buf = buf }) header) _ (rw inlined at h₁) in
            let same : v₂ ≡ r.1 = cc (ap (λ o. o) e) in
            Rewritten-trans v (record v { buf = buf }) r.1 refl
              (rw same at (inline_header-Rewritten (record v { buf = buf }) v₂ header s₂))
        | inr not_inlined ↦
            let same : record v { buf = buf } ≡ r.1 = cc (rw not_inlined at h₁) in
            sym same ∙ ap (λ (x : Txq). record v { buf = x.buf }) same
      ]

  pub fill_segment-Moved :
      (rounds : ℕ) (w w' : World) (v v' : Txq) (m inline_len : ℕ) (header : RequestHeader)
      → fill_segment dv rounds w v m header inline_len ≡ ok (w', v')
      → Moved v v' (num_wqes dv (w.heap m) inline_len)
  unfolding fill_segment
  fill_segment-Moved rounds w w' v v' m inline_len header h =
      let current = pow2mod v.sq_head v.wqe_cnt in
      let ctrl = get_segment v current in
      let wqes = num_wqes dv (w.heap m) inline_len in
      let heap = set_num_wqes w.heap m wqes in
      let qpn_ds =
        bit_or (add32 (num_hdr_segs dv inline_len) (num_dpsegs dv (w.heap m)))
          (u32 (v.qp_num * 2 ^ 8)) in
      let opmod_idx = bit_or (u16 v.sq_head * 2 ^ 8) dv.opcode_send in
      let (buf, _, h₁) = bind-ok (store v.buf ctrl (dv.ctrl_seg qpn_ds opmod_idx)) _ h in
      let ((at, v₁), eth, h₂) =
        bind-ok (fill_eth dv (record v { buf = buf }) (ctrl + dv.ctrl_seg_size) header inline_len) _
          h₁ in
      let (buf', _, h₃) =
        bind-ok (fill_dpsegs dv rounds heap (end_ptr v) (some m) at v₁.buf) _ h₂ in
      let kept : Rewritten (record v { buf = buf }) v₁ =
        fill_eth-Rewritten (record v { buf = buf }) (ctrl + dv.ctrl_seg_size) inline_len header
          (at, v₁) eth in
      let head : v₁.true_cq_head ≡ v.true_cq_head = ap (λ (x : Txq). x.true_cq_head) kept in
      let count : v₁.wqe_cnt ≡ v.wqe_cnt = ap (λ (x : Txq). x.wqe_cnt) kept in
      let after = record v₁ {
        buf = buf';
        buffers = set v.buffers current m;
        sq_head = add32 v.sq_head wqes;
      } in
      let same =
        checked (ltb current (length v.buffers)) (record w { heap = heap }, after) (w', v') h₃ in
      (
        sym (ap (λ (x : World × Txq). x.1.sq_head) same),
        sym (ap (λ (x : World × Txq). x.1.true_cq_head) same) ∙ head,
        sym (ap (λ (x : World × Txq). x.1.wqe_cnt) same) ∙ count,
      )
