-- ===== src/Tx/Post.antt =====
-- Posting sends: `mlx5_fill_tx_segment`, `mlx5_ring_doorbell`, `mlx5_post_transmission`,
-- `mlx5_transmit_one` and `mlx5_transmit_batch` of mlx5_rxtx.c (without the code behind the
-- latter's unconditional return). An `int` is its bit pattern of 32 bits; its sums wrap, where C
-- leaves an overflow undefined.
pub mod Fill
pub mod Full
pub mod Moved
pub mod Room
use mlx5_netperf.Prelude.{
  ℕ, zero, suc, ◌+◌, ◌-◌, ◌*◌, ◌/◌, ◌%◌, ◌^◌, Bool, true, false, Option, none, some, List, [], ◌∷◌,
  ltb, leb, ◌==◌, if◌then◌else◌, length, set, take, drop, bit_and, bit_or,
}
use mlx5_netperf.Prelude.Word.{u16, u32, u64, add32, sub32, add64, sub64}
use mlx5_netperf.Prelude.Outcome.{Outcome, ok, fault, ◌>>=◌}
use mlx5_netperf.Mbuf.{Mbuf}
use mlx5_netperf.Completion.{World, mbuf_free}
use mlx5_netperf.Tx.{Mlx5dv, Heap, Txq, pow2mod, nr_inflight_tx, gather_completions}
use mlx5_netperf.Tx.Ring.{get_segment, end_ptr, store, inline_data, fill_dpsegs}

abbrev pub sq_clean_thresh : ℕ
sq_clean_thresh = 32

abbrev pub sq_clean_max : ℕ
sq_clean_max = 32

-- The bytes of `RequestHeader` that are inlined, by the five calls; `packet_id` is read with the
-- padding behind it.
pub record RequestHeader : Type 0 where
  pub eth : List ℕ
  pub ipv4 : List ℕ
  pub udp : List ℕ
  pub packet_id : List ℕ
  pub checksum : List ℕ

-- The loop over `mbs` that gives the completed mbufs back; `rounds` bounds each chain.
unfoldable pub free_all : ℕ → World → List ℕ → Outcome World
free_all rounds w [] = ok w
free_all rounds w (m ∷ ms) = do w' ← mbuf_free rounds w m; free_all rounds w' ms

abbrev pub set_num_wqes : Heap → ℕ → ℕ → Heap
set_num_wqes heap m n a = if a == m then record (heap a) { num_wqes = n } else heap a

-- The wqes that are free.
unfoldable pub free_wqes : Txq → ℕ
free_wqes v = sub32 v.wqe_cnt (nr_inflight_tx v)

-- An `int` divided by 4, which rounds towards 0.
abbrev pub quarter : ℕ → ℕ
quarter n = if ltb n (2 ^ 31) then n / 4 else sub32 0 ((2 ^ 32 - n) / 4)

module _ (dv : Mlx5dv) where
  -- Gathering completions and freeing their mbufs, as both callers do it.
  unfoldable pub clean : ℕ → World → Txq → Outcome (World × Txq)
  unfolding free_all
  clean rounds w v = do
    done ← gather_completions dv sq_clean_max w.heap v
    w' ← free_all rounds w done.0
    ok (w', done.1)

  -- The three numbers are of type `int`, and the expressions of the first two of type `size_t`.
  unfoldable pub num_hdr_segs : ℕ → ℕ
  num_hdr_segs inline_len =
      if ltb 0 inline_len
      then u32 (dv.ctrl_seg_size / 16 + dv.inline_hdr / 16 + add64 (sub64 inline_len 2) 15 / 16)
      else 2

  unfoldable pub num_dpsegs : Mbuf → ℕ
  num_dpsegs m = u32 (u64 (dv.data_seg_size * m.nb_segs) / 16)

  unfoldable pub num_wqes : Mbuf → ℕ → ℕ
  unfolding num_hdr_segs num_dpsegs
  num_wqes m inline_len = quarter (add32 (add32 (num_hdr_segs inline_len) (num_dpsegs m)) 3)

  -- The five calls that inline the header, and the pointer behind the inlined bytes.
  inline_header : Txq → RequestHeader → Outcome Txq
  inline_header v header = do
    v₁ ← inline_data dv v 0 header.eth
    v₂ ← inline_data dv v₁ 14 header.ipv4
    v₃ ← inline_data dv v₂ 34 header.udp
    v₄ ← inline_data dv v₃ 42 header.packet_id
    inline_data dv v₄ 50 header.checksum

  after_inline : ℕ → ℕ → ℕ → ℕ
  after_inline eseg end inline_len =
      let start = eseg + dv.inline_hdr_start in
      let first_chunk_size = sub64 end start in
      if ltb first_chunk_size inline_len
      then bit_and (add64 (sub64 inline_len first_chunk_size) 15) (2 ^ 64 - 16)
      else start + 2 + bit_and (add64 (sub64 inline_len 2) 15) (2 ^ 64 - 16)

  -- The Ethernet segment at `eseg`, with the header inlined if there is one: the queue, and where
  -- the data segments start.
  unfoldable pub fill_eth : Txq → ℕ → RequestHeader → ℕ → Outcome (ℕ × Txq)
  unfolding inline_header after_inline
  fill_eth v eseg header inline_len = do
    buf ← store v.buf eseg (dv.eth_seg (u16 inline_len))
    let v' = record v { buf = buf } in
        if ltb 0 inline_len
        then (inline_header v' header >>= λ v''. ok (after_inline eseg (end_ptr v) inline_len, v''))
        else ok (if eseg + 16 == end_ptr v then 0 else eseg + 16, v')

  -- What follows the check for free wqes.
  unfoldable pub fill_segment : ℕ → World → Txq → ℕ → RequestHeader → ℕ → Outcome (World × Txq)
  fill_segment rounds w v m header inline_len =
      let hdr_segs = num_hdr_segs inline_len in
      let dp_segs = num_dpsegs (w.heap m) in
      let wqes = num_wqes (w.heap m) inline_len in
      let current_idx = pow2mod v.sq_head v.wqe_cnt in
      let ctrl = get_segment v current_idx in
      let qpn_ds = bit_or (add32 hdr_segs dp_segs) (u32 (v.qp_num * 2 ^ 8)) in
      let opmod_idx = bit_or (u16 v.sq_head * 2 ^ 8) dv.opcode_send in
      let heap = set_num_wqes w.heap m wqes in
      do
        buf ← store v.buf ctrl (dv.ctrl_seg qpn_ds opmod_idx)
        (at, v₁) ← fill_eth (record v { buf = buf }) (ctrl + dv.ctrl_seg_size) header inline_len
        buf' ← fill_dpsegs dv rounds heap (end_ptr v) (some m) at v₁.buf
        if ltb current_idx (length v.buffers)
            then ok (
              record w { heap = heap },
              record v₁ {
                buf = buf';
                buffers = set v.buffers current_idx m;
                sq_head = add32 v.sq_head wqes;
              },
            )
            else fault

  -- `true` where the function returns 0, and `false` where it returns ENOMEM.
  unfoldable pub fill_tx_segment :
      ℕ → World → Txq → ℕ → RequestHeader → ℕ → Outcome (Bool × World × Txq)
  unfolding fill_segment clean
  fill_tx_segment rounds w v m header inline_len =
      let wqes = num_wqes (w.heap m) inline_len in
      (if ltb (free_wqes v) wqes then clean rounds w v else ok (w, v)) >>= λ cleaned.
      if ltb (free_wqes cleaned.1) wqes
      then ok (false, cleaned.0, cleaned.1)
      else (fill_segment rounds cleaned.0 cleaned.1 m header inline_len >>= λ filled.
          ok (true, filled.0, filled.1))

  unfoldable pub ring_doorbell : Txq → ℕ → Txq
  ring_doorbell v ctrl = record v { sq_dbrec = u16 v.sq_head; bf_reg = take 8 (drop ctrl v.buf) }

  -- `none` is the null pointer.
  unfoldable pub post_transmission :
      ℕ → World → Txq → ℕ → RequestHeader → ℕ → Outcome (Option ℕ × World × Txq)
  unfolding fill_tx_segment
  post_transmission rounds w v m header inline_len =
      let ctrl = get_segment v (bit_and v.sq_head (v.wqe_cnt - 1)) in
      do
        (filled, w', v') ← fill_tx_segment rounds w v m header inline_len
        ok (if filled then some ctrl else none, w', v')

  -- `true` where the function returns 1.
  unfoldable pub transmit_one :
      ℕ → World → Txq → ℕ → RequestHeader → ℕ → Outcome (Bool × World × Txq)
  unfolding post_transmission ring_doorbell clean
  transmit_one rounds w v m header inline_len = do
    (posted, w', v') ← post_transmission rounds w v m header inline_len
    elim posted [
      | none ↦ ok (false, w', v')
      | some ctrl ↦
          let v'' = ring_doorbell v' ctrl in
          if leb sq_clean_thresh (nr_inflight_tx v'')
          then (clean rounds w' v'' >>= λ cleaned. ok (true, cleaned.0, cleaned.1))
          else ok (true, w', v'')
    ]

  -- The mbufs from the start index to the burst size, with their headers and inline lengths; the
  -- number is that of the sends before the first that fails.
  unfoldable pub transmit_batch :
      ℕ → World → Txq → List (ℕ × RequestHeader × ℕ) → Outcome (ℕ × World × Txq)
  unfolding transmit_one
  transmit_batch rounds w v [] = ok (0, w, v)
  transmit_batch rounds w v ((m, header, inline_len) ∷ rest) = do
    (sent, w', v') ← transmit_one rounds w v m header inline_len
    if sent
        then (transmit_batch rounds w' v' rest >>= λ later. ok (suc later.0, later.1, later.2))
        else ok (0, w', v')
