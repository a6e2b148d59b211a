-- ===== src/Tx/Ring.antt =====
-- Writing a work request into the bytes of the send queue, which is a ring: `mlx5_inline_data`
-- and the loop over the data segments in `mlx5_fill_tx_segment` (mlx5_rxtx.c). A pointer into the
-- queue is its offset from `sq.buf`, modulo 2^64.
pub mod Store
pub mod Inline
pub mod Scatter
use mlx5_netperf.Prelude.{
  ℕ, zero, suc, ◌+◌, ◌-◌, ◌*◌, ◌/◌, ◌%◌, ◌^◌, Option, none, some, List, [], ◌∷◌, ltb, leb, ◌==◌,
  if◌then◌else◌, length, set, take, drop, bit_and,
}
use mlx5_netperf.Prelude.Word.{u32, add64, sub64}
use mlx5_netperf.Prelude.Outcome.{Outcome, ok, fault, ◌>>=◌}
use mlx5_netperf.Mbuf.{Mbuf}
use mlx5_netperf.Tx.{Mlx5dv, Heap, Txq, pow2mod}

unfoldable pub overwrite : List ℕ → ℕ → List ℕ → List ℕ
overwrite buf at [] = buf
overwrite buf at (b ∷ bytes) = overwrite (set buf at b) (suc at) bytes

-- A store of bytes, by `memcpy` or by the fields of a struct; out of the queue is a fault.
unfoldable pub store : List ℕ → ℕ → List ℕ → Outcome (List ℕ)
unfolding overwrite
store buf at bytes =
    if leb (at + length bytes) (length buf) then ok (overwrite buf at bytes) else fault

unfoldable pub get_segment : Txq → ℕ → ℕ
get_segment v idx = u32 (idx * 2 ^ v.tx_sq_log_stride)

unfoldable pub end_ptr : Txq → ℕ
end_ptr v = u32 (v.wqe_cnt * v.stride)

-- `memcpy` of `bytes` to `start`, of which what does not fit before `end` goes to the front.
unfoldable pub copy_wrapping : List ℕ → ℕ → ℕ → List ℕ → Outcome (List ℕ)
unfolding store
copy_wrapping buf start end bytes =
    let first_chunk = sub64 end start in
    if ltb first_chunk (length bytes)
    then (store buf start (take first_chunk bytes) >>= λ buf'.
        store buf' 0 (drop first_chunk bytes))
    else store buf start bytes

module _ (dv : Mlx5dv) where
  unfoldable pub inline_data : Txq → ℕ → List ℕ → Outcome Txq
  unfolding copy_wrapping get_segment end_ptr
  inline_data v offset bytes =
      let current_segment_ptr = get_segment v (pow2mod v.sq_head v.wqe_cnt) in
      let inline_start = current_segment_ptr + dv.ctrl_seg_size + dv.inline_hdr_start in
      let end = end_ptr v in
      let inline_off_start =
        if leb end (add64 inline_start offset)
        then sub64 (length bytes) (sub64 end inline_start)
        else add64 inline_start offset in
      copy_wrapping v.buf inline_off_start end bytes >>= λ buf. ok (record v { buf = buf })

  -- The loop from mbuf `curr` and pointer `at` on; the first argument bounds its rounds.
  unfoldable pub fill_dpsegs : ℕ → Heap → ℕ → Option ℕ → ℕ → List ℕ → Outcome (List ℕ)
  unfolding store
  fill_dpsegs rounds heap end none at buf = ok buf
  fill_dpsegs zero heap end (some m) at buf = fault
  fill_dpsegs (suc rounds) heap end (some m) at buf = do
    buf' ← store buf at (dv.data_seg (heap m).len (heap m).data_ptr (heap m).lkey)
    let next = at + dv.data_seg_size in
        fill_dpsegs rounds heap end (heap m).next (if next == end then 0 else next) buf'
