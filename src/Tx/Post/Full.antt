-- ===== src/Tx/Post/Full.antt =====
-- The room in the send queue: how much a send takes, and what happens where it is not there.
use mlx5_netperf.Prelude.{
  ℕ, ◌+◌, ◌-◌, ◌*◌, ◌%◌, ◌^◌, ◌≤◌, ◌<◌, ◌≡◌, refl, true, false, List, [], ◌∷◌, arith, ltb,
}
use native.Mathlib.Nat.{add-zero}
use mlx5_netperf.Prelude.Outcome.{ok}
use mlx5_netperf.Mbuf.{Mbuf}
use mlx5_netperf.Completion.{World}
use mlx5_netperf.Tx.{Mlx5dv, Txq, nr_inflight_tx}
use mlx5_netperf.Tx.Gather.{Completed, collected, gather_completions_lem}
use mlx5_netperf.Tx.Post.{
  RequestHeader, free_all, clean, num_hdr_segs, num_dpsegs, num_wqes, fill_tx_segment, free_wqes,
  post_transmission, transmit_one, transmit_batch,
}

-- The 64-byte wqes that the code takes for a send are as many as its bytes need and no more: 16
-- for the control segment, 16 up to the inline data's third byte, the other inline data padded to
-- 16 (or another 16 without any), and 16 for each mbuf. Inline data has no or at least two
-- bytes, and there are fewer than 2^30 mbufs and bytes more.
pub num_wqes_least :
    (dv : Mlx5dv) (m : Mbuf) (extra : ℕ)
    → extra < 2 ^ 30
    → m.nb_segs < 2 ^ 30
    → (extra + 32 + 16 * m.nb_segs ≤ 64 * num_wqes dv m (extra + 2))
      × (64 * num_wqes dv m (extra + 2) < extra + 32 + 16 * m.nb_segs + 15 + 64)
      × (32 + 16 * m.nb_segs ≤ 64 * num_wqes dv m 0)
      × (64 * num_wqes dv m 0 < 32 + 16 * m.nb_segs + 64)
unfolding num_wqes num_hdr_segs num_dpsegs
num_wqes_least dv m extra h n =
    rw (dv.ctrl_seg_is_16, dv.inline_hdr_is_16, dv.data_seg_is_16) (ground arith)

refused_by :
    (dv : Mlx5dv) (rounds : ℕ) (w : World) (v v' : Txq) (m inline_len : ℕ) (header : RequestHeader)
    → free_wqes v < num_wqes dv (w.heap m) inline_len
    → clean dv rounds w v ≡ ok (w, v')
    → free_wqes v' ≡ free_wqes v
    → fill_tx_segment dv rounds w v m header inline_len ≡ ok (false, w, v')
unfolding fill_tx_segment
refused_by dv rounds w v v' m inline_len header full cleaned same =
    let test : ltb (free_wqes v) (num_wqes dv (w.heap m) inline_len) ≡ true = ground arith in
    rw (test, cleaned, same, test) refl

not_sent :
    (dv : Mlx5dv) (rounds : ℕ) (w : World) (v v' : Txq) (m inline_len : ℕ) (header : RequestHeader)
    → fill_tx_segment dv rounds w v m header inline_len ≡ ok (false, w, v')
    → transmit_one dv rounds w v m header inline_len ≡ ok (false, w, v')
unfolding transmit_one post_transmission
not_sent dv rounds w v v' m inline_len header h = rw h refl

none_sent :
    (dv : Mlx5dv) (rounds : ℕ) (w : World) (v v' : Txq) (m inline_len : ℕ) (header : RequestHeader)
    (rest : List (ℕ × RequestHeader × ℕ))
    → transmit_one dv rounds w v m header inline_len ≡ ok (false, w, v')
    → transmit_batch dv rounds w v ((m, header, inline_len) ∷ rest) ≡ ok (0, w, v')
unfolding transmit_batch
none_sent dv rounds w v v' m inline_len header rest h = rw h refl

-- Where a send takes more than the free wqes and no completion has arrived, the send is refused:
-- `mlx5_fill_tx_segment` returns ENOMEM, `mlx5_transmit_one` returns 0 and `mlx5_transmit_batch`
-- no send, and all that changes is the doorbell record of the completion queue. The
-- mbufs and the inlined bytes are so few that the `int` sums are exact.
pub refused :
    (dv : Mlx5dv) (rounds : ℕ) (w : World) (v : Txq) (k a c t m inline_len : ℕ)
    (header : RequestHeader) (rest : List (ℕ × RequestHeader × ℕ))
    → k < 16
    → a ≤ 16
    → v.cqe_cnt ≡ 2 ^ k
    → v.wqe_cnt ≡ 2 ^ a
    → (w.heap m).nb_segs + inline_len < 2 ^ 31 - 5
    → Completed dv w.heap v k a c []
    → free_wqes (collected dv w.heap v k a c t) < num_wqes dv (w.heap m) inline_len
    → (v' : Txq) × (v' ≡ record (collected dv w.heap v k a c t) { cq_dbrec = c % 2 ^ 24 })
      × (fill_tx_segment dv rounds w (collected dv w.heap v k a c t) m header inline_len
          ≡ ok (false, w, v'))
      × (transmit_one dv rounds w (collected dv w.heap v k a c t) m header inline_len
          ≡ ok (false, w, v'))
      × (transmit_batch dv rounds w (collected dv w.heap v k a c t) ((m, header, inline_len) ∷ rest)
          ≡ ok (0, w, v'))
unfolding clean free_all free_wqes nr_inflight_tx
refused dv rounds w v k a c t m inline_len header rest ks ka ck ca exact none_yet full =
    let before = collected dv w.heap v k a c t in
    let after = record before { cq_dbrec = c % 2 ^ 24 } in
    let filled = refused_by dv rounds w before after m inline_len header full cleaned unchanged in
    let one = not_sent dv rounds w before after m inline_len header filled in
    (after, refl, filled, one, none_sent dv rounds w before after m inline_len header rest one)
  where
    cleaned :
        clean dv rounds w (collected dv w.heap v k a c t)
        ≡ ok (w, record (collected dv w.heap v k a c t) { cq_dbrec = c % 2 ^ 24 })
    cleaned =
        rw (gather_completions_lem dv w.heap v k a ks ka ck ca 32 c t [] none_yet) (simp add-zero)

    unchanged :
        free_wqes (record (collected dv w.heap v k a c t) { cq_dbrec = c % 2 ^ 24 })
        ≡ free_wqes (collected dv w.heap v k a c t)
    unchanged = refl
