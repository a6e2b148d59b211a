-- ===== src/Completion/Heap.antt =====
-- Giving mbufs back changes none of them.
use mlx5_netperf.Prelude.{
  ℕ, zero, suc, ◌≡◌, refl, ap, ◌∙◌, sym, none, some, Option, ◌==◌, Bool-cases, inl, inr, ◌^◌, ◌-◌,
}
use mlx5_netperf.Prelude.Inversion.{bind-ok}
use mlx5_netperf.Prelude.Outcome.{ok}
use mlx5_netperf.Mbuf.{unset, tx_completion, zero_copy_tx_completion, rx_completion, Release}
use mlx5_netperf.Mempool.{free}
use mlx5_netperf.Refcnt.{server_change_refcnt}
use mlx5_netperf.Completion.{
  World, free_mbuf, drop_reference, release_zero_copy, release_tx, release_rx, mbuf_free,
}

free_mbuf-heap : (w w' : World) (m : ℕ) → free_mbuf w m ≡ ok w' → w'.heap ≡ w.heap
unfolding free_mbuf
free_mbuf-heap w w' m h =
    let (pool, _, e) = bind-ok (free w.mbuf_mempool m) _ h in
    let same : record w { mbuf_mempool = pool } ≡ w' = cc e in sym (ap (λ w. w.heap) same)

drop_reference-heap : (w w' : World) (m : ℕ) → drop_reference w m ≡ ok w' → w'.heap ≡ w.heap
unfolding drop_reference
drop_reference-heap w w' m h = elim (Bool-cases (w.using_ref_counting == 1)) [
  | inl counting ↦
      let (changed, _, e) =
        bind-ok (server_change_refcnt w.refcnts (w.heap m).release_data (2 ^ 16 - 1)) _
          (rw counting at h) in
      let same : record w { refcnts = changed.1 } ≡ w' = cc e in sym (ap (λ w. w.heap) same)
  | inr not_counting ↦ let same : w ≡ w' = cc (rw not_counting at h) in sym (ap (λ w. w.heap) same)
]

release_zero_copy-heap :
    (rounds : ℕ) (w w' : World) (m : Option ℕ)
    → release_zero_copy rounds w m ≡ ok w'
    → w'.heap ≡ w.heap
unfolding release_zero_copy
release_zero_copy-heap rounds w w' none h = let same : w ≡ w' = cc h in sym (ap (λ w. w.heap) same)
release_zero_copy-heap zero w w' (some m) h = absurd (cc h)
release_zero_copy-heap (suc rounds) w w' (some m) h =
    let (w₁, first, h₁) = bind-ok (drop_reference w m) _ h in
    let (w₂, second, h₂) = bind-ok (free_mbuf w₁ m) _ h₁ in
    release_zero_copy-heap rounds w₂ w' (w₁.heap m).next h₂
    ∙ free_mbuf-heap w₁ w₂ m second
    ∙ drop_reference-heap w w₁ m first

release_tx-heap :
    (rounds : ℕ) (w w' : World) (m : Option ℕ) → release_tx rounds w m ≡ ok w' → w'.heap ≡ w.heap
unfolding release_tx
release_tx-heap rounds w w' none h = let same : w ≡ w' = cc h in sym (ap (λ w. w.heap) same)
release_tx-heap zero w w' (some m) h = absurd (cc h)
release_tx-heap (suc rounds) w w' (some m) h =
    let (buffers, first, h₁) = bind-ok (free w.tx_buf_mempool (w.heap m).head) _ h in
    let (w₂, second, h₂) = bind-ok (free_mbuf (record w { tx_buf_mempool = buffers }) m) _ h₁ in
    release_tx-heap rounds w₂ w' (w.heap m).next h₂
    ∙ free_mbuf-heap (record w { tx_buf_mempool = buffers }) w₂ m second

release_rx-heap : (w w' : World) (m : ℕ) → release_rx w m ≡ ok w' → w'.heap ≡ w.heap
unfolding release_rx
release_rx-heap w w' m h =
    let (buffers, _, e) = bind-ok (free w.rx_buf_mempool (w.heap m).head) _ h in
    let same : record w { rx_buf_mempool = buffers } ≡ w' = cc e in sym (ap (λ w. w.heap) same)

-- Whatever the release function of an mbuf is, the mbufs are what they were.
pub mbuf_free-heap :
    (rounds : ℕ) (w w' : World) (m : ℕ) → mbuf_free rounds w m ≡ ok w' → w'.heap ≡ w.heap
unfolding mbuf_free
mbuf_free-heap rounds w w' m = by_release (w.heap m).release refl
  where
    by_release :
        (r : Release) → (w.heap m).release ≡ r → mbuf_free rounds w m ≡ ok w' → w'.heap ≡ w.heap
    by_release unset e h = absurd (cc (rw (e, mbuf_free) at h))
    by_release tx_completion e h = release_tx-heap rounds w w' (some m) (rw (e, mbuf_free) at h)
    by_release zero_copy_tx_completion e h =
        release_zero_copy-heap rounds w w' (some m) (rw (e, mbuf_free) at h)
    by_release rx_completion e h = release_rx-heap w w' m (rw (e, mbuf_free) at h)
