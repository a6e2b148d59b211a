-- ===== src/Completion/Counted.antt =====
-- The release of a chain whose data lies in the reference counted working set.
use mlx5_netperf.Prelude.{
  ℕ, zero, suc, ◌+◌, ◌-◌, ◌^◌, ◌≤◌, ◌<◌, ◌≡◌, refl, sym, ap, ◌∙◌, Option, none, some, List, [], ◌∷◌,
  map, arith, length, ◌==◌, if◌then◌else◌, Bool-cases, inl, inr, ==→≡,
}
use mlx5_netperf.Prelude.Count.{occurrences}
use mlx5_netperf.Prelude.Outcome.{ok}
use mlx5_netperf.Mbuf.{zero_copy_tx_completion}
use mlx5_netperf.Mempool.{Mempool}
use mlx5_netperf.Refcnt.{Refcnts}
use mlx5_netperf.Refcnt.Counts.{count, change_down}
use mlx5_netperf.Completion.{World, free_mbuf, drop_reference, release_zero_copy, mbuf_free}
use mlx5_netperf.Completion.Chain.{Linked, Holds, Returned, free_step}

-- Every segment that `is` names has a 16-bit count, of at least as many references as `is` holds.
abbrev pub Covers : Refcnts → List ℕ → Type 0
Covers r is =
    (j : ℕ)
    → 0 < occurrences j is
    → (c : ℕ) × (count r j ≡ some c) × (occurrences j is ≤ c) × (c < 2 ^ 16)

abbrev pub lower : ℕ → Option ℕ → Option ℕ
lower n none = none
lower n (some c) = some (c - n)

lower-lower : (a b : ℕ) (o : Option ℕ) → lower b (lower a o) ≡ lower (a + b) o
lower-lower a b none = refl
lower-lower a b (some c) = ap some (omega arith)

lower_zero : (o : Option ℕ) → lower 0 o ≡ o
lower_zero none = refl
lower_zero (some c) = ap some (omega arith)

-- The counts `r'` are those of `r` less the references that `is` holds.
abbrev pub Dropped : Refcnts → Refcnts → List ℕ → Type 0
Dropped r r' is =
    ((j : ℕ) → count r' j ≡ lower (occurrences j is) (count r j))
    × (r'.num_total_segments ≡ r.num_total_segments)

dropped_one :
    (i j c : ℕ) (before after : Option ℕ)
    → (i ≡ j → before ≡ some c)
    → after ≡ (if i == j then some (c - 1) else before)
    → after ≡ lower (occurrences j (i ∷ [])) before
dropped_one i j c before after h e = elim (Bool-cases (i == j)) [
  | inl same ↦ rw (e, same, h (==→≡ i j same)) refl
  | inr other ↦ rw (e, other, lower_zero before) refl
]

still_covered :
    (i j : ℕ) (is : List ℕ) (c : ℕ) (before after : Option ℕ)
    → before ≡ some c
    → after ≡ lower (occurrences j (i ∷ [])) before
    → occurrences j (i ∷ is) ≤ c
    → c < 2 ^ 16
    → (d : ℕ) × (after ≡ some d) × (occurrences j is ≤ d) × (d < 2 ^ 16)
still_covered i j is c before after b e h small = (
  c - occurrences j (i ∷ []),
  e ∙ ap (lower (occurrences j (i ∷ []))) b,
  omega arith,
  omega arith,
)

drop_step :
    (w : World) (m : ℕ) (is : List ℕ)
    → w.using_ref_counting ≡ 1
    → 0 < w.refcnts.num_total_segments
    → Covers w.refcnts ((w.heap m).release_data ∷ is)
    → (r' : Refcnts) × (drop_reference w m ≡ ok (record w { refcnts = r' }))
      × Dropped w.refcnts r' ((w.heap m).release_data ∷ [])
      × Covers r' is
unfolding drop_reference
drop_step w m is u p cover =
    let i = (w.heap m).release_data in
    let (c, counted, enough, small) = cover i (ground arith) in
    let (r', done, counts, same) = change_down w.refcnts i c p small (ground arith) counted in
    let dropped : (j : ℕ) → count r' j ≡ lower (occurrences j (i ∷ [])) (count w.refcnts j) = λ j.
      dropped_one i j c (count w.refcnts j) (count r' j)
        (λ e. ap (count w.refcnts) (sym e) ∙ counted) (counts j) in
    (
      r',
      rw (u, done) refl,
      (dropped, same),
      λ j h.
          (let (d, found, some_left, fits) = cover j (omega arith) in
            still_covered i j is d (count w.refcnts j) (count r' j) found (dropped j) some_left
              fits),
    )

Dropped-cons :
    (r r₁ r₂ : Refcnts) (i : ℕ) (is : List ℕ)
    → Dropped r r₁ (i ∷ [])
    → Dropped r₁ r₂ is
    → Dropped r r₂ (i ∷ is)
Dropped-cons r r₁ r₂ i is (first, same) (later, same') = (
  λ j.
      later j
      ∙ ap (lower (occurrences j is)) (first j)
      ∙ lower-lower (occurrences j (i ∷ [])) (occurrences j is) (count r j)
      ∙ ap (λ n. lower n (count r j)) {x = occurrences j (i ∷ []) + occurrences j is}
          {y = occurrences j (i ∷ is)} (omega arith),
  same' ∙ same,
)

release_zero_copy_lem :
    (ms : List ℕ) (rounds : ℕ) (w : World) (start : Option ℕ)
    → length ms ≤ rounds
    → Linked w.heap start ms
    → Holds w.mbuf_mempool (length ms)
    → w.using_ref_counting ≡ 1
    → 0 < w.refcnts.num_total_segments
    → Covers w.refcnts (map (λ m. (w.heap m).release_data) ms)
    → (counts : Refcnts) × (mbufs : Mempool) × (release_zero_copy rounds w start
        ≡ ok (record w { refcnts = counts; mbuf_mempool = mbufs }))
      × Dropped w.refcnts counts (map (λ m. (w.heap m).release_data) ms)
      × Returned ms w.mbuf_mempool mbufs
unfolding release_zero_copy free_mbuf Linked
release_zero_copy_lem [] rounds w start b l (v, h) u p cover = (
  w.refcnts,
  w.mbuf_mempool,
  rw l refl,
  ((λ j. sym (lower_zero (count w.refcnts j))), refl),
  (v, refl, omega arith),
)
release_zero_copy_lem (m ∷ ms) zero w start b l h u p cover = elim b [ ]
release_zero_copy_lem (m ∷ ms) (suc rounds) w start b (here_it_is, l) h u p cover =
    let i = (w.heap m).release_data in
    let is = map (λ m. (w.heap m).release_data) ms in
    let (counts₁, dropped, first, cover₁) = drop_step w m is u p cover in
    let (mbufs₁, freed, holds, back) = free_step w.mbuf_mempool m (length ms) h in
    let w₁ = record w { refcnts = counts₁; mbuf_mempool = mbufs₁ } in
    let (counts, mbufs, done, later, returned) =
      release_zero_copy_lem ms rounds w₁ (w.heap m).next (omega arith) l holds u (rw first.1 p)
        cover₁ in
    (
      counts,
      mbufs,
      rw (here_it_is, dropped, freed) done,
      Dropped-cons w.refcnts counts₁ counts i is first later,
      back ms mbufs returned,
    )

-- `mbuf_free` on a chain that points into the working set, with reference counting on, gives every
-- descriptor of the chain back, in order, and takes from the count of each virtual segment exactly
-- the number of mbufs of the chain that name it; it changes nothing else. It takes a mempool with
-- as many mbufs in use and as many rounds as the chain is long, and counts that cover the chain.
pub mbuf_free_zero_copy :
    (ms : List ℕ) (rounds : ℕ) (w : World) (m : ℕ)
    → (w.heap m).release ≡ zero_copy_tx_completion
    → length ms ≤ rounds
    → Linked w.heap (some m) ms
    → Holds w.mbuf_mempool (length ms)
    → w.using_ref_counting ≡ 1
    → 0 < w.refcnts.num_total_segments
    → Covers w.refcnts (map (λ m. (w.heap m).release_data) ms)
    → (counts : Refcnts) × (mbufs : Mempool) × (mbuf_free rounds w m
        ≡ ok (record w { refcnts = counts; mbuf_mempool = mbufs }))
      × Dropped w.refcnts counts (map (λ m. (w.heap m).release_data) ms)
      × Returned ms w.mbuf_mempool mbufs
unfolding mbuf_free
mbuf_free_zero_copy ms rounds w m e b l h u p cover =
    let (counts, mbufs, done, dropped, returned) =
      release_zero_copy_lem ms rounds w (some m) b l h u p cover in
    (counts, mbufs, rw (e, mbuf_free) done, dropped, returned)
