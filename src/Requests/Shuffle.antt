-- ===== src/Requests/Shuffle.antt =====
-- The shuffle permutes: every number occurs as often after it as before.
use native.Mathlib.Decide.{ℕ_discrete}
use mlx5_netperf.Prelude.Count.{occurrences, occurrences-set}
use mlx5_netperf.Prelude.{
  ℕ, zero, suc, ◌+◌, ◌-◌, ◌%◌, ◌<◌, ◌≡◌, refl, ◌∙◌, ap, List, some, arith, ltb, leb, ◌&&◌,
  if◌then◌else◌, length, get_elem?, set, length-set, get_elem?-of_lt, get_elem?-set_ne,
}
use mlx5_netperf.Prelude.Outcome.{ok}
use mlx5_netperf.Requests.{count_up, swap, shuffle}

pub length-count_up : (n i : ℕ) → length (count_up n i) ≡ n
unfolding count_up
length-count_up zero i = refl
length-count_up (suc n) i = ap suc (length-count_up n (suc i))

pub occurrences-count_up :
    (n i v : ℕ) → occurrences v (count_up n i) ≡ (if leb i v && ltb v (i + n) then 1 else 0)
unfolding count_up
occurrences-count_up zero i v = ground arith
occurrences-count_up (suc n) i v = ground (arith, occurrences-count_up n (suc i) v)

-- The same length, and every number as often.
abbrev pub Shuffled : List ℕ → List ℕ → Type 0
Shuffled xs ys = (length ys ≡ length xs) × ((v : ℕ) → occurrences v ys ≡ occurrences v xs)

swap_lem :
    (xs : List ℕ) (i j : ℕ)
    → i < length xs
    → j < length xs
    → (ys : List ℕ) × (swap xs i j ≡ ok ys) × Shuffled xs ys
unfolding swap
swap_lem xs i j p q = elim (ℕ_discrete i j) [
  | yes same ↦ (xs, ground arith, (refl, λ v. refl))
  | no other ↦
      let (x, at_i) = get_elem?-of_lt xs i p in
      let (y, at_j) = get_elem?-of_lt xs j q in
      let still : get_elem? (set xs i y) j ≡ some y = get_elem?-set_ne xs y other ∙ at_j in
      (
        set (set xs i y) j x,
        ground (arith, at_i, at_j),
        (
          length-set (set xs i y) j x ∙ length-set xs i y,
          λ v.
              omega
                (arith, occurrences-set xs i y v at_i, occurrences-set (set xs i y) j x v still),
        ),
      )
]

pub shuffle_lem :
    (rand : ℕ → ℕ) (left i : ℕ) (xs : List ℕ)
    → i + left < length xs
    → (ys : List ℕ) × (shuffle rand left i xs ≡ ok ys) × Shuffled xs ys
unfolding shuffle
shuffle_lem rand zero i xs h = (xs, refl, (refl, λ v. refl))
shuffle_lem rand (suc left) i xs h =
    let j = i + rand i % (length xs - i) in
    let (ys, swapped, first) = swap_lem xs i j (omega arith) (omega arith) in
    let (zs, done, later) = shuffle_lem rand left (suc i) ys (omega (arith, first.0)) in
    (zs, rw swapped done, (later.0 ∙ first.0, λ v. later.1 v ∙ first.1 v))
