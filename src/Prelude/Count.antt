-- ===== src/Prelude/Count.antt =====
-- How often a number occurs in a list.
use mlx5_netperf.Prelude.{
  ℕ, zero, suc, ◌+◌, ◌<◌, ◌≡◌, List, [], ◌∷◌, ◌++◌, some, arith, ◌==◌, if◌then◌else◌, get_elem?,
  set, ap, false, Bool-cases, inl, inr, ==→≡,
}

abbrev pub occurrences : ℕ → List ℕ → ℕ
occurrences j [] = 0
occurrences j (i ∷ is) = (if i == j then 1 else 0) + occurrences j is

abbrev pub here : ℕ → ℕ → ℕ
here i j = if i == j then 1 else 0

pub occurrences-set :
    (xs : List ℕ) (i y v : ℕ) {x : ℕ}
    → get_elem? xs i ≡ some x
    → occurrences v (set xs i y) + here x v ≡ occurrences v xs + here y v
occurrences-set [] i y v h = cc
occurrences-set (x ∷ xs) zero y v h = ground (arith, h)
occurrences-set (x ∷ xs) (suc i) y v h = omega (arith, occurrences-set xs i y v h)

pub occurrences-append :
    (xs ys : List ℕ) (v : ℕ) → occurrences v (xs ++ ys) ≡ occurrences v xs + occurrences v ys
occurrences-append [] ys v = omega arith
occurrences-append (x ∷ xs) ys v = omega (arith, occurrences-append xs ys v)

-- A number that can be read from a list occurs in it.
pub occurs : (xs : List ℕ) (i : ℕ) {x : ℕ} → get_elem? xs i ≡ some x → 0 < occurrences x xs
occurs [] i h = cc
occurs (y ∷ xs) zero h = ground (arith, h)
occurs (y ∷ xs) (suc i) {x} h = omega (arith, occurs xs i h)

abbrev pub last : ℕ → List ℕ → ℕ
last m [] = m
last m (x ∷ xs) = last x xs

pub last_occurs : (m : ℕ) (ms : List ℕ) → 0 < occurrences (last m ms) (m ∷ ms)
last_occurs m [] = ground arith
last_occurs m (x ∷ xs) = omega (arith, last_occurs x xs)

-- What does not occur in a list is none of what does.
pub absent :
    (a b : ℕ) (xs : List ℕ) → occurrences a xs ≡ 0 → 0 < occurrences b xs → (a == b) ≡ false
absent a b xs h k = elim (Bool-cases (a == b)) [
  | inl same ↦ absurd (omega (arith, k, h, ap (λ t. occurrences t xs) (==→≡ a b same)))
  | inr other ↦ other
]
