-- ===== src/Prelude/Update.antt =====
-- A write into a list at a position that can be read, in `if` form.
use mlx5_netperf.Prelude.{
  ℕ, zero, suc, ◌<◌, ◌≡◌, refl, some, List, [], ◌∷◌, arith, ◌==◌, if◌then◌else◌, length, get_elem?,
  set,
}

module _ {ℓ} {A : Type ℓ} where
  pub lt_of_get_elem? : (xs : List A) (i : ℕ) {x : A} → get_elem? xs i ≡ some x → i < length xs
  lt_of_get_elem? [] i h = cc
  lt_of_get_elem? (y ∷ xs) zero h = omega arith
  lt_of_get_elem? (y ∷ xs) (suc i) h = omega (arith, lt_of_get_elem? xs i h)

  pub get_elem?-set :
      (xs : List A) (i j : ℕ) (v : A) {x : A}
      → get_elem? xs i ≡ some x
      → get_elem? (set xs i v) j ≡ (if i == j then some v else get_elem? xs j)
  get_elem?-set [] i j v h = cc
  get_elem?-set (y ∷ xs) zero zero v h = refl
  get_elem?-set (y ∷ xs) zero (suc j) v h = ground arith
  get_elem?-set (y ∷ xs) (suc i) zero v h = ground arith
  get_elem?-set (y ∷ xs) (suc i) (suc j) v h = ground (arith, get_elem?-set xs i j v h)
