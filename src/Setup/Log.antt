-- ===== src/Setup/Log.antt =====
-- The logarithms that the setup takes of strides.
use mlx5_netperf.Prelude.{
  ℕ, zero, suc, ◌/◌, ◌%◌, ◌^◌, ◌<◌, ◌≡◌, refl, sym, ◌∙◌, ap, true, ◌==◌, arith,
}
use mlx5_netperf.Stddef.{is_power_of_two}
use mlx5_netperf.Stddef.Align.{is_power_of_two_iff}
use mlx5_netperf.Setup.{ctz}

ctz_lem : (bits k : ℕ) → k < bits → ctz bits (2 ^ k) ≡ k
unfolding ctz
ctz_lem zero k h = absurd (omega arith)
ctz_lem (suc bits) zero h = ground arith
ctz_lem (suc bits) (suc k) h =
    let half : 2 ^ suc k / 2 ≡ 2 ^ k = omega arith in
    let even : (2 ^ suc k % 2 == 0) ≡ true = ground arith in
    rw (even, half, ctz_lem bits k (omega arith)) refl

-- What the code takes for the logarithm of a power of two is it.
pub power_of_two :
    (x : ℕ) → (e : ℕ) × (x ≡ 2 ^ e) × e < 32 → (is_power_of_two x ≡ true) × (2 ^ ctz 32 x ≡ x)
power_of_two x (e, q, h) = (
  (is_power_of_two_iff x).1 (e, q),
  ap (λ y. 2 ^ ctz 32 y) q ∙ ap (λ n. 2 ^ n) (ctz_lem 32 e h) ∙ sym q,
)
