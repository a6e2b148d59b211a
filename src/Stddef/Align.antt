-- ===== src/Stddef/Align.antt =====
-- Powers of two and alignment to them.
use mathlib.Core.WellFounded
use native.Mathlib.Nat.{pow-succ', one-le-pow, pow-le-pow_right}
use native.Mathlib.Decide.{ℕ_discrete}
use mlx5_netperf.Prelude.{
  ℕ, zero, suc, ◌+◌, ◌-◌, ◌*◌, ◌/◌, ◌%◌, ◌^◌, ◌≤◌, ◌<◌, ◌≡◌, ◌↔◌, refl, arith, true, bit_and,
}
use mlx5_netperf.Prelude.Bits.{bit_and_low, bit_or_ones, bit_or_full, bit_and_high}
use mlx5_netperf.Prelude.Order.{lt_wf}
use mlx5_netperf.Stddef.{is_power_of_two, align_up, align_down, div_up}

pub bit_and_self : (a : ℕ) → bit_and a a ≡ a
bit_and_self a = WellFounded.induction lt_wf {C = λ k. bit_and k k ≡ k} a λ k ih. halve k ih
  where
    halve : (n : ℕ) → ((m : ℕ) → m < n → bit_and m m ≡ m) → bit_and n n ≡ n
    halve zero ih = refl
    halve (suc n) ih = omega (arith, bit_and_low (suc n) (suc n), ih (suc n / 2) (omega arith))

-- Twice a number passes the test when the number does.
is_power_of_two_double : (y : ℕ) → is_power_of_two (2 * y) ≡ is_power_of_two y
unfolding is_power_of_two
is_power_of_two_double zero = refl
is_power_of_two_double (suc y) = ground (arith, bit_and_low (2 * suc y) (2 * suc y - 1))

is_power_of_two_odd : (y : ℕ) → is_power_of_two (2 * y + 1) ≡ true → y ≡ 0
unfolding is_power_of_two
is_power_of_two_odd y h = ground (arith, bit_and_low (2 * y + 1) (2 * y), bit_and_self y)

is_power_of_two_pos : (x : ℕ) → is_power_of_two x ≡ true → 0 < x
unfolding is_power_of_two
is_power_of_two_pos x h = ground arith

is_power_of_two-pow : (k : ℕ) → is_power_of_two (2 ^ k) ≡ true
is_power_of_two-pow zero = unfold is_power_of_two in refl
is_power_of_two-pow (suc k) = rw (pow-succ' 2 k, is_power_of_two_double) (is_power_of_two-pow k)

is_power_of_two_sound : (x : ℕ) → is_power_of_two x ≡ true → (k : ℕ) × (x ≡ 2 ^ k)
is_power_of_two_sound x =
    WellFounded.induction lt_wf {C = λ n. is_power_of_two n ≡ true → (k : ℕ) × (n ≡ 2 ^ k)} x halve
  where
    halve :
        (n : ℕ)
        → ((m : ℕ) → m < n → is_power_of_two m ≡ true → (k : ℕ) × (m ≡ 2 ^ k))
        → is_power_of_two n ≡ true
        → (k : ℕ) × (n ≡ 2 ^ k)
    halve n ih h = elim (ℕ_discrete (n % 2) 0) [
      | yes even ↦
          let twice : n ≡ 2 * (n / 2) = omega arith in
          let (k, e) =
            ih (n / 2) (omega (arith, is_power_of_two_pos n h))
              (rw (← is_power_of_two_double) (rw twice at h)) in
          (suc k, omega (arith, twice, e, pow-succ' 2 k))
      | no odd ↦
          let twice : n ≡ 2 * (n / 2) + 1 = omega arith in
          (0, omega (arith, twice, is_power_of_two_odd (n / 2) (rw twice at h)))
    ]

-- `is_power_of_two` holds of exactly the powers of two.
pub is_power_of_two_iff : (x : ℕ) → (is_power_of_two x ≡ true) ↔ ((k : ℕ) × (x ≡ 2 ^ k))
is_power_of_two_iff x = (is_power_of_two_sound x, λ h. rw (h.1) (is_power_of_two-pow h.0))

-- `align_up` in closed form: below the word's limit nothing wraps but the case of 0.
align_up_zero : (k : ℕ) → 2 ^ k ≤ 2 ^ 64 → align_up 0 (2 ^ k) ≡ 0
unfolding align_up
align_up_zero k h =
    let mask : (2 ^ k + 2 ^ 64 - 1) % 2 ^ 64 ≡ 2 ^ k - 1 = omega (arith, one-le-pow k 2) in
    rw (mask, bit_or_full 64 (2 ^ k - 1) (omega (arith, one-le-pow k 2)))

align_up_pos :
    (k x : ℕ) → suc x + 2 ^ k ≤ 2 ^ 64 → align_up (suc x) (2 ^ k) ≡ x / 2 ^ k * 2 ^ k + 2 ^ k
unfolding align_up
align_up_pos k x h =
    let mask : (2 ^ k + 2 ^ 64 - 1) % 2 ^ 64 ≡ 2 ^ k - 1 = omega (arith, one-le-pow k 2) in
    let less : (suc x + 2 ^ 64 - 1) % 2 ^ 64 ≡ x = omega arith in
    rw (mask, less, bit_or_ones k x) (grind (arith, one-le-pow k 2))

-- For a power of two `2^k` and a number that leaves room for it below 2^64, `align_up` gives the
-- least multiple of `2^k` that is not below the number.
pub align_up_least :
    (k x : ℕ)
    → x + 2 ^ k ≤ 2 ^ 64
    → (x ≤ align_up x (2 ^ k)) × (align_up x (2 ^ k) % 2 ^ k ≡ 0) × (align_up x (2 ^ k) < x + 2 ^ k)
align_up_least k zero h = rw (align_up_zero k (omega arith)) (omega (arith, one-le-pow k 2))
align_up_least k (suc x) h = rw (align_up_pos k x h) (
  grind (arith, one-le-pow k 2),
  multiple (x / 2 ^ k) (2 ^ k) (one-le-pow k 2 (omega arith)),
  grind (arith, one-le-pow k 2),
)
  where
    multiple : (q p : ℕ) → 0 < p → (q * p + p) % p ≡ 0
    multiple q p h = grind arith

-- For a power of two `2^k` below 2^64, `align_down` gives the greatest multiple of `2^k` that is
-- not above the number.
pub align_down_greatest :
    (k x : ℕ)
    → k < 64
    → x < 2 ^ 64
    → (align_down x (2 ^ k) ≤ x)
      × (align_down x (2 ^ k) % 2 ^ k ≡ 0)
      × (x < align_down x (2 ^ k) + 2 ^ k)
unfolding align_down
align_down_greatest k x h b =
    let pos = one-le-pow k 2 (omega arith) in
    let small : 2 ^ k < 2 ^ 64 =
      omega (arith, pow-succ' 2 k, pow-le-pow_right {n = 2} (omega arith) {i = suc k} {j = 64} h) in
    let mask : 2 ^ 64 - 1 - (2 ^ k + 2 ^ 64 - 1) % 2 ^ 64 ≡ 2 ^ 64 - 2 ^ k = omega arith in
    rw (mask, bit_and_high k 64 x (omega arith) b)
      (grind arith, multiple (x / 2 ^ k) (2 ^ k) pos, grind arith)
  where
    multiple : (q p : ℕ) → 0 < p → q * p % p ≡ 0
    multiple q p h = grind arith

-- `div_up` rounds the quotient up, where the sum with the divisor does not wrap.
pub div_up_lem :
    (x d : ℕ) → 0 < d → x + d < 2 ^ 64 → (x ≤ div_up x d * d) × (div_up x d * d < x + d)
unfolding div_up
div_up_lem x d h b = grind arith
