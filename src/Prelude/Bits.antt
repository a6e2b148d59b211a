-- ===== src/Prelude/Bits.antt =====
-- Masks and shifts as arithmetic: `&` with low ones, `|` with low ones, at every width.
use Prim.Native.Nat.{ℕ, zero, suc, ◌+◌, ◌-◌, ◌*◌, ◌/◌, ◌%◌, ◌^◌, ◌≤◌, ◌<◌, min, max}
use Prim.Native.Nat.{
  bit_and, bit_or, bit_xor, bitwise, bit_xor-bitwise, differ, digits, bit_and-bitwise,
  bit_or-bitwise,
}
use mathlib.Core.Path.{◌≡◌, refl, ap, ◌∙◌}
use mathlib.Core.WellFounded
use native.Mathlib.Omega.{arith}
use native.Mathlib.Nat.{pow-suc, pow-succ', one-le-pow, le_refl, mod-eq_of_lt}
use mlx5_netperf.Prelude.Order.{lt_wf}

-- The native operations stand for a digit recursion with fuel; more fuel than digits is no matter.
module _ (z : ℕ → ℕ) (f : ℕ → ℕ → ℕ) where
  digits_enough : (n m a b : ℕ) → a ≤ n → a ≤ m → digits z f n a b ≡ digits z f m a b
  digits_enough zero zero a b p q = refl
  digits_enough zero (suc m) zero b p q = refl
  digits_enough zero (suc m) (suc a) b p q = absurd (omega arith)
  digits_enough (suc n) zero zero b p q = refl
  digits_enough (suc n) zero (suc a) b p q = absurd (omega arith)
  digits_enough (suc n) (suc m) zero b p q = refl
  digits_enough (suc n) (suc m) (suc a) b p q =
      rw (digits_enough n m (suc a / 2) (b / 2) (omega arith) (omega arith))

  bitwise_low :
      (a b : ℕ)
      → bitwise z f (suc a) b ≡ bitwise z f (suc a / 2) (b / 2) * 2 + f (suc a % 2) (b % 2)
  bitwise_low a b =
      omega (arith, digits_enough a (suc a / 2) (suc a / 2) (b / 2) (omega arith) (le_refl _))

-- One binary digit at a time.
pub bit_and_low : (a b : ℕ) → bit_and a b ≡ bit_and (a / 2) (b / 2) * 2 + min (a % 2) (b % 2)
bit_and_low zero b = simp bit_and-bitwise (omega arith)
bit_and_low (suc a) b = simp bit_and-bitwise (bitwise_low (λ y. 0) min a b)

pub bit_or_low : (a b : ℕ) → bit_or a b ≡ bit_or (a / 2) (b / 2) * 2 + max (a % 2) (b % 2)
bit_or_low zero b = simp bit_or-bitwise (omega arith)
bit_or_low (suc a) b = simp bit_or-bitwise (bitwise_low (λ y. y) max a b)

differ_lem : (a b : ℕ) → a < 2 → b < 2 → differ a b ≡ (a + b) % 2
differ_lem zero b h k = omega arith
differ_lem (suc zero) zero h k = refl
differ_lem (suc zero) (suc zero) h k = refl
differ_lem (suc zero) (suc (suc b)) h k = absurd (omega arith)
differ_lem (suc (suc a)) b h k = absurd (omega arith)

pub bit_xor_low : (a b : ℕ) → bit_xor a b ≡ bit_xor (a / 2) (b / 2) * 2 + (a % 2 + b % 2) % 2
bit_xor_low zero b = simp bit_xor-bitwise (omega arith)
bit_xor_low (suc a) b = simp bit_xor-bitwise (
    bitwise_low (λ y. y) differ a b
    ∙ ap (λ (t : ℕ). bitwise (λ y. y) differ (suc a / 2) (b / 2) * 2 + t)
        (differ_lem (suc a % 2) (b % 2) (omega arith) (omega arith)))

pub bit_and-zero : (a : ℕ) → bit_and a 0 ≡ 0
bit_and-zero a = WellFounded.induction lt_wf {C = λ k. bit_and k 0 ≡ 0} a λ k ih. halve k ih
  where
    halve : (n : ℕ) → ((m : ℕ) → m < n → bit_and m 0 ≡ 0) → bit_and n 0 ≡ 0
    halve zero ih = refl
    halve (suc n) ih = omega (arith, bit_and_low (suc n) 0, ih (suc n / 2) (omega arith))

pub bit_or-zero : (a : ℕ) → bit_or a 0 ≡ a
bit_or-zero a = WellFounded.induction lt_wf {C = λ k. bit_or k 0 ≡ k} a λ k ih. halve k ih
  where
    halve : (n : ℕ) → ((m : ℕ) → m < n → bit_or m 0 ≡ m) → bit_or n 0 ≡ n
    halve zero ih = refl
    halve (suc n) ih = omega (arith, bit_or_low (suc n) 0, ih (suc n / 2) (omega arith))

-- Division and remainder by twice a number, one binary digit at a time.
pub div_double : (x p : ℕ) → 0 < p → x / (2 * p) ≡ x / 2 / p
div_double x p h = grind arith

pub mod_double : (x p : ℕ) → 0 < p → x % (2 * p) ≡ x / 2 % p * 2 + x % 2
mod_double x p h = grind arith

-- `x & (2^k - 1)` is the remainder.
pub bit_and_ones : (k x : ℕ) → bit_and x (2 ^ k - 1) ≡ x % 2 ^ k
bit_and_ones zero x = ground (arith, bit_and-zero x)
bit_and_ones (suc k) x = rw (pow-suc 2 k) (
    ground (
      arith,
      one-le-pow k 2,
      bit_and_low x (2 ^ k * 2 - 1),
      bit_and_ones k (x / 2),
      mod_double x (2 ^ k),
    ))

-- `x | (2^k - 1)` fills the low digits.
pub bit_or_ones : (k x : ℕ) → bit_or x (2 ^ k - 1) ≡ x / 2 ^ k * 2 ^ k + (2 ^ k - 1)
bit_or_ones zero x = ground (arith, bit_or-zero x)
bit_or_ones (suc k) x = rw (pow-suc 2 k) (
    ground (
      arith,
      one-le-pow k 2,
      bit_or_low x (2 ^ k * 2 - 1),
      bit_or_ones k (x / 2),
      div_double x (2 ^ k),
    ))

-- `x & 2^k` keeps digit `k`.
pub bit_and_bit : (k x : ℕ) → bit_and x (2 ^ k) ≡ x / 2 ^ k % 2 * 2 ^ k
bit_and_bit zero x = omega (arith, bit_and_low x 1, bit_and-zero (x / 2))
bit_and_bit (suc k) x = rw (pow-succ' 2 k) (
    omega (
      arith,
      bit_and_low x (2 * 2 ^ k),
      ap (λ (t : ℕ). bit_and (x / 2) t) {x = 2 * 2 ^ k / 2} {y = 2 ^ k} (omega arith),
      bit_and_bit k (x / 2),
      ap (λ (t : ℕ). t % 2 * 2 ^ k) (div_double x (2 ^ k) (one-le-pow k 2 (omega arith))),
      double_bit (x / 2 / 2 ^ k % 2) (2 ^ k),
    ))
  where
    double_bit : (b p : ℕ) → b * p * 2 ≡ b * (2 * p)
    double_bit b p = omega arith

-- A remainder by `2^k` survives a wrap at a wider power.
pub mod_of_wrap : (k w x : ℕ) → k ≤ w → x % 2 ^ w % 2 ^ k ≡ x % 2 ^ k
mod_of_wrap zero w x h = omega arith
mod_of_wrap (suc k) zero x h = absurd (omega arith)
mod_of_wrap (suc k) (suc w) x h =
    rw (pow-succ' 2 w, pow-succ' 2 k, mod_double x (2 ^ w) (one-le-pow w 2 (omega arith)))
      (omega (
        arith,
        mod_double (x / 2 % 2 ^ w * 2 + x % 2) (2 ^ k) (one-le-pow k 2 (omega arith)),
        mod_double x (2 ^ k) (one-le-pow k 2 (omega arith)),
        ap (λ (t : ℕ). t % 2 ^ k) {x = (x / 2 % 2 ^ w * 2 + x % 2) / 2} {y = x / 2 % 2 ^ w}
            (omega arith),
        mod_of_wrap k w (x / 2) (omega arith),
      ))

-- All ones absorb what they cover.
pub bit_or_full : (w y : ℕ) → y < 2 ^ w → bit_or (2 ^ w - 1) y ≡ 2 ^ w - 1
bit_or_full zero zero h = refl
bit_or_full zero (suc y) h = absurd (omega arith)
bit_or_full (suc w) y h =
    let double = pow-succ' 2 w in
    omega (
      arith,
      double,
      one-le-pow w 2,
      bit_or_low (2 ^ suc w - 1) y,
      ap (λ (t : ℕ). bit_or t (y / 2)) {x = (2 ^ suc w - 1) / 2} {y = 2 ^ w - 1}
          (omega (arith, double, one-le-pow w 2)),
      bit_or_full w (y / 2) (omega (arith, double)),
    )

floor_double : (x p : ℕ) → 0 < p → x / (2 * p) * (2 * p) ≡ x / 2 / p * p * 2
floor_double x p h = grind arith

-- A mask of all digits from `k` on clears the digits below.
pub bit_and_high : (k w x : ℕ) → k ≤ w → x < 2 ^ w → bit_and x (2 ^ w - 2 ^ k) ≡ x / 2 ^ k * 2 ^ k
bit_and_high zero w x h b = grind (arith, bit_and_ones w x, mod-eq_of_lt b)
bit_and_high (suc k) zero x h b = absurd (omega arith)
bit_and_high (suc k) (suc w) x h b =
    rw (pow-succ' 2 w, pow-succ' 2 k)
      (bit_and_low x (2 * 2 ^ w - 2 * 2 ^ k)
        ∙ ap (λ (t : ℕ). bit_and (x / 2) t * 2 + min (x % 2) ((2 * 2 ^ w - 2 * 2 ^ k) % 2))
            {x = (2 * 2 ^ w - 2 * 2 ^ k) / 2} {y = 2 ^ w - 2 ^ k} (omega arith)
        ∙ omega (
          arith,
          bit_and_high k w (x / 2) (omega arith) (omega (arith, pow-succ' 2 w)),
          floor_double x (2 ^ k) (one-le-pow k 2 (omega arith)),
        ))

pub zero-bit_or : (b : ℕ) → bit_or 0 b ≡ b
zero-bit_or b = bit_or-bitwise 0 b

-- The two fields of a byte that a completion entry is made of: the high half and bits 2 and 3.
pub bit_and_f0 : (x : ℕ) → x < 256 → bit_and x 0xf0 / 16 ≡ x / 16
bit_and_f0 x h = omega (arith, bit_and_high 4 8 x (omega arith) h)

pub bit_and_0c : (x : ℕ) → bit_and x 0xc / 4 ≡ x / 4 % 4
bit_and_0c x = omega (arith, bit_and_low x 12, bit_and_low (x / 2) 6, bit_and_ones 2 (x / 2 / 2))

-- A disjunction of a multiple of `2^k` and a number below `2^k` is their sum.
pub bit_or_disjoint : (k a b : ℕ) → b < 2 ^ k → bit_or (a * 2 ^ k) b ≡ a * 2 ^ k + b
bit_or_disjoint zero a zero h = omega (arith, bit_or-zero (a * 1))
bit_or_disjoint zero a (suc b) h = absurd (omega arith)
bit_or_disjoint (suc k) a b h = rw (pow-succ' 2 k) (
    omega (
      arith,
      pow-succ' 2 k,
      bit_or_low (a * (2 * 2 ^ k)) b,
      ap (λ (t : ℕ). bit_or t (b / 2)) {x = a * (2 * 2 ^ k) / 2} {y = a * 2 ^ k}
          (half (a * 2 ^ k) (a * (2 * 2 ^ k)) (omega arith)),
      bit_or_disjoint k a (b / 2) (omega (arith, pow-succ' 2 k)),
    ))
  where
    half : (p q : ℕ) → q ≡ 2 * p → q / 2 ≡ p
    half p q h = omega arith

-- A mask that is a multiple of `2^k` leaves the digits below out.
pub bit_and_shift : (k x m : ℕ) → bit_and x (m * 2 ^ k) ≡ bit_and (x / 2 ^ k) m * 2 ^ k
bit_and_shift zero x m = omega (
  arith,
  ap (λ (t : ℕ). bit_and x t) {x = m * 1} {y = m} (omega arith),
  ap (λ (t : ℕ). bit_and t m) {x = x / 1} {y = x} (omega arith),
)
bit_and_shift (suc k) x m =
    rw (pow-succ' 2 k, div_double x (2 ^ k) (one-le-pow k 2 (omega arith)))
      (omega (
        arith,
        bit_and_low x (m * (2 * 2 ^ k)),
        ap (λ (t : ℕ). bit_and (x / 2) t) {x = m * (2 * 2 ^ k) / 2} {y = m * 2 ^ k}
            (half (m * 2 ^ k) (m * (2 * 2 ^ k)) (omega arith)),
        bit_and_shift k (x / 2) m,
      ))
  where
    half : (p q : ℕ) → q ≡ 2 * p → q / 2 ≡ p
    half p q h = omega arith
