-- ===== src/Prelude/Digits.antt =====
-- The binary digits of a number, and what the bit operations do to each of them.
use Prim.Native.Nat.{
  ℕ, zero, suc, ◌+◌, ◌-◌, ◌*◌, ◌/◌, ◌%◌, ◌^◌, ◌≤◌, ◌<◌, min, max, bit_and, bit_or, bit_xor,
  bit_and-bitwise,
}
use mathlib.Core.Path.{◌≡◌, refl, ap, ◌∙◌}
use native.Mathlib.Omega.{arith}
use native.Mathlib.Nat.{pow-succ', one-le-pow}
use mlx5_netperf.Prelude.Tests.{ltb, ◌==◌, if◌then◌else◌}
use mlx5_netperf.Prelude.Bits.{bit_and_low, bit_or_low, bit_xor_low, div_double, mod_double}

-- Digit `j` of a number.
unfoldable pub bit : ℕ → ℕ → ℕ
bit zero x = x % 2
bit (suc j) x = bit j (x / 2)

pub bit-le-one : (j x : ℕ) → bit j x ≤ 1
unfolding bit
bit-le-one zero x = omega arith
bit-le-one (suc j) x = bit-le-one j (x / 2)

pub bit-bit_and : (j x y : ℕ) → bit j (bit_and x y) ≡ min (bit j x) (bit j y)
unfolding bit
bit-bit_and zero x y = omega (arith, bit_and_low x y)
bit-bit_and (suc j) x y =
    ap (bit j) {x = bit_and x y / 2} {y = bit_and (x / 2) (y / 2)} (omega (arith, bit_and_low x y))
    ∙ bit-bit_and j (x / 2) (y / 2)

pub bit-bit_or : (j x y : ℕ) → bit j (bit_or x y) ≡ max (bit j x) (bit j y)
unfolding bit
bit-bit_or zero x y = omega (arith, bit_or_low x y)
bit-bit_or (suc j) x y =
    ap (bit j) {x = bit_or x y / 2} {y = bit_or (x / 2) (y / 2)} (omega (arith, bit_or_low x y))
    ∙ bit-bit_or j (x / 2) (y / 2)

pub bit-bit_xor : (j x y : ℕ) → bit j (bit_xor x y) ≡ (bit j x + bit j y) % 2
unfolding bit
bit-bit_xor zero x y = omega (arith, bit_xor_low x y)
bit-bit_xor (suc j) x y =
    ap (bit j) {x = bit_xor x y / 2} {y = bit_xor (x / 2) (y / 2)} (omega (arith, bit_xor_low x y))
    ∙ bit-bit_xor j (x / 2) (y / 2)

pub bit-zero : (j : ℕ) → bit j 0 ≡ 0
unfolding bit
bit-zero zero = refl
bit-zero (suc j) = bit-zero j

pub bit-pow : (j k : ℕ) → bit j (2 ^ k) ≡ (if k == j then 1 else 0)
unfolding bit
bit-pow zero zero = refl
bit-pow zero (suc k) = ground (arith, pow-succ' 2 k)
bit-pow (suc j) zero = bit-zero j ∙ ground arith
bit-pow (suc j) (suc k) =
    ap (bit j) {x = 2 ^ suc k / 2} {y = 2 ^ k} (omega (arith, pow-succ' 2 k))
    ∙ bit-pow j k
    ∙ ground arith

-- The complement of a `w`-bit number.
pub bit-complement : (w j x : ℕ) → j < w → x < 2 ^ w → bit j (2 ^ w - 1 - x) ≡ 1 - bit j x
unfolding bit
bit-complement zero j x h b = elim h [ ]
bit-complement (suc w) zero x h b = omega (arith, pow-succ' 2 w, one-le-pow w 2)
bit-complement (suc w) (suc j) x h b =
    ap (bit j) {x = (2 ^ suc w - 1 - x) / 2} {y = 2 ^ w - 1 - x / 2} (omega (arith, pow-succ' 2 w))
    ∙ bit-complement w j (x / 2) (omega arith) (omega (arith, pow-succ' 2 w))

-- A digit by division.
pub bit-eq-div : (j x : ℕ) → bit j x ≡ x / 2 ^ j % 2
unfolding bit
bit-eq-div zero x = omega arith
bit-eq-div (suc j) x =
    bit-eq-div j (x / 2)
    ∙ ap (λ (t : ℕ). t % 2) {x = x / 2 / 2 ^ j} {y = x / 2 ^ suc j}
        (omega (
          arith,
          div_double x (2 ^ j) (one-le-pow j 2 (omega arith)),
          ap (λ (t : ℕ). x / t) (pow-succ' 2 j),
        ))

-- Digits of `w`-bit numbers stay within `w` bits.
pub bit_and-lt : (w x y : ℕ) → x < 2 ^ w → bit_and x y < 2 ^ w
bit_and-lt zero zero y h = omega (arith, bit_and-bitwise 0 y)
bit_and-lt zero (suc x) y h = absurd (omega arith)
bit_and-lt (suc w) x y h = omega (
  arith,
  pow-succ' 2 w,
  bit_and_low x y,
  bit_and-lt w (x / 2) (y / 2) (omega (arith, pow-succ' 2 w)),
)

pub bit_or-lt : (w x y : ℕ) → x < 2 ^ w → y < 2 ^ w → bit_or x y < 2 ^ w
bit_or-lt zero zero zero h k = omega arith
bit_or-lt zero zero (suc y) h k = absurd (omega arith)
bit_or-lt zero (suc x) y h k = absurd (omega arith)
bit_or-lt (suc w) x y h k = omega (
  arith,
  pow-succ' 2 w,
  bit_or_low x y,
  bit_or-lt w (x / 2) (y / 2) (omega (arith, pow-succ' 2 w)) (omega (arith, pow-succ' 2 w)),
)

pub pow_lt : (k w : ℕ) → k < w → 2 ^ k < 2 ^ w
pow_lt k zero h = elim h [ ]
pow_lt zero (suc w) h = omega (arith, pow-succ' 2 w, one-le-pow w 2)
pow_lt (suc k) (suc w) h = omega (arith, pow-succ' 2 w, pow-succ' 2 k, pow_lt k w)

-- The digits of `k` low ones.
pub bit_ones : (j k : ℕ) → bit j (2 ^ k - 1) ≡ (if ltb j k then 1 else 0)
unfolding bit
bit_ones zero zero = refl
bit_ones (suc j) zero = bit-zero j ∙ ground arith
bit_ones zero (suc k) = ground (arith, pow-succ' 2 k, one-le-pow k 2)
bit_ones (suc j) (suc k) =
    ap (bit j) {x = (2 ^ suc k - 1) / 2} {y = 2 ^ k - 1}
      (omega (arith, pow-succ' 2 k, one-le-pow k 2))
    ∙ bit_ones j k
    ∙ ground arith

-- A wrap at a wider power keeps the digit.
pub bit-mod : (j w x : ℕ) → j < w → bit j (x % 2 ^ w) ≡ bit j x
unfolding bit
bit-mod j zero x h = elim h [ ]
bit-mod zero (suc w) x h =
    rw (pow-succ' 2 w) (omega (arith, mod_double x (2 ^ w) (one-le-pow w 2 (omega arith))))
bit-mod (suc j) (suc w) x h = rw (pow-succ' 2 w) (
    ap (bit j) {x = x % (2 * 2 ^ w) / 2} {y = x / 2 % 2 ^ w}
      (omega (arith, mod_double x (2 ^ w) (one-le-pow w 2 (omega arith))))
    ∙ bit-mod j w (x / 2) (omega arith))

-- Adding `2^k` flips digit `k`.
pub bit-add_pow : (k x : ℕ) → bit k (x + 2 ^ k) ≡ 1 - bit k x
unfolding bit
bit-add_pow zero x = omega arith
bit-add_pow (suc k) x =
    ap (bit k) {x = (x + 2 ^ suc k) / 2} {y = x / 2 + 2 ^ k} (omega (arith, pow-succ' 2 k))
    ∙ bit-add_pow k (x / 2)

-- A disjunction with a power of 2 beyond the digits of a number is the sum.
pub bit_or_above : (k b : ℕ) → b < 2 ^ k → bit_or b (2 ^ k) ≡ b + 2 ^ k
bit_or_above zero zero h = omega (arith, bit_or_low 0 1)
bit_or_above zero (suc b) h = absurd (omega arith)
bit_or_above (suc k) b h = rw (pow-succ' 2 k) (
    omega (
      arith,
      pow-succ' 2 k,
      bit_or_low b (2 * 2 ^ k),
      ap (bit_or (b / 2)) {x = 2 * 2 ^ k / 2} {y = 2 ^ k} (omega arith),
      bit_or_above k (b / 2) (omega (arith, pow-succ' 2 k)),
    ))

pub bit-of_lt : (k n : ℕ) → n < 2 ^ k → bit k n ≡ 0
unfolding bit
bit-of_lt zero n h = omega arith
bit-of_lt (suc k) n h = bit-of_lt k (n / 2) (omega (arith, pow-succ' 2 k))
