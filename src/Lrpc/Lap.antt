-- ===== src/Lrpc/Lap.antt =====
-- The parity of a lap, and the slots of a lap.
use mlx5_netperf.Prelude.{
  ℕ, zero, suc, ◌+◌, ◌-◌, ◌*◌, ◌/◌, ◌%◌, ◌^◌, ◌≤◌, ◌<◌, ◌≡◌, sym, ap, ◌∙◌, false, arith, bit_and,
  bit_or, ◌==◌, if◌then◌else◌, Bool-cases, inl, inr, ==→≡,
}
use native.Mathlib.Decide.{dec_lt}
use native.Mathlib.Nat.{one-le-pow, div-add-mod'}
use mlx5_netperf.Prelude.Digits.{bit, bit-le-one, bit-eq-div, bit-mod, bit-add_pow, bit_or_above}
use mlx5_netperf.Prelude.Bits.{bit_and_ones, bit_and_bit, bit_or-zero, mod_of_wrap}
use mlx5_netperf.Lrpc.{parity}

-- The parity bit of message number `n`, in a ring of `2^k` slots.
abbrev pub mark : ℕ → ℕ → ℕ
mark k n = if bit k n == 0 then 2 ^ 63 else 0

pub head_index : (k n : ℕ) → k < 32 → bit_and (n % 2 ^ 32) (2 ^ k - 1) ≡ n % 2 ^ k
head_index k n h = bit_and_ones k (n % 2 ^ 32) ∙ mod_of_wrap k 32 n (omega arith)

pub head_parity : (k n : ℕ) → k < 32 → parity (n % 2 ^ 32) (2 ^ k) ≡ mark k n
head_parity k n h =
    let masked : bit_and (n % 2 ^ 32) (2 ^ k) ≡ bit k n * 2 ^ k =
      bit_and_bit k (n % 2 ^ 32)
      ∙ ap (λ (d : ℕ). d * 2 ^ k) (sym (bit-eq-div k (n % 2 ^ 32)) ∙ bit-mod k 32 n h) in
    ap (λ (d : ℕ). if d == 0 then 2 ^ 63 else 0) masked
    ∙ digit (bit k n) (2 ^ k) (bit-le-one k n) (one-le-pow k 2 (omega arith))
  where
    digit :
        (d p : ℕ)
        → d ≤ 1
        → 1 ≤ p
        → (if d * p == 0 then 2 ^ 63 else 0) ≡ (if d == 0 then 2 ^ 63 else 0)
    digit zero p a b = ground arith
    digit (suc zero) p a b = ground arith
    digit (suc (suc d)) p a b = absurd (omega arith)

-- The next lap has the other parity.
pub mark_next : (k n : ℕ) → (mark k (n + 2 ^ k) == mark k n) ≡ false
mark_next k n = ground (arith, bit-add_pow k n, bit-le-one k n)

pub mark_after_next : (k n : ℕ) → mark k n ≡ mark k (n + 2 ^ k + 2 ^ k)
mark_after_next k n = ground (arith, bit-add_pow k n, bit-add_pow k (n + 2 ^ k), bit-le-one k n)

pub marked : (k n cmd : ℕ) → cmd < 2 ^ 63 → bit_or cmd (mark k n) ≡ mark k n + cmd
marked k n cmd h = ground (arith, bit_or_above 63 cmd h, bit_or-zero cmd)

pub mark_of : (k n cmd : ℕ) → cmd < 2 ^ 63 → bit_and (mark k n + cmd) (2 ^ 63) ≡ mark k n
mark_of k n cmd h = bit_and_bit 63 (mark k n + cmd) ∙ ground arith

pub cmd_of : (k n cmd : ℕ) → cmd < 2 ^ 63 → bit_and (mark k n + cmd) (2 ^ 63 - 1) ≡ cmd
cmd_of k n cmd h = bit_and_ones 63 (mark k n + cmd) ∙ ground arith

no_multiple : (p q q' d : ℕ) → q' * p ≡ q * p + d → 0 < d → d < p → ⊥
no_multiple p q q' d e h k = elim (dec_lt q q') [
  | yes more ↦ omega (
    arith,
    e,
    ap (λ (t : ℕ). t * p) {x = q'} {y = suc q + (q' - suc q)} (omega arith),
    distribute p q (q' - suc q),
  )
  | no less ↦ omega (
    arith,
    e,
    ap (λ (t : ℕ). t * p) {x = q} {y = q' + (q - q')} (omega arith),
    distribute' p q' (q - q'),
  )
]
  where
    distribute : (p q x : ℕ) → (suc q + x) * p ≡ p + q * p + x * p
    distribute p q x = grind arith

    distribute' : (p q x : ℕ) → (q + x) * p ≡ q * p + x * p
    distribute' p q x = grind arith

-- Different numbers less than a lap apart have different slots.
pub slots_apart : (p a d : ℕ) → 0 < d → d < p → (a % p == (a + d) % p) ≡ false
slots_apart p a d h k = elim (Bool-cases (a % p == (a + d) % p)) [
  | inr different ↦ different
  | inl same ↦ absurd (
      no_multiple p (a / p) ((a + d) / p) d
        (omega (arith, div-add-mod' a p, div-add-mod' (a + d) p, ==→≡ _ _ same)) h k)
]
