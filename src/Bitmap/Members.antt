-- ===== src/Bitmap/Members.antt =====
-- The loops over the members of a bitmap, and the operations that treat it as a whole.
use mlx5_netperf.Prelude.{
  ℕ, zero, suc, ◌+◌, ◌-◌, ◌*◌, ◌^◌, ◌≤◌, ◌<◌, ◌≡◌, sym, ap, ◌∙◌, Bool, true, false, List, [], ◌∷◌,
  arith, ltb, ◌==◌, if◌then◌else◌, length, inl, inr,
}
use mlx5_netperf.Prelude.Outcome.{ok}
use mlx5_netperf.Bitmap.{for_each}
use mlx5_netperf.Bitmap.Update.{Words}
use mlx5_netperf.Bitmap.Search.{sought, find_next_lem}

-- The positions from `p` on, as many as are left, whose bit is the one sought.
abbrev pub members : Bool → List ℕ → ℕ → ℕ → List ℕ
members invert bits zero p = []
members invert bits (suc left) p =
    if sought invert bits p == 1
    then p ∷ members invert bits left (p + 1)
    else members invert bits left (p + 1)

-- Positions without the bit are passed over.
members_skip :
    (invert : Bool) (bits : List ℕ) (k left p : ℕ)
    → ((q : ℕ) → p ≤ q → q < p + k → sought invert bits q ≡ 0)
    → members invert bits (k + left) p ≡ members invert bits left (p + k)
members_skip invert bits zero left p h =
    ap (λ n. members invert bits n p) {x = 0 + left} {y = left} (omega arith)
    ∙ ap (members invert bits left) {x = p} {y = p + 0} (omega arith)
members_skip invert bits (suc k) left p h =
    let clear : (sought invert bits p == 1) ≡ false = ground (arith, h p) in
    ap (λ n. members invert bits n p) {x = suc k + left} {y = suc (k + left)} (omega arith)
    ∙ ap
        (λ b.
          if b
          then p ∷ members invert bits (k + left) (p + 1)
          else members invert bits (k + left) (p + 1))
        clear
    ∙ members_skip invert bits k left (p + 1) (λ q a b. h q (omega arith) (omega arith))
    ∙ ap (members invert bits left) {x = p + 1 + k} {y = p + suc k} (omega arith)

members_found :
    (invert : Bool) (bits : List ℕ) (left p : ℕ)
    → sought invert bits p ≡ 1
    → members invert bits (suc left) p ≡ p ∷ members invert bits left (p + 1)
members_found invert bits left p h =
    let there : (sought invert bits p == 1) ≡ true = ground (arith, h) in
    ap (λ b. if b then p ∷ members invert bits left (p + 1) else members invert bits left (p + 1))
      there

-- The loops over the set bits and over the clear bits end, and visit exactly these positions, each
-- once and in ascending order. The array has the number of bits, at most 2^31 - 64, and there are
-- more rounds than bits.
pub for_each_lem :
    (invert : Bool) (rounds : ℕ) (bits : List ℕ) (nbits next : ℕ)
    → Words bits
    → nbits ≤ 64 * length bits
    → nbits + 64 ≤ 2 ^ 31
    → next ≤ nbits
    → nbits < next + rounds
    → for_each invert rounds bits nbits next ≡ ok (members invert bits (nbits - next) next)
unfolding for_each
for_each_lem invert zero bits nbits next words room small within enough = absurd (omega arith)
for_each_lem invert (suc rounds) bits nbits next words room small within enough =
    let (r, found, bound, here, none_before) =
      find_next_lem bits nbits next invert words room small (omega arith) in
    elim here [
      | inr (inside, at_least, one) ↦
          let test : ltb r nbits ≡ true = ground arith in
          let rest =
            for_each_lem invert rounds bits nbits (r + 1) words room small (omega arith)
              (omega arith) in
          rw (found, test, rest)
            (ap ok (
              sym (
                ap (λ n. members invert bits n next) {x = nbits - next}
                  {y = (r - next) + suc (nbits - (r + 1))} (omega arith)
                ∙ members_skip invert bits (r - next) (suc (nbits - (r + 1))) next
                    (λ q a b. none_before q a (omega arith))
                ∙ ap (members invert bits (suc (nbits - (r + 1)))) {x = next + (r - next)} {y = r}
                    (omega arith)
                ∙ members_found invert bits (nbits - (r + 1)) r one)))
      | inl over ↦
          let test : ltb r nbits ≡ false = ground arith in
          rw (found, test)
            (ap ok (
              sym (
                ap (λ n. members invert bits n next) {x = nbits - next} {y = (nbits - next) + 0}
                  (omega arith)
                ∙ members_skip invert bits (nbits - next) 0 next
                    (λ q a b. none_before q a (omega arith)))))
    ]
