-- ===== src/Bitmap/Update.antt =====
-- A bitmap as a set of positions: how each operation changes it.
use mlx5_netperf.Prelude.{
  ℕ, zero, suc, ◌*◌, ◌/◌, ◌%◌, ◌^◌, ◌≤◌, ◌<◌, ◌≡◌, refl, sym, ap, ◌∙◌, not, some, List, [], ◌∷◌,
  arith, bit_and, bit_or, ◌==◌, if◌then◌else◌, length, get_elem?, get_or, set, get_elem?-of_lt,
  length-set,
}
use mlx5_netperf.Prelude.Digits.{
  bit, bit-le-one, bit-bit_and, bit-bit_or, bit-pow, bit-complement, bit-eq-div, bit_and-lt,
  bit_or-lt, pow_lt,
}
use mlx5_netperf.Prelude.Bits.{bit_and_bit}
use native.Mathlib.Nat.{one-le-pow}
use mlx5_netperf.Prelude.Outcome.{ok}
use mlx5_netperf.Bitmap.{
  change_word, bit_of, invert_word, bitmap_set, bitmap_clear, bitmap_test,
  bitmap_atomic_test_and_set,
}

-- The bit at a position: 0 or 1.
abbrev pub at : List ℕ → ℕ → ℕ
at bits p = bit (p % 64) (get_or bits (p / 64) 0)

-- Every word has 64 bits.
abbrev pub Words : List ℕ → Type 0
Words [] = Unit {0}
Words (w ∷ ws) = (w < 2 ^ 64) × Words ws

pub word-lt : (ws : List ℕ) (i : ℕ) → Words ws → get_or ws i 0 < 2 ^ 64
word-lt [] i h = omega arith
word-lt (w ∷ ws) zero h = h.0
word-lt (w ∷ ws) (suc i) h = word-lt ws i h.1

Words-set : (ws : List ℕ) (i v : ℕ) → Words ws → v < 2 ^ 64 → Words (set ws i v)
Words-set [] i v h b = tt
Words-set (w ∷ ws) zero v h b = (b, h.1)
Words-set (w ∷ ws) (suc i) v h b = (h.0, Words-set ws i v h.1 b)

pub get_or-set :
    (ws : List ℕ) (i j v : ℕ)
    → i < length ws
    → get_or (set ws i v) j 0 ≡ (if i == j then v else get_or ws j 0)
get_or-set [] i j v h = elim h [ ]
get_or-set (w ∷ ws) zero zero v h = refl
get_or-set (w ∷ ws) zero (suc j) v h = ground arith
get_or-set (w ∷ ws) (suc i) zero v h = ground arith
get_or-set (w ∷ ws) (suc i) (suc j) v h = ground (arith, get_or-set ws i j v (omega arith))

pub get_or-eq : (ws : List ℕ) (i : ℕ) {w : ℕ} → get_elem? ws i ≡ some w → get_or ws i 0 ≡ w
get_or-eq [] i h = cc
get_or-eq (x ∷ ws) zero h = cc
get_or-eq (x ∷ ws) (suc i) h = get_or-eq ws i h

-- The word that a position is in.
pub the_word :
    (bits : List ℕ) (pos : ℕ)
    → pos < 64 * length bits
    → (w : ℕ) × (get_elem? bits (pos / 64) ≡ some w) × (get_or bits (pos / 64) 0 ≡ w)
the_word bits pos h =
    let (w, found) = get_elem?-of_lt bits (pos / 64) (omega arith) in
    (w, found, get_or-eq bits (pos / 64) found)

-- A changed word changes the positions in it.
changed :
    (bits : List ℕ) (pos q v : ℕ)
    → pos < 64 * length bits
    → at (set bits (pos / 64) v) q ≡ (if pos / 64 == q / 64 then bit (q % 64) v else at bits q)
changed bits pos q v h =
    ap (bit (q % 64)) (get_or-set bits (pos / 64) (q / 64) v (omega arith)) ∙ ground arith

shift_lt : (pos : ℕ) → 2 ^ (pos % 64) < 2 ^ 64
shift_lt pos = pow_lt (pos % 64) 64 (omega arith)

-- `bitmap_set` puts exactly its position into the set, for a position within the array.
pub bitmap_set_lem :
    (bits : List ℕ) (pos : ℕ)
    → Words bits
    → pos < 64 * length bits
    → (bits' : List ℕ) × (bitmap_set bits pos ≡ ok bits')
      × Words bits'
      × (length bits' ≡ length bits)
      × ((q : ℕ) → at bits' q ≡ (if pos == q then 1 else at bits q))
unfolding bitmap_set
bitmap_set_lem bits pos words h =
    let (w, found, same) = the_word bits pos h in
    let v = bit_or w (bit_of pos) in
    (
      set bits (pos / 64) v,
      rw (found, change_word) refl,
      Words-set bits (pos / 64) v words (
          bit_or-lt 64 w (2 ^ (pos % 64)) (rw (← same) (word-lt bits (pos / 64) words))
            (shift_lt pos)),
      length-set bits (pos / 64) v,
      λ q.
          changed bits pos q v h
          ∙ ground (
            arith,
            bit-bit_or (q % 64) w (2 ^ (pos % 64)),
            bit-pow (q % 64) (pos % 64),
            bit-le-one (q % 64) w,
            same,
          ),
    )

-- `bitmap_clear` takes exactly its position out of the set, for a position within the array.
pub bitmap_clear_lem :
    (bits : List ℕ) (pos : ℕ)
    → Words bits
    → pos < 64 * length bits
    → (bits' : List ℕ) × (bitmap_clear bits pos ≡ ok bits')
      × Words bits'
      × (length bits' ≡ length bits)
      × ((q : ℕ) → at bits' q ≡ (if pos == q then 0 else at bits q))
unfolding bitmap_clear
bitmap_clear_lem bits pos words h =
    let (w, found, same) = the_word bits pos h in
    let v = bit_and w (invert_word (bit_of pos)) in
    let w_lt : w < 2 ^ 64 = rw (← same) (word-lt bits (pos / 64) words) in
    (
      set bits (pos / 64) v,
      rw (found, change_word) refl,
      Words-set bits (pos / 64) v words (bit_and-lt 64 w (invert_word (bit_of pos)) w_lt),
      length-set bits (pos / 64) v,
      λ q.
          changed bits pos q v h
          ∙ ground (
            arith,
            bit-bit_and (q % 64) w (invert_word (bit_of pos)),
            bit-complement 64 (q % 64) (2 ^ (pos % 64)) (omega arith) (shift_lt pos),
            bit-pow (q % 64) (pos % 64),
            bit-le-one (q % 64) w,
            same,
          ),
    )

-- The test of a word against the mask of a position.
tested : (pos w : ℕ) → not (bit_and w (bit_of pos) == 0) ≡ (bit (pos % 64) w == 1)
tested pos w =
    let k = pos % 64 in
    rw (bit_and_bit k w, ← bit-eq-div k w)
      (digit (bit k w) (2 ^ k) (bit-le-one k w) (one-le-pow k 2 (omega arith)))
  where
    digit : (d p : ℕ) → d ≤ 1 → 1 ≤ p → not (d * p == 0) ≡ (d == 1)
    digit zero p h k = ground arith
    digit (suc zero) p h k = ground arith
    digit (suc (suc d)) p h k = absurd (omega arith)

-- `bitmap_test` and `bitmap_atomic_test_and_set` tell whether a position within the array is in the
-- set, and the latter puts it in as `bitmap_set` does.
pub bitmap_test_lem :
    (bits : List ℕ) (pos : ℕ)
    → pos < 64 * length bits
    → (bitmap_test bits pos ≡ ok (at bits pos == 1))
      × (bits' : List ℕ) × (bitmap_set bits pos ≡ ok bits')
      × (bitmap_atomic_test_and_set bits pos ≡ ok (at bits pos == 1, bits'))
unfolding bitmap_test bitmap_set bitmap_atomic_test_and_set
bitmap_test_lem bits pos h =
    let (w, found, same) = the_word bits pos h in
    let v = bit_or w (bit_of pos) in
    let there : (bit (pos % 64) w == 1) ≡ (at bits pos == 1) =
      ap (λ x. bit (pos % 64) x == 1) (sym same) in
    (
      rw (found, bitmap_test) (ap ok (tested pos w ∙ there)),
      set bits (pos / 64) v,
      rw (found, change_word) refl,
      rw (found, bitmap_atomic_test_and_set)
          (ap (λ b. ok (b, set bits (pos / 64) v)) (tested pos w ∙ there)),
    )
