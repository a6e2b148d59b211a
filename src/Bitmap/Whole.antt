-- ===== src/Bitmap/Whole.antt =====
-- The operations that change a bitmap as a whole.
use mlx5_netperf.Prelude.{
  ℕ, zero, suc, ◌+◌, ◌-◌, ◌*◌, ◌/◌, ◌%◌, ◌^◌, ◌≤◌, ◌<◌, ◌≡◌, ◌≢◌, refl, ap, ◌∙◌, max, min, Bool,
  true, false, List, [], ◌∷◌, arith, bit_and, bit_or, bit_xor, ltb, leb, ◌&&◌, if◌then◌else◌,
  length, get_or, set, get_elem?-of_lt, length-set,
}
use mlx5_netperf.Prelude.Digits.{
  bit, bit-bit_and, bit-bit_or, bit-bit_xor, bit-zero, bit-complement,
}
use mlx5_netperf.Prelude.Outcome.{ok}
use mlx5_netperf.Bitmap.{
  combine, bitmap_and, bitmap_or, bitmap_xor, fill_words, bitmap_init, popcountl, popcount_words,
  bitmap_popcount, bitmap_long_size,
}
use mlx5_netperf.Bitmap.Update.{at, get_or-set, get_or-eq}

-- The loop combines the words from `i` on, as many as are left, and leaves the others alone.
combine_lem :
    (op : ℕ → ℕ → ℕ) (left i : ℕ) (dst src1 src2 : List ℕ)
    → i + left ≤ length dst
    → i + left ≤ length src1
    → i + left ≤ length src2
    → (dst' : List ℕ) × (combine op left i dst src1 src2 ≡ ok dst')
      × ((j : ℕ)
          → get_or dst' j 0 ≡ (
              if leb i j && ltb j (i + left)
              then op (get_or src1 j 0) (get_or src2 j 0)
              else get_or dst j 0))
unfolding combine
combine_lem op zero i dst src1 src2 h h₁ h₂ = (dst, refl, λ j. ground arith)
combine_lem op (suc left) i dst src1 src2 h h₁ h₂ =
    let (x, first) = get_elem?-of_lt src1 i (omega arith) in
    let (y, second) = get_elem?-of_lt src2 i (omega arith) in
    let (old, there) = get_elem?-of_lt dst i (omega arith) in
    let (dst', done, reads) =
      combine_lem op left (suc i) (set dst i (op x y)) src1 src2
        (omega (arith, length-set dst i (op x y))) (omega arith) (omega arith) in
    (
      dst',
      rw (first, combine, second, there) done,
      λ j. ground (
        arith,
        reads j,
        get_or-set dst i j (op x y) (omega arith),
        get_or-eq src1 i first,
        get_or-eq src2 i second,
      ),
    )

-- The number of words, and what the size in `int` is.
abbrev words_for : ℕ → ℕ
words_for nbits = (nbits + 63) / 64

bitmap_long_size_lem : (n : ℕ) → n + 64 < 2 ^ 31 → bitmap_long_size n ≡ ok (words_for n)
unfolding bitmap_long_size
bitmap_long_size_lem n h =
    let fits : ltb (n + 64) (2 ^ 31) ≡ true = ground arith in
    rw fits (ap (λ k. ok (k / 64)) {x = n + 64 - 1} {y = n + 63} (omega arith))

-- `bitmap_and`, `bitmap_or` and `bitmap_xor` give, at each position below the number of bits, the
-- intersection, the union and the symmetric difference of the two sets, where the three arrays have
-- that many bits.
pub combined :
    (dst src1 src2 : List ℕ) (nbits q : ℕ)
    → q < nbits
    → nbits + 64 < 2 ^ 31
    → nbits + 63 < 64 * suc (length dst)
    → nbits + 63 < 64 * suc (length src1)
    → nbits + 63 < 64 * suc (length src2)
    → (both either one : List ℕ) × (bitmap_and dst src1 src2 nbits ≡ ok both)
      × (bitmap_or dst src1 src2 nbits ≡ ok either)
      × (bitmap_xor dst src1 src2 nbits ≡ ok one)
      × (at both q ≡ min (at src1 q) (at src2 q))
      × (at either q ≡ max (at src1 q) (at src2 q))
      × (at one q ≡ (at src1 q + at src2 q) % 2)
unfolding bitmap_and bitmap_or bitmap_xor
combined dst src1 src2 nbits q below small h h₁ h₂ =
    let n = words_for nbits in
    let e = bitmap_long_size_lem nbits small in
    let run = λ (op : ℕ → ℕ → ℕ).
      combine_lem op n 0 dst src1 src2 (omega arith) (omega arith) (omega arith) in
    let (both, and_done, and_reads) = run bit_and in
    let (either, or_done, or_reads) = run bit_or in
    let (one, xor_done, xor_reads) = run bit_xor in
    let inside : (leb 0 (q / 64) && ltb (q / 64) (0 + n)) ≡ true = ground arith in
    let word : (op : ℕ → ℕ → ℕ) (ws : List ℕ)
        → get_or ws (q / 64) 0 ≡ (
            if leb 0 (q / 64) && ltb (q / 64) (0 + n)
            then op (get_or src1 (q / 64) 0) (get_or src2 (q / 64) 0)
            else get_or dst (q / 64) 0)
        → at ws q ≡ bit (q % 64) (op (get_or src1 (q / 64) 0) (get_or src2 (q / 64) 0)) =
      λ op ws reads. ap (bit (q % 64)) (
        reads
        ∙ ap
            (λ b.
              if b
              then op (get_or src1 (q / 64) 0) (get_or src2 (q / 64) 0)
              else get_or dst (q / 64) 0)
            inside) in
    (
      both,
      either,
      one,
      rw e and_done,
      rw e or_done,
      rw e xor_done,
      word bit_and both (and_reads (q / 64)) ∙ bit-bit_and (q % 64) _ _,
      word bit_or either (or_reads (q / 64)) ∙ bit-bit_or (q % 64) _ _,
      word bit_xor one (xor_reads (q / 64)) ∙ bit-bit_xor (q % 64) _ _,
    )

fill_words_lem :
    (value left : ℕ) (bits : List ℕ)
    → left ≤ length bits
    → (bits' : List ℕ) × (fill_words value left bits ≡ ok bits')
      × ((j : ℕ) → get_or bits' j 0 ≡ (if ltb j left then value else get_or bits j 0))
unfolding fill_words
fill_words_lem value zero bits h = (bits, refl, λ j. ground arith)
fill_words_lem value (suc left) [] h = elim h [ ]
fill_words_lem value (suc left) (w ∷ bits) h =
    let (rest, done, reads) = fill_words_lem value left bits (omega arith) in
    (value ∷ rest, rw done refl, λ j. here j rest reads)
  where
    here :
        (j : ℕ) (rest : List ℕ)
        → ((j : ℕ) → get_or rest j 0 ≡ (if ltb j left then value else get_or bits j 0))
        → get_or (value ∷ rest) j 0 ≡ (if ltb j (suc left) then value else get_or (w ∷ bits) j 0)
    here zero rest reads = ground arith
    here (suc j) rest reads = ground (arith, reads j)

digit_of_state :
    (state : Bool) (j : ℕ)
    → j < 64
    → bit j (if state then 2 ^ 64 - 1 else 0) ≡ (if state then 1 else 0)
digit_of_state true j h =
    ap (bit j) {x = 2 ^ 64 - 1} {y = 2 ^ 64 - 1 - 0} refl
    ∙ bit-complement 64 j 0 h (omega arith)
    ∙ ap (λ (t : ℕ). 1 - t) (bit-zero j)
digit_of_state false j h = bit-zero j

-- `bitmap_init` puts every position below the number of bits into the set, or takes every one out,
-- where the array has that many bits.
pub bitmap_init_lem :
    (bits : List ℕ) (nbits q : ℕ) (state : Bool)
    → q < nbits
    → nbits + 64 < 2 ^ 31
    → nbits + 63 < 64 * suc (length bits)
    → (bits' : List ℕ) × (bitmap_init bits nbits state ≡ ok bits')
      × (at bits' q ≡ (if state then 1 else 0))
unfolding bitmap_init
bitmap_init_lem bits nbits q state below small h =
    let e = bitmap_long_size_lem nbits small in
    let value = if state then 2 ^ 64 - 1 else 0 in
    let inside : ltb (q / 64) (words_for nbits) ≡ true = ground arith in
    let (bits', done, reads) = fill_words_lem value (words_for nbits) bits (omega arith) in
    (
      bits',
      rw e done,
      ap (bit (q % 64))
            (reads (q / 64) ∙ ap (λ b. if b then value else get_or bits (q / 64) 0) inside)
          ∙ digit_of_state state (q % 64) (omega arith),
    )

filled_count :
    (left : ℕ) (bits : List ℕ)
    → left ≤ length bits
    → 64 * left < 2 ^ 31
    → (bits' : List ℕ) × (fill_words (2 ^ 64 - 1) left bits ≡ ok bits')
      × (popcount_words left bits' ≡ ok (64 * left))
unfolding fill_words popcount_words
filled_count zero bits h top = (bits, refl, refl)
filled_count (suc left) [] h top = elim h [ ]
filled_count (suc left) (w ∷ bits) h top =
    let (rest, done, count) = filled_count left bits (omega arith) (omega arith) in
    ((2 ^ 64 - 1) ∷ rest, rw done refl, rw (count, full, fits) refl)
  where
    fits : ltb (64 * suc left) (2 ^ 31) ≡ true
    fits = ground arith

    full : popcountl 64 (2 ^ 64 - 1) + 64 * left ≡ 64 * suc left
    full = ap (λ n. n + 64 * left) {x = popcountl 64 (2 ^ 64 - 1)} {y = 64} refl ∙ omega arith

-- After `bitmap_init` has set all bits of a number that is no multiple of 64, `bitmap_popcount`
-- gives 64 for each word, more than the number of bits: it counts the bits behind them. The array
-- has that many bits, and their number and 64 more are an `int`.
pub bitmap_init-popcount :
    (bits : List ℕ) (nbits : ℕ)
    → nbits + 64 < 2 ^ 31
    → nbits + 63 < 64 * suc (length bits)
    → nbits % 64 ≢ 0
    → (bits' : List ℕ) × (count : ℕ) × (bitmap_init bits nbits true ≡ ok bits')
      × (bitmap_popcount bits' nbits ≡ ok count)
      × (count ≡ 64 * ((nbits + 63) / 64))
      × (nbits < count)
unfolding bitmap_init bitmap_popcount
bitmap_init-popcount bits nbits small h odd =
    let e = bitmap_long_size_lem nbits small in
    let (bits', done, count) = filled_count (words_for nbits) bits (omega arith) (omega arith) in
    (bits', 64 * words_for nbits, rw e done, rw e count, refl, omega arith)
