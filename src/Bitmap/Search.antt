-- ===== src/Bitmap/Search.antt =====
-- `bitmap_find_next`: the search for the next bit that is set, or that is clear.
use mlx5_netperf.Prelude.{
  ℕ, zero, suc, ◌+◌, ◌-◌, ◌*◌, ◌/◌, ◌%◌, ◌^◌, ◌≤◌, ◌<◌, ◌≡◌, ◌⊎◌, inl, inr, refl, sym, ap, ◌∙◌, min,
  Bool, true, false, List, [], ◌∷◌, arith, bit_and, ltb, leb, ◌==◌, if◌then◌else◌, length, get_or,
  drop, Bool-cases, length-drop,
}
use native.Mathlib.Decide.{dec_lt, dec_le}
use native.Mathlib.Nat.{pow-succ'}
use mlx5_netperf.Prelude.Digits.{
  bit, bit-le-one, bit-bit_and, bit-complement, bit-zero, bit_and-lt, pow_lt, bit_ones,
}
use mlx5_netperf.Prelude.Bits.{bit_and_high}
use mlx5_netperf.Prelude.Outcome.{ok}
use mlx5_netperf.Stddef.{align_down}
use mlx5_netperf.Bitmap.{bit_of, invert_word, lowest, find_words, bitmap_find_next}
use mlx5_netperf.Bitmap.Update.{at, Words}

-- The place of the lowest 1.
lowest_lem :
    (n x : ℕ)
    → 0 < x
    → x < 2 ^ n
    → (m : ℕ) × (lowest n x ≡ suc m) × (m < n) × (bit m x ≡ 1) × ((j : ℕ) → j < m → bit j x ≡ 0)
unfolding lowest bit
lowest_lem zero x h b = absurd (omega arith)
lowest_lem (suc n) x h b = elim (Bool-cases (x % 2 == 1)) [
  | inl odd ↦ (0, rw odd refl, omega arith, ground arith, λ j p. absurd (omega arith))
  | inr even ↦
      let (m, found, below, here, before) =
        lowest_lem n (x / 2) (ground arith) (omega (arith, pow-succ' 2 n)) in
      (
        suc m,
        rw (even, found) (ground arith),
        omega arith,
        here,
        λ j p. low (x % 2) j m x (ground arith) before p,
      )
]
  where
    low :
        (d j m x : ℕ) → x % 2 ≡ 0 → ((j : ℕ) → j < m → bit j (x / 2) ≡ 0) → j < suc m → bit j x ≡ 0
    low d zero m x e before p = e
    low d (suc j) m x e before p = before j (omega arith)

-- What is searched for: a 1 among the bits, or among the inverted ones.
abbrev pub sought : Bool → List ℕ → ℕ → ℕ
sought invert ws k = if invert then 1 - at ws k else at ws k

-- A mask that lets the digits from `s` on through.
abbrev Lets : ℕ → ℕ → Type 0
Lets s mask = (j : ℕ) → j < 64 → bit j mask ≡ (if leb s j then 1 else 0)

-- The first word holds the positions below 64, the others those behind.
at_first : (w : ℕ) (ws : List ℕ) (k : ℕ) → k < 64 → at (w ∷ ws) k ≡ bit k w
at_first w ws k h =
    ap (λ i. bit (k % 64) (get_or (w ∷ ws) i 0)) {x = k / 64} {y = 0} (omega arith)
    ∙ ap (λ i. bit i w) {x = k % 64} {y = k} (omega arith)

at_later : (w : ℕ) (ws : List ℕ) (k : ℕ) → at (w ∷ ws) (64 + k) ≡ at ws k
at_later w ws k =
    ap (λ i. bit ((64 + k) % 64) (get_or (w ∷ ws) i 0)) {x = (64 + k) / 64} {y = suc (k / 64)}
      (omega arith)
    ∙ ap (λ i. bit i (get_or ws (k / 64) 0)) {x = (64 + k) % 64} {y = k % 64} (omega arith)

abbrev the_val : Bool → ℕ → ℕ → ℕ
the_val invert w mask = bit_and (if invert then invert_word w else w) mask

-- The digits of the masked word.
val_digit :
    (invert : Bool) (w : ℕ) (ws : List ℕ) (s mask j : ℕ)
    → w < 2 ^ 64
    → Lets s mask
    → j < 64
    → bit j (the_val invert w mask) ≡ (if leb s j then sought invert (w ∷ ws) j else 0)
val_digit true w ws s mask j b lets h = ground (
  arith,
  bit-bit_and j (invert_word w) mask,
  lets j h,
  bit-complement 64 j w h b,
  at_first w ws j h,
  bit-le-one j w,
)
val_digit false w ws s mask j b lets h =
    ground (arith, bit-bit_and j w mask, lets j h, at_first w ws j h, bit-le-one j w)

val-lt : (invert : Bool) (w mask : ℕ) → w < 2 ^ 64 → the_val invert w mask < 2 ^ 64
val-lt true w mask b = bit_and-lt 64 (invert_word w) mask (omega arith)
val-lt false w mask b = bit_and-lt 64 w mask b

all_pass : Lets 0 (2 ^ 64 - 1)
all_pass j h =
    ap (bit j) {x = 2 ^ 64 - 1} {y = 2 ^ 64 - 1 - 0} refl
    ∙ bit-complement 64 j 0 h (omega arith)
    ∙ ground (arith, bit-zero j)

-- The result for a search from position `s` of the words, which stand at bit `idx`: nothing between
-- is sought, and below the number of bits the result is.
abbrev Finds : Bool → ℕ → ℕ → ℕ → List ℕ → ℕ → Type 0
Finds invert nbits idx s ws r =
    (r ≤ nbits)
    × (r < nbits → (k : ℕ) × (r ≡ idx + k) × (s ≤ k) × (sought invert ws k ≡ 1))
    × ((k : ℕ) → s ≤ k → idx + k < r → sought invert ws k ≡ 0)

sought_later :
    (invert : Bool) (w : ℕ) (ws : List ℕ) (k : ℕ)
    → sought invert (w ∷ ws) (64 + k) ≡ sought invert ws k
sought_later invert w ws k = ap (λ d. if invert then 1 - d else d) (at_later w ws k)

-- A digit of the masked word that the mask lets through.
digit_sought :
    (invert : Bool) (w : ℕ) (ws : List ℕ) (s mask k : ℕ)
    → w < 2 ^ 64
    → Lets s mask
    → s ≤ k
    → k < 64
    → sought invert (w ∷ ws) k ≡ bit k (the_val invert w mask)
digit_sought invert w ws s mask k b lets p h =
    let through : leb s k ≡ true = ground arith in
    sym (
      val_digit invert w ws s mask k b lets h
      ∙ ap (λ t. if t then sought invert (w ∷ ws) k else 0) through)

-- A digit that is 1 is one that the mask lets through.
let_through :
    (invert : Bool) (w : ℕ) (ws : List ℕ) (s mask k : ℕ)
    → w < 2 ^ 64
    → Lets s mask
    → k < 64
    → bit k (the_val invert w mask) ≡ 1
    → s ≤ k
let_through invert w ws s mask k b lets h one = elim (dec_le s k) [
  | yes p ↦ p
  | no p ↦
      let shut : leb s k ≡ false = ground arith in
      absurd (
        omega (
          arith,
          one,
          val_digit invert w ws s mask k b lets h
              ∙ ap (λ t. if t then sought invert (w ∷ ws) k else 0) shut,
        ))
]

-- The first word has nothing that is sought: the search goes on behind it.
Finds-later :
    (invert : Bool) (nbits idx s mask w r : ℕ) (ws : List ℕ)
    → w < 2 ^ 64
    → Lets s mask
    → s ≤ 64
    → the_val invert w mask ≡ 0
    → Finds invert nbits (idx + 64) 0 ws r
    → Finds invert nbits idx s (w ∷ ws) r
Finds-later invert nbits idx s mask w r ws b lets few empty (bound, found, none_before) = (
  bound,
  λ below.
      let (k, place, p, one) = found below in
      (64 + k, omega (arith, place), omega arith, sought_later invert w ws k ∙ one),
  λ k p before. elim (dec_lt k 64) [
    | yes h ↦ digit_sought invert w ws s mask k b lets p h ∙ ap (bit k) empty ∙ bit-zero k
    | no h ↦
        ap (sought invert (w ∷ ws)) {x = k} {y = 64 + (k - 64)} (omega arith)
        ∙ sought_later invert w ws (k - 64)
        ∙ none_before (k - 64) (omega arith) (omega arith)
  ],
)

find_words_lem :
    (invert : Bool) (nbits idx s mask : ℕ) (ws : List ℕ)
    → Words ws
    → Lets s mask
    → s ≤ 64
    → nbits ≤ idx + 64 * length ws
    → nbits + 64 ≤ 2 ^ 31
    → (r : ℕ) × (find_words invert nbits idx mask ws ≡ ok r) × Finds invert nbits idx s ws r
unfolding find_words
find_words_lem invert nbits idx s mask [] words lets few enough top =
    let over : ltb idx nbits ≡ false = ground arith in
    (nbits, rw over refl, (omega arith, λ h. absurd (omega arith), λ k p q. absurd (omega arith)))
find_words_lem invert nbits idx s mask (w ∷ ws) words lets few enough top =
    elim (Bool-cases (ltb idx nbits)) [
      | inr over ↦ (
        nbits,
        rw over refl,
        (omega arith, λ h. absurd (omega arith), λ k p q. absurd (ground arith)),
      )
      | inl inside ↦ elim (Bool-cases (the_val invert w mask == 0)) [
        | inl empty ↦
            let (r, done, finds) =
              find_words_lem invert nbits (idx + 64) 0 (2 ^ 64 - 1) ws words.1 all_pass
                (omega arith) (omega arith) top in
            let further : ltb (idx + 64) (2 ^ 31) ≡ true = ground arith in
            (
              r,
              rw (inside, empty, further) done,
              Finds-later invert nbits idx s mask w r ws words.0 lets few (ground arith) finds,
            )
        | inr some_bit ↦
            let (m, low, below, one, before) =
              lowest_lem 64 (the_val invert w mask) (ground arith) (val-lt invert w mask words.0) in
            let p = let_through invert w ws s mask m words.0 lets below one in
            let in_int : ltb (idx + suc m) (2 ^ 31) ≡ true = ground arith in
            (
              min (idx + m) nbits,
              rw (inside, some_bit, low, in_int)
                  (ap ok {x = min (idx + suc m - 1) nbits} {y = min (idx + m) nbits} (omega arith)),
              (
                omega arith,
                λ h. (
                  m,
                  omega arith,
                  p,
                  digit_sought invert w ws s mask m words.0 lets p below ∙ one,
                ),
                λ k q h.
                    digit_sought invert w ws s mask k words.0 lets q (omega arith)
                    ∙ before k (omega arith),
              ),
            )
      ]
    ]

-- The first mask of the search, and where the search starts.
first_mask : (pos : ℕ) → Lets (pos % 64) (invert_word (bit_of pos - 1))
first_mask pos j h =
    let k = pos % 64 in
    bit-complement 64 j (2 ^ k - 1) h (omega (arith, pow_lt k 64 (omega arith)))
    ∙ ap (λ (t : ℕ). 1 - t) (bit_ones j k)
    ∙ ground arith

start_lem : (pos : ℕ) → pos < 2 ^ 64 → align_down pos 64 ≡ 64 * (pos / 64)
unfolding align_down
start_lem pos h = omega (arith, bit_and_high 6 64 pos (omega arith) h)

get_or-drop : (i : ℕ) (ws : List ℕ) (j : ℕ) → get_or (drop i ws) j 0 ≡ get_or ws (i + j) 0
get_or-drop zero ws j = ap (λ n. get_or ws n 0) {x = j} {y = 0 + j} (omega arith)
get_or-drop (suc i) [] j = refl
get_or-drop (suc i) (w ∷ ws) j =
    get_or-drop i ws j
    ∙ ap (λ n. get_or (w ∷ ws) n 0) {x = suc (i + j)} {y = suc i + j} (omega arith)

at-drop : (ws : List ℕ) (i k : ℕ) → at (drop i ws) k ≡ at ws (64 * i + k)
at-drop ws i k =
    ap (bit (k % 64)) (get_or-drop i ws (k / 64))
    ∙ ap (λ j. bit (k % 64) (get_or ws j 0)) {x = i + k / 64} {y = (64 * i + k) / 64} (omega arith)
    ∙ ap (λ j. bit j (get_or ws ((64 * i + k) / 64) 0)) {x = k % 64} {y = (64 * i + k) % 64}
        (omega arith)

Words-drop : (i : ℕ) (ws : List ℕ) → Words ws → Words (drop i ws)
Words-drop zero ws h = h
Words-drop (suc i) [] h = tt
Words-drop (suc i) (w ∷ ws) h = Words-drop i ws h.1

find_next_eq :
    (bits : List ℕ) (nbits pos : ℕ) (invert : Bool)
    → pos < 2 ^ 31
    → bitmap_find_next bits nbits pos invert
      ≡ find_words invert nbits
          (64 * (pos / 64))
          (invert_word (bit_of pos - 1))
          (drop (pos / 64) bits)
unfolding bitmap_find_next
find_next_eq bits nbits pos invert small =
    let start : align_down pos 64 ≡ 64 * (pos / 64) = start_lem pos (omega arith) in
    let index : 64 * (pos / 64) / 64 ≡ pos / 64 = omega arith in rw (start, index) refl

-- `bitmap_find_next` gives the least position from `pos` on, below the number of bits, whose bit is
-- the one sought (a 0 where it inverts, else a 1), and the number of bits where there is none. The
-- array has that many bits, at most 2^31 - 64: with more, the index overflows its `int`.
pub find_next_lem :
    (bits : List ℕ) (nbits pos : ℕ) (invert : Bool)
    → Words bits
    → nbits ≤ 64 * length bits
    → nbits + 64 ≤ 2 ^ 31
    → pos < 2 ^ 31
    → (r : ℕ) × (bitmap_find_next bits nbits pos invert ≡ ok r)
      × (r ≤ nbits)
      × ((r ≡ nbits) ⊎ ((r < nbits) × (pos ≤ r) × (sought invert bits r ≡ 1)))
      × ((p : ℕ) → pos ≤ p → p < r → sought invert bits p ≡ 0)
find_next_lem bits nbits pos invert words room top small =
    let i = pos / 64 in
    let (r, done, (bound, found, none_before)) =
      find_words_lem invert nbits (64 * i) (pos % 64) (invert_word (bit_of pos - 1)) (drop i bits)
        (Words-drop i bits words) (first_mask pos) (omega arith) (omega (arith, length-drop i bits))
        top in
    let same : (k : ℕ) → sought invert (drop i bits) k ≡ sought invert bits (64 * i + k) =
      λ k. ap (λ d. if invert then 1 - d else d) (at-drop bits i k) in
    (
      r,
      find_next_eq bits nbits pos invert small ∙ done,
      bound,
      elim (dec_lt r nbits) [
        | no over ↦ inl (omega arith)
        | yes below ↦
            let (k, place, p, one) = found below in
            inr (
              below,
              omega (arith, place),
              ap (sought invert bits) {x = r} {y = 64 * i + k} place ∙ sym (same k) ∙ one,
            )
      ],
      λ p h before.
          ap (sought invert bits) {x = p} {y = 64 * i + (p - 64 * i)} (omega arith)
          ∙ sym (same (p - 64 * i))
          ∙ none_before (p - 64 * i) (omega arith) (omega arith),
    )
