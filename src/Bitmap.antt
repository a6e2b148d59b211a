-- ===== src/Bitmap.antt =====
-- bitmap.c and inc/base/bitmap.h: bit arrays over `unsigned long` words of 64 bits. Numbers of bits
-- and positions are of type `int` and not negative; where a sum does not fit into it, there is a
-- fault. The parser of ranges in bitmap.c is a copy from util-linux and left out.
pub mod Update
pub mod Search
pub mod Members
pub mod Whole
mod Tests
use mlx5_netperf.Prelude.{
  ℕ, zero, suc, ◌+◌, ◌-◌, ◌*◌, ◌/◌, ◌%◌, ◌^◌, min, Bool, true, false, not, none, some, List, [],
  ◌∷◌, bit_and, bit_or, bit_xor, ltb, ◌==◌, if◌then◌else◌, get_elem?, set, drop,
}
use mlx5_netperf.Prelude.Outcome.{Outcome, ok, fault, ◌>>=◌}
use mlx5_netperf.Stddef.{align_down}

-- `BITMAP_LONG_SIZE`, `BITMAP_POS_IDX` and `BITMAP_POS_SHIFT`.
abbrev pub bits_per_long : ℕ
bits_per_long = 64

-- The first is `(nbits + 64 - 1) / 64` in the type of `nbits`.
unfoldable pub bitmap_long_size : ℕ → Outcome ℕ
bitmap_long_size nbits =
    if ltb (nbits + bits_per_long) (2 ^ 31)
    then ok ((nbits + bits_per_long - 1) / bits_per_long)
    else fault

abbrev pub bitmap_pos_idx : ℕ → ℕ
bitmap_pos_idx pos = pos / bits_per_long

abbrev pub bitmap_pos_shift : ℕ → ℕ
bitmap_pos_shift pos = pos % bits_per_long

-- The mask `1ul << BITMAP_POS_SHIFT(pos)`, and the complement of a word.
abbrev pub bit_of : ℕ → ℕ
bit_of pos = 2 ^ bitmap_pos_shift pos

abbrev pub invert_word : ℕ → ℕ
invert_word w = 2 ^ 64 - 1 - w

-- A change of the word with the bit at `pos`.
abbrev pub change_word : List ℕ → ℕ → (ℕ → ℕ) → Outcome (List ℕ)
change_word bits pos f = elim (get_elem? bits (bitmap_pos_idx pos)) [
  | none ↦ fault
  | some w ↦ ok (set bits (bitmap_pos_idx pos) (f w))
]

unfoldable pub bitmap_set : List ℕ → ℕ → Outcome (List ℕ)
bitmap_set bits pos = change_word bits pos (λ w. bit_or w (bit_of pos))

unfoldable pub bitmap_clear : List ℕ → ℕ → Outcome (List ℕ)
bitmap_clear bits pos = change_word bits pos (λ w. bit_and w (invert_word (bit_of pos)))

unfoldable pub bitmap_test : List ℕ → ℕ → Outcome Bool
bitmap_test bits pos = elim (get_elem? bits (bitmap_pos_idx pos)) [
  | none ↦ fault
  | some w ↦ ok (not (bit_and w (bit_of pos) == 0))
]

-- One atomic step; the result tells whether the bit was set before.
unfoldable pub bitmap_atomic_test_and_set : List ℕ → ℕ → Outcome (Bool × List ℕ)
bitmap_atomic_test_and_set bits pos = elim (get_elem? bits (bitmap_pos_idx pos)) [
  | none ↦ fault
  | some w ↦
      ok (not (bit_and w (bit_of pos) == 0), set bits (bitmap_pos_idx pos) (bit_or w (bit_of pos)))
]

-- The loop of `bitmap_and`, `bitmap_or` and `bitmap_xor` from word `i` on.
unfoldable pub combine : (ℕ → ℕ → ℕ) → ℕ → ℕ → List ℕ → List ℕ → List ℕ → Outcome (List ℕ)
combine op zero i dst src1 src2 = ok dst
combine op (suc left) i dst src1 src2 = elim (get_elem? src1 i) [
  | none ↦ fault
  | some x ↦ elim (get_elem? src2 i) [
    | none ↦ fault
    | some y ↦ elim (get_elem? dst i) [
      | none ↦ fault
      | some old ↦ combine op left (suc i) (set dst i (op x y)) src1 src2
    ]
  ]
]

unfoldable pub bitmap_and : List ℕ → List ℕ → List ℕ → ℕ → Outcome (List ℕ)
unfolding combine bitmap_long_size
bitmap_and dst src1 src2 nbits = bitmap_long_size nbits >>= λ n. combine bit_and n 0 dst src1 src2

unfoldable pub bitmap_or : List ℕ → List ℕ → List ℕ → ℕ → Outcome (List ℕ)
unfolding combine bitmap_long_size
bitmap_or dst src1 src2 nbits = bitmap_long_size nbits >>= λ n. combine bit_or n 0 dst src1 src2

unfoldable pub bitmap_xor : List ℕ → List ℕ → List ℕ → ℕ → Outcome (List ℕ)
unfolding combine bitmap_long_size
bitmap_xor dst src1 src2 nbits = bitmap_long_size nbits >>= λ n. combine bit_xor n 0 dst src1 src2

-- `memset` of the words, as many as are left.
unfoldable pub fill_words : ℕ → ℕ → List ℕ → Outcome (List ℕ)
fill_words value zero bits = ok bits
fill_words value (suc left) [] = fault
fill_words value (suc left) (w ∷ bits) = do rest ← fill_words value left bits; ok (value ∷ rest)

unfoldable pub bitmap_init : List ℕ → ℕ → Bool → Outcome (List ℕ)
unfolding fill_words bitmap_long_size
bitmap_init bits nbits state =
    bitmap_long_size nbits >>= λ n. fill_words (if state then 2 ^ 64 - 1 else 0) n bits

-- `__builtin_popcountl` on the `n` low digits, and the loop of `bitmap_popcount`. The sum is an
-- `int`, which only grows, so that it overflows where its end does.
unfoldable pub popcountl : ℕ → ℕ → ℕ
popcountl zero x = 0
popcountl (suc n) x = x % 2 + popcountl n (x / 2)

unfoldable pub popcount_words : ℕ → List ℕ → Outcome ℕ
unfolding popcountl
popcount_words zero bits = ok 0
popcount_words (suc left) [] = fault
popcount_words (suc left) (w ∷ bits) = do
  rest ← popcount_words left bits
  if ltb (popcountl 64 w + rest) (2 ^ 31) then ok (popcountl 64 w + rest) else fault

unfoldable pub bitmap_popcount : List ℕ → ℕ → Outcome ℕ
unfolding popcount_words bitmap_long_size
bitmap_popcount bits nbits = bitmap_long_size nbits >>= λ n. popcount_words n bits

-- `__builtin_ffsl` on the `n` low digits: one more than the place of the lowest 1, or 0.
unfoldable pub lowest : ℕ → ℕ → ℕ
lowest zero x = 0
lowest (suc n) x =
    let rest = lowest n (x / 2) in if x % 2 == 1 then 1 else if rest == 0 then 0 else suc rest

-- The loop of `bitmap_find_next` from bit `idx` on, with the words from there.
unfoldable pub find_words : Bool → ℕ → ℕ → ℕ → List ℕ → Outcome ℕ
unfolding lowest
find_words invert nbits idx mask [] = if ltb idx nbits then fault else ok nbits
find_words invert nbits idx mask (w ∷ ws) =
    let rest = find_words invert nbits (idx + 64) (2 ^ 64 - 1) ws in
    let val = bit_and (if invert then invert_word w else w) mask in
    if ltb idx nbits
    then (if val == 0
        then (if ltb (idx + 64) (2 ^ 31) then rest else fault)
        else if ltb (idx + lowest 64 val) (2 ^ 31)
        then ok (min (idx + lowest 64 val - 1) nbits)
        else fault)
    else ok nbits

unfoldable pub bitmap_find_next : List ℕ → ℕ → ℕ → Bool → Outcome ℕ
unfolding find_words
bitmap_find_next bits nbits pos invert =
    let start = align_down pos bits_per_long in
    find_words invert nbits start (invert_word (bit_of pos - 1)) (drop (bitmap_pos_idx start) bits)

unfoldable pub bitmap_find_next_cleared : List ℕ → ℕ → ℕ → Outcome ℕ
unfolding bitmap_find_next
bitmap_find_next_cleared bits nbits pos = bitmap_find_next bits nbits pos true

unfoldable pub bitmap_find_next_set : List ℕ → ℕ → ℕ → Outcome ℕ
unfolding bitmap_find_next
bitmap_find_next_set bits nbits pos = bitmap_find_next bits nbits pos false

-- `bitmap_for_each_set` and `bitmap_for_each_cleared`: the positions that the loop visits, where it
-- searches from `next` on with the rounds left.
unfoldable pub for_each : Bool → ℕ → List ℕ → ℕ → ℕ → Outcome (List ℕ)
unfolding bitmap_find_next
for_each invert zero bits nbits next = fault
for_each invert (suc rounds) bits nbits next = bitmap_find_next bits nbits next invert >>= λ pos.
    let later : Outcome (List ℕ) =
      for_each invert rounds bits nbits (pos + 1) >>= λ rest. ok (pos ∷ rest) in
    if ltb pos nbits then later else ok []
