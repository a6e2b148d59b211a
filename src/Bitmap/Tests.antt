-- ===== src/Bitmap/Tests.antt =====
-- The theorems on bitmaps, at two words with the bits 0, 2 and 64.
use mlx5_netperf.Prelude.{ℕ, ◌≤◌, ◌<◌, ◌≡◌, ◌⊎◌, refl, true, false, List, [], ◌∷◌, arith}
use mlx5_netperf.Prelude.Digits.{bit}
use mlx5_netperf.Prelude.Outcome.{ok}
use mlx5_netperf.Stddef.{align_down}
use mlx5_netperf.Bitmap.{
  bitmap_set, bitmap_test, bitmap_atomic_test_and_set, bitmap_init, bitmap_popcount,
  bitmap_find_next, bitmap_find_next_set, bitmap_find_next_cleared, for_each,
}
use mlx5_netperf.Bitmap.Update.{at, Words, bitmap_test_lem}
use mlx5_netperf.Bitmap.Search.{sought, find_next_lem}
use mlx5_netperf.Bitmap.Members.{members, for_each_lem}
use mlx5_netperf.Bitmap.Whole.{bitmap_init_lem, bitmap_init-popcount}

abbrev bits : List ℕ
bits = 5 ∷ 1 ∷ []

words : Words bits
words = (omega arith, (omega arith, tt))

next_set : bitmap_find_next_set bits 100 3 ≡ ok 64
unfolding bitmap_find_next_set align_down
next_set = refl

next_cleared : bitmap_find_next_cleared bits 100 64 ≡ ok 65
unfolding bitmap_find_next_cleared align_down
next_cleared = refl

none_left : bitmap_find_next_set bits 100 65 ≡ ok 100
unfolding bitmap_find_next_set align_down
none_left = refl

visited : for_each false 101 bits 100 0 ≡ ok (0 ∷ 2 ∷ 64 ∷ [])
unfolding for_each align_down
visited = refl

bitmap_test_lem_example :
    (bitmap_test bits 64 ≡ ok true)
    × (bits' : List ℕ) × (bitmap_set bits 64 ≡ ok bits')
    × (bitmap_atomic_test_and_set bits 64 ≡ ok (true, bits'))
unfolding bit
bitmap_test_lem_example = bitmap_test_lem bits 64 (omega arith)

find_next_lem_example :
    (r : ℕ) × (bitmap_find_next bits 100 3 false ≡ ok r)
    × (r ≤ 100)
    × ((r ≡ 100) ⊎ ((r < 100) × (3 ≤ r) × (sought false bits r ≡ 1)))
    × ((p : ℕ) → 3 ≤ p → p < r → sought false bits p ≡ 0)
find_next_lem_example =
    find_next_lem bits 100 3 false words (omega arith) (omega arith) (omega arith)

for_each_lem_example : for_each false 101 bits 100 0 ≡ ok (members false bits 100 0)
for_each_lem_example =
    for_each_lem false 101 bits 100 0 words (omega arith) (omega arith) (omega arith) (omega arith)

bitmap_init_lem_example :
    (bits' : List ℕ) × (bitmap_init bits 100 true ≡ ok bits') × (at bits' 70 ≡ 1)
bitmap_init_lem_example = bitmap_init_lem bits 100 70 true (omega arith) (omega arith) (omega arith)

bitmap_init-popcount_example :
    (bits' : List ℕ) × (count : ℕ) × (bitmap_init bits 100 true ≡ ok bits')
    × (bitmap_popcount bits' 100 ≡ ok count)
    × (count ≡ 128)
    × (100 < count)
bitmap_init-popcount_example =
    bitmap_init-popcount bits 100 (omega arith) (omega arith) (omega arith)
