-- ===== src/Mempool/Tests.antt =====
-- Tests of mempool.c, and its theorems at a pool of four items in two pages.
use mathlib.Core.List.{Perm, Pairwise}
use mlx5_netperf.Prelude.{◌≡◌, refl, some, [], ◌∷◌, arith, true}
use mlx5_netperf.Prelude.Outcome.{ok, fault}
use mlx5_netperf.Stddef.{is_power_of_two}
use mlx5_netperf.Mempool.{Mempool, blank, create, alloc, free}
use mlx5_netperf.Mempool.Stack.{IsValid, available}
use mlx5_netperf.Mempool.Place.{Apart}
use mlx5_netperf.Mempool.Clients.{Uses, begin, take_item, give_back, Uses_lem, held-Apart}

-- 128 bytes at 1000 in pages of 64 bytes, items of 24: two in each page.
abbrev four : Mempool
four = record {
  free_items = 1000 ∷ 1024 ∷ 1064 ∷ 1088 ∷ [];
  allocated = 0;
  capacity = 4;
  buf = 1000;
  len = 128;
  pgsize = 64;
  item_len = 24;
}

create-four : create true blank 1000 128 64 24 ≡ ok four
unfolding create is_power_of_two
create-four = refl

four-IsValid : IsValid four
four-IsValid = omega arith

alloc-four : alloc four ≡ ok (some 1000, record four { allocated = 1 })
unfolding alloc
alloc-four = refl

free_of_nothing : free four 1000 ≡ fault
unfolding free
free_of_nothing = refl

-- One item taken, then given back in the other's place.
abbrev two_out : Mempool
two_out = record four { allocated = 2 }

abbrev swapped : Mempool
swapped = record four { allocated = 1; free_items = 1000 ∷ 1000 ∷ 1064 ∷ 1088 ∷ [] }

session : Uses four (1024 ∷ []) swapped
unfolding alloc free
session =
    give_back (1024 ∷ []) [] (1024 ∷ []) 1000 swapped
      (take_item 1024 two_out (take_item 1000 (record four { allocated = 1 }) begin refl) refl) refl
      refl refl

power : is_power_of_two 64 ≡ true
unfolding is_power_of_two
power = refl

Uses_lem_example : IsValid swapped × Perm (1024 ∷ available swapped) (available four)
Uses_lem_example = Uses_lem four swapped (1024 ∷ []) four-IsValid session

held-Apart_example : Pairwise (Apart 24) (1024 ∷ [])
held-Apart_example =
    held-Apart 1000 128 64 24 four swapped (1024 ∷ []) (omega arith) power (omega arith)
      (omega arith) create-four session
