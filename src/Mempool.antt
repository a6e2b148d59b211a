-- ===== src/Mempool.antt =====
-- mempool.c and inc/base/mempool.h: a preallocated pool of equal items (release build: the
-- debug checks are empty). A pointer is its address.
pub mod Stack
pub mod Layout
pub mod Place
pub mod Clients
mod Tests
use mlx5_netperf.Prelude.{
  ℕ, zero, suc, ◌+◌, ◌*◌, ◌/◌, ◌%◌, Bool, not, ◌||◌, Option, none, some, List, [], ltb, leb, ◌==◌,
  if◌then◌else◌, length, get_elem?, set, replicate,
}
use mlx5_netperf.Stddef.{is_power_of_two}
use mlx5_netperf.Prelude.Word.{u64, add64, sub64}
use mlx5_netperf.Prelude.Outcome.{Outcome, ok, err, fault, enomem, einval, ◌>>=◌}

-- `struct mempool`
pub record Mempool : Type 0 where
  pub free_items : List ℕ
  pub allocated : ℕ
  pub capacity : ℕ
  pub buf : ℕ
  pub len : ℕ
  pub pgsize : ℕ
  pub item_len : ℕ

-- `struct mempool m = {}`
abbrev pub blank : Mempool
blank = record {
  free_items = [];
  allocated = 0;
  capacity = 0;
  buf = 0;
  len = 0;
  pgsize = 0;
  item_len = 0;
}

-- `m->free_items[m->capacity++] = item`
put_item : ℕ → Mempool → Outcome Mempool
put_item item m =
    if ltb m.capacity (length m.free_items)
    then ok
        (record m { free_items = set m.free_items m.capacity item; capacity = add64 m.capacity 1 })
    else fault

-- The inner loop from item `j` of the page at `page`, with the rounds left.
populate_page : ℕ → ℕ → ℕ → ℕ → Mempool → Outcome Mempool
populate_page zero j page item_len m = ok m
populate_page (suc left) j page item_len m = do
  m' ← put_item (u64 (page + item_len * j)) m
  populate_page left (j + 1) page item_len m'

-- The outer loop from page `i`, with the rounds left.
populate_pages : ℕ → ℕ → ℕ → ℕ → ℕ → ℕ → Mempool → Outcome Mempool
populate_pages zero i items_per_page buf pgsize item_len m = ok m
populate_pages (suc left) i items_per_page buf pgsize item_len m = do
  m' ← populate_page items_per_page 0 (buf + pgsize * i) item_len m
  populate_pages left (i + 1) items_per_page buf pgsize item_len m'

-- `calloc_ok` tells whether `calloc` finds the memory for the array of free items.
populate : Bool → Mempool → ℕ → ℕ → ℕ → ℕ → Outcome Mempool
unfolding populate_pages populate_page put_item
populate calloc_ok m buf len pgsize item_len =
    let items_per_page = pgsize / item_len in
    let nr_pages = len / pgsize in
    if calloc_ok
    then populate_pages nr_pages 0 items_per_page buf pgsize item_len
        (record m { free_items = replicate (nr_pages * items_per_page) 0 })
    else err enomem

unfoldable pub create : Bool → Mempool → ℕ → ℕ → ℕ → ℕ → Outcome Mempool
unfolding populate
create calloc_ok m buf len pgsize item_len =
    if item_len == 0 || not (is_power_of_two pgsize) || not (len % pgsize == 0)
    then err einval
    else populate calloc_ok
        (record m { allocated = 0; buf = buf; len = len; pgsize = pgsize; item_len = item_len }) buf
        len pgsize item_len

-- `none` is the null pointer.
unfoldable pub alloc : Mempool → Outcome (Option ℕ × Mempool)
alloc m =
    if leb m.capacity m.allocated then ok (none, m) else elim (get_elem? m.free_items m.allocated) [
      | none ↦ fault
      | some item ↦ ok (some item, record m { allocated = add64 m.allocated 1 })
    ]

-- With nothing allocated the index wraps, and the store is out of bounds.
unfoldable pub free : Mempool → ℕ → Outcome Mempool
free m item =
    let top = sub64 m.allocated 1 in
    if ltb top (length m.free_items)
    then ok (record m { free_items = set m.free_items top item; allocated = top })
    else fault
