-- ===== src/Mempool/Stack.antt =====
-- A valid pool is a stack of free items: `alloc` pops it and `free` pushes.
use mlx5_netperf.Prelude.{
  ℕ, suc, ◌+◌, ◌-◌, ◌^◌, ◌≤◌, ◌<◌, ◌≡◌, ap, ◌∙◌, Option, none, some, List, [], ◌∷◌, arith, length,
  drop, set, length-set, drop-eq-cons, get_elem?-of_lt, get_elem?-set_self, drop-set, drop_all,
}
use mlx5_netperf.Prelude.Outcome.{ok, fault}
use native.Mathlib.Decide.{dec_lt}
use native.Mathlib.Numerals.{add-one}
use mlx5_netperf.Mempool.{Mempool, alloc, free}

pub record IsValid (m : Mempool) : Type 0 where
  pub full : m.capacity ≡ length m.free_items
  pub within : m.allocated ≤ m.capacity
  pub small : m.capacity < 2 ^ 64

-- The items that are free, the next one to be handed out first.
abbrev pub available : Mempool → List ℕ
available m = drop m.allocated m.free_items

-- The stack operation that `mempool_alloc` implements.
abbrev pub pop : List ℕ → Option ℕ × List ℕ
pop [] = (none, [])
pop (x ∷ xs) = (some x, xs)

-- `mempool_alloc` always returns, keeps a valid pool valid, and pops the stack of free items: it
-- gives the null pointer exactly where no item is free.
pub alloc_refines :
    (m : Mempool)
    → IsValid m
    → (m' : Mempool) × (alloc m ≡ ok ((pop (available m)).0, m'))
      × IsValid m'
      × (available m' ≡ (pop (available m)).1)
unfolding alloc
alloc_refines m v = elim (dec_lt m.allocated m.capacity) [
  | yes p ↦
      let (item, e) = get_elem?-of_lt m.free_items m.allocated (omega arith) in
      let popped = drop-eq-cons m.allocated m.free_items e in
      (
        record m { allocated = m.allocated + 1 },
        ground (arith, popped),
        ground arith,
        ground (arith, popped, add-one m.allocated),
      )
  | no p ↦ (
    m,
    ground (arith, drop_all m.allocated m.free_items),
    v,
    ground (arith, drop_all m.allocated m.free_items),
  )
]

pub free_push :
    (m : Mempool) (item : ℕ)
    → IsValid m
    → 0 < m.allocated
    → (m' : Mempool) × (free m item ≡ ok m')
      × IsValid m'
      × (available m' ≡ item ∷ available m)
      × (suc m'.allocated ≡ m.allocated)
unfolding free
free_push m item v h =
    let top = m.allocated - 1 in
    (
      record m { free_items = set m.free_items top item; allocated = top },
      ground arith,
      ground (arith, length-set m.free_items top item),
      drop-eq-cons top (set m.free_items top item)
            (get_elem?-set_self m.free_items top item (omega arith))
          ∙ ap (λ rest. item ∷ rest) (drop-set top m.free_items item)
          ∙ ap (λ k. item ∷ drop k m.free_items) {x = suc top} {y = m.allocated} (omega arith),
      omega arith,
    )

-- `mempool_free` of any item, while some item is allocated, returns, keeps a valid pool valid and
-- pushes the item on the stack of free items.
pub free_refines :
    (m : Mempool) (item : ℕ)
    → IsValid m
    → 0 < m.allocated
    → (m' : Mempool) × (free m item ≡ ok m') × IsValid m' × (available m' ≡ item ∷ available m)
free_refines m item v h =
    let (m', done, valid, pushed, rest) = free_push m item v h in (m', done, valid, pushed)

pub free_none : (m : Mempool) (item : ℕ) → IsValid m → m.allocated ≡ 0 → free m item ≡ fault
unfolding free
free_none m item v h = ground arith
