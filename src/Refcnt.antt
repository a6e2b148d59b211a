-- ===== src/Refcnt.antt =====
-- The reference counts of the server's working set: `server_change_refcnt` of mlx5_rxtx.c and
-- `server_init_refcnt_array` of mlx5_init.c.
pub mod Counts
mod Tests
use mlx5_netperf.Prelude.{
  ℕ, zero, suc, ◌+◌, ◌-◌, ◌/◌, ◌%◌, ◌^◌, Bool, true, false, ◌&&◌, Option, none, some, List, [], ◌∷◌,
  ltb, ◌==◌, if◌then◌else◌, get_elem?, set, replicate,
}
use mlx5_netperf.Prelude.Word.{u16}
use mlx5_netperf.Prelude.Outcome.{Outcome, ok, err, fault, enomem, ◌>>=◌}

-- `working_set_refcnts` with the two globals that say how a virtual segment is found in it.
pub record Refcnts : Type 0 where
  pub arrays : List (List ℕ)
  pub num_refcnt_arrays : ℕ
  pub num_total_segments : ℕ

-- The count at a position, and the store of a new one.
unfoldable pub read_count : Refcnts → ℕ → ℕ → Option ℕ
read_count r array segment = elim (get_elem? r.arrays array) [
  | none ↦ none
  | some counts ↦ get_elem? counts segment
]

write_count : Refcnts → ℕ → ℕ → ℕ → Refcnts
write_count r array segment n = elim (get_elem? r.arrays array) [
  | none ↦ r
  | some counts ↦ record r { arrays = set r.arrays array (set counts segment n) }
]

-- `change` is an `int16_t` by its bit pattern, so it is positive below 2^15. The atomic operations
-- return the new count; the second branch subtracts it from 0. Division by zero segments faults.
unfoldable pub server_change_refcnt : Refcnts → ℕ → ℕ → Outcome (ℕ × Refcnts)
unfolding write_count
server_change_refcnt r index change =
    let physical_segment = index % r.num_total_segments in
    let refcnt_array = index / r.num_total_segments in
    if r.num_total_segments == 0 then fault else elim (read_count r refcnt_array physical_segment) [
      | none ↦ fault
      | some count ↦
          if ltb 0 change && ltb change (2 ^ 15)
          then (let new = u16 (count + change) in
              ok (u16 (0 + new), write_count r refcnt_array physical_segment new))
          else (let new = u16 (count + 2 ^ 16 - u16 (2 ^ 16 - change)) in
              ok (u16 (0 + 2 ^ 16 - new), write_count r refcnt_array physical_segment new))
    ]

-- `mallocs` tells, call by call, whether `malloc` finds the memory of an array of counts.
alloc_arrays : List Bool → ℕ → ℕ → Outcome (List (List ℕ))
alloc_arrays mallocs zero num_items = ok []
alloc_arrays [] (suc n) num_items = err enomem
alloc_arrays (false ∷ mallocs) (suc n) num_items = err enomem
alloc_arrays (true ∷ mallocs) (suc n) num_items = do
  rest ← alloc_arrays mallocs n num_items
  ok (replicate num_items 1 ∷ rest)

-- The first answer of `mallocs` is for the array of arrays. Each count is set to 1.
unfoldable pub server_init_refcnt_array : List Bool → Refcnts → ℕ → Outcome Refcnts
unfolding alloc_arrays
server_init_refcnt_array [] r num_items = err enomem
server_init_refcnt_array (false ∷ mallocs) r num_items = err enomem
server_init_refcnt_array (true ∷ mallocs) r num_items = do
  arrays ← alloc_arrays mallocs r.num_refcnt_arrays num_items
  ok (record r { arrays = arrays })
