-- ===== src/Requests.antt =====
-- requests.c: what the client asks for and how the server answers. The results of `rand` and of
-- `malloc`, and the values that the code computes with floating point, are arguments.
pub mod Shuffle
pub mod Chase
pub mod Offsets
pub mod Memory
mod Tests
use mlx5_netperf.Prelude.{
  ℕ, zero, suc, ◌+◌, ◌-◌, ◌*◌, ◌/◌, ◌%◌, ◌^◌, Bool, true, false, not, Option, none, some, List, [],
  ◌∷◌, ltb, leb, ◌==◌, if◌then◌else◌, length, get_elem?, set, replicate,
}
use mlx5_netperf.Prelude.Word.{u16, u32}
use mlx5_netperf.Prelude.Outcome.{Outcome, ok, err, fault, enomem, einval, ◌>>=◌}

-- `for (i = 0; i < len; i++) indices[i] = i`, from `i` on with the rounds left.
unfoldable pub count_up : ℕ → ℕ → List ℕ
count_up zero i = []
count_up (suc left) i = i ∷ count_up left (suc i)

unfoldable pub swap : List ℕ → ℕ → ℕ → Outcome (List ℕ)
swap xs i j = if i == j then ok xs else elim (get_elem? xs i) [
  | none ↦ fault
  | some x ↦ elim (get_elem? xs j) [ none ↦ fault | some y ↦ ok (set (set xs i y) j x) ]
]

-- The shuffle from index `i` on; `rand i` is what `rand` returns in that round.
unfoldable pub shuffle : (ℕ → ℕ) → ℕ → ℕ → List ℕ → Outcome (List ℕ)
unfolding swap
shuffle rand zero i indices = ok indices
shuffle rand (suc left) i indices = do
  indices' ← swap indices i (i + rand i % (length indices - i))
  shuffle rand left (suc i) indices'

-- The loop that stores `indices[i]` as pointer `i - 1`.
unfoldable pub write_pointers : ℕ → ℕ → List ℕ → List ℕ → Outcome (List ℕ)
write_pointers zero i indices pointers = ok pointers
write_pointers (suc left) i indices pointers = elim (get_elem? indices i) [
  | none ↦ fault
  | some x ↦
      let rest = write_pointers left (suc i) indices (set pointers (i - 1) x) in
      if ltb (i - 1) (length pointers) then rest else fault
]

-- `memory` is what `malloc` gives for the pointers, with whatever it contains; `none` is NULL.
-- Without any segment the first remainder is by zero.
unfoldable pub initialize_pointer_chasing :
    (ℕ → ℕ) → Bool → Option (List ℕ) → ℕ → ℕ → Outcome (List ℕ)
unfolding shuffle write_pointers
initialize_pointer_chasing rand indices_ok memory array_size segment_size =
    let len = array_size / segment_size in
    if segment_size == 0
    then fault
    else if not (array_size % segment_size == 0)
    then err einval
    else if not indices_ok
    then err enomem
    else if len == 0
    then fault
    else (shuffle rand (len - 1) 0 (count_up len 0) >>= λ indices. elim memory [
      | none ↦ err enomem
      | some pointers ↦ write_pointers (len - 1) 1 indices pointers >>= λ written.
          elim (get_elem? indices 0) [
            | none ↦ fault
            | some first ↦
                if ltb (len - 1) (length written) then ok (set written (len - 1) first) else fault
          ]
    ])

-- `ClientRequest`
pub record ClientRequest : Type 0 where
  pub timestamp_offset : ℕ
  pub packet_id : ℕ
  pub id_padding : ℕ
  pub segment_offsets : List ℕ

-- The inner loop from segment `i` on: the offsets of one request, and the next region.
unfoldable pub fill_offsets : ℕ → ℕ → List ℕ → ℕ → List ℕ → Outcome (ℕ × List ℕ)
fill_offsets zero i pointers region offsets = ok (region, offsets)
fill_offsets (suc left) i pointers region offsets = elim (get_elem? pointers region) [
  | none ↦ fault
  | some next ↦
      let rest = fill_offsets left (suc i) pointers next (set offsets i region) in
      if ltb i (length offsets) then rest else fault
]

-- The outer loop from request `iter` on. `timestamp` is the value of `get_next_cycles_offset`.
unfoldable pub fill_requests : ℕ → ℕ → ℕ → ℕ → List ℕ → ℕ → List ℕ → Outcome (List ClientRequest)
unfolding fill_offsets
fill_requests zero iter timestamp num_segments pointers region blank = ok []
fill_requests (suc left) iter timestamp num_segments pointers region blank = do
  (next, offsets) ← fill_offsets num_segments 0 pointers region blank
  rest ← fill_requests left (suc iter) timestamp num_segments pointers next blank
  ok (
      record {
        timestamp_offset = timestamp;
        packet_id = u32 iter;
        id_padding = 0;
        segment_offsets = offsets;
      }
      ∷ rest)

-- The number of requests is computed in floating point; `requests_ok` tells whether `malloc` finds
-- their memory, and `blank` is what the 32 offsets of a request hold before.
unfoldable pub initialize_client_requests :
    (ℕ → ℕ)
    → Bool
    → Option (List ℕ)
    → Bool
    → List ℕ
    → ℕ
    → ℕ
    → ℕ
    → ℕ
    → ℕ
    → Outcome (List ClientRequest)
unfolding initialize_pointer_chasing fill_requests
initialize_client_requests rand indices_ok memory requests_ok blank num_requests timestamp
      segment_size num_segments array_size =
    do
      pointers ← initialize_pointer_chasing rand indices_ok memory array_size segment_size
      if requests_ok
          then fill_requests num_requests 0 timestamp num_segments pointers 0 blank
          else err enomem
