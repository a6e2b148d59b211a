-- ===== src/Requests/Memory.antt =====
-- `initialize_server_memory` of requests.c: every segment of the server's working set is filled
-- with a letter.
use mlx5_netperf.Prelude.{
  ℕ, zero, suc, ◌+◌, ◌*◌, ◌/◌, ◌%◌, ◌≤◌, ◌<◌, ◌≡◌, ◌∙◌, refl, not, ◌&&◌, false, arith, ltb, leb,
  ◌==◌, if◌then◌else◌, inl, ◌⊎◌, sym,
}
use native.Mathlib.Decide.{dec_lt}
use mlx5_netperf.Prelude.Outcome.{Outcome, ok, err, fault, einval}

-- `memset`, on the bytes by address.
abbrev memset : (ℕ → ℕ) → ℕ → ℕ → ℕ → ℕ → ℕ
memset memory start c n a = if leb start a && ltb a (start + n) then c else memory a

-- The loop from segment `i` on, where `current_index` counts the letters.
unfoldable fill_regions : ℕ → ℕ → ℕ → (ℕ → ℕ) → ℕ → ℕ → ℕ → ℕ
fill_regions zero i current_index memory start segment_size = memory
fill_regions (suc left) i current_index memory start segment_size =
    fill_regions left (i + 1) ((current_index + 1) % 26)
      (memset memory (start + i * segment_size) (97 + current_index) segment_size) start
      segment_size

unfoldable pub initialize_server_memory : (ℕ → ℕ) → ℕ → ℕ → ℕ → Outcome (ℕ → ℕ)
unfolding fill_regions
initialize_server_memory memory start segment_size array_size =
    if segment_size == 0
    then fault
    else if not (array_size % segment_size == 0)
    then err einval
    else ok (fill_regions (array_size / segment_size) 0 0 memory start segment_size)

next_region : (i s : ℕ) → (i + 1) * s ≡ i * s + s
next_region i s = omega arith

last_region : (i left s : ℕ) → (i + suc left) * s ≡ i * s + s + left * s
last_region i left s = omega arith

not_here :
    (memory : ℕ → ℕ) (start c n a : ℕ)
    → (a < start) ⊎ (start + n ≤ a)
    → memset memory start c n a ≡ memory a
not_here memory start c n a h = ground (arith, h)

-- Bytes in front of the segments that are left, or behind them, stay.
outside :
    (left i c s start a : ℕ) (memory : ℕ → ℕ)
    → (a < start + i * s) ⊎ (start + (i + left) * s ≤ a)
    → fill_regions left i c memory start s a ≡ memory a
unfolding fill_regions
outside zero i c s start a memory h = refl
outside (suc left) i c s start a memory h =
    let next = next_region i s in
    let end = last_region i left s in
    let end' : (i + 1 + left) * s ≡ (i + suc left) * s = omega arith in
    outside left (i + 1) ((c + 1) % 26) s start a (memset memory (start + i * s) (97 + c) s)
      (ground (arith, h, next, end, end'))
    ∙ not_here memory (start + i * s) (97 + c) s a (ground (arith, h, next, end))

-- The byte `k` of segment `j`, for a segment that is left: the segment's letter.
inside :
    (left i s start j k : ℕ) (memory : ℕ → ℕ)
    → k < s
    → i ≤ j
    → j < i + left
    → fill_regions left i (i % 26) memory start s (start + j * s + k) ≡ 97 + j % 26
unfolding fill_regions
inside zero i s start j k memory h a b = absurd (omega arith)
inside (suc left) i s start j k memory h a b = elim (dec_lt i j) [
  | yes later ↦ rw letter (
      inside left (i + 1) s start j k (memset memory (start + i * s) (97 + i % 26) s) h
        (omega arith) (omega arith))
  | no p ↦
      let here : i ≡ j = omega arith in
      rw (sym here) (
        outside left (i + 1) ((i % 26 + 1) % 26) s start (start + i * s + k)
          (memset memory (start + i * s) (97 + i % 26) s) (inl (omega (arith, next_region i s)))
        ∙ ground arith)
]
  where
    letter : (i % 26 + 1) % 26 ≡ (i + 1) % 26
    letter = omega arith

-- With an array of `n` segments, `initialize_server_memory` succeeds and fills segment `i` with
-- the letter number `i` of the alphabet, counted round its end, and no byte outside the array
-- changes.
pub initialize_server_memory_lem :
    (memory : ℕ → ℕ) (start s n i k a : ℕ)
    → i < n
    → k < s
    → (a < start) ⊎ (start + n * s ≤ a)
    → (memory' : ℕ → ℕ) × (initialize_server_memory memory start s (n * s) ≡ ok memory')
      × (memory' (start + i * s + k) ≡ 97 + i % 26)
      × (memory' a ≡ memory a)
unfolding initialize_server_memory
initialize_server_memory_lem memory start s n i k a h b out =
    let whole : n * s % s ≡ 0 = grind arith in
    let count : n * s / s ≡ n = grind arith in
    let nonzero : (s == 0) ≡ false = ground arith in
    (
      fill_regions n 0 0 memory start s,
      rw (nonzero, whole, count) refl,
      inside n 0 s start i k memory b (omega arith) (omega arith),
      outside n 0 0 s start a memory (ground (arith, out)),
    )
