-- ===== src/Requests/Chase.antt =====
-- The pointers are a permutation of the segments, so that the chase never leaves the array.
use mlx5_netperf.Prelude.Count.{occurrences, occurrences-append}
use mlx5_netperf.Prelude.{
  ℕ, zero, suc, ◌-◌, ◌*◌, ◌/◌, ◌%◌, ◌<◌, ◌≡◌, refl, ◌∙◌, ap, List, [], ◌∷◌, ◌++◌, some, arith, true,
  false, ltb, ◌==◌, if◌then◌else◌, length, length-append, get_elem?, set, set-append, drop,
}
use mlx5_netperf.Prelude.Outcome.{ok}
use mlx5_netperf.Requests.{count_up, shuffle, write_pointers, initialize_pointer_chasing}
use mlx5_netperf.Requests.Shuffle.{Shuffled, shuffle_lem, length-count_up, occurrences-count_up}

append_nil : (xs : List ℕ) → xs ++ [] ≡ xs
append_nil [] = refl
append_nil (x ∷ xs) = ap (λ l. x ∷ l) (append_nil xs)

append-append : (xs ys zs : List ℕ) → (xs ++ ys) ++ zs ≡ xs ++ (ys ++ zs)
append-append [] ys zs = refl
append-append (x ∷ xs) ys zs = ap (λ l. x ∷ l) (append-append xs ys zs)

get_elem?-of_drop :
    (i : ℕ) (xs : List ℕ) (y : ℕ) (ys : List ℕ)
    → drop i xs ≡ y ∷ ys
    → (get_elem? xs i ≡ some y) × (drop (suc i) xs ≡ ys)
get_elem?-of_drop zero [] y ys h = absurd cc
get_elem?-of_drop (suc i) [] y ys h = absurd cc
get_elem?-of_drop zero (x ∷ xs) y ys h = (cc, cc)
get_elem?-of_drop (suc i) (x ∷ xs) y ys h = get_elem?-of_drop i xs y ys h

write_step :
    (left i x : ℕ) (indices p p' : List ℕ)
    → get_elem? indices i ≡ some x
    → i - 1 < length p
    → set p (i - 1) x ≡ p'
    → write_pointers (suc left) i indices p ≡ write_pointers left (suc i) indices p'
unfolding write_pointers
write_step left i x indices p p' read inside e =
    let test : ltb (i - 1) (length p) ≡ true = ground arith in ground (arith, read, test, e)

-- The loop writes the rest of the indices behind what is written, and leaves one pointer.
write_pointers_lem :
    (ys indices xs rest : List ℕ) (i : ℕ)
    → drop i indices ≡ ys
    → i ≡ suc (length xs)
    → length rest ≡ suc (length ys)
    → (z : ℕ) × (write_pointers (length ys) i indices (xs ++ rest) ≡ ok (xs ++ (ys ++ (z ∷ []))))
unfolding write_pointers
write_pointers_lem [] indices xs [] i d e l = absurd (omega arith)
write_pointers_lem [] indices xs (z ∷ []) i d e l = (z, refl)
write_pointers_lem [] indices xs (z ∷ y ∷ rest) i d e l = absurd (omega arith)
write_pointers_lem (y ∷ ys) indices xs [] i d e l = absurd (omega arith)
write_pointers_lem (y ∷ ys) indices xs (r ∷ rest) i d e l =
    let (read, later) = get_elem?-of_drop i indices y ys d in
    let (z, done) =
      write_pointers_lem ys indices (xs ++ (y ∷ [])) rest (suc i) later
        (omega (arith, length-append xs (y ∷ []))) (omega arith) in
    (
      z,
      write_step (length ys) i y indices (xs ++ (r ∷ rest)) ((xs ++ (y ∷ [])) ++ rest) read
            (omega (arith, length-append xs (r ∷ rest)))
            (ap (λ k. set (xs ++ (r ∷ rest)) k y) {x = i - 1} {y = length xs} (omega arith)
              ∙ set-append xs r y rest)
          ∙ done
          ∙ ap ok (append-append xs (y ∷ []) (ys ++ (z ∷ []))),
    )

-- What initialize_pointer_chasing gives: every segment number exactly once.
abbrev pub EachOnce : ℕ → List ℕ → Type 0
EachOnce len pointers =
    (length pointers ≡ len) × ((v : ℕ) → occurrences v pointers ≡ (if ltb v len then 1 else 0))

indices_once : (len : ℕ) (xs : List ℕ) → Shuffled (count_up len 0) xs → EachOnce len xs
indices_once len xs (l, same) =
    (l ∙ length-count_up len 0, λ v. ground (arith, same v, occurrences-count_up len 0 v))

rotate_once :
    (len first : ℕ) (ys : List ℕ) → EachOnce len (first ∷ ys) → EachOnce len (ys ++ (first ∷ []))
rotate_once len first ys (l, once) = (
  omega (arith, length-append ys (first ∷ [])),
  λ v. omega (arith, once v, occurrences-append ys (first ∷ []) v),
)

pub pointers_lem :
    (len : ℕ) (indices memory : List ℕ)
    → 0 < len
    → length memory ≡ len
    → EachOnce len indices
    → (written pointers : List ℕ) × (first : ℕ) × (write_pointers (len - 1) 1 indices memory
        ≡ ok written)
      × (get_elem? indices 0 ≡ some first)
      × (length written ≡ len)
      × (set written (len - 1) first ≡ pointers)
      × EachOnce len pointers
pointers_lem len [] memory p m once = absurd (omega (arith, once.0))
pointers_lem len (first ∷ ys) memory p m once =
    let size : len - 1 ≡ length ys = omega (arith, once.0) in
    let (z, done) =
      write_pointers_lem ys (first ∷ ys) [] memory 1 refl refl (omega (arith, once.0)) in
    (
      ys ++ (z ∷ []),
      ys ++ (first ∷ []),
      first,
      ap (λ k. write_pointers k 1 (first ∷ ys) memory) size ∙ done,
      refl,
      omega (arith, length-append ys (z ∷ []), once.0),
      ap (λ k. set (ys ++ (z ∷ [])) k first) size
          ∙ set-append ys z first []
          ∙ append_nil (ys ++ (first ∷ [])),
      rotate_once len first ys once,
    )

chase_steps :
    (rand : ℕ → ℕ) (array_size segment_size len first : ℕ)
    (memory indices written pointers : List ℕ)
    → 0 < segment_size
    → 0 < len
    → array_size % segment_size ≡ 0
    → array_size / segment_size ≡ len
    → shuffle rand (len - 1) 0 (count_up len 0) ≡ ok indices
    → write_pointers (len - 1) 1 indices memory ≡ ok written
    → get_elem? indices 0 ≡ some first
    → length written ≡ len
    → set written (len - 1) first ≡ pointers
    → initialize_pointer_chasing rand true (some memory) array_size segment_size ≡ ok pointers
unfolding initialize_pointer_chasing
chase_steps rand array_size segment_size len first memory indices written pointers p q whole e
      shuffled wrote read size last =
    let not_zero : (segment_size == 0) ≡ false = ground arith in
    let some_segment : (len == 0) ≡ false = ground arith in
    let inside : ltb (len - 1) len ≡ true = ground arith in
    rw (not_zero, whole, e, some_segment, shuffled, wrote, read, size, e, inside, last) refl

-- On an array of `len` segments, at least one, with memory for both arrays, the pointers that the
-- client sets up name every segment exactly once, whatever `rand` returns.
pub initialize_pointer_chasing_lem :
    (rand : ℕ → ℕ) (len segment_size : ℕ) (memory : List ℕ)
    → 0 < segment_size
    → 0 < len
    → length memory ≡ len
    → (pointers : List ℕ) × (initialize_pointer_chasing rand true
          (some memory)
          (len * segment_size)
          segment_size
        ≡ ok pointers)
      × EachOnce len pointers
initialize_pointer_chasing_lem rand len segment_size memory p q m =
    let (indices, shuffled, same) =
      shuffle_lem rand (len - 1) 0 (count_up len 0) (omega (arith, length-count_up len 0)) in
    let (written, pointers, first, wrote, read, size, last, once) =
      pointers_lem len indices memory q m (indices_once len indices same) in
    (
      pointers,
      chase_steps rand (len * segment_size) segment_size len first memory indices written pointers p
          q (whole len segment_size p) (count len segment_size p) shuffled wrote read size last,
      once,
    )
  where
    whole : (n s : ℕ) → 0 < s → n * s % s ≡ 0
    whole n s h = grind arith

    count : (n s : ℕ) → 0 < s → n * s / s ≡ n
    count n s h = grind arith
