-- ===== src/Server/Packet/Raised.antt =====
-- How the references of a packet raise the counts.
use mlx5_netperf.Prelude.{
  ℕ, ◌+◌, ◌^◌, ◌<◌, ◌≡◌, refl, sym, ap, ◌∙◌, Option, none, some, List, [], ◌∷◌, arith, ◌==◌,
  if◌then◌else◌, Bool-cases, inl, inr, ==→≡,
}
use mlx5_netperf.Prelude.Count.{occurrences}
use mlx5_netperf.Prelude.Word.{u16}
use mlx5_netperf.Prelude.Outcome.{ok}
use mlx5_netperf.Refcnt.{Refcnts, server_change_refcnt}
use mlx5_netperf.Refcnt.Counts.{count, change_up}
use mlx5_netperf.Completion.Counted.{Covers, Dropped, lower}

-- Every segment that `is` names has a 16-bit count with room for the references that `is` holds.
abbrev pub Room : Refcnts → List ℕ → Type 0
Room r is =
    (j : ℕ)
    → 0 < occurrences j is
    → (c : ℕ) × (count r j ≡ some c) × (c + occurrences j is < 2 ^ 16)

abbrev pub raise : ℕ → Option ℕ → Option ℕ
raise n none = none
raise n (some c) = some (c + n)

-- The counts `r'` are those of `r` with the references of `is`.
abbrev pub Raised : Refcnts → Refcnts → List ℕ → Type 0
Raised r r' is =
    ((j : ℕ) → count r' j ≡ raise (occurrences j is) (count r j))
    × (r'.num_total_segments ≡ r.num_total_segments)

pub raise_zero : (o : Option ℕ) → raise 0 o ≡ o
raise_zero none = refl
raise_zero (some c) = ap some (omega arith)

raise-raise : (a b : ℕ) (o : Option ℕ) → raise b (raise a o) ≡ raise (a + b) o
raise-raise a b none = refl
raise-raise a b (some c) = ap some (omega arith)

raised_one :
    (i j c : ℕ) (before after : Option ℕ)
    → (i ≡ j → before ≡ some c)
    → c + 1 < 2 ^ 16
    → after ≡ (if i == j then some (u16 (c + 1)) else before)
    → after ≡ raise (occurrences j (i ∷ [])) before
raised_one i j c before after h small e = elim (Bool-cases (i == j)) [
  | inl same ↦ rw (e, same, h (==→≡ i j same)) (ap some (omega arith))
  | inr other ↦ rw (e, other, raise_zero before) refl
]

room_left :
    (i j : ℕ) (is : List ℕ) (c : ℕ) (before after : Option ℕ)
    → before ≡ some c
    → after ≡ raise (occurrences j (i ∷ [])) before
    → c + occurrences j (i ∷ is) < 2 ^ 16
    → (d : ℕ) × (after ≡ some d) × (d + occurrences j is < 2 ^ 16)
room_left i j is c before after b e small =
    (c + occurrences j (i ∷ []), e ∙ ap (raise (occurrences j (i ∷ []))) b, omega arith)

pub raise_step :
    (r : Refcnts) (i : ℕ) (is : List ℕ)
    → 0 < r.num_total_segments
    → Room r (i ∷ is)
    → (k : ℕ) × (r' : Refcnts) × (server_change_refcnt r i 1 ≡ ok (k, r'))
      × Raised r r' (i ∷ [])
      × Room r' is
raise_step r i is p room =
    let (c, counted, small) = room i (ground arith) in
    let (r', done, counts, same) = change_up r i c p counted in
    let raised : (j : ℕ) → count r' j ≡ raise (occurrences j (i ∷ [])) (count r j) = λ j.
      raised_one i j c (count r j) (count r' j) (λ e. ap (count r) (sym e) ∙ counted) (ground arith)
        (counts j) in
    (
      u16 (c + 1),
      r',
      done,
      (raised, same),
      λ j h.
          (let (d, found, fits) = room j (omega arith) in
            room_left i j is d (count r j) (count r' j) found (raised j) fits),
    )

pub Raised-cons :
    (r r₁ r₂ : Refcnts) (i : ℕ) (is : List ℕ)
    → Raised r r₁ (i ∷ [])
    → Raised r₁ r₂ is
    → Raised r r₂ (i ∷ is)
Raised-cons r r₁ r₂ i is (first, same) (later, same') = (
  λ j.
      later j
      ∙ ap (raise (occurrences j is)) (first j)
      ∙ raise-raise (occurrences j (i ∷ [])) (occurrences j is) (count r j)
      ∙ ap (λ n. raise n (count r j)) {x = occurrences j (i ∷ []) + occurrences j is}
          {y = occurrences j (i ∷ is)} (omega arith),
  same' ∙ same,
)

-- What was raised can be dropped again, and dropping it gives the counts from before.
pub Covers-Raised : (r r' : Refcnts) (is : List ℕ) → Room r is → Raised r r' is → Covers r' is
Covers-Raised r r' is room (raised, same) j h =
    let (c, counted, small) = room j h in
    (c + occurrences j is, raised j ∙ ap (raise (occurrences j is)) counted, omega arith, small)

lower-raise : (n : ℕ) (o : Option ℕ) → lower n (raise n o) ≡ o
lower-raise n none = refl
lower-raise n (some c) = ap some (omega arith)

pub Dropped-Raised :
    (r r₁ r₂ : Refcnts) (is : List ℕ)
    → Raised r r₁ is
    → Dropped r₁ r₂ is
    → (j : ℕ) → count r₂ j ≡ count r j
Dropped-Raised r r₁ r₂ is (raised, same) (dropped, same') j =
    dropped j
    ∙ ap (lower (occurrences j is)) (raised j)
    ∙ lower-raise (occurrences j is) (count r j)
