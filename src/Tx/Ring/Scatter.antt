-- ===== src/Tx/Ring/Scatter.antt =====
-- The data segments of a chain of mbufs, one after the other round the ring.
use mlx5_netperf.Prelude.{
  ℕ, zero, suc, ◌+◌, ◌-◌, ◌*◌, ◌%◌, ◌≤◌, ◌<◌, ◌≡◌, refl, ◌∙◌, sym, ap, Option, List, [], ◌∷◌, ◌++◌,
  arith, ltb, ◌==◌, if◌then◌else◌, length, get_elem?, length-append,
}
use mlx5_netperf.Prelude.Outcome.{ok}
use native.Mathlib.Decide.{dec_lt}
use native.Mathlib.Nat.{mod-eq_of_lt, mod-eq-sub-mod}
use mathlib.Core.Path.{subst}
use mlx5_netperf.Completion.Chain.{Linked}
use mlx5_netperf.Tx.{Mlx5dv, Heap}
use mlx5_netperf.Tx.Ring.{fill_dpsegs}
use mlx5_netperf.Tx.Ring.Inline.{Written, Written-straight}

get_elem?-append_left {ℓ} :
    {A : Type ℓ} (xs ys : List A) (i : ℕ) → i < length xs → get_elem? (xs ++ ys) i ≡ get_elem? xs i
get_elem?-append_left [] ys i h = elim h [ ]
get_elem?-append_left (x ∷ xs) ys zero h = refl
get_elem?-append_left (x ∷ xs) ys (suc i) h = get_elem?-append_left xs ys i (omega arith)

get_elem?-append_right {ℓ} :
    {A : Type ℓ} (xs ys : List A) (i j : ℕ)
    → i ≡ length xs + j
    → get_elem? (xs ++ ys) i ≡ get_elem? ys j
get_elem?-append_right [] ys i j h = ap (get_elem? ys) {x = i} {y = j} (omega arith)
get_elem?-append_right (x ∷ xs) ys zero j h = absurd (omega arith)
get_elem?-append_right (x ∷ xs) ys (suc i) j h = get_elem?-append_right xs ys i j (omega arith)

mod_small : (x n : ℕ) → x < n → x % n ≡ x
mod_small x n h = mod-eq_of_lt h

mod_once : (x n : ℕ) → x < n + n → x % n ≡ (if ltb x n then x else x - n)
mod_once x n h = elim (dec_lt x n) [
  | yes p ↦ ground (arith, mod-eq_of_lt p)
  | no p ↦
      ground
        (arith, mod-eq-sub-mod {n = x} {m = n} (omega arith), mod_small (x - n) n (omega arith))
]

near :
    (j n at k l : ℕ)
    → j < n
    → at < n
    → k + l ≤ n
    → (j + n - at) % n < k
    → l ≤ (j + n - (at + k) % n) % n
near j n at k l h p b d = ground (
  arith,
  mod_once (at + k) n (omega arith),
  mod_once (j + n - at) n (omega arith),
  mod_once (j + n - (at + k) % n) n (omega arith),
)

far :
    (j n at k : ℕ)
    → j < n
    → at < n
    → k ≤ n
    → k ≤ (j + n - at) % n
    → (j + n - at) % n ≡ k + (j + n - (at + k) % n) % n
far j n at k h p b d = ground (
  arith,
  mod_once (at + k) n (omega arith),
  mod_once (j + n - at) n (omega arith),
  mod_once (j + n - (at + k) % n) n (omega arith),
)

pub Written-append :
    (buf buf' buf'' : List ℕ) (at : ℕ) (xs ys : List ℕ)
    → at < length buf
    → length xs + length ys ≤ length buf
    → Written buf at xs buf'
    → Written buf' ((at + length xs) % length buf) ys buf''
    → Written buf at (xs ++ ys) buf''
Written-append buf buf' buf'' at xs ys p fits (same, reads) (same', reads') = (
  same' ∙ same,
  λ j. elim (dec_lt j (length buf)) [
    | no q ↦ ground (arith, reads j, reads' j, same)
    | yes q ↦ elim (dec_lt ((j + length buf - at) % length buf) (length xs)) [
      | yes early ↦
          let late = near j (length buf) at (length xs) (length ys) q p fits early in
          ground (
            arith,
            reads j,
            rw same at reads' j,
            length-append xs ys,
            get_elem?-append_left xs ys ((j + length buf - at) % length buf) early,
          )
      | no late ↦
          let further = far j (length buf) at (length xs) q p (omega arith) (omega arith) in
          ground (
            arith,
            reads j,
            rw same at reads' j,
            length-append xs ys,
            get_elem?-append_right xs ys ((j + length buf - at) % length buf)
                ((j + length buf - (at + length xs) % length buf) % length buf) further,
          )
    ]
  ],
)

pub followed_by :
    (buf buf' buf'' : List ℕ) (at next : ℕ) (xs ys : List ℕ)
    → at < length buf
    → length xs + length ys ≤ length buf
    → Written buf at xs buf'
    → (at + length xs) % length buf ≡ next
    → Written buf' next ys buf''
    → Written buf at (xs ++ ys) buf''
followed_by buf buf' buf'' at next xs ys p fits first e later =
    Written-append buf buf' buf'' at xs ys p fits first
      (subst (λ n. Written buf' n ys buf'') (sym e) later)

-- The data segments of the mbufs, each by its length, address and key.
unfoldable pub dpsegs : Mlx5dv → Heap → List ℕ → List ℕ
dpsegs dv heap [] = []
dpsegs dv heap (m ∷ ms) =
    dv.data_seg (heap m).len (heap m).data_ptr (heap m).lkey ++ dpsegs dv heap ms

length-dpsegs :
    (dv : Mlx5dv) (heap : Heap) (ms : List ℕ) → length (dpsegs dv heap ms) ≡ 16 * length ms
unfolding dpsegs
length-dpsegs dv heap [] = refl
length-dpsegs dv heap (m ∷ ms) =
    length-append (dv.data_seg (heap m).len (heap m).data_ptr (heap m).lkey) (dpsegs dv heap ms)
    ∙ omega (
      arith,
      dv.length-data_seg (heap m).len (heap m).data_ptr (heap m).lkey,
      length-dpsegs dv heap ms,
    )

next_slot :
    (slot slots : ℕ)
    → slot < slots
    → (if 16 * slot + 16 == 16 * slots then 0 else 16 * slot + 16) ≡ 16 * (suc slot % slots)
next_slot slot slots h = ground (arith, mod_once (suc slot) slots (omega arith))

wrapped_slot :
    (slot slots : ℕ) → slot < slots → (16 * slot + 16) % (16 * slots) ≡ 16 * (suc slot % slots)
wrapped_slot slot slots h = ground (
  arith,
  mod_once (suc slot) slots (omega arith),
  mod_once (16 * slot + 16) (16 * slots) (omega arith),
)

-- The loop over a chain of mbufs writes their data segments one after the other, each whole and
-- round the end of the ring, and changes no other byte, where the ring is made of 16-byte slots,
-- the chain is no longer than the ring and there are as many rounds as mbufs.
pub fill_dpsegs_lem :
    (dv : Mlx5dv) (heap : Heap) (ms : List ℕ) (rounds : ℕ) (curr : Option ℕ) (slot slots : ℕ)
    (buf : List ℕ)
    → length ms ≤ rounds
    → Linked heap curr ms
    → length buf ≡ 16 * slots
    → slot < slots
    → length ms ≤ slots
    → (buf' : List ℕ) × (fill_dpsegs dv rounds heap (16 * slots) curr (16 * slot) buf ≡ ok buf')
      × Written buf (16 * slot) (dpsegs dv heap ms) buf'
unfolding fill_dpsegs Linked dpsegs
fill_dpsegs_lem dv heap [] rounds curr slot slots buf b l e p f =
    (buf, rw l refl, (refl, λ j. ground arith))
fill_dpsegs_lem dv heap (m ∷ ms) zero curr slot slots buf b l e p f = elim b [ ]
fill_dpsegs_lem dv heap (m ∷ ms) (suc rounds) curr slot slots buf b (here_it_is, l) e p f =
    let seg = dv.data_seg (heap m).len (heap m).data_ptr (heap m).lkey in
    let size = dv.length-data_seg (heap m).len (heap m).data_ptr (heap m).lkey in
    let (buf₁, stored, written) =
      Written-straight buf (16 * slot) seg (omega arith) (omega (arith, size)) in
    let (buf', done, rest) =
      fill_dpsegs_lem dv heap ms rounds (heap m).next (suc slot % slots) slots buf₁ (omega arith) l
        (written.0 ∙ e) (omega arith) (omega arith) in
    (
      buf',
      rw (here_it_is, stored, dv.data_seg_is_16, next_slot slot slots p) done,
      followed_by buf buf₁ buf' (16 * slot) (16 * (suc slot % slots)) seg (dpsegs dv heap ms)
          (omega arith) (omega (arith, size, length-dpsegs dv heap ms)) written (place seg size)
          rest,
    )
  where
    place :
        (seg : List ℕ)
        → length seg ≡ 16
        → (16 * slot + length seg) % length buf ≡ 16 * (suc slot % slots)
    place seg size = rw (e, size) (wrapped_slot slot slots p)
