-- ===== src/Tx/Ring/Inline.antt =====
-- Inlining a header into the ring: where the bytes go, and where they cannot.
use mlx5_netperf.Prelude.{
  ℕ, zero, suc, ◌+◌, ◌-◌, ◌%◌, ◌^◌, ◌≤◌, ◌<◌, ◌≡◌, refl, ◌∙◌, ap, List, [], ◌∷◌, arith, true, false,
  ltb, leb, ◌&&◌, if◌then◌else◌, length, get_elem?, take, drop, length-take, length-drop,
}
use mlx5_netperf.Prelude.Outcome.{ok, fault, ◌>>=◌}
use mlx5_netperf.Prelude.Word.{add64, sub64}
use native.Mathlib.Decide.{dec_lt}
use mlx5_netperf.Tx.{Mlx5dv, Txq, pow2mod}
use mlx5_netperf.Tx.Ring.{store, get_segment, end_ptr, copy_wrapping, inline_data}
use mlx5_netperf.Tx.Ring.Store.{store_lem, store_out}

get_elem?-take {ℓ} :
    {A : Type ℓ} (n i : ℕ) (xs : List A) → i < n → get_elem? (take n xs) i ≡ get_elem? xs i
get_elem?-take zero i xs h = elim h [ ]
get_elem?-take (suc n) i [] h = refl
get_elem?-take (suc n) zero (x ∷ xs) h = refl
get_elem?-take (suc n) (suc i) (x ∷ xs) h = get_elem?-take n i xs (omega arith)

get_elem?-drop {ℓ} :
    {A : Type ℓ} (n i : ℕ) (xs : List A) → get_elem? (drop n xs) i ≡ get_elem? xs (n + i)
get_elem?-drop zero i xs = ap (get_elem? xs) {x = i} {y = 0 + i} (omega arith)
get_elem?-drop (suc n) i [] = refl
get_elem?-drop (suc n) i (x ∷ xs) =
    get_elem?-drop n i xs ∙ ap (get_elem? (x ∷ xs)) {x = suc (n + i)} {y = suc n + i} (omega arith)

-- `buf'` is `buf` with the bytes written round the ring from `start` on.
abbrev pub Written : List ℕ → ℕ → List ℕ → List ℕ → Type 0
Written buf start bytes buf' =
    (length buf' ≡ length buf)
    × ((j : ℕ)
        → get_elem? buf' j ≡ (
            if ltb j (length buf) && ltb ((j + length buf - start) % length buf) (length bytes)
            then get_elem? bytes ((j + length buf - start) % length buf)
            else get_elem? buf j))

pub distance_after : (j n s : ℕ) → s ≤ j → j < n → (j + n - s) % n ≡ j - s
distance_after j n s h k = grind arith

pub distance_before : (j n s : ℕ) → j < s → s < n → (j + n - s) % n ≡ j + n - s
distance_before j n s h k = grind arith

pub Written-straight :
    (buf : List ℕ) (start : ℕ) (bytes : List ℕ)
    → start < length buf
    → start + length bytes ≤ length buf
    → (buf' : List ℕ) × (store buf start bytes ≡ ok buf') × Written buf start bytes buf'
Written-straight buf start bytes s h =
    let (buf', done, same, reads) = store_lem bytes buf start h in
    (
      buf',
      done,
      (
        same,
        λ j. elim (dec_lt j start) [
          | yes p ↦ ground (arith, reads j, distance_before j (length buf) start p s)
          | no p ↦ elim (dec_lt j (length buf)) [
            | yes q ↦ ground (arith, reads j, distance_after j (length buf) start (omega arith) q)
            | no q ↦ ground (arith, reads j)
          ]
        ],
      ),
    )

Written-round :
    (buf : List ℕ) (start first : ℕ) (bytes : List ℕ)
    → start < length buf
    → first + start ≡ length buf
    → first < length bytes
    → length bytes ≤ length buf
    → (buf' buf'' : List ℕ) × (store buf start (take first bytes) ≡ ok buf')
      × (store buf' 0 (drop first bytes) ≡ ok buf'')
      × Written buf start bytes buf''
Written-round buf start first bytes s e f h =
    let (buf', done, same, reads) =
      store_lem (take first bytes) buf start (omega (arith, length-take first bytes)) in
    let (buf'', done', same', reads') =
      store_lem (drop first bytes) buf' 0 (omega (arith, length-drop first bytes)) in
    (
      buf',
      buf'',
      done,
      done',
      (
        same' ∙ same,
        λ j. elim (dec_lt j start) [
          | yes p ↦ ground (
            arith,
            reads j,
            reads' j,
            length-drop first bytes,
            get_elem?-drop first j bytes,
            ap (get_elem? bytes) {x = first + j} {y = j + length buf - start} (omega arith),
            distance_before j (length buf) start p s,
          )
          | no p ↦ elim (dec_lt j (length buf)) [
            | yes q ↦ ground (
              arith,
              reads j,
              reads' j,
              length-drop first bytes,
              length-take first bytes,
              get_elem?-take first (j - start) bytes (omega arith),
              distance_after j (length buf) start (omega arith) q,
            )
            | no q ↦
                ground (arith, reads j, reads' j, length-drop first bytes, length-take first bytes)
          ]
        ],
      ),
    )

copy_round :
    (buf buf' buf'' : List ℕ) (start end first : ℕ) (bytes : List ℕ)
    → sub64 end start ≡ first
    → first < length bytes
    → store buf start (take first bytes) ≡ ok buf'
    → store buf' 0 (drop first bytes) ≡ ok buf''
    → copy_wrapping buf start end bytes ≡ ok buf''
unfolding copy_wrapping
copy_round buf buf' buf'' start end first bytes e p done done' =
    let test : ltb first (length bytes) ≡ true = ground arith in rw (e, test, done) done'

copy_straight :
    (buf : List ℕ) (start end first : ℕ) (bytes : List ℕ)
    → sub64 end start ≡ first
    → length bytes ≤ first
    → copy_wrapping buf start end bytes ≡ store buf start bytes
unfolding copy_wrapping
copy_straight buf start end first bytes e p =
    let test : ltb first (length bytes) ≡ false = ground arith in rw (e, test) refl

copy_wrapping_lem :
    (buf : List ℕ) (start : ℕ) (bytes : List ℕ)
    → start < length buf
    → length bytes ≤ length buf
    → length buf < 2 ^ 64
    → (buf' : List ℕ) × (copy_wrapping buf start (length buf) bytes ≡ ok buf')
      × Written buf start bytes buf'
unfolding copy_wrapping
copy_wrapping_lem buf start bytes s h b =
    let first = length buf - start in
    let chunk : sub64 (length buf) start ≡ first = omega arith in
    elim (dec_lt first (length bytes)) [
      | yes p ↦
          let (buf', buf'', done, done', written) =
            Written-round buf start first bytes s (omega arith) p h in
          (
            buf'',
            copy_round buf buf' buf'' start (length buf) first bytes chunk p done done',
            written,
          )
      | no p ↦
          let (buf', done, written) = Written-straight buf start bytes s (omega arith) in
          (
            buf',
            copy_straight buf start (length buf) first bytes chunk (omega arith) ∙ done,
            written,
          )
    ]

-- The place in the ring where inline data of the next work request starts.
abbrev pub inline_start : Txq → ℕ
inline_start v = get_segment v (pow2mod v.sq_head v.wqe_cnt) + 16 + 14

-- The queue's bytes are those that its count and stride tell, and the next slot is among them.
abbrev pub FitsRing : Txq → Type 0
FitsRing v = (end_ptr v ≡ length v.buf) × (inline_start v + 34 ≤ length v.buf)

inline_at :
    (dv : Mlx5dv) (v : Txq) (offset place : ℕ) (bytes : List ℕ)
    → end_ptr v ≡ length v.buf
    → (if leb (length v.buf) (add64 (inline_start v) offset)
        then sub64 (length bytes) (sub64 (length v.buf) (inline_start v))
        else add64 (inline_start v) offset)
      ≡ place
    → inline_data dv v offset bytes
      ≡ (copy_wrapping v.buf place (length v.buf) bytes >>= λ buf. ok (record v { buf = buf }))
unfolding inline_data
inline_at dv v offset place bytes e p = rw (dv.ctrl_seg_is_16, dv.inline_start_is_14, e, p) refl

-- Where the data's place, `offset` behind the inline start, lies before the end of the queue,
-- `mlx5_inline_data` writes its bytes there, round the end of the ring if need be, and changes no
-- other byte and nothing else of the queue; the data is no longer than the ring.
pub inline_data_lem :
    (dv : Mlx5dv) (v : Txq) (offset : ℕ) (bytes : List ℕ)
    → FitsRing v
    → inline_start v + offset < length v.buf
    → length bytes ≤ length v.buf
    → (buf' : List ℕ) × (inline_data dv v offset bytes ≡ ok (record v { buf = buf' }))
      × Written v.buf (inline_start v + offset) bytes buf'
unfolding end_ptr
inline_data_lem dv v offset bytes (e, s) below fits =
    let (buf', done, written) =
      copy_wrapping_lem v.buf (inline_start v + offset) bytes below fits (omega arith) in
    (
      buf',
      inline_at dv v offset (inline_start v + offset) bytes e (ground arith) ∙ rw done refl,
      written,
    )

-- Where that place lies at or behind the end of the queue and the data is shorter than what is
-- left of the ring behind the inline start, the call stores out of the queue, whatever the data:
-- the wrapped place is taken from the data's length and not from its offset.
pub inline_data_fault :
    (dv : Mlx5dv) (v : Txq) (offset : ℕ) (bytes : List ℕ)
    → FitsRing v
    → offset < 2 ^ 32
    → length v.buf ≤ inline_start v + offset
    → 0 < length bytes
    → length bytes < length v.buf - inline_start v
    → inline_data dv v offset bytes ≡ fault
unfolding end_ptr
inline_data_fault dv v offset bytes (e, s) o beyond some_data short =
    inline_at dv v offset (2 ^ 64 + length bytes - (length v.buf - inline_start v)) bytes e
      (ground arith)
    ∙ rw out refl
  where
    out :
        copy_wrapping v.buf
          (2 ^ 64 + length bytes - (length v.buf - inline_start v))
          (length v.buf)
          bytes
        ≡ fault
    out =
        copy_straight v.buf (2 ^ 64 + length bytes - (length v.buf - inline_start v)) (length v.buf)
          (length v.buf + (length v.buf - inline_start v) - length bytes) bytes (omega arith)
          (omega arith)
        ∙ store_out bytes v.buf (2 ^ 64 + length bytes - (length v.buf - inline_start v))
            (omega arith)
