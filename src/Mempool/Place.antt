-- ===== src/Mempool/Place.antt =====
-- Where the items of a region lie: inside it, inside one page each, and apart from one another.
use mathlib.Core.List.{Mem, Pairwise, mem-cons, mem-append, not-mem-nil}
use mathlib.Core.Logic.Or
use native.Mathlib.Bridge.{le_prop}
use mathlib.Core.HLevel.{×_prop}
use native.Mathlib.Nat.{ℕ_set}
use mlx5_netperf.Prelude.{
  sym, ◌∙◌, ◌-◌, ℕ, zero, suc, ◌+◌, ◌*◌, ◌/◌, ◌%◌, ◌≤◌, ◌<◌, ◌≡◌, List, [], ◌∷◌, ◌++◌, arith,
}
use mlx5_netperf.Mempool.Layout.{page_items, pool_items, region_items}

-- Two items of `item_len` bytes have no byte in common.
abbrev pub Apart : ℕ → ℕ → ℕ → Type 0
Apart item_len x y =
    (byte : ℕ) → x ≤ byte → byte < x + item_len → y ≤ byte → byte < y + item_len → ⊥

pub Apart-prop : (item_len x y : ℕ) → IsProp (Apart item_len x y)
Apart-prop item_len x y = hlevel

pub Apart-sym : (item_len x y : ℕ) → Apart item_len x y → Apart item_len y x
Apart-sym item_len x y h byte p q r s = h byte r s p q

-- The first and the last byte of the item lie in the same page of the region at `buf`.
abbrev pub OnePage : ℕ → ℕ → ℕ → ℕ → Type 0
OnePage buf pgsize item_len x = (x - buf) / pgsize ≡ (x + item_len - 1 - buf) / pgsize

-- Every element lies in [low, high), all its bytes included, and in the order of addresses.
abbrev Between : ℕ → ℕ → ℕ → List ℕ → Type 0
Between item_len low high [] = low ≤ high
Between item_len low high (x ∷ xs) = (low ≤ x) × Between item_len (x + item_len) high xs

page_items-Between :
    (n j page item_len high : ℕ)
    → page + item_len * (j + n) ≤ high
    → Between item_len (page + item_len * j) high (page_items n j page item_len)
page_items-Between zero j page item_len high h = omega arith
page_items-Between (suc n) j page item_len high h = (
  omega arith,
  let shift : page + item_len * (j + 1) ≡ page + item_len * j + item_len = grind arith in
      rw shift at (page_items-Between n (j + 1) page item_len high (grind arith)),
)

Between-le : (item_len low high : ℕ) (xs : List ℕ) → Between item_len low high xs → low ≤ high
Between-le item_len low high [] b = b
Between-le item_len low high (x ∷ xs) b =
    omega (arith, Between-le item_len (x + item_len) high xs b.1)

Between-append :
    (item_len low mid high : ℕ) (xs ys : List ℕ)
    → Between item_len low mid xs
    → Between item_len mid high ys
    → Between item_len low high (xs ++ ys)
Between-append item_len low mid high [] [] b c = omega arith
Between-append item_len low mid high [] (y ∷ ys) b c = (omega arith, c.1)
Between-append item_len low mid high (x ∷ xs) ys b c =
    (b.0, Between-append item_len (x + item_len) mid high xs ys b.1 c)

pool_items-Between :
    (n i per_page buf pgsize item_len : ℕ)
    → per_page * item_len ≤ pgsize
    → Between item_len
        (buf + pgsize * i)
        (buf + pgsize * (i + n))
        (pool_items n i per_page buf pgsize item_len)
pool_items-Between zero i per_page buf pgsize item_len q = omega arith
pool_items-Between (suc n) i per_page buf pgsize item_len q =
    Between-append item_len (buf + pgsize * i) (buf + pgsize * (i + 1)) (buf + pgsize * (i + suc n))
      (page_items per_page 0 (buf + pgsize * i) item_len)
      (pool_items n (i + 1) per_page buf pgsize item_len)
      (rw from_start at (
        page_items-Between per_page 0 (buf + pgsize * i) item_len (buf + pgsize * (i + 1))
          (grind arith)))
      (rw to_end at (pool_items-Between n (i + 1) per_page buf pgsize item_len q))
  where
    from_start : buf + pgsize * i + item_len * 0 ≡ buf + pgsize * i
    from_start = omega arith

    to_end : buf + pgsize * (i + 1 + n) ≡ buf + pgsize * (i + suc n)
    to_end = grind arith

Between-mem :
    (item_len low high : ℕ) (xs : List ℕ) {a : ℕ}
    → Between item_len low high xs
    → Mem a xs
    → (low ≤ a) × (a + item_len ≤ high)
Between-mem item_len low high [] b m = absurd (not-mem-nil m)
Between-mem item_len low high (x ∷ xs) b m =
    Or.elim (×_prop le_prop le_prop) (mem-cons.0 m)
      (λ e. omega (arith, e, b.0, Between-le item_len (x + item_len) high xs b.1))
      (λ rest. omega (arith, Between-mem item_len (x + item_len) high xs b.1 rest))

Between-Apart :
    (item_len low high : ℕ) (xs : List ℕ)
    → Between item_len low high xs
    → Pairwise (Apart item_len) xs
Between-Apart item_len low high [] b = Pairwise.nil
Between-Apart item_len low high (x ∷ xs) b =
    Pairwise.cons
      (λ y m byte p q r s. omega (arith, Between-mem item_len (x + item_len) high xs b.1 m))
      (Between-Apart item_len (x + item_len) high xs b.1)

div_of_bounds : (x p i : ℕ) → p * i ≤ x → x < p * (i + 1) → x / p ≡ i
div_of_bounds x p i h k = grind arith

page_items-OnePage :
    (n i buf pgsize item_len : ℕ) {a : ℕ}
    → n * item_len ≤ pgsize
    → 0 < item_len
    → Mem a (page_items n 0 (buf + pgsize * i) item_len)
    → OnePage buf pgsize item_len a
page_items-OnePage n i buf pgsize item_len {a} q p m =
    let inside =
      Between-mem item_len (buf + pgsize * i + item_len * 0) (buf + pgsize * (i + 1)) _
        (page_items-Between n 0 (buf + pgsize * i) item_len (buf + pgsize * (i + 1)) (grind arith))
        m in
    div_of_bounds (a - buf) pgsize i (omega arith) (omega arith)
    ∙ sym (div_of_bounds (a + item_len - 1 - buf) pgsize i (omega arith) (omega arith))

pool_items-OnePage :
    (n i per_page buf pgsize item_len : ℕ) {a : ℕ}
    → per_page * item_len ≤ pgsize
    → 0 < item_len
    → Mem a (pool_items n i per_page buf pgsize item_len)
    → OnePage buf pgsize item_len a
pool_items-OnePage zero i per_page buf pgsize item_len q p m = absurd (not-mem-nil m)
pool_items-OnePage (suc n) i per_page buf pgsize item_len q p m =
    Or.elim (ℕ_set _ _) (mem-append.0 m) (page_items-OnePage per_page i buf pgsize item_len q p)
      (pool_items-OnePage n (i + 1) per_page buf pgsize item_len q p)

module _ (buf len pgsize item_len : ℕ) (p : 0 < item_len) (fits : len % pgsize ≡ 0) where
  region_items-Between : Between item_len buf (buf + len) (region_items buf len pgsize item_len)
  region_items-Between = rw start at (
      rw end_of_region at
        (pool_items-Between (len / pgsize) 0 (pgsize / item_len) buf pgsize item_len (grind arith)))
    where
      start : buf + pgsize * 0 ≡ buf
      start = omega arith

      end_of_region : buf + pgsize * (0 + len / pgsize) ≡ buf + len
      end_of_region = grind arith

  -- With a nonzero item length and a region length that is a multiple of the page size, every
  -- item lies whole inside the region and inside one page of it.
  pub region_items_placed :
      (x : ℕ)
      → Mem x (region_items buf len pgsize item_len)
      → (buf ≤ x) × (x + item_len ≤ buf + len) × OnePage buf pgsize item_len x
  region_items_placed x m =
      let inside = Between-mem item_len buf (buf + len) _ region_items-Between m in
      (
        inside.0,
        inside.1,
        pool_items-OnePage (len / pgsize) 0 (pgsize / item_len) buf pgsize item_len (grind arith) p
            m,
      )

  -- No two items of the region share a byte.
  pub region_items-Apart : Pairwise (Apart item_len) (region_items buf len pgsize item_len)
  region_items-Apart = Between-Apart item_len buf (buf + len) _ region_items-Between
