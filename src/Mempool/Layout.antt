-- ===== src/Mempool/Layout.antt =====
-- What `mempool_create` builds: the items of every page, in order, none across a page's end.
use mlx5_netperf.Prelude.{
  ℕ, zero, suc, ◌+◌, ◌*◌, ◌/◌, ◌%◌, ◌^◌, ◌≤◌, ◌<◌, ◌≡◌, ◌≢◌, refl, ap, ◌∙◌, Bool, true, false, ◌⊎◌,
  List, [], ◌∷◌, ◌++◌, arith, length, take, drop, replicate, length-append, length-take,
  length-drop, take-append-drop, set-append, length-replicate,
}
use mathlib.Core.List.{append-nil, append_assoc}
use mlx5_netperf.Prelude.Word.{u64}
use mlx5_netperf.Prelude.Outcome.{ok, err, einval, enomem}
use mlx5_netperf.Mempool.{Mempool, blank, put_item, populate_page, populate_pages, create}
use mlx5_netperf.Mempool.Stack.{IsValid, available}
use mlx5_netperf.Stddef.{is_power_of_two}

-- The items from number `j` of the page at `page`: the description that the loops are held to.
abbrev pub page_items : ℕ → ℕ → ℕ → ℕ → List ℕ
page_items zero j page item_len = []
page_items (suc n) j page item_len = (page + item_len * j) ∷ page_items n (j + 1) page item_len

abbrev pub pool_items : ℕ → ℕ → ℕ → ℕ → ℕ → ℕ → List ℕ
pool_items zero i per_page buf pgsize item_len = []
pool_items (suc n) i per_page buf pgsize item_len =
    page_items per_page 0 (buf + pgsize * i) item_len
    ++ pool_items n (i + 1) per_page buf pgsize item_len

pub length-page_items : (n j page item_len : ℕ) → length (page_items n j page item_len) ≡ n
length-page_items zero j page item_len = refl
length-page_items (suc n) j page item_len = ap suc (length-page_items n (j + 1) page item_len)

-- A pool under construction: `xs` is stored, and room for `rest` is left.
abbrev filled : Mempool → List ℕ → List ℕ → Mempool
filled m xs rest = record m { free_items = xs ++ rest; capacity = length xs }

put_item-filled :
    (item : ℕ) (m : Mempool) (xs : List ℕ) (y : ℕ) (rest : List ℕ)
    → length (xs ++ (y ∷ rest)) < 2 ^ 64
    → put_item item (filled m xs (y ∷ rest)) ≡ ok (filled m (xs ++ (item ∷ [])) rest)
unfolding put_item
put_item-filled item m xs y rest h =
    ground
      (arith, set-append xs y item rest, length-append xs (y ∷ rest), length-append xs (item ∷ []))

populate_page-filled :
    (n j page item_len : ℕ) (m : Mempool) (xs ys rest : List ℕ)
    → length ys ≡ n
    → length (xs ++ (ys ++ rest)) < 2 ^ 64
    → page + item_len * (j + n) ≤ 2 ^ 64
    → 0 < item_len
    → populate_page n j page item_len (filled m xs (ys ++ rest))
      ≡ ok (filled m (xs ++ page_items n j page item_len) rest)
unfolding populate_page
populate_page-filled zero j page item_len m xs [] rest e h w p = rw append-nil
populate_page-filled zero j page item_len m xs (y ∷ ys) rest e h w p = absurd (omega arith)
populate_page-filled (suc n) j page item_len m xs [] rest e h w p = absurd (omega arith)
populate_page-filled (suc n) j page item_len m xs (y ∷ ys) rest e h w p =
    rw (fits, put_item-filled (page + item_len * j) m xs y (ys ++ rest) h)
      (populate_page-filled n (j + 1) page item_len m (xs ++ ((page + item_len * j) ∷ [])) ys rest
          (omega arith)
          (omega (
            arith,
            length-append xs (y ∷ (ys ++ rest)),
            length-append (xs ++ ((page + item_len * j) ∷ [])) (ys ++ rest),
            length-append xs ((page + item_len * j) ∷ []),
          ))
          (grind arith) p
        ∙ ap (λ l. ok (filled m l rest))
            (append_assoc xs ((page + item_len * j) ∷ []) (page_items n (j + 1) page item_len)))
  where
    fits : u64 (page + item_len * j) ≡ page + item_len * j
    fits = grind arith

populate_pages-filled :
    (n i per_page buf pgsize item_len : ℕ) (m : Mempool) (xs ys : List ℕ)
    → length ys ≡ n * per_page
    → length (xs ++ ys) < 2 ^ 64
    → buf + pgsize * (i + n) ≤ 2 ^ 64
    → per_page * item_len ≤ pgsize
    → 0 < item_len
    → populate_pages n i per_page buf pgsize item_len (filled m xs ys)
      ≡ ok (filled m (xs ++ pool_items n i per_page buf pgsize item_len) [])
unfolding populate_pages
populate_pages-filled zero i per_page buf pgsize item_len m xs [] e h w q p = simp append-nil
populate_pages-filled zero i per_page buf pgsize item_len m xs (y ∷ ys) e h w q p =
    absurd (omega arith)
populate_pages-filled (suc n) i per_page buf pgsize item_len m xs ys e h w q p =
    rw (← take-append-drop per_page ys, first)
      (populate_pages-filled n (i + 1) per_page buf pgsize item_len m (xs ++ here_items)
          (drop per_page ys) (omega (arith, length-drop per_page ys)) room (grind arith) q p
        ∙ ap (λ l. ok (filled m l []))
            (append_assoc xs here_items (pool_items n (i + 1) per_page buf pgsize item_len)))
  where
    here_items : List ℕ
    here_items = page_items per_page 0 (buf + pgsize * i) item_len

    first :
        populate_page per_page 0
          (buf + pgsize * i)
          item_len
          (filled m xs (take per_page ys ++ drop per_page ys))
        ≡ ok (filled m (xs ++ here_items) (drop per_page ys))
    first =
        populate_page-filled per_page 0 (buf + pgsize * i) item_len m xs (take per_page ys)
          (drop per_page ys) (grind (arith, length-take per_page ys))
          (rw (take-append-drop per_page ys) h) (grind arith) p

    room : length ((xs ++ here_items) ++ drop per_page ys) < 2 ^ 64
    room = omega (
      arith,
      e,
      length-append (xs ++ here_items) (drop per_page ys),
      length-append xs here_items,
      length-append xs ys,
      length-drop per_page ys,
      length-page_items per_page 0 (buf + pgsize * i) item_len,
    )

pub length-pool_items :
    (n i per_page buf pgsize item_len : ℕ)
    → length (pool_items n i per_page buf pgsize item_len) ≡ n * per_page
length-pool_items zero i per_page buf pgsize item_len = omega arith
length-pool_items (suc n) i per_page buf pgsize item_len = omega (
  arith,
  length-append (page_items per_page 0 (buf + pgsize * i) item_len)
      (pool_items n (i + 1) per_page buf pgsize item_len),
  length-page_items per_page 0 (buf + pgsize * i) item_len,
  length-pool_items n (i + 1) per_page buf pgsize item_len,
)

-- The items of a region of `len` bytes at `buf`.
abbrev pub region_items : ℕ → ℕ → ℕ → ℕ → List ℕ
region_items buf len pgsize item_len =
    pool_items (len / pgsize) 0 (pgsize / item_len) buf pgsize item_len

pub create_lem :
    (buf len pgsize item_len : ℕ)
    → 0 < item_len
    → is_power_of_two pgsize ≡ true
    → len % pgsize ≡ 0
    → buf + len < 2 ^ 64
    → (m : Mempool) × (create true blank buf len pgsize item_len ≡ ok m)
      × IsValid m
      × (available m ≡ region_items buf len pgsize item_len)
      × (m.buf ≡ buf)
      × (m.len ≡ len)
      × (m.pgsize ≡ pgsize)
      × (m.item_len ≡ item_len)
unfolding create
create_lem buf len pgsize item_len p pow fits b =
    let made =
      populate_pages-filled (len / pgsize) 0 (pgsize / item_len) buf pgsize item_len started []
        (replicate items 0) (length-replicate items 0) room end_of_region page_room p in
    (
      record started {
        free_items = region_items buf len pgsize item_len ++ [];
        capacity = length (region_items buf len pgsize item_len);
      },
      ground (arith, made),
      record {
        full = rw append-nil;
        within = omega arith;
        small =
            rw (length-pool_items (len / pgsize) 0 (pgsize / item_len) buf pgsize item_len) count;
      },
      append-nil _,
      refl,
      refl,
      refl,
      refl,
    )
  where
    items : ℕ
    items = len / pgsize * (pgsize / item_len)

    started : Mempool
    started = record blank { buf = buf; len = len; pgsize = pgsize; item_len = item_len }

    page_room : pgsize / item_len * item_len ≤ pgsize
    page_room = grind arith

    whole : len / pgsize * pgsize ≡ len
    whole = grind arith

    few : pgsize / item_len ≤ pgsize
    few = grind arith

    count : items < 2 ^ 64
    count = grind (arith, whole, few)

    room : length (replicate {A = ℕ} items 0) < 2 ^ 64
    room = rw (length-replicate items) count

    end_of_region : buf + pgsize * (0 + len / pgsize) ≤ 2 ^ 64
    end_of_region = grind (arith, whole)

-- `mempool_create` refuses a zero item length, a page size that is no power of two, and a length
-- that is no multiple of the page size, with EINVAL.
pub create_einval :
    (calloc_ok : Bool) (m : Mempool) (buf len pgsize item_len : ℕ)
    → (item_len ≡ 0) ⊎ ((is_power_of_two pgsize ≡ false) ⊎ (len % pgsize ≢ 0))
    → create calloc_ok m buf len pgsize item_len ≡ err einval
unfolding create
create_einval calloc_ok m buf len pgsize item_len h = ground arith

-- With valid parameters it gives ENOMEM when the array of free items cannot be allocated.
pub create_enomem :
    (m : Mempool) (buf len pgsize item_len : ℕ)
    → item_len ≢ 0
    → is_power_of_two pgsize ≡ true
    → len % pgsize ≡ 0
    → create false m buf len pgsize item_len ≡ err enomem
unfolding create
create_enomem m buf len pgsize item_len p q r = ground arith
