-- ===== src/Mempool/Clients.antt =====
-- The pool as its clients use it: any sequence of `mempool_alloc` and `mempool_free` calls in
-- which only items that are held are given back.
use mathlib.Core.List.{Perm, Pairwise, perm_middle, Pairwise-append}
use mathlib.Core.List.Perm
use native.Mathlib.Decide.{ℕ_discrete}
use mathlib.Core.Path.{subst}
use mlx5_netperf.Prelude.{
  refl, ℕ, ◌+◌, ◌%◌, ◌^◌, ◌<◌, ◌≡◌, ◌∙◌, sym, ap, none, some, List, [], ◌∷◌, ◌++◌, arith, true,
}
use mlx5_netperf.Prelude.Outcome.{ok}
use mlx5_netperf.Stddef.{is_power_of_two}
use mlx5_netperf.Mempool.{Mempool, blank, create, alloc, free}
use mlx5_netperf.Mempool.Stack.{IsValid, available, pop, alloc_refines, free_refines, free_none}
use mlx5_netperf.Mempool.Layout.{create_lem}
use mlx5_netperf.Mempool.Place.{Apart, Apart-prop, Apart-sym, region_items-Apart}

-- What clients can do to the pool `start`: the items that they hold, and the pool, after it.
pub data Uses (start : Mempool) : List ℕ → Mempool → Type 0 where
  begin : Uses start [] start
  take_item :
      {held : List ℕ} {m : Mempool} (item : ℕ) (m' : Mempool)
      → Uses start held m
      → alloc m ≡ ok (some item, m')
      → Uses start (item ∷ held) m'
  find_empty :
      {held : List ℕ} {m : Mempool} (m' : Mempool)
      → Uses start held m
      → alloc m ≡ ok (none, m')
      → Uses start held m'
  give_back :
      {held : List ℕ} {m : Mempool} (before after rest : List ℕ) (item : ℕ) (m' : Mempool)
      → Uses start held m
      → held ≡ before ++ (item ∷ after)
      → rest ≡ before ++ after
      → free m item ≡ ok m'
      → Uses start rest m'

-- The items held and the items free are together those that were free at the start.
pub record Conserves (start : Mempool) (held : List ℕ) (m : Mempool) : Type 0 where
  pub valid : IsValid m
  pub same : Perm (held ++ available m) (available start)

pop-some : (xs : List ℕ) {x : ℕ} → (pop xs).0 ≡ some x → xs ≡ x ∷ (pop xs).1
pop-some [] h = cc
pop-some (y ∷ xs) h = cc

pop-none : (xs : List ℕ) → (pop xs).0 ≡ none → (pop xs).1 ≡ xs
pop-none [] h = refl
pop-none (y ∷ xs) h = cc

module _ {start m m' : Mempool} {held : List ℕ} (c : Conserves start held m) where
  take_item-Conserves : (item : ℕ) → alloc m ≡ ok (some item, m') → Conserves start (item ∷ held) m'
  take_item-Conserves item e =
      let (n, made, valid, left) = alloc_refines m c.valid in
      let same_pool : n ≡ m' = cc (made, e) in
      let popped : available m ≡ item ∷ available m' =
        pop-some (available m) (cc (made, e))
        ∙ ap (λ l. item ∷ l) (sym left ∙ ap available same_pool) in
      record {
        valid = subst IsValid same_pool valid;
        same =
            Perm.trans (Perm.symm (perm_middle held (available m')))
              (subst (λ l. Perm (held ++ l) (available start)) popped c.same);
      }

  find_empty-Conserves : alloc m ≡ ok (none, m') → Conserves start held m'
  find_empty-Conserves e =
      let (n, made, valid, left) = alloc_refines m c.valid in
      let same_pool : n ≡ m' = cc (made, e) in
      let unchanged : available m ≡ available m' =
        sym (pop-none (available m) (cc (made, e))) ∙ sym left ∙ ap available same_pool in
      record {
        valid = subst IsValid same_pool valid;
        same = subst (λ l. Perm (held ++ l) (available start)) unchanged c.same;
      }

  give_back-Conserves :
      (before after : List ℕ) (item : ℕ)
      → held ≡ before ++ (item ∷ after)
      → free m item ≡ ok m'
      → Conserves start (before ++ after) m'
  give_back-Conserves before after item h e = elim (ℕ_discrete m.allocated 0) [
    | yes none_out ↦ let refused = free_none m item c.valid none_out in absurd (cc (refused, e))
    | no some_out ↦
        let (n, made, valid, left) = free_refines m item c.valid (omega arith) in
        let same_pool : n ≡ m' = cc (made, e) in
        let pushed : available m' ≡ item ∷ available m = sym (ap available same_pool) ∙ left in
        record {
          valid = subst IsValid same_pool valid;
          same = rw pushed (
              Perm.trans (perm_middle (before ++ after) (available m)) (
                Perm.trans (Perm.append_right (available m) (Perm.symm (perm_middle before after)))
                  (subst (λ l. Perm (l ++ available m) (available start)) h c.same)));
        }
  ]

Uses-Conserves :
    {start m : Mempool} {held : List ℕ} → IsValid start → Uses start held m → Conserves start held m
Uses-Conserves v begin = record { valid = v; same = Perm.refl _ }
Uses-Conserves v (take_item item m' u e) = take_item-Conserves (Uses-Conserves v u) item e
Uses-Conserves v (find_empty m' u e) = find_empty-Conserves (Uses-Conserves v u) e
Uses-Conserves v (give_back before after rest item m' u h r e) =
    rw r (give_back-Conserves (Uses-Conserves v u) before after item h e)

-- Whatever sequence of calls brings a valid pool to `m` with the items `held` taken out, the pool
-- is valid, and the held items together with the free ones are a permutation of the items that
-- were free at first: none is lost and none is handed out twice.
pub Uses_lem :
    (start m : Mempool) (held : List ℕ)
    → IsValid start
    → Uses start held m
    → IsValid m × Perm (held ++ available m) (available start)
Uses_lem start m held v u = let c = Uses-Conserves v u in (c.valid, c.same)

-- In a pool that `mempool_create` made over a region, items held at the same time never share a
-- byte, after any sequence of calls.
pub held-Apart :
    (buf len pgsize item_len : ℕ) (start m : Mempool) (held : List ℕ)
    → 0 < item_len
    → is_power_of_two pgsize ≡ true
    → len % pgsize ≡ 0
    → buf + len < 2 ^ 64
    → create true blank buf len pgsize item_len ≡ ok start
    → Uses start held m
    → Pairwise (Apart item_len) held
held-Apart buf len pgsize item_len start m held p pow fits b made u =
    let (pool, e, valid, items, _, _, _, _) = create_lem buf len pgsize item_len p pow fits b in
    let same_pool : pool ≡ start = cc (e, made) in
    let c = Uses_lem start m held (subst IsValid same_pool valid) u in
    let apart : Pairwise (Apart item_len) (available start) =
      subst (Pairwise (Apart item_len)) (sym items ∙ ap available same_pool)
        (region_items-Apart buf len pgsize item_len p fits) in
    ((Pairwise-append (Apart-prop item_len)).0
      (Perm.pairwise (Apart-prop item_len) (Apart-sym item_len) (Perm.symm c.1) apart)).0
