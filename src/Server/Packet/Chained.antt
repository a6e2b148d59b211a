-- ===== src/Server/Packet/Chained.antt =====
-- The zero-copy loop: the chain of mbufs that it builds.
use mlx5_netperf.Prelude.{
  ℕ, suc, ◌+◌, ◌≤◌, ◌<◌, ◌≡◌, refl, sym, ap, ap₂, ◌∙◌, false, Option, some, List, [], ◌∷◌, ◌++◌,
  map, arith, ◌==◌, length,
}
use mlx5_netperf.Prelude.Count.{occurrences, occurrences-append}
use mlx5_netperf.Prelude.Word.{u32, add64}
use mlx5_netperf.Prelude.Outcome.{ok}
use mlx5_netperf.Mbuf.{Mbuf, Release, zero_copy_tx_completion}
use mlx5_netperf.Mempool.{Mempool}
use mlx5_netperf.Mempool.Stack.{IsValid, available}
use mlx5_netperf.Refcnt.{Refcnts}
use mlx5_netperf.Completion.{World}
use mlx5_netperf.Server.{Config}
use mlx5_netperf.Server.Packet.{update, region, link, zero_copy_one, zero_copy_loop}
use mlx5_netperf.Server.Packet.Gathered.{pointed, alloc_step, one_round}
use mlx5_netperf.Server.Packet.Raised.{Room, Raised, raise_step, Raised-cons, raise_zero}

-- What an mbuf sends, and how it is released.
pub record View : Type 0 where
  pub head : ℕ
  pub head_len : ℕ
  pub data_ptr : ℕ
  pub len : ℕ
  pub lkey : ℕ
  pub release : Release
  pub release_data : ℕ

abbrev pub view : Mbuf → View
view b = record {
  head = b.head;
  head_len = b.head_len;
  data_ptr = b.data_ptr;
  len = b.len;
  lkey = b.lkey;
  release = b.release;
  release_data = b.release_data;
}

-- An mbuf for a virtual segment: all of the segment in the working set.
abbrev pub segment_view : Config → ℕ → ℕ → View
segment_view c total v = record {
  head = region c total v;
  head_len = u32 c.segment_size;
  data_ptr = add64 (region c total v) 0;
  len = u32 c.segment_size;
  lkey = c.tx_lkey;
  release = zero_copy_tx_completion;
  release_data = v;
}

-- Each mbuf's `next` is the mbuf behind it; of the last nothing is said.
unfoldable pub Chain : (ℕ → Mbuf) → List ℕ → Type 0
Chain heap [] = Unit
Chain heap (m ∷ []) = Unit
Chain heap (m ∷ x ∷ xs) = ((heap m).next ≡ some x) × Chain heap (x ∷ xs)

abbrev pub joined : (ℕ → Mbuf) → Option ℕ → List ℕ → ℕ → Mbuf
joined heap prev [] = heap
joined heap prev (m ∷ ms) = link heap prev m

abbrev pub Distinct : List ℕ → Type 0
Distinct xs = (a : ℕ) → occurrences a xs ≤ 1

-- The pool `p'` is `p` with `ms` taken, in order.
abbrev pub Taken : List ℕ → Mempool → Mempool → Type 0
Taken ms p p' =
    IsValid p' × (available p ≡ ms ++ available p') × (p'.allocated ≡ p.allocated + length ms)

-- What the loop leaves behind for the segments `vs`, from the world `w` and the mbuf `prev`.
pub record Built (c : Config) (w : World) (prev : Option ℕ) (vs ms : List ℕ) (heap : ℕ → Mbuf)
    (p : Mempool) (r : Refcnts) : Type 0 where
  pub taken : Taken ms w.mbuf_mempool p
  pub views : map (λ m. view (heap m)) ms ≡ map (segment_view c w.refcnts.num_total_segments) vs
  pub chain : Chain heap ms
  pub others : (a : ℕ) → occurrences a ms ≡ 0 → heap a ≡ joined w.heap prev ms a
  pub raised : Raised w.refcnts r vs

update_self : (heap : ℕ → Mbuf) (m : ℕ) (b : Mbuf) → update heap m b m ≡ b
update_self heap m b = ground arith

update_other :
    (heap : ℕ → Mbuf) (m a : ℕ) (b : Mbuf) → (m == a) ≡ false → update heap m b a ≡ heap a
update_other heap m a b h = ground (arith, h)

-- Linking an mbuf to the next changes nothing of what it sends.
view-joined :
    (heap : ℕ → Mbuf) (m : ℕ) (ms : List ℕ) → view (joined heap (some m) ms m) ≡ view (heap m)
view-joined heap m [] = refl
view-joined heap m (x ∷ xs) = ap view (update_self heap m (record (heap m) { next = some x }))

Chain-cons :
    (heap heap₀ : ℕ → Mbuf) (m : ℕ) (ms : List ℕ)
    → heap m ≡ joined heap₀ (some m) ms m
    → Chain heap ms
    → Chain heap (m ∷ ms)
unfolding Chain
Chain-cons heap heap₀ m [] h k = tt
Chain-cons heap heap₀ m (x ∷ xs) h k =
    (ap Mbuf.next (h ∙ update_self heap₀ m (record (heap₀ m) { next = some x })), k)

others_joined :
    (heap : ℕ → Mbuf) (m a : ℕ) (b : Mbuf) (ms : List ℕ)
    → (m == a) ≡ false
    → joined (update heap m b) (some m) ms a ≡ heap a
others_joined heap m a b [] h = update_other heap m a b h
others_joined heap m a b (x ∷ xs) h = ground (arith, h)

loop_step :
    (c : Config) (w w₁ w₂ : World) (checksum checksum₁ checksum₂ v m : ℕ) (prev : Option ℕ)
    (vs ms : List ℕ)
    → zero_copy_one c w checksum prev v ≡ ok (some (m, w₁, checksum₁))
    → zero_copy_loop c w₁ checksum₁ (some m) vs ≡ ok (some ms, w₂, checksum₂)
    → zero_copy_loop c w checksum prev (v ∷ vs) ≡ ok (some (m ∷ ms), w₂, checksum₂)
unfolding zero_copy_loop
loop_step c w w₁ w₂ checksum checksum₁ checksum₂ v m prev vs ms h k = rw (h, k) refl

-- The first round joined to the rest of the loop.
built_cons :
    (c : Config) (w : World) (prev : Option ℕ) (v m : ℕ) (vs ms rest : List ℕ) (heap : ℕ → Mbuf)
    (p₁ p : Mempool) (r₁ r : Refcnts)
    → Distinct (available w.mbuf_mempool)
    → available w.mbuf_mempool ≡ m ∷ rest
    → available p₁ ≡ rest
    → p₁.allocated ≡ suc w.mbuf_mempool.allocated
    → Raised w.refcnts r₁ (v ∷ [])
    → Built c
        (record w {
          heap =
              update
                (link w.heap prev m)
                m
                (pointed c w.refcnts.num_total_segments v (link w.heap prev m m));
          mbuf_mempool = p₁;
          refcnts = r₁;
        })
        (some m)
        vs
        ms
        heap
        p
        r
    → Built c w prev (v ∷ vs) (m ∷ ms) heap p r
built_cons c w prev v m vs ms rest heap p₁ p r₁ r distinct top below count raised b = record {
  taken = (
    b.taken.0,
    top ∙ ap (λ (l : List ℕ). m ∷ l) (sym below ∙ b.taken.1),
    omega (arith, b.taken.2),
  );
  views =
      ap₂ (λ x l. x ∷ l)
        (ap view at_m ∙ view-joined heap₁ m ms ∙ ap view (update_self (link w.heap prev m) m _))
        (b.views ∙ ap (λ t. map (segment_view c t) vs) raised.1);
  chain = Chain-cons heap heap₁ m ms at_m b.chain;
  others = λ a h.
      b.others a (omega (arith, h))
      ∙ others_joined (link w.heap prev m) m a _ ms (ground (arith, h));
  raised = Raised-cons w.refcnts r₁ r v vs raised b.raised;
}
  where
    heap₁ : ℕ → Mbuf
    heap₁ =
        update (link w.heap prev m) m
          (pointed c w.refcnts.num_total_segments v (link w.heap prev m m))

    not_again : occurrences m ms ≡ 0
    not_again = ground (
      arith,
      distinct m,
      ap (occurrences m) top,
      ap (occurrences m) (sym below ∙ b.taken.1),
      occurrences-append ms (available p) m,
    )

    at_m : heap m ≡ joined heap₁ (some m) ms m
    at_m = b.others m not_again

pub first_of : (xs : List ℕ) → 0 < length xs → (x : ℕ) × (rest : List ℕ) × (xs ≡ x ∷ rest)
first_of [] h = elim h [ ]
first_of (x ∷ xs) h = (x, xs, refl)

Distinct-rest :
    (m : ℕ) (rest xs ys : List ℕ) → Distinct xs → xs ≡ m ∷ rest → ys ≡ rest → Distinct ys
Distinct-rest m rest xs ys d h k a = omega (arith, d a, ap (occurrences a) h, ap (occurrences a) k)

enough_rest :
    (n m : ℕ) (rest xs ys : List ℕ) → suc n ≤ length xs → xs ≡ m ∷ rest → ys ≡ rest → n ≤ length ys
enough_rest n m rest xs ys d h k =
    omega (arith, ap (λ (l : List ℕ). length l) h, ap (λ (l : List ℕ). length l) k)

pub zero_copy_loop_lem :
    (vs : List ℕ) (c : Config) (w : World) (checksum : ℕ) (prev : Option ℕ)
    → w.using_ref_counting ≡ 1
    → 0 < w.refcnts.num_total_segments
    → IsValid w.mbuf_mempool
    → Distinct (available w.mbuf_mempool)
    → length vs ≤ length (available w.mbuf_mempool)
    → Room w.refcnts vs
    → (ms : List ℕ) × (heap : ℕ → Mbuf) × (p : Mempool) × (r : Refcnts) × (checksum' : ℕ)
      × (zero_copy_loop c w checksum prev vs
          ≡ ok (some ms, record w { heap = heap; mbuf_mempool = p; refcnts = r }, checksum'))
      × (length ms ≡ length vs)
      × Built c w prev vs ms heap p r
unfolding zero_copy_loop Chain
zero_copy_loop_lem [] c w checksum prev u t valid distinct enough room = (
  [],
  w.heap,
  w.mbuf_mempool,
  w.refcnts,
  checksum,
  refl,
  refl,
  record {
    taken = (valid, refl, omega arith);
    views = refl;
    chain = tt;
    others = λ a h. refl;
    raised = (λ j. sym (raise_zero _), refl);
  },
)
zero_copy_loop_lem (v ∷ vs) c w checksum prev u t valid distinct enough room =
    let (m, rest, top) = first_of (available w.mbuf_mempool) (omega arith) in
    let (p₁, taken, valid₁, below, count) = alloc_step w.mbuf_mempool m rest valid top in
    let (k, r₁, counted, raised, room₁) = raise_step w.refcnts v vs t room in
    let total = w.refcnts.num_total_segments in
    let heap₁ = update (link w.heap prev m) m (pointed c total v (link w.heap prev m m)) in
    let w₁ = record w { heap = heap₁; mbuf_mempool = p₁; refcnts = r₁ } in
    let (ms, heap, p, r, checksum', done, long, built) =
      zero_copy_loop_lem vs c w₁ (add64 checksum k) (some m) u (omega (arith, raised.1)) valid₁
        (Distinct-rest m rest _ _ distinct top below)
        (enough_rest (length vs) m rest _ _ enough top below) room₁ in
    (
      m ∷ ms,
      heap,
      p,
      r,
      checksum',
      loop_step c w w₁ (record w { heap = heap; mbuf_mempool = p; refcnts = r }) checksum
          (add64 checksum k) checksum' v m prev vs ms
          (one_round c w checksum v m k prev p₁ r₁ u t taken counted) done,
      omega (arith, long),
      built_cons c w prev v m vs ms rest heap p₁ p r₁ r distinct top below count raised built,
    )
