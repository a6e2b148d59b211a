-- ===== src/Mbufq/Queue.antt =====
-- The operations on a queue of mbufs as those on a list.
use mlx5_netperf.Prelude.{
  ℕ, zero, suc, ◌+◌, ◌≤◌, ◌≡◌, refl, sym, ap, ◌∙◌, false, Option, none, some, List, [], ◌∷◌, ◌++◌,
  arith, ◌==◌, Bool-cases, inl, inr, ==→≡, length,
}
use mathlib.Core.Path.{subst}
use mathlib.Core.List.{append-nil}
use mlx5_netperf.Prelude.Count.{occurrences, occurrences-append, last, last_occurs, absent}
use mlx5_netperf.Prelude.Outcome.{ok}
use mlx5_netperf.Mbufq.{Mbufq, Links, set_next, push_tail, pop_head, merge_to_tail, release}

-- The addresses along the links, from one on.
unfoldable pub Reaches : Links → Option ℕ → List ℕ → Type 0
Reaches next start [] = start ≡ none
Reaches next start (m ∷ ms) = (start ≡ some m) × Reaches next (next m) ms

-- Where the tail has to be.
unfoldable pub EndsAt : ℕ → List ℕ → Type 0
EndsAt t [] = Unit
EndsAt t (m ∷ ms) = t ≡ last m ms

-- The queue holds the mbufs `ms`, in order, each once.
pub record Holds (next : Links) (q : Mbufq) (ms : List ℕ) : Type 0 where
  pub reaches : Reaches next q.head ms
  pub ends : EndsAt q.tail ms
  pub once : (a : ℕ) → occurrences a ms ≤ 1

-- A link of an mbuf outside a list does not matter to it.
elsewhere :
    (next : Links) (start : Option ℕ) (ms : List ℕ) (a : ℕ) (v : Option ℕ)
    → occurrences a ms ≡ 0
    → Reaches next start ms
    → Reaches (set_next next a v) start ms
unfolding Reaches
elsewhere next start [] a v h r = r
elsewhere next start (m ∷ ms) a v h (here, r) =
    let other : (m == a) ≡ false = ground (arith, h) in
    (here, rw other (elsewhere next (next m) ms a v (omega (arith, h)) r))

-- A list whose last link is set goes on with what that link reaches.
extended :
    (next : Links) (start v : Option ℕ) (m : ℕ) (ms zs : List ℕ)
    → ((a : ℕ) → occurrences a (m ∷ ms) ≤ 1)
    → Reaches next start (m ∷ ms)
    → Reaches (set_next next (last m ms) v) v zs
    → Reaches (set_next next (last m ms) v) start ((m ∷ ms) ++ zs)
unfolding Reaches
extended next start v m [] zs once (here, r) later =
    let set : set_next next m v m ≡ v = ground arith in
    (here, subst (λ t. Reaches (set_next next m v) t zs) (sym set) later)
extended next start v m (x ∷ xs) zs once (here, r) later =
    let not_last = absent m (last x xs) (x ∷ xs) (ground (arith, once m)) (last_occurs x xs) in
    let same : set_next next (last x xs) v m ≡ next m = rw not_last refl in
    let rest = extended next (next m) v x xs zs (λ a. omega (arith, once a)) r later in
    (here, (same ∙ r.0, rest.1))

last-append : (m x : ℕ) (ms xs : List ℕ) → last m (ms ++ (x ∷ xs)) ≡ last x xs
last-append m x [] xs = refl
last-append m x (y ∷ ys) xs = last-append y x ys xs

-- Lists that share no mbuf, joined.
once-append :
    (xs ys : List ℕ)
    → ((a : ℕ) → occurrences a xs + occurrences a ys ≤ 1)
    → (a : ℕ) → occurrences a (xs ++ ys) ≤ 1
once-append xs ys h a = omega (arith, h a, occurrences-append xs ys a)

-- Two lists whose first's last link is set to the second's start.
joined :
    (next : Links) (start : Option ℕ) (x y : ℕ) (xs ys : List ℕ)
    → ((a : ℕ) → occurrences a (x ∷ xs) + occurrences a (y ∷ ys) ≤ 1)
    → Reaches next start (x ∷ xs)
    → Reaches next (some y) (y ∷ ys)
    → Reaches (set_next next (last x xs) (some y)) start ((x ∷ xs) ++ (y ∷ ys))
joined next start x y xs ys apart r r' =
    extended next start (some y) x xs (y ∷ ys) (λ a. omega (arith, apart a)) r
      (elsewhere next (some y) (y ∷ ys) (last x xs) (some y)
        (omega (arith, apart (last x xs), last_occurs x xs)) r')

apart_one :
    (m : ℕ) (ms : List ℕ)
    → ((a : ℕ) → occurrences a ms ≤ 1)
    → occurrences m ms ≡ 0
    → (a : ℕ) → occurrences a ms + occurrences a (m ∷ []) ≤ 1
apart_one m ms once h a = elim (Bool-cases (m == a)) [
  | inl same ↦ ground (arith, h, ap (λ t. occurrences t ms) (==→≡ m a same))
  | inr other ↦ ground (arith, other, once a)
]

pushed :
    (next : Links) (q : Mbufq) (ms : List ℕ) (m : ℕ)
    → Holds next q ms
    → occurrences m ms ≡ 0
    → (next' : Links) × (q' : Mbufq) × (push_tail next q m ≡ (next', q'))
      × Holds next' q' (ms ++ (m ∷ []))
unfolding push_tail Reaches EndsAt
pushed next q [] m h outside = (
  set_next next m none,
  record { head = some m; tail = m },
  rw h.reaches refl,
  record { reaches = (refl, ground arith); ends = refl; once = λ a. ground arith },
)
pushed next q (x ∷ xs) m h outside =
    let cut = set_next next m none in
    let ended : cut m ≡ none = ground arith in
    let apart = apart_one m (x ∷ xs) h.once outside in
    let chain =
      joined cut q.head x m xs [] apart (elsewhere next q.head (x ∷ xs) m none outside h.reaches)
        (refl, ended) in
    (
      set_next cut q.tail (some m),
      record q { tail = m },
      rw h.reaches.0 refl,
      record {
        reaches =
            subst (λ t. Reaches (set_next cut t (some m)) q.head ((x ∷ xs) ++ (m ∷ [])))
              (sym h.ends) chain;
        ends = sym (last-append x m xs []);
        once = once-append (x ∷ xs) (m ∷ []) apart;
      },
    )

-- What a queue holds behind its first mbuf.
behind :
    (next : Links) (q : Mbufq) (x : ℕ) (xs : List ℕ)
    → Holds next q (x ∷ xs)
    → Holds next (record { head = next x; tail = q.tail }) xs
unfolding Reaches EndsAt
behind next q x [] h = record { reaches = h.reaches.1; ends = tt; once = λ a. omega arith }
behind next q x (y ∷ ys) h = record {
  reaches = h.reaches.1;
  ends = h.ends;
  once = λ a. omega (arith, h.once a);
}

popped :
    (next : Links) (q : Mbufq) (x : ℕ) (xs : List ℕ)
    → Holds next q (x ∷ xs)
    → (q' : Mbufq) × (pop_head next q ≡ (some x, q')) × Holds next q' xs
unfolding pop_head Reaches
popped next q x xs h = (record q { head = next x }, rw h.reaches.0 refl, behind next q x xs h)

-- Pushing an mbuf that is not in the queue appends it to what the queue holds, and popping takes
-- the first mbuf: the queue is a list that is first in, first out.
pub queue_refines :
    (next : Links) (q : Mbufq) (ms : List ℕ) (m : ℕ)
    → Holds next q ms
    → occurrences m ms ≡ 0
    → (next' : Links) × (q' q'' : Mbufq) × (first : ℕ) × (rest : List ℕ) × (push_tail next q m
        ≡ (next', q'))
      × Holds next' q' (ms ++ (m ∷ []))
      × (ms ++ (m ∷ []) ≡ first ∷ rest)
      × (pop_head next' q' ≡ (some first, q''))
      × Holds next' q'' rest
queue_refines next q [] m h outside =
    let (next', q', done, holds) = pushed next q [] m h outside in
    let (q'', done', holds') = popped next' q' m [] holds in
    (next', q', q'', m, [], done, holds, refl, done', holds')
queue_refines next q (x ∷ xs) m h outside =
    let (next', q', done, holds) = pushed next q (x ∷ xs) m h outside in
    let (q'', done', holds') = popped next' q' x (xs ++ (m ∷ [])) holds in
    (next', q', q'', x, xs ++ (m ∷ []), done, holds, refl, done', holds')

-- Merging two queues that share no mbuf puts the source's mbufs behind the destination's, and
-- leaves the source empty.
pub merge_to_tail_lem :
    (next : Links) (dst src : Mbufq) (xs ys : List ℕ)
    → Holds next dst xs
    → Holds next src ys
    → ((a : ℕ) → occurrences a xs + occurrences a ys ≤ 1)
    → (next' : Links) × (dst' src' : Mbufq) × (merge_to_tail next dst src ≡ (next', dst', src'))
      × Holds next' dst' (xs ++ ys)
      × (src'.head ≡ none)
unfolding merge_to_tail Reaches EndsAt
merge_to_tail_lem next dst src xs [] h k apart =
    (next, dst, src, rw k.reaches refl, rw (append-nil xs) h, k.reaches)
merge_to_tail_lem next dst src [] (y ∷ ys) h k apart = (
  next,
  record { head = some y; tail = src.tail },
  record src { head = none },
  rw (k.reaches.0, h.reaches) refl,
  record { reaches = (refl, k.reaches.1); ends = k.ends; once = k.once },
  refl,
)
merge_to_tail_lem next dst src (x ∷ xs) (y ∷ ys) h k apart = (
  set_next next dst.tail (some y),
  record dst { tail = src.tail },
  record src { head = none },
  rw (k.reaches.0, h.reaches.0) refl,
  record {
    reaches =
        subst (λ t. Reaches (set_next next t (some y)) dst.head ((x ∷ xs) ++ (y ∷ ys))) (sym h.ends)
          (joined next dst.head x y xs ys apart h.reaches (refl, k.reaches.1));
    ends = k.ends ∙ sym (last-append x y xs ys);
    once = once-append (x ∷ xs) (y ∷ ys) apart;
  },
  refl,
)

released_one :
    (rounds t m : ℕ) (next : Links) (ms : List ℕ)
    → release rounds next (record { head = next m; tail = t }) ≡ ok ms
    → release (suc rounds) next (record { head = some m; tail = t }) ≡ ok (m ∷ ms)
unfolding release
released_one rounds t m next ms k = rw k refl

none_left :
    (rounds t : ℕ) (next : Links) → release rounds next (record { head = none; tail = t }) ≡ ok []
unfolding release
none_left zero t next = refl
none_left (suc rounds) t next = refl

-- `mbufq_release` ends, after as many rounds as the queue holds mbufs, and frees each of them once,
-- in order.
pub release_lem :
    (ms : List ℕ) (rounds : ℕ) (next : Links) (q : Mbufq)
    → Holds next q ms
    → length ms ≤ rounds
    → release rounds next q ≡ ok ms
unfolding Reaches pop_head
release_lem [] rounds next q h b =
    subst (λ t. release rounds next (record { head = t; tail = q.tail }) ≡ ok []) (sym h.reaches)
      (none_left rounds q.tail next)
release_lem (m ∷ ms) zero next q h b = elim b [ ]
release_lem (m ∷ ms) (suc rounds) next q h b =
    subst (λ t. release (suc rounds) next (record { head = t; tail = q.tail }) ≡ ok (m ∷ ms))
      (sym h.reaches.0)
      (released_one rounds q.tail m next ms (
        release_lem ms rounds next (record { head = next m; tail = q.tail }) (behind next q m ms h)
          (omega arith)))
