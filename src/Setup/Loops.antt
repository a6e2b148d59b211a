-- ===== src/Setup/Loops.antt =====
-- The loops of the receive queue's setup: one fills its slots, the other hands over the
-- completions.
use mathlib.Core.List.{append_assoc}
use native.Mathlib.Decide.{dec_lt}
use native.Mathlib.Nat.{add-zero}
use mlx5_netperf.Prelude.{
  ℕ, zero, suc, ◌+◌, ◌^◌, ◌<◌, ◌≡◌, refl, ◌∙◌, ap, some, List, [], ◌∷◌, ◌++◌, map, arith, true, ltb,
  length, length-append, set, set-append, get_elem?, get_elem?-of_lt, drop-eq-cons, drop_all,
}
use mlx5_netperf.Prelude.Word.{u32, add32}
use mlx5_netperf.Prelude.Outcome.{ok}
use mlx5_netperf.Mbuf.{Mbuf}
use mlx5_netperf.Mempool.{Mempool, alloc}
use mlx5_netperf.Mempool.Stack.{IsValid, available}
use mlx5_netperf.Rx.{RxCqe, update}
use mlx5_netperf.Rx.Refill.{packet_addr}
use mlx5_netperf.Setup.{RxSetup, rx_byte_count, fill_queue, hand_over}

-- The pool with `n` items more allocated.
abbrev pub taken : ℕ → Mempool → Mempool
taken n p = record p { allocated = p.allocated + n }

alloc_next :
    (p : Mempool) (x : ℕ) (ys : List ℕ)
    → IsValid p
    → available p ≡ x ∷ ys
    → (alloc p ≡ ok (some x, taken 1 p)) × IsValid (taken 1 p) × (available (taken 1 p) ≡ ys)
unfolding alloc
alloc_next p x ys v a = elim (dec_lt p.allocated p.capacity) [
  | yes h ↦
      let (item, e) = get_elem?-of_lt p.free_items p.allocated (omega arith) in
      let popped = drop-eq-cons p.allocated p.free_items e in
      (ground (arith, popped, a), ground arith, ground (arith, popped, a))
  | no h ↦ ground (arith, drop_all p.allocated p.free_items, a)
]

-- The mbufs at `xs` with the length of the pool's items.
abbrev pub sized : ℕ → List ℕ → (ℕ → Mbuf) → ℕ → Mbuf
sized item_len [] heap = heap
sized item_len (x ∷ xs) heap =
    sized item_len xs (update heap x (record (heap x) { head_len = u32 item_len }))

-- The setup `r` with what the loop changes.
abbrev pub at : RxSetup → Mempool → (ℕ → Mbuf) → ℕ → List (ℕ × ℕ) → List ℕ → List ℕ → RxSetup
at r pool heap head segments addrs buffers = record r {
  rx = record (r.rx) {
    pool = pool;
    heap = heap;
    rxq = record (r.rx.rxq) { wq_head = head; addrs = addrs; buffers = buffers };
  };
  segments = segments;
}

abbrev pub segment : ℕ → ℕ × ℕ
segment lkey = (rx_byte_count, u32 lkey)

-- A store of `v` behind `before`, at the position given by the length.
set_behind :
    {A : Type 0} (before : List A) (y v : A) (behind : List A) (i : ℕ)
    → length before ≡ i
    → set (before ++ (y ∷ behind)) i v ≡ (before ++ (v ∷ [])) ++ behind
set_behind before y v behind i e = rw (← e) (set-append before y v behind)

inside :
    {A : Type 0} (before : List A) (y : A) (behind : List A) (i : ℕ)
    → length before ≡ i
    → ltb i (length (before ++ (y ∷ behind))) ≡ true
inside before y behind i e = ground (arith, length-append before (y ∷ behind))

fill_step :
    (r : RxSetup) (pool : Mempool) (heap : ℕ → Mbuf) (head i lkey x left : ℕ) (ss : List (ℕ × ℕ))
    (qs bs : List ℕ) (s : ℕ × ℕ) (a b : ℕ) (ss' : List (ℕ × ℕ)) (qs' bs' : List ℕ)
    → length ss ≡ i
    → length qs ≡ i
    → length bs ≡ i
    → alloc pool ≡ ok (some x, taken 1 pool)
    → fill_queue
        (suc left)
        i
        lkey
        (at r pool heap head (ss ++ (s ∷ ss')) (qs ++ (a ∷ qs')) (bs ++ (b ∷ bs')))
      ≡ fill_queue left (i + 1) lkey (
          at r
            (taken 1 pool)
            (update heap x (record (heap x) { head_len = u32 pool.item_len }))
            (add32 head 1)
            ((ss ++ (segment lkey ∷ [])) ++ ss')
            ((qs ++ (packet_addr x ∷ [])) ++ qs')
            ((bs ++ (x ∷ [])) ++ bs'))
unfolding fill_queue
fill_step r pool heap head i lkey x left ss qs bs s a b ss' qs' bs' ls la lb got =
    rw
      (
        inside ss s ss' i ls,
        got,
        inside qs a qs' i la,
        inside bs b bs' i lb,
        set_behind ss s (segment lkey) ss' i ls,
        set_behind qs a (packet_addr x) qs' i la,
        set_behind bs b x bs' i lb,
      )
      refl

length_one_more :
    {A : Type 0} (xs : List A) (x : A) (i : ℕ) → length xs ≡ i → length (xs ++ (x ∷ [])) ≡ i + 1
length_one_more xs x i e = omega (arith, length-append xs (x ∷ []))

-- What the loop makes of the setup when it posts `xs` behind what is in the rings already.
abbrev pub after :
    RxSetup → Mempool → (ℕ → Mbuf) → ℕ → ℕ → List ℕ → List (ℕ × ℕ) → List ℕ → List ℕ → RxSetup
after r pool heap head lkey xs ss qs bs =
    at r (taken (length xs) pool) (sized pool.item_len xs heap) (u32 (head + length xs))
      (ss ++ map (λ _. segment lkey) xs) (qs ++ map packet_addr xs) (bs ++ xs)

pub fill_queue_lem :
    (xs rest : List ℕ) (r : RxSetup) (pool : Mempool) (heap : ℕ → Mbuf) (head i lkey : ℕ)
    (ss : List (ℕ × ℕ)) (qs bs : List ℕ) (ss' : List (ℕ × ℕ)) (qs' bs' : List ℕ)
    → IsValid pool
    → available pool ≡ xs ++ rest
    → head < 2 ^ 32
    → length ss ≡ i
    → length qs ≡ i
    → length bs ≡ i
    → length ss' ≡ length xs
    → length qs' ≡ length xs
    → length bs' ≡ length xs
    → (fill_queue (length xs) i lkey (at r pool heap head (ss ++ ss') (qs ++ qs') (bs ++ bs'))
        ≡ ok (after r pool heap head lkey xs ss qs bs))
      × IsValid (taken (length xs) pool)
      × (available (taken (length xs) pool) ≡ rest)
unfolding fill_queue
fill_queue_lem [] rest r pool heap head i lkey ss qs bs [] [] [] v a h ls lq lb es eq eb = (
  let no_wrap : u32 head ≡ head = omega arith in
      rw (add-zero head, add-zero pool.allocated, no_wrap) refl,
  ground arith,
  rw add-zero a,
)
fill_queue_lem [] rest r pool heap head i lkey ss qs bs (s ∷ ss') qs' bs' v a h ls lq lb es eq eb =
    absurd (omega arith)
fill_queue_lem [] rest r pool heap head i lkey ss qs bs [] (q ∷ qs') bs' v a h ls lq lb es eq eb =
    absurd (omega arith)
fill_queue_lem [] rest r pool heap head i lkey ss qs bs [] [] (b ∷ bs') v a h ls lq lb es eq eb =
    absurd (omega arith)
fill_queue_lem (x ∷ xs) rest r pool heap head i lkey ss qs bs [] qs' bs' v a h ls lq lb es eq eb =
    absurd (omega arith)
fill_queue_lem (x ∷ xs) rest r pool heap head i lkey ss qs bs (s ∷ ss') [] bs' v a h ls lq lb es eq
      eb =
    absurd (omega arith)
fill_queue_lem (x ∷ xs) rest r pool heap head i lkey ss qs bs (s ∷ ss') (q ∷ qs') [] v a h ls lq lb
      es eq eb =
    absurd (omega arith)
fill_queue_lem (x ∷ xs) rest r pool heap head i lkey ss qs bs (s ∷ ss') (q ∷ qs') (b ∷ bs') v a h ls
      lq lb es eq eb =
    let (got, valid, left_over) = alloc_next pool x (xs ++ rest) v a in
    let (done, valid', remaining) =
      fill_queue_lem xs rest r (taken 1 pool)
        (update heap x (record (heap x) { head_len = u32 pool.item_len })) (add32 head 1) (i + 1)
        lkey (ss ++ (segment lkey ∷ [])) (qs ++ (packet_addr x ∷ [])) (bs ++ (x ∷ [])) ss' qs' bs'
        valid left_over (omega arith) (length_one_more ss (segment lkey) i ls)
        (length_one_more qs (packet_addr x) i lq) (length_one_more bs x i lb) (omega arith)
        (omega arith) (omega arith) in
    let count : pool.allocated + 1 + length xs ≡ pool.allocated + suc (length xs) = omega arith in
    let whole : u32 (add32 head 1 + length xs) ≡ u32 (head + suc (length xs)) = omega arith in
    (
      fill_step r pool heap head i lkey x (length xs) ss qs bs s q b ss' qs' bs' ls lq lb got
          ∙ done
          ∙ rw (count, whole, append_assoc ss, append_assoc qs, append_assoc bs) refl,
      rw count at valid',
      rw count at remaining,
    )

-- The completion with its owner bit set.
abbrev pub owned : (ℕ → ℕ → ℕ) → RxCqe → RxCqe
owned set_cqe_owner c = record c { cqe = record (c.cqe) { op_own = set_cqe_owner c.cqe.op_own 1 } }

get_behind :
    {A : Type 0} (before : List A) (y : A) (behind : List A) (i : ℕ)
    → length before ≡ i
    → get_elem? (before ++ (y ∷ behind)) i ≡ some y
get_behind [] y behind zero e = refl
get_behind [] y behind (suc i) e = absurd (omega arith)
get_behind (x ∷ before) y behind zero e = absurd (omega arith)
get_behind (x ∷ before) y behind (suc i) e = get_behind before y behind i (omega arith)

hand_over_step :
    (set_cqe_owner : ℕ → ℕ → ℕ) (i left : ℕ) (given : List RxCqe) (c : RxCqe) (cqes : List RxCqe)
    → length given ≡ i
    → hand_over set_cqe_owner (suc left) i (given ++ (c ∷ cqes))
      ≡ hand_over set_cqe_owner left (i + 1) ((given ++ (owned set_cqe_owner c ∷ [])) ++ cqes)
unfolding hand_over
hand_over_step set_cqe_owner i left given c cqes e =
    rw (get_behind given c cqes i e, hand_over)
      (rw (set_behind given c (owned set_cqe_owner c) cqes i e) refl)

pub hand_over_lem :
    (set_cqe_owner : ℕ → ℕ → ℕ) (i : ℕ) (given cqes : List RxCqe)
    → length given ≡ i
    → hand_over set_cqe_owner (length cqes) i (given ++ cqes)
      ≡ ok (given ++ map (owned set_cqe_owner) cqes)
unfolding hand_over
hand_over_lem set_cqe_owner i given [] e = refl
hand_over_lem set_cqe_owner i given (c ∷ cqes) e =
    let c' = owned set_cqe_owner c in
    hand_over_step set_cqe_owner i (length cqes) given c cqes e
    ∙ hand_over_lem set_cqe_owner (i + 1) (given ++ (c' ∷ [])) cqes (length_one_more given c' i e)
    ∙ ap ok (append_assoc given (c' ∷ []) (map (owned set_cqe_owner) cqes))
