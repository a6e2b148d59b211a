-- ===== src/Rx/Refill.antt =====
-- What a refill posts: the free buffers of the pool, in order, round the ring.
use native.Mathlib.Decide.{dec_lt}
use native.Mathlib.Nat.{one-le-pow, mod-add-mod}
use mlx5_netperf.Prelude.Update.{get_elem?-set}
use mlx5_netperf.Prelude.Bits.{bit_and_ones, mod_of_wrap}
use mlx5_netperf.Prelude.{
  ℕ, suc, ◌+◌, ◌%◌, ◌^◌, ◌≤◌, ◌<◌, ◌≡◌, refl, sym, ◌∙◌, ap, some, List, [], ◌∷◌, ◌++◌, map, arith,
  true, ltb, length, length-map, set, length-set, get_elem?-of_lt,
}
use mlx5_netperf.Prelude.Word.{u16, u32, u64, add32}
use mlx5_netperf.Prelude.Outcome.{ok}
use mlx5_netperf.Mempool.{Mempool, alloc}
use mlx5_netperf.Mempool.Stack.{IsValid, available, pop, alloc_refines}
use mlx5_netperf.Tx.Ring.Inline.{Written, distance_before, distance_after}
use mlx5_netperf.Tx.Ring.Scatter.{followed_by}
use mlx5_netperf.Rx.{RxState, rx_buf_head, update, post_buffer, refill_loop, refill_rxqueue}

-- A store of one element is a write round the ring.
Written-one : (buf : List ℕ) (i x : ℕ) → i < length buf → Written buf i (x ∷ []) (set buf i x)
Written-one buf i x h =
    let (old, there) = get_elem?-of_lt buf i h in
    (
      length-set buf i x,
      λ j. elim (dec_lt j i) [
        | yes p ↦
            ground (arith, get_elem?-set buf i j x there, distance_before j (length buf) i p h)
        | no p ↦ elim (dec_lt j (length buf)) [
          | yes q ↦ ground (
            arith,
            get_elem?-set buf i j x there,
            distance_after j (length buf) i (omega arith) q,
          )
          | no q ↦ ground (arith, get_elem?-set buf i j x there)
        ]
      ],
    )

-- A receive queue of 2^k slots over a valid pool.
pub record IsReady (s : RxState) (k : ℕ) : Type 0 where
  pub power : s.rxq.wqe_cnt ≡ 2 ^ k
  pub slots : length s.rxq.buffers ≡ 2 ^ k
  pub segments : length s.rxq.addrs ≡ 2 ^ k
  pub head_is_32_bits : s.rxq.wq_head < 2 ^ 32
  pub small : k ≤ 32
  pub pool_is_valid : IsValid s.pool

abbrev pub packet_addr : ℕ → ℕ
packet_addr buf = u64 (buf + rx_buf_head)

-- `s'` is `s` with the buffers `xs` posted.
abbrev pub Posted : ℕ → List ℕ → RxState → RxState → Type 0
Posted k xs s s' =
    Written s.rxq.buffers (s.rxq.wq_head % 2 ^ k) xs s'.rxq.buffers
    × Written s.rxq.addrs (s.rxq.wq_head % 2 ^ k) (map packet_addr xs) s'.rxq.addrs
    × (s'.rxq.wq_head ≡ u32 (s.rxq.wq_head + length xs))

-- The state with one buffer more posted.
abbrev posted : RxState → ℕ → ℕ → RxState
posted s k buf = record s {
  heap = update s.heap buf (record (s.heap buf) { head_len = u32 s.pool.item_len });
  rxq = record (s.rxq) {
    wq_head = add32 s.rxq.wq_head 1;
    addrs = set s.rxq.addrs (s.rxq.wq_head % 2 ^ k) (packet_addr buf);
    buffers = set s.rxq.buffers (s.rxq.wq_head % 2 ^ k) buf;
  };
}

in_ring : (head k : ℕ) → head % 2 ^ k < 2 ^ k
in_ring head k = omega (arith, one-le-pow k 2 (omega arith))

post_lem : (s : RxState) (k buf : ℕ) → IsReady s k → post_buffer s buf ≡ ok (posted s k buf)
unfolding post_buffer
post_lem s k buf ready =
    let inside : ltb (s.rxq.wq_head % 2 ^ k) (2 ^ k) ≡ true =
      ground (arith, in_ring s.rxq.wq_head k) in
    rw (ready.power, bit_and_ones k s.rxq.wq_head, ready.slots, ready.segments, inside) refl

posted-IsReady :
    (s : RxState) (k buf : ℕ) (pool : Mempool)
    → IsReady s k
    → IsValid pool
    → IsReady (posted (record s { pool = pool }) k buf) k
posted-IsReady s k buf pool ready valid = record {
  power = ready.power;
  slots = length-set s.rxq.buffers (s.rxq.wq_head % 2 ^ k) buf ∙ ready.slots;
  segments = length-set s.rxq.addrs (s.rxq.wq_head % 2 ^ k) (packet_addr buf) ∙ ready.segments;
  head_is_32_bits = omega arith;
  small = ready.small;
  pool_is_valid = valid;
}

refill_step :
    (s : RxState) (k x left : ℕ) (pool : Mempool)
    → IsReady s k
    → IsValid pool
    → alloc s.pool ≡ ok (some x, pool)
    → refill_loop (suc left) s ≡ refill_loop left (posted (record s { pool = pool }) k x)
unfolding refill_loop
refill_step s k x left pool ready valid taken =
    let ready₁ : IsReady (record s { pool = pool }) k = record {
      power = ready.power;
      slots = ready.slots;
      segments = ready.segments;
      head_is_32_bits = ready.head_is_32_bits;
      small = ready.small;
      pool_is_valid = valid;
    } in
    rw (taken, post_lem (record s { pool = pool }) k x ready₁) refl

shift : (a n : ℕ) → 0 < n → (a % n + 1) % n ≡ (a + 1) % n
shift a n h = mod-add-mod a n 1

next_place : (head k : ℕ) → k ≤ 32 → (head % 2 ^ k + 1) % 2 ^ k ≡ u32 (head + 1) % 2 ^ k
next_place head k h =
    shift head (2 ^ k) (one-le-pow k 2 (omega arith)) ∙ sym (mod_of_wrap k 32 (head + 1) h)

alloc-some :
    (p : Mempool) (x : ℕ) (ys : List ℕ)
    → IsValid p
    → available p ≡ x ∷ ys
    → (pool : Mempool) × (alloc p ≡ ok (some x, pool)) × IsValid pool × (available pool ≡ ys)
alloc-some p x ys v a =
    let (pool, taken, valid, left_over) = alloc_refines p v in
    (pool, taken ∙ ap (λ l. ok ((pop l).0, pool)) a, valid, left_over ∙ ap (λ l. (pop l).1) a)

-- A store of one element, and the others written behind it.
Written-cons :
    (buf buf' : List ℕ) (at next x : ℕ) (xs : List ℕ)
    → at < length buf
    → suc (length xs) ≤ length buf
    → (at + 1) % length buf ≡ next
    → Written (set buf at x) next xs buf'
    → Written buf at (x ∷ xs) buf'
Written-cons buf buf' at next x xs inside fits e later =
    followed_by buf (set buf at x) buf' at next (x ∷ []) xs inside (omega arith)
      (Written-one buf at x inside) e later

refill_loop_lem :
    (xs rest : List ℕ) (s : RxState) (k : ℕ)
    → IsReady s k
    → available s.pool ≡ xs ++ rest
    → length xs ≤ 2 ^ k
    → (s' : RxState) × (refill_loop (length xs) s ≡ ok s')
      × IsReady s' k
      × (available s'.pool ≡ rest)
      × Posted k xs s s'
unfolding refill_loop
refill_loop_lem [] rest s k ready a fits = (
  s,
  refl,
  ready,
  a,
  ((refl, λ j. ground arith), (refl, λ j. ground arith), omega (arith, ready.head_is_32_bits)),
)
refill_loop_lem (x ∷ xs) rest s k ready a fits =
    let (pool, taken, valid, left_over) = alloc-some s.pool x (xs ++ rest) ready.pool_is_valid a in
    let inside = in_ring s.rxq.wq_head k in
    let place = next_place s.rxq.wq_head k ready.small in
    let s₁ = posted (record s { pool = pool }) k x in
    let (s', done, ready', remaining, (buffers, addrs, head)) =
      refill_loop_lem xs rest s₁ k (posted-IsReady s k x pool ready valid) left_over
        (omega arith) in
    (
      s',
      refill_step s k x (length xs) pool ready valid taken ∙ done,
      ready',
      remaining,
      (
        Written-cons s.rxq.buffers s'.rxq.buffers (s.rxq.wq_head % 2 ^ k)
            (u32 (s.rxq.wq_head + 1) % 2 ^ k) x xs (omega (arith, inside, ready.slots))
            (omega (arith, ready.slots)) (rw ready.slots place) buffers,
        Written-cons s.rxq.addrs s'.rxq.addrs (s.rxq.wq_head % 2 ^ k)
            (u32 (s.rxq.wq_head + 1) % 2 ^ k) (packet_addr x) (map packet_addr xs)
            (omega (arith, inside, ready.segments))
            (omega (arith, ready.segments, length-map xs packet_addr)) (rw ready.segments place)
            addrs,
        head ∙ omega arith,
      ),
    )

-- With enough free buffers, `mlx5_refill_rxqueue` posts as many as it is asked for: the next free
-- buffers of the pool, in order, into the slots from the head on, round the ring, each with the
-- address of its packet; no other slot changes. It takes those buffers from the pool, moves the
-- head and writes its low 16 bits to the doorbell record. The queue has 2^k slots and is asked for
-- no more than that.
pub refill_rxqueue_lem :
    (xs rest : List ℕ) (s : RxState) (k : ℕ)
    → IsReady s k
    → available s.pool ≡ xs ++ rest
    → length xs ≤ 2 ^ k
    → (s' : RxState) × (refill_rxqueue (length xs) s ≡ ok s')
      × IsReady s' k
      × (available s'.pool ≡ rest)
      × Posted k xs s s'
      × (s'.rxq.wq_dbrec ≡ u16 (s.rxq.wq_head + length xs))
unfolding refill_rxqueue
refill_rxqueue_lem xs rest s k ready a fits =
    let (s', done, ready', remaining, (buffers, addrs, head)) =
      refill_loop_lem xs rest s k ready a fits in
    (
      record s' { rxq = record (s'.rxq) { wq_dbrec = u16 s'.rxq.wq_head } },
      rw done refl,
      record {
        power = ready'.power;
        slots = ready'.slots;
        segments = ready'.segments;
        head_is_32_bits = ready'.head_is_32_bits;
        small = ready'.small;
        pool_is_valid = ready'.pool_is_valid;
      },
      remaining,
      (buffers, addrs, head),
      omega (arith, head),
    )
