-- ===== src/Completion/Chain.antt =====
-- Chains of mbufs, and the release of one whose buffers come from the transmit pool.
use mlx5_netperf.Prelude.{
  ℕ, zero, suc, ◌+◌, ◌≤◌, ◌≡◌, refl, ap, ◌∙◌, Option, none, some, List, [], ◌∷◌, map, arith, length,
}
use mlx5_netperf.Prelude.Outcome.{ok}
use mlx5_netperf.Mbuf.{Mbuf, tx_completion}
use mlx5_netperf.Mempool.{Mempool, free}
use mlx5_netperf.Mempool.Stack.{IsValid, available, free_push}
use mlx5_netperf.Completion.{World, free_mbuf, release_tx, mbuf_free}

-- The addresses along the `next` pointers, from one on.
unfoldable pub Linked : (ℕ → Mbuf) → Option ℕ → List ℕ → Type 0
Linked heap start [] = start ≡ none
Linked heap start (m ∷ ms) = (start ≡ some m) × Linked heap (heap m).next ms

-- What lies on a stack of free items after `xs` were pushed one by one.
abbrev pub push_all : List ℕ → List ℕ → List ℕ
push_all [] stack = stack
push_all (x ∷ xs) stack = push_all xs (x ∷ stack)

-- A valid pool of which `n` items at least are in use.
abbrev pub Holds : Mempool → ℕ → Type 0
Holds p n = IsValid p × (n ≤ p.allocated)

-- The pool `p'` is `p` with `xs` given back, in order.
abbrev pub Returned : List ℕ → Mempool → Mempool → Type 0
Returned xs p p' =
    IsValid p'
    × (available p' ≡ push_all xs (available p))
    × (p'.allocated + length xs ≡ p.allocated)

pub free_step :
    (p : Mempool) (x n : ℕ)
    → Holds p (suc n)
    → (p' : Mempool) × (free p x ≡ ok p')
      × Holds p' n
      × ((xs : List ℕ) (p'' : Mempool) → Returned xs p' p'' → Returned (x ∷ xs) p p'')
free_step p x n (v, h) =
    let (p', done, valid, pushed, count) = free_push p x v (omega arith) in
    (
      p',
      done,
      (valid, omega arith),
      λ xs p'' (v'', a, c). (v'', a ∙ ap (push_all xs) pushed, omega arith),
    )

release_tx_lem :
    (ms : List ℕ) (rounds : ℕ) (w : World) (start : Option ℕ)
    → length ms ≤ rounds
    → Linked w.heap start ms
    → Holds w.tx_buf_mempool (length ms)
    → Holds w.mbuf_mempool (length ms)
    → (buffers mbufs : Mempool) × (release_tx rounds w start
        ≡ ok (record w { tx_buf_mempool = buffers; mbuf_mempool = mbufs }))
      × Returned (map (λ m. (w.heap m).head) ms) w.tx_buf_mempool buffers
      × Returned ms w.mbuf_mempool mbufs
unfolding release_tx free_mbuf Linked
release_tx_lem [] rounds w start b l (v, h) (v', h') =
    (w.tx_buf_mempool, w.mbuf_mempool, rw l refl, (v, refl, omega arith), (v', refl, omega arith))
release_tx_lem (m ∷ ms) zero w start b l h h' = elim b [ ]
release_tx_lem (m ∷ ms) (suc rounds) w start b (here_it_is, l) h h' =
    let (buffers₁, done, holds, back) = free_step w.tx_buf_mempool (w.heap m).head (length ms) h in
    let (mbufs₁, done', holds', back') = free_step w.mbuf_mempool m (length ms) h' in
    let w₁ = record w { tx_buf_mempool = buffers₁; mbuf_mempool = mbufs₁ } in
    let (buffers, mbufs, rest, returned, returned') =
      release_tx_lem ms rounds w₁ (w.heap m).next (omega arith) l holds holds' in
    (
      buffers,
      mbufs,
      rw (here_it_is, done, done') rest,
      back (map (λ m. (w.heap m).head) ms) buffers returned,
      back' ms mbufs returned',
    )

-- `mbuf_free` on a chain from the transmit pools gives every buffer and every descriptor of the
-- chain back, in order, and changes nothing else, given pools that have as many items in use and
-- as many rounds as the chain is long.
pub mbuf_free_tx :
    (ms : List ℕ) (rounds : ℕ) (w : World) (m : ℕ)
    → (w.heap m).release ≡ tx_completion
    → length ms ≤ rounds
    → Linked w.heap (some m) ms
    → Holds w.tx_buf_mempool (length ms)
    → Holds w.mbuf_mempool (length ms)
    → (buffers mbufs : Mempool) × (mbuf_free rounds w m
        ≡ ok (record w { tx_buf_mempool = buffers; mbuf_mempool = mbufs }))
      × Returned (map (λ m. (w.heap m).head) ms) w.tx_buf_mempool buffers
      × Returned ms w.mbuf_mempool mbufs
unfolding mbuf_free
mbuf_free_tx ms rounds w m e b l h h' =
    let (buffers, mbufs, done, back, back_too) = release_tx_lem ms rounds w (some m) b l h h' in
    (buffers, mbufs, rw (e, mbuf_free) done, back, back_too)
