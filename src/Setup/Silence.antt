-- ===== src/Setup/Silence.antt =====
-- What the receive queue gives before the hardware writes its first completion.
use native.Mathlib.Nat.{one-le-pow}
use mlx5_netperf.Prelude.{
  ℕ, zero, suc, ◌%◌, ◌^◌, ◌<◌, ◌≡◌, ◌≢◌, refl, sym, ap, some, List, [], ◌∷◌, ◌++◌, map, take, arith,
  length, get_elem?,
}
use mlx5_netperf.Prelude.Outcome.{ok}
use mlx5_netperf.Mempool.Stack.{IsValid, available}
use mlx5_netperf.Tx.{Mlx5dv}
use mlx5_netperf.Tx.Status.{owner, phase}
use mlx5_netperf.Rx.{RxCqe, RxState, gather_rx_loop, gather_rx}
use mlx5_netperf.Rx.Receive.{Packet, consumed, gather_rx_loop_lem}
use mlx5_netperf.Setup.{RxSetup, RxAnswers, init_rxq}
use mlx5_netperf.Setup.Loops.{owned}
use mlx5_netperf.Setup.Rings.{Granted, filled, init_rxq_lem}

-- `mlx5dv_set_cqe_owner` with the owner 1 gives a byte whose lowest bit is 1.
abbrev pub SetsOwner : (ℕ → ℕ → ℕ) → Type 0
SetsOwner set_cqe_owner = (b : ℕ) → (set_cqe_owner b 1 < 256) × (set_cqe_owner b 1 % 2 ≡ 1)

first_of :
    (set_cqe_owner : ℕ → ℕ → ℕ) (cqes : List RxCqe)
    → 0 < length cqes
    → SetsOwner set_cqe_owner
    → (e : RxCqe) × (get_elem? (map (owned set_cqe_owner) cqes) 0 ≡ some e)
      × (e.cqe.op_own < 256)
      × (owner e.cqe ≡ 1)
first_of set_cqe_owner [] h law = absurd (omega arith)
first_of set_cqe_owner (c ∷ cqes) h law =
    (owned set_cqe_owner c, refl, (law c.cqe.op_own).0, (law c.cqe.op_own).1)

gather_rx-none :
    (dv : Mlx5dv) (budget : ℕ) (s : RxState) (found : List ℕ × RxState)
    → found ≡ ([], s)
    → gather_rx_loop dv budget s ≡ ok found
    → gather_rx dv budget s ≡ ok ([], s)
unfolding gather_rx
gather_rx-none dv budget s found e h = rw (h, e) refl

take-nil : (n : ℕ) → take {A = Packet} n [] ≡ []
take-nil zero = refl
take-nil (suc n) = refl

-- After the setup of a receive queue whose consumer index is 0, with 2^c completions, c below 16,
-- `mlx5_gather_rx` receives nothing and changes nothing, for any budget, until the hardware writes
-- a completion: `mlx5_init_rxq` has given every entry the owner bit that the first round does not
-- have. The setup has what `init_rxq_lem` asks for, and rdma-core sets the owner bit it is given.
pub init_rxq-gather_rx :
    (set_cqe_owner : ℕ → ℕ → ℕ) (dv : Mlx5dv) (budget : ℕ) (a : RxAnswers) (lkey k c : ℕ)
    (s : RxState) (old xs rest : List ℕ)
    → SetsOwner set_cqe_owner
    → c < 16
    → s.rxq.consumer_idx ≡ 0
    → Granted a k c old
    → IsValid s.pool
    → s.rxq.wq_head < 2 ^ 32
    → available s.pool ≡ xs ++ rest
    → length xs ≡ 2 ^ k
    → (r : RxSetup) × (init_rxq set_cqe_owner a lkey s ≡ ok r)
      × (gather_rx dv budget r.rx ≡ ok ([], r.rx))
init_rxq-gather_rx set_cqe_owner dv budget a lkey k c s old xs rest law hc start g v h av e =
    let r = filled set_cqe_owner a lkey k c s xs in
    let pos = one-le-pow c 2 (omega arith) in
    let (entry, there, byte, one) = first_of set_cqe_owner a.cqes (omega (arith, g.all_cqes)) law in
    let first_place : 0 % 2 ^ c ≡ 0 = omega arith in
    let other : owner entry.cqe ≢ phase 0 (2 ^ c) = ground (arith, one) in
    let looped =
      gather_rx_loop_lem dv r.rx.rxq c k hc refl refl budget 0 r.rx.total_dropped r.rx.heap
        r.rx.pool [] (entry, rw first_place there, byte, other) in
    let at_start : consumed dv r.rx.rxq c k 0 r.rx.heap r.rx.pool r.rx.total_dropped ≡ r.rx =
      ap (λ i. record (r.rx) { rxq = record (r.rx.rxq) { consumer_idx = i } }) (sym start) in
    (
      r,
      (init_rxq_lem set_cqe_owner a lkey k c s old xs rest g v h av e).0,
      gather_rx-none dv budget r.rx _ refl (rw at_start at (rw take-nil at looped)),
    )
