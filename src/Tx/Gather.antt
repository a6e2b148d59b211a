-- ===== src/Tx/Gather.antt =====
-- `mlx5_gather_completions` takes the completed sends off the queue, oldest first.
use mlx5_netperf.Prelude.{
  ℕ, zero, suc, ◌+◌, ◌-◌, ◌*◌, ◌/◌, ◌%◌, ◌^◌, ◌≤◌, ◌<◌, ◌≡◌, ◌≢◌, ◌∙◌, ap, sym, refl, none, some,
  List, [], ◌∷◌, map, arith, bit_and, length, take, get_elem?, ◌==◌, true, false,
}
use native.Mathlib.Nat.{
  add-zero, add-mul-mod_self_right, mod-eq_of_lt, div-add-mod', pow-succ', one-le-pow,
}
use mlx5_netperf.Prelude.Word.{u32}
use mlx5_netperf.Prelude.Outcome.{ok}
use mlx5_netperf.Prelude.Bits.{bit_and_ones, bit_and_0c, mod_of_wrap}
use mlx5_netperf.Tx.{
  Mlx5dv, Cqe, Heap, Txq, get_cqe_format, cqe_status, gather_one, gather_loop, gather_completions,
}
use mlx5_netperf.Tx.Status.{phase, owner, opcode, cqe_status_ready, cqe_status_not_ready}

-- A send: its first mbuf, the count of work requests posted before it, and how many it took.
pub record Send : Type 0 where
  pub mbuf : ℕ
  pub pos : ℕ
  pub wqes : ℕ

abbrev pub total : List Send → ℕ
total [] = 0
total (s ∷ ss) = s.wqes + total ss

-- The digit above the low part is what is left of a remainder by twice the low part's size.
half : (x p : ℕ) → 0 < p → x % (2 * p) / p ≡ x / p % 2
half x p h = ap (λ (t : ℕ). t / p) low ∙ quotient (x / p % 2) (x % p) p (omega arith)
  where
    split : x ≡ x / p % 2 * p + x % p + x / p / 2 * (2 * p)
    split = omega (
      arith,
      div-add-mod' x p,
      ap (λ (t : ℕ). t * p) {x = x / p} {y = x / p / 2 * 2 + x / p % 2} (omega arith),
    )

    fits : (b r p : ℕ) → b < 2 → r < p → b * p + r < 2 * p
    fits b r p k l = grind arith

    quotient : (b r p : ℕ) → r < p → (b * p + r) / p ≡ b
    quotient b r p l = grind arith

    low : x % (2 * p) ≡ x / p % 2 * p + x % p
    low =
        ap (λ (t : ℕ). t % (2 * p)) split
        ∙ add-mul-mod_self_right (x / p % 2 * p + x % p) (x / p / 2) (2 * p)
        ∙ mod-eq_of_lt (fits (x / p % 2) (x % p) p (omega arith) (omega arith))

pub phase_wrap : (k c : ℕ) → k < 16 → phase (u32 c) (2 ^ k) ≡ phase c (2 ^ k)
phase_wrap k c h =
    sym (low_part (u32 c))
    ∙ ap (λ (t : ℕ). t / 2 ^ k) (mod_of_wrap (suc k) 32 c (omega arith))
    ∙ low_part c
  where
    low_part : (x : ℕ) → x % 2 ^ suc k / 2 ^ k ≡ phase x (2 ^ k)
    low_part x = rw (pow-succ' 2 k) (half x (2 ^ k) (one-le-pow k 2 (omega arith)))

-- What the hardware has left in a completion queue of 2^k entries for a send queue of 2^w.
module _ (dv : Mlx5dv) (heap : Heap) (v : Txq) (k w : ℕ) where
  -- The driver's record of a send that is not yet collected.
  abbrev pub Recorded : Send → Type 0
  Recorded s =
      (get_elem? v.buffers (s.pos % 2 ^ w) ≡ some s.mbuf) × ((heap s.mbuf).num_wqes ≡ s.wqes)

  -- Entry number `c` reports the send: it carries the owner bit of its round and the low 16 bits
  -- of the send's position.
  abbrev pub Reports : ℕ → Send → Cqe → Type 0
  Reports c s e =
      (get_elem? v.cqes (c % 2 ^ k) ≡ some e)
      × (e.op_own < 256)
      × (owner e ≡ phase c (2 ^ k))
      × (opcode e ≡ dv.cqe_req)
      × (e.op_own / 4 % 4 ≢ 3)
      × (e.wqe_counter ≡ s.pos % 2 ^ 16)

  -- From entry number `c` on, the sends are reported in order, and the next entry is not written.
  abbrev pub Completed : ℕ → List Send → Type 0
  Completed c [] =
      (e : Cqe) × (get_elem? v.cqes (c % 2 ^ k) ≡ some e)
      × (e.op_own < 256)
      × (owner e ≢ phase c (2 ^ k))
  Completed c (s ∷ ss) = ((e : Cqe) × Reports c s e) × Recorded s × Completed (suc c) ss

  -- The queue with `c` completions and `t` work requests collected since the start.
  abbrev pub collected : ℕ → ℕ → Txq
  collected c t = record v { cq_head = u32 c; true_cq_head = u32 t }

  module _ (ks : k < 16) (ws : w ≤ 16) (ck : v.cqe_cnt ≡ 2 ^ k) (cw : v.wqe_cnt ≡ 2 ^ w) where
    slot : (c : ℕ) → bit_and (u32 c) (v.cqe_cnt - 1) ≡ c % 2 ^ k
    slot c = rw (ck, bit_and_ones k (u32 c)) (mod_of_wrap k 32 c (omega arith))

    gather_one-none : (c t : ℕ) → Completed c [] → gather_one dv heap (collected c t) ≡ ok none
    unfolding gather_one
    gather_one-none c t (e, here_it_is, byte, other) =
        let status : cqe_status dv e v.cqe_cnt (u32 c) ≡ dv.cqe_invalid =
          rw ck (cqe_status_not_ready dv e k (u32 c) ks byte (rw (phase_wrap k c ks) other)) in
        rw (slot c, gather_one) (rw here_it_is (rw status (ground arith)))

    buffer_of :
        (s : Send) (e : Cqe)
        → e.wqe_counter ≡ s.pos % 2 ^ 16
        → bit_and e.wqe_counter (v.wqe_cnt - 1) ≡ s.pos % 2 ^ w
    buffer_of s e h = rw (cw, bit_and_ones w e.wqe_counter, h) (mod_of_wrap w 16 s.pos ws)

    format_test : (e : Cqe) → e.op_own / 4 % 4 ≢ 3 → (get_cqe_format e == 3) ≡ false
    unfolding get_cqe_format
    format_test e h = ground (arith, bit_and_0c e.op_own)

    req_test : (opcode_ : ℕ) → opcode_ ≡ dv.cqe_req → (opcode_ == dv.cqe_invalid) ≡ false
    req_test o h = ground (arith, dv.invalid_is_all_ones, dv.req_is_valid)

    gather_one-some :
        (c t : ℕ) (s : Send) (e : Cqe)
        → Reports c s e
        → Recorded s
        → gather_one dv heap (collected c t) ≡ ok (some (s.mbuf, collected (suc c) (t + s.wqes)))
    unfolding gather_one
    gather_one-some c t s e (here_it_is, byte, own, op, format, at_pos) (buffer, wqes) =
        let status : cqe_status dv e v.cqe_cnt (u32 c) ≡ dv.cqe_req =
          rw ck (cqe_status_ready dv e k (u32 c) ks byte (rw (phase_wrap k c ks) own) ∙ op) in
        let same : (dv.cqe_req == dv.cqe_req) ≡ true = ground arith in
        rw (slot c, gather_one)
          (rw here_it_is (
            rw (status, req_test dv.cqe_req refl, same, format_test e format, buffer_of s e at_pos)
              (rw buffer (rw wqes (ground arith)))))

    -- The loop collects the completed sends in order, as many as the budget allows.
    gather_loop_lem :
        (budget c t : ℕ) (ss : List Send)
        → Completed c ss
        → gather_loop dv budget heap (collected c t)
          ≡ ok (
            map (λ s. s.mbuf) (take budget ss),
            collected (c + length (take budget ss)) (t + total (take budget ss)),
          )
    unfolding gather_loop
    gather_loop_lem zero c t ss h = simp add-zero
    gather_loop_lem (suc budget) c t [] h = rw (gather_one-none c t h) (simp add-zero)
    gather_loop_lem (suc budget) c t (s ∷ ss) (reported, recorded, later) =
        rw
          (
            gather_one-some c t s reported.0 reported.1 recorded,
            gather_loop_lem budget (suc c) (t + s.wqes) ss later,
          )
          (ground arith)

    -- On a queue that has collected `c` completions and `t` work requests, and whose completion
    -- queue reports exactly the sends `ss` from there on, `mlx5_gather_completions` returns the
    -- mbufs of the first sends, in order and as many as the budget allows; it advances the two
    -- heads by their number and by the work requests they took, writes the low 24 bits of the head
    -- to the doorbell record, and changes nothing else.
    pub gather_completions_lem :
        (budget c t : ℕ) (ss : List Send)
        → Completed c ss
        → gather_completions dv budget heap (collected c t)
          ≡ ok (
            map (λ s. s.mbuf) (take budget ss),
            record v {
              cq_head = u32 (c + length (take budget ss));
              true_cq_head = u32 (t + total (take budget ss));
              cq_dbrec = (c + length (take budget ss)) % 2 ^ 24;
            },
          )
    unfolding gather_completions
    gather_completions_lem budget c t ss h = rw (
      gather_loop_lem budget c t ss h,
      bit_and_ones 24 (u32 (c + length (take budget ss))),
      mod_of_wrap 24 32 (c + length (take budget ss)) (omega arith),
    )
