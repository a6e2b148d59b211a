-- ===== src/Rx/Receive.antt =====
-- `mlx5_gather_rx` hands out the received packets, in the order of their completions, and refills.
use mlx5_netperf.Prelude.{
  ℕ, zero, suc, ◌+◌, ◌-◌, ◌/◌, ◌%◌, ◌^◌, ◌≤◌, ◌<◌, ◌≡◌, ◌≢◌, refl, sym, ◌∙◌, none, some, List, [],
  ◌∷◌, ◌++◌, map, length-map, arith, true, false, ◌==◌, length, take, get_elem?, bit_and,
}
use native.Mathlib.Nat.{add-zero}
use mlx5_netperf.Prelude.Word.{u32, add32}
use mlx5_netperf.Prelude.Bits.{bit_and_ones, bit_and_0c, mod_of_wrap}
use mlx5_netperf.Prelude.Outcome.{ok}
use mlx5_netperf.Mbuf.{Mbuf}
use mlx5_netperf.Mempool.{Mempool}
use mlx5_netperf.Mempool.Stack.{available}
use mlx5_netperf.Tx.{Mlx5dv, Cqe, get_cqe_format, cqe_status}
use mlx5_netperf.Tx.Status.{phase, owner, opcode, cqe_status_ready, cqe_status_not_ready}
use mlx5_netperf.Tx.Gather.{phase_wrap}
use mlx5_netperf.Rx.{
  RxCqe, Rxq, RxState, update, mbuf_fill_cqe, refill_rxqueue, gather_rx_one, gather_rx_loop,
  gather_rx,
}
use mlx5_netperf.Rx.Refill.{IsReady, Posted, refill_rxqueue_lem}

-- A packet received: its mbuf and its completion.
pub record Packet : Type 0 where
  pub mbuf : ℕ
  pub report : RxCqe

-- The mbufs after the packets were received, and the count of dropped packets.
abbrev pub fills : (ℕ → Mbuf) → List Packet → ℕ → Mbuf
fills heap [] = heap
fills heap (p ∷ ps) = fills (update heap p.mbuf (mbuf_fill_cqe p.mbuf (heap p.mbuf) p.report)) ps

abbrev pub drops : ℕ → List Packet → ℕ
drops n [] = n
drops n (p ∷ ps) = drops (add32 n (p.report.sop_drop_qpn / 2 ^ 24)) ps

-- The doorbell of the completion queue, rung before the refill.
abbrev rung : RxState → RxState
rung s = record s { rxq = record (s.rxq) { cq_dbrec = bit_and s.rxq.consumer_idx 0xffffff } }

gathered :
    (dv : Mlx5dv) (budget : ℕ) (s s₁ s' : RxState) (ms : List ℕ) (n : ℕ)
    → gather_rx_loop dv budget s ≡ ok (ms, s₁)
    → length ms ≡ n
    → 0 < n
    → refill_rxqueue n (rung s₁) ≡ ok s'
    → gather_rx dv budget s ≡ ok (ms, s')
unfolding gather_rx
gathered dv budget s s₁ s' ms n looped count some_packet refilled =
    let test : (n == 0) ≡ false = ground arith in rw (looped, count, test, refilled) refl

-- What the hardware has left in a completion queue of 2^k entries for a receive queue of 2^w.
module _ (dv : Mlx5dv) (v : Rxq) (k w : ℕ) where
  -- Entry number `c` reports the packet, in the slot that holds its mbuf.
  abbrev pub Arrived : ℕ → Packet → Type 0
  Arrived c p =
      (get_elem? v.cqes (c % 2 ^ k) ≡ some p.report)
      × (p.report.cqe.op_own < 256)
      × (owner p.report.cqe ≡ phase c (2 ^ k))
      × (opcode p.report.cqe ≡ dv.cqe_resp_send)
      × (p.report.cqe.op_own / 4 % 4 ≢ 3)
      × (get_elem? v.buffers (p.report.cqe.wqe_counter % 2 ^ w) ≡ some p.mbuf)

  -- From entry number `c` on, the packets are reported in order, and the next entry is not written.
  abbrev pub Waiting : ℕ → List Packet → Type 0
  Waiting c [] =
      (e : RxCqe) × (get_elem? v.cqes (c % 2 ^ k) ≡ some e)
      × (e.cqe.op_own < 256)
      × (owner e.cqe ≢ phase c (2 ^ k))
  Waiting c (p ∷ ps) = Arrived c p × Waiting (suc c) ps

  -- The state with `c` completions consumed.
  abbrev pub consumed : ℕ → (ℕ → Mbuf) → Mempool → ℕ → RxState
  consumed c heap pool dropped = record {
    rxq = record v { consumer_idx = u32 c };
    heap = heap;
    pool = pool;
    total_dropped = dropped;
  }

  module _ (ks : k < 16) (ck : v.cqe_cnt ≡ 2 ^ k) (cw : v.wqe_cnt ≡ 2 ^ w) where
    slot_of : (c : ℕ) → bit_and (u32 c) (v.cqe_cnt - 1) ≡ c % 2 ^ k
    slot_of c = rw (ck, bit_and_ones k (u32 c)) (mod_of_wrap k 32 c (omega arith))

    buffer_slot : (e : Cqe) → bit_and e.wqe_counter (v.wqe_cnt - 1) ≡ e.wqe_counter % 2 ^ w
    buffer_slot e = rw (cw, bit_and_ones w e.wqe_counter) refl

    format_ok : (e : Cqe) → e.op_own / 4 % 4 ≢ 3 → (get_cqe_format e == 3) ≡ false
    unfolding get_cqe_format
    format_ok e h = ground (arith, bit_and_0c e.op_own)

    gather_rx_one-none :
        (c dropped : ℕ) (heap : ℕ → Mbuf) (pool : Mempool)
        → Waiting c []
        → gather_rx_one dv (consumed c heap pool dropped) ≡ ok none
    unfolding gather_rx_one
    gather_rx_one-none c dropped heap pool (e, here_it_is, byte, other) =
        let status : cqe_status dv e.cqe v.cqe_cnt (u32 c) ≡ dv.cqe_invalid =
          rw ck (cqe_status_not_ready dv e.cqe k (u32 c) ks byte (rw (phase_wrap k c ks) other)) in
        rw (slot_of c, gather_rx_one) (rw here_it_is (rw status (ground arith)))

    gather_rx_one-some :
        (c dropped : ℕ) (heap : ℕ → Mbuf) (pool : Mempool) (p : Packet)
        → Arrived c p
        → gather_rx_one dv (consumed c heap pool dropped)
          ≡ ok (
              some (
                p.mbuf,
                consumed
                    (suc c)
                    (update heap p.mbuf (mbuf_fill_cqe p.mbuf (heap p.mbuf) p.report))
                    pool
                    (add32 dropped (p.report.sop_drop_qpn / 2 ^ 24)),
              ))
    unfolding gather_rx_one
    gather_rx_one-some c dropped heap pool p (here_it_is, byte, own, op, format, buffer) =
        let e = p.report.cqe in
        let status : cqe_status dv e v.cqe_cnt (u32 c) ≡ dv.cqe_resp_send =
          rw ck (cqe_status_ready dv e k (u32 c) ks byte (rw (phase_wrap k c ks) own) ∙ op) in
        let valid : (dv.cqe_resp_send == dv.cqe_invalid) ≡ false =
          ground (arith, dv.invalid_is_all_ones, dv.resp_send_is_valid) in
        let same : (dv.cqe_resp_send == dv.cqe_resp_send) ≡ true = ground arith in
        let next : add32 (u32 c) 1 ≡ u32 (suc c) = omega arith in
        rw (slot_of c, gather_rx_one)
          (rw here_it_is (
            rw (status, valid, same, format_ok e format, buffer_slot e) (rw buffer (rw next refl))))

    -- The loop of `mlx5_gather_rx` receives the reported packets in order, as many as the budget
    -- allows: it gives their mbufs, sets each of them up as its completion says, adds up the
    -- dropped packets, and moves the index of the consumer past them; the pool and the rest of the
    -- queue do not change.
    pub gather_rx_loop_lem :
        (budget c dropped : ℕ) (heap : ℕ → Mbuf) (pool : Mempool) (ps : List Packet)
        → Waiting c ps
        → gather_rx_loop dv budget (consumed c heap pool dropped)
          ≡ ok (
            map (λ p. p.mbuf) (take budget ps),
            consumed
                (c + length (take budget ps))
                (fills heap (take budget ps))
                pool
                (drops dropped (take budget ps)),
          )
    unfolding gather_rx_loop
    gather_rx_loop_lem zero c dropped heap pool ps h = simp add-zero
    gather_rx_loop_lem (suc budget) c dropped heap pool [] h =
        rw (gather_rx_one-none c dropped heap pool h) (simp add-zero)
    gather_rx_loop_lem (suc budget) c dropped heap pool (p ∷ ps) (arrived, later) =
        let heap₁ = update heap p.mbuf (mbuf_fill_cqe p.mbuf (heap p.mbuf) p.report) in
        let dropped₁ = add32 dropped (p.report.sop_drop_qpn / 2 ^ 24) in
        rw
          (
            gather_rx_one-some c dropped heap pool p arrived,
            gather_rx_loop_lem budget (suc c) dropped₁ heap₁ pool ps later,
          )
          (ground arith)

    -- Where at least one packet is reported and the pool has a free buffer for every packet that
    -- the budget allows, `mlx5_gather_rx` returns the mbufs of those packets, in order, and posts
    -- as many of the pool's free buffers into the slots from the head on, in order and round the
    -- ring.
    pub gather_rx_lem :
        (budget c dropped : ℕ) (heap : ℕ → Mbuf) (pool : Mempool) (ps : List Packet)
        (xs rest : List ℕ)
        → Waiting c ps
        → 0 < length (take budget ps)
        → IsReady (consumed c heap pool dropped) w
        → available pool ≡ xs ++ rest
        → length xs ≡ length (take budget ps)
        → length xs ≤ 2 ^ w
        → (s' : RxState) × (gather_rx dv budget (consumed c heap pool dropped)
            ≡ ok (map (λ p. p.mbuf) (take budget ps), s'))
          × IsReady s' w
          × (available s'.pool ≡ rest)
          × Posted w xs (consumed c heap pool dropped) s'
    gather_rx_lem budget c dropped heap pool ps xs rest h some_packet ready a same fits =
        let got = take budget ps in
        let before = consumed (c + length got) (fills heap got) pool (drops dropped got) in
        let (s', done, ready', remaining, posted, dbrec) =
          refill_rxqueue_lem xs rest (rung before) w
            (record {
              power = ready.power;
              slots = ready.slots;
              segments = ready.segments;
              head_is_32_bits = ready.head_is_32_bits;
              small = ready.small;
              pool_is_valid = ready.pool_is_valid;
            })
            a fits in
        (
          s',
          gathered dv budget (consumed c heap pool dropped) before s' (map (λ p. p.mbuf) got)
              (length xs) (gather_rx_loop_lem budget c dropped heap pool ps h)
              (length-map got (λ p. p.mbuf) ∙ sym same) (omega arith) done,
          ready',
          remaining,
          posted,
        )
