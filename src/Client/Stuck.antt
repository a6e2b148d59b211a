-- ===== src/Client/Stuck.antt =====
-- The first send of the client: the mbuf has the number of segments that was in the pool's memory.
mod Tests
use native.Mathlib.Nat.{pow-le-pow_right}
use mlx5_netperf.Prelude.{
  ℕ, zero, suc, ◌-◌, ◌+◌, ◌*◌, ◌/◌, ◌%◌, ◌^◌, ◌≤◌, ◌<◌, ◌≡◌, refl, ◌∙◌, [], arith,
}
use mlx5_netperf.Prelude.Word.{u32}
use mlx5_netperf.Prelude.Outcome.{ok, fault}
use mlx5_netperf.Completion.{World}
use mlx5_netperf.Tx.{Txq, nr_inflight_tx}
use mlx5_netperf.Tx.Gather.{Completed, collected}
use mlx5_netperf.Tx.Post.{free_wqes, num_wqes, num_hdr_segs, num_dpsegs}
use mlx5_netperf.Tx.Post.Full.{refused}
use mlx5_netperf.Server.Process.{no_header}
use mlx5_netperf.Client.{Env, transmit}

-- The hardware leaves the send queue as it is.
abbrev pub Idle : Env → Type 0
Idle e = (tries : ℕ) (v : Txq) → e.nic tries v ≡ v

-- The queue with `c` completions and `t` work requests collected.
abbrev at : Env → World → Txq → ℕ → ℕ → ℕ → ℕ → Txq
at e w v k a c t = collected e.dv w.heap v k a c t

not_sent :
    (e : Env) (w : World) (v : Txq) (k a c t pkt tries : ℕ)
    → Idle e
    → k < 16
    → a ≤ 16
    → v.cqe_cnt ≡ 2 ^ k
    → v.wqe_cnt ≡ 2 ^ a
    → (w.heap pkt).nb_segs + 0 < 2 ^ 31 - 5
    → Completed e.dv w.heap v k a c []
    → free_wqes (at e w v k a c t) < num_wqes e.dv (w.heap pkt) 0
    → transmit e (suc tries) w (at e w v k a c t) pkt
      ≡ transmit e tries w (at e w (record v { cq_dbrec = c % 2 ^ 24 }) k a c t) pkt
unfolding transmit
not_sent e w v k a c t pkt tries idle ks small ck ca exact none_yet full =
    let (v', same, _, one, _) =
      refused e.dv e.chain w v k a c t pkt 0 no_header [] ks small ck ca exact none_yet full in
    rw (idle tries (at e w v k a c t), one, same) refl

stuck :
    (tries : ℕ) (e : Env) (w : World) (v : Txq) (k a c t pkt : ℕ)
    → Idle e
    → k < 16
    → a ≤ 16
    → v.cqe_cnt ≡ 2 ^ k
    → v.wqe_cnt ≡ 2 ^ a
    → (w.heap pkt).nb_segs + 0 < 2 ^ 31 - 5
    → Completed e.dv w.heap v k a c []
    → free_wqes (at e w v k a c t) < num_wqes e.dv (w.heap pkt) 0
    → transmit e tries w (at e w v k a c t) pkt ≡ fault
unfolding transmit free_wqes nr_inflight_tx
stuck zero e w v k a c t pkt idle ks small ck ca exact none_yet full = refl
stuck (suc tries) e w v k a c t pkt idle ks small ck ca exact none_yet full =
    not_sent e w v k a c t pkt tries idle ks small ck ca exact none_yet full
    ∙ stuck tries e w (record v { cq_dbrec = c % 2 ^ 24 }) k a c t pkt idle ks small ck ca exact
        none_yet full

-- Where an mbuf has the number of segments that `memset` leaves in a new pool, 0x63636363, nothing
-- is in flight, no completion has arrived and the hardware does nothing to the queue, which has at
-- most 2^16 wqes, the loop around `mlx5_transmit_one` does not send the mbuf within any number of
-- tries.
pub transmit-never :
    (e : Env) (w : World) (v : Txq) (k a c t pkt tries : ℕ)
    → Idle e
    → k < 16
    → a ≤ 16
    → v.cqe_cnt ≡ 2 ^ k
    → v.wqe_cnt ≡ 2 ^ a
    → Completed e.dv w.heap v k a c []
    → v.sq_head ≡ u32 t
    → (w.heap pkt).nb_segs ≡ 0x63636363
    → transmit e tries w (at e w v k a c t) pkt ≡ fault
unfolding free_wqes nr_inflight_tx num_wqes num_hdr_segs num_dpsegs
transmit-never e w v k a c t pkt tries idle ks small ck ca none_yet empty fresh =
    let slots : 2 ^ a ≤ 2 ^ 16 = pow-le-pow_right {n = 2} (omega arith) {i = a} {j = 16} small in
    let wide : free_wqes (at e w v k a c t) ≤ 2 ^ 16 = omega (arith, ca, empty, slots) in
    let long : 2 ^ 16 < num_wqes e.dv (w.heap pkt) 0 =
      rw (e.dv.data_seg_is_16, fresh) (omega arith) in
    stuck tries e w v k a c t pkt idle ks small ck ca (omega (arith, fresh)) none_yet
      (omega (arith, wide, long))
