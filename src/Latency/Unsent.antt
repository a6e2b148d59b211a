-- ===== src/Latency/Unsent.antt =====
-- A packet that names a request beyond those that were sent.
use mlx5_netperf.Prelude.{
  ℕ, zero, suc, ◌+◌, ◌≤◌, ◌<◌, ◌≡◌, refl, some, arith, ltb, ◌&&◌, true, Bool-cases, inl, inr, ap,
}
use mlx5_netperf.Prelude.Word.{u32}
use mlx5_netperf.Prelude.Outcome.{fault}
use native.Mathlib.Decide.{dec_lt}
use mlx5_netperf.Latency.{
  max_iterations, PacketMap, LatencyDist, Groups, clear_groups, group_packets, alloc_latency_dist,
  calculate_latencies,
}

out_of_bounds :
    (n i k : ℕ) (m : PacketMap) (num_sent : ℕ) (g : Groups)
    → i ≤ k
    → k < i + n
    → num_sent ≤ u32 (m.ids k)
    → group_packets n i m num_sent g ≡ fault
unfolding group_packets
out_of_bounds zero i k m num_sent g a b h = absurd (omega arith)
out_of_bounds (suc n) i k m num_sent g a b h =
    elim (Bool-cases (ltb i max_iterations && ltb (u32 (m.ids i)) num_sent)) [
      | inr beyond ↦ rw beyond refl
      | inl within ↦ elim (dec_lt i k) [
        | yes later ↦
            rw within (out_of_bounds n (suc i) k m num_sent _ (omega arith) (omega arith) h)
        | no p ↦ absurd (here (omega arith) within)
      ]
    ]
  where
    here : i ≡ k → (ltb i max_iterations && ltb (u32 (m.ids i)) num_sent) ≡ true → ⊥
    here e w = ground (arith, h, w, ap (λ j. u32 (m.ids j)) e)

-- Where one packet names a request of a number that was not sent, `calculate_latencies` writes out
-- of its arrays' bounds.
pub unsent_fault :
    (memory : ℕ → ℕ) (g : Groups) (m : PacketMap) (d : LatencyDist) (n b k : ℕ)
    → k < m.total_count
    → n ≤ u32 (m.ids k)
    → calculate_latencies (some memory) (some g) m d n b ≡ fault
unfolding calculate_latencies alloc_latency_dist
unsent_fault memory g m d n b k h named =
    rw
      (out_of_bounds m.total_count 0 k m n (clear_groups n 0 b g) (omega arith) (omega arith) named)
      refl
