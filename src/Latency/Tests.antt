-- ===== src/Latency/Tests.antt =====
-- The theorems on latencies, at three packets of two requests.
use mlx5_netperf.Prelude.{
  ℕ, zero, suc, ◌%◌, ◌^◌, ◌<◌, ◌≤◌, ◌≡◌, refl, true, some, [], ◌∷◌, arith, ◌==◌, if◌then◌else◌,
}
use mlx5_netperf.Prelude.Outcome.{ok}
use mlx5_netperf.Latency.{PacketMap, LatencyDist, Groups, add_latency, calculate_latencies}
use mlx5_netperf.Latency.Record.{recorded, add_latency_lem}
use mlx5_netperf.Latency.Group.{packets_of}
use mlx5_netperf.Latency.Collect.{calculate_latencies_lem}

abbrev dist : ℕ → LatencyDist
dist n = record {
  min_latency = 1000;
  max_latency = 0;
  latency_sum = 0;
  total_count = n;
  latencies = λ i. 0;
  allocated = 2;
}

-- Request 1 has the times 30 and 50, request 0 the time 20.
abbrev packets : PacketMap
packets = record {
  rtts = λ i. if i == 0 then 30 else if i == 1 then 20 else 50;
  ids = λ i. if i == 1 then 0 else 1;
  total_count = 3;
}

abbrev groups : Groups
groups = record { sent_ids = λ i. 7; grouped_rtts = λ i. [] }

packets_sent : (k : ℕ) → packets.ids k % 2 ^ 32 < 2
packets_sent k = ground arith

two_each : (r : ℕ) → packets_of packets 0 3 r ≤ 2
two_each zero = omega arith
two_each (suc zero) = omega arith
two_each (suc (suc r)) = ground arith

calculate_latencies_lem_example :
    (d' : LatencyDist) × (calculate_latencies (some (λ i. 9)) (some groups) packets (dist 0) 2 2
      ≡ ok d')
    × (recorded d' ≡ 20 ∷ 50 ∷ [])
calculate_latencies_lem_example =
    calculate_latencies_lem (λ i. 9) groups packets (dist 0) 2 2 refl (omega arith) (omega arith)
      (λ k h. packets_sent k) two_each

add_latency_lem_example :
    (d' : LatencyDist) × (add_latency (dist 1) 40 ≡ ok (true, d'))
    × (recorded d' ≡ 0 ∷ 40 ∷ [])
    × (d'.allocated ≡ 2)
    × (d'.total_count ≡ 2)
add_latency_lem_example = add_latency_lem (dist 1) 40 (omega arith) (omega arith)
