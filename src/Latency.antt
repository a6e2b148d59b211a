-- ===== src/Latency.antt =====
-- latency.c: the round trip times of packets, and the latencies of requests that they come to. An
-- array is a function of the index, with the bound that its allocation or its type gives; the
-- moving average, a floating point number, is left out, and what malloc returns is an argument.
pub mod Record
pub mod Group
pub mod Collect
pub mod Unsent
mod Tests
use mlx5_netperf.Prelude.{
  ℕ, zero, suc, ◌+◌, ◌-◌, ◌*◌, ◌/◌, ◌%◌, ◌^◌, Bool, true, false, Option, none, some, List, [], ◌∷◌,
  ltb, ◌==◌, ◌&&◌, if◌then◌else◌, replicate,
}
use mlx5_netperf.Prelude.Word.{u32, add64}
use mlx5_netperf.Prelude.Outcome.{Outcome, ok, err, fault, enomem, ◌>>=◌}

abbrev pub max_segment_size : ℕ
max_segment_size = 8192

abbrev pub max_iterations : ℕ
max_iterations = 1000000

-- `Packet_Map_t`, without the two arrays that `calculate_latencies` allocates.
pub record PacketMap : Type 0 where
  pub rtts : ℕ → ℕ
  pub ids : ℕ → ℕ
  pub total_count : ℕ

-- `Latency_Dist_t`
pub record LatencyDist : Type 0 where
  pub min_latency : ℕ
  pub max_latency : ℕ
  pub latency_sum : ℕ
  pub total_count : ℕ
  pub latencies : ℕ → ℕ
  pub allocated : ℕ

-- A store into an array.
abbrev pub put {ℓ} : {A : Type ℓ} → (ℕ → A) → ℕ → A → ℕ → A
put f i x j = if j == i then x else f j

-- `alloc_latency_dist`, with the memory that malloc gives.
unfoldable pub alloc_latency_dist : Option (ℕ → ℕ) → LatencyDist → ℕ → Outcome LatencyDist
alloc_latency_dist none dist ct = err enomem
alloc_latency_dist (some memory) dist ct = ok (record dist { latencies = memory; allocated = ct })

-- `false` stands for the return of -ENOMEM.
unfoldable pub add_latency_to_map : PacketMap → ℕ → ℕ → Outcome (Bool × PacketMap)
add_latency_to_map m rtt id =
    if ltb m.total_count max_iterations
    then (let m' : PacketMap = record {
      rtts = put m.rtts m.total_count rtt;
      ids = put m.ids m.total_count id;
      total_count = add64 m.total_count 1;
    } in
        if ltb max_iterations m'.total_count then ok (false, m') else ok (true, m'))
    else fault

unfoldable pub add_latency : LatencyDist → ℕ → Outcome (Bool × LatencyDist)
add_latency d latency =
    if ltb d.total_count d.allocated
    then (let d' = record d {
      latencies = put d.latencies d.total_count latency;
      total_count = add64 d.total_count 1;
    } in
        if ltb d'.allocated d'.total_count
        then ok (false, d')
        else ok (
          true,
          record d' {
            latency_sum = add64 d.latency_sum latency;
            min_latency = if ltb latency d.min_latency then latency else d.min_latency;
            max_latency = if ltb d.max_latency latency then latency else d.max_latency;
          },
        ))
    else fault

-- `cmpfunc`: the difference, cut to the 32 bits of an `int`, by its bit pattern.
unfoldable pub cmpfunc : ℕ → ℕ → ℕ
cmpfunc a b = u32 (a + 2 ^ 64 - b)

-- `calculate_latencies`: `sent_ids`, and the row of `grouped_rtts` of each request.
pub record Groups : Type 0 where
  pub sent_ids : ℕ → ℕ
  pub grouped_rtts : ℕ → List ℕ

-- The first loop, from request `r` on.
unfoldable pub clear_groups : ℕ → ℕ → ℕ → Groups → Groups
clear_groups zero r num_per_bucket g = g
clear_groups (suc left) r num_per_bucket g = clear_groups left (suc r) num_per_bucket (record {
  sent_ids = put g.sent_ids r 0;
  grouped_rtts = put g.grouped_rtts r (replicate num_per_bucket 0);
})

-- The search for the first entry that is 0, which takes the round trip time.
unfoldable pub place : ℕ → List ℕ → List ℕ
place rtt [] = []
place rtt (x ∷ xs) = let rest = place rtt xs in if x == 0 then rtt ∷ xs else x ∷ rest

-- The second loop, from packet `i` on. A packet number beyond the arrays `ids`
-- and `rtts`, and an identifier that was not sent, are out of bounds.
unfoldable pub group_packets : ℕ → ℕ → PacketMap → ℕ → Groups → Outcome Groups
unfolding place
group_packets zero i m num_sent g = ok g
group_packets (suc left) i m num_sent g =
    let id = u32 (m.ids i) in
    let rest = group_packets left (suc i) m num_sent (record {
      sent_ids = put g.sent_ids id 1;
      grouped_rtts = put g.grouped_rtts id (place (m.rtts i) (g.grouped_rtts id));
    }) in
    if ltb i max_iterations && ltb id num_sent then rest else fault

-- The greatest entry of a row.
unfoldable pub max_rtt : ℕ → List ℕ → ℕ
max_rtt so_far [] = so_far
max_rtt so_far (rtt ∷ rtts) =
    max_rtt (if rtt == 0 then so_far else if ltb so_far rtt then rtt else so_far) rtts

-- The third loop, from request `r` on.
unfoldable pub collect_latencies : ℕ → ℕ → Groups → LatencyDist → Outcome LatencyDist
unfolding max_rtt add_latency
collect_latencies zero r g d = ok d
collect_latencies (suc left) r g d =
    (if g.sent_ids r == 0
      then ok d
      else if ltb 0 (max_rtt 0 (g.grouped_rtts r))
      then (add_latency d (max_rtt 0 (g.grouped_rtts r)) >>= λ added. ok added.1)
      else ok d)
    >>= λ d'. collect_latencies left (suc r) g d'

-- `arrays` is what the two other calls of malloc give, if both succeed.
unfoldable pub calculate_latencies :
    Option (ℕ → ℕ) → Option Groups → PacketMap → LatencyDist → ℕ → ℕ → Outcome LatencyDist
unfolding alloc_latency_dist clear_groups group_packets collect_latencies
calculate_latencies memory arrays m dist num_sent num_per_bucket =
    alloc_latency_dist memory dist num_sent >>= λ d. elim arrays [
      | none ↦ err enomem
      | some g ↦
          group_packets m.total_count 0 m num_sent (clear_groups num_sent 0 num_per_bucket g)
          >>= λ g'. collect_latencies num_sent 0 g' d
    ]
