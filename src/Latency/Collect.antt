-- ===== src/Latency/Collect.antt =====
-- The latencies that `calculate_latencies` records.
use mlx5_netperf.Prelude.{
  ℕ, zero, suc, ◌+◌, ◌^◌, ◌≤◌, ◌<◌, ◌≡◌, refl, sym, ap, ◌∙◌, true, false, some, List, [], ◌∷◌, ◌++◌,
  arith, ltb, ◌==◌, if◌then◌else◌, Bool-cases, inl, inr,
}
use native.Mathlib.Decide.{dec_lt}
use mathlib.Core.List.{append_assoc, append-nil}
use mlx5_netperf.Prelude.Count.{occurrences}
use mlx5_netperf.Prelude.Word.{u32}
use mlx5_netperf.Prelude.Outcome.{ok}
use mlx5_netperf.Latency.{
  max_iterations, PacketMap, LatencyDist, Groups, clear_groups, group_packets, max_rtt, add_latency,
  collect_latencies, alloc_latency_dist, calculate_latencies,
}
use mlx5_netperf.Latency.Record.{entries, recorded, add_latency_lem}
use mlx5_netperf.Latency.Group.{
  greatest, max_rtt_lem, slowest, packets_of, Fits, grouped, no_packets, not_sent, cleared,
  all_empty,
}

-- The positive values of `f`, for the `n` requests from `r` on.
abbrev pub positive : (ℕ → ℕ) → ℕ → ℕ → List ℕ
positive f r zero = []
positive f r (suc n) = let rest = positive f (suc r) n in if ltb 0 (f r) then f r ∷ rest else rest

skipped :
    (left r : ℕ) (g : Groups) (d : LatencyDist)
    → (g.sent_ids r == 0) ≡ true
    → collect_latencies (suc left) r g d ≡ collect_latencies left (suc r) g d
unfolding collect_latencies
skipped left r g d h = rw h refl

nothing_received :
    (left r : ℕ) (g : Groups) (d : LatencyDist)
    → (g.sent_ids r == 0) ≡ false
    → ltb 0 (max_rtt 0 (g.grouped_rtts r)) ≡ false
    → collect_latencies (suc left) r g d ≡ collect_latencies left (suc r) g d
unfolding collect_latencies
nothing_received left r g d h k = rw (h, k) refl

added :
    (left r : ℕ) (g : Groups) (d d' : LatencyDist)
    → (g.sent_ids r == 0) ≡ false
    → ltb 0 (max_rtt 0 (g.grouped_rtts r)) ≡ true
    → add_latency d (max_rtt 0 (g.grouped_rtts r)) ≡ ok (true, d')
    → collect_latencies (suc left) r g d ≡ collect_latencies left (suc r) g d'
unfolding collect_latencies
added left r g d d' h k a = rw (h, k, a) refl

not_positive :
    (f : ℕ → ℕ) (r n : ℕ) → ltb 0 (f r) ≡ false → positive f r (suc n) ≡ positive f (suc r) n
not_positive f r n h = rw h refl

is_positive :
    (f : ℕ → ℕ) (r n : ℕ) → ltb 0 (f r) ≡ true → positive f r (suc n) ≡ f r ∷ positive f (suc r) n
is_positive f r n h = rw h refl

-- Of the `left` requests from `r` on, those with a positive time are recorded, in order.
collected :
    (left r : ℕ) (g : Groups) (f : ℕ → ℕ) (d : LatencyDist)
    → d.total_count + left ≤ d.allocated
    → d.allocated < 2 ^ 32
    → ((j : ℕ) → r ≤ j → j < r + left → max_rtt 0 (g.grouped_rtts j) ≡ f j)
    → ((j : ℕ) → r ≤ j → j < r + left → g.sent_ids j ≡ 0 → f j ≡ 0)
    → (d' : LatencyDist) × (collect_latencies left r g d ≡ ok d')
      × (recorded d' ≡ recorded d ++ positive f r left)
unfolding collect_latencies
collected zero r g f d h small rows unsent = (d, refl, sym (append-nil (recorded d)))
collected (suc left) r g f d h small rows unsent =
    let at_r = rows r (omega arith) (omega arith) in
    elim (Bool-cases (g.sent_ids r == 0)) [
      | inl skips ↦
          pass (collected left (suc r) g f d (omega arith) small rows' unsent')
            (skipped left r g d skips) (ground (arith, skips, unsent r (omega arith) (omega arith)))
      | inr sent ↦ elim (Bool-cases (ltb 0 (max_rtt 0 (g.grouped_rtts r)))) [
        | inl some_time ↦
            let (d₁, done, more, same, count) =
              add_latency_lem d (max_rtt 0 (g.grouped_rtts r)) (omega arith) small in
            let (d', rest, all) =
              collected left (suc r) g f d₁ (omega arith) (omega arith) rows' unsent' in
            (
              d',
              added left r g d d₁ sent some_time done ∙ rest,
              all
                  ∙ ap (λ l. l ++ positive f (suc r) left) more
                  ∙ append_assoc (recorded d) (max_rtt 0 (g.grouped_rtts r) ∷ [])
                      (positive f (suc r) left)
                  ∙ ap (λ x. recorded d ++ (x ∷ positive f (suc r) left)) at_r
                  ∙ ap (λ l. recorded d ++ l)
                      (sym (is_positive f r left (ground (arith, some_time, at_r)))),
            )
        | inr none_received ↦
            pass (collected left (suc r) g f d (omega arith) small rows' unsent')
              (nothing_received left r g d sent none_received) (ground (arith, none_received, at_r))
      ]
    ]
  where
    rows' : (j : ℕ) → suc r ≤ j → j < suc r + left → max_rtt 0 (g.grouped_rtts j) ≡ f j
    rows' j a b = rows j (omega arith) (omega arith)

    unsent' : (j : ℕ) → suc r ≤ j → j < suc r + left → g.sent_ids j ≡ 0 → f j ≡ 0
    unsent' j a b = unsent j (omega arith) (omega arith)

    pass :
        ((d' : LatencyDist) × (collect_latencies left (suc r) g d ≡ ok d')
          × (recorded d' ≡ recorded d ++ positive f (suc r) left))
        → collect_latencies (suc left) r g d ≡ collect_latencies left (suc r) g d
        → ltb 0 (f r) ≡ false
        → (d' : LatencyDist) × (collect_latencies (suc left) r g d ≡ ok d')
          × (recorded d' ≡ recorded d ++ positive f r (suc left))
    pass (d', rest, all) step test =
        (d', step ∙ rest, all ∙ ap (λ l. recorded d ++ l) (sym (not_positive f r left test)))

clear_groups-Fits :
    (m : PacketMap) (n b : ℕ) (g : Groups)
    → m.total_count ≤ max_iterations
    → ((k : ℕ) → k < m.total_count → u32 (m.ids k) < n)
    → ((r : ℕ) → packets_of m 0 m.total_count r ≤ b)
    → Fits m n 0 m.total_count (clear_groups n 0 b g)
clear_groups-Fits m n b g stored sent few = record {
  stored = omega (arith, stored);
  sent = λ k h a. sent k (omega arith);
  rooms = λ r. elim (dec_lt r n) [
    | yes within ↦ omega (
      arith,
      few r,
      ap (occurrences 0) (cleared n 0 b g r (omega arith) (omega arith)).1,
      (all_empty b).0,
    )
    | no beyond ↦
        omega (arith, not_sent m.total_count 0 r m n (λ k h a. sent k (omega arith)) (omega arith))
  ];
}

calculated :
    (memory : ℕ → ℕ) (g g' : Groups) (m : PacketMap) (d d' : LatencyDist) (n b : ℕ)
    → group_packets m.total_count 0 m n (clear_groups n 0 b g) ≡ ok g'
    → collect_latencies n 0 g' (record d { latencies = memory; allocated = n }) ≡ ok d'
    → calculate_latencies (some memory) (some g) m d n b ≡ ok d'
unfolding calculate_latencies alloc_latency_dist
calculated memory g g' m d d' n b h k = rw (h, k) refl

-- Where malloc succeeds, `calculate_latencies` returns and records, for the requests that were sent
-- in their order, the greatest round trip time among the packets of each, and leaves out those
-- without a positive time: nothing runs over. The distribution is new, the packets are no more than
-- the 10^6 that the map holds, every packet names a request that was sent, and no request has more
-- packets than its row has entries.
pub calculate_latencies_lem :
    (memory : ℕ → ℕ) (g : Groups) (m : PacketMap) (d : LatencyDist) (n b : ℕ)
    → d.total_count ≡ 0
    → n < 2 ^ 32
    → m.total_count ≤ max_iterations
    → ((k : ℕ) → k < m.total_count → u32 (m.ids k) < n)
    → ((r : ℕ) → packets_of m 0 m.total_count r ≤ b)
    → (d' : LatencyDist) × (calculate_latencies (some memory) (some g) m d n b ≡ ok d')
      × (recorded d' ≡ positive (slowest m 0 m.total_count) 0 n)
calculate_latencies_lem memory g m d n b new small stored sent few =
    let total = m.total_count in
    let g₀ = clear_groups n 0 b g in
    let (g', done, rows, seen, unseen) =
      grouped total 0 m n g₀ (clear_groups-Fits m n b g stored sent few) in
    let (d', rest, all) =
      collected n 0 g' (slowest m 0 total) (record d { latencies = memory; allocated = n })
        (omega arith) small
        (λ j a h.
          max_rtt_lem 0 (g'.grouped_rtts j)
          ∙ omega (arith, rows j, ap greatest (cleared n 0 b g j a h).1, (all_empty b).1))
        (λ j a h z. elim (dec_lt 0 (packets_of m 0 total j)) [
          | yes more ↦ absurd (omega (arith, seen j more, z))
          | no none_received ↦ no_packets total 0 j m (omega arith)
        ]) in
    (
      d',
      calculated memory g g' m d d' n b done rest,
      all ∙ ap (λ k. entries memory 0 k ++ positive (slowest m 0 total) 0 n) new,
    )
