-- ===== src/Latency/Group.antt =====
-- How the round trip times of a request's packets are grouped.
use mlx5_netperf.Prelude.{
  ℕ, zero, suc, ◌+◌, ◌≤◌, ◌<◌, ◌≡◌, refl, ap, ◌∙◌, true, false, List, [], ◌∷◌, arith, ltb, max,
  ◌==◌, if◌then◌else◌, replicate, Bool, Bool-cases, inl, inr, ==→≡,
}
use native.Mathlib.Decide.{dec_lt}
use mlx5_netperf.Prelude.Count.{occurrences}
use mlx5_netperf.Prelude.Word.{u32}
use mlx5_netperf.Prelude.Outcome.{ok}
use mlx5_netperf.Latency.{
  max_iterations, PacketMap, Groups, put, clear_groups, place, group_packets, max_rtt,
}

-- The greatest entry by `max`.
abbrev pub greatest : List ℕ → ℕ
greatest [] = 0
greatest (x ∷ xs) = max x (greatest xs)

pub max_rtt_lem : (so_far : ℕ) (xs : List ℕ) → max_rtt so_far xs ≡ max so_far (greatest xs)
unfolding max_rtt
max_rtt_lem so_far [] = omega arith
max_rtt_lem so_far (x ∷ xs) =
    max_rtt_lem (if x == 0 then so_far else if ltb so_far x then x else so_far) xs ∙ ground arith

-- Placing a time in a row with an empty entry raises the greatest, and uses one entry at most.
greatest-place :
    (rtt : ℕ) (xs : List ℕ) → 0 < occurrences 0 xs → greatest (place rtt xs) ≡ max rtt (greatest xs)
unfolding place
greatest-place rtt [] h = absurd (omega arith)
greatest-place rtt (x ∷ xs) h = elim (Bool-cases (x == 0)) [
  | inl empty ↦ ground (arith, empty)
  | inr used ↦ ground (arith, used, greatest-place rtt xs (ground (arith, used)))
]

empty-place : (rtt : ℕ) (xs : List ℕ) → occurrences 0 xs ≤ occurrences 0 (place rtt xs) + 1
unfolding place
empty-place rtt [] = omega arith
empty-place rtt (x ∷ xs) = ground (arith, empty-place rtt xs)

-- The greatest time among the packets of request `r`, of the `n` packets from `i` on, and how many
-- they are.
abbrev pub slowest : PacketMap → ℕ → ℕ → ℕ → ℕ
slowest m i zero r = 0
slowest m i (suc n) r =
    let rest = slowest m (suc i) n r in if u32 (m.ids i) == r then max (m.rtts i) rest else rest

abbrev pub packets_of : PacketMap → ℕ → ℕ → ℕ → ℕ
packets_of m i zero r = 0
packets_of m i (suc n) r =
    let rest = packets_of m (suc i) n r in if u32 (m.ids i) == r then suc rest else rest

-- Every packet from `i` on is in the arrays, names a request that was sent, and fits into what is
-- left of its row.
pub record Fits (m : PacketMap) (num_sent i n : ℕ) (g : Groups) : Type 0 where
  pub sent : (k : ℕ) → i ≤ k → k < i + n → u32 (m.ids k) < num_sent
  pub stored : i + n ≤ max_iterations
  pub rooms : (r : ℕ) → packets_of m i n r ≤ occurrences 0 (g.grouped_rtts r)

placed :
    (rows : ℕ → List ℕ) (x t r : ℕ)
    → 0 < occurrences 0 (rows x)
    → greatest (put rows x (place t (rows x)) r)
      ≡ (if x == r then max t (greatest (rows r)) else greatest (rows r))
placed rows x t r h = by_case (r == x) refl
  where
    by_case :
        (b : Bool)
        → (r == x) ≡ b
        → greatest (if b then place t (rows x) else rows r)
          ≡ (if x == r then max t (greatest (rows r)) else greatest (rows r))
    by_case true e =
        ground (arith, greatest-place t (rows x) h, ap (λ y. greatest (rows y)) (==→≡ r x e))
    by_case false e = ground (arith, e)

still_empty :
    (rows : ℕ → List ℕ) (x t r n : ℕ)
    → (if x == r then suc n else n) ≤ occurrences 0 (rows r)
    → n ≤ occurrences 0 (put rows x (place t (rows x)) r)
still_empty rows x t r n h = by_case (r == x) refl
  where
    by_case : (b : Bool) → (r == x) ≡ b → n ≤ occurrences 0 (if b then place t (rows x) else rows r)
    by_case true e =
        ground (arith, empty-place t (rows x), ap (λ y. occurrences 0 (rows y)) (==→≡ r x e))
    by_case false e = ground (arith, e, h)

marked : (f : ℕ → ℕ) (x r n : ℕ) → 0 < (if x == r then suc n else n) → n ≡ 0 → put f x 1 r ≡ 1
marked f x r n h k = ground (arith, h)

not_marked : (f : ℕ → ℕ) (x r n : ℕ) → (if x == r then suc n else n) ≡ 0 → put f x 1 r ≡ f r
not_marked f x r n h = ground (arith, h)

pub grouped :
    (n i : ℕ) (m : PacketMap) (num_sent : ℕ) (g : Groups)
    → Fits m num_sent i n g
    → (g' : Groups) × (group_packets n i m num_sent g ≡ ok g')
      × ((r : ℕ)
          → greatest (g'.grouped_rtts r) ≡ max (slowest m i n r) (greatest (g.grouped_rtts r)))
      × ((r : ℕ) → 0 < packets_of m i n r → g'.sent_ids r ≡ 1)
      × ((r : ℕ) → packets_of m i n r ≡ 0 → g'.sent_ids r ≡ g.sent_ids r)
unfolding group_packets
grouped zero i m num_sent g f =
    (g, refl, (λ r. omega arith), (λ r h. absurd (omega arith)), λ r h. refl)
grouped (suc n) i m num_sent g f =
    let x = u32 (m.ids i) in
    let g₁ : Groups = record {
      sent_ids = put g.sent_ids x 1;
      grouped_rtts = put g.grouped_rtts x (place (m.rtts i) (g.grouped_rtts x));
    } in
    let fits₁ : Fits m num_sent (suc i) n g₁ = record {
      sent = λ k a b. f.sent k (omega arith) (omega arith);
      stored = omega (arith, f.stored);
      rooms = λ r. still_empty g.grouped_rtts x (m.rtts i) r (packets_of m (suc i) n r) (f.rooms r);
    } in
    let (g', done, rows, seen, unseen) = grouped n (suc i) m num_sent g₁ fits₁ in
    let within : ltb x num_sent ≡ true = ground (arith, f.sent i (omega arith) (omega arith)) in
    let stored : ltb i max_iterations ≡ true = ground (arith, f.stored) in
    let room : 0 < occurrences 0 (g.grouped_rtts x) = ground (arith, f.rooms x) in
    (
      g',
      rw (stored, within) done,
      λ r. ground (arith, rows r, placed g.grouped_rtts x (m.rtts i) r room),
      λ r h. elim (dec_lt 0 (packets_of m (suc i) n r)) [
        | yes more ↦ seen r more
        | no none_left ↦
            unseen r (omega arith)
            ∙ marked g.sent_ids x r (packets_of m (suc i) n r) h (omega arith)
      ],
      λ r h. unseen r (ground (arith, h)) ∙ not_marked g.sent_ids x r (packets_of m (suc i) n r) h,
    )

-- Requests without packets have no time, and no request has more packets than there are.
pub no_packets : (n i r : ℕ) (m : PacketMap) → packets_of m i n r ≡ 0 → slowest m i n r ≡ 0
no_packets zero i r m h = refl
no_packets (suc n) i r m h = ground (arith, h, no_packets n (suc i) r m)

pub not_sent :
    (n i r : ℕ) (m : PacketMap) (num_sent : ℕ)
    → ((k : ℕ) → i ≤ k → k < i + n → u32 (m.ids k) < num_sent)
    → num_sent ≤ r
    → packets_of m i n r ≡ 0
not_sent zero i r m num_sent h k = refl
not_sent (suc n) i r m num_sent h k = ground (
  arith,
  h i (omega arith) (omega arith),
  not_sent n (suc i) r m num_sent (λ j a b. h j (omega arith) (omega arith)) k,
)

untouched :
    (left r n : ℕ) (g : Groups) (j : ℕ)
    → j < r
    → ((clear_groups left r n g).sent_ids j ≡ g.sent_ids j)
      × ((clear_groups left r n g).grouped_rtts j ≡ g.grouped_rtts j)
unfolding clear_groups
untouched zero r n g j h = (refl, refl)
untouched (suc left) r n g j h =
    let g₁ : Groups = record {
      sent_ids = put g.sent_ids r 0;
      grouped_rtts = put g.grouped_rtts r (replicate n 0);
    } in
    let (same, same') = untouched left (suc r) n g₁ j (omega arith) in
    (same ∙ ground arith, same' ∙ ground arith)

-- The first loop empties the row of every request.
pub cleared :
    (left r n : ℕ) (g : Groups) (j : ℕ)
    → r ≤ j
    → j < r + left
    → ((clear_groups left r n g).sent_ids j ≡ 0)
      × ((clear_groups left r n g).grouped_rtts j ≡ replicate n 0)
unfolding clear_groups
cleared zero r n g j a b = absurd (omega arith)
cleared (suc left) r n g j a b = elim (dec_lt r j) [
  | yes later ↦ cleared left (suc r) n _ j (omega arith) (omega arith)
  | no p ↦
      let here : r ≡ j = omega arith in
      let g₁ : Groups = record {
        sent_ids = put g.sent_ids r 0;
        grouped_rtts = put g.grouped_rtts r (replicate n 0);
      } in
      let (same, same') = untouched left (suc r) n g₁ j (omega arith) in
      (same ∙ ground arith, same' ∙ ground arith)
]

pub all_empty : (n : ℕ) → (occurrences 0 (replicate n 0) ≡ n) × (greatest (replicate n 0) ≡ 0)
all_empty zero = (refl, refl)
all_empty (suc n) = (ground (arith, all_empty n), ground (arith, all_empty n))
