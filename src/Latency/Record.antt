-- ===== src/Latency/Record.antt =====
-- What is recorded, and what happens where an array is full.
use mlx5_netperf.Prelude.{
  ℕ, zero, suc, ◌+◌, ◌^◌, ◌≤◌, ◌<◌, ◌≡◌, refl, ap, ap₂, true, false, List, [], ◌∷◌, ◌++◌, arith,
  ltb, leb, if◌then◌else◌,
}
use mlx5_netperf.Prelude.Word.{add64}
use mlx5_netperf.Prelude.Outcome.{ok, fault}
use mlx5_netperf.Latency.{PacketMap, LatencyDist, put, add_latency_to_map, add_latency, cmpfunc}

-- The first `n` entries of an array, from `i` on.
abbrev pub entries : (ℕ → ℕ) → ℕ → ℕ → List ℕ
entries f i zero = []
entries f i (suc n) = f i ∷ entries f (suc i) n

entries-put : (f : ℕ → ℕ) (i n k x : ℕ) → i + n ≤ k → entries (put f k x) i n ≡ entries f i n
entries-put f i zero k x h = refl
entries-put f i (suc n) k x h =
    ap₂ (λ y l. y ∷ l) (ground arith) (entries-put f (suc i) n k x (omega arith))

pub entries-snoc :
    (f : ℕ → ℕ) (i n k x : ℕ)
    → k ≡ i + n
    → entries (put f k x) i (suc n) ≡ entries f i n ++ (x ∷ [])
entries-snoc f i zero k x h = ap (λ y. y ∷ []) (ground arith)
entries-snoc f i (suc n) k x h =
    ap₂ (λ y l. y ∷ l) (ground arith) (entries-snoc f (suc i) n k x (omega arith))

-- What has been recorded.
abbrev pub recorded : LatencyDist → List ℕ
recorded d = entries d.latencies 0 d.total_count

-- With room, a latency is recorded behind the others, and the sum and the extremes take it in.
pub add_latency_lem :
    (d : LatencyDist) (latency : ℕ)
    → d.total_count < d.allocated
    → d.allocated < 2 ^ 32
    → (d' : LatencyDist) × (add_latency d latency ≡ ok (true, d'))
      × (recorded d' ≡ recorded d ++ (latency ∷ []))
      × (d'.allocated ≡ d.allocated)
      × (d'.total_count ≡ suc d.total_count)
unfolding add_latency
add_latency_lem d latency h small =
    let one_more : add64 d.total_count 1 ≡ suc d.total_count = omega arith in
    let room : ltb d.total_count d.allocated ≡ true = ground arith in
    let within : ltb d.allocated (suc d.total_count) ≡ false = ground arith in
    (
      record d {
        latencies = put d.latencies d.total_count latency;
        total_count = suc d.total_count;
        latency_sum = add64 d.latency_sum latency;
        min_latency = if ltb latency d.min_latency then latency else d.min_latency;
        max_latency = if ltb d.max_latency latency then latency else d.max_latency;
      },
      rw (room, one_more, within) refl,
      entries-snoc d.latencies 0 d.total_count d.total_count latency (omega arith),
      refl,
      refl,
    )

-- The tests for an overflow never fail: where an array is full, the store before the test is
-- already out of its bounds.
pub overflow_fault :
    (m : PacketMap) (d : LatencyDist) (rtt id latency : ℕ)
    → 1000000 ≤ m.total_count
    → d.allocated ≤ d.total_count
    → (add_latency_to_map m rtt id ≡ fault) × (add_latency d latency ≡ fault)
unfolding add_latency_to_map add_latency
overflow_fault m d rtt id latency h k = (ground arith, ground arith)

-- The comparison for sorting has the right sign where the latencies are less than 2^31 apart: it is
-- negative (2^31 or more, as a bit pattern) exactly where the first is smaller. Where the first is
-- larger by 2^31 up to 2^32, it is negative all the same.
pub cmpfunc_sign :
    (a b c : ℕ)
    → a < b + 2 ^ 31
    → b < a + 2 ^ 31
    → b < 2 ^ 64
    → 2 ^ 31 ≤ c
    → c < 2 ^ 32
    → (ltb (cmpfunc a b) (2 ^ 31) ≡ leb b a) × (cmpfunc (b + c) b ≡ c)
unfolding cmpfunc
cmpfunc_sign a b c h k small large wide = (ground arith, omega arith)
