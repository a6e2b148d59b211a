-- ===== src/Stddef/Wraps.antt =====
-- The wrap-safe comparisons order a window of half the range.
use mlx5_netperf.Prelude.{ℕ, ◌+◌, ◌^◌, ◌<◌, ◌≡◌, arith, ltb, leb}
use mlx5_netperf.Prelude.Word.{u32}
use mlx5_netperf.Stddef.{wraps_lt, wraps_lte, wraps_gt, wraps_gte}

-- Counters that never wrap, seen through 32 bits: while two of them are less than 2^31 apart,
-- each comparison of the wrapped values is the comparison of the counters.
pub wraps_compare :
    (a b : ℕ)
    → a < b + 2 ^ 31
    → b < a + 2 ^ 31
    → (wraps_lt (u32 a) (u32 b) ≡ ltb a b)
      × (wraps_lte (u32 a) (u32 b) ≡ leb a b)
      × (wraps_gt (u32 a) (u32 b) ≡ ltb b a)
      × (wraps_gte (u32 a) (u32 b) ≡ leb b a)
unfolding wraps_lt wraps_lte wraps_gt wraps_gte
wraps_compare a b h k = (ground arith, ground arith, ground arith, ground arith)
