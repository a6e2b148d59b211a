-- ===== src/Client/Required.antt =====
-- How many packets a request takes.
use mlx5_netperf.Prelude.{
  ℕ, suc, ap, ◌+◌, ◌-◌, ◌*◌, ◌/◌, ◌^◌, ◌≤◌, ◌<◌, ◌≡◌, refl, arith, ltb, ◌==◌, true, false,
}
use native.Mathlib.Decide.{dec_lt}
use native.Mathlib.Nat.{div-add-mod', mod-lt}
use mlx5_netperf.Prelude.Outcome.{ok}
use mlx5_netperf.Client.{ceiling, calculate_total_packets_required}

-- `n` packets of `q` segments each hold `a` segments, and no fewer packets do.
abbrev pub Least : ℕ → ℕ → ℕ → Type 0
Least a q n = (a ≤ n * q) × ((m : ℕ) → a ≤ m * q → n ≤ m)

-- A product is below the next multiple only where its factor is no larger.
le_of_mul : (n m q : ℕ) → n * q < m * q + q → n ≤ m
le_of_mul n m q h = elim (dec_lt m n) [
  | no p ↦ omega arith
  | yes p ↦ absurd (
      omega (
        arith,
        h,
        ap (λ (t : ℕ). t * q) {x = n} {y = suc m + (n - suc m)} (omega arith),
        distribute m (n - suc m) q,
      ))
]
  where
    distribute : (m x q : ℕ) → (suc m + x) * q ≡ q + m * q + x * q
    distribute m x q = grind arith

ceiling-Least : (a q : ℕ) → 0 < q → Least a q (ceiling a q)
ceiling-Least a q h = (
  omega (arith, div-add-mod' (a + q - 1) q, mod-lt (a + q - 1) {m = q} h),
  λ m k. le_of_mul (ceiling a q) m q (omega (arith, k, h, div-add-mod' (a + q - 1) q)),
)

le_multiple : (a q : ℕ) → 0 < q → a ≤ a * q
le_multiple a q h = grind arith

-- For segments of 1 to 8192 bytes, the number is the least one of packets that hold them all, where
-- a packet holds as many whole segments as fit into 8192 bytes; for one longer segment, it is the
-- least one of packets of 8192 bytes that hold its bytes. Sizes have 32 bits, and there are fewer
-- than 2^31 segments, so that the number is an `int`.
pub calculate_total_packets_required_lem :
    (seg_size nb_segs long : ℕ)
    → 0 < seg_size
    → seg_size ≤ 8192
    → 8192 < long
    → long < 2 ^ 32
    → nb_segs < 2 ^ 31
    → (n l : ℕ) × (calculate_total_packets_required seg_size nb_segs ≡ ok n)
      × Least nb_segs (8192 / seg_size) n
      × (calculate_total_packets_required long 1 ≡ ok l)
      × Least long 8192 l
unfolding calculate_total_packets_required
calculate_total_packets_required_lem seg_size nb_segs long h k more word few =
    let fits : ltb 8192 seg_size ≡ false = ground arith in
    let some_size : (seg_size == 0) ≡ false = ground arith in
    let too_long : ltb 8192 long ≡ true = ground arith in
    let fit_once : 0 < 8192 / seg_size = grind arith in
    let least = ceiling-Least nb_segs (8192 / seg_size) fit_once in
    let in_int : ltb (ceiling nb_segs (8192 / seg_size)) (2 ^ 31) ≡ true =
      ground (arith, least.1 nb_segs (le_multiple nb_segs (8192 / seg_size) fit_once)) in
    let long_in_int : ltb (ceiling long 8192) (2 ^ 31) ≡ true = ground arith in
    (
      ceiling nb_segs (8192 / seg_size),
      ceiling long 8192,
      rw (fits, some_size, in_int) refl,
      least,
      rw (too_long, long_in_int) refl,
      ceiling-Least long 8192 (omega arith),
    )
