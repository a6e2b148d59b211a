-- ===== src/Headers/Swap.antt =====
-- The byte swaps of inc/base/byteorder.h.
use mlx5_netperf.Prelude.{ℕ, ◌+◌, ◌*◌, ◌/◌, ◌%◌, ◌^◌, ◌<◌, ◌≡◌, refl, arith, bit_and, bit_or}
use mlx5_netperf.Prelude.Word.{u16, u32}
use mlx5_netperf.Prelude.Bits.{bit_and_ones, bit_and_high, bit_and_shift, bit_or_disjoint}
use mlx5_netperf.Headers.{bswap16, bswap32}

-- The bytes of a number below 2^16, in their two orders.
pub bswap16_lem : (v : ℕ) → v < 2 ^ 16 → bswap16 v ≡ v % 2 ^ 8 * 2 ^ 8 + v / 2 ^ 8
unfolding bswap16
bswap16_lem v h =
    let low : u16 (bit_and v 255 * 2 ^ 8) ≡ v % 2 ^ 8 * 2 ^ 8 = omega (arith, bit_and_ones 8 v) in
    let high : bit_and v 0xff00 / 2 ^ 8 ≡ v / 2 ^ 8 = omega (arith, bit_and_high 8 16 v _ h) in
    rw (low, high) (bit_or_disjoint 8 (v % 2 ^ 8) (v / 2 ^ 8) (omega arith))

-- One byte of a number, by its mask.
byte_of : (k v : ℕ) → bit_and v (255 * 2 ^ k) ≡ v / 2 ^ k % 2 ^ 8 * 2 ^ k
byte_of k v = rw (bit_and_shift k v 255, bit_and_ones 8 (v / 2 ^ k)) refl

pub bswap32_lem :
    (v : ℕ)
    → v < 2 ^ 32
    → bswap32 v
      ≡ (v % 2 ^ 8 * 2 ^ 8 + v / 2 ^ 8 % 2 ^ 8) * 2 ^ 16 + v / 2 ^ 16 % 2 ^ 8 * 2 ^ 8 + v / 2 ^ 24
unfolding bswap32
bswap32_lem v h =
    let b₀ : u32 (bit_and v 255 * 2 ^ 24) ≡ v % 2 ^ 8 * 2 ^ 24 = omega (arith, bit_and_ones 8 v) in
    let b₁ : u32 (bit_and v 0xff00 * 2 ^ 8) ≡ v / 2 ^ 8 % 2 ^ 8 * 2 ^ 16 =
      omega (arith, byte_of 8 v) in
    let b₂ : bit_and v 0xff0000 / 2 ^ 8 ≡ v / 2 ^ 16 % 2 ^ 8 * 2 ^ 8 =
      omega (arith, byte_of 16 v) in
    let b₃ : bit_and v 0xff000000 / 2 ^ 24 ≡ v / 2 ^ 24 = omega (arith, byte_of 24 v) in
    rw (b₀, b₁, b₂, b₃)
      (joined (v % 2 ^ 8) (v / 2 ^ 8 % 2 ^ 8) (v / 2 ^ 16 % 2 ^ 8) (v / 2 ^ 24) (omega arith)
        (omega arith) (omega arith))
  where
    joined :
        (a b c d : ℕ)
        → b < 2 ^ 8
        → c < 2 ^ 8
        → d < 2 ^ 8
        → bit_or (bit_or (bit_or (a * 2 ^ 24) (b * 2 ^ 16)) (c * 2 ^ 8)) d
          ≡ (a * 2 ^ 8 + b) * 2 ^ 16 + c * 2 ^ 8 + d
    joined a b c d hb hc hd =
        let one : bit_or (a * 2 ^ 24) (b * 2 ^ 16) ≡ (a * 2 ^ 8 + b) * 2 ^ 16 =
          omega (arith, bit_or_disjoint 24 a (b * 2 ^ 16) (omega arith)) in
        let two : bit_or ((a * 2 ^ 8 + b) * 2 ^ 16) (c * 2 ^ 8)
            ≡ (a * 2 ^ 16 + b * 2 ^ 8 + c) * 2 ^ 8 =
          omega (arith, bit_or_disjoint 16 (a * 2 ^ 8 + b) (c * 2 ^ 8) (omega arith)) in
        rw (one, two)
          (omega (arith, bit_or_disjoint 8 (a * 2 ^ 16 + b * 2 ^ 8 + c) d (omega arith)))

-- Swapping the bytes of a 16-bit and of a 32-bit number twice gives the number back; so a port or
-- an address that `htons` or `htonl` puts into a header is what `ntohs` or `ntohl` reads from it.
pub bswap-bswap :
    (v w : ℕ) → v < 2 ^ 16 → w < 2 ^ 32 → (bswap16 (bswap16 v) ≡ v) × (bswap32 (bswap32 w) ≡ w)
bswap-bswap v w h k = (
  omega (arith, bswap16_lem v h, bswap16_lem (bswap16 v) (omega (arith, bswap16_lem v h))),
  omega (arith, bswap32_lem w k, bswap32_lem (bswap32 w) (omega (arith, bswap32_lem w k))),
)
