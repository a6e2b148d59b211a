-- ===== src/Stddef.antt =====
-- The arithmetic macros and comparisons of inc/base/stddef.h.
pub mod Align
pub mod Wraps
mod Tests
use mlx5_netperf.Prelude.{
  ℕ, ◌+◌, ◌-◌, ◌*◌, ◌/◌, ◌^◌, Bool, true, false, not, ◌&&◌, ◌||◌, bit_and, bit_or, ltb, leb, ◌==◌,
}
use mlx5_netperf.Prelude.Word.{sub32, u64, sub64, add64}

-- `x != 0 && !(x & (x - 1))`
unfoldable pub is_power_of_two : ℕ → Bool
is_power_of_two x = not (x == 0) && (bit_and x (x - 1) == 0)

-- On `size_t` operands: at `x` = 0 the subtraction wraps to all ones, and the sum back to 0.
unfoldable pub align_up : ℕ → ℕ → ℕ
align_up x align = add64 (bit_or (sub64 x 1) (sub64 align 1)) 1

-- `x & ~(align - 1)`: the complement of a `size_t`.
unfoldable pub align_down : ℕ → ℕ → ℕ
align_down x align = bit_and x (2 ^ 64 - 1 - sub64 align 1)

-- `(x + d - 1) / d` on `size_t` operands.
unfoldable pub div_up : ℕ → ℕ → ℕ
div_up x d = sub64 (add64 x d) 1 / d

-- `(int32_t)a < 0` and `(int32_t)a <= 0`, for a 32-bit pattern.
abbrev negative32 : ℕ → Bool
negative32 a = leb (2 ^ 31) a

unfoldable pub wraps_lt : ℕ → ℕ → Bool
wraps_lt a b = negative32 (sub32 a b)

unfoldable pub wraps_lte : ℕ → ℕ → Bool
wraps_lte a b = negative32 (sub32 a b) || (sub32 a b == 0)

unfoldable pub wraps_gt : ℕ → ℕ → Bool
wraps_gt a b = negative32 (sub32 b a)

unfoldable pub wraps_gte : ℕ → ℕ → Bool
wraps_gte a b = negative32 (sub32 b a) || (sub32 b a == 0)
