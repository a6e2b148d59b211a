-- ===== src/Stddef/Tests.antt =====
-- Tests of inc/base/stddef.h, and its theorems at concrete inputs.
use mlx5_netperf.Prelude.{◌≡◌, refl, true, false}
use mlx5_netperf.Stddef.{is_power_of_two, align_up, align_down, wraps_lt, wraps_gte}

powers : (is_power_of_two 4096 ≡ true) × (is_power_of_two 0 ≡ false) × (is_power_of_two 96 ≡ false)
unfolding is_power_of_two
powers = (refl, refl, refl)

-- The size of `struct mbuf` rounded up to two cache lines, and the wrap at 0.
rounding : (align_up 88 128 ≡ 128) × (align_up 0 64 ≡ 0) × (align_down 200 64 ≡ 192)
unfolding align_up align_down
rounding = (refl, refl, refl)

after_the_wrap : (wraps_lt 0xffff_fffe 3 ≡ true) × (wraps_gte 0xffff_fffe 3 ≡ false)
unfolding wraps_lt wraps_gte
after_the_wrap = (refl, refl)
