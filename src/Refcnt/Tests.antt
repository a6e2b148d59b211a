-- ===== src/Refcnt/Tests.antt =====
-- The theorems on reference counts, at two arrays of four segments.
use mlx5_netperf.Prelude.{◌≡◌, refl, true, false, [], ◌∷◌}
use mlx5_netperf.Prelude.Outcome.{err, enomem}
use mlx5_netperf.Refcnt.{Refcnts, alloc_arrays, server_init_refcnt_array}

abbrev small : Refcnts
small = record {
  arrays = (1 ∷ 1 ∷ 1 ∷ 1 ∷ []) ∷ (1 ∷ 7 ∷ 1 ∷ 1 ∷ []) ∷ [];
  num_refcnt_arrays = 2;
  num_total_segments = 4;
}

out_of_memory : server_init_refcnt_array (true ∷ true ∷ false ∷ []) small 4 ≡ err enomem
unfolding server_init_refcnt_array alloc_arrays
out_of_memory = refl
