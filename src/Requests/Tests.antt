-- ===== src/Requests/Tests.antt =====
-- The theorems on requests, at an array of three segments of 64 bytes, two requests of two
-- segments.
use mlx5_netperf.Prelude.{
  ℕ, ◌+◌, ◌<◌, ◌≡◌, refl, arith, some, true, List, [], ◌∷◌, length, get_elem?, replicate,
}
use mlx5_netperf.Prelude.Outcome.{ok, err, einval}
use mlx5_netperf.Requests.{
  ClientRequest, count_up, initialize_pointer_chasing, initialize_client_requests,
}
use mlx5_netperf.Requests.Chase.{EachOnce}
use mlx5_netperf.Requests.Offsets.{chase, initialize_client_requests_lem}

abbrev rand : ℕ → ℕ
rand i = 5 + i

abbrev memory : List ℕ
memory = 7 ∷ 7 ∷ 7 ∷ []

chased : initialize_pointer_chasing rand true (some memory) 192 64 ≡ ok (1 ∷ 0 ∷ 2 ∷ [])
unfolding initialize_pointer_chasing count_up
chased = refl

not_aligned : initialize_pointer_chasing rand true (some memory) 193 64 ≡ err einval
unfolding initialize_pointer_chasing
not_aligned = refl

initialize_client_requests_lem_example :
    (pointers : List ℕ) × (requests : List ClientRequest) × (r : ClientRequest)
    × (initialize_client_requests rand true (some memory) true (replicate 32 9) 2 1000 64 2 192
        ≡ ok requests)
    × EachOnce 3 pointers
    × (length requests ≡ 2)
    × (get_elem? requests 1 ≡ some r)
    × (r.packet_id ≡ 1)
    × (get_elem? r.segment_offsets 1 ≡ some (chase pointers 3 0))
    × (chase pointers 3 0 < 3)
initialize_client_requests_lem_example =
    initialize_client_requests_lem rand memory (replicate 32 9) 2 1000 64 2 3 1 1 (omega arith)
      (omega arith) refl (omega arith) (omega arith) (omega arith)
