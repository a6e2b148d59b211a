-- ===== src/Mbufq/Tests.antt =====
-- The theorems on queues, at a queue of the mbufs 1 and 2 and one of mbuf 3.
use mlx5_netperf.Prelude.{ℕ, ◌≡◌, refl, none, some, List, [], ◌∷◌, arith, ◌==◌, if◌then◌else◌}
use mlx5_netperf.Mbufq.{Mbufq, Links, push_tail, pop_head}
use mlx5_netperf.Mbufq.Queue.{Reaches, EndsAt, Holds, queue_refines}

abbrev links : Links
links a = if a == 1 then some 2 else none

abbrev two : Mbufq
two = record { head = some 1; tail = 2 }

abbrev single : Mbufq
single = record { head = some 3; tail = 3 }

two-Holds : Holds links two (1 ∷ 2 ∷ [])
unfolding Reaches EndsAt
two-Holds = record { reaches = (refl, (refl, refl)); ends = refl; once = λ a. ground arith }

single-Holds : Holds links single (3 ∷ [])
unfolding Reaches EndsAt
single-Holds = record { reaches = (refl, refl); ends = refl; once = λ a. ground arith }

queue_refines_example :
    (next' : Links) × (q' q'' : Mbufq) × (first : ℕ) × (rest : List ℕ) × (push_tail links two 3
      ≡ (next', q'))
    × Holds next' q' (1 ∷ 2 ∷ 3 ∷ [])
    × (1 ∷ 2 ∷ 3 ∷ [] ≡ first ∷ rest)
    × (pop_head next' q' ≡ (some first, q''))
    × Holds next' q'' rest
queue_refines_example = queue_refines links two (1 ∷ 2 ∷ []) 3 two-Holds refl
