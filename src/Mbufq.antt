-- ===== src/Mbufq.antt =====
-- inc/net/mbufq.h: queues of mbufs, linked by their `next` pointers. Of the mbufs the links are all
-- that a queue uses; they are a function of the address, and a null pointer is `none`.
pub mod Queue
mod Tests
use mlx5_netperf.Prelude.{
  ℕ, zero, suc, ◌+◌, Bool, true, false, Option, none, some, List, [], ◌∷◌, ◌==◌, if◌then◌else◌,
}
use mlx5_netperf.Prelude.Outcome.{Outcome, ok, fault, ◌>>=◌}

-- `struct mbufq`; the tail of an empty queue has no meaning.
pub record Mbufq : Type 0 where
  pub head : Option ℕ
  pub tail : ℕ

abbrev pub Links : Type 0
Links = ℕ → Option ℕ

-- `m->next = n`
abbrev pub set_next : Links → ℕ → Option ℕ → Links
set_next next m n a = if a == m then n else next a

unfoldable pub push_tail : Links → Mbufq → ℕ → Links × Mbufq
push_tail next q m = elim q.head [
  | none ↦ (set_next next m none, record { head = some m; tail = m })
  | some h ↦ (set_next (set_next next m none) q.tail (some m), record q { tail = m })
]

unfoldable pub pop_head : Links → Mbufq → Option ℕ × Mbufq
pop_head next q = elim q.head [ none ↦ (none, q) | some h ↦ (some h, record q { head = next h }) ]

unfoldable pub is_empty : Mbufq → Bool
is_empty q = elim q.head [ none ↦ true | some h ↦ false ]

-- The links, the destination and the source.
unfoldable pub merge_to_tail : Links → Mbufq → Mbufq → Links × Mbufq × Mbufq
merge_to_tail next dst src = elim src.head [
  | none ↦ (next, dst, src)
  | some s ↦ elim dst.head [
    | none ↦ (next, record { head = some s; tail = src.tail }, record src { head = none })
    | some d ↦ (
      set_next next dst.tail (some s),
      record dst { tail = src.tail },
      record src { head = none },
    )
  ]
]

-- `mbufq_release`: the mbufs that it frees, in order; each is popped before it is freed. The first
-- argument bounds the rounds.
unfoldable pub release : ℕ → Links → Mbufq → Outcome (List ℕ)
unfolding pop_head
release zero next q = elim q.head [ none ↦ ok [] | some h ↦ fault ]
release (suc rounds) next q = elim (pop_head next q).0 [
  | none ↦ ok []
  | some m ↦ release rounds next (pop_head next q).1 >>= λ ms. ok (m ∷ ms)
]
