-- ===== src/Mbuf/Undo.antt =====
-- The four operations that move a packet's ends, two by two, and where they refuse.
use mlx5_netperf.Prelude.{ℕ, ◌≤◌, ◌<◌, ◌≡◌, none, arith}
use mlx5_netperf.Prelude.Outcome.{ok, fault}
use mlx5_netperf.Mbuf.{Mbuf, pull_unchecked, pull, pull_or_null, push, put, trim, tailroom}
use mlx5_netperf.Mbuf.Bounds.{IsValid}

-- Stripping at most the packet's bytes and prepending as many gives the mbuf back.
pub push-pull :
    (m : Mbuf) (n : ℕ) → IsValid m → n ≤ m.len → push (pull_unchecked m n).1 n ≡ (m.data_ptr, m)
unfolding push pull_unchecked
push-pull m n v h = ground arith

-- Appending at most the tailroom and trimming as much gives the mbuf back, and the trim returns
-- the address that the append returned.
pub trim-put :
    (m : Mbuf) (n : ℕ) → IsValid m → n ≤ tailroom m → trim (put m n).1 n ≡ ok ((put m n).0, m)
unfolding put trim tailroom
trim-put m n v h = ground arith

-- Of more bytes than the packet has, `mbuf_pull` and `mbuf_trim` stop the program, and
-- `mbuf_pull_or_null` returns the null pointer and changes nothing.
pub too_long :
    (m : Mbuf) (n : ℕ)
    → m.len < n
    → (pull m n ≡ fault) × (trim m n ≡ fault) × (pull_or_null m n ≡ (none, m))
unfolding pull trim pull_or_null
too_long m n h = ground arith
