-- ===== src/Mbuf/Bounds.antt =====
-- The packet stays inside its buffer.
use mlx5_netperf.Prelude.{ℕ, ◌+◌, ◌-◌, ◌≤◌, ◌<◌, ◌^◌, ◌≡◌, arith}
use mlx5_netperf.Prelude.Outcome.{ok}
use mlx5_netperf.Mbuf.{Mbuf, pull_unchecked, pull, push, put, reset, headroom, tailroom, init}

-- The buffer does not run over the end of memory, and the packet lies inside it.
pub record IsValid (m : Mbuf) : Type 0 where
  pub from_head : m.head ≤ m.data_ptr
  pub to_tail : m.data_ptr + m.len ≤ m.head + m.head_len
  pub addressable : m.head + m.head_len < 2 ^ 64
  pub buffer_len : m.head_len < 2 ^ 32

-- Headroom, packet and tailroom of a valid mbuf make up its buffer, and no computation wraps.
pub room_lem : (m : Mbuf) → IsValid m → headroom m + m.len + tailroom m ≡ m.head_len
unfolding headroom tailroom
room_lem m v = omega arith

-- `mbuf_init` with less than the whole buffer reserved makes an empty valid packet, whose headroom
-- is what was reserved.
pub init-IsValid :
    (m : Mbuf) (head head_len reserve_len : ℕ)
    → reserve_len ≤ head_len
    → head + head_len < 2 ^ 64
    → head_len < 2 ^ 32
    → let m' = init m head head_len reserve_len in
      IsValid m' × (m'.len ≡ 0) × (headroom m' ≡ reserve_len)
unfolding init headroom
init-IsValid m head head_len reserve_len h a b = ground arith

-- `mbuf_pull` of at most the packet's length returns the old start of the packet, keeps a valid
-- mbuf valid and moves the bytes from the packet to the headroom.
pub pull_lem :
    (m : Mbuf) (n : ℕ)
    → IsValid m
    → n ≤ m.len
    → (m' : Mbuf) × (pull m n ≡ ok (m.data_ptr, m'))
      × IsValid m'
      × (headroom m' ≡ headroom m + n)
      × (m'.len + n ≡ m.len)
      × (tailroom m' ≡ tailroom m)
unfolding pull headroom tailroom
pull_lem m n v h =
    ((pull_unchecked m n).1, ground arith, ground arith, ground arith, ground arith, ground arith)

-- `mbuf_push` of at most the headroom keeps a valid mbuf valid, returns its new start, and moves
-- the bytes from the headroom to the packet.
pub push_lem :
    (m : Mbuf) (n : ℕ)
    → IsValid m
    → n ≤ headroom m
    → let (start, m') = push m n in
      IsValid m'
      × (start ≡ m'.data_ptr)
      × (headroom m' + n ≡ headroom m)
      × (m'.len ≡ m.len + n)
      × (tailroom m' ≡ tailroom m)
unfolding push headroom tailroom
push_lem m n v h = ground arith

-- `mbuf_put` of at most the tailroom keeps a valid mbuf valid, returns the old end of the packet,
-- and moves the bytes from the tailroom to the packet.
pub put_lem :
    (m : Mbuf) (n : ℕ)
    → IsValid m
    → n ≤ tailroom m
    → let (old_end, m') = put m n in
      IsValid m'
      × (old_end ≡ m.data_ptr + m.len)
      × (tailroom m' + n ≡ tailroom m)
      × (m'.len ≡ m.len + n)
      × (headroom m' ≡ headroom m)
unfolding put headroom tailroom
put_lem m n v h = ground arith

-- `mbuf_reset` to an offset up to the end of the packet keeps the packet's end and a valid mbuf
-- valid, and makes the offset the headroom.
pub reset_lem :
    (m : Mbuf) (offset : ℕ)
    → IsValid m
    → offset ≤ headroom m + m.len
    → (m' : Mbuf) × (reset m offset ≡ ok m')
      × IsValid m'
      × (headroom m' ≡ offset)
      × (tailroom m' ≡ tailroom m)
unfolding reset headroom tailroom
reset_lem m offset v h = (
  record m { data_ptr = m.head + offset; len = m.data_ptr - m.head + m.len - offset },
  ground arith,
  ground arith,
  ground arith,
  ground arith,
)
