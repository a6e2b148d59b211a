-- ===== src/Mbuf.antt =====
-- inc/base/mbuf.h: the descriptor of a packet buffer, `head` to `head + head_len`, of which the
-- `len` bytes from `data` on are the packet (release build: NETPERF_ASSERT is empty, BUG_ON not).
-- Pointers are addresses; `unsigned int` fields wrap at 2^32.
pub mod Bounds
pub mod Undo
mod Tests
use mlx5_netperf.Prelude.{
  ℕ, ◌+◌, ◌-◌, ◌%◌, ◌^◌, Bool, Option, none, some, List, ltb, leb, if◌then◌else◌, length,
}
use mlx5_netperf.Prelude.Word.{u32, sub32, add32, add64, sub64}
use mlx5_netperf.Prelude.Outcome.{Outcome, ok, fault, ◌>>=◌}

-- The functions that `m->release` points to; `unset` is the null pointer.
pub data Release : Type 0 where
  unset tx_completion zero_copy_tx_completion rx_completion : Release

-- `struct mbuf`; `next` is `none` where it is null. The union is its receive member.
pub record Mbuf : Type 0 where
  pub next : Option ℕ
  pub head : ℕ
  pub data_ptr : ℕ
  pub head_len : ℕ
  pub len : ℕ
  pub nb_segs : ℕ
  pub pkt_len : ℕ
  pub rss_hash : ℕ
  pub release_data : ℕ
  pub release : Release
  pub num_wqes : ℕ
  pub lkey : ℕ

-- `__mbuf_pull`: the new descriptor and the previous start of the packet.
unfoldable pub pull_unchecked : Mbuf → ℕ → ℕ × Mbuf
pull_unchecked m n = (m.data_ptr, record m { len = sub32 m.len n; data_ptr = add64 m.data_ptr n })

unfoldable pub pull : Mbuf → ℕ → Outcome (ℕ × Mbuf)
unfolding pull_unchecked
pull m n = if ltb m.len n then fault else ok (pull_unchecked m n)

-- `none` is the null pointer.
unfoldable pub pull_or_null : Mbuf → ℕ → Option ℕ × Mbuf
unfolding pull_unchecked
pull_or_null m n =
    if leb n m.len then (let (start, m') = pull_unchecked m n in (some start, m')) else (none, m)

unfoldable pub push : Mbuf → ℕ → ℕ × Mbuf
push m n =
    let start = sub64 m.data_ptr n in (start, record m { data_ptr = start; len = add32 m.len n })

unfoldable pub put : Mbuf → ℕ → ℕ × Mbuf
put m n = (add64 m.data_ptr m.len, record m { len = add32 m.len n })

unfoldable pub trim : Mbuf → ℕ → Outcome (ℕ × Mbuf)
trim m n =
    if ltb m.len n
    then fault
    else (let rest = sub32 m.len n in ok (add64 m.data_ptr rest, record m { len = rest }))

unfoldable pub reset : Mbuf → ℕ → Outcome Mbuf
reset m offset =
    let total_len = u32 (add64 (sub64 m.data_ptr m.head) m.len) in
    if ltb total_len offset
    then fault
    else ok (record m { data_ptr = add64 m.head offset; len = sub32 total_len offset })

unfoldable pub headroom : Mbuf → ℕ
headroom m = u32 (sub64 m.data_ptr m.head)

unfoldable pub tailroom : Mbuf → ℕ
tailroom m = u32 (sub64 (sub64 (add64 m.head m.head_len) m.data_ptr) m.len)

-- `mbuf_init`: the fields that it leaves alone keep their values.
unfoldable pub init : Mbuf → ℕ → ℕ → ℕ → Mbuf
init m head head_len reserve_len = record m {
  head = head;
  head_len = head_len;
  data_ptr = add64 head reserve_len;
  len = 0;
}

-- `mbuf_offset_ptr`
unfoldable pub offset_ptr : Mbuf → ℕ → ℕ
offset_ptr m off = add64 m.data_ptr off

-- `mbuf_copy`: the address that the bytes of `source` go to, and the new descriptor.
unfoldable pub copy : Mbuf → List ℕ → ℕ → ℕ × Mbuf
copy m source off = (add64 m.data_ptr off, record m { len = add32 m.len (u32 (length source)) })
