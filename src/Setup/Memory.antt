-- ===== src/Setup/Memory.antt =====
-- Device setup, mlx5_init.c: the memory of the pools and of the server's working set, with
-- mem_map_anom of mem.c. What the kernel and the allocator answer are arguments.
pub mod Pools
use mlx5_netperf.Prelude.{
  ℕ, ◌+◌, ◌-◌, ◌*◌, ◌^◌, Bool, not, ◌&&◌, ◌||◌, Option, none, some, ltb, leb, ◌==◌, if◌then◌else◌,
}
use mlx5_netperf.Stddef.{align_up}
use mlx5_netperf.Prelude.Word.{u64}
use mlx5_netperf.Prelude.Outcome.{Outcome, ok, err, fault, eperm, enomem, ◌>>=◌}
use mlx5_netperf.Mempool.{Mempool, create}

-- `MAP_FAILED`, which is -1, and the page sizes of inc/base/mem.h.
abbrev pub map_failed : ℕ
map_failed = 2 ^ 64 - 1

abbrev pub pgsize_4kb : ℕ
pgsize_4kb = 2 ^ 12

abbrev pub pgsize_2mb : ℕ
pgsize_2mb = 2 ^ 21

abbrev pub pgsize_1gb : ℕ
pgsize_1gb = 2 ^ 30

-- What the kernel answers for a region: the address of `mmap` at a base and a length, whether
-- `mbind` succeeds, and whether every page can be touched. `huge_1gb` tells whether the system's
-- headers have MAP_HUGE_1GB.
pub record Kernel : Type 0 where
  pub mmap : ℕ → ℕ → Option ℕ
  pub mbind_ok : ℕ → ℕ → Bool
  pub backed : ℕ → ℕ → Bool
  pub huge_1gb : Bool

-- `memset(buf, DEFAULT_CHAR, len)`; where the mapping failed it writes to no memory.
unfoldable pub fill_region : (ℕ → ℕ) → ℕ → ℕ → Outcome (ℕ → ℕ)
fill_region memory buf len =
    if (buf == map_failed) && ltb 0 len
    then fault
    else ok (λ a. if leb buf a && ltb a (buf + len) then 99 else memory a)

module _ (k : Kernel) where
  -- `__mem_map_anom` behind its test of the page size; the panic on a page that cannot be touched
  -- is a fault.
  unfoldable map_pages : ℕ → ℕ → Outcome ℕ
  map_pages base len = elim (k.mmap base len) [
    | none ↦ ok map_failed
    | some addr ↦
        if not (k.mbind_ok addr len)
        then ok map_failed
        else if k.backed addr len
        then ok addr
        else fault
  ]

  unfoldable pub mem_map_anom : ℕ → ℕ → ℕ → Outcome ℕ
  unfolding map_pages
  mem_map_anom base len pgsize =
      if (pgsize == pgsize_4kb) || (pgsize == pgsize_2mb) || ((pgsize == pgsize_1gb) && k.huge_1gb)
      then map_pages base (align_up len pgsize)
      else ok map_failed

  -- The address of the region, and the memory.
  unfoldable pub server_memory_init : (ℕ → ℕ) → ℕ → Outcome (ℕ × (ℕ → ℕ))
  unfolding mem_map_anom fill_region
  server_memory_init memory region_len = do
    buf ← mem_map_anom 0 region_len pgsize_2mb
    if buf == 0
        then err enomem
        else (fill_region memory buf region_len >>= λ memory'. ok (buf, memory'))

  -- `calloc_ok` is as in `create`. The 1 that is returned for a null pointer is the number of
  -- EPERM.
  unfoldable pub mempool_memory_init :
      Bool → Mempool → (ℕ → ℕ) → ℕ → ℕ → ℕ → Outcome (Mempool × (ℕ → ℕ))
  unfolding mem_map_anom fill_region
  mempool_memory_init calloc_ok m memory mbuf_size mbufs_per_page num_pages =
      let region_len = u64 (mbuf_size * mbufs_per_page * num_pages) in
      mem_map_anom 0 region_len pgsize_2mb >>= λ buf.
      if buf == 0
      then err eperm
      else (fill_region memory buf region_len >>= λ memory'.
          create calloc_ok m buf region_len pgsize_2mb mbuf_size >>= λ m'. ok (m', memory'))
