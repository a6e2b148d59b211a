-- ===== src/Setup/Memory/Pools.antt =====
-- The memory of a pool: its region, its content and its items.
use mlx5_netperf.Prelude.{
  Bool, ℕ, ◌==◌, ◌+◌, ◌*◌, ◌%◌, ◌^◌, ◌≤◌, ◌<◌, ◌≡◌, ◌≢◌, refl, none, some, arith, true, false, ltb,
  leb, ◌&&◌, if◌then◌else◌,
}
use mlx5_netperf.Stddef.{align_up}
use mlx5_netperf.Stddef.Align.{is_power_of_two_iff}
use mlx5_netperf.Prelude.Word.{u64}
use mlx5_netperf.Prelude.Outcome.{ok, fault}
use mlx5_netperf.Mempool.{Mempool, blank, create}
use mlx5_netperf.Mempool.Stack.{IsValid, available}
use mlx5_netperf.Mempool.Layout.{region_items, create_lem}
use mlx5_netperf.Setup.Memory.{
  Kernel, map_pages, map_failed, pgsize_2mb, mem_map_anom, fill_region, server_memory_init,
  mempool_memory_init,
}

-- The kernel maps `len` bytes, in whole pages of 2 MB, at `buf`.
pub record Mapped (k : Kernel) (buf len : ℕ) : Type 0 where
  pub mapped : k.mmap 0 (align_up len pgsize_2mb) ≡ some buf
  pub bound : k.mbind_ok buf (align_up len pgsize_2mb) ≡ true
  pub touched : k.backed buf (align_up len pgsize_2mb) ≡ true
  pub not_null : buf ≢ 0
  pub below_end : buf + len < map_failed

-- Every byte of the region is the letter c, and the others are those of `memory`.
abbrev pub Lettered : (ℕ → ℕ) → ℕ → ℕ → (ℕ → ℕ) → Type 0
Lettered memory buf len memory' =
    (a : ℕ)
    → (buf ≤ a → a < buf + len → memory' a ≡ 99)
      × (a < buf → memory' a ≡ memory a)
      × (buf + len ≤ a → memory' a ≡ memory a)

-- The memory that `memset` leaves.
abbrev pub lettered : (ℕ → ℕ) → ℕ → ℕ → ℕ → ℕ
lettered memory buf len a = if leb buf a && ltb a (buf + len) then 99 else memory a

lettered-Lettered :
    (memory : ℕ → ℕ) (buf len : ℕ) → Lettered memory buf len (lettered memory buf len)
lettered-Lettered memory buf len a = (λ p q. ground arith, λ p. ground arith, λ p. ground arith)

module _ (k : Kernel) (buf len : ℕ) (g : Mapped k buf len) where
  mem_map_anom_lem : mem_map_anom k 0 len pgsize_2mb ≡ ok buf
  unfolding mem_map_anom
  mem_map_anom_lem = rw (map_pages, g.mapped, g.bound, g.touched) refl

  fill_region_lem : (memory : ℕ → ℕ) → fill_region memory buf len ≡ ok (lettered memory buf len)
  unfolding fill_region
  fill_region_lem memory = ground (arith, g.below_end)

  region_filled :
      (memory : ℕ → ℕ) (mbuf_size mbufs_per_page num_pages : ℕ) (m : Mempool)
      → mbuf_size * mbufs_per_page * num_pages ≡ len
      → create true blank buf len pgsize_2mb mbuf_size ≡ ok m
      → mempool_memory_init k true blank memory mbuf_size mbufs_per_page num_pages
        ≡ ok (m, lettered memory buf len)
  unfolding mempool_memory_init
  region_filled memory mbuf_size mbufs_per_page num_pages m product made =
      let fits : u64 len ≡ len = omega (arith, g.below_end) in
      let not_null : (buf == 0) ≡ false = ground (arith, g.not_null) in
      rw (product, fits, mem_map_anom_lem, not_null, fill_region_lem memory, made) refl

mem_map_anom-failed :
    (k : Kernel) (len : ℕ)
    → k.mmap 0 (align_up len pgsize_2mb) ≡ none
    → mem_map_anom k 0 len pgsize_2mb ≡ ok map_failed
unfolding mem_map_anom
mem_map_anom-failed k len h = rw (map_pages, h) refl

-- For an item size above 0 and a region of `len` bytes, which is a multiple of 2 MB and below 2^64,
-- that the kernel maps at `buf`, and with memory for the array of free items, `mempool_memory_init`
-- returns a valid pool over that region in which exactly the items of the region are free, each
-- byte of the region the letter c and no other byte changed.
pub mempool_memory_init_lem :
    (k : Kernel) (memory : ℕ → ℕ) (mbuf_size mbufs_per_page num_pages buf len : ℕ)
    → mbuf_size * mbufs_per_page * num_pages ≡ len
    → Mapped k buf len
    → 0 < mbuf_size
    → len % pgsize_2mb ≡ 0
    → (m : Mempool) × (memory' : ℕ → ℕ) × (mempool_memory_init k true blank memory mbuf_size
          mbufs_per_page num_pages
        ≡ ok (m, memory'))
      × IsValid m
      × (available m ≡ region_items buf len pgsize_2mb mbuf_size)
      × (m.item_len ≡ mbuf_size)
      × Lettered memory buf len memory'
mempool_memory_init_lem k memory mbuf_size mbufs_per_page num_pages buf len product g p whole =
    let (m, made, valid, items, _, _, _, item_len) =
      create_lem buf len pgsize_2mb mbuf_size p ((is_power_of_two_iff pgsize_2mb).1 (21, refl))
        whole (omega (arith, g.below_end)) in
    (
      m,
      lettered memory buf len,
      region_filled k buf len g memory mbuf_size mbufs_per_page num_pages m product made,
      valid,
      items,
      item_len,
      lettered-Lettered memory buf len,
    )

-- Where `mmap` fails for a region that is not empty, `mempool_memory_init` and `server_memory_init`
-- do not return an error: they write through MAP_FAILED.
pub mmap_failure_fault :
    (k : Kernel) (calloc_ok : Bool) (m : Mempool) (memory : ℕ → ℕ)
    (mbuf_size mbufs_per_page num_pages len : ℕ)
    → mbuf_size * mbufs_per_page * num_pages ≡ len
    → 0 < len
    → len < 2 ^ 64
    → k.mmap 0 (align_up len pgsize_2mb) ≡ none
    → (mempool_memory_init k calloc_ok m memory mbuf_size mbufs_per_page num_pages ≡ fault)
      × (server_memory_init k memory len ≡ fault)
unfolding mempool_memory_init server_memory_init fill_region
mmap_failure_fault k calloc_ok m memory mbuf_size mbufs_per_page num_pages len product p q failed =
    let fits : u64 len ≡ len = omega arith in
    let some_bytes : ltb 0 len ≡ true = ground arith in
    (
      rw (product, fits, mem_map_anom-failed k len failed, some_bytes) refl,
      rw (mem_map_anom-failed k len failed, some_bytes) refl,
    )
