-- ===== src/Setup/Areas.antt =====
-- Where the hardware may write after the setup: the areas of the posted buffers.
use mathlib.Core.List.{Mem, Pairwise, mem-cons, mem-append, exists_of_mem-map, Pairwise-append}
use mathlib.Core.Logic.Or
use mathlib.Core.Path.{subst}
use native.Mathlib.Bridge.{le_prop}
use mathlib.Core.HLevel.{×_prop}
use mathlib.Core.Logic.{∥∥₁_elim}
use mlx5_netperf.Prelude.{
  ℕ, ◌+◌, ◌*◌, ◌%◌, ◌^◌, ◌≤◌, ◌<◌, ◌≡◌, refl, sym, ◌∙◌, List, [], ◌∷◌, ◌++◌, map, arith, length,
  take, drop, length-take, take-append-drop, length-map, true, ◌/◌,
}
use mlx5_netperf.Mempool.Layout.{region_items, length-pool_items}
use mlx5_netperf.Mempool.Place.{Apart, Apart-prop, region_items-Apart, region_items_placed}
use mlx5_netperf.Rx.Refill.{packet_addr}
use mlx5_netperf.Prelude.Outcome.{ok}
use mlx5_netperf.Mempool.{Mempool, blank}
use mlx5_netperf.Rx.{RxState}
use mlx5_netperf.Setup.{RxAnswers, RxSetup, rx_byte_count, init_rxq}
use mlx5_netperf.Setup.Memory.{Kernel, pgsize_2mb, mempool_memory_init}
use mlx5_netperf.Setup.Memory.Pools.{Mapped, mempool_memory_init_lem}
use mlx5_netperf.Setup.Rings.{Granted, filled, init_rxq_lem}

-- Every item of `xs` has its bytes between `low` and `high`.
abbrev Held : ℕ → ℕ → ℕ → List ℕ → Type 0
Held item_len low high xs = (x : ℕ) → Mem x xs → (low ≤ x) × (x + item_len ≤ high)

-- The area of `rx_byte_count` bytes at `a` is between `low` and `high`.
abbrev pub Within : ℕ → ℕ → ℕ → Type 0
Within low high a = (low ≤ a) × (a + rx_byte_count ≤ high)

area-Within :
    (item_len low high x : ℕ)
    → 128 + rx_byte_count ≤ item_len
    → high < 2 ^ 64
    → low ≤ x
    → x + item_len ≤ high
    → Within low high (packet_addr x)
area-Within item_len low high x fits top p q = (omega arith, omega arith)

area-Apart :
    (item_len high x y : ℕ)
    → 128 + rx_byte_count ≤ item_len
    → high < 2 ^ 64
    → x + item_len ≤ high
    → y + item_len ≤ high
    → Apart item_len x y
    → Apart rx_byte_count (packet_addr x) (packet_addr y)
area-Apart item_len high x y fits top p q apart byte a b c d =
    apart byte (omega arith) (omega arith) (omega arith) (omega arith)

module _ (item_len low high : ℕ) (fits : 128 + rx_byte_count ≤ item_len) (top : high < 2 ^ 64) where
  areas-Within :
      (xs : List ℕ)
      → Held item_len low high xs
      → (a : ℕ) → Mem a (map packet_addr xs)
      → Within low high a
  areas-Within xs held a m =
      ∥∥₁_elim (exists_of_mem-map m) (×_prop le_prop le_prop) (λ (x, there, e).
        let (p, q) = held x there in
        subst (Within low high) e (area-Within item_len low high x fits top p q))

  areas-Apart :
      (xs : List ℕ)
      → Held item_len low high xs
      → Pairwise (Apart item_len) xs
      → Pairwise (Apart rx_byte_count) (map packet_addr xs)
  areas-Apart [] held Pairwise.nil = Pairwise.nil
  areas-Apart (x ∷ xs) held (Pairwise.cons first others) =
      Pairwise.cons
        (λ a m.
          ∥∥₁_elim (exists_of_mem-map m) (Apart-prop rx_byte_count (packet_addr x) a)
            (λ (y, there, e). subst (Apart rx_byte_count (packet_addr x)) e (
              area-Apart item_len high x y fits top (held x (mem-cons.1 (Or.inl refl))).1
                (held y (mem-cons.1 (Or.inr there))).1 (first y there))))
        (areas-Apart xs (λ y n. held y (mem-cons.1 (Or.inr n))) others)

split_at :
    (n : ℕ) (ys : List ℕ)
    → n ≤ length ys
    → (xs : List ℕ) × (rest : List ℕ) × (ys ≡ xs ++ rest) × (length xs ≡ n)
split_at n ys h =
    (take n ys, drop n ys, sym (take-append-drop n ys), omega (arith, length-take n ys))

-- With a pool that `mempool_memory_init` made of items large enough for a packet of 9280 bytes
-- behind the mbuf, and that has an item for each of the 2^k slots, `mlx5_init_rxq` succeeds, and
-- the areas that it gives the hardware to write packets to share no byte and lie in the pool's
-- region. The mapping, the calls of rdma-core and the allocations succeed, as the theorems on the
-- two functions ask for.
pub init_rxq-Apart :
    (kernel : Kernel) (memory : ℕ → ℕ) (mbuf_size mbufs_per_page num_pages buf len : ℕ)
    (set_cqe_owner : ℕ → ℕ → ℕ) (a : RxAnswers) (lkey k c : ℕ) (s : RxState) (old : List ℕ)
    → mbuf_size * mbufs_per_page * num_pages ≡ len
    → Mapped kernel buf len
    → 128 + rx_byte_count ≤ mbuf_size
    → len % pgsize_2mb ≡ 0
    → 2 ^ k ≤ len / pgsize_2mb * (pgsize_2mb / mbuf_size)
    → Granted a k c old
    → s.rxq.wq_head < 2 ^ 32
    → (m : Mempool) × (memory' : ℕ → ℕ) × (r : RxSetup) × (mempool_memory_init kernel true blank
          memory mbuf_size mbufs_per_page num_pages
        ≡ ok (m, memory'))
      × (init_rxq set_cqe_owner a lkey (record s { pool = m }) ≡ ok r)
      × (length r.rx.rxq.addrs ≡ 2 ^ k)
      × Pairwise (Apart rx_byte_count) r.rx.rxq.addrs
      × ((x : ℕ) → Mem x r.rx.rxq.addrs → Within buf (buf + len) x)
init_rxq-Apart kernel memory mbuf_size mbufs_per_page num_pages buf len set_cqe_owner a lkey k c s
      old product g fits whole enough granted h =
    let items = region_items buf len pgsize_2mb mbuf_size in
    let (m, memory', made, valid, free, _, _) =
      mempool_memory_init_lem kernel memory mbuf_size mbufs_per_page num_pages buf len product g
        (omega arith) whole in
    let (xs, rest, parts, count) = split_at (2 ^ k) items (
      omega (
        arith,
        length-pool_items (len / pgsize_2mb) 0 (pgsize_2mb / mbuf_size) buf pgsize_2mb mbuf_size,
      )) in
    let setup =
      init_rxq_lem set_cqe_owner a lkey k c (record s { pool = m }) old xs rest granted valid h
        (free ∙ parts) count in
    let held : Held mbuf_size buf (buf + len) xs = λ x there.
      let placed =
        region_items_placed buf len pgsize_2mb mbuf_size (omega arith) whole x
          (subst (Mem x) (sym parts) (mem-append.1 (Or.inl there))) in
      (placed.0, placed.1) in
    let apart : Pairwise (Apart mbuf_size) xs =
      ((Pairwise-append (Apart-prop mbuf_size)).0 (
        subst (Pairwise (Apart mbuf_size)) parts
          (region_items-Apart buf len pgsize_2mb mbuf_size (omega arith) whole))).0 in
    let below : buf + len < 2 ^ 64 = omega (arith, g.below_end) in
    (
      m,
      memory',
      filled set_cqe_owner a lkey k c (record s { pool = m }) xs,
      made,
      setup.0,
      length-map xs packet_addr ∙ count,
      areas-Apart mbuf_size buf (buf + len) fits below xs held apart,
      areas-Within mbuf_size buf (buf + len) fits below xs held,
    )
