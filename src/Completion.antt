-- ===== src/Completion.antt =====
-- The release functions of mbufs (inc/mlx5_rxtx.h) and `mbuf_free` (inc/base/mbuf.h): they give
-- buffers and descriptors back to the pools, and count down the segments that were sent.
pub mod Chain
pub mod Counted
pub mod Heap
mod Tests
use mlx5_netperf.Prelude.{ℕ, zero, suc, ◌-◌, ◌^◌, Option, none, some, ◌==◌, if◌then◌else◌}
use mlx5_netperf.Prelude.Outcome.{Outcome, ok, fault, ◌>>=◌}
use mlx5_netperf.Mbuf.{Mbuf, Release, unset, tx_completion, zero_copy_tx_completion, rx_completion}
use mlx5_netperf.Mempool.{Mempool, free}
use mlx5_netperf.Refcnt.{Refcnts, server_change_refcnt}

-- The globals of mlx5_rxtx.h, and the mbufs by address. Giving an mbuf back leaves its fields.
pub record World : Type 0 where
  pub heap : ℕ → Mbuf
  pub rx_buf_mempool : Mempool
  pub tx_buf_mempool : Mempool
  pub mbuf_mempool : Mempool
  pub using_ref_counting : ℕ
  pub refcnts : Refcnts

free_mbuf : World → ℕ → Outcome World
free_mbuf w m = do pool ← free w.mbuf_mempool m; ok (record w { mbuf_mempool = pool })

-- `server_change_refcnt(m->release_data, -1)`, whose result only a warning reads.
drop_reference : World → ℕ → Outcome World
drop_reference w m =
    if w.using_ref_counting == 1
    then (server_change_refcnt w.refcnts (w.heap m).release_data (2 ^ 16 - 1) >>= λ changed.
        ok (record w { refcnts = changed.1 }))
    else ok w

-- The first argument bounds the rounds of the loop: a chain that it does not end is a fault.
release_zero_copy : ℕ → World → Option ℕ → Outcome World
release_zero_copy rounds w none = ok w
release_zero_copy zero w (some m) = fault
release_zero_copy (suc rounds) w (some m) = do
  w ← drop_reference w m
  w' ← free_mbuf w m
  release_zero_copy rounds w' (w.heap m).next

release_tx : ℕ → World → Option ℕ → Outcome World
release_tx rounds w none = ok w
release_tx zero w (some m) = fault
release_tx (suc rounds) w (some m) = do
  buffers ← free w.tx_buf_mempool (w.heap m).head
  w' ← free_mbuf (record w { tx_buf_mempool = buffers }) m
  release_tx rounds w' (w.heap m).next

release_rx : World → ℕ → Outcome World
release_rx w m = do
  buffers ← free w.rx_buf_mempool (w.heap m).head
  ok (record w { rx_buf_mempool = buffers })

-- The call through a null `release` follows the warning, and faults.
unfoldable pub mbuf_free : ℕ → World → ℕ → Outcome World
unfolding release_zero_copy release_tx release_rx drop_reference free_mbuf
mbuf_free rounds w m = elim (w.heap m).release [
  | unset ↦ fault
  | tx_completion ↦ release_tx rounds w (some m)
  | zero_copy_tx_completion ↦ release_zero_copy rounds w (some m)
  | rx_completion ↦ release_rx w m
]
