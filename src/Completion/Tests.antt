-- ===== src/Completion/Tests.antt =====
-- The theorems on releasing mbufs, at a chain of two mbufs at the addresses 1 and 2, which point
-- into segments 3 and 3 of the working set, or into the transmit buffers at 500 and 600.
use mlx5_netperf.Prelude.{
  ℕ, ◌≡◌, refl, Option, none, some, [], ◌∷◌, arith, ◌==◌, if◌then◌else◌, zero, suc,
}
use mlx5_netperf.Prelude.Outcome.{ok}
use mlx5_netperf.Mbuf.{Mbuf, Release, tx_completion, zero_copy_tx_completion}
use mlx5_netperf.Mempool.{Mempool, blank}
use mlx5_netperf.Refcnt.{Refcnts, read_count}
use mlx5_netperf.Completion.{World, mbuf_free}
use mlx5_netperf.Completion.Chain.{Linked, Holds, Returned, mbuf_free_tx}
use mlx5_netperf.Completion.Counted.{Covers, Dropped, mbuf_free_zero_copy}

abbrev one_of : Release → Option ℕ → ℕ → Mbuf
one_of release next head = record {
  next = next;
  head = head;
  data_ptr = head;
  head_len = 100;
  len = 40;
  nb_segs = 2;
  pkt_len = 80;
  rss_hash = 0;
  release_data = 3;
  release = release;
  num_wqes = 1;
  lkey = 0;
}

abbrev chain : Release → ℕ → Mbuf
chain release m = if m == 1 then one_of release (some 2) 500 else one_of release none 600

-- Both items of the pool are in use.
abbrev in_use : ℕ → ℕ → Mempool
in_use a b = record blank { free_items = a ∷ b ∷ []; allocated = 2; capacity = 2 }

abbrev world : Release → World
world release = record {
  heap = chain release;
  rx_buf_mempool = blank;
  tx_buf_mempool = in_use 500 600;
  mbuf_mempool = in_use 1 2;
  using_ref_counting = 1;
  refcnts = record {
    arrays = (1 ∷ 1 ∷ []) ∷ (1 ∷ 5 ∷ []) ∷ [];
    num_refcnt_arrays = 2;
    num_total_segments = 2;
  };
}

in_use-Holds : (a b : ℕ) → Holds (in_use a b) 2
in_use-Holds a b = (omega arith, omega arith)

chain-Linked : (release : Release) → Linked (chain release) (some 1) (1 ∷ 2 ∷ [])
unfolding Linked
chain-Linked release = (refl, (refl, refl))

world-Covers : Covers (world zero_copy_tx_completion).refcnts (3 ∷ 3 ∷ [])
unfolding read_count
world-Covers zero h = ground arith
world-Covers (suc zero) h = ground arith
world-Covers (suc (suc zero)) h = ground arith
world-Covers (suc (suc (suc zero))) h = (5, refl, omega arith, omega arith)
world-Covers (suc (suc (suc (suc j)))) h = ground arith

mbuf_free_zero_copy_example :
    (counts : Refcnts) × (mbufs : Mempool) × (mbuf_free 2 (world zero_copy_tx_completion) 1
      ≡ ok (record (world zero_copy_tx_completion) { refcnts = counts; mbuf_mempool = mbufs }))
    × Dropped (world zero_copy_tx_completion).refcnts counts (3 ∷ 3 ∷ [])
    × Returned (1 ∷ 2 ∷ []) (in_use 1 2) mbufs
mbuf_free_zero_copy_example =
    mbuf_free_zero_copy (1 ∷ 2 ∷ []) 2 (world zero_copy_tx_completion) 1 refl (omega arith)
      (chain-Linked zero_copy_tx_completion) (in_use-Holds 1 2) refl (omega arith) world-Covers

mbuf_free_tx_example :
    (buffers mbufs : Mempool) × (mbuf_free 2 (world tx_completion) 1
      ≡ ok (record (world tx_completion) { tx_buf_mempool = buffers; mbuf_mempool = mbufs }))
    × Returned (500 ∷ 600 ∷ []) (in_use 500 600) buffers
    × Returned (1 ∷ 2 ∷ []) (in_use 1 2) mbufs
mbuf_free_tx_example =
    mbuf_free_tx (1 ∷ 2 ∷ []) 2 (world tx_completion) 1 refl (omega arith)
      (chain-Linked tx_completion) (in_use-Holds 500 600) (in_use-Holds 1 2)
