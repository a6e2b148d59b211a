-- ===== src/Tx/Tests.antt =====
-- The theorems on the send queue, at a queue of two slots, with one completed send of mbuf 7.
use mlx5_netperf.Prelude.{
  ℕ, ◌≡◌, refl, true, false, none, some, List, [], ◌∷◌, arith, replicate, ◌==◌, if◌then◌else◌,
}
use mlx5_netperf.Prelude.Word.{add32}
use mlx5_netperf.Prelude.Outcome.{ok, fault}
use mlx5_netperf.Mbuf.{tx_completion}
use mlx5_netperf.Mempool.{blank}
use mlx5_netperf.Completion.{World}
use mlx5_netperf.Completion.Chain.{Linked}
use mlx5_netperf.Tx.Example.{dv}
use mlx5_netperf.Tx.{Cqe, Heap, Txq, nr_inflight_tx, gather_completions}
use mlx5_netperf.Tx.Gather.{Send, gather_completions_lem}
use mlx5_netperf.Tx.Ring.{get_segment, end_ptr, inline_data, fill_dpsegs}
use mlx5_netperf.Tx.Ring.Inline.{FitsRing, Written, inline_data_lem, inline_data_fault}
use mlx5_netperf.Tx.Ring.Scatter.{dpsegs, fill_dpsegs_lem}
use mlx5_netperf.Tx.Post.{
  RequestHeader, set_num_wqes, num_hdr_segs, num_dpsegs, num_wqes, free_wqes, fill_tx_segment,
  transmit_one, transmit_batch,
}
use mlx5_netperf.Tx.Post.Fill.{Geometry, qpn_ds, opmod_idx, fill_tx_segment_lem}
use mlx5_netperf.Tx.Post.Full.{refused}

-- Mbuf 7 has mbuf 8 behind it.
abbrev heap : Heap
heap m = record {
  next = if m == 7 then some 8 else none;
  head = 0;
  data_ptr = 500;
  head_len = 100;
  len = 40;
  nb_segs = 2;
  pkt_len = 80;
  rss_hash = 0;
  release_data = 0;
  release = tx_completion;
  num_wqes = 1;
  lkey = 3;
}

abbrev done : Cqe
done = record { op_own = 0; wqe_counter = 0 }

abbrev not_written : Cqe
not_written = record { op_own = 0xf1; wqe_counter = 0 }

abbrev queue : List Cqe → ℕ → Txq
queue cqes sq_head = record {
  buffers = 7 ∷ 0 ∷ [];
  buf = replicate 128 0;
  wqe_cnt = 2;
  stride = 64;
  tx_sq_log_stride = 6;
  qp_num = 5;
  sq_head = sq_head;
  sq_dbrec = 0;
  bf_reg = [];
  cqes = cqes;
  cqe_cnt = 2;
  cq_head = 0;
  true_cq_head = 0;
  cq_dbrec = 0;
}

abbrev sent : Send
sent = record { mbuf = 7; pos = 0; wqes = 1 }

abbrev world : World
world = record {
  heap = heap;
  rx_buf_mempool = blank;
  tx_buf_mempool = blank;
  mbuf_mempool = blank;
  using_ref_counting = 0;
  refcnts = record { arrays = []; num_refcnt_arrays = 0; num_total_segments = 0 };
}

abbrev header : RequestHeader
header = record { eth = []; ipv4 = []; udp = []; packet_id = []; checksum = [] }

gather_completions_lem_example :
    gather_completions dv 32 heap (queue (done ∷ not_written ∷ []) 1)
    ≡ ok (
      7 ∷ [],
      record (queue (done ∷ not_written ∷ []) 1) { cq_head = 1; true_cq_head = 1; cq_dbrec = 1 },
    )
gather_completions_lem_example =
    gather_completions_lem dv heap (queue (done ∷ not_written ∷ []) 1) 1 1 (omega arith)
      (omega arith) refl refl 32 0 0 (sent ∷ [])
      (
        (done, (refl, omega arith, refl, refl, omega arith, refl)),
        (refl, refl),
        (not_written, refl, omega arith, omega arith),
      )

fits : FitsRing (queue [] 1)
unfolding end_ptr get_segment
fits = (refl, omega arith)

inline_data_lem_example :
    (buf' : List ℕ) × (inline_data dv (queue [] 1) 30 (1 ∷ 2 ∷ 3 ∷ 4 ∷ 5 ∷ 6 ∷ [])
      ≡ ok (record (queue [] 1) { buf = buf' }))
    × Written (replicate 128 0) 124 (1 ∷ 2 ∷ 3 ∷ 4 ∷ 5 ∷ 6 ∷ []) buf'
unfolding get_segment
inline_data_lem_example =
    inline_data_lem dv (queue [] 1) 30 (1 ∷ 2 ∷ 3 ∷ 4 ∷ 5 ∷ 6 ∷ []) fits (omega arith) (omega arith)

inline_data_fault_example : inline_data dv (queue [] 1) 34 (replicate 8 9) ≡ fault
unfolding get_segment
inline_data_fault_example =
    inline_data_fault dv (queue [] 1) 34 (replicate 8 9) fits (omega arith) (omega arith)
      (omega arith) (omega arith)

chain-Linked : Linked heap (some 7) (7 ∷ 8 ∷ [])
unfolding Linked
chain-Linked = (refl, (refl, refl))

fill_dpsegs_lem_example :
    (buf' : List ℕ) × (fill_dpsegs dv 2 heap 128 (some 7) 112 (replicate 128 0) ≡ ok buf')
    × Written (replicate 128 0) 112 (dpsegs dv heap (7 ∷ 8 ∷ [])) buf'
fill_dpsegs_lem_example =
    fill_dpsegs_lem dv heap (7 ∷ 8 ∷ []) 2 (some 7) 7 8 (replicate 128 0) (omega arith) chain-Linked
      refl (omega arith) (omega arith)

two_slots : Geometry (queue [] 1) 1
two_slots = record {
  power = refl;
  stride_is_64 = refl;
  log_stride_is_6 = refl;
  bytes = refl;
  records = refl;
  small = omega arith;
}

takes_one : num_wqes dv (heap 7) 0 ≡ 1
unfolding num_wqes num_hdr_segs num_dpsegs
takes_one = refl

one_free : free_wqes (queue [] 1) ≡ 1
unfolding free_wqes nr_inflight_tx
one_free = refl

fill_tx_segment_lem_example :
    (buf₁ buf₂ buf' : List ℕ) × (fill_tx_segment dv 2 world (queue [] 1) 7 header 0
      ≡ ok (
        true,
        record world { heap = set_num_wqes heap 7 (num_wqes dv (heap 7) 0) },
        record (queue [] 1) {
          buf = buf';
          buffers = 7 ∷ 7 ∷ [];
          sq_head = add32 1 (num_wqes dv (heap 7) 0);
        },
      ))
    × Written
        (replicate 128 0)
        64
        (dv.ctrl_seg (qpn_ds dv (queue [] 1) (heap 7)) (opmod_idx dv (queue [] 1)))
        buf₁
    × Written buf₁ 80 (dv.eth_seg 0) buf₂
    × Written buf₂ 96 (dpsegs dv heap (7 ∷ 8 ∷ [])) buf'
fill_tx_segment_lem_example =
    fill_tx_segment_lem dv 2 world (queue [] 1) 1 7 (7 ∷ 8 ∷ []) header two_slots chain-Linked
      (omega arith) (omega arith) (omega (arith, takes_one, one_free))

one_free_yet : free_wqes (queue (not_written ∷ not_written ∷ []) 1) ≡ 1
unfolding free_wqes nr_inflight_tx
one_free_yet = refl

-- Mbuf 7 goes into the second slot.
posted :
    (buf₁ buf₂ buf' : List ℕ) × (fill_tx_segment dv 2 world
        (queue (not_written ∷ not_written ∷ []) 1)
        7
        header
        0
      ≡ ok (
        true,
        record world { heap = set_num_wqes heap 7 (num_wqes dv (heap 7) 0) },
        record (queue (not_written ∷ not_written ∷ []) 1) {
          buf = buf';
          buffers = 7 ∷ 7 ∷ [];
          sq_head = add32 1 (num_wqes dv (heap 7) 0);
        },
      ))
posted =
    let (buf₁, buf₂, buf', done, _, _, _) =
      fill_tx_segment_lem dv 2 world (queue (not_written ∷ not_written ∷ []) 1) 1 7 (7 ∷ 8 ∷ [])
        header
        (record {
          power = refl;
          stride_is_64 = refl;
          log_stride_is_6 = refl;
          bytes = refl;
          records = refl;
          small = omega arith;
        })
        chain-Linked (omega arith) (omega arith) (omega (arith, takes_one, one_free_yet)) in
    (buf₁, buf₂, buf', done)

-- The queue once mbuf 7 is in its second slot.
abbrev posted_queue : Txq
posted_queue = record (queue (not_written ∷ not_written ∷ []) 1) {
  buf = posted.2;
  buffers = 7 ∷ 7 ∷ [];
  sq_head = add32 1 (num_wqes dv (heap 7) 0);
}

full : free_wqes (queue (not_written ∷ not_written ∷ []) 2) ≡ 0
unfolding free_wqes nr_inflight_tx
full = refl

refused_example :
    (v' : Txq) × (v' ≡ record (queue (not_written ∷ not_written ∷ []) 2) { cq_dbrec = 0 })
    × (fill_tx_segment dv 2 world (queue (not_written ∷ not_written ∷ []) 2) 7 header 0
        ≡ ok (false, world, v'))
    × (transmit_one dv 2 world (queue (not_written ∷ not_written ∷ []) 2) 7 header 0
        ≡ ok (false, world, v'))
    × (transmit_batch dv 2 world (queue (not_written ∷ not_written ∷ []) 2) ((7, header, 0) ∷ [])
        ≡ ok (0, world, v'))
refused_example =
    refused dv 2 world (queue (not_written ∷ not_written ∷ []) 2) 1 1 0 0 7 0 header []
      (omega arith) (omega arith) refl refl (omega arith)
      (not_written, refl, omega arith, omega arith) (omega (arith, full, takes_one))
