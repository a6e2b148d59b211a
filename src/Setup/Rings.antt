-- ===== src/Setup/Rings.antt =====
-- What the setup of the receive queue leaves in its rings.
use mlx5_netperf.Prelude.{
  ℕ, ◌+◌, ◌^◌, ◌≤◌, ◌<◌, ◌≡◌, refl, sym, ◌∙◌, ap, some, none, List, [], ◌++◌, map, arith, length,
  length-map,
}
use mlx5_netperf.Prelude.Word.{u16, u32}
use mlx5_netperf.Prelude.Outcome.{ok}
use mlx5_netperf.Mempool.Stack.{IsValid, available}
use mlx5_netperf.Rx.{RxState}
use mlx5_netperf.Rx.Refill.{packet_addr, IsReady}
use mlx5_netperf.Setup.{ctz, RxSetup, RxAnswers, fill_rings, init_rxq}
use mlx5_netperf.Setup.Loops.{taken, sized, segment, owned, fill_queue_lem, hand_over_lem}
use mlx5_netperf.Setup.Log.{power_of_two}

-- Every call of rdma-core and the allocator succeeds for a queue of 2^k slots and 2^c completions,
-- with `old` in the memory for the buffers.
pub record Granted (a : RxAnswers) (k c : ℕ) (old : List ℕ) : Type 0 where
  pub cq_created : a.create_cq ≡ none
  pub wq_created : a.create_wq ≡ none
  pub wq_modified : a.modify_wq ≡ none
  pub obj_initialized : a.init_obj ≡ none
  pub slots : a.wqe_cnt ≡ 2 ^ k
  pub completions : a.cqe_cnt ≡ 2 ^ c
  pub stride_is_power : (e : ℕ) × (a.stride ≡ 2 ^ e) × e < 32
  pub cqe_size_is_power : (e : ℕ) × (a.cqe_size ≡ 2 ^ e) × e < 32
  pub all_segments : length a.segments ≡ 2 ^ k
  pub all_addrs : length a.addrs ≡ 2 ^ k
  pub all_cqes : length a.cqes ≡ 2 ^ c
  pub allocated : a.buffers ≡ some old
  pub all_buffers : length old ≡ 2 ^ k
  pub small : k ≤ 32

module _ (set_cqe_owner : ℕ → ℕ → ℕ) (a : RxAnswers) (lkey k c : ℕ) (s : RxState) where
  -- What the setup makes of the state `s` when it posts `xs`.
  abbrev pub filled : List ℕ → RxSetup
  filled xs = record {
    rx = record s {
      pool = taken (2 ^ k) s.pool;
      heap = sized s.pool.item_len xs s.heap;
      rxq = record (s.rxq) {
        cqes = map (owned set_cqe_owner) a.cqes;
        cqe_cnt = 2 ^ c;
        wqe_cnt = 2 ^ k;
        wq_head = u32 (s.rxq.wq_head + 2 ^ k);
        wq_dbrec = u16 (s.rxq.wq_head + 2 ^ k);
        addrs = map packet_addr xs;
        buffers = xs;
      };
    };
    segments = map (λ _. segment lkey) xs;
    rx_wq_log_stride = ctz 32 a.stride;
    rx_cq_log_stride = ctz 32 a.cqe_size;
  }

  -- The state in which the loop starts.
  abbrev begun : List ℕ → RxSetup
  begun old = record {
    rx = record s {
      rxq = record (s.rxq) {
        cqes = a.cqes;
        cqe_cnt = 2 ^ c;
        wqe_cnt = 2 ^ k;
        addrs = a.addrs;
        buffers = old;
      };
    };
    segments = a.segments;
    rx_wq_log_stride = ctz 32 a.stride;
    rx_cq_log_stride = ctz 32 a.cqe_size;
  }

  fill_rings_lem :
      (old xs rest : List ℕ)
      → Granted a k c old
      → IsValid s.pool
      → s.rxq.wq_head < 2 ^ 32
      → available s.pool ≡ xs ++ rest
      → length xs ≡ 2 ^ k
      → fill_rings set_cqe_owner a lkey s ≡ ok (filled xs)
  unfolding fill_rings
  fill_rings_lem old xs rest g v h av e =
      let (done, valid, left) =
        fill_queue_lem xs rest (begun old) s.pool s.heap s.rxq.wq_head 0 lkey [] [] [] a.segments
          a.addrs old v av h refl refl refl (g.all_segments ∙ sym e) (g.all_addrs ∙ sym e)
          (g.all_buffers ∙ sym e) in
      let handed = hand_over_lem set_cqe_owner 0 [] a.cqes refl in
      let low : u16 (u32 (s.rxq.wq_head + 2 ^ k)) ≡ u16 (s.rxq.wq_head + 2 ^ k) = omega arith in
      rw (g.allocated, g.slots, g.completions, rw e at done, rw g.all_cqes at handed)
        (ap
          (λ d. ok (record (filled xs) {
            rx = record ((filled xs).rx) { rxq = record ((filled xs).rx.rxq) { wq_dbrec = d } };
          }))
          low)

  -- Where every call succeeds and the pool has a free buffer for each of the 2^k slots,
  -- `mlx5_init_rxq` posts the next free buffers of the pool, in order, one in each slot, with the
  -- address of its packet, the byte count and the key, hands every completion to the hardware, and
  -- takes those buffers from the pool. The queue is then as refilling and receiving expect it, and
  -- the logarithms of the strides are those of the strides.
  pub init_rxq_lem :
      (old xs rest : List ℕ)
      → Granted a k c old
      → IsValid s.pool
      → s.rxq.wq_head < 2 ^ 32
      → available s.pool ≡ xs ++ rest
      → length xs ≡ 2 ^ k
      → (init_rxq set_cqe_owner a lkey s ≡ ok (filled xs))
        × IsReady (filled xs).rx k
        × (available (filled xs).rx.pool ≡ rest)
        × (2 ^ (filled xs).rx_wq_log_stride ≡ a.stride)
        × (2 ^ (filled xs).rx_cq_log_stride ≡ a.cqe_size)
  unfolding init_rxq
  init_rxq_lem old xs rest g v h av e =
      let (_, valid, left) =
        fill_queue_lem xs rest (begun old) s.pool s.heap s.rxq.wq_head 0 lkey [] [] [] a.segments
          a.addrs old v av h refl refl refl (g.all_segments ∙ sym e) (g.all_addrs ∙ sym e)
          (g.all_buffers ∙ sym e) in
      let (wq, wq_stride) = power_of_two a.stride g.stride_is_power in
      let (cq, cq_stride) = power_of_two a.cqe_size g.cqe_size_is_power in
      (
        rw (g.cq_created, g.wq_created, g.wq_modified, g.obj_initialized, wq, cq)
            (fill_rings_lem old xs rest g v h av e),
        record {
          power = refl;
          slots = e;
          segments = length-map xs packet_addr ∙ e;
          head_is_32_bits = omega arith;
          small = g.small;
          pool_is_valid = rw e at valid;
        },
        rw e at left,
        wq_stride,
        cq_stride,
      )
