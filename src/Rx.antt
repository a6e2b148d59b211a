-- ===== src/Rx.antt =====
-- The receive queue: `mlx5_gather_rx` of mlx5_rxtx.c, `mlx5_refill_rxqueue` and `mbuf_fill_cqe` of
-- inc/mlx5_rxtx.h. An mbuf of the receive pool lies at the start of its own buffer.
pub mod Refill
pub mod Receive
mod Tests
use mlx5_netperf.Prelude.{
  ℕ, zero, suc, ◌+◌, ◌-◌, ◌*◌, ◌/◌, ◌%◌, ◌^◌, not, ◌&&◌, Option, none, some, List, [], ◌∷◌, ltb,
  ◌==◌, if◌then◌else◌, length, get_elem?, set, bit_and,
}
use mlx5_netperf.Prelude.Word.{u16, u32, u64, add32}
use mlx5_netperf.Prelude.Outcome.{Outcome, ok, fault, ◌>>=◌}
use mlx5_netperf.Mbuf.{Mbuf, init, rx_completion}
use mlx5_netperf.Mempool.{Mempool, alloc}
use mlx5_netperf.Tx.{Mlx5dv, Cqe, cqe_status, get_cqe_format}

-- `RX_BUF_HEAD`: the 80 bytes of a `struct mbuf`, up to twice the 64 bytes of a cache line.
abbrev pub rx_buf_head : ℕ
rx_buf_head = 128

-- A completion as receiving reads it, the numbers in the host's byte order.
pub record RxCqe : Type 0 where
  pub cqe : Cqe
  pub byte_cnt : ℕ
  pub rss_result : ℕ
  pub sop_drop_qpn : ℕ

-- `struct mlx5_rxq`; `addrs` is the address field of the data segment of each slot.
pub record Rxq : Type 0 where
  pub consumer_idx : ℕ
  pub cqes : List RxCqe
  pub cqe_cnt : ℕ
  pub cq_dbrec : ℕ
  pub wqe_cnt : ℕ
  pub wq_head : ℕ
  pub wq_dbrec : ℕ
  pub addrs : List ℕ
  pub buffers : List ℕ

-- The queue with what its functions change besides: the mbufs by address, the receive pool, and
-- the counter of dropped packets.
pub record RxState : Type 0 where
  pub rxq : Rxq
  pub heap : ℕ → Mbuf
  pub pool : Mempool
  pub total_dropped : ℕ

abbrev pub update : (ℕ → Mbuf) → ℕ → Mbuf → ℕ → Mbuf
update heap m b a = if a == m then b else heap a

unfoldable pub mbuf_fill_cqe : ℕ → Mbuf → RxCqe → Mbuf
mbuf_fill_cqe m b c = record (init b m b.head_len rx_buf_head) {
  len = c.byte_cnt;
  rss_hash = c.rss_result;
  release = rx_completion;
}

-- One round of the refill, whose buffer is `buf`.
unfoldable pub post_buffer : RxState → ℕ → Outcome RxState
post_buffer s buf =
    let v = s.rxq in
    let index = bit_and v.wq_head (v.wqe_cnt - 1) in
    let b = s.heap buf in
    if ltb index (length v.buffers) && ltb index (length v.addrs)
    then ok (record s {
      heap = update s.heap buf (record b { head_len = u32 s.pool.item_len });
      rxq = record v {
        wq_head = add32 v.wq_head 1;
        addrs = set v.addrs index (u64 (buf + rx_buf_head));
        buffers = set v.buffers index buf;
      };
    })
    else fault

-- The loop of the refill. Without a buffer left it writes through the null pointer before it tests
-- it, which faults.
unfoldable pub refill_loop : ℕ → RxState → Outcome RxState
unfolding post_buffer
refill_loop zero s = ok s
refill_loop (suc left) s = do
  (buf, pool) ← alloc s.pool
  elim buf [
    | none ↦ fault
    | some b ↦ post_buffer (record s { pool = pool }) b >>= λ s'. refill_loop left s'
  ]

unfoldable pub refill_rxqueue : ℕ → RxState → Outcome RxState
unfolding refill_loop
refill_rxqueue nrdesc s = do
  s' ← refill_loop nrdesc s
  ok (record s' { rxq = record (s'.rxq) { wq_dbrec = u16 s'.rxq.wq_head } })

module _ (dv : Mlx5dv) where
  -- One round of the loop: `none` where it breaks, else the mbuf received.
  unfoldable pub gather_rx_one : RxState → Outcome (Option (ℕ × RxState))
  gather_rx_one s =
      let v = s.rxq in
      elim (get_elem? v.cqes (bit_and v.consumer_idx (v.cqe_cnt - 1))) [
        | none ↦ fault
        | some c ↦
            let opcode = cqe_status dv c.cqe v.cqe_cnt v.consumer_idx in
            if opcode == dv.cqe_invalid
            then ok none
            else if not (opcode == dv.cqe_resp_send)
            then fault
            else if get_cqe_format c.cqe == 3
            then fault
            else elim (get_elem? v.buffers (bit_and c.cqe.wqe_counter (v.wqe_cnt - 1))) [
              | none ↦ fault
              | some m ↦ ok (
                  some (
                    m,
                    record s {
                      heap = update s.heap m (mbuf_fill_cqe m (s.heap m) c);
                      total_dropped = add32 s.total_dropped (c.sop_drop_qpn / 2 ^ 24);
                      rxq = record v { consumer_idx = add32 v.consumer_idx 1 };
                    },
                  ))
            ]
      ]

  unfoldable pub gather_rx_loop : ℕ → RxState → Outcome (List ℕ × RxState)
  unfolding gather_rx_one
  gather_rx_loop zero s = ok ([], s)
  gather_rx_loop (suc budget) s = do
    found ← gather_rx_one s
    elim found [
      | none ↦ ok ([], s)
      | some (m, s') ↦ gather_rx_loop budget s' >>= λ rest. ok (m ∷ rest.0, rest.1)
    ]

  -- `mlx5_gather_rx`; the length of the list is the count returned.
  unfoldable pub gather_rx : ℕ → RxState → Outcome (List ℕ × RxState)
  unfolding gather_rx_loop refill_rxqueue
  gather_rx budget s = do
    (ms, s') ← gather_rx_loop budget s
    if length ms == 0
        then ok (ms, s')
        else (refill_rxqueue (length ms) (record s' {
          rxq = record (s'.rxq) { cq_dbrec = bit_and s'.rxq.consumer_idx 0xffffff };
        })
            >>= λ s''. ok (ms, s''))
