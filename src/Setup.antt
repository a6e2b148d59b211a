-- ===== src/Setup.antt =====
-- Device setup, mlx5_init.c: the receive queue, up to where its rings are handed to the hardware.
-- What rdma-core and the allocator answer are arguments.
pub mod Areas
pub mod Log
pub mod Loops
pub mod Memory
pub mod Rings
pub mod Silence
pub mod Txq
mod Tests
use mlx5_netperf.Prelude.{
  ℕ, zero, suc, ◌+◌, ◌-◌, ◌*◌, ◌/◌, ◌%◌, ◌^◌, Bool, not, ◌&&◌, ◌||◌, Option, none, some, List, ltb,
  leb, ◌==◌, if◌then◌else◌, length, get_elem?, set,
}
use mlx5_netperf.Stddef.{is_power_of_two, align_up}
use mlx5_netperf.Prelude.Word.{u16, u32, u64, add32}
use mlx5_netperf.Prelude.Outcome.{Outcome, ok, err, fault, Errno, eperm, enomem, ◌>>=◌}
use mlx5_netperf.Mempool.{Mempool, alloc, create}
use mlx5_netperf.Rx.{RxCqe, RxState, rx_buf_head, update}

-- `__builtin_ctz`: the zero bits below the lowest one, for a number that has a one in its low bits
-- (32 of them are looked at).
unfoldable pub ctz : ℕ → ℕ → ℕ
ctz zero x = 0
ctz (suc bits) x = let higher = ctz bits (x / 2) in if x % 2 == 0 then suc higher else 0

-- A call of rdma-core: `none` where it succeeds, else the error that is handed on.
abbrev pub attempt : Option Errno → Outcome ℕ
attempt none = ok 0
attempt (some e) = err e

-- What rdma-core and `aligned_alloc` answer when the receive queue is created: the errors, the
-- sizes of the rings, and what their memory holds; `segments` is the byte count and the key of each
-- data segment. The entries `cqes` are of 64 bytes, as receiving reads them: `cqe_size` is 64.
pub record RxAnswers : Type 0 where
  pub create_cq : Option Errno
  pub create_wq : Option Errno
  pub modify_wq : Option Errno
  pub init_obj : Option Errno
  pub wqe_cnt : ℕ
  pub stride : ℕ
  pub cqe_cnt : ℕ
  pub cqe_size : ℕ
  pub segments : List (ℕ × ℕ)
  pub addrs : List ℕ
  pub cqes : List RxCqe
  pub buffers : Option (List ℕ)

-- The receive queue with the parts of it that only the setup writes.
pub record RxSetup : Type 0 where
  pub rx : RxState
  pub segments : List (ℕ × ℕ)
  pub rx_wq_log_stride : ℕ
  pub rx_cq_log_stride : ℕ

-- `NET_MTU + RX_BUF_TAIL`
abbrev pub rx_byte_count : ℕ
rx_byte_count = 9216 + 64

-- The rest of a round of the loop that fills the queue, with its buffer.
put_buffer : ℕ → ℕ → RxSetup → Outcome RxSetup
put_buffer i buf r =
    let s = r.rx in
    let v = s.rxq in
    let b = s.heap buf in
    if ltb i (length v.addrs) && ltb i (length v.buffers)
    then ok (record r {
      rx = record s {
        heap = update s.heap buf (record b { head_len = u32 s.pool.item_len });
        rxq = record v {
          addrs = set v.addrs i (u64 (buf + rx_buf_head));
          buffers = set v.buffers i buf;
          wq_head = add32 v.wq_head 1;
        };
      };
    })
    else fault

-- The loop that fills the queue from slot `i`, with the rounds left.
unfoldable pub fill_queue : ℕ → ℕ → ℕ → RxSetup → Outcome RxSetup
unfolding put_buffer
fill_queue zero i lkey r = ok r
fill_queue (suc left) i lkey r =
    if ltb i (length r.segments)
    then (alloc r.rx.pool >>= λ (buf, pool). elim buf [
      | none ↦ err enomem
      | some b ↦
          put_buffer i b (record r {
            rx = record (r.rx) { pool = pool };
            segments = set r.segments i (rx_byte_count, u32 lkey);
          })
          >>= λ r'. fill_queue left (i + 1) lkey r'
    ])
    else fault

-- The loop that hands the completions to the hardware; `set_cqe_owner` is what
-- `mlx5dv_set_cqe_owner` makes of the byte with the owner bit. The loop steps by `cqe_size` bytes
-- and receiving by those of a `struct mlx5_cqe64`; an entry here is both, so `cqe_size` is 64.
unfoldable pub hand_over : (ℕ → ℕ → ℕ) → ℕ → ℕ → List RxCqe → Outcome (List RxCqe)
hand_over set_cqe_owner zero i cqes = ok cqes
hand_over set_cqe_owner (suc left) i cqes = elim (get_elem? cqes i) [
  | none ↦ fault
  | some c ↦
      hand_over set_cqe_owner left (i + 1)
        (set cqes i (record c { cqe = record (c.cqe) { op_own = set_cqe_owner c.cqe.op_own 1 } }))
]

module _ (set_cqe_owner : ℕ → ℕ → ℕ) where
  -- `mlx5_init_rxq` from the allocation of the buffers on.
  unfoldable pub fill_rings : RxAnswers → ℕ → RxState → Outcome RxSetup
  unfolding fill_queue hand_over
  fill_rings a lkey s = elim (a.buffers) [
    | none ↦ err enomem
    | some buffers ↦
        fill_queue (a.wqe_cnt) 0 lkey (record {
          rx = record s {
            rxq = record (s.rxq) {
              cqes = a.cqes;
              cqe_cnt = a.cqe_cnt;
              wqe_cnt = a.wqe_cnt;
              addrs = a.addrs;
              buffers = buffers;
            };
          };
          segments = a.segments;
          rx_wq_log_stride = ctz 32 a.stride;
          rx_cq_log_stride = ctz 32 a.cqe_size;
        })
        >>= λ r. hand_over set_cqe_owner (a.cqe_cnt) 0 (a.cqes) >>= λ cqes. ok (record r {
          rx = record (r.rx) {
            rxq = record (r.rx.rxq) { cqes = cqes; wq_dbrec = u16 r.rx.rxq.wq_head };
          };
        })
  ]

  -- `mlx5_init_rxq`; `lkey` is the key of the memory region.
  unfoldable pub init_rxq : RxAnswers → ℕ → RxState → Outcome RxSetup
  unfolding fill_rings
  init_rxq a lkey s = attempt (a.create_cq) >>= λ _. attempt (a.create_wq) >>= λ _.
      attempt (a.modify_wq) >>= λ _. attempt (a.init_obj) >>= λ _.
      if is_power_of_two (a.stride) && is_power_of_two (a.cqe_size)
      then fill_rings a lkey s
      else fault
