-- ===== src/Setup/Tests.antt =====
-- The theorems on the setup, at a region of 2 MB in items of 16 KB and a receive queue of two
-- slots.
use mathlib.Core.List.{Mem, Pairwise}
use mlx5_netperf.Prelude.{
  ℕ, ◌+◌, ◌-◌, ◌%◌, ◌^◌, ◌≡◌, refl, true, none, some, [], ◌∷◌, replicate, arith, length,
}
use mlx5_netperf.Prelude.Outcome.{ok, fault}
use mlx5_netperf.Mbuf.{unset}
use mlx5_netperf.Mempool.{Mempool, blank}
use mlx5_netperf.Mempool.Stack.{IsValid, available}
use mlx5_netperf.Mempool.Place.{Apart}
use mlx5_netperf.Tx.Example.{dv}
use mlx5_netperf.Rx.{RxCqe, RxState, gather_rx}
use mlx5_netperf.Rx.Refill.{IsReady}
use mlx5_netperf.Setup.{RxAnswers, RxSetup, rx_byte_count, init_rxq}
use mlx5_netperf.Setup.Memory.{Kernel, mempool_memory_init, server_memory_init}
use mlx5_netperf.Setup.Memory.Pools.{Mapped, mmap_failure_fault}
use mlx5_netperf.Setup.Rings.{Granted, filled, init_rxq_lem}
use mlx5_netperf.Setup.Silence.{SetsOwner, init_rxq-gather_rx}
use mlx5_netperf.Setup.Areas.{Within, init_rxq-Apart}

abbrev region : ℕ
region = 2 ^ 30

abbrev kernel : Kernel
kernel = record {
  mmap = λ base len. some region;
  mbind_ok = λ addr len. true;
  backed = λ addr len. true;
  huge_1gb = true;
}

-- A kernel without huge pages.
abbrev refusing : Kernel
refusing = record kernel { mmap = λ base len. none }

abbrev memory : ℕ → ℕ
memory a = 0

mapped : Mapped kernel region (2 ^ 21)
mapped = record {
  mapped = refl;
  bound = refl;
  touched = refl;
  not_null = λ e. absurd (omega (arith, e));
  below_end = omega arith;
}

-- The owner bit, with the other bits kept.
abbrev set_cqe_owner : ℕ → ℕ → ℕ
set_cqe_owner b o = b % 2 ^ 8 - b % 2 + o % 2

abbrev report : RxCqe
report = record {
  cqe = record { op_own = 0xf0; wqe_counter = 0 };
  byte_cnt = 0;
  rss_result = 0;
  sop_drop_qpn = 0;
}

abbrev answers : RxAnswers
answers = record {
  create_cq = none;
  create_wq = none;
  modify_wq = none;
  init_obj = none;
  wqe_cnt = 2;
  stride = 16;
  cqe_cnt = 2;
  cqe_size = 64;
  segments = replicate 2 (0, 0);
  addrs = replicate 2 0;
  cqes = replicate 2 report;
  buffers = some (replicate 2 0);
}

abbrev state : RxState
state = record {
  rxq = record {
    consumer_idx = 0;
    cqes = [];
    cqe_cnt = 0;
    cq_dbrec = 0;
    wqe_cnt = 0;
    wq_head = 0;
    wq_dbrec = 0;
    addrs = [];
    buffers = [];
  };
  heap = λ m. record {
    next = none;
    head = m;
    data_ptr = m;
    head_len = 0;
    len = 0;
    nb_segs = 1;
    pkt_len = 0;
    rss_hash = 0;
    release_data = 0;
    release = unset;
    num_wqes = 0;
    lkey = 0;
  };
  pool = record blank { free_items = 4096 ∷ 8192 ∷ 12288 ∷ []; capacity = 3; item_len = 16384 };
  total_dropped = 0;
}

granted : Granted answers 1 1 (replicate 2 0)
granted = record {
  cq_created = refl;
  wq_created = refl;
  wq_modified = refl;
  obj_initialized = refl;
  slots = refl;
  completions = refl;
  stride_is_power = (4, refl, omega arith);
  cqe_size_is_power = (6, refl, omega arith);
  all_segments = refl;
  all_addrs = refl;
  all_cqes = refl;
  allocated = refl;
  all_buffers = refl;
  small = omega arith;
}

valid : IsValid state.pool
valid = record { full = refl; within = omega arith; small = omega arith }

sets_owner : SetsOwner set_cqe_owner
sets_owner b = (omega arith, omega arith)

mmap_failure_fault_example :
    (mempool_memory_init refusing true blank memory 16384 128 1 ≡ fault)
    × (server_memory_init refusing memory (2 ^ 21) ≡ fault)
mmap_failure_fault_example =
    mmap_failure_fault refusing true blank memory 16384 128 1 (2 ^ 21) refl (omega arith)
      (omega arith) refl

abbrev set_up : RxSetup
set_up = filled set_cqe_owner answers 7 1 1 state (4096 ∷ 8192 ∷ [])

init_rxq_lem_example :
    (init_rxq set_cqe_owner answers 7 state ≡ ok set_up)
    × IsReady set_up.rx 1
    × (available set_up.rx.pool ≡ 12288 ∷ [])
    × (2 ^ set_up.rx_wq_log_stride ≡ 16)
    × (2 ^ set_up.rx_cq_log_stride ≡ 64)
init_rxq_lem_example =
    init_rxq_lem set_cqe_owner answers 7 1 1 state (replicate 2 0) (4096 ∷ 8192 ∷ []) (12288 ∷ [])
      granted valid (omega arith) refl refl

init_rxq-gather_rx_example :
    (r : RxSetup) × (init_rxq set_cqe_owner answers 7 state ≡ ok r)
    × (gather_rx dv 32 r.rx ≡ ok ([], r.rx))
init_rxq-gather_rx_example =
    init_rxq-gather_rx set_cqe_owner dv 32 answers 7 1 1 state (replicate 2 0) (4096 ∷ 8192 ∷ [])
      (12288 ∷ []) sets_owner (omega arith) refl granted valid (omega arith) refl refl

init_rxq-Apart_example :
    (m : Mempool) × (memory' : ℕ → ℕ) × (r : RxSetup) × (mempool_memory_init kernel true blank
        memory 16384 128 1
      ≡ ok (m, memory'))
    × (init_rxq set_cqe_owner answers 7 (record state { pool = m }) ≡ ok r)
    × (length r.rx.rxq.addrs ≡ 2)
    × Pairwise (Apart rx_byte_count) r.rx.rxq.addrs
    × ((x : ℕ) → Mem x r.rx.rxq.addrs → Within region (region + 2 ^ 21) x)
init_rxq-Apart_example =
    init_rxq-Apart kernel memory 16384 128 1 region (2 ^ 21) set_cqe_owner answers 7 1 1 state
      (replicate 2 0) refl mapped (omega arith) refl (omega arith) granted (omega arith)
