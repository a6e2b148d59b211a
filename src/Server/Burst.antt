-- ===== src/Server/Burst.antt =====
-- A burst of received packets in `do_server` of main.c: the packets that `check_valid_packet`
-- refuses are freed, the others are processed in batches.
pub mod Batches
pub mod Errors
use mlx5_netperf.Prelude.{
  ℕ, zero, suc, ◌+◌, ◌-◌, Bool, true, false, Option, none, some, List, [], ◌∷◌, ◌++◌, ◌||◌, ◌==◌,
  if◌then◌else◌, length, map,
}
use mlx5_netperf.Prelude.Outcome.{Outcome, ok, fault, ◌>>=◌}
use mlx5_netperf.Completion.{World, mbuf_free}
use mlx5_netperf.Headers.{check_valid_packet}
use mlx5_netperf.Rx.{Rxq, RxState, gather_rx}
use mlx5_netperf.Server.{Config, State, batch_size, burst_size, read}
use mlx5_netperf.Server.Process.{
  Env, Status, done, enomem_returned, einval_returned, process_server_requests,
}

-- The loop that frees `mbufs_to_process` and sets each entry to null; freeing a null entry reads
-- through it.
unfoldable pub free_entries : ℕ → World → List (Option ℕ) → Outcome World
free_entries rounds w [] = ok w
free_entries rounds w (none ∷ ms) = fault
free_entries rounds w (some m ∷ ms) = do w' ← mbuf_free rounds w m; free_entries rounds w' ms

abbrev pub failed : Status → Bool
failed done = false
failed enomem_returned = true
failed einval_returned = true

-- What follows the call of `process_server_requests`: freeing the batch, after an error and, where
-- the server does not echo, in any case.
unfoldable pub free_batch : ℕ → Config → World → Bool → List ℕ → Outcome World
unfolding free_entries
free_batch rounds c w error batch =
    let entries = if error then map (λ m. none) batch else map some batch in
    (if error then free_entries rounds w (map some batch) else ok w) >>= λ w'.
    if c.echo_mode == 0 then free_entries rounds w' entries else ok w'

unfoldable pub serve_batch : Env → Config → State → List ℕ → Outcome State
unfolding free_batch
serve_batch e c s batch = process_server_requests e c s batch >>= λ result.
    free_batch e.rounds c result.1.world (failed result.0) batch >>= λ w.
    ok (record (result.1) { world = w })

-- The test of `check_valid_packet` for the mbuf at an address.
unfoldable pub is_valid : Config → State → ℕ → Bool
is_valid c s m =
    let b = s.world.heap m in
    elim (check_valid_packet (read s.memory b.data_ptr 42) b.data_ptr b.len c.server_mac) [
      | none ↦ false
      | some payload ↦ true
    ]

-- The loop over the received packets, with the batch so far; what it holds at the end is dropped.
unfoldable pub serve_burst : Env → Config → State → List ℕ → List ℕ → Outcome State
unfolding serve_batch is_valid
serve_burst e c s batch [] = ok s
serve_burst e c s batch (pkt ∷ pkts) =
    let batch' = batch ++ (pkt ∷ []) in
    if is_valid c s pkt
    then (if (length batch' == batch_size) || (length pkts == 0)
        then (serve_batch e c s batch' >>= λ s'. serve_burst e c s' [] pkts)
        else serve_burst e c s batch' pkts)
    else (mbuf_free e.rounds s.world pkt >>= λ w.
        serve_burst e c (record s { world = w }) batch pkts)

-- One round of the loop of `do_server`: up to 32 packets are received and served. The receive queue
-- shares the mbufs and the receive pool with the world; its counter of drops is `total_dropped`.
unfoldable pub server_round : Env → Config → State → Rxq → ℕ → Outcome (State × Rxq × ℕ)
unfolding serve_burst
server_round e c s rxq total_dropped =
    let received : RxState = record {
      rxq = rxq;
      heap = s.world.heap;
      pool = s.world.rx_buf_mempool;
      total_dropped = total_dropped;
    } in
    gather_rx e.dv burst_size received >>= λ burst.
    let r = burst.1 in
    let w = record (s.world) { heap = r.heap; rx_buf_mempool = r.pool } in
    serve_burst e c (record s { world = w }) [] burst.0 >>= λ s'. ok (s', r.rxq, r.total_dropped)
