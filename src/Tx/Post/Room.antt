-- ===== src/Tx/Post/Room.antt =====
-- The room that `mlx5_fill_tx_segment` leaves in the send queue.
use mlx5_netperf.Prelude.Outcome.{Outcome}
use mlx5_netperf.Tx.Post.Moved.{Moved}
