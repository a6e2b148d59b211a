-- ===== src/Lrpc/Tests.antt =====
-- The theorem on channels, at a ring of two slots through which three messages go.
use mlx5_netperf.Prelude.{ℕ, ◌≤◌, ◌≡◌, refl, Bool, List, [], ◌∷◌, arith, length, ◌==◌}
use mlx5_netperf.Prelude.Outcome.{Outcome, ok, fault}
use mlx5_netperf.Lrpc.{
  Channel, lrpc_send, lrpc_get_cached_send_window, lrpc_get_cached_length, lrpc_poll_send_tail,
  lrpc_recv, lrpc_empty,
}
use mlx5_netperf.Lrpc.Fifo.{Run, start, sent, polled, received, next, fifo}

abbrev never : Channel → ℕ → ℕ → Outcome (Bool × Channel)
never c cmd payload = fault

-- After messages 7 and 8, of which the first was received and the sender has seen it, and message 9
-- in the slot of the first.
abbrev channel : Channel
channel = record {
  tbl = record { cmd = 9; payload = 30 } ∷ record { cmd = 0x8000000000000008; payload = 20 } ∷ [];
  recv_head_wb = 1;
  egress = record { send_head = 3; send_tail = 1; size = 2 };
  ingress = record { recv_head = 1; size = 2 };
}

run : Run 1 never channel ((7, 10) ∷ (8, 20) ∷ (9, 30) ∷ []) ((7, 10) ∷ [])
unfolding lrpc_send lrpc_recv lrpc_poll_send_tail lrpc_get_cached_length
run =
    sent 9 30
      (polled (
        received
          (sent 8 20 (sent 7 10 start (omega arith) (omega arith) refl) (omega arith) (omega arith)
            refl)
          refl))
      (omega arith) (omega arith) refl

window_closed : lrpc_get_cached_send_window channel.egress ≡ 0
unfolding lrpc_get_cached_send_window
window_closed = refl

fifo_example :
    (rest : List (ℕ × ℕ)) × (c' : Channel) × ◌≡◌ {A = List (ℕ × ℕ)}
      ((7, 10) ∷ (8, 20) ∷ (9, 30) ∷ [])
      ((7, 10) ∷ rest)
    × (length rest ≤ 2)
    × (lrpc_recv channel ≡ ok (next rest, c'))
    × (lrpc_empty channel ≡ ok (length rest == 0))
fifo_example = fifo 1 never channel _ _ (omega arith) run
