-- ===== src/Lrpc.antt =====
-- inc/base/lrpc.h: a channel of messages in shared memory, a ring whose slots say by a bit of the
-- command in which lap they were written. `__lrpc_send`, which sends where the channel seems full,
-- is declared there but not part of the repository: it is an argument.
pub mod Lap
pub mod Steps
pub mod Fifo
mod Tests
use mlx5_netperf.Prelude.{
  ℕ, zero, suc, ◌+◌, ◌-◌, ◌*◌, ◌/◌, ◌%◌, ◌^◌, Bool, true, false, not, Option, none, some, List, [],
  ◌∷◌, bit_and, bit_or, ltb, leb, ◌==◌, if◌then◌else◌, get_elem?, set,
}
use mlx5_netperf.Prelude.Word.{u32, add32, sub32}
use mlx5_netperf.Prelude.Outcome.{Outcome, ok, fault, ◌>>=◌}

-- `struct lrpc_msg`
pub record LrpcMsg : Type 0 where
  pub cmd : ℕ
  pub payload : ℕ

abbrev pub lrpc_done_parity : ℕ
lrpc_done_parity = 2 ^ 63

abbrev pub lrpc_cmd_mask : ℕ
lrpc_cmd_mask = 2 ^ 63 - 1

-- The fields of `struct lrpc_chan_out` and `struct lrpc_chan_in` that are not pointers.
pub record LrpcChanOut : Type 0 where
  pub send_head : ℕ
  pub send_tail : ℕ
  pub size : ℕ

pub record LrpcChanIn : Type 0 where
  pub recv_head : ℕ
  pub size : ℕ

-- Both ends of a channel with what their pointers share: the table, and the word that the receiver
-- writes its head to.
pub record Channel : Type 0 where
  pub tbl : List LrpcMsg
  pub recv_head_wb : ℕ
  pub egress : LrpcChanOut
  pub ingress : LrpcChanIn

-- The parity of the lap that a head is in.
abbrev pub parity : ℕ → ℕ → ℕ
parity head size = if bit_and head size == 0 then lrpc_done_parity else 0

-- The assertion before it, that the command leaves the parity bit free, is empty in a release
-- build.
unfoldable pub lrpc_send :
    (Channel → ℕ → ℕ → Outcome (Bool × Channel)) → Channel → ℕ → ℕ → Outcome (Bool × Channel)
lrpc_send send_slowly c cmd payload =
    let o = c.egress in
    let index = bit_and o.send_head (o.size - 1) in
    let m : LrpcMsg = record { cmd = bit_or cmd (parity o.send_head o.size); payload = payload } in
    if leb o.size (sub32 o.send_head o.send_tail)
    then send_slowly c cmd payload
    else elim (get_elem? c.tbl index) [
      | none ↦ fault
      | some old ↦ ok (
        true,
        record c { tbl = set c.tbl index m; egress = record o { send_head = add32 o.send_head 1 } },
      )
    ]

unfoldable pub lrpc_get_cached_send_window : LrpcChanOut → ℕ
lrpc_get_cached_send_window o = u32 (sub32 o.size o.send_head + o.send_tail)

unfoldable pub lrpc_get_cached_length : LrpcChanOut → ℕ
lrpc_get_cached_length o = sub32 o.send_head o.send_tail

unfoldable pub lrpc_poll_send_tail : Channel → ℕ × Channel
lrpc_poll_send_tail c =
    (c.recv_head_wb, record c { egress = record (c.egress) { send_tail = c.recv_head_wb } })

-- `none` where the channel is empty, else the command and the payload.
unfoldable pub lrpc_recv : Channel → Outcome (Option (ℕ × ℕ) × Channel)
lrpc_recv c =
    let i = c.ingress in
    elim (get_elem? c.tbl (bit_and i.recv_head (i.size - 1))) [
      | none ↦ fault
      | some m ↦
          if not (bit_and m.cmd lrpc_done_parity == parity i.recv_head i.size)
          then ok (none, c)
          else ok (
            some (bit_and m.cmd lrpc_cmd_mask, m.payload),
            record c {
              ingress = record i { recv_head = add32 i.recv_head 1 };
              recv_head_wb = add32 i.recv_head 1;
            },
          )
    ]

unfoldable pub lrpc_empty : Channel → Outcome Bool
lrpc_empty c =
    let i = c.ingress in
    elim (get_elem? c.tbl (bit_and i.recv_head (i.size - 1))) [
      | none ↦ fault
      | some m ↦ ok (not (bit_and m.cmd lrpc_done_parity == parity i.recv_head i.size))
    ]
