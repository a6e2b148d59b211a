-- ===== src/Server.antt =====
-- The server of main.c: how it answers a batch of requests (`process_server_requests`) and a burst
-- of received packets (the body of `do_server`'s loop). Timers are off, as in the default build;
-- the busy work only computes a number.
pub mod Memory
pub mod Packet
pub mod Process
pub mod Burst
mod Tests
use mlx5_netperf.Prelude.{
  ℕ, zero, suc, ◌+◌, ◌-◌, ◌*◌, ◌/◌, ◌%◌, ◌^◌, Bool, true, false, not, ◌&&◌, Option, none, some,
  List, [], ◌∷◌, ltb, leb, ◌==◌, if◌then◌else◌, length, drop, ◌++◌,
}
use mlx5_netperf.Prelude.Word.{u32, u64, add64, sub64}
use mlx5_netperf.Prelude.Outcome.{Outcome, ok, fault, ◌>>=◌}
use mlx5_netperf.Mbuf.{Mbuf}
use mlx5_netperf.Completion.{World}
use mlx5_netperf.Headers.{RequestHeader, le32, eth_bytes, ip_bytes, udp_bytes}
use mlx5_netperf.Tx.{Mlx5dv, Txq}
use mlx5_netperf.Tx.Post
use mlx5_netperf.Tx.Post.{transmit_batch}

-- The settings that do not change while the server runs.
pub record Config : Type 0 where
  pub num_segments : ℕ
  pub segment_size : ℕ
  pub echo_mode : ℕ
  pub zero_copy : ℕ
  pub read_incoming_packet : ℕ
  pub tx_lkey : ℕ
  pub rx_lkey : ℕ
  pub server_working_set : ℕ
  pub server_mac : List ℕ

-- What the server changes: the globals of the data path, the send queue, the bytes of its buffers
-- by address, and the array `request_headers`.
pub record State : Type 0 where
  pub world : World
  pub txq : Txq
  pub memory : ℕ → ℕ
  pub request_headers : List RequestHeader

abbrev pub batch_size : ℕ
batch_size = 32

abbrev pub burst_size : ℕ
burst_size = 32

abbrev pub max_scatters : ℕ
max_scatters = 32

-- `n` bytes from an address on, and the store of bytes there.
unfoldable pub read : (ℕ → ℕ) → ℕ → ℕ → List ℕ
read memory a zero = []
read memory a (suc n) = memory a ∷ read memory (a + 1) n

unfoldable pub write : (ℕ → ℕ) → ℕ → List ℕ → ℕ → ℕ
write memory a [] = memory
write memory a (b ∷ bs) = write (λ x. if x == a then b else memory x) (a + 1) bs

-- `read_u64` of a pointer and an offset in words.
unfoldable pub read_u64 : (ℕ → ℕ) → ℕ → ℕ → ℕ
read_u64 memory ptr offset = word 8 (add64 ptr (offset * 8))
  where
    word : ℕ → ℕ → ℕ
    word zero a = 0
    word (suc n) a = memory a + word n (a + 1) * 2 ^ 8

-- The loop that reads the segments of a request, from segment `seg` on with the rounds left.
unfoldable pub read_segments : (ℕ → ℕ) → ℕ → ℕ → ℕ → List ℕ
read_segments memory payload seg zero = []
read_segments memory payload seg (suc left) =
    read_u64 memory payload (seg + 1) ∷ read_segments memory payload (seg + 1) left

-- `calculate_checksum`: the loop from `ptr` on. Each round moves 64 bytes on, so that as many
-- rounds as there are bytes are enough.
unfoldable pub checksum_loop : (ℕ → ℕ) → ℕ → ℕ → ℕ → ℕ
checksum_loop memory zero ptr end = 0
checksum_loop memory (suc rounds) ptr end =
    let rest = checksum_loop memory rounds (ptr + 64) end in
    if ltb ptr end then (if memory ptr == 97 then 1 else 2) + rest else 0

unfoldable pub calculate_checksum : (ℕ → ℕ) → ℕ → ℕ → ℕ → ℕ
unfolding checksum_loop
calculate_checksum memory payload_ptr amt_to_add payload_len =
    checksum_loop memory payload_len (payload_ptr + amt_to_add) (payload_ptr + payload_len)

-- The bytes of a request header that `mlx5_fill_tx_segment` inlines.
abbrev pub inlined : RequestHeader → Post.RequestHeader
inlined r = record {
  eth = eth_bytes r.packet_header.eth;
  ipv4 = ip_bytes r.packet_header.ipv4;
  udp = udp_bytes r.packet_header.udp;
  packet_id = le32 r.packet_id ++ le32 r.id_padding;
  checksum = le32 (r.checksum % 2 ^ 32) ++ le32 (r.checksum / 2 ^ 32);
}

module _ (dv : Mlx5dv) where
  -- `post_mbufs`, with the mbufs not sent yet and the tries left; before each try the hardware may
  -- have completed some sends, which `nic` says.
  unfoldable pub post_mbufs :
      (ℕ → Txq → Txq)
      → ℕ
      → ℕ
      → World
      → Txq
      → List (ℕ × Post.RequestHeader × ℕ)
      → Outcome (World × Txq)
  post_mbufs nic rounds tries w v [] = ok (w, v)
  post_mbufs nic rounds zero w v (x ∷ xs) = fault
  post_mbufs nic rounds (suc tries) w v (x ∷ xs) = do
    (sent, w', v') ← transmit_batch dv rounds w (nic tries v) (x ∷ xs)
    post_mbufs nic rounds tries w' v' (drop sent (x ∷ xs))
