-- ===== src/Tx/Status.antt =====
-- Who owns a completion entry: the owner bit against the round of the queue.
use mlx5_netperf.Prelude.{
  suc, false, true, ◌==◌, ℕ, ◌*◌, ◌/◌, ◌%◌, ◌^◌, ◌<◌, ◌≡◌, ◌≢◌, bit_and, arith,
}
use native.Mathlib.Nat.{zero-mul, one-le-pow, pow-le-pow_right, pow-suc}
use mlx5_netperf.Prelude.Word.{u16}
use mlx5_netperf.Prelude.Bits.{bit_and_bit, bit_and_f0, bit_or_full, zero-bit_or, bit_and_ones}
use mlx5_netperf.Tx.{Mlx5dv, Cqe, c_not, cqe_status, get_cqe_opcode}

-- The owner bit that the hardware writes in round `head / cqe_cnt` of the completion queue.
abbrev pub phase : ℕ → ℕ → ℕ
phase head cqe_cnt = head / cqe_cnt % 2

abbrev pub owner : Cqe → ℕ
owner e = e.op_own % 2

abbrev pub opcode : Cqe → ℕ
opcode e = e.op_own / 16 % 16

-- The parity test of the code, for a queue of 2^k entries with k below 16.
parity_lem : (k head : ℕ) → k < 16 → u16 (bit_and head (2 ^ k)) ≡ phase head (2 ^ k) * 2 ^ k
parity_lem k head h =
    rw (bit_and_bit k head)
      (grind (arith, pow-suc 2 k, pow-le-pow_right {n = 2} (omega arith) {i = suc k} {j = 16} h))

pub get_cqe_opcode_lem : (e : Cqe) → e.op_own < 256 → get_cqe_opcode e ≡ opcode e
unfolding get_cqe_opcode
get_cqe_opcode_lem e h = omega (arith, bit_and_f0 e.op_own h)

module _ (dv : Mlx5dv) (e : Cqe) (k head : ℕ) (small : k < 16) (byte : e.op_own < 256) where
  -- In a queue of 2^k entries, k below 16, an entry whose owner bit is that of the head's round
  -- has its own opcode as status.
  pub cqe_status_ready : owner e ≡ phase head (2 ^ k) → cqe_status dv e (2 ^ k) head ≡ opcode e
  unfolding cqe_status
  cqe_status_ready h =
      let pos = one-le-pow k 2 (omega arith) in
      let test : (bit_and e.op_own 1 == c_not (phase head (2 ^ k) * 2 ^ k)) ≡ false =
        ground (arith, bit_and_ones 1 e.op_own) in
      rw (dv.owner_is_bit_0, parity_lem k head small, test, zero-mul, zero-bit_or)
        (omega (arith, bit_and_f0 e.op_own byte))

  -- Any other entry has the invalid status, whatever its opcode.
  pub cqe_status_not_ready :
      owner e ≢ phase head (2 ^ k) → cqe_status dv e (2 ^ k) head ≡ dv.cqe_invalid
  unfolding cqe_status
  cqe_status_not_ready h =
      let pos = one-le-pow k 2 (omega arith) in
      let test : (bit_and e.op_own 1 == c_not (phase head (2 ^ k) * 2 ^ k)) ≡ true =
        ground (arith, bit_and_ones 1 e.op_own) in
      rw (dv.owner_is_bit_0, parity_lem k head small, test, dv.invalid_is_all_ones)
        (omega (
          arith,
          bit_or_full 4 (bit_and e.op_own 0xf0 / 16) (omega (arith, bit_and_f0 e.op_own byte)),
        ))
