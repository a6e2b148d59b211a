-- ===== src/Tx/Example.antt =====
-- Constants and segments for the tests of the send and the receive queue, with the sizes that the
-- hardware has.
use mlx5_netperf.Prelude.{refl, ◌∷◌, replicate, arith}
use mlx5_netperf.Tx.{Mlx5dv}

-- Segments that hold their fields and are filled up with zeros.
abbrev pub dv : Mlx5dv
dv = record {
  cqe_owner_mask = 1;
  cqe_invalid = 15;
  cqe_req = 0;
  ctrl_seg_size = 16;
  inline_hdr_start = 14;
  inline_hdr = 16;
  data_seg_size = 16;
  cqe_resp_send = 2;
  opcode_send = 10;
  ctrl_seg = λ qpn_ds opmod_idx. qpn_ds ∷ opmod_idx ∷ replicate 14 0;
  eth_seg = λ inline_hdr_sz. inline_hdr_sz ∷ replicate 31 0;
  data_seg = λ byte_count addr lkey. byte_count ∷ addr ∷ lkey ∷ replicate 13 0;
  owner_is_bit_0 = refl;
  invalid_is_all_ones = refl;
  req_is_valid = omega arith;
  ctrl_seg_is_16 = refl;
  inline_start_is_14 = refl;
  inline_hdr_is_16 = refl;
  data_seg_is_16 = refl;
  resp_send_is_valid = omega arith;
  length-ctrl_seg = λ qpn_ds opmod_idx. refl;
  length-eth_seg = λ inline_hdr_sz. refl;
  length-data_seg = λ byte_count addr lkey. refl;
}
