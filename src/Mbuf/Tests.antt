-- ===== src/Mbuf/Tests.antt =====
-- Tests of inc/base/mbuf.h, and its theorems at an mbuf of 100 bytes with 40 in use.
use mlx5_netperf.Prelude.{◌≡◌, none, arith, refl}
use mlx5_netperf.Prelude.Outcome.{ok}
use mlx5_netperf.Mbuf.{Mbuf, unset, pull, headroom, tailroom}
use mlx5_netperf.Mbuf.Bounds.{IsValid}

abbrev packet : Mbuf
packet = record {
  next = none;
  head = 4096;
  data_ptr = 4116;
  head_len = 100;
  len = 40;
  nb_segs = 1;
  pkt_len = 40;
  rss_hash = 0;
  release_data = 0;
  release = unset;
  num_wqes = 0;
  lkey = 7;
}

packet-IsValid : IsValid packet
packet-IsValid = omega arith

pull_test : pull packet 14 ≡ ok (4116, record packet { data_ptr = 4130; len = 26 })
unfolding pull
pull_test = refl

rooms : (headroom packet ≡ 20) × (tailroom packet ≡ 40)
unfolding headroom tailroom
rooms = (refl, refl)
