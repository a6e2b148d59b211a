-- ===== src/Headers/Tests.antt =====
-- The theorems on headers, at a request from 1.2.3.4 to 5.6.7.8.
use mlx5_netperf.Prelude.{ℕ, ◌≡◌, refl, none, List, [], ◌∷◌, ◌++◌}
use mlx5_netperf.Headers.{
  OutgoingHeader, RequestHeader, in_memory, check_valid_packet, initialize_outgoing_header,
}
use mlx5_netperf.Headers.Replies.{client_packet_refused}

abbrev client : List ℕ
client = 1 ∷ 2 ∷ 3 ∷ 4 ∷ 5 ∷ 6 ∷ []

abbrev server : List ℕ
server = 11 ∷ 12 ∷ 13 ∷ 14 ∷ 15 ∷ 16 ∷ []

abbrev headers : OutgoingHeader
headers = record {
  eth = record { dhost = server; shost = client; type_field = 8 };
  ipv4 = record {
    version_ihl = 0x45;
    tos = 0;
    len = 0x3c00;
    id = 256;
    off = 0;
    ttl = 64;
    proto = 17;
    chksum = 0;
    saddr = 0x4030201;
    daddr = 0x8070605;
  };
  udp = record { src_port = 1000; dst_port = 2000; len = 0x2800; chksum = 0 };
}

abbrev request : RequestHeader
request = record { packet_header = headers; packet_id = 7; id_padding = 0; checksum = 0 }

-- The sum that the checksum of DPDK comes to where every word is 0.
abbrev no_sum : List ℕ → ℕ
no_sum bytes = 0

client_packet_refused_example :
    check_valid_packet
      (in_memory (
          initialize_outgoing_header no_sum headers client server 0x1020304 0x5060708 54321 54321
            16)
        ++ (7 ∷ []))
      4096
      60
      server
    ≡ none
client_packet_refused_example =
    client_packet_refused no_sum headers client server (7 ∷ []) server 0x1020304 0x5060708 54321
      54321 16 4096 60 refl refl
