-- ===== src/Headers.antt =====
-- The headers of a packet: inc/base/byteorder.h, inc/net/ethernet.h, the structs of inc/net/ip.h
-- and inc/net/udp.h, the headers that requests.c and main.c write, and main.c's check of what it
-- receives. The structs are packed, so that a packet's start is a record of them; a field holds the
-- number that the host reads there, in the byte order of the network.
pub mod Swap
pub mod Replies
mod Tests
use mlx5_netperf.Prelude.{
  ℕ, zero, suc, ◌+◌, ◌-◌, ◌*◌, ◌/◌, ◌%◌, ◌^◌, Bool, true, false, not, Option, none, some, List, [],
  ◌∷◌, ltb, ◌==◌, if◌then◌else◌, bit_and, bit_or, get_or, take, drop, ◌++◌,
}
use mlx5_netperf.Prelude.Word.{u8, u16, u32, u64, add64, sub32, sub64}

-- `__bswap16`, `__bswap32` and `__bswap64`
unfoldable pub bswap16 : ℕ → ℕ
bswap16 v = bit_or (u16 (bit_and v 0x00ff * 2 ^ 8)) (bit_and v 0xff00 / 2 ^ 8)

unfoldable pub bswap32 : ℕ → ℕ
bswap32 v =
    bit_or
      (bit_or (bit_or (u32 (bit_and v 0x000000ff * 2 ^ 24)) (u32 (bit_and v 0x0000ff00 * 2 ^ 8)))
        (bit_and v 0x00ff0000 / 2 ^ 8))
      (bit_and v 0xff000000 / 2 ^ 24)

-- `htons` and `ntohs`, on a machine that stores the low byte first.
abbrev pub htons : ℕ → ℕ
htons v = bswap16 (u16 v)

abbrev pub htonl : ℕ → ℕ
htonl v = bswap32 (u32 v)

-- `struct eth_hdr`, `struct ip_hdr`, `struct udp_hdr`; an Ethernet address is its six bytes.
pub record EthHdr : Type 0 where
  pub dhost : List ℕ
  pub shost : List ℕ
  pub type_field : ℕ

pub record IpHdr : Type 0 where
  pub version_ihl : ℕ
  pub tos : ℕ
  pub len : ℕ
  pub id : ℕ
  pub off : ℕ
  pub ttl : ℕ
  pub proto : ℕ
  pub chksum : ℕ
  pub saddr : ℕ
  pub daddr : ℕ

pub record UdpHdr : Type 0 where
  pub src_port : ℕ
  pub dst_port : ℕ
  pub len : ℕ
  pub chksum : ℕ

pub record OutgoingHeader : Type 0 where
  pub eth : EthHdr
  pub ipv4 : IpHdr
  pub udp : UdpHdr

-- `RequestHeader`, which is also how a request and a reply start.
pub record RequestHeader : Type 0 where
  pub packet_header : OutgoingHeader
  pub packet_id : ℕ
  pub id_padding : ℕ
  pub checksum : ℕ

abbrev pub ethtype_ip : ℕ
ethtype_ip = 0x0800

abbrev pub ipproto_udp : ℕ
ipproto_udp = 17

-- `eth_addr_equal`: the loop over the bytes, which stops at the first that differs.
unfoldable pub eth_addr_equal : List ℕ → List ℕ → Bool
eth_addr_equal [] [] = true
eth_addr_equal [] (y ∷ ys) = true
eth_addr_equal (x ∷ xs) [] = true
eth_addr_equal (x ∷ xs) (y ∷ ys) = let rest = eth_addr_equal xs ys in if x == y then rest else false

-- The IPv4 header as both reply functions write it over the one in `ipv4`.
abbrev pub outgoing_ip : ℕ → ℕ → ℕ → IpHdr
outgoing_ip payload_size saddr daddr = record {
  version_ihl = 0x45;
  tos = 0;
  len = htons (add64 28 payload_size);
  id = htons 1;
  off = 0;
  ttl = 64;
  proto = ipproto_udp;
  chksum = 0;
  saddr = saddr;
  daddr = daddr;
}

-- `initialize_reverse_request_header`: the checksums of the UDP header and of the request stay.
unfoldable pub initialize_reverse_request_header :
    RequestHeader → EthHdr → IpHdr → UdpHdr → ℕ → ℕ → RequestHeader
initialize_reverse_request_header h eth ipv4 udp payload_size packet_id = record h {
  packet_header = record {
    eth = record { dhost = eth.shost; shost = eth.dhost; type_field = htons ethtype_ip };
    ipv4 = outgoing_ip payload_size ipv4.daddr ipv4.saddr;
    udp = record (h.packet_header.udp) {
      src_port = udp.dst_port;
      dst_port = udp.src_port;
      len = htons (add64 8 payload_size);
    };
  };
  packet_id = packet_id;
  id_padding = 0;
}

-- `parse_outgoing_request_header`: the request at the mbuf's data is `request`.
unfoldable pub parse_outgoing_request_header : RequestHeader → RequestHeader → ℕ → RequestHeader
unfolding initialize_reverse_request_header
parse_outgoing_request_header h request payload_size =
    let p = request.packet_header in
    initialize_reverse_request_header h p.eth p.ipv4 p.udp payload_size request.packet_id

-- `parse_outgoing_request_header_into_mbuf`, on what the two mbufs' data start with.
unfoldable pub parse_outgoing_request_header_into_mbuf :
    RequestHeader → RequestHeader → ℕ → RequestHeader
parse_outgoing_request_header_into_mbuf outgoing request payload_size =
    let p = request.packet_header in
    record outgoing {
      packet_id = request.packet_id;
      id_padding = 0;
      packet_header = record {
        eth = record { dhost = p.eth.shost; shost = p.eth.dhost; type_field = htons ethtype_ip };
        ipv4 = outgoing_ip payload_size p.ipv4.daddr p.ipv4.saddr;
        udp = record (outgoing.packet_header.udp) {
          src_port = p.udp.dst_port;
          dst_port = p.udp.src_port;
          len = htons (add64 8 payload_size);
        };
      };
    }

-- `get_chksum` sums the first eight bytes of a header (the size of a pointer) by the library's
-- `rte_raw_cksum`.
module _ (rte_raw_cksum : List ℕ → ℕ) where
  abbrev pub ip_chksum : IpHdr → ℕ
  ip_chksum ip = htons (
      rte_raw_cksum (
        ip.version_ihl
        ∷ ip.tos
        ∷ ip.len % 2 ^ 8
        ∷ ip.len / 2 ^ 8
        ∷ ip.id % 2 ^ 8
        ∷ ip.id / 2 ^ 8
        ∷ ip.off % 2 ^ 8
        ∷ ip.off / 2 ^ 8
        ∷ []))

  abbrev pub udp_chksum : UdpHdr → ℕ
  udp_chksum udp = htons (
      rte_raw_cksum (
        udp.src_port % 2 ^ 8
        ∷ udp.src_port / 2 ^ 8
        ∷ udp.dst_port % 2 ^ 8
        ∷ udp.dst_port / 2 ^ 8
        ∷ udp.len % 2 ^ 8
        ∷ udp.len / 2 ^ 8
        ∷ udp.chksum % 2 ^ 8
        ∷ udp.chksum / 2 ^ 8
        ∷ []))

  -- `initialize_outgoing_header`; what the header held before only its UDP checksum reads.
  unfoldable pub initialize_outgoing_header :
      OutgoingHeader → List ℕ → List ℕ → ℕ → ℕ → ℕ → ℕ → ℕ → OutgoingHeader
  initialize_outgoing_header h src_addr dst_addr src_ip dst_ip src_port dst_port payload_size =
      let ip = outgoing_ip payload_size (htonl src_ip) (htonl dst_ip) in
      let udp : UdpHdr = record {
        src_port = htons src_port;
        dst_port = htons dst_port;
        len = htons (add64 8 payload_size);
        chksum = h.udp.chksum;
      } in
      record {
        eth = record { dhost = dst_addr; shost = src_addr; type_field = htons ethtype_ip };
        ipv4 = record ip { chksum = ip_chksum ip };
        udp = record udp { chksum = udp_chksum udp };
      }

  -- `flip_headers` without its last test: the headers of the mbuf, turned round in place.
  unfoldable pub flip : OutgoingHeader → ℕ → OutgoingHeader
  flip p outgoing_size =
      let ip = record (p.ipv4) {
        chksum = 0;
        len = htons (add64 28 outgoing_size);
        daddr = p.ipv4.saddr;
        saddr = p.ipv4.daddr;
      } in
      let udp = record (p.udp) {
        dst_port = p.udp.src_port;
        src_port = p.udp.dst_port;
        len = htons (add64 8 outgoing_size);
      } in
      record {
        eth = record (p.eth) { dhost = p.eth.shost; shost = p.eth.dhost };
        ipv4 = record ip { chksum = ip_chksum ip };
        udp = record udp { chksum = udp_chksum udp };
      }

-- The bytes of an `OutgoingHeader` in memory. Only its members are packed: `ip_hdr` is aligned to 4
-- bytes, so that two bytes of padding, zero in the client's static `header`, stand before it.
abbrev pub le16 : ℕ → List ℕ
le16 v = v % 2 ^ 8 ∷ v / 2 ^ 8 ∷ []

abbrev pub le32 : ℕ → List ℕ
le32 v = v % 2 ^ 8 ∷ v / 2 ^ 8 % 2 ^ 8 ∷ v / 2 ^ 16 % 2 ^ 8 ∷ v / 2 ^ 24 ∷ []

abbrev pub eth_bytes : EthHdr → List ℕ
eth_bytes h = h.dhost ++ (h.shost ++ le16 h.type_field)

abbrev pub ip_bytes : IpHdr → List ℕ
ip_bytes h =
    h.version_ihl
    ∷ h.tos
    ∷ (le16 h.len
        ++ (le16 h.id
            ++ (le16 h.off
                ++ (h.ttl ∷ h.proto ∷ (le16 h.chksum ++ (le32 h.saddr ++ le32 h.daddr))))))

abbrev pub udp_bytes : UdpHdr → List ℕ
udp_bytes h = le16 h.src_port ++ (le16 h.dst_port ++ (le16 h.len ++ le16 h.chksum))

unfoldable pub in_memory : OutgoingHeader → List ℕ
in_memory h = eth_bytes h.eth ++ (0 ∷ 0 ∷ (ip_bytes h.ipv4 ++ udp_bytes h.udp))

-- The bytes of the headers in a packet, one behind the other, as the pointers of main.c step over
-- them, with the packet id and its padding behind.
unfoldable pub in_packet : RequestHeader → List ℕ
in_packet r =
    let h = r.packet_header in
    eth_bytes h.eth
    ++ (ip_bytes h.ipv4 ++ (udp_bytes h.udp ++ (le32 r.packet_id ++ le32 r.id_padding)))

-- What is read of them. A packet's buffer is always longer than they are.
abbrev pub at16 : List ℕ → ℕ → ℕ
at16 bytes i = get_or bytes i 0 + get_or bytes (suc i) 0 * 2 ^ 8

abbrev pub at32 : List ℕ → ℕ → ℕ
at32 bytes i = at16 bytes i + at16 bytes (i + 2) * 2 ^ 16

unfoldable pub headers_at : List ℕ → OutgoingHeader
headers_at bytes = record {
  eth = record { dhost = take 6 bytes; shost = take 6 (drop 6 bytes); type_field = at16 bytes 12 };
  ipv4 = record {
    version_ihl = get_or bytes 14 0;
    tos = get_or bytes 15 0;
    len = at16 bytes 16;
    id = at16 bytes 18;
    off = at16 bytes 20;
    ttl = get_or bytes 22 0;
    proto = get_or bytes 23 0;
    chksum = at16 bytes 24;
    saddr = at32 bytes 26;
    daddr = at32 bytes 30;
  };
  udp = record {
    src_port = at16 bytes 34;
    dst_port = at16 bytes 36;
    len = at16 bytes 38;
    chksum = at16 bytes 40;
  };
}

unfoldable pub request_at : List ℕ → RequestHeader
unfolding headers_at
request_at bytes = record {
  packet_header = headers_at bytes;
  packet_id = at32 bytes 42;
  id_padding = at32 bytes 46;
  checksum = at32 bytes 50 + at32 bytes 54 * 2 ^ 32;
}

-- `check_valid_packet`, for an mbuf of length `len` with the bytes at `data_ptr`: the payload's
-- address and length where it returns 1.
unfoldable pub check_valid_packet : List ℕ → ℕ → ℕ → List ℕ → Option (ℕ × ℕ)
unfolding eth_addr_equal headers_at
check_valid_packet bytes data_ptr len our_eth =
    let p = headers_at bytes in
    if not (eth_addr_equal our_eth p.eth.dhost)
    then none
    else if not (htons p.eth.type_field == ethtype_ip)
    then none
    else if not (p.ipv4.proto == ipproto_udp)
    then none
    else some (u64 (data_ptr + 42), sub32 len 42)
