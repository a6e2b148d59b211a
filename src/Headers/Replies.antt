-- ===== src/Headers/Replies.antt =====
-- The replies' headers, and the check of what arrives.
use mlx5_netperf.Prelude.{
  ℕ, zero, suc, ◌+◌, ◌∙◌, ◌≡◌, refl, ap, none, List, [], ◌∷◌, ◌++◌, arith, length, get_or,
}
use mathlib.Core.List.{append_assoc}
use mlx5_netperf.Headers.{
  OutgoingHeader, flip, in_memory, headers_at, check_valid_packet, initialize_outgoing_header,
}

-- Turning a packet's headers round twice gives back all of its addresses and ports, and leaves the
-- other fields but the lengths and checksums alone.
pub flip-flip :
    (rte_raw_cksum : List ℕ → ℕ) (p : OutgoingHeader) (n : ℕ)
    → (q : OutgoingHeader) × (q ≡ flip rte_raw_cksum (flip rte_raw_cksum p n) n)
      × (q.eth ≡ p.eth)
      × (record (q.ipv4) { len = p.ipv4.len; chksum = p.ipv4.chksum } ≡ p.ipv4)
      × (record (q.udp) { len = p.udp.len; chksum = p.udp.chksum } ≡ p.udp)
unfolding flip
flip-flip rte_raw_cksum p n =
    (flip rte_raw_cksum (flip rte_raw_cksum p n) n, refl, refl, refl, refl)

get_or-append :
    (xs ys : List ℕ) (n k : ℕ) → n ≡ length xs + k → get_or (xs ++ ys) n 0 ≡ get_or ys k 0
get_or-append [] ys n k h = ap (λ (t : ℕ). get_or ys t 0) (omega arith)
get_or-append (x ∷ xs) ys zero k h = absurd (omega arith)
get_or-append (x ∷ xs) ys (suc n) k h = get_or-append xs ys n k (omega arith)

-- A packet that is not UDP is refused.
not_udp :
    (bytes our_eth : List ℕ) (data_ptr len : ℕ)
    → get_or bytes 23 0 ≡ 0
    → check_valid_packet bytes data_ptr len our_eth ≡ none
unfolding check_valid_packet headers_at
not_udp bytes our_eth data_ptr len h = ground (arith, h)

behind_addresses :
    (dst src t rest payload : List ℕ) (k : ℕ)
    → length dst ≡ 6
    → length src ≡ 6
    → get_or (((dst ++ (src ++ t)) ++ rest) ++ payload) (12 + k) 0
      ≡ get_or (t ++ (rest ++ payload)) k 0
behind_addresses dst src t rest payload k a b =
    let later = rest ++ payload in
    rw
      (
        append_assoc (dst ++ (src ++ t)) rest payload,
        append_assoc dst (src ++ t) later,
        append_assoc src t later,
      )
      (get_or-append dst (src ++ (t ++ later)) (12 + k) (6 + k) (omega arith)
        ∙ get_or-append src (t ++ later) (6 + k) k (omega arith))

-- The server and the client refuse every packet that starts with the memory of a header that
-- `initialize_outgoing_header` made, as the client's requests do: the compiler aligns the IPv4
-- header to 4 bytes and so 2 bytes behind the place where the receiver reads it, where the
-- protocol's place holds 0.
pub client_packet_refused :
    (rte_raw_cksum : List ℕ → ℕ) (h : OutgoingHeader) (src dst payload our_eth : List ℕ)
    (src_ip dst_ip src_port dst_port n data_ptr len : ℕ)
    → length src ≡ 6
    → length dst ≡ 6
    → check_valid_packet
        (in_memory
            (initialize_outgoing_header rte_raw_cksum h src dst src_ip dst_ip src_port dst_port n)
          ++ payload)
        data_ptr
        len
        our_eth
      ≡ none
unfolding in_memory initialize_outgoing_header
client_packet_refused rte_raw_cksum h src dst payload our_eth src_ip dst_ip src_port dst_port n
      data_ptr len a b =
    not_udp
      (in_memory
          (initialize_outgoing_header rte_raw_cksum h src dst src_ip dst_ip src_port dst_port n)
        ++ payload)
      our_eth data_ptr len (behind_addresses dst src _ _ payload 11 b a)
