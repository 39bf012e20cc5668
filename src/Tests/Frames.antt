-- ===== src/Tests/Frames.antt =====
-- Tests of src/packet.rs, and frames on which its theorems are applied.
use flow_observability.Base.{
  ℕ, ◌≡◌, ◌≢◌, ◌⊎◌, refl, false, List, [], ◌∷◌, ◌++◌, none, some, replicate, String, arith, ok, err,
  panic,
}
use flow_observability.Base.Int.{pos, negsuc}
use flow_observability.Model.{Text, bytes_of, egress, tcp, udp, IpAddr, v4, v6, FlowKey}
use flow_observability.Packet.{
  truncated, unsupported_link_type, parse_packet, packet_meta, ip_offset, skip_vlan, raw_version,
  require, byte_at, be16_at, slice, parse_ip, parse_ipv4, ipv4_fields, ipv4_at, parse_ipv6, ipv6_at,
  walk_extensions, extension_step, parse_ports, direction,
}
use flow_observability.Model.{protocol_from_u8}
use flow_observability.Packet.Address.{contains}
use flow_observability.Packet.Extension.{parse_packet-ne-panic, parse_packet-append}
use flow_observability.Packet.Wire.{
  Link, ethernet, link_number, link_header, tcp_segment, Ipv4, IsIpv4, ipv4_bytes, ipv4_reported,
}
use flow_observability.Packet.LinkLayer.{parse_packet-ipv4}
use flow_observability.Packet.Classify.{Means, direction-Means}

abbrev pub zeros : ℕ → List ℕ
zeros n = replicate n 0

abbrev pub eth0 : Text
eth0 = bytes_of "physical:eth0"

-- `parses_ethernet_ipv4_tcp_and_direction`: 12345 is 0x3039, and 443 is 0x01bb.
abbrev pub tcp_frame : List ℕ
tcp_frame =
    zeros 12
    ++ (0x08
        ∷ 0x00
        ∷ 0x45
        ∷ (zeros 8
            ++ (6 ∷ 0 ∷ 0 ∷ 10 ∷ 0 ∷ 0 ∷ 2 ∷ 1 ∷ 1 ∷ 1 ∷ 1 ∷ 0x30 ∷ 0x39 ∷ 0x01 ∷ 0xbb ∷ zeros 16)))

abbrev pub local_ips : List IpAddr
local_ips = v4 10 0 0 2 ∷ []

abbrev pub tcp_key : FlowKey
tcp_key = record {
  capture_point = eth0;
  direction = egress;
  protocol = tcp;
  source_ip = v4 10 0 0 2;
  destination_ip = v4 1 1 1 1;
  source_port = some 12345;
  destination_port = some 443;
}

parses_ethernet_ipv4_tcp_and_direction :
    parse_packet tcp_frame (pos 1) 100 60 eth0 local_ips
    ≡ ok (some (record { timestamp = 100; wire_bytes = 60; key = tcp_key }))
unfolding parse_packet ip_offset skip_vlan require byte_at be16_at parse_ip parse_ipv4 ipv4_fields
    ipv4_at parse_ports protocol_from_u8 packet_meta direction contains
parses_ethernet_ipv4_tcp_and_direction = refl

-- `parses_raw_ipv6_udp`: 5353 is 0x14e9.
abbrev local_v6 : List ℕ
local_v6 = zeros 15 ++ (1 ∷ [])

abbrev remote_v6 : List ℕ
remote_v6 = 0x26 ∷ 0x06 ∷ 0x47 ∷ 0x00 ∷ 0x47 ∷ 0x00 ∷ (zeros 8 ++ (0x11 ∷ 0x11 ∷ []))

abbrev udp_frame : List ℕ
udp_frame =
    0x60
    ∷ 0
    ∷ 0
    ∷ 0
    ∷ 0
    ∷ 0
    ∷ 17
    ∷ 0
    ∷ (local_v6 ++ (remote_v6 ++ (0x14 ∷ 0xe9 ∷ 0 ∷ 53 ∷ zeros 4)))

parses_raw_ipv6_udp :
    parse_packet udp_frame (pos 101) 100 48 (bytes_of "tunnel:wg0") (v6 local_v6 ∷ [])
    ≡ ok (
        some (record {
          timestamp = 100;
          wire_bytes = 48;
          key = record {
            capture_point = bytes_of "tunnel:wg0";
            direction = egress;
            protocol = udp;
            source_ip = v6 local_v6;
            destination_ip = v6 remote_v6;
            source_port = some 5353;
            destination_port = some 53;
          };
        }))
unfolding parse_packet ip_offset raw_version require byte_at be16_at slice parse_ip parse_ipv6
    ipv6_at walk_extensions extension_step parse_ports protocol_from_u8 packet_meta direction
    contains
parses_raw_ipv6_udp = refl

ignores_non_ip_ethernet_frames :
    parse_packet (zeros 12 ++ (0x08 ∷ 0x06 ∷ zeros 28)) (pos 1) 1 42 (bytes_of "eth0") [] ≡ ok none
unfolding parse_packet ip_offset skip_vlan require byte_at be16_at parse_ip
ignores_non_ip_ethernet_frames = refl

-- A link type that no branch names, and a frame that ends in the middle of its IPv4 header.
refuses_unknown_link_types :
    parse_packet tcp_frame (negsuc 0) 1 42 eth0 [] ≡ err (unsupported_link_type (negsuc 0))
unfolding parse_packet ip_offset
refuses_unknown_link_types = refl

parse_packet-ne-panic_example : parse_packet (0x45 ∷ 0 ∷ []) (pos 101) 1 42 eth0 [] ≢ panic
parse_packet-ne-panic_example = parse_packet-ne-panic (0x45 ∷ 0 ∷ []) (pos 101) 1 42 eth0 []

parse_packet-append_example :
    ((layer : String) × (parse_packet tcp_frame (pos 1) 100 60 eth0 local_ips
        ≡ err (truncated layer)))
    ⊎ (parse_packet (tcp_frame ++ zeros 6) (pos 1) 100 60 eth0 local_ips
        ≡ parse_packet tcp_frame (pos 1) 100 60 eth0 local_ips)
parse_packet-append_example = parse_packet-append tcp_frame (zeros 6) (pos 1) 100 60 eth0 local_ips

-- A tagged frame whose IPv4 header has one word of options.
abbrev tagged : Link
tagged = ethernet (zeros 12) (record { service = false; control_high = 0; control_low = 7 } ∷ [])

abbrev optioned : Ipv4
optioned = record {
  service = 0;
  total_length = 44;
  identification = 1;
  flags = 2;
  fragment_offset = 0;
  ttl = 64;
  header_checksum = 0;
  source = record { first = 10; second = 0; third = 0; fourth = 2 };
  destination = record { first = 1; second = 1; third = 1; fourth = 1 };
  option_words = 1;
  options = zeros 4;
  segment = tcp_segment 12345 443 (zeros 16);
}

optioned-IsIpv4 : IsIpv4 optioned
optioned-IsIpv4 = record {
  offset_fits = omega arith;
  words_fit = omega arith;
  options_length = refl;
  segment_fits = tt;
}

parse_packet-ipv4_example :
    parse_packet
      (link_header tagged 0x0800 ++ ipv4_bytes optioned)
      (link_number tagged)
      100
      66
      eth0
      local_ips
    ≡ ok (some (ipv4_reported 100 66 eth0 local_ips optioned optioned.segment))
parse_packet-ipv4_example =
    parse_packet-ipv4 tagged optioned 100 66 eth0 local_ips (refl, omega arith) optioned-IsIpv4

direction-Means_example :
    Means (direction (v4 10 0 0 2) (v4 1 1 1 1) local_ips) (v4 10 0 0 2) (v4 1 1 1 1) local_ips
direction-Means_example = direction-Means (v4 10 0 0 2) (v4 1 1 1 1) local_ips
