-- ===== src/Packet/Wire.antt =====
-- What stands on the wire, written down from the formats and not from the parser: link headers,
-- IPv4 headers with options, and transport segments. A 16-bit field is high byte first.
use flow_observability.Base.{
  ℕ, ◌+◌, ◌*◌, ◌/◌, ◌%◌, ◌≤◌, ◌<◌, ◌≡◌, ◌≢◌, ◌⊎◌, Bool, List, [], ◌∷◌, ◌++◌, length, Option, none,
  some, ◌==◌, if◌then◌else◌,
}
use flow_observability.Base.Int.{ℤ, pos}
use flow_observability.Model.{Text, IpAddr, v4, TransportProtocol, tcp, udp, icmp, other}
use flow_observability.Packet.{IpPacket, PacketMeta, direction}

-- An 802.1Q tag, or a service tag of 802.1ad, with its control information.
pub record Tag : Type 0 where
  pub service : Bool
  pub control_high : ℕ
  pub control_low : ℕ

abbrev pub tag_type : Tag → ℕ
tag_type t = if t.service then 0x88a8 else 0x8100

-- The tags of an Ethernet frame and the type field behind them.
abbrev pub typed : List Tag → ℕ → List ℕ
typed [] ether_type = ether_type / 256 ∷ ether_type % 256 ∷ []
typed (t ∷ tags) ether_type =
    tag_type t / 256 ∷ tag_type t % 256 ∷ t.control_high ∷ t.control_low ∷ typed tags ether_type

pub data Link : Type 0 where
  ethernet : (addresses : List ℕ) (tags : List Tag) → Link
  raw : Link
  linux_sll : (fields : List ℕ) → Link
  linux_sll2 : (fields : List ℕ) → Link

-- Fourteen and eighteen bytes of the cooked headers are no part of the type field.
abbrev pub IsLink : Link → Type 0
IsLink (ethernet addresses tags) = (length addresses ≡ 12) × (length tags ≤ 2)
IsLink raw = Unit
IsLink (linux_sll fields) = length fields ≡ 14
IsLink (linux_sll2 fields) = length fields ≡ 18

abbrev pub link_number : Link → ℤ
link_number (ethernet addresses tags) = pos 1
link_number raw = pos 101
link_number (linux_sll fields) = pos 113
link_number (linux_sll2 fields) = pos 276

abbrev pub link_header : Link → ℕ → List ℕ
link_header (ethernet addresses tags) ether_type = addresses ++ typed tags ether_type
link_header raw ether_type = []
link_header (linux_sll fields) ether_type = fields ++ (ether_type / 256 ∷ ether_type % 256 ∷ [])
link_header (linux_sll2 fields) ether_type = ether_type / 256 ∷ ether_type % 256 ∷ fields

-- The first byte of an IP packet carries the version that the link's type announces.
abbrev pub IsVersion : ℕ → ℕ → Type 0
IsVersion ether_type first =
    ((ether_type ≡ 0x0800) × (first / 16 ≡ 4)) ⊎ ((ether_type ≡ 0x86dd) × (first / 16 ≡ 6))

pub data Segment : Type 0 where
  tcp_segment udp_segment : (source_port destination_port : ℕ) (content : List ℕ) → Segment
  other_segment : (protocol : ℕ) (content : List ℕ) → Segment

abbrev pub IsSegment : Segment → Type 0
IsSegment (other_segment protocol content) = (protocol ≢ 6) × (protocol ≢ 17)
IsSegment _ = Unit

abbrev pub segment_number : Segment → ℕ
segment_number (tcp_segment s d content) = 6
segment_number (udp_segment s d content) = 17
segment_number (other_segment protocol content) = protocol

abbrev pub segment_bytes : Segment → List ℕ
segment_bytes (tcp_segment s d content) = s / 256 ∷ s % 256 ∷ d / 256 ∷ d % 256 ∷ content
segment_bytes (udp_segment s d content) = s / 256 ∷ s % 256 ∷ d / 256 ∷ d % 256 ∷ content
segment_bytes (other_segment protocol content) = content

abbrev pub segment_ports : Segment → Option (ℕ × ℕ)
segment_ports (tcp_segment s d content) = some (s, d)
segment_ports (udp_segment s d content) = some (s, d)
segment_ports (other_segment protocol content) = none

-- Four octets of an address.
pub record Octets : Type 0 where
  pub first : ℕ
  pub second : ℕ
  pub third : ℕ
  pub fourth : ℕ

abbrev pub to_address : Octets → IpAddr
to_address o = v4 o.first o.second o.third o.fourth

pub record Ipv4 : Type 0 where
  pub service : ℕ
  pub total_length : ℕ
  pub identification : ℕ
  pub flags : ℕ
  pub fragment_offset : ℕ
  pub ttl : ℕ
  pub header_checksum : ℕ
  pub source : Octets
  pub destination : Octets
  pub option_words : ℕ
  pub options : List ℕ
  pub segment : Segment

pub record IsIpv4 (p : Ipv4) : Type 0 where
  pub offset_fits : p.fragment_offset < 0x2000
  pub words_fit : p.option_words ≤ 10
  pub options_length : length p.options ≡ p.option_words * 4
  pub segment_fits : IsSegment p.segment

-- The twenty bytes that every header has.
abbrev pub ipv4_fixed : Ipv4 → List ℕ
ipv4_fixed p =
    let fragment = p.flags * 0x2000 + p.fragment_offset in
    (0x45 + p.option_words)
    ∷ p.service
    ∷ p.total_length / 256
    ∷ p.total_length % 256
    ∷ p.identification / 256
    ∷ p.identification % 256
    ∷ fragment / 256
    ∷ fragment % 256
    ∷ p.ttl
    ∷ segment_number p.segment
    ∷ p.header_checksum / 256
    ∷ p.header_checksum % 256
    ∷ p.source.first
    ∷ p.source.second
    ∷ p.source.third
    ∷ p.source.fourth
    ∷ p.destination.first
    ∷ p.destination.second
    ∷ p.destination.third
    ∷ p.destination.fourth
    ∷ []

abbrev pub ipv4_bytes : Ipv4 → List ℕ
ipv4_bytes p = ipv4_fixed p ++ (p.options ++ segment_bytes p.segment)

-- What `parse_ipv4` is to find: ports only of a first fragment of TCP or UDP.
abbrev pub ipv4_expected : Ipv4 → IpPacket
ipv4_expected p = record {
  source = to_address p.source;
  destination = to_address p.destination;
  protocol = segment_number p.segment;
  ports = if p.fragment_offset == 0 then segment_ports p.segment else none;
}

-- 1 is ICMP, and 58 is ICMPv6.
abbrev pub segment_protocol : Segment → TransportProtocol
segment_protocol (tcp_segment s d content) = tcp
segment_protocol (udp_segment s d content) = udp
segment_protocol (other_segment protocol content) =
    if protocol == 1 then icmp else if protocol == 58 then icmp else other protocol

abbrev pub segment_source : Segment → Option ℕ
segment_source (tcp_segment s d content) = some s
segment_source (udp_segment s d content) = some s
segment_source (other_segment protocol content) = none

abbrev pub segment_destination : Segment → Option ℕ
segment_destination (tcp_segment s d content) = some d
segment_destination (udp_segment s d content) = some d
segment_destination (other_segment protocol content) = none

-- What is to be reported of a packet with this segment, field by field.
abbrev pub ipv4_reported :
    (timestamp wire_bytes : ℕ) (capture_point : Text) → List IpAddr → Ipv4 → Segment → PacketMeta
ipv4_reported timestamp wire_bytes capture_point local_ips p segment = record {
  timestamp = timestamp;
  wire_bytes = wire_bytes;
  key = record {
    capture_point = capture_point;
    direction = direction (to_address p.source) (to_address p.destination) local_ips;
    protocol = segment_protocol segment;
    source_ip = to_address p.source;
    destination_ip = to_address p.destination;
    source_port = if p.fragment_offset == 0 then segment_source segment else none;
    destination_port = if p.fragment_offset == 0 then segment_destination segment else none;
  };
}
