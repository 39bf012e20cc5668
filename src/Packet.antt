-- ===== src/Packet.antt =====
-- src/packet.rs: from a captured frame to the metadata of its flow. Every index into the frame is
-- checked here as Rust checks it: out of range is `panic`. A byte is a number, `x >> 4` is `x / 16`
-- and a mask of low bits is a remainder; offsets are not bounded, since they stay within a few
-- kilobytes of a length that fits a `usize`.
pub mod Address
pub mod Agree
pub mod Extension
pub mod Shift
pub mod Wire
pub mod Decode
pub mod LinkLayer
pub mod Classify
use mathlib.Core.Option
use flow_observability.Base.{
  ℕ, zero, suc, ◌+◌, ◌-◌, ◌*◌, ◌/◌, ◌%◌, Bool, true, false, ◌&&◌, ◌||◌, List, [], ◌∷◌, length,
  get_elem?, take, drop, Option, none, some, String, ltb, leb, ◌==◌, if◌then◌else◌, Outcome, ok,
  err, panic, ◌>>=◌, ◌>>◌,
}
use flow_observability.Base.Int.{ℤ, is_pos}
use flow_observability.Model.{
  Text, Direction, ingress, egress, internal, unknown, TransportProtocol, tcp, udp, icmp, other,
  protocol_from_u8, IpAddr, v4, v6, FlowKey,
}
use Address.{contains}

abbrev pub linktype_ethernet : ℕ
linktype_ethernet = 1

abbrev pub linktype_raw : ℕ
linktype_raw = 101

abbrev pub linktype_linux_sll : ℕ
linktype_linux_sll = 113

abbrev pub linktype_linux_sll2 : ℕ
linktype_linux_sll2 = 276

pub record PacketMeta : Type 0 where
  pub timestamp : ℕ
  pub wire_bytes : ℕ
  pub key : FlowKey

pub data PacketError : Type 0 where
  unsupported_link_type : ℤ → PacketError
  truncated : String → PacketError
  invalid : String → PacketError

pub record IpPacket : Type 0 where
  pub source : IpAddr
  pub destination : IpAddr
  pub protocol : ℕ
  pub ports : Option (ℕ × ℕ)

abbrev pub Parse : Type 0 → Type 0
Parse A = Outcome PacketError A

-- `frame[index]`
unfoldable pub byte_at : List ℕ → ℕ → Parse ℕ
byte_at frame index = elim (get_elem? frame index) [ none ↦ panic | some b ↦ ok b ]

-- `u16::from_be_bytes([frame[index], frame[index + 1]])`
unfoldable pub be16_at : List ℕ → ℕ → Parse ℕ
be16_at frame index = do
  high ← byte_at frame index
  low ← byte_at frame (index + 1)
  ok (high * 256 + low)

-- `frame[first..last]`
unfoldable pub slice : List ℕ → ℕ → ℕ → Parse (List ℕ)
slice frame first last =
    if leb first last && leb last (length frame)
    then ok (take (last - first) (drop first frame))
    else panic

unfoldable pub require : List ℕ → ℕ → String → Parse (Unit {0})
require frame len layer = if ltb (length frame) len then err (truncated layer) else ok tt

-- At most two VLAN tags, `for _ in 0..2`.
unfoldable pub skip_vlan : ℕ → List ℕ → ℕ → ℕ → Parse (ℕ × ℕ)
skip_vlan zero frame offset ether_type = ok (offset, ether_type)
skip_vlan (suc rounds) frame offset ether_type =
    if ether_type == 0x8100 || ether_type == 0x88a8
    then (do
      require frame (offset + 4) "vlan"
      ether_type' ← be16_at frame (offset + 2)
      skip_vlan rounds frame (offset + 4) ether_type')
    else ok (offset, ether_type)

-- `match frame[0] >> 4` of the raw link type
unfoldable pub raw_version : ℕ → Parse (ℕ × ℕ)
raw_version nibble =
    if nibble == 4
    then ok (0, 0x0800)
    else if nibble == 6
    then ok (0, 0x86dd)
    else err (invalid "raw IP")

unfoldable pub ip_offset : List ℕ → ℤ → Parse (ℕ × ℕ)
ip_offset frame link_type =
    if is_pos link_type linktype_ethernet
    then (do
      require frame 14 "ethernet"
      ether_type ← be16_at frame 12
      skip_vlan 2 frame 14 ether_type)
    else if is_pos link_type linktype_raw
    then (do require frame 1 "raw IP"; first ← byte_at frame 0; raw_version (first / 16))
    else if is_pos link_type linktype_linux_sll
    then (do require frame 16 "linux cooked"; ether_type ← be16_at frame 14; ok (16, ether_type))
    else if is_pos link_type linktype_linux_sll2
    then (do require frame 20 "linux cooked v2"; ether_type ← be16_at frame 0; ok (20, ether_type))
    else err (unsupported_link_type link_type)

-- `matches!(protocol, TransportProtocol::Tcp | TransportProtocol::Udp)`
abbrev pub has_ports : TransportProtocol → Bool
has_ports tcp = true
has_ports udp = true
has_ports icmp = false
has_ports (other number) = false

unfoldable pub parse_ports : List ℕ → ℕ → ℕ → Parse (Option (ℕ × ℕ))
parse_ports frame transport_offset protocol =
    if has_ports (protocol_from_u8 protocol)
    then (do
      require frame (transport_offset + 4) "transport"
      source ← be16_at frame transport_offset
      destination ← be16_at frame (transport_offset + 2)
      ok (some (source, destination)))
    else ok none

-- `Ipv4Addr::new` of four bytes from `index` on
unfoldable pub ipv4_at : List ℕ → ℕ → Parse IpAddr
ipv4_at frame index = do
  a ← byte_at frame index
  b ← byte_at frame (index + 1)
  c ← byte_at frame (index + 2)
  d ← byte_at frame (index + 3)
  ok (v4 a b c d)

-- The part of `parse_ipv4` behind its checks: the fields, and the ports of a first fragment.
unfoldable pub ipv4_fields : List ℕ → ℕ → ℕ → Parse IpPacket
ipv4_fields frame offset header_len = do
  protocol ← byte_at frame (offset + 9)
  source ← ipv4_at frame (offset + 12)
  destination ← ipv4_at frame (offset + 16)
  fragment ← be16_at frame (offset + 6)
  ports ←
      if fragment % 0x2000 == 0 then parse_ports frame (offset + header_len) protocol else ok none
  ok (record { source = source; destination = destination; protocol = protocol; ports = ports })

unfoldable pub parse_ipv4 : List ℕ → ℕ → Parse IpPacket
parse_ipv4 frame offset = do
  require frame (offset + 20) "IPv4"
  first ← byte_at frame offset
  if first / 16 == 4
      then (let header_len = first % 16 * 4 in
          if ltb header_len 20
          then err (invalid "IPv4")
          else do require frame (offset + header_len) "IPv4"; ipv4_fields frame offset header_len)
      else err (invalid "IPv4")

-- Where the walk over the extension headers stands: the next protocol, its offset, and whether the
-- packet is a first fragment.
pub record Chain : Type 0 where
  pub protocol : ℕ
  pub transport_offset : ℕ
  pub first_fragment : Bool

-- One round of the walk; `none` is the `break`.
unfoldable pub extension_step : List ℕ → Chain → Parse (Option Chain)
extension_step frame c =
    let at = c.transport_offset in
    if c.protocol == 0 || c.protocol == 43 || c.protocol == 60
    then (do
      require frame (at + 2) "IPv6 extension"
      next ← byte_at frame at
      units ← byte_at frame (at + 1)
      require frame (at + (units + 1) * 8) "IPv6 extension"
      ok (some (record c { protocol = next; transport_offset = at + (units + 1) * 8 })))
    else if c.protocol == 44
    then (do
      require frame (at + 8) "IPv6 fragment"
      next ← byte_at frame at
      fragment ← be16_at frame (at + 2)
      ok (
          some (record {
            protocol = next;
            transport_offset = at + 8;
            first_fragment = fragment / 8 * 8 == 0;
          })))
    else if c.protocol == 51
    then (do
      require frame (at + 2) "IPv6 AH"
      next ← byte_at frame at
      units ← byte_at frame (at + 1)
      require frame (at + (units + 2) * 4) "IPv6 AH"
      ok (some (record c { protocol = next; transport_offset = at + (units + 2) * 4 })))
    else ok none

-- `for _ in 0..8`
unfoldable pub walk_extensions : ℕ → List ℕ → Chain → Parse Chain
walk_extensions zero frame c = ok c
walk_extensions (suc rounds) frame c = do
  next ← extension_step frame c
  elim next [ none ↦ ok c | some c' ↦ walk_extensions rounds frame c' ]

-- `frame[first..first + 16].try_into()`
unfoldable pub ipv6_at : List ℕ → ℕ → Parse IpAddr
ipv6_at frame first = do
  octets ← slice frame first (first + 16)
  if length octets == 16 then ok (v6 octets) else err (truncated "IPv6")

unfoldable pub parse_ipv6 : List ℕ → ℕ → Parse IpPacket
parse_ipv6 frame offset = do
  require frame (offset + 40) "IPv6"
  first ← byte_at frame offset
  if first / 16 == 6
      then (do
        source ← ipv6_at frame (offset + 8)
        destination ← ipv6_at frame (offset + 24)
        next ← byte_at frame (offset + 6)
        c ←
            walk_extensions 8 frame
              (record { protocol = next; transport_offset = offset + 40; first_fragment = true })
        ports ←
            if c.first_fragment then parse_ports frame c.transport_offset c.protocol else ok none
        ok (record {
          source = source;
          destination = destination;
          protocol = c.protocol;
          ports = ports;
        }))
      else err (invalid "IPv6")

-- `match (local_ips.contains(&source), local_ips.contains(&destination))`
abbrev direction_of : Bool → Bool → Direction
direction_of true false = egress
direction_of false true = ingress
direction_of true true = internal
direction_of false false = unknown

unfoldable pub direction : IpAddr → IpAddr → List IpAddr → Direction
direction source destination local_ips =
    direction_of (contains local_ips source) (contains local_ips destination)

-- The metadata that `parse_packet` builds from an IP packet.
unfoldable pub packet_meta : ℕ → ℕ → Text → List IpAddr → IpPacket → PacketMeta
packet_meta timestamp wire_bytes capture_point local_ips packet =
    let ports = Option.get_or packet.ports (0, 0) in
    record {
      timestamp = timestamp;
      wire_bytes = wire_bytes;
      key = record {
        capture_point = capture_point;
        direction = direction packet.source packet.destination local_ips;
        protocol = protocol_from_u8 packet.protocol;
        source_ip = packet.source;
        destination_ip = packet.destination;
        source_port = Option.map (λ _. ports.0) packet.ports;
        destination_port = Option.map (λ _. ports.1) packet.ports;
      };
    }

-- `match ether_type`
unfoldable pub parse_ip : List ℕ → ℕ → ℕ → Parse (Option IpPacket)
parse_ip frame offset ether_type =
    if ether_type == 0x0800
    then (do packet ← parse_ipv4 frame offset; ok (some packet))
    else if ether_type == 0x86dd
    then (do packet ← parse_ipv6 frame offset; ok (some packet))
    else ok none

unfoldable pub parse_packet : List ℕ → ℤ → ℕ → ℕ → Text → List IpAddr → Parse (Option PacketMeta)
parse_packet frame link_type timestamp wire_bytes capture_point local_ips = do
  (offset, ether_type) ← ip_offset frame link_type
  packet ← parse_ip frame offset ether_type
  ok (Option.map (packet_meta timestamp wire_bytes capture_point local_ips) packet)
