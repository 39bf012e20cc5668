-- ===== src/Packet/LinkLayer.antt =====
-- `ip_offset` finds the IP packet behind each of the link headers.
use mathlib.Core.List.{append_assoc}
use flow_observability.Base.{
  ℕ, zero, suc, ◌+◌, ◌/◌, ◌%◌, ◌≤◌, ◌≡◌, ◌≢◌, refl, sym, ap, ap₂, ◌∙◌, true, false, ◌||◌, List, [],
  ◌∷◌, ◌++◌, length, none, some, arith, if◌then◌else◌, ◌==◌, ok, length-append, inl,
}
use flow_observability.Packet.{byte_at, be16_at, require, skip_vlan, ip_offset, raw_version}
use flow_observability.Packet.{parse_packet, parse_ip, packet_meta}
use flow_observability.Packet.Wire.{
  Ipv4, IsIpv4, ipv4_bytes, ipv4_reported, Segment, tcp_segment, udp_segment, other_segment,
  IsSegment, segment_number, segment_ports, to_address,
}
use flow_observability.Model.{Text, IpAddr, protocol_from_u8}
use flow_observability.Packet.Shift.{parse_ipv4_shift, be16_at_shift}
use flow_observability.Packet.Decode.{parse_ipv4-bytes, require_within, be16_at_first}
use flow_observability.Packet.Wire.{
  Tag, tag_type, typed, Link, ethernet, raw, linux_sll, linux_sll2, IsLink, link_number,
  link_header, IsVersion,
}

-- The type that stands where a list of tags begins.
abbrev type_at : List Tag → ℕ → ℕ
type_at [] ether_type = ether_type
type_at (t ∷ tags) ether_type = tag_type t

abbrev IsIpType : ℕ → Type 0
IsIpType ether_type = (ether_type ≢ 0x8100) × (ether_type ≢ 0x88a8)

be16_at-typed :
    (tags : List Tag) (ether_type : ℕ) (content : List ℕ)
    → be16_at (typed tags ether_type ++ content) 0 ≡ ok (type_at tags ether_type)
be16_at-typed [] ether_type content = be16_at_first ether_type content
be16_at-typed (t ∷ tags) ether_type content = be16_at_first (tag_type t) _

is_tag : (t : Tag) → (tag_type t == 0x8100 || tag_type t == 0x88a8) ≡ true
is_tag t = ground arith

no_tag : (n : ℕ) → IsIpType n → (n == 0x8100 || n == 0x88a8) ≡ false
no_tag n h = ground arith

length-typed-pos : (tags : List Tag) (ether_type : ℕ) → 2 ≤ length (typed tags ether_type)
length-typed-pos [] ether_type = omega arith
length-typed-pos (t ∷ tags) ether_type = omega arith

abbrev tag_bytes : Tag → List ℕ
tag_bytes t = tag_type t / 256 ∷ tag_type t % 256 ∷ t.control_high ∷ t.control_low ∷ []

-- Behind one tag the next type field stands four bytes on.
next_type :
    (t : Tag) (tags : List Tag) (front content : List ℕ) (ether_type : ℕ)
    → be16_at (front ++ (typed (t ∷ tags) ether_type ++ content)) (length front + 2 + 2)
      ≡ ok (type_at tags ether_type)
next_type t tags front content ether_type =
    ap (be16_at (front ++ (typed (t ∷ tags) ether_type ++ content))) place
    ∙ be16_at_shift front (typed (t ∷ tags) ether_type ++ content) 4
    ∙ behind
    ∙ be16_at-typed tags ether_type content
  where
    place : length front + 2 + 2 ≡ length front + 4
    place = omega arith

    behind :
        be16_at (typed (t ∷ tags) ether_type ++ content) 4
        ≡ be16_at (typed tags ether_type ++ content) 0
    behind = unfold be16_at byte_at in refl

tag_fits :
    (t : Tag) (tags : List Tag) (front content : List ℕ) (ether_type : ℕ)
    → require (front ++ (typed (t ∷ tags) ether_type ++ content)) (length front + 2 + 4) "vlan"
      ≡ ok tt
tag_fits t tags front content ether_type =
    require_within (front ++ (typed (t ∷ tags) ether_type ++ content)) (length front + 2 + 4) "vlan"
      (omega (
        arith,
        length-append front (typed (t ∷ tags) ether_type ++ content),
        length-append (typed tags ether_type) content,
        length-typed-pos tags ether_type,
      ))

-- Skipping from behind a tag, with the tag counted to the front.
skip_tag :
    (rounds : ℕ) (t : Tag) (tags : List Tag) (front content : List ℕ) (ether_type : ℕ)
    → skip_vlan rounds
        ((front ++ tag_bytes t) ++ (typed tags ether_type ++ content))
        (length (front ++ tag_bytes t) + 2)
        (type_at tags ether_type)
      ≡ ok (length (front ++ tag_bytes t) + length (typed tags ether_type), ether_type)
    → skip_vlan rounds
        (front ++ (typed (t ∷ tags) ether_type ++ content))
        (length front + 2 + 4)
        (type_at tags ether_type)
      ≡ ok (length front + length (typed (t ∷ tags) ether_type), ether_type)
skip_tag rounds t tags front content ether_type h =
    ap₂ (λ frame n. skip_vlan rounds frame n (type_at tags ether_type))
      (sym (append_assoc front (tag_bytes t) (typed tags ether_type ++ content))) place
    ∙ h
    ∙ ap (λ (n : ℕ). ok (n, ether_type)) (omega (arith, length-append front (tag_bytes t)))
  where
    place : length front + 2 + 4 ≡ length (front ++ tag_bytes t) + 2
    place = omega (arith, length-append front (tag_bytes t))

-- Up to `rounds` tags are skipped, whatever stands in front of them.
skip_vlan-typed :
    (rounds : ℕ) (tags : List Tag) (front content : List ℕ) (ether_type : ℕ)
    → length tags ≤ rounds
    → IsIpType ether_type
    → skip_vlan rounds
        (front ++ (typed tags ether_type ++ content))
        (length front + 2)
        (type_at tags ether_type)
      ≡ ok (length front + length (typed tags ether_type), ether_type)
unfolding skip_vlan
skip_vlan-typed zero [] front content ether_type h n = refl
skip_vlan-typed zero (t ∷ tags) front content ether_type h n = elim h [ ]
skip_vlan-typed (suc rounds) [] front content ether_type h n = rw (no_tag ether_type n)
skip_vlan-typed (suc rounds) (t ∷ tags) front content ether_type h n =
    simp
      (
        is_tag t,
        tag_fits t tags front content ether_type,
        next_type t tags front content ether_type,
      )
      (skip_tag rounds t tags front content ether_type
        (skip_vlan-typed rounds tags (front ++ tag_bytes t) content ether_type (omega arith) n))

IsVersion-IsIpType : (ether_type first : ℕ) → IsVersion ether_type first → IsIpType ether_type
IsVersion-IsIpType ether_type first v = ground arith

raw_version-IsVersion :
    (ether_type first : ℕ)
    → IsVersion ether_type first
    → raw_version (first / 16) ≡ ok (0, ether_type)
unfolding raw_version
raw_version-IsVersion ether_type first v = ground arith

-- The type field behind `n` bytes, tags or none.
type_behind :
    (n : ℕ) (addresses : List ℕ) (tags : List Tag) (ether_type : ℕ) (content : List ℕ)
    → length addresses ≡ n
    → be16_at (addresses ++ (typed tags ether_type ++ content)) n ≡ ok (type_at tags ether_type)
type_behind n addresses tags ether_type content h =
    ap (be16_at (addresses ++ (typed tags ether_type ++ content))) (omega arith)
    ∙ be16_at_shift addresses (typed tags ether_type ++ content) 0
    ∙ be16_at-typed tags ether_type content

ethernet_skip :
    (addresses : List ℕ) (tags : List Tag) (ether_type : ℕ) (content : List ℕ)
    → length addresses ≡ 12
    → length tags ≤ 2
    → IsIpType ether_type
    → skip_vlan 2 (addresses ++ (typed tags ether_type ++ content)) 14 (type_at tags ether_type)
      ≡ ok (length (addresses ++ typed tags ether_type), ether_type)
ethernet_skip addresses tags ether_type content h few n =
    ap
      (λ (at : ℕ).
        skip_vlan 2 (addresses ++ (typed tags ether_type ++ content)) at (type_at tags ether_type))
      (omega arith)
    ∙ skip_vlan-typed 2 tags addresses content ether_type few n
    ∙ ap (λ (at : ℕ). ok (at, ether_type)) (sym (length-append addresses (typed tags ether_type)))

ethernet_fits :
    (addresses : List ℕ) (tags : List Tag) (ether_type : ℕ) (content : List ℕ)
    → length addresses ≡ 12
    → require (addresses ++ (typed tags ether_type ++ content)) 14 "ethernet" ≡ ok tt
ethernet_fits addresses tags ether_type content h =
    require_within (addresses ++ (typed tags ether_type ++ content)) 14 "ethernet" (
      omega (
        arith,
        length-append addresses (typed tags ether_type ++ content),
        length-append (typed tags ether_type) content,
        length-typed-pos tags ether_type,
      ))

-- Behind any link header `ip_offset` finds the packet, and its type.
pub ip_offset-header :
    (link : Link) (ether_type first : ℕ) (content : List ℕ)
    → IsLink link
    → IsVersion ether_type first
    → ip_offset (link_header link ether_type ++ first ∷ content) (link_number link)
      ≡ ok (length (link_header link ether_type), ether_type)
unfolding ip_offset
ip_offset-header (ethernet addresses tags) ether_type first content h v = simp (
  append_assoc,
  ethernet_fits addresses tags ether_type (first ∷ content) h.0,
  type_behind 12 addresses tags ether_type (first ∷ content) h.0,
  ethernet_skip addresses tags ether_type (first ∷ content) h.0 h.1
      (IsVersion-IsIpType ether_type first v),
)
ip_offset-header raw ether_type first content h v =
    rw (require_within (first ∷ content) 1 "raw IP" (omega arith))
      (unfold byte_at in raw_version-IsVersion ether_type first v)
ip_offset-header (linux_sll fields) ether_type first content h v =
    simp
      (
        append_assoc,
        require_within (fields ++ (typed [] ether_type ++ first ∷ content)) 16 "linux cooked" long,
        type_behind 14 fields [] ether_type (first ∷ content) h,
      )
      (ap (λ (at : ℕ). ok (at, ether_type))
        (omega (arith, length-append fields (typed [] ether_type))))
  where
    long : 16 ≤ length (fields ++ (typed [] ether_type ++ first ∷ content))
    long = omega (arith, length-append fields (typed [] ether_type ++ first ∷ content))
ip_offset-header (linux_sll2 fields) ether_type first content h v =
    rw
      (require_within (link_header (linux_sll2 fields) ether_type ++ first ∷ content) 20
        "linux cooked v2" long)
      (rw (be16_at_first ether_type (fields ++ first ∷ content))
        (ap (λ (at : ℕ). ok (at, ether_type)) (omega arith)))
  where
    long : 20 ≤ length (link_header (linux_sll2 fields) ether_type ++ first ∷ content)
    long = omega (arith, length-append fields (first ∷ content))

packet_meta-ipv4 :
    (timestamp wire_bytes : ℕ) (capture_point : Text) (local_ips : List IpAddr) (p : Ipv4)
    (segment : Segment)
    → IsSegment segment
    → packet_meta timestamp wire_bytes capture_point local_ips (record {
      source = to_address p.source;
      destination = to_address p.destination;
      protocol = segment_number segment;
      ports = if p.fragment_offset == 0 then segment_ports segment else none;
    })
      ≡ ipv4_reported timestamp wire_bytes capture_point local_ips p segment
unfolding packet_meta protocol_from_u8
packet_meta-ipv4 timestamp wire_bytes capture_point local_ips p (tcp_segment s d content) h =
    ground arith
packet_meta-ipv4 timestamp wire_bytes capture_point local_ips p (udp_segment s d content) h =
    ground arith
packet_meta-ipv4 timestamp wire_bytes capture_point local_ips p (other_segment protocol content) h =
    ground arith

-- A captured frame of an IPv4 packet, behind any of the link headers, is reported with the source
-- and the destination address of its header, the direction from the one to the other, the protocol
-- of its segment and, if it is a first fragment of TCP or UDP, the source and the destination port
-- of its segment; and with the time stamp, the length and the capture point that are handed over.
pub parse_packet-ipv4 :
    (link : Link) (p : Ipv4) (timestamp wire_bytes : ℕ) (capture_point : Text)
    (local_ips : List IpAddr)
    → IsLink link
    → IsIpv4 p
    → parse_packet
        (link_header link 0x0800 ++ ipv4_bytes p)
        (link_number link)
        timestamp
        wire_bytes
        capture_point
        local_ips
      ≡ ok (some (ipv4_reported timestamp wire_bytes capture_point local_ips p p.segment))
unfolding parse_packet parse_ip
parse_packet-ipv4 link p timestamp wire_bytes capture_point local_ips l h =
    rw (ip_offset-header link 0x0800 (0x45 + p.option_words) _ l version) (
      rw (parse_ipv4_shift (link_header link 0x0800) (ipv4_bytes p)) (
        rw (parse_ipv4-bytes p h) (
          ap (λ m. ok (some m))
            (packet_meta-ipv4 timestamp wire_bytes capture_point local_ips p p.segment
              h.segment_fits))))
  where
    version : IsVersion 0x0800 (0x45 + p.option_words)
    version = inl (refl, omega (arith, h.words_fit))
