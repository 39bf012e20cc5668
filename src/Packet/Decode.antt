-- ===== src/Packet/Decode.antt =====
-- The parser reads back what the wire formats say.
use native.Mathlib.Nat.{zero-add}
use flow_observability.Base.{
  ℕ, ◌+◌, ◌*◌, ◌/◌, ◌%◌, ◌≤◌, ◌<◌, ◌≡◌, subst, ap, ◌∙◌, List, ◌∷◌, ◌++◌, length, String, arith,
  ◌==◌, ok, length-append, ltb-false,
}
use flow_observability.Model.{protocol_from_u8}
use flow_observability.Packet.{
  byte_at, be16_at, require, parse_ports, ipv4_at, ipv4_fields, parse_ipv4,
}
use flow_observability.Packet.Shift.{parse_ports_shift}
use flow_observability.Packet.Wire.{
  Segment, tcp_segment, udp_segment, other_segment, IsSegment, segment_number, segment_bytes,
  segment_ports, Ipv4, IsIpv4, ipv4_fixed, ipv4_bytes, ipv4_expected,
}

pub be16_at_first : (n : ℕ) (content : List ℕ) → be16_at (n / 256 ∷ n % 256 ∷ content) 0 ≡ ok n
unfolding be16_at byte_at
be16_at_first n content = ap ok (omega arith)

pub require_within :
    (frame : List ℕ) (n : ℕ) (layer : String) → n ≤ length frame → require frame n layer ≡ ok tt
unfolding require
require_within frame n layer h = rw (ltb-false _ _ h)

join16 : (n : ℕ) → n / 256 * 256 + n % 256 ≡ n
join16 n = omega arith

parse_ports-segment :
    (s : Segment)
    → IsSegment s
    → parse_ports (segment_bytes s) 0 (segment_number s) ≡ ok (segment_ports s)
unfolding parse_ports protocol_from_u8 be16_at byte_at
parse_ports-segment (tcp_segment s d content) h =
    rw (require_within (segment_bytes (tcp_segment s d content)) 4 "transport" (omega arith))
      (simp join16)
parse_ports-segment (udp_segment s d content) h =
    rw (require_within (segment_bytes (udp_segment s d content)) 4 "transport" (omega arith))
      (simp join16)
parse_ports-segment (other_segment protocol content) h = ground arith

-- The ports stand behind the header of 20 bytes and its options.
ports_behind_options :
    (p : Ipv4)
    → IsIpv4 p
    → parse_ports (ipv4_bytes p) (20 + p.option_words * 4) (segment_number p.segment)
      ≡ ok (segment_ports p.segment)
ports_behind_options p h =
    subst
      (λ n. parse_ports (ipv4_bytes p) n (segment_number p.segment) ≡ ok (segment_ports p.segment))
      place
      (parse_ports_shift (ipv4_fixed p ++ p.options) (segment_bytes p.segment) 0
          (segment_number p.segment)
        ∙ parse_ports-segment p.segment h.segment_fits)
  where
    place : length (ipv4_fixed p ++ p.options) + 0 ≡ 20 + p.option_words * 4
    place = omega (arith, length-append (ipv4_fixed p) p.options, h.options_length)

fragment_test :
    (flags offset : ℕ) → offset < 0x2000 → ((flags * 0x2000 + offset) % 0x2000 == 0) ≡ (offset == 0)
fragment_test flags offset h = ground arith

version_nibble : (words : ℕ) → words ≤ 10 → (0x45 + words) / 16 ≡ 4
version_nibble words h = omega arith

header_length : (words : ℕ) → words ≤ 10 → (0x45 + words) % 16 * 4 ≡ 20 + words * 4
header_length words h = omega arith

ipv4_fields-bytes :
    (p : Ipv4)
    → IsIpv4 p
    → ipv4_fields (ipv4_bytes p) 0 (20 + p.option_words * 4) ≡ ok (ipv4_expected p)
unfolding ipv4_fields ipv4_at byte_at be16_at
ipv4_fields-bytes p h =
    simp
      (
        join16,
        fragment_test p.flags p.fragment_offset h.offset_fits,
        zero-add,
        ports_behind_options p h,
      )
      (ground arith)

-- An IPv4 header with any options, and what it carries, is read back.
pub parse_ipv4-bytes : (p : Ipv4) → IsIpv4 p → parse_ipv4 (ipv4_bytes p) 0 ≡ ok (ipv4_expected p)
unfolding parse_ipv4 byte_at
parse_ipv4-bytes p h = simp (
  require_within (ipv4_bytes p) 20 "IPv4" (omega arith),
  version_nibble p.option_words h.words_fit,
  header_length p.option_words h.words_fit,
  ltb-false (20 + p.option_words * 4) 20 (omega arith),
  zero-add,
  require_within (ipv4_bytes p) (20 + p.option_words * 4) "IPv4" long,
  ipv4_fields-bytes p h,
)
  where
    long : 20 + p.option_words * 4 ≤ length (ipv4_bytes p)
    long = omega (
      arith,
      h.options_length,
      length-append p.options (segment_bytes p.segment),
      length-append (ipv4_fixed p) (p.options ++ segment_bytes p.segment),
    )
