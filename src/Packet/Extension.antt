-- ===== src/Packet/Extension.antt =====
-- A longer capture of the same frame changes no result but a reported truncation, and no frame
-- makes the parser panic: `capture.rs` hands over at most the first 256 bytes of each packet.
use flow_observability.Base.{
  ℕ, zero, suc, ◌+◌, ◌*◌, ◌/◌, ◌%◌, ◌≤◌, ◌≡◌, ◌≢◌, ◌||◌, List, [], ◌++◌, ◌⊎◌, inl, inr, length,
  Option, none, some, String, arith, ltb, ◌==◌, ok, err, panic,
}
use flow_observability.Base.Int.{ℤ, is_pos}
use flow_observability.Model.{Text, IpAddr, protocol_from_u8}
use flow_observability.Packet.{
  truncated, Parse, skip_vlan, raw_version, ip_offset, parse_ports, ipv4_at, ipv4_fields,
  parse_ipv4, Chain, extension_step, walk_extensions, ipv6_at, parse_ipv6, parse_ip, parse_packet,
  has_ports,
}
use flow_observability.Packet.Agree.{
  Agrees, cut, same, Agrees-ok, Agrees-err, Agrees-ne-panic, Agrees-if, Agrees-bind, Agrees-byte_at,
  Agrees-be16_at, Agrees-require, Agrees-slice,
}

raw_version-Agrees : (nibble : ℕ) → Agrees (raw_version nibble) (raw_version nibble)
unfolding raw_version
raw_version-Agrees nibble =
    Agrees-if (nibble == 4) (λ _. Agrees-ok _)
      λ _. Agrees-if (nibble == 6) (λ _. Agrees-ok _) (λ _. Agrees-err _)

module _ (frame rest : List ℕ) where
  skip_vlan-Agrees :
      (rounds offset ether_type : ℕ)
      → Agrees
          (skip_vlan rounds frame offset ether_type)
          (skip_vlan rounds (frame ++ rest) offset ether_type)
  unfolding skip_vlan
  skip_vlan-Agrees zero offset ether_type = Agrees-ok _
  skip_vlan-Agrees (suc rounds) offset ether_type =
      Agrees-if (ether_type == 0x8100 || ether_type == 0x88a8)
        (λ _. Agrees-require frame rest (offset + 4) "vlan" λ fits.
          Agrees-bind (Agrees-be16_at frame rest (offset + 2) (omega arith))
            λ next _. skip_vlan-Agrees rounds (offset + 4) next)
        (λ _. Agrees-ok _)

  ip_offset-Agrees :
      (link_type : ℤ) → Agrees (ip_offset frame link_type) (ip_offset (frame ++ rest) link_type)
  unfolding ip_offset
  ip_offset-Agrees link_type =
      Agrees-if (is_pos link_type 1)
        (λ _. Agrees-require frame rest 14 "ethernet" λ fits.
          Agrees-bind (Agrees-be16_at frame rest 12 (omega arith))
            λ ether_type _. skip_vlan-Agrees 2 14 ether_type)
        λ _.
          Agrees-if (is_pos link_type 101)
            (λ _. Agrees-require frame rest 1 "raw IP" λ fits.
              Agrees-bind (Agrees-byte_at frame rest 0 (omega arith))
                λ first _. raw_version-Agrees (first / 16))
            λ _.
              Agrees-if (is_pos link_type 113)
                (λ _. Agrees-require frame rest 16 "linux cooked" λ fits.
                  Agrees-bind (Agrees-be16_at frame rest 14 (omega arith)) λ _ _. Agrees-ok _)
                λ _.
                  Agrees-if (is_pos link_type 276)
                    (λ _. Agrees-require frame rest 20 "linux cooked v2" λ fits.
                      Agrees-bind (Agrees-be16_at frame rest 0 (omega arith)) λ _ _. Agrees-ok _)
                    (λ _. Agrees-err _)

  parse_ports-Agrees :
      (at protocol : ℕ)
      → Agrees (parse_ports frame at protocol) (parse_ports (frame ++ rest) at protocol)
  unfolding parse_ports
  parse_ports-Agrees at protocol =
      Agrees-if (has_ports (protocol_from_u8 protocol))
        (λ _. Agrees-require frame rest (at + 4) "transport" λ fits.
          Agrees-bind (Agrees-be16_at frame rest at (omega arith)) λ _ _.
            Agrees-bind (Agrees-be16_at frame rest (at + 2) (omega arith)) λ _ _. Agrees-ok _)
        (λ _. Agrees-ok _)

  ipv4_at-Agrees :
      (i : ℕ) → i + 4 ≤ length frame → Agrees (ipv4_at frame i) (ipv4_at (frame ++ rest) i)
  unfolding ipv4_at
  ipv4_at-Agrees i fits = Agrees-bind (Agrees-byte_at frame rest i (omega arith)) λ _ _.
      Agrees-bind (Agrees-byte_at frame rest (i + 1) (omega arith)) λ _ _.
        Agrees-bind (Agrees-byte_at frame rest (i + 2) (omega arith))
          λ _ _. Agrees-bind (Agrees-byte_at frame rest (i + 3) (omega arith)) λ _ _. Agrees-ok _

  ipv4_fields-Agrees :
      (offset header_len : ℕ)
      → offset + 20 ≤ length frame
      → Agrees (ipv4_fields frame offset header_len) (ipv4_fields (frame ++ rest) offset header_len)
  unfolding ipv4_fields
  ipv4_fields-Agrees offset header_len fits =
      Agrees-bind (Agrees-byte_at frame rest (offset + 9) (omega arith)) λ protocol _.
        Agrees-bind (ipv4_at-Agrees (offset + 12) (omega arith)) λ _ _.
          Agrees-bind (ipv4_at-Agrees (offset + 16) (omega arith)) λ _ _.
            Agrees-bind (Agrees-be16_at frame rest (offset + 6) (omega arith)) λ fragment _.
              Agrees-bind
                (Agrees-if (fragment % 0x2000 == 0)
                  (λ _. parse_ports-Agrees (offset + header_len) protocol) (λ _. Agrees-ok _))
                λ _ _. Agrees-ok _

  parse_ipv4-Agrees :
      (offset : ℕ) → Agrees (parse_ipv4 frame offset) (parse_ipv4 (frame ++ rest) offset)
  unfolding parse_ipv4
  parse_ipv4-Agrees offset = Agrees-require frame rest (offset + 20) "IPv4" λ fits.
      Agrees-bind (Agrees-byte_at frame rest offset (omega arith)) λ first _.
        Agrees-if (first / 16 == 4)
          (λ _.
            Agrees-if (ltb (first % 16 * 4) 20) (λ _. Agrees-err _)
              λ _.
                Agrees-require frame rest (offset + first % 16 * 4) "IPv4"
                  λ _. ipv4_fields-Agrees offset (first % 16 * 4) fits)
          (λ _. Agrees-err _)

  extension_step-Agrees :
      (c : Chain) → Agrees (extension_step frame c) (extension_step (frame ++ rest) c)
  unfolding extension_step
  extension_step-Agrees c =
      let at = c.transport_offset in
      Agrees-if (c.protocol == 0 || c.protocol == 43 || c.protocol == 60)
        (λ _. Agrees-require frame rest (at + 2) "IPv6 extension" λ fits.
          Agrees-bind (Agrees-byte_at frame rest at (omega arith)) λ _ _.
            Agrees-bind (Agrees-byte_at frame rest (at + 1) (omega arith)) λ units _.
              Agrees-require frame rest (at + (units + 1) * 8) "IPv6 extension" λ _. Agrees-ok _)
        λ _.
          Agrees-if (c.protocol == 44)
            (λ _. Agrees-require frame rest (at + 8) "IPv6 fragment" λ fits.
              Agrees-bind (Agrees-byte_at frame rest at (omega arith)) λ _ _.
                Agrees-bind (Agrees-be16_at frame rest (at + 2) (omega arith)) λ _ _. Agrees-ok _)
            λ _.
              Agrees-if (c.protocol == 51)
                (λ _. Agrees-require frame rest (at + 2) "IPv6 AH" λ fits.
                  Agrees-bind (Agrees-byte_at frame rest at (omega arith)) λ _ _.
                    Agrees-bind (Agrees-byte_at frame rest (at + 1) (omega arith)) λ units _.
                      Agrees-require frame rest (at + (units + 2) * 4) "IPv6 AH" λ _. Agrees-ok _)
                (λ _. Agrees-ok _)

  continue-Agrees :
      (c : Chain) {f f' : Chain → Parse Chain}
      → ((d : Chain) → Agrees (f d) (f' d))
      → (next : Option Chain)
      → Agrees
          (elim next [ none ↦ ok c | some d ↦ f d ])
          (elim next [ none ↦ ok c | some d ↦ f' d ])
  continue-Agrees c h none = Agrees-ok c
  continue-Agrees c h (some d) = h d

  walk_extensions-Agrees :
      (rounds : ℕ) (c : Chain)
      → Agrees (walk_extensions rounds frame c) (walk_extensions rounds (frame ++ rest) c)
  unfolding walk_extensions
  walk_extensions-Agrees zero c = Agrees-ok c
  walk_extensions-Agrees (suc rounds) c =
      Agrees-bind (extension_step-Agrees c)
        λ next _. continue-Agrees c (walk_extensions-Agrees rounds) next

  ipv6_at-Agrees :
      (first : ℕ)
      → first + 16 ≤ length frame
      → Agrees (ipv6_at frame first) (ipv6_at (frame ++ rest) first)
  unfolding ipv6_at
  ipv6_at-Agrees first fits =
      Agrees-bind (Agrees-slice frame rest first (first + 16) (omega arith) fits)
        λ octets _. Agrees-if (length octets == 16) (λ _. Agrees-ok _) (λ _. Agrees-err _)

  parse_ipv6-Agrees :
      (offset : ℕ) → Agrees (parse_ipv6 frame offset) (parse_ipv6 (frame ++ rest) offset)
  unfolding parse_ipv6
  parse_ipv6-Agrees offset = Agrees-require frame rest (offset + 40) "IPv6" λ fits.
      Agrees-bind (Agrees-byte_at frame rest offset (omega arith)) λ first _.
        Agrees-if (first / 16 == 6)
          (λ _. Agrees-bind (ipv6_at-Agrees (offset + 8) (omega arith)) λ _ _.
            Agrees-bind (ipv6_at-Agrees (offset + 24) (omega arith)) λ _ _.
              Agrees-bind (Agrees-byte_at frame rest (offset + 6) (omega arith)) λ next _.
                Agrees-bind (walk_extensions-Agrees 8 _) λ c _.
                  Agrees-bind
                    (Agrees-if c.first_fragment
                      (λ _. parse_ports-Agrees c.transport_offset c.protocol) (λ _. Agrees-ok _))
                    λ _ _. Agrees-ok _)
          (λ _. Agrees-err _)

  parse_ip-Agrees :
      (offset ether_type : ℕ)
      → Agrees (parse_ip frame offset ether_type) (parse_ip (frame ++ rest) offset ether_type)
  unfolding parse_ip
  parse_ip-Agrees offset ether_type =
      Agrees-if (ether_type == 0x0800)
        (λ _. Agrees-bind (parse_ipv4-Agrees offset) λ _ _. Agrees-ok _)
        λ _.
          Agrees-if (ether_type == 0x86dd)
            (λ _. Agrees-bind (parse_ipv6-Agrees offset) λ _ _. Agrees-ok _) (λ _. Agrees-ok _)

  pub parse_packet-Agrees :
      (link_type : ℤ) (timestamp wire_bytes : ℕ) (capture_point : Text) (local_ips : List IpAddr)
      → Agrees
          (parse_packet frame link_type timestamp wire_bytes capture_point local_ips)
          (parse_packet (frame ++ rest) link_type timestamp wire_bytes capture_point local_ips)
  unfolding parse_packet
  parse_packet-Agrees link_type timestamp wire_bytes capture_point local_ips =
      Agrees-bind (ip_offset-Agrees link_type)
        λ at _. Agrees-bind (parse_ip-Agrees at.0 at.1) λ _ _. Agrees-ok _

-- No frame, link type, or list of local addresses makes the parser panic: each index into the
-- frame lies within it.
pub parse_packet-ne-panic :
    (frame : List ℕ) (link_type : ℤ) (timestamp wire_bytes : ℕ) (capture_point : Text)
    (local_ips : List IpAddr)
    → parse_packet frame link_type timestamp wire_bytes capture_point local_ips ≢ panic
parse_packet-ne-panic frame link_type timestamp wire_bytes capture_point local_ips =
    Agrees-ne-panic
      (parse_packet-Agrees frame [] link_type timestamp wire_bytes capture_point local_ips)

Agrees-cases :
    {A : Type 0} {r r' : Parse A}
    → Agrees r r'
    → ((layer : String) × (r ≡ err (truncated layer))) ⊎ (r' ≡ r)
Agrees-cases (cut layer e) = inl (layer, e)
Agrees-cases (same e n) = inr e

-- A frame cut short by the capture is either reported as truncated, or parsed exactly as the frame
-- with all its bytes is, an error that is no truncation included.
pub parse_packet-append :
    (frame rest : List ℕ) (link_type : ℤ) (timestamp wire_bytes : ℕ) (capture_point : Text)
    (local_ips : List IpAddr)
    → ((layer : String) × (parse_packet frame link_type timestamp wire_bytes capture_point local_ips
          ≡ err (truncated layer)))
      ⊎ (parse_packet (frame ++ rest) link_type timestamp wire_bytes capture_point local_ips
          ≡ parse_packet frame link_type timestamp wire_bytes capture_point local_ips)
parse_packet-append frame rest link_type timestamp wire_bytes capture_point local_ips =
    Agrees-cases
      (parse_packet-Agrees frame rest link_type timestamp wire_bytes capture_point local_ips)
