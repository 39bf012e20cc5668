-- ===== src/Model/KeyOrder.antt =====
-- `derive(PartialOrd, Ord)` of src/model.rs: variants by their position, fields in their order of
-- declaration, byte strings and octets lexicographically. `BTreeMap` keeps its keys in this order.
use flow_observability.Base.{ℕ, suc, ◌+◌, ◌≡◌, List, [], ◌∷◌, Option, none, some, arith}
use flow_observability.Base.Order.{Ord, nat_ord, pair_ord, list_ord, code_ord}
use flow_observability.Model.{
  Text, Direction, ingress, egress, internal, unknown, TransportProtocol, tcp, udp, icmp, other,
  IpAddr, v4, v6, FlowKey,
}

abbrev direction_rank : Direction → ℕ
direction_rank ingress = 0
direction_rank egress = 1
direction_rank internal = 2
direction_rank unknown = 3

abbrev protocol_rank : TransportProtocol → ℕ
protocol_rank tcp = 0
protocol_rank udp = 1
protocol_rank icmp = 2
protocol_rank (other number) = 3 + number

abbrev pub address_code : IpAddr → List ℕ
address_code (v4 a b c d) = 0 ∷ a ∷ b ∷ c ∷ d ∷ []
address_code (v6 octets) = 1 ∷ octets

abbrev port_rank : Option ℕ → ℕ
port_rank none = 0
port_rank (some port) = suc port

abbrev KeyCode : Type 0
KeyCode = Text × (ℕ × (ℕ × (List ℕ × (List ℕ × (ℕ × ℕ)))))

abbrev key_code : FlowKey → KeyCode
key_code k = (
  k.capture_point,
  (
    direction_rank k.direction,
    (
      protocol_rank k.protocol,
      (
        address_code k.source_ip,
        (address_code k.destination_ip, (port_rank k.source_port, port_rank k.destination_port)),
      ),
    ),
  ),
)

direction_injective : (x y : Direction) → direction_rank x ≡ direction_rank y → x ≡ y
direction_injective x y h = ground arith

protocol_injective : (x y : TransportProtocol) → protocol_rank x ≡ protocol_rank y → x ≡ y
protocol_injective x y h = ground arith

address_injective : (x y : IpAddr) → address_code x ≡ address_code y → x ≡ y
address_injective x y h = ground arith

port_injective : (x y : Option ℕ) → port_rank x ≡ port_rank y → x ≡ y
port_injective x y h = ground arith

pub key_injective : (x y : FlowKey) → key_code x ≡ key_code y → x ≡ y
key_injective x y h = ground (
  arith,
  direction_injective x.direction y.direction,
  protocol_injective x.protocol y.protocol,
  address_injective x.source_ip y.source_ip,
  address_injective x.destination_ip y.destination_ip,
  port_injective x.source_port y.source_port,
  port_injective x.destination_port y.destination_port,
)

abbrev code_order : Ord KeyCode
code_order = pair_ord (list_ord nat_ord) (
    pair_ord nat_ord (
      pair_ord nat_ord
        (pair_ord (list_ord nat_ord) (pair_ord (list_ord nat_ord) (pair_ord nat_ord nat_ord)))))

unfoldable pub flow_key_ord : Ord FlowKey
flow_key_ord = code_ord code_order key_code key_injective
