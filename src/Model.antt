-- ===== src/Model.antt =====
-- src/model.rs: the data that the agent and the control plane exchange. A `String` of the source is
-- the list of its bytes (`Text`), so that it compares as Rust's strings do; a string that is never
-- compared stays a native one.
use flow_observability.Base.{ℕ, suc, ◌+◌, ◌≡◌, List, [], ◌∷◌, Option, none, some, String, arith}
use flow_observability.Base.{◌==◌, if◌then◌else◌}
use flow_observability.Base.Order.{Ord, nat_ord, pair_ord, list_ord, code_ord}
pub mod Envelope
pub mod Identifier
pub mod KeyOrder
use Prim.Native.Char.{code}

abbrev pub Text : Type 0
Text = List ℕ

-- The bytes of a literal, which is ASCII throughout the source.
abbrev pub bytes_of : String → Text
bytes_of String.[] = []
bytes_of (String.◌∷◌ c s) = code c ∷ bytes_of s

abbrev pub schema_version_const : ℕ
schema_version_const = 1

pub data Direction : Type 0 where
  ingress egress internal unknown : Direction

pub data TransportProtocol : Type 0 where
  tcp udp icmp : TransportProtocol
  other : ℕ → TransportProtocol

-- `impl From<u8> for TransportProtocol`
unfoldable pub protocol_from_u8 : ℕ → TransportProtocol
protocol_from_u8 value =
    if value == 6
    then tcp
    else if value == 17
    then udp
    else if value == 1
    then icmp
    else if value == 58
    then icmp
    else other value

-- `std::net::IpAddr`: four octets, or sixteen.
pub data IpAddr : Type 0 where
  v4 : ℕ → ℕ → ℕ → ℕ → IpAddr
  v6 : List ℕ → IpAddr

pub record FlowKey : Type 0 where
  pub capture_point : Text
  pub direction : Direction
  pub protocol : TransportProtocol
  pub source_ip : IpAddr
  pub destination_ip : IpAddr
  pub source_port : Option ℕ
  pub destination_port : Option ℕ

pub record FlowBucket : Type 0 where
  pub bucket_start : ℕ
  pub key : FlowKey
  pub packets : ℕ
  pub bytes : ℕ

pub record CaptureDiagnostics : Type 0 where
  pub received : ℕ
  pub dropped : ℕ
  pub interface_dropped : ℕ
  pub parse_errors : ℕ

-- `CaptureDiagnostics::default()`
abbrev pub default_diagnostics : CaptureDiagnostics
default_diagnostics = record { received = 0; dropped = 0; interface_dropped = 0; parse_errors = 0 }

pub record BatchBody : Type 0 where
  pub schema_version : ℕ
  pub node_id : Text
  pub boot_id : Text
  pub seq : ℕ
  pub created_at : ℕ
  pub buckets : List FlowBucket
  pub diagnostics : CaptureDiagnostics

pub record BatchEnvelope : Type 0 where
  pub batch_id : Text
  pub checksum : Text
  pub body : BatchBody

pub record GapEvent : Type 0 where
  pub seq : ℕ
  pub min_bucket : Option ℕ
  pub max_bucket : Option ℕ
  pub lost_bytes : ℕ
  pub reason : String
  pub created_at : ℕ

pub record SpoolStatus : Type 0 where
  pub pending_batches : ℕ
  pub pending_payload_bytes : ℕ
  pub gap_events : ℕ
