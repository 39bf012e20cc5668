-- ===== src/Control/Tables.antt =====
-- The tables of the control plane and the SQL statements of src/control.rs that write them. Rows
-- stand in the order in which they were inserted; foreign keys are enforced, as in the bundled
-- SQLite. The two address columns are written and never read: they hold the address itself.
use flow_observability.Base.{
  ℕ, Bool, true, false, ◌&&◌, ◌||◌, List, [], ◌∷◌, ◌++◌, Option, none, some, ltb, ◌==◌,
  if◌then◌else◌, Outcome, ok, err, text_eq,
}
use flow_observability.Model.{
  Text, bytes_of, Direction, ingress, egress, internal, unknown, TransportProtocol, tcp, udp, icmp,
  other, IpAddr,
}
use flow_observability.Model.Envelope.{decimal}
use flow_observability.Sqlite.{Error, constraint_violation}

-- A row of `ingested_batches`.
pub record IngestedBatch : Type 0 where
  pub batch_id : Text
  pub checksum : Text
  pub node_id : Text
  pub boot_id : Text
  pub seq : ℕ
  pub created_at : ℕ

-- A row of `flow_buckets`.
pub record FlowRow : Type 0 where
  pub batch_id : Text
  pub bucket_start : ℕ
  pub node_id : Text
  pub capture_point : Text
  pub direction : Text
  pub protocol : Text
  pub source_ip : IpAddr
  pub destination_ip : IpAddr
  pub source_port : Option ℕ
  pub destination_port : Option ℕ
  pub packets : ℕ
  pub bytes : ℕ

pub record ControlTables : Type 0 where
  pub ingested : List IngestedBatch
  pub flows : List FlowRow

-- The statements, by what they do.
pub data Statement : Type 0 where
  begin_transaction commit_transaction delete_expired_flows delete_expired_batches : Statement
  select_checksum select_sequence insert_batch insert_flow : Statement
  select_nodes select_stats select_series : Statement

abbrev pub direction_key : Direction → Text
direction_key ingress = bytes_of "ingress"
direction_key egress = bytes_of "egress"
direction_key internal = bytes_of "internal"
direction_key unknown = bytes_of "unknown"

abbrev pub protocol_key : TransportProtocol → Text
protocol_key tcp = bytes_of "tcp"
protocol_key udp = bytes_of "udp"
protocol_key icmp = bytes_of "icmp"
protocol_key (other number) = bytes_of "other:" ++ decimal number

-- `SELECT checksum FROM ingested_batches WHERE batch_id = ?`
unfoldable pub find_checksum : Text → List IngestedBatch → Option Text
find_checksum id [] = none
find_checksum id (b ∷ batches) =
    if text_eq b.batch_id id then some b.checksum else find_checksum id batches

abbrev pub is_sequence : (node_id boot_id : Text) (seq : ℕ) → IngestedBatch → Bool
is_sequence node_id boot_id seq b =
    text_eq b.node_id node_id && text_eq b.boot_id boot_id && b.seq == seq

-- `SELECT EXISTS(SELECT 1 … WHERE node_id = ? AND boot_id = ? AND seq = ?)`
unfoldable pub has_sequence : (node_id boot_id : Text) (seq : ℕ) → List IngestedBatch → Bool
has_sequence node_id boot_id seq [] = false
has_sequence node_id boot_id seq (b ∷ batches) =
    is_sequence node_id boot_id seq b || has_sequence node_id boot_id seq batches

unfoldable pub has_batch : Text → List IngestedBatch → Bool
has_batch id [] = false
has_batch id (b ∷ batches) = text_eq b.batch_id id || has_batch id batches

-- `batch_id IN (SELECT batch_id FROM ingested_batches WHERE created_at < ?)`
unfoldable pub is_expired_id : (cutoff : ℕ) → List IngestedBatch → Text → Bool
is_expired_id cutoff [] id = false
is_expired_id cutoff (b ∷ batches) id =
    (ltb b.created_at cutoff && text_eq b.batch_id id) || is_expired_id cutoff batches id

unfoldable pub unexpired_flows : (cutoff : ℕ) → List IngestedBatch → List FlowRow → List FlowRow
unexpired_flows cutoff batches [] = []
unexpired_flows cutoff batches (r ∷ rows) =
    if is_expired_id cutoff batches r.batch_id
    then unexpired_flows cutoff batches rows
    else r ∷ unexpired_flows cutoff batches rows

unfoldable pub unexpired_batches : (cutoff : ℕ) → List IngestedBatch → List IngestedBatch
unexpired_batches cutoff [] = []
unexpired_batches cutoff (b ∷ batches) =
    if ltb b.created_at cutoff
    then unexpired_batches cutoff batches
    else b ∷ unexpired_batches cutoff batches

-- Whether each row's batch is in the table that it refers to.
unfoldable pub refers : List FlowRow → List IngestedBatch → Bool
refers [] batches = true
refers (r ∷ rows) batches = has_batch r.batch_id batches && refers rows batches

-- Whether a row refers to a batch that is to be deleted.
unfoldable pub refers_to_expired : (cutoff : ℕ) → List IngestedBatch → List FlowRow → Bool
refers_to_expired cutoff batches [] = false
refers_to_expired cutoff batches (r ∷ rows) =
    is_expired_id cutoff batches r.batch_id || refers_to_expired cutoff batches rows

unfoldable pub remove_expired_flows : (cutoff : ℕ) → ControlTables → Outcome Error ControlTables
remove_expired_flows cutoff t = ok (record t { flows = unexpired_flows cutoff t.ingested t.flows })

unfoldable pub remove_expired_batches : (cutoff : ℕ) → ControlTables → Outcome Error ControlTables
remove_expired_batches cutoff t =
    if refers_to_expired cutoff t.ingested t.flows
    then err constraint_violation
    else ok (record t { ingested = unexpired_batches cutoff t.ingested })

-- `batch_id` is the primary key, and `(node_id, boot_id, seq)` is unique.
unfoldable pub add_batch : IngestedBatch → ControlTables → Outcome Error ControlTables
add_batch b t =
    if has_batch b.batch_id t.ingested || has_sequence b.node_id b.boot_id b.seq t.ingested
    then err constraint_violation
    else ok (record t { ingested = t.ingested ++ (b ∷ []) })

-- `batch_id` refers to `ingested_batches`.
unfoldable pub add_flow : FlowRow → ControlTables → Outcome Error ControlTables
add_flow r t =
    if has_batch r.batch_id t.ingested
    then ok (record t { flows = t.flows ++ (r ∷ []) })
    else err constraint_violation
