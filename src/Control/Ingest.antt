-- ===== src/Control/Ingest.antt =====
-- `ingest_at` and `prune_expired` of src/control.rs: one transaction on the tables of the control
-- plane.
use flow_observability.Base.{
  ℕ, ◌-◌, List, [], ◌∷◌, none, some, ◌==◌, if◌then◌else◌, Outcome, ok, err, panic, not, text_eq,
}
use flow_observability.Model.{Text, schema_version_const, FlowBucket, BatchEnvelope}
use flow_observability.Model.Envelope.{Codec, has_valid_checksum}
use flow_observability.Sqlite.{Error, conversion_to_sql, integer}
use flow_observability.Sqlite.Step.{
  Step, Engine, ◌>>=◌, ◌>>◌, pure, lift, fail, map_err, query, execute, transaction,
}
use flow_observability.Control.Tables.{
  ControlTables, Statement, begin_transaction, commit_transaction, delete_expired_flows,
  delete_expired_batches, select_checksum, select_sequence, insert_batch, insert_flow,
  direction_key, protocol_key, find_checksum, has_sequence, remove_expired_flows,
  remove_expired_batches, add_batch, add_flow,
}

pub record ControlLimits : Type 0 where
  pub max_database_bytes : ℕ
  pub max_age_seconds : ℕ

-- `IngestStatus` of src/model.rs
pub data IngestStatus : Type 0 where
  inserted duplicate : IngestStatus

pub data IngestError : Type 0 where
  schema_version checksum conflict : IngestError
  database encoding : Error → IngestError

abbrev pub ControlEngine : Type 0
ControlEngine = Engine Statement ControlTables

-- The tables, and a working copy of them inside a transaction.
abbrev pub IngestStep : Type 0 → Type 0
IngestStep A = Step IngestError ControlTables A

-- `integer(value, field)?` in a function that returns an `IngestError`
abbrev pub checked : ℕ → IngestStep ℕ
checked value = map_err encoding (lift (integer value "batch field"))

module _ (engine : ControlEngine) where
  unfoldable pub prune_expired : (max_age_seconds now : ℕ) → Step Error ControlTables (Unit {0})
  prune_expired max_age_seconds now = do
    cutoff ←
        map_err (λ _. conversion_to_sql) (lift (integer (now - max_age_seconds) "control cutoff"))
    execute engine delete_expired_flows (remove_expired_flows cutoff)
    execute engine delete_expired_batches (remove_expired_batches cutoff)

  unfoldable pub insert_bucket : (batch_id node_id : Text) → FlowBucket → IngestStep (Unit {0})
  insert_bucket batch_id node_id b = do
    bucket_start ← checked b.bucket_start
    packets ← checked b.packets
    bytes ← checked b.bytes
    map_err database (
        execute engine insert_flow (
          add_flow (record {
            batch_id = batch_id;
            bucket_start = bucket_start;
            node_id = node_id;
            capture_point = b.key.capture_point;
            direction = direction_key b.key.direction;
            protocol = protocol_key b.key.protocol;
            source_ip = b.key.source_ip;
            destination_ip = b.key.destination_ip;
            source_port = b.key.source_port;
            destination_port = b.key.destination_port;
            packets = packets;
            bytes = bytes;
          })))

  -- The loop over the buckets of a batch.
  unfoldable pub insert_buckets :
      (batch_id node_id : Text) → List FlowBucket → IngestStep (Unit {0})
  insert_buckets batch_id node_id [] = pure tt
  insert_buckets batch_id node_id (b ∷ buckets) = do
    insert_bucket batch_id node_id b
    insert_buckets batch_id node_id buckets

  -- A batch whose identifier is new.
  unfoldable pub insert_new : BatchEnvelope → IngestStep IngestStatus
  insert_new e = do
    seq ← checked e.body.seq
    exists ← map_err database (
        query engine select_sequence
          (λ t. ok (has_sequence e.body.node_id e.body.boot_id seq t.ingested)))
    if exists then fail conflict else (do
      created_at ← checked e.body.created_at
      map_err database (
          execute engine insert_batch (
            add_batch (record {
              batch_id = e.batch_id;
              checksum = e.checksum;
              node_id = e.body.node_id;
              boot_id = e.body.boot_id;
              seq = seq;
              created_at = created_at;
            })))
      insert_buckets e.batch_id e.body.node_id e.body.buckets
      pure inserted)

  -- The transaction after the pruning.
  unfoldable pub ingest_pruned : BatchEnvelope → IngestStep IngestStatus
  ingest_pruned e = do
    existing ←
        map_err database
          (query engine select_checksum (λ t. ok (find_checksum e.batch_id t.ingested)))
    elim existing [
      | none ↦ insert_new e
      | some stored ↦ if text_eq stored e.checksum then pure duplicate else fail conflict
    ]

  unfoldable pub ingest_body : ControlLimits → BatchEnvelope → (now : ℕ) → IngestStep IngestStatus
  ingest_body limits e now = do
    map_err database (prune_expired limits.max_age_seconds now)
    ingest_pruned e

  unfoldable pub ingest_at :
      Codec
      → ControlLimits
      → BatchEnvelope
      → (now : ℕ) → ControlTables
      → Outcome IngestError IngestStatus × ControlTables
  ingest_at codec limits e now t =
      if not (e.body.schema_version == schema_version_const)
      then (err schema_version, t)
      else elim (has_valid_checksum codec e) [
        | err failure ↦ (err (encoding failure), t)
        | panic ↦ (panic, t)
        | ok valid ↦
            if valid
            then transaction engine database begin_transaction commit_transaction
                (ingest_body limits e now) t
            else (err checksum, t)
      ]
