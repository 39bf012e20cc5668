-- ===== src/Spool/Methods.antt =====
-- The methods of `Spool` in src/spool.rs. A method that writes returns its result and the tables
-- that it leaves.
use flow_observability.Base.{
  ℕ, ◌+◌, ◌*◌, ◌/◌, ◌%◌, ◌^◌, List, [], ◌∷◌, length, take, Option, none, some, ltb, ◌==◌,
  if◌then◌else◌, Outcome, ok, err, panic,
}
use flow_observability.Model.{
  Text, FlowBucket, CaptureDiagnostics, BatchEnvelope, GapEvent, SpoolStatus,
}
use flow_observability.Model.Envelope.{Codec, or_fail, new_envelope}
use flow_observability.Sqlite.{Error, anyhow, integer, optional_integer}
use flow_observability.Sqlite.Step.{◌>>=◌, ◌>>◌, pure, lift, query, execute, transaction}
use flow_observability.Spool.Tables.{
  SpoolTables, BatchRow, begin_transaction, commit_transaction, select_next_seq, update_next_seq,
  insert_batch, select_pending, delete_acknowledged, select_status, select_gaps, read_next_seq,
  increment_next_seq, insert_row, read_status, read_gaps, without_acknowledged, count_acknowledged,
}
use flow_observability.Spool.Evict.{SpoolLimits, SpoolEngine, SpoolStep, insert_gap, enforce_limits}

pub record EnqueueResult : Type 0 where
  pub batch_id : Text
  pub evicted_batches : ℕ

pub record Spool : Type 0 where
  pub tables : SpoolTables
  pub limits : SpoolLimits

-- `iter().map(|bucket| bucket.bucket_start).min()` and `.max()`
abbrev pub min_start : List FlowBucket → Option ℕ
min_start [] = none
min_start (b ∷ buckets) = elim (min_start buckets) [
  | none ↦ some b.bucket_start
  | some m ↦ some (if ltb m b.bucket_start then m else b.bucket_start)
]

abbrev pub max_start : List FlowBucket → Option ℕ
max_start [] = none
max_start (b ∷ buckets) = elim (max_start buckets) [
  | none ↦ some b.bucket_start
  | some m ↦ some (if ltb m b.bucket_start then b.bucket_start else m)
]

unfoldable pub bucket_range : List FlowBucket → Option ℕ × Option ℕ
bucket_range buckets = (min_start buckets, max_start buckets)

-- `CREATE TABLE IF NOT EXISTS …; INSERT OR IGNORE INTO metadata …`: a file that has the tables
-- keeps them.
abbrev pub created_tables : Option SpoolTables → SpoolTables
created_tables none = record { next_seq = 0; batches = []; gaps = [] }
created_tables (some t) = t

abbrev pub sqlite_overhead_bytes : ℕ
sqlite_overhead_bytes = 16 * 1024 * 1024

-- The `max_page_count` that `configure` sets, for the page size of the file.
unfoldable pub max_page_count : (max_payload_bytes page_size : ℕ) → Outcome Error ℕ
unfolding integer
max_page_count max_payload_bytes page_size =
    let total = (max_payload_bytes + sqlite_overhead_bytes) % 2 ^ 64 in
    if page_size == 0
    then panic
    else integer (total / page_size + (if total % page_size == 0 then 0 else 1)) "max_page_count"

module _ (codec : Codec) (engine : SpoolEngine) where
  -- The batch does not fit the spool at all: it is recorded as a gap.
  unfoldable pub reject_batch :
      (seq : ℕ) (range : Option ℕ × Option ℕ) (payload_bytes created_at : ℕ) (batch_id : Text)
      → SpoolStep EnqueueResult
  reject_batch seq range payload_bytes created_at batch_id = do
    insert_gap engine seq range.0 range.1 payload_bytes "batch_exceeds_spool_limit" created_at
    pure (record { batch_id = batch_id; evicted_batches = 1 })

  unfoldable pub store_batch :
      SpoolLimits
      → (seq created_at : ℕ) (range : Option ℕ × Option ℕ) (payload : Text) → BatchEnvelope
      → SpoolStep EnqueueResult
  store_batch limits seq created_at range payload envelope = do
    seq' ← lift (integer seq "seq")
    created' ← lift (integer created_at "created_at")
    min' ← lift (optional_integer range.0 "min_bucket")
    max' ← lift (optional_integer range.1 "max_bucket")
    bytes' ← lift (integer (length payload) "payload_bytes")
    execute engine insert_batch (
        insert_row (record {
          seq = seq';
          batch_id = envelope.batch_id;
          checksum = envelope.checksum;
          created_at = created';
          min_bucket = min';
          max_bucket = max';
          payload_bytes = bytes';
          payload = payload;
        }))
    evicted ← enforce_limits engine limits created_at
    pure (record { batch_id = envelope.batch_id; evicted_batches = evicted })

  -- The body of the transaction of `enqueue`.
  unfoldable pub enqueue_body :
      SpoolLimits
      → (node_id boot_id : Text) (created_at : ℕ) → List FlowBucket
      → CaptureDiagnostics
      → SpoolStep EnqueueResult
  enqueue_body limits node_id boot_id created_at buckets diagnostics = do
    seq ← query engine select_next_seq read_next_seq
    execute engine update_next_seq increment_next_seq
    envelope ← lift (new_envelope codec node_id boot_id seq created_at buckets diagnostics)
    payload ← lift (or_fail "serialize envelope" (codec.envelope_to_vec envelope))
    if ltb limits.max_payload_bytes (length payload)
        then reject_batch seq (bucket_range buckets) (length payload) created_at envelope.batch_id
        else store_batch limits seq created_at (bucket_range buckets) payload envelope

  unfoldable pub enqueue :
      SpoolLimits
      → (node_id boot_id : Text) (created_at : ℕ) → List FlowBucket
      → CaptureDiagnostics
      → SpoolTables
      → Outcome Error EnqueueResult × SpoolTables
  unfolding transaction
  enqueue limits node_id boot_id created_at buckets diagnostics =
      transaction engine (λ e. e) begin_transaction commit_transaction
        (enqueue_body limits node_id boot_id created_at buckets diagnostics)

  -- `serde_json::from_slice(&payload)` of each row, the first failure ending it
  unfoldable pub decode_payloads : List BatchRow → Outcome Error (List BatchEnvelope)
  decode_payloads [] = ok []
  decode_payloads (r ∷ rows) = elim (codec.envelope_from_slice r.payload) [
    | none ↦ err (anyhow "decode pending batch")
    | some e ↦ elim (decode_payloads rows) [ ok es ↦ ok (e ∷ es) | err x ↦ err x | panic ↦ panic ]
  ]

  -- `SELECT payload FROM batches ORDER BY seq LIMIT ?`
  unfoldable pub pending : (limit : ℕ) → SpoolStep (List BatchEnvelope)
  unfolding integer query decode_payloads
  pending limit = do
    limit' ← lift (integer limit "limit")
    query engine select_pending (λ t. decode_payloads (take limit' t.batches))

  -- The DELETE has committed by the time that its count is tested.
  unfoldable pub acknowledge :
      (batch_id checksum : Text) → SpoolTables → Outcome Error (Unit {0}) × SpoolTables
  acknowledge batch_id checksum t = elim (engine delete_acknowledged t) [
    | some fault ↦ (err fault, t)
    | none ↦ (
      if count_acknowledged batch_id checksum t.batches == 1
          then ok tt
          else err (anyhow "ack does not match a pending batch"),
      record t { batches = without_acknowledged batch_id checksum t.batches },
    )
  ]

  unfoldable pub status : SpoolStep SpoolStatus
  unfolding query read_status
  status = query engine select_status read_status

  -- `SELECT … FROM gaps ORDER BY seq`
  unfoldable pub gaps : SpoolStep (List GapEvent)
  unfolding query read_gaps
  gaps = query engine select_gaps (λ t. read_gaps t.gaps)
