-- ===== src/Spool/Total.antt =====
-- `enqueue` and `status` of src/spool.rs never panic.
use flow_observability.Base.{
  ℕ, ◌≢◌, List, length, Option, String, panic, arith, inl, inr, Option-cases,
}
use flow_observability.Model.{
  Text, FlowBucket, CaptureDiagnostics, BatchEnvelope, schema_version_const,
}
use flow_observability.Model.Envelope.{Codec, new_envelope, first_bytes, body_checksum, or_fail}
use flow_observability.Sqlite.{integer, optional_integer}
use flow_observability.Sqlite.Total.{
  NoPanic, NoPanic-bind, NoPanic-lift, NoPanic-query, NoPanic-execute, NoPanic-transaction,
}
use flow_observability.Sqlite.Step.{query, execute}
use flow_observability.Spool.Tables.{
  begin_transaction, commit_transaction, SpoolTables, BatchRow, read_status, read_next_seq,
  insert_row, insert_gap_event, increment_next_seq,
}
use flow_observability.Spool.Evict.{SpoolLimits, SpoolEngine, insert_gap}
use flow_observability.Spool.Bounds.{enforce_limits-ne-panic}
use flow_observability.Spool.Methods.{
  bucket_range, enqueue, enqueue_body, reject_batch, store_batch, status,
}

integer-ne-panic : (value : ℕ) (field : String) → integer value field ≢ panic
unfolding integer
integer-ne-panic value field e = ground arith

optional_integer-ne-panic :
    (value : Option ℕ) (field : String) → optional_integer value field ≢ panic
unfolding optional_integer integer
optional_integer-ne-panic value field e = ground arith

insert_row-ne-panic : (r : BatchRow) (t : SpoolTables) → insert_row r t ≢ panic
unfolding insert_row
insert_row-ne-panic r t e = ground arith

read_next_seq-ne-panic : (t : SpoolTables) → read_next_seq t ≢ panic
unfolding read_next_seq
read_next_seq-ne-panic t e = ground arith

increment_next_seq-ne-panic : (t : SpoolTables) → increment_next_seq t ≢ panic
unfolding increment_next_seq
increment_next_seq-ne-panic t e = ground arith

module _ (codec : Codec) (engine : SpoolEngine) where
  first_bytes-ne-panic : (content : Text) → first_bytes 16 (codec.hash_hex content) ≢ panic
  unfolding first_bytes
  first_bytes-ne-panic content e = ground (arith, codec.length-hash_hex content)

  -- The digest is long enough for the prefix that the identifier takes of it.
  new_envelope-ne-panic :
      (node_id boot_id : Text) (seq created_at : ℕ) (buckets : List FlowBucket)
      (diagnostics : CaptureDiagnostics)
      → new_envelope codec node_id boot_id seq created_at buckets diagnostics ≢ panic
  unfolding new_envelope body_checksum
  new_envelope-ne-panic node_id boot_id seq created_at buckets diagnostics e =
      elim (Option-cases (
        codec.body_to_vec (record {
          schema_version = schema_version_const;
          node_id = node_id;
          boot_id = boot_id;
          seq = seq;
          created_at = created_at;
          buckets = buckets;
          diagnostics = diagnostics;
        }))) [
          | inl n ↦ ground arith
          | inr (content, n) ↦ ground (arith, first_bytes-ne-panic content)
        ]

  pub status-ne-panic : (t : SpoolTables) → status codec engine t ≢ panic
  unfolding status query read_status
  status-ne-panic t e = ground arith

  reject_batch-NoPanic :
      (seq : ℕ) (range : Option ℕ × Option ℕ) (payload_bytes created_at : ℕ) (batch_id : Text)
      → NoPanic (reject_batch codec engine seq range payload_bytes created_at batch_id)
  unfolding reject_batch insert_gap integer optional_integer execute insert_gap_event
  reject_batch-NoPanic seq range payload_bytes created_at batch_id t e = ground arith

  store_batch-NoPanic :
      (limits : SpoolLimits) (seq created_at : ℕ) (range : Option ℕ × Option ℕ) (payload : Text)
      (envelope : BatchEnvelope)
      → NoPanic (store_batch codec engine limits seq created_at range payload envelope)
  unfolding store_batch
  store_batch-NoPanic limits seq created_at range payload envelope =
      NoPanic-bind _ _ (NoPanic-lift _ (integer-ne-panic seq "seq")) λ seq'.
        NoPanic-bind _ _ (NoPanic-lift _ (integer-ne-panic created_at "created_at")) λ created'.
          NoPanic-bind _ _ (NoPanic-lift _ (optional_integer-ne-panic range.0 "min_bucket")) λ min'.
            NoPanic-bind _ _ (NoPanic-lift _ (optional_integer-ne-panic range.1 "max_bucket"))
              λ max'.
                NoPanic-bind _ _
                  (NoPanic-lift _ (integer-ne-panic (length payload) "payload_bytes"))
                  λ bytes'.
                    NoPanic-bind _ _ (NoPanic-execute engine _ _ (insert_row-ne-panic _)) λ _.
                      NoPanic-bind _ _ (λ t. enforce_limits-ne-panic engine limits created_at t)
                        λ evicted t z. cc

  enqueue_body-NoPanic :
      (limits : SpoolLimits) (node_id boot_id : Text) (created_at : ℕ) (buckets : List FlowBucket)
      (diagnostics : CaptureDiagnostics)
      → NoPanic (enqueue_body codec engine limits node_id boot_id created_at buckets diagnostics)
  unfolding enqueue_body
  enqueue_body-NoPanic limits node_id boot_id created_at buckets diagnostics =
      NoPanic-bind _ _ (NoPanic-query engine _ _ read_next_seq-ne-panic) λ seq.
        NoPanic-bind _ _ (NoPanic-execute engine _ _ increment_next_seq-ne-panic) λ _.
          NoPanic-bind _ _
            (NoPanic-lift _
              (new_envelope-ne-panic node_id boot_id seq created_at buckets diagnostics))
            λ envelope. NoPanic-bind _ _ (NoPanic-lift _ (encoded envelope)) λ payload t e. ground (
              arith,
              reject_batch-NoPanic seq (bucket_range buckets) (length payload) created_at
                  envelope.batch_id t,
              store_batch-NoPanic limits seq created_at (bucket_range buckets) payload envelope t,
            )
    where
      encoded :
          (envelope : BatchEnvelope)
          → or_fail "serialize envelope" (codec.envelope_to_vec envelope) ≢ panic
      encoded envelope e = ground arith

  pub enqueue-ne-panic :
      (limits : SpoolLimits) (node_id boot_id : Text) (created_at : ℕ) (buckets : List FlowBucket)
      (diagnostics : CaptureDiagnostics) (t : SpoolTables)
      → (enqueue codec engine limits node_id boot_id created_at buckets diagnostics t).0 ≢ panic
  unfolding enqueue
  enqueue-ne-panic limits node_id boot_id created_at buckets diagnostics =
      NoPanic-transaction engine (λ e. e) begin_transaction commit_transaction
        (enqueue_body codec engine limits node_id boot_id created_at buckets diagnostics)
        (enqueue_body-NoPanic limits node_id boot_id created_at buckets diagnostics)
