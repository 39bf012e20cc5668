-- ===== src/Spool/Enqueue.antt =====
-- What `enqueue` has done when it returns.
use flow_observability.Base.{
  ℕ, suc, ◌+◌, ◌-◌, ◌≤◌, ◌<◌, ◌≡◌, true, false, List, length, Option, some, ltb, arith, ok, inl,
  inr, Bool-cases, Outcome-cases, Option-cases, ltb→lt, le_of_ltb,
}
use flow_observability.Model.{Text, FlowBucket, CaptureDiagnostics, BatchEnvelope, GapEvent}
use flow_observability.Model.Envelope.{Codec, new_envelope}
use flow_observability.Sqlite.{Error, integer, optional_integer}
use flow_observability.Sqlite.Step.{query, execute}
use flow_observability.Sqlite.Inversion.{transaction-ok}
use flow_observability.Spool.Tables.{
  SpoolTables, BatchRow, place_batch, place_gap, insert_row, has_batch_seq, read_next_seq,
  increment_next_seq, begin_transaction, commit_transaction,
}
use flow_observability.Spool.Evict.{SpoolLimits, SpoolEngine, SpoolStep, evict_loop, enforce_limits}
use flow_observability.Spool.Methods.{
  EnqueueResult, bucket_range, reject_batch, store_batch, enqueue_body, enqueue,
}
use flow_observability.Spool.Eviction.{insert_gap-ok}

-- The row of a stored batch, and the gap of a batch that does not fit the spool.
abbrev pub row_of : (seq created_at : ℕ) → List FlowBucket → BatchEnvelope → Text → BatchRow
row_of seq created_at buckets e payload = record {
  seq = seq;
  batch_id = e.batch_id;
  checksum = e.checksum;
  created_at = created_at;
  min_bucket = (bucket_range buckets).0;
  max_bucket = (bucket_range buckets).1;
  payload_bytes = length payload;
  payload = payload;
}

abbrev pub rejected_gap : (seq created_at : ℕ) → List FlowBucket → Text → GapEvent
rejected_gap seq created_at buckets payload = record {
  seq = seq;
  min_bucket = (bucket_range buckets).0;
  max_bucket = (bucket_range buckets).1;
  lost_bytes = length payload;
  reason = "batch_exceeds_spool_limit";
  created_at = created_at;
}

-- The tables with the new row in, before the limits are enforced.
abbrev pub with_row : SpoolTables → BatchRow → SpoolTables
with_row t r = record t { next_seq = t.next_seq + 1; batches = place_batch r t.batches }

abbrev pub with_gap : SpoolTables → GapEvent → SpoolTables
with_gap t g = record t { next_seq = t.next_seq + 1; gaps = place_gap g t.gaps }

module _ (codec : Codec) (engine : SpoolEngine) where
  reject_batch-ok :
      (seq : ℕ) (range : Option ℕ × Option ℕ) (n created_at : ℕ) (id : Text) (u : SpoolTables)
      (result : EnqueueResult) (t' : SpoolTables)
      → reject_batch codec engine seq range n created_at id u ≡ ok (result, t')
      → (t' ≡ record u {
        gaps =
            place_gap
              (record {
                seq = seq;
                min_bucket = range.0;
                max_bucket = range.1;
                lost_bytes = n;
                reason = "batch_exceeds_spool_limit";
                created_at = created_at;
              })
              u.gaps;
      })
        × (result ≡ record { batch_id = id; evicted_batches = 1 })
  unfolding reject_batch
  reject_batch-ok seq range n created_at id u result t' e = ground (
    arith,
    insert_gap-ok engine seq range.0 range.1 n "batch_exceeds_spool_limit" created_at u t',
  )

  store_batch-ok :
      (limits : SpoolLimits) (seq created_at : ℕ) (buckets : List FlowBucket) (payload : Text)
      (x : BatchEnvelope) (u : SpoolTables) (result : EnqueueResult) (t' : SpoolTables)
      → store_batch codec engine limits seq created_at (bucket_range buckets) payload x u
        ≡ ok (result, t')
      → (has_batch_seq seq u.batches ≡ false)
        × (evict_loop engine
              (suc (length (place_batch (row_of seq created_at buckets x payload) u.batches)))
              limits
              (created_at - limits.max_age_seconds)
              created_at
              0
              (record u {
                batches = place_batch (row_of seq created_at buckets x payload) u.batches;
              })
            ≡ ok (result.evicted_batches, t'))
        × (result.batch_id ≡ x.batch_id)
  unfolding store_batch integer optional_integer execute insert_row enforce_limits
  store_batch-ok limits seq created_at buckets payload x u result t' e = ground arith

module _ (codec : Codec) (engine : SpoolEngine) (limits : SpoolLimits) (node_id boot_id : Text)
    (created_at : ℕ) (buckets : List FlowBucket) (diagnostics : CaptureDiagnostics)
    (t : SpoolTables) where
  -- The envelope of the batch, and its serialisation.
  pub record Encoded (e : BatchEnvelope) (payload : Text) : Type 0 where
    pub envelope :
        new_envelope codec node_id boot_id t.next_seq created_at buckets diagnostics ≡ ok e
    pub serialised : codec.envelope_to_vec e ≡ some payload

  pub data Enqueued (result : EnqueueResult) (t' : SpoolTables) : Type 0 where
    rejected :
        (e : BatchEnvelope) (payload : Text)
        → Encoded e payload
        → limits.max_payload_bytes < length payload
        → t' ≡ with_gap t (rejected_gap t.next_seq created_at buckets payload)
        → result ≡ record { batch_id = e.batch_id; evicted_batches = 1 }
        → Enqueued result t'
    stored :
        (e : BatchEnvelope) (payload : Text) (evicted : ℕ)
        → Encoded e payload
        → length payload ≤ limits.max_payload_bytes
        → has_batch_seq t.next_seq t.batches ≡ false
        → evict_loop engine
            (suc (length (place_batch (row_of t.next_seq created_at buckets e payload) t.batches)))
            limits
            (created_at - limits.max_age_seconds)
            created_at
            0
            (with_row t (row_of t.next_seq created_at buckets e payload))
          ≡ ok (evicted, t')
        → result ≡ record { batch_id = e.batch_id; evicted_batches = evicted }
        → Enqueued result t'

  batch_body : SpoolStep EnqueueResult
  batch_body = enqueue_body codec engine limits node_id boot_id created_at buckets diagnostics

  counted : SpoolTables
  counted = record t { next_seq = t.next_seq + 1 }

  body_rejects :
      (e : BatchEnvelope) (payload : Text) (result : EnqueueResult) (t' : SpoolTables)
      → Encoded e payload
      → ltb limits.max_payload_bytes (length payload) ≡ true
      → batch_body t ≡ ok (result, t')
      → reject_batch codec engine t.next_seq
          (bucket_range buckets)
          (length payload)
          created_at
          e.batch_id
          counted
        ≡ ok (result, t')
  unfolding batch_body counted enqueue_body query execute read_next_seq increment_next_seq
  body_rejects e payload result t' h big q = ground arith

  body_stores :
      (e : BatchEnvelope) (payload : Text) (result : EnqueueResult) (t' : SpoolTables)
      → Encoded e payload
      → ltb limits.max_payload_bytes (length payload) ≡ false
      → batch_body t ≡ ok (result, t')
      → store_batch codec engine limits t.next_seq created_at
          (bucket_range buckets)
          payload
          e
          counted
        ≡ ok (result, t')
  unfolding batch_body counted enqueue_body query execute read_next_seq increment_next_seq
  body_stores e payload result t' h small q = ground arith

  body_encodes :
      (result : EnqueueResult) (t' : SpoolTables)
      → batch_body t ≡ ok (result, t')
      → (e : BatchEnvelope) × (payload : Text) × Encoded e payload
  unfolding batch_body counted enqueue_body query execute read_next_seq increment_next_seq
  body_encodes result t' q =
      elim (Outcome-cases
        (new_envelope codec node_id boot_id t.next_seq created_at buckets diagnostics)) [
          | inl (e, he) ↦ elim (Option-cases (codec.envelope_to_vec e)) [
            | inl hn ↦ absurd (ground arith)
            | inr (payload, hp) ↦ (e, payload, record { envelope = he; serialised = hp })
          ]
          | inr (inl (x, h)) ↦ absurd (ground arith)
          | inr (inr h) ↦ absurd (ground arith)
        ]

  -- A batch that was enqueued is a gap if it exceeds the whole budget, and otherwise a row, behind
  -- which the limits were enforced.
  pub enqueue-Enqueued :
      (result : EnqueueResult) (t' : SpoolTables)
      → enqueue codec engine limits node_id boot_id created_at buckets diagnostics t
        ≡ (ok result, t')
      → Enqueued result t'
  unfolding enqueue batch_body counted
  enqueue-Enqueued result t' q =
      let body =
        transaction-ok engine (λ (x : Error). x) begin_transaction commit_transaction
          (enqueue_body codec engine limits node_id boot_id created_at buckets diagnostics) t result
          t' q in
      let (e, payload, h) = body_encodes result t' body in
      elim (Bool-cases (ltb limits.max_payload_bytes (length payload))) [
        | inl big ↦
            let (left, shape) =
              reject_batch-ok codec engine t.next_seq (bucket_range buckets) (length payload)
                created_at e.batch_id counted result t'
                (body_rejects e payload result t' h big body) in
            rejected e payload h (ltb→lt limits.max_payload_bytes (length payload) big) left shape
        | inr small ↦
            let (fresh, swept, id) =
              store_batch-ok codec engine limits t.next_seq created_at buckets payload e counted
                result t' (body_stores e payload result t' h small body) in
            stored e payload result.evicted_batches h
              (le_of_ltb limits.max_payload_bytes (length payload) small) fresh swept (ground arith)
      ]
