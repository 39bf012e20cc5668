-- ===== src/Spool/Progress.antt =====
-- `enqueue` of src/spool.rs succeeds when nothing outside stands in its way.
use flow_observability.Base.{
  ℕ, suc, ◌+◌, ◌-◌, ◌≤◌, ◌<◌, ◌≡◌, refl, false, List, [], ◌∷◌, length, arith, ok, All, Bool-cases,
  inl, inr, ltb, le_of_ltb,
}
use flow_observability.Model.{Text, FlowBucket, CaptureDiagnostics, BatchEnvelope}
use flow_observability.Model.Envelope.{Codec}
use flow_observability.Sqlite.{i64_bound, integer}
use flow_observability.Sqlite.Step.{query, execute, transaction}
use flow_observability.Spool.Tables.{
  SpoolTables, BatchRow, begin_transaction, commit_transaction, select_next_seq, update_next_seq,
  insert_batch, total_payload, has_batch_seq, has_batch_id, read_next_seq, increment_next_seq,
  insert_row,
}
use flow_observability.Spool.Evict.{SpoolLimits, SpoolEngine, enforce_limits}
use flow_observability.Spool.Methods.{
  EnqueueResult, bucket_range, min_start, max_start, enqueue, enqueue_body, reject_batch,
  store_batch,
}
use flow_observability.Spool.Rows.{count_seq, total_payload-place_batch, All-place_batch}
use flow_observability.Spool.Enqueue.{Encoded, row_of, rejected_gap, with_row, with_gap}
use flow_observability.Spool.Ledger.{account}
use flow_observability.Spool.Guarantees.{Accounted, Accounted-IsSingle, Accounted-with_row}
use flow_observability.Spool.Sweeps.{
  FitsOption, FitsRow, IsReadable, Faultless, optional_integer_lem, insert_gap-returns,
  evict_loop-returns,
}

-- A spool that takes one batch more: its numbers are accounted for, its rows fit their columns and
-- the budget, and neither the next number nor the sum of the payloads leaves an INTEGER.
pub record HasRoom (limits : SpoolLimits) (acknowledged : ℕ → ℕ) (t : SpoolTables) : Type 0 where
  pub accounted : Accounted acknowledged t
  pub rows_fit : All FitsRow t.batches
  pub within_budget : total_payload t.batches ≤ limits.max_payload_bytes
  pub budget_fits : limits.max_payload_bytes + limits.max_payload_bytes < i64_bound
  pub next_fits : t.next_seq < i64_bound

pub has_batch_seq-count :
    (s : ℕ) (rows : List BatchRow) → count_seq s rows ≡ 0 → has_batch_seq s rows ≡ false
has_batch_seq-count s [] h = refl
has_batch_seq-count s (r ∷ rows) h = ground (arith, has_batch_seq-count s rows)

abbrev pub StartsFit : List FlowBucket → Type 0
StartsFit buckets = All (λ (b : FlowBucket). b.bucket_start < i64_bound) buckets

min_start-fits : (buckets : List FlowBucket) → StartsFit buckets → FitsOption (min_start buckets)
min_start-fits [] h = tt
min_start-fits (b ∷ buckets) h = ground (arith, min_start-fits buckets)

max_start-fits : (buckets : List FlowBucket) → StartsFit buckets → FitsOption (max_start buckets)
max_start-fits [] h = tt
max_start-fits (b ∷ buckets) h = ground (arith, max_start-fits buckets)

pub next_is_free :
    (limits : SpoolLimits) (acknowledged : ℕ → ℕ) (t : SpoolTables)
    → HasRoom limits acknowledged t
    → account t t.next_seq ≡ 0
next_is_free limits acknowledged t room = ground (arith, room.accounted t.next_seq)

pub row-FitsRow :
    (seq created_at : ℕ) (buckets : List FlowBucket) (e : BatchEnvelope) (payload : Text)
    → seq < i64_bound
    → StartsFit buckets
    → length payload < i64_bound
    → FitsRow (row_of seq created_at buckets e payload)
unfolding bucket_range
row-FitsRow seq created_at buckets e payload h starts_fit payload_fits = record {
  seq_fits = h;
  min_fits = min_start-fits buckets starts_fit;
  max_fits = max_start-fits buckets starts_fit;
  bytes_fit = payload_fits;
}

module _ (codec : Codec) (engine : SpoolEngine) (faultless : Faultless engine) where
  module _ (limits : SpoolLimits) (node_id boot_id : Text) (created_at : ℕ)
      (buckets : List FlowBucket) (diagnostics : CaptureDiagnostics) (t : SpoolTables)
      (acknowledged : ℕ → ℕ) (room : HasRoom limits acknowledged t) (e : BatchEnvelope)
      (payload : Text) (created_fits : created_at < i64_bound) (starts_fit : StartsFit buckets)
      (payload_fits : length payload < i64_bound) where
    counted : SpoolTables
    counted = record t { next_seq = t.next_seq + 1 }

    row : BatchRow
    row = row_of t.next_seq created_at buckets e payload

    reject_batch-returns :
        reject_batch codec engine t.next_seq
          (bucket_range buckets)
          (length payload)
          created_at
          e.batch_id
          counted
        ≡ ok (
          record { batch_id = e.batch_id; evicted_batches = 1 },
          with_gap t (rejected_gap t.next_seq created_at buckets payload),
        )
    unfolding reject_batch counted bucket_range
    reject_batch-returns = ground (
      arith,
      insert_gap-returns engine faultless (rejected_gap t.next_seq created_at buckets payload)
          counted room.next_fits (min_start-fits buckets starts_fit)
          (max_start-fits buckets starts_fit) payload_fits created_fits
          (omega (arith, next_is_free limits acknowledged t room)),
    )

    with_row-IsReadable : length payload ≤ limits.max_payload_bytes → IsReadable (with_row t row)
    unfolding row
    with_row-IsReadable h = record {
      single =
          Accounted-IsSingle acknowledged (with_row t row)
            (Accounted-with_row acknowledged t row refl room.accounted);
      rows_fit =
          All-place_batch FitsRow row t.batches
            (row-FitsRow t.next_seq created_at buckets e payload room.next_fits starts_fit
              payload_fits)
            room.rows_fit;
      sum_fits =
          omega
            (arith, total_payload-place_batch row t.batches, room.within_budget, room.budget_fits);
    }

    store_batch-returns :
        length payload ≤ limits.max_payload_bytes
        → has_batch_id e.batch_id t.batches ≡ false
        → (evicted : ℕ) × (t' : SpoolTables) × (store_batch codec engine limits t.next_seq
              created_at
              (bucket_range buckets)
              payload
              e
              counted
            ≡ ok (record { batch_id = e.batch_id; evicted_batches = evicted }, t'))
    unfolding store_batch counted bucket_range integer execute insert_row enforce_limits row
    store_batch-returns small fresh =
        let (k, u, swept) =
          evict_loop-returns engine faultless limits (created_at - limits.max_age_seconds)
            created_at created_fits (suc (length (with_row t row).batches)) 0 (with_row t row)
            (omega arith) (with_row-IsReadable small) in
        (
          k,
          u,
          ground (
            arith,
            swept,
            room.next_fits,
            room.budget_fits,
            faultless insert_batch counted,
            optional_integer_lem (min_start buckets) "min_bucket"
                (min_start-fits buckets starts_fit),
            optional_integer_lem (max_start buckets) "max_bucket"
                (max_start-fits buckets starts_fit),
            has_batch_seq-count t.next_seq t.batches
                (omega (arith, next_is_free limits acknowledged t room)),
          ),
        )

    enqueue_body-returns :
        Encoded codec engine limits node_id boot_id created_at buckets diagnostics t e payload
        → has_batch_id e.batch_id t.batches ≡ false
        → (result : EnqueueResult) × (t' : SpoolTables) × (enqueue_body codec engine limits node_id
              boot_id created_at buckets diagnostics t
            ≡ ok (result, t'))
    unfolding enqueue_body counted query execute read_next_seq increment_next_seq
    enqueue_body-returns coded fresh =
        elim (Bool-cases (ltb limits.max_payload_bytes (length payload))) [
          | inl big ↦ (
            record { batch_id = e.batch_id; evicted_batches = 1 },
            with_gap t (rejected_gap t.next_seq created_at buckets payload),
            ground (
              arith,
              room.next_fits,
              faultless select_next_seq t,
              faultless update_next_seq t,
              coded.envelope,
              coded.serialised,
              reject_batch-returns,
            ),
          )
          | inr small ↦
              let (k, u, done) =
                store_batch-returns (le_of_ltb limits.max_payload_bytes (length payload) small)
                  fresh in
              (
                record { batch_id = e.batch_id; evicted_batches = k },
                u,
                ground (
                  arith,
                  room.next_fits,
                  faultless select_next_seq t,
                  faultless update_next_seq t,
                  coded.envelope,
                  coded.serialised,
                  done,
                ),
              )
        ]

    pub enqueue-returns :
        Encoded codec engine limits node_id boot_id created_at buckets diagnostics t e payload
        → has_batch_id e.batch_id t.batches ≡ false
        → (result : EnqueueResult) × (t' : SpoolTables) × (enqueue codec engine limits node_id
              boot_id created_at buckets diagnostics t
            ≡ (ok result, t'))
    unfolding enqueue transaction
    enqueue-returns coded fresh =
        let (result, t', done) = enqueue_body-returns coded fresh in
        (
          result,
          t',
          ground (arith, faultless begin_transaction t, faultless commit_transaction t', done),
        )
