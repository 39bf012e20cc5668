-- ===== src/Spool/Evict.antt =====
-- `insert_gap` and `enforce_limits` of src/spool.rs.
use flow_observability.Base.{
  ℕ, zero, suc, ◌+◌, ◌-◌, ◌*◌, length, Option, none, some, String, ltb, if◌then◌else◌, ok, err,
  panic,
}
use flow_observability.Sqlite.{Error, conversion_to_sql, integer, optional_integer, sum_column}
use flow_observability.Sqlite.Step.{Step, Engine, ◌>>=◌, ◌>>◌, pure, lift, map_err, query, execute}
use flow_observability.Spool.Tables.{
  SpoolTables, BatchRow, Statement, sum_payload, select_candidate, delete_batch, insert_gap_row,
  total_payload, first_candidate, optional_candidate, without_seq, insert_gap_event,
}

pub record SpoolLimits : Type 0 where
  pub max_payload_bytes : ℕ
  pub max_age_seconds : ℕ

-- `SpoolLimits::default()`
abbrev pub default_limits : SpoolLimits
default_limits = record { max_payload_bytes = 128 * 1024 * 1024; max_age_seconds = 24 * 60 * 60 }

abbrev pub SpoolStep : Type 0 → Type 0
SpoolStep A = Step Error SpoolTables A

abbrev pub SpoolEngine : Type 0
SpoolEngine = Engine Statement SpoolTables

-- `map_err(to_sql_error)`
abbrev pub to_sql_error : Error → Error
to_sql_error e = conversion_to_sql

-- `if created_at < cutoff`
unfoldable pub eviction_reason : (cutoff created_at : ℕ) → String
eviction_reason cutoff created_at =
    if ltb created_at cutoff then "spool_age_limit" else "spool_byte_limit"

module _ (engine : SpoolEngine) where
  unfoldable pub insert_gap :
      (seq : ℕ) (min_bucket max_bucket : Option ℕ) (lost_bytes : ℕ) (reason : String)
      (created_at : ℕ)
      → SpoolStep (Unit {0})
  unfolding integer optional_integer execute insert_gap_event
  insert_gap seq min_bucket max_bucket lost_bytes reason created_at = do
    seq' ← map_err to_sql_error (lift (integer seq "gap seq"))
    min' ← map_err to_sql_error (lift (optional_integer min_bucket "gap min_bucket"))
    max' ← map_err to_sql_error (lift (optional_integer max_bucket "gap max_bucket"))
    lost' ← map_err to_sql_error (lift (integer lost_bytes "gap lost_bytes"))
    created' ← map_err to_sql_error (lift (integer created_at "gap created_at"))
    execute engine insert_gap_row (
        insert_gap_event (record {
          seq = seq';
          min_bucket = min';
          max_bucket = max';
          lost_bytes = lost';
          reason = reason;
          created_at = created';
        }))

  -- One round of the loop; `none` is its return.
  unfoldable pub evict_one : SpoolLimits → (cutoff now : ℕ) → SpoolStep (Option BatchRow)
  unfolding query execute integer sum_column
  evict_one limits cutoff now = do
    total ← query engine sum_payload (λ t. sum_column (total_payload t.batches))
    total' ← lift (integer total "total_payload_bytes")
    found ←
        query engine select_candidate (λ t.
          optional_candidate (first_candidate cutoff total' limits.max_payload_bytes t.batches))
    elim found [
      | none ↦ pure none
      | some r ↦ do
        seq ← lift (integer r.seq "seq")
        execute engine delete_batch (λ t. ok (record t { batches = without_seq seq t.batches }))
        insert_gap r.seq r.min_bucket r.max_bucket r.payload_bytes
            (eviction_reason cutoff r.created_at) now
        pure (some r)
    ]

  -- The loop on fuel; `panic` stands for fuel that has run out, which never happens.
  unfoldable pub evict_loop : ℕ → SpoolLimits → (cutoff now evicted : ℕ) → SpoolStep ℕ
  evict_loop zero limits cutoff now evicted t = panic
  evict_loop (suc fuel) limits cutoff now evicted t = elim (evict_one limits cutoff now t) [
    | ok (none, t') ↦ ok (evicted, t')
    | ok (some r, t') ↦ evict_loop fuel limits cutoff now (evicted + 1) t'
    | err e ↦ err e
    | panic ↦ panic
  ]

  -- Each round removes a row, so one round more than there are rows is enough.
  unfoldable pub enforce_limits : SpoolLimits → (now : ℕ) → SpoolStep ℕ
  enforce_limits limits now t =
      (do
        cutoff ← lift (integer (now - limits.max_age_seconds) "spool cutoff")
        _ ← lift (integer limits.max_payload_bytes "max_payload_bytes")
        evict_loop (suc (length t.batches)) limits cutoff now 0)
        t
