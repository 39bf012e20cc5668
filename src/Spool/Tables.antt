-- ===== src/Spool/Tables.antt =====
-- The tables of the agent's spool and the SQL statements of src/spool.rs. Both tables are kept in
-- the order of their primary key `seq`, in which the queries read them.
use flow_observability.Base.{
  ℕ, ◌+◌, Bool, false, ◌&&◌, ◌||◌, List, [], ◌∷◌, length, Option, none, some, ltb, ◌==◌,
  if◌then◌else◌, Outcome, ok, err, ◌>>=◌, text_eq,
}
use flow_observability.Model.{Text, GapEvent, SpoolStatus}
use flow_observability.Sqlite.{
  Error, constraint_violation, i64_bound, conversion_from_sql, unsigned, optional_unsigned,
  sum_column,
}
use flow_observability.Base.Int.{pos}
use mathlib.Core.Option

-- A row of `batches`.
pub record BatchRow : Type 0 where
  pub seq : ℕ
  pub batch_id : Text
  pub checksum : Text
  pub created_at : ℕ
  pub min_bucket : Option ℕ
  pub max_bucket : Option ℕ
  pub payload_bytes : ℕ
  pub payload : Text

-- A row of `gaps` has the columns of `GapEvent`. `next_seq` is the one row of `metadata`.
pub record SpoolTables : Type 0 where
  pub next_seq : ℕ
  pub batches : List BatchRow
  pub gaps : List GapEvent

-- The statements, by what they do.
pub data Statement : Type 0 where
  begin_transaction commit_transaction select_next_seq update_next_seq insert_batch : Statement
  sum_payload select_candidate delete_batch insert_gap_row select_pending : Statement
  delete_acknowledged select_status select_gaps : Statement

-- What an `INTEGER` column gives: past the range of an `i64` the value has become a REAL, which
-- rusqlite does not read as an integer.
unfoldable pub read_next_seq : SpoolTables → Outcome Error ℕ
read_next_seq t = if ltb t.next_seq i64_bound then ok t.next_seq else err (conversion_from_sql 0)

unfoldable pub increment_next_seq : SpoolTables → Outcome Error SpoolTables
increment_next_seq t = ok (record t { next_seq = t.next_seq + 1 })

abbrev pub has_batch_seq : ℕ → List BatchRow → Bool
has_batch_seq s [] = false
has_batch_seq s (r ∷ rows) = r.seq == s || has_batch_seq s rows

abbrev pub has_batch_id : Text → List BatchRow → Bool
has_batch_id id [] = false
has_batch_id id (r ∷ rows) = text_eq r.batch_id id || has_batch_id id rows

unfoldable pub place_batch : BatchRow → List BatchRow → List BatchRow
place_batch r [] = r ∷ []
place_batch r (x ∷ rows) = if ltb r.seq x.seq then r ∷ x ∷ rows else x ∷ place_batch r rows

-- `seq` is the primary key and `batch_id` is unique.
unfoldable pub insert_row : BatchRow → SpoolTables → Outcome Error SpoolTables
unfolding place_batch
insert_row r t =
    if has_batch_seq r.seq t.batches || has_batch_id r.batch_id t.batches
    then err constraint_violation
    else ok (record t { batches = place_batch r t.batches })

abbrev pub total_payload : List BatchRow → ℕ
total_payload [] = 0
total_payload (r ∷ rows) = r.payload_bytes + total_payload rows

-- `WHERE created_at < ? OR ? > ? ORDER BY seq LIMIT 1`
abbrev pub is_candidate : (cutoff total maximum : ℕ) → BatchRow → Bool
is_candidate cutoff total maximum r = ltb r.created_at cutoff || ltb maximum total

unfoldable pub first_candidate : (cutoff total maximum : ℕ) → List BatchRow → Option BatchRow
first_candidate cutoff total maximum [] = none
first_candidate cutoff total maximum (r ∷ rows) =
    if is_candidate cutoff total maximum r
    then some r
    else first_candidate cutoff total maximum rows

-- The columns of the candidate, read as unsigned numbers.
unfoldable pub candidate_row : BatchRow → Outcome Error BatchRow
unfolding unsigned optional_unsigned
candidate_row r = do
  seq ← unsigned (pos r.seq) 0
  min_bucket ← optional_unsigned (Option.map pos r.min_bucket) 1
  max_bucket ← optional_unsigned (Option.map pos r.max_bucket) 2
  payload_bytes ← unsigned (pos r.payload_bytes) 3
  created_at ← unsigned (pos r.created_at) 4
  ok (record r {
    seq = seq;
    min_bucket = min_bucket;
    max_bucket = max_bucket;
    payload_bytes = payload_bytes;
    created_at = created_at;
  })

-- `.optional()?`: no row is no error.
unfoldable pub optional_candidate : Option BatchRow → Outcome Error (Option BatchRow)
unfolding candidate_row
optional_candidate none = ok none
optional_candidate (some r) = do row ← candidate_row r; ok (some row)

unfoldable pub without_seq : ℕ → List BatchRow → List BatchRow
without_seq s [] = []
without_seq s (r ∷ rows) = if r.seq == s then without_seq s rows else r ∷ without_seq s rows

abbrev pub has_gap_seq : ℕ → List GapEvent → Bool
has_gap_seq s [] = false
has_gap_seq s (g ∷ gaps) = g.seq == s || has_gap_seq s gaps

unfoldable pub place_gap : GapEvent → List GapEvent → List GapEvent
place_gap g [] = g ∷ []
place_gap g (x ∷ gaps) = if ltb g.seq x.seq then g ∷ x ∷ gaps else x ∷ place_gap g gaps

unfoldable pub insert_gap_event : GapEvent → SpoolTables → Outcome Error SpoolTables
unfolding place_gap
insert_gap_event g t =
    if has_gap_seq g.seq t.gaps
    then err constraint_violation
    else ok (record t { gaps = place_gap g t.gaps })

-- `WHERE batch_id = ? AND checksum = ?`
abbrev pub is_acknowledged : Text → Text → BatchRow → Bool
is_acknowledged batch_id checksum r = text_eq r.batch_id batch_id && text_eq r.checksum checksum

unfoldable pub without_acknowledged : Text → Text → List BatchRow → List BatchRow
without_acknowledged batch_id checksum [] = []
without_acknowledged batch_id checksum (r ∷ rows) =
    if is_acknowledged batch_id checksum r
    then without_acknowledged batch_id checksum rows
    else r ∷ without_acknowledged batch_id checksum rows

unfoldable pub count_acknowledged : Text → Text → List BatchRow → ℕ
count_acknowledged batch_id checksum [] = 0
count_acknowledged batch_id checksum (r ∷ rows) =
    (if is_acknowledged batch_id checksum r then 1 else 0)
    + count_acknowledged batch_id checksum rows

-- `SELECT COUNT(*), COALESCE(SUM(payload_bytes), 0), (SELECT COUNT(*) FROM gaps) FROM batches`
unfoldable pub read_status : SpoolTables → Outcome Error SpoolStatus
unfolding sum_column unsigned
read_status t = do
  total ← sum_column (total_payload t.batches)
  pending_batches ← unsigned (pos (length t.batches)) 0
  pending_payload_bytes ← unsigned (pos total) 1
  gap_events ← unsigned (pos (length t.gaps)) 2
  ok (record {
    pending_batches = pending_batches;
    pending_payload_bytes = pending_payload_bytes;
    gap_events = gap_events;
  })

unfoldable pub gap_row : GapEvent → Outcome Error GapEvent
unfolding unsigned optional_unsigned
gap_row g = do
  seq ← unsigned (pos g.seq) 0
  min_bucket ← optional_unsigned (Option.map pos g.min_bucket) 1
  max_bucket ← optional_unsigned (Option.map pos g.max_bucket) 2
  lost_bytes ← unsigned (pos g.lost_bytes) 3
  created_at ← unsigned (pos g.created_at) 5
  ok (record {
    seq = seq;
    min_bucket = min_bucket;
    max_bucket = max_bucket;
    lost_bytes = lost_bytes;
    reason = g.reason;
    created_at = created_at;
  })

-- `collect::<Result<Vec<_>, _>>()`
unfoldable pub read_gaps : List GapEvent → Outcome Error (List GapEvent)
unfolding gap_row
read_gaps [] = ok []
read_gaps (g ∷ gaps) = do event ← gap_row g; events ← read_gaps gaps; ok (event ∷ events)
