-- ===== src/Control/Http.antt =====
-- The HTTP handlers of src/control.rs. The store stands behind a mutex: a panic while it is held
-- poisons the lock, and each later request is then answered with an internal error.
use flow_observability.Base.{ℕ, Bool, true, false, List, Option, String, Outcome, ok, err, panic}
use flow_observability.Model.{Text, BatchEnvelope}
use flow_observability.Model.Envelope.{Codec}
use flow_observability.Sqlite.{Error, disk_full}
use flow_observability.Control.Tables.{ControlTables}
use flow_observability.Control.Ingest.{
  ControlLimits, ControlEngine, IngestStatus, IngestError, schema_version, checksum, conflict,
  database, encoding, ingest_at,
}
use flow_observability.Control.Queries.{
  ControlStats, SeriesPoint, NodeInventoryItem, nodes, stats, series,
}

pub record AppState : Type 0 where
  pub poisoned : Bool
  pub tables : ControlTables

-- `IngestAck` of src/model.rs
pub record IngestAck : Type 0 where
  pub batch_id : Text
  pub status : IngestStatus

-- The body of an error response: a text, or an error that is printed.
pub data Message : Type 0 where
  words : String → Message
  printed : Error → Message

-- `(StatusCode, String)`
abbrev pub HttpError : Type 0
HttpError = ℕ × Message

abbrev pub bad_request : ℕ
bad_request = 400

abbrev pub conflict_status : ℕ
conflict_status = 409

abbrev pub internal_server_error : ℕ
internal_server_error = 500

abbrev pub insufficient_storage : ℕ
insufficient_storage = 507

abbrev pub internal : Message → HttpError
internal message = (internal_server_error, message)

abbrev pub lock_poisoned : HttpError
lock_poisoned = internal (words "control store lock poisoned")

unfoldable pub is_storage_full : Error → Bool
is_storage_full disk_full = true
is_storage_full _ = false

-- The arms of the `match` on the result of `store.ingest`.
unfoldable pub ingest_response :
    Text → Outcome IngestError IngestStatus → Outcome HttpError IngestAck
unfolding is_storage_full
ingest_response id (ok status) = ok (record { batch_id = id; status = status })
ingest_response id (err schema_version) = err (bad_request, words "invalid batch")
ingest_response id (err checksum) = err (bad_request, words "invalid batch")
ingest_response id (err conflict) = err (conflict_status, words "batch identity conflict")
ingest_response id (err (database failure)) = elim (is_storage_full failure) [
  | true ↦ err (insufficient_storage, words "control storage limit reached")
  | false ↦ err (internal (printed failure))
]
ingest_response id (err (encoding failure)) = err (internal (printed failure))
ingest_response id panic = panic

-- `map_err(…)` of a query's result
abbrev pub query_response : {A : Type 0} → ℕ → Outcome Error A → Outcome HttpError A
query_response status (ok a) = ok a
query_response status (err failure) = err (status, printed failure)
query_response status panic = panic

abbrev pub panicked : {E : Type 0} {A : Type 0} → Outcome E A → Bool
panicked panic = true
panicked _ = false

-- What a handler does with the lock; a handler returns its response and the state that it leaves. A
-- panic poisons the lock where it unwinds; the release profile ends the process at a panic instead.
abbrev pub with_store :
    {A : Type 0}
    → (ControlTables → Outcome HttpError A × ControlTables)
    → AppState
    → Outcome HttpError A × AppState
with_store body state = elim state.poisoned [
  | true ↦ (err lock_poisoned, state)
  | false ↦ (
    (body state.tables).0,
    record { poisoned = panicked ((body state.tables).0); tables = (body state.tables).1 },
  )
]

module _ (engine : ControlEngine) where
  unfoldable pub handle_ingest :
      Codec
      → ControlLimits
      → BatchEnvelope
      → (now : ℕ) → AppState
      → Outcome HttpError IngestAck × AppState
  unfolding ingest_response
  handle_ingest codec limits e now = with_store (λ t. (
    ingest_response e.batch_id ((ingest_at engine codec limits e now t).0),
    (ingest_at engine codec limits e now t).1,
  ))

  unfoldable pub handle_nodes : AppState → Outcome HttpError (List NodeInventoryItem) × AppState
  unfolding nodes
  handle_nodes = with_store (λ t. (query_response internal_server_error (nodes engine t), t))

  unfoldable pub handle_stats :
      (node : Text) (capture_point : Option Text)
      → AppState
      → Outcome HttpError ControlStats × AppState
  unfolding stats
  handle_stats node capture_point =
      with_store
        (λ t. (query_response internal_server_error (stats engine node capture_point t), t))

  unfoldable pub handle_series :
      (node : Text) (capture_point : Option Text) (from to : Option ℕ)
      → AppState
      → Outcome HttpError (List SeriesPoint) × AppState
  unfolding series
  handle_series node capture_point from to =
      with_store (λ t. (query_response bad_request (series engine node capture_point from to t), t))
