-- ===== src/Control/Serve.antt =====
-- `ControlStore::open`, `configure`, `ingest`, `control_router` and `serve` of src/control.rs: the
-- opening of the database and the requests that are served one behind another. Decoding a request
-- and routing an unknown path or method are axum's; a `Request` is what reaches a handler.
use flow_observability.Base.{
  ℕ, ◌+◌, ◌/◌, ◌%◌, false, List, [], ◌∷◌, Option, none, some, ltb, ◌==◌, ◌||◌, if◌then◌else◌,
  Outcome, ok, err, panic, ◌>>=◌,
}
use flow_observability.Model.{Text, BatchEnvelope}
use flow_observability.Model.Envelope.{Codec}
use flow_observability.Sqlite.{Error, anyhow, integer}
use flow_observability.Control.Tables.{ControlTables}
use flow_observability.Control.Ingest.{
  ControlLimits, ControlEngine, IngestStatus, IngestError, encoding, ingest_at,
}
use flow_observability.Control.Queries.{ControlStats, SeriesPoint, NodeInventoryItem}
use flow_observability.Control.Http.{
  AppState, IngestAck, HttpError, with_store, ingest_response, handle_nodes, handle_stats,
  handle_series,
}

-- What SQLite returns while the database is opened: `Connection::open`, the first four pragmas,
-- `PRAGMA page_size` and `page_count` read as unsigned numbers, the update of `max_page_count`, and
-- the creation of the tables.
pub record Database : Type 0 where
  pub opened : Outcome Error (Unit {0})
  pub pragmas : Outcome Error (Unit {0})
  pub page_size : Outcome Error ℕ
  pub page_count : Outcome Error ℕ
  pub limited : Outcome Error (Unit {0})
  pub created : Outcome Error (Unit {0})

-- `max_database_bytes.div_ceil(page_size)`
unfoldable pub div_ceil : ℕ → ℕ → Outcome Error ℕ
div_ceil n d = if d == 0 then panic else ok (n / d + (if n % d == 0 then 0 else 1))

unfoldable pub configure : Database → (max_database_bytes : ℕ) → Outcome Error (Unit {0})
unfolding div_ceil integer
configure database max_database_bytes = do
  _ ← database.pragmas
  page_size ← database.page_size
  max_pages ← div_ceil max_database_bytes page_size
  page_count ← database.page_count
  if ltb max_pages page_count
      then err (anyhow "control database already uses more pages than the configured limit")
      else (do _ ← integer max_pages "max_page_count"; database.limited)

-- `CREATE TABLE IF NOT EXISTS …`: a file that has the tables keeps them.
abbrev pub stored_tables : Option ControlTables → ControlTables
stored_tables none = record { ingested = []; flows = [] }
stored_tables (some t) = t

unfoldable pub open_store :
    ControlLimits → Database → Option ControlTables → Outcome Error ControlTables
unfolding configure
open_store limits database stored =
    if limits.max_database_bytes == 0 || limits.max_age_seconds == 0
    then err (anyhow "control byte and age limits must be positive")
    else (do
      _ ← database.opened
      _ ← configure database limits.max_database_bytes
      _ ← database.created
      ok (stored_tables stored))

-- The routes with what axum decodes for their handlers.
pub data Request : Type 0 where
  dashboard : Request
  post_ingest : BatchEnvelope → Request
  get_nodes : Request
  get_stats : (node : Text) (capture_point : Option Text) → Request
  get_series : (node : Text) (capture_point : Option Text) (from to : Option ℕ) → Request

pub data Response : Type 0 where
  page : Response
  acked : IngestAck → Response
  inventory : List NodeInventoryItem → Response
  statistics : ControlStats → Response
  points : List SeriesPoint → Response
  refused : HttpError → Response
  -- The handler panicked, so the connection is closed without a response.
  closed : Response

-- A request with the clock and the engine that it meets. A clock before 1970 is `none`.
pub record Arrival : Type 0 where
  pub request : Request
  pub clock : Option ℕ
  pub engine : ControlEngine

abbrev pub respond_with :
    {A : Type 0} → (A → Response) → Outcome HttpError A × AppState → Response × AppState
respond_with f (ok a, state) = (f a, state)
respond_with f (err e, state) = (refused e, state)
respond_with f (panic, state) = (closed, state)

module _ (codec : Codec) (limits : ControlLimits) where
  -- `ControlStore::ingest`
  unfoldable pub ingest :
      ControlEngine
      → BatchEnvelope
      → (clock : Option ℕ) → ControlTables
      → Outcome IngestError IngestStatus × ControlTables
  ingest engine e none t = (err (encoding (anyhow "system clock is before Unix epoch")), t)
  ingest engine e (some now) t = ingest_at engine codec limits e now t

  unfoldable pub respond : Arrival → AppState → Response × AppState
  unfolding ingest ingest_response handle_nodes handle_stats handle_series
  respond arrival state = elim arrival.request [
    | dashboard ↦ (page, state)
    | post_ingest e ↦ respond_with acked (
        with_store
          (λ t. (
            ingest_response e.batch_id ((ingest arrival.engine e arrival.clock t).0),
            (ingest arrival.engine e arrival.clock t).1,
          ))
          state)
    | get_nodes ↦ respond_with inventory (handle_nodes arrival.engine state)
    | get_stats node point ↦ respond_with statistics (handle_stats arrival.engine node point state)
    | get_series node point from to ↦
        respond_with points (handle_series arrival.engine node point from to state)
  ]

  -- The requests in the order in which they take the lock.
  unfoldable pub serve_all : List Arrival → AppState → List Response × AppState
  unfolding respond
  serve_all [] state = ([], state)
  serve_all (a ∷ arrivals) state =
      let first = respond a state in
      let rest = serve_all arrivals first.1 in (first.0 ∷ rest.0, rest.1)

  -- `serve`, with what binding the listener returns
  unfoldable pub serve :
      Database
      → Option ControlTables
      → (bound : Outcome Error (Unit {0})) → List Arrival
      → Outcome Error (List Response × AppState)
  unfolding open_store serve_all
  serve database stored bound arrivals = elim (open_store limits database stored) [
    | err e ↦ err e
    | panic ↦ panic
    | ok t ↦ elim bound [
      | err e ↦ err e
      | panic ↦ panic
      | ok done ↦ ok (serve_all arrivals (record { poisoned = false; tables = t }))
    ]
  ]
