-- ===== src/Control/Status.antt =====
-- What the status of a response to `/v1/ingest` says (`ingest` of src/control.rs).
use flow_observability.Base.{ℕ, ◌-◌, ◌≡◌, refl, false, Outcome, ok, err, panic, arith}
use flow_observability.Model.{BatchEnvelope}
use flow_observability.Model.Envelope.{Codec}
use flow_observability.Control.Tables.{ControlTables}
use flow_observability.Control.Ingest.{
  ControlLimits, ControlEngine, IngestStatus, IngestError, schema_version, checksum, conflict,
  database, encoding, ingest_at,
}
use flow_observability.Control.Effects.{pruned}
use flow_observability.Control.Delivery.{Conflicts, Ingests, ingest_at-Ingests}
use flow_observability.Control.Http.{
  AppState, Message, HttpError, conflict_status, ingest_response, handle_ingest,
}

-- The tables are as they were, and the status 409 stands for a conflict.
abbrev pub Refused :
    (cutoff : ℕ) → BatchEnvelope → ControlTables → HttpError → ControlTables → Type 0
Refused cutoff e t x t' = (t' ≡ t) × (x.0 ≡ conflict_status → Conflicts e (pruned cutoff t))

response-Refused :
    (cutoff : ℕ) (e : BatchEnvelope) (t t' : ControlTables) (r : Outcome IngestError IngestStatus)
    (x : HttpError)
    → Ingests cutoff e t r t'
    → ingest_response e.batch_id r ≡ err x
    → Refused cutoff e t x t'
unfolding ingest_response
response-Refused cutoff e t t' (ok s) x h p = cc
response-Refused cutoff e t t' (err schema_version) x h p = (h, λ q. ground arith)
response-Refused cutoff e t t' (err checksum) x h p = (h, λ q. ground arith)
response-Refused cutoff e t t' (err conflict) x h p = (h.1, λ q. h.0)
response-Refused cutoff e t t' (err (database y)) x h p = (h, λ q. ground arith)
response-Refused cutoff e t t' (err (encoding y)) x h p = (h, λ q. ground arith)
response-Refused cutoff e t t' panic x h p = cc

handle_ingest-Refused :
    (codec : Codec) (engine : ControlEngine) (limits : ControlLimits) (e : BatchEnvelope) (now : ℕ)
    (state : AppState) (x : HttpError)
    → state.poisoned ≡ false
    → (handle_ingest engine codec limits e now state).0 ≡ err x
    → Refused
        (now - limits.max_age_seconds)
        e
        state.tables
        x
        (handle_ingest engine codec limits e now state).1.tables
unfolding handle_ingest
handle_ingest-Refused codec engine limits e now state x live h =
    let (same, refused) =
      response-Refused (now - limits.max_age_seconds) e state.tables
        ((ingest_at engine codec limits e now state.tables).1)
        ((ingest_at engine codec limits e now state.tables).0) x
        (ingest_at-Ingests engine codec limits e now state.tables) (ground arith) in
    (ground arith, refused)

-- If the lock is not poisoned and a delivery is answered with the status 409, then the batch
-- conflicts with the tables after the pruning: its identifier is stored with another checksum, or
-- its identifier is new and its sequence number is not.
pub handle_ingest-Conflicts :
    (codec : Codec) (engine : ControlEngine) (limits : ControlLimits) (e : BatchEnvelope) (now : ℕ)
    (state : AppState) (m : Message)
    → state.poisoned ≡ false
    → (handle_ingest engine codec limits e now state).0 ≡ err (conflict_status, m)
    → Conflicts e (pruned (now - limits.max_age_seconds) state.tables)
handle_ingest-Conflicts codec engine limits e now state m live h =
    (handle_ingest-Refused codec engine limits e now state (conflict_status, m) live h).1 refl
