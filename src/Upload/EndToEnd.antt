-- ===== src/Upload/EndToEnd.antt =====
-- The uploader of src/upload.rs against the ingest handler of src/control.rs.
use flow_observability.Base.{
  ℕ, ◌-◌, ◌≡◌, refl, sym, subst, List, [], ◌∷◌, length, Option, none, some, Outcome, ok, err, panic,
  arith, ◌⊎◌, inl, inr,
}
use flow_observability.Model.{BatchEnvelope}
use flow_observability.Model.Envelope.{Codec}
use flow_observability.Sqlite.{Error, anyhow}
use flow_observability.Spool.Tables.{SpoolTables, BatchRow}
use flow_observability.Spool.Evict.{SpoolEngine}
use flow_observability.Spool.Retention.{IsIn}
use flow_observability.Control.Ingest.{
  ControlLimits, ControlEngine, IngestStatus, IngestError, ingest_at,
}
use flow_observability.Control.Effects.{pruned}
use flow_observability.Control.Delivery.{Accepts, Ingests, ingest_at-Ingests}
use flow_observability.Control.Http.{AppState, IngestAck, HttpError, ingest_response, handle_ingest}
use flow_observability.Upload.{Server, upload_once}
use flow_observability.Upload.Acknowledged.{Carries, upload_once-IsSettled}

-- A request that the handler has worked off, with the state before and behind it.
pub record Delivery : Type 0 where
  pub envelope : BatchEnvelope
  pub now : ℕ
  pub before : AppState
  pub after : AppState

-- The control plane, and all its deliveries, the last one first.
pub record ControlPlane : Type 0 where
  pub state : AppState
  pub log : List Delivery

module _ (codec : Codec) (control : ControlEngine) (limits : ControlLimits) (clock : ℕ → ℕ)
    (lost : ℕ → Option Error) where
  -- A status that is not a success is an error of the client.
  abbrev pub answer : Option Error → Outcome HttpError IngestAck → Outcome Error IngestAck
  answer (some failure) response = err failure
  answer none (ok ack) = ok ack
  answer none (err status) = err (anyhow "upload batch")
  answer none panic = err (anyhow "upload batch")

  -- By the number of the request the clock is read, and its answer is lost on its way or not.
  unfoldable pub control_server : Server ControlPlane
  unfolding handle_ingest
  control_server e plane =
      let i = length plane.log in
      let handled = handle_ingest control codec limits e (clock i) plane.state in
      (
        answer (lost i) handled.0,
        record {
          state = handled.1;
          log =
              record { envelope = e; now = clock i; before = plane.state; after = handled.1 }
              ∷ plane.log;
        },
      )

  -- The delivery took the batch in, or the control plane had it already.
  abbrev pub IsTakenIn : Delivery → Type 0
  IsTakenIn d =
      (status : IngestStatus) × (ingest_at control codec limits d.envelope d.now d.before.tables
        ≡ (ok status, d.after.tables))
      × Accepts d.envelope (pruned (d.now - limits.max_age_seconds) d.before.tables) status
          d.after.tables

  -- Among the deliveries is one of the envelope that was taken in.
  abbrev HasTakenIn : BatchEnvelope → ControlPlane → Type 0
  HasTakenIn e plane = (d : Delivery) × IsIn d plane.log × (d.envelope ≡ e) × IsTakenIn d

  ingest_response-ok :
      (e : BatchEnvelope) (r : Outcome IngestError IngestStatus) (ack : IngestAck)
      → ingest_response e.batch_id r ≡ ok ack
      → r ≡ ok ack.status
  unfolding ingest_response
  ingest_response-ok e r ack h = ground arith

  answered-ok :
      (e : BatchEnvelope) (plane : ControlPlane) (ack : IngestAck)
      → (control_server e plane).0 ≡ ok ack
      → ingest_at control codec limits e (clock (length plane.log)) plane.state.tables
        ≡ (ok ack.status, (control_server e plane).1.state.tables)
  unfolding control_server handle_ingest
  answered-ok e plane ack h = ground (
    arith,
    ingest_response-ok e
        ((ingest_at control codec limits e (clock (length plane.log)) plane.state.tables).0) ack,
  )

  answered-HasTakenIn :
      (e : BatchEnvelope) (plane : ControlPlane) (ack : IngestAck)
      → (control_server e plane).0 ≡ ok ack
      → ack.batch_id ≡ e.batch_id
      → HasTakenIn e (control_server e plane).1
  unfolding control_server
  answered-HasTakenIn e plane ack h same =
      let now = clock (length plane.log) in
      let whole = answered-ok e plane ack h in
      (
        record {
          envelope = e;
          now = now;
          before = plane.state;
          after = (control_server e plane).1.state;
        },
        inl refl,
        refl,
        (
          ack.status,
          whole,
          subst (λ r. Ingests (now - limits.max_age_seconds) e plane.state.tables r.0 r.1) whole
              (ingest_at-Ingests control codec limits e now plane.state.tables),
        ),
      )

  HasTakenIn-lasting :
      (e e' : BatchEnvelope) (plane : ControlPlane)
      → HasTakenIn e plane
      → HasTakenIn e (control_server e' plane).1
  unfolding control_server
  HasTakenIn-lasting e e' plane (d, m, same, taken) = (d, inr m, same, taken)

  -- If the uploader sends to the ingest handler of a control plane that starts in any state, whose
  -- engine may fail any statement and whose answers may be lost, then each row that was in the spool
  -- is in it after `upload_once`, or one of the deliveries that this call has made took its batch in:
  -- it inserted the batch into the tables that it met, or found it stored there with the same
  -- checksum.
  pub upload_once_safe :
      (engine : SpoolEngine) (limit : ℕ) (t : SpoolTables) (state : AppState) (r : BatchRow)
      → IsIn r t.batches
      → IsIn r
          (upload_once codec engine control_server limit
            (t, record { state = state; log = [] })).1.0.batches
        ⊎ ((d : Delivery) × IsIn d
              (upload_once codec engine control_server limit
                (t, record { state = state; log = [] })).1.1.log
            × Carries d.envelope r
            × IsTakenIn d)
  upload_once_safe engine limit t state r h =
      elim (upload_once-IsSettled codec engine control_server HasTakenIn answered-HasTakenIn
        HasTakenIn-lasting limit t (record { state = state; log = [] }) r h) [
          | inl k ↦ inl k
          | inr (e, c, (d, m, same, taken)) ↦
              inr (d, m, subst (λ x. Carries x r) (sym same) c, taken)
        ]
