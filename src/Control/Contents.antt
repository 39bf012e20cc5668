-- ===== src/Control/Contents.antt =====
-- What src/control.rs has stored: the batches of the deliveries that it took in and that have not
-- expired since, each with all of its rows.
use flow_observability.Base.{
  ℕ, ◌-◌, ◌≡◌, ◌≢◌, refl, subst, false, List, [], ◌∷◌, arith, All, text_eq_iff,
}
use flow_observability.Model.{BatchEnvelope}
use flow_observability.Model.Envelope.{Codec}
use flow_observability.Control.Tables.{ControlTables, has_batch, has_sequence, refers}
use flow_observability.Control.Ingest.{ControlLimits, ControlEngine, ingest_at}
use flow_observability.Control.Delivery.{Ingests, ingest_at-Ingests}
use flow_observability.Control.Soundness.{AreDistinct, IsSound, ingest_at-IsSound}
use flow_observability.Control.Holding.{batch_rows, holding, kept_after, Ingests-holding}

-- A delivery, with the engine and the clock that it meets.
pub record Sent : Type 0 where
  pub envelope : BatchEnvelope
  pub engine : ControlEngine
  pub now : ℕ

-- Another identifier, and another place in the sequence of a node's boot.
abbrev pub Differs : BatchEnvelope → BatchEnvelope → Type 0
Differs e x =
    (e.batch_id ≢ x.batch_id)
    × ¬ (
        (e.body.node_id ≡ x.body.node_id)
        × (e.body.boot_id ≡ x.body.boot_id)
        × (e.body.seq ≡ x.body.seq))

abbrev pub AllDiffer : List BatchEnvelope → Type 0
AllDiffer [] = Unit
AllDiffer (e ∷ es) = All (Differs e) es × AllDiffer es

All-Differs :
    (e : BatchEnvelope) (es : List BatchEnvelope)
    → has_batch e.batch_id (batch_rows es) ≡ false
    → has_sequence e.body.node_id e.body.boot_id e.body.seq (batch_rows es) ≡ false
    → All (Differs e) es
unfolding has_batch has_sequence
All-Differs e [] h k = tt
All-Differs e (x ∷ es) h k = (
  (
    λ same. ground (arith, same, text_eq_iff x.batch_id e.batch_id),
    λ same. ground (
      arith,
      same,
      text_eq_iff x.body.node_id e.body.node_id,
      text_eq_iff x.body.boot_id e.body.boot_id,
    ),
  ),
  All-Differs e es (ground arith) (ground arith),
)

AreDistinct-AllDiffer : (es : List BatchEnvelope) → AreDistinct (batch_rows es) → AllDiffer es
AreDistinct-AllDiffer [] h = tt
AreDistinct-AllDiffer (e ∷ es) h = (All-Differs e es h.0 h.1, AreDistinct-AllDiffer es h.2)

module _ (codec : Codec) (limits : ControlLimits) where
  unfoldable pub ingest_all : List Sent → ControlTables → ControlTables
  ingest_all [] t = t
  ingest_all (d ∷ sent) t = ingest_all sent (ingest_at d.engine codec limits d.envelope d.now t).1

  -- The batches that are kept behind the deliveries, by their results.
  unfoldable pub kept_by : List Sent → ControlTables → List BatchEnvelope → List BatchEnvelope
  kept_by [] t kept = kept
  kept_by (d ∷ sent) t kept = kept_by sent (ingest_at d.engine codec limits d.envelope d.now t).1 (
      kept_after (d.now - limits.max_age_seconds) d.envelope
        (ingest_at d.engine codec limits d.envelope d.now t).0 kept)

  IsSound-holding :
      (t : ControlTables) (kept : List BatchEnvelope)
      → IsSound t
      → t ≡ holding kept
      → AreDistinct (batch_rows kept)
  IsSound-holding t kept h e = (subst IsSound e h).0

  ingest_at-holding :
      (d : Sent) (t : ControlTables) (kept : List BatchEnvelope)
      → IsSound t
      → t ≡ holding kept
      → (ingest_at d.engine codec limits d.envelope d.now t).1
        ≡ holding (
            kept_after
              (d.now - limits.max_age_seconds)
              d.envelope
              (ingest_at d.engine codec limits d.envelope d.now t).0
              kept)
  ingest_at-holding d t kept h e =
      Ingests-holding (d.now - limits.max_age_seconds) d.envelope kept
        (ingest_at d.engine codec limits d.envelope d.now t).0
        (ingest_at d.engine codec limits d.envelope d.now t).1 (IsSound-holding t kept h e)
        (subst
          (λ u.
            Ingests (d.now - limits.max_age_seconds) d.envelope u
              (ingest_at d.engine codec limits d.envelope d.now t).0
              (ingest_at d.engine codec limits d.envelope d.now t).1)
          e (ingest_at-Ingests d.engine codec limits d.envelope d.now t))

  ingest_all-from :
      (sent : List Sent) (t : ControlTables) (kept : List BatchEnvelope)
      → IsSound t
      → t ≡ holding kept
      → (ingest_all sent t ≡ holding (kept_by sent t kept)) × AllDiffer (kept_by sent t kept)
  unfolding ingest_all kept_by
  ingest_all-from [] t kept h e = (e, AreDistinct-AllDiffer kept (IsSound-holding t kept h e))
  ingest_all-from (d ∷ sent) t kept h e =
      ingest_all-from sent (ingest_at d.engine codec limits d.envelope d.now t).1 _
        (ingest_at-IsSound codec d.engine limits d.envelope d.now t h)
        (ingest_at-holding d t kept h e)

  -- From an empty store, after any deliveries, at any times and whatever statements fail: the tables
  -- are exactly those that hold the batches answered with `inserted`, in this order, less those that
  -- a later delivery answered with a success found older than the age limit, each with one row for
  -- each of its buckets and no row besides; and no two of these batches have the same identifier, or
  -- the same sequence number of one boot of one node.
  pub ingest_all-holding :
      (sent : List Sent)
      → (ingest_all sent (holding []) ≡ holding (kept_by sent (holding []) []))
        × AllDiffer (kept_by sent (holding []) [])
  ingest_all-holding sent = ingest_all-from sent (holding []) [] (tt, unfold refers in refl) refl
