-- ===== src/Control/Soundness.antt =====
-- The invariant of the control plane's tables: identifiers and sequence numbers are unique, and
-- each row of `flow_buckets` belongs to a stored batch.
use flow_observability.Base.{
  ℕ, ◌-◌, ◌≡◌, refl, sym, subst, true, false, List, [], ◌∷◌, ◌++◌, none, Outcome, ok, err, panic,
  arith, text_eq, text_eq_refl, text_eq_iff,
}
use flow_observability.Model.{Text, FlowBucket, BatchEnvelope}
use flow_observability.Model.Envelope.{Codec}
use flow_observability.Control.Tables.{
  IngestedBatch, FlowRow, ControlTables, find_checksum, has_sequence, has_batch, refers,
  is_expired_id, unexpired_flows, unexpired_batches,
}
use flow_observability.Control.Ingest.{
  ControlLimits, ControlEngine, IngestStatus, inserted, duplicate, IngestError, schema_version,
  checksum, conflict, database, encoding, ingest_at,
}
use flow_observability.Control.Effects.{pruned, with_batch, batch_row, flow_rows}
use flow_observability.Control.Delivery.{Ingests, ingest_at-Ingests}

-- No batch has the identifier or the place in its node's sequence of a later one.
abbrev pub AreDistinct : List IngestedBatch → Type 0
AreDistinct [] = Unit
AreDistinct (b ∷ batches) =
    (has_batch b.batch_id batches ≡ false)
    × (has_sequence b.node_id b.boot_id b.seq batches ≡ false)
    × AreDistinct batches

abbrev pub IsSound : ControlTables → Type 0
IsSound t = AreDistinct t.ingested × (refers t.flows t.ingested ≡ true)

module _ (cutoff : ℕ) where
  has_batch-unexpired_batches :
      (id : Text) (batches : List IngestedBatch)
      → has_batch id batches ≡ true
      → is_expired_id cutoff batches id ≡ false
      → has_batch id (unexpired_batches cutoff batches) ≡ true
  unfolding has_batch unexpired_batches is_expired_id
  has_batch-unexpired_batches id [] h k = cc
  has_batch-unexpired_batches id (b ∷ batches) h k =
      ground (arith, has_batch-unexpired_batches id batches)

  refers-unexpired_flows :
      (rows : List FlowRow) (batches : List IngestedBatch)
      → refers rows batches ≡ true
      → refers (unexpired_flows cutoff batches rows) (unexpired_batches cutoff batches) ≡ true
  unfolding refers unexpired_flows
  refers-unexpired_flows [] batches h = refl
  refers-unexpired_flows (r ∷ rows) batches h =
      ground
        (arith, refers-unexpired_flows rows batches, has_batch-unexpired_batches r.batch_id batches)

  absent-unexpired_batches :
      (id : Text) (batches : List IngestedBatch)
      → has_batch id batches ≡ false
      → has_batch id (unexpired_batches cutoff batches) ≡ false
  unfolding has_batch unexpired_batches
  absent-unexpired_batches id [] h = refl
  absent-unexpired_batches id (b ∷ batches) h = ground (arith, absent-unexpired_batches id batches)

  fresh-unexpired_batches :
      (node boot : Text) (seq : ℕ) (batches : List IngestedBatch)
      → has_sequence node boot seq batches ≡ false
      → has_sequence node boot seq (unexpired_batches cutoff batches) ≡ false
  unfolding has_sequence unexpired_batches
  fresh-unexpired_batches node boot seq [] h = refl
  fresh-unexpired_batches node boot seq (b ∷ batches) h =
      ground (arith, fresh-unexpired_batches node boot seq batches)

  unexpired_batches-AreDistinct :
      (batches : List IngestedBatch)
      → AreDistinct batches
      → AreDistinct (unexpired_batches cutoff batches)
  unfolding unexpired_batches
  unexpired_batches-AreDistinct [] h = tt
  unexpired_batches-AreDistinct (b ∷ batches) h = ground (
    arith,
    unexpired_batches-AreDistinct batches,
    absent-unexpired_batches b.batch_id batches,
    fresh-unexpired_batches b.node_id b.boot_id b.seq batches,
  )

  pruned-IsSound : (t : ControlTables) → IsSound t → IsSound (pruned cutoff t)
  pruned-IsSound t h =
      (unexpired_batches-AreDistinct t.ingested h.0, refers-unexpired_flows t.flows t.ingested h.1)

pub text_eq_sym : (a b : Text) → text_eq a b ≡ false → text_eq b a ≡ false
text_eq_sym a b h = ground (arith, text_eq_iff a b, text_eq_iff b a)

absent-append :
    (id : Text) (batches : List IngestedBatch) (b : IngestedBatch)
    → has_batch id batches ≡ false
    → text_eq b.batch_id id ≡ false
    → has_batch id (batches ++ (b ∷ [])) ≡ false
unfolding has_batch
absent-append id [] b h k = ground arith
absent-append id (x ∷ batches) b h k = ground (arith, absent-append id batches b)

present-append :
    (id : Text) (batches : List IngestedBatch) (b : IngestedBatch)
    → has_batch id batches ≡ true
    → has_batch id (batches ++ (b ∷ [])) ≡ true
unfolding has_batch
present-append id [] b h = cc
present-append id (x ∷ batches) b h = ground (arith, present-append id batches b)

present-new :
    (batches : List IngestedBatch) (b : IngestedBatch)
    → has_batch b.batch_id (batches ++ (b ∷ [])) ≡ true
unfolding has_batch
present-new [] b = ground (arith, text_eq_refl b.batch_id)
present-new (x ∷ batches) b = ground (arith, present-new batches b)

fresh-append :
    (node boot : Text) (seq : ℕ) (batches : List IngestedBatch) (b : IngestedBatch)
    → has_sequence node boot seq batches ≡ false
    → has_sequence node boot seq (b ∷ []) ≡ false
    → has_sequence node boot seq (batches ++ (b ∷ [])) ≡ false
unfolding has_sequence
fresh-append node boot seq [] b h k = ground arith
fresh-append node boot seq (x ∷ batches) b h k =
    ground (arith, fresh-append node boot seq batches b)

has_sequence_sym :
    (x b : IngestedBatch)
    → has_sequence b.node_id b.boot_id b.seq (x ∷ []) ≡ false
    → has_sequence x.node_id x.boot_id x.seq (b ∷ []) ≡ false
unfolding has_sequence
has_sequence_sym x b h = ground (
  arith,
  text_eq_sym b.node_id x.node_id,
  text_eq_sym b.boot_id x.boot_id,
  text_eq_sym x.node_id b.node_id,
  text_eq_sym x.boot_id b.boot_id,
)

find_checksum-none :
    (id : Text) (batches : List IngestedBatch)
    → find_checksum id batches ≡ none
    → has_batch id batches ≡ false
unfolding find_checksum has_batch
find_checksum-none id [] h = refl
find_checksum-none id (b ∷ batches) h = ground (arith, find_checksum-none id batches)

has_batch_sym :
    (x b : IngestedBatch) (batches : List IngestedBatch)
    → has_batch b.batch_id (x ∷ batches) ≡ false
    → text_eq b.batch_id x.batch_id ≡ false
unfolding has_batch
has_batch_sym x b batches h = ground (arith, text_eq_sym x.batch_id b.batch_id)

AreDistinct-append :
    (batches : List IngestedBatch) (b : IngestedBatch)
    → AreDistinct batches
    → has_batch b.batch_id batches ≡ false
    → has_sequence b.node_id b.boot_id b.seq batches ≡ false
    → AreDistinct (batches ++ (b ∷ []))
unfolding has_batch has_sequence
AreDistinct-append [] b h k l = (refl, refl, tt)
AreDistinct-append (x ∷ batches) b h k l = ground (
  arith,
  AreDistinct-append batches b,
  absent-append x.batch_id batches b,
  has_batch_sym x b batches,
  fresh-append x.node_id x.boot_id x.seq batches b,
  has_sequence_sym x b,
)

refers-append :
    (rows new : List FlowRow) (batches : List IngestedBatch) (b : IngestedBatch)
    → refers rows batches ≡ true
    → refers new (batches ++ (b ∷ [])) ≡ true
    → refers (rows ++ new) (batches ++ (b ∷ [])) ≡ true
unfolding refers
refers-append [] new batches b h k = k
refers-append (r ∷ rows) new batches b h k =
    ground (arith, refers-append rows new batches b, present-append r.batch_id batches b)

refers-flow_rows :
    (node : Text) (buckets : List FlowBucket) (batches : List IngestedBatch) (b : IngestedBatch)
    → refers (flow_rows b.batch_id node buckets) (batches ++ (b ∷ [])) ≡ true
unfolding refers
refers-flow_rows node [] batches b = refl
refers-flow_rows node (k ∷ buckets) batches b =
    ground (arith, refers-flow_rows node buckets batches b, present-new batches b)

with_batch-IsSound :
    (e : BatchEnvelope) (t : ControlTables)
    → IsSound t
    → find_checksum e.batch_id t.ingested ≡ none
    → has_sequence e.body.node_id e.body.boot_id e.body.seq t.ingested ≡ false
    → IsSound (with_batch e t)
with_batch-IsSound e t h k l = (
  AreDistinct-append t.ingested (batch_row e) h.0 (find_checksum-none e.batch_id t.ingested k) l,
  refers-append t.flows (flow_rows e.batch_id e.body.node_id e.body.buckets) t.ingested
      (batch_row e) h.1 (refers-flow_rows e.body.node_id e.body.buckets t.ingested (batch_row e)),
)

Ingests-IsSound :
    (cutoff : ℕ) (e : BatchEnvelope) (t : ControlTables) (r : Outcome IngestError IngestStatus)
    (t' : ControlTables)
    → IsSound t
    → Ingests cutoff e t r t'
    → IsSound t'
Ingests-IsSound cutoff e t (ok inserted) t' h (k, l, p) =
    subst IsSound (sym p) (with_batch-IsSound e (pruned cutoff t) (pruned-IsSound cutoff t h) k l)
Ingests-IsSound cutoff e t (ok duplicate) t' h (k, p) =
    subst IsSound (sym p) (pruned-IsSound cutoff t h)
Ingests-IsSound cutoff e t (err schema_version) t' h p = subst IsSound (sym p) h
Ingests-IsSound cutoff e t (err checksum) t' h p = subst IsSound (sym p) h
Ingests-IsSound cutoff e t (err conflict) t' h p = subst IsSound (sym p.1) h
Ingests-IsSound cutoff e t (err (database x)) t' h p = subst IsSound (sym p) h
Ingests-IsSound cutoff e t (err (encoding x)) t' h p = subst IsSound (sym p) h
Ingests-IsSound cutoff e t panic t' h p = subst IsSound (sym p) h

-- If the identifiers and the sequence numbers of the stored batches are unique and each flow row
-- belongs to a stored batch, then this holds after a delivery of any batch at any time, whatever
-- its result and whichever statements the engine fails.
pub ingest_at-IsSound :
    (codec : Codec) (engine : ControlEngine) (limits : ControlLimits) (e : BatchEnvelope) (now : ℕ)
    (t : ControlTables)
    → IsSound t
    → IsSound ((ingest_at engine codec limits e now t).1)
ingest_at-IsSound codec engine limits e now t h =
    Ingests-IsSound (now - limits.max_age_seconds) e t ((ingest_at engine codec limits e now t).0)
      ((ingest_at engine codec limits e now t).1) h (ingest_at-Ingests engine codec limits e now t)
