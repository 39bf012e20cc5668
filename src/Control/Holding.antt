-- ===== src/Control/Holding.antt =====
-- The tables of src/control.rs as a list of batches: what pruning and a delivery do to it.
use mathlib.Core.List.{append_assoc, append-nil}
use flow_observability.Base.{
  ℕ, ◌≡◌, refl, ap, ◌∙◌, false, List, [], ◌∷◌, ◌++◌, Outcome, ok, err, panic, arith, All, ltb,
  if◌then◌else◌, text_eq, text_eq_refl, Bool-cases, inl, inr,
}
use flow_observability.Model.{Text, FlowBucket, BatchEnvelope}
use flow_observability.Control.Tables.{
  IngestedBatch, FlowRow, ControlTables, has_batch, is_expired_id, unexpired_flows,
  unexpired_batches,
}
use flow_observability.Control.Ingest.{
  IngestStatus, inserted, duplicate, IngestError, schema_version, checksum, conflict, database,
  encoding,
}
use flow_observability.Control.Effects.{pruned, with_batch, batch_row, flow_rows}
use flow_observability.Control.Delivery.{Ingests}
use flow_observability.Control.Soundness.{AreDistinct, text_eq_sym}

abbrev pub batch_rows : List BatchEnvelope → List IngestedBatch
batch_rows [] = []
batch_rows (e ∷ es) = batch_row e ∷ batch_rows es

abbrev pub all_rows : List BatchEnvelope → List FlowRow
all_rows [] = []
all_rows (e ∷ es) = flow_rows e.batch_id e.body.node_id e.body.buckets ++ all_rows es

-- The tables that hold these batches and nothing else.
abbrev pub holding : List BatchEnvelope → ControlTables
holding es = record { ingested = batch_rows es; flows = all_rows es }

-- The batches from the cutoff on.
abbrev pub unexpired : (cutoff : ℕ) → List BatchEnvelope → List BatchEnvelope
unexpired cutoff [] = []
unexpired cutoff (e ∷ es) =
    if ltb e.body.created_at cutoff then unexpired cutoff es else e ∷ unexpired cutoff es

-- The batches that are kept behind a delivery with this result.
abbrev pub kept_after :
    (cutoff : ℕ)
    → BatchEnvelope
    → Outcome IngestError IngestStatus
    → List BatchEnvelope
    → List BatchEnvelope
kept_after cutoff e (ok inserted) kept = unexpired cutoff kept ++ (e ∷ [])
kept_after cutoff e (ok duplicate) kept = unexpired cutoff kept
kept_after cutoff e (err x) kept = kept
kept_after cutoff e panic kept = kept

module _ (cutoff : ℕ) where
  absent_expired :
      (id : Text) (batches : List IngestedBatch)
      → has_batch id batches ≡ false
      → is_expired_id cutoff batches id ≡ false
  unfolding has_batch is_expired_id
  absent_expired id [] h = refl
  absent_expired id (b ∷ batches) h = ground (arith, absent_expired id batches)

  -- The identifier is one of an expired batch exactly if this batch is expired.
  abbrev IsKnown : List IngestedBatch → BatchEnvelope → Type 0
  IsKnown batches e = is_expired_id cutoff batches e.batch_id ≡ ltb e.body.created_at cutoff

  others :
      (id : Text) (es : List BatchEnvelope)
      → has_batch id (batch_rows es) ≡ false
      → All (λ (e : BatchEnvelope). text_eq id e.batch_id ≡ false) es
  unfolding has_batch
  others id [] h = tt
  others id (e ∷ es) h = ground (arith, text_eq_sym e.batch_id id, others id es)

  IsKnown-cons :
      (b : IngestedBatch) (batches : List IngestedBatch) (es : List BatchEnvelope)
      → All (λ (e : BatchEnvelope). text_eq b.batch_id e.batch_id ≡ false) es
      → All (IsKnown batches) es
      → All (IsKnown (b ∷ batches)) es
  unfolding is_expired_id
  IsKnown-cons b batches [] n h = tt
  IsKnown-cons b batches (e ∷ es) n h = (ground arith, IsKnown-cons b batches es n.1 h.1)

  All-IsKnown :
      (es : List BatchEnvelope) → AreDistinct (batch_rows es) → All (IsKnown (batch_rows es)) es
  unfolding is_expired_id
  All-IsKnown [] h = tt
  All-IsKnown (e ∷ es) h = (
    ground (arith, text_eq_refl e.batch_id, absent_expired e.batch_id (batch_rows es)),
    IsKnown-cons (batch_row e) (batch_rows es) es (others e.batch_id es h.0) (All-IsKnown es h.2),
  )

  unexpired_flows-append :
      (batches : List IngestedBatch) (xs ys : List FlowRow)
      → unexpired_flows cutoff batches (xs ++ ys)
        ≡ unexpired_flows cutoff batches xs ++ unexpired_flows cutoff batches ys
  unfolding unexpired_flows
  unexpired_flows-append batches [] ys = refl
  unexpired_flows-append batches (r ∷ xs) ys = ground (arith, unexpired_flows-append batches xs ys)

  unexpired_flows-flow_rows :
      (batches : List IngestedBatch) (id node : Text) (buckets : List FlowBucket)
      → unexpired_flows cutoff batches (flow_rows id node buckets)
        ≡ (if is_expired_id cutoff batches id then [] else flow_rows id node buckets)
  unfolding unexpired_flows
  unexpired_flows-flow_rows batches id node [] = ground arith
  unexpired_flows-flow_rows batches id node (b ∷ buckets) =
      ground (arith, unexpired_flows-flow_rows batches id node buckets)

  unexpired_flows-all_rows :
      (batches : List IngestedBatch) (es : List BatchEnvelope)
      → All (IsKnown batches) es
      → unexpired_flows cutoff batches (all_rows es) ≡ all_rows (unexpired cutoff es)
  unexpired_flows-all_rows batches [] h = unfold unexpired_flows in refl
  unexpired_flows-all_rows batches (e ∷ es) h =
      let rows = flow_rows e.batch_id e.body.node_id e.body.buckets in
      unexpired_flows-append batches rows (all_rows es)
      ∙ elim (Bool-cases (ltb e.body.created_at cutoff)) [
        | inl old ↦ ground (
          arith,
          h.0,
          unexpired_flows-flow_rows batches e.batch_id e.body.node_id e.body.buckets,
          unexpired_flows-all_rows batches es h.1,
        )
        | inr young ↦ ground (
          arith,
          h.0,
          unexpired_flows-flow_rows batches e.batch_id e.body.node_id e.body.buckets,
          unexpired_flows-all_rows batches es h.1,
        )
      ]

  unexpired_batches-batch_rows :
      (es : List BatchEnvelope)
      → unexpired_batches cutoff (batch_rows es) ≡ batch_rows (unexpired cutoff es)
  unfolding unexpired_batches
  unexpired_batches-batch_rows [] = refl
  unexpired_batches-batch_rows (e ∷ es) = ground (arith, unexpired_batches-batch_rows es)

  pruned-holding :
      (es : List BatchEnvelope)
      → AreDistinct (batch_rows es)
      → pruned cutoff (holding es) ≡ holding (unexpired cutoff es)
  pruned-holding es h = ground (
    arith,
    unexpired_batches-batch_rows es,
    unexpired_flows-all_rows (batch_rows es) es (All-IsKnown es h),
  )

batch_rows-append :
    (es : List BatchEnvelope) (e : BatchEnvelope)
    → batch_rows (es ++ (e ∷ [])) ≡ batch_rows es ++ (batch_row e ∷ [])
batch_rows-append [] e = refl
batch_rows-append (x ∷ es) e = ap (λ rows. batch_row x ∷ rows) (batch_rows-append es e)

all_rows-append :
    (es : List BatchEnvelope) (e : BatchEnvelope)
    → all_rows (es ++ (e ∷ [])) ≡ all_rows es ++ flow_rows e.batch_id e.body.node_id e.body.buckets
all_rows-append [] e = append-nil (flow_rows e.batch_id e.body.node_id e.body.buckets)
all_rows-append (x ∷ es) e = simp (all_rows-append es e, append_assoc)

with_batch-holding :
    (e : BatchEnvelope) (es : List BatchEnvelope)
    → with_batch e (holding es) ≡ holding (es ++ (e ∷ []))
with_batch-holding e es = ground (arith, batch_rows-append es e, all_rows-append es e)

pub Ingests-holding :
    (cutoff : ℕ) (e : BatchEnvelope) (kept : List BatchEnvelope)
    (r : Outcome IngestError IngestStatus) (t' : ControlTables)
    → AreDistinct (batch_rows kept)
    → Ingests cutoff e (holding kept) r t'
    → t' ≡ holding (kept_after cutoff e r kept)
Ingests-holding cutoff e kept (ok inserted) t' h (k, l, p) =
    p
    ∙ ap (with_batch e) (pruned-holding cutoff kept h)
    ∙ with_batch-holding e (unexpired cutoff kept)
Ingests-holding cutoff e kept (ok duplicate) t' h (k, p) = p ∙ pruned-holding cutoff kept h
Ingests-holding cutoff e kept (err schema_version) t' h p = p
Ingests-holding cutoff e kept (err checksum) t' h p = p
Ingests-holding cutoff e kept (err conflict) t' h p = p.1
Ingests-holding cutoff e kept (err (database x)) t' h p = p
Ingests-holding cutoff e kept (err (encoding x)) t' h p = p
Ingests-holding cutoff e kept panic t' h p = p
