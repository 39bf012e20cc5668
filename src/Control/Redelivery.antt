-- ===== src/Control/Redelivery.antt =====
-- A batch that is delivered again, as the uploader does when it has not seen the answer.
use flow_observability.Base.{
  ℕ, ◌-◌, ◌≤◌, ◌≡◌, ◌≢◌, refl, ap, ◌∙◌, subst, false, List, [], ◌∷◌, ◌++◌, none, some, ltb,
  ltb-false, Outcome, ok, err, arith, inl, inr, text_eq_refl,
}
use flow_observability.Model.{BatchEnvelope}
use flow_observability.Model.Envelope.{Codec}
use flow_observability.Control.Tables.{
  IngestedBatch, ControlTables, find_checksum, unexpired_batches,
}
use flow_observability.Control.Ingest.{
  ControlLimits, ControlEngine, IngestStatus, inserted, duplicate, IngestError, conflict, ingest_at,
}
use flow_observability.Control.Effects.{pruned, batch_row}
use flow_observability.Control.Delivery.{Accepts, Ingests, Conflicts, ingest_at-Ingests}

find_checksum-unexpired_batches :
    (cutoff : ℕ) (b : IngestedBatch) (batches : List IngestedBatch)
    → find_checksum b.batch_id batches ≡ none
    → ltb b.created_at cutoff ≡ false
    → find_checksum b.batch_id (unexpired_batches cutoff (batches ++ (b ∷ []))) ≡ some b.checksum
unfolding find_checksum unexpired_batches
find_checksum-unexpired_batches cutoff b [] h k = ground (arith, text_eq_refl b.batch_id)
find_checksum-unexpired_batches cutoff b (x ∷ batches) h k =
    ground (arith, find_checksum-unexpired_batches cutoff b batches)

module _ (e : BatchEnvelope) (u : ControlTables) where
  only_duplicate :
      (s : IngestStatus) (t' : ControlTables)
      → find_checksum e.batch_id u.ingested ≡ some e.checksum
      → Accepts e u s t'
      → (s ≡ duplicate) × (t' ≡ u)
  only_duplicate inserted t' h a = cc
  only_duplicate duplicate t' h a = (refl, a.1)

  no_conflict : find_checksum e.batch_id u.ingested ≡ some e.checksum → Conflicts e u → ⊥
  no_conflict h (inl (stored, p, n)) = n (ground arith)
  no_conflict h (inr (p, q)) = cc

module _ (codec : Codec) (limits : ControlLimits) (e : BatchEnvelope) where
  pub stored_checksum :
      (engine : ControlEngine) (now cutoff : ℕ) (t t' : ControlTables)
      → ingest_at engine codec limits e now t ≡ (ok inserted, t')
      → cutoff ≤ e.body.created_at
      → find_checksum e.batch_id (pruned cutoff t').ingested ≡ some e.checksum
  stored_checksum engine now cutoff t t' h k =
      let (new, fresh, left) =
        subst (λ r. Ingests (now - limits.max_age_seconds) e t r.0 r.1) h
          (ingest_at-Ingests engine codec limits e now t) in
      ap (λ u. find_checksum e.batch_id (pruned cutoff u).ingested) left
      ∙ find_checksum-unexpired_batches cutoff (batch_row e)
          (pruned (now - limits.max_age_seconds) t).ingested new
          (ltb-false e.body.created_at cutoff k)

  redelivery-Ingests :
      (engine' : ControlEngine) (now' : ℕ) (t' t'' : ControlTables)
      (result : Outcome IngestError IngestStatus)
      → ingest_at engine' codec limits e now' t' ≡ (result, t'')
      → Ingests (now' - limits.max_age_seconds) e t' result t''
  redelivery-Ingests engine' now' t' t'' result h =
      subst (λ r. Ingests (now' - limits.max_age_seconds) e t' r.0 r.1) h
        (ingest_at-Ingests engine' codec limits e now' t')

  -- If a batch was inserted and is delivered again before it expires, then a delivery that succeeds
  -- has the result `duplicate` and leaves the pruned tables, so nothing is stored twice.
  pub redelivery :
      (engine engine' : ControlEngine) (now now' : ℕ) (t t' t'' : ControlTables) (s : IngestStatus)
      → ingest_at engine codec limits e now t ≡ (ok inserted, t')
      → now' - limits.max_age_seconds ≤ e.body.created_at
      → ingest_at engine' codec limits e now' t' ≡ (ok s, t'')
      → (s ≡ duplicate) × (t'' ≡ pruned (now' - limits.max_age_seconds) t')
  redelivery engine engine' now now' t t' t'' s h k p =
      only_duplicate e (pruned (now' - limits.max_age_seconds) t') s t''
        (stored_checksum engine now (now' - limits.max_age_seconds) t t' h k)
        (redelivery-Ingests engine' now' t' t'' (ok s) p)

  -- If a batch was inserted and is delivered again before it expires, then this is not answered as a
  -- conflict.
  pub redelivery-ne-conflict :
      (engine engine' : ControlEngine) (now now' : ℕ) (t t' : ControlTables)
      → ingest_at engine codec limits e now t ≡ (ok inserted, t')
      → now' - limits.max_age_seconds ≤ e.body.created_at
      → (ingest_at engine' codec limits e now' t').0 ≢ err conflict
  redelivery-ne-conflict engine engine' now now' t t' h k p =
      no_conflict e (pruned (now' - limits.max_age_seconds) t')
        (stored_checksum engine now (now' - limits.max_age_seconds) t t' h k)
        ((redelivery-Ingests engine' now' t' (ingest_at engine' codec limits e now' t').1
          (err conflict) (ap (λ r. (r, (ingest_at engine' codec limits e now' t').1)) p)).0)
