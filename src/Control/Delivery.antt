-- ===== src/Control/Delivery.antt =====
-- What each result of a delivery says: `ingest_at` of src/control.rs on every branch.
use flow_observability.Base.{
  ℕ, ◌-◌, ◌≡◌, refl, true, false, List, [], ◌∷◌, ◌++◌, none, some, Outcome, ok, err, panic, arith,
  ◌⊎◌, inl, inr, ◌≢◌, sym, ap, subst, ◌∙◌, ◌==◌, Bool-cases, Outcome-cases, Option-cases,
  text_eq_iff,
}
use flow_observability.Model.{schema_version_const, Text, FlowBucket, BatchEnvelope}
use flow_observability.Model.Envelope.{Codec, has_valid_checksum}
use flow_observability.Sqlite.{Error, integer}
use flow_observability.Sqlite.Step.{query, execute, transaction}
use flow_observability.Sqlite.Inversion.{transaction_result}
use flow_observability.Control.Tables.{
  ControlTables, begin_transaction, commit_transaction, find_checksum, has_sequence, add_batch,
}
use flow_observability.Control.Ingest.{
  ControlLimits, ControlEngine, IngestStatus, inserted, duplicate, IngestError, schema_version,
  checksum, conflict, database, encoding, prune_expired, insert_bucket, insert_buckets, insert_new,
  ingest_pruned, ingest_body, ingest_at,
}
use flow_observability.Control.Effects.{
  pruned, batch_row, with_batch, prune_expired-ok, insert_new-ok,
}

-- What a successful delivery says of the tables after the pruning, and what it leaves.
abbrev pub Accepts : BatchEnvelope → ControlTables → IngestStatus → ControlTables → Type 0
Accepts e u inserted t' =
    (find_checksum e.batch_id u.ingested ≡ none)
    × (has_sequence e.body.node_id e.body.boot_id e.body.seq u.ingested ≡ false)
    × (t' ≡ with_batch e u)
Accepts e u duplicate t' = (find_checksum e.batch_id u.ingested ≡ some e.checksum) × (t' ≡ u)

-- The identifier is stored with another checksum, or it is new and its sequence number is not.
abbrev pub Conflicts : BatchEnvelope → ControlTables → Type 0
Conflicts e u =
    ((stored : Text) × (find_checksum e.batch_id u.ingested ≡ some stored) × (stored ≢ e.checksum))
    ⊎ ((find_checksum e.batch_id u.ingested ≡ none)
        × (has_sequence e.body.node_id e.body.boot_id e.body.seq u.ingested ≡ true))

-- What each result says. A delivery that is refused or fails leaves the tables alone.
abbrev pub Ingests :
    (cutoff : ℕ)
    → BatchEnvelope
    → ControlTables
    → Outcome IngestError IngestStatus
    → ControlTables
    → Type 0
Ingests cutoff e t (ok s) t' = Accepts e (pruned cutoff t) s t'
Ingests cutoff e t (err conflict) t' = Conflicts e (pruned cutoff t) × (t' ≡ t)
Ingests cutoff e t (err _) t' = t' ≡ t
Ingests cutoff e t panic t' = t' ≡ t

module _ (engine : ControlEngine) where
  ingest_pruned-ok :
      (e : BatchEnvelope) (u : ControlTables) (s : IngestStatus) (t' : ControlTables)
      → ingest_pruned engine e u ≡ ok (s, t')
      → Accepts e u s t'
  unfolding ingest_pruned query
  ingest_pruned-ok e u inserted t' h = ground (arith, insert_new-ok engine e u inserted t')
  ingest_pruned-ok e u duplicate t' h = elim (Option-cases (find_checksum e.batch_id u.ingested)) [
    | inl p ↦ ground (arith, insert_new-ok engine e u duplicate t')
    | inr (stored, p) ↦ ground (arith, (text_eq_iff stored e.checksum).0)
  ]

  insert_bucket-ne-conflict :
      (id node : Text) (b : FlowBucket) (t : ControlTables)
      → insert_bucket engine id node b t ≢ err conflict
  unfolding insert_bucket
  insert_bucket-ne-conflict id node b t h = ground arith

  insert_buckets-ne-conflict :
      (id node : Text) (buckets : List FlowBucket) (t : ControlTables)
      → insert_buckets engine id node buckets t ≢ err conflict
  unfolding insert_buckets
  insert_buckets-ne-conflict id node [] t h = cc
  insert_buckets-ne-conflict id node (b ∷ buckets) t h =
      elim (Outcome-cases (insert_bucket engine id node b t)) [
        | inl ((u, t1), p) ↦ ground (arith, insert_buckets-ne-conflict id node buckets t1)
        | inr p ↦ ground (arith, insert_bucket-ne-conflict id node b t)
      ]

  insert_new-conflict :
      (e : BatchEnvelope) (t : ControlTables)
      → insert_new engine e t ≡ err conflict
      → has_sequence e.body.node_id e.body.boot_id e.body.seq t.ingested ≡ true
  unfolding insert_new integer query execute add_batch
  insert_new-conflict e t h = ground (
    arith,
    insert_buckets-ne-conflict e.batch_id e.body.node_id e.body.buckets
        (record t { ingested = t.ingested ++ (batch_row e ∷ []) }),
  )

  ingest_pruned-conflict :
      (e : BatchEnvelope) (u : ControlTables)
      → ingest_pruned engine e u ≡ err conflict
      → Conflicts e u
  unfolding ingest_pruned query
  ingest_pruned-conflict e u h = elim (Option-cases (find_checksum e.batch_id u.ingested)) [
    | inl p ↦ inr (p, ground (arith, insert_new-conflict e u))
    | inr (stored, p) ↦ inl (stored, p, ground (arith, (text_eq_iff stored e.checksum).1))
  ]

  ingest_body-cases :
      (limits : ControlLimits) (e : BatchEnvelope) (now : ℕ) (t : ControlTables)
      → (ingest_body engine limits e now t
          ≡ ingest_pruned engine e (pruned (now - limits.max_age_seconds) t))
        ⊎ ((x : Error) × (ingest_body engine limits e now t ≡ err (database x)))
        ⊎ (ingest_body engine limits e now t ≡ panic)
  unfolding ingest_body
  ingest_body-cases limits e now t =
      elim (Outcome-cases (prune_expired engine limits.max_age_seconds now t)) [
        | inl ((u, t1), p) ↦
            inl (ground (arith, prune_expired-ok engine limits.max_age_seconds now t u t1 p))
        | inr (inl (x, p)) ↦ inr (inl (x, ground arith))
        | inr (inr p) ↦ inr (inr (ground arith))
      ]

  ingest_body-ok :
      (limits : ControlLimits) (e : BatchEnvelope) (now : ℕ) (t : ControlTables) (s : IngestStatus)
      (t' : ControlTables)
      → ingest_body engine limits e now t ≡ ok (s, t')
      → Accepts e (pruned (now - limits.max_age_seconds) t) s t'
  ingest_body-ok limits e now t s t' h = elim (ingest_body-cases limits e now t) [
    | inl p ↦ ingest_pruned-ok e (pruned (now - limits.max_age_seconds) t) s t' (sym p ∙ h)
    | inr (inl (x, p)) ↦ cc
    | inr (inr p) ↦ cc
  ]

  ingest_body-conflict :
      (limits : ControlLimits) (e : BatchEnvelope) (now : ℕ) (t : ControlTables)
      → ingest_body engine limits e now t ≡ err conflict
      → Conflicts e (pruned (now - limits.max_age_seconds) t)
  ingest_body-conflict limits e now t h = elim (ingest_body-cases limits e now t) [
    | inl p ↦ ingest_pruned-conflict e (pruned (now - limits.max_age_seconds) t) (sym p ∙ h)
    | inr (inl (x, p)) ↦ cc
    | inr (inr p) ↦ cc
  ]

  Ingests-err :
      (cutoff : ℕ) (e : BatchEnvelope) (t : ControlTables) (x : IngestError)
      → (x ≡ conflict → Conflicts e (pruned cutoff t))
      → Ingests cutoff e t (err x) t
  Ingests-err cutoff e t schema_version h = refl
  Ingests-err cutoff e t checksum h = refl
  Ingests-err cutoff e t conflict h = (h refl, refl)
  Ingests-err cutoff e t (database x) h = refl
  Ingests-err cutoff e t (encoding x) h = refl

  Ingests-transaction :
      (limits : ControlLimits) (e : BatchEnvelope) (now : ℕ) (t : ControlTables)
      → Ingests
          (now - limits.max_age_seconds)
          e
          t
          (transaction engine database begin_transaction commit_transaction
            (ingest_body engine limits e now)
            t).0
          (transaction engine database begin_transaction commit_transaction
            (ingest_body engine limits e now)
            t).1
  Ingests-transaction limits e now t =
      elim (transaction_result engine database begin_transaction commit_transaction
        (ingest_body engine limits e now) t) [
          | inl (s, t', q, r) ↦ by_result r (ingest_body-ok limits e now t s t' q)
          | inr (inl (x, r)) ↦ by_result r refl
          | inr (inr (inl (x, q, r))) ↦
              by_result r
                (Ingests-err cutoff e t x (λ c. ingest_body-conflict limits e now t (q ∙ ap err c)))
          | inr (inr (inr r)) ↦ by_result r refl
        ]
    where
      cutoff : ℕ
      cutoff = now - limits.max_age_seconds

      by_result :
          {result : Outcome IngestError IngestStatus × ControlTables}
          {r : Outcome IngestError IngestStatus × ControlTables}
          → result ≡ r
          → Ingests cutoff e t r.0 r.1
          → Ingests cutoff e t result.0 result.1
      by_result p h = subst (λ r. Ingests cutoff e t r.0 r.1) (sym p) h

  -- A batch that is new by its identifier and by its sequence number is stored with all of its
  -- rows; one that is stored with the same checksum changes nothing but the pruning; a conflict is
  -- one of these two with another batch; and a delivery without success changes nothing at all.
  pub ingest_at-Ingests :
      (codec : Codec) (limits : ControlLimits) (e : BatchEnvelope) (now : ℕ) (t : ControlTables)
      → Ingests
          (now - limits.max_age_seconds)
          e
          t
          ((ingest_at engine codec limits e now t).0)
          ((ingest_at engine codec limits e now t).1)
  unfolding ingest_at
  ingest_at-Ingests codec limits e now t =
      elim (Bool-cases (e.body.schema_version == schema_version_const)) [
        | inr p ↦ rw p refl
        | inl p ↦ elim (Outcome-cases (has_valid_checksum codec e)) [
          | inl (true, q) ↦ rw (p, q) (Ingests-transaction limits e now t)
          | inl (false, q) ↦ rw (p, q) refl
          | inr (inl (x, q)) ↦ rw (p, q) refl
          | inr (inr q) ↦ rw (p, q) refl
        ]
      ]
