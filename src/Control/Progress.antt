-- ===== src/Control/Progress.antt =====
-- Deliveries on an engine that fails no statement.
use flow_observability.Base.{
  ℕ, ◌-◌, ◌≤◌, ◌<◌, ◌≡◌, refl, subst, true, false, List, [], ◌∷◌, ◌++◌, none, some, lt→ltb, All, ok,
  arith, inl, inr, text_eq_refl, Outcome-cases,
}
use flow_observability.Model.{schema_version_const, FlowBucket, BatchEnvelope, Text}
use flow_observability.Model.Envelope.{Codec, has_valid_checksum}
use flow_observability.Sqlite.{i64_bound, integer}
use flow_observability.Sqlite.Step.{query, execute, transaction}
use mathlib.Core.List.{append-nil, append_assoc}
use flow_observability.Control.Tables.{
  IngestedBatch, Statement, ControlTables, begin_transaction, commit_transaction,
  delete_expired_flows, delete_expired_batches, select_checksum, select_sequence, insert_batch,
  insert_flow, find_checksum, has_sequence, has_batch, unexpired_flows, remove_expired_flows,
  remove_expired_batches, add_batch, add_flow,
}
use flow_observability.Control.Ingest.{
  ControlLimits, ControlEngine, IngestStatus, inserted, duplicate, database, prune_expired,
  insert_bucket, insert_buckets, insert_new, ingest_pruned, ingest_body, ingest_at,
}
use flow_observability.Control.Effects.{
  pruned, with_batch, batch_row, flow_row, flow_rows, refers_to_expired-unexpired_flows,
}
use flow_observability.Control.Soundness.{IsSound, ingest_at-IsSound}
use flow_observability.Control.Redelivery.{stored_checksum}

-- The two tests that stand before the transaction.
abbrev pub IsAdmissible : Codec → BatchEnvelope → Type 0
IsAdmissible codec e =
    (e.body.schema_version ≡ schema_version_const) × (has_valid_checksum codec e ≡ ok true)

module _ (engine : ControlEngine)
    (quiet : (s : Statement) (u : ControlTables) → engine s u ≡ none) where
  prune_expired_done :
      (age now : ℕ) (t : ControlTables)
      → IsSound t
      → now - age < i64_bound
      → prune_expired engine age now t ≡ ok (tt, pruned (now - age) t)
  unfolding prune_expired integer execute remove_expired_flows remove_expired_batches
  prune_expired_done age now t h k = ground (
    arith,
    quiet delete_expired_flows t,
    quiet delete_expired_batches
        (record t { flows = unexpired_flows (now - age) t.ingested t.flows }),
    refers_to_expired-unexpired_flows (now - age) t.ingested t.flows,
  )

  transaction_done :
      (limits : ControlLimits) (e : BatchEnvelope) (now : ℕ) (t t' : ControlTables)
      (s : IngestStatus)
      → IsSound t
      → now - limits.max_age_seconds < i64_bound
      → ingest_pruned engine e (pruned (now - limits.max_age_seconds) t) ≡ ok (s, t')
      → transaction engine database begin_transaction commit_transaction
          (ingest_body engine limits e now)
          t
        ≡ (ok s, t')
  unfolding transaction ingest_body
  transaction_done limits e now t t' s h k p = ground (
    arith,
    quiet begin_transaction t,
    quiet commit_transaction t',
    prune_expired_done limits.max_age_seconds now t h k,
  )

  ingest_at_done :
      (codec : Codec) (limits : ControlLimits) (e : BatchEnvelope) (now : ℕ) (t t' : ControlTables)
      (s : IngestStatus)
      → IsSound t
      → IsAdmissible codec e
      → now - limits.max_age_seconds < i64_bound
      → ingest_pruned engine e (pruned (now - limits.max_age_seconds) t) ≡ ok (s, t')
      → ingest_at engine codec limits e now t ≡ (ok s, t')
  unfolding ingest_at
  ingest_at_done codec limits e now t t' s h a k p =
      ground (arith, transaction_done limits e now t t' s h k p)

  known_batch :
      (e : BatchEnvelope) (u : ControlTables)
      → find_checksum e.batch_id u.ingested ≡ some e.checksum
      → ingest_pruned engine e u ≡ ok (duplicate, u)
  unfolding ingest_pruned query
  known_batch e u h = ground (arith, quiet select_checksum u, text_eq_refl e.checksum)

accepted-IsAdmissible :
    (codec : Codec) (engine : ControlEngine) (limits : ControlLimits) (e : BatchEnvelope) (now : ℕ)
    (t t' : ControlTables) (s : IngestStatus)
    → ingest_at engine codec limits e now t ≡ (ok s, t')
    → IsAdmissible codec e
unfolding ingest_at
accepted-IsAdmissible codec engine limits e now t t' s h =
    elim (Outcome-cases (has_valid_checksum codec e)) [
      | inl (true, p) ↦ (ground arith, p)
      | inl (false, p) ↦ ground arith
      | inr (inl (x, p)) ↦ ground arith
      | inr (inr p) ↦ ground arith
    ]

-- From tables that satisfy the invariant, a batch that was inserted and is delivered again, on an
-- engine that fails no statement and while the batch is not expired, is answered with `duplicate`;
-- the tables are then the pruned ones. The cutoff has to fit an `i64`.
pub redelivery_answers :
    (codec : Codec) (limits : ControlLimits) (e : BatchEnvelope) (engine engine' : ControlEngine)
    (now now' : ℕ) (t t' : ControlTables)
    → IsSound t
    → ingest_at engine codec limits e now t ≡ (ok inserted, t')
    → ((s : Statement) (u : ControlTables) → engine' s u ≡ none)
    → now' - limits.max_age_seconds ≤ e.body.created_at
    → now' - limits.max_age_seconds < i64_bound
    → ingest_at engine' codec limits e now' t'
      ≡ (ok duplicate, pruned (now' - limits.max_age_seconds) t')
redelivery_answers codec limits e engine engine' now now' t t' sound h quiet k l =
    ingest_at_done engine' quiet codec limits e now' t' (pruned (now' - limits.max_age_seconds) t')
      duplicate (subst (λ r. IsSound r.1) h (ingest_at-IsSound codec engine limits e now t sound))
      (accepted-IsAdmissible codec engine limits e now t t' inserted h) l
      (known_batch engine' quiet e (pruned (now' - limits.max_age_seconds) t')
        (stored_checksum codec limits e engine now (now' - limits.max_age_seconds) t t' h k))

-- The numbers of a batch that become INTEGER columns fit an `i64`.
abbrev pub Fits : FlowBucket → Type 0
Fits b = (b.bucket_start < i64_bound) × (b.packets < i64_bound) × (b.bytes < i64_bound)

abbrev pub IsStorable : BatchEnvelope → Type 0
IsStorable e = (e.body.seq < i64_bound) × (e.body.created_at < i64_bound) × All Fits e.body.buckets

absent_batch :
    (id : Text) (batches : List IngestedBatch)
    → find_checksum id batches ≡ none
    → has_batch id batches ≡ false
unfolding find_checksum has_batch
absent_batch id [] h = refl
absent_batch id (b ∷ batches) h = ground (arith, absent_batch id batches)

new_batch :
    (b : IngestedBatch) (batches : List IngestedBatch)
    → has_batch b.batch_id (batches ++ (b ∷ [])) ≡ true
unfolding has_batch
new_batch b [] = ground (arith, text_eq_refl b.batch_id)
new_batch b (x ∷ batches) = ground (arith, new_batch b batches)

module _ (engine : ControlEngine)
    (quiet : (s : Statement) (u : ControlTables) → engine s u ≡ none) where
  insert_bucket_done :
      (id node : Text) (b : FlowBucket) (u : ControlTables)
      → Fits b
      → has_batch id u.ingested ≡ true
      → insert_bucket engine id node b u
        ≡ ok (tt, record u { flows = u.flows ++ (flow_row id node b ∷ []) })
  unfolding insert_bucket integer execute add_flow
  insert_bucket_done id node b u f h = ground (
    arith,
    quiet insert_flow u,
    lt→ltb b.bucket_start i64_bound f.0,
    lt→ltb b.packets i64_bound f.1,
    lt→ltb b.bytes i64_bound f.2,
  )

  insert_buckets_done :
      (id node : Text) (buckets : List FlowBucket) (u : ControlTables)
      → All Fits buckets
      → has_batch id u.ingested ≡ true
      → insert_buckets engine id node buckets u
        ≡ ok (tt, record u { flows = u.flows ++ flow_rows id node buckets })
  unfolding insert_buckets
  insert_buckets_done id node [] u f h = ground (arith, append-nil u.flows)
  insert_buckets_done id node (b ∷ buckets) u f h = ground (
    arith,
    append_assoc u.flows (flow_row id node b ∷ []) (flow_rows id node buckets),
    insert_bucket_done id node b u f.0 h,
    insert_buckets_done id node buckets (record u { flows = u.flows ++ (flow_row id node b ∷ []) })
        f.1 h,
  )

  insert_new_done :
      (e : BatchEnvelope) (u : ControlTables)
      → IsStorable e
      → find_checksum e.batch_id u.ingested ≡ none
      → has_sequence e.body.node_id e.body.boot_id e.body.seq u.ingested ≡ false
      → insert_new engine e u ≡ ok (inserted, with_batch e u)
  unfolding insert_new integer execute query add_batch
  insert_new_done e u f h k = ground (
    arith,
    quiet select_sequence u,
    quiet insert_batch u,
    absent_batch e.batch_id u.ingested h,
    lt→ltb e.body.seq i64_bound f.0,
    lt→ltb e.body.created_at i64_bound f.1,
    insert_buckets_done e.batch_id e.body.node_id e.body.buckets
        (record u { ingested = u.ingested ++ (batch_row e ∷ []) }) f.2
        (new_batch (batch_row e) u.ingested),
  )

  new_batch_inserted :
      (e : BatchEnvelope) (u : ControlTables)
      → IsStorable e
      → find_checksum e.batch_id u.ingested ≡ none
      → has_sequence e.body.node_id e.body.boot_id e.body.seq u.ingested ≡ false
      → ingest_pruned engine e u ≡ ok (inserted, with_batch e u)
  unfolding ingest_pruned query
  new_batch_inserted e u f h k = ground (arith, quiet select_checksum u, insert_new_done e u f h k)

-- From tables that satisfy the invariant, on an engine that fails no statement, a batch of the
-- supported schema with a valid checksum, whose numbers and the cutoff fit an `i64`, and of which
-- neither the identifier nor the sequence number is stored after the pruning, is inserted: the
-- tables are then the pruned ones with the batch and one row for each of its buckets.
pub first_delivery :
    (codec : Codec) (limits : ControlLimits) (e : BatchEnvelope) (engine : ControlEngine) (now : ℕ)
    (t : ControlTables)
    → ((s : Statement) (u : ControlTables) → engine s u ≡ none)
    → IsSound t
    → IsAdmissible codec e
    → IsStorable e
    → now - limits.max_age_seconds < i64_bound
    → find_checksum e.batch_id (pruned (now - limits.max_age_seconds) t).ingested ≡ none
    → has_sequence e.body.node_id e.body.boot_id e.body.seq
        (pruned (now - limits.max_age_seconds) t).ingested
      ≡ false
    → ingest_at engine codec limits e now t
      ≡ (ok inserted, with_batch e (pruned (now - limits.max_age_seconds) t))
first_delivery codec limits e engine now t quiet sound a f l h k =
    ingest_at_done engine quiet codec limits e now t
      (with_batch e (pruned (now - limits.max_age_seconds) t)) inserted sound a l
      (new_batch_inserted engine quiet e (pruned (now - limits.max_age_seconds) t) f h k)
