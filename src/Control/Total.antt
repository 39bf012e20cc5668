-- ===== src/Control/Total.antt =====
-- `ingest_at` and the queries of src/control.rs never panic.
use flow_observability.Base.{ℕ, ◌≢◌, List, [], ◌∷◌, Option, Outcome, panic, arith}
use flow_observability.Model.{Text, FlowBucket, BatchEnvelope}
use flow_observability.Model.Envelope.{Codec, has_valid_checksum, body_checksum}
use flow_observability.Sqlite.{Error, integer}
use flow_observability.Sqlite.Step.{query, execute}
use flow_observability.Sqlite.Total.{
  NoPanic, NoPanic-bind, NoPanic-query, NoPanic-execute, NoPanic-transaction, NoPanic-map_err,
  NoPanic-if,
}
use flow_observability.Control.Tables.{
  ControlTables, begin_transaction, commit_transaction, remove_expired_flows,
  remove_expired_batches, add_batch, add_flow,
}
use flow_observability.Control.Ingest.{
  ControlLimits, ControlEngine, database, ingest_at, prune_expired, insert_bucket, insert_buckets,
  insert_new, ingest_pruned, ingest_body, checked,
}
use flow_observability.Control.Queries.{
  nodes, stats, series, read_nodes, read_stats, read_series, collect, series_point, node_item,
  NodeKey, group_nodes, group_series, rows_where, in_series, lower_bound, upper_bound,
}

checked-NoPanic : (value : ℕ) → NoPanic (checked value)
unfolding integer
checked-NoPanic value t e = ground arith

collect-ne-panic :
    {A B : Type 0} (f : A → Outcome Error B) (xs : List A)
    → ((x : A) → f x ≢ panic)
    → collect f xs ≢ panic
collect-ne-panic f [] h e = cc
collect-ne-panic f (x ∷ xs) h e = ground (arith, h x, collect-ne-panic f xs h)

node_item-ne-panic : (g : NodeKey × (ℕ × ℕ)) → node_item g ≢ panic
unfolding node_item
node_item-ne-panic g p = cc

series_point-ne-panic : (g : ℕ × (ℕ × ℕ)) → series_point g ≢ panic
unfolding series_point
series_point-ne-panic g p = ground arith

module _ (engine : ControlEngine) where
  prune_expired-NoPanic : (age now : ℕ) → NoPanic (prune_expired engine age now)
  unfolding prune_expired execute remove_expired_flows remove_expired_batches integer
  prune_expired-NoPanic age now t e = ground arith

  insert_bucket-NoPanic :
      (batch_id node_id : Text) (b : FlowBucket) → NoPanic (insert_bucket engine batch_id node_id b)
  unfolding insert_bucket execute add_flow integer
  insert_bucket-NoPanic batch_id node_id b t e = ground arith

  insert_buckets-NoPanic :
      (batch_id node_id : Text) (buckets : List FlowBucket)
      → NoPanic (insert_buckets engine batch_id node_id buckets)
  unfolding insert_buckets
  insert_buckets-NoPanic batch_id node_id [] = λ t e. cc
  insert_buckets-NoPanic batch_id node_id (b ∷ buckets) =
      NoPanic-bind _ _ (insert_bucket-NoPanic batch_id node_id b)
        λ _. insert_buckets-NoPanic batch_id node_id buckets

  insert_new-NoPanic : (e : BatchEnvelope) → NoPanic (insert_new engine e)
  unfolding insert_new add_batch
  insert_new-NoPanic e = NoPanic-bind _ _ (checked-NoPanic e.body.seq) λ seq.
      NoPanic-bind _ _ (NoPanic-map_err database _ (NoPanic-query engine _ _ λ t p. cc)) λ exists.
        NoPanic-if exists _ _ (λ t p. cc)
          (NoPanic-bind _ _ (checked-NoPanic e.body.created_at) λ created_at.
            NoPanic-bind _ _
              (NoPanic-map_err database _ (NoPanic-execute engine _ _ λ t p. ground arith))
              λ _.
                NoPanic-bind _ _ (insert_buckets-NoPanic e.batch_id e.body.node_id e.body.buckets)
                  λ _ t p. cc)

  ingest_pruned-NoPanic : (e : BatchEnvelope) → NoPanic (ingest_pruned engine e)
  unfolding ingest_pruned query
  ingest_pruned-NoPanic e t p = ground (arith, insert_new-NoPanic e t)

  ingest_body-NoPanic :
      (limits : ControlLimits) (e : BatchEnvelope) (now : ℕ)
      → NoPanic (ingest_body engine limits e now)
  unfolding ingest_body
  ingest_body-NoPanic limits e now =
      NoPanic-bind _ _
        (NoPanic-map_err database _ (prune_expired-NoPanic limits.max_age_seconds now))
        λ _. ingest_pruned-NoPanic e

  has_valid_checksum-ne-panic :
      (codec : Codec) (e : BatchEnvelope) → has_valid_checksum codec e ≢ panic
  unfolding has_valid_checksum body_checksum
  has_valid_checksum-ne-panic codec e p = ground arith

  pub ingest_at-ne-panic :
      (codec : Codec) (limits : ControlLimits) (e : BatchEnvelope) (now : ℕ) (t : ControlTables)
      → (ingest_at engine codec limits e now t).0 ≢ panic
  unfolding ingest_at
  ingest_at-ne-panic codec limits e now t p = ground (
    arith,
    has_valid_checksum-ne-panic codec e,
    NoPanic-transaction engine database begin_transaction commit_transaction
        (ingest_body engine limits e now) (ingest_body-NoPanic limits e now) t,
  )

  pub nodes-ne-panic : (t : ControlTables) → nodes engine t ≢ panic
  unfolding nodes read_nodes
  nodes-ne-panic t p =
      ground (arith, collect-ne-panic node_item (group_nodes t.flows) node_item-ne-panic)

  pub stats-ne-panic :
      (node : Text) (point : Option Text) (t : ControlTables) → stats engine node point t ≢ panic
  unfolding stats read_stats
  stats-ne-panic node point t p = ground arith

  read_series-ne-panic :
      (node : Text) (point : Option Text) (from to : ℕ) (t : ControlTables)
      → read_series node point from to t ≢ panic
  unfolding read_series
  read_series-ne-panic node point from to t =
      collect-ne-panic series_point
        (group_series (rows_where (in_series node point from to) t.flows)) series_point-ne-panic

  pub series-ne-panic :
      (node : Text) (point : Option Text) (from to : Option ℕ) (t : ControlTables)
      → series engine node point from to t ≢ panic
  unfolding series integer
  series-ne-panic node point from to t p =
      ground (arith, read_series-ne-panic node point (lower_bound from) (upper_bound to) t)
