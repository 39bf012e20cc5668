-- ===== src/Control/Effects.antt =====
-- What the steps of `ingest_at` in src/control.rs do to the tables when they succeed.
use flow_observability.Base.{ℕ, ◌-◌, ◌≡◌, refl, false, List, [], ◌∷◌, ◌++◌, ok, arith}
use flow_observability.Model.{Text, FlowBucket, BatchEnvelope}
use flow_observability.Sqlite.{integer}
use mathlib.Core.List.{append-nil, append_assoc}
use flow_observability.Sqlite.Step.{query, execute}
use flow_observability.Sqlite.Inversion.{>>=-eq-ok}
use flow_observability.Control.Tables.{
  IngestedBatch, FlowRow, ControlTables, direction_key, protocol_key, has_sequence, unexpired_flows,
  unexpired_batches, refers_to_expired, remove_expired_flows, remove_expired_batches, add_batch,
  add_flow,
}
use flow_observability.Control.Ingest.{
  ControlEngine, IngestStatus, inserted, prune_expired, insert_bucket, insert_buckets, insert_new,
}

-- The tables without the batches from before the cutoff and their rows.
abbrev pub pruned : (cutoff : ℕ) → ControlTables → ControlTables
pruned cutoff t = record {
  ingested = unexpired_batches cutoff t.ingested;
  flows = unexpired_flows cutoff t.ingested t.flows;
}

-- The rows that a batch stands for.
abbrev pub flow_row : (batch_id node_id : Text) → FlowBucket → FlowRow
flow_row batch_id node_id b = record {
  batch_id = batch_id;
  bucket_start = b.bucket_start;
  node_id = node_id;
  capture_point = b.key.capture_point;
  direction = direction_key b.key.direction;
  protocol = protocol_key b.key.protocol;
  source_ip = b.key.source_ip;
  destination_ip = b.key.destination_ip;
  source_port = b.key.source_port;
  destination_port = b.key.destination_port;
  packets = b.packets;
  bytes = b.bytes;
}

abbrev pub flow_rows : (batch_id node_id : Text) → List FlowBucket → List FlowRow
flow_rows batch_id node_id [] = []
flow_rows batch_id node_id (b ∷ buckets) =
    flow_row batch_id node_id b ∷ flow_rows batch_id node_id buckets

abbrev pub batch_row : BatchEnvelope → IngestedBatch
batch_row e = record {
  batch_id = e.batch_id;
  checksum = e.checksum;
  node_id = e.body.node_id;
  boot_id = e.body.boot_id;
  seq = e.body.seq;
  created_at = e.body.created_at;
}

abbrev pub with_batch : BatchEnvelope → ControlTables → ControlTables
with_batch e t = record {
  ingested = t.ingested ++ (batch_row e ∷ []);
  flows = t.flows ++ flow_rows e.batch_id e.body.node_id e.body.buckets;
}

-- A batch is deleted after its rows, so the foreign key allows it.
pub refers_to_expired-unexpired_flows :
    (cutoff : ℕ) (batches : List IngestedBatch) (rows : List FlowRow)
    → refers_to_expired cutoff batches (unexpired_flows cutoff batches rows) ≡ false
unfolding refers_to_expired unexpired_flows
refers_to_expired-unexpired_flows cutoff batches [] = refl
refers_to_expired-unexpired_flows cutoff batches (r ∷ rows) =
    ground (arith, refers_to_expired-unexpired_flows cutoff batches rows)

module _ (engine : ControlEngine) where
  pub prune_expired-ok :
      (age now : ℕ) (t : ControlTables) (u : Unit {0}) (t' : ControlTables)
      → prune_expired engine age now t ≡ ok (u, t')
      → t' ≡ pruned (now - age) t
  unfolding prune_expired integer execute remove_expired_flows remove_expired_batches
  prune_expired-ok age now t u t' h = ground arith

  insert_bucket-ok :
      (id node : Text) (b : FlowBucket) (t : ControlTables) (u : Unit {0}) (t' : ControlTables)
      → insert_bucket engine id node b t ≡ ok (u, t')
      → t' ≡ record t { flows = t.flows ++ (flow_row id node b ∷ []) }
  unfolding insert_bucket integer execute add_flow
  insert_bucket-ok id node b t u t' h = ground arith

  insert_buckets-ok :
      (id node : Text) (buckets : List FlowBucket) (t : ControlTables) (u : Unit {0})
      (t' : ControlTables)
      → insert_buckets engine id node buckets t ≡ ok (u, t')
      → t' ≡ record t { flows = t.flows ++ flow_rows id node buckets }
  unfolding insert_buckets
  insert_buckets-ok id node [] t u t' h = ground (arith, append-nil t.flows)
  insert_buckets-ok id node (b ∷ buckets) t u t' h =
      let (u1, t1, p, q) =
        >>=-eq-ok (insert_bucket engine id node b) (λ _. insert_buckets engine id node buckets) t u
          t' h in
      ground (
        arith,
        append_assoc t.flows (flow_row id node b ∷ []) (flow_rows id node buckets),
        insert_bucket-ok id node b t u1 t1 p,
        insert_buckets-ok id node buckets t1 u t' q,
      )

  pub insert_new-ok :
      (e : BatchEnvelope) (t : ControlTables) (s : IngestStatus) (t' : ControlTables)
      → insert_new engine e t ≡ ok (s, t')
      → (s ≡ inserted)
        × (has_sequence e.body.node_id e.body.boot_id e.body.seq t.ingested ≡ false)
        × (t' ≡ with_batch e t)
  unfolding insert_new integer execute query add_batch
  insert_new-ok e t s t' h = ground (
    arith,
    insert_buckets-ok e.batch_id e.body.node_id e.body.buckets
        (record t { ingested = t.ingested ++ (batch_row e ∷ []) }) tt t',
  )
