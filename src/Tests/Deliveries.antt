-- ===== src/Tests/Deliveries.antt =====
-- Tests of src/control.rs, and its theorems and those of the uploader on concrete tables.
use flow_observability.Base.{
  List, ℕ, ◌-◌, ◌≡◌, ◌≢◌, ◌⊎◌, inl, refl, [], ◌∷◌, replicate, Option, none, some, arith, ok, err,
  false,
}
use flow_observability.Model.{bytes_of, default_diagnostics, BatchEnvelope}
use flow_observability.Model.Envelope.{Codec, body_checksum, has_valid_checksum}
use flow_observability.Sqlite.{Error, integer}
use flow_observability.Sqlite.Step.{query, execute, transaction}
use flow_observability.Spool.Tables.{SpoolTables, BatchRow}
use flow_observability.Spool.Retention.{IsIn}
use flow_observability.Control.Tables.{
  ControlTables, find_checksum, has_sequence, has_batch, is_expired_id, unexpired_flows,
  unexpired_batches, refers, refers_to_expired, remove_expired_flows, remove_expired_batches,
  add_batch, add_flow,
}
use flow_observability.Control.Ingest.{
  ControlLimits, ControlEngine, inserted, duplicate, conflict, prune_expired, insert_bucket,
  insert_buckets, insert_new, ingest_pruned, ingest_body, ingest_at,
}
use flow_observability.Control.Http.{
  AppState, words, conflict_status, ingest_response, handle_ingest,
}
use flow_observability.Control.Status.{handle_ingest-Conflicts}
use flow_observability.Control.Effects.{pruned, with_batch}
use flow_observability.Control.Delivery.{Ingests, Conflicts, ingest_at-Ingests}
use flow_observability.Control.Redelivery.{redelivery, redelivery-ne-conflict}
use flow_observability.Control.Holding.{holding}
use flow_observability.Control.Contents.{Sent, AllDiffer, ingest_all, kept_by, ingest_all-holding}
use flow_observability.Control.Soundness.{IsSound}
use flow_observability.Control.Progress.{first_delivery, redelivery_answers}
use flow_observability.Upload.{upload_once}
use flow_observability.Upload.Acknowledged.{Carries}
use flow_observability.Upload.EndToEnd.{Delivery, control_server, IsTakenIn, upload_once_safe}
use flow_observability.Tests.Batches.{small_codec, no_faults, bucket, node, boot}

abbrev pub quiet_engine : ControlEngine
quiet_engine statement t = none

abbrev day : ControlLimits
day = record { max_database_bytes = 1048576; max_age_seconds = 86400 }

abbrev empty_tables : ControlTables
empty_tables = record { ingested = []; flows = [] }

abbrev pub batch : BatchEnvelope
batch = record {
  batch_id = bytes_of "node:boot:0:aaaaaaaaaaaaaaaa";
  checksum = replicate 64 b'a';
  body = record {
    schema_version = 1;
    node_id = node;
    boot_id = boot;
    seq = 0;
    created_at = 100;
    buckets = bucket 100 ∷ [];
    diagnostics = default_diagnostics;
  };
}

abbrev pub stored : ControlTables
stored = with_batch batch empty_tables

-- `duplicate_batch_is_idempotent`
first_result : ingest_at quiet_engine small_codec day batch 150 empty_tables ≡ (ok inserted, stored)
unfolding ingest_at has_valid_checksum body_checksum transaction ingest_body prune_expired integer
    execute remove_expired_flows remove_expired_batches unexpired_flows unexpired_batches
    refers_to_expired ingest_pruned query find_checksum insert_new has_sequence add_batch has_batch
    insert_buckets insert_bucket add_flow
first_result = refl

second_result : ingest_at quiet_engine small_codec day batch 160 stored ≡ (ok duplicate, stored)
unfolding ingest_at has_valid_checksum body_checksum transaction ingest_body prune_expired integer
    execute remove_expired_flows remove_expired_batches unexpired_flows unexpired_batches
    refers_to_expired ingest_pruned query find_checksum is_expired_id has_batch
second_result = refl

empty-IsSound : IsSound empty_tables
unfolding refers
empty-IsSound = (tt, refl)

ingest_at-Ingests_example :
    Ingests
      (150 - 86400)
      batch
      empty_tables
      ((ingest_at quiet_engine small_codec day batch 150 empty_tables).0)
      ((ingest_at quiet_engine small_codec day batch 150 empty_tables).1)
ingest_at-Ingests_example = ingest_at-Ingests quiet_engine small_codec day batch 150 empty_tables

-- The batch twice.
abbrev sent_twice : List Sent
sent_twice =
    record { envelope = batch; engine = quiet_engine; now = 150 }
    ∷ record { envelope = batch; engine = quiet_engine; now = 160 }
    ∷ []

sent_twice_kept : kept_by small_codec day sent_twice (holding []) [] ≡ batch ∷ []
unfolding kept_by ingest_at has_valid_checksum body_checksum transaction ingest_body prune_expired
    integer execute remove_expired_flows remove_expired_batches unexpired_flows unexpired_batches
    refers_to_expired ingest_pruned query find_checksum insert_new has_sequence add_batch has_batch
    insert_buckets insert_bucket add_flow is_expired_id
sent_twice_kept = refl

ingest_all-holding_example :
    (ingest_all small_codec day sent_twice (holding [])
      ≡ holding (kept_by small_codec day sent_twice (holding []) []))
    × AllDiffer (kept_by small_codec day sent_twice (holding []) [])
ingest_all-holding_example = ingest_all-holding small_codec day sent_twice

redelivery_example : (duplicate ≡ duplicate) × (stored ≡ pruned (160 - 86400) stored)
redelivery_example =
    redelivery small_codec day batch quiet_engine quiet_engine 150 160 empty_tables stored stored
      duplicate first_result (omega arith) second_result

redelivery-ne-conflict_example :
    (ingest_at quiet_engine small_codec day batch 160 stored).0 ≢ err conflict
redelivery-ne-conflict_example =
    redelivery-ne-conflict small_codec day batch quiet_engine quiet_engine 150 160 empty_tables
      stored first_result (omega arith)

redelivery_answers_example :
    ingest_at quiet_engine small_codec day batch 160 stored
    ≡ (ok duplicate, pruned (160 - 86400) stored)
redelivery_answers_example =
    redelivery_answers small_codec day batch quiet_engine quiet_engine 150 160 empty_tables stored
      empty-IsSound first_result (λ s u. refl) (omega arith) (omega arith)

first_delivery_example :
    ingest_at quiet_engine small_codec day batch 150 empty_tables
    ≡ (ok inserted, with_batch batch (pruned (150 - 86400) empty_tables))
unfolding has_valid_checksum body_checksum find_checksum has_sequence unexpired_batches
first_delivery_example =
    first_delivery small_codec day batch quiet_engine 150 empty_tables (λ s u. refl) empty-IsSound
      (refl, refl) (omega arith, omega arith, ((omega arith, omega arith, omega arith), tt))
      (omega arith) refl refl

-- The row of the batch in a spool that holds nothing else.
abbrev row : BatchRow
row = record {
  seq = 0;
  batch_id = batch.batch_id;
  checksum = batch.checksum;
  created_at = 100;
  min_bucket = some 100;
  max_bucket = some 100;
  payload_bytes = 4;
  payload = node;
}

abbrev one_pending : SpoolTables
one_pending = record { next_seq = 1; batches = row ∷ []; gaps = [] }

abbrev nothing_lost : ℕ → Option Error
nothing_lost i = none

abbrev at_150 : ℕ → ℕ
at_150 i = 150

abbrev empty_plane : AppState
empty_plane = record { poisoned = false; tables = empty_tables }

-- Another batch under the same sequence number.
abbrev rival : BatchEnvelope
rival = record batch { batch_id = bytes_of "node:boot:0:bbbbbbbbbbbbbbbb" }

abbrev stored_plane : AppState
stored_plane = record { poisoned = false; tables = stored }

rival_refused :
    (handle_ingest quiet_engine small_codec day rival 160 stored_plane).0
    ≡ err (conflict_status, words "batch identity conflict")
unfolding handle_ingest ingest_response ingest_at has_valid_checksum body_checksum transaction
    ingest_body prune_expired integer execute remove_expired_flows remove_expired_batches
    unexpired_flows unexpired_batches refers_to_expired ingest_pruned query find_checksum
    is_expired_id has_batch insert_new has_sequence
rival_refused = refl

handle_ingest-Conflicts_example : Conflicts rival (pruned (160 - 86400) stored)
handle_ingest-Conflicts_example =
    handle_ingest-Conflicts small_codec quiet_engine day rival 160 stored_plane
      (words "batch identity conflict") refl rival_refused

-- A codec that reads the batch back.
abbrev reading_codec : Codec
reading_codec = record small_codec { envelope_from_slice = λ content. some batch }

upload_once_safe_example :
    IsIn row
      (upload_once reading_codec no_faults
        (control_server reading_codec quiet_engine day at_150 nothing_lost)
        10
        (one_pending, record { state = empty_plane; log = [] })).1.0.batches
    ⊎ ((d : Delivery) × IsIn d
          (upload_once reading_codec no_faults
            (control_server reading_codec quiet_engine day at_150 nothing_lost)
            10
            (one_pending, record { state = empty_plane; log = [] })).1.1.log
        × Carries d.envelope row
        × IsTakenIn reading_codec quiet_engine day at_150 nothing_lost d)
upload_once_safe_example =
    upload_once_safe reading_codec quiet_engine day at_150 nothing_lost no_faults 10 one_pending
      empty_plane row (inl refl)
