-- ===== src/Tests/Batches.antt =====
-- Tests of src/spool.rs with a small codec in place of serde_json and blake3, and the spools on
-- which its theorems are applied.
use flow_observability.Base.{
  ℕ, ◌+◌, ◌-◌, ◌<◌, ◌≡◌, ◌≢◌, ◌⊎◌, refl, List, [], ◌∷◌, ◌++◌, length, replicate, none, some, arith,
  Outcome, ok, panic,
}
use flow_observability.Model.{
  Text, bytes_of, egress, tcp, v4, FlowBucket, default_diagnostics, BatchEnvelope,
}
use flow_observability.Model.Envelope.{Codec, new_envelope, first_bytes, batch_id_of, decimal}
use flow_observability.Sqlite.{Error, integer, optional_integer, sum_column}
use flow_observability.Sqlite.Step.{query, execute, transaction}
use flow_observability.Spool.Tables.{
  SpoolTables, BatchRow, read_next_seq, increment_next_seq, place_batch, insert_row,
  first_candidate, optional_candidate, without_seq, place_gap, insert_gap_event,
}
use flow_observability.Spool.Evict.{
  SpoolLimits, SpoolEngine, insert_gap, eviction_reason, evict_one, evict_loop, enforce_limits,
}
use flow_observability.Spool.Methods.{
  EnqueueResult, bucket_range, enqueue, enqueue_body, store_batch,
}
use flow_observability.Spool.Bounds.{Within, enforce_limits-Within, enforce_limits-ne-panic}
use flow_observability.Spool.Retention.{IsIn, Kept}
use flow_observability.Spool.Enqueue.{Encoded, row_of, rejected_gap}
use flow_observability.Spool.Guarantees.{Accounted, enqueue_retains, enqueue_counts}
use flow_observability.Spool.History.{
  Call, enqueue_call, acknowledge_call, born, live, IsSound, live_accounts,
}

-- A body is its first bucket's start in unary, behind the node; a digest is 64 equal digits.
abbrev pub first_start : List FlowBucket → ℕ
first_start [] = 0
first_start (b ∷ buckets) = b.bucket_start

abbrev pub small_codec : Codec
small_codec = record {
  body_to_vec = λ body. some (body.node_id ++ (body.seq ∷ []));
  hash_hex = λ content. replicate 64 b'a';
  envelope_to_vec = λ e. some (e.body.node_id ++ replicate (first_start e.body.buckets) 0);
  envelope_from_slice = λ content. none;
  length-hash_hex = λ content. refl;
}

abbrev pub no_faults : SpoolEngine
no_faults statement t = none

abbrev pub bucket : ℕ → FlowBucket
bucket timestamp = record {
  bucket_start = timestamp;
  key = record {
    capture_point = bytes_of "physical:eth0";
    direction = egress;
    protocol = tcp;
    source_ip = v4 127 0 0 1;
    destination_ip = v4 1 1 1 1;
    source_port = some 40000;
    destination_port = some 443;
  };
  packets = 1;
  bytes = 100;
}

abbrev pub node : Text
node = bytes_of "node"

abbrev pub boot : Text
boot = bytes_of "boot"

-- 104 and 114 bytes do not fit 200.
abbrev pub tight : SpoolLimits
tight = record { max_payload_bytes = 200; max_age_seconds = 3600 }

abbrev enqueue_at : SpoolLimits → ℕ → ℕ → SpoolTables → Outcome Error EnqueueResult × SpoolTables
enqueue_at limits created start =
    enqueue small_codec no_faults limits node boot created (bucket start ∷ []) default_diagnostics

abbrev first_stored : SpoolTables
first_stored = (enqueue_at tight 100 100 born.tables).1

-- `byte_limit_evicts_oldest_and_records_gap`
byte_limit_evicts_oldest_and_records_gap :
    ((enqueue_at tight 110 110 first_stored).1.gaps
      ≡ record {
        seq = 0;
        min_bucket = some 100;
        max_bucket = some 100;
        lost_bytes = 104;
        reason = "spool_byte_limit";
        created_at = 110;
      }
        ∷ [])
    × (length (enqueue_at tight 110 110 first_stored).1.batches ≡ 1)
unfolding enqueue enqueue_body transaction query execute read_next_seq increment_next_seq
    new_envelope first_bytes batch_id_of decimal bucket_range store_batch insert_row place_batch
    integer optional_integer enforce_limits evict_loop evict_one sum_column first_candidate
    optional_candidate without_seq insert_gap insert_gap_event place_gap eviction_reason
byte_limit_evicts_oldest_and_records_gap = (refl, refl)

-- `age_limit_records_bucket_range`
abbrev ageing : SpoolLimits
ageing = record { max_payload_bytes = 1_000_000; max_age_seconds = 10 }

age_limit_records_bucket_range :
    (enqueue_at ageing 120 120 (enqueue_at ageing 100 90 born.tables).1).1.gaps
    ≡ record {
      seq = 0;
      min_bucket = some 90;
      max_bucket = some 90;
      lost_bytes = 94;
      reason = "spool_age_limit";
      created_at = 120;
    }
      ∷ []
unfolding enqueue enqueue_body transaction query execute read_next_seq increment_next_seq
    new_envelope first_bytes batch_id_of decimal bucket_range store_batch insert_row place_batch
    integer optional_integer enforce_limits evict_loop evict_one sum_column first_candidate
    optional_candidate without_seq insert_gap insert_gap_event place_gap eviction_reason
age_limit_records_bucket_range = refl

abbrev enqueue_calls : List Call
enqueue_calls =
    enqueue_call node boot 100 (bucket 100 ∷ []) default_diagnostics no_faults
    ∷ enqueue_call node boot 110 (bucket 110 ∷ []) default_diagnostics no_faults
    ∷ acknowledge_call (bytes_of "node:boot:1:aaaaaaaaaaaaaaaa") (replicate 64 b'a') no_faults
    ∷ []

live_accounts_example : IsSound tight (live small_codec tight enqueue_calls born)
live_accounts_example = live_accounts small_codec tight enqueue_calls

born-Accounted : Accounted (λ s. 0) born.tables
born-Accounted s = ground arith

-- The first batch of an empty spool.
abbrev first_result : EnqueueResult
first_result = record { batch_id = bytes_of "node:boot:0:aaaaaaaaaaaaaaaa"; evicted_batches = 0 }

first_enqueue : enqueue_at tight 100 100 born.tables ≡ (ok first_result, first_stored)
unfolding enqueue enqueue_body transaction query execute read_next_seq increment_next_seq
    new_envelope first_bytes batch_id_of decimal bucket_range store_batch insert_row place_batch
    integer optional_integer enforce_limits evict_loop evict_one sum_column first_candidate
    optional_candidate
first_enqueue = refl

enqueue_counts_example :
    (length first_stored.gaps ≡ length born.tables.gaps + first_result.evicted_batches)
    × (length first_stored.batches + first_result.evicted_batches ≡ length born.tables.batches + 1)
    × (first_stored.next_seq ≡ born.tables.next_seq + 1)
enqueue_counts_example =
    enqueue_counts small_codec no_faults tight node boot 100 (bucket 100 ∷ []) default_diagnostics
      born.tables (λ s. 0) first_result first_stored born-Accounted first_enqueue

enqueue_retains_example :
    ((r : BatchRow) → IsIn r born.tables.batches → Kept tight (100 - 3600) 100 r first_stored)
    × ((e : BatchEnvelope) × (payload : Text) × Encoded small_codec no_faults tight node boot 100
          (bucket 100 ∷ [])
          default_diagnostics
          born.tables
          e
          payload
        × (Kept tight (100 - 3600) 100 (row_of 0 100 (bucket 100 ∷ []) e payload) first_stored
            ⊎ ((tight.max_payload_bytes < length payload)
                × IsIn (rejected_gap 0 100 (bucket 100 ∷ []) payload) first_stored.gaps)))
enqueue_retains_example =
    enqueue_retains small_codec no_faults tight node boot 100 (bucket 100 ∷ []) default_diagnostics
      born.tables (λ s. 0) first_result first_stored born-Accounted first_enqueue

enforce_limits-ne-panic_example : enforce_limits no_faults tight 100 born.tables ≢ panic
enforce_limits-ne-panic_example = enforce_limits-ne-panic no_faults tight 100 born.tables

-- One old row: it is evicted.
abbrev old_row : BatchRow
old_row = record {
  seq = 0;
  batch_id = bytes_of "old";
  checksum = [];
  created_at = 5;
  min_bucket = some 0;
  max_bucket = some 0;
  payload_bytes = 7;
  payload = replicate 7 0;
}

abbrev swept_tables : SpoolTables
swept_tables = record {
  next_seq = 1;
  batches = [];
  gaps =
      record {
        seq = 0;
        min_bucket = some 0;
        max_bucket = some 0;
        lost_bytes = 7;
        reason = "spool_age_limit";
        created_at = 4000;
      }
      ∷ [];
}

old_row_evicted :
    enforce_limits no_faults tight 4000 (record { next_seq = 1; batches = old_row ∷ []; gaps = [] })
    ≡ ok (1, swept_tables)
unfolding query execute integer optional_integer enforce_limits evict_loop evict_one sum_column
    first_candidate optional_candidate without_seq insert_gap insert_gap_event place_gap
    eviction_reason
old_row_evicted = refl

enforce_limits-Within_example : Within tight (4000 - 3600) swept_tables
enforce_limits-Within_example =
    enforce_limits-Within no_faults tight 4000
      (record { next_seq = 1; batches = old_row ∷ []; gaps = [] }) 1 swept_tables old_row_evicted
