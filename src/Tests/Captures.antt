-- ===== src/Tests/Captures.antt =====
-- Tests of src/capture.rs over a scripted libpcap and clock, and the runs on which its theorems are
-- applied.
use flow_observability.Base.{
  ℕ, ◌+◌, ◌<◌, ◌≡◌, ◌≢◌, ◌⊎◌, refl, List, [], ◌∷◌, Option, none, some, true, Outcome, ok, err,
  panic, arith,
}
use flow_observability.Base.Int.{pos}
use flow_observability.Model.{protocol_from_u8}
use flow_observability.Model.KeyOrder.{flow_key_ord}
use flow_observability.Model.Envelope.{new_envelope, first_bytes, batch_id_of, decimal}
use flow_observability.Packet.{
  parse_packet, packet_meta, ip_offset, skip_vlan, require, byte_at, be16_at, parse_ip, parse_ipv4,
  ipv4_fields, ipv4_at, parse_ports, direction,
}
use flow_observability.Packet.Address.{contains}
use flow_observability.SortedMap.{upsert, keys_below, split_off}
use flow_observability.Aggregate.{
  u64_mod, new, push, to_buckets, bucket_of, count_packet, drain_before, drain_all,
}
use flow_observability.Aggregate.Stream.{packets, bytes}
use flow_observability.Sqlite.{Error, integer, optional_integer, sum_column}
use flow_observability.Sqlite.Step.{query, execute, transaction}
use flow_observability.Spool.Tables.{
  SpoolTables, read_next_seq, increment_next_seq, place_batch, insert_row, first_candidate,
  optional_candidate, read_status,
}
use flow_observability.Spool.Evict.{SpoolLimits, evict_one, evict_loop, enforce_limits}
use flow_observability.Spool.Methods.{
  bucket_range, enqueue, enqueue_body, store_batch, max_page_count, created_tables, status,
}
use flow_observability.Spool.Opening.{SpoolFile, open_spool}
use flow_observability.Spool.History.{born, IsSound, live, live_accounts}
use flow_observability.Capture.{
  CaptureConfig, CaptureState, packet, Tick, Turn, again, stop, as_u64, diagnostics_since, is_last,
  absorb, receive, flush_rest, after_batch, emit_batch, drain_ended, turn, turns, run,
}
use flow_observability.Capture.Ledger
use flow_observability.Capture.Ledger.{run-IsSound}
use flow_observability.Capture.Account.{Batch, sum_added, all_packets}
use flow_observability.Capture.Guarantees.{
  Fits, Delivered, Finishes, run_accounts, run-Finishes, run_limits,
}
use flow_observability.Capture.Total.{run-ne-panic}
use flow_observability.Tests.Frames.{tcp_frame, tcp_key, local_ips, eth0}
use flow_observability.Tests.Batches.{small_codec, no_faults, node, boot}

abbrev pub healthy_file : SpoolFile
healthy_file = record {
  opened = ok tt;
  pragmas = ok tt;
  page_size = ok 4096;
  limited = ok tt;
  created = ok tt;
}

abbrev roomy : SpoolLimits
roomy = record { max_payload_bytes = 1000; max_age_seconds = 3600 }

abbrev agent_config : Option ℕ → CaptureConfig
agent_config maximum = record {
  local_ips = local_ips;
  node_id = node;
  boot_id = boot;
  capture_point = eth0;
  bucket_seconds = 10;
  limits = roomy;
  max_batches = maximum;
}

-- A packet in the bucket of 100, a packet in that of 110, when the first has ended, and a frame
-- that is cut short.
abbrev script : List Tick
script =
    record {
      next = packet (record { tv_sec = pos 103; len = 60; bytes = tcp_frame });
      clock = some 104;
      stats = some (record { received = 1; dropped = 0; if_dropped = 0 });
      engine = no_faults;
      stdout_open = true;
      last_clock = some 104;
      last_engine = no_faults;
    }
    ∷ record {
      next = packet (record { tv_sec = pos 112; len = 40; bytes = [] });
      clock = some 109;
      stats = some (record { received = 2; dropped = 0; if_dropped = 0 });
      engine = no_faults;
      stdout_open = true;
      last_clock = some 109;
      last_engine = no_faults;
    }
    ∷ record {
      next = packet (record { tv_sec = pos 112; len = 70; bytes = tcp_frame });
      clock = some 113;
      stats = some (record { received = 3; dropped = 1; if_dropped = 0 });
      engine = no_faults;
      stdout_open = true;
      last_clock = some 114;
      last_engine = no_faults;
    }
    ∷ []

abbrev tables_of : Outcome Error Turn → SpoolTables
tables_of (ok (again u)) = u.tables
tables_of (ok (stop result t)) = t
tables_of (err e) = born.tables
tables_of panic = born.tables

abbrev scripted : Option ℕ → Outcome Error Turn
scripted maximum = run small_codec (agent_config maximum) (ok (pos 1)) healthy_file none script

-- The third round hands over the bucket of 100 and goes on with that of 110.
abbrev left : CaptureState
left = record {
  aggregator = record { bucket_seconds = 10; flows = ((110, tcp_key), (1, 70)) ∷ [] };
  parse_errors = 0;
  prior_stats = record { received = 3; dropped = 1; if_dropped = 0 };
  emitted = 1;
  tables = tables_of (scripted none);
}

goes_on : scripted none ≡ ok (again left)
unfolding run open_spool max_page_count integer new turns turn receive absorb as_u64 parse_packet
    packet_meta ip_offset skip_vlan require byte_at be16_at parse_ip parse_ipv4 ipv4_fields ipv4_at
    parse_ports protocol_from_u8 direction contains push upsert bucket_of count_packet flow_key_ord
    drain_ended drain_before drain_all keys_below split_off to_buckets emit_batch diagnostics_since
    after_batch is_last flush_rest enqueue enqueue_body transaction query execute read_next_seq
    increment_next_seq new_envelope first_bytes batch_id_of decimal bucket_range store_batch
    insert_row place_batch optional_integer enforce_limits evict_loop evict_one sum_column
    first_candidate optional_candidate status read_status
goes_on = refl

finishes : scripted (some 1) ≡ ok (stop (ok tt) (tables_of (scripted (some 1))))
unfolding run open_spool max_page_count integer new turns turn receive absorb as_u64 parse_packet
    packet_meta ip_offset skip_vlan require byte_at be16_at parse_ip parse_ipv4 ipv4_fields ipv4_at
    parse_ports protocol_from_u8 direction contains push upsert bucket_of count_packet flow_key_ord
    drain_ended drain_before drain_all keys_below split_off to_buckets emit_batch diagnostics_since
    after_batch is_last flush_rest enqueue enqueue_body transaction query execute read_next_seq
    increment_next_seq new_envelope first_bytes batch_id_of decimal bucket_range store_batch
    insert_row place_batch optional_integer enforce_limits evict_loop evict_one sum_column
    first_candidate optional_candidate status read_status
finishes = refl

script-Fits : (maximum : Option ℕ) → Fits small_codec (agent_config maximum) (pos 1) script
unfolding parse_packet packet_meta ip_offset skip_vlan require byte_at be16_at parse_ip parse_ipv4
    ipv4_fields ipv4_at parse_ports protocol_from_u8 direction contains as_u64
script-Fits maximum = record {
  counters_fit = λ which.
      elim which
        as (λ k.
          sum_added k (all_packets small_codec (agent_config maximum) (pos 1) script) < u64_mod) [
            | packets ↦ omega arith
            | bytes ↦ omega arith
          ];
  errors_fit = omega arith;
  count_fits = omega arith;
}

run_accounts_example :
    (batches : List Batch) × Delivered small_codec
      (agent_config none)
      (pos 1)
      script
      (created_tables none)
      left
      batches
run_accounts_example =
    run_accounts small_codec (agent_config none) (pos 1) healthy_file none script left
      (script-Fits none) goes_on

run-Finishes_example :
    Finishes small_codec
      (agent_config (some 1))
      (pos 1)
      script
      (created_tables none)
      (tables_of (scripted (some 1)))
run-Finishes_example =
    run-Finishes small_codec (agent_config (some 1)) (pos 1) healthy_file none script
      (tables_of (scripted (some 1))) (script-Fits (some 1)) finishes

goes_on_two : scripted (some 2) ≡ ok (again left)
unfolding run open_spool max_page_count integer new turns turn receive absorb as_u64 parse_packet
    packet_meta ip_offset skip_vlan require byte_at be16_at parse_ip parse_ipv4 ipv4_fields ipv4_at
    parse_ports protocol_from_u8 direction contains push upsert bucket_of count_packet flow_key_ord
    drain_ended drain_before drain_all keys_below split_off to_buckets emit_batch diagnostics_since
    after_batch is_last flush_rest enqueue enqueue_body transaction query execute read_next_seq
    increment_next_seq new_envelope first_bytes batch_id_of decimal bucket_range store_batch
    insert_row place_batch optional_integer enforce_limits evict_loop evict_one sum_column
    first_candidate optional_candidate status read_status
goes_on_two = refl

run_limits_example : (left.tables.next_seq ≡ 0) ⊎ (left.tables.next_seq < 0 + 2)
run_limits_example =
    run_limits small_codec (agent_config (some 2)) (pos 1) healthy_file 2 none script left refl
      (script-Fits (some 2)) goes_on_two

run-ne-panic_example :
    (scripted none ≢ panic) × ((t : SpoolTables) → scripted none ≢ ok (stop panic t))
run-ne-panic_example =
    run-ne-panic small_codec (agent_config none) (ok (pos 1)) healthy_file none script (omega arith)
      (record {
        opens = λ e. cc;
        sets = λ e. cc;
        reads = λ e. cc;
        positive = λ e. ground (arith, e);
        limits_pages = λ e. cc;
        creates = λ e. cc;
      })
      (λ e. cc) (refl, (refl, (refl, tt)))

goes_on_stored :
    run small_codec (agent_config none) (ok (pos 1)) healthy_file (some born.tables) script
    ≡ ok (again left)
unfolding run open_spool max_page_count integer new turns turn receive absorb as_u64 parse_packet
    packet_meta ip_offset skip_vlan require byte_at be16_at parse_ip parse_ipv4 ipv4_fields ipv4_at
    parse_ports protocol_from_u8 direction contains push upsert bucket_of count_packet flow_key_ord
    drain_ended drain_before drain_all keys_below split_off to_buckets emit_batch diagnostics_since
    after_batch is_last flush_rest enqueue enqueue_body transaction query execute read_next_seq
    increment_next_seq new_envelope first_bytes batch_id_of decimal bucket_range store_batch
    insert_row place_batch optional_integer enforce_limits evict_loop evict_one sum_column
    first_candidate optional_candidate status read_status
goes_on_stored = refl

run-IsSound_example : IsSound roomy (record born { tables = Ledger.tables_of (again left) })
unfolding live
run-IsSound_example =
    run-IsSound small_codec (agent_config none) (ok (pos 1)) healthy_file born script (again left)
      (live_accounts small_codec roomy []) goes_on_stored
