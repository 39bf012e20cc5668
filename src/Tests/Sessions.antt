-- ===== src/Tests/Sessions.antt =====
-- Tests of src/main.rs and of the serving side of src/control.rs, and the calls, requests and
-- commands on which the theorems about them are applied.
use flow_observability.Base.{
  ◌+◌, ◌*◌, ◌<◌, ◌≡◌, ◌≢◌, refl, List, [], ◌∷◌, length, replicate, none, some, ok, arith, All,
  false,
}
use flow_observability.Base.Int.{pos}
use flow_observability.Model.{Text, SpoolStatus, BatchBody, default_diagnostics}
use flow_observability.Model.Envelope.{Codec}
use flow_observability.Sqlite.{integer}
use flow_observability.Spool.Tables.{SpoolTables}
use flow_observability.Spool.Methods.{EnqueueResult, enqueue}
use flow_observability.Spool.History.{born}
use flow_observability.Spool.Names.{Serialises}
use flow_observability.Spool.Room.{IsServiceable, enqueue_succeeds}
use flow_observability.Control.Tables.{ControlTables, refers}
use flow_observability.Control.Ingest.{ControlLimits, inserted}
use flow_observability.Control.Http.{AppState, ingest_response}
use flow_observability.Control.Soundness.{IsSound}
use flow_observability.Control.Serve.{
  Database, Arrival, Response, post_ingest, get_nodes, closed, ingest, respond, serve_all, serve,
  open_store, configure, div_ceil, stored_tables,
}
use flow_observability.Control.Requests.{serve-IsSound, respond-tables}
use flow_observability.Control.Opening.{open_store-within}
use flow_observability.Upload.{Server}
use flow_observability.Command.{
  LimitArgs, Command, synthetic_command, upload_once_command, World, Files, synthetic,
  printed_status, session, spool_limits, mib_bytes, hours_seconds,
}
use flow_observability.Command.Synthetic.{synthetic-returns}
use flow_observability.Command.Kept.{AreKept}
use flow_observability.Command.Session.{session_acks, session-AreKept}
use flow_observability.Tests.Captures.{healthy_file}
use flow_observability.Tests.Batches.{no_faults, node, boot, tight, bucket, small_codec}
use flow_observability.Tests.Deliveries.{batch, quiet_engine}

-- A codec that always serialises, to one byte.
abbrev short_codec : Codec
short_codec = record {
  body_to_vec = λ body. some body.node_id;
  hash_hex = λ content. replicate 64 b'a';
  envelope_to_vec = λ e. some (1 ∷ []);
  envelope_from_slice = λ content. none;
  length-hash_hex = λ content. refl;
}

short-Serialises : Serialises short_codec
short-Serialises = record {
  body_of = λ body. body.node_id;
  body_serialises = λ body. refl;
  payload_of = λ e. 1 ∷ [];
  envelope_serialises = λ e. refl;
  payload_fits = λ e. omega arith;
}

born-IsServiceable : IsServiceable short_codec tight (λ s. 0) born.tables
born-IsServiceable = record {
  room = record {
    accounted = λ s. ground arith;
    rows_fit = tt;
    within_budget = omega arith;
    budget_fits = omega arith;
    next_fits = omega arith;
  };
  named = tt;
}

-- The same identifier from two readings of its colons.
abbrev body_of : Text → Text → BatchBody
body_of node_id boot_id = record {
  schema_version = 1;
  node_id = node_id;
  boot_id = boot_id;
  seq = 7;
  created_at = 100;
  buckets = [];
  diagnostics = default_diagnostics;
}

enqueue_succeeds_example :
    (result : EnqueueResult) × (t' : SpoolTables) × (enqueue short_codec no_faults tight node boot
        100
        (bucket 90 ∷ [])
        default_diagnostics
        born.tables
      ≡ (ok result, t'))
    × (t'.next_seq ≡ 0 + 1)
    × IsServiceable short_codec tight (λ s. 0) t'
enqueue_succeeds_example =
    enqueue_succeeds short_codec no_faults tight node boot 100 (bucket 90 ∷ []) default_diagnostics
      born.tables (λ s. 0) short-Serialises (λ statement t. refl) (omega arith) (omega arith)
      (omega arith, tt) born-IsServiceable

synthetic-returns_example :
    (r : SpoolStatus) × (t' : SpoolTables) × (synthetic short_codec no_faults tight node 2
        (some 100)
        born.tables
      ≡ (ok (printed_status r), t'))
    × (t'.next_seq ≡ 0 + 2)
    × (r.pending_batches + r.gap_events ≡ 0 + 0 + 2)
synthetic-returns_example =
    synthetic-returns short_codec no_faults tight node short-Serialises (λ statement t. refl)
      (λ s. 0) 100 2 born.tables (omega arith) (omega arith) born-IsServiceable

-- A database of ten pages under a limit of a thousand.
abbrev roomy_limits : ControlLimits
roomy_limits = record { max_database_bytes = 4096000; max_age_seconds = 3600 }

abbrev ten_pages : Database
ten_pages = record {
  opened = ok tt;
  pragmas = ok tt;
  page_size = ok 4096;
  page_count = ok 10;
  limited = ok tt;
  created = ok tt;
}

abbrev empty_control : ControlTables
empty_control = stored_tables none

nothing_stored : IsSound empty_control
unfolding refers
nothing_stored = (tt, refl)

opens : open_store roomy_limits ten_pages none ≡ ok empty_control
unfolding open_store configure div_ceil integer
opens = refl

open_store-within_example :
    (0 < 4096000) × (0 < 3600) × (10 * 4096 < 4096000 + 4096) × (empty_control ≡ stored_tables none)
open_store-within_example =
    open_store-within roomy_limits ten_pages 4096 10 none empty_control refl refl opens

abbrev visits : List Arrival
visits =
    record { request = post_ingest batch; clock = some 150; engine = quiet_engine }
    ∷ record { request = post_ingest batch; clock = none; engine = quiet_engine }
    ∷ record { request = get_nodes; clock = some 151; engine = quiet_engine }
    ∷ []

abbrev visited : List Response × AppState
visited =
    serve_all small_codec roomy_limits visits (record { poisoned = false; tables = empty_control })

serves : serve small_codec roomy_limits ten_pages none (ok tt) visits ≡ ok (visited.0, visited.1)
unfolding serve open_store configure div_ceil integer
serves = refl

serve-IsSound_example :
    All (λ r. r ≢ closed) visited.0
    × (length visited.0 ≡ 3)
    × (visited.1.poisoned ≡ false)
    × IsSound visited.1.tables
serve-IsSound_example =
    serve-IsSound small_codec roomy_limits ten_pages none (ok tt) visits visited.0 visited.1
      nothing_stored serves

abbrev fresh_state : AppState
fresh_state = record { poisoned = false; tables = empty_control }

abbrev timeless : Arrival
timeless = record { request = post_ingest batch; clock = none; engine = quiet_engine }

respond-tables_example :
    (respond small_codec roomy_limits timeless fresh_state).1.tables ≡ empty_control
unfolding respond ingest ingest_response
respond-tables_example = respond-tables small_codec roomy_limits timeless fresh_state (λ ack e. cc)

-- An uploader that is always told that its batch was inserted.
abbrev agreeable : Server (Unit {0})
agreeable e s = (ok (record { batch_id = e.batch_id; status = inserted }), s)

abbrev world : World
world = record {
  spool_file = healthy_file;
  engine = no_faults;
  clock = some 100;
  default_boot_id = boot;
  device = ok (pos 1);
  ticks = [];
  database = ten_pages;
  bound = ok tt;
  arrivals = visits;
}

abbrev default_args : LimitArgs
default_args = record { max_spool_mib = 128; max_spool_hours = 24 }

-- The defaults of the options are the defaults of the library.
default_limits_agree :
    spool_limits default_args ≡ record { max_payload_bytes = 134217728; max_age_seconds = 86400 }
unfolding spool_limits mib_bytes hours_seconds
default_limits_agree = refl

abbrev no_files : Files (Unit {0})
no_files = record { spool = none; control = none; peer = tt }

abbrev commands : List (World × Command)
commands =
    (world, synthetic_command node 2 default_args)
    ∷ (world, upload_once_command 100 default_args)
    ∷ []

session-AreKept_example :
    AreKept
      (λ n. 0 + session_acks short_codec agreeable commands no_files n)
      (session short_codec agreeable commands no_files)
session-AreKept_example =
    session-AreKept short_codec agreeable commands no_files (λ n. 0)
      (record { recorded = λ s. ground arith; sound = nothing_stored })
