-- ===== src/Command.antt =====
-- src/main.rs: the commands with what each of them meets outside. Parsing the options (clap) is not
-- modelled, nor is printing: a command returns what it prints. Paths, the address and the URL only
-- name what SQLite, the network and libpcap open.
pub mod Records
pub mod Kept
pub mod Session
pub mod Synthetic
use mathlib.Core.Option
use flow_observability.Base.{
  ℕ, zero, suc, ◌+◌, ◌*◌, ◌%◌, ◌^◌, List, [], ◌∷◌, Option, none, some, Outcome, ok, err, panic,
}
use flow_observability.Base.Int.{ℤ}
use flow_observability.Model.{
  Text, bytes_of, egress, tcp, IpAddr, v4, FlowKey, FlowBucket, GapEvent, SpoolStatus,
  default_diagnostics,
}
use flow_observability.Model.Envelope.{Codec}
use flow_observability.Sqlite.{Error, anyhow}
use flow_observability.Spool.Tables.{SpoolTables}
use flow_observability.Spool.Evict.{SpoolLimits, SpoolEngine}
use flow_observability.Spool.Opening.{SpoolFile, open_spool}
use flow_observability.Spool.Methods.{Spool, created_tables, enqueue, status, gaps}
use flow_observability.Upload.{Server, upload_once}
use flow_observability.Aggregate.{u64_mod}
use flow_observability.Capture
use flow_observability.Capture.{CaptureConfig, Tick, Turn, again, stop}
use flow_observability.Control.Tables.{ControlTables}
use flow_observability.Control.Ingest.{ControlLimits}
use flow_observability.Control.Serve.{Database, Arrival, Response, serve}
use flow_observability.Control.Http.{AppState}

pub record LimitArgs : Type 0 where
  pub max_spool_mib : ℕ
  pub max_spool_hours : ℕ

pub record ControlLimitArgs : Type 0 where
  pub max_control_mib : ℕ
  pub max_control_hours : ℕ

-- `a * 1024 * 1024` and `a * 60 * 60` on `u64`
unfoldable pub mib_bytes : ℕ → ℕ
mib_bytes a = ((a * 1024) % u64_mod * 1024) % u64_mod

unfoldable pub hours_seconds : ℕ → ℕ
hours_seconds a = ((a * 60) % u64_mod * 60) % u64_mod

-- `LimitArgs::limits` and `ControlLimitArgs::limits`
unfoldable pub spool_limits : LimitArgs → SpoolLimits
unfolding mib_bytes hours_seconds
spool_limits a = record {
  max_payload_bytes = mib_bytes a.max_spool_mib;
  max_age_seconds = hours_seconds a.max_spool_hours;
}

unfoldable pub control_limits : ControlLimitArgs → ControlLimits
unfolding mib_bytes hours_seconds
control_limits a = record {
  max_database_bytes = mib_bytes a.max_control_mib;
  max_age_seconds = hours_seconds a.max_control_hours;
}

pub data Command : Type 0 where
  serve_command : ControlLimitArgs → Command
  synthetic_command : (node : Text) (batches : ℕ) → LimitArgs → Command
  upload_once_command : (limit : ℕ) → LimitArgs → Command
  status_command : LimitArgs → Command
  gaps_command : LimitArgs → Command
  capture_command :
      (local_ip : List IpAddr) (node capture_point : Text) (boot_id : Option Text)
      (bucket_seconds : ℕ) (max_batches : Option ℕ)
      → LimitArgs
      → Command

-- What a command prints.
pub data Printed : Type 0 where
  nothing : Printed
  printed_status : SpoolStatus → Printed
  printed_gaps : List GapEvent → Printed
  printed_report : (acknowledged : ℕ) → SpoolStatus → Printed

-- A command returns, or it is still running where the readings of its loop end.
pub data Exit : Type 0 where
  returned : Outcome Error Printed → Exit
  running : Exit

-- `40000 + index as u16`
abbrev pub synthetic_port : (index : ℕ) → ℕ
synthetic_port index = (40000 + index % 2 ^ 16) % 2 ^ 16

-- The bucket of a synthetic batch.
unfoldable pub synthetic_bucket : (now index : ℕ) → FlowBucket
synthetic_bucket now index = record {
  bucket_start = (now + (index * 10) % u64_mod) % u64_mod;
  key = record {
    capture_point = bytes_of "synthetic:fixture";
    direction = egress;
    protocol = tcp;
    source_ip = v4 10 0 0 2;
    destination_ip = v4 1 1 1 1;
    source_port = some (synthetic_port index);
    destination_port = some 443;
  };
  packets = (10 + index) % u64_mod;
  bytes = (1000 + (index * 100) % u64_mod) % u64_mod;
}

abbrev pub synthetic_boot : Text
synthetic_boot = bytes_of "synthetic-boot"

module _ (codec : Codec) (engine : SpoolEngine) where
  -- The loop from `index` on, over the `count` indices that are left.
  unfoldable pub synthetic_loop :
      SpoolLimits
      → (node : Text) (now count index : ℕ) → SpoolTables
      → Outcome Error (Unit {0}) × SpoolTables
  unfolding synthetic_bucket
  synthetic_loop limits node now zero index t = (ok tt, t)
  synthetic_loop limits node now (suc count) index t =
      let bucket = synthetic_bucket now index in
      let outcome =
        enqueue codec engine limits node synthetic_boot bucket.bucket_start (bucket ∷ [])
          default_diagnostics t in
      elim outcome.0 [
        | ok result ↦ synthetic_loop limits node now count (index + 1) outcome.1
        | err e ↦ (err e, outcome.1)
        | panic ↦ (panic, outcome.1)
      ]

  -- `println!("{}", serde_json::to_string(&spool.status()?)?)`
  abbrev pub print_status : SpoolTables → Outcome Error Printed
  print_status t = elim (status codec engine t) [
    | ok r ↦ ok (printed_status r.0)
    | err e ↦ err e
    | panic ↦ panic
  ]

  -- `synthetic`, behind the opening of the spool
  unfoldable pub synthetic :
      SpoolLimits
      → (node : Text) (batches : ℕ) (clock : Option ℕ) → SpoolTables
      → Outcome Error Printed × SpoolTables
  unfolding synthetic_loop
  synthetic limits node batches clock t = elim clock [
    | none ↦ (err (anyhow "system clock is before Unix epoch"), t)
    | some now ↦
        let looped = synthetic_loop limits node now batches 0 t in
        elim looped.0 [
          | ok done ↦ (print_status looped.1, looped.1)
          | err e ↦ (err e, looped.1)
          | panic ↦ (panic, looped.1)
        ]
  ]

-- What the commands meet outside: the file of the spool, the engine, the clock, the identifier of
-- this boot, libpcap, the listener and the file of the control plane, and its requests.
pub record World : Type 0 where
  pub spool_file : SpoolFile
  pub engine : SpoolEngine
  pub clock : Option ℕ
  pub default_boot_id : Text
  pub device : Outcome Error ℤ
  pub ticks : List Tick
  pub database : Database
  pub bound : Outcome Error (Unit {0})
  pub arrivals : List Arrival

-- The files of the spool and of the control plane, and the other side of the uploader. A file
-- without tables is `none`; to a command it is like one with empty tables.
pub record Files (S : Type 0) : Type 0 where
  pub spool : Option SpoolTables
  pub control : Option ControlTables
  pub peer : S

-- What a running or finished capture leaves.
abbrev pub captured : Outcome Error Turn → SpoolTables → Exit × SpoolTables
captured (ok (again s)) t = (running, s.tables)
captured (ok (stop (ok done) t')) t = (returned (ok nothing), t')
captured (ok (stop (err e) t')) t = (returned (err e), t')
captured (ok (stop panic t')) t = (returned panic, t')
captured (err e) t = (returned (err e), t)
captured panic t = (returned panic, t)

abbrev pub served :
    {S : Type 0} → Outcome Error (List Response × AppState) → Files S → Exit × Files S
served (ok (responses, state)) files = (running, record files { control = some state.tables })
served (err e) files = (returned (err e), files)
served panic files = (returned panic, files)

-- `Spool::open(…)?` before the rest of a command. The files stay as they were where it fails.
abbrev pub with_spool :
    {S : Type 0}
    → World
    → LimitArgs
    → (SpoolTables → S → Exit × (SpoolTables × S))
    → Files S
    → Exit × Files S
with_spool world args body files =
    elim (open_spool (spool_limits args) world.spool_file files.spool) [
      | err e ↦ (returned (err e), files)
      | panic ↦ (returned panic, files)
      | ok spool ↦
          let done = body spool.tables files.peer in
          (done.0, record files { spool = some done.1.0; peer = done.1.1 })
    ]

-- The options of `capture`, with the identifier of this boot where none is given.
abbrev pub capture_config :
    World
    → (local_ip : List IpAddr) (node capture_point : Text) (boot_id : Option Text)
      (bucket_seconds : ℕ) (max_batches : Option ℕ)
    → LimitArgs
    → CaptureConfig
capture_config world local_ip node point boot_id seconds max_batches args = record {
  local_ips = local_ip;
  node_id = node;
  boot_id = Option.get_or boot_id world.default_boot_id;
  capture_point = point;
  bucket_seconds = seconds;
  limits = spool_limits args;
  max_batches = max_batches;
}

module _ {S : Type 0} (codec : Codec) (server : Server S) (world : World) where
  -- `upload_once`, behind the opening of the spool, with its report.
  unfoldable pub upload_and_report : (limit : ℕ) → SpoolTables → S → Exit × (SpoolTables × S)
  unfolding upload_once
  upload_and_report limit t s =
      let uploaded = upload_once codec world.engine server limit (t, s) in
      elim uploaded.0 [
        | err e ↦ (returned (err e), uploaded.1)
        | panic ↦ (returned panic, uploaded.1)
        | ok acknowledged ↦ elim (status codec world.engine uploaded.1.0) [
          | ok r ↦ (returned (ok (printed_report acknowledged r.0)), uploaded.1)
          | err e ↦ (returned (err e), uploaded.1)
          | panic ↦ (returned panic, uploaded.1)
        ]
      ]

  -- `println!("{}", serde_json::to_string(&spool.gaps()?)?)`
  abbrev pub print_gaps : SpoolTables → Outcome Error Printed
  print_gaps t = elim (gaps codec world.engine t) [
    | ok r ↦ ok (printed_gaps r.0)
    | err e ↦ err e
    | panic ↦ panic
  ]

  -- The commands on an opened spool.
  abbrev pub run_synthetic :
      SpoolLimits → (node : Text) (batches : ℕ) → SpoolTables → S → Exit × (SpoolTables × S)
  run_synthetic limits node batches t s =
      let done = synthetic codec world.engine limits node batches world.clock t in
      (returned done.0, (done.1, s))

  abbrev pub run_status : SpoolTables → S → Exit × (SpoolTables × S)
  run_status t s = (returned (print_status codec world.engine t), (t, s))

  abbrev pub run_gaps : SpoolTables → S → Exit × (SpoolTables × S)
  run_gaps t s = (returned (print_gaps t), (t, s))

  -- `main`: what a command comes to, and the files that it leaves.
  unfoldable pub main : Command → Files S → Exit × Files S
  unfolding synthetic spool_limits control_limits upload_and_report
  main (serve_command args) files =
      served
        (serve codec (control_limits args) world.database files.control world.bound world.arrivals)
        files
  main (synthetic_command node batches args) files =
      with_spool world args (run_synthetic (spool_limits args) node batches) files
  main (upload_once_command limit args) files =
      with_spool world args (upload_and_report limit) files
  main (status_command args) files = with_spool world args run_status files
  main (gaps_command args) files = with_spool world args run_gaps files
  main (capture_command local_ip node point boot_id seconds max_batches args) files =
      let config = capture_config world local_ip node point boot_id seconds max_batches args in
      let after =
        captured (Capture.run codec config world.device world.spool_file files.spool world.ticks)
          (created_tables files.spool) in
      (after.0, record files { spool = some after.1 })

module _ {S : Type 0} (codec : Codec) (server : Server S) where
  -- Commands one behind another, each in a world of its own.
  unfoldable pub session : List (World × Command) → Files S → Files S
  unfolding main
  session [] files = files
  session ((world, command) ∷ commands) files =
      session commands (main codec server world command files).1
