-- ===== src/Capture.antt =====
-- src/capture.rs: the loop of the agent over libpcap, the clock, the aggregator and the spool. What
-- the loop reads from outside in one round is a `Tick`; where the ticks end, the loop is still
-- running. Of the report of a batch the query that it makes is modelled, and that printing it panics
-- where the standard output is closed.
pub mod Ledger
pub mod Rounds
pub mod Ended
pub mod Account
pub mod Absorb
pub mod OneRound
pub mod Conservation
pub mod Guarantees
pub mod Total
use flow_observability.Base.{
  ℕ, ◌+◌, ◌-◌, ◌*◌, ◌/◌, ◌%◌, ◌^◌, Bool, false, List, [], ◌∷◌, Option, none, some, leb, ◌==◌,
  if◌then◌else◌, Outcome, ok, err, panic,
}
use flow_observability.Base.Int.{ℤ, pos, negsuc}
use flow_observability.Model.{Text, IpAddr, FlowBucket, CaptureDiagnostics, default_diagnostics}
use flow_observability.Model.Envelope.{Codec}
use flow_observability.Packet.{PacketMeta, PacketError, parse_packet}
use flow_observability.Aggregate.{Aggregator, u64_mod, new, push, drain_before, drain_all}
use flow_observability.Sqlite.{Error, anyhow}
use flow_observability.Spool.Tables.{SpoolTables}
use flow_observability.Spool.Evict.{SpoolLimits, SpoolEngine}
use flow_observability.Spool.Opening.{SpoolFile, open_spool}
use flow_observability.Spool.Methods.{Spool, EnqueueResult, enqueue, status}

-- The interface and the path of the spool only name what libpcap and SQLite open.
pub record CaptureConfig : Type 0 where
  pub local_ips : List IpAddr
  pub node_id : Text
  pub boot_id : Text
  pub capture_point : Text
  pub bucket_seconds : ℕ
  pub limits : SpoolLimits
  pub max_batches : Option ℕ

-- `pcap::Packet`: the seconds of its time stamp (an `i64`), its length on the wire, its bytes.
pub record Packet : Type 0 where
  pub tv_sec : ℤ
  pub len : ℕ
  pub bytes : List ℕ

-- What `next_packet` returns.
pub data Next : Type 0 where
  packet : Packet → Next
  timeout_expired : Next
  pcap_error : Next

-- Received, dropped, and dropped by the interface.
pub record Stats : Type 0 where
  pub received : ℕ
  pub dropped : ℕ
  pub if_dropped : ℕ

-- One round: what `next_packet` returns, the reading of the clock, the statistics of libpcap, which
-- statements of the spool fail, and for the last batch the clock and the statements once more. A
-- clock before 1970 and statistics that libpcap refuses are `none`. `stdout_open` says whether
-- `println!` can write the report of the round.
pub record Tick : Type 0 where
  pub next : Next
  pub clock : Option ℕ
  pub stats : Option Stats
  pub engine : SpoolEngine
  pub stdout_open : Bool
  pub last_clock : Option ℕ
  pub last_engine : SpoolEngine

pub record CaptureState : Type 0 where
  pub aggregator : Aggregator
  pub parse_errors : ℕ
  pub prior_stats : Stats
  pub emitted : ℕ
  pub tables : SpoolTables

-- A round goes on to the next one, or `run` returns and leaves the tables.
pub data Turn : Type 0 where
  again : CaptureState → Turn
  stop : Outcome Error (Unit {0}) → SpoolTables → Turn

-- `tv_sec as u64`
unfoldable pub as_u64 : ℤ → ℕ
as_u64 (pos n) = n
as_u64 (negsuc n) = u64_mod - 1 - n

-- `saturating_sub` of the statistics, which libpcap counts from the start
unfoldable pub diagnostics_since : Stats → Stats → (parse_errors : ℕ) → CaptureDiagnostics
diagnostics_since prior current parse_errors = record {
  received = current.received - prior.received;
  dropped = current.dropped - prior.dropped;
  interface_dropped = current.if_dropped - prior.if_dropped;
  parse_errors = parse_errors;
}

-- `config.max_batches.is_some_and(|maximum| emitted >= maximum)`
unfoldable pub is_last : Option ℕ → ℕ → Bool
is_last none emitted = false
is_last (some maximum) emitted = leb maximum emitted

-- `now / config.bucket_seconds * config.bucket_seconds`
abbrev pub current_bucket : (bucket_seconds now : ℕ) → ℕ
current_bucket bucket_seconds now = now / bucket_seconds * bucket_seconds

clock_error : Error
clock_error = anyhow "system clock is before Unix epoch"

-- `match parse_packet(…)`
unfoldable pub absorb :
    CaptureState → Outcome PacketError (Option PacketMeta) → Outcome Error CaptureState
absorb s (ok (some m)) = ok (record s { aggregator = push s.aggregator m })
absorb s (ok none) = ok s
absorb s (err e) = ok (record s { parse_errors = (s.parse_errors + 1) % u64_mod })
absorb s panic = panic

module _ (codec : Codec) (config : CaptureConfig) (link_type : ℤ) where
  -- `match capture.next_packet()`
  unfoldable pub receive : Next → CaptureState → Outcome Error CaptureState
  unfolding as_u64 absorb
  receive (packet p) s =
      absorb s (
        parse_packet p.bytes link_type (as_u64 p.tv_sec) p.len config.capture_point
          config.local_ips)
  receive timeout_expired s = ok s
  receive pcap_error s = err (anyhow "pcap")

  -- The last batch: what the aggregator still holds, if anything.
  unfoldable pub flush_rest : Tick → CaptureState → Turn
  unfolding clock_error
  flush_rest tick s = elim (drain_all s.aggregator).1 [
    | [] ↦ stop (ok tt) s.tables
    | b ∷ buckets ↦ elim tick.last_clock [
      | none ↦ stop (err clock_error) s.tables
      | some now ↦
          let outcome =
            enqueue codec tick.last_engine config.limits config.node_id config.boot_id now
              (b ∷ buckets) default_diagnostics s.tables in
          elim outcome.0 [
            | ok result ↦ stop (ok tt) outcome.1
            | err e ↦ stop (err e) outcome.1
            | panic ↦ stop panic outcome.1
          ]
    ]
  ]

  -- The round behind `spool.enqueue`.
  unfoldable pub after_batch : Tick → CaptureState → Outcome Error EnqueueResult → Turn
  after_batch tick s (err e) = stop (err e) s.tables
  after_batch tick s panic = stop panic s.tables
  after_batch tick s (ok result) = elim (status codec tick.engine s.tables) [
    | err e ↦ stop (err e) s.tables
    | panic ↦ stop panic s.tables
    | ok report ↦
        let emitted = (s.emitted + 1) % u64_mod in
        if tick.stdout_open
        then if is_last config.max_batches emitted
          then flush_rest tick (record s { emitted = emitted })
          else again (record s { emitted = emitted })
        else stop panic s.tables
  ]

  -- A batch of buckets that have ended, with the diagnostics since the batch before.
  unfoldable pub emit_batch : Tick → (now : ℕ) → List FlowBucket → CaptureState → Turn
  unfolding after_batch
  emit_batch tick now buckets s = elim tick.stats [
    | none ↦ stop (err (anyhow "pcap stats")) s.tables
    | some current ↦
        let outcome =
          enqueue codec tick.engine config.limits config.node_id config.boot_id now buckets
            (diagnostics_since s.prior_stats current s.parse_errors) s.tables in
        after_batch tick (record s { prior_stats = current; parse_errors = 0; tables = outcome.1 })
          outcome.0
  ]

  -- The round behind the reading of the clock.
  unfoldable pub drain_ended : Tick → (now : ℕ) → CaptureState → Turn
  unfolding emit_batch
  drain_ended tick now s =
      let drained = drain_before s.aggregator (current_bucket config.bucket_seconds now) in
      elim drained.1 [
        | [] ↦ again (record s { aggregator = drained.0 })
        | b ∷ buckets ↦ emit_batch tick now (b ∷ buckets) (record s { aggregator = drained.0 })
      ]

  -- One round of the loop.
  unfoldable pub turn : Tick → CaptureState → Turn
  unfolding receive drain_ended clock_error
  turn tick s = elim (receive tick.next s) [
    | err e ↦ stop (err e) s.tables
    | panic ↦ stop panic s.tables
    | ok s' ↦ elim tick.clock [
      | none ↦ stop (err clock_error) s'.tables
      | some now ↦ drain_ended tick now s'
    ]
  ]

  unfoldable pub turns : List Tick → CaptureState → Turn
  turns [] s = again s
  turns (tick ∷ ticks) s = elim (turn tick s) [
    | again s' ↦ turns ticks s'
    | stop result tables ↦ stop result tables
  ]

-- Where the loop starts.
abbrev pub started : Aggregator → SpoolTables → CaptureState
started aggregator tables = record {
  aggregator = aggregator;
  parse_errors = 0;
  prior_stats = record { received = 0; dropped = 0; if_dropped = 0 };
  emitted = 0;
  tables = tables;
}

-- `run`: an error or a panic before the loop, or what the loop does. Opening the device and setting
-- its filter gives the link type, or an error of libpcap.
unfoldable pub run :
    Codec
    → CaptureConfig
    → (device : Outcome Error ℤ) (file : SpoolFile) → Option SpoolTables
    → List Tick
    → Outcome Error Turn
unfolding open_spool
run codec config device file stored ticks = elim config.local_ips [
  | [] ↦ err (anyhow "at least one --local-ip is required to classify direction")
  | ip ∷ ips ↦ elim device [
    | err e ↦ err e
    | panic ↦ panic
    | ok link_type ↦ elim (open_spool config.limits file stored) [
      | err e ↦ err e
      | panic ↦ panic
      | ok spool ↦ elim (new config.bucket_seconds) [
        | ok aggregator ↦ ok (turns codec config link_type ticks (started aggregator spool.tables))
        | err e ↦ elim e [ ]
        | panic ↦ panic
      ]
    ]
  ]
]
