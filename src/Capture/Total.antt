-- ===== src/Capture/Total.antt =====
-- No panic: src/capture.rs over the parser, the aggregator and the spool.
use flow_observability.Base.{
  ◌+◌, ◌<◌, ◌≡◌, ◌≢◌, refl, All, true, sym, subst, List, [], ◌∷◌, Option, none, some, Outcome, ok,
  err, panic, arith, inl, inr, Outcome-cases, Bool-cases, ◌%◌, Option-cases, List-cases,
}
use flow_observability.Base.Int.{ℤ}
use flow_observability.Model.{default_diagnostics}
use flow_observability.Model.Envelope.{Codec}
use flow_observability.Packet.{PacketMeta, PacketError}
use flow_observability.Aggregate.{new, drain_before, drain_all, u64_mod}
use flow_observability.Capture.{
  CaptureConfig, CaptureState, Next, packet, timeout_expired, pcap_error, Tick, Turn, again, stop,
  as_u64, absorb, is_last, current_bucket, receive, flush_rest, after_batch, emit_batch,
  drain_ended, turn, turns, started, run,
}
use flow_observability.Capture.Ledger.{Turn-cases, run-ok}
use flow_observability.Packet.Extension.{parse_packet-ne-panic}
use flow_observability.Sqlite.{Error, integer}
use flow_observability.Spool.Tables.{SpoolTables}
use flow_observability.Spool.Evict.{SpoolLimits}
use flow_observability.Spool.Opening.{SpoolFile, open_spool}
use flow_observability.Spool.Methods.{
  max_page_count, created_tables, EnqueueResult, enqueue, status,
}
use flow_observability.Spool.Total.{status-ne-panic, enqueue-ne-panic}

abbrev pub IsPrinted : Tick → Type 0
IsPrinted tick = tick.stdout_open ≡ true

-- A round that does not panic.
abbrev Calm : Turn → Type 0
Calm (again s) = Unit
Calm (stop (ok done) t) = Unit
Calm (stop (err e) t) = Unit
Calm (stop panic t) = ⊥

module _ (codec : Codec) (config : CaptureConfig) (link_type : ℤ) where
  absorb-ne-panic :
      (s : CaptureState) (parsed : Outcome PacketError (Option PacketMeta))
      → parsed ≢ panic
      → absorb s parsed ≢ panic
  unfolding absorb
  absorb-ne-panic s (ok (some m)) h e = cc
  absorb-ne-panic s (ok none) h e = cc
  absorb-ne-panic s (err x) h e = cc
  absorb-ne-panic s panic h e = h refl

  receive-ne-panic :
      (next : Next) (s : CaptureState) → receive codec config link_type next s ≢ panic
  unfolding receive
  receive-ne-panic (packet p) s = absorb-ne-panic s _ (
      parse_packet-ne-panic p.bytes link_type (as_u64 p.tv_sec) p.len config.capture_point
        config.local_ips)
  receive-ne-panic timeout_expired s = λ e. cc
  receive-ne-panic pcap_error s = λ e. cc

  flush_rest-Calm :
      (tick : Tick) (s : CaptureState) → Calm (flush_rest codec config link_type tick s)
  unfolding flush_rest
  flush_rest-Calm tick s = elim (List-cases (drain_all s.aggregator).1) [
    | inl d ↦ rw (d, flush_rest) tt
    | inr (b, buckets, d) ↦ elim (Option-cases tick.last_clock) [
      | inl c ↦ rw (d, flush_rest) (rw (c, flush_rest) tt)
      | inr (now, c) ↦
          elim (Outcome-cases
            (enqueue codec tick.last_engine config.limits config.node_id config.boot_id now
              (b ∷ buckets) default_diagnostics s.tables).0) [
                | inl (result, e) ↦ rw (d, flush_rest) (rw (c, flush_rest) (rw (e, flush_rest) tt))
                | inr (inl (x, e)) ↦ rw (d, flush_rest) (rw (c, flush_rest) (rw (e, flush_rest) tt))
                | inr (inr e) ↦ absurd (
                    enqueue-ne-panic codec tick.last_engine config.limits config.node_id
                      config.boot_id now (b ∷ buckets) default_diagnostics s.tables e)
              ]
    ]
  ]

  after_batch-Calm :
      (tick : Tick) (s : CaptureState) (outcome : Outcome Error EnqueueResult)
      → tick.stdout_open ≡ true
      → outcome ≢ panic
      → Calm (after_batch codec config link_type tick s outcome)
  unfolding after_batch
  after_batch-Calm tick s (err e) o h = tt
  after_batch-Calm tick s panic o h = h refl
  after_batch-Calm tick s (ok result) o h =
      elim (Outcome-cases (status codec tick.engine s.tables)) [
        | inl (report, e) ↦
            elim (Bool-cases (is_last config.max_batches ((s.emitted + 1) % u64_mod))) [
              | inl l ↦
                  let next : CaptureState = record s { emitted = (s.emitted + 1) % u64_mod } in
                  let flushed : flush_rest codec config link_type tick next
                      ≡ after_batch codec config link_type tick s (ok result) =
                    ground arith in
                  subst Calm flushed (flush_rest-Calm tick next)
              | inr l ↦ rw (e, after_batch) (rw (o, after_batch) (rw (l, after_batch) tt))
            ]
        | inr (inl (x, e)) ↦ rw (e, after_batch) tt
        | inr (inr e) ↦ absurd (status-ne-panic codec tick.engine s.tables e)
      ]

  turn-Calm :
      (tick : Tick) (s : CaptureState)
      → tick.stdout_open ≡ true
      → Calm (turn codec config link_type tick s)
  unfolding turn drain_ended emit_batch
  turn-Calm tick s o = elim (Outcome-cases (receive codec config link_type tick.next s)) [
    | inr (inl (x, e)) ↦ rw (e, turn) tt
    | inr (inr e) ↦ absurd (receive-ne-panic tick.next s e)
    | inl (s', e) ↦ elim (Option-cases tick.clock) [
      | inl c ↦ rw (e, turn) (rw (c, turn) tt)
      | inr (now, c) ↦
          elim (List-cases
            (drain_before s'.aggregator (current_bucket config.bucket_seconds now)).1) [
              | inl d ↦ rw (e, turn) (rw (c, turn) (rw (d, drain_ended) tt))
              | inr (b, buckets, d) ↦ elim (Option-cases tick.stats) [
                | inl p ↦ rw (e, turn) (rw (c, turn) (rw (d, drain_ended) (rw (p, emit_batch) tt)))
                | inr (current, p) ↦
                    rw (e, turn)
                      (rw (c, turn)
                        (rw (d, drain_ended)
                          (rw (p, emit_batch)
                            (after_batch-Calm tick _ _ o (
                              enqueue-ne-panic codec tick.engine config.limits config.node_id
                                config.boot_id now (b ∷ buckets) _ s'.tables)))))
              ]
            ]
    ]
  ]

  turns-Calm :
      (ticks : List Tick) (s : CaptureState)
      → All IsPrinted ticks
      → Calm (turns codec config link_type ticks s)
  unfolding turns
  turns-Calm [] s o = tt
  turns-Calm (tick ∷ ticks) s o = elim (Turn-cases (turn codec config link_type tick s)) [
    | inl (s', e) ↦ rw (e, turns) (turns-Calm ticks s' o.1)
    | inr (result, t, e) ↦ rw (e, turns) (subst Calm e (turn-Calm tick s o.0))
  ]

module _ (codec : Codec) (config : CaptureConfig) where
  -- SQLite does not panic at the opening, and pages have a positive size.
  pub record IsPaged (file : SpoolFile) : Type 0 where
    pub opens : file.opened ≢ panic
    pub sets : file.pragmas ≢ panic
    pub reads : file.page_size ≢ panic
    pub positive : file.page_size ≢ ok 0
    pub limits_pages : file.limited ≢ panic
    pub creates : file.created ≢ panic

  open_spool-ne-panic :
      (limits : SpoolLimits) (file : SpoolFile) (stored : Option SpoolTables)
      → IsPaged file
      → open_spool limits file stored ≢ panic
  unfolding open_spool max_page_count integer
  open_spool-ne-panic limits file stored h e = ground arith

  -- A run panics neither before its loop nor in it, whatever is captured and whichever statement
  -- fails, where buckets and pages have a positive size, opening the device and the file of the
  -- spool does not panic, and each report can be written to the standard output.
  pub run-ne-panic :
      (device : Outcome Error ℤ) (file : SpoolFile) (stored : Option SpoolTables)
      (ticks : List Tick)
      → 0 < config.bucket_seconds
      → IsPaged file
      → device ≢ panic
      → All IsPrinted ticks
      → (run codec config device file stored ticks ≢ panic)
        × ((t : SpoolTables) → run codec config device file stored ticks ≢ ok (stop panic t))
  unfolding run new
  run-ne-panic device file stored ticks w p d o = (
    (λ e. ground (arith, w, d, open_spool-ne-panic config.limits file stored p)),
    λ t e.
        let opened = run-ok codec config device file stored ticks (stop panic t) e in
        subst Calm (sym opened.looped) (
          turns-Calm codec config opened.link_type ticks
            (started opened.aggregator (created_tables stored)) o),
  )
