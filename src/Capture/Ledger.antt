-- ===== src/Capture/Ledger.antt =====
-- The spool under the loop of src/capture.rs: whatever the loop meets, it touches the tables only by
-- `enqueue`, so what `enqueue` preserves holds at the end.
use flow_observability.Base.{
  ℕ, ◌≡◌, refl, sym, subst, List, [], ◌∷◌, Option, some, Outcome, ok, err, panic, arith,
  Outcome-cases, Option-cases, List-cases, ◌+◌, ◌%◌, Bool-cases, inl, inr, ◌⊎◌,
}
use flow_observability.Base.Int.{ℤ}
use flow_observability.Model.{FlowBucket, CaptureDiagnostics, default_diagnostics}
use flow_observability.Model.Envelope.{Codec}
use flow_observability.Spool.Tables.{SpoolTables}
use flow_observability.Spool.Evict.{SpoolEngine}
use flow_observability.Spool.History.{Life, IsSound, enqueue_call, after, after-IsSound}
use flow_observability.Spool.Opening.{SpoolFile, open_spool}
use flow_observability.Spool.Methods.{created_tables, EnqueueResult, enqueue, status}
use flow_observability.Sqlite.{Error}
use flow_observability.Aggregate.{Aggregator, new, u64_mod, drain_all, drain_before}
use flow_observability.Capture.{
  CaptureConfig, CaptureState, Next, Tick, Turn, again, stop, receive, flush_rest, after_batch,
  emit_batch, drain_ended, turn, turns, is_last, current_bucket, started, run,
}

abbrev pub tables_of : Turn → SpoolTables
tables_of (again s) = s.tables
tables_of (stop result tables) = tables

pub Turn-cases :
    (x : Turn)
    → ((s : CaptureState) × (x ≡ again s))
      ⊎ ((result : Outcome Error (Unit {0})) × (t : SpoolTables) × (x ≡ stop result t))
Turn-cases (again s) = inl (s, refl)
Turn-cases (stop result t) = inr (result, t, refl)

module _ (codec : Codec) (config : CaptureConfig) (link_type : ℤ) (P : SpoolTables → Type 0)
    (keeps : (engine : SpoolEngine) (now : ℕ) (buckets : List FlowBucket)
        (diagnostics : CaptureDiagnostics) (t : SpoolTables)
      → P t
      → P
          (enqueue codec engine config.limits config.node_id config.boot_id now buckets diagnostics
            t).1) where
  receive-tables :
      (next : Next) (s s' : CaptureState)
      → receive codec config link_type next s ≡ ok s'
      → s'.tables ≡ s.tables
  unfolding receive
  receive-tables next s s' h = ground arith

  -- Where the tables are those of `s`, or those that some `enqueue` on them leaves.
  abbrev OneEnqueue : SpoolTables → SpoolTables → Type 0
  OneEnqueue t t' =
      (t' ≡ t)
      ⊎ ((engine : SpoolEngine) × (now : ℕ) × (buckets : List FlowBucket)
          × (diagnostics : CaptureDiagnostics) × (t'
              ≡ (enqueue codec engine config.limits config.node_id config.boot_id now buckets
                  diagnostics t).1))

  OneEnqueue-keeps : (t t' : SpoolTables) → OneEnqueue t t' → P t → P t'
  OneEnqueue-keeps t t' (inl e) h = subst P (sym e) h
  OneEnqueue-keeps t t' (inr (engine, now, buckets, diagnostics, e)) h =
      subst P (sym e) (keeps engine now buckets diagnostics t h)

  flush_rest-OneEnqueue :
      (tick : Tick) (s : CaptureState)
      → OneEnqueue s.tables (tables_of (flush_rest codec config link_type tick s))
  unfolding flush_rest
  flush_rest-OneEnqueue tick s = elim (List-cases (drain_all s.aggregator).1) [
    | inl e ↦ inl (ground arith)
    | inr (b, buckets, e) ↦ elim (Option-cases tick.last_clock) [
      | inl c ↦ inl (ground arith)
      | inr (now, c) ↦ inr (tick.last_engine, now, b ∷ buckets, default_diagnostics, ground arith)
    ]
  ]

  after_batch-tables :
      (tick : Tick) (s : CaptureState) (outcome : Outcome Error EnqueueResult)
      → P s.tables
      → P (tables_of (after_batch codec config link_type tick s outcome))
  unfolding after_batch
  after_batch-tables tick s (err e) h = h
  after_batch-tables tick s panic h = h
  after_batch-tables tick s (ok result) h = OneEnqueue-keeps s.tables _ one h
    where
      next : CaptureState
      next = record s { emitted = (s.emitted + 1) % u64_mod }

      one : OneEnqueue s.tables (tables_of (after_batch codec config link_type tick s (ok result)))
      one = elim (Outcome-cases (status codec tick.engine s.tables)) [
        | inl (report, e) ↦ elim (Bool-cases tick.stdout_open) [
          | inr o ↦ inl (ground arith)
          | inl o ↦ elim (Bool-cases (is_last config.max_batches ((s.emitted + 1) % u64_mod))) [
            | inl l ↦ elim (flush_rest-OneEnqueue tick next) [
              | inl q ↦ inl (ground arith)
              | inr (engine, now, buckets, diagnostics, q) ↦
                  inr (engine, now, buckets, diagnostics, ground arith)
            ]
            | inr l ↦ inl (ground arith)
          ]
        ]
        | inr (inl (x, e)) ↦ inl (ground arith)
        | inr (inr e) ↦ inl (ground arith)
      ]

  emit_batch-tables :
      (tick : Tick) (now : ℕ) (buckets : List FlowBucket) (s : CaptureState)
      → P s.tables
      → P (tables_of (emit_batch codec config link_type tick now buckets s))
  unfolding emit_batch
  emit_batch-tables tick now buckets s h = elim (Option-cases tick.stats) [
    | inl e ↦ rw (e, emit_batch) h
    | inr (current, e) ↦
        rw (e, emit_batch)
          (after_batch-tables tick _ _ (keeps tick.engine now buckets _ s.tables h))
  ]

  drain_ended-tables :
      (tick : Tick) (now : ℕ) (s : CaptureState)
      → P s.tables
      → P (tables_of (drain_ended codec config link_type tick now s))
  unfolding drain_ended
  drain_ended-tables tick now s h =
      let drained = drain_before s.aggregator (current_bucket config.bucket_seconds now) in
      elim (List-cases drained.1) [
        | inl e ↦ rw (e, drain_ended) h
        | inr (b, buckets, e) ↦
            rw (e, drain_ended)
              (emit_batch-tables tick now (b ∷ buckets) (record s { aggregator = drained.0 }) h)
      ]

  turn-tables :
      (tick : Tick) (s : CaptureState)
      → P s.tables
      → P (tables_of (turn codec config link_type tick s))
  unfolding turn
  turn-tables tick s h = elim (Outcome-cases (receive codec config link_type tick.next s)) [
    | inl (s', e) ↦
        let kept : P s'.tables = subst P (sym (receive-tables tick.next s s' e)) h in
        elim (Option-cases tick.clock) [
          | inl c ↦ rw (e, turn) (rw (c, turn) kept)
          | inr (now, c) ↦ rw (e, turn) (rw (c, turn) (drain_ended-tables tick now s' kept))
        ]
    | inr (inl (x, e)) ↦ rw (e, turn) h
    | inr (inr e) ↦ rw (e, turn) h
  ]

  pub turns-tables :
      (ticks : List Tick) (s : CaptureState)
      → P s.tables
      → P (tables_of (turns codec config link_type ticks s))
  unfolding turns
  turns-tables [] s h = h
  turns-tables (tick ∷ ticks) s h = elim (Turn-cases (turn codec config link_type tick s)) [
    | inl (s', e) ↦
        rw (e, turns)
          (turns-tables ticks s' (subst (λ x. P (tables_of x)) e (turn-tables tick s h)))
    | inr (result, t, e) ↦ rw (e, turns) (subst (λ x. P (tables_of x)) e (turn-tables tick s h))
  ]

module _ (codec : Codec) (config : CaptureConfig) where
  turns-IsSound :
      (link_type : ℤ) (ticks : List Tick) (aggregator : Aggregator) (l : Life)
      → IsSound config.limits l
      → IsSound config.limits (record l {
        tables = tables_of (turns codec config link_type ticks (started aggregator l.tables));
      })
  unfolding after
  turns-IsSound link_type ticks aggregator l h =
      turns-tables codec config link_type (λ t. IsSound config.limits (record l { tables = t }))
        (λ engine now buckets diagnostics t sound.
          after-IsSound codec config.limits
            (enqueue_call config.node_id config.boot_id now buckets diagnostics engine)
            (record l { tables = t }) sound)
        ticks (started aggregator l.tables) h

  -- What a run that reaches its loop has found before it.
  pub record Opened (device : Outcome Error ℤ) (stored : Option SpoolTables) (ticks : List Tick)
      (result : Turn) : Type 0 where
    pub link_type : ℤ
    pub aggregator : Aggregator
    pub device_open : device ≡ ok link_type
    pub created : new config.bucket_seconds ≡ ok aggregator
    pub looped :
        result ≡ turns codec config link_type ticks (started aggregator (created_tables stored))

  pub run-ok :
      (device : Outcome Error ℤ) (file : SpoolFile) (stored : Option SpoolTables)
      (ticks : List Tick) (result : Turn)
      → run codec config device file stored ticks ≡ ok result
      → Opened device stored ticks result
  unfolding run open_spool
  run-ok device file stored ticks result e = elim (List-cases config.local_ips) [
    | inl p ↦ cc (rw p at e)
    | inr (ip, ips, p) ↦
        elim device
            as (λ d.
              run codec config d file stored ticks ≡ ok result → Opened d stored ticks result) [
                | err x ↦ λ q. cc (rw (p, run) at q)
                | panic ↦ λ q. cc (rw (p, run) at q)
                | ok link_type ↦ λ q. elim (Outcome-cases (new config.bucket_seconds)) [
                  | inl (aggregator, n) ↦ record {
                    link_type = link_type;
                    aggregator = aggregator;
                    device_open = refl;
                    created = n;
                    looped = ground arith;
                  }
                  | inr (inl (x, n)) ↦ elim x [ ]
                  | inr (inr n) ↦ ground arith
                ]
              ]
          e
  ]

  -- If the numbers of the spool are accounted for and its payloads fit the budget when the agent
  -- starts, then this holds of the spool that any rounds of the capture leave, whatever is captured,
  -- whichever statement fails and however the loop ends.
  pub run-IsSound :
      (device : Outcome Error ℤ) (file : SpoolFile) (l : Life) (ticks : List Tick) (result : Turn)
      → IsSound config.limits l
      → run codec config device file (some l.tables) ticks ≡ ok result
      → IsSound config.limits (record l { tables = tables_of result })
  run-IsSound device file l ticks result h e =
      let opened = run-ok device file (some l.tables) ticks result e in
      subst (λ x. IsSound config.limits (record l { tables = tables_of x })) (sym opened.looped)
        (turns-IsSound opened.link_type ticks opened.aggregator l h)
