-- ===== src/Capture/Guarantees.antt =====
-- What a run of src/capture.rs hands to the spool, from its opening to its return.
use flow_observability.Base.{
  ℕ, ◌+◌, ◌≤◌, ◌<◌, ◌≡◌, refl, sym, ap, subst, List, length-append, [], ◌∷◌, ◌++◌, length, Option,
  some, ok, arith, inl, inr, ◌⊎◌, All, false,
}
use flow_observability.Base.Int.{ℤ}
use flow_observability.Model.Envelope.{Codec}
use flow_observability.Aggregate.{Aggregator, u64_mod, new, to_buckets}
use flow_observability.Aggregate.Tally.{IsValid}
use flow_observability.Aggregate.Stream.{Counter, total, total-append}
use flow_observability.Spool.Tables.{SpoolTables}
use flow_observability.Spool.Opening.{SpoolFile}
use flow_observability.Spool.Methods.{created_tables}
use flow_observability.Capture.{
  CaptureConfig, CaptureState, Tick, again, stop, started, turn, turns, run, is_last,
}
use flow_observability.Capture.Ledger.{run-ok, Turn-cases}
use flow_observability.Capture.Rounds.{again_injective, turn-again}
use flow_observability.Capture.Account.{
  Batch, all_buckets, all_errors, sum_added, held_total, all_packets, all_failures, Stored,
  IsComplete, IsReady, Stored-append, Stored-next_seq, all_buckets-append, all_errors-append,
}
use flow_observability.Capture.Conservation.{
  turns-Account, Finished, turns-Finished, flush_rest-batches,
}

new-ok :
    (width : ℕ) (a : Aggregator)
    → new width ≡ ok a
    → (0 < width) × (record { bucket_seconds = width; flows = [] } ≡ a)
unfolding new
new-ok width a h = ground arith

new-IsValid :
    (width : ℕ) (a : Aggregator) → new width ≡ ok a → IsValid a × (a.bucket_seconds ≡ width)
new-IsValid width a h =
    subst (λ x. IsValid x × (x.bucket_seconds ≡ width)) (new-ok width a h).1
      (record { positive = (new-ok width a h).0; sorted = tt; bounded = tt; aligned = tt }, refl)

new-flows : (width : ℕ) (a : Aggregator) → new width ≡ ok a → a.flows ≡ []
unfolding new
new-flows width a h = ground arith

module _ (codec : Codec) (config : CaptureConfig) (link_type : ℤ) where
  -- The numbers of a run that do not wrap.
  pub record Fits (ticks : List Tick) : Type 0 where
    pub counters_fit :
        (which : Counter) → sum_added which (all_packets codec config link_type ticks) < u64_mod
    pub errors_fit : all_failures codec config link_type ticks < u64_mod
    pub count_fits : length ticks < u64_mod

  started-IsReady :
      (ticks : List Tick) (aggregator : Aggregator) (tables : SpoolTables)
      → new config.bucket_seconds ≡ ok aggregator
      → Fits ticks
      → IsReady codec config link_type ticks (started aggregator tables)
  unfolding to_buckets
  started-IsReady ticks aggregator tables h fits = record {
    valid = (new-IsValid config.bucket_seconds aggregator h).0;
    same_width = (new-IsValid config.bucket_seconds aggregator h).1;
    fits = λ which.
        rw (new-flows config.bucket_seconds aggregator h) (omega (arith, fits.counters_fit which));
    errors_fit = omega (arith, fits.errors_fit);
    count_fits = omega (arith, fits.count_fits);
  }

module _ (codec : Codec) (config : CaptureConfig) where
  -- What the batches of the rounds hold, when the loop has come to `u` and goes on.
  pub record Delivered (link_type : ℤ) (ticks : List Tick) (tables : SpoolTables) (u : CaptureState)
      (batches : List Batch) : Type 0 where
    pub stored : Stored codec config link_type batches tables u.tables
    pub complete : All (IsComplete codec config link_type) batches
    pub conserved :
        (which : Counter)
        → total which (all_buckets batches) + held_total which u
          ≡ sum_added which (all_packets codec config link_type ticks)
    pub reported : all_errors batches + u.parse_errors ≡ all_failures codec config link_type ticks
    pub counted : u.emitted ≡ length batches

  -- Where the rounds of a run have not ended the loop, the spool has stored a sequence of batches:
  -- every packet and byte that was parsed is in exactly one of their buckets, or still in the
  -- aggregator, every frame that failed to parse is in their diagnostics or still counted, each of
  -- their buckets had ended by the clock, and there are as many as the loop counts. This asks that
  -- the sums of the packets and of the bytes, the failures and the rounds are each below 2^64, and
  -- that the device opens.
  pub run_accounts :
      (link_type : ℤ) (file : SpoolFile) (stored : Option SpoolTables) (ticks : List Tick)
      (u : CaptureState)
      → Fits codec config link_type ticks
      → run codec config (ok link_type) file stored ticks ≡ ok (again u)
      → (batches : List Batch) × Delivered link_type ticks (created_tables stored) u batches
  unfolding to_buckets
  run_accounts link_type file stored ticks u fits e =
      let opened = run-ok codec config (ok link_type) file stored ticks (again u) e in
      let same : link_type ≡ opened.link_type = cc (opened.device_open) in
      let (batches, account) =
        turns-Account codec config link_type ticks
          (started opened.aggregator (created_tables stored)) u
          (started-IsReady codec config link_type ticks opened.aggregator (created_tables stored)
            opened.created fits)
          (rw same (sym opened.looped)) in
      (
        batches,
        record {
          stored = account.stored;
          complete = account.complete;
          conserved = λ which. omega (
            arith,
            account.conserved which,
            ap (λ x. total which (to_buckets x))
                (new-flows config.bucket_seconds opened.aggregator opened.created),
          );
          reported = omega (arith, account.reported);
          counted = omega (arith, account.counted);
        },
      )

  -- What a run that returns without an error has done.
  pub record Finishes (link_type : ℤ) (ticks : List Tick) (tables t : SpoolTables) : Type 0 where
    pub used : List Tick
    pub rest : List Tick
    pub batches : List Batch
    pub all_ticks : ticks ≡ used ++ rest
    pub stored : Stored codec config link_type batches tables t
    pub conserved :
        (which : Counter)
        → total which (all_buckets batches)
          ≡ sum_added which (all_packets codec config link_type used)
    pub reported : all_errors batches ≡ all_failures codec config link_type used
    pub enough : (maximum : ℕ) → config.max_batches ≡ some maximum → maximum ≤ length batches

  Finished-Finishes :
      (link_type : ℤ) (ticks : List Tick) (aggregator : Aggregator) (tables t : SpoolTables)
      → new config.bucket_seconds ≡ ok aggregator
      → Finished codec config link_type ticks (started aggregator tables) t
      → Finishes link_type ticks tables t
  unfolding to_buckets is_last
  Finished-Finishes link_type ticks aggregator tables t h done =
      let (cs, kept, all, none_failed) =
        flush_rest-batches codec config link_type done.last_tick done.last t done.flushed in
      record {
        used = done.used;
        rest = done.rest;
        batches = done.batches ++ cs;
        all_ticks = done.all_ticks;
        stored =
            Stored-append codec config link_type done.batches cs tables done.last.tables t
              done.account.stored kept;
        conserved = λ which. omega (
          arith,
          done.account.conserved which,
          ap (total which) (all_buckets-append done.batches cs),
          total-append which (all_buckets done.batches) (all_buckets cs),
          ap (total which) all,
          ap (λ x. total which (to_buckets x)) (new-flows config.bucket_seconds aggregator h),
        );
        reported = omega (
          arith,
          done.account.reported,
          all_errors-append done.batches cs,
          none_failed,
          done.reset,
        );
        enough = λ maximum m.
            ground (arith, done.enough, m, done.account.counted, length-append done.batches cs);
      }

  -- Where the loop returns without an error, the spool has stored a sequence of batches that hold
  -- every packet and byte that was parsed in the rounds up to there, none left over, and report every
  -- frame that failed to parse in them; and they are at least as many as `max_batches` says. This asks
  -- that the sums of the packets and of the bytes, the failures and the rounds are each below 2^64,
  -- and that the device opens.
  pub run-Finishes :
      (link_type : ℤ) (file : SpoolFile) (stored : Option SpoolTables) (ticks : List Tick)
      (t : SpoolTables)
      → Fits codec config link_type ticks
      → run codec config (ok link_type) file stored ticks ≡ ok (stop (ok tt) t)
      → Finishes link_type ticks (created_tables stored) t
  run-Finishes link_type file stored ticks t fits e =
      let opened = run-ok codec config (ok link_type) file stored ticks (stop (ok tt) t) e in
      let same : link_type ≡ opened.link_type = cc (opened.device_open) in
      Finished-Finishes link_type ticks opened.aggregator (created_tables stored) t opened.created (
        turns-Finished codec config link_type ticks
          (started opened.aggregator (created_tables stored)) t
          (started-IsReady codec config link_type ticks opened.aggregator (created_tables stored)
            opened.created fits)
          (rw same (sym opened.looped)))

  turns-limit :
      (link_type : ℤ) (maximum : ℕ) (ticks : List Tick) (s u : CaptureState)
      → config.max_batches ≡ some maximum
      → (s.emitted ≡ 0) ⊎ (s.emitted < maximum)
      → turns codec config link_type ticks s ≡ again u
      → (u.emitted ≡ 0) ⊎ (u.emitted < maximum)
  unfolding turns is_last
  turns-limit link_type maximum [] s u m h e =
      subst (λ (x : CaptureState). (x.emitted ≡ 0) ⊎ (x.emitted < maximum)) (again_injective e) h
  turns-limit link_type maximum (tick ∷ ticks) s u m h e =
      elim (Turn-cases (turn codec config link_type tick s)) [
        | inr (result, t, p) ↦ cc (rw (p, turns) at e)
        | inl (s1, p) ↦
            turns-limit link_type maximum ticks s1 u m
              (below s1 (turn-again codec config link_type tick s s1 p).1) (rw (p, turns) at e)
      ]
    where
      below :
          (s1 : CaptureState)
          → (s1.emitted ≡ s.emitted) ⊎ (is_last config.max_batches s1.emitted ≡ false)
          → (s1.emitted ≡ 0) ⊎ (s1.emitted < maximum)
      below s1 c = ground (arith, m, h)

  -- Where the rounds of a run with a maximum of batches have not ended the loop, the spool has given
  -- out no number in it, or fewer numbers than the maximum. This asks that the sums of the packets
  -- and of the bytes, the failures and the rounds are each below 2^64, and that the device opens.
  pub run_limits :
      (link_type : ℤ) (file : SpoolFile) (maximum : ℕ) (stored : Option SpoolTables)
      (ticks : List Tick) (u : CaptureState)
      → config.max_batches ≡ some maximum
      → Fits codec config link_type ticks
      → run codec config (ok link_type) file stored ticks ≡ ok (again u)
      → (u.tables.next_seq ≡ (created_tables stored).next_seq)
        ⊎ (u.tables.next_seq < (created_tables stored).next_seq + maximum)
  run_limits link_type file maximum stored ticks u m fits e =
      let opened = run-ok codec config (ok link_type) file stored ticks (again u) e in
      let (batches, delivered) = run_accounts link_type file stored ticks u fits e in
      let numbers =
        Stored-next_seq codec config link_type batches (created_tables stored) u.tables
          delivered.stored in
      elim (turns-limit opened.link_type maximum ticks
        (started opened.aggregator (created_tables stored)) u m (inl refl) (sym opened.looped)) [
          | inl none_yet ↦ inl (omega (arith, numbers, delivered.counted))
          | inr fewer ↦ inr (omega (arith, numbers, delivered.counted))
        ]
