-- ===== src/Capture/OneRound.antt =====
-- One round of the loop of src/capture.rs, as an account.
use flow_observability.Base.{
  ◌+◌, ◌≤◌, ◌≡◌, refl, sym, ap, ◌∙◌, subst, List, [], ◌∷◌, length, ok, arith, All,
}
use flow_observability.Base.Int.{ℤ}
use flow_observability.Model.{FlowBucket}
use flow_observability.Model.Envelope.{Codec}
use flow_observability.Aggregate.{drain_before}
use flow_observability.Aggregate.Tally.{IsValid}
use flow_observability.Aggregate.Stream.{total, total-append}
use flow_observability.Aggregate.Drain.{drain_before-IsValid}
use flow_observability.Spool.Methods.{enqueue}
use flow_observability.Capture.{
  CaptureConfig, CaptureState, Tick, current_bucket, diagnostics_since, receive,
}
use flow_observability.Capture.Ended.{drained_ended, drain_conserves, drain_width}
use flow_observability.Capture.Rounds.{taken_in, failures, ended, Moves, waits, emits}
use flow_observability.Capture.Account.{
  Batch, sum_added-append, held_total, all_packets, Account, IsReady,
}
use flow_observability.Capture.Absorb.{Absorbs, receive-Absorbs}

module _ (codec : Codec) (config : CaptureConfig) (link_type : ℤ) where
  module _ (tick : Tick) (ticks : List Tick) (s : CaptureState)
      (ready : IsReady codec config link_type (tick ∷ ticks) s) where
    received :
        (s' : CaptureState)
        → receive codec config link_type tick.next s ≡ ok s'
        → Absorbs
            (taken_in codec config link_type tick.next)
            (failures codec config link_type tick.next)
            s
            s'
    received s' h =
        receive-Absorbs codec config link_type tick.next s s' ready.valid
          (λ which. omega (
            arith,
            ready.fits which,
            sum_added-append which (taken_in codec config link_type tick.next)
                (all_packets codec config link_type ticks),
          ))
          (omega (arith, ready.errors_fit)) h

    -- One round, as an account.
    pub record Round (u : CaptureState) (batches : List Batch) : Type 0 where
      pub account : Account codec config link_type (tick ∷ []) s u batches
      pub valid : IsValid u.aggregator
      pub same_width : u.aggregator.bucket_seconds ≡ config.bucket_seconds
      pub at_most_one : length batches ≤ 1

    pub Moves-Round :
        (u : CaptureState)
        → Moves codec config link_type tick s u
        → (batches : List Batch) × Round u batches
    unfolding diagnostics_since
    Moves-Round u (waits s' now h c d e) = (
      [],
      record {
        account = record {
          stored = ap (λ x. x.tables) e ∙ (received s' h).same_tables;
          complete = tt;
          conserved = λ which. omega (
            arith,
            ap (held_total which) e,
            (received s' h).more which,
            drain_conserves which s'.aggregator (current_bucket config.bucket_seconds now)
                (received s' h).valid,
            ap (total which) d,
            sum_added-append which (taken_in codec config link_type tick.next) [],
          );
          reported = omega (arith, ap (λ x. x.parse_errors) e, (received s' h).failed);
          counted = omega (arith, ap (λ x. x.emitted) e, (received s' h).same_count);
        };
        valid =
            subst (λ (x : CaptureState). IsValid x.aggregator) (sym e)
              (drain_before-IsValid s'.aggregator _ (received s' h).valid);
        same_width =
            ap (λ x. x.aggregator.bucket_seconds) e
            ∙ drain_width s'.aggregator _
            ∙ (received s' h).same_width
            ∙ ready.same_width;
        at_most_one = omega arith;
      },
    )
    Moves-Round u (emits s' now current result h c st d q e) = (
      batch ∷ [],
      record {
        account = record {
          stored = (
            tick.engine,
            result,
            u.tables,
            subst
                (λ t.
                  enqueue codec tick.engine config.limits config.node_id config.boot_id now
                    (ended codec config link_type now s').1 batch.diagnostics t
                  ≡ (ok result, u.tables))
                (received s' h).same_tables q,
            refl,
          );
          complete = (
            subst
                (λ w.
                  All (λ (k : FlowBucket). k.bucket_start + w ≤ now)
                    (drain_before s'.aggregator (current_bucket w now)).1)
                ((received s' h).same_width ∙ ready.same_width)
                (drained_ended s'.aggregator now (received s' h).valid),
            tt,
          );
          conserved = λ which. omega (
            arith,
            ap (held_total which) e,
            (received s' h).more which,
            drain_conserves which s'.aggregator (current_bucket config.bucket_seconds now)
                (received s' h).valid,
            total-append which (ended codec config link_type now s').1 [],
            sum_added-append which (taken_in codec config link_type tick.next) [],
          );
          reported = omega (arith, ap (λ x. x.parse_errors) e, (received s' h).failed);
          counted =
              omega (arith, ap (λ x. x.emitted) e, (received s' h).same_count, ready.count_fits);
        };
        valid =
            subst (λ (x : CaptureState). IsValid x.aggregator) (sym e)
              (drain_before-IsValid s'.aggregator _ (received s' h).valid);
        same_width =
            ap (λ x. x.aggregator.bucket_seconds) e
            ∙ drain_width s'.aggregator _
            ∙ (received s' h).same_width
            ∙ ready.same_width;
        at_most_one = omega arith;
      },
    )
      where
        batch : Batch
        batch = record {
          created_at = now;
          buckets = (ended codec config link_type now s').1;
          diagnostics = diagnostics_since s'.prior_stats current s'.parse_errors;
        }

    pub Round-IsReady :
        (u : CaptureState) (batches : List Batch)
        → Round u batches
        → IsReady codec config link_type ticks u
    Round-IsReady u batches r = record {
      valid = r.valid;
      same_width = r.same_width;
      fits = λ which. omega (
        arith,
        r.account.conserved which,
        ready.fits which,
        sum_added-append which (taken_in codec config link_type tick.next) [],
        sum_added-append which (taken_in codec config link_type tick.next)
            (all_packets codec config link_type ticks),
      );
      errors_fit = omega (arith, r.account.reported, ready.errors_fit);
      count_fits = omega (arith, r.account.counted, ready.count_fits, r.at_most_one);
    }
