-- ===== src/Capture/Conservation.antt =====
-- A capture loses nothing and counts nothing twice: src/capture.rs from its first round to its last.
use mathlib.Core.List.{append-nil}
use flow_observability.Base.{
  ◌≡◌, refl, sym, ap, ◌∙◌, List, [], ◌∷◌, ◌++◌, ok, arith, Outcome-cases, Option-cases, List-cases,
  inl, inr, true,
}
use flow_observability.Base.Int.{ℤ}
use flow_observability.Model.{default_diagnostics}
use flow_observability.Model.Envelope.{Codec}
use flow_observability.Aggregate.{drain_all, to_buckets}
use flow_observability.Aggregate.Tally.{IsValid}
use flow_observability.Spool.Tables.{SpoolTables}
use flow_observability.Spool.Methods.{enqueue}
use flow_observability.Capture.{
  CaptureConfig, CaptureState, Tick, again, turn, turns, flush_rest, stop, is_last,
}
use flow_observability.Capture.Ledger.{Turn-cases}
use flow_observability.Capture.Rounds.{turn-again, turn-stop, again_injective}
use flow_observability.Capture.Account.{
  Batch, all_buckets, all_errors, held_total, Stored, Account, IsReady, Account-cons,
}
use flow_observability.Capture.OneRound.{Moves-Round, Round-IsReady}

stop_injective : {t u : SpoolTables} → stop (ok tt) t ≡ stop (ok tt) u → t ≡ u
stop_injective h = cc

module _ (codec : Codec) (config : CaptureConfig) (link_type : ℤ) where
  pub turns-Account :
      (ticks : List Tick) (s u : CaptureState)
      → IsReady codec config link_type ticks s
      → turns codec config link_type ticks s ≡ again u
      → (batches : List Batch) × Account codec config link_type ticks s u batches
  unfolding turns
  turns-Account [] s u r h = (
    [],
    record {
      stored = ap (λ x. x.tables) (sym same);
      complete = tt;
      conserved = λ which. omega (arith, ap (held_total which) same);
      reported = omega (arith, ap (λ x. x.parse_errors) same);
      counted = omega (arith, ap (λ x. x.emitted) same);
    },
  )
    where
      same : s ≡ u
      same = again_injective h
  turns-Account (tick ∷ ticks) s u r h = elim (Turn-cases (turn codec config link_type tick s)) [
    | inr (result, t, e) ↦ ground arith
    | inl (s1, e) ↦
        let (bs, round) =
          Moves-Round codec config link_type tick ticks s r s1
            (turn-again codec config link_type tick s s1 e).0 in
        let (cs, rest) =
          turns-Account ticks s1 u (Round-IsReady codec config link_type tick ticks s r s1 bs round)
            (rw (e, turns) at h) in
        (bs ++ cs, Account-cons codec config link_type tick ticks s s1 u bs cs round.account rest)
  ]

  -- The loop up to the round in which it returns.
  pub record Finished (ticks : List Tick) (s : CaptureState) (t : SpoolTables) : Type 0 where
    pub used : List Tick
    pub rest : List Tick
    pub all_ticks : ticks ≡ used ++ rest
    pub last : CaptureState
    pub batches : List Batch
    pub account : Account codec config link_type used s last batches
    pub reset : last.parse_errors ≡ 0
    pub enough : is_last config.max_batches last.emitted ≡ true
    pub last_tick : Tick
    pub valid : IsValid last.aggregator
    pub flushed : flush_rest codec config link_type last_tick last ≡ stop (ok tt) t

  pub turns-Finished :
      (ticks : List Tick) (s : CaptureState) (t : SpoolTables)
      → IsReady codec config link_type ticks s
      → turns codec config link_type ticks s ≡ stop (ok tt) t
      → Finished ticks s t
  unfolding turns
  turns-Finished [] s t r h = cc
  turns-Finished (tick ∷ ticks) s t r h = elim (Turn-cases (turn codec config link_type tick s)) [
    | inr (result, t1, e) ↦
        let (u, m, z, l, f) =
          turn-stop codec config link_type tick s t (e ∙ (rw (e, turns) at h)) in
        let (bs, round) = Moves-Round codec config link_type tick ticks s r u m in
        record {
          used = tick ∷ [];
          rest = ticks;
          all_ticks = refl;
          last = u;
          batches = bs;
          account = round.account;
          reset = z;
          enough = l;
          last_tick = tick;
          valid = round.valid;
          flushed = f;
        }
    | inl (s1, e) ↦
        let (bs, round) =
          Moves-Round codec config link_type tick ticks s r s1
            (turn-again codec config link_type tick s s1 e).0 in
        let later : Finished ticks s1 t =
          turns-Finished ticks s1 t
            (Round-IsReady codec config link_type tick ticks s r s1 bs round)
            (rw (e, turns) at h) in
        record {
          used = tick ∷ later.used;
          rest = later.rest;
          all_ticks = ap (λ x. tick ∷ x) later.all_ticks;
          last = later.last;
          batches = bs ++ later.batches;
          account =
              Account-cons codec config link_type tick later.used s s1 later.last bs later.batches
                round.account later.account;
          reset = later.reset;
          enough = later.enough;
          last_tick = later.last_tick;
          valid = later.valid;
          flushed = later.flushed;
        }
  ]

  -- The last batch holds what was left.
  pub flush_rest-batches :
      (tick : Tick) (s : CaptureState) (t : SpoolTables)
      → flush_rest codec config link_type tick s ≡ stop (ok tt) t
      → (batches : List Batch) × Stored codec config link_type batches s.tables t
        × (all_buckets batches ≡ to_buckets s.aggregator.flows)
        × (all_errors batches ≡ 0)
  unfolding flush_rest drain_all to_buckets
  flush_rest-batches tick s t h = elim (List-cases (drain_all s.aggregator).1) [
    | inl d ↦ ([], sym (stop_injective (rw (d, flush_rest) at h)), sym d, refl)
    | inr (b, buckets, d) ↦ elim (Option-cases tick.last_clock) [
      | inl c ↦ cc (rw (c, flush_rest) at (rw (d, flush_rest) at h))
      | inr (now, c) ↦
          elim (Outcome-cases
            (enqueue codec tick.last_engine config.limits config.node_id config.boot_id now
              (b ∷ buckets) default_diagnostics s.tables).0) [
                | inl (result, e) ↦
                    let same =
                      stop_injective
                        (rw (e, flush_rest) at (rw (c, flush_rest) at (rw (d, flush_rest) at h))) in
                    (
                      record {
                        created_at = now;
                        buckets = b ∷ buckets;
                        diagnostics = default_diagnostics;
                      }
                          ∷ [],
                      (tick.last_engine, result, t, ground arith, refl),
                      append-nil (b ∷ buckets) ∙ sym d,
                      refl,
                    )
                | inr (inl (x, e)) ↦
                    cc (rw (e, flush_rest) at (rw (c, flush_rest) at (rw (d, flush_rest) at h)))
                | inr (inr e) ↦
                    cc (rw (e, flush_rest) at (rw (c, flush_rest) at (rw (d, flush_rest) at h)))
              ]
    ]
  ]
