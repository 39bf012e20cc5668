-- ===== src/Capture/Rounds.antt =====
-- The rounds of the loop of src/capture.rs as a relation: what one round, and any number of rounds,
-- have taken in and handed over.
use flow_observability.Base.{
  ℕ, ◌+◌, ◌%◌, ◌≡◌, ◌≢◌, refl, sym, ap, subst, ◌∙◌, List, [], ◌∷◌, Option, none, some, Outcome, ok,
  err, panic, arith, Outcome-cases, Option-cases, List-cases, Bool-cases, true, false, inl, inr,
  ◌⊎◌,
}
use flow_observability.Base.Int.{ℤ}
use flow_observability.Model.{FlowBucket}
use flow_observability.Model.Envelope.{Codec}
use flow_observability.Packet.{PacketMeta, PacketError, parse_packet}
use flow_observability.Sqlite.{Error}
use flow_observability.Aggregate.{Aggregator, u64_mod, drain_before}
use flow_observability.Spool.Tables.{SpoolTables}
use flow_observability.Spool.Methods.{EnqueueResult, enqueue, status}
use flow_observability.Capture.{
  CaptureConfig, CaptureState, Next, packet, Stats, Tick, Turn, again, stop, as_u64,
  diagnostics_since, is_last, current_bucket, receive, flush_rest, after_batch, emit_batch,
  drain_ended, turn,
}

-- What a frame gives: a packet or none, and whether it is a failure.
abbrev pub taken_of : Outcome PacketError (Option PacketMeta) → List PacketMeta
taken_of (ok (some m)) = m ∷ []
taken_of (ok none) = []
taken_of (err e) = []
taken_of panic = []

abbrev pub failure_of : Outcome PacketError (Option PacketMeta) → ℕ
failure_of (err e) = 1
failure_of (ok m) = 0
failure_of panic = 0

pub again_injective : {s u : CaptureState} → again s ≡ again u → s ≡ u
again_injective h = cc

module _ (codec : Codec) (config : CaptureConfig) (link_type : ℤ) where
  -- What a round takes in: the packets that are parsed, and the number of frames that are not.
  abbrev pub taken_in : Next → List PacketMeta
  taken_in (packet p) =
      taken_of (
        parse_packet p.bytes link_type (as_u64 p.tv_sec) p.len config.capture_point
          config.local_ips)
  taken_in _ = []

  abbrev pub failures : Next → ℕ
  failures (packet p) =
      failure_of (
        parse_packet p.bytes link_type (as_u64 p.tv_sec) p.len config.capture_point
          config.local_ips)
  failures _ = 0

  abbrev pub ended : (now : ℕ) → CaptureState → Aggregator × List FlowBucket
  ended now s = drain_before s.aggregator (current_bucket config.bucket_seconds now)

  -- A round that goes on, from `s` to `u`: no bucket had ended, or those that had are in a batch
  -- that the spool has taken.
  pub data Moves (tick : Tick) (s u : CaptureState) : Type 0 where
    waits :
        (s' : CaptureState) (now : ℕ)
        → receive codec config link_type tick.next s ≡ ok s'
        → tick.clock ≡ some now
        → (ended now s').1 ≡ []
        → u ≡ record s' { aggregator = (ended now s').0 }
        → Moves tick s u
    emits :
        (s' : CaptureState) (now : ℕ) (current : Stats) (result : EnqueueResult)
        → receive codec config link_type tick.next s ≡ ok s'
        → tick.clock ≡ some now
        → tick.stats ≡ some current
        → (ended now s').1 ≢ []
        → enqueue codec tick.engine config.limits config.node_id config.boot_id now
            (ended now s').1
            (diagnostics_since s'.prior_stats current s'.parse_errors)
            s'.tables
          ≡ (ok result, u.tables)
        → u ≡ record s' {
          aggregator = (ended now s').0;
          parse_errors = 0;
          prior_stats = current;
          emitted = (s'.emitted + 1) % u64_mod;
          tables = u.tables;
        }
        → Moves tick s u

  flush_rest-stops :
      (tick : Tick) (s u : CaptureState) → flush_rest codec config link_type tick s ≢ again u
  unfolding flush_rest
  flush_rest-stops tick s u e = ground arith

  -- A batch that the spool took, and the state behind it.
  abbrev Emits : Tick → (now : ℕ) → List FlowBucket → CaptureState → CaptureState → Type 0
  Emits tick now buckets s u =
      (current : Stats) × (result : EnqueueResult) × (tick.stats ≡ some current)
      × (enqueue codec tick.engine config.limits config.node_id config.boot_id now buckets
            (diagnostics_since s.prior_stats current s.parse_errors) s.tables
          ≡ (ok result, u.tables))
      × (u ≡ record s {
        parse_errors = 0;
        prior_stats = current;
        emitted = (s.emitted + 1) % u64_mod;
        tables = u.tables;
      })

  -- How the loop goes on, or returns without an error, behind a batch: `u` is the state that
  -- `max_batches` is compared with.
  abbrev pub Continues : Tick → CaptureState → Turn → Type 0
  Continues tick u result =
      ((is_last config.max_batches u.emitted ≡ false) × (result ≡ again u))
      ⊎ ((is_last config.max_batches u.emitted ≡ true)
          × (result ≡ flush_rest codec config link_type tick u))

  abbrev pub IsFailure : Turn → Type 0
  IsFailure (again s) = ⊥
  IsFailure (stop (ok done) t) = ⊥
  IsFailure (stop (err e) t) = Unit
  IsFailure (stop panic t) = Unit

  after_batch-cases :
      (tick : Tick) (s : CaptureState) (outcome : Outcome Error EnqueueResult)
      → IsFailure (after_batch codec config link_type tick s outcome)
        ⊎ ((result : EnqueueResult) × (outcome ≡ ok result)
            × Continues tick
                (record s { emitted = (s.emitted + 1) % u64_mod })
                (after_batch codec config link_type tick s outcome))
  unfolding after_batch
  after_batch-cases tick s (err e) = inl tt
  after_batch-cases tick s panic = inl tt
  after_batch-cases tick s (ok result) = elim (Outcome-cases (status codec tick.engine s.tables)) [
    | inl (report, e) ↦ elim (Bool-cases tick.stdout_open) [
      | inr o ↦ inl (rw (e, after_batch) (rw (o, after_batch) tt))
      | inl o ↦ elim (Bool-cases (is_last config.max_batches ((s.emitted + 1) % u64_mod))) [
        | inl l ↦ inr (result, refl, inr (l, ground arith))
        | inr l ↦ inr (result, refl, inl (l, ground arith))
      ]
    ]
    | inr (inl (x, e)) ↦ inl (rw (e, after_batch) tt)
    | inr (inr e) ↦ inl (rw (e, after_batch) tt)
  ]

  emit_batch-cases :
      (tick : Tick) (now : ℕ) (buckets : List FlowBucket) (s : CaptureState)
      → IsFailure (emit_batch codec config link_type tick now buckets s)
        ⊎ ((u : CaptureState) × Emits tick now buckets s u
            × Continues tick u (emit_batch codec config link_type tick now buckets s))
  unfolding emit_batch flush_rest
  emit_batch-cases tick now buckets s = elim (Option-cases tick.stats) [
    | inl e ↦ inl (rw (e, emit_batch) tt)
    | inr (current, e) ↦ elim (after_batch-cases tick (next current) (outcome current).0) [
      | inl f ↦ inl (rw (e, emit_batch) f)
      | inr (result, p, c) ↦ inr (
        record (next current) { emitted = (s.emitted + 1) % u64_mod },
        (current, result, e, ground arith, refl),
        rw (e, emit_batch) c,
      )
    ]
  ]
    where
      outcome : Stats → Outcome Error EnqueueResult × SpoolTables
      outcome current =
          enqueue codec tick.engine config.limits config.node_id config.boot_id now buckets
            (diagnostics_since s.prior_stats current s.parse_errors) s.tables

      next : Stats → CaptureState
      next current = record s {
        prior_stats = current;
        parse_errors = 0;
        tables = (outcome current).1;
      }

  receive-emitted :
      (next : Next) (s s' : CaptureState)
      → receive codec config link_type next s ≡ ok s'
      → s'.emitted ≡ s.emitted
  unfolding receive
  receive-emitted next s s' h = ground arith

  -- Every round: it fails, or it waits, or it emits a batch and continues.
  turn-cases :
      (tick : Tick) (s : CaptureState)
      → IsFailure (turn codec config link_type tick s)
        ⊎ ((u : CaptureState) × Moves tick s u
            × (u.emitted ≡ s.emitted)
            × (turn codec config link_type tick s ≡ again u))
        ⊎ ((u : CaptureState) × Moves tick s u
            × (u.parse_errors ≡ 0)
            × Continues tick u (turn codec config link_type tick s))
  unfolding turn drain_ended flush_rest
  turn-cases tick s = elim (Outcome-cases (receive codec config link_type tick.next s)) [
    | inr (inl (x, e)) ↦ inl (rw (e, turn) tt)
    | inr (inr e) ↦ inl (rw (e, turn) tt)
    | inl (s', e) ↦ elim (Option-cases tick.clock) [
      | inl c ↦ inl (rw (e, turn) (rw (c, turn) tt))
      | inr (now, c) ↦ elim (List-cases (ended now s').1) [
        | inl d ↦ inr (
            inl (
              record s' { aggregator = (ended now s').0 },
              waits s' now e c d refl,
              receive-emitted tick.next s s' e,
              ground arith,
            ))
        | inr (b, buckets, d) ↦
            elim (emit_batch-cases tick now (b ∷ buckets)
              (record s' { aggregator = (ended now s').0 })) [
                | inl f ↦ inl (rw (e, turn) (rw (c, turn) (rw (d, drain_ended) f)))
                | inr (u, (current, result, p, q, v), k) ↦ inr (
                    inr (
                      u,
                      emits s' now current result e c p (λ z. cc) (rw d q) v,
                      ap (λ x. x.parse_errors) v,
                      rw (e, turn) (rw (c, turn) (rw (d, drain_ended) k)),
                    ))
              ]
      ]
    ]
  ]

  pub turn-again :
      (tick : Tick) (s u : CaptureState)
      → turn codec config link_type tick s ≡ again u
      → Moves tick s u × ((u.emitted ≡ s.emitted) ⊎ (is_last config.max_batches u.emitted ≡ false))
  turn-again tick s u h = elim (turn-cases tick s) [
    | inl f ↦ absurd (subst IsFailure h f)
    | inr (inl (v, m, c, e)) ↦
        subst
          (λ x.
            Moves tick s x
            × ((x.emitted ≡ s.emitted) ⊎ (is_last config.max_batches x.emitted ≡ false)))
          (again_injective (sym e ∙ h)) (m, inl c)
    | inr (inr (v, m, z, inl (c, e))) ↦
        subst
          (λ x.
            Moves tick s x
            × ((x.emitted ≡ s.emitted) ⊎ (is_last config.max_batches x.emitted ≡ false)))
          (again_injective (sym e ∙ h)) (m, inr c)
    | inr (inr (v, m, z, inr (c, e))) ↦ absurd (flush_rest-stops tick v u (sym e ∙ h))
  ]

  pub turn-stop :
      (tick : Tick) (s : CaptureState) (t : SpoolTables)
      → turn codec config link_type tick s ≡ stop (ok tt) t
      → (u : CaptureState) × Moves tick s u
        × (u.parse_errors ≡ 0)
        × (is_last config.max_batches u.emitted ≡ true)
        × (flush_rest codec config link_type tick u ≡ stop (ok tt) t)
  turn-stop tick s t h = elim (turn-cases tick s) [
    | inl f ↦ absurd (subst IsFailure h f)
    | inr (inl (v, m, c, e)) ↦ cc
    | inr (inr (v, m, z, inl (c, e))) ↦ cc
    | inr (inr (v, m, z, inr (c, e))) ↦ (v, m, z, c, sym e ∙ h)
  ]
