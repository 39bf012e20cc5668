-- ===== src/Capture/Account.antt =====
-- What the rounds of the loop of src/capture.rs have handed to the spool, against what they took in.
use mathlib.Core.List.{append_assoc}
use flow_observability.Base.{
  length-append, ℕ, ◌+◌, ◌≤◌, ◌<◌, ◌≡◌, refl, ap, subst, List, [], ◌∷◌, ◌++◌, length, ok, arith,
  All,
}
use flow_observability.Base.Int.{ℤ}
use flow_observability.Model.{FlowBucket, CaptureDiagnostics}
use flow_observability.Model.Envelope.{Codec}
use flow_observability.Packet.{PacketMeta}
use flow_observability.Aggregate.{u64_mod, to_buckets}
use flow_observability.Aggregate.Tally.{IsValid}
use flow_observability.Aggregate.Stream.{Counter, added, total, total-append}
use flow_observability.Spool.Tables.{SpoolTables}
use flow_observability.Spool.Evict.{SpoolEngine}
use flow_observability.Spool.Methods.{EnqueueResult, enqueue}
use flow_observability.Spool.Guarantees.{enqueue-next_seq}
use flow_observability.Capture.{CaptureConfig, CaptureState, Tick}
use flow_observability.Capture.Rounds.{taken_in, failures}

-- What a call of `enqueue` was given, but for the node and the boot, which never change.
pub record Batch : Type 0 where
  pub created_at : ℕ
  pub buckets : List FlowBucket
  pub diagnostics : CaptureDiagnostics

abbrev pub all_buckets : List Batch → List FlowBucket
all_buckets [] = []
all_buckets (b ∷ batches) = b.buckets ++ all_buckets batches

abbrev pub all_errors : List Batch → ℕ
all_errors [] = 0
all_errors (b ∷ batches) = b.diagnostics.parse_errors + all_errors batches

abbrev pub sum_added : Counter → List PacketMeta → ℕ
sum_added which [] = 0
sum_added which (p ∷ ps) = added which p + sum_added which ps

pub sum_added-append :
    (which : Counter) (ps qs : List PacketMeta)
    → sum_added which (ps ++ qs) ≡ sum_added which ps + sum_added which qs
sum_added-append which [] qs = omega arith
sum_added-append which (p ∷ ps) qs = omega (arith, sum_added-append which ps qs)

abbrev pub held_total : Counter → CaptureState → ℕ
held_total which s = total which (to_buckets s.aggregator.flows)

pub all_buckets-append :
    (bs cs : List Batch) → all_buckets (bs ++ cs) ≡ all_buckets bs ++ all_buckets cs
all_buckets-append [] cs = refl
all_buckets-append (b ∷ bs) cs = simp (all_buckets-append bs cs, append_assoc)

pub all_errors-append : (bs cs : List Batch) → all_errors (bs ++ cs) ≡ all_errors bs + all_errors cs
all_errors-append [] cs = omega arith
all_errors-append (b ∷ bs) cs = omega (arith, all_errors-append bs cs)

All-append {ℓ κ} :
    {A : Type ℓ} (P : A → Type κ) (xs ys : List A) → All P xs → All P ys → All P (xs ++ ys)
All-append P [] ys h k = k
All-append P (x ∷ xs) ys h k = (h.0, All-append P xs ys h.1 k)

module _ (codec : Codec) (config : CaptureConfig) (link_type : ℤ) where
  abbrev pub all_packets : List Tick → List PacketMeta
  all_packets [] = []
  all_packets (tick ∷ ticks) = taken_in codec config link_type tick.next ++ all_packets ticks

  abbrev pub all_failures : List Tick → ℕ
  all_failures [] = 0
  all_failures (tick ∷ ticks) = failures codec config link_type tick.next + all_failures ticks

  -- The spool took each of the batches, in this order.
  abbrev pub Stored : List Batch → SpoolTables → SpoolTables → Type 0
  Stored [] t t' = t' ≡ t
  Stored (b ∷ batches) t t' =
      (engine : SpoolEngine) × (result : EnqueueResult) × (t1 : SpoolTables) × (enqueue codec engine
          config.limits config.node_id config.boot_id b.created_at b.buckets b.diagnostics t
        ≡ (ok result, t1))
      × Stored batches t1 t'

  -- The buckets had ended when the batch was made.
  abbrev pub IsComplete : Batch → Type 0
  IsComplete b =
      All (λ (k : FlowBucket). k.bucket_start + config.bucket_seconds ≤ b.created_at) b.buckets

  pub record Account (ticks : List Tick) (s u : CaptureState) (batches : List Batch) : Type 0 where
    pub stored : Stored batches s.tables u.tables
    pub complete : All IsComplete batches
    pub conserved :
        (which : Counter)
        → held_total which u + total which (all_buckets batches)
          ≡ held_total which s + sum_added which (all_packets ticks)
    pub reported : all_errors batches + u.parse_errors ≡ s.parse_errors + all_failures ticks
    pub counted : u.emitted ≡ s.emitted + length batches

  -- What the loop relies on from one round to the next.
  pub record IsReady (ticks : List Tick) (s : CaptureState) : Type 0 where
    pub valid : IsValid s.aggregator
    pub same_width : s.aggregator.bucket_seconds ≡ config.bucket_seconds
    pub fits :
        (which : Counter) → held_total which s + sum_added which (all_packets ticks) < u64_mod
    pub errors_fit : s.parse_errors + all_failures ticks < u64_mod
    pub count_fits : s.emitted + length ticks < u64_mod

  pub Stored-append :
      (bs cs : List Batch) (t t1 t2 : SpoolTables)
      → Stored bs t t1
      → Stored cs t1 t2
      → Stored (bs ++ cs) t t2
  Stored-append [] cs t t1 t2 h k = subst (λ x. Stored cs x t2) h k
  Stored-append (b ∷ bs) cs t t1 t2 (engine, result, t', e, h) k =
      (engine, result, t', e, Stored-append bs cs t' t1 t2 h k)

  -- Each batch takes one number.
  pub Stored-next_seq :
      (batches : List Batch) (t t' : SpoolTables)
      → Stored batches t t'
      → t'.next_seq ≡ t.next_seq + length batches
  Stored-next_seq [] t t' h = omega (arith, ap (λ (x : SpoolTables). x.next_seq) h)
  Stored-next_seq (b ∷ batches) t t' (engine, result, t1, e, h) = omega (
    arith,
    Stored-next_seq batches t1 t' h,
    enqueue-next_seq codec engine config.limits config.node_id config.boot_id b.created_at b.buckets
        b.diagnostics t result t1 e,
  )

  pub Account-cons :
      (tick : Tick) (ticks : List Tick) (s t u : CaptureState) (bs cs : List Batch)
      → Account (tick ∷ []) s t bs
      → Account ticks t u cs
      → Account (tick ∷ ticks) s u (bs ++ cs)
  Account-cons tick ticks s t u bs cs a b = record {
    stored = Stored-append bs cs s.tables t.tables u.tables a.stored b.stored;
    complete = All-append IsComplete bs cs a.complete b.complete;
    conserved = λ which. omega (
      arith,
      a.conserved which,
      b.conserved which,
      ap (total which) (all_buckets-append bs cs),
      total-append which (all_buckets bs) (all_buckets cs),
      sum_added-append which (taken_in codec config link_type tick.next) [],
      sum_added-append which (taken_in codec config link_type tick.next) (all_packets ticks),
    );
    reported = omega (arith, a.reported, b.reported, all_errors-append bs cs);
    counted = omega (arith, a.counted, b.counted, length-append bs cs);
  }
