-- ===== src/Spool/Guarantees.antt =====
-- What `enqueue` guarantees: the budget, that no batch disappears, the count that it reports.
use flow_observability.Base.{
  ℕ, ◌+◌, ◌-◌, ◌≤◌, ◌<◌, ◌≡◌, refl, ap, ◌∙◌, List, length, ltb, if◌then◌else◌, arith, ok, inl, inr,
  ◌⊎◌,
}
use flow_observability.Model.{Text, FlowBucket, CaptureDiagnostics, BatchEnvelope, GapEvent}
use flow_observability.Model.Envelope.{Codec}
use flow_observability.Sqlite.{Error}
use flow_observability.Sqlite.Inversion.{transaction-cases}
use flow_observability.Spool.Tables.{
  SpoolTables, BatchRow, total_payload, begin_transaction, commit_transaction,
}
use flow_observability.Spool.Evict.{SpoolLimits, SpoolEngine}
use flow_observability.Spool.Methods.{EnqueueResult, enqueue, enqueue_body}
use flow_observability.Spool.Rows.{
  count_seq-place_batch, count_gap-place_gap, length-place_batch, length-place_gap,
}
use flow_observability.Spool.Enqueue.{
  Encoded, Enqueued, rejected, stored, enqueue-Enqueued, row_of, rejected_gap, with_row, with_gap,
}
use flow_observability.Spool.Eviction.{evict_loop_induction}
use flow_observability.Spool.Bounds.{no_candidate-Within}
use flow_observability.Spool.Ledger.{account, IsSingle, evict_loop-Swept}
use flow_observability.Spool.Retention.{
  IsIn, Kept, IsIn-place_gap_self, IsIn-place_batch, IsIn-place_batch_self, evict_loop-Kept,
}

-- Each number below the next one is pending or a gap, unless it was acknowledged; none stands twice.
abbrev pub Accounted : (acknowledged : ℕ → ℕ) → SpoolTables → Type 0
Accounted acknowledged t =
    (s : ℕ) → account t s + acknowledged s ≡ (if ltb s t.next_seq then 1 else 0)

pub Accounted-IsSingle :
    (acknowledged : ℕ → ℕ) (t : SpoolTables) → Accounted acknowledged t → IsSingle t
Accounted-IsSingle acknowledged t h s = ground (arith, h s)

-- The new number was nowhere before, and is now in one place.
pub Accounted-with_row :
    (acknowledged : ℕ → ℕ) (t : SpoolTables) (r : BatchRow)
    → r.seq ≡ t.next_seq
    → Accounted acknowledged t
    → Accounted acknowledged (with_row t r)
Accounted-with_row acknowledged t r e h s = ground (arith, h s, count_seq-place_batch s r t.batches)

Accounted-with_gap :
    (acknowledged : ℕ → ℕ) (t : SpoolTables) (g : GapEvent)
    → g.seq ≡ t.next_seq
    → Accounted acknowledged t
    → Accounted acknowledged (with_gap t g)
Accounted-with_gap acknowledged t g e h s = ground (arith, h s, count_gap-place_gap s g t.gaps)

module _ (codec : Codec) (engine : SpoolEngine) (limits : SpoolLimits) (node_id boot_id : Text)
    (created_at : ℕ) (buckets : List FlowBucket) (diagnostics : CaptureDiagnostics)
    (t : SpoolTables) where
  Enqueued-Accounted :
      (acknowledged : ℕ → ℕ) (result : EnqueueResult) (t' : SpoolTables)
      → Accounted acknowledged t
      → Enqueued codec engine limits node_id boot_id created_at buckets diagnostics t result t'
      → Accounted acknowledged t'
  Enqueued-Accounted acknowledged result t' h (rejected e payload c big left shape) =
      rw left (Accounted-with_gap acknowledged t _ refl h)
  Enqueued-Accounted acknowledged result t' h (stored e payload evicted c small fresh swept shape) =
      let row = row_of t.next_seq created_at buckets e payload in
      let before = Accounted-with_row acknowledged t row refl h in
      let sweep =
        evict_loop-Swept limits (created_at - limits.max_age_seconds) created_at engine _
          (with_row t row) evicted t' (Accounted-IsSingle acknowledged (with_row t row) before)
          swept in
      λ s. ground (arith, sweep.same_account s, sweep.same_next, before s)

  Enqueued-budget :
      (result : EnqueueResult) (t' : SpoolTables)
      → total_payload t.batches ≤ limits.max_payload_bytes
      → Enqueued codec engine limits node_id boot_id created_at buckets diagnostics t result t'
      → total_payload t'.batches ≤ limits.max_payload_bytes
  Enqueued-budget result t' h (rejected e payload c big left shape) = rw left h
  Enqueued-budget result t' h (stored e payload evicted c small fresh swept shape) =
      (no_candidate-Within limits (created_at - limits.max_age_seconds) t'
        (evict_loop_induction engine limits (created_at - limits.max_age_seconds) created_at
          (λ n u. Unit {0}) (λ n u r v p q. tt) _ 0 _ evicted t' swept tt).1).bytes_within

  -- A success takes one number, whatever was accounted for.
  pub enqueue-next_seq :
      (result : EnqueueResult) (t' : SpoolTables)
      → enqueue codec engine limits node_id boot_id created_at buckets diagnostics t
        ≡ (ok result, t')
      → t'.next_seq ≡ t.next_seq + 1
  enqueue-next_seq result t' q = taken (
      enqueue-Enqueued codec engine limits node_id boot_id created_at buckets diagnostics t result
        t' q)
    where
      taken :
          Enqueued codec engine limits node_id boot_id created_at buckets diagnostics t result t'
          → t'.next_seq ≡ t.next_seq + 1
      taken (rejected e payload c big left shape) = ap (λ (u : SpoolTables). u.next_seq) left
      taken (stored e payload evicted c small fresh swept shape) =
          (evict_loop_induction engine limits (created_at - limits.max_age_seconds) created_at
            (λ n u. u.next_seq ≡ t.next_seq + 1)
            (λ n u r v p round. ap (λ (x : SpoolTables). x.next_seq) round.0 ∙ p) _ 0 _ evicted t'
            swept refl).0

  -- However an `enqueue` ends, it leaves the tables as they were or as an enqueued batch leaves them.
  enqueue-cases :
      (P : SpoolTables → Type 0)
      → P t
      → ((result : EnqueueResult) (t' : SpoolTables)
          → Enqueued codec engine limits node_id boot_id created_at buckets diagnostics t result t'
          → P t')
      → P (enqueue codec engine limits node_id boot_id created_at buckets diagnostics t).1
  unfolding enqueue
  enqueue-cases P same changed =
      elim (transaction-cases engine (λ (x : Error). x) begin_transaction commit_transaction
        (enqueue_body codec engine limits node_id boot_id created_at buckets diagnostics) t) [
          | inl e ↦ rw e same
          | inr (result, t', e) ↦ rw e (
              changed result t' (
                enqueue-Enqueued codec engine limits node_id boot_id created_at buckets diagnostics
                  t result t' e))
        ]

  -- However `enqueue` ends, errors and failures of the engine included, the pending payloads stay
  -- within the byte budget.
  pub enqueue_budget :
      total_payload t.batches ≤ limits.max_payload_bytes
      → total_payload
          (enqueue codec engine limits node_id boot_id created_at buckets diagnostics t).1.batches
        ≤ limits.max_payload_bytes
  enqueue_budget h =
      enqueue-cases (λ u. total_payload u.batches ≤ limits.max_payload_bytes) h
        λ result t' q. Enqueued-budget result t' h q

  -- However `enqueue` ends, each sequence number below the next one is still in exactly one place.
  pub enqueue-Accounted :
      (acknowledged : ℕ → ℕ)
      → Accounted acknowledged t
      → Accounted acknowledged
          (enqueue codec engine limits node_id boot_id created_at buckets diagnostics t).1
  enqueue-Accounted acknowledged h =
      enqueue-cases (Accounted acknowledged) h
        λ result t' q. Enqueued-Accounted acknowledged result t' h q

  -- A success reports as evicted exactly the batches that became gaps: so many gaps more, and so
  -- many rows fewer than with the new one; and a new number was taken.
  pub enqueue_counts :
      (acknowledged : ℕ → ℕ) (result : EnqueueResult) (t' : SpoolTables)
      → Accounted acknowledged t
      → enqueue codec engine limits node_id boot_id created_at buckets diagnostics t
        ≡ (ok result, t')
      → (length t'.gaps ≡ length t.gaps + result.evicted_batches)
        × (length t'.batches + result.evicted_batches ≡ length t.batches + 1)
        × (t'.next_seq ≡ t.next_seq + 1)
  enqueue_counts acknowledged result t' h q = counts (
      enqueue-Enqueued codec engine limits node_id boot_id created_at buckets diagnostics t result
        t' q)
    where
      counts :
          Enqueued codec engine limits node_id boot_id created_at buckets diagnostics t result t'
          → (length t'.gaps ≡ length t.gaps + result.evicted_batches)
            × (length t'.batches + result.evicted_batches ≡ length t.batches + 1)
            × (t'.next_seq ≡ t.next_seq + 1)
      counts (rejected e payload c big left shape) =
          ground
            (arith, length-place_gap (rejected_gap t.next_seq created_at buckets payload) t.gaps)
      counts (stored e payload evicted c small fresh swept shape) =
          let row = row_of t.next_seq created_at buckets e payload in
          let before = Accounted-with_row acknowledged t row refl h in
          let sweep =
            evict_loop-Swept limits (created_at - limits.max_age_seconds) created_at engine _
              (with_row t row) evicted t' (Accounted-IsSingle acknowledged (with_row t row) before)
              swept in
          ground (arith, sweep.fewer, sweep.more, sweep.same_next, length-place_batch row t.batches)

  Enqueued-Kept :
      (acknowledged : ℕ → ℕ) (result : EnqueueResult) (t' : SpoolTables)
      → Accounted acknowledged t
      → Enqueued codec engine limits node_id boot_id created_at buckets diagnostics t result t'
      → ((r : BatchRow)
          → IsIn r t.batches
          → Kept limits (created_at - limits.max_age_seconds) created_at r t')
        × ((e : BatchEnvelope) × (payload : Text) × Encoded codec engine limits node_id boot_id
              created_at buckets diagnostics t e payload
            × (Kept limits
                  (created_at - limits.max_age_seconds)
                  created_at
                  (row_of t.next_seq created_at buckets e payload)
                  t'
                ⊎ ((limits.max_payload_bytes < length payload)
                    × IsIn (rejected_gap t.next_seq created_at buckets payload) t'.gaps)))
  Enqueued-Kept acknowledged result t' h (rejected e payload c big left shape) = (
    λ r m. inl (rw left m),
    (
      e,
      payload,
      c,
      inr (
        big,
        rw left (IsIn-place_gap_self (rejected_gap t.next_seq created_at buckets payload) t.gaps),
      ),
    ),
  )
  Enqueued-Kept acknowledged result t' h (stored e payload evicted c small fresh swept shape) =
      let row = row_of t.next_seq created_at buckets e payload in
      let single : IsSingle (with_row t row) =
        Accounted-IsSingle acknowledged (with_row t row)
          (Accounted-with_row acknowledged t row refl h) in
      let keep = λ (r : BatchRow).
        evict_loop-Kept limits (created_at - limits.max_age_seconds) created_at engine r _
          (with_row t row) evicted t' single swept in
      (
        λ r m. keep r (inl (IsIn-place_batch r row t.batches m)),
        (e, payload, c, inl (keep row (inl (IsIn-place_batch_self row t.batches)))),
      )

  -- If the numbers are accounted for and `enqueue` succeeds, no batch disappears: each row that was
  -- pending is pending, or stands among the gaps with its number, its range, its bytes and the
  -- reason, the age limit if it was created before the cutoff and the byte limit otherwise; and the
  -- batch just enqueued is pending, or is such a gap, or its payload exceeds the whole budget and a
  -- gap with this reason stands for it.
  pub enqueue_retains :
      (acknowledged : ℕ → ℕ) (result : EnqueueResult) (t' : SpoolTables)
      → Accounted acknowledged t
      → enqueue codec engine limits node_id boot_id created_at buckets diagnostics t
        ≡ (ok result, t')
      → ((r : BatchRow)
          → IsIn r t.batches
          → Kept limits (created_at - limits.max_age_seconds) created_at r t')
        × ((e : BatchEnvelope) × (payload : Text) × Encoded codec engine limits node_id boot_id
              created_at buckets diagnostics t e payload
            × (Kept limits
                  (created_at - limits.max_age_seconds)
                  created_at
                  (row_of t.next_seq created_at buckets e payload)
                  t'
                ⊎ ((limits.max_payload_bytes < length payload)
                    × IsIn (rejected_gap t.next_seq created_at buckets payload) t'.gaps)))
  enqueue_retains acknowledged result t' h q = Enqueued-Kept acknowledged result t' h (
      enqueue-Enqueued codec engine limits node_id boot_id created_at buckets diagnostics t result
        t' q)
