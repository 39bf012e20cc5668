-- ===== src/Command/Synthetic.antt =====
-- The command `synthetic` of src/main.rs stores the batches it was asked for.
use flow_observability.Base.{
  ℕ, zero, suc, ◌+◌, ◌*◌, ◌<◌, ◌≡◌, refl, ap, [], ◌∷◌, some, ok, arith, length,
}
use flow_observability.Model.{Text, SpoolStatus, default_diagnostics}
use flow_observability.Model.Envelope.{Codec}
use flow_observability.Sqlite.{i64_bound, sum_column}
use flow_observability.Spool.Tables.{SpoolTables, read_status, select_status, total_payload}
use flow_observability.Spool.Evict.{SpoolLimits, SpoolEngine}
use flow_observability.Spool.Methods.{EnqueueResult, enqueue, status}
use flow_observability.Sqlite.Step.{query}
use flow_observability.Spool.Guarantees.{enqueue_counts}
use flow_observability.Spool.Sweeps.{Faultless}
use flow_observability.Spool.Names.{Serialises}
use flow_observability.Spool.Room.{IsServiceable, enqueue_succeeds}
use flow_observability.Command.{
  synthetic_bucket, synthetic_boot, synthetic_loop, synthetic, printed_status, print_status,
}

module _ (codec : Codec) (engine : SpoolEngine) (limits : SpoolLimits) (node : Text)
    (serialises : Serialises codec) (faultless : Faultless engine) (acknowledged : ℕ → ℕ) where
  synthetic_step :
      (now count index : ℕ) (t t1 t' : SpoolTables) (result : EnqueueResult)
      → enqueue codec engine limits node synthetic_boot
          (synthetic_bucket now index).bucket_start
          (synthetic_bucket now index ∷ [])
          default_diagnostics
          t
        ≡ (ok result, t1)
      → synthetic_loop codec engine limits node now count (index + 1) t1 ≡ (ok tt, t')
      → synthetic_loop codec engine limits node now (suc count) index t ≡ (ok tt, t')
  unfolding synthetic_loop
  synthetic_step now count index t t1 t' result q rest =
      rw (ap (λ x. x.0) q, synthetic_loop) (rw (ap (λ x. x.1) q) rest)

  synthetic_loop_succeeds :
      (now count index : ℕ) (t : SpoolTables)
      → t.next_seq + count + 1 < i64_bound
      → now + (index + count) * 10 < i64_bound
      → IsServiceable codec limits acknowledged t
      → (t' : SpoolTables) × (synthetic_loop codec engine limits node now count index t
          ≡ (ok tt, t'))
        × (t'.next_seq ≡ t.next_seq + count)
        × (length t'.batches + length t'.gaps ≡ length t.batches + length t.gaps + count)
        × IsServiceable codec limits acknowledged t'
  unfolding synthetic_loop synthetic_bucket
  synthetic_loop_succeeds now zero index t h k s = (t, refl, omega arith, omega arith, s)
  synthetic_loop_succeeds now (suc count) index t h k s =
      let bucket = synthetic_bucket now index in
      let (result, t1, q, n, s1) =
        enqueue_succeeds codec engine limits node synthetic_boot bucket.bucket_start (bucket ∷ [])
          default_diagnostics t acknowledged serialises faultless (omega (arith, h))
          (omega (arith, k)) (omega (arith, k), tt) s in
      let (t', rest, m, c, s') =
        synthetic_loop_succeeds now count (index + 1) t1 (omega (arith, h, n)) (omega (arith, k))
          s1 in
      (
        t',
        synthetic_step now count index t t1 t' result q rest,
        omega (arith, m, n),
        omega (
          arith,
          c,
          enqueue_counts codec engine limits node synthetic_boot bucket.bucket_start (bucket ∷ [])
              default_diagnostics t acknowledged result t1 s.room.accounted q,
        ),
        s',
      )

  status_succeeds :
      (t : SpoolTables)
      → IsServiceable codec limits acknowledged t
      → (r : SpoolStatus) × (status codec engine t ≡ ok (r, t))
        × (r.pending_batches ≡ length t.batches)
        × (r.gap_events ≡ length t.gaps)
  unfolding status query read_status sum_column
  status_succeeds t s = (
    record {
      pending_batches = length t.batches;
      pending_payload_bytes = total_payload t.batches;
      gap_events = length t.gaps;
    },
    ground (arith, faultless select_status t, s.room.within_budget, s.room.budget_fits),
    refl,
    refl,
  )

  synthetic-prints :
      (now batches : ℕ) (t t' : SpoolTables) (r : SpoolStatus)
      → synthetic_loop codec engine limits node now batches 0 t ≡ (ok tt, t')
      → status codec engine t' ≡ ok (r, t')
      → synthetic codec engine limits node batches (some now) t ≡ (ok (printed_status r), t')
  unfolding synthetic
  synthetic-prints now batches t t' r q p =
      rw (ap (λ x. x.0) q, synthetic)
        (rw (ap (λ x. x.1) q) (ap (λ x. (x, t')) (rw (p, print_status) refl)))

  -- `synthetic` returns, prints the status, and each batch that it was asked for is pending or among
  -- the gaps then: together these are as many as before and the batches more. This asks for an engine
  -- that fails no statement, serialisation that does not fail, a clock, a spool that takes any batch
  -- (see `IsServiceable`), and for numbers and times that stay within an i64.
  pub synthetic-returns :
      (now batches : ℕ) (t : SpoolTables)
      → t.next_seq + batches + 1 < i64_bound
      → now + batches * 10 < i64_bound
      → IsServiceable codec limits acknowledged t
      → (r : SpoolStatus) × (t' : SpoolTables) × (synthetic codec engine limits node batches
            (some now)
            t
          ≡ (ok (printed_status r), t'))
        × (t'.next_seq ≡ t.next_seq + batches)
        × (r.pending_batches + r.gap_events ≡ length t.batches + length t.gaps + batches)
  synthetic-returns now batches t h k s =
      let (t', q, n, c, s') = synthetic_loop_succeeds now batches 0 t h (omega (arith, k)) s in
      let (r, p, a, b) = status_succeeds t' s' in
      (r, t', synthetic-prints now batches t t' r q p, n, omega (arith, a, b, c))
