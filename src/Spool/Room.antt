-- ===== src/Spool/Room.antt =====
-- A spool on which `enqueue` succeeds, call after call (src/spool.rs).
use flow_observability.Base.{ℕ, ◌+◌, ◌≤◌, ◌<◌, ◌≡◌, ap, subst, List, length, take, arith, ok, All}
use flow_observability.Model.{
  Text, FlowBucket, CaptureDiagnostics, BatchBody, BatchEnvelope, schema_version_const,
}
use flow_observability.Model.Envelope.{Codec, new_envelope, batch_id_of, first_bytes, body_checksum}
use flow_observability.Sqlite.{i64_bound}
use flow_observability.Spool.Tables.{SpoolTables, total_payload}
use flow_observability.Spool.Evict.{SpoolLimits, SpoolEngine}
use flow_observability.Spool.Methods.{EnqueueResult, enqueue}
use flow_observability.Spool.Enqueue.{Encoded, enqueue-Enqueued}
use flow_observability.Spool.Guarantees.{
  Accounted, enqueue-Accounted, enqueue_budget, enqueue_counts,
}
use flow_observability.Spool.Sweeps.{FitsRow, Faultless}
use flow_observability.Spool.Progress.{
  HasRoom, StartsFit, enqueue-returns, next_is_free, has_batch_seq-count, row-FitsRow,
}
use flow_observability.Spool.Names.{Serialises, All-enqueue, Names, Names-fresh, new_envelope-Names}

module _ (codec : Codec) where
  -- A spool that takes any batch: there is room, and the identifiers are the program's own.
  pub record IsServiceable (limits : SpoolLimits) (acknowledged : ℕ → ℕ) (t : SpoolTables)
      : Type 0 where
    pub room : HasRoom limits acknowledged t
    pub named : All (λ r. Names codec r.seq r.batch_id) t.batches

  module _ (engine : SpoolEngine) (limits : SpoolLimits) (node_id boot_id : Text) (created_at : ℕ)
      (buckets : List FlowBucket) (diagnostics : CaptureDiagnostics) (t : SpoolTables)
      (acknowledged : ℕ → ℕ) (serialises : Serialises codec) where
    encoded :
        (e : BatchEnvelope) × Encoded codec engine limits node_id boot_id created_at buckets
          diagnostics t e
          (serialises.payload_of e)
    unfolding new_envelope body_checksum first_bytes
    encoded = (
      envelope,
      record {
        envelope = ground (
          arith,
          serialises.body_serialises body,
          codec.length-hash_hex (serialises.body_of body),
        );
        serialised = serialises.envelope_serialises envelope;
      },
    )
      where
        body : BatchBody
        body = record {
          schema_version = schema_version_const;
          node_id = node_id;
          boot_id = boot_id;
          seq = t.next_seq;
          created_at = created_at;
          buckets = buckets;
          diagnostics = diagnostics;
        }

        envelope : BatchEnvelope
        envelope = record {
          batch_id = batch_id_of codec body (take 16 (codec.hash_hex (serialises.body_of body)));
          checksum = codec.hash_hex (serialises.body_of body);
          body = body;
        }

    short :
        (e : BatchEnvelope) (payload : Text)
        → Encoded codec engine limits node_id boot_id created_at buckets diagnostics t e payload
        → length payload < i64_bound
    short e payload c =
        let same : payload ≡ serialises.payload_of e =
          cc (c.serialised, serialises.envelope_serialises e) in
        omega (arith, ap length same, serialises.payload_fits e)

    IsServiceable-enqueue :
        (result : EnqueueResult) (t' : SpoolTables)
        → t.next_seq + 1 < i64_bound
        → created_at < i64_bound
        → StartsFit buckets
        → IsServiceable limits acknowledged t
        → enqueue codec engine limits node_id boot_id created_at buckets diagnostics t
          ≡ (ok result, t')
        → IsServiceable limits acknowledged t'
    IsServiceable-enqueue result t' next_fits created_fits starts_fit s q =
        let done =
          enqueue-Enqueued codec engine limits node_id boot_id created_at buckets diagnostics t
            result t' q in
        record {
          room = record {
            accounted = subst (Accounted acknowledged) (ap (λ x. x.1) q) (
                enqueue-Accounted codec engine limits node_id boot_id created_at buckets diagnostics
                  t acknowledged s.room.accounted);
            rows_fit =
                All-enqueue codec engine limits node_id boot_id created_at buckets diagnostics t
                  FitsRow result t' s.room.rows_fit
                  (λ e payload c.
                    row-FitsRow t.next_seq created_at buckets e payload s.room.next_fits starts_fit
                      (short e payload c))
                  done;
            within_budget =
                subst (λ (x : SpoolTables). total_payload x.batches ≤ limits.max_payload_bytes)
                  (ap (λ x. x.1) q)
                  (enqueue_budget codec engine limits node_id boot_id created_at buckets diagnostics
                    t s.room.within_budget);
            budget_fits = s.room.budget_fits;
            next_fits = omega (
              arith,
              next_fits,
              (enqueue_counts codec engine limits node_id boot_id created_at buckets diagnostics t
                  acknowledged result t' s.room.accounted q).2,
            );
          };
          named =
              All-enqueue codec engine limits node_id boot_id created_at buckets diagnostics t
                (λ r. Names codec r.seq r.batch_id) result t' s.named
                (λ e payload c.
                  new_envelope-Names codec node_id boot_id t.next_seq created_at buckets diagnostics
                    e c.envelope)
                done;
        }

    -- On a spool whose numbers are accounted for, whose rows were named by the program and fit their
    -- columns and the budget, `enqueue` succeeds, takes the next number, and leaves such a spool. The
    -- engine fails no statement, serialisation does not fail, the time of creation and the starts of
    -- the buckets fit an i64, twice the budget and the number after the next one too.
    pub enqueue_succeeds :
        Faultless engine
        → t.next_seq + 1 < i64_bound
        → created_at < i64_bound
        → StartsFit buckets
        → IsServiceable limits acknowledged t
        → (result : EnqueueResult) × (t' : SpoolTables) × (enqueue codec engine limits node_id
              boot_id created_at buckets diagnostics t
            ≡ (ok result, t'))
          × (t'.next_seq ≡ t.next_seq + 1)
          × IsServiceable limits acknowledged t'
    enqueue_succeeds faultless next_fits created_fits starts_fit s =
        let (e, coded) = encoded in
        let (result, t', q) =
          enqueue-returns codec engine faultless limits node_id boot_id created_at buckets
            diagnostics t acknowledged s.room e (serialises.payload_of e) created_fits starts_fit
            (serialises.payload_fits e) coded
            (Names-fresh codec t.next_seq e.batch_id t.batches s.room.next_fits
              (new_envelope-Names codec node_id boot_id t.next_seq created_at buckets diagnostics e
                coded.envelope)
              s.room.rows_fit s.named
              (has_batch_seq-count t.next_seq t.batches
                (omega (arith, next_is_free limits acknowledged t s.room)))) in
        (
          result,
          t',
          q,
          (enqueue_counts codec engine limits node_id boot_id created_at buckets diagnostics t
              acknowledged result t' s.room.accounted q).2,
          IsServiceable-enqueue result t' next_fits created_fits starts_fit s q,
        )
