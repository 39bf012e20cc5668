-- ===== src/Command/Records.antt =====
-- What the commands of src/main.rs do with the numbers of a spool.
use flow_observability.Base.{
  ℕ, zero, suc, ◌+◌, sym, subst, List, [], ◌∷◌, Option, none, some, ok, err, panic, arith, inl, inr,
  Outcome-cases, Bool-cases, text_eq, if◌then◌else◌,
}
use flow_observability.Model.{Text, BatchEnvelope, default_diagnostics}
use flow_observability.Model.Envelope.{Codec}
use flow_observability.Spool.Tables.{SpoolTables, total_payload, delete_acknowledged}
use flow_observability.Spool.Evict.{SpoolLimits, SpoolEngine}
use flow_observability.Spool.Methods.{enqueue, acknowledge, pending}
use flow_observability.Spool.Guarantees.{Accounted, enqueue-Accounted}
use flow_observability.Spool.History.{Life, acknowledge_call, after, after-IsSound, count_deleted}
use flow_observability.Upload.{Server, upload_all, upload_once}
use flow_observability.Upload.Acknowledged.{pending_unchanged}
use flow_observability.Command.{synthetic_bucket, synthetic_boot, synthetic_loop, synthetic}

-- How often a number stands among the rows that an acknowledgement deletes.
abbrev deleted_by : SpoolEngine → (batch_id checksum : Text) → SpoolTables → ℕ → ℕ
deleted_by engine id checksum t n = elim (engine delete_acknowledged t) [
  | none ↦ count_deleted id checksum n t.batches
  | some fault ↦ 0
]

module _ (codec : Codec) (engine : SpoolEngine) where
  acknowledge-Accounted :
      (id checksum : Text) (t : SpoolTables) (acknowledged : ℕ → ℕ)
      → Accounted acknowledged t
      → Accounted
          (λ n. acknowledged n + deleted_by engine id checksum t n)
          (acknowledge codec engine id checksum t).1
  unfolding after
  acknowledge-Accounted id checksum t acknowledged h =
      let limits : SpoolLimits = record {
        max_payload_bytes = total_payload t.batches;
        max_age_seconds = 0;
      } in
      let l : Life = record { tables = t; acknowledged = acknowledged } in
      (after-IsSound codec limits (acknowledge_call id checksum engine) l
        (record { accounted = h; within_budget = omega arith })).accounted

  synthetic_loop-Accounted :
      (limits : SpoolLimits) (node : Text) (now count index : ℕ) (t : SpoolTables)
      (acknowledged : ℕ → ℕ)
      → Accounted acknowledged t
      → Accounted acknowledged (synthetic_loop codec engine limits node now count index t).1
  unfolding synthetic_loop
  synthetic_loop-Accounted limits node now zero index t acknowledged h = h
  synthetic_loop-Accounted limits node now (suc count) index t acknowledged h =
      let bucket = synthetic_bucket now index in
      let outcome =
        enqueue codec engine limits node synthetic_boot bucket.bucket_start (bucket ∷ [])
          default_diagnostics t in
      let kept =
        enqueue-Accounted codec engine limits node synthetic_boot bucket.bucket_start (bucket ∷ [])
          default_diagnostics t acknowledged h in
      elim (Outcome-cases outcome.0) [
        | inl (result, e) ↦
            rw (e, synthetic_loop)
              (synthetic_loop-Accounted limits node now count (index + 1) outcome.1 acknowledged
                kept)
        | inr (inl (x, e)) ↦ rw (e, synthetic_loop) kept
        | inr (inr e) ↦ rw (e, synthetic_loop) kept
      ]

  pub synthetic-Accounted :
      (limits : SpoolLimits) (node : Text) (batches : ℕ) (clock : Option ℕ) (t : SpoolTables)
      (acknowledged : ℕ → ℕ)
      → Accounted acknowledged t
      → Accounted acknowledged (synthetic codec engine limits node batches clock t).1
  unfolding synthetic
  synthetic-Accounted limits node batches none t acknowledged h = h
  synthetic-Accounted limits node batches (some now) t acknowledged h =
      let kept = synthetic_loop-Accounted limits node now batches 0 t acknowledged h in
      elim (Outcome-cases (synthetic_loop codec engine limits node now batches 0 t).0) [
        | inl (done, e) ↦ rw (e, synthetic) kept
        | inr (inl (x, e)) ↦ rw (e, synthetic) kept
        | inr (inr e) ↦ rw (e, synthetic) kept
      ]

  module _ {S : Type 0} (server : Server S) where
    -- How often a number is acknowledged in the upload: the other side answers the envelope with its
    -- own identifier, and the engine then deletes the row.
    unfoldable pub upload_all_acks : List BatchEnvelope → SpoolTables → S → ℕ → ℕ
    upload_all_acks [] t s n = 0
    upload_all_acks (e ∷ envelopes) t s n =
        let done = acknowledge codec engine e.batch_id e.checksum t in
        let rest = upload_all_acks envelopes done.1 (server e s).1 n in
        elim ((server e s).0) [
          | err failure ↦ 0
          | panic ↦ 0
          | ok ack ↦
              if text_eq ack.batch_id e.batch_id
              then deleted_by engine e.batch_id e.checksum t n
                + elim (done.0) [ ok deleted ↦ rest | err failure ↦ 0 | panic ↦ 0 ]
              else 0
        ]

    unfoldable pub upload_once_acks : (limit : ℕ) → SpoolTables → S → ℕ → ℕ
    unfolding upload_all_acks
    upload_once_acks limit t s n = elim (pending codec engine limit t) [
      | err failure ↦ 0
      | panic ↦ 0
      | ok (envelopes, t') ↦ upload_all_acks envelopes t' s n
    ]

    upload_all-Accounted :
        (envelopes : List BatchEnvelope) (k : ℕ) (t : SpoolTables) (s : S) (acknowledged : ℕ → ℕ)
        → Accounted acknowledged t
        → Accounted
            (λ n. acknowledged n + upload_all_acks envelopes t s n)
            (upload_all codec engine server envelopes k (t, s)).1.0
    unfolding upload_all upload_all_acks
    upload_all-Accounted [] k t s acknowledged h = λ n. omega (arith, h n)
    upload_all-Accounted (e ∷ envelopes) k t s acknowledged h =
        let kept = acknowledge-Accounted e.batch_id e.checksum t acknowledged h in
        let done = acknowledge codec engine e.batch_id e.checksum t in
        elim (Outcome-cases (server e s).0) [
          | inr (inl (x, p)) ↦ rw (p, upload_all, upload_all_acks) (λ n. omega (arith, h n))
          | inr (inr p) ↦ rw (p, upload_all, upload_all_acks) (λ n. omega (arith, h n))
          | inl (ack, p) ↦ elim (Bool-cases (text_eq ack.batch_id e.batch_id)) [
            | inr q ↦ rw (p, upload_all, upload_all_acks) (rw q (λ n. omega (arith, h n)))
            | inl q ↦ elim (Outcome-cases done.0) [
              | inl (deleted, d) ↦
                  rw (p, upload_all, upload_all_acks)
                    (rw q (
                      rw (d, upload_all, upload_all_acks)
                        (λ n. omega (
                          arith,
                          upload_all-Accounted envelopes (k + 1) done.1 (server e s).1
                              (λ n. acknowledged n + deleted_by engine e.batch_id e.checksum t n)
                              kept n,
                        ))))
              | inr (inl (x, d)) ↦
                  rw (p, upload_all, upload_all_acks)
                    (rw q (rw (d, upload_all, upload_all_acks) (λ n. omega (arith, kept n))))
              | inr (inr d) ↦
                  rw (p, upload_all, upload_all_acks)
                    (rw q (rw (d, upload_all, upload_all_acks) (λ n. omega (arith, kept n))))
            ]
          ]
        ]

    pub upload_once-Accounted :
        (limit : ℕ) (t : SpoolTables) (s : S) (acknowledged : ℕ → ℕ)
        → Accounted acknowledged t
        → Accounted
            (λ n. acknowledged n + upload_once_acks limit t s n)
            (upload_once codec engine server limit (t, s)).1.0
    unfolding upload_once upload_once_acks
    upload_once-Accounted limit t s acknowledged h =
        elim (Outcome-cases (pending codec engine limit t)) [
          | inl ((envelopes, t'), p) ↦
              rw (p, upload_once, upload_once_acks)
                (upload_all-Accounted envelopes 0 t' s acknowledged (
                  subst (Accounted acknowledged)
                    (sym (pending_unchanged codec engine server limit t envelopes t' p)) h))
          | inr (inl (x, p)) ↦ rw (p, upload_once, upload_once_acks) (λ n. omega (arith, h n))
          | inr (inr p) ↦ rw (p, upload_once, upload_once_acks) (λ n. omega (arith, h n))
        ]
