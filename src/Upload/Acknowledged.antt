-- ===== src/Upload/Acknowledged.antt =====
-- Which rows `upload_once` of src/upload.rs removes from the spool, and on whose word.
use flow_observability.Base.{
  ℕ, ◌+◌, ◌≡◌, ◌≢◌, refl, sym, subst, ap, List, [], ◌∷◌, Outcome, ok, err, panic, arith, ◌⊎◌, inl,
  inr, Outcome-cases, Bool-cases, text_eq, text_eq_iff,
}
use flow_observability.Model.{BatchEnvelope}
use flow_observability.Model.Envelope.{Codec}
use flow_observability.Sqlite.{Error, anyhow, integer}
use flow_observability.Sqlite.Step.{query}
use flow_observability.Spool.Tables.{SpoolTables, BatchRow, without_acknowledged}
use flow_observability.Spool.Evict.{SpoolEngine}
use flow_observability.Spool.Methods.{acknowledge, pending}
use flow_observability.Spool.Retention.{IsIn}
use flow_observability.Control.Http.{IngestAck}
use flow_observability.Upload.{Server, upload_all, upload_once}

-- The row is that of the envelope.
abbrev pub Carries : BatchEnvelope → BatchRow → Type 0
Carries e r = (r.batch_id ≡ e.batch_id) × (r.checksum ≡ e.checksum)

IsIn-without_acknowledged :
    (e : BatchEnvelope) (r : BatchRow) (rows : List BatchRow)
    → IsIn r rows
    → IsIn r (without_acknowledged e.batch_id e.checksum rows) ⊎ Carries e r
unfolding without_acknowledged
IsIn-without_acknowledged e r [] h = elim h [ ]
IsIn-without_acknowledged e r (x ∷ rows) (inl h) = ground (
  arith,
  ap (λ row. row.batch_id) h,
  ap (λ row. row.checksum) h,
  text_eq_iff x.batch_id e.batch_id,
  text_eq_iff x.checksum e.checksum,
)
IsIn-without_acknowledged e r (x ∷ rows) (inr h) = elim (IsIn-without_acknowledged e r rows h) [
  | inl k ↦ ground arith
  | inr k ↦ inr k
]

module _ {S : Type 0} (codec : Codec) (engine : SpoolEngine) (server : Server S) where
  acknowledge-IsIn :
      (e : BatchEnvelope) (r : BatchRow) (t : SpoolTables)
      → IsIn r t.batches
      → IsIn r ((acknowledge codec engine e.batch_id e.checksum t).1).batches ⊎ Carries e r
  unfolding acknowledge
  acknowledge-IsIn e r t h = ground (arith, IsIn-without_acknowledged e r t.batches h)

  -- The result of the loop at an envelope.
  pub upload_all-cases :
      (e : BatchEnvelope) (envelopes : List BatchEnvelope) (n : ℕ) (t : SpoolTables) (s : S)
      → ((ack : IngestAck) × ((server e s).0 ≡ ok ack)
          × (ack.batch_id ≡ e.batch_id)
          × ((acknowledge codec engine e.batch_id e.checksum t).0 ≡ ok tt)
          × (upload_all codec engine server (e ∷ envelopes) n (t, s)
              ≡ upload_all codec engine server envelopes
                  (n + 1)
                  ((acknowledge codec engine e.batch_id e.checksum t).1, (server e s).1)))
        ⊎ ((ack : IngestAck) × (x : Outcome Error ℕ) × ((server e s).0 ≡ ok ack)
            × (ack.batch_id ≡ e.batch_id)
            × ((k : ℕ) → x ≢ ok k)
            × (upload_all codec engine server (e ∷ envelopes) n (t, s)
                ≡ (x, ((acknowledge codec engine e.batch_id e.checksum t).1, (server e s).1))))
        ⊎ ((x : Outcome Error ℕ) × ((k : ℕ) → x ≢ ok k)
            × (upload_all codec engine server (e ∷ envelopes) n (t, s) ≡ (x, (t, (server e s).1))))
  unfolding upload_all
  upload_all-cases e envelopes n t s = elim (Outcome-cases ((server e s).0)) [
    | inr (inl (x, p)) ↦ inr (inr (err x, λ k q. cc, ground arith))
    | inr (inr p) ↦ inr (inr (panic, λ k q. cc, ground arith))
    | inl (ack, p) ↦ elim (Bool-cases (text_eq ack.batch_id e.batch_id)) [
      | inr q ↦
          inr (
            inr
              (err (anyhow "ingest ack batch id does not match request"), λ k c. cc, ground arith))
      | inl q ↦ elim (Outcome-cases ((acknowledge codec engine e.batch_id e.checksum t).0)) [
        | inl (done, a) ↦ inl (ack, p, (text_eq_iff ack.batch_id e.batch_id).0 q, a, ground arith)
        | inr (inl (x, a)) ↦ inr (
            inl (ack, err x, p, (text_eq_iff ack.batch_id e.batch_id).0 q, λ k c. cc, ground arith))
        | inr (inr a) ↦ inr (
            inl (ack, panic, p, (text_eq_iff ack.batch_id e.batch_id).0 q, λ k c. cc, ground arith))
      ]
    ]
  ]

  pub pending_unchanged :
      (limit : ℕ) (t : SpoolTables) (envelopes : List BatchEnvelope) (t' : SpoolTables)
      → pending codec engine limit t ≡ ok (envelopes, t')
      → t' ≡ t
  unfolding pending integer query
  pending_unchanged limit t envelopes t' h = ground arith

  -- `Holds` is what the other side's state says of an envelope that it has acknowledged, from that
  -- answer on.
  module _ (Holds : BatchEnvelope → S → Type 0)
      (answered : (e : BatchEnvelope) (s : S) (ack : IngestAck)
        → (server e s).0 ≡ ok ack
        → ack.batch_id ≡ e.batch_id
        → Holds e (server e s).1)
      (lasting : (e e' : BatchEnvelope) (s : S) → Holds e s → Holds e (server e' s).1) where
    -- Still in the spool, or acknowledged by the other side.
    abbrev Explained : List BatchEnvelope → BatchRow → Outcome Error ℕ × (SpoolTables × S) → Type 0
    Explained envelopes r result =
        IsIn r result.1.0.batches
        ⊎ ((e : BatchEnvelope) × IsIn e envelopes × Carries e r × Holds e result.1.1)

    Explained-cons :
        (e : BatchEnvelope) (envelopes : List BatchEnvelope) (r : BatchRow)
        (x : Outcome Error ℕ × (SpoolTables × S))
        → Explained envelopes r x
        → Explained (e ∷ envelopes) r x
    Explained-cons e envelopes r x (inl h) = inl h
    Explained-cons e envelopes r x (inr (e', m, c, a)) = inr (e', inr m, c, a)

    upload_all-Holds :
        (x : BatchEnvelope) (envelopes : List BatchEnvelope) (n : ℕ) (t : SpoolTables) (s : S)
        → Holds x s
        → Holds x (upload_all codec engine server envelopes n (t, s)).1.1
    unfolding upload_all
    upload_all-Holds x [] n t s h = h
    upload_all-Holds x (e ∷ envelopes) n t s h = elim (upload_all-cases e envelopes n t s) [
      | inl (ack, p, q, a, eq) ↦
          subst (λ (o : Outcome Error ℕ × (SpoolTables × S)). Holds x o.1.1) (sym eq)
            (upload_all-Holds x envelopes (n + 1) _ (server e s).1 (lasting x e s h))
      | inr (inl (ack, o, p, q, f, eq)) ↦
          subst (λ (o : Outcome Error ℕ × (SpoolTables × S)). Holds x o.1.1) (sym eq)
            (lasting x e s h)
      | inr (inr (o, f, eq)) ↦
          subst (λ (o : Outcome Error ℕ × (SpoolTables × S)). Holds x o.1.1) (sym eq)
            (lasting x e s h)
    ]

    removed :
        (e : BatchEnvelope) (envelopes : List BatchEnvelope) (r : BatchRow) (t : SpoolTables)
        (x : Outcome Error ℕ × (SpoolTables × S))
        → IsIn r t.batches
        → Holds e x.1.1
        → (IsIn r ((acknowledge codec engine e.batch_id e.checksum t).1).batches
            → Explained (e ∷ envelopes) r x)
        → Explained (e ∷ envelopes) r x
    removed e envelopes r t x h held rest = elim (acknowledge-IsIn e r t h) [
      | inl k ↦ rest k
      | inr c ↦ inr (e, inl refl, c, held)
    ]

    upload_all-Explained :
        (envelopes : List BatchEnvelope) (n : ℕ) (t : SpoolTables) (s : S) (r : BatchRow)
        → IsIn r t.batches
        → Explained envelopes r (upload_all codec engine server envelopes n (t, s))
    unfolding upload_all
    upload_all-Explained [] n t s r h = inl h
    upload_all-Explained (e ∷ envelopes) n t s r h = elim (upload_all-cases e envelopes n t s) [
      | inl (ack, p, q, a, eq) ↦ subst (Explained (e ∷ envelopes) r) (sym eq) (
          removed e envelopes r t rest h
            (upload_all-Holds e envelopes (n + 1) t' s' (answered e s ack p q))
            (λ k.
              Explained-cons e envelopes r rest (upload_all-Explained envelopes (n + 1) t' s' r k)))
      | inr (inl (ack, x, p, q, f, eq)) ↦
          subst (Explained (e ∷ envelopes) r) (sym eq)
            (removed e envelopes r t (x, (t', s')) h (answered e s ack p q) (λ k. inl k))
      | inr (inr (x, f, eq)) ↦ subst (Explained (e ∷ envelopes) r) (sym eq) (inl h)
    ]
      where
        t' : SpoolTables
        t' = (acknowledge codec engine e.batch_id e.checksum t).1

        s' : S
        s' = (server e s).1

        rest : Outcome Error ℕ × (SpoolTables × S)
        rest = upload_all codec engine server envelopes (n + 1) (t', s')

    -- In the spool behind the call, or of an envelope of which `Holds` says so behind the call.
    abbrev pub IsSettled : BatchRow → Outcome Error ℕ × (SpoolTables × S) → Type 0
    IsSettled r x = IsIn r x.1.0.batches ⊎ ((e : BatchEnvelope) × Carries e r × Holds e x.1.1)

    Explained-IsSettled :
        (envelopes : List BatchEnvelope) (r : BatchRow) (x : Outcome Error ℕ × (SpoolTables × S))
        → Explained envelopes r x
        → IsSettled r x
    Explained-IsSettled envelopes r x (inl k) = inl k
    Explained-IsSettled envelopes r x (inr (e, m, c, a)) = inr (e, c, a)

    -- Whatever the other side answers and whatever the result, each row that was in the spool is in
    -- it after `upload_once`, or the other side acknowledged its envelope in it.
    pub upload_once-IsSettled :
        (limit : ℕ) (t : SpoolTables) (s : S) (r : BatchRow)
        → IsIn r t.batches
        → IsSettled r (upload_once codec engine server limit (t, s))
    unfolding upload_once
    upload_once-IsSettled limit t s r h = elim (Outcome-cases (pending codec engine limit t)) [
      | inl ((envelopes, t'), p) ↦
          rw (p, upload_once)
            (Explained-IsSettled envelopes r (upload_all codec engine server envelopes 0 (t', s)) (
              upload_all-Explained envelopes 0 t' s r
                (subst (λ u. IsIn r u.batches) (sym (pending_unchanged limit t envelopes t' p)) h)))
      | inr (inl (x, p)) ↦ rw (p, upload_once) (inl h)
      | inr (inr p) ↦ rw (p, upload_once) (inl h)
    ]
