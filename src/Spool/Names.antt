-- ===== src/Spool/Names.antt =====
-- The identifiers of the rows of src/spool.rs, and what `enqueue` keeps of its rows.
use flow_observability.Base.{
  ℕ, zero, suc, ◌-◌, ◌≤◌, ◌<◌, ◌≡◌, refl, sym, subst, ◌∙◌, false, List, [], ◌∷◌, length, take, some,
  arith, ok, All, Option-cases, Bool-cases, inl, inr, eq_of_text_eq, text_eq,
}
use flow_observability.Model.{
  Text, FlowBucket, CaptureDiagnostics, BatchBody, BatchEnvelope, schema_version_const,
}
use flow_observability.Model.Envelope.{Codec, new_envelope, batch_id_of, first_bytes, body_checksum}
use flow_observability.Model.Identifier.{batch_id-seq}
use flow_observability.Sqlite.{i64_bound}
use flow_observability.Spool.Tables.{SpoolTables, BatchRow, has_batch_seq, has_batch_id}
use flow_observability.Spool.Evict.{SpoolLimits, SpoolEngine}
use flow_observability.Spool.Methods.{EnqueueResult}
use flow_observability.Spool.Rows.{All-place_batch, All-without_seq}
use flow_observability.Spool.Enqueue.{Encoded, Enqueued, rejected, stored, row_of}
use flow_observability.Spool.Eviction.{evict_loop_induction}
use flow_observability.Spool.Sweeps.{FitsRow}

-- serde_json serialises these types without an error, and a `Vec` is shorter than 2^63 bytes.
pub record Serialises (codec : Codec) : Type 0 where
  pub body_of : (body : BatchBody) → Text
  pub body_serialises : (body : BatchBody) → codec.body_to_vec body ≡ some (body_of body)
  pub payload_of : (e : BatchEnvelope) → Text
  pub envelope_serialises : (e : BatchEnvelope) → codec.envelope_to_vec e ≡ some (payload_of e)
  pub payload_fits : (e : BatchEnvelope) → length (payload_of e) < i64_bound

length-take : (n : ℕ) (xs : Text) → n ≤ length xs → length (take n xs) ≡ n
length-take zero xs h = refl
length-take (suc n) [] h = elim h [ ]
length-take (suc n) (x ∷ xs) h = omega (arith, length-take n xs (omega (arith, h)))

-- A property of rows that the new row has holds of the rows behind an `enqueue`.
module _ (codec : Codec) (engine : SpoolEngine) (limits : SpoolLimits) (node_id boot_id : Text)
    (created_at : ℕ) (buckets : List FlowBucket) (diagnostics : CaptureDiagnostics)
    (t : SpoolTables) (P : BatchRow → Type 0) where
  pub All-enqueue :
      (result : EnqueueResult) (t' : SpoolTables)
      → All P t.batches
      → ((e : BatchEnvelope) (payload : Text)
          → Encoded codec engine limits node_id boot_id created_at buckets diagnostics t e payload
          → P (row_of t.next_seq created_at buckets e payload))
      → Enqueued codec engine limits node_id boot_id created_at buckets diagnostics t result t'
      → All P t'.batches
  All-enqueue result t' h new (rejected e payload c big left shape) = rw left h
  All-enqueue result t' h new (stored e payload evicted c small fresh swept shape) =
      (evict_loop_induction engine limits (created_at - limits.max_age_seconds) created_at
        (λ n u. All P u.batches)
        (λ n u r v all round. rw (round.0) (All-without_seq P r.seq u.batches all)) _ 0 _ evicted t'
        swept
        (All-place_batch P (row_of t.next_seq created_at buckets e payload) t.batches
          (new e payload c) h)).0

module _ (codec : Codec) where
  -- The identifier of a row was made by `BatchEnvelope::new` with the row's number.
  pub record Names (seq : ℕ) (batch_id : Text) : Type 0 where
    pub body : BatchBody
    pub prefix : Text
    pub same_id : batch_id ≡ batch_id_of codec body prefix
    pub same_seq : body.seq ≡ seq
    pub length_16 : length prefix ≡ 16

  Names-seq :
      (s s' : ℕ) (id : Text) → Names s id → Names s' id → s < i64_bound → s' < i64_bound → s ≡ s'
  Names-seq s s' id n n' h h' =
      sym n.same_seq
      ∙ batch_id-seq codec n.body n'.body n.prefix n'.prefix (omega (arith, n.same_seq))
          (omega (arith, n'.same_seq)) (omega (arith, n.length_16, n'.length_16))
          (sym n.same_id ∙ n'.same_id)
      ∙ n'.same_seq

  -- A new number has a new identifier.
  pub Names-fresh :
      (s : ℕ) (id : Text) (rows : List BatchRow)
      → s < i64_bound
      → Names s id
      → All FitsRow rows
      → All (λ r. Names r.seq r.batch_id) rows
      → has_batch_seq s rows ≡ false
      → has_batch_id id rows ≡ false
  Names-fresh s id [] h n f m e = refl
  Names-fresh s id (r ∷ rows) h n f m e = elim (Bool-cases (text_eq r.batch_id id)) [
    | inl same ↦
        let both : r.seq ≡ s =
          Names-seq r.seq s id (subst (Names r.seq) (eq_of_text_eq r.batch_id id same) m.0) n
            f.0.seq_fits h in
        ground (arith, both, e)
    | inr other ↦ ground (arith, Names-fresh s id rows h n f.1 m.1)
  ]

  pub new_envelope-Names :
      (node_id boot_id : Text) (seq created_at : ℕ) (buckets : List FlowBucket)
      (diagnostics : CaptureDiagnostics) (e : BatchEnvelope)
      → new_envelope codec node_id boot_id seq created_at buckets diagnostics ≡ ok e
      → Names seq e.batch_id
  unfolding new_envelope body_checksum first_bytes
  new_envelope-Names node_id boot_id seq created_at buckets diagnostics e h =
      elim (Option-cases (codec.body_to_vec body_of_call)) [
        | inl n ↦ absurd (ground arith)
        | inr (content, n) ↦ record {
          body = body_of_call;
          prefix = take 16 (codec.hash_hex content);
          same_id = ground (arith, codec.length-hash_hex content);
          same_seq = refl;
          length_16 =
              length-take 16 (codec.hash_hex content)
                (omega (arith, codec.length-hash_hex content));
        }
      ]
    where
      body_of_call : BatchBody
      body_of_call = record {
        schema_version = schema_version_const;
        node_id = node_id;
        boot_id = boot_id;
        seq = seq;
        created_at = created_at;
        buckets = buckets;
        diagnostics = diagnostics;
      }
