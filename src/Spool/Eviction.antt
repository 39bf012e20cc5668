-- ===== src/Spool/Eviction.antt =====
-- The loop of `enforce_limits`: what a round does, that the loop ends, and what holds when it does.
use flow_observability.Base.{
  ℕ, zero, suc, ◌+◌, ◌<◌, ◌≡◌, ◌≢◌, refl, length, Option, none, some, arith, ok, panic,
  Outcome-cases, inl, inr, ◌⊎◌, String, ltb, if◌then◌else◌,
}
use flow_observability.Model.{GapEvent}
use flow_observability.Sqlite.{optional_integer}
use flow_observability.Spool.Tables.{
  SpoolTables, BatchRow, total_payload, place_gap, first_candidate, without_seq,
}
use flow_observability.Spool.Evict.{
  SpoolLimits, SpoolEngine, insert_gap, evict_one, evict_loop, eviction_reason,
}
use flow_observability.Spool.Rows.{
  length-without_seq, first_candidate-count, optional_candidate_lem,
}

-- The gap that stands for an evicted row: it was too old, or the payloads were too many.
abbrev pub gap_of : (cutoff now : ℕ) → BatchRow → GapEvent
gap_of cutoff now r = record {
  seq = r.seq;
  min_bucket = r.min_bucket;
  max_bucket = r.max_bucket;
  lost_bytes = r.payload_bytes;
  reason = if ltb r.created_at cutoff then "spool_age_limit" else "spool_byte_limit";
  created_at = now;
}

pub eviction_reason_lem :
    (cutoff created_at : ℕ)
    → eviction_reason cutoff created_at
      ≡ (if ltb created_at cutoff then "spool_age_limit" else "spool_byte_limit")
unfolding eviction_reason
eviction_reason_lem cutoff created_at = refl

-- What a round has done when it returns.
abbrev pub Round :
    SpoolLimits → (cutoff now : ℕ) → SpoolTables → Option BatchRow → SpoolTables → Type 0
Round limits cutoff now t none t' =
    (t' ≡ t)
    × (first_candidate cutoff (total_payload t.batches) limits.max_payload_bytes t.batches ≡ none)
Round limits cutoff now t (some r) t' =
    (t' ≡ record t {
      batches = without_seq r.seq t.batches;
      gaps = place_gap (gap_of cutoff now r) t.gaps;
    })
    × (first_candidate cutoff (total_payload t.batches) limits.max_payload_bytes t.batches ≡ some r)

optional_integer-ok : (o v : Option ℕ) (field : String) → optional_integer o field ≡ ok v → v ≡ o
unfolding optional_integer
optional_integer-ok o v field e = ground arith

-- A gap that was inserted stands in the table with just these columns.
pub insert_gap-ok :
    (engine : SpoolEngine) (seq : ℕ) (low high : Option ℕ) (lost : ℕ) (reason : String)
    (created_at : ℕ) (t t' : SpoolTables)
    → insert_gap engine seq low high lost reason created_at t ≡ ok (tt, t')
    → t' ≡ record t {
      gaps =
          place_gap
            (record {
              seq = seq;
              min_bucket = low;
              max_bucket = high;
              lost_bytes = lost;
              reason = reason;
              created_at = created_at;
            })
            t.gaps;
    }
unfolding insert_gap
insert_gap-ok engine seq low high lost reason created_at t t' e = ground arith

-- A round removes at least one row.
pub Round-shrinks :
    (limits : SpoolLimits) (cutoff now : ℕ) (t : SpoolTables) (r : BatchRow) (u : SpoolTables)
    → Round limits cutoff now t (some r) u
    → length u.batches < length t.batches
Round-shrinks limits cutoff now t r u (e, found) = rw e (
    omega (
      arith,
      length-without_seq r.seq t.batches,
      first_candidate-count cutoff (total_payload t.batches) limits.max_payload_bytes t.batches r
          found,
    ))

module _ (engine : SpoolEngine) (limits : SpoolLimits) (cutoff now : ℕ) where
  pub evict_one-Round :
      (t : SpoolTables) (o : Option BatchRow) (t' : SpoolTables)
      → evict_one engine limits cutoff now t ≡ ok (o, t')
      → Round limits cutoff now t o t'
  unfolding evict_one
  evict_one-Round t none t' e = ground (
    arith,
    optional_candidate_lem
        (first_candidate cutoff (total_payload t.batches) limits.max_payload_bytes t.batches),
  )
  evict_one-Round t (some r) t' e = ground (
    arith,
    optional_candidate_lem
        (first_candidate cutoff (total_payload t.batches) limits.max_payload_bytes t.batches),
    eviction_reason_lem cutoff r.created_at,
    insert_gap-ok engine r.seq r.min_bucket r.max_bucket r.payload_bytes
        (eviction_reason cutoff r.created_at) now
        (record t { batches = without_seq r.seq t.batches }) t',
  )

  evict_one-ne-panic : (t : SpoolTables) → evict_one engine limits cutoff now t ≢ panic
  unfolding evict_one insert_gap
  evict_one-ne-panic t e = ground (
    arith,
    optional_candidate_lem
        (first_candidate cutoff (total_payload t.batches) limits.max_payload_bytes t.batches),
  )

  -- The first round of a loop that returns: it is the last, or the loop goes on behind it.
  evict_loop-suc :
      (fuel evicted : ℕ) (t : SpoolTables) (k : ℕ) (t' : SpoolTables)
      → evict_loop engine (suc fuel) limits cutoff now evicted t ≡ ok (k, t')
      → ((k ≡ evicted) × Round limits cutoff now t none t')
        ⊎ ((r : BatchRow) × (u : SpoolTables) × Round limits cutoff now t (some r) u
            × (evict_loop engine fuel limits cutoff now (evicted + 1) u ≡ ok (k, t')))
  unfolding evict_loop
  evict_loop-suc fuel evicted t k t' e =
      elim (Outcome-cases (evict_one engine limits cutoff now t)) [
        | inl ((none, u), h) ↦ inl (last u h)
        | inl ((some r, u), h) ↦ inr (r, u, evict_one-Round t (some r) u h, rw (h, evict_loop) at e)
        | inr (inl (x, h)) ↦ cc (rw (h, evict_loop) at e)
        | inr (inr h) ↦ cc (rw (h, evict_loop) at e)
      ]
    where
      last :
          (u : SpoolTables)
          → evict_one engine limits cutoff now t ≡ ok (none, u)
          → (k ≡ evicted) × Round limits cutoff now t none t'
      last u h = ground (arith, evict_one-Round t none u h)

  -- What a round keeps, the loop keeps; and it ends where no candidate is left.
  pub evict_loop_induction :
      (P : ℕ → SpoolTables → Type 0)
      → ((n : ℕ) (t : SpoolTables) (r : BatchRow) (u : SpoolTables)
          → P n t
          → Round limits cutoff now t (some r) u
          → P (n + 1) u)
      → (fuel n : ℕ) (t : SpoolTables) (k : ℕ) (t' : SpoolTables)
      → evict_loop engine fuel limits cutoff now n t ≡ ok (k, t')
      → P n t
      → P k t'
        × (first_candidate cutoff (total_payload t'.batches) limits.max_payload_bytes t'.batches
            ≡ none)
  unfolding evict_loop
  evict_loop_induction P step zero n t k t' e p = cc
  evict_loop_induction P step (suc fuel) n t k t' e p = elim (evict_loop-suc fuel n t k t' e) [
    | inl (same, (h0, h1)) ↦ (rw (same, h0) p, rw h0 h1)
    | inr (r, u, h, rest) ↦ evict_loop_induction P step fuel (n + 1) u k t' rest (step n t r u p h)
  ]

  -- One round more than there are rows is enough: the loop does not run out of fuel.
  pub evict_loop-ne-panic :
      (fuel n : ℕ) (t : SpoolTables)
      → length t.batches < fuel
      → evict_loop engine fuel limits cutoff now n t ≢ panic
  unfolding evict_loop
  evict_loop-ne-panic zero n t h e = elim h [ ]
  evict_loop-ne-panic (suc fuel) n t h e =
      elim (Outcome-cases (evict_one engine limits cutoff now t)) [
        | inl ((none, u), q) ↦ cc (rw (q, evict_loop) at e)
        | inl ((some r, u), q) ↦
            evict_loop-ne-panic fuel (n + 1) u
              (omega
                (arith, Round-shrinks limits cutoff now t r u (evict_one-Round t (some r) u q)))
              (rw (q, evict_loop) at e)
        | inr (inl (x, q)) ↦ cc (rw (q, evict_loop) at e)
        | inr (inr q) ↦ evict_one-ne-panic t q
      ]
