-- ===== src/Spool/Ledger.antt =====
-- Where each sequence number stands: among the pending batches or among the gaps.
use flow_observability.Base.{ℕ, ◌+◌, ◌≤◌, ◌≡◌, refl, ◌∙◌, length, some, arith, ok}
use flow_observability.Spool.Tables.{SpoolTables, BatchRow, total_payload}
use flow_observability.Spool.Evict.{SpoolLimits, SpoolEngine, evict_loop}
use flow_observability.Spool.Rows.{
  count_seq, count_gap, count_gap-place_gap, length-place_gap, count_seq-without_seq,
  length-without_seq, first_candidate-count,
}
use flow_observability.Spool.Eviction.{Round, gap_of, evict_loop_induction}

abbrev pub account : SpoolTables → ℕ → ℕ
account t s = count_seq s t.batches + count_gap s t.gaps

abbrev pub IsSingle : SpoolTables → Type 0
IsSingle t = (s : ℕ) → account t s ≤ 1

module _ (limits : SpoolLimits) (cutoff now : ℕ) where
  -- A round moves one number from the batches to the gaps.
  pub account-Round :
      (t : SpoolTables) (r : BatchRow) (u : SpoolTables)
      → IsSingle t
      → Round limits cutoff now t (some r) u
      → (s : ℕ) → account u s ≡ account t s
  account-Round t r u single (e, found) s = rw e (
      ground (
        arith,
        single r.seq,
        count_seq-without_seq s r.seq t.batches,
        count_gap-place_gap s (gap_of cutoff now r) t.gaps,
        first_candidate-count cutoff (total_payload t.batches) limits.max_payload_bytes t.batches r
            found,
      ))

  length-Round :
      (t : SpoolTables) (r : BatchRow) (u : SpoolTables)
      → IsSingle t
      → Round limits cutoff now t (some r) u
      → (length u.batches + 1 ≡ length t.batches)
        × (length u.gaps ≡ length t.gaps + 1)
        × (u.next_seq ≡ t.next_seq)
  length-Round t r u single (e, found) = rw e (
      ground (
        arith,
        single r.seq,
        length-without_seq r.seq t.batches,
        length-place_gap (gap_of cutoff now r) t.gaps,
        first_candidate-count cutoff (total_payload t.batches) limits.max_payload_bytes t.batches r
            found,
      ))

-- What a sweep of the limits leaves: every number where it was or moved to the gaps, as many gaps
-- more as batches fewer.
pub record Swept (t : SpoolTables) (n : ℕ) (u : SpoolTables) : Type 0 where
  pub same_account : (s : ℕ) → account u s ≡ account t s
  pub fewer : length u.batches + n ≡ length t.batches
  pub more : length u.gaps ≡ length t.gaps + n
  pub same_next : u.next_seq ≡ t.next_seq

pub Swept-refl : (t : SpoolTables) → Swept t 0 t
Swept-refl t = record {
  same_account = λ s. refl;
  fewer = omega arith;
  more = omega arith;
  same_next = refl;
}

module _ (limits : SpoolLimits) (cutoff now : ℕ) where
  pub Swept-Round :
      (t : SpoolTables)
      → IsSingle t
      → (n : ℕ) (u : SpoolTables) (r : BatchRow) (v : SpoolTables) → Swept t n u
      → Round limits cutoff now u (some r) v
      → Swept t (n + 1) v
  Swept-Round t single n u r v h round =
      let single' : IsSingle u = λ s. omega (arith, h.same_account s, single s) in
      let lengths = length-Round limits cutoff now u r v single' round in
      record {
        same_account =
            λ s. account-Round limits cutoff now u r v single' round s ∙ h.same_account s;
        fewer = omega (arith, h.fewer, lengths.0);
        more = omega (arith, h.more, lengths.1);
        same_next = lengths.2 ∙ h.same_next;
      }

  pub evict_loop-Swept :
      (engine : SpoolEngine) (fuel : ℕ) (t : SpoolTables) (k : ℕ) (t' : SpoolTables)
      → IsSingle t
      → evict_loop engine fuel limits cutoff now 0 t ≡ ok (k, t')
      → Swept t k t'
  evict_loop-Swept engine fuel t k t' single e =
      (evict_loop_induction engine limits cutoff now (Swept t) (Swept-Round t single) fuel 0 t k t'
        e (Swept-refl t)).0
