-- ===== src/Spool/Retention.antt =====
-- No batch disappears: after a sweep a row is still there, or a gap tells its number, its range of
-- buckets, its bytes and why.
use flow_observability.Base.{
  ℕ, ◌≤◌, ◌<◌, ◌≡◌, ◌≢◌, refl, sym, ◌∙◌, List, [], ◌∷◌, some, ◌==◌, ==_iff, arith, ok, inl, inr,
  ◌⊎◌, Bool-cases, subst,
}
use flow_observability.Model.{GapEvent}
use flow_observability.Spool.Tables.{
  SpoolTables, BatchRow, total_payload, place_batch, place_gap, without_seq, first_candidate,
}
use flow_observability.Spool.Evict.{SpoolLimits, SpoolEngine, evict_loop}
use flow_observability.Spool.Rows.{count_seq}
use flow_observability.Spool.Eviction.{Round, gap_of, evict_loop_induction}
use flow_observability.Spool.Ledger.{IsSingle, Swept, Swept-refl, Swept-Round}

abbrev pub IsIn : {A : Type 0} → A → List A → Type 0
IsIn x [] = ⊥
IsIn x (y ∷ ys) = (y ≡ x) ⊎ IsIn x ys

IsIn-count : (r : BatchRow) (rows : List BatchRow) → IsIn r rows → 0 < count_seq r.seq rows
IsIn-count r [] h = absurd h
IsIn-count r (x ∷ rows) (inl e) = ground arith
IsIn-count r (x ∷ rows) (inr h) = omega (arith, IsIn-count r rows h)

-- Two rows of one number are one row, where the number stands once.
IsIn-unique :
    (r x : BatchRow) (rows : List BatchRow)
    → IsIn r rows
    → IsIn x rows
    → r.seq ≡ x.seq
    → count_seq x.seq rows ≤ 1
    → x ≡ r
IsIn-unique r x [] h k e c = absurd h
IsIn-unique r x (y ∷ rows) (inl h) (inl k) e c = sym k ∙ h
IsIn-unique r x (y ∷ rows) (inl h) (inr k) e c = ground (arith, IsIn-count x rows k)
IsIn-unique r x (y ∷ rows) (inr h) (inl k) e c = ground (arith, IsIn-count r rows h)
IsIn-unique r x (y ∷ rows) (inr h) (inr k) e c = IsIn-unique r x rows h k e (ground arith)

first_candidate-IsIn :
    (cutoff total maximum : ℕ) (rows : List BatchRow) (r : BatchRow)
    → first_candidate cutoff total maximum rows ≡ some r
    → IsIn r rows
unfolding first_candidate
first_candidate-IsIn cutoff total maximum [] r e = cc
first_candidate-IsIn cutoff total maximum (x ∷ rows) r e =
    ground (arith, first_candidate-IsIn cutoff total maximum rows r)

IsIn-without_seq :
    (r : BatchRow) (k : ℕ) (rows : List BatchRow)
    → IsIn r rows
    → r.seq ≢ k
    → IsIn r (without_seq k rows)
unfolding without_seq
IsIn-without_seq r k [] h n = absurd h
IsIn-without_seq r k (x ∷ rows) h n = ground (arith, IsIn-without_seq r k rows)

pub IsIn-place_gap :
    (g : GapEvent) (x : GapEvent) (gaps : List GapEvent) → IsIn g gaps → IsIn g (place_gap x gaps)
unfolding place_gap
IsIn-place_gap g x [] h = absurd h
IsIn-place_gap g x (y ∷ gaps) h = ground (arith, IsIn-place_gap g x gaps)

pub IsIn-place_gap_self : (g : GapEvent) (gaps : List GapEvent) → IsIn g (place_gap g gaps)
unfolding place_gap
IsIn-place_gap_self g [] = inl refl
IsIn-place_gap_self g (y ∷ gaps) = ground (arith, IsIn-place_gap_self g gaps)

pub IsIn-place_batch_self : (r : BatchRow) (rows : List BatchRow) → IsIn r (place_batch r rows)
unfolding place_batch
IsIn-place_batch_self r [] = inl refl
IsIn-place_batch_self r (y ∷ rows) = ground (arith, IsIn-place_batch_self r rows)

pub IsIn-place_batch :
    (r x : BatchRow) (rows : List BatchRow) → IsIn r rows → IsIn r (place_batch x rows)
unfolding place_batch
IsIn-place_batch r x [] h = absurd h
IsIn-place_batch r x (y ∷ rows) h = ground (arith, IsIn-place_batch r x rows)

module _ (limits : SpoolLimits) (cutoff now : ℕ) where
  -- The row is pending, or recorded as a gap.
  abbrev pub Kept : BatchRow → SpoolTables → Type 0
  Kept r t = IsIn r t.batches ⊎ IsIn (gap_of cutoff now r) t.gaps

  Kept-Round :
      (r : BatchRow) (t : SpoolTables) (x : BatchRow) (u : SpoolTables)
      → IsSingle t
      → Round limits cutoff now t (some x) u
      → Kept r t
      → Kept r u
  Kept-Round r t x u single (e, found) (inr g) =
      rw e (inr (IsIn-place_gap (gap_of cutoff now r) (gap_of cutoff now x) t.gaps g))
  Kept-Round r t x u single (e, found) (inl h) = elim (Bool-cases (r.seq == x.seq)) [
    | inl same ↦
        let row =
          IsIn-unique r x t.batches h
            (first_candidate-IsIn cutoff (total_payload t.batches) limits.max_payload_bytes
              t.batches x found)
            ((==_iff r.seq x.seq).0 same) (omega (arith, single x.seq)) in
        rw e (
          inr (
            subst (λ y. IsIn (gap_of cutoff now y) (place_gap (gap_of cutoff now x) t.gaps)) row
              (IsIn-place_gap_self (gap_of cutoff now x) t.gaps)))
    | inr other ↦ rw e (inl (IsIn-without_seq r x.seq t.batches h (ground arith)))
  ]

  -- A sweep keeps every row, as itself or as its gap.
  pub evict_loop-Kept :
      (engine : SpoolEngine) (r : BatchRow) (fuel : ℕ) (t : SpoolTables) (k : ℕ) (t' : SpoolTables)
      → IsSingle t
      → evict_loop engine fuel limits cutoff now 0 t ≡ ok (k, t')
      → Kept r t
      → Kept r t'
  evict_loop-Kept engine r fuel t k t' single e h =
      (evict_loop_induction engine limits cutoff now (λ n u. Swept t n u × Kept r u)
        (λ n u x v p round. (
          Swept-Round limits cutoff now t single n u x v p.0 round,
          Kept-Round r u x v (λ s. omega (arith, p.0.same_account s, single s)) round p.1,
        ))
        fuel 0 t k t' e (Swept-refl t, h)).0.1
