-- ===== src/Spool/Sweeps.antt =====
-- The eviction loop of src/spool.rs returns on an engine that fails no statement.
use flow_observability.Base.{
  ℕ, zero, suc, ◌+◌, ◌<◌, ◌≡◌, refl, false, List, [], ◌∷◌, length, Option, none, some, String,
  arith, ok, All, Option-cases, inl, inr,
}
use flow_observability.Sqlite.{i64_bound, integer, optional_integer, sum_column}
use flow_observability.Sqlite.Step.{query, execute}
use flow_observability.Model.{GapEvent}
use flow_observability.Spool.Tables.{
  SpoolTables, BatchRow, Statement, sum_payload, select_candidate, delete_batch, insert_gap_row,
  total_payload, first_candidate, has_gap_seq, place_gap, without_seq, insert_gap_event,
}
use flow_observability.Spool.Evict.{SpoolLimits, SpoolEngine, insert_gap, evict_one, evict_loop}
use flow_observability.Spool.Rows.{
  count_gap, first_candidate-count, total_payload-without_seq, All-without_seq,
  optional_candidate_lem,
}
use flow_observability.Spool.Eviction.{
  Round, gap_of, eviction_reason_lem, evict_one-Round, Round-shrinks,
}
use flow_observability.Spool.Ledger.{IsSingle, account-Round}

-- What fits a column.
abbrev pub FitsOption : Option ℕ → Type 0
FitsOption none = Unit
FitsOption (some n) = n < i64_bound

pub record FitsRow (r : BatchRow) : Type 0 where
  pub seq_fits : r.seq < i64_bound
  pub min_fits : FitsOption r.min_bucket
  pub max_fits : FitsOption r.max_bucket
  pub bytes_fit : r.payload_bytes < i64_bound

-- Tables that SQLite can sum and the program can read.
pub record IsReadable (t : SpoolTables) : Type 0 where
  pub single : IsSingle t
  pub rows_fit : All FitsRow t.batches
  pub sum_fits : total_payload t.batches < i64_bound

abbrev pub Faultless : SpoolEngine → Type 0
Faultless engine = (statement : Statement) (t : SpoolTables) → engine statement t ≡ none

has_gap_seq-count :
    (s : ℕ) (gaps : List GapEvent) → count_gap s gaps ≡ 0 → has_gap_seq s gaps ≡ false
has_gap_seq-count s [] h = refl
has_gap_seq-count s (g ∷ gaps) h = ground (arith, has_gap_seq-count s gaps)

first_candidate-All :
    (P : BatchRow → Type 0) (cutoff total maximum : ℕ) (rows : List BatchRow) (r : BatchRow)
    → All P rows
    → first_candidate cutoff total maximum rows ≡ some r
    → P r
unfolding first_candidate
first_candidate-All P cutoff total maximum [] r h e = cc
first_candidate-All P cutoff total maximum (x ∷ rows) r h e =
    ground (arith, first_candidate-All P cutoff total maximum rows r)

pub optional_integer_lem :
    (o : Option ℕ) (field : String) → FitsOption o → optional_integer o field ≡ ok o
unfolding optional_integer integer
optional_integer_lem none field h = refl
optional_integer_lem (some n) field h = ground arith

module _ (engine : SpoolEngine) (faultless : Faultless engine) where
  -- A gap with a new number is inserted.
  pub insert_gap-returns :
      (g : GapEvent) (t : SpoolTables)
      → g.seq < i64_bound
      → FitsOption g.min_bucket
      → FitsOption g.max_bucket
      → g.lost_bytes < i64_bound
      → g.created_at < i64_bound
      → count_gap g.seq t.gaps ≡ 0
      → insert_gap engine g.seq g.min_bucket g.max_bucket g.lost_bytes g.reason g.created_at t
        ≡ ok (tt, record t { gaps = place_gap g t.gaps })
  unfolding insert_gap integer execute insert_gap_event
  insert_gap-returns g t s low high lost created free = ground (
    arith,
    faultless insert_gap_row t,
    optional_integer_lem g.min_bucket "gap min_bucket" low,
    optional_integer_lem g.max_bucket "gap max_bucket" high,
    has_gap_seq-count g.seq t.gaps free,
  )

  module _ (limits : SpoolLimits) (cutoff now : ℕ) (now_fits : now < i64_bound) where
    evict_one-returns :
        (t : SpoolTables)
        → IsReadable t
        → (o : Option BatchRow) × (u : SpoolTables) × (evict_one engine limits cutoff now t
            ≡ ok (o, u))
    unfolding evict_one query execute integer sum_column
    evict_one-returns t h =
        elim (Option-cases
          (first_candidate cutoff (total_payload t.batches) limits.max_payload_bytes t.batches)) [
            | inl e ↦ (none, t, none_returns e)
            | inr (r, e) ↦ (some r, _, some_returns r e)
          ]
      where
        none_returns :
            first_candidate cutoff (total_payload t.batches) limits.max_payload_bytes t.batches
              ≡ none
            → evict_one engine limits cutoff now t ≡ ok (none, t)
        none_returns e = ground (
          arith,
          h.sum_fits,
          faultless sum_payload t,
          faultless select_candidate t,
          optional_candidate_lem
              (first_candidate cutoff (total_payload t.batches) limits.max_payload_bytes t.batches),
        )

        without : BatchRow → SpoolTables
        without r = record t { batches = without_seq r.seq t.batches }

        some_returns :
            (r : BatchRow)
            → first_candidate cutoff (total_payload t.batches) limits.max_payload_bytes t.batches
              ≡ some r
            → evict_one engine limits cutoff now t
              ≡ ok (some r, record (without r) { gaps = place_gap (gap_of cutoff now r) t.gaps })
        some_returns r e =
            let fits =
              first_candidate-All FitsRow cutoff (total_payload t.batches) limits.max_payload_bytes
                t.batches r h.rows_fit e in
            ground (
              arith,
              h.sum_fits,
              fits.seq_fits,
              faultless sum_payload t,
              faultless select_candidate t,
              faultless delete_batch t,
              eviction_reason_lem cutoff r.created_at,
              optional_candidate_lem (
                  first_candidate cutoff (total_payload t.batches) limits.max_payload_bytes
                    t.batches),
              insert_gap-returns (gap_of cutoff now r) (without r) fits.seq_fits fits.min_fits
                  fits.max_fits fits.bytes_fit now_fits
                  (omega (
                    arith,
                    h.single r.seq,
                    first_candidate-count cutoff (total_payload t.batches) limits.max_payload_bytes
                        t.batches r e,
                  )),
            )

    -- A round leaves readable tables.
    IsReadable-Round :
        (t : SpoolTables) (r : BatchRow) (u : SpoolTables)
        → IsReadable t
        → Round limits cutoff now t (some r) u
        → IsReadable u
    IsReadable-Round t r u h round = record {
      single =
          λ s. omega (arith, account-Round limits cutoff now t r u h.single round s, h.single s);
      rows_fit = rw (round.0) (All-without_seq FitsRow r.seq t.batches h.rows_fit);
      sum_fits =
          rw (round.0) (omega (arith, total_payload-without_seq r.seq t.batches, h.sum_fits));
    }

    pub evict_loop-returns :
        (fuel n : ℕ) (t : SpoolTables)
        → length t.batches < fuel
        → IsReadable t
        → (k : ℕ) × (u : SpoolTables) × (evict_loop engine fuel limits cutoff now n t ≡ ok (k, u))
    unfolding evict_loop
    evict_loop-returns zero n t l h = elim l [ ]
    evict_loop-returns (suc fuel) n t l h =
        let (o, u, e) = evict_one-returns t h in
        elim (Option-cases o) [
          | inl p ↦ (n, u, ground arith)
          | inr (r, p) ↦
              let round = evict_one-Round engine limits cutoff now t (some r) u (rw p at e) in
              let (k, v, rest) =
                evict_loop-returns fuel (n + 1) u
                  (omega (arith, Round-shrinks limits cutoff now t r u round, l))
                  (IsReadable-Round t r u h round) in
              (k, v, ground (arith, rest))
        ]
