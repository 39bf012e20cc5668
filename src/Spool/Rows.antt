-- ===== src/Spool/Rows.antt =====
-- The statements on the rows: what each does to the number of rows, their bytes, and how often a
-- sequence number stands among them.
use flow_observability.Base.{
  ℕ, suc, ◌+◌, ◌≤◌, ◌<◌, ◌≡◌, refl, true, false, List, [], ◌∷◌, length, Option, none, some, ◌==◌,
  if◌then◌else◌, arith, All, ok,
}
use flow_observability.Model.{GapEvent}
use flow_observability.Spool.Tables.{
  BatchRow, total_payload, place_batch, place_gap, first_candidate, is_candidate, without_seq,
  candidate_row, optional_candidate, gap_row, read_gaps,
}

abbrev pub count_seq : ℕ → List BatchRow → ℕ
count_seq s [] = 0
count_seq s (r ∷ rows) = (if r.seq == s then 1 else 0) + count_seq s rows

abbrev pub count_gap : ℕ → List GapEvent → ℕ
count_gap s [] = 0
count_gap s (g ∷ gaps) = (if g.seq == s then 1 else 0) + count_gap s gaps

pub count_seq-place_batch :
    (s : ℕ) (r : BatchRow) (rows : List BatchRow)
    → count_seq s (place_batch r rows) ≡ (if r.seq == s then 1 else 0) + count_seq s rows
unfolding place_batch
count_seq-place_batch s r [] = refl
count_seq-place_batch s r (x ∷ rows) = ground (arith, count_seq-place_batch s r rows)

pub total_payload-place_batch :
    (r : BatchRow) (rows : List BatchRow)
    → total_payload (place_batch r rows) ≡ r.payload_bytes + total_payload rows
unfolding place_batch
total_payload-place_batch r [] = refl
total_payload-place_batch r (x ∷ rows) = ground (arith, total_payload-place_batch r rows)

pub length-place_batch :
    (r : BatchRow) (rows : List BatchRow) → length (place_batch r rows) ≡ suc (length rows)
unfolding place_batch
length-place_batch r [] = refl
length-place_batch r (x ∷ rows) = ground (arith, length-place_batch r rows)

pub All-place_batch :
    (P : BatchRow → Type 0) (r : BatchRow) (rows : List BatchRow)
    → P r
    → All P rows
    → All P (place_batch r rows)
unfolding place_batch
All-place_batch P r [] p h = (p, tt)
All-place_batch P r (x ∷ rows) p h = ground (arith, All-place_batch P r rows)

pub count_gap-place_gap :
    (s : ℕ) (g : GapEvent) (gaps : List GapEvent)
    → count_gap s (place_gap g gaps) ≡ (if g.seq == s then 1 else 0) + count_gap s gaps
unfolding place_gap
count_gap-place_gap s g [] = refl
count_gap-place_gap s g (x ∷ gaps) = ground (arith, count_gap-place_gap s g gaps)

pub length-place_gap :
    (g : GapEvent) (gaps : List GapEvent) → length (place_gap g gaps) ≡ suc (length gaps)
unfolding place_gap
length-place_gap g [] = refl
length-place_gap g (x ∷ gaps) = ground (arith, length-place_gap g gaps)

pub count_seq-without_seq :
    (s k : ℕ) (rows : List BatchRow)
    → count_seq s (without_seq k rows) ≡ (if k == s then 0 else count_seq s rows)
unfolding without_seq
count_seq-without_seq s k [] = ground arith
count_seq-without_seq s k (r ∷ rows) = ground (arith, count_seq-without_seq s k rows)

pub total_payload-without_seq :
    (k : ℕ) (rows : List BatchRow) → total_payload (without_seq k rows) ≤ total_payload rows
unfolding without_seq
total_payload-without_seq k [] = omega arith
total_payload-without_seq k (r ∷ rows) = ground (arith, total_payload-without_seq k rows)

-- A deletion by sequence number removes the rows that have it.
pub length-without_seq :
    (k : ℕ) (rows : List BatchRow) → length (without_seq k rows) + count_seq k rows ≡ length rows
unfolding without_seq
length-without_seq k [] = refl
length-without_seq k (r ∷ rows) = ground (arith, length-without_seq k rows)

pub All-without_seq :
    (P : BatchRow → Type 0) (k : ℕ) (rows : List BatchRow) → All P rows → All P (without_seq k rows)
unfolding without_seq
All-without_seq P k [] h = tt
All-without_seq P k (r ∷ rows) h = ground (arith, All-without_seq P k rows)

module _ (cutoff total maximum : ℕ) where
  pub first_candidate-count :
      (rows : List BatchRow) (r : BatchRow)
      → first_candidate cutoff total maximum rows ≡ some r
      → 0 < count_seq r.seq rows
  unfolding first_candidate
  first_candidate-count [] r e = cc
  first_candidate-count (x ∷ rows) r e = ground (arith, first_candidate-count rows r)

  pub first_candidate-is_candidate :
      (rows : List BatchRow) (r : BatchRow)
      → first_candidate cutoff total maximum rows ≡ some r
      → is_candidate cutoff total maximum r ≡ true
  unfolding first_candidate
  first_candidate-is_candidate [] r e = cc
  first_candidate-is_candidate (x ∷ rows) r e = ground (arith, first_candidate-is_candidate rows r)

  pub first_candidate-none :
      (rows : List BatchRow)
      → first_candidate cutoff total maximum rows ≡ none
      → All (λ r. is_candidate cutoff total maximum r ≡ false) rows
  unfolding first_candidate
  first_candidate-none [] e = tt
  first_candidate-none (x ∷ rows) e = ground (arith, first_candidate-none rows)

pub candidate_row_lem : (r : BatchRow) → candidate_row r ≡ ok r
unfolding candidate_row
candidate_row_lem r = ground arith

pub optional_candidate_lem : (o : Option BatchRow) → optional_candidate o ≡ ok o
unfolding optional_candidate
optional_candidate_lem none = refl
optional_candidate_lem (some r) = ground arith

gap_row_lem : (g : GapEvent) → gap_row g ≡ ok g
unfolding gap_row
gap_row_lem g = ground arith

-- The list of gaps is read back whole.
pub read_gaps_lem : (gaps : List GapEvent) → read_gaps gaps ≡ ok gaps
unfolding read_gaps
read_gaps_lem [] = refl
read_gaps_lem (g ∷ gaps) = ground (arith, gap_row_lem g, read_gaps_lem gaps)
