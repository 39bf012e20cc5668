-- ===== src/Control/Totals.antt =====
-- `stats` and `series` of src/control.rs agree in their sums.
use flow_observability.Base.{
  ℕ, ◌+◌, ◌-◌, ◌<◌, ◌≡◌, refl, List, [], ◌∷◌, Option, none, ok, arith, All, Outcome-cases, inl, inr,
}
use flow_observability.Base.Order.{nat_ord}
use flow_observability.SortedMap.{upsert}
use flow_observability.Model.{Text}
use flow_observability.Sqlite.{i64_bound, integer, sum_column, unsigned}
use flow_observability.Control.Tables.{ControlTables, FlowRow}
use flow_observability.Control.Ingest.{ControlEngine}
use flow_observability.Control.Queries.{
  ControlStats, SeriesPoint, is_selected, rows_where, sum_of, read_stats, stats, group_series,
  series_point, collect, in_series, read_series, series,
}

abbrev sum_groups : (ℕ × ℕ → ℕ) → List (ℕ × (ℕ × ℕ)) → ℕ
sum_groups f [] = 0
sum_groups f (g ∷ groups) = f g.1 + sum_groups f groups

-- The sum over the points of a chart.
abbrev pub sum_points : (SeriesPoint → ℕ) → List SeriesPoint → ℕ
sum_points f [] = 0
sum_points f (p ∷ points) = f p + sum_points f points

sum_groups-upsert :
    (k p b : ℕ) (groups : List (ℕ × (ℕ × ℕ)))
    → (sum_groups (λ s. s.0) (upsert nat_ord k (0, 0) (λ s. (s.0 + p, s.1 + b)) groups)
        ≡ sum_groups (λ s. s.0) groups + p)
      × (sum_groups (λ s. s.1) (upsert nat_ord k (0, 0) (λ s. (s.0 + p, s.1 + b)) groups)
          ≡ sum_groups (λ s. s.1) groups + b)
unfolding upsert
sum_groups-upsert k p b [] = (omega arith, omega arith)
sum_groups-upsert k p b (g ∷ groups) = ground (arith, sum_groups-upsert k p b groups)

sum_groups-group_series :
    (rows : List FlowRow)
    → (sum_groups (λ s. s.0) (group_series rows) ≡ sum_of (λ r. r.packets) rows)
      × (sum_groups (λ s. s.1) (group_series rows) ≡ sum_of (λ r. r.bytes) rows)
unfolding group_series sum_of
sum_groups-group_series [] = (refl, refl)
sum_groups-group_series (r ∷ rows) = ground (
  arith,
  sum_groups-group_series rows,
  sum_groups-upsert r.bucket_start r.packets r.bytes (group_series rows),
)

sum_points-collect :
    (groups : List (ℕ × (ℕ × ℕ))) (points : List SeriesPoint)
    → collect series_point groups ≡ ok points
    → (sum_points (λ p. p.packets) points ≡ sum_groups (λ s. s.0) groups)
      × (sum_points (λ p. p.bytes) points ≡ sum_groups (λ s. s.1) groups)
unfolding series_point sum_column unsigned
sum_points-collect [] points e = ground arith
sum_points-collect (g ∷ groups) points e = elim (Outcome-cases (collect series_point groups)) [
  | inl (rest, q) ↦ ground (arith, sum_points-collect groups rest q)
  | inr (inl (x, q)) ↦ ground arith
  | inr (inr q) ↦ ground arith
]

-- Without bounds a chart takes in every row that is selected.
unbounded :
    (node : Text) (point : Option Text) (rows : List FlowRow)
    → All (λ r. r.bucket_start < i64_bound) rows
    → rows_where (in_series node point 0 (i64_bound - 1)) rows
      ≡ rows_where (is_selected node point) rows
unfolding rows_where
unbounded node point [] h = refl
unbounded node point (r ∷ rows) h = ground (arith, unbounded node point rows)

module _ (engine : ControlEngine) where
  -- If no row is later than an i64 can say, then `stats` and a chart without bounds agree, where both
  -- are answered: the packets of the points add up to the packets of the statistics, and the bytes to
  -- the bytes.
  pub series-stats :
      (node : Text) (capture_point : Option Text) (t : ControlTables) (points : List SeriesPoint)
      (s : ControlStats)
      → All (λ (r : FlowRow). r.bucket_start < i64_bound) t.flows
      → series engine node capture_point none none t ≡ ok points
      → stats engine node capture_point t ≡ ok s
      → (sum_points (λ p. p.packets) points ≡ s.packets)
        × (sum_points (λ p. p.bytes) points ≡ s.bytes)
  unfolding series stats read_series read_stats integer sum_column unsigned
  series-stats node capture_point t points s h e q = ground (
    arith,
    unbounded node capture_point t.flows h,
    sum_groups-group_series (rows_where (is_selected node capture_point) t.flows),
    sum_points-collect
        (group_series (rows_where (in_series node capture_point 0 (i64_bound - 1)) t.flows)) points,
  )
