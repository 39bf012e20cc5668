-- ===== src/Control/Series.antt =====
-- The points that `series` of src/control.rs returns, against the rows of the table.
use flow_observability.Base.{
  ℕ, ◌+◌, ◌^◌, ◌≡◌, refl, subst, Bool, true, false, not, ◌&&◌, ◌||◌, ltb, leb, text_eq, List, [],
  ◌∷◌, Option, none, some, ◌==◌, if◌then◌else◌, ok, ◌>>=◌, >>=-eq-ok, ◌∙◌, ◌<◌, arith,
}
use flow_observability.Base.Order.{nat_ord}
use flow_observability.Model.{Text}
use flow_observability.Sqlite.{integer, sum_column, unsigned}
use flow_observability.Control.Ingest.{ControlEngine}
use flow_observability.SortedMap.{lookup, Above, IsSorted}
use flow_observability.SortedMap.Laws.{lookup-upsert, upsert-IsSorted}
use flow_observability.Control.Tables.{FlowRow, ControlTables}
use flow_observability.Control.Queries.{
  SeriesPoint, rows_where, sum_of, group_series, series_point, collect, in_series, is_selected,
  read_series, lower_bound, upper_bound, series,
}

abbrev pub in_bucket : ℕ → FlowRow → Bool
in_bucket start r = r.bucket_start == start

abbrev pub has_bucket : ℕ → List FlowRow → Bool
has_bucket start [] = false
has_bucket start (r ∷ rows) = in_bucket start r || has_bucket start rows

abbrev pub sums : ℕ → List FlowRow → ℕ × ℕ
sums start rows = (
  sum_of (λ r. r.packets) (rows_where (in_bucket start) rows),
  sum_of (λ r. r.bytes) (rows_where (in_bucket start) rows),
)

-- The point of a bucket, by a search through the points.
abbrev pub point_at : ℕ → List SeriesPoint → Option (ℕ × ℕ)
point_at start [] = none
point_at start (p ∷ points) =
    if p.bucket_start == start then some (p.packets, p.bytes) else point_at start points

group_series-IsSorted : (rows : List FlowRow) → IsSorted nat_ord (group_series rows)
unfolding group_series
group_series-IsSorted [] = tt
group_series-IsSorted (r ∷ rows) =
    upsert-IsSorted nat_ord r.bucket_start (0, 0) (λ s. (s.0 + r.packets, s.1 + r.bytes))
      (group_series rows) (group_series-IsSorted rows)

absent_sums :
    (start : ℕ) (rows : List FlowRow) → has_bucket start rows ≡ false → sums start rows ≡ (0, 0)
unfolding sum_of rows_where
absent_sums start [] h = refl
absent_sums start (r ∷ rows) h = ground (arith, absent_sums start rows)

lookup-group_series :
    (start : ℕ) (rows : List FlowRow)
    → lookup nat_ord start (group_series rows)
      ≡ (if has_bucket start rows then some (sums start rows) else none)
unfolding group_series lookup sum_of rows_where
lookup-group_series start [] = refl
lookup-group_series start (r ∷ rows) =
    lookup-upsert nat_ord start r.bucket_start (0, 0) (λ s. (s.0 + r.packets, s.1 + r.bytes))
      (group_series rows) (group_series-IsSorted rows)
    ∙ ground (
      arith,
      lookup-group_series start rows,
      lookup-group_series r.bucket_start rows,
      absent_sums start rows,
    )

series_point-ok :
    (g : ℕ × (ℕ × ℕ)) (p : SeriesPoint)
    → series_point g ≡ ok p
    → (p.bucket_start ≡ g.0) × (p.packets ≡ g.1.0) × (p.bytes ≡ g.1.1)
unfolding series_point sum_column unsigned
series_point-ok g p h = ground arith

collect-point_at :
    (start : ℕ) (groups : List (ℕ × (ℕ × ℕ))) (points : List SeriesPoint)
    → collect series_point groups ≡ ok points
    → point_at start points ≡ lookup nat_ord start groups
unfolding lookup
collect-point_at start [] [] h = refl
collect-point_at start [] (p ∷ points) h = cc
collect-point_at start (g ∷ groups) [] h = ground arith
collect-point_at start (g ∷ groups) (p ∷ points) h =
    let (q, first, others) =
      >>=-eq-ok (series_point g) (λ y. collect series_point groups >>= λ ys. ok (y ∷ ys)) h in
    ground (arith, series_point-ok g p, collect-point_at start groups points)

-- Ascending starts, each bucket once.
abbrev pub StartAbove : ℕ → List SeriesPoint → Type 0
StartAbove start [] = Unit
StartAbove start (p ∷ points) = (start < p.bucket_start) × StartAbove start points

abbrev pub IsAscending : List SeriesPoint → Type 0
IsAscending [] = Unit
IsAscending (p ∷ points) = StartAbove p.bucket_start points × IsAscending points

collect-StartAbove :
    (start : ℕ) (groups : List (ℕ × (ℕ × ℕ))) (points : List SeriesPoint)
    → Above nat_ord start groups
    → collect series_point groups ≡ ok points
    → StartAbove start points
collect-StartAbove start [] [] a h = tt
collect-StartAbove start [] (p ∷ points) a h = cc
collect-StartAbove start (g ∷ groups) [] a h = tt
collect-StartAbove start (g ∷ groups) (p ∷ points) a h =
    let (q, first, others) =
      >>=-eq-ok (series_point g) (λ y. collect series_point groups >>= λ ys. ok (y ∷ ys)) h in
    ground (arith, series_point-ok g p, collect-StartAbove start groups points)

collect-IsAscending :
    (groups : List (ℕ × (ℕ × ℕ))) (points : List SeriesPoint)
    → IsSorted nat_ord groups
    → collect series_point groups ≡ ok points
    → IsAscending points
collect-IsAscending [] [] a h = tt
collect-IsAscending [] (p ∷ points) a h = cc
collect-IsAscending (g ∷ groups) [] a h = tt
collect-IsAscending (g ∷ groups) (p ∷ points) a h =
    let (q, first, others) =
      >>=-eq-ok (series_point g) (λ y. collect series_point groups >>= λ ys. ok (y ∷ ys)) h in
    ground (
      arith,
      series_point-ok g p,
      collect-StartAbove g.0 groups points,
      collect-IsAscending groups points,
    )

-- A bound or a capture point that is not given leaves nothing out; an INTEGER is below 2 ^ 63.
abbrev pub is_asked_point : Option Text → Text → Bool
is_asked_point none point = true
is_asked_point (some asked) point = text_eq point asked

abbrev pub is_since : Option ℕ → ℕ → Bool
is_since none start = true
is_since (some from) start = not (ltb start from)

abbrev pub is_until : Option ℕ → ℕ → Bool
is_until none start = ltb start (2 ^ 63)
is_until (some to) start = not (ltb to start)

-- The rows of the node, of the capture point, and of the buckets from `from` to `to`.
abbrev pub window :
    (node : Text) (capture_point : Option Text) (from to : Option ℕ) → List FlowRow → List FlowRow
window node capture_point from to [] = []
window node capture_point from to (r ∷ rows) =
    let others = window node capture_point from to rows in
    if text_eq r.node_id node
    then if is_asked_point capture_point r.capture_point
      then if is_since from r.bucket_start
        then if is_until to r.bucket_start then r ∷ others else others
        else others
      else others
    else others

in_series_point :
    (node : Text) (capture_point : Option Text) (r : FlowRow)
    → is_selected node capture_point r
      ≡ (text_eq r.node_id node && is_asked_point capture_point r.capture_point)
unfolding is_selected
in_series_point node none r = ground arith
in_series_point node (some point) r = refl

in_series_since : (from : Option ℕ) (start : ℕ) → leb (lower_bound from) start ≡ is_since from start
in_series_since none start = ground arith
in_series_since (some from) start = ground arith

in_series_until : (to : Option ℕ) (start : ℕ) → leb start (upper_bound to) ≡ is_until to start
in_series_until none start = ground arith
in_series_until (some to) start = ground arith

rows_where-in_series :
    (node : Text) (capture_point : Option Text) (from to : Option ℕ) (rows : List FlowRow)
    → rows_where (in_series node capture_point (lower_bound from) (upper_bound to)) rows
      ≡ window node capture_point from to rows
unfolding rows_where
rows_where-in_series node capture_point from to [] = refl
rows_where-in_series node capture_point from to (r ∷ rows) = ground (
  arith,
  in_series_point node capture_point r,
  in_series_since from r.bucket_start,
  in_series_until to r.bucket_start,
  rows_where-in_series node capture_point from to rows,
)

read_series-ok :
    (node : Text) (capture_point : Option Text) (from to : ℕ) (t : ControlTables)
    (points : List SeriesPoint)
    → read_series node capture_point from to t ≡ ok points
    → IsAscending points
      × ((start : ℕ)
          → point_at start points ≡ (
              if has_bucket start (rows_where (in_series node capture_point from to) t.flows)
              then some (sums start (rows_where (in_series node capture_point from to) t.flows))
              else none))
unfolding read_series
read_series-ok node capture_point from to t points h = (
  collect-IsAscending groups points (group_series-IsSorted rows) h,
  λ start. collect-point_at start groups points h ∙ lookup-group_series start rows,
)
  where
    rows : List FlowRow
    rows = rows_where (in_series node capture_point from to) t.flows

    groups : List (ℕ × (ℕ × ℕ))
    groups = group_series rows

series-eq-ok :
    (engine : ControlEngine) (node : Text) (capture_point : Option Text) (from to : Option ℕ)
    (t : ControlTables) (points : List SeriesPoint)
    → series engine node capture_point from to t ≡ ok points
    → read_series node capture_point (lower_bound from) (upper_bound to) t ≡ ok points
unfolding series integer
series-eq-ok engine node capture_point from to t points h = ground arith

-- If `series` returns points, then they ascend by their bucket, and there is one for each bucket
-- that has a row of the node, of the capture point if one is given, and within the bounds, both
-- included, that are given, and in any case below 2^63; it carries the sums of the packets and of the
-- bytes of these rows.
pub series-points :
    (engine : ControlEngine) (node : Text) (capture_point : Option Text) (from to : Option ℕ)
    (t : ControlTables) (points : List SeriesPoint)
    → series engine node capture_point from to t ≡ ok points
    → IsAscending points
      × ((start : ℕ)
          → point_at start points ≡ (
              if has_bucket start (window node capture_point from to t.flows)
              then some (sums start (window node capture_point from to t.flows))
              else none))
series-points engine node capture_point from to t points h =
    subst
      (λ rows.
        IsAscending points
        × ((start : ℕ)
            → point_at start points
              ≡ (if has_bucket start rows then some (sums start rows) else none)))
      (rows_where-in_series node capture_point from to t.flows)
      (read_series-ok node capture_point (lower_bound from) (upper_bound to) t points
        (series-eq-ok engine node capture_point from to t points h))
