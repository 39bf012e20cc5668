-- ===== src/Tests/Charts.antt =====
-- Tests of the queries of src/control.rs, and their theorems on concrete tables.
use flow_observability.Base.{All, List, ℕ, ◌≡◌, refl, [], ◌∷◌, none, some, arith, ok, if◌then◌else◌}
use flow_observability.Model.{bytes_of}
use flow_observability.Sqlite.{integer, unsigned, sum_column}
use flow_observability.SortedMap.{upsert}
use flow_observability.Control.Queries.{
  NodeInventoryItem, nodes, read_nodes, group_nodes, node_item, ControlStats, SeriesPoint, series,
  read_series, series_point, group_series, rows_where, sum_of, is_selected, stats, read_stats,
  count_batches,
}
use flow_observability.Control.Totals.{sum_points, series-stats}
use flow_observability.SortedMap.Members.{Any}
use flow_observability.Control.Nodes.{Lists, IsTight, nodes-Lists}
use flow_observability.Control.Series.{
  IsAscending, point_at, has_bucket, sums, window, series-points,
}
use flow_observability.Tests.Batches.{node}
use flow_observability.Tests.Deliveries.{quiet_engine, stored}

abbrev counted : ControlStats
counted = record { batches = 1; flow_buckets = 1; packets = 1; bytes = 100 }

abbrev charted : List SeriesPoint
charted = record { bucket_start = 100; packets = 1; bytes = 100 } ∷ []

counted_once : stats quiet_engine node none stored ≡ ok counted
unfolding stats read_stats rows_where is_selected sum_of sum_column unsigned count_batches
counted_once = refl

charted_once : series quiet_engine node none none none stored ≡ ok charted
unfolding series integer read_series rows_where is_selected group_series upsert series_point
    sum_column unsigned
charted_once = refl

abbrev listed : List NodeInventoryItem
listed =
    record {
      node_id = node;
      capture_point = bytes_of "physical:eth0";
      first_bucket_start = 100;
      last_bucket_start = 100;
    }
    ∷ []

listed_once : nodes quiet_engine stored ≡ ok listed
unfolding nodes read_nodes group_nodes upsert node_item unsigned
listed_once = refl

nodes-Lists_example :
    All (λ r. Any (Lists r) listed) stored.flows × All (IsTight stored.flows) listed
nodes-Lists_example = nodes-Lists quiet_engine stored listed listed_once

-- The chart's points add up to the statistics.
series-stats_example :
    (sum_points (λ p. p.packets) charted ≡ 1) × (sum_points (λ p. p.bytes) charted ≡ 100)
series-stats_example =
    series-stats quiet_engine node none stored charted counted (omega arith, tt) charted_once
      counted_once

series-points_example :
    IsAscending (record { bucket_start = 100; packets = 1; bytes = 100 } ∷ [])
    × ((start : ℕ)
        → point_at start (record { bucket_start = 100; packets = 1; bytes = 100 } ∷ []) ≡ (
            if has_bucket start (window node none none none stored.flows)
            then some (sums start (window node none none none stored.flows))
            else none))
series-points_example =
    series-points quiet_engine node none none none stored
      (record { bucket_start = 100; packets = 1; bytes = 100 } ∷ []) charted_once
