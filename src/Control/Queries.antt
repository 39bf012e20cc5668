-- ===== src/Control/Queries.antt =====
-- The queries of `ControlStore` in src/control.rs: `nodes`, `stats` and `series`.
use flow_observability.Base.{
  ℕ, ◌+◌, ◌-◌, Bool, false, ◌&&◌, ◌||◌, List, [], ◌∷◌, length, Option, none, some, ltb, leb,
  if◌then◌else◌, Outcome, ok, err, ◌>>=◌, text_eq,
}
use flow_observability.Base.Int.{pos}
use flow_observability.Base.Order.{Ord, nat_ord, pair_ord, list_ord}
use flow_observability.Model.{Text}
use flow_observability.Sqlite.{Error, anyhow, i64_bound, integer, unsigned, sum_column}
use flow_observability.SortedMap.{upsert}
use flow_observability.Control.Tables.{
  IngestedBatch, FlowRow, ControlTables, Statement, select_nodes, select_stats, select_series,
}
use flow_observability.Control.Ingest.{ControlEngine}

pub record ControlStats : Type 0 where
  pub batches : ℕ
  pub flow_buckets : ℕ
  pub packets : ℕ
  pub bytes : ℕ

pub record SeriesPoint : Type 0 where
  pub bucket_start : ℕ
  pub packets : ℕ
  pub bytes : ℕ

pub record NodeInventoryItem : Type 0 where
  pub node_id : Text
  pub capture_point : Text
  pub first_bucket_start : ℕ
  pub last_bucket_start : ℕ

-- `WHERE node_id = ?1 [AND capture_point = ?2]`
unfoldable pub is_selected : (node : Text) (capture_point : Option Text) → FlowRow → Bool
is_selected node none r = text_eq r.node_id node
is_selected node (some point) r = text_eq r.node_id node && text_eq r.capture_point point

-- The rows that a WHERE clause keeps.
unfoldable pub rows_where : (FlowRow → Bool) → List FlowRow → List FlowRow
rows_where test [] = []
rows_where test (r ∷ rows) = if test r then r ∷ rows_where test rows else rows_where test rows

-- `SUM(packets)` and `SUM(bytes)`, before their range is tested
unfoldable pub sum_of : (FlowRow → ℕ) → List FlowRow → ℕ
sum_of column [] = 0
sum_of column (r ∷ rows) = column r + sum_of column rows

abbrev pub has_text : Text → List Text → Bool
has_text text [] = false
has_text text (x ∷ texts) = text_eq x text || has_text text texts

-- `COUNT(DISTINCT batch_id)`: how many identifiers stand in no later row
abbrev pub ids : List FlowRow → List Text
ids [] = []
ids (r ∷ rows) = r.batch_id ∷ ids rows

unfoldable pub count_distinct : List Text → ℕ
count_distinct [] = 0
count_distinct (x ∷ texts) = (if has_text x texts then 0 else 1) + count_distinct texts

-- `SELECT COUNT(*) FROM ingested_batches WHERE node_id = ?1`
unfoldable pub count_batches : Text → List IngestedBatch → ℕ
count_batches node [] = 0
count_batches node (b ∷ batches) =
    (if text_eq b.node_id node then 1 else 0) + count_batches node batches

abbrev pub batch_count : (node : Text) (capture_point : Option Text) → ControlTables → ℕ
batch_count node none t = count_batches node t.ingested
batch_count node (some point) t =
    count_distinct (ids (rows_where (is_selected node (some point)) t.flows))

unfoldable pub read_stats :
    (node : Text) (capture_point : Option Text) → ControlTables → Outcome Error ControlStats
unfolding sum_column unsigned
read_stats node capture_point t = do
  let rows = rows_where (is_selected node capture_point) t.flows
  total_packets ← sum_column (sum_of (λ r. r.packets) rows)
  total_bytes ← sum_column (sum_of (λ r. r.bytes) rows)
  batches ← unsigned (pos (batch_count node capture_point t)) 0
  flow_buckets ← unsigned (pos (length rows)) 1
  packets ← unsigned (pos total_packets) 2
  bytes ← unsigned (pos total_bytes) 3
  ok (record { batches = batches; flow_buckets = flow_buckets; packets = packets; bytes = bytes })

-- `GROUP BY bucket_start ORDER BY bucket_start`, with the sums of a group's packets and bytes
unfoldable pub group_series : List FlowRow → List (ℕ × (ℕ × ℕ))
group_series [] = []
group_series (r ∷ rows) =
    upsert nat_ord r.bucket_start (0, 0) (λ s. (s.0 + r.packets, s.1 + r.bytes)) (group_series rows)

unfoldable pub series_point : ℕ × (ℕ × ℕ) → Outcome Error SeriesPoint
unfolding sum_column unsigned
series_point g = do
  total_packets ← sum_column g.1.0
  total_bytes ← sum_column g.1.1
  bucket_start ← unsigned (pos g.0) 0
  packets ← unsigned (pos total_packets) 1
  bytes ← unsigned (pos total_bytes) 2
  ok (record { bucket_start = bucket_start; packets = packets; bytes = bytes })

-- `query_map(…)?.collect::<Result<Vec<_>, _>>()`
abbrev pub collect : {A B : Type 0} → (A → Outcome Error B) → List A → Outcome Error (List B)
collect f [] = ok []
collect f (x ∷ xs) = do y ← f x; ys ← collect f xs; ok (y ∷ ys)

abbrev pub in_series : (node : Text) (capture_point : Option Text) (from to : ℕ) → FlowRow → Bool
in_series node capture_point from to r =
    is_selected node capture_point r && (leb from r.bucket_start && leb r.bucket_start to)

unfoldable pub read_series :
    (node : Text) (capture_point : Option Text) (from to : ℕ)
    → ControlTables
    → Outcome Error (List SeriesPoint)
unfolding series_point
read_series node capture_point from to t =
    collect series_point (group_series (rows_where (in_series node capture_point from to) t.flows))

abbrev pub NodeKey : Type 0
NodeKey = Text × Text

abbrev pub node_order : Ord NodeKey
node_order = pair_ord (list_ord nat_ord) (list_ord nat_ord)

abbrev pub widen : ℕ → ℕ × ℕ → ℕ × ℕ
widen start r = ((if ltb start r.0 then start else r.0), (if ltb r.1 start then start else r.1))

-- `MIN(bucket_start), MAX(bucket_start) … GROUP BY node_id, capture_point`, in that order
unfoldable pub group_nodes : List FlowRow → List (NodeKey × (ℕ × ℕ))
group_nodes [] = []
group_nodes (r ∷ rows) =
    upsert node_order (r.node_id, r.capture_point) (r.bucket_start, r.bucket_start)
      (widen r.bucket_start) (group_nodes rows)

unfoldable pub node_item : NodeKey × (ℕ × ℕ) → Outcome Error NodeInventoryItem
unfolding unsigned
node_item g = do
  first ← unsigned (pos g.1.0) 2
  last ← unsigned (pos g.1.1) 3
  ok (record {
    node_id = g.0.0;
    capture_point = g.0.1;
    first_bucket_start = first;
    last_bucket_start = last;
  })

unfoldable pub read_nodes : ControlTables → Outcome Error (List NodeInventoryItem)
unfolding node_item
read_nodes t = collect node_item (group_nodes t.flows)

-- `from.unwrap_or(0)` and `to.unwrap_or(i64::MAX as u64)`
abbrev pub lower_bound : Option ℕ → ℕ
lower_bound none = 0
lower_bound (some from) = from

abbrev pub upper_bound : Option ℕ → ℕ
upper_bound none = i64_bound - 1
upper_bound (some to) = to

-- A query of the store runs outside a transaction and changes nothing.
module _ (engine : ControlEngine) where
  abbrev pub run_query :
      {A : Type 0} → Statement → (ControlTables → Outcome Error A) → ControlTables → Outcome Error A
  run_query statement read t = elim (engine statement t) [ some fault ↦ err fault | none ↦ read t ]

  unfoldable pub nodes : ControlTables → Outcome Error (List NodeInventoryItem)
  unfolding read_nodes
  nodes t = run_query select_nodes read_nodes t

  unfoldable pub stats :
      (node : Text) (capture_point : Option Text) → ControlTables → Outcome Error ControlStats
  unfolding read_stats
  stats node capture_point t = run_query select_stats (read_stats node capture_point) t

  unfoldable pub series :
      (node : Text) (capture_point : Option Text) (from to : Option ℕ)
      → ControlTables
      → Outcome Error (List SeriesPoint)
  unfolding integer read_series
  series node capture_point from to t =
      if ltb (upper_bound to) (lower_bound from)
      then err (anyhow "from must be less than or equal to to")
      else (do
        first ← integer (lower_bound from) "series from"
        last ← integer (upper_bound to) "series to"
        run_query select_series (read_series node capture_point first last) t)
