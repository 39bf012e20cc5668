-- ===== src/Control/Nodes.antt =====
-- What `nodes` of src/control.rs lists.
use flow_observability.Base.{
  ℕ, ◌≤◌, ◌≡◌, refl, subst, List, [], ◌∷◌, ok, arith, All, All-imp, inl, inr, Bool-cases, ltb,
}
use flow_observability.Sqlite.{unsigned}
use flow_observability.Control.Tables.{ControlTables, FlowRow}
use flow_observability.Control.Ingest.{ControlEngine}
use flow_observability.Control.Queries.{
  NodeInventoryItem, NodeKey, node_order, widen, group_nodes, node_item, collect, read_nodes, nodes,
}
use flow_observability.SortedMap.Members.{Any, Any-imp, All-upsert_at, Any-upsert, Any-upsert_new}

-- A group and its rows.
abbrev pub Group : Type 0
Group = NodeKey × (ℕ × ℕ)

abbrev pub key_of : FlowRow → NodeKey
key_of r = (r.node_id, r.capture_point)

abbrev pub Covers : FlowRow → Group → Type 0
Covers r g = (g.0 ≡ key_of r) × (g.1.0 ≤ r.bucket_start) × (r.bucket_start ≤ g.1.1)

-- Both ends of the range are starts of rows of the group.
abbrev pub IsAttained : List FlowRow → Group → Type 0
IsAttained rows g =
    Any (λ (r : FlowRow). (key_of r ≡ g.0) × (r.bucket_start ≡ g.1.0)) rows
    × Any (λ (r : FlowRow). (key_of r ≡ g.0) × (r.bucket_start ≡ g.1.1)) rows

widen-Covers :
    (start : ℕ) (r : FlowRow) (k : NodeKey) (v : ℕ × ℕ)
    → Covers r (k, v)
    → Covers r (k, widen start v)
widen-Covers start r k v h = ground (arith, h)

group_nodes-Covers : (rows : List FlowRow) → All (λ r. Any (Covers r) (group_nodes rows)) rows
unfolding group_nodes
group_nodes-Covers [] = tt
group_nodes-Covers (r ∷ rows) = (
  Any-upsert_new node_order (Covers r) (key_of r) (r.bucket_start, r.bucket_start)
      (widen r.bucket_start) (group_nodes rows) (refl, ground arith, ground arith)
      (λ v. ground arith),
  All-imp
      (λ x h.
        Any-upsert node_order (Covers x) (Covers x) (key_of r) (r.bucket_start, r.bucket_start)
          (widen r.bucket_start) (group_nodes rows) (λ e p. p)
          (λ j v p. widen-Covers r.bucket_start x j v p) h)
      rows (group_nodes-Covers rows),
)

widen-IsAttained :
    (r : FlowRow) (rows : List FlowRow) (v : ℕ × ℕ)
    → IsAttained rows (key_of r, v)
    → IsAttained (r ∷ rows) (key_of r, widen r.bucket_start v)
widen-IsAttained r rows v h = (
  elim (Bool-cases (ltb r.bucket_start v.0)) [
    | inl e ↦ inl (refl, ground arith)
    | inr e ↦ inr (
        Any-imp (λ (x : FlowRow). (key_of x ≡ key_of r) × (x.bucket_start ≡ v.0)) _ rows
          (λ x p. (p.0, ground (arith, p.1))) h.0)
  ],
  elim (Bool-cases (ltb v.1 r.bucket_start)) [
    | inl e ↦ inl (refl, ground arith)
    | inr e ↦ inr (
        Any-imp (λ (x : FlowRow). (key_of x ≡ key_of r) × (x.bucket_start ≡ v.1)) _ rows
          (λ x p. (p.0, ground (arith, p.1))) h.1)
  ],
)

group_nodes-IsAttained : (rows : List FlowRow) → All (IsAttained rows) (group_nodes rows)
unfolding group_nodes
group_nodes-IsAttained [] = tt
group_nodes-IsAttained (r ∷ rows) =
    All-upsert_at node_order (IsAttained rows) (IsAttained (r ∷ rows)) (key_of r)
      (r.bucket_start, r.bucket_start) (widen r.bucket_start) (group_nodes rows)
      (inl (refl, ground arith), inl (refl, ground arith)) (λ v p. widen-IsAttained r rows v p)
      (λ e p. (inr p.0, inr p.1)) (group_nodes-IsAttained rows)

abbrev item_group : NodeInventoryItem → Group
item_group i = ((i.node_id, i.capture_point), (i.first_bucket_start, i.last_bucket_start))

abbrev items_of : List Group → List NodeInventoryItem
items_of [] = []
items_of (g ∷ groups) =
    record {
      node_id = g.0.0;
      capture_point = g.0.1;
      first_bucket_start = g.1.0;
      last_bucket_start = g.1.1;
    }
    ∷ items_of groups

-- Reading the groups never fails.
collect_lem : (groups : List Group) → collect node_item groups ≡ ok (items_of groups)
unfolding node_item unsigned
collect_lem [] = refl
collect_lem (g ∷ groups) = ground (arith, collect_lem groups)

Any-items_of :
    (P : Group → Type 0) (groups : List Group)
    → Any P groups
    → Any (λ i. P (item_group i)) (items_of groups)
Any-items_of P [] p = absurd p
Any-items_of P (g ∷ groups) (inl p) = inl p
Any-items_of P (g ∷ groups) (inr p) = inr (Any-items_of P groups p)

All-items_of :
    (P : Group → Type 0) (groups : List Group)
    → All P groups
    → All (λ i. P (item_group i)) (items_of groups)
All-items_of P [] p = tt
All-items_of P (g ∷ groups) p = (p.0, All-items_of P groups p.1)

-- Reading the items: of the node and the capture point of a row, and around its start.
abbrev pub Lists : FlowRow → NodeInventoryItem → Type 0
Lists r i = Covers r (item_group i)

-- Both ends of the range of an item are starts of stored rows of its node and capture point.
abbrev pub IsTight : List FlowRow → NodeInventoryItem → Type 0
IsTight rows i = IsAttained rows (item_group i)

module _ (engine : ControlEngine) where
  nodes-items :
      (t : ControlTables) (items : List NodeInventoryItem)
      → nodes engine t ≡ ok items
      → items_of (group_nodes t.flows) ≡ items
  unfolding nodes read_nodes
  nodes-items t items e = ground (arith, collect_lem (group_nodes t.flows))

  -- If `nodes` is answered, then each stored row has an item of its node and capture point whose range
  -- takes in the row's start, and both ends of the range of each item are starts of stored rows of
  -- the node and capture point that it names.
  pub nodes-Lists :
      (t : ControlTables) (items : List NodeInventoryItem)
      → nodes engine t ≡ ok items
      → All (λ r. Any (Lists r) items) t.flows × All (IsTight t.flows) items
  nodes-Lists t items e =
      subst
        (λ (xs : List NodeInventoryItem).
          All (λ r. Any (Lists r) xs) t.flows × All (IsTight t.flows) xs)
        (nodes-items t items e)
        (
          All-imp (λ r h. Any-items_of (Covers r) (group_nodes t.flows) h) t.flows
              (group_nodes-Covers t.flows),
          All-items_of (IsAttained t.flows) (group_nodes t.flows) (group_nodes-IsAttained t.flows),
        )
