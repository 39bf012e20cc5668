-- ===== src/SortedMap.antt =====
-- `std::collections::BTreeMap`, as far as the program uses it: a list of entries in ascending order
-- of their keys. `entry(k).or_default()` followed by a write is `upsert`, and `split_off(k)` leaves
-- the keys below `k` and hands back the others.
pub mod Laws
pub mod Members
use Prim.Native.Nat.Ordering.{lt, eq, gt}
use flow_observability.Base.{List, [], ◌∷◌, Option, none, some, ◌≡◌, All}
use flow_observability.Base.Order.{Ord}

module _ {K V : Type 0} (o : Ord K) where
  unfoldable pub lookup : K → List (K × V) → Option V
  lookup k [] = none
  lookup k ((j, v) ∷ m) = elim (o.cmp j k) [ eq ↦ some v | _ ↦ lookup k m ]

  unfoldable pub upsert : K → V → (V → V) → List (K × V) → List (K × V)
  upsert k default f [] = (k, f default) ∷ []
  upsert k default f ((j, v) ∷ m) = elim (o.cmp k j) [
    | lt ↦ (k, f default) ∷ (j, v) ∷ m
    | eq ↦ (j, f v) ∷ m
    | gt ↦ (j, v) ∷ upsert k default f m
  ]

  -- What `split_off` leaves behind.
  unfoldable pub keys_below : K → List (K × V) → List (K × V)
  keys_below k [] = []
  keys_below k ((j, v) ∷ m) = elim (o.cmp j k) [ lt ↦ (j, v) ∷ keys_below k m | _ ↦ keys_below k m ]

  -- What `split_off` returns.
  unfoldable pub split_off : K → List (K × V) → List (K × V)
  split_off k [] = []
  split_off k ((j, v) ∷ m) = elim (o.cmp j k) [ lt ↦ split_off k m | _ ↦ (j, v) ∷ split_off k m ]

  abbrev pub Above : K → List (K × V) → Type 0
  Above k m = All (λ e. o.cmp k e.0 ≡ lt) m

  -- Keys ascend, so none stands twice.
  abbrev pub IsSorted : List (K × V) → Type 0
  IsSorted [] = Unit
  IsSorted (e ∷ m) = Above e.0 m × IsSorted m
