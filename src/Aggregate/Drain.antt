-- ===== src/Aggregate/Drain.antt =====
-- Draining: exactly the buckets that have ended leave.
use mathlib.Core.List.{map-append}
use Prim.Native.Nat.Ordering.{lt}
use flow_observability.Base.{
  ℕ, ◌≤◌, ◌<◌, ◌≡◌, ◌≢◌, sym, ap, ◌∙◌, List, [], ◌∷◌, ◌++◌, map, arith, All, All-imp,
}
use flow_observability.Base.Order.{Ord, nat_ord, cmp_list}
use flow_observability.Model.{FlowKey, FlowBucket, IpAddr, v4, v6}
use flow_observability.Model.KeyOrder.{flow_key_ord, address_code}
use flow_observability.SortedMap.{IsSorted}
use flow_observability.SortedMap.Laws.{
  keys_below-append-split_off, keys_below-lt, split_off-ne-lt, split_off-IsSorted, All-split_off,
}
use flow_observability.Aggregate.Tally.{IsValid}
use flow_observability.Aggregate.{
  Aggregator, BucketKey, Counters, bucket_order, to_bucket, to_buckets, minimum_flow_key,
  drain_before,
}

empty_least : (xs : List ℕ) → cmp_list nat_ord xs [] ≢ lt
empty_least [] h = cc
empty_least (x ∷ xs) h = cc

address_least : (x : IpAddr) → cmp_list nat_ord (address_code x) (0 ∷ 0 ∷ 0 ∷ 0 ∷ 0 ∷ []) ≢ lt
address_least (v4 a b c d) h = ground arith
address_least (v6 octets) h = ground arith

-- No key of a flow is below the minimum.
pub minimum_flow_key-le : (k : FlowKey) → Ord.cmp flow_key_ord k minimum_flow_key ≢ lt
unfolding flow_key_ord minimum_flow_key
minimum_flow_key-le k h =
    ground (
      arith,
      empty_least k.capture_point,
      address_least k.source_ip,
      address_least k.destination_ip,
    )

-- Against the least key of a bucket, only the start of the bucket counts.
below_start :
    (e : BucketKey × Counters) (start : ℕ)
    → bucket_order.cmp e.0 (start, minimum_flow_key) ≡ lt
    → e.0.0 < start
below_start e start h = ground (arith, minimum_flow_key-le e.0.1)

from_start :
    (e : BucketKey × Counters) (start : ℕ)
    → bucket_order.cmp e.0 (start, minimum_flow_key) ≢ lt
    → start ≤ e.0.0
from_start e start h = ground arith

pub All-map :
    {A B : Type 0} (P : B → Type 0) (f : A → B) (xs : List A)
    → All (λ x. P (f x)) xs
    → All P (map f xs)
All-map P f [] h = tt
All-map P f (x ∷ xs) h = (h.0, All-map P f xs h.1)

-- Draining before a time hands over exactly the buckets that start before it, in their order, and
-- keeps exactly the others: together they are the buckets that were held.
pub drain_before_partition :
    (a : Aggregator) (start : ℕ)
    → IsSorted bucket_order a.flows
    → (to_buckets a.flows ≡ (drain_before a start).1 ++ to_buckets (drain_before a start).0.flows)
      × All (λ (b : FlowBucket). b.bucket_start < start) (drain_before a start).1
      × All (λ (b : FlowBucket). start ≤ b.bucket_start) (to_buckets (drain_before a start).0.flows)
unfolding drain_before to_buckets
drain_before_partition a start h =
    let key : BucketKey = (start, minimum_flow_key) in
    (
      ap (map to_bucket) (sym (keys_below-append-split_off bucket_order key a.flows h))
          ∙ map-append to_bucket _ _,
      All-map (λ (b : FlowBucket). b.bucket_start < start) to_bucket _
          (All-imp (λ e p. below_start e start p) _ (keys_below-lt bucket_order key a.flows)),
      All-map (λ (b : FlowBucket). start ≤ b.bucket_start) to_bucket _
          (All-imp (λ e p. from_start e start p) _ (split_off-ne-lt bucket_order key a.flows)),
    )

-- Draining keeps the aggregator valid.
pub drain_before-IsValid :
    (a : Aggregator) (start : ℕ) → IsValid a → IsValid (drain_before a start).0
unfolding drain_before
drain_before-IsValid a start h =
    let key : BucketKey = (start, minimum_flow_key) in
    record {
      positive = h.positive;
      sorted = split_off-IsSorted bucket_order key a.flows h.sorted;
      bounded = All-split_off bucket_order _ key a.flows h.bounded;
      aligned = All-split_off bucket_order _ key a.flows h.aligned;
    }
