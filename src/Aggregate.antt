-- ===== src/Aggregate.antt =====
-- src/aggregate.rs: counting packets and bytes by time bucket and flow. The counters are `u64` and
-- wrap, as in a release build.
pub mod Tally
pub mod Drain
pub mod Stream
use flow_observability.Base.{
  ℕ, ◌+◌, ◌*◌, ◌/◌, ◌%◌, ◌^◌, List, [], ◌∷◌, map, Option, none, Outcome, ok, panic, ◌==◌,
  if◌then◌else◌,
}
use flow_observability.Base.Order.{Ord, nat_ord, pair_ord}
use flow_observability.Model.{FlowKey, FlowBucket, ingress, tcp, v4}
use flow_observability.Model.KeyOrder.{flow_key_ord}
use flow_observability.Packet.{PacketMeta}
use flow_observability.SortedMap.{upsert, keys_below, split_off}

abbrev pub u64_mod : ℕ
u64_mod = 2 ^ 64

abbrev pub BucketKey : Type 0
BucketKey = ℕ × FlowKey

-- Packets and bytes.
abbrev pub Counters : Type 0
Counters = ℕ × ℕ

abbrev pub bucket_order : Ord BucketKey
bucket_order = pair_ord nat_ord flow_key_ord

pub record Aggregator : Type 0 where
  pub bucket_seconds : ℕ
  pub flows : List (BucketKey × Counters)

-- `assert!(bucket_seconds > 0)` fails as a panic; there is no error value.
unfoldable pub new : ℕ → Outcome ⊥ Aggregator
new bucket_seconds =
    if bucket_seconds == 0
    then panic
    else ok (record { bucket_seconds = bucket_seconds; flows = [] })

-- `counters.0 += 1; counters.1 += packet.wire_bytes`
unfoldable pub count_packet : ℕ → Counters → Counters
count_packet wire_bytes c = ((c.0 + 1) % u64_mod, (c.1 + wire_bytes) % u64_mod)

unfoldable pub bucket_of : ℕ → ℕ → ℕ
bucket_of bucket_seconds timestamp = timestamp / bucket_seconds * bucket_seconds

unfoldable pub push : Aggregator → PacketMeta → Aggregator
unfolding count_packet bucket_of
push a packet = record a {
  flows =
      upsert bucket_order (bucket_of a.bucket_seconds packet.timestamp, packet.key) (0, 0)
        (count_packet packet.wire_bytes) a.flows;
}

abbrev pub to_bucket : BucketKey × Counters → FlowBucket
to_bucket e = record { bucket_start = e.0.0; key = e.0.1; packets = e.1.0; bytes = e.1.1 }

unfoldable pub to_buckets : List (BucketKey × Counters) → List FlowBucket
to_buckets flows = map to_bucket flows

unfoldable pub minimum_flow_key : FlowKey
minimum_flow_key = record {
  capture_point = [];
  direction = ingress;
  protocol = tcp;
  source_ip = v4 0 0 0 0;
  destination_ip = v4 0 0 0 0;
  source_port = none;
  destination_port = none;
}

-- Each method returns the aggregator that it leaves, and its result.
unfoldable pub drain_before : Aggregator → ℕ → Aggregator × List FlowBucket
unfolding minimum_flow_key to_buckets
drain_before a bucket_start =
    let key : BucketKey = (bucket_start, minimum_flow_key) in
    (
      record a { flows = split_off bucket_order key a.flows },
      to_buckets (keys_below bucket_order key a.flows),
    )

unfoldable pub drain_all : Aggregator → Aggregator × List FlowBucket
unfolding to_buckets
drain_all a = (record a { flows = [] }, to_buckets a.flows)
