-- ===== src/Aggregate/Stream.antt =====
-- A whole capture: packets pushed and buckets drained in any order. Nothing is counted twice, and
-- nothing is lost.
use flow_observability.Base.{ℕ, ◌+◌, ◌<◌, ◌≡◌, ap, ◌∙◌, List, [], ◌∷◌, ◌++◌, arith}
use flow_observability.Model.{FlowBucket}
use flow_observability.Packet.{PacketMeta}
use flow_observability.SortedMap.{upsert}
use flow_observability.Aggregate.{
  Aggregator, BucketKey, Counters, bucket_order, u64_mod, push, count_packet, to_buckets,
  drain_before,
}
use flow_observability.Aggregate.Tally.{IsValid, push-IsValid}
use flow_observability.Aggregate.Drain.{drain_before-IsValid, drain_before_partition}

pub data Call : Type 0 where
  push_packet : PacketMeta → Call
  drain_until : ℕ → Call

-- The aggregator at the end, and all the buckets handed over on the way.
unfoldable pub run : List Call → Aggregator → Aggregator × List FlowBucket
run [] a = (a, [])
run (push_packet p ∷ calls) a = run calls (push a p)
run (drain_until start ∷ calls) a =
    let (a', drained) = drain_before a start in
    let (last, more) = run calls a' in (last, drained ++ more)

-- One of the two counters, in a map, in a bucket, and what a packet adds to it.
pub data Counter : Type 0 where
  packets bytes : Counter

abbrev pub counter : Counter → Counters → ℕ
counter packets c = c.0
counter bytes c = c.1

abbrev pub counter_of : Counter → FlowBucket → ℕ
counter_of packets b = b.packets
counter_of bytes b = b.bytes

abbrev pub added : Counter → PacketMeta → ℕ
added packets p = 1
added bytes p = p.wire_bytes

module _ (which : Counter) where
  abbrev pub total : List FlowBucket → ℕ
  total [] = 0
  total (b ∷ bs) = counter_of which b + total bs

  abbrev pub pushed : List Call → ℕ
  pushed [] = 0
  pushed (push_packet p ∷ calls) = added which p + pushed calls
  pushed (drain_until start ∷ calls) = pushed calls

  pub total-append : (xs ys : List FlowBucket) → total (xs ++ ys) ≡ total xs + total ys
  total-append [] ys = omega arith
  total-append (x ∷ xs) ys = omega (arith, total-append xs ys)

count_packet-counter :
    (which : Counter) (p : PacketMeta) (c : Counters)
    → counter which c + added which p < u64_mod
    → counter which (count_packet p.wire_bytes c) ≡ counter which c + added which p
unfolding count_packet
count_packet-counter packets p c h = ground arith
count_packet-counter bytes p c h = ground arith

total-upsert :
    (which : Counter) (p : PacketMeta) (k : BucketKey) (flows : List (BucketKey × Counters))
    → total which (to_buckets flows) + added which p < u64_mod
    → total which (to_buckets (upsert bucket_order k (0, 0) (count_packet p.wire_bytes) flows))
      ≡ total which (to_buckets flows) + added which p
unfolding upsert to_buckets
total-upsert packets p k [] h = ground (arith, count_packet-counter packets p (0, 0))
total-upsert bytes p k [] h = ground (arith, count_packet-counter bytes p (0, 0))
total-upsert packets p k ((j, c) ∷ flows) h = ground (
  arith,
  count_packet-counter packets p c,
  count_packet-counter packets p (0, 0),
  total-upsert packets p k flows,
)
total-upsert bytes p k ((j, c) ∷ flows) h = ground (
  arith,
  count_packet-counter bytes p c,
  count_packet-counter bytes p (0, 0),
  total-upsert bytes p k flows,
)

module _ (which : Counter) where
  pub total-push :
      (a : Aggregator) (p : PacketMeta)
      → total which (to_buckets a.flows) + added which p < u64_mod
      → total which (to_buckets (push a p).flows) ≡ total which (to_buckets a.flows) + added which p
  unfolding push
  total-push a p h = total-upsert which p _ a.flows h

  -- Over any run of pushes and drains, what was handed over and what is still held add up to what
  -- was held at the start and what was pushed, as long as that sum fits 64 bits.
  pub run_conserves :
      (calls : List Call) (a : Aggregator)
      → IsValid a
      → total which (to_buckets a.flows) + pushed which calls < u64_mod
      → total which (run calls a).1 + total which (to_buckets (run calls a).0.flows)
        ≡ total which (to_buckets a.flows) + pushed which calls
  unfolding run
  run_conserves [] a v h = omega arith
  run_conserves (push_packet p ∷ calls) a v h =
      omega (arith, total-push a p, run_conserves calls (push a p) (push-IsValid a p v))
  run_conserves (drain_until start ∷ calls) a v h = omega (
    arith,
    run_conserves calls (drain_before a start).0 (drain_before-IsValid a start v),
    split,
    total-append which (drain_before a start).1 (run calls (drain_before a start).0).1,
  )
    where
      split :
          total which (to_buckets a.flows)
          ≡ total which (drain_before a start).1
            + total which (to_buckets (drain_before a start).0.flows)
      split = ap (total which) (drain_before_partition a start v.sorted).0 ∙ total-append which _ _
