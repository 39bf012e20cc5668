-- ===== src/Tests/Buckets.antt =====
-- Tests of src/aggregate.rs, and the aggregator on which its theorems are applied.
use flow_observability.Base.{
  ℕ, ◌+◌, ◌*◌, ◌≤◌, ◌<◌, ◌≡◌, refl, List, [], ◌∷◌, ◌++◌, some, arith, All,
}
use flow_observability.Model.{bytes_of, egress, tcp, v4, FlowKey, FlowBucket}
use flow_observability.Model.KeyOrder.{flow_key_ord}
use flow_observability.Packet.{PacketMeta}
use flow_observability.SortedMap.{upsert, keys_below, split_off}
use flow_observability.Aggregate.{Aggregator, push, to_buckets, drain_before, drain_all}
use flow_observability.Aggregate.Tally.{
  IsValid, push-IsValid, push_all, held, add_tally, packet_count, byte_count, held-push_all,
}
use flow_observability.Aggregate.Drain.{drain_before_partition}
use flow_observability.Aggregate.Stream.{
  Call, push_packet, drain_until, run, bytes, total, pushed, run_conserves,
}

abbrev https : FlowKey
https = record {
  capture_point = bytes_of "physical:eth0";
  direction = egress;
  protocol = tcp;
  source_ip = v4 10 0 0 1;
  destination_ip = v4 1 1 1 1;
  source_port = some 12345;
  destination_port = some 443;
}

abbrev packet : ℕ → ℕ → PacketMeta
packet timestamp wire_bytes = record { timestamp = timestamp; wire_bytes = wire_bytes; key = https }

abbrev empty : Aggregator
empty = record { bucket_seconds = 10; flows = [] }

abbrev three : List PacketMeta
three = packet 11 100 ∷ packet 19 60 ∷ packet 20 40 ∷ []

-- `aggregates_by_ten_second_bucket`
aggregates_by_ten_second_bucket :
    ((drain_before (push_all empty three) 20).1
      ≡ record { bucket_start = 10; key = https; packets = 2; bytes = 160 } ∷ [])
    × ((drain_all (drain_before (push_all empty three) 20).0).1
        ≡ record { bucket_start = 20; key = https; packets = 1; bytes = 40 } ∷ [])
unfolding push upsert drain_before drain_all keys_below split_off flow_key_ord
aggregates_by_ten_second_bucket = (refl, refl)

empty-IsValid : IsValid empty
empty-IsValid = record { positive = omega arith; sorted = tt; bounded = tt; aligned = tt }

held-push_all_example :
    held (push_all empty three) (1 * 10, https)
    ≡ add_tally
        (held empty (1 * 10, https))
        (packet_count 10 (1 * 10, https) three)
        (byte_count 10 (1 * 10, https) three)
held-push_all_example = held-push_all three empty 1 https empty-IsValid

one_held : IsValid (push empty (packet 11 100))
one_held = push-IsValid empty (packet 11 100) empty-IsValid

abbrev one : Aggregator
one = push empty (packet 11 100)

drain_before_partition_example :
    (to_buckets one.flows ≡ (drain_before one 20).1 ++ to_buckets (drain_before one 20).0.flows)
    × All (λ (b : FlowBucket). b.bucket_start < 20) (drain_before one 20).1
    × All (λ (b : FlowBucket). 20 ≤ b.bucket_start) (to_buckets (drain_before one 20).0.flows)
drain_before_partition_example = drain_before_partition one 20 one_held.sorted

abbrev calls : List Call
calls = push_packet (packet 11 100) ∷ drain_until 20 ∷ push_packet (packet 21 60) ∷ []

run_conserves_example :
    total bytes (run calls empty).1 + total bytes (to_buckets (run calls empty).0.flows)
    ≡ total bytes (to_buckets empty.flows) + pushed bytes calls
run_conserves_example =
    run_conserves bytes calls empty empty-IsValid (unfold to_buckets in omega arith)
