-- ===== src/Aggregate/Tally.antt =====
-- The aggregator against the history of its packets: what each bucket holds is a count over them.
use Prim.Native.Nat.Ordering.{eq}
use mathlib.Core.Option
use flow_observability.Base.{
  ℕ, zero, suc, ◌+◌, ◌*◌, ◌/◌, ◌%◌, ◌≤◌, ◌<◌, ◌≡◌, refl, sym, ap, ap₂, ◌∙◌, Bool, true, false, ◌&&◌,
  List, [], ◌∷◌, Option, none, some, arith, All, ltb, leb, ◌==◌, if◌then◌else◌, Bool-cases, inl,
  inr,
}
use native.Mathlib.Nat.{add_comm}
use native.Mathlib.Numerals.{add-one}
use flow_observability.Base.Order.{Ord}
use flow_observability.Model.{FlowKey}
use flow_observability.Model.KeyOrder.{flow_key_ord}
use flow_observability.Packet.{PacketMeta}
use flow_observability.SortedMap.{lookup, IsSorted}
use flow_observability.SortedMap.Laws.{upsert-IsSorted, lookup-upsert, All-upsert, All-lookup}
use flow_observability.Aggregate.{
  Aggregator, BucketKey, Counters, bucket_order, u64_mod, push, count_packet, bucket_of,
}

pub record IsValid (a : Aggregator) : Type 0 where
  pub positive : 0 < a.bucket_seconds
  pub sorted : IsSorted bucket_order a.flows
  pub bounded : All (λ e. (e.1.0 < u64_mod) × (e.1.1 < u64_mod)) a.flows
  pub aligned : All (λ e. e.0.0 % a.bucket_seconds ≡ 0) a.flows

bucket_of_aligned : (s t : ℕ) → bucket_of s t % s ≡ 0
unfolding bucket_of
bucket_of_aligned s t = grind arith

pub push-IsValid : (a : Aggregator) (p : PacketMeta) → IsValid a → IsValid (push a p)
unfolding push
push-IsValid a p h = record {
  positive = h.positive;
  sorted = upsert-IsSorted bucket_order _ _ _ a.flows h.sorted;
  bounded =
      All-upsert bucket_order (λ e. (e.1.0 < u64_mod) × (e.1.1 < u64_mod)) _ _ _ a.flows
        (omega arith) (λ j v _. omega arith) h.bounded;
  aligned =
      All-upsert bucket_order (λ e. e.0.0 % a.bucket_seconds ≡ 0) _ _ _ a.flows
        (bucket_of_aligned a.bucket_seconds p.timestamp) (λ j v e. e) h.aligned;
}

-- The packets that belong to a bucket: of its flow, and of the half-open interval of its time.
abbrev pub same_key : FlowKey → FlowKey → Bool
same_key x y = elim (Ord.cmp flow_key_ord x y) [ eq ↦ true | _ ↦ false ]

abbrev pub belongs : ℕ → BucketKey → PacketMeta → Bool
belongs s q p = leb q.0 p.timestamp && ltb p.timestamp (q.0 + s) && same_key p.key q.1

abbrev pub packet_count : ℕ → BucketKey → List PacketMeta → ℕ
packet_count s q [] = 0
packet_count s q (p ∷ ps) = (if belongs s q p then 1 else 0) + packet_count s q ps

abbrev pub byte_count : ℕ → BucketKey → List PacketMeta → ℕ
byte_count s q [] = 0
byte_count s q (p ∷ ps) = (if belongs s q p then p.wire_bytes else 0) + byte_count s q ps

interval : (s i t : ℕ) → 0 < s → t / s * s ≡ i * s → (i * s ≤ t) × (t < i * s + s)
interval s i t h e = omega arith

interval_back : (s i t : ℕ) → 0 < s → i * s ≤ t → t < i * s + s → t / s * s ≡ i * s
interval_back s i t h lo hi = grind arith

module _ (s i t : ℕ) (positive : 0 < s) where
  bucket_test : (bucket_of s t == i * s) ≡ (leb (i * s) t && ltb t (i * s + s))
  unfolding bucket_of
  bucket_test = ground (arith, interval s i t positive, interval_back s i t positive)

-- What counters become when `n` packets of `b` bytes in all are added.
abbrev pub add_tally : Option Counters → ℕ → ℕ → Option Counters
add_tally none zero b = none
add_tally none (suc n) b = some (suc n % u64_mod, b % u64_mod)
add_tally (some c) n b = some ((c.0 + n) % u64_mod, (c.1 + b) % u64_mod)

abbrev pub push_all : Aggregator → List PacketMeta → Aggregator
push_all a [] = a
push_all a (p ∷ ps) = push_all (push a p) ps

abbrev pub held : Aggregator → BucketKey → Option Counters
held a q = lookup bucket_order q a.flows

-- One packet counts in its own bucket and in no other.
held-push :
    (a : Aggregator) (p : PacketMeta) (i : ℕ) (k : FlowKey)
    → IsValid a
    → held (push a p) (i * a.bucket_seconds, k) ≡ (
        if belongs a.bucket_seconds (i * a.bucket_seconds, k) p
        then some
            (count_packet p.wire_bytes (Option.get_or (held a (i * a.bucket_seconds, k)) (0, 0)))
        else held a (i * a.bucket_seconds, k))
unfolding push
held-push a p i k h =
    rw
      (lookup-upsert bucket_order (i * a.bucket_seconds, k)
        (bucket_of a.bucket_seconds p.timestamp, p.key) (0, 0) (count_packet p.wire_bytes) a.flows
        h.sorted)
      (ground (
        arith,
        bucket_test a.bucket_seconds i p.timestamp h.positive,
        flow_key_ord.path_of_eq p.key k,
      ))

add_tally-add :
    (o : Option Counters) (w n b : ℕ)
    → add_tally (some (count_packet w (Option.get_or o (0, 0)))) n b ≡ add_tally o (1 + n) (w + b)
unfolding count_packet
add_tally-add none w n b = simp (add_comm 1 n, add-one) (ap some (ground arith))
add_tally-add (some c) w n b = ap some (ground arith)

add_tally-bounded :
    (o : Option Counters)
    → ((c : Counters) → o ≡ some c → (c.0 < u64_mod) × (c.1 < u64_mod))
    → add_tally o 0 0 ≡ o
add_tally-bounded none h = refl
add_tally-bounded (some c) h = let (x, y) = h c refl in ap some (ground arith)

add_tally-skip : (o : Option Counters) (n b : ℕ) → add_tally o (0 + n) (0 + b) ≡ add_tally o n b
add_tally-skip o n b = ap₂ (add_tally o) (omega arith) (omega arith)

-- After any packets, the counters of a bucket are those before with the packets and bytes of the
-- history that fall in its interval and belong to its flow added, wrapped to 64 bits; a bucket that
-- was absent appears with its first packet.
pub held-push_all :
    (ps : List PacketMeta) (a : Aggregator) (i : ℕ) (k : FlowKey)
    → IsValid a
    → held (push_all a ps) (i * a.bucket_seconds, k)
      ≡ add_tally
          (held a (i * a.bucket_seconds, k))
          (packet_count a.bucket_seconds (i * a.bucket_seconds, k) ps)
          (byte_count a.bucket_seconds (i * a.bucket_seconds, k) ps)
unfolding push
held-push_all [] a i k h = sym (
    add_tally-bounded (held a (i * a.bucket_seconds, k))
      λ c e. All-lookup bucket_order (λ v. (v.0 < u64_mod) × (v.1 < u64_mod)) _ a.flows h.bounded e)
held-push_all (p ∷ ps) a i k h =
    held-push_all ps (push a p) i k (push-IsValid a p h)
    ∙ rw (held-push a p i k h)
        (elim (Bool-cases (belongs a.bucket_seconds (i * a.bucket_seconds, k) p)) [
          | inl e ↦ rw e (add_tally-add (held a (i * a.bucket_seconds, k)) p.wire_bytes _ _)
          | inr e ↦ rw e (sym (add_tally-skip (held a (i * a.bucket_seconds, k)) _ _))
        ])
