-- ===== src/Capture/Ended.antt =====
-- The buckets that the loop of src/capture.rs takes for ended have ended.
use flow_observability.Base.{
  ℕ, ◌+◌, ◌%◌, ◌≤◌, ◌<◌, ◌≡◌, refl, sym, ap, ◌∙◌, subst, List, [], ◌∷◌, ◌++◌, arith, All, All-imp,
}
use flow_observability.Model.{FlowBucket}
use flow_observability.Aggregate.{Aggregator, to_bucket, to_buckets, drain_before}
use flow_observability.Aggregate.Tally.{IsValid}
use flow_observability.Aggregate.Drain.{drain_before_partition, All-map}
use flow_observability.Aggregate.Stream.{Counter, total, total-append}
use flow_observability.Capture.{current_bucket}

All-append_left {ℓ κ} : {A : Type ℓ} (P : A → Type κ) (xs ys : List A) → All P (xs ++ ys) → All P xs
All-append_left P [] ys h = tt
All-append_left P (x ∷ xs) ys h = (h.0, All-append_left P xs ys h.1)

both {ℓ κ μ} :
    {A : Type ℓ} (P : A → Type κ) (Q : A → Type μ) (xs : List A)
    → All P xs
    → All Q xs
    → All (λ x. P x × Q x) xs
both P Q [] h k = tt
both P Q (x ∷ xs) h k = ((h.0, k.0), both P Q xs h.1 k.1)

-- A bucket that starts before the current one has ended.
ended_before :
    (s now start : ℕ) → 0 < s → start % s ≡ 0 → start < current_bucket s now → start + s ≤ now
ended_before s now start p e h = grind arith

pub drained_ended :
    (a : Aggregator) (now : ℕ)
    → IsValid a
    → All
        (λ (b : FlowBucket). b.bucket_start + a.bucket_seconds ≤ now)
        (drain_before a (current_bucket a.bucket_seconds now)).1
unfolding to_buckets
drained_ended a now v =
    All-imp (λ b h. ended_before a.bucket_seconds now b.bucket_start v.positive h.1 h.0) _
      (both (λ (b : FlowBucket). b.bucket_start < start)
        (λ (b : FlowBucket). b.bucket_start % a.bucket_seconds ≡ 0) _ split.1
        (All-append_left _ _ _ (
          subst (All (λ (b : FlowBucket). b.bucket_start % a.bucket_seconds ≡ 0)) split.0 (
            All-map (λ (b : FlowBucket). b.bucket_start % a.bucket_seconds ≡ 0) to_bucket a.flows
              v.aligned))))
  where
    start : ℕ
    start = current_bucket a.bucket_seconds now

    split :
        (to_buckets a.flows ≡ (drain_before a start).1 ++ to_buckets (drain_before a start).0.flows)
        × All (λ (b : FlowBucket). b.bucket_start < start) (drain_before a start).1
        × All
            (λ (b : FlowBucket). start ≤ b.bucket_start)
            (to_buckets (drain_before a start).0.flows)
    split = drain_before_partition a start v.sorted

pub drain_conserves :
    (which : Counter) (a : Aggregator) (start : ℕ)
    → IsValid a
    → total which (drain_before a start).1 + total which (to_buckets (drain_before a start).0.flows)
      ≡ total which (to_buckets a.flows)
drain_conserves which a start v =
    sym (ap (total which) (drain_before_partition a start v.sorted).0 ∙ total-append which _ _)

pub drain_width :
    (a : Aggregator) (start : ℕ) → (drain_before a start).0.bucket_seconds ≡ a.bucket_seconds
unfolding drain_before
drain_width a start = refl
