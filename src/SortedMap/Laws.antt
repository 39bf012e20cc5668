-- ===== src/SortedMap/Laws.antt =====
-- The laws of the ordered map.
use Prim.Native.Nat.Ordering.{lt, eq}
use mathlib.Core.Option
use flow_observability.Base.{
  List, [], ◌∷◌, ◌++◌, none, some, ◌≡◌, refl, subst, ◌≢◌, All, All-imp, arith,
}
use flow_observability.Base.Order.{Ord}
use flow_observability.SortedMap.{lookup, upsert, keys_below, split_off, Above, IsSorted}

module _ {K V : Type 0} (o : Ord K) where
  lookup-Above : (k : K) (m : List (K × V)) → Above o k m → lookup o k m ≡ none
  unfolding lookup
  lookup-Above k [] h = refl
  lookup-Above k ((j, v) ∷ m) h = ground (arith, o.cmp_reverse k j, lookup-Above k m h.1)

  Above-trans : (j k : K) (m : List (K × V)) → o.cmp j k ≡ lt → Above o k m → Above o j m
  Above-trans j k m p h = All-imp (λ e q. o.cmp_trans j k e.0 p q) m h

  Above-upsert :
      (j k : K) (d : V) (f : V → V) (m : List (K × V))
      → o.cmp j k ≡ lt
      → Above o j m
      → Above o j (upsert o k d f m)
  unfolding upsert
  Above-upsert j k d f [] p h = (p, tt)
  Above-upsert j k d f ((i, v) ∷ m) p h = ground (arith, Above-upsert j k d f m)

  pub upsert-IsSorted :
      (k : K) (d : V) (f : V → V) (m : List (K × V)) → IsSorted o m → IsSorted o (upsert o k d f m)
  unfolding upsert
  upsert-IsSorted k d f [] h = (tt, tt)
  upsert-IsSorted k d f ((i, v) ∷ m) h =
      ground (
        arith,
        upsert-IsSorted k d f m,
        Above-upsert i k d f m,
        o.cmp_reverse k i,
        Above-trans k i m,
      )

  -- A write is read back at its key, and leaves the other keys as they were.
  pub lookup-upsert :
      (p k : K) (d : V) (f : V → V) (m : List (K × V))
      → IsSorted o m
      → lookup o p (upsert o k d f m)
        ≡ elim (o.cmp k p) [ eq ↦ some (f (Option.get_or (lookup o k m) d)) | _ ↦ lookup o p m ]
  unfolding upsert lookup
  lookup-upsert p k d f [] h = refl
  lookup-upsert p k d f ((i, v) ∷ m) h = ground (
    arith,
    lookup-upsert p k d f m,
    o.path_of_eq k i,
    o.path_of_eq i k,
    o.path_of_eq k p,
    o.cmp_reverse k i,
    o.cmp_reverse k i,
    o.cmp_self k,
    lookup-Above k m,
    Above-trans k i m,
  )

  keys_below-Above :
      (k j : K) (m : List (K × V)) → o.cmp j k ≢ lt → Above o j m → keys_below o k m ≡ []
  unfolding keys_below
  keys_below-Above k j [] n h = refl
  keys_below-Above k j ((i, v) ∷ m) n h =
      ground (arith, keys_below-Above k j m n h.1, o.cmp_trans j i k h.0)

  split_off-Above :
      (k j : K) (m : List (K × V)) → o.cmp j k ≢ lt → Above o j m → split_off o k m ≡ m
  unfolding split_off
  split_off-Above k j [] n h = refl
  split_off-Above k j ((i, v) ∷ m) n h =
      ground (arith, split_off-Above k j m n h.1, o.cmp_trans j i k h.0)

  -- A sorted map is the part below the key followed by the part that is split off.
  pub keys_below-append-split_off :
      (k : K) (m : List (K × V)) → IsSorted o m → keys_below o k m ++ split_off o k m ≡ m
  unfolding keys_below split_off
  keys_below-append-split_off k [] h = refl
  keys_below-append-split_off k ((i, v) ∷ m) h =
      ground
        (arith, keys_below-append-split_off k m h.1, keys_below-Above k i m, split_off-Above k i m)

  pub All-split_off :
      (P : K × V → Type 0) (k : K) (m : List (K × V)) → All P m → All P (split_off o k m)
  unfolding split_off
  All-split_off P k [] h = tt
  All-split_off P k ((i, v) ∷ m) h = ground (arith, All-split_off P k m)

  pub split_off-IsSorted : (k : K) (m : List (K × V)) → IsSorted o m → IsSorted o (split_off o k m)
  unfolding split_off
  split_off-IsSorted k [] h = tt
  split_off-IsSorted k ((i, v) ∷ m) h =
      ground (arith, split_off-IsSorted k m, All-split_off (λ e. o.cmp i e.0 ≡ lt) k m)

  pub keys_below-lt : (k : K) (m : List (K × V)) → All (λ e. o.cmp e.0 k ≡ lt) (keys_below o k m)
  unfolding keys_below
  keys_below-lt k [] = tt
  keys_below-lt k ((i, v) ∷ m) = ground (arith, keys_below-lt k m)

  pub split_off-ne-lt : (k : K) (m : List (K × V)) → All (λ e. o.cmp e.0 k ≢ lt) (split_off o k m)
  unfolding split_off
  split_off-ne-lt k [] = tt
  split_off-ne-lt k ((i, v) ∷ m) = ground (arith, split_off-ne-lt k m)

  pub All-upsert :
      (P : K × V → Type 0) (k : K) (d : V) (f : V → V) (m : List (K × V))
      → P (k, f d)
      → ((j : K) (v : V) → P (j, v) → P (j, f v))
      → All P m
      → All P (upsert o k d f m)
  unfolding upsert
  All-upsert P k d f [] p step h = (p, tt)
  All-upsert P k d f ((i, v) ∷ m) p step h =
      ground (arith, All-upsert P k d f m p step h.1, step i v h.0)

  pub All-lookup :
      (P : V → Type 0) (k : K) (m : List (K × V)) {v : V}
      → All (λ e. P e.1) m
      → lookup o k m ≡ some v
      → P v
  unfolding lookup
  All-lookup P k [] h e = cc
  All-lookup P k ((i, w) ∷ m) {v = v} h e =
      ground (arith, All-lookup P k m {v = v} h.1, λ (q : w ≡ v). subst P q h.0)
