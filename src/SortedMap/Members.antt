-- ===== src/SortedMap/Members.antt =====
-- The entries of an ordered map behind an `upsert`.
use Prim.Native.Nat.Ordering.{lt, eq, gt}
use flow_observability.Base.{◌≡◌, refl, sym, subst, List, [], ◌∷◌, All, All-imp, ◌⊎◌, inl, inr}
use flow_observability.Base.Order.{Ord}
use flow_observability.SortedMap.{upsert}

-- Some element has the property.
abbrev pub Any : {A : Type 0} → (A → Type 0) → List A → Type 0
Any P [] = ⊥
Any P (x ∷ xs) = P x ⊎ Any P xs

pub Any-imp :
    {A : Type 0} (P Q : A → Type 0) (xs : List A) → ((x : A) → P x → Q x) → Any P xs → Any Q xs
Any-imp P Q [] h p = absurd p
Any-imp P Q (x ∷ xs) h (inl p) = inl (h x p)
Any-imp P Q (x ∷ xs) h (inr q) = inr (Any-imp P Q xs h q)

module _ {K V : Type 0} (o : Ord K) where
  -- A property that the written entry keeps, kept by an `upsert` of its key.
  pub All-upsert_at :
      (P Q : K × V → Type 0) (k : K) (d : V) (f : V → V) (m : List (K × V))
      → Q (k, f d)
      → ((v : V) → P (k, v) → Q (k, f v))
      → ((e : K × V) → P e → Q e)
      → All P m
      → All Q (upsert o k d f m)
  unfolding upsert
  All-upsert_at P Q k d f [] q step keep h = (q, tt)
  All-upsert_at P Q k d f ((j, v) ∷ m) q step keep h =
      elim (o.cmp k j)
          as (λ c.
            o.cmp k j ≡ c
            → All Q (elim c [
              | lt ↦ (k, f d) ∷ (j, v) ∷ m
              | eq ↦ (j, f v) ∷ m
              | gt ↦ (j, v) ∷ upsert o k d f m
            ])) [
              | lt ↦ λ e. (q, (keep (j, v) h.0, All-imp (λ x p. keep x p) m h.1))
              | eq ↦ λ e. (
                subst (λ x. Q (x, f v)) (o.path_of_eq k j e)
                    (step v (subst (λ x. P (x, v)) (sym (o.path_of_eq k j e)) h.0)),
                All-imp (λ x p. keep x p) m h.1,
              )
              | gt ↦ λ e. (keep (j, v) h.0, All-upsert_at P Q k d f m q step keep h.1)
            ]
        refl

  -- The written entry is there, and the others still are.
  pub Any-upsert :
      (P Q : K × V → Type 0) (k : K) (d : V) (f : V → V) (m : List (K × V))
      → ((e : K × V) → P e → Q e)
      → ((j : K) (v : V) → P (j, v) → Q (j, f v))
      → Any P m
      → Any Q (upsert o k d f m)
  unfolding upsert
  Any-upsert P Q k d f [] keep step h = absurd h
  Any-upsert P Q k d f ((j, v) ∷ m) keep step h =
      elim (o.cmp k j)
        as (λ c. Any Q (elim c [
          | lt ↦ (k, f d) ∷ (j, v) ∷ m
          | eq ↦ (j, f v) ∷ m
          | gt ↦ (j, v) ∷ upsert o k d f m
        ])) [
          | lt ↦ inr (Any-imp P Q ((j, v) ∷ m) keep h)
          | eq ↦ elim h [ inl p ↦ inl (step j v p) | inr q ↦ inr (Any-imp P Q m keep q) ]
          | gt ↦ elim h [
            | inl p ↦ inl (keep (j, v) p)
            | inr q ↦ inr (Any-upsert P Q k d f m keep step q)
          ]
        ]

  pub Any-upsert_new :
      (Q : K × V → Type 0) (k : K) (d : V) (f : V → V) (m : List (K × V))
      → Q (k, f d)
      → ((v : V) → Q (k, f v))
      → Any Q (upsert o k d f m)
  unfolding upsert
  Any-upsert_new Q k d f [] q step = inl q
  Any-upsert_new Q k d f ((j, v) ∷ m) q step =
      elim (o.cmp k j)
          as (λ c.
            o.cmp k j ≡ c
            → Any Q (elim c [
              | lt ↦ (k, f d) ∷ (j, v) ∷ m
              | eq ↦ (j, f v) ∷ m
              | gt ↦ (j, v) ∷ upsert o k d f m
            ])) [
              | lt ↦ λ e. inl q
              | eq ↦ λ e. inl (subst (λ x. Q (x, f v)) (o.path_of_eq k j e) (step v))
              | gt ↦ λ e. inr (Any-upsert_new Q k d f m q step)
            ]
        refl
