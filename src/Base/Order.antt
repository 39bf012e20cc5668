-- ===== src/Base/Order.antt =====
-- Rust's `Ord`: a three-way comparison, and the lexicographic comparisons that `derive(Ord)` makes
-- of the comparisons of the fields.
use Prim.Native.Nat.{ℕ, compare, Ordering}
use Prim.Native.Nat.Ordering.{lt, eq, gt}
use mathlib.Core.Path.{◌≡◌, refl}
use mathlib.Core.List.{List, [], ◌∷◌}
use native.Mathlib.Omega.{arith}

-- `Ordering::reverse` and `Ordering::then`
abbrev pub reverse : Ordering → Ordering
reverse ordering = elim ordering [ lt ↦ gt | eq ↦ eq | gt ↦ lt ]

abbrev pub then_with : Ordering → Ordering → Ordering
then_with first second = elim first [ lt ↦ lt | eq ↦ second | gt ↦ gt ]

-- A comparison that is a total order, in which `Equal` means equality.
pub record Ord {ℓ} (K : Type ℓ) : Type ℓ where
  pub cmp : K → K → Ordering
  pub cmp_self : (k : K) → cmp k k ≡ eq
  pub path_of_eq : (j k : K) → cmp j k ≡ eq → j ≡ k
  pub cmp_reverse : (j k : K) → cmp k j ≡ reverse (cmp j k)
  pub cmp_trans : (i j k : K) → cmp i j ≡ lt → cmp j k ≡ lt → cmp i k ≡ lt

pub compare_self : (k : ℕ) → compare k k ≡ eq
compare_self k = ground arith

pub path_of_compare : (j k : ℕ) → compare j k ≡ eq → j ≡ k
path_of_compare j k h = ground arith

pub compare-reverse : (j k : ℕ) → compare k j ≡ reverse (compare j k)
compare-reverse j k = ground arith

pub compare_trans : (i j k : ℕ) → compare i j ≡ lt → compare j k ≡ lt → compare i k ≡ lt
compare_trans i j k g h = ground arith

abbrev pub nat_ord : Ord ℕ
nat_ord = record {
  cmp = compare;
  cmp_self = compare_self;
  path_of_eq = path_of_compare;
  cmp_reverse = compare-reverse;
  cmp_trans = compare_trans;
}

-- The first components decide, and the second ones a tie.
module _ {ℓ κ} {A : Type ℓ} {B : Type κ} (a : Ord A) (b : Ord B) where
  abbrev pub cmp_pair : A × B → A × B → Ordering
  cmp_pair p q = then_with (a.cmp p.0 q.0) (b.cmp p.1 q.1)

  pub cmp_pair_self : (p : A × B) → cmp_pair p p ≡ eq
  cmp_pair_self p = simp (a.cmp_self, b.cmp_self)

  pub path_of_cmp_pair : (p q : A × B) → cmp_pair p q ≡ eq → p ≡ q
  path_of_cmp_pair p q h = ground (arith, a.path_of_eq p.0 q.0, b.path_of_eq p.1 q.1)

  pub cmp_pair-reverse : (p q : A × B) → cmp_pair q p ≡ reverse (cmp_pair p q)
  cmp_pair-reverse p q = ground (arith, a.cmp_reverse p.0 q.0, b.cmp_reverse p.1 q.1)

  pub cmp_pair_trans : (p q r : A × B) → cmp_pair p q ≡ lt → cmp_pair q r ≡ lt → cmp_pair p r ≡ lt
  cmp_pair_trans p q r g h = grind (
    arith,
    a.path_of_eq p.0 q.0,
    a.path_of_eq q.0 r.0,
    a.cmp_trans p.0 q.0 r.0,
    b.cmp_trans p.1 q.1 r.1,
  )

  abbrev pub pair_ord : Ord (A × B)
  pair_ord = record {
    cmp = cmp_pair;
    cmp_self = cmp_pair_self;
    path_of_eq = path_of_cmp_pair;
    cmp_reverse = cmp_pair-reverse;
    cmp_trans = cmp_pair_trans;
  }

-- Lists compare element by element, a proper prefix first: the order of byte strings.
module _ {ℓ} {A : Type ℓ} (a : Ord A) where
  abbrev pub cmp_list : List A → List A → Ordering
  cmp_list [] [] = eq
  cmp_list [] (_ ∷ _) = lt
  cmp_list (_ ∷ _) [] = gt
  cmp_list (x ∷ xs) (y ∷ ys) = then_with (a.cmp x y) (cmp_list xs ys)

  pub cmp_list_self : (xs : List A) → cmp_list xs xs ≡ eq
  cmp_list_self [] = refl
  cmp_list_self (x ∷ xs) = simp (a.cmp_self, cmp_list_self xs)

  pub path_of_cmp_list : (xs ys : List A) → cmp_list xs ys ≡ eq → xs ≡ ys
  path_of_cmp_list [] [] h = refl
  path_of_cmp_list [] (y ∷ ys) h = cc
  path_of_cmp_list (x ∷ xs) [] h = cc
  path_of_cmp_list (x ∷ xs) (y ∷ ys) h = ground (arith, a.path_of_eq x y, path_of_cmp_list xs ys)

  pub cmp_list-reverse : (xs ys : List A) → cmp_list ys xs ≡ reverse (cmp_list xs ys)
  cmp_list-reverse [] [] = refl
  cmp_list-reverse [] (y ∷ ys) = refl
  cmp_list-reverse (x ∷ xs) [] = refl
  cmp_list-reverse (x ∷ xs) (y ∷ ys) = ground (arith, a.cmp_reverse x y, cmp_list-reverse xs ys)

  pub cmp_list_trans :
      (xs ys zs : List A) → cmp_list xs ys ≡ lt → cmp_list ys zs ≡ lt → cmp_list xs zs ≡ lt
  cmp_list_trans [] [] zs h k = cc
  cmp_list_trans [] (y ∷ ys) [] h k = cc
  cmp_list_trans [] (y ∷ ys) (z ∷ zs) h k = refl
  cmp_list_trans (x ∷ xs) [] zs h k = cc
  cmp_list_trans (x ∷ xs) (y ∷ ys) [] h k = cc
  cmp_list_trans (x ∷ xs) (y ∷ ys) (z ∷ zs) h k = ground (
    arith,
    a.path_of_eq x y,
    a.path_of_eq y z,
    a.cmp_trans x y z,
    a.cmp_self x,
    cmp_list_trans xs ys zs,
  )

  abbrev pub list_ord : Ord (List A)
  list_ord = record {
    cmp = cmp_list;
    cmp_self = cmp_list_self;
    path_of_eq = path_of_cmp_list;
    cmp_reverse = cmp_list-reverse;
    cmp_trans = cmp_list_trans;
  }

-- A type takes an order over from another by an injective code.
module _ {ℓ κ} {A : Type ℓ} {B : Type κ} (b : Ord B) (code : A → B)
    (injective : (x y : A) → code x ≡ code y → x ≡ y) where
  abbrev pub code_ord : Ord A
  code_ord = record {
    cmp = λ x y. b.cmp (code x) (code y);
    cmp_self = λ x. b.cmp_self (code x);
    path_of_eq = λ x y h. injective x y (b.path_of_eq (code x) (code y) h);
    cmp_reverse = λ x y. b.cmp_reverse (code x) (code y);
    cmp_trans = λ x y z. b.cmp_trans (code x) (code y) (code z);
  }
