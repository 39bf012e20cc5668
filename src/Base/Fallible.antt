-- ===== src/Base/Fallible.antt =====
-- What a fallible piece of Rust gives: `Ok`, `Err`, or a panic (an index out of range, a failed
-- assertion).
use mathlib.Core.Path.{◌≡◌, refl}
use mathlib.Core.Logic.{◌⊎◌, inl, inr}

pub data Outcome {ℓ} (E : Type 0) (A : Type ℓ) : Type ℓ where
  panic : Outcome E A
  err : E → Outcome E A
  ok : A → Outcome E A

infixl 5 ◌>>=◌ ◌>>◌
-- The operator `?` between two statements.
abbrev pub ◌>>=◌ {ℓ κ} :
    {E : Type 0} {A : Type ℓ} {B : Type κ} → Outcome E A → (A → Outcome E B) → Outcome E B
panic >>= continue = panic
err failure >>= continue = err failure
ok value >>= continue = continue value

abbrev pub ◌>>◌ {ℓ} : {E : Type 0} {B : Type ℓ} → Outcome E (Unit {0}) → Outcome E B → Outcome E B
first >> second = first >>= λ _. second

-- Inversion of a successful bind, for proofs where the parts stay shut.
pub >>=-eq-ok {ℓ κ} :
    {E : Type 0} {A : Type ℓ} {B : Type κ} {result : B} (m : Outcome E A)
    (continue : A → Outcome E B)
    → (m >>= continue) ≡ ok result
    → (value : A) × (m ≡ ok value) × (continue value ≡ ok result)
>>=-eq-ok panic continue p = cc
>>=-eq-ok (err failure) continue p = cc
>>=-eq-ok (ok value) continue p = (value, refl, p)

pub Outcome-cases {ℓ} :
    {E : Type 0} {A : Type ℓ} (m : Outcome E A)
    → ((a : A) × (m ≡ ok a)) ⊎ ((e : E) × (m ≡ err e)) ⊎ (m ≡ panic)
Outcome-cases (ok a) = inl (a, refl)
Outcome-cases (err e) = inr (inl (e, refl))
Outcome-cases panic = inr (inr refl)
