-- ===== src/Sqlite/Total.antt =====
-- Pieces of a transaction over src/sqlite.rs that never panic, from pieces that do not.
use flow_observability.Base.{
  ◌≢◌, Outcome, panic, arith, Bool, true, false, if◌then◌else◌, Outcome-cases, inl, inr,
}
use flow_observability.Sqlite.{Error}
use flow_observability.Sqlite.Step.{map_err, Step, Engine, ◌>>=◌, lift, query, execute, transaction}

abbrev pub NoPanic : {E T A : Type 0} → Step E T A → Type 0
NoPanic {T = T} m = (t : T) → m t ≢ panic

pub NoPanic-bind :
    {E T A B : Type 0} (m : Step E T A) (f : A → Step E T B)
    → NoPanic m
    → ((a : A) → NoPanic (f a))
    → NoPanic (m >>= f)
NoPanic-bind m f h k t z = elim (Outcome-cases (m t)) [
  | inl ((a, t'), e) ↦ ground (arith, k a t')
  | inr (inl (x, e)) ↦ ground arith
  | inr (inr e) ↦ h t e
]

pub NoPanic-lift : {E T A : Type 0} (r : Outcome E A) → r ≢ panic → NoPanic (lift {E = E} {T = T} r)
NoPanic-lift r h t = ground arith

module _ {Statement T : Type 0} (engine : Engine Statement T) where
  pub NoPanic-query :
      {A : Type 0} (statement : Statement) (read : T → Outcome Error A)
      → ((t : T) → read t ≢ panic)
      → NoPanic (query engine statement read)
  unfolding query
  NoPanic-query statement read h t = ground (arith, h t)

  pub NoPanic-execute :
      (statement : Statement) (write : T → Outcome Error T)
      → ((t : T) → write t ≢ panic)
      → NoPanic (execute engine statement write)
  unfolding execute
  NoPanic-execute statement write h t = ground (arith, h t)

  pub NoPanic-transaction :
      {E A : Type 0} (from : Error → E) (begin commit : Statement) (body : Step E T A)
      → NoPanic body
      → (t : T) → (transaction engine from begin commit body t).0 ≢ panic
  unfolding transaction
  NoPanic-transaction from begin commit body h t = ground (arith, h t)

pub NoPanic-map_err :
    {E F T A : Type 0} (f : E → F) (m : Step E T A) → NoPanic m → NoPanic (map_err f m)
NoPanic-map_err f m h t = ground (arith, h t)

pub NoPanic-if :
    {E T A : Type 0} (b : Bool) (m n : Step E T A)
    → NoPanic m
    → NoPanic n
    → NoPanic (if b then m else n)
NoPanic-if true m n h k = h
NoPanic-if false m n h k = k
