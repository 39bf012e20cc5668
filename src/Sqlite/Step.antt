-- ===== src/Sqlite/Step.antt =====
-- A piece of a transaction reads and writes a working copy of the tables; a failure drops the copy.
use flow_observability.Base.{Option, none, some, Outcome, ok, err, panic}
use flow_observability.Sqlite.{Error}

abbrev pub Step : Type 0 → Type 0 → Type 0 → Type 0
Step E T A = T → Outcome E (A × T)

-- Which statement the engine fails on which tables, and how.
abbrev pub Engine : Type 0 → Type 0 → Type 0
Engine Statement T = Statement → T → Option Error

module _ {E T : Type 0} where
  infixl 5 ◌>>=◌ ◌>>◌
  abbrev pub ◌>>=◌ : {A B : Type 0} → Step E T A → (A → Step E T B) → Step E T B
  ◌>>=◌ m f t = elim (m t) [ ok (a, t') ↦ f a t' | err e ↦ err e | panic ↦ panic ]

  abbrev pub ◌>>◌ : {A B : Type 0} → Step E T A → Step E T B → Step E T B
  m >> k = m >>= λ _. k

  abbrev pub pure : {A : Type 0} → A → Step E T A
  pure a t = ok (a, t)

  -- A computation that touches no table.
  abbrev pub lift : {A : Type 0} → Outcome E A → Step E T A
  lift r t = elim r [ ok a ↦ ok (a, t) | err e ↦ err e | panic ↦ panic ]

  -- An early return with an error.
  abbrev pub fail : {A : Type 0} → E → Step E T A
  fail e t = err e

-- `map_err`, and the conversion that `?` makes.
abbrev pub map_err : {E F T A : Type 0} → (E → F) → Step E T A → Step F T A
map_err f m t = elim (m t) [ ok r ↦ ok r | err e ↦ err (f e) | panic ↦ panic ]

module _ {Statement T : Type 0} (engine : Engine Statement T) where
  -- A query reads the tables, a statement replaces them; the engine may refuse either.
  unfoldable pub query : {A : Type 0} → Statement → (T → Outcome Error A) → Step Error T A
  query statement read t = elim (engine statement t) [
    | some fault ↦ err fault
    | none ↦ elim (read t) [ ok a ↦ ok (a, t) | err e ↦ err e | panic ↦ panic ]
  ]

  unfoldable pub execute : Statement → (T → Outcome Error T) → Step Error T (Unit {0})
  execute statement write t = elim (engine statement t) [
    | some fault ↦ err fault
    | none ↦ elim (write t) [ ok t' ↦ ok (tt, t') | err e ↦ err e | panic ↦ panic ]
  ]

  -- `connection.transaction()?`, the body, and `commit()?` where the body returns without an error.
  -- A transaction that is dropped rolls back.
  unfoldable pub transaction :
      {E A : Type 0} → (Error → E) → (begin commit : Statement) → Step E T A → T → Outcome E A × T
  transaction from begin commit body t = elim (engine begin t) [
    | some fault ↦ (err (from fault), t)
    | none ↦ elim (body t) [
      | ok (a, t') ↦ elim (engine commit t') [
        | some fault ↦ (err (from fault), t)
        | none ↦ (ok a, t')
      ]
      | err e ↦ (err e, t)
      | panic ↦ (panic, t)
    ]
  ]
