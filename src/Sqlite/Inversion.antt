-- ===== src/Sqlite/Inversion.antt =====
-- What a success of a composed step says of its parts.
use flow_observability.Base.{
  ◌≡◌, Outcome, ok, err, panic, Outcome-cases, Option-cases, arith, inl, inr, ◌⊎◌,
}
use flow_observability.Sqlite.{Error}
use flow_observability.Sqlite.Step.{Step, Engine, ◌>>=◌, lift, query, execute, transaction}

module _ {E T A B : Type 0} where
  pub >>=-eq-ok :
      (m : Step E T A) (f : A → Step E T B) (t : T) (b : B) (t'' : T)
      → (m >>= f) t ≡ ok (b, t'')
      → (a : A) × (t' : T) × (m t ≡ ok (a, t')) × (f a t' ≡ ok (b, t''))
  >>=-eq-ok m f t b t'' e = elim (Outcome-cases (m t)) [
    | inl ((a, t'), h) ↦ (a, t', h, rw (h, ◌>>=◌) at e)
    | inr (inl (x, h)) ↦ cc (rw (h, ◌>>=◌) at e)
    | inr (inr h) ↦ cc (rw (h, ◌>>=◌) at e)
  ]

module _ {E T A : Type 0} where
  pub lift-ok :
      (r : Outcome E A) (t : T) (a : A) (t' : T) → lift r t ≡ ok (a, t') → (r ≡ ok a) × (t' ≡ t)
  lift-ok r t a t' e = ground arith

module _ {Statement T : Type 0} (engine : Engine Statement T) where
  pub query-ok :
      {A : Type 0} (statement : Statement) (read : T → Outcome Error A) (t : T) (a : A) (t' : T)
      → query engine statement read t ≡ ok (a, t')
      → (read t ≡ ok a) × (t' ≡ t)
  unfolding query
  query-ok statement read t a t' e = ground arith

  pub execute-ok :
      (statement : Statement) (write : T → Outcome Error T) (t : T) (a : Unit {0}) (t' : T)
      → execute engine statement write t ≡ ok (a, t')
      → write t ≡ ok t'
  unfolding execute
  execute-ok statement write t a t' e = ground arith

  -- A transaction that returns has run its body to the end and committed it.
  pub transaction-ok :
      {E A : Type 0} (from : Error → E) (begin commit : Statement) (body : Step E T A) (t : T)
      (a : A) (t' : T)
      → transaction engine from begin commit body t ≡ (ok a, t')
      → body t ≡ ok (a, t')
  unfolding transaction
  transaction-ok from begin commit body t a t' e = ground arith

  -- A transaction that fails leaves the tables as they were.
  pub transaction_rollback :
      {E A : Type 0} (from : Error → E) (begin commit : Statement) (body : Step E T A) (t : T)
      (x : E)
      → (transaction engine from begin commit body t).0 ≡ err x
      → (transaction engine from begin commit body t).1 ≡ t
  unfolding transaction
  transaction_rollback from begin commit body t x e = ground arith

  -- A transaction leaves the tables as they were, or it returns without an error.
  pub transaction-cases :
      {E A : Type 0} (from : Error → E) (begin commit : Statement) (body : Step E T A) (t : T)
      → ((transaction engine from begin commit body t).1 ≡ t)
        ⊎ ((a : A) × (t' : T) × (transaction engine from begin commit body t ≡ (ok a, t')))
  unfolding transaction
  transaction-cases from begin commit body t = elim (Option-cases (engine begin t)) [
    | inr (fault, e) ↦ inl (ground arith)
    | inl e ↦ elim (Outcome-cases (body t)) [
      | inl ((a, t'), h) ↦ elim (Option-cases (engine commit t')) [
        | inl c ↦ inr (a, t', ground arith)
        | inr (fault, c) ↦ inl (ground arith)
      ]
      | inr (inl (x, h)) ↦ inl (ground arith)
      | inr (inr h) ↦ inl (ground arith)
    ]
  ]

  -- What a transaction returns and leaves, by what became of its body.
  pub transaction_result :
      {E A : Type 0} (from : Error → E) (begin commit : Statement) (body : Step E T A) (t : T)
      → ((a : A) × (t' : T) × (body t ≡ ok (a, t'))
          × (transaction engine from begin commit body t ≡ (ok a, t')))
        ⊎ ((x : Error) × (transaction engine from begin commit body t ≡ (err (from x), t)))
        ⊎ ((x : E) × (body t ≡ err x) × (transaction engine from begin commit body t ≡ (err x, t)))
        ⊎ (transaction engine from begin commit body t ≡ (panic, t))
  unfolding transaction
  transaction_result from begin commit body t = elim (Option-cases (engine begin t)) [
    | inr (fault, e) ↦ inr (inl (fault, ground arith))
    | inl e ↦ elim (Outcome-cases (body t)) [
      | inl ((a, t'), h) ↦ elim (Option-cases (engine commit t')) [
        | inl c ↦ inl (a, t', h, ground arith)
        | inr (fault, c) ↦ inr (inl (fault, ground arith))
      ]
      | inr (inl (x, h)) ↦ inr (inr (inl (x, h, ground arith)))
      | inr (inr h) ↦ inr (inr (inr (ground arith)))
    ]
  ]
