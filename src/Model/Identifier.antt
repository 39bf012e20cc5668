-- ===== src/Model/Identifier.antt =====
-- The identifier of a batch (`BatchEnvelope::new` in src/model.rs) names its sequence number.
use mathlib.Core.List.{append_assoc}
use flow_observability.Base.{
  ℕ, zero, suc, ◌+◌, ◌-◌, ◌*◌, ◌/◌, ◌%◌, ◌^◌, ◌<◌, ◌≡◌, refl, sym, ap, ◌∙◌, [], ◌∷◌, ◌++◌, length,
  arith, All, inl, inr, length-append, ◌==◌, subst, Bool-cases,
}
use flow_observability.Model.{Text, BatchBody}
use flow_observability.Model.Envelope.{Codec, decimal, decimal_from, batch_id_of}

tails : {x y : ℕ} {xs ys : Text} → ◌≡◌ {A = Text} (x ∷ xs) (y ∷ ys) → xs ≡ ys
tails h = cc

heads : {x y : ℕ} {xs ys : Text} → ◌≡◌ {A = Text} (x ∷ xs) (y ∷ ys) → x ≡ y
heads h = cc

-- The number that decimal digits stand for, behind those already read.
abbrev value_from : ℕ → Text → ℕ
value_from n [] = n
value_from n (d ∷ digits) = value_from (n * 10 + (d - 48)) digits

value-decimal_from :
    (places n : ℕ) (digits : Text)
    → n < 10 ^ places
    → value_from 0 (decimal_from places n digits) ≡ value_from n digits
unfolding decimal_from
value-decimal_from zero n digits h = ap (λ x. value_from x digits) (omega arith)
value-decimal_from (suc places) n digits h = elim (Bool-cases (n / 10 == 0)) [
  | inl e ↦ rw e (ap (λ x. value_from x digits) (grind arith))
  | inr e ↦ rw e (
      value-decimal_from places (n / 10) ((48 + n % 10) ∷ digits) (grind arith)
      ∙ ap (λ x. value_from x digits) (grind arith))
]

IsDigits-decimal_from :
    (places n : ℕ) (digits : Text)
    → All (λ c. c < 58) digits
    → All (λ c. c < 58) (decimal_from places n digits)
unfolding decimal_from
IsDigits-decimal_from zero n digits h = h
IsDigits-decimal_from (suc places) n digits h =
    ground
      (arith, IsDigits-decimal_from places (n / 10) ((48 + n % 10) ∷ digits) (digit, h), digit, h)
  where
    digit : 48 + n % 10 < 58
    digit = grind arith

-- A colon is not a digit.
colon_in : (ys es : Text) → All (λ c. c < 58) (ys ++ (58 ∷ es)) → ⊥
colon_in [] es h = omega (arith, h.0)
colon_in (y ∷ ys) es h = colon_in ys es h.1

-- The digits behind the last colon are determined by the whole.
behind_colon :
    (xs ys ds es : Text)
    → All (λ c. c < 58) ds
    → All (λ c. c < 58) es
    → xs ++ (58 ∷ ds) ≡ ys ++ (58 ∷ es)
    → ds ≡ es
behind_colon [] [] ds es h k e = cc
behind_colon [] (y ∷ ys) ds es h k e =
    absurd (colon_in ys es (subst (All (λ c. c < 58)) (tails e) h))
behind_colon (x ∷ xs) [] ds es h k e =
    absurd (colon_in xs ds (subst (All (λ c. c < 58)) (sym (tails e)) k))
behind_colon (x ∷ xs) (y ∷ ys) ds es h k e = behind_colon xs ys ds es h k (tails e)

-- What stands before ends of the same length is determined by the whole.
same_front : (xs ys ps qs : Text) → length ps ≡ length qs → xs ++ ps ≡ ys ++ qs → xs ≡ ys
same_front [] [] ps qs l e = refl
same_front [] (y ∷ ys) ps qs l e = absurd (omega (arith, l, ap length e, length-append ys qs))
same_front (x ∷ xs) [] ps qs l e = absurd (omega (arith, l, ap length e, length-append xs ps))
same_front (x ∷ xs) (y ∷ ys) ps qs l e = cc (same_front xs ys ps qs l (tails e), heads e)

decimal_injective : (m n : ℕ) → m < 10 ^ 20 → n < 10 ^ 20 → decimal m ≡ decimal n → m ≡ n
unfolding decimal
decimal_injective m n h k e =
    sym (value-decimal_from 20 m [] h) ∙ ap (value_from 0) e ∙ value-decimal_from 20 n [] k

module _ (codec : Codec) where
  -- An identifier, by its parts.
  batch_id_lem :
      (body : BatchBody) (prefix : Text)
      → batch_id_of codec body prefix
        ≡ (body.node_id ++ (58 ∷ (body.boot_id ++ (58 ∷ decimal body.seq)))) ++ (58 ∷ prefix)
  unfolding batch_id_of
  batch_id_lem body prefix = simp append_assoc

  pub batch_id-seq :
      (body body' : BatchBody) (prefix prefix' : Text)
      → body.seq < 10 ^ 20
      → body'.seq < 10 ^ 20
      → length prefix ≡ length prefix'
      → batch_id_of codec body prefix ≡ batch_id_of codec body' prefix'
      → body.seq ≡ body'.seq
  unfolding decimal
  batch_id-seq body body' prefix prefix' h h' l e = decimal_injective body.seq body'.seq h h' (
      behind_colon (body.node_id ++ (58 ∷ body.boot_id)) (body'.node_id ++ (58 ∷ body'.boot_id)) _ _
        (IsDigits-decimal_from 20 body.seq [] tt) (IsDigits-decimal_from 20 body'.seq [] tt)
        (append_assoc body.node_id (58 ∷ body.boot_id) (58 ∷ decimal body.seq)
          ∙ fronts
          ∙ sym (append_assoc body'.node_id (58 ∷ body'.boot_id) (58 ∷ decimal body'.seq))))
    where
      fronts :
          body.node_id ++ (58 ∷ (body.boot_id ++ (58 ∷ decimal body.seq)))
          ≡ body'.node_id ++ (58 ∷ (body'.boot_id ++ (58 ∷ decimal body'.seq)))
      fronts =
          same_front _ _ (58 ∷ prefix) (58 ∷ prefix') (ap suc l)
            (sym (batch_id_lem body prefix) ∙ e ∙ batch_id_lem body' prefix')
