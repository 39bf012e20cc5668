-- ===== src/Packet/Agree.antt =====
-- How a parse of a frame compares with the parse of the same frame with more bytes behind it: the
-- shorter one reports a truncation, or both give one and the same result, which is no panic.
use flow_observability.Base.{
  ℕ, suc, ◌+◌, ◌-◌, ◌≤◌, ◌<◌, ◌≡◌, refl, ap, ◌≢◌, inl, inr, ltb-false, le→leb, zero, le_of_ltb,
  Bool, true, false, List, [], ◌∷◌, ◌++◌, length, take, drop, String, arith, ltb, if◌then◌else◌,
  Bool-cases, length-append, get_elem?_within, get_elem?-append, ok, err, panic, ◌>>=◌, ◌>>◌,
}
use flow_observability.Packet.{PacketError, truncated, Parse, byte_at, be16_at, slice, require}

pub data Agrees {A : Type 0} (r r' : Parse A) : Type 0 where
  cut : (layer : String) → r ≡ err (truncated layer) → Agrees r r'
  same : r' ≡ r → r ≢ panic → Agrees r r'

module _ {A : Type 0} where
  pub Agrees-ok : (a : A) → Agrees (ok a) (ok a)
  Agrees-ok a = same refl (λ e. cc)

  pub Agrees-err : (e : PacketError) → Agrees {A = A} (err e) (err e)
  Agrees-err e = same refl (λ p. cc)

  pub Agrees-ne-panic : {r r' : Parse A} → Agrees r r' → r ≢ panic
  Agrees-ne-panic (cut layer e) p = cc
  Agrees-ne-panic (same e n) p = n p

  pub Agrees-if :
      (b : Bool) {r r' s s' : Parse A}
      → (b ≡ true → Agrees r r')
      → (b ≡ false → Agrees s s')
      → Agrees (if b then r else s) (if b then r' else s')
  Agrees-if true f g = f refl
  Agrees-if false f g = g refl

module _ {A B : Type 0} where
  pub Agrees-bind :
      {m m' : Parse A} {f f' : A → Parse B}
      → Agrees m m'
      → ((a : A) → m ≡ ok a → Agrees (f a) (f' a))
      → Agrees (m >>= f) (m' >>= f')
  Agrees-bind {f = f} {f' = f'} (cut layer e) k = rw e (cut layer refl)
  Agrees-bind {m = ok a} {f = f} {f' = f'} (same e n) k = rw e (k a refl)
  Agrees-bind {m = err x} (same e n) k = rw e (Agrees-err x)
  Agrees-bind {m = panic} (same e n) k = absurd (n refl)

length-le-append : (xs ys : List ℕ) → length xs ≤ length (xs ++ ys)
length-le-append xs ys = omega (arith, length-append xs ys)

take-drop-append :
    (n m : ℕ) (xs ys : List ℕ) → m + n ≤ length xs → take n (drop m (xs ++ ys)) ≡ take n (drop m xs)
take-drop-append zero m xs ys h = refl
take-drop-append (suc n) zero [] ys h = absurd (omega arith)
take-drop-append (suc n) zero (x ∷ xs) ys h =
    ap (λ (l : List ℕ). x ∷ l) (take-drop-append n zero xs ys (omega arith))
take-drop-append (suc n) (suc m) [] ys h = absurd (omega arith)
take-drop-append (suc n) (suc m) (x ∷ xs) ys h = take-drop-append (suc n) m xs ys (omega arith)

pub byte_at_within :
    (frame : List ℕ) (i : ℕ) → i < length frame → (b : ℕ) × (byte_at frame i ≡ ok b)
unfolding byte_at
byte_at_within frame i h = let (b, e) = get_elem?_within frame i h in (b, rw (e, byte_at))

module _ (frame rest : List ℕ) where
  pub byte_at-append : (i : ℕ) → i < length frame → byte_at (frame ++ rest) i ≡ byte_at frame i
  unfolding byte_at
  byte_at-append i h = rw (get_elem?-append frame rest i h, byte_at)

  pub Agrees-byte_at :
      (i : ℕ) → i < length frame → Agrees (byte_at frame i) (byte_at (frame ++ rest) i)
  Agrees-byte_at i h =
      let (b, e) = byte_at_within frame i h in same (byte_at-append i h) (λ p. cc e)

  pub Agrees-be16_at :
      (i : ℕ) → i + 1 < length frame → Agrees (be16_at frame i) (be16_at (frame ++ rest) i)
  unfolding be16_at
  Agrees-be16_at i h =
      Agrees-bind (Agrees-byte_at i (omega arith))
        λ high _. Agrees-bind (Agrees-byte_at (i + 1) h) λ low _. Agrees-ok _

  pub Agrees-require :
      {A : Type 0} (n : ℕ) (layer : String) {k k' : Parse A}
      → (n ≤ length frame → Agrees k k')
      → Agrees (require frame n layer >> k) (require (frame ++ rest) n layer >> k')
  unfolding require
  Agrees-require n layer f = elim (Bool-cases (ltb (length frame) n)) [
    | inl short ↦ rw short (cut layer refl)
    | inr fits ↦ rw (fits, ltb-false _ _ (long fits)) (f (le_of_ltb _ _ fits))
  ]
    where
      long : ltb (length frame) n ≡ false → n ≤ length (frame ++ rest)
      long fits = omega (arith, length-le-append frame rest, le_of_ltb (length frame) n fits)

  pub Agrees-slice :
      (first last : ℕ)
      → first ≤ last
      → last ≤ length frame
      → Agrees (slice frame first last) (slice (frame ++ rest) first last)
  unfolding slice
  Agrees-slice first last h k =
      rw (le→leb _ _ h, le→leb _ _ k, le→leb _ _ long, take-drop-append _ first frame rest fits)
        (Agrees-ok _)
    where
      long : last ≤ length (frame ++ rest)
      long = omega (arith, length-le-append frame rest)

      fits : first + (last - first) ≤ length frame
      fits = omega arith
