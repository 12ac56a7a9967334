-- ===== src/Base/Effects.antt =====
-- A service call: it reads and writes a store of rows, and it may throw an HTTP exception. What
-- was written before a throw stays written, since the services run outside a transaction.
use Prim.Native.String.{String}
use mathlib.Core.Path.{◌≡◌, refl, sym, ap, subst, ◌∙◌}
use mathlib.Core.Bool.{Bool, true, false}
use mathlib.Core.Logic.{◌⊎◌, inl, inr}
use native.Mathlib.Omega.{arith}
use mathlib.Core.Option.{Option, none, some}

-- The exception classes of the framework that the services throw.
pub data HttpError : Type 0 where
  bad_request not_found conflict forbidden unauthorized : String → HttpError
  server_error : String → HttpError  -- any other `Error`, answered as 500

pub data Result (A : Type 0) : Type 0 where
  ok : A → Result A
  err : HttpError → Result A

abbrev pub Action : Type 0 → Type 0 → Type 0
Action S A = S → Result A × S

module _ {S A : Type 0} where
  abbrev pub pure : A → Action S A
  pure a s = (ok a, s)

  abbrev pub throw : HttpError → Action S A
  throw e s = (err e, s)

  abbrev pub gets : (S → A) → Action S A
  gets f s = (ok (f s), s)

  abbrev pub or_throw : Option A → HttpError → Action S A
  or_throw none e = throw e
  or_throw (some a) e = pure a

pub Result-cases :
    {A : Type 0} (r : Result A) → ((a : A) × (r ≡ ok a)) ⊎ ((e : HttpError) × (r ≡ err e))
Result-cases (ok a) = inl (a, refl)
Result-cases (err e) = inr (e, refl)

module _ {S : Type 0} where
  infixl 5 ◌>>=◌ ◌>>◌
  abbrev pub ◌>>=◌ : {A B : Type 0} → Action S A → (A → Action S B) → Action S B
  ◌>>=◌ m f s = let (r, t) = m s in elim r [ ok a ↦ f a t | err e ↦ (err e, t) ]

  abbrev pub ◌>>◌ : {A B : Type 0} → Action S A → Action S B → Action S B
  m >> k = m >>= λ _. k

  abbrev pub throw_if : Bool → HttpError → Action S (Unit {0})
  throw_if true e = throw e
  throw_if false e = pure tt

  abbrev pub modify : (S → S) → Action S (Unit {0})
  modify f s = (ok tt, f s)

  -- A call goes on after a step that answers, and ends with one that throws.
  pub >>=_ok :
      {A B : Type 0} (m : Action S A) (f : A → Action S B) (s t : S) (a : A)
      → m s ≡ (ok a, t)
      → (m >>= f) s ≡ f a t
  >>=_ok {A = A} m f s t a h =
      ap (λ (p : Result A × S). elim p.0 [ ok b ↦ f b p.1 | err e ↦ (err e, p.1) ]) h

  pub >>=_err :
      {A B : Type 0} (m : Action S A) (f : A → Action S B) (s t : S) (e : HttpError)
      → m s ≡ (err e, t)
      → (m >>= f) s ≡ (err e, t)
  >>=_err {A = A} m f s t e h =
      ap (λ (p : Result A × S). elim p.0 [ ok b ↦ f b p.1 | err x ↦ (err x, p.1) ]) h

pub ok_injective : {A : Type 0} (a b : A) → ok a ≡ ok b → a ≡ b
ok_injective a b h = ground arith

-- A chain of calls that answers has had its first call answer.
pub >>=_inv :
    {S A B : Type 0} (m : Action S A) (f : A → Action S B) (s : S) (b : B)
    → ((m >>= f) s).0 ≡ ok b
    → (a : A) × ((m s).0 ≡ ok a) × ((m >>= f) s ≡ f a (m s).1)
>>=_inv {S = S} {B = B} m f s b h = elim (Result-cases (m s).0) [
  | inl (a, e) ↦ (a, e, ap (λ r. elim r [ ok c ↦ f c (m s).1 | err x ↦ (err x, (m s).1) ]) e)
  | inr (x, e) ↦
      let g : ((m >>= f) s).0 ≡ err x =
        ap
          (λ r. (elim r as (λ _. Result B × S) [ ok c ↦ f c (m s).1 | err y ↦ (err y, (m s).1) ]).0)
          e in
      ground (arith, sym g ∙ h)
]

pub throw_if_inv :
    {S A : Type 0} (b : Bool) (x : HttpError) (k : Action S A) (s : S) (a : A)
    → ((throw_if b x >> k) s).0 ≡ ok a
    → (throw_if b x >> k) s ≡ k s
throw_if_inv true x k s a h = ground arith
throw_if_inv false x k s a h = refl

-- What holds after a call that starts with a step that only reads.
pub check_then :
    {S A B : Type 0} (m : Action S A) (k : A → Action S B) (s : S) (P : S → Type 0)
    → (m s).1 ≡ s
    → P s
    → ((a : A) → (m s).0 ≡ ok a → P (k a s).1)
    → P ((m >>= k) s).1
check_then m k s P q p h = elim (Result-cases (m s).0) [
  | inl (a, e) ↦ subst P (sym (ap (λ x. x.1) (>>=_ok m k s s a (λ i. (e i, q i))))) (h a e)
  | inr (x, e) ↦ subst P (sym (ap (λ x. x.1) (>>=_err m k s s x (λ i. (e i, q i))))) p
]

pub or_throw-store :
    {S A : Type 0} (o : Option A) (x : HttpError) (s : S) → (or_throw {S = S} o x s).1 ≡ s
or_throw-store none x s = refl
or_throw-store (some a) x s = refl

pub throw_if-store : {S : Type 0} (b : Bool) (x : HttpError) (s : S) → (throw_if b x s).1 ≡ s
throw_if-store true x s = refl
throw_if-store false x s = refl

-- A guard that lets the call pass.
pub throw_if-ok :
    {S : Type 0} (b : Bool) (x : HttpError) (s : S) (t : Unit {0})
    → (throw_if b x s).0 ≡ ok t
    → b ≡ false
throw_if-ok true x s t h = absurd (ground arith)
throw_if-ok false x s t h = refl
