-- ===== src/Saferr.antt =====
-- internal/saferr/saferr.go: errors with a category and a message that is safe to show. The
-- private cause is kept as far as the program asks for it, by errors.Is: a cancelled context, a
-- deadline that passed, or anything else.
use Prim.Native.String.{String}
use mathlib.Core.Path.{◌≡◌, refl}
use mathlib.Core.Option.{Option, none, some}
use paperless_ai_ocr.Prelude.{Bool, true, false, if◌then◌else◌}

-- A Go string type: any other text is a value too.
pub data Category : Type 0 where
  configuration paperless provider validation rendering internal : Category
  other : String → Category

-- What errors.Is finds in the chain of causes.
pub data Cause : Type 0 where
  canceled deadline_exceeded failure : Cause

pub record Error : Type 0 where
  pub category : Category
  pub message : String
  pub cause : Option Cause

-- New
abbrev pub new : Category → String → Error
new category message = record { category = category; message = message; cause = none }

-- Wrap
abbrev pub wrap : Category → String → Cause → Error
wrap category message cause = record { category = category; message = message; cause = some cause }

-- A value, or the error of a Go function that returns both.
pub data Result {ℓ} (A : Type ℓ) : Type ℓ where
  err : Error → Result A
  ok : A → Result A

abbrev pub is_ok {ℓ} : {A : Type ℓ} → Result A → Bool
is_ok (err _) = false
is_ok (ok _) = true

-- `if test { return error }` before the rest.
abbrev pub reject_if : Bool → Error → Result (Unit {0})
reject_if test e = if test then err e else ok tt

-- `if err != nil { return err }` after a call.
infixl 5 ◌>>=◌ ◌>>◌
abbrev pub ◌>>=◌ {ℓ κ} :
    {Value : Type ℓ} {Next : Type κ} → Result Value → (Value → Result Next) → Result Next
err e >>= rest = err e
ok value >>= rest = rest value

abbrev pub ◌>>◌ {κ} : {Next : Type κ} → Result (Unit {0}) → Result Next → Result Next
err e >> rest = err e
ok _ >> rest = rest

pub ok_inj {ℓ} : {A : Type ℓ} {a b : A} → ok a ≡ ok b → a ≡ b
ok_inj e = cc

pub ok≢err {ℓ} : {A : Type ℓ} {a : A} {e : Error} → ok a ≡ err e → ⊥
ok≢err h = cc

-- What holds of the value of a result that is no error.
pub data Ensures {ℓ κ} {A : Type ℓ} (Q : A → Type κ) (r : Result A) : Type (ℓ ⊔ κ) where
  returned : (a : A) → r ≡ ok a → Q a → Ensures Q r
  rejected : (e : Error) → r ≡ err e → Ensures Q r

module _ {ℓ κ} {A : Type ℓ} {Q : A → Type κ} where
  pub Ensures-ok : (a : A) → Q a → Ensures Q (ok a)
  Ensures-ok a q = returned a refl q

  -- By inversion: what holds of each value that the result may be.
  pub Ensures-of : (r : Result A) → ((a : A) → r ≡ ok a → Q a) → Ensures Q r
  Ensures-of (ok a) h = Ensures-ok a (h a refl)
  Ensures-of (err e) h = rejected e refl

  pub Ensures-err : (e : Error) → Ensures Q (err e)
  Ensures-err e = rejected e refl

  pub Ensures-if :
      (b : Bool) (r s : Result A)
      → (b ≡ true → Ensures Q r)
      → (b ≡ false → Ensures Q s)
      → Ensures Q (if b then r else s)
  Ensures-if true r s hr hs = hr refl
  Ensures-if false r s hr hs = hs refl

module _ {ℓ κ} {A : Type ℓ} {Q : A → Type κ} where
  pub Ensures-reject :
      (b : Bool) (e : Error) (r : Result A)
      → (b ≡ false → Ensures Q r)
      → Ensures Q (reject_if b e >> r)
  Ensures-reject true e r h = Ensures-err e
  Ensures-reject false e r h = h refl

module _ {ℓ κ μ ν} {A : Type ℓ} {B : Type κ} {P : A → Type ν} {Q : B → Type μ} where
  -- What holds of the first value serves for the rest.
  pub Ensures-then :
      (r : Result A) (f : A → Result B)
      → Ensures P r
      → ((a : A) → P a → Ensures Q (f a))
      → Ensures Q (r >>= f)
  Ensures-then r f (returned a e p) h = rw e (h a p)
  Ensures-then r f (rejected x e) h = rw e (Ensures-err x)

module _ {ℓ κ μ} {A : Type ℓ} {B : Type κ} {Q : B → Type μ} where
  pub Ensures-bind :
      (r : Result A) (f : A → Result B)
      → ((a : A) → r ≡ ok a → Ensures Q (f a))
      → Ensures Q (r >>= f)
  Ensures-bind (ok a) f h = h a refl
  Ensures-bind (err e) f h = Ensures-err e
