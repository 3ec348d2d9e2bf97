-- ===== src/Prelude/First.antt =====
-- ORDER BY … LIMIT 1: the row that it selects comes after no other.
use mathlib.Core.Path.{◌≡◌, refl, subst}
use mathlib.Core.Logic.{inl, inr}
use mathlib.Core.Bool.{Bool, true, false}
use mathlib.Core.Option.{Option, none, some}
use mathlib.Core.List.{List, [], ◌∷◌}
use native.Mathlib.Omega.{arith}
use paperless_ai_ocr.Prelude.Tests.{if◌then◌else◌, Bool-cases, some_inj}
use paperless_ai_ocr.Prelude.Lists.{All}
use paperless_ai_ocr.Prelude.Rows.{earlier, first_by}

-- The first row in an order comes before no other: for an order that is asymmetric and whose
-- negation is transitive.
module _ {ℓ} {A : Type ℓ} (before : A → A → Bool)
    (asym : (x y : A) → before x y ≡ true → before y x ≡ false)
    (negtrans : (x y z : A) → before x y ≡ false → before y z ≡ false → before x z ≡ false) where
  irrefl : (x : A) → before x x ≡ false
  irrefl x = elim (Bool-cases (before x x)) [ inl t ↦ asym x x t | inr t ↦ t ]

  weaken :
      (x y : A) (xs : List A)
      → before y x ≡ false
      → All (λ z. before z y ≡ false) xs
      → All (λ z. before z x ≡ false) xs
  weaken x y [] e h = tt
  weaken x y (z ∷ zs) e h = (negtrans z y x h.0 e, weaken x y zs e h.1)

  minimal :
      (x : A) (xs : List A) (o : Option A)
      → o ≡ first_by before xs
      → ((b : A) → o ≡ some b → All (λ z. before z b ≡ false) xs)
      → All (λ z. before z (earlier before x o) ≡ false) (x ∷ xs)
  unfolding first_by
  minimal x [] none e h = (irrefl x, tt)
  minimal x (y ∷ ys) none e h = absurd (ground arith)
  minimal x xs (some y) e h = kept (before y x) refl
    where
      kept : (b : Bool) → before y x ≡ b → All (λ z. before z (if b then y else x) ≡ false) (x ∷ xs)
      kept true t = (asym y x t, h y refl)
      kept false t = (irrefl x, weaken x y xs t (h y refl))

  pub first_by-min :
      (xs : List A) (a : A) → first_by before xs ≡ some a → All (λ z. before z a ≡ false) xs
  unfolding first_by
  first_by-min [] a e = tt
  first_by-min (x ∷ xs) a e =
      subst (λ b. All (λ z. before z b ≡ false) (x ∷ xs))
        (some_inj (earlier before x (first_by before xs)) a e)
        (minimal x xs (first_by before xs) refl (first_by-min xs))

pub first_by-eq-none {ℓ} :
    {A : Type ℓ} (before : A → A → Bool) (xs : List A) → first_by before xs ≡ none → xs ≡ []
unfolding first_by
first_by-eq-none before [] e = refl
first_by-eq-none before (x ∷ xs) e = absurd (ground arith)
