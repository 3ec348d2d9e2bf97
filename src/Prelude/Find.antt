-- ===== src/Prelude/Find.antt =====
-- Lookup by a primary key, before and after an update.
use Prim.Native.Nat.{ℕ, ◌≤◌}
use mathlib.Core.Path.{◌≡◌, refl}
use mathlib.Core.Logic.{inl, inr}
use mathlib.Core.Bool.{Bool, true}
use mathlib.Core.Option.{Option, none, some}
use mathlib.Core.List.{List, [], ◌∷◌, ◌++◌}
use native.Mathlib.Omega.{arith}
use paperless_ai_ocr.Prelude.Tests.{some_inj, ◌==◌, if◌then◌else◌, Bool-cases}
use paperless_ai_ocr.Prelude.Lists.{All, All-map}
use paperless_ai_ocr.Prelude.Rows.{count_where, find_where, update_where}

-- the row at its place after an update
abbrev pub updated {ℓ} : {A : Type ℓ} → (A → Bool) → (A → A) → Option A → Option A
updated q f none = none
updated q f (some a) = some (if q a then f a else a)

-- the first of two tables that has a row
abbrev pub or_else {ℓ} : {A : Type ℓ} → Option A → Option A → Option A
or_else none o = o
or_else (some a) o = some a

module _ {ℓ} {A : Type ℓ} (p : A → Bool) where
  -- An update that leaves the key alone changes the row in its place.
  pub find-update :
      (q : A → Bool) (f : A → A) (xs : List A)
      → ((x : A) → q x ≡ true → p (f x) ≡ p x)
      → find_where p (update_where q f xs) ≡ updated q f (find_where p xs)
  unfolding find_where update_where
  find-update q f [] h = refl
  find-update q f (x ∷ xs) h = ground (arith, h x, find-update q f xs h)

  pub find-append :
      (xs ys : List A) → find_where p (xs ++ ys) ≡ or_else (find_where p xs) (find_where p ys)
  unfolding find_where
  find-append [] ys = refl
  find-append (x ∷ xs) ys = ground (arith, find-append xs ys)

  pub find-count : (xs : List A) → count_where p xs ≡ 0 → find_where p xs ≡ none
  unfolding find_where count_where
  find-count [] h = refl
  find-count (x ∷ xs) h = ground (arith, find-count xs)

  pub find-pos : (xs : List A) (a : A) → find_where p xs ≡ some a → 1 ≤ count_where p xs
  unfolding find_where count_where
  find-pos [] a h = absurd (ground arith)
  find-pos (x ∷ xs) a h = ground (arith, find-pos xs a)

pub count-of_find {ℓ} :
    {A : Type ℓ} (p q : A → Bool) (xs : List A) (a : A)
    → find_where p xs ≡ some a
    → q a ≡ true
    → 1 ≤ count_where q xs
unfolding find_where count_where
count-of_find p q [] a h t = absurd (ground arith)
count-of_find p q (x ∷ xs) a h t = elim (Bool-cases (p x)) [
  | inl y ↦ rw (some_inj x a (rw y at h), t) (omega arith)
  | inr n ↦ ground (arith, count-of_find p q xs a (rw n at h) t)
]

-- Where a key is that of at most one row, each row is the one found by its key.
module _ {ℓ} {A : Type ℓ} (key : A → ℕ) where
  found_past :
      (x : A) (xs : List A)
      → ((k : ℕ) → count_where (λ y. key y == k) (x ∷ xs) ≤ 1)
      → (y : A) → find_where (λ z. key z == key y) xs ≡ some y
      → find_where (λ z. key z == key y) (x ∷ xs) ≡ some y
  unfolding find_where count_where
  found_past x xs h y e = ground (arith, h (key y), find-pos (λ z. key z == key y) xs y)

  fewer :
      (x : A) (xs : List A) (k : ℕ)
      → count_where (λ y. key y == k) xs ≤ count_where (λ y. key y == k) (x ∷ xs)
  unfolding count_where
  fewer x xs k = ground arith

  pub All-found :
      (xs : List A)
      → ((k : ℕ) → count_where (λ x. key x == k) xs ≤ 1)
      → All (λ x. find_where (λ y. key y == key x) xs ≡ some x) xs
  unfolding find_where
  All-found [] h = tt
  All-found (x ∷ xs) h = (
    ground arith,
    All-map _ _ xs (found_past x xs h) (All-found xs (λ k. omega (arith, fewer x xs k, h k))),
  )
