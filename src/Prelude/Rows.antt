-- ===== src/Prelude/Rows.antt =====
-- Tables as lists of rows: what the WHERE clauses of SELECT, UPDATE and DELETE do, and the laws
-- of counting that carry the invariants.
use Prim.Native.Nat.{ℕ, suc, ◌+◌, ◌≤◌}
use mathlib.Core.Path.{◌≡◌, refl, subst}
use mathlib.Core.Logic.{inl, inr}
use mathlib.Core.Bool.{Bool, true, ◌&&◌, false}
use mathlib.Core.Option.{Option, none, some}
use mathlib.Core.List.{List, [], ◌∷◌, ◌++◌}
use native.Mathlib.Omega.{arith}
use paperless_ai_ocr.Prelude.Tests.{if◌then◌else◌, Bool-cases, some_inj}
use paperless_ai_ocr.Prelude.Lists.{All}

module _ {ℓ} {A : Type ℓ} where
  -- SELECT count(*) WHERE p
  unfoldable pub count_where : (A → Bool) → List A → ℕ
  count_where p [] = 0
  count_where p (x ∷ xs) = let rest = count_where p xs in if p x then suc rest else rest

  -- SELECT * WHERE p
  unfoldable pub select_where : (A → Bool) → List A → List A
  select_where p [] = []
  select_where p (x ∷ xs) = let rest = select_where p xs in if p x then x ∷ rest else rest

  -- UPDATE SET f WHERE p
  unfoldable pub update_where : (A → Bool) → (A → A) → List A → List A
  update_where p f [] = []
  update_where p f (x ∷ xs) = let rest = update_where p f xs in (if p x then f x else x) ∷ rest

  -- DELETE WHERE p
  unfoldable pub delete_where : (A → Bool) → List A → List A
  delete_where p [] = []
  delete_where p (x ∷ xs) = let rest = delete_where p xs in if p x then rest else x ∷ rest

  -- SELECT * WHERE p on a table in which at most one row meets p
  unfoldable pub find_where : (A → Bool) → List A → Option A
  find_where p [] = none
  find_where p (x ∷ xs) = let rest = find_where p xs in if p x then some x else rest

  -- the row kept of one row and the first of the rest
  abbrev pub earlier : (A → A → Bool) → A → Option A → A
  earlier before x none = x
  earlier before x (some y) = if before y x then y else x

  -- ORDER BY before LIMIT 1
  unfoldable pub first_by : (A → A → Bool) → List A → Option A
  first_by before [] = none
  first_by before (x ∷ xs) = some (earlier before x (first_by before xs))

module _ {ℓ} {A : Type ℓ} (p : A → Bool) where
  pub count_where-append :
      (xs ys : List A) → count_where p (xs ++ ys) ≡ count_where p xs + count_where p ys
  unfolding count_where
  count_where-append [] ys = omega arith
  count_where-append (x ∷ xs) ys = ground (arith, count_where-append xs ys)

  pub find_where-eq-none : (xs : List A) → find_where p xs ≡ none → count_where p xs ≡ 0
  unfolding count_where find_where
  find_where-eq-none [] h = refl
  find_where-eq-none (x ∷ xs) h = ground (arith, find_where-eq-none xs)

  pub find_where-eq-some : (xs : List A) (a : A) → find_where p xs ≡ some a → p a ≡ true
  unfolding find_where
  find_where-eq-some [] a h = ground arith
  find_where-eq-some (x ∷ xs) a h = ground (arith, find_where-eq-some xs a)

-- An update moves rows out of a set and into it, and touches no other.
pub count-update {ℓ} :
    {A : Type ℓ} (p q : A → Bool) (f : A → A) (xs : List A)
    → count_where p (update_where q f xs) + count_where (λ x. q x && p x) xs
      ≡ count_where p xs + count_where (λ x. q x && p (f x)) xs
unfolding count_where update_where
count-update p q f [] = refl
count-update p q f (x ∷ xs) = ground (arith, count-update p q f xs)

pub count-le-count {ℓ} :
    {A : Type ℓ} (p q : A → Bool) (xs : List A)
    → ((x : A) → p x ≡ true → q x ≡ true)
    → count_where p xs ≤ count_where q xs
unfolding count_where
count-le-count p q [] h = omega arith
count-le-count p q (x ∷ xs) h = ground (arith, h x, count-le-count p q xs h)

-- No row enters a set by an update that takes none into it.
pub count-update-le {ℓ} :
    {A : Type ℓ} (p q : A → Bool) (f : A → A) (xs : List A)
    → ((x : A) → (q x && p (f x)) ≡ true → (q x && p x) ≡ true)
    → count_where p (update_where q f xs) ≤ count_where p xs
count-update-le p q f xs h =
    omega
      (arith, count-update p q f xs, count-le-count (λ x. q x && p (f x)) (λ x. q x && p x) xs h)

module _ {ℓ κ} {A : Type ℓ} (P : A → Type κ) where
  pub All-update :
      (q : A → Bool) (f : A → A) (xs : List A)
      → ((x : A) → P x → q x ≡ true → P (f x))
      → All P xs
      → All P (update_where q f xs)
  unfolding update_where
  All-update q f [] h a = a
  All-update q f (x ∷ xs) h a = elim (Bool-cases (q x)) [
    | inl t ↦ rw t (h x a.0 t, All-update q f xs h a.1)
    | inr t ↦ rw t (a.0, All-update q f xs h a.1)
  ]

  pub All-delete : (q : A → Bool) (xs : List A) → All P xs → All P (delete_where q xs)
  unfolding delete_where
  All-delete q [] a = a
  All-delete q (x ∷ xs) a = elim (Bool-cases (q x)) [
    | inl t ↦ rw t (All-delete q xs a.1)
    | inr t ↦ rw t (a.0, All-delete q xs a.1)
  ]

  pub All-find : (q : A → Bool) (xs : List A) (a : A) → find_where q xs ≡ some a → All P xs → P a
  unfolding find_where
  All-find q [] a e h = absurd (ground arith)
  All-find q (x ∷ xs) a e h = elim (Bool-cases (q x)) [
    | inl t ↦ subst P (some_inj x a (rw t at e)) h.0
    | inr t ↦ All-find q xs a (rw t at e) h.1
  ]

  pub All-first :
      (before : A → A → Bool) (xs : List A) (a : A) → first_by before xs ≡ some a → All P xs → P a
  unfolding first_by
  All-first before [] a e h = absurd (ground arith)
  All-first before (x ∷ xs) a e h =
      subst P (some_inj (earlier before x (first_by before xs)) a e)
        (kept before x (first_by before xs) h.0 (λ b t. All-first before xs b t h.1))
    where
      kept :
          (before : A → A → Bool) (x : A) (o : Option A)
          → P x
          → ((b : A) → o ≡ some b → P b)
          → P (earlier before x o)
      kept before x none px po = px
      kept before x (some y) px po = elim (Bool-cases (before y x)) [
        | inl t ↦ rw t (po y refl)
        | inr t ↦ rw t px
      ]

  pub All-select : (q : A → Bool) (xs : List A) → All P xs → All P (select_where q xs)
  unfolding select_where
  All-select q [] h = h
  All-select q (x ∷ xs) h = elim (Bool-cases (q x)) [
    | inl t ↦ rw t (h.0, All-select q xs h.1)
    | inr t ↦ rw t (All-select q xs h.1)
  ]

-- What is selected meets the condition.
pub All-select_self {ℓ} :
    {A : Type ℓ} (q : A → Bool) (xs : List A) → All (λ x. q x ≡ true) (select_where q xs)
unfolding select_where
All-select_self q [] = tt
All-select_self q (x ∷ xs) = elim (Bool-cases (q x)) [
  | inl t ↦ rw t (t, All-select_self q xs)
  | inr t ↦ rw t (All-select_self q xs)
]

-- A row that is kept of a table is kept by what holds of every row that meets the condition.
pub All-of_select {ℓ κ} :
    {A : Type ℓ} (P : A → Type κ) (q : A → Bool) (xs : List A)
    → All P (select_where q xs)
    → All (λ x. q x ≡ true → P x) xs
unfolding select_where
All-of_select P q [] h = tt
All-of_select P q (x ∷ xs) h = elim (Bool-cases (q x)) [
  | inl t ↦
      let h' : All P (x ∷ select_where q xs) = rw t at h in (λ _. h'.0, All-of_select P q xs h'.1)
  | inr t ↦ (λ e. absurd (ground arith), All-of_select P q xs (rw t at h))
]

-- Counting by what holds of each row of the table.
module _ {ℓ} {A : Type ℓ} (p : A → Bool) where
  pub count_le_rows :
      (q : A → Bool) (xs : List A)
      → All (λ x. p x ≡ true → q x ≡ true) xs
      → count_where p xs ≤ count_where q xs
  unfolding count_where
  count_le_rows q [] h = omega arith
  count_le_rows q (x ∷ xs) h = ground (arith, h.0, count_le_rows q xs h.1)

  pub count-none : (xs : List A) → All (λ x. p x ≡ false) xs → count_where p xs ≡ 0
  unfolding count_where
  count-none [] h = refl
  count-none (x ∷ xs) h = ground (arith, h.0, count-none xs h.1)

  pub count-select : (xs : List A) → select_where p xs ≡ [] → count_where p xs ≡ 0
  unfolding count_where select_where
  count-select [] h = refl
  count-select (x ∷ xs) h = ground (arith, count-select xs)

-- An update that meets no row changes nothing.
pub update_none {ℓ} :
    {A : Type ℓ} (q : A → Bool) (f : A → A) (xs : List A)
    → count_where q xs ≡ 0
    → update_where q f xs ≡ xs
unfolding count_where update_where
update_none q f [] h = refl
update_none q f (x ∷ xs) h = ground (arith, update_none q f xs)
