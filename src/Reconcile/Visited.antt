-- ===== src/Reconcile/Visited.antt =====
-- The fingerprints of a scan of internal/reconcile/reconcile.go: each stands there once.
use paperless_ai_ocr.Prelude.{
  String, ◌≡◌, refl, sym, subst, ◌∙◌, inl, inr, true, false, ◌||◌, List, [], ◌∷◌, ◌++◌, arith,
  str_eq, str_eq_iff, Bool-cases, All, All-map,
}
use paperless_ai_ocr.Reconcile.Checkpoint.{
  Options, slices_contains, all_fingerprints, is_fingerprint,
}

-- Each text once.
abbrev pub Distinct : List String → Type 0
Distinct [] = Unit
Distinct (x ∷ xs) = (slices_contains xs x ≡ false) × Distinct xs

abbrev pub Within : List String → List String → Type 0
Within visited = All (λ f. slices_contains visited f ≡ true)

str_eq_comm : (s t : String) → str_eq s t ≡ false → str_eq t s ≡ false
str_eq_comm s t h = elim (Bool-cases (str_eq t s)) [
  | inl e ↦ absurd (not_both (sym ((str_eq_iff s t).1 (sym ((str_eq_iff t s).0 e))) ∙ h))
  | inr n ↦ n
]
  where
    not_both : true ≡ false → ⊥
    not_both e = ground arith

pub contains-append :
    (xs : List String) (f x : String)
    → slices_contains (xs ++ f ∷ []) x ≡ slices_contains xs x || str_eq f x
unfolding slices_contains
contains-append [] f x = ground arith
contains-append (y ∷ xs) f x = let ih = contains-append xs f x in rw (ih) (ground arith)

-- A text that was not visited stands in no list of visited ones.
pub contains-Within :
    (visited fs : List String) (f : String)
    → Within visited fs
    → slices_contains visited f ≡ false
    → slices_contains fs f ≡ false
unfolding slices_contains
contains-Within visited [] f h n = refl
contains-Within visited (g ∷ fs) f h n =
    let ih = contains-Within visited fs f h.1 n in
    elim (Bool-cases (str_eq g f)) [
      | inl e ↦
          absurd (
            ground
              (arith, subst (λ x. slices_contains visited x ≡ true) ((str_eq_iff g f).0 e) h.0))
      | inr u ↦ rw (u, ih) refl
    ]

pub Within-append :
    (visited fs : List String) (f : String) → Within visited fs → Within (visited ++ f ∷ []) fs
Within-append visited fs f h =
    All-map _ _ fs (λ g e. rw (contains-append visited f g) (ground (arith, e))) h

pub contains-last :
    (visited : List String) (f : String) → slices_contains (visited ++ f ∷ []) f ≡ true
contains-last visited f = rw (contains-append visited f f, (str_eq_iff f f).1 refl) (ground arith)

contains-first : (x : String) (xs fs : List String) → Within xs fs → Within (x ∷ xs) fs
unfolding slices_contains
contains-first x xs fs h = All-map _ _ fs (λ g e. rw e (ground arith)) h

pub Within-same : (xs : List String) → Within xs xs
unfolding slices_contains
Within-same [] = tt
Within-same (x ∷ xs) = (rw ((str_eq_iff x x).1 refl) refl, contains-first x xs xs (Within-same xs))

pub Distinct-append :
    (xs : List String) (f : String)
    → Distinct xs
    → slices_contains xs f ≡ false
    → Distinct (xs ++ f ∷ [])
unfolding slices_contains
Distinct-append [] f d n = (refl, tt)
Distinct-append (x ∷ xs) f d n =
    let fresh : str_eq x f ≡ false = ground arith in
    let rest : slices_contains xs f ≡ false = ground arith in
    (rw (contains-append xs f x, d.0, str_eq_comm x f fresh) refl, Distinct-append xs f d.1 rest)

pub all_fingerprints-append :
    (o : Options) (xs : List String) (f : String)
    → all_fingerprints o xs ≡ true
    → is_fingerprint o f ≡ true
    → all_fingerprints o (xs ++ f ∷ []) ≡ true
unfolding all_fingerprints
all_fingerprints-append o [] f h e = rw e refl
all_fingerprints-append o (x ∷ xs) f h e =
    let ih = all_fingerprints-append o xs f (ground arith) e in rw (ih) (ground arith)
