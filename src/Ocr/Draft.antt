-- ===== src/Ocr/Draft.antt =====
-- BoundDraft of internal/ocr/validate.go: the draft of a request is valid UTF-8 and bounded.
use paperless_ai_ocr.Prelude.{
  ℕ, zero, suc, ◌+◌, ◌-◌, ◌≤◌, ◌<◌, ◌≡◌, refl, ap, ◌⊎◌, inl, inr, Bool, true, false, some, [], ◌∷◌,
  ◌++◌, arith, leb, ◌==◌, if◌then◌else◌, Bool-cases, Option-cases, ==_iff, length, length-append,
}
use paperless_ai_ocr.Ocr.Bytes.{Bytes, ascii, take, drop, length-drop, length-take-le}
use paperless_ai_ocr.Ocr.Utf8.{
  Reading, boundary, within, first_byte, read_byte, read_bytes, at_boundary, valid_string,
  rune_width, replacement, replace_invalid, to_valid, valid_string-append,
}

abbrev pub max_draft_bytes : ℕ
max_draft_bytes = 1_048_576

abbrev pub draft_truncation_marker : Bytes
draft_truncation_marker = ascii "\n[untrusted native OCR draft truncated]"

-- `for limit > 0 && !utf8.ValidString(draft[:limit]) { limit-- }`
unfoldable pub valid_limit : ℕ → Bytes → ℕ
valid_limit zero draft = zero
valid_limit (suc limit) draft = elim (valid_string (take (suc limit) draft)) [
  | true ↦ suc limit
  | false ↦ valid_limit limit draft
]

-- the draft as the first test of BoundDraft leaves it
unfoldable pub repaired : Bytes → Bytes
repaired draft = if valid_string draft then draft else to_valid draft

unfoldable pub bounded : Bytes → Bytes
unfolding valid_limit
bounded draft =
    if leb (length draft) max_draft_bytes
    then draft
    else take (valid_limit (max_draft_bytes - length draft_truncation_marker) draft) draft
      ++ draft_truncation_marker

-- BoundDraft
unfoldable pub bound_draft : Bytes → Bytes
unfolding repaired bounded
bound_draft draft = bounded (repaired draft)

valid_limit-valid : (n : ℕ) (s : Bytes) → valid_string (take (valid_limit n s) s) ≡ true
unfolding valid_limit valid_string read_bytes
valid_limit-valid zero s = refl
valid_limit-valid (suc n) s = elim (Bool-cases (valid_string (take (suc n) s))) [
  | inl t ↦ rw (t, valid_limit) t
  | inr f ↦ rw (f, valid_limit) (valid_limit-valid n s)
]

valid_limit-le : (n : ℕ) (s : Bytes) → valid_limit n s ≤ n
unfolding valid_limit
valid_limit-le zero s = omega arith
valid_limit-le (suc n) s = ground (arith, valid_limit-le n s)

-- The loop stops no later than at a limit that leaves a valid draft.
valid_limit-ge :
    (n m : ℕ) (s : Bytes) → m ≤ n → valid_string (take m s) ≡ true → m ≤ valid_limit n s
unfolding valid_limit
valid_limit-ge zero m s le h = le
valid_limit-ge (suc n) m s le h = elim (Bool-cases (valid_string (take (suc n) s))) [
  | inl t ↦ rw (t, valid_limit) le
  | inr f ↦
      rw (f, valid_limit)
        (valid_limit-ge n m s
          (elim (Bool-cases (m == suc n)) [
            | inl e ↦
                absurd (ground (arith, ap (λ k. valid_string (take k s)) ((==_iff m (suc n)).0 e)))
            | inr ne ↦ ground arith
          ])
          h)
]

-- how many bytes there are to the end of the rune
abbrev left_of : Reading → ℕ
left_of boundary = 0
left_of (within low high more) = suc more

first_byte-left_of : (b : ℕ) (r : Reading) → first_byte b ≡ some r → left_of r ≤ 3
unfolding first_byte
first_byte-left_of b r h = ground arith

-- a boundary at most three bytes before the `n`th byte
record Near (r : Reading) (s : Bytes) (n : ℕ) : Type 0 where
  at : ℕ
  before : at ≤ n
  close : n ≤ at + 3
  whole : at_boundary (read_bytes (some r) (take at s)) ≡ true

Near-suc :
    (r r' : Reading) (b : ℕ) (s : Bytes) (n : ℕ)
    → read_byte r b ≡ some r'
    → Near r' s n
    → Near r (b ∷ s) (suc n)
unfolding read_bytes
Near-suc r r' b s n e p = record {
  at = suc p.at;
  before = omega (arith, p.before);
  close = omega (arith, p.close);
  whole = rw (e, at_boundary, read_bytes) p.whole;
}

Near-zero : (s : Bytes) (n : ℕ) → n ≤ 3 → Near boundary s n
unfolding read_bytes
Near-zero s n h = record { at = 0; before = omega arith; close = h; whole = refl }

-- Each byte that a valid string has leads from one reading to the next.
pub next_reading :
    (r : Reading) (b : ℕ) (s : Bytes)
    → at_boundary (read_bytes (some r) (b ∷ s)) ≡ true
    → (r' : Reading) × (read_byte r b ≡ some r') × (at_boundary (read_bytes (some r') s) ≡ true)
unfolding read_bytes
next_reading r b s h = elim (Option-cases (read_byte r b)) [
  | inl e ↦ absurd (ground (arith, rw (e, at_boundary, read_bytes) at h))
  | inr (r', e) ↦ (r', e, rw (e, at_boundary, read_bytes) at h)
]

within-left_of :
    (low high more b : ℕ) (r : Reading)
    → read_byte (within low high more) b ≡ some r
    → left_of r ≡ more
unfolding read_byte
within-left_of low high zero b r h = ground arith
within-left_of low high (suc more) b r h = ground arith

-- In a valid string every place has a boundary at most three bytes before it, once the rune that
-- is being read has ended.
near :
    (r : Reading) (s : Bytes) (n : ℕ)
    → n ≤ length s
    → at_boundary (read_bytes (some r) s) ≡ true
    → (n < left_of r) ⊎ Near r s n
near boundary s zero le h = inr (Near-zero s 0 (omega arith))
near (within low high more) s zero le h = inl (omega arith)
near r [] (suc n) le h = absurd (omega arith)
near boundary (b ∷ s) (suc n) le h =
    let (r', e, rest) = next_reading boundary b s h in
    elim (near r' s n (omega arith) rest) [
      | inl few ↦ inr (
          Near-zero (b ∷ s) (suc n)
            (omega (arith, few, first_byte-left_of b r' (unfold read_byte in e))))
      | inr p ↦ inr (Near-suc boundary r' b s n e p)
    ]
near (within low high more) (b ∷ s) (suc n) le h =
    let (r', e, rest) = next_reading (within low high more) b s h in
    elim (near r' s n (omega arith) rest) [
      | inl few ↦ inl (omega (arith, few, within-left_of low high more b r' e))
      | inr p ↦ inr (Near-suc (within low high more) r' b s n e p)
    ]

-- The loop gives up three bytes at most.
valid_limit-near :
    (n : ℕ) (s : Bytes) → n ≤ length s → valid_string s ≡ true → n ≤ valid_limit n s + 3
unfolding valid_string
valid_limit-near n s le h = elim (near boundary s n le h) [
  | inl few ↦ absurd (omega arith)
  | inr p ↦ omega (arith, p.close, valid_limit-ge n p.at s p.before p.whole)
]

-- A width that rune_width returns is that of a valid string.
rune_width-valid :
    (s : Bytes) (more : ℕ) → rune_width s ≡ suc more → valid_string (take (suc more) s) ≡ true
unfolding rune_width
rune_width-valid s more h = elim (Bool-cases (valid_string (take 1 s))) [
  | inl a ↦ ground (arith, a)
  | inr a ↦ ground (arith, a)
]

marks-valid : (in_run : Bool) → valid_string (if in_run then [] else replacement) ≡ true
unfolding valid_string read_bytes read_byte first_byte
marks-valid true = refl
marks-valid false = refl

replace_step :
    (in_run : Bool) (b : ℕ) (s whole_rest : Bytes) (rest : ℕ → Bytes)
    → valid_string whole_rest ≡ true
    → ((more : ℕ) → valid_string (rest more) ≡ true)
    → (w : ℕ) → rune_width (b ∷ s) ≡ w
    → valid_string (elim w [
      | zero ↦ (if in_run then [] else replacement) ++ whole_rest
      | suc more ↦ (b ∷ take more s) ++ rest more
    ])
      ≡ true
replace_step in_run b s whole_rest rest h hs zero e = valid_string-append _ _ (marks-valid in_run) h
replace_step in_run b s whole_rest rest h hs (suc more) e =
    valid_string-append (b ∷ take more s) _ (rune_width-valid (b ∷ s) more e) (hs more)

replace_invalid-valid :
    (fuel : ℕ) (in_run : Bool) (s : Bytes) → valid_string (replace_invalid fuel in_run s) ≡ true
unfolding replace_invalid
replace_invalid-valid zero in_run s = unfold valid_string read_bytes in refl
replace_invalid-valid (suc fuel) in_run [] = unfold valid_string read_bytes in refl
replace_invalid-valid (suc fuel) in_run (b ∷ s) =
    replace_step in_run b s _ (λ more. replace_invalid fuel false (drop more s))
      (replace_invalid-valid fuel true s) (λ more. replace_invalid-valid fuel false (drop more s))
      (rune_width (b ∷ s)) refl

-- More fuel than there are bytes changes nothing.
replace_invalid-enough :
    (fuel fuel' : ℕ) (in_run : Bool) (s : Bytes)
    → length s ≤ fuel
    → length s ≤ fuel'
    → replace_invalid fuel in_run s ≡ replace_invalid fuel' in_run s
unfolding replace_invalid
replace_invalid-enough zero zero in_run s h h' = refl
replace_invalid-enough zero (suc fuel') in_run [] h h' = refl
replace_invalid-enough zero (suc fuel') in_run (b ∷ s) h h' = absurd (omega arith)
replace_invalid-enough (suc fuel) zero in_run [] h h' = refl
replace_invalid-enough (suc fuel) zero in_run (b ∷ s) h h' = absurd (omega arith)
replace_invalid-enough (suc fuel) (suc fuel') in_run [] h h' = refl
replace_invalid-enough (suc fuel) (suc fuel') in_run (b ∷ s) h h' =
    same (rune_width (b ∷ s)) (replace_invalid-enough fuel fuel' true s (omega arith) (omega arith))
      (λ more.
        replace_invalid-enough fuel fuel' false (drop more s) (omega (arith, length-drop more s))
          (omega (arith, length-drop more s)))
  where
    same :
        (w : ℕ)
        → replace_invalid fuel true s ≡ replace_invalid fuel' true s
        → ((more : ℕ)
            → replace_invalid fuel false (drop more s) ≡ replace_invalid fuel' false (drop more s))
        → elim w [
          | zero ↦ (if in_run then [] else replacement) ++ replace_invalid fuel true s
          | suc more ↦ (b ∷ take more s) ++ replace_invalid fuel false (drop more s)
        ]
          ≡ elim w [
            | zero ↦ (if in_run then [] else replacement) ++ replace_invalid fuel' true s
            | suc more ↦ (b ∷ take more s) ++ replace_invalid fuel' false (drop more s)
          ]
    same zero e es = ap (λ r. (if in_run then [] else replacement) ++ r) e
    same (suc more) e es = ap (λ r. (b ∷ take more s) ++ r) (es more)

-- to_valid does not run out of fuel: more of it gives the same.
pub to_valid-enough :
    (fuel : ℕ) (s : Bytes) → length s ≤ fuel → replace_invalid fuel false s ≡ to_valid s
unfolding to_valid
to_valid-enough fuel s h = replace_invalid-enough fuel (length s) false s h (omega arith)

repaired-valid : (draft : Bytes) → valid_string (repaired draft) ≡ true
unfolding repaired to_valid
repaired-valid draft = elim (Bool-cases (valid_string draft)) [
  | inl t ↦ rw (t, repaired) t
  | inr f ↦ rw (f, repaired) (replace_invalid-valid (length draft) false draft)
]

marker-valid : valid_string draft_truncation_marker ≡ true
unfolding valid_string read_bytes read_byte first_byte
marker-valid = refl

-- What BoundDraft keeps of a draft that is too long: all but three bytes of what there is room for.
pub record Truncated (draft result : Bytes) : Type 0 where
  pub kept : ℕ
  pub appended : result ≡ take kept draft ++ draft_truncation_marker
  pub full : max_draft_bytes ≤ kept + length draft_truncation_marker + 3

truncated-le :
    (draft marker : Bytes) (most kept limit : ℕ)
    → kept ≤ limit
    → limit + length marker ≤ most
    → length (take kept draft ++ marker) ≤ most
truncated-le draft marker most kept limit h room =
    omega (arith, length-append (take kept draft) marker, length-take-le kept draft)

truncated-full :
    (marker : Bytes) (most kept : ℕ)
    → most - length marker ≤ kept + 3
    → most ≤ kept + length marker + 3
truncated-full marker most kept h = omega arith

bounded_lem :
    (draft : Bytes)
    → valid_string draft ≡ true
    → (valid_string (bounded draft) ≡ true)
      × (length (bounded draft) ≤ max_draft_bytes)
      × ((bounded draft ≡ draft) ⊎ Truncated draft (bounded draft))
unfolding bounded
bounded_lem draft h = elim (Bool-cases (leb (length draft) max_draft_bytes)) [
  | inl t ↦ rw (t, bounded) (h, ground arith, inl refl)
  | inr f ↦
      let limit = max_draft_bytes - length draft_truncation_marker in
      let kept = valid_limit limit draft in
      rw (f, bounded)
        (
          valid_string-append (take kept draft) _ (valid_limit-valid limit draft) marker-valid,
          truncated-le draft draft_truncation_marker max_draft_bytes kept limit
              (valid_limit-le limit draft) (omega arith),
          inr (record {
            kept = kept;
            appended = refl;
            full =
                truncated-full draft_truncation_marker max_draft_bytes kept
                  (valid_limit-near limit draft (ground arith) h);
          }),
        )
]

-- For any bytes, what BoundDraft returns is valid UTF-8 and at most MaxDraftBytes long; it is the
-- draft with its invalid bytes replaced, or a prefix of that before the marker, of which at most
-- three bytes less are kept than there is room for.
pub bound_draft_lem :
    (draft : Bytes)
    → (valid_string (bound_draft draft) ≡ true)
      × (length (bound_draft draft) ≤ max_draft_bytes)
      × ((bound_draft draft ≡ repaired draft) ⊎ Truncated (repaired draft) (bound_draft draft))
unfolding bound_draft
bound_draft_lem draft = bounded_lem (repaired draft) (repaired-valid draft)
