-- ===== src/Ocr/Fields/Shape.antt =====
-- What rejectDuplicateFields accepts of a JSON value: an object with at most the field `pages`, once,
-- that is an array of objects with distinct fields out of page, text and refused.
use paperless_ai_ocr.Prelude.{
  ℕ, zero, suc, ◌+◌, ◌≤◌, ◌≡◌, refl, inl, inr, Bool, true, false, not, ◌&&◌, none, some, List, [],
  ◌∷◌, arith, if◌then◌else◌, Bool-cases, length,
}
use paperless_ai_ocr.Ocr.Bytes.{Bytes, ascii, bytes_eq}
use paperless_ai_ocr.Ocr.Fields.{
  begin_object, end_object, begin_array, end_array, scalar, text, Tokens, more, scan_json_value,
  scan_members, is_page_field, seen_before, scan_page_fields, next_object_key, scan_page_object,
  scan_page_objects, scan_pages_array, scan_transcription_fields, scan_transcription_object,
  accepts_fields, at_end, Token,
}

mutual
  pub data Json : Type 0 where
    literal : Json
    string : Bytes → Json
    array : Items → Json
    object : Fields → Json

  pub data Items : Type 0 where
    no_items : Items
    item : Json → Items → Items

  pub data Fields : Type 0 where
    no_fields : Fields
    field : Bytes → Json → Fields → Fields

-- the tokens of a value, before others
unfoldable mutual
  pub value_tokens : Json → Tokens → Tokens
  value_tokens literal ts = scalar ∷ ts
  value_tokens (string s) ts = text s ∷ ts
  value_tokens (array is) ts = begin_array ∷ item_tokens is ts
  value_tokens (object fs) ts = begin_object ∷ field_tokens fs ts

  pub item_tokens : Items → Tokens → Tokens
  item_tokens no_items ts = end_array ∷ ts
  item_tokens (item v is) ts = value_tokens v (item_tokens is ts)

  pub field_tokens : Fields → Tokens → Tokens
  field_tokens no_fields ts = end_object ∷ ts
  field_tokens (field key v fs) ts = text key ∷ value_tokens v (field_tokens fs ts)

-- how many tokens they are
unfoldable mutual
  pub value_size : Json → ℕ
  value_size literal = 1
  value_size (string s) = 1
  value_size (array is) = suc (items_size is)
  value_size (object fs) = suc (fields_size fs)

  pub items_size : Items → ℕ
  items_size no_items = 1
  items_size (item v is) = value_size v + items_size is

  pub fields_size : Fields → ℕ
  fields_size no_fields = 1
  fields_size (field key v fs) = suc (value_size v + fields_size fs)

-- the names of the fields of a page
abbrev pub page_fields : List Bytes → Fields → Bool
page_fields seen no_fields = true
page_fields seen (field key v fs) =
    is_page_field key && not (seen_before seen key) && page_fields (key ∷ seen) fs

abbrev pub page_object : Json → Bool
page_object (object fs) = page_fields [] fs
page_object v = false

abbrev pub page_objects : Items → Bool
page_objects no_items = true
page_objects (item v is) = page_object v && page_objects is

abbrev pub pages_array : Json → Bool
pages_array (array is) = page_objects is
pages_array v = false

abbrev pub transcription_fields : Bool → Fields → Bool
transcription_fields seen_pages no_fields = true
transcription_fields seen_pages (field key v fs) =
    bytes_eq key (ascii "pages") && not seen_pages && pages_array v && transcription_fields true fs

abbrev pub transcription_shape : Json → Bool
transcription_shape (object fs) = transcription_fields false fs
transcription_shape v = false

mutual
  unfolding value_tokens value_size

  length-value_tokens :
      (v : Json) (ts : Tokens) → length (value_tokens v ts) ≡ value_size v + length ts
  length-value_tokens literal ts = omega arith
  length-value_tokens (string s) ts = omega arith
  length-value_tokens (array is) ts = omega (arith, length-item_tokens is ts)
  length-value_tokens (object fs) ts = omega (arith, length-field_tokens fs ts)

  length-item_tokens :
      (is : Items) (ts : Tokens) → length (item_tokens is ts) ≡ items_size is + length ts
  length-item_tokens no_items ts = omega arith
  length-item_tokens (item v is) ts =
      omega (arith, length-value_tokens v (item_tokens is ts), length-item_tokens is ts)

  length-field_tokens :
      (fs : Fields) (ts : Tokens) → length (field_tokens fs ts) ≡ fields_size fs + length ts
  length-field_tokens no_fields ts = omega arith
  length-field_tokens (field key v fs) ts =
      omega (arith, length-value_tokens v (field_tokens fs ts), length-field_tokens fs ts)

value_size-pos : (v : Json) → 1 ≤ value_size v
unfolding value_size
value_size-pos literal = omega arith
value_size-pos (string s) = omega arith
value_size-pos (array is) = omega arith
value_size-pos (object fs) = omega arith

items_size-pos : (is : Items) → 1 ≤ items_size is
unfolding items_size
items_size-pos no_items = omega arith
items_size-pos (item v is) = omega (arith, value_size-pos v)

fields_size-pos : (fs : Fields) → 1 ≤ fields_size fs
unfolding fields_size
fields_size-pos no_fields = omega arith
fields_size-pos (field key v fs) = omega arith

more-value_tokens : (v : Json) (ts : Tokens) → more (value_tokens v ts) ≡ true
unfolding value_tokens
more-value_tokens literal ts = refl
more-value_tokens (string s) ts = refl
more-value_tokens (array is) ts = refl
more-value_tokens (object fs) ts = refl

-- scanJSONValue passes over a value, whatever is in it.
mutual
  unfolding scan_json_value next_object_key value_tokens value_size

  scan_json_value-tokens :
      (fuel : ℕ) (v : Json) (ts : Tokens)
      → value_size v ≤ fuel
      → scan_json_value fuel (value_tokens v ts) ≡ some ts
  scan_json_value-tokens zero v ts h = absurd (omega (arith, value_size-pos v))
  scan_json_value-tokens (suc fuel) literal ts h = refl
  scan_json_value-tokens (suc fuel) (string s) ts h = refl
  scan_json_value-tokens (suc fuel) (array is) ts h = scan_members-items fuel is ts (omega arith)
  scan_json_value-tokens (suc fuel) (object fs) ts h = scan_members-fields fuel fs ts (omega arith)

  scan_members-items :
      (fuel : ℕ) (is : Items) (ts : Tokens)
      → items_size is ≤ fuel
      → scan_members fuel false (item_tokens is ts) ≡ some ts
  scan_members-items zero is ts h = absurd (omega (arith, items_size-pos is))
  scan_members-items (suc fuel) no_items ts h = refl
  scan_members-items (suc fuel) (item v is) ts h =
      rw
        (
          more-value_tokens v (item_tokens is ts),
          scan_members,
          scan_json_value-tokens fuel v (item_tokens is ts) (omega (arith, items_size-pos is)),
        )
        (scan_members-items fuel is ts (omega (arith, value_size-pos v)))

  scan_members-fields :
      (fuel : ℕ) (fs : Fields) (ts : Tokens)
      → fields_size fs ≤ fuel
      → scan_members fuel true (field_tokens fs ts) ≡ some ts
  scan_members-fields zero fs ts h = absurd (omega (arith, fields_size-pos fs))
  scan_members-fields (suc fuel) no_fields ts h = refl
  scan_members-fields (suc fuel) (field key v fs) ts h =
      rw (scan_members, scan_json_value-tokens fuel v (field_tokens fs ts) (omega arith))
        (scan_members-fields fuel fs ts (omega arith))

-- The scan of the fields of a page.
scan_page_fields-tokens :
    (fuel : ℕ) (seen : List Bytes) (fs : Fields) (ts : Tokens)
    → fields_size fs ≤ fuel
    → scan_page_fields fuel seen (field_tokens fs ts)
      ≡ (if page_fields seen fs then some ts else none)
unfolding scan_page_fields next_object_key field_tokens fields_size
scan_page_fields-tokens zero seen fs ts h = absurd (omega (arith, fields_size-pos fs))
scan_page_fields-tokens (suc fuel) seen no_fields ts h = refl
scan_page_fields-tokens (suc fuel) seen (field key v fs) ts h =
    elim (Bool-cases (is_page_field key && not (seen_before seen key))) [
      | inl t ↦
          rw (t, scan_json_value-tokens fuel v (field_tokens fs ts) (omega arith))
            (scan_page_fields-tokens fuel (key ∷ seen) fs ts (omega arith))
      | inr f ↦ rw f
    ]

scan_page_object-tokens :
    (fuel : ℕ) (v : Json) (ts : Tokens)
    → value_size v ≤ fuel
    → scan_page_object fuel (value_tokens v ts) ≡ (if page_object v then some ts else none)
unfolding scan_page_object value_tokens value_size
scan_page_object-tokens fuel literal ts h = refl
scan_page_object-tokens fuel (string s) ts h = refl
scan_page_object-tokens fuel (array is) ts h = refl
scan_page_object-tokens fuel (object fs) ts h = scan_page_fields-tokens fuel [] fs ts (omega arith)

scan_page_objects-tokens :
    (fuel : ℕ) (is : Items) (ts : Tokens)
    → items_size is ≤ fuel
    → scan_page_objects fuel (item_tokens is ts) ≡ (if page_objects is then some ts else none)
unfolding scan_page_objects item_tokens items_size
scan_page_objects-tokens zero is ts h = absurd (omega (arith, items_size-pos is))
scan_page_objects-tokens (suc fuel) no_items ts h = refl
scan_page_objects-tokens (suc fuel) (item v is) ts h =
    let first =
      scan_page_object-tokens fuel v (item_tokens is ts) (omega (arith, items_size-pos is)) in
    let rest = scan_page_objects-tokens fuel is ts (omega (arith, value_size-pos v)) in
    elim (Bool-cases (page_object v)) [
      | inl t ↦ rw (more-value_tokens v (item_tokens is ts), scan_page_objects, first, t) rest
      | inr f ↦ rw (more-value_tokens v (item_tokens is ts), scan_page_objects, first, f)
    ]

scan_pages_array-tokens :
    (fuel : ℕ) (v : Json) (ts : Tokens)
    → value_size v ≤ fuel
    → scan_pages_array fuel (value_tokens v ts) ≡ (if pages_array v then some ts else none)
unfolding scan_pages_array value_tokens value_size
scan_pages_array-tokens fuel literal ts h = refl
scan_pages_array-tokens fuel (string s) ts h = refl
scan_pages_array-tokens fuel (array is) ts h = scan_page_objects-tokens fuel is ts (omega arith)
scan_pages_array-tokens fuel (object fs) ts h = refl

scan_transcription_fields-tokens :
    (fuel : ℕ) (seen_pages : Bool) (fs : Fields) (ts : Tokens)
    → fields_size fs ≤ fuel
    → scan_transcription_fields fuel seen_pages (field_tokens fs ts)
      ≡ (if transcription_fields seen_pages fs then some ts else none)
unfolding scan_transcription_fields next_object_key field_tokens fields_size
scan_transcription_fields-tokens zero seen_pages fs ts h =
    absurd (omega (arith, fields_size-pos fs))
scan_transcription_fields-tokens (suc fuel) seen_pages no_fields ts h = refl
scan_transcription_fields-tokens (suc fuel) seen_pages (field key v fs) ts h =
    let first = scan_pages_array-tokens fuel v (field_tokens fs ts) (omega arith) in
    let rest = scan_transcription_fields-tokens fuel true fs ts (omega arith) in
    elim (Bool-cases (bytes_eq key (ascii "pages") && not seen_pages)) [
      | inl t ↦ elim (Bool-cases (pages_array v)) [
        | inl p ↦ rw (t, scan_transcription_fields, first, p) rest
        | inr q ↦ rw (t, scan_transcription_fields, first, q)
      ]
      | inr f ↦ rw (f, scan_transcription_fields)
    ]

scan_transcription_object-tokens :
    (fuel : ℕ) (v : Json) (ts : Tokens)
    → value_size v ≤ fuel
    → scan_transcription_object fuel (value_tokens v ts)
      ≡ (if transcription_shape v then some ts else none)
unfolding scan_transcription_object value_tokens value_size
scan_transcription_object-tokens fuel literal ts h = refl
scan_transcription_object-tokens fuel (string s) ts h = refl
scan_transcription_object-tokens fuel (array is) ts h = refl
scan_transcription_object-tokens fuel (object fs) ts h =
    scan_transcription_fields-tokens fuel false fs ts (omega arith)

-- On the tokens of a JSON value, rejectDuplicateFields returns no error exactly where the value is
-- an object with no other field than pages, that at most once, and pages is an array of objects
-- with distinct fields out of page, text and refused; scanJSONValue passes over any value in a
-- field.
pub accepts_fields-value_tokens :
    (v : Json) → accepts_fields (value_tokens v []) ≡ transcription_shape v
unfolding accepts_fields
accepts_fields-value_tokens v =
    rw
      (scan_transcription_object-tokens (suc (length (value_tokens v []))) v []
        (omega (arith, length-value_tokens v [])))
      (branches (transcription_shape v))
  where
    branches : (b : Bool) → at_end (if b then some [] else none) ≡ b
    branches true = refl
    branches false = refl

-- Anything that follows the value is refused.
pub accepts_fields-trailing :
    (v : Json) (t : Token) (ts : Tokens) → accepts_fields (value_tokens v (t ∷ ts)) ≡ false
unfolding accepts_fields
accepts_fields-trailing v t ts =
    rw
      (scan_transcription_object-tokens (suc (length (value_tokens v (t ∷ ts)))) v (t ∷ ts)
        (omega (arith, length-value_tokens v (t ∷ ts))))
      (branches (transcription_shape v))
  where
    branches : (b : Bool) → at_end (if b then some (t ∷ ts) else none) ≡ false
    branches true = refl
    branches false = refl
