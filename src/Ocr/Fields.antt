-- ===== src/Ocr/Fields.antt =====
-- rejectDuplicateFields of internal/ocr/validate.go, with the scanners that it calls. The decoder of
-- encoding/json is what it has left to read: its tokens, up to the end or to where the text is no
-- JSON.
pub mod Shape
use paperless_ai_ocr.Prelude.{
  ℕ, zero, suc, ◌+◌, ◌-◌, ◌*◌, ◌^◌, ◌≤◌, ◌<◌, min, max, String, ◌≡◌, refl, sym, ap, subst, ◌∙◌, ◌≢◌,
  ◌↔◌, ◌⊎◌, inl, inr, Bool, true, false, not, ◌&&◌, ◌||◌, Option, none, some, List, [], ◌∷◌, ◌++◌,
  map, arith, str_eq, str_eq_iff, ltb, leb, ◌==◌, if◌then◌else◌, holds, is_some, Bool-cases,
  Option-cases, ==_iff, and_left, and_right, length, All, updated, or_else, find-update,
  find-append, find-count, find-pos, All-found, All-map, All-update, All-append, All-find,
  All-first, All-select, All-select_self, All-of_select, first_by-min, first_by-eq-none,
  count-update, count-update-le, count-le-count, count_where-append, some_inj, count-of_find,
  update_none, count_le_rows, count-none, count-select, count_where, select_where, update_where,
  delete_where, find_where, find_where-eq-none, find_where-eq-some, first_by,
}
use paperless_ai_ocr.Text.{blank, byte_length, no_control}
use paperless_ai_ocr.Saferr.{
  Category, configuration, paperless, provider, validation, rendering, internal, Cause, canceled,
  deadline_exceeded, failure, Error, new, wrap, Result, ok, err, is_ok, reject_if, Ensures,
  returned, rejected, Ensures-ok, Ensures-err, Ensures-if, Ensures-bind, Ensures-reject, Ensures-of,
  Ensures-then, ok_inj,
}
use paperless_ai_ocr.Prelude.Options.{◌>>=◌}
use paperless_ai_ocr.Ocr.Bytes.{Bytes, ascii, bytes_eq}

pub data Token : Type 0 where
  begin_object end_object begin_array end_array scalar malformed : Token
  text : Bytes → Token

abbrev pub Tokens : Type 0
Tokens = List Token

-- decoder.Token: `none` is an error, also at the end
abbrev pub next_token : Tokens → Option (Token × Tokens)
next_token [] = none
next_token (malformed ∷ ts) = none
next_token (t ∷ ts) = some (t, ts)

-- decoder.More
abbrev pub more : Tokens → Bool
more [] = false
more (end_object ∷ ts) = false
more (end_array ∷ ts) = false
more (t ∷ ts) = true

-- `_, err = decoder.Token(); return err`
abbrev pub past_token : Tokens → Option Tokens
past_token ts = do read ← next_token ts; some read.1

-- `token != json.Delim('{')`, and the same for `[`
abbrev pub past_begin_object : Tokens → Option Tokens
past_begin_object (begin_object ∷ ts) = some ts
past_begin_object ts = none

abbrev pub past_begin_array : Tokens → Option Tokens
past_begin_array (begin_array ∷ ts) = some ts
past_begin_array ts = none

unfoldable pub next_object_key : Tokens → Option (Bytes × Tokens)
next_object_key (text key ∷ ts) = some (key, ts)
next_object_key ts = none

unfoldable pub is_page_field : Bytes → Bool
is_page_field key =
    bytes_eq key (ascii "page") || bytes_eq key (ascii "text") || bytes_eq key (ascii "refused")

-- the name of a field, where the value is an object
abbrev pub past_key : Bool → Tokens → Option Tokens
past_key false ts = some ts
past_key true ts = do named ← next_object_key ts; some named.1

-- Each call and each round of a loop costs a unit of fuel; `none` also where it runs out.
unfoldable mutual
  -- scanJSONValue
  pub scan_json_value : ℕ → Tokens → Option Tokens
  scan_json_value zero ts = none
  scan_json_value (suc fuel) [] = none
  scan_json_value (suc fuel) (begin_object ∷ ts) = scan_members fuel true ts
  scan_json_value (suc fuel) (begin_array ∷ ts) = scan_members fuel false ts
  scan_json_value (suc fuel) (end_object ∷ ts) = none
  scan_json_value (suc fuel) (end_array ∷ ts) = none
  scan_json_value (suc fuel) (malformed ∷ ts) = none
  scan_json_value (suc fuel) (scalar ∷ ts) = some ts
  scan_json_value (suc fuel) (text s ∷ ts) = some ts

  -- its loop
  pub scan_members : ℕ → Bool → Tokens → Option Tokens
  scan_members zero object ts = none
  scan_members (suc fuel) object ts = elim (more ts) [
    | true ↦
        past_key object ts >>= λ ts. scan_json_value fuel ts >>= λ ts. scan_members fuel object ts
    | false ↦ past_token ts
  ]

abbrev pub seen_before : List Bytes → Bytes → Bool
seen_before [] key = false
seen_before (s ∷ seen) key = bytes_eq s key || seen_before seen key

-- the loop of scanPageObject
unfoldable pub scan_page_fields : ℕ → List Bytes → Tokens → Option Tokens
unfolding scan_json_value next_object_key is_page_field
scan_page_fields zero seen ts = none
scan_page_fields (suc fuel) seen ts = elim (more ts) [
  | true ↦ next_object_key ts >>= λ (key, ts).
      (if is_page_field key && not (seen_before seen key) then some ts else none) >>= λ ts.
      scan_json_value fuel ts >>= λ ts. scan_page_fields fuel (key ∷ seen) ts
  | false ↦ past_token ts
]

unfoldable pub scan_page_object : ℕ → Tokens → Option Tokens
unfolding scan_page_fields
scan_page_object fuel ts = past_begin_object ts >>= λ ts. scan_page_fields fuel [] ts

-- the loop of scanPagesArray
unfoldable pub scan_page_objects : ℕ → Tokens → Option Tokens
unfolding scan_page_object
scan_page_objects zero ts = none
scan_page_objects (suc fuel) ts = elim (more ts) [
  | true ↦ scan_page_object fuel ts >>= λ ts. scan_page_objects fuel ts
  | false ↦ past_token ts
]

unfoldable pub scan_pages_array : ℕ → Tokens → Option Tokens
unfolding scan_page_objects
scan_pages_array fuel ts = past_begin_array ts >>= λ ts. scan_page_objects fuel ts

-- the loop of scanTranscriptionObject
unfoldable pub scan_transcription_fields : ℕ → Bool → Tokens → Option Tokens
unfolding next_object_key scan_pages_array
scan_transcription_fields zero seen_pages ts = none
scan_transcription_fields (suc fuel) seen_pages ts = elim (more ts) [
  | true ↦ next_object_key ts >>= λ (key, ts).
      (if bytes_eq key (ascii "pages") && not seen_pages then some ts else none) >>= λ ts.
      scan_pages_array fuel ts >>= λ ts. scan_transcription_fields fuel true ts
  | false ↦ past_token ts
]

unfoldable pub scan_transcription_object : ℕ → Tokens → Option Tokens
unfolding scan_transcription_fields
scan_transcription_object fuel ts =
    past_begin_object ts >>= λ ts. scan_transcription_fields fuel false ts

-- whether nothing is left to read: `err == io.EOF`
abbrev pub at_end : Option Tokens → Bool
at_end none = false
at_end (some []) = true
at_end (some (t ∷ ts)) = false

-- rejectDuplicateFields returns no error
unfoldable pub accepts_fields : Tokens → Bool
unfolding scan_transcription_object
accepts_fields ts = at_end (scan_transcription_object (suc (length ts)) ts)
