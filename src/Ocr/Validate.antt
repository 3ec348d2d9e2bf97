-- ===== src/Ocr/Validate.antt =====
-- Validate of internal/ocr/validate.go. What encoding/json reads of the raw answer is a parameter:
-- its tokens, what it decodes into a rawBatch with unknown fields refused, and whether only the end
-- follows.
pub mod Accepted
use paperless_ai_ocr.Prelude.{
  ℕ, zero, suc, ◌+◌, ◌-◌, ◌*◌, ◌^◌, ◌≤◌, ◌<◌, min, max, String, ◌≡◌, refl, sym, ap, subst, ◌∙◌, ◌≢◌,
  ◌↔◌, ◌⊎◌, inl, inr, Bool, true, false, not, ◌&&◌, ◌||◌, Option, none, some, List, [], ◌∷◌, ◌++◌,
  map, arith, str_eq, str_eq_iff, ltb, leb, ◌==◌, if◌then◌else◌, holds, is_some, Bool-cases,
  Option-cases, ==_iff, and_left, and_right, length, All, updated, or_else, find-update,
  find-append, find-count, find-pos, All-found, All-map, All-update, All-append, All-find,
  All-first, All-select, All-select_self, All-of_select, first_by-min, first_by-eq-none,
  count-update, count-update-le, count-le-count, count_where-append, some_inj, count-of_find,
  update_none, count_le_rows, count-none, count-select, count_where, select_where, update_where,
  delete_where, find_where, find_where-eq-none, find_where-eq-some, first_by,
}
use paperless_ai_ocr.Text.{blank, byte_length, no_control}
use paperless_ai_ocr.Saferr.{
  Category, configuration, paperless, provider, validation, rendering, internal, Cause, canceled,
  deadline_exceeded, failure, Error, new, wrap, Result, ok, err, is_ok, reject_if, ◌>>=◌, ◌>>◌,
  Ensures, returned, rejected, Ensures-ok, Ensures-err, Ensures-if, Ensures-bind, Ensures-reject,
  Ensures-of, Ensures-then, ok_inj,
}
use paperless_ai_ocr.Prelude.Options.{◌>>=◌ as and_then}
use paperless_ai_ocr.Ocr.Bytes.{Bytes}
use paperless_ai_ocr.Ocr.Utf8.{valid_string}
use paperless_ai_ocr.Ocr.Meta.{Unicode}
use paperless_ai_ocr.Ocr.Model.{
  ℤ, pos, negsuc, Page, Batch, RawPage, RawBatch, max_raw_batch_bytes, max_batch_text_bytes,
  invalid_transcription_error,
}
use paperless_ai_ocr.Ocr.Valid.{valid_range, valid_text}
use paperless_ai_ocr.Ocr.Escapes.{valid_json_unicode_escapes}
use paperless_ai_ocr.Ocr.Keys.{literal_object_keys}
use paperless_ai_ocr.Ocr.Fields.{Tokens, accepts_fields}

pub record JsonReader : Type 0 where
  pub tokens : Bytes → Tokens
  pub decode : Bytes → Option RawBatch
  pub ends : Bytes → Bool

abbrev same_number : ℤ → ℕ → Bool
same_number (pos n) number = n == number
same_number (negsuc n) number = false

-- a page of the answer where it is expected, after texts of a total size
unfoldable pub accept_fields : Unicode → ℕ → ℕ → Option ℤ → Option Bytes → Option Bool → Option Page
accept_fields unicode number total (some page) (some text) (some refused) =
    if not refused
      && same_number page number
      && valid_text unicode text
      && leb (length text) (max_batch_text_bytes - total)
    then some (record { number = number; text = text })
    else none
accept_fields unicode number total none text refused = none
accept_fields unicode number total (some page) none refused = none
accept_fields unicode number total (some page) (some text) none = none

-- the loop of Validate
unfoldable pub accept_pages : Unicode → ℕ → ℕ → List RawPage → Option (List Page)
accept_pages unicode number total [] = some []
accept_pages unicode number total (raw ∷ raws) =
    and_then (accept_fields unicode number total raw.page raw.text raw.refused) λ page.
      and_then (accept_pages unicode (suc number) (total + length page.text) raws)
        λ pages. some (page ∷ pages)

abbrev batch_of : ℕ → ℕ → Option (List Page) → Result Batch
batch_of first_page last_page none = err invalid_transcription_error
batch_of first_page last_page (some pages) =
    ok (record { first_page = first_page; last_page = last_page; pages = pages })

unfoldable pub validate_pages : Unicode → ℕ → ℕ → Option (List RawPage) → Result Batch
validate_pages unicode first_page last_page none = err invalid_transcription_error
validate_pages unicode first_page last_page (some raws) =
    reject_if (not (length raws == last_page - first_page + 1)) invalid_transcription_error
    >> batch_of first_page last_page (accept_pages unicode first_page 0 raws)

unfoldable pub validate_decoded : Unicode → ℕ → ℕ → Bool → Option RawBatch → Result Batch
validate_decoded unicode first_page last_page ends none = err invalid_transcription_error
validate_decoded unicode first_page last_page ends (some decoded) =
    reject_if (not ends) invalid_transcription_error
    >> validate_pages unicode first_page last_page decoded.pages

-- the checks of the raw bytes
unfoldable pub readable : Bytes → ℕ → ℕ → Bool
readable raw first_page last_page = not (
    not (valid_range first_page last_page)
    || length raw == 0
    || ltb max_raw_batch_bytes (length raw)
    || not (valid_string raw))

-- Validate
unfoldable pub validate : Unicode → JsonReader → Bytes → ℕ → ℕ → Result Batch
validate unicode json raw first_page last_page =
    reject_if (not (readable raw first_page last_page)) invalid_transcription_error
    >> (reject_if (not (valid_json_unicode_escapes raw)) invalid_transcription_error
        >> (reject_if (not (literal_object_keys raw)) invalid_transcription_error
            >> (reject_if (not (accepts_fields (json.tokens raw))) invalid_transcription_error
                >> validate_decoded unicode first_page last_page (json.ends raw)
                    (json.decode raw))))
