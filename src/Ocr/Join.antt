-- ===== src/Ocr/Join.antt =====
-- Join of internal/ocr/validate.go: the first pass, which checks the batches and counts the bytes,
-- and the second, which writes them.
pub mod Sizes
pub mod RoundTrip
use paperless_ai_ocr.Prelude.{
  ℕ, zero, suc, ◌+◌, ◌-◌, ◌*◌, ◌^◌, ◌≤◌, ◌<◌, min, max, String, ◌≡◌, refl, sym, ap, subst, ◌∙◌, ◌≢◌,
  ◌↔◌, ◌⊎◌, inl, inr, Bool, true, false, not, ◌&&◌, ◌||◌, Option, none, some, List, [], ◌∷◌, ◌++◌,
  map, arith, str_eq, str_eq_iff, ltb, leb, ◌==◌, if◌then◌else◌, holds, is_some, Bool-cases,
  Option-cases, ==_iff, and_left, and_right, length, All, updated, or_else, find-update,
  find-append, find-count, find-pos, All-found, All-map, All-update, All-append, All-find,
  All-first, All-select, All-select_self, All-of_select, first_by-min, first_by-eq-none,
  count-update, count-update-le, count-le-count, count_where-append, some_inj, count-of_find,
  update_none, count_le_rows, count-none, count-select, count_where, select_where, update_where,
  delete_where, find_where, find_where-eq-none, find_where-eq-some, first_by,
}
use paperless_ai_ocr.Text.{blank, byte_length, no_control}
use paperless_ai_ocr.Saferr.{
  Category, configuration, paperless, provider, validation, rendering, internal, Cause, canceled,
  deadline_exceeded, failure, Error, new, wrap, Result, ok, err, is_ok, reject_if, ◌>>=◌, ◌>>◌,
  Ensures, returned, rejected, Ensures-ok, Ensures-err, Ensures-if, Ensures-bind, Ensures-reject,
  Ensures-of, Ensures-then, ok_inj,
}
use paperless_ai_ocr.Ocr.Bytes.{Bytes, ascii, has_suffix}
use paperless_ai_ocr.Ocr.Decimal.{decimal}
use paperless_ai_ocr.Ocr.Meta.{Unicode}
use paperless_ai_ocr.Ocr.Model.{Page, Batch, max_joined_content_bytes, invalid_join_error}
use paperless_ai_ocr.Ocr.Valid.{valid_batch}

unfoldable pub page_separator : Page → Bytes
unfolding decimal
page_separator page =
    ascii "----- PAGE "
    ++ decimal page.number
    ++ ascii "; BYTES "
    ++ decimal (length page.text)
    ++ ascii " -----\n\n"

unfoldable pub blank_line_padding : Bytes → Bytes
unfolding has_suffix
blank_line_padding previous_text =
    if has_suffix previous_text (ascii "\n\n")
    then []
    else if has_suffix previous_text (ascii "\n")
    then ascii "\n"
    else ascii "\n\n"

-- what the loops of Join carry: the bytes that were counted, the page that is expected, and the text
-- of the page before it
pub record Place : Type 0 where
  pub total_bytes : ℕ
  pub expected_page : ℕ
  pub previous_text : Bytes

abbrev pub start : Place
start = record { total_bytes = 0; expected_page = 1; previous_text = [] }

-- what stands before the text of a page
unfoldable pub heading : Place → Page → Bytes
unfolding blank_line_padding page_separator
heading place page =
    (if place.expected_page == 1 then [] else blank_line_padding place.previous_text)
    ++ page_separator page

abbrev pub past : Place → Page → Place
past place page = record {
  total_bytes = place.total_bytes + length (heading place page) + length page.text;
  expected_page = suc place.expected_page;
  previous_text = page.text;
}

-- the pages of one batch; `none` where the content would be too long
unfoldable pub count_pages : Place → List Page → Option Place
count_pages place [] = some place
count_pages place (page ∷ pages) =
    let rest = count_pages (past place page) pages in
    if ltb (max_joined_content_bytes - place.total_bytes) (length (heading place page))
    then none
    else if ltb (max_joined_content_bytes - (place.total_bytes + length (heading place page)))
        (length page.text)
    then none
    else rest

-- the first pass
unfoldable pub count_batches : Unicode → Option Place → List Batch → Option Place
unfolding count_pages
count_batches unicode none batches = none
count_batches unicode (some place) [] = some place
count_batches unicode (some place) (batch ∷ batches) =
    count_batches unicode
      (if valid_batch unicode batch place.expected_page
        then count_pages place batch.pages
        else none)
      batches

unfoldable pub write_pages : Place → List Page → Bytes
write_pages place [] = []
write_pages place (page ∷ pages) =
    heading place page ++ page.text ++ write_pages (past place page) pages

-- where the loop over a batch leaves off
unfoldable pub past_pages : Place → List Page → Place
past_pages place [] = place
past_pages place (page ∷ pages) = past_pages (past place page) pages

-- the second pass
unfoldable pub write_batches : Place → List Batch → Bytes
unfolding write_pages past_pages
write_batches place [] = []
write_batches place (batch ∷ batches) =
    write_pages place batch.pages ++ write_batches (past_pages place batch.pages) batches

abbrev written : Option Place → Bytes → Result Bytes
written none content = err invalid_join_error
written (some place) content = ok content

-- Join
unfoldable pub join : Unicode → List Batch → Result Bytes
unfolding count_batches write_batches
join unicode [] = err invalid_join_error
join unicode (batch ∷ batches) =
    written (count_batches unicode (some start) (batch ∷ batches))
      (write_batches start (batch ∷ batches))

-- the pages of the batches, in order
abbrev pub all_pages : List Batch → List Page
all_pages [] = []
all_pages (batch ∷ batches) = batch.pages ++ all_pages batches
