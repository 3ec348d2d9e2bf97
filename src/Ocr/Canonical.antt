-- ===== src/Ocr/Canonical.antt =====
-- ValidateCanonical of internal/ocr/validate.go, with the JSON that json.Marshal writes of the pages:
-- the text of a page is valid UTF-8 there.
pub mod Text
pub mod Checked
pub mod Again
pub mod TooLong
use paperless_ai_ocr.Prelude.{
  ℕ, zero, suc, ◌+◌, ◌-◌, ◌*◌, ◌^◌, ◌≤◌, ◌<◌, min, max, String, ◌≡◌, refl, sym, ap, subst, ◌∙◌, ◌≢◌,
  ◌↔◌, ◌⊎◌, inl, inr, Bool, true, false, not, ◌&&◌, ◌||◌, Option, none, some, List, [], ◌∷◌, ◌++◌,
  map, arith, str_eq, str_eq_iff, ltb, leb, ◌==◌, if◌then◌else◌, holds, is_some, Bool-cases,
  Option-cases, ==_iff, and_left, and_right, length, All, updated, or_else, find-update,
  find-append, find-count, find-pos, All-found, All-map, All-update, All-append, All-find,
  All-first, All-select, All-select_self, All-of_select, first_by-min, first_by-eq-none,
  count-update, count-update-le, count-le-count, count_where-append, some_inj, count-of_find,
  update_none, count_le_rows, count-none, count-select, count_where, select_where, update_where,
  delete_where, find_where, find_where-eq-none, find_where-eq-some, first_by,
}
use paperless_ai_ocr.Text.{blank, byte_length, no_control}
use paperless_ai_ocr.Saferr.{
  Category, configuration, paperless, provider, validation, rendering, internal, Cause, canceled,
  deadline_exceeded, failure, Error, new, wrap, Result, ok, err, is_ok, reject_if, ◌>>=◌, ◌>>◌,
  Ensures, returned, rejected, Ensures-ok, Ensures-err, Ensures-if, Ensures-bind, Ensures-reject,
  Ensures-of, Ensures-then, ok_inj,
}
use paperless_ai_ocr.Ocr.Bytes.{Bytes, ascii, has_prefix}
use paperless_ai_ocr.Ocr.Decimal.{decimal}
use paperless_ai_ocr.Ocr.Meta.{Unicode}
use paperless_ai_ocr.Ocr.Model.{Page, Batch}
use paperless_ai_ocr.Ocr.Lexemes.{Piece, plain, escape, code_unit, Lexeme, other, quoted, print}
use paperless_ai_ocr.Ocr.Validate.{JsonReader, validate}

-- how a byte of a string is written: HTML is escaped too
unfoldable pub json_piece : ℕ → Piece
json_piece b =
    if b == b'"' || b == b'\\'
    then escape b
    else if b == 8
    then escape b'b'
    else if b == 12
    then escape b'f'
    else if b == b'\n'
    then escape b'n'
    else if b == b'\r'
    then escape b'r'
    else if b == b'\t'
    then escape b't'
    else if ltb b 0x20 || b == b'<' || b == b'>' || b == b'&'
    then code_unit b
    else plain b

-- U+2028 and U+2029
unfoldable pub line_separator : ℕ → Bytes → Option ℕ
line_separator b s =
    if b == 0xe2 && has_prefix s (0x80 ∷ 0xa8 ∷ [])
    then some 0x2028
    else if b == 0xe2 && has_prefix s (0x80 ∷ 0xa9 ∷ [])
    then some 0x2029
    else none

-- a string behind so many bytes that are written already
unfoldable pub json_pieces : ℕ → Bytes → List Piece
unfolding json_piece line_separator
json_pieces written [] = []
json_pieces (suc written) (b ∷ s) = json_pieces written s
json_pieces zero (b ∷ s) = elim (line_separator b s) [
  | some v ↦ code_unit v ∷ json_pieces 2 s
  | none ↦ json_piece b ∷ json_pieces 0 s
]

abbrev others : Bytes → List Lexeme
others s = map other s

abbrev name : String → Lexeme
name s = quoted (map plain (ascii s))

unfoldable pub page_lexemes : Page → List Lexeme → List Lexeme
unfolding json_pieces
page_lexemes page rest =
    other b'{'
    ∷ name "page"
    ∷ other b':'
    ∷ (others (decimal page.number)
        ++ (other b','
            ∷ name "text"
            ∷ other b':'
            ∷ quoted (json_pieces 0 page.text)
            ∷ other b','
            ∷ name "refused"
            ∷ other b':'
            ∷ (others (ascii "false") ++ (other b'}' ∷ rest))))

unfoldable pub more_pages : List Page → List Lexeme
unfolding page_lexemes
more_pages [] = others (ascii "]}")
more_pages (page ∷ pages) = other b',' ∷ page_lexemes page (more_pages pages)

abbrev pub first_pages : List Page → List Lexeme
first_pages [] = others (ascii "]}")
first_pages (page ∷ pages) = page_lexemes page (more_pages pages)

unfoldable pub canonical_lexemes : List Page → List Lexeme
unfolding more_pages
canonical_lexemes pages = other b'{' ∷ name "pages" ∷ other b':' ∷ other b'[' ∷ first_pages pages

-- json.Marshal of the canonical pages
unfoldable pub marshal : List Page → Bytes
unfolding canonical_lexemes print
marshal pages = print (canonical_lexemes pages)

abbrev pub with_canonical : Batch → Result (Batch × Bytes)
with_canonical batch = ok (batch, marshal batch.pages)

-- ValidateCanonical
unfoldable pub validate_canonical : Unicode → JsonReader → Bytes → ℕ → ℕ → Result (Batch × Bytes)
unfolding validate marshal
validate_canonical unicode json raw first_page last_page =
    validate unicode json raw first_page last_page >>= with_canonical
