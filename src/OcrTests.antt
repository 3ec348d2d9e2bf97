-- ===== src/OcrTests.antt =====
-- The theorems on internal/ocr at concrete batches, answers and drafts.
use paperless_ai_ocr.Prelude.{
  ◌+◌, ◌≤◌, ◌≡◌, refl, ◌↔◌, ◌⊎◌, true, ◌&&◌, ◌||◌, some, List, [], ◌∷◌, map, arith, leb,
  if◌then◌else◌, length,
}
use paperless_ai_ocr.Saferr.{ok}
use paperless_ai_ocr.Ocr.Bytes.{Bytes, ascii}
use paperless_ai_ocr.Ocr.Utf8.{valid_string, read_bytes, read_byte, first_byte, runes}
use paperless_ai_ocr.Ocr.Draft.{bound_draft, repaired, max_draft_bytes, Truncated, bound_draft_lem}
use paperless_ai_ocr.Ocr.Meta.{Unicode, suspicious_non_transcription}
use paperless_ai_ocr.Ocr.Model.{Page, Batch, max_raw_batch_bytes}
use paperless_ai_ocr.Ocr.Valid.{valid_batch, valid_range, valid_pages, valid_text, blank_text}
use paperless_ai_ocr.Ocr.Join.{join, all_pages, write_batches, start, heading}
use paperless_ai_ocr.Ocr.Join.Sizes.{Joinable, join_iff}
use paperless_ai_ocr.Ocr.Join.RoundTrip.{read_content, join-read_content, join-numbers}
use paperless_ai_ocr.Ocr.Lexemes.{plain, code_unit, Lexeme, other, quoted, print}
use paperless_ai_ocr.Ocr.Escapes.{valid_json_unicode_escapes}
use paperless_ai_ocr.Ocr.Keys.{literal_object_keys, literal_names, literal_object_keys-print}
use paperless_ai_ocr.Ocr.Fields.{accepts_fields, next_object_key, is_page_field}
use paperless_ai_ocr.Ocr.Fields.Shape.{
  value_tokens, transcription_shape, accepts_fields-value_tokens,
}
use paperless_ai_ocr.Ocr.Validate.{
  JsonReader, validate, readable, validate_decoded, validate_pages, accept_pages, accept_fields,
}
use paperless_ai_ocr.Ocr.Validate.Accepted.{Accepted, validate-Accepted}
use paperless_ai_ocr.Ocr.Canonical.{marshal, validate_canonical}
use paperless_ai_ocr.Ocr.Canonical.Again.{raw_of, canonical_value, validate_canonical-again}
use paperless_ai_ocr.Worker.Plan.{count_up}
use paperless_ai_ocr.Ocr.Decimal.{decimal}

-- the letters of ASCII
abbrev pub ascii_tables : Unicode
ascii_tables = record {
  is_letter = λ c. leb b'A' c && leb c b'Z' || leb b'a' c && leb c b'z';
  to_lower = λ c. if leb b'A' c && leb c b'Z' then c + 32 else c;
}

abbrev two_batches : List Batch
two_batches =
    record {
      first_page = 1;
      last_page = 1;
      pages = record { number = 1; text = ascii "Hello\n" } ∷ [];
    }
    ∷ record {
      first_page = 2;
      last_page = 2;
      pages = record { number = 2; text = ascii "World" } ∷ [];
    }
    ∷ []

abbrev pub two_pages : Bytes
two_pages = ascii "----- PAGE 1; BYTES 6 -----\n\nHello\n\n----- PAGE 2; BYTES 5 -----\n\nWorld"

two_batches-join : join ascii_tables two_batches ≡ ok two_pages
unfolding join valid_batch valid_range valid_pages valid_text valid_string read_bytes read_byte
    first_byte blank_text runes suspicious_non_transcription heading decimal
two_batches-join = refl

join-read_content_example : read_content two_pages ≡ some (all_pages two_batches)
join-read_content_example = join-read_content ascii_tables two_batches two_pages two_batches-join

join-numbers_example :
    map (λ page. page.number) (all_pages two_batches) ≡ count_up 1 (length (all_pages two_batches))
join-numbers_example = join-numbers ascii_tables two_batches two_pages two_batches-join

join_iff_example :
    (join ascii_tables two_batches ≡ ok two_pages)
    ↔ (Joinable ascii_tables two_batches × (two_pages ≡ write_batches start two_batches))
join_iff_example = join_iff ascii_tables two_batches two_pages

-- `{"a":"\ud83d\ude00"}`
abbrev emoji : List Lexeme
emoji =
    other b'{'
    ∷ quoted (plain b'a' ∷ [])
    ∷ other b':'
    ∷ quoted (code_unit 0xd83d ∷ code_unit 0xde00 ∷ [])
    ∷ other b'}'
    ∷ []

literal_object_keys-print_example : literal_object_keys (print emoji) ≡ literal_names emoji
literal_object_keys-print_example = literal_object_keys-print emoji (omega arith)

abbrev hello : List Page
hello = record { number = 1; text = ascii "Hi <b>" } ∷ []

abbrev hello_batch : Batch
hello_batch = record { first_page = 1; last_page = 1; pages = hello }

-- what encoding/json reads of the answers of these tests
abbrev hello_reader : JsonReader
hello_reader = record {
  tokens = λ _. value_tokens (canonical_value hello) [];
  decode = λ _. some (record { pages = some (map raw_of hello) });
  ends = λ _. true;
}

abbrev hello_raw : Bytes
hello_raw = ascii "{ \"pages\": [{\"page\": 1, \"text\": \"Hi <b>\", \"refused\": false}]}"

accepts_fields-value_tokens_example :
    accepts_fields (value_tokens (canonical_value hello) [])
    ≡ transcription_shape (canonical_value hello)
accepts_fields-value_tokens_example = accepts_fields-value_tokens (canonical_value hello)

hello-validate : validate ascii_tables hello_reader hello_raw 1 1 ≡ ok hello_batch
unfolding validate readable valid_json_unicode_escapes literal_object_keys accepts_fields
    next_object_key is_page_field value_tokens validate_decoded validate_pages accept_pages
    accept_fields valid_range valid_text valid_string read_bytes read_byte first_byte blank_text
    runes suspicious_non_transcription
hello-validate = refl

validate-Accepted_example : Accepted ascii_tables 1 1 hello_batch
validate-Accepted_example =
    validate-Accepted ascii_tables hello_reader hello_raw 1 1 hello_batch hello-validate

hello-canonical :
    validate_canonical ascii_tables hello_reader hello_raw 1 1 ≡ ok (hello_batch, marshal hello)
unfolding validate_canonical
hello-canonical = rw hello-validate

hello-short : length (marshal hello) ≤ max_raw_batch_bytes
unfolding marshal decimal
hello-short = omega arith

validate_canonical-again_example :
    validate_canonical ascii_tables hello_reader (marshal hello) 1 1
    ≡ ok (hello_batch, marshal hello)
validate_canonical-again_example =
    validate_canonical-again ascii_tables hello_reader hello_raw (marshal hello) 1 1 hello_batch
      hello-canonical hello-short (record { tokens = refl; decodes = refl; ends = refl })

bound_draft_lem_example :
    (valid_string (bound_draft (ascii "draft")) ≡ true)
    × (length (bound_draft (ascii "draft")) ≤ max_draft_bytes)
    × ((bound_draft (ascii "draft") ≡ repaired (ascii "draft"))
        ⊎ Truncated (repaired (ascii "draft")) (bound_draft (ascii "draft")))
bound_draft_lem_example = bound_draft_lem (ascii "draft")
