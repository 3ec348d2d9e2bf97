-- ===== src/Ocr/Canonical/Again.antt =====
-- ValidateCanonical on its own result: what encoding/json is to make of the canonical JSON, and when
-- the result is validated again.
use paperless_ai_ocr.Prelude.{
  ℕ, suc, ◌+◌, ◌-◌, ◌≤◌, ◌≡◌, refl, sym, ap, subst, ◌∙◌, true, false, some, List, [], ◌∷◌, map,
  arith, leb, ◌==◌, ==_iff, length, All,
}
use paperless_ai_ocr.Saferr.{Result, ok, err, ◌>>=◌, ok_inj}
use paperless_ai_ocr.Ocr.Utf8.{valid_string}
use paperless_ai_ocr.Ocr.Model.{
  pos, Page, Batch, RawPage, max_raw_batch_bytes, max_batch_text_bytes,
}
use paperless_ai_ocr.Ocr.Valid.{valid_range, valid_text, valid_pages, valid_batch}
use paperless_ai_ocr.Ocr.Fields.{accepts_fields, is_page_field}
use paperless_ai_ocr.Ocr.Fields.Shape.{
  Json, literal, string, array, object, Items, no_items, item, no_fields, field, value_tokens,
  transcription_shape, page_objects, accepts_fields-value_tokens,
}
use paperless_ai_ocr.Ocr.Validate.{
  JsonReader, accept_fields, accept_pages, validate_pages, validate_decoded, readable, validate,
}
use paperless_ai_ocr.Ocr.Validate.Accepted.{validate-Accepted}
use paperless_ai_ocr.Ocr.Canonical.{with_canonical, marshal, validate_canonical}
use paperless_ai_ocr.Ocr.Canonical.Checked.{marshal-checked}
use paperless_ai_ocr.Ocr.Bytes.{Bytes, ascii}
use paperless_ai_ocr.Ocr.Meta.{Unicode}

abbrev pub raw_of : Page → RawPage
raw_of page = record { page = some (pos page.number); text = some page.text; refused = some false }

abbrev pub page_items : List Page → Items
page_items [] = no_items
page_items (page ∷ pages) =
    item
      (object (
        field (ascii "page") literal
          (field (ascii "text") (string page.text) (field (ascii "refused") literal no_fields))))
      (page_items pages)

-- the value that the canonical JSON is
abbrev pub canonical_value : List Page → Json
canonical_value pages = object (field (ascii "pages") (array (page_items pages)) no_fields)

-- encoding/json reads what it wrote of these pages.
pub record ReadsCanonical (json : JsonReader) (pages : List Page) : Type 0 where
  pub tokens : json.tokens (marshal pages) ≡ value_tokens (canonical_value pages) []
  pub decodes : json.decode (marshal pages) ≡ some (record { pages = some (map raw_of pages) })
  pub ends : json.ends (marshal pages) ≡ true

page_items-objects : (pages : List Page) → page_objects (page_items pages) ≡ true
unfolding is_page_field
page_items-objects [] = refl
page_items-objects (page ∷ pages) = page_items-objects pages

canonical_value-shape : (pages : List Page) → transcription_shape (canonical_value pages) ≡ true
canonical_value-shape pages = rw (page_items-objects pages)

accept_fields-raw_of :
    (unicode : Unicode) (number total : ℕ) (page : Page)
    → (page.number == number) ≡ true
    → valid_text unicode page.text ≡ true
    → leb (length page.text) (max_batch_text_bytes - total) ≡ true
    → accept_fields unicode number total (some (pos page.number)) (some page.text) (some false)
      ≡ some page
unfolding accept_fields
accept_fields-raw_of unicode number total page same valid fits =
    rw (same, valid, fits)
      (ap (λ n. some (record { number = n; text = page.text }))
        (sym ((==_iff page.number number).0 same)))

accept_pages-raw_of :
    (unicode : Unicode) (number total : ℕ) (pages : List Page)
    → valid_pages unicode number total pages ≡ true
    → accept_pages unicode number total (map raw_of pages) ≡ some pages
unfolding accept_pages valid_pages
accept_pages-raw_of unicode number total [] h = refl
accept_pages-raw_of unicode number total (page ∷ pages) h =
    let first =
      accept_fields-raw_of unicode number total page (ground arith) (ground arith) (ground arith) in
    let rest =
      accept_pages-raw_of unicode (suc number) (total + length page.text) pages (ground arith) in
    rw (first, rest)

valid_pages-strings :
    (unicode : Unicode) (number total : ℕ) (pages : List Page)
    → valid_pages unicode number total pages ≡ true
    → All (λ page. valid_string page.text ≡ true) pages
unfolding valid_pages
valid_pages-strings unicode number total [] h = tt
valid_pages-strings unicode number total (page ∷ pages) h =
    let rest = valid_pages unicode (suc number) (total + length page.text) pages in
    (
      valid_text-string unicode page.text (ground arith),
      valid_pages-strings unicode (suc number) (total + length page.text) pages (ground arith),
    )
  where
    valid_text-string :
        (unicode : Unicode) (text : Bytes)
        → valid_text unicode text ≡ true
        → valid_string text ≡ true
    valid_text-string unicode text h = unfold valid_text in ground arith

-- the checks of the raw bytes, where they are not too many
canonical-readable :
    (pages : List Page) (first_page last_page : ℕ)
    → valid_range first_page last_page ≡ true
    → valid_string (marshal pages) ≡ true
    → length (marshal pages) ≤ max_raw_batch_bytes
    → readable (marshal pages) first_page last_page ≡ true
unfolding readable
canonical-readable pages first_page last_page range valid short =
    ground (arith, length-marshal pages)
  where
    length-marshal : (pages : List Page) → 1 ≤ length (marshal pages)
    length-marshal pages = unfold marshal in omega arith

length-raw_of : (pages : List Page) → length (map raw_of pages) ≡ length pages
length-raw_of [] = refl
length-raw_of (page ∷ pages) = ap suc (length-raw_of pages)

-- what validBatch asks of a batch at its own first page
record Parts (unicode : Unicode) (batch : Batch) : Type 0 where
  range : valid_range batch.first_page batch.last_page ≡ true
  count : (length batch.pages == batch.last_page - batch.first_page + 1) ≡ true
  pages_valid : valid_pages unicode batch.first_page 0 batch.pages ≡ true

parts :
    (unicode : Unicode) (batch : Batch)
    → valid_batch unicode batch batch.first_page ≡ true
    → Parts unicode batch
unfolding valid_batch
parts unicode batch h = record {
  range = ground arith;
  count = ground arith;
  pages_valid = ground arith;
}

decoded_again :
    (unicode : Unicode) (batch : Batch)
    → Parts unicode batch
    → validate_decoded unicode batch.first_page batch.last_page true
        (some (record { pages = some (map raw_of batch.pages) }))
      ≡ ok batch
unfolding validate_decoded validate_pages
decoded_again unicode batch p = rw (
  length-raw_of batch.pages,
  p.count,
  accept_pages-raw_of unicode batch.first_page 0 batch.pages p.pages_valid,
)

-- A valid batch is read back from its canonical JSON.
canonical-validated :
    (unicode : Unicode) (json : JsonReader) (batch : Batch)
    → valid_batch unicode batch batch.first_page ≡ true
    → length (marshal batch.pages) ≤ max_raw_batch_bytes
    → ReadsCanonical json batch.pages
    → validate unicode json (marshal batch.pages) batch.first_page batch.last_page ≡ ok batch
unfolding validate
canonical-validated unicode json batch valid short reads =
    let p = parts unicode batch valid in
    let strings = valid_pages-strings unicode batch.first_page 0 batch.pages p.pages_valid in
    let (utf8, escapes, keys) = marshal-checked batch.pages strings in
    let bytes_ok =
      canonical-readable batch.pages batch.first_page batch.last_page p.range utf8 short in
    let fields : accepts_fields (json.tokens (marshal batch.pages)) ≡ true =
      ap accepts_fields reads.tokens
      ∙ accepts_fields-value_tokens (canonical_value batch.pages)
      ∙ canonical_value-shape batch.pages in
    rw (bytes_ok, escapes, keys, fields, reads.ends, reads.decodes) (decoded_again unicode batch p)

pub validate_canonical-eq-ok :
    (unicode : Unicode) (json : JsonReader) (raw canonical : Bytes) (first_page last_page : ℕ)
    (batch : Batch)
    → validate_canonical unicode json raw first_page last_page ≡ ok (batch, canonical)
    → (validate unicode json raw first_page last_page ≡ ok batch)
      × (canonical ≡ marshal batch.pages)
unfolding validate_canonical
validate_canonical-eq-ok unicode json raw canonical first_page last_page batch h =
    go (validate unicode json raw first_page last_page) h
  where
    go :
        (r : Result Batch)
        → (r >>= with_canonical) ≡ ok (batch, canonical)
        → (r ≡ ok batch) × (canonical ≡ marshal batch.pages)
    go (err e) h = absurd (cc)
    go (ok b) h =
        let e = ok_inj h in
        (ap (λ p. ok p.0) e, sym (ap (λ p. p.1) e) ∙ ap (λ p. marshal p.0.pages) e)

-- Where encoding/json reads the canonical JSON of these pages as what json.Marshal wrote, and that
-- JSON is at most 65,536 bytes long: what ValidateCanonical returned is accepted by
-- ValidateCanonical for the same pages, with the same batch and the same JSON.
pub validate_canonical-again :
    (unicode : Unicode) (json : JsonReader) (raw canonical : Bytes) (first_page last_page : ℕ)
    (batch : Batch)
    → validate_canonical unicode json raw first_page last_page ≡ ok (batch, canonical)
    → length canonical ≤ max_raw_batch_bytes
    → ReadsCanonical json batch.pages
    → validate_canonical unicode json canonical first_page last_page ≡ ok (batch, canonical)
unfolding validate_canonical
validate_canonical-again unicode json raw canonical first_page last_page batch h short reads =
    let (validated, same) =
      validate_canonical-eq-ok unicode json raw canonical first_page last_page batch h in
    let a = validate-Accepted unicode json raw first_page last_page batch validated in
    let again =
      canonical-validated unicode json batch
        (subst (λ n. valid_batch unicode batch n ≡ true) (sym a.first) a.valid)
        (subst (λ c. length c ≤ max_raw_batch_bytes) same short) reads in
    subst (λ c. (validate unicode json c first_page last_page >>= with_canonical) ≡ ok (batch, c))
      (sym same)
      (subst (λ r. (r >>= with_canonical) ≡ ok (batch, marshal batch.pages))
        (sym again ∙ (λ i. validate unicode json (marshal batch.pages) (a.first i) (a.last i)))
        refl)
