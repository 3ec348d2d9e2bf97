-- ===== src/Ocr/Validate/Accepted.antt =====
-- What Validate accepts is what Join takes.
use paperless_ai_ocr.Prelude.{
  ℕ, suc, ◌+◌, ◌-◌, ◌≡◌, refl, subst, inl, inr, Bool, true, Option, none, some, List, [], ◌∷◌,
  arith, leb, Option-cases, length, some_inj,
}
use paperless_ai_ocr.Saferr.{◌>>◌, reject_if, Error, Result, ok}
use paperless_ai_ocr.Ocr.Bytes.{Bytes}
use paperless_ai_ocr.Ocr.Meta.{Unicode}
use paperless_ai_ocr.Ocr.Model.{
  ℤ, Page, Batch, RawPage, max_batch_text_bytes, RawBatch, invalid_transcription_error,
}
use paperless_ai_ocr.Ocr.Valid.{valid_range, valid_text, valid_pages, valid_batch}
use paperless_ai_ocr.Ocr.Validate.{
  accept_fields, accept_pages, validate_pages, Error, validate_decoded, validate, Result,
  JsonReader, reject_if, readable, false, not, accepts_fields, literal_object_keys,
  valid_json_unicode_escapes,
}

-- what holds of a page that is accepted
record AcceptedPage (unicode : Unicode) (number total : ℕ) (page : Page) : Type 0 where
  numbered : page.number ≡ number
  valid : valid_text unicode page.text ≡ true
  fits : leb (length page.text) (max_batch_text_bytes - total) ≡ true

accept_fields-accepted :
    (unicode : Unicode) (number total : ℕ) (n : Option ℤ) (text : Option Bytes)
    (refused : Option Bool) (page : Page)
    → accept_fields unicode number total n text refused ≡ some page
    → AcceptedPage unicode number total page
unfolding accept_fields
accept_fields-accepted unicode number total none text refused page h = absurd (ground arith)
accept_fields-accepted unicode number total (some z) none refused page h = absurd (ground arith)
accept_fields-accepted unicode number total (some z) (some text) none page h = absurd (ground arith)
accept_fields-accepted unicode number total (some z) (some text) (some refused) page h = record {
  numbered = ground arith;
  valid = ground arith;
  fits = ground arith;
}

accept_pages-valid :
    (unicode : Unicode) (number total : ℕ) (raws : List RawPage) (pages : List Page)
    → accept_pages unicode number total raws ≡ some pages
    → (valid_pages unicode number total pages ≡ true) × (length pages ≡ length raws)
unfolding accept_pages valid_pages
accept_pages-valid unicode number total [] pages h =
    subst (λ ps. (valid_pages unicode number total ps ≡ true) × (length ps ≡ 0))
      (some_inj [] pages h) (refl, refl)
accept_pages-valid unicode number total (raw ∷ raws) pages h =
    elim (Option-cases (accept_fields unicode number total raw.page raw.text raw.refused)) [
      | inl e ↦ absurd (none≢some (rw e at h))
      | inr (page, e) ↦
          let total' = total + length page.text in
          let p =
            accept_fields-accepted unicode number total raw.page raw.text raw.refused page e in
          elim (Option-cases (accept_pages unicode (suc number) total' raws)) [
            | inl es ↦ absurd (none≢some (rw (e, es) at h))
            | inr (rest, es) ↦
                let (valid, size) = accept_pages-valid unicode (suc number) total' raws rest es in
                subst
                  (λ ps.
                    (valid_pages unicode number total ps ≡ true) × (length ps ≡ suc (length raws)))
                  (some_inj (page ∷ rest) pages (rw (e, es) at h))
                  (ground (arith, p.numbered, p.valid, p.fits, valid), omega (arith, size))
          ]
    ]
  where
    none≢some : {ps : List Page} → none ≡ some ps → ⊥
    none≢some e = cc

-- An accepted answer is a batch of the range that was asked for, and validBatch holds of it.
pub record Accepted (unicode : Unicode) (first_page last_page : ℕ) (batch : Batch) : Type 0 where
  pub first : batch.first_page ≡ first_page
  pub last : batch.last_page ≡ last_page
  pub valid : valid_batch unicode batch first_page ≡ true

validate_pages-Accepted :
    (unicode : Unicode) (first_page last_page : ℕ) (raws : Option (List RawPage)) (batch : Batch)
    → valid_range first_page last_page ≡ true
    → validate_pages unicode first_page last_page raws ≡ ok batch
    → Accepted unicode first_page last_page batch
unfolding validate_pages valid_batch
validate_pages-Accepted unicode first_page last_page none batch range h = absurd (cc)
validate_pages-Accepted unicode first_page last_page (some raws) batch range h =
    elim (Option-cases (accept_pages unicode first_page 0 raws)) [
      | inl e ↦ absurd (ground (arith, rw e at h))
      | inr (pages, e) ↦
          let (valid, size) = accept_pages-valid unicode first_page 0 raws pages e in
          let h' = rw e at h in
          record {
            first = ground (arith, h');
            last = ground (arith, h');
            valid = ground (arith, h', valid, size, range);
          }
    ]

pub reject_if-ok {ℓ} :
    {A : Type ℓ} (b : Bool) (e : Error) (r : Result A) (a : A)
    → (reject_if b e >> r) ≡ ok a
    → (b ≡ false) × (r ≡ ok a)
reject_if-ok true e r a h = absurd (cc)
reject_if-ok false e r a h = (refl, h)

validate_decoded-Accepted :
    (unicode : Unicode) (first_page last_page : ℕ) (ends : Bool) (decoded : Option RawBatch)
    (batch : Batch)
    → valid_range first_page last_page ≡ true
    → validate_decoded unicode first_page last_page ends decoded ≡ ok batch
    → Accepted unicode first_page last_page batch
unfolding validate_decoded
validate_decoded-Accepted unicode first_page last_page ends none batch range h = absurd (cc)
validate_decoded-Accepted unicode first_page last_page ends (some decoded) batch range h =
    validate_pages-Accepted unicode first_page last_page decoded.pages batch range
      (reject_if-ok _ _ _ batch h).1

readable-range :
    (raw : Bytes) (first_page last_page : ℕ)
    → not (readable raw first_page last_page) ≡ false
    → valid_range first_page last_page ≡ true
unfolding readable
readable-range raw first_page last_page h = ground arith

-- Whatever encoding/json makes of the raw answer: a batch that Validate returns has the range that
-- was asked for, and validBatch holds of it at its first page, so that Join takes it there.
pub validate-Accepted :
    (unicode : Unicode) (json : JsonReader) (raw : Bytes) (first_page last_page : ℕ) (batch : Batch)
    → validate unicode json raw first_page last_page ≡ ok batch
    → Accepted unicode first_page last_page batch
unfolding validate
validate-Accepted unicode json raw first_page last_page batch h =
    let e = invalid_transcription_error in
    let decoded = validate_decoded unicode first_page last_page (json.ends raw) (json.decode raw) in
    let fields = reject_if (not (accepts_fields (json.tokens raw))) e >> decoded in
    let keys = reject_if (not (literal_object_keys raw)) e >> fields in
    let escapes = reject_if (not (valid_json_unicode_escapes raw)) e >> keys in
    let (bytes_ok, h1) = reject_if-ok (not (readable raw first_page last_page)) e escapes batch h in
    let h2 = reject_if-ok (not (valid_json_unicode_escapes raw)) e keys batch h1 in
    let h3 = reject_if-ok (not (literal_object_keys raw)) e fields batch h2.1 in
    let h4 = reject_if-ok (not (accepts_fields (json.tokens raw))) e decoded batch h3.1 in
    validate_decoded-Accepted unicode first_page last_page (json.ends raw) (json.decode raw) batch
      (readable-range raw first_page last_page bytes_ok) h4.1
