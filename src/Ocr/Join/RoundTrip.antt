-- ===== src/Ocr/Join/RoundTrip.antt =====
-- Reading the pages back from the content that Join writes: by its headers, each with the number of
-- the page and the length of its text.
use paperless_ai_ocr.Prelude.{
  ℕ, zero, suc, ◌+◌, ◌≤◌, ◌<◌, ◌≡◌, refl, sym, ap, ◌∙◌, ◌≢◌, ◌⊎◌, inl, inr, true, false, Option,
  none, some, List, [], ◌∷◌, ◌++◌, map, arith, ◌==◌, if◌then◌else◌, Bool-cases, length,
}
use paperless_ai_ocr.Saferr.{ok}
use mathlib.Core.List.{append_assoc}
use paperless_ai_ocr.Prelude.{length-append}
use paperless_ai_ocr.Prelude.Options.{◌>>=◌}
use paperless_ai_ocr.Worker.Plan.{count_up, count_up-append}
use paperless_ai_ocr.Ocr.Join.Sizes.{join-eq-ok, Contiguous}
use paperless_ai_ocr.Ocr.Valid.{valid_batch, valid_pages}
use paperless_ai_ocr.Ocr.Bytes.{Bytes, ascii, take, drop, take-append, drop-append, has_suffix}
use paperless_ai_ocr.Ocr.Decimal.{decimal, read_number, read_number-decimal}
use paperless_ai_ocr.Ocr.Meta.{Unicode}
use paperless_ai_ocr.Ocr.Model.{Page, Batch}
use paperless_ai_ocr.Ocr.Join.{
  Place, start, heading, past, write_pages, past_pages, write_batches, join, all_pages,
  page_separator, blank_line_padding,
}

abbrev pub strip_prefix : Bytes → Bytes → Option Bytes
strip_prefix [] s = some s
strip_prefix (b ∷ prefix) [] = none
strip_prefix (b ∷ prefix) (c ∷ s) = if b == c then strip_prefix prefix s else none

abbrev split_text : ℕ → ℕ → Bytes → Page × Bytes
split_text number size s = (record { number = number; text = take size s }, drop size s)

-- one page: its header, and as many bytes as the header says
unfoldable pub read_page : Bytes → Option (Page × Bytes)
unfolding read_number
read_page s = do
  numbered ← strip_prefix (ascii "----- PAGE ") s
  let (number, after_number) = read_number 0 numbered
  sized ← strip_prefix (ascii "; BYTES ") after_number
  let (size, after_size) = read_number 0 sized
  text ← strip_prefix (ascii " -----\n\n") after_size
  some (split_text number size text)

unfoldable pub skip_newlines : Bytes → Bytes
skip_newlines [] = []
skip_newlines (b ∷ s) = elim (b == b'\n') [ true ↦ skip_newlines s | false ↦ b ∷ s ]

-- pages between which there may be newlines; `none` also where the fuel runs out
unfoldable pub read_pages : ℕ → Bytes → Option (List Page)
unfolding skip_newlines read_page
read_pages zero s = none
read_pages (suc fuel) s = elim (skip_newlines s) [
  | [] ↦ some []
  | b ∷ s' ↦
      read_page (b ∷ s') >>= λ (page, rest). read_pages fuel rest >>= λ pages. some (page ∷ pages)
]

unfoldable pub read_content : Bytes → Option (List Page)
unfolding read_pages
read_content s = read_pages (suc (length s)) s

module _ (page : Page) (rest : Bytes) where
  abbrev after_size : Bytes
  after_size = ascii " -----\n\n" ++ (page.text ++ rest)

  abbrev after_number : Bytes
  after_number = ascii "; BYTES " ++ (decimal (length page.text) ++ after_size)

  page_layout :
      page_separator page ++ page.text ++ rest
      ≡ ascii "----- PAGE " ++ (decimal page.number ++ after_number)
  unfolding page_separator
  page_layout = simp append_assoc

  read_number-number :
      read_number 0 (decimal page.number ++ after_number) ≡ (page.number, after_number)
  read_number-number = read_number-decimal page.number b';' _ refl

  read_number-size :
      read_number 0 (decimal (length page.text) ++ after_size) ≡ (length page.text, after_size)
  read_number-size = read_number-decimal (length page.text) b' ' _ refl

  split_text-append : split_text page.number (length page.text) (page.text ++ rest) ≡ (page, rest)
  split_text-append = rw (take-append page.text rest, drop-append page.text rest)

  -- A page is read back from its header and its text.
  read_page-written : read_page (page_separator page ++ page.text ++ rest) ≡ some (page, rest)
  unfolding read_page
  read_page-written = rw (page_layout, read_number-number, read_number-size, split_text-append)

-- Between two pages there are newlines only, and no header begins with one.
blank_line_padding-cases :
    (s : Bytes)
    → (blank_line_padding s ≡ [])
      ⊎ (blank_line_padding s ≡ ascii "\n")
      ⊎ (blank_line_padding s ≡ ascii "\n\n")
unfolding blank_line_padding
blank_line_padding-cases s = elim (Bool-cases (has_suffix s (ascii "\n\n"))) [
  | inl t ↦ inl (rw t)
  | inr f ↦ elim (Bool-cases (has_suffix s (ascii "\n"))) [
    | inl t ↦ inr (inl (rw (f, t)))
    | inr g ↦ inr (inr (rw (f, g)))
  ]
]

skip_newlines-padding : (s r : Bytes) → skip_newlines (blank_line_padding s ++ r) ≡ skip_newlines r
unfolding skip_newlines
skip_newlines-padding s r = elim (blank_line_padding-cases s) [
  | inl e ↦ rw e
  | inr (inl e) ↦ rw e
  | inr (inr e) ↦ rw e
]

skip_newlines-separator :
    (page : Page) (r : Bytes) → skip_newlines (page_separator page ++ r) ≡ page_separator page ++ r
unfolding skip_newlines page_separator
skip_newlines-separator page r = refl

skip_newlines-heading :
    (place : Place) (page : Page) (r : Bytes)
    → skip_newlines (heading place page ++ r) ≡ page_separator page ++ r
unfolding heading
skip_newlines-heading place page r = elim (Bool-cases (place.expected_page == 1)) [
  | inl t ↦ rw t (skip_newlines-separator page r)
  | inr f ↦
      rw (f, append_assoc)
        (skip_newlines-padding place.previous_text (page_separator page ++ r)
          ∙ skip_newlines-separator page r)
]

read_pages-cons :
    (fuel : ℕ) (s s' rest : Bytes) (page : Page) (pages : List Page)
    → skip_newlines s ≡ s'
    → s' ≢ []
    → read_page s' ≡ some (page, rest)
    → read_pages fuel rest ≡ some pages
    → read_pages (suc fuel) s ≡ some (page ∷ pages)
unfolding read_pages
read_pages-cons fuel s [] rest page pages skipped ne e es = absurd (ne refl)
read_pages-cons fuel s (b ∷ s') rest page pages skipped ne e es = rw (skipped, read_pages, e, es)

separator-ne-nil : (page : Page) (r : Bytes) → page_separator page ++ r ≢ []
unfolding page_separator
separator-ne-nil page r e = cc

read_pages-written :
    (fuel : ℕ) (place : Place) (pages : List Page)
    → length pages < fuel
    → read_pages fuel (write_pages place pages) ≡ some pages
read_pages-written zero place pages h = absurd (omega arith)
read_pages-written (suc fuel) place [] h = unfold read_pages write_pages skip_newlines in refl
read_pages-written (suc fuel) place (page ∷ pages) h =
    read_pages-cons fuel (write_pages place (page ∷ pages))
      (page_separator page ++ page.text ++ rest) rest page pages
      (unfold write_pages in
        (rw (append_assoc (heading place page) page.text rest) (
          skip_newlines-heading place page (page.text ++ rest)
          ∙ sym (append_assoc (page_separator page) page.text rest))))
      (λ e.
        separator-ne-nil page (page.text ++ rest)
          (sym (append_assoc (page_separator page) page.text rest) ∙ e))
      (read_page-written page rest) (read_pages-written fuel (past place page) pages (omega arith))
  where
    rest : Bytes
    rest = write_pages (past place page) pages

write_pages-append :
    (place : Place) (pages more : List Page)
    → write_pages place (pages ++ more)
      ≡ write_pages place pages ++ write_pages (past_pages place pages) more
unfolding write_pages past_pages
write_pages-append place [] more = refl
write_pages-append place (page ∷ pages) more =
    ap (λ r. heading place page ++ page.text ++ r) (write_pages-append (past place page) pages more)
    ∙ sym (append_assoc (heading place page ++ page.text) (write_pages (past place page) pages) _)

-- The second pass writes the pages of all batches one after another.
write_batches-pages :
    (place : Place) (batches : List Batch)
    → write_batches place batches ≡ write_pages place (all_pages batches)
unfolding write_batches
write_batches-pages place [] = unfold write_pages in refl
write_batches-pages place (batch ∷ batches) = rw (
  write_pages-append place batch.pages (all_pages batches),
  write_batches-pages (past_pages place batch.pages) batches,
)

length-separator : (page : Page) → 1 ≤ length (page_separator page)
unfolding page_separator
length-separator page = omega arith

length-heading : (place : Place) (page : Page) → 1 ≤ length (heading place page)
unfolding heading
length-heading place page = omega (
  arith,
  length-append (if place.expected_page == 1 then [] else blank_line_padding place.previous_text)
      (page_separator page),
  length-separator page,
)

length-write_pages :
    (place : Place) (pages : List Page) → length pages ≤ length (write_pages place pages)
unfolding write_pages
length-write_pages place [] = omega arith
length-write_pages place (page ∷ pages) =
    let rest = write_pages (past place page) pages in
    ground (
      arith,
      length-append (heading place page ++ page.text) rest,
      length-append (heading place page) page.text,
      length-heading place page,
      length-write_pages (past place page) pages,
    )

-- The content that Join returns holds the pages of its batches, byte for byte and in order: read
-- page by page, each by the number and the length in its header and with the newlines between two
-- pages skipped, it gives exactly those pages, whatever their texts are.
pub join-read_content :
    (unicode : Unicode) (batches : List Batch) (content : Bytes)
    → join unicode batches ≡ ok content
    → read_content content ≡ some (all_pages batches)
unfolding read_content
join-read_content unicode batches content h =
    let e = (join-eq-ok unicode batches content h).1 ∙ write_batches-pages start batches in
    rw e (
      read_pages-written (suc (length (write_pages start (all_pages batches)))) start
        (all_pages batches) (omega (arith, length-write_pages start (all_pages batches))))

-- The pages of valid batches that follow one another.
pub valid_pages-numbers :
    (unicode : Unicode) (number total : ℕ) (pages : List Page)
    → valid_pages unicode number total pages ≡ true
    → map (λ page. page.number) pages ≡ count_up number (length pages)
unfolding valid_pages
valid_pages-numbers unicode number total [] h = refl
valid_pages-numbers unicode number total (page ∷ pages) h =
    ground (arith, valid_pages-numbers unicode (suc number) (total + length page.text) pages)

past_pages-expected :
    (place : Place) (pages : List Page)
    → (past_pages place pages).expected_page ≡ place.expected_page + length pages
unfolding past_pages
past_pages-expected place [] = omega arith
past_pages-expected place (page ∷ pages) =
    ground (arith, past_pages-expected (past place page) pages)

pub map-append :
    (pages more : List Page)
    → map (λ page. page.number) (pages ++ more)
      ≡ map (λ page. page.number) pages ++ map (λ page. page.number) more
map-append [] more = refl
map-append (page ∷ pages) more = ap (λ ns. page.number ∷ ns) (map-append pages more)

Contiguous-numbers :
    (unicode : Unicode) (place : Place) (batches : List Batch)
    → Contiguous unicode place batches
    → map (λ page. page.number) (all_pages batches)
      ≡ count_up place.expected_page (length (all_pages batches))
Contiguous-numbers unicode place [] h = refl
Contiguous-numbers unicode place (batch ∷ batches) h =
    let (first, valid) = batch_parts unicode batch place.expected_page h.0 in
    let here =
      valid_pages-numbers unicode batch.first_page 0 batch.pages valid
      ∙ ap (λ n. count_up n (length batch.pages)) first in
    let there =
      Contiguous-numbers unicode (past_pages place batch.pages) batches h.1
      ∙ ap (λ n. count_up n (length (all_pages batches))) (past_pages-expected place batch.pages) in
    map-append batch.pages (all_pages batches)
    ∙ ap (λ ns. ns ++ map (λ page. page.number) (all_pages batches)) here
    ∙ ap (λ ns. count_up place.expected_page (length batch.pages) ++ ns) there
    ∙ count_up-append place.expected_page (length batch.pages) (length (all_pages batches))
    ∙ ap (count_up place.expected_page) (sym (length-append batch.pages (all_pages batches)))
  where
    batch_parts :
        (unicode : Unicode) (batch : Batch) (expected : ℕ)
        → valid_batch unicode batch expected ≡ true
        → (batch.first_page ≡ expected)
          × (valid_pages unicode batch.first_page 0 batch.pages ≡ true)
    batch_parts unicode batch expected h = unfold valid_batch in (ground arith, ground arith)

-- Where Join succeeds, the pages of its batches are numbered from 1 on, with none missing and none
-- twice.
pub join-numbers :
    (unicode : Unicode) (batches : List Batch) (content : Bytes)
    → join unicode batches ≡ ok content
    → map (λ page. page.number) (all_pages batches) ≡ count_up 1 (length (all_pages batches))
join-numbers unicode batches content h =
    Contiguous-numbers unicode start batches (join-eq-ok unicode batches content h).0.contiguous
