-- ===== src/Ocr/Valid.antt =====
-- validRange and validBatch of internal/ocr/validate.go.
use paperless_ai_ocr.Prelude.{
  ℕ, suc, ◌+◌, ◌-◌, Bool, true, not, ◌&&◌, List, [], ◌∷◌, ltb, leb, ◌==◌, length,
}
use paperless_ai_ocr.Text.{is_space}
use paperless_ai_ocr.Ocr.Bytes.{Bytes}
use paperless_ai_ocr.Ocr.Utf8.{runes, valid_string}
use paperless_ai_ocr.Ocr.Meta.{Unicode, suspicious_non_transcription}
use paperless_ai_ocr.Ocr.Model.{
  Page, Batch, max_raw_batch_bytes, max_page_text_bytes, max_batch_text_bytes,
}
use paperless_ai_ocr.Ocr.Model.{
  max_raw_batch_bytes, max_page_text_bytes, Page, max_batch_text_bytes,
}

unfoldable pub valid_range : ℕ → ℕ → Bool
valid_range first_page last_page =
    ltb 0 first_page && leb first_page last_page && ltb (last_page - first_page) max_raw_batch_bytes

abbrev pub all_space : List ℕ → Bool
all_space [] = true
all_space (c ∷ s) = is_space c && all_space s

-- `strings.TrimSpace(text) == ""`, for a text that is valid UTF-8
unfoldable pub blank_text : Bytes → Bool
unfolding is_space runes
blank_text text = all_space (runes text)

-- what Validate and validBatch ask of the text of a page, apart from the sum over the batch
unfoldable pub valid_text : Unicode → Bytes → Bool
unfolding valid_string blank_text suspicious_non_transcription
valid_text unicode text =
    valid_string text
    && not (blank_text text)
    && leb (length text) max_page_text_bytes
    && not (suspicious_non_transcription unicode text)

-- the loop of validBatch: the pages from a number on, after texts of a total size
unfoldable pub valid_pages : Unicode → ℕ → ℕ → List Page → Bool
valid_pages unicode number total [] = true
valid_pages unicode number total (p ∷ pages) =
    let rest = valid_pages unicode (suc number) (total + length p.text) pages in
    p.number == number
    && valid_text unicode p.text
    && leb (length p.text) (max_batch_text_bytes - total)
    && rest

unfoldable pub valid_batch : Unicode → Batch → ℕ → Bool
valid_batch unicode batch expected =
    valid_range batch.first_page batch.last_page
    && batch.first_page == expected
    && length batch.pages == batch.last_page - batch.first_page + 1
    && valid_pages unicode batch.first_page 0 batch.pages
