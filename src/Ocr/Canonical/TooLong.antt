-- ===== src/Ocr/Canonical/TooLong.antt =====
-- Where the canonical JSON of a valid batch is longer than Validate reads: a text of characters that
-- json.Marshal escapes, six bytes for each.
use paperless_ai_ocr.Prelude.{ℕ, zero, suc, [], ◌∷◌}
use paperless_ai_ocr.Ocr.Bytes.{Bytes}
use paperless_ai_ocr.Ocr.Model.{Page, Batch}

-- so many characters `<`
abbrev pub angles : ℕ → Bytes
angles zero = []
angles (suc n) = b'<' ∷ angles n

abbrev pub angle_page : ℕ → Page
angle_page n = record { number = 1; text = angles n }

abbrev pub angle_batch : ℕ → Batch
angle_batch n = record { first_page = 1; last_page = 1; pages = angle_page n ∷ [] }
