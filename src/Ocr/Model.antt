-- ===== src/Ocr/Model.antt =====
-- The types and the limits of internal/ocr/validate.go. A page number of the model's answer is any
-- integer; the page ranges that the worker asks for are natural numbers.
use paperless_ai_ocr.Prelude.{ℕ, Bool, Option, List}
use paperless_ai_ocr.Saferr.{provider, Error, new}
use paperless_ai_ocr.Ocr.Bytes.{Bytes}

pub data ℤ : Type 0 where
  pos negsuc : ℕ → ℤ

abbrev pub max_raw_batch_bytes : ℕ
max_raw_batch_bytes = 65_536

abbrev pub max_page_text_bytes : ℕ
max_page_text_bytes = 32_768

abbrev pub max_batch_text_bytes : ℕ
max_batch_text_bytes = 61_440

abbrev pub max_joined_content_bytes : ℕ
max_joined_content_bytes = 16_777_216

pub record Page : Type 0 where
  pub number : ℕ
  pub text : Bytes

pub record Batch : Type 0 where
  pub first_page : ℕ
  pub last_page : ℕ
  pub pages : List Page

-- a field that the JSON leaves out, or sets to null, is `none`
pub record RawPage : Type 0 where
  pub page : Option ℤ
  pub text : Option Bytes
  pub refused : Option Bool

pub record RawBatch : Type 0 where
  pub pages : Option (List RawPage)

abbrev pub invalid_transcription_error : Error
invalid_transcription_error = new provider "AI transcription output is invalid"

abbrev pub invalid_join_error : Error
invalid_join_error = new provider "validated transcription batches are invalid"
