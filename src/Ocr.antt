-- ===== src/Ocr.antt =====
-- internal/ocr: what a transcription is, and how the pages of a document are joined.
pub mod Bytes
pub mod Utf8
pub mod Draft
pub mod Model
pub mod Decimal
pub mod Meta
pub mod Valid
pub mod Join
pub mod Lexemes
pub mod Escapes
pub mod Keys
pub mod Fields
pub mod Validate
pub mod Canonical
