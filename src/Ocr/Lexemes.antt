-- ===== src/Ocr/Lexemes.antt =====
-- A description of JSON text that is independent of the loops of internal/ocr/validate.go: strings
-- made of pieces, and the bytes between strings.
use paperless_ai_ocr.Prelude.{
  ℕ, ◌+◌, ◌-◌, ◌<◌, ◌≢◌, List, [], ◌∷◌, ◌++◌, ltb, if◌then◌else◌, All, ◌/◌, ◌%◌,
}
use paperless_ai_ocr.Ocr.Bytes.{Bytes}

pub data Piece : Type 0 where
  plain escape code_unit : ℕ → Piece

pub data Lexeme : Type 0 where
  other : ℕ → Lexeme
  quoted : List Piece → Lexeme

abbrev pub hex_print : ℕ → ℕ
hex_print d = if ltb d 10 then b'0' + d else b'a' + (d - 10)

abbrev pub hex_quad : ℕ → Bytes
hex_quad v =
    hex_print (v / 4096)
    ∷ hex_print (v / 256 % 16)
    ∷ hex_print (v / 16 % 16)
    ∷ hex_print (v % 16)
    ∷ []

abbrev pub print_piece : Piece → Bytes
print_piece (plain b) = b ∷ []
print_piece (escape c) = b'\\' ∷ c ∷ []
print_piece (code_unit v) = b'\\' ∷ b'u' ∷ hex_quad v

abbrev pub print_pieces : List Piece → Bytes → Bytes
print_pieces [] rest = b'"' ∷ rest
print_pieces (p ∷ ps) rest = print_piece p ++ print_pieces ps rest

unfoldable pub print : List Lexeme → Bytes
print [] = []
print (other b ∷ ls) = b ∷ print ls
print (quoted ps ∷ ls) = b'"' ∷ print_pieces ps (print ls)

-- a plain byte begins no escape and ends no string, an escape is not `\u`, and a code unit has 16
-- bits
abbrev pub IsPiece : Piece → Type 0
IsPiece (plain b) = (b ≢ b'"') × (b ≢ b'\\')
IsPiece (escape c) = c ≢ b'u'
IsPiece (code_unit v) = v < 65_536

abbrev pub IsLexeme : Lexeme → Type 0
IsLexeme (other b) = b ≢ b'"'
IsLexeme (quoted ps) = All IsPiece ps
