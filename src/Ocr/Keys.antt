-- ===== src/Ocr/Keys.antt =====
-- literalObjectKeys and isJSONWhitespace of internal/ocr/validate.go.
use paperless_ai_ocr.Prelude.{
  ℕ, ◌<◌, ◌≡◌, refl, ap, ◌∙◌, ◌≢◌, inl, inr, Bool, true, false, not, ◌&&◌, ◌||◌, List, [], ◌∷◌,
  ◌++◌, arith, ◌==◌, Bool-cases, All, ◌/◌, ◌%◌,
}
use paperless_ai_ocr.Ocr.Bytes.{Bytes}
use paperless_ai_ocr.Ocr.Lexemes.{
  Piece, plain, escape, code_unit, Lexeme, other, quoted, hex_print, hex_quad, print_pieces, print,
  IsPiece, IsLexeme,
}

abbrev pub is_json_whitespace : ℕ → Bool
is_json_whitespace value = value == b' ' || value == b'\t' || value == b'\n' || value == b'\r'

-- the loop over `next`, and the test of the byte where it ends
unfoldable pub colon_follows : Bytes → Bool
colon_follows [] = false
colon_follows (b ∷ s) = elim (is_json_whitespace b) [ true ↦ colon_follows s | false ↦ b == b':' ]

-- Where the loops stand: between strings, or within one, with `hasEscape` and whether the byte is
-- the one behind a backslash.
pub data KeyWhere : Type 0 where
  between : KeyWhere
  within : Bool → Bool → KeyWhere

unfoldable pub scan_keys : KeyWhere → Bytes → Bool
unfolding colon_follows
scan_keys between [] = true
scan_keys between (b ∷ s) = elim (b == b'"') [
  | true ↦ scan_keys (within false false) s
  | false ↦ scan_keys between s
]
scan_keys (within has_escape behind) [] = false
scan_keys (within has_escape true) (b ∷ s) = scan_keys (within has_escape false) s
scan_keys (within has_escape false) (b ∷ s) = elim (b == b'"') [
  | true ↦ not (colon_follows s && has_escape) && scan_keys between s
  | false ↦ elim (b == b'\\') [
    | true ↦ scan_keys (within true true) s
    | false ↦ scan_keys (within has_escape false) s
  ]
]

-- literalObjectKeys
unfoldable pub literal_object_keys : Bytes → Bool
unfolding scan_keys
literal_object_keys raw = scan_keys between raw

-- whether a string has an escape
abbrev pub escaped : List Piece → Bool
escaped [] = false
escaped (plain b ∷ ps) = escaped ps
escaped (escape c ∷ ps) = true
escaped (code_unit v ∷ ps) = true

-- whether a colon comes next, behind white space: what makes a string the name of a field
abbrev pub colon_next : List Lexeme → Bool
colon_next [] = false
colon_next (quoted ps ∷ ls) = false
colon_next (other b ∷ ls) = elim (is_json_whitespace b) [ true ↦ colon_next ls | false ↦ b == b':' ]

abbrev pub literal_names : List Lexeme → Bool
literal_names [] = true
literal_names (other b ∷ ls) = literal_names ls
literal_names (quoted ps ∷ ls) = not (colon_next ls && escaped ps) && literal_names ls

colon_follows-print : (ls : List Lexeme) → colon_follows (print ls) ≡ colon_next ls
unfolding colon_follows print
colon_follows-print [] = refl
colon_follows-print (quoted ps ∷ ls) = refl
colon_follows-print (other b ∷ ls) = elim (Bool-cases (is_json_whitespace b)) [
  | inl t ↦ rw (t, colon_follows, colon_next) (colon_follows-print ls)
  | inr f ↦ rw (f, colon_follows, colon_next)
]

scan_plain :
    (has_escape : Bool) (b : ℕ) (s : Bytes)
    → b ≢ b'"'
    → b ≢ b'\\'
    → scan_keys (within has_escape false) (b ∷ s) ≡ scan_keys (within has_escape false) s
unfolding scan_keys
scan_plain has_escape b s q e =
    let not_quote : b == b'"' ≡ false = ground arith in
    let not_escape : b == b'\\' ≡ false = ground arith in rw (not_quote, not_escape, scan_keys)

scan_hex :
    (has_escape : Bool) (d : ℕ) (s : Bytes)
    → d < 16
    → scan_keys (within has_escape false) (hex_print d ∷ s) ≡ scan_keys (within has_escape false) s
scan_hex has_escape d s h = scan_plain has_escape (hex_print d) s (ground arith) (ground arith)

scan_quad :
    (v : ℕ) (s : Bytes)
    → v < 65_536
    → scan_keys (within true false) (hex_quad v ++ s) ≡ scan_keys (within true false) s
scan_quad v s h =
    scan_hex true (v / 4096) _ (omega arith)
    ∙ scan_hex true (v / 256 % 16) _ (omega arith)
    ∙ scan_hex true (v / 16 % 16) _ (omega arith)
    ∙ scan_hex true (v % 16) s (omega arith)

scan_pieces :
    (has_escape : Bool) (ps : List Piece) (rest : Bytes)
    → All IsPiece ps
    → scan_keys (within has_escape false) (print_pieces ps rest)
      ≡ (not (colon_follows rest && (has_escape || escaped ps)) && scan_keys between rest)
unfolding scan_keys
scan_pieces true [] rest h = refl
scan_pieces false [] rest h = refl
scan_pieces has_escape (plain b ∷ ps) rest h =
    scan_plain has_escape b (print_pieces ps rest) h.0.0 h.0.1 ∙ scan_pieces has_escape ps rest h.1
scan_pieces has_escape (escape c ∷ ps) rest h =
    scan_pieces true ps rest h.1
    ∙ ap (λ b. not (colon_follows rest && b) && scan_keys between rest) (ground arith)
scan_pieces has_escape (code_unit v ∷ ps) rest h =
    scan_quad v (print_pieces ps rest) h.0
    ∙ scan_pieces true ps rest h.1
    ∙ ap (λ b. not (colon_follows rest && b) && scan_keys between rest) (ground arith)

-- On such text, literalObjectKeys accepts exactly where no string that a colon follows, behind
-- white space or none, has an escape.
pub literal_object_keys-print :
    (ls : List Lexeme) → All IsLexeme ls → literal_object_keys (print ls) ≡ literal_names ls
unfolding literal_object_keys scan_keys print
literal_object_keys-print [] h = refl
literal_object_keys-print (other b ∷ ls) h =
    let q : b == b'"' ≡ false = ground arith in rw (q, scan_keys) (literal_object_keys-print ls h.1)
literal_object_keys-print (quoted ps ∷ ls) h =
    scan_pieces false ps (print ls) h.0
    ∙ ap (λ b. not (b && escaped ps) && scan_keys between (print ls)) (colon_follows-print ls)
    ∙ ap (λ b. not (colon_next ls && escaped ps) && b) (literal_object_keys-print ls h.1)
