-- ===== src/Ocr/Canonical/Checked.antt =====
-- The canonical JSON of ValidateCanonical under the checks of Validate of the raw bytes.
use paperless_ai_ocr.Prelude.{
  ℕ, zero, suc, ◌/◌, ◌<◌, ◌≡◌, refl, ap, ◌∙◌, ◌≢◌, ◌⊎◌, inl, inr, Bool, true, false, ◌&&◌, ◌||◌,
  none, some, List, [], ◌∷◌, ◌++◌, map, arith, ltb, ◌==◌, Bool-cases, All, All-map, if-cases,
}
use paperless_ai_ocr.Ocr.Bytes.{Bytes, ascii}
use paperless_ai_ocr.Ocr.Model.{Page}
use paperless_ai_ocr.Ocr.Decimal.{decimal, digits}
use paperless_ai_ocr.Ocr.Canonical.{
  json_piece, line_separator, json_pieces, page_lexemes, more_pages, first_pages, canonical_lexemes,
  marshal,
}
use paperless_ai_ocr.Ocr.Lexemes.{
  Piece, plain, escape, code_unit, Lexeme, other, quoted, print, print_pieces, IsPiece, IsLexeme,
}
use paperless_ai_ocr.Ocr.Utf8.{read_bytes, valid_string, valid_string-append, at_boundary}
use paperless_ai_ocr.Ocr.Canonical.Text.{read_bytes-ascii, json_pieces-valid}
use paperless_ai_ocr.Ocr.Escapes.{
  is_high, is_low, paired-single, paired, all_paired, valid_json_unicode_escapes,
  valid_json_unicode_escapes-print,
}
use paperless_ai_ocr.Ocr.Keys.{
  colon_next, escaped, literal_names, literal_object_keys, literal_object_keys-print,
}

-- a code unit that is no surrogate
abbrev IsSafe : Piece → Type 0
IsSafe (plain b) = (b ≢ b'"') × (b ≢ b'\\')
IsSafe (escape c) = c < 0x80 × (c ≢ b'u')
IsSafe (code_unit v) = v < 0xd800

json_piece-IsSafe : (b : ℕ) → IsSafe (json_piece b)
unfolding json_piece
json_piece-IsSafe b =
    if-cases IsSafe (b == b'"' || b == b'\\') (λ t. ground arith)
      λ special.
        if-cases IsSafe (b == 8) (λ _. omega arith)
          λ _.
            if-cases IsSafe (b == 12) (λ _. omega arith)
              λ _.
                if-cases IsSafe (b == b'\n') (λ _. omega arith)
                  λ _.
                    if-cases IsSafe (b == b'\r') (λ _. omega arith)
                      λ _.
                        if-cases IsSafe (b == b'\t') (λ _. omega arith)
                          λ _.
                            if-cases IsSafe (ltb b 0x20 || b == b'<' || b == b'>' || b == b'&')
                              (λ t. ground arith) (λ _. ground arith)

line_separator-cases :
    (b : ℕ) (s : Bytes)
    → (line_separator b s ≡ none) ⊎ ((v : ℕ) × (line_separator b s ≡ some v) × (v < 0xd800))
unfolding line_separator
line_separator-cases b s = ground arith

json_pieces-IsSafe : (written : ℕ) (s : Bytes) → All IsSafe (json_pieces written s)
unfolding json_pieces
json_pieces-IsSafe written [] = tt
json_pieces-IsSafe (suc written) (b ∷ s) = json_pieces-IsSafe written s
json_pieces-IsSafe zero (b ∷ s) = elim (line_separator-cases b s) [
  | inl e ↦ rw (e, json_pieces) (json_piece-IsSafe b, json_pieces-IsSafe 0 s)
  | inr (v, e, small) ↦ rw (e, json_pieces) (small, json_pieces-IsSafe 2 s)
]

json_piece-IsPiece : (p : Piece) → IsSafe p → IsPiece p
json_piece-IsPiece (plain b) h = h
json_piece-IsPiece (escape c) h = h.1
json_piece-IsPiece (code_unit v) h = omega arith

paired-safe : (ps : List Piece) → All IsSafe ps → paired false ps ≡ true
paired-safe [] h = refl
paired-safe (plain b ∷ ps) h = paired-safe ps h.1
paired-safe (escape c ∷ ps) h = paired-safe ps h.1
paired-safe (code_unit v ∷ ps) h =
    let high : is_high v ≡ false = ground (arith, h.0) in
    let low : is_low v ≡ false = ground (arith, h.0) in
    rw (paired-single v ps high, low) (paired-safe ps h.1)

-- what the checks of the raw bytes ask of the rest of a text
record Good (ls : List Lexeme) : Type 0 where
  lexemes : All IsLexeme ls
  surrogates : all_paired ls ≡ true
  names : literal_names ls ≡ true
  valid : valid_string (print ls) ≡ true

Good-nil : Good []
Good-nil = record {
  lexemes = tt;
  surrogates = refl;
  names = refl;
  valid = unfold valid_string read_bytes print in refl;
}

ascii_valid : (b : ℕ) → b < 0x80 → valid_string (b ∷ []) ≡ true
unfolding valid_string read_bytes
ascii_valid b low = ap at_boundary (read_bytes-ascii (b ∷ []) [] (low, tt))

Good-other : (b : ℕ) (ls : List Lexeme) → b < 0x80 → b ≢ b'"' → Good ls → Good (other b ∷ ls)
unfolding print
Good-other b ls low quote g = record {
  lexemes = (quote, g.lexemes);
  surrogates = g.surrogates;
  names = g.names;
  valid = valid_string-append (b ∷ []) (print ls) (ascii_valid b low) g.valid;
}

abbrev IsOther : ℕ → Type 0
IsOther b = b < 0x80 × (b ≢ b'"')

Good-others : (s : Bytes) (ls : List Lexeme) → All IsOther s → Good ls → Good (map other s ++ ls)
Good-others [] ls h g = g
Good-others (b ∷ s) ls h g = Good-other b (map other s ++ ls) h.0.0 h.0.1 (Good-others s ls h.1 g)

Good-quoted :
    (ps : List Piece) (ls : List Lexeme)
    → All IsSafe ps
    → valid_string (b'"' ∷ print_pieces ps (print ls)) ≡ true
    → (colon_next ls && escaped ps) ≡ false
    → Good ls
    → Good (quoted ps ∷ ls)
unfolding print
Good-quoted ps ls safe valid no_escape g = record {
  lexemes = (All-map IsSafe IsPiece ps json_piece-IsPiece safe, g.lexemes);
  surrogates = rw (paired-safe ps safe) g.surrogates;
  names = rw no_escape g.names;
  valid = valid;
}

digits-IsOther : (fuel n : ℕ) (out : Bytes) → All IsOther out → All IsOther (digits fuel n out)
unfolding digits
digits-IsOther zero n out h = ((omega arith, omega arith), h)
digits-IsOther (suc fuel) n out h = elim (Bool-cases (ltb n 10)) [
  | inl t ↦ rw (t, digits) ((ground arith, ground arith), h)
  | inr f ↦ rw (f, digits) (digits-IsOther fuel (n / 10) _ ((omega arith, omega arith), h))
]

decimal-IsOther : (n : ℕ) → All IsOther (decimal n)
unfolding decimal
decimal-IsOther n = digits-IsOther n n [] tt

-- a name of a field, which nothing in it escapes
abbrev IsNameByte : ℕ → Type 0
IsNameByte b = b < 0x80 × (b ≢ b'"') × (b ≢ b'\\')

name-IsSafe : (s : Bytes) → All IsNameByte s → All IsSafe (map plain s)
name-IsSafe [] h = tt
name-IsSafe (b ∷ s) h = ((h.0.1, h.0.2), name-IsSafe s h.1)

name-escaped : (s : Bytes) → escaped (map plain s) ≡ false
name-escaped [] = refl
name-escaped (b ∷ s) = name-escaped s

name-valid :
    (s rest : Bytes)
    → All IsNameByte s
    → valid_string rest ≡ true
    → valid_string (print_pieces (map plain s) rest) ≡ true
name-valid [] rest h after =
    valid_string-append (b'"' ∷ []) rest (ascii_valid b'"' (omega arith)) after
name-valid (b ∷ s) rest h after =
    valid_string-append (b ∷ []) _ (ascii_valid b h.0.0) (name-valid s rest h.1 after)

no_escape : (a b : Bool) → b ≡ false → (a && b) ≡ false
no_escape a b h = ground arith

quote_valid : (s : Bytes) → valid_string s ≡ true → valid_string (b'"' ∷ s) ≡ true
quote_valid s h = valid_string-append (b'"' ∷ []) s (ascii_valid b'"' (omega arith)) h

Good-name :
    (s : Bytes) (ls : List Lexeme) → All IsNameByte s → Good ls → Good (quoted (map plain s) ∷ ls)
Good-name s ls h g =
    Good-quoted (map plain s) ls (name-IsSafe s h)
      (quote_valid _ (name-valid s (print ls) h g.valid))
      (no_escape (colon_next ls) (escaped (map plain s)) (name-escaped s)) g

Good-text :
    (text : Bytes) (ls : List Lexeme)
    → valid_string text ≡ true
    → colon_next ls ≡ false
    → Good ls
    → Good (quoted (json_pieces 0 text) ∷ ls)
Good-text text ls h not_name g =
    Good-quoted (json_pieces 0 text) ls (json_pieces-IsSafe 0 text)
      (quote_valid _ (json_pieces-valid text (print ls) h g.valid)) (rw not_name) g

Good-page :
    (page : Page) (ls : List Lexeme)
    → valid_string page.text ≡ true
    → Good ls
    → Good (page_lexemes page ls)
unfolding page_lexemes
Good-page page ls h g = Good-other b'{' _ (omega arith) (omega arith) (
    Good-name (ascii "page") _ (omega arith) (
      Good-other b':' _ (omega arith) (omega arith) (
        Good-others (decimal page.number) _ (decimal-IsOther page.number) (
          Good-other b',' _ (omega arith) (omega arith) (
            Good-name (ascii "text") _ (omega arith) (
              Good-other b':' _ (omega arith) (omega arith) (
                Good-text page.text _ h refl (
                  Good-other b',' _ (omega arith) (omega arith) (
                    Good-name (ascii "refused") _ (omega arith) (
                      Good-other b':' _ (omega arith) (omega arith) (
                        Good-others (ascii "false") _ (omega arith)
                          (Good-other b'}' ls (omega arith) (omega arith) g))))))))))))

Good-more :
    (pages : List Page)
    → All (λ page. valid_string page.text ≡ true) pages
    → Good (more_pages pages)
unfolding more_pages
Good-more [] h = Good-others (ascii "]}") [] (omega arith) Good-nil
Good-more (page ∷ pages) h =
    Good-other b',' _ (omega arith) (omega arith)
      (Good-page page (more_pages pages) h.0 (Good-more pages h.1))

Good-first :
    (pages : List Page)
    → All (λ page. valid_string page.text ≡ true) pages
    → Good (first_pages pages)
Good-first [] h = Good-others (ascii "]}") [] (omega arith) Good-nil
Good-first (page ∷ pages) h = Good-page page (more_pages pages) h.0 (Good-more pages h.1)

Good-canonical :
    (pages : List Page)
    → All (λ page. valid_string page.text ≡ true) pages
    → Good (canonical_lexemes pages)
unfolding canonical_lexemes
Good-canonical pages h = Good-other b'{' _ (omega arith) (omega arith) (
    Good-name (ascii "pages") _ (omega arith) (
      Good-other b':' _ (omega arith) (omega arith)
        (Good-other b'[' _ (omega arith) (omega arith) (Good-first pages h))))

-- The canonical JSON of pages whose texts are valid UTF-8 passes each check of the bytes but that of
-- their number.
pub marshal-checked :
    (pages : List Page)
    → All (λ page. valid_string page.text ≡ true) pages
    → (valid_string (marshal pages) ≡ true)
      × (valid_json_unicode_escapes (marshal pages) ≡ true)
      × (literal_object_keys (marshal pages) ≡ true)
unfolding marshal
marshal-checked pages h =
    let g = Good-canonical pages h in
    (
      g.valid,
      valid_json_unicode_escapes-print (canonical_lexemes pages) g.lexemes ∙ g.surrogates,
      literal_object_keys-print (canonical_lexemes pages) g.lexemes ∙ g.names,
    )
