-- ===== src/Ocr/Escapes.antt =====
-- validJSONUnicodeEscapes and parseHexCodeUnit of internal/ocr/validate.go.
use paperless_ai_ocr.Prelude.{
  ℕ, zero, suc, ◌+◌, ◌-◌, ◌*◌, ◌<◌, ◌≡◌, refl, sym, ap, ◌∙◌, ◌≢◌, inl, inr, Bool, true, false, not,
  ◌&&◌, Option, none, some, List, [], ◌∷◌, ◌++◌, arith, ltb, leb, ◌==◌, if◌then◌else◌, holds,
  Bool-cases, length, All, ◌%◌, ◌/◌,
}
use paperless_ai_ocr.Ocr.Bytes.{Bytes, take, drop}
use paperless_ai_ocr.Ocr.Lexemes.{
  Piece, plain, escape, code_unit, Lexeme, other, quoted, hex_print, hex_quad, print_piece,
  print_pieces, print, IsPiece, IsLexeme,
}

unfoldable pub hex_digit : ℕ → Option ℕ
hex_digit digit =
    if leb b'0' digit && leb digit b'9'
    then some (digit - b'0')
    else if leb b'a' digit && leb digit b'f'
    then some (digit - b'a' + 10)
    else if leb b'A' digit && leb digit b'F'
    then some (digit - b'A' + 10)
    else none

-- `value <<= 4` in uint16, whose low bits the digit fills
unfoldable pub hex_value : ℕ → Bytes → Option ℕ
unfolding hex_digit
hex_value value [] = some value
hex_value value (digit ∷ s) = elim (hex_digit digit) [
  | none ↦ none
  | some d ↦ hex_value (value * 16 % 65_536 + d) s
]

-- parseHexCodeUnit, on the bytes from `start` on
unfoldable pub parse_hex_code_unit : Bytes → Option ℕ
unfolding hex_value
parse_hex_code_unit s = if ltb (length s) 4 then none else hex_value 0 (take 4 s)

abbrev pub is_high : ℕ → Bool
is_high v = leb 0xd800 v && leb v 0xdbff

abbrev pub is_low : ℕ → Bool
is_low v = leb 0xdc00 v && leb v 0xdfff

-- behind a high surrogate: the bytes of both escapes after the first backslash
unfoldable pub low_surrogate : Bytes → Option ℕ
unfolding parse_hex_code_unit
low_surrogate [] = none
low_surrogate (b ∷ []) = none
low_surrogate (b ∷ c ∷ s) =
    if b == b'\\' && c == b'u' && holds is_low (parse_hex_code_unit s) then some 11 else none

unfoldable pub unit_width : Bytes → Option ℕ → Option ℕ
unfolding low_surrogate
unit_width s none = none
unit_width s (some v) =
    if is_high v then low_surrogate (drop 4 s) else if is_low v then none else some 5

-- How many bytes of an escape follow the backslash, `none` where it is refused.
unfoldable pub escape_width : Bytes → Option ℕ
unfolding parse_hex_code_unit unit_width
escape_width [] = none
escape_width (c ∷ s) = if c == b'u' then unit_width s (parse_hex_code_unit s) else some 1

-- Where the loops stand: between strings, or within one with so many bytes to step over.
pub data Where : Type 0 where
  outside : Where
  inside : ℕ → Where

unfoldable pub scan_escapes : Where → Bytes → Bool
unfolding escape_width
scan_escapes outside [] = true
scan_escapes outside (b ∷ s) = elim (b == b'"') [
  | true ↦ scan_escapes (inside 0) s
  | false ↦ scan_escapes outside s
]
scan_escapes (inside skipped) [] = false
scan_escapes (inside (suc skipped)) (b ∷ s) = scan_escapes (inside skipped) s
scan_escapes (inside zero) (b ∷ s) = elim (b == b'"') [
  | true ↦ scan_escapes outside s
  | false ↦ elim (b == b'\\') [
    | false ↦ scan_escapes (inside 0) s
    | true ↦ elim (escape_width s) [ none ↦ false | some n ↦ scan_escapes (inside n) s ]
  ]
]

-- validJSONUnicodeEscapes
unfoldable pub valid_json_unicode_escapes : Bytes → Bool
unfolding scan_escapes
valid_json_unicode_escapes raw = scan_escapes outside raw

-- Behind a high surrogate comes a low one, and a low one stands nowhere else.
abbrev pub paired : Bool → List Piece → Bool
paired false [] = true
paired false (plain b ∷ ps) = paired false ps
paired false (escape c ∷ ps) = paired false ps
paired false (code_unit v ∷ ps) = elim (is_high v) [
  | true ↦ paired true ps
  | false ↦ not (is_low v) && paired false ps
]
paired true [] = false
paired true (plain b ∷ ps) = false
paired true (escape c ∷ ps) = false
paired true (code_unit v ∷ ps) = is_low v && paired false ps

abbrev pub all_paired : List Lexeme → Bool
all_paired [] = true
all_paired (other b ∷ ls) = all_paired ls
all_paired (quoted ps ∷ ls) = paired false ps && all_paired ls

hex_digit-hex_print : (d : ℕ) → d < 16 → hex_digit (hex_print d) ≡ some d
unfolding hex_digit
hex_digit-hex_print d h = ground arith

hex_value-cons :
    (value d : ℕ) (s : Bytes)
    → d < 16
    → hex_value value (hex_print d ∷ s) ≡ hex_value (value * 16 % 65_536 + d) s
unfolding hex_value
hex_value-cons value d s h = rw (hex_digit-hex_print d h, hex_value)

hex_value-four :
    (a b c d : ℕ)
    → a < 16
    → b < 16
    → c < 16
    → d < 16
    → hex_value 0 (hex_print a ∷ hex_print b ∷ hex_print c ∷ hex_print d ∷ [])
      ≡ some ((((0 * 16 % 65_536 + a) * 16 % 65_536 + b) * 16 % 65_536 + c) * 16 % 65_536 + d)
hex_value-four a b c d ha hb hc hd =
    let a' = 0 * 16 % 65_536 + a in
    let b' = a' * 16 % 65_536 + b in
    let c' = b' * 16 % 65_536 + c in
    hex_value-cons 0 a (hex_print b ∷ hex_print c ∷ hex_print d ∷ []) ha
    ∙ hex_value-cons a' b (hex_print c ∷ hex_print d ∷ []) hb
    ∙ hex_value-cons b' c (hex_print d ∷ []) hc
    ∙ hex_value-cons c' d [] hd
    ∙ (unfold hex_value in refl)

quad_value :
    (v : ℕ)
    → v < 65_536
    → (((0 * 16 % 65_536 + v / 4096) * 16 % 65_536 + v / 256 % 16) * 16 % 65_536 + v / 16 % 16)
          * 16
          % 65_536
        + v % 16
      ≡ v
quad_value v h = omega arith

-- A code unit is read back from its four digits.
parse_hex_code_unit-hex_quad :
    (v : ℕ) (s : Bytes) → v < 65_536 → parse_hex_code_unit (hex_quad v ++ s) ≡ some v
unfolding parse_hex_code_unit
parse_hex_code_unit-hex_quad v s h =
    let enough : ltb (length (hex_quad v ++ s)) 4 ≡ false = ground arith in
    rw enough (
      hex_value-four (v / 4096) (v / 256 % 16) (v / 16 % 16) (v % 16) (omega arith) (omega arith)
        (omega arith) (omega arith)
      ∙ ap some (quad_value v h))

low_surrogate-other : (b : ℕ) (s : Bytes) → b ≢ b'\\' → low_surrogate (b ∷ s) ≡ none
unfolding low_surrogate
low_surrogate-other b [] h = refl
low_surrogate-other b (c ∷ s) h = let f : b == b'\\' ≡ false = ground arith in rw f

low_surrogate-escape : (c : ℕ) (s : Bytes) → c ≢ b'u' → low_surrogate (b'\\' ∷ c ∷ s) ≡ none
unfolding low_surrogate
low_surrogate-escape c s h = let f : c == b'u' ≡ false = ground arith in rw f

low_surrogate-unit :
    (w : ℕ) (s : Bytes)
    → w < 65_536
    → low_surrogate (print_piece (code_unit w) ++ s) ≡ (if is_low w then some 11 else none)
unfolding low_surrogate
low_surrogate-unit w s h = rw (parse_hex_code_unit-hex_quad w s h)

abbrev carry_on : Bytes → Option ℕ → Bool
carry_on s none = false
carry_on s (some n) = scan_escapes (inside n) s

scan_escape :
    (s : Bytes) (o : Option ℕ)
    → escape_width s ≡ o
    → scan_escapes (inside 0) (b'\\' ∷ s) ≡ carry_on s o
unfolding scan_escapes
scan_escape s none e = rw (e, scan_escapes)
scan_escape s (some n) e = rw (e, scan_escapes)

scan_unit :
    (v : ℕ) (s : Bytes)
    → v < 65_536
    → scan_escapes (inside 0) (print_piece (code_unit v) ++ s)
      ≡ carry_on (b'u' ∷ hex_quad v ++ s) (unit_width (hex_quad v ++ s) (some v))
unfolding escape_width
scan_unit v s h =
    scan_escape (b'u' ∷ hex_quad v ++ s) _
      (ap (unit_width (hex_quad v ++ s)) (parse_hex_code_unit-hex_quad v s h))

scan_high :
    (v : ℕ) (s : Bytes)
    → v < 65_536
    → is_high v ≡ true
    → scan_escapes (inside 0) (print_piece (code_unit v) ++ s)
      ≡ carry_on (b'u' ∷ hex_quad v ++ s) (low_surrogate s)
unfolding unit_width
scan_high v s h t = scan_unit v s h ∙ rw t

scan_single :
    (v : ℕ) (s : Bytes)
    → v < 65_536
    → is_high v ≡ false
    → scan_escapes (inside 0) (print_piece (code_unit v) ++ s)
      ≡ (not (is_low v) && scan_escapes (inside 0) s)
unfolding unit_width scan_escapes
scan_single v s h f = scan_unit v s h ∙ rw f (branches (is_low v))
  where
    branches :
        (b : Bool)
        → carry_on (b'u' ∷ hex_quad v ++ s) (if b then none else some 5)
          ≡ (not b && scan_escapes (inside 0) s)
    branches true = refl
    branches false = refl

-- What the loop makes of the pieces of a string: from where it stands between two pieces, and from
-- behind a high surrogate.
record Scanned (ps : List Piece) (rest : Bytes) : Type 0 where
  whole :
      scan_escapes (inside 0) (print_pieces ps rest)
      ≡ (paired false ps && scan_escapes outside rest)
  behind :
      (v : ℕ)
      → carry_on (b'u' ∷ hex_quad v ++ print_pieces ps rest) (low_surrogate (print_pieces ps rest))
        ≡ (paired true ps && scan_escapes outside rest)

and_assoc : (a b c : Bool) → (a && (b && c)) ≡ (a && b && c)
and_assoc a b c = ground arith

Scanned-end : (rest : Bytes) → Scanned [] rest
unfolding scan_escapes
Scanned-end rest = record {
  whole = refl;
  behind = λ v. rw (low_surrogate-other b'"' rest (omega arith));
}

Scanned-plain :
    (b : ℕ) (ps : List Piece) (rest : Bytes)
    → IsPiece (plain b)
    → Scanned ps rest
    → Scanned (plain b ∷ ps) rest
unfolding scan_escapes
Scanned-plain b ps rest h s =
    let q : b == b'"' ≡ false = ground arith in
    let e : b == b'\\' ≡ false = ground arith in
    record {
      whole = rw (q, scan_escapes, e) s.whole;
      behind = λ v. rw (low_surrogate-other b (print_pieces ps rest) h.1);
    }

Scanned-escape :
    (c : ℕ) (ps : List Piece) (rest : Bytes)
    → IsPiece (escape c)
    → Scanned ps rest
    → Scanned (escape c ∷ ps) rest
unfolding scan_escapes
Scanned-escape c ps rest h s =
    let u : c == b'u' ≡ false = ground arith in
    record {
      whole =
          scan_escape (c ∷ print_pieces ps rest) (some 1) (unfold escape_width in rw u) ∙ s.whole;
      behind = λ v. rw (low_surrogate-escape c (print_pieces ps rest) h);
    }

paired-high :
    (w : ℕ) (ps : List Piece) → is_high w ≡ true → paired false (code_unit w ∷ ps) ≡ paired true ps
paired-high w ps t = rw (paired, t)

pub paired-single :
    (w : ℕ) (ps : List Piece)
    → is_high w ≡ false
    → paired false (code_unit w ∷ ps) ≡ (not (is_low w) && paired false ps)
paired-single w ps f = rw (paired, f)

Scanned-unit :
    (w : ℕ) (ps : List Piece) (rest : Bytes)
    → IsPiece (code_unit w)
    → Scanned ps rest
    → Scanned (code_unit w ∷ ps) rest
unfolding scan_escapes
Scanned-unit w ps rest h s = record {
  whole = elim (Bool-cases (is_high w)) [
    | inl t ↦
        scan_high w (print_pieces ps rest) h t
        ∙ s.behind w
        ∙ ap (λ b. b && scan_escapes outside rest) (sym (paired-high w ps t))
    | inr f ↦
        scan_single w (print_pieces ps rest) h f
        ∙ ap (λ b. not (is_low w) && b) s.whole
        ∙ and_assoc (not (is_low w)) (paired false ps) (scan_escapes outside rest)
        ∙ ap (λ b. b && scan_escapes outside rest) (sym (paired-single w ps f))
  ];
  behind = λ v.
      rw (low_surrogate-unit w (print_pieces ps rest) h)
        (elim (Bool-cases (is_low w)) [ inl t ↦ rw t s.whole | inr f ↦ rw f ]);
}

scanned : (ps : List Piece) (rest : Bytes) → All IsPiece ps → Scanned ps rest
scanned [] rest h = Scanned-end rest
scanned (plain b ∷ ps) rest h = Scanned-plain b ps rest h.0 (scanned ps rest h.1)
scanned (escape c ∷ ps) rest h = Scanned-escape c ps rest h.0 (scanned ps rest h.1)
scanned (code_unit w ∷ ps) rest h = Scanned-unit w ps rest h.0 (scanned ps rest h.1)

pub valid_json_unicode_escapes-print :
    (ls : List Lexeme) → All IsLexeme ls → valid_json_unicode_escapes (print ls) ≡ all_paired ls
unfolding valid_json_unicode_escapes scan_escapes print
valid_json_unicode_escapes-print [] h = refl
valid_json_unicode_escapes-print (other b ∷ ls) h =
    let q : b == b'"' ≡ false = ground arith in
    rw (q, scan_escapes) (valid_json_unicode_escapes-print ls h.1)
valid_json_unicode_escapes-print (quoted ps ∷ ls) h =
    (scanned ps (print ls) h.0).whole
    ∙ ap (λ b. paired false ps && b) (valid_json_unicode_escapes-print ls h.1)
