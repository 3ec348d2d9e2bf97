-- ===== src/Ocr/Canonical/Text.antt =====
-- The text of a page, as json.Marshal writes it, is valid UTF-8 where the text is.
use paperless_ai_ocr.Prelude.{
  ℕ, zero, suc, ◌≤◌, ◌<◌, ◌≡◌, refl, sym, ap, subst, ◌∙◌, ◌⊎◌, inl, inr, true, ◌&&◌, ◌||◌, none,
  some, [], ◌∷◌, ◌++◌, arith, ltb, leb, ◌==◌, Bool-cases, and_left, and_right, length, All, ◌/◌,
  ◌%◌,
}
use paperless_ai_ocr.Prelude.{if-cases}
use paperless_ai_ocr.Ocr.Bytes.{Bytes, has_prefix, drop, length-drop}
use paperless_ai_ocr.Ocr.Utf8.{
  Reading, boundary, within, first_byte, read_byte, read_bytes, valid_string, at_boundary,
}
use paperless_ai_ocr.Ocr.Draft.{next_reading}
use paperless_ai_ocr.Ocr.Lexemes.{
  Piece, plain, escape, code_unit, print_pieces, print_piece, hex_print, hex_quad,
}
use paperless_ai_ocr.Ocr.Canonical.{json_piece, line_separator, json_pieces}

pub IsAscii : Bytes → Type 0
IsAscii s = All (λ b. b < 0x80) s

first_byte-ascii : (b : ℕ) → b < 0x80 → first_byte b ≡ some boundary
unfolding first_byte
first_byte-ascii b h = ground arith

-- ASCII bytes lead from a boundary to a boundary.
pub read_bytes-ascii :
    (s rest : Bytes)
    → All (λ b. b < 0x80) s
    → read_bytes (some boundary) (s ++ rest) ≡ read_bytes (some boundary) rest
unfolding read_bytes read_byte
read_bytes-ascii [] rest h = refl
read_bytes-ascii (b ∷ s) rest h =
    rw (first_byte-ascii b h.0, read_bytes) (read_bytes-ascii s rest h.1)

hex_print-ascii : (d : ℕ) → d < 16 → hex_print d < 0x80
hex_print-ascii d h = ground arith

-- a piece that is written in ASCII
abbrev Narrow : Piece → Type 0
Narrow (plain b) = b < 0x80
Narrow (escape c) = c < 0x80
Narrow (code_unit v) = v < 65_536

print_piece-ascii : (p : Piece) → Narrow p → All (λ b. b < 0x80) (print_piece p)
print_piece-ascii (plain b) h = (h, tt)
print_piece-ascii (escape c) h = (omega arith, (h, tt))
print_piece-ascii (code_unit v) h = (omega arith, (omega arith, quad_ascii v h))
  where
    quad_ascii : (v : ℕ) → v < 65_536 → All (λ b. b < 0x80) (hex_quad v)
    quad_ascii v h = (
      hex_print-ascii (v / 4096) (omega arith),
      (
        hex_print-ascii (v / 256 % 16) (omega arith),
        (hex_print-ascii (v / 16 % 16) (omega arith), (hex_print-ascii (v % 16) (omega arith), tt)),
      ),
    )

json_piece-Narrow : (b : ℕ) → b < 0x80 → Narrow (json_piece b)
unfolding json_piece
json_piece-Narrow b h =
    if-cases Narrow (b == b'"' || b == b'\\') (λ _. h)
      λ _.
        if-cases Narrow (b == 8) (λ _. omega arith)
          λ _.
            if-cases Narrow (b == 12) (λ _. omega arith)
              λ _.
                if-cases Narrow (b == b'\n') (λ _. omega arith)
                  λ _.
                    if-cases Narrow (b == b'\r') (λ _. omega arith)
                      λ _.
                        if-cases Narrow (b == b'\t') (λ _. omega arith)
                          λ _.
                            if-cases Narrow (ltb b 0x20 || b == b'<' || b == b'>' || b == b'&')
                              (λ _. omega arith) (λ _. h)

json_piece-wide : (b : ℕ) → 0x80 ≤ b → json_piece b ≡ plain b
unfolding json_piece
json_piece-wide b h = ground arith

-- within a rune only bytes from 0x80 to 0xbf are read
abbrev IsReading : Reading → Type 0
IsReading boundary = Unit
IsReading (within low high more) = 0x80 ≤ low × high ≤ 0xbf

first_byte-reading : (b : ℕ) (r : Reading) → first_byte b ≡ some r → IsReading r
unfolding first_byte
first_byte-reading b boundary h = tt
first_byte-reading b (within low high more) h = (ground arith, ground arith)

read_byte-reading : (r r' : Reading) (b : ℕ) → read_byte r b ≡ some r' → IsReading r'
unfolding read_byte
read_byte-reading boundary r' b h = first_byte-reading b r' h
read_byte-reading (within low high zero) boundary b h = tt
read_byte-reading (within low high zero) (within l h' m) b h = absurd (ground arith)
read_byte-reading (within low high (suc more)) boundary b h = tt
read_byte-reading (within low high (suc more)) (within l h' m) b h = (ground arith, ground arith)

-- A byte outside of that range stands at a boundary.
starts_at_boundary :
    (r r' : Reading) (b : ℕ)
    → IsReading r
    → (b < 0x80) ⊎ (0xbf < b)
    → read_byte r b ≡ some r'
    → r ≡ boundary
unfolding read_byte
starts_at_boundary boundary r' b i h e = refl
starts_at_boundary (within low high zero) r' b i h e = absurd (ground arith)
starts_at_boundary (within low high (suc more)) r' b i h e = absurd (ground arith)

json_pieces-drop : (s : Bytes) → json_pieces 2 s ≡ json_pieces 0 (drop 2 s)
unfolding json_pieces
json_pieces-drop [] = refl
json_pieces-drop (b ∷ []) = refl
json_pieces-drop (b ∷ c ∷ s) = refl

prefix_two : (c d : ℕ) (s : Bytes) → has_prefix s (c ∷ d ∷ []) ≡ true → s ≡ c ∷ d ∷ drop 2 s
prefix_two c d [] h = absurd (ground arith)
prefix_two c d (b ∷ []) h = absurd (ground arith)
prefix_two c d (b ∷ b' ∷ s) h = ground arith

-- the bytes of a line separator
record Separates (b : ℕ) (s : Bytes) (v : ℕ) : Type 0 where
  last : ℕ
  lead : b ≡ 0xe2
  follows : s ≡ 0x80 ∷ last ∷ drop 2 s
  low : 0x80 ≤ last
  high : last ≤ 0xbf
  unit : v < 65_536

line_separator-cases :
    (b : ℕ) (s : Bytes)
    → (line_separator b s ≡ none) ⊎ ((v : ℕ) × (line_separator b s ≡ some v) × Separates b s v)
unfolding line_separator
line_separator-cases b s = elim (Bool-cases (b == 0xe2 && has_prefix s (0x80 ∷ 0xa8 ∷ []))) [
  | inl t ↦ inr (0x2028, rw t, separates 0xa8 0x2028 t (omega arith) (omega arith) (omega arith))
  | inr f ↦ elim (Bool-cases (b == 0xe2 && has_prefix s (0x80 ∷ 0xa9 ∷ []))) [
    | inl t ↦
        inr (0x2029, rw (f, t), separates 0xa9 0x2029 t (omega arith) (omega arith) (omega arith))
    | inr g ↦ inl (rw (f, g))
  ]
]
  where
    separates :
        (last v : ℕ)
        → (b == 0xe2 && has_prefix s (0x80 ∷ last ∷ [])) ≡ true
        → 0x80 ≤ last
        → last ≤ 0xbf
        → v < 65_536
        → Separates b s v
    separates last v t low high unit = record {
      last = last;
      lead = ground (arith, and_left (b == 0xe2) (has_prefix s (0x80 ∷ last ∷ [])) t);
      follows = prefix_two 0x80 last s (and_right (b == 0xe2) (has_prefix s (0x80 ∷ last ∷ [])) t);
      low = low;
      high = high;
      unit = unit;
    }

read_separator :
    (last : ℕ) (s : Bytes)
    → 0x80 ≤ last
    → last ≤ 0xbf
    → read_bytes (some boundary) (0xe2 ∷ 0x80 ∷ last ∷ s) ≡ read_bytes (some boundary) s
unfolding read_bytes read_byte first_byte
read_separator last s h h' =
    let t : (leb 0x80 last && leb last 0xbf) ≡ true = ground arith in rw (read_bytes, t)

-- One step of the loop over the text.
text_ascii :
    (b : ℕ) (s rest : Bytes)
    → line_separator b s ≡ none
    → b < 0x80
    → read_bytes (some boundary) (print_pieces (json_pieces 0 (b ∷ s)) rest)
      ≡ read_bytes (some boundary) (print_pieces (json_pieces 0 s) rest)
unfolding json_pieces
text_ascii b s rest e h =
    rw (e, json_pieces)
      (read_bytes-ascii (print_piece (json_piece b)) (print_pieces (json_pieces 0 s) rest)
        (print_piece-ascii (json_piece b) (json_piece-Narrow b h)))

text_wide :
    (r r' : Reading) (b : ℕ) (s rest : Bytes)
    → line_separator b s ≡ none
    → 0x80 ≤ b
    → read_byte r b ≡ some r'
    → read_bytes (some r) (print_pieces (json_pieces 0 (b ∷ s)) rest)
      ≡ read_bytes (some r') (print_pieces (json_pieces 0 s) rest)
unfolding json_pieces read_bytes
text_wide r r' b s rest e h step = rw (e, json_pieces, json_piece-wide b h) (rw (read_bytes, step))

text_separator :
    (b v : ℕ) (s rest : Bytes)
    → line_separator b s ≡ some v
    → v < 65_536
    → read_bytes (some boundary) (print_pieces (json_pieces 0 (b ∷ s)) rest)
      ≡ read_bytes (some boundary) (print_pieces (json_pieces 0 (drop 2 s)) rest)
unfolding json_pieces
text_separator b v s rest e small =
    rw (e, json_pieces)
      (read_bytes-ascii (print_piece (code_unit v)) (print_pieces (json_pieces 2 s) rest)
          (print_piece-ascii (code_unit v) small)
        ∙ ap (λ ps. read_bytes (some boundary) (print_pieces ps rest)) (json_pieces-drop s))

abbrev Reads : Reading → Bytes → Type 0
Reads r s = at_boundary (read_bytes (some r) s) ≡ true

-- What is read of the text is read of its JSON.
text_from :
    (fuel : ℕ) (r : Reading) (s rest : Bytes)
    → length s ≤ fuel
    → IsReading r
    → Reads r s
    → Reads boundary (b'"' ∷ rest)
    → Reads r (print_pieces (json_pieces 0 s) rest)
text_from fuel boundary [] rest le i h after = unfold json_pieces in after
text_from fuel (within low high more) [] rest le i h after =
    absurd (unfold read_bytes in ground (arith, h))
text_from zero r (b ∷ s) rest le i h after = absurd (omega arith)
text_from (suc fuel) r (b ∷ s) rest le i h after =
    let (r', e, h') = next_reading r b s h in
    elim (line_separator-cases b s) [
      | inl none_here ↦ elim (Bool-cases (ltb b 0x80)) [
        | inl t ↦
            let at_start = starts_at_boundary r r' b i (inl (ground arith)) e in
            subst (λ q. Reads q (print_pieces (json_pieces 0 (b ∷ s)) rest)) (sym at_start)
              (subst (λ o. at_boundary o ≡ true)
                (sym (text_ascii b s rest none_here (ground arith)))
                (text_from fuel boundary s rest (omega arith) tt
                  (subst (λ o. at_boundary o ≡ true)
                    (read_bytes-ascii (b ∷ []) s (ground arith, tt))
                    (subst (λ q. Reads q (b ∷ s)) at_start h))
                  after))
        | inr f ↦
            subst (λ o. at_boundary o ≡ true)
              (sym (text_wide r r' b s rest none_here (ground arith) e))
              (text_from fuel r' s rest (omega arith) (read_byte-reading r r' b e) h' after)
      ]
      | inr (v, found, p) ↦
          let at_start = starts_at_boundary r r' b i (inr (omega (arith, p.lead))) e in
          subst (λ q. Reads q (print_pieces (json_pieces 0 (b ∷ s)) rest)) (sym at_start)
            (subst (λ o. at_boundary o ≡ true) (sym (text_separator b v s rest found p.unit))
              (text_from fuel boundary (drop 2 s) rest (omega (arith, length-drop 2 s)) tt
                (subst (λ o. at_boundary o ≡ true) (read_separator p.last (drop 2 s) p.low p.high)
                  (subst (λ q. Reads boundary q)
                    (ap (λ c. c ∷ s) p.lead ∙ ap (λ q. 0xe2 ∷ q) p.follows)
                    (subst (λ q. Reads q (b ∷ s)) at_start h)))
                after))
    ]

-- The JSON string of a valid text is valid, before anything that is.
pub json_pieces-valid :
    (s rest : Bytes)
    → valid_string s ≡ true
    → valid_string rest ≡ true
    → valid_string (print_pieces (json_pieces 0 s) rest) ≡ true
unfolding valid_string
json_pieces-valid s rest h after = text_from (length s) boundary s rest (omega arith) tt h (
    subst (λ o. at_boundary o ≡ true) (sym (read_bytes-ascii (b'"' ∷ []) rest (omega arith, tt)))
      after)
