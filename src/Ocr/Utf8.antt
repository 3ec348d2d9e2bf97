-- ===== src/Ocr/Utf8.antt =====
-- unicode/utf8 and strings.ToValidUTF8 on bytes, as internal/ocr/validate.go uses them.
use paperless_ai_ocr.Prelude.{
  ℕ, zero, suc, ◌+◌, ◌*◌, ◌≡◌, refl, Bool, true, false, ◌&&◌, Option, none, some, List, [], ◌∷◌,
  ◌++◌, arith, ltb, leb, ◌==◌, if◌then◌else◌, length, ◌%◌,
}
use paperless_ai_ocr.Ocr.Bytes.{Bytes, take, drop}

-- Between two runes, or within one: the bounds of the next byte, and how many come after it.
pub data Reading : Type 0 where
  boundary : Reading
  within : ℕ → ℕ → ℕ → Reading

abbrev between : ℕ → ℕ → ℕ → Bool
between low high b = leb low b && leb b high

-- the first byte of a rune
unfoldable pub first_byte : ℕ → Option Reading
first_byte b =
    if ltb b 0x80
    then some boundary
    else if between 0xc2 0xdf b
    then some (within 0x80 0xbf 0)
    else if b == 0xe0
    then some (within 0xa0 0xbf 1)
    else if b == 0xed
    then some (within 0x80 0x9f 1)
    else if between 0xe1 0xef b
    then some (within 0x80 0xbf 1)
    else if b == 0xf0
    then some (within 0x90 0xbf 2)
    else if between 0xf1 0xf3 b
    then some (within 0x80 0xbf 2)
    else if b == 0xf4
    then some (within 0x80 0x8f 2)
    else none

unfoldable pub read_byte : Reading → ℕ → Option Reading
unfolding first_byte
read_byte boundary b = first_byte b
read_byte (within low high zero) b = if between low high b then some boundary else none
read_byte (within low high (suc more)) b =
    if between low high b then some (within 0x80 0xbf more) else none

unfoldable pub read_bytes : Option Reading → Bytes → Option Reading
unfolding read_byte
read_bytes none s = none
read_bytes (some r) [] = some r
read_bytes (some r) (b ∷ s) = read_bytes (read_byte r b) s

abbrev pub at_boundary : Option Reading → Bool
at_boundary none = false
at_boundary (some boundary) = true
at_boundary (some (within low high more)) = false

-- utf8.ValidString and utf8.Valid
unfoldable pub valid_string : Bytes → Bool
unfolding read_bytes
valid_string s = at_boundary (read_bytes (some boundary) s)

-- the width of the encoding of a rune at the front, 0 where there is none
unfoldable pub rune_width : Bytes → ℕ
unfolding valid_string
rune_width s =
    if valid_string (take 1 s)
    then 1
    else if valid_string (take 2 s)
    then 2
    else if valid_string (take 3 s)
    then 3
    else if valid_string (take 4 s)
    then 4
    else 0

-- U+FFFD
abbrev pub replacement : Bytes
replacement = 0xef ∷ 0xbf ∷ 0xbd ∷ []

-- strings.ToValidUTF8 with that replacement, with fuel: each run of bytes that encode nothing is
-- replaced once.
unfoldable pub replace_invalid : ℕ → Bool → Bytes → Bytes
unfolding rune_width
replace_invalid zero in_run s = []
replace_invalid (suc fuel) in_run [] = []
replace_invalid (suc fuel) in_run (b ∷ s) = elim (rune_width (b ∷ s)) [
  | zero ↦ (if in_run then [] else replacement) ++ replace_invalid fuel true s
  | suc more ↦ (b ∷ take more s) ++ replace_invalid fuel false (drop more s)
]

unfoldable pub to_valid : Bytes → Bytes
unfolding replace_invalid
to_valid s = replace_invalid (length s) false s

-- what the bytes of a rune after its first add to it
abbrev add_byte : ℕ → ℕ → ℕ
add_byte high b = high * 64 + b % 64

-- what the first byte says: how many follow, and the upper bits
abbrev lead : ℕ → ℕ × ℕ
lead b =
    if ltb b 0x80
    then (0, b)
    else if ltb b 0xe0
    then (1, b % 32)
    else if ltb b 0xf0
    then (2, b % 16)
    else (3, b % 8)

-- the runes of a string that is valid; `more` bytes of the first are to come
unfoldable pub runes_from : ℕ → ℕ → Bytes → List ℕ
runes_from more high [] = []
runes_from zero high (b ∷ s) =
    let (n, bits) = lead b in
    elim n [ zero ↦ bits ∷ runes_from zero 0 s | suc k ↦ runes_from (suc k) bits s ]
runes_from (suc zero) high (b ∷ s) = add_byte high b ∷ runes_from zero 0 s
runes_from (suc (suc more)) high (b ∷ s) = runes_from (suc more) (add_byte high b) s

unfoldable pub runes : Bytes → List ℕ
unfolding runes_from
runes s = runes_from 0 0 s

pub read_bytes-append :
    (o : Option Reading) (s t : Bytes) → read_bytes o (s ++ t) ≡ read_bytes (read_bytes o s) t
unfolding read_bytes
read_bytes-append none s [] = refl
read_bytes-append none s (c ∷ t) = refl
read_bytes-append (some r) [] t = refl
read_bytes-append (some r) (b ∷ s) t = read_bytes-append (read_byte r b) s t

pub at_boundary-eq : (o : Option Reading) → at_boundary o ≡ true → o ≡ some boundary
at_boundary-eq none h = absurd (ground arith)
at_boundary-eq (some boundary) h = refl
at_boundary-eq (some (within low high more)) h = absurd (ground arith)

-- One valid string after another is valid.
pub valid_string-append :
    (s t : Bytes) → valid_string s ≡ true → valid_string t ≡ true → valid_string (s ++ t) ≡ true
unfolding valid_string
valid_string-append s t hs ht = rw (read_bytes-append (some boundary) s t, at_boundary-eq _ hs) ht

-- What is left of a valid string after a valid string is valid.
pub valid_string-rest :
    (s t : Bytes) → valid_string s ≡ true → valid_string (s ++ t) ≡ true → valid_string t ≡ true
unfolding valid_string
valid_string-rest s t hs h =
    rw (read_bytes-append (some boundary) s t, at_boundary-eq (read_bytes (some boundary) s) hs) at
      h
