-- ===== src/Text.antt =====
-- strings.TrimSpace and the byte tests of internal/queue/queue.go on Go strings, which are read
-- as sequences of code points (valid UTF-8).
use Prim.Native.Char.{code}
use Prim.Native.String.{len}
use paperless_ai_ocr.Prelude.{ℕ, Bool, true, ◌&&◌, ◌||◌, not, String, leb, ltb, ◌==◌}

-- unicode.IsSpace
unfoldable pub is_space : ℕ → Bool
is_space c =
    leb 9 c && leb c 13
    || c == 32
    || c == 0x85
    || c == 0xa0
    || c == 0x1680
    || leb 0x2000 c && leb c 0x200a
    || c == 0x2028
    || c == 0x2029
    || c == 0x202f
    || c == 0x205f
    || c == 0x3000

-- `strings.TrimSpace(value) == ""`: nothing but white space.
unfoldable pub blank : String → Bool
unfolding is_space
blank String.[] = true
blank (String.◌∷◌ c s) = is_space (code c) && blank s

-- The bytes below 0x20 and 0x7f are the code points of that value: the bytes of a longer encoding
-- are 0x80 at least.
unfoldable pub no_control : String → Bool
no_control String.[] = true
no_control (String.◌∷◌ c s) = not (ltb (code c) 0x20 || code c == 0x7f) && no_control s

-- `len(value)`: the number of bytes.
abbrev pub byte_length : String → ℕ
byte_length s = len s
