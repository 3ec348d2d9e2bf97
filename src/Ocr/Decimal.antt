-- ===== src/Ocr/Decimal.antt =====
-- `%d` of fmt.Sprintf on a number that is not negative, and how its digits are read back.
use paperless_ai_ocr.Prelude.{
  ℕ, zero, suc, ◌+◌, ◌-◌, ◌*◌, ◌≤◌, ◌<◌, ◌≡◌, refl, ap, ◌∙◌, inl, inr, Bool, true, false, ◌&&◌, [],
  ◌∷◌, ◌++◌, arith, ltb, leb, Bool-cases, ◌%◌, ◌/◌,
}
use paperless_ai_ocr.Ocr.Bytes.{Bytes}

-- with fuel: the number itself is enough, for each round divides it by ten
unfoldable pub digits : ℕ → ℕ → Bytes → Bytes
digits zero n out = (b'0' + n % 10) ∷ out
digits (suc fuel) n out = elim (ltb n 10) [
  | true ↦ (b'0' + n) ∷ out
  | false ↦ digits fuel (n / 10) ((b'0' + n % 10) ∷ out)
]

unfoldable pub decimal : ℕ → Bytes
unfolding digits
decimal n = digits n n []

abbrev pub is_digit : ℕ → Bool
is_digit b = leb b'0' b && leb b b'9'

-- the number that the digits at the front spell after `n`, and what follows them
unfoldable pub read_number : ℕ → Bytes → ℕ × Bytes
read_number n [] = (n, [])
read_number n (b ∷ s) = elim (is_digit b) [
  | true ↦ read_number (n * 10 + (b - b'0')) s
  | false ↦ (n, b ∷ s)
]

read_digit :
    (n d : ℕ) (out : Bytes)
    → d < 10
    → read_number n ((b'0' + d) ∷ out) ≡ read_number (n * 10 + d) out
unfolding read_number
read_digit n d out h =
    let t : is_digit (b'0' + d) ≡ true = ground arith in
    let e : n * 10 + (b'0' + d - b'0') ≡ n * 10 + d = omega arith in rw (t, read_number, e)

read_number-digits :
    (fuel n : ℕ) (out : Bytes) → n ≤ fuel → read_number 0 (digits fuel n out) ≡ read_number n out
unfolding digits
read_number-digits zero n out h =
    read_digit 0 (n % 10) out (omega arith) ∙ ap (λ m. read_number m out) (omega arith)
read_number-digits (suc fuel) n out h = elim (Bool-cases (ltb n 10)) [
  | inl t ↦
      rw (t, digits) (read_digit 0 n out (ground arith) ∙ ap (λ m. read_number m out) (omega arith))
  | inr f ↦
      rw (f, digits)
        (read_number-digits fuel (n / 10) ((b'0' + n % 10) ∷ out) (omega arith)
          ∙ read_digit (n / 10) (n % 10) out (omega arith)
          ∙ ap (λ m. read_number m out) (omega arith))
]

digits-append : (fuel n : ℕ) (out s : Bytes) → digits fuel n out ++ s ≡ digits fuel n (out ++ s)
unfolding digits
digits-append zero n out s = refl
digits-append (suc fuel) n out s = elim (Bool-cases (ltb n 10)) [
  | inl t ↦ rw (t, digits)
  | inr f ↦ rw (f, digits) (digits-append fuel (n / 10) ((b'0' + n % 10) ∷ out) s)
]

-- A number is read back from its print, up to a byte that is no digit.
pub read_number-decimal :
    (n b : ℕ) (s : Bytes) → is_digit b ≡ false → read_number 0 (decimal n ++ b ∷ s) ≡ (n, b ∷ s)
unfolding decimal
read_number-decimal n b s h =
    rw (digits-append n n [] (b ∷ s))
      (read_number-digits n n (b ∷ s) (omega arith) ∙ (unfold read_number in rw (h, read_number)))
