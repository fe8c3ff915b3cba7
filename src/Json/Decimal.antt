-- ===== src/Json/Decimal.antt =====
-- The digits of a number are read back, so the rounds that the printer has are enough.
use shawncoin.Prelude.{
  ℕ, zero, suc, ◌+◌, ◌-◌, ◌*◌, ◌/◌, ◌%◌, ◌<◌, ◌≡◌, ◌∙◌, true, ◌&&◌, [], ◌∷◌, ◌++◌, All, All-append,
  ltb, leb, ltb→lt, if-case, arith,
}
use shawncoin.Wire.{Bytes}
use shawncoin.Json.{decimal_digits, decimal}
use shawncoin.Config.{read_digits}

-- A character that is a decimal digit.
abbrev pub IsDigit : ℕ → Type 0
IsDigit c = (leb 48 c && leb c 57) ≡ true

IsDigit-add : (d : ℕ) → d < 10 → IsDigit (48 + d)
IsDigit-add d lt = ground arith

read_digits-append :
    (m : ℕ) (xs : Bytes) (d : ℕ)
    → All IsDigit xs
    → d < 10
    → read_digits m (xs ++ ((48 + d) ∷ [])) ≡ 10 * read_digits m xs + d
unfolding read_digits
read_digits-append m [] d h lt = rw (IsDigit-add d lt) (omega arith)
read_digits-append m (x ∷ xs) d (hx, h) lt =
    rw hx (read_digits-append (10 * m + (x - 48)) xs d h lt)

digits_lem :
    (fuel n : ℕ)
    → n < fuel
    → All IsDigit (decimal_digits fuel n) × (read_digits 0 (decimal_digits fuel n) ≡ n)
unfolding decimal_digits
digits_lem zero n lt = absurd (omega arith)
digits_lem (suc fuel) n lt =
    if-case (λ (text : Bytes). All IsDigit text × (read_digits 0 text ≡ n)) (ltb n 10)
      (λ t.
        let small = ltb→lt n 10 t in
        (
          (IsDigit-add n small, tt),
          read_digits-append 0 [] n tt small ∙ unfold read_digits in omega arith,
        ))
      (λ f.
        let (h, e) = digits_lem fuel (n / 10) (ground arith) in
        (
          All-append IsDigit (decimal_digits fuel (n / 10)) ((48 + n % 10) ∷ []) h
              (IsDigit-add (n % 10) (omega arith), tt),
          read_digits-append 0 (decimal_digits fuel (n / 10)) (n % 10) h (omega arith)
              ∙ omega (arith, e),
        ))

-- The decimal text of a number consists of digits, and they are read as the number.
pub read_digits-decimal : (n : ℕ) → All IsDigit (decimal n) × (read_digits 0 (decimal n) ≡ n)
unfolding decimal
read_digits-decimal n = digits_lem (suc n) n (omega arith)
