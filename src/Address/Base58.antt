-- ===== src/Address/Base58.antt =====
-- What decodeBase58 makes of a text that encodeBase58 has written.
use shawncoin.Prelude.{
  ℕ, ◌+◌, ◌*◌, ◌<◌, ◌≡◌, ◌⊎◌, refl, sym, ap, ◌∙◌, subst, Bool, true, false, not, ◌&&◌, ◌||◌, passes,
  passes_lem, some_of_test, none, some, [], ◌∷◌, ◌++◌, map, All, All-append, ◌==◌, ltb, arith,
  Bool-cases, inl, inr, if◌then◌else◌, and_left, and_right,
}
use mathlib.Core.List.{reverse, reverse-append, reverse-reverse}
use shawncoin.Wire.{Bytes, IsByte}
use shawncoin.Address.{
  digit_char, shift_in, encode_digits, leading_ones, encode_base58, index_in, char_digit,
  decode_digits, leading_zeros, decode_base58,
}
use shawncoin.Address.Radix.{
  value, value_from, HasTop, IsCanonical, encode_Fits, decode_Fits, value-shift_in,
  shift_in-IsCanonical, value-injective, value_from-reverse,
}

-- The leading zeros of a string of bytes, and what follows them.
abbrev pub zeros_of : Bytes → Bytes
zeros_of [] = []
zeros_of (b ∷ bs) = if b == 0 then 0 ∷ zeros_of bs else []

abbrev pub significant : Bytes → Bytes
significant [] = []
significant (b ∷ bs) = if b == 0 then significant bs else b ∷ bs

-- A character is read as the digit that it stands for, and only the digit 0 is written as `1`.
good_digit : ℕ → Bool
good_digit d =
    (elim (char_digit (digit_char d)) [ none ↦ false | some e ↦ e == d ])
    && (ltb d 1 || not (digit_char d == b'1'))

digit_table : passes 58 good_digit ≡ true
unfolding passes good_digit char_digit index_in
digit_table = refl

char_digit-digit_char : (d : ℕ) → d < 58 → char_digit (digit_char d) ≡ some d
unfolding good_digit
char_digit-digit_char d h =
    some_of_test (char_digit (digit_char d)) d
      (and_left _ _ (passes_lem 58 good_digit d digit_table h))

not_of_or : (d : ℕ) (t : Bool) → (ltb d 1 || not t) ≡ true → 0 < d → t ≡ false
not_of_or d true h pos = ground arith
not_of_or d false h pos = refl

digit_char-ne : (d : ℕ) → d < 58 → 0 < d → (digit_char d == b'1') ≡ false
unfolding good_digit
digit_char-ne d h pos =
    let both = passes_lem 58 good_digit d digit_table h in
    let second =
      and_right (elim (char_digit (digit_char d)) [ none ↦ false | some e ↦ e == d ])
        (ltb d 1 || not (digit_char d == b'1')) both in
    not_of_or d (digit_char d == b'1') second pos

nil-IsCanonical : (base : ℕ) → IsCanonical base []
nil-IsCanonical base = record { digits = tt; top = tt }

-- The digits that encodeBase58 collects.
encode_digits-value :
    (bs ds : Bytes)
    → All IsByte bs
    → IsCanonical 58 ds
    → (value 58 (encode_digits ds bs) ≡ value_from 256 (value 58 ds) bs)
      × IsCanonical 58 (encode_digits ds bs)
unfolding encode_digits
encode_digits-value [] ds h v = (refl, v)
encode_digits-value (b ∷ bs) ds (hb, h) v =
    let v' = shift_in-IsCanonical 256 58 encode_Fits b ds (omega arith) (omega arith) v in
    let (e, w) = encode_digits-value bs (shift_in 256 58 b ds) h v' in
    let one : value 58 (shift_in 256 58 b ds) ≡ value 58 ds * 256 + b =
      value-shift_in 256 58 encode_Fits b ds (omega arith) v.digits ∙ omega arith in
    (e ∙ ap (λ (n : ℕ). value_from 256 n bs) one, w)

-- The bytes that decodeBase58 collects from the characters of digits.
record Decoded (r xs out : Bytes) : Type 0 where
  done : decode_digits r (map digit_char xs) ≡ some out
  number : value 256 out ≡ value_from 58 (value 256 r) xs
  canonical : IsCanonical 256 out

decode_digits-value :
    (xs r : Bytes) → All (λ d. d < 58) xs → IsCanonical 256 r → (out : Bytes) × Decoded r xs out
unfolding decode_digits
decode_digits-value [] r h v = (r, record { done = refl; number = refl; canonical = v })
decode_digits-value (d ∷ xs) r (hd, h) v =
    let v' = shift_in-IsCanonical 58 256 decode_Fits d r (omega arith) (omega arith) v in
    let (out, w) = decode_digits-value xs (shift_in 58 256 d r) h v' in
    let one : value 256 (shift_in 58 256 d r) ≡ value 256 r * 58 + d =
      value-shift_in 58 256 decode_Fits d r (omega arith) v.digits ∙ omega arith in
    (
      out,
      record {
        done = rw (char_digit-digit_char d hd, decode_digits) w.done;
        number = w.number ∙ ap (λ (n : ℕ). value_from 58 n xs) one;
        canonical = w.canonical;
      },
    )

-- The ones in front stand for no digit.
decode_digits-one : (text : Bytes) → decode_digits [] (b'1' ∷ text) ≡ decode_digits [] text
unfolding decode_digits char_digit index_in shift_in
decode_digits-one text = refl

decode_digits-ones :
    (bs text : Bytes) → decode_digits [] (leading_ones bs ++ text) ≡ decode_digits [] text
unfolding leading_ones
decode_digits-ones [] text = refl
decode_digits-ones (b ∷ bs) text = elim (Bool-cases (b == 0)) [
  | inr e ↦ rw e
  | inl e ↦ rw e (decode_digits-one (leading_ones bs ++ text) ∙ decode_digits-ones bs text)
]

leading_zeros-ones :
    (bs text : Bytes)
    → leading_zeros text ≡ []
    → leading_zeros (leading_ones bs ++ text) ≡ zeros_of bs
unfolding leading_ones leading_zeros
leading_zeros-ones [] text h = h
leading_zeros-ones (b ∷ bs) text h = elim (Bool-cases (b == 0)) [
  | inr e ↦ rw e h
  | inl e ↦ rw e (ap (◌∷◌ 0) (leading_zeros-ones bs text h))
]

-- The first character of canonical digits is not `1`.
reverse-HasTop :
    (ds : Bytes)
    → IsCanonical 58 ds
    → (ds ≡ []) ⊎ ((d : ℕ) × (rest : Bytes) × (reverse ds ≡ d ∷ rest) × (0 < d) × (d < 58))
reverse-HasTop [] v = inl refl
reverse-HasTop (d ∷ []) v = inr (d, [], refl, v.top, v.digits.0)
reverse-HasTop (d ∷ e ∷ ds) v =
    elim (reverse-HasTop (e ∷ ds) (record { digits = v.digits.1; top = v.top })) [
      | inl empty ↦ absurd (cc empty)
      | inr (t, rest, p, pos, lt) ↦ inr (
        t,
        rest ++ (d ∷ []),
        reverse-append (d ∷ []) (e ∷ ds) ∙ ap (λ xs. xs ++ (d ∷ [])) p,
        pos,
        lt,
      )
    ]

leading_zeros-digits :
    (ds : Bytes) → IsCanonical 58 ds → leading_zeros (map digit_char (reverse ds)) ≡ []
unfolding leading_zeros
leading_zeros-digits ds v = elim (reverse-HasTop ds v) [
  | inl empty ↦ rw empty
  | inr (d, rest, p, pos, lt) ↦
      ap (λ xs. leading_zeros (map digit_char xs)) p ∙ rw (digit_char-ne d lt pos) refl
]

-- The bytes behind the leading zeros, the lowest first.
value-significant : (bs : Bytes) → value_from 256 0 (significant bs) ≡ value_from 256 0 bs
value-significant [] = refl
value-significant (b ∷ bs) = elim (Bool-cases (b == 0)) [
  | inr e ↦ rw e
  | inl e ↦ let z : b ≡ 0 = ground arith in rw z (value-significant bs)
]

HasTop-append : (xs : Bytes) (d : ℕ) → 0 < d → HasTop (xs ++ (d ∷ []))
HasTop-append [] d h = h
HasTop-append (x ∷ []) d h = h
HasTop-append (x ∷ y ∷ xs) d h = HasTop-append (y ∷ xs) d h

All-reverse : (P : ℕ → Type 0) (bs : Bytes) → All P bs → All P (reverse bs)
All-reverse P [] h = tt
All-reverse P (b ∷ bs) (hb, h) =
    subst (All P) (sym (reverse-append (b ∷ []) bs))
      (All-append P (reverse bs) (b ∷ []) (All-reverse P bs h) (hb, tt))

significant-IsCanonical : (bs : Bytes) → All IsByte bs → IsCanonical 256 (reverse (significant bs))
significant-IsCanonical [] h = nil-IsCanonical 256
significant-IsCanonical (b ∷ bs) (hb, h) = elim (Bool-cases (b == 0)) [
  | inl e ↦ rw e (significant-IsCanonical bs h)
  | inr e ↦ rw e (record {
    digits = All-reverse IsByte (b ∷ bs) (hb, h);
    top =
        subst HasTop (sym (reverse-append (b ∷ []) bs))
          (HasTop-append (reverse bs) b (ground arith));
  })
]

-- decodeBase58 of what encodeBase58 writes for bytes is not the bytes: it gives the leading zeros
-- and then the other bytes in reverse order.
pub decode_base58-encode_base58 :
    (bs : Bytes)
    → All IsByte bs
    → decode_base58 (encode_base58 bs) ≡ zeros_of bs ++ reverse (significant bs)
unfolding decode_base58 encode_base58
decode_base58-encode_base58 bs h =
    let ds = encode_digits [] bs in
    let (number, v) = encode_digits-value bs [] h (nil-IsCanonical 58) in
    let text = map digit_char (reverse ds) in
    let (out, w) =
      decode_digits-value (reverse ds) [] (All-reverse (λ d. d < 58) ds v.digits)
        (nil-IsCanonical 256) in
    let same : out ≡ reverse (significant bs) =
      value-injective out (reverse (significant bs)) w.canonical (significant-IsCanonical bs h) (
        w.number
        ∙ value_from-reverse 58 ds
        ∙ number
        ∙ sym (value-significant bs)
        ∙ ap (value_from 256 0) (sym (reverse-reverse (significant bs)))
        ∙ value_from-reverse 256 (reverse (significant bs))) in
    rw (decode_digits-ones bs text, w.done, decode_base58)
      (cc (leading_zeros-ones bs text (leading_zeros-digits ds v), same))
