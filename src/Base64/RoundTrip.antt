-- ===== src/Base64/RoundTrip.antt =====
-- What the client encodes the server decodes, and it is let in.
use shawncoin.Prelude.{
  ℕ, zero, suc, ◌+◌, ◌-◌, ◌*◌, ◌/◌, ◌%◌, ◌^◌, ◌<◌, ◌≡◌, refl, ap, ◌∙◌, true, false, none, some, [],
  ◌∷◌, ◌++◌, length, replicate, All, passes, passes_lem, some_of_test, if-case, All-append, ◌&&◌,
  ◌==◌, codes, after_prefix, arith,
}
use shawncoin.Wire.{Bytes, IsByte}
use shawncoin.Address.{index_in}
use shawncoin.Transaction.Equal.{beq_bytes_refl}
use shawncoin.Base64.{
  base64_char, base64_digit, encode_from, padding, base64_encode, decode_from, base64_decode,
  check_auth, allowed,
}

every_digit :
    passes 64 (λ d. elim (base64_digit (base64_char d)) [ none ↦ false | some e ↦ e == d ]) ≡ true
unfolding passes base64_digit index_in
every_digit = refl

digit-char : (d : ℕ) → d < 64 → base64_digit (base64_char d) ≡ some d
digit-char d lt = some_of_test (base64_digit (base64_char d)) d (
    passes_lem 64 (λ d. elim (base64_digit (base64_char d)) [ none ↦ false | some e ↦ e == d ]) d
      every_digit lt)

module _ (w d : ℕ) (text : Bytes) (lt : d < 64) where
  -- One character, in each of the four states.
  read0 : decode_from w 0 (base64_char d ∷ text) ≡ decode_from ((w * 64 + d) % 2 ^ 32) 6 text
  unfolding decode_from
  read0 = rw (decode_from, digit-char d lt) refl

  read6 :
      decode_from w 6 (base64_char d ∷ text)
      ≡ (w * 64 + d) % 2 ^ 32 / 16 % 256 ∷ decode_from ((w * 64 + d) % 2 ^ 32) 4 text
  unfolding decode_from
  read6 = rw (decode_from, digit-char d lt) refl

  read4 :
      decode_from w 4 (base64_char d ∷ text)
      ≡ (w * 64 + d) % 2 ^ 32 / 4 % 256 ∷ decode_from ((w * 64 + d) % 2 ^ 32) 2 text
  unfolding decode_from
  read4 = rw (decode_from, digit-char d lt) refl

  read2 :
      decode_from w 2 (base64_char d ∷ text)
      ≡ (w * 64 + d) % 2 ^ 32 % 256 ∷ decode_from ((w * 64 + d) % 2 ^ 32) 0 text
  unfolding decode_from
  read2 =
      rw (decode_from, digit-char d lt)
        (ap (λ n. n % 256 ∷ decode_from ((w * 64 + d) % 2 ^ 32) 0 text) (omega arith))

-- Text that the decoder ends at.
abbrev Ends : Bytes → Type 0
Ends pad = (w bits : ℕ) → decode_from w bits pad ≡ []

-- What the encoder emits: the sextets of three bytes, whatever its state was.
module _ (v a b c : ℕ) (ha : a < 256) (hb : b < 256) (hc : c < 256) where
  abbrev v1 : ℕ
  v1 = (v * 256 + a) % 2 ^ 32

  abbrev v2 : ℕ
  v2 = (v1 * 256 + b) % 2 ^ 32

  abbrev v3 : ℕ
  v3 = (v2 * 256 + c) % 2 ^ 32

  sextet1 : v1 / 4 % 64 ≡ a / 4
  sextet1 = omega arith

  last1 : v1 * 256 % 2 ^ 32 / 16 % 64 ≡ a % 4 * 16
  last1 = omega arith

  sextet2 : v2 / 16 % 64 ≡ a % 4 * 16 + b / 16
  sextet2 = omega arith

  last2 : v2 * 256 % 2 ^ 32 / 64 % 64 ≡ b % 16 * 4
  last2 = omega arith

  sextet3 : v3 / 64 % 64 ≡ b % 16 * 4 + c / 64
  sextet3 = omega arith

  sextet4 : v3 / 1 % 64 ≡ c % 64
  sextet4 = omega arith

-- What the decoder puts out for sextets, whatever its state was.
module _ (w d e f g : ℕ) (hd : d < 64) (he : e < 64) (hf : f < 64) (hg : g < 64) where
  abbrev w1 : ℕ
  w1 = (w * 64 + d) % 2 ^ 32

  abbrev w2 : ℕ
  w2 = (w1 * 64 + e) % 2 ^ 32

  abbrev w3 : ℕ
  w3 = (w2 * 64 + f) % 2 ^ 32

  abbrev w4 : ℕ
  w4 = (w3 * 64 + g) % 2 ^ 32

  byte1 : w2 / 16 % 256 ≡ d * 4 + e / 16
  byte1 = omega arith

  byte2 : w3 / 4 % 256 ≡ e % 16 * 16 + f / 4
  byte2 = omega arith

  byte3 : w4 % 256 ≡ f % 4 * 64 + g
  byte3 = omega arith

  read_two :
      (text : Bytes)
      → decode_from w 0 (base64_char d ∷ base64_char e ∷ text)
        ≡ (d * 4 + e / 16) ∷ decode_from w2 4 text
  read_two text =
      read0 w d (base64_char e ∷ text) hd
      ∙ read6 w1 e text he
      ∙ ap (λ n. n ∷ decode_from w2 4 text) byte1

  read_three :
      (text : Bytes)
      → decode_from w 0 (base64_char d ∷ base64_char e ∷ base64_char f ∷ text)
        ≡ (d * 4 + e / 16) ∷ (e % 16 * 16 + f / 4) ∷ decode_from w3 2 text
  read_three text =
      read_two (base64_char f ∷ text)
      ∙ ap (◌∷◌ (d * 4 + e / 16)) (read4 w2 f text hf ∙ ap (λ n. n ∷ decode_from w3 2 text) byte2)

  read_four :
      (text : Bytes)
      → decode_from w 0 (base64_char d ∷ base64_char e ∷ base64_char f ∷ base64_char g ∷ text)
        ≡ (d * 4 + e / 16) ∷ (e % 16 * 16 + f / 4) ∷ (f % 4 * 64 + g) ∷ decode_from w4 0 text
  read_four text =
      read_three (base64_char g ∷ text)
      ∙ ap (λ t. (d * 4 + e / 16) ∷ (e % 16 * 16 + f / 4) ∷ t)
          (read2 w3 g text hg ∙ ap (λ n. n ∷ decode_from w4 0 text) byte3)

cons_eq : {x y : ℕ} {xs ys : Bytes} → x ≡ y → xs ≡ ys → (x ∷ xs) ≡ (y ∷ ys)
cons_eq e f = cc

decode-encode :
    (v w : ℕ) (text pad : Bytes)
    → All IsByte text
    → Ends pad
    → decode_from w 0 (encode_from v 0 text ++ pad) ≡ text
unfolding encode_from
decode-encode v w [] pad h en = en w 0
decode-encode v w (a ∷ []) pad (ha, h) en =
    rw
      (sextet1 v a 0 0 ha (omega arith) (omega arith), last1 v a 0 0 ha (omega arith) (omega arith))
      (read_two w (a / 4) (a % 4 * 16) 0 0 (omega arith) (omega arith) (omega arith) (omega arith)
          pad
        ∙ cons_eq (omega arith) (
            en
              (w2 w (a / 4) (a % 4 * 16) 0 0 (omega arith) (omega arith) (omega arith)
                (omega arith))
              4))
decode-encode v w (a ∷ b ∷ []) pad (ha, (hb, h)) en =
    let z : 0 < 256 = omega arith in
    let d : a / 4 < 64 = omega arith in
    let e : a % 4 * 16 + b / 16 < 64 = omega arith in
    let f : b % 16 * 4 < 64 = omega arith in
    let g : 0 < 64 = omega arith in
    rw (sextet1 v a b 0 ha hb z, sextet2 v a b 0 ha hb z, last2 v a b 0 ha hb z)
      (read_three w (a / 4) (a % 4 * 16 + b / 16) (b % 16 * 4) 0 d e f g pad
        ∙ cons_eq (omega arith) (
            cons_eq (omega arith)
              (en (w3 w (a / 4) (a % 4 * 16 + b / 16) (b % 16 * 4) 0 d e f g) 2)))
decode-encode v w (a ∷ b ∷ c ∷ text) pad (ha, (hb, (hc, h))) en =
    let d : a / 4 < 64 = omega arith in
    let e : a % 4 * 16 + b / 16 < 64 = omega arith in
    let f : b % 16 * 4 + c / 64 < 64 = omega arith in
    let g : c % 64 < 64 = omega arith in
    rw
      (
        sextet1 v a b c ha hb hc,
        sextet2 v a b c ha hb hc,
        sextet3 v a b c ha hb hc,
        sextet4 v a b c ha hb hc,
      )
      (read_four w (a / 4) (a % 4 * 16 + b / 16) (b % 16 * 4 + c / 64) (c % 64) d e f g
          (encode_from (v3 v a b c ha hb hc) 0 text ++ pad)
        ∙ cons_eq (omega arith) (
            cons_eq (omega arith) (
              cons_eq (omega arith) (
                decode-encode ((((v * 256 + a) % 2 ^ 32 * 256 + b) % 2 ^ 32 * 256 + c) % 2 ^ 32)
                  (w4 w (a / 4) (a % 4 * 16 + b / 16) (b % 16 * 4 + c / 64) (c % 64) d e f g) text
                  pad h en))))

equals_signs-Ends : (n : ℕ) → Ends (replicate n b'=')
unfolding decode_from base64_digit index_in
equals_signs-Ends zero w bits = refl
equals_signs-Ends (suc n) w bits = refl

padding-Ends : (n : ℕ) → Ends (padding n)
unfolding padding
padding-Ends n w bits =
    if-case (λ t. decode_from w bits t ≡ []) (n % 4 == 0) (λ _. equals_signs-Ends 0 w bits)
      (λ _. equals_signs-Ends (4 - n % 4) w bits)

-- Decoding undoes encoding.
pub base64_decode-base64_encode :
    (text : Bytes) → All IsByte text → base64_decode (base64_encode text) ≡ text
unfolding base64_decode base64_encode
base64_decode-base64_encode text h =
    decode-encode 0 0 text (padding (length (encode_from 0 0 text))) h
      (padding-Ends (length (encode_from 0 0 text)))

-- A client that sends `Basic ` and the user and password of the server, which are bytes, as it encodes
-- them is let in.
pub check_auth-base64_encode :
    (user password : Bytes)
    → All IsByte user
    → All IsByte password
    → check_auth user password (codes "Basic " ++ base64_encode (user ++ (b':' ∷ password)))
      ≡ allowed
unfolding check_auth after_prefix
check_auth-base64_encode user password hu hp =
    let secret : Bytes = user ++ (b':' ∷ password) in
    let back =
      base64_decode-base64_encode secret
        (All-append IsByte user (b':' ∷ password) hu (omega arith, hp)) in
    if-case (λ r. r ≡ allowed) ((length user == 0) && (length password == 0)) (λ _. refl)
      (λ _. rw (back, beq_bytes_refl secret) refl)
