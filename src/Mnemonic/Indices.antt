-- ===== src/Mnemonic/Indices.antt =====
-- The twelve indices of a mnemonic are its bits as a number, in base 2048.
use shawncoin.Prelude.{
  ℕ, zero, suc, ◌+◌, ◌*◌, ◌/◌, ◌<◌, ◌≡◌, refl, sym, ap, ◌∙◌, List, [], ◌∷◌, ◌++◌, length,
  length-append, take, get_or, All, All-append, All-take, arith,
}
use shawncoin.Wire.{Bytes, IsByte}
use shawncoin.Crypto.{Digest}
use shawncoin.Mnemonic.{byte_bits, entropy_bits, index_of, indices, mnemonic_bits}

-- The number of some digits in base `b`, the highest first, behind the number n.
pub number : ℕ → ℕ → List ℕ → ℕ
number b n [] = n
number b n (d ∷ ds) = number b (n * b + d) ds

index_of_bits :
    (n a b c d e f g h i j k : ℕ)
    → index_of n (a ∷ b ∷ c ∷ d ∷ e ∷ f ∷ g ∷ h ∷ i ∷ j ∷ k ∷ [])
      ≡ n * 2048 + index_of 0 (a ∷ b ∷ c ∷ d ∷ e ∷ f ∷ g ∷ h ∷ i ∷ j ∷ k ∷ [])
unfolding index_of
index_of_bits n a b c d e f g h i j k = omega arith

index_of-append : (n : ℕ) (xs ys : List ℕ) → index_of n (xs ++ ys) ≡ index_of (index_of n xs) ys
unfolding index_of
index_of-append n [] ys = refl
index_of-append n (x ∷ xs) ys = index_of-append (2 * n + x) xs ys

number-indices :
    (m n : ℕ) (bits : List ℕ)
    → length bits ≡ 11 * m
    → number 2048 n (indices m bits) ≡ index_of n bits
unfolding number indices index_of
number-indices zero n [] e = refl
number-indices zero n (x ∷ bits) e = absurd (omega arith)
number-indices (suc m) n (a ∷ b ∷ c ∷ d ∷ e ∷ f ∷ g ∷ h ∷ i ∷ j ∷ k ∷ bits) len =
    ap (λ x. number 2048 x (indices m bits)) (sym (index_of_bits n a b c d e f g h i j k))
    ∙ number-indices m (index_of n (a ∷ b ∷ c ∷ d ∷ e ∷ f ∷ g ∷ h ∷ i ∷ j ∷ k ∷ [])) bits
        (omega arith)
number-indices (suc m) n bits len = absurd (omega arith)

byte_number : (n b : ℕ) → b < 256 → index_of n (byte_bits b) ≡ n * 256 + b
unfolding index_of byte_bits
byte_number n b lt = omega arith

entropy_number :
    (n : ℕ) (bs : Bytes) → All IsByte bs → index_of n (entropy_bits bs) ≡ number 256 n bs
unfolding entropy_bits number
entropy_number n [] h = unfold index_of in refl
entropy_number n (b ∷ bs) (lt, h) =
    index_of-append n (byte_bits b) (entropy_bits bs)
    ∙ ap (λ m. index_of m (entropy_bits bs)) (byte_number n b lt)
    ∙ entropy_number (n * 256 + b) bs h

checksum_number : (n b : ℕ) → b < 256 → index_of n (take 4 (byte_bits b)) ≡ n * 16 + b / 16
unfolding index_of byte_bits
checksum_number n b lt = omega arith

length-entropy_bits : (bs : Bytes) → length (entropy_bits bs) ≡ 8 * length bs
unfolding entropy_bits byte_bits
length-entropy_bits [] = refl
length-entropy_bits (b ∷ bs) = omega (arith, length-entropy_bits bs)

first_byte : (bs : Bytes) → All IsByte bs → get_or bs 0 0 < 256
first_byte [] h = omega arith
first_byte (b ∷ bs) (lt, h) = lt

abbrev IsBit : ℕ → Type 0
IsBit b = b < 2

byte_bits-IsBit : (b : ℕ) → All IsBit (byte_bits b)
unfolding byte_bits
byte_bits-IsBit b = (
  omega arith,
  (
    omega arith,
    (omega arith, (omega arith, (omega arith, (omega arith, (omega arith, (omega arith, tt)))))),
  ),
)

entropy_bits-IsBit : (bs : Bytes) → All IsBit (entropy_bits bs)
unfolding entropy_bits
entropy_bits-IsBit [] = tt
entropy_bits-IsBit (b ∷ bs) =
    All-append IsBit (byte_bits b) (entropy_bits bs) (byte_bits-IsBit b) (entropy_bits-IsBit bs)

indices_bound :
    (m : ℕ) (bits : List ℕ)
    → All IsBit bits
    → length bits ≡ 11 * m
    → All (λ i. i < 2048) (indices m bits)
unfolding indices index_of
indices_bound zero bits ok len = tt
indices_bound (suc m) (a ∷ b ∷ c ∷ d ∷ e ∷ f ∷ g ∷ h ∷ i ∷ j ∷ k ∷ bits)
      (ha, (hb, (hc, (hd, (he, (hf, (hg, (hh, (hi, (hj, (hk, ok))))))))))) len =
    (omega arith, indices_bound m bits ok (omega arith))
indices_bound (suc m) bits ok len = absurd (omega arith)

-- Of sixteen bytes: the twelve indices lie within the table of 2048 entries, and as digits in base
-- 2048 they are the number of the bytes, the highest first, followed by the first four bits of the
-- digest of the bytes.
pub indices_lem :
    (c : Digest) (bs : Bytes)
    → length bs ≡ 16
    → All IsByte bs
    → (All (λ i. i < 2048) (indices 12 (mnemonic_bits c bs)))
      × (number 2048 0 (indices 12 (mnemonic_bits c bs))
          ≡ number 256 0 bs * 16 + get_or (c.sha256 bs) 0 0 / 16)
unfolding mnemonic_bits
indices_lem c bs n h =
    let first = get_or (c.sha256 bs) 0 0 in
    let sum = take 4 (byte_bits first) in
    let len : length (entropy_bits bs ++ sum) ≡ 132 =
      omega (arith, length-append (entropy_bits bs) sum, length-entropy_bits bs) in
    (
      indices_bound 12 (entropy_bits bs ++ sum)
          (All-append IsBit (entropy_bits bs) sum (entropy_bits-IsBit bs)
            (All-take IsBit 4 (byte_bits first) (byte_bits-IsBit first)))
          len,
      number-indices 12 0 (entropy_bits bs ++ sum) len
          ∙ index_of-append 0 (entropy_bits bs) sum
          ∙ checksum_number (index_of 0 (entropy_bits bs)) first
              (first_byte (c.sha256 bs) (c.sha256-IsByte bs))
          ∙ ap (λ m. m * 16 + first / 16) (entropy_number 0 bs h),
    )
