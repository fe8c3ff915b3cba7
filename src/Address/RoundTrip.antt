-- ===== src/Address/RoundTrip.antt =====
-- An address that the node has made is not read back.
use shawncoin.Prelude.{
  ℕ, ◌≡◌, ◌⊎◌, inl, inr, refl, ap, ◌∙◌, false, [], ◌∷◌, ◌++◌, length, length-append, length-take,
  take, take_exact, drop_exact, All, All-append, All-take, arith, Bool-cases,
}
use mathlib.Core.List.{reverse, reverse-append}
use shawncoin.Wire.{Bytes, IsByte}
use shawncoin.Crypto.{Digest, sha256d, length-sha256d, sha256d-IsByte}
use shawncoin.Transaction.{beq_bytes}
use shawncoin.Transaction.Equal.{beq_bytes→eq}
use shawncoin.Address.{
  decode_base58, encode_base58_check, decode_base58_check, pub_key_hash_to_address,
  address_to_pub_key_hash, address_version,
}
use shawncoin.Address.Base58.{decode_base58-encode_base58}

length-reverse : (xs : Bytes) → length (reverse xs) ≡ length xs
length-reverse [] = refl
length-reverse (x ∷ xs) =
    ap length (reverse-append (x ∷ []) xs)
    ∙ omega (arith, length-append (reverse xs) (x ∷ []), length-reverse xs)

module _ (c : Digest) (x y z : ℕ) (rest : Bytes) where
  abbrev pub hash : Bytes
  hash = x ∷ y ∷ z ∷ rest

  -- The bytes of the address behind the first four.
  abbrev pub tail : Bytes
  tail = rest ++ take 4 (sha256d c (address_version ∷ hash))

  -- The last four bytes of what is decoded.
  abbrev pub front : Bytes
  front = z ∷ y ∷ x ∷ address_version ∷ []

  length-tail : length rest ≡ 17 → length (reverse tail) ≡ 21
  length-tail e = omega (
    arith,
    length-reverse tail,
    length-append rest (take 4 (sha256d c (address_version ∷ hash))),
    length-take 4 (sha256d c (address_version ∷ hash)),
    length-sha256d c (address_version ∷ hash),
  )

  decoded : All IsByte hash → decode_base58 (pub_key_hash_to_address c hash) ≡ reverse tail ++ front
  unfolding pub_key_hash_to_address encode_base58_check
  decoded h =
      decode_base58-encode_base58 (address_version ∷ x ∷ y ∷ z ∷ tail) (
        omega arith,
        (
          h.0,
          (
            h.1.0,
            (
              h.1.1.0,
              All-append IsByte rest _ h.1.1.1
                  (All-take IsByte 4 _ (sha256d-IsByte c (address_version ∷ hash))),
            ),
          ),
        ),
      )
      ∙ reverse-append (address_version ∷ x ∷ y ∷ z ∷ []) tail

  -- An address whose last four bytes, as decoded, are not the checksum of the others is refused.
  checked :
      (text p q : Bytes)
      → decode_base58 text ≡ p ++ q
      → length p ≡ 21
      → length q ≡ 4
      → beq_bytes (take 4 (sha256d c p)) q ≡ false
      → address_to_pub_key_hash c text ≡ []
  unfolding address_to_pub_key_hash decode_base58_check
  checked text p q e lp lq bad =
      let n : length (p ++ q) ≡ 25 = omega (arith, length-append p q, lp, lq) in
      rw (e, n, take_exact 21 p q lp, drop_exact 21 p q lp, bad) refl

  -- An address that the node has made from a 20-byte hash is read back as no hash, unless the digest
  -- of the last 21 bytes in reverse order happens to begin with the first four bytes of the address in
  -- reverse order.
  pub address_to_pub_key_hash-pub_key_hash_to_address :
      length rest ≡ 17
      → All IsByte hash
      → (address_to_pub_key_hash c (pub_key_hash_to_address c hash) ≡ [])
        ⊎ (take 4 (sha256d c (reverse tail)) ≡ front)
  address_to_pub_key_hash-pub_key_hash_to_address n h =
      elim (Bool-cases (beq_bytes (take 4 (sha256d c (reverse tail))) front)) [
        | inl e ↦ inr (beq_bytes→eq _ _ e)
        | inr e ↦ inl (
            checked (pub_key_hash_to_address c hash) (reverse tail) front (decoded h)
              (length-tail n) refl e)
      ]
