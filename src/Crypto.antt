-- ===== src/Crypto.antt =====
-- The hash functions of shawncoin/src/crypto/hash.c over OpenSSL's SHA256 and EVP_ripemd160, which
-- are parameters: a `Digest` holds the two functions and what their documentation says of the
-- length and the form of their results.
use shawncoin.Prelude.{◌≡◌, length, All}
use shawncoin.Wire.{Bytes, IsByte}

pub record Digest : Type 0 where
  pub sha256 : Bytes → Bytes
  pub ripemd160 : Bytes → Bytes
  pub length-sha256 : (d : Bytes) → length (sha256 d) ≡ 32
  pub sha256-IsByte : (d : Bytes) → All IsByte (sha256 d)
  pub length-ripemd160 : (d : Bytes) → length (ripemd160 d) ≡ 20
  pub ripemd160-IsByte : (d : Bytes) → All IsByte (ripemd160 d)

module _ (c : Digest) where
  unfoldable pub sha256d : Bytes → Bytes
  sha256d d = c.sha256 (c.sha256 d)

  unfoldable pub hash160 : Bytes → Bytes
  hash160 d = c.ripemd160 (c.sha256 d)

  pub length-sha256d : (d : Bytes) → length (sha256d d) ≡ 32
  unfolding sha256d
  length-sha256d d = c.length-sha256 (c.sha256 d)

  pub sha256d-IsByte : (d : Bytes) → All IsByte (sha256d d)
  unfolding sha256d
  sha256d-IsByte d = c.sha256-IsByte (c.sha256 d)
