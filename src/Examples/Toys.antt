-- ===== src/Examples/Toys.antt =====
-- Small instances of the curve and of the cipher, and a digest under which addresses are read back.
use shawncoin.Prelude.{
  ◌≡◌, refl, subst, Bool, true, false, ◌&&◌, none, some, [], ◌∷◌, ◌++◌, length, replicate, get_or,
  All, All-replicate, ◌==◌, if◌then◌else◌, eq_of_some, codes, arith,
}
use shawncoin.Wire.{Bytes, IsByte}
use shawncoin.Crypto.{Digest}
use shawncoin.Transaction.{beq_bytes}
use shawncoin.Transaction.Equal.{beq_bytes→eq}
use shawncoin.Keys.{Curve}
use shawncoin.Wallet.Storage.{Cipher}
use shawncoin.Examples.{checksum, checksum_byte}

pub toy_accepts :
    (h k p s : Bytes)
    → (get_or h 0 0 ∷ get_or k 0 0 ∷ []) ≡ s
    → (get_or k 0 0 ∷ []) ≡ p
    → ((get_or s 0 0 == get_or h 0 0) && (get_or s 1 0 == get_or p 0 0)) ≡ true
toy_accepts h k p s es ep =
    subst (λ s. ((get_or s 0 0 == get_or h 0 0) && (get_or s 1 0 == get_or p 0 0)) ≡ true) es
      (subst (λ p. ((get_or h 0 0 == get_or h 0 0) && (get_or k 0 0 == get_or p 0 0)) ≡ true) ep
        (ground arith))

-- A public key is the first byte of the secret, and a signature that of the hash and the key.
abbrev pub toy_curve : Curve
toy_curve = record {
  seckey_verify = λ k. length k == 32;
  pubkey_create = λ k. some (get_or k 0 0 ∷ []);
  pubkey_serialize = λ p. 2 ∷ get_or p 0 0 ∷ replicate 31 0;
  pubkey_parse = λ q. some (get_or q 1 0 ∷ []);
  ecdsa_sign = λ h k. some (get_or h 0 0 ∷ get_or k 0 0 ∷ []);
  serialize_compact = λ s. get_or s 0 0 ∷ get_or s 1 0 ∷ replicate 62 0;
  parse_compact = λ q. some (get_or q 0 0 ∷ get_or q 1 0 ∷ []);
  ecdsa_verify = λ s h p. (get_or s 0 0 == get_or h 0 0) && (get_or s 1 0 == get_or p 0 0);
  created = λ k h. (get_or k 0 0 ∷ [], refl);
  signed = λ h k v. (get_or h 0 0 ∷ get_or k 0 0 ∷ [], refl);
  length-pubkey_serialize = λ p. refl;
  length-serialize_compact = λ s. refl;
  parse-serialize = λ k p e. subst (λ p. some (get_or p 0 0 ∷ []) ≡ some p) (eq_of_some e) refl;
  parse-serialize_compact =
      λ h k s e. subst (λ s. some (get_or s 0 0 ∷ get_or s 1 0 ∷ []) ≡ some s) (eq_of_some e) refl;
  verify-sign = λ h k p s ep es. toy_accepts h k p s (eq_of_some es) (eq_of_some ep);
}

-- The one text that the cipher encrypts.
abbrev pub secret : Bytes
secret = codes "abandon ability able"

pub some_of_if :
    {A : Type 0} (t : Bool) (y x : A) → (if t then some y else none) ≡ some x → (t ≡ true) × (y ≡ x)
some_of_if true y x h = (refl, eq_of_some h)
some_of_if false y x h = absurd (cc h)

abbrev pub toy_cipher : Cipher
toy_cipher = record {
  pbkdf2_sha512 = λ p s. some (replicate 64 (checksum 0 (p ++ s)));
  pbkdf2_sha256 = λ p s. some (replicate 48 (checksum 0 (p ++ s)));
  aes_encrypt = λ k i t. if beq_bytes t secret then some (replicate 32 9) else none;
  aes_decrypt = λ k i x. some secret;
  length-pbkdf2_sha512 = λ p s k e. subst (λ k. length k ≡ 64) (eq_of_some e) refl;
  length-pbkdf2_sha256 = λ p s k e. subst (λ k. length k ≡ 48) (eq_of_some e) refl;
  pbkdf2_sha256-IsByte = λ p s k e.
      subst (All IsByte) (eq_of_some e)
        (All-replicate IsByte 48 (checksum 0 (p ++ s)) (checksum_byte 0 (p ++ s)));
  aes_encrypt-IsByte = λ k i t x e.
      subst (All IsByte) (some_of_if (beq_bytes t secret) (replicate 32 9) x e).1
        (All-replicate IsByte 32 9 (omega arith));
  aes_encrypt-nonempty = λ k i t x e.
      subst (λ x. (length x == 0) ≡ false) (some_of_if (beq_bytes t secret) (replicate 32 9) x e).1
        refl;
  aes_decrypt-aes_encrypt = λ k i t x e.
      subst (λ u. some u ≡ some t)
        (beq_bytes→eq t secret (some_of_if (beq_bytes t secret) (replicate 32 9) x e).0) refl;
}

-- A digest whose checksums begin with 63 behind the first bytes of every hash in reverse order.
abbrev pub lucky : Digest
lucky = record {
  sha256 = λ d. 3 ∷ 2 ∷ 1 ∷ 0x3f ∷ replicate 28 0;
  ripemd160 = λ d. 1 ∷ 2 ∷ 3 ∷ replicate 17 0;
  length-sha256 = λ d. refl;
  sha256-IsByte = λ d. (
    omega arith,
    (omega arith, (omega arith, (omega arith, All-replicate IsByte 28 0 (omega arith)))),
  );
  length-ripemd160 = λ d. refl;
  ripemd160-IsByte =
      λ d. (omega arith, (omega arith, (omega arith, All-replicate IsByte 17 0 (omega arith))));
}
