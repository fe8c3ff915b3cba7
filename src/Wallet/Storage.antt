-- ===== src/Wallet/Storage.antt =====
-- shawncoin/src/wallet/wallet.cpp: create, restore, and the encrypted file of a wallet. OpenSSL's
-- PBKDF2 and AES-256-CBC are parameters: a `Cipher` holds the calls and what their documentation
-- says of them. RAND_bytes and secure_rand are arguments, `none` where they fail.
pub mod RoundTrip
use shawncoin.Prelude.{
  ℕ, ◌≡◌, Bool, true, false, not, ◌||◌, Option, none, some, List, [], ◌∷◌, ◌++◌, length, take, drop,
  ◌==◌, if◌then◌else◌, All, codes, lines, after_prefix,
}
use shawncoin.Prelude.Optional.{◌>>=◌, ◌>>◌, guard}
use shawncoin.Wire.{Bytes, IsByte}
use shawncoin.Crypto.{Digest}
use shawncoin.Util.{hex_encode, hex_decode}
use shawncoin.Mnemonic.{generate_mnemonic12, mnemonic_to_seed}
use shawncoin.Wallet.{Wallet}
use shawncoin.Wallet.HdWallet.{set_seed}

pub record Cipher : Type 0 where
  -- PKCS5_PBKDF2_HMAC of a password and a salt: SHA512, 2048 rounds, 64 bytes; and SHA256, 10000
  -- rounds, 48 bytes.
  pub pbkdf2_sha512 : Bytes → Bytes → Option Bytes
  pub pbkdf2_sha256 : Bytes → Bytes → Option Bytes
  -- The Init, Update and Final calls, of a key, an initial vector and a text.
  pub aes_encrypt : Bytes → Bytes → Bytes → Option Bytes
  pub aes_decrypt : Bytes → Bytes → Bytes → Option Bytes
  pub length-pbkdf2_sha512 : (p s k : Bytes) → pbkdf2_sha512 p s ≡ some k → length k ≡ 64
  pub length-pbkdf2_sha256 : (p s k : Bytes) → pbkdf2_sha256 p s ≡ some k → length k ≡ 48
  pub pbkdf2_sha256-IsByte : (p s k : Bytes) → pbkdf2_sha256 p s ≡ some k → All IsByte k
  pub aes_encrypt-IsByte : (k i t x : Bytes) → aes_encrypt k i t ≡ some x → All IsByte x
  -- The padding makes every text at least a block.
  pub aes_encrypt-nonempty :
      (k i t x : Bytes) → aes_encrypt k i t ≡ some x → (length x == 0) ≡ false
  pub aes_decrypt-aes_encrypt :
      (k i t x : Bytes) → aes_encrypt k i t ≡ some x → aes_decrypt k i x ≡ some t

-- The salt, the initial vector and the encrypted text in hexadecimal.
pub record Sealed : Type 0 where
  pub salt : Bytes
  pub iv : Bytes
  pub ct : Bytes

unfoldable pub sealed_text : Sealed → Bytes
sealed_text s =
    codes "salt:"
    ++ (s.salt
        ++ (b'\n' ∷ (codes "iv:" ++ (s.iv ++ (b'\n' ∷ (codes "ct:" ++ (s.ct ++ (b'\n' ∷ []))))))))

-- A line of the file, and all of them: a later line of a kind replaces an earlier one.
unfoldable pub read_line : Sealed → Bytes → Sealed
read_line s line = elim (after_prefix (codes "salt:") line) [
  | some salt ↦ record s { salt = salt }
  | none ↦ elim (after_prefix (codes "iv:") line) [
    | some iv ↦ record s { iv = iv }
    | none ↦ elim (after_prefix (codes "ct:") line) [ some ct ↦ record s { ct = ct } | none ↦ s ]
  ]
]

unfoldable pub read_sealed : Sealed → List Bytes → Sealed
unfolding read_line
read_sealed s [] = s
read_sealed s (line ∷ rest) = read_sealed (read_line s line) rest

module _ (k : Cipher) where
  unfoldable pub restore : Bytes → Bytes → Wallet → Wallet × Bool
  restore mnemonic passphrase w =
      let (seed, ok) = set_seed (mnemonic_to_seed k.pbkdf2_sha512 mnemonic passphrase) w.seed in
      (record w { mnemonic = mnemonic; seed = seed }, ok)

  -- `none`: a null pointer has been printed as a word.
  unfoldable pub create : Digest → Option Bytes → Bytes → Wallet → Option (Wallet × Bool)
  create c entropy passphrase w = elim (generate_mnemonic12 c entropy) [
    | none ↦ none
    | some mnemonic ↦ some (
        if length mnemonic == 0
        then (record w { mnemonic = [] }, false)
        else restore mnemonic passphrase w)
  ]

  unfoldable pub encrypt_with_pass : Option Bytes → Bytes → Bytes → Option Sealed
  encrypt_with_pass random pass plaintext = do
    salt ← random
    key_iv ← k.pbkdf2_sha256 pass salt
    let key = take 32 key_iv
    let iv = drop 32 key_iv
    ct ← k.aes_encrypt key iv plaintext
    some (record { salt = hex_encode salt; iv = hex_encode iv; ct = hex_encode ct })

  unfoldable pub decrypt_with_pass : Bytes → Sealed → Option Bytes
  decrypt_with_pass pass s = do
    let salt = hex_decode s.salt
    let iv = hex_decode s.iv
    let ct = hex_decode s.ct
    guard (not (not (length salt == 16) || (not (length iv == 16) || (length ct == 0))))
    key_iv ← k.pbkdf2_sha256 pass salt
    k.aes_decrypt (take 32 key_iv) iv ct

  -- The file that is written; `opened` says whether it can be.
  unfoldable pub save_to_file : Bool → Option Bytes → Bytes → Wallet → Option Bytes
  unfolding sealed_text
  save_to_file opened random pass w = do
    s ← encrypt_with_pass random pass w.mnemonic
    guard opened
    some (sealed_text s)

  -- The content of the file, `none` where it cannot be opened. The mnemonic is restored without a
  -- passphrase.
  unfoldable pub load_from_file : Option Bytes → Bytes → Wallet → Wallet × Bool
  unfolding read_sealed
  load_from_file file pass w = elim file [
    | none ↦ (w, false)
    | some text ↦
        let s = read_sealed (record { salt = []; iv = []; ct = [] }) (lines text) in
        if (length s.salt == 0) || ((length s.iv == 0) || (length s.ct == 0))
        then (w, false)
        else elim (decrypt_with_pass pass s) [ none ↦ (w, false) | some plain ↦ restore plain [] w ]
  ]
