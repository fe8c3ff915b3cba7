-- ===== src/Mnemonic.antt =====
-- shawncoin/src/wallet/mnemonic.cpp: a mnemonic of twelve words from sixteen bytes, and the seed of a
-- mnemonic. The random bytes are an argument (`none` where shawncoin_secure_rand fails), SHA256 is
-- that of the `Digest`, and PKCS5_PBKDF2_HMAC is a parameter.
pub mod Words
pub mod Indices
use shawncoin.Prelude.{
  ℕ, zero, suc, ◌+◌, ◌*◌, ◌/◌, ◌%◌, ◌^◌, Option, none, some, List, [], ◌∷◌, ◌++◌, take, drop,
  get_or, get_elem?, codes,
}
use shawncoin.Prelude.Optional.{◌>>=◌}
use shawncoin.Wire.{Bytes}
use shawncoin.Crypto.{Digest}
use Words.{bip39_words}

-- The bits of a byte, the highest first.
unfoldable pub byte_bits : ℕ → List ℕ
byte_bits b =
    b / 2 ^ 7 % 2
    ∷ b / 2 ^ 6 % 2
    ∷ b / 2 ^ 5 % 2
    ∷ b / 2 ^ 4 % 2
    ∷ b / 2 ^ 3 % 2
    ∷ b / 2 ^ 2 % 2
    ∷ b / 2 % 2
    ∷ b % 2
    ∷ []

unfoldable pub entropy_bits : Bytes → List ℕ
unfolding byte_bits
entropy_bits [] = []
entropy_bits (b ∷ bs) = byte_bits b ++ entropy_bits bs

-- `idx = (idx << 1) | bit` over some bits.
unfoldable pub index_of : ℕ → List ℕ → ℕ
index_of idx [] = idx
index_of idx (bit ∷ bits) = index_of (2 * idx + bit) bits

-- The indices of n words, of eleven bits each.
unfoldable pub indices : ℕ → List ℕ → List ℕ
unfolding index_of
indices zero bits = []
indices (suc n) bits = index_of 0 (take 11 bits) ∷ indices n (drop 11 bits)

-- The words at the indices, with blanks between them. `none`: an index is past the words of the table,
-- and a null pointer is printed, whose behaviour is undefined.
unfoldable pub join_words : List ℕ → Option Bytes
join_words [] = some []
join_words (i ∷ []) = get_elem? bip39_words i
join_words (i ∷ j ∷ is) = do
  word ← get_elem? bip39_words i
  rest ← join_words (j ∷ is)
  some (word ++ (b' ' ∷ rest))

-- The entropy and the first four bits of its digest.
unfoldable pub mnemonic_bits : Digest → Bytes → List ℕ
unfolding entropy_bits byte_bits
mnemonic_bits c entropy = entropy_bits entropy ++ take 4 (byte_bits (get_or (c.sha256 entropy) 0 0))

-- The empty text where there are no random bytes.
unfoldable pub generate_mnemonic12 : Digest → Option Bytes → Option Bytes
unfolding mnemonic_bits indices
generate_mnemonic12 c entropy = elim entropy [
  | none ↦ some []
  | some bytes ↦ join_words (indices 12 (mnemonic_bits c bytes))
]

-- PBKDF2 takes the mnemonic and the salt, with SHA512, 2048 rounds and 64 bytes. The empty seed where
-- it fails.
unfoldable pub mnemonic_to_seed : (Bytes → Bytes → Option Bytes) → Bytes → Bytes → Bytes
mnemonic_to_seed pbkdf2 mnemonic passphrase =
    elim (pbkdf2 mnemonic (codes "mnemonic" ++ passphrase)) [ none ↦ [] | some seed ↦ seed ]
