-- ===== src/Address.antt =====
-- shawncoin/src/crypto/address.cpp: Base58, Base58Check, and the addresses of public key hashes. A
-- text is the list of its characters' codes.
pub mod Radix
pub mod Base58
pub mod RoundTrip
use shawncoin.Prelude.{
  ℕ, zero, suc, ◌+◌, ◌-◌, ◌*◌, ◌/◌, ◌%◌, ◌^◌, Bool, true, false, not, ◌||◌, Option, none, some,
  List, [], ◌∷◌, ◌++◌, map, length, take, drop, get_or, replicate, ltb, ◌==◌, if◌then◌else◌, codes,
}
use mathlib.Core.List.{reverse}
use shawncoin.Wire.{Bytes}
use shawncoin.Crypto.{Digest, sha256d}
use shawncoin.Transaction.{beq_bytes}

abbrev pub base58_alphabet : Bytes
base58_alphabet = codes "123456789ABCDEFGHJKLMNPQRSTUVWXYZabcdefghijkmnopqrstuvwxyz"

abbrev pub address_version : ℕ
address_version = 0x3f

-- `while (carry)`, on fuel. Each round divides the carry, so `suc carry` rounds are enough.
unfoldable pub push_carry : ℕ → ℕ → ℕ → Bytes
push_carry to zero carry = []
push_carry to (suc fuel) carry =
    let rest = push_carry to fuel (carry / to) in if carry == 0 then [] else carry % to ∷ rest

-- The body of the outer loops of encodeBase58 (from 256 to 58) and decodeBase58 (from 58 to 256):
-- the digits times `from` plus the carry, the lowest digit first.
unfoldable pub shift_in : ℕ → ℕ → ℕ → Bytes → Bytes
unfolding push_carry
shift_in from to carry [] = push_carry to (suc carry) carry
shift_in from to carry (d ∷ ds) =
    let c = (carry + d * from) % 2 ^ 32 in c % to ∷ shift_in from to (c / to) ds

unfoldable pub encode_digits : Bytes → Bytes → Bytes
encode_digits digits [] = digits
encode_digits digits (b ∷ bs) = encode_digits (shift_in 256 58 b digits) bs

-- One `1` for each leading zero.
unfoldable pub leading_ones : Bytes → Bytes
leading_ones [] = []
leading_ones (b ∷ bs) = if b == 0 then b'1' ∷ leading_ones bs else []

abbrev pub digit_char : ℕ → ℕ
digit_char d = get_or base58_alphabet d 0

unfoldable pub encode_base58 : Bytes → Bytes
encode_base58 bs = leading_ones bs ++ map digit_char (reverse (encode_digits [] bs))

-- strchr, from index i on.
unfoldable pub index_in : ℕ → Bytes → ℕ → Option ℕ
index_in c [] i = none
index_in c (x ∷ xs) i = if x == c then some i else index_in c xs (i + 1)

-- strchr finds the terminating NUL too, with the index 58.
unfoldable pub char_digit : ℕ → Option ℕ
char_digit c = index_in c (base58_alphabet ++ (0 ∷ [])) 0

-- `none` is the empty vector that is returned at a character outside the alphabet.
unfoldable pub decode_digits : Bytes → Bytes → Option Bytes
decode_digits result [] = some result
decode_digits result (c ∷ text) = elim (char_digit c) [
  | none ↦ none
  | some d ↦ decode_digits (shift_in 58 256 d result) text
]

-- One zero for each leading `1`.
unfoldable pub leading_zeros : Bytes → Bytes
leading_zeros [] = []
leading_zeros (c ∷ text) = if c == b'1' then 0 ∷ leading_zeros text else []

-- The digits are returned as they were collected, the lowest first.
unfoldable pub decode_base58 : Bytes → Bytes
decode_base58 text = elim (decode_digits [] text) [
  | none ↦ []
  | some result ↦ leading_zeros text ++ result
]

module _ (c : Digest) where
  unfoldable pub encode_base58_check : Bytes → ℕ → Bytes
  encode_base58_check payload version =
      let buf = version ∷ payload in encode_base58 (buf ++ take 4 (sha256d c buf))

  -- The payload and the version: the version is set before the checksum is tested.
  unfoldable pub decode_base58_check : Bytes → ℕ → Bytes × ℕ
  decode_base58_check address version =
      let decoded = decode_base58 address in
      let n = length decoded in
      let payload = take (n - 4) decoded in
      if ltb n 5
      then ([], version)
      else if not (beq_bytes (take 4 (sha256d c payload)) (drop (n - 4) decoded))
      then ([], get_or decoded 0 0)
      else (drop 1 payload, get_or decoded 0 0)

  unfoldable pub pub_key_hash_to_address : Bytes → Bytes
  pub_key_hash_to_address hash = encode_base58_check hash address_version

  unfoldable pub address_to_pub_key_hash : Bytes → Bytes
  address_to_pub_key_hash address =
      let (hash, version) = decode_base58_check address 0 in
      if not (length hash == 20) || not (version == address_version) then [] else hash
