-- ===== src/Util/Hex.antt =====
-- Decoding undoes encoding.
use shawncoin.Prelude.{
  ℕ, ◌*◌, ◌/◌, ◌%◌, ◌<◌, ◌≡◌, refl, Bool, true, false, Option, none, some, [], ◌∷◌, length, ◌==◌,
  All, arith, get_or, passes, passes_lem, some_of_test,
}
use shawncoin.Wire.{Bytes, IsByte}
use shawncoin.Util.{
  hex_digits, hex_encode, digit_value, or_bits, pair_value, push, hex_pairs, hex_decode,
  uint256_to_hex, hex_to_uint256,
}

-- The byte that the two digits of b stand for.
read_back : ℕ → Option ℕ
read_back b = pair_value (get_or hex_digits (b / 16) 0) (get_or hex_digits (b % 16) 0)

is_read_back : ℕ → Bool
unfolding read_back
is_read_back b = elim (read_back b) [ none ↦ false | some d ↦ d == b ]

every_byte : passes 256 is_read_back ≡ true
unfolding passes is_read_back read_back pair_value digit_value or_bits
every_byte = refl

byte_read_back : (b : ℕ) → b < 256 → read_back b ≡ some b
unfolding is_read_back
byte_read_back b lt = some_of_test (read_back b) b (passes_lem 256 is_read_back b every_byte lt)

pairs-encode : (bs : Bytes) → All IsByte bs → hex_pairs (hex_encode bs) ≡ some bs
unfolding hex_pairs hex_encode push
pairs-encode [] h = refl
pairs-encode (b ∷ bs) (hb, h) =
    let e : pair_value (get_or hex_digits (b / 16) 0) (get_or hex_digits (b % 16) 0) ≡ some b =
      unfold read_back in byte_read_back b hb in
    rw (e, pairs-encode bs h)

length-hex_encode : (bs : Bytes) → length (hex_encode bs) ≡ 2 * length bs
unfolding hex_encode
length-hex_encode [] = refl
length-hex_encode (b ∷ bs) = omega (arith, length-hex_encode bs)

-- Decoding the hexadecimal text of bytes gives the bytes, and the text is twice as long.
pub hex_decode-hex_encode :
    (bs : Bytes)
    → All IsByte bs
    → (hex_decode (hex_encode bs) ≡ bs) × (length (hex_encode bs) ≡ 2 * length bs)
unfolding hex_decode
hex_decode-hex_encode bs h = (rw (pairs-encode bs h, hex_decode) refl, length-hex_encode bs)

-- A hash of 32 bytes is read back from its text.
pub hex_to_uint256-uint256_to_hex :
    (h : Bytes) → length h ≡ 32 → All IsByte h → hex_to_uint256 (uint256_to_hex h) ≡ h
unfolding hex_to_uint256 uint256_to_hex
hex_to_uint256-uint256_to_hex h len b = rw ((hex_decode-hex_encode h b).0, len)
