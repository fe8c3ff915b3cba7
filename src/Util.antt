-- ===== src/Util.antt =====
-- shawncoin/src/util/util.cpp: hexadecimal text. A text is the list of its characters' codes.
pub mod Hex
use shawncoin.Prelude.{
  ℕ, zero, suc, ◌+◌, ◌-◌, ◌*◌, ◌/◌, ◌%◌, Bool, true, false, ◌||◌, Option, none, some, List, [], ◌∷◌,
  length, leb, ◌==◌, if◌then◌else◌, get_or,
}
use shawncoin.Wire.{Bytes}
use shawncoin.Types.{zero_hash}

-- "0123456789abcdef"
abbrev pub hex_digits : Bytes
hex_digits = 48 ∷ 49 ∷ 50 ∷ 51 ∷ 52 ∷ 53 ∷ 54 ∷ 55 ∷ 56 ∷ 57 ∷ 97 ∷ 98 ∷ 99 ∷ 100 ∷ 101 ∷ 102 ∷ []

unfoldable pub hex_encode : Bytes → Bytes
hex_encode [] = []
hex_encode (b ∷ bs) = get_or hex_digits (b / 16) 0 ∷ get_or hex_digits (b % 16) 0 ∷ hex_encode bs

-- std::tolower in the C locale.
to_lower : ℕ → ℕ
to_lower c = if leb 65 c then (if leb c 90 then c + 32 else c) else c

-- Every character from `a` on counts as a digit, and every one from `0` on; `none` is -1.
unfoldable pub digit_value : ℕ → Option ℕ
unfolding to_lower
digit_value c =
    let t = to_lower c in
    if leb 97 t then some (t - 97 + 10) else if leb 48 t then some (t - 48) else none

-- The low `n` bits of a | b.
unfoldable pub or_bits : ℕ → ℕ → ℕ → ℕ
or_bits zero a b = 0
or_bits (suc n) a b =
    let rest = or_bits n (a / 2) (b / 2) in
    if (a % 2 == 1) || (b % 2 == 1) then 1 + 2 * rest else 2 * rest

-- The byte of two characters; `none` where one is below `0`.
unfoldable pub pair_value : ℕ → ℕ → Option ℕ
pair_value x y = elim (digit_value x) [
  | none ↦ none
  | some a ↦ elim (digit_value y) [ none ↦ none | some b ↦ some (or_bits 8 (a * 16) b) ]
]

push : Option ℕ → Option Bytes → Option Bytes
push (some b) (some bs) = some (b ∷ bs)
push _ _ = none

-- Pairs of characters; `none` where the source returns the empty vector. A last single character is
-- ignored.
unfoldable pub hex_pairs : Bytes → Option Bytes
unfolding push
hex_pairs [] = some []
hex_pairs (x ∷ []) = some []
hex_pairs (x ∷ y ∷ text) = push (pair_value x y) (hex_pairs text)

unfoldable pub hex_decode : Bytes → Bytes
hex_decode text = elim (hex_pairs text) [ none ↦ [] | some bs ↦ bs ]

unfoldable pub uint256_to_hex : Bytes → Bytes
uint256_to_hex h = hex_encode h

unfoldable pub hex_to_uint256 : Bytes → Bytes
hex_to_uint256 text = let bs = hex_decode text in if length bs == 32 then bs else zero_hash
