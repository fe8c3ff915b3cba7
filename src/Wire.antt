-- ===== src/Wire.antt =====
-- Byte strings as the node writes and reads them: shawncoin/src/core/transaction.cpp (writeU32,
-- writeU64, writeVarInt, and the local functions `read` and `readVarInt` of
-- deserializeTransaction). A byte vector is a list of numbers. A writer is modelled by the bytes
-- that it appends to `out`; a reader takes the bytes from `pos` on and returns a value with the
-- bytes that follow it, or `none` where the source returns false. Integers are copied by memcpy on
-- a little-endian host.
pub mod Monad
pub mod Reads
pub mod Ranges
use shawncoin.Prelude.{
  ℕ, zero, suc, ◌+◌, ◌-◌, ◌*◌, ◌/◌, ◌%◌, ◌^◌, ◌<◌, Option, none, some, List, [], ◌∷◌, ◌++◌, ltb,
  leb, ◌==◌, if◌then◌else◌, length, take, drop, ◌&&◌, ◌||◌, Bool,
}
use Monad.{Parser, pure, ◌>>=◌, ◌>>◌}

abbrev pub Bytes : Type 0
Bytes = List ℕ

abbrev pub IsByte : ℕ → Type 0
IsByte b = b < 256

-- `v & 0xff`, `(v >> 8) & 0xff`, ...
unfoldable pub write_u32 : ℕ → Bytes
write_u32 v = v % 256 ∷ v / 2 ^ 8 % 256 ∷ v / 2 ^ 16 % 256 ∷ v / 2 ^ 24 % 256 ∷ []

-- Round `i` of the loop writes bits `i * 8` to `i * 8 + 7`; the count is of the rounds left.
write_u64_loop : ℕ → ℕ → ℕ → Bytes
write_u64_loop zero i v = []
write_u64_loop (suc n) i v = v / 2 ^ (i * 8) % 256 ∷ write_u64_loop n (i + 1) v

unfoldable pub write_u64 : ℕ → Bytes
unfolding write_u64_loop
write_u64 v = write_u64_loop 8 0 v

unfoldable pub write_var_int : ℕ → Bytes
write_var_int n =
    if ltb n 0xfd
    then n % 256 ∷ []
    else if leb n 0xffff
    then 0xfd ∷ n % 256 ∷ n / 2 ^ 8 % 256 ∷ []
    else 0xfe ∷ n % 256 ∷ n / 2 ^ 8 % 256 ∷ n / 2 ^ 16 % 256 ∷ n / 2 ^ 24 % 256 ∷ []

-- memcpy of `n` bytes, refused where fewer are left.
unfoldable pub read : ℕ → Parser Bytes
read n bs = if ltb (length bs) n then none else some (take n bs, drop n bs)

-- The number that little-endian bytes stand for.
abbrev pub le_value : Bytes → ℕ
le_value [] = 0
le_value (b ∷ bs) = b + 256 * le_value bs

unfoldable pub read_u32 : Parser ℕ
read_u32 = do bs ← read 4; pure (le_value bs)

unfoldable pub read_u64 : Parser ℕ
read_u64 = do bs ← read 8; pure (le_value bs)

-- `data[pos+4] << 24` is an int: from 0x80 on it is negative, and the conversion to size_t sets
-- the upper 32 bits.
sign_bits : ℕ → ℕ
sign_bits b = if ltb b 0x80 then 0 else 2 ^ 64 - 2 ^ 32

-- The two or four bytes behind a marker; `none` where they are not there.
var_int_2 : Parser ℕ
var_int_2 (a ∷ b ∷ rest) = some (a + b * 2 ^ 8, rest)
var_int_2 _ = none

var_int_4 : Parser ℕ
unfolding sign_bits
var_int_4 (a ∷ b ∷ c ∷ d ∷ rest) =
    some (a + b * 2 ^ 8 + c * 2 ^ 16 + d * 2 ^ 24 + sign_bits d, rest)
var_int_4 _ = none

unfoldable pub read_var_int : Parser ℕ
unfolding var_int_2 var_int_4
read_var_int [] = none
read_var_int (m ∷ rest) =
    if ltb m 0xfd
    then some (m, rest)
    else if m == 0xfd
    then var_int_2 rest
    else if m == 0xfe
    then var_int_4 rest
    else none
