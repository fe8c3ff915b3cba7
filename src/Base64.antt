-- ===== src/Base64.antt =====
-- Base64 in shawncoin/cli/shawncoin-cli.cpp (base64_encode) and shawncoin/src/rpc/server.cpp
-- (base64_decode), and the check of the credentials in RpcServer::start as it is compiled with
-- HAVE_RESTINIO. An int is its 32 bits as a number, of which only the lowest 12 are ever used; the
-- counters are `valb + 6` in the encoder and `valb + 8` in the decoder.
pub mod RoundTrip
use shawncoin.Prelude.{
  ℕ, zero, suc, ◌+◌, ◌-◌, ◌*◌, ◌/◌, ◌%◌, ◌^◌, Bool, true, false, not, ◌&&◌, ◌||◌, Option, none,
  some, List, [], ◌∷◌, ◌++◌, length, replicate, get_or, ltb, ◌==◌, if◌then◌else◌, codes,
  after_prefix,
}
use shawncoin.Wire.{Bytes}
use shawncoin.Transaction.{beq_bytes}
use shawncoin.Address.{index_in}

abbrev pub base64_alphabet : Bytes
base64_alphabet = codes "ABCDEFGHIJKLMNOPQRSTUVWXYZabcdefghijklmnopqrstuvwxyz0123456789+/"

abbrev pub base64_char : ℕ → ℕ
base64_char d = get_or base64_alphabet d 0

-- The characters of the bytes from a state on, without the padding.
unfoldable pub encode_from : ℕ → ℕ → Bytes → Bytes
encode_from val bits [] =
    if ltb 0 bits then base64_char (val * 256 % 2 ^ 32 / 2 ^ (bits + 2) % 64) ∷ [] else []
encode_from val bits (c ∷ text) =
    let v = (val * 256 + c) % 2 ^ 32 in
    if ltb (bits + 2) 6
    then base64_char (v / 2 ^ (bits + 2) % 64) ∷ encode_from v (bits + 2) text
    else base64_char (v / 2 ^ (bits + 2) % 64)
      ∷ base64_char (v / 2 ^ (bits - 4) % 64)
      ∷ encode_from v (bits - 4) text

-- `while (out.size()%4) out.push_back('=')`
unfoldable pub padding : ℕ → Bytes
padding n = if n % 4 == 0 then [] else replicate (4 - n % 4) b'='

unfoldable pub base64_encode : Bytes → Bytes
unfolding encode_from padding
base64_encode text = let out = encode_from 0 0 text in out ++ padding (length out)

-- The table T: `none` is -1.
unfoldable pub base64_digit : ℕ → Option ℕ
unfolding index_in
base64_digit c = index_in c base64_alphabet 0

unfoldable pub decode_from : ℕ → ℕ → Bytes → Bytes
unfolding base64_digit
decode_from val bits [] = []
decode_from val bits (c ∷ text) = elim (base64_digit c) [
  | none ↦ []
  | some d ↦
      let v = (val * 64 + d) % 2 ^ 32 in
      if ltb (bits + 6) 8
      then decode_from v (bits + 6) text
      else v / 2 ^ (bits - 2) % 256 ∷ decode_from v (bits - 2) text
]

unfoldable pub base64_decode : Bytes → Bytes
unfolding decode_from
base64_decode text = decode_from 0 0 text

-- What a request with the header `authorization` gets; the empty header stands for a missing one.
pub data Access : Type 0 where
  allowed : Access
  unauthorized : Access
  forbidden : Access

unfoldable pub check_auth : Bytes → Bytes → Bytes → Access
unfolding base64_decode
check_auth user password header =
    if (length user == 0) && (length password == 0)
    then allowed
    else elim (after_prefix (codes "Basic ") header) [
      | none ↦ unauthorized
      | some encoded ↦
          if beq_bytes (base64_decode encoded) (user ++ (b':' ∷ password))
          then allowed
          else forbidden
    ]
