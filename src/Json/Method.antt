-- ===== src/Json/Method.antt =====
-- The method of a request that a client writes is read back.
use shawncoin.Prelude.{
  ◌≡◌, refl, false, some, [], ◌∷◌, ◌++◌, All, ◌==◌, codes, find_text, split_at, after_prefix,
}
use shawncoin.Wire.{Bytes}
use shawncoin.Json.{find_method, parse, at_key, get_string, find_member}
use shawncoin.Transaction.{beq_bytes}

split_at-append :
    (before behind : Bytes)
    → All (λ c. (c == b'"') ≡ false) before
    → split_at b'"' (before ++ (b'"' ∷ behind)) ≡ some (before, behind)
unfolding split_at
split_at-append [] behind h = refl
split_at-append (c ∷ before) behind (e, h) = rw (e, split_at-append before behind h) refl

-- A request that begins as the clients write it has the method that it names, whatever follows, where
-- the name has no quotation mark.
pub parse_lem :
    (method rest : Bytes)
    → All (λ c. (c == b'"') ≡ false) method
    → get_string (
        at_key (codes "method") (
          parse (codes "{\"jsonrpc\":\"2.0\",\"id\":1,\"method\":\"" ++ (method ++ (b'"' ∷ rest)))))
      ≡ method
unfolding parse find_method at_key get_string find_text after_prefix split_at find_member beq_bytes
parse_lem method rest h =
    rw (get_string, at_key, parse, find_method, split_at-append method rest h) refl
