-- ===== src/Protocol/Names.antt =====
-- The names of the message types.
use shawncoin.Prelude.{
  ◌≡◌, refl, ap, eq_of_some, ◌∙◌, sym, Option, none, some, List, [], ◌∷◌, length, ◌≤◌,
  if◌then◌else◌, arith,
}
use shawncoin.Wire.{Bytes}
use shawncoin.Transaction.{beq_bytes}
use shawncoin.Protocol.{
  MessageType, msg_version, msg_verack, msg_getaddr, msg_addr, msg_inv, msg_getdata, msg_block,
  msg_tx, msg_ping, msg_pong, msg_getblocks, msg_getheaders, message_type_to_string,
}

-- The first of some types that has the name.
search_name : Bytes → List MessageType → Option MessageType
search_name name [] = none
search_name name (t ∷ ts) =
    let rest = search_name name ts in
    if beq_bytes (message_type_to_string t) name then some t else rest

abbrev every_type : List MessageType
every_type =
    msg_version ∷ msg_verack ∷ msg_getaddr ∷ msg_addr ∷ msg_inv ∷ msg_getdata ∷ msg_block ∷ msg_tx
    ∷ msg_ping ∷ msg_pong ∷ msg_getblocks ∷ msg_getheaders ∷ []

found : (t : MessageType) → search_name (message_type_to_string t) every_type ≡ some t
unfolding search_name beq_bytes message_type_to_string
found msg_version = refl
found msg_verack = refl
found msg_getaddr = refl
found msg_addr = refl
found msg_inv = refl
found msg_getdata = refl
found msg_block = refl
found msg_tx = refl
found msg_ping = refl
found msg_pong = refl
found msg_getblocks = refl
found msg_getheaders = refl

-- Different message types have different names.
pub message_type_to_string_injective :
    (s t : MessageType) → message_type_to_string s ≡ message_type_to_string t → s ≡ t
message_type_to_string_injective s t e =
    eq_of_some (sym (found s) ∙ ap (λ n. search_name n every_type) e ∙ found t)

-- Every name fits into the twelve bytes of the header.
pub message_type_to_string_bounds : (t : MessageType) → length (message_type_to_string t) ≤ 12
unfolding message_type_to_string
message_type_to_string_bounds t = elim t as (λ k. length (message_type_to_string k) ≤ 12) [
  | msg_version ↦ omega arith
  | msg_verack ↦ omega arith
  | msg_getaddr ↦ omega arith
  | msg_addr ↦ omega arith
  | msg_inv ↦ omega arith
  | msg_getdata ↦ omega arith
  | msg_block ↦ omega arith
  | msg_tx ↦ omega arith
  | msg_ping ↦ omega arith
  | msg_pong ↦ omega arith
  | msg_getblocks ↦ omega arith
  | msg_getheaders ↦ omega arith
]
