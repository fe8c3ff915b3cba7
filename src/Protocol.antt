-- ===== src/Protocol.antt =====
-- shawncoin/src/network/protocol.cpp: the header of a network message, with the names of the message
-- types. A text is the list of its characters' codes.
pub mod Header
pub mod Names
use shawncoin.Prelude.{
  ℕ, Option, none, some, List, [], ◌∷◌, ◌++◌, length, ltb, if◌then◌else◌, codes,
}
use shawncoin.Wire.{Bytes, write_u32, read, read_u32}
use shawncoin.Wire.Monad.{Parser, pure, ◌>>=◌}

pub record MessageHeader : Type 0 where
  pub magic_number : ℕ
  pub command : Bytes
  pub payload_length : ℕ
  pub checksum : ℕ

-- The four copies fill the 24 bytes of the buffer.
unfoldable pub serialize_message_header : MessageHeader → Bytes
serialize_message_header h =
    write_u32 h.magic_number ++ (h.command ++ (write_u32 h.payload_length ++ write_u32 h.checksum))

unfoldable pub read_message_header : Parser MessageHeader
read_message_header = do
  magic_number ← read_u32
  command ← read 12
  payload_length ← read_u32
  checksum ← read_u32
  pure (record {
    magic_number = magic_number;
    command = command;
    payload_length = payload_length;
    checksum = checksum;
  })

-- Bytes behind the first 24 are ignored.
unfoldable pub deserialize_message_header : Bytes → Option MessageHeader
deserialize_message_header bs =
    if ltb (length bs) 24
    then none
    else elim (read_message_header bs) [ none ↦ none | some (h, rest) ↦ some h ]

pub data MessageType : Type 0 where
  msg_version : MessageType
  msg_verack : MessageType
  msg_getaddr : MessageType
  msg_addr : MessageType
  msg_inv : MessageType
  msg_getdata : MessageType
  msg_block : MessageType
  msg_tx : MessageType
  msg_ping : MessageType
  msg_pong : MessageType
  msg_getblocks : MessageType
  msg_getheaders : MessageType

unfoldable pub message_type_to_string : MessageType → Bytes
message_type_to_string msg_version = codes "version"
message_type_to_string msg_verack = codes "verack"
message_type_to_string msg_getaddr = codes "getaddr"
message_type_to_string msg_addr = codes "addr"
message_type_to_string msg_inv = codes "inv"
message_type_to_string msg_getdata = codes "getdata"
message_type_to_string msg_block = codes "block"
message_type_to_string msg_tx = codes "tx"
message_type_to_string msg_ping = codes "ping"
message_type_to_string msg_pong = codes "pong"
message_type_to_string msg_getblocks = codes "getblocks"
message_type_to_string msg_getheaders = codes "getheaders"
