-- ===== src/Protocol/Header.antt =====
-- The 24 bytes of a message header.
use shawncoin.Prelude.{◌^◌, ◌<◌, ◌≡◌, refl, false, some, ◌++◌, length, length-append, ltb, arith}
use shawncoin.Wire.{Bytes, write_u32, read, read_u32}
use shawncoin.Wire.Reads.{Reads, bind-Reads, done-Reads, read-Reads, u32-Reads, length-write_u32}
use shawncoin.Protocol.{
  MessageHeader, serialize_message_header, read_message_header, deserialize_message_header,
}

-- What a header of the source can hold.
pub record MessageHeaderFits (h : MessageHeader) : Type 0 where
  pub magic_fits : h.magic_number < 2 ^ 32
  pub command_len : length h.command ≡ 12
  pub length_fits : h.payload_length < 2 ^ 32
  pub checksum_fits : h.checksum < 2 ^ 32

header-Reads :
    (h : MessageHeader)
    → MessageHeaderFits h
    → Reads read_message_header (serialize_message_header h) h
unfolding read_message_header serialize_message_header
header-Reads h f =
    bind-Reads read_u32 _ (write_u32 h.magic_number) _ h.magic_number h
      (u32-Reads h.magic_number f.magic_fits)
      (bind-Reads (read 12) _ h.command _ h.command h (read-Reads h.command 12 f.command_len) (
        bind-Reads read_u32 _ (write_u32 h.payload_length) _ h.payload_length h
          (u32-Reads h.payload_length f.length_fits)
          (done-Reads read_u32 _ (write_u32 h.checksum) h.checksum
            (u32-Reads h.checksum f.checksum_fits))))

length-serialize_message_header :
    (h : MessageHeader) → length h.command ≡ 12 → length (serialize_message_header h) ≡ 24
unfolding serialize_message_header
length-serialize_message_header h e = rw (
  length-append (write_u32 h.magic_number)
      (h.command ++ (write_u32 h.payload_length ++ write_u32 h.checksum)),
  length-append h.command (write_u32 h.payload_length ++ write_u32 h.checksum),
  length-append (write_u32 h.payload_length) (write_u32 h.checksum),
  length-write_u32 h.magic_number,
  length-write_u32 h.payload_length,
  length-write_u32 h.checksum,
  e,
)

-- A header that fits the format takes 24 bytes and is read back, whatever bytes follow it.
pub deserialize_message_header-serialize_message_header :
    (h : MessageHeader) (rest : Bytes)
    → MessageHeaderFits h
    → (length (serialize_message_header h) ≡ 24)
      × (deserialize_message_header (serialize_message_header h ++ rest) ≡ some h)
unfolding deserialize_message_header
deserialize_message_header-serialize_message_header h rest f =
    let len = length-serialize_message_header h f.command_len in
    let long : ltb (length (serialize_message_header h ++ rest)) 24 ≡ false =
      ground (arith, length-append (serialize_message_header h) rest) in
    (len, rw (long, header-Reads h f rest) refl)
