-- ===== src/Examples/Files.antt =====
-- A saved chain state, a hexadecimal text and a message header.
use shawncoin.Prelude.{◌*◌, ◌≡◌, refl, true, [], ◌∷◌, none, some, length, replicate, arith}
use shawncoin.Wire.{Bytes}
use shawncoin.Types.{zero_hash}
use shawncoin.Storage.{ChainState, disk_image, save_to_disk, load_from_disk}
use shawncoin.Storage.Disk.{StateFits, rekeyed, load_from_disk-save_to_disk}
use shawncoin.Util.{hex_encode, hex_decode}
use shawncoin.Util.Hex.{hex_decode-hex_encode}
use shawncoin.Protocol.{MessageHeader}
use shawncoin.Protocol.Header.{MessageHeaderFits}
use shawncoin.Examples.{coin1}

-- Two blocks under two hashes; the contents do not matter here.
abbrev state : ChainState
state = record {
  best_hash = coin1;
  best_height = 1;
  blocks = (zero_hash, 1 ∷ 2 ∷ []) ∷ (coin1, 3 ∷ []) ∷ [];
  writable = true;
  file = none;
}

state-StateFits : StateFits state
state-StateFits = record {
  best_len = refl;
  height_fits = omega arith;
  count_fits = omega arith;
  entries_fit = ((omega arith, omega arith), ((omega arith, omega arith), tt));
}

-- Another state, with nothing in it.
abbrev fresh : ChainState
fresh = record { best_hash = zero_hash; best_height = 0; blocks = []; writable = true; file = none }

load_from_disk-save_to_disk_example :
    load_from_disk (λ i. zero_hash) (record fresh { file = (save_to_disk state).0.file }) ≡ (
      record fresh {
        best_hash = coin1;
        best_height = 1;
        blocks = rekeyed (λ i. zero_hash) 0 state.blocks [];
        file = some (disk_image state);
      },
      true,
    )
load_from_disk-save_to_disk_example =
    load_from_disk-save_to_disk (λ i. zero_hash) state fresh refl state-StateFits

abbrev three_bytes : Bytes
three_bytes = 0 ∷ 171 ∷ 255 ∷ []

hex_decode-hex_encode_example :
    (hex_decode (hex_encode three_bytes) ≡ three_bytes)
    × (length (hex_encode three_bytes) ≡ 2 * length three_bytes)
hex_decode-hex_encode_example = hex_decode-hex_encode three_bytes (omega arith)

-- "ping"
abbrev ping : MessageHeader
ping = record {
  magic_number = 0x53484157;
  command = 112 ∷ 105 ∷ 110 ∷ 103 ∷ replicate 8 0;
  payload_length = 8;
  checksum = 77;
}

ping-MessageHeaderFits : MessageHeaderFits ping
ping-MessageHeaderFits = record {
  magic_fits = omega arith;
  command_len = refl;
  length_fits = omega arith;
  checksum_fits = omega arith;
}
