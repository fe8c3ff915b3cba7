-- ===== src/Block.antt =====
-- shawncoin/src/core/block.cpp: serializeBlock, deserializeBlock and makeGenesisBlock; and the
-- methods of Block in shawncoin/src/core/types.cpp; with computeMerkleRoot of
-- shawncoin/src/mining/merkle.cpp, which the genesis block needs.
pub mod RoundTrip
pub mod Commitment
use shawncoin.Prelude.{
  ℕ, ◌+◌, ◌%◌, ◌^◌, Option, none, some, Bool, true, false, List, [], ◌∷◌, ◌++◌, leb, map, length,
  replicate, ltb, if◌then◌else◌,
}
use shawncoin.Wire.{
  Bytes, write_u32, write_u64, write_var_int, read, read_u32, read_u64, read_var_int,
}
use shawncoin.Wire.Monad.{Parser, pure, ◌>>=◌, read_many, write_many}
use shawncoin.Types.{
  Block, BlockHeader, Transaction, TxInput, TxOutput, Script, zero_hash, get_block_subsidy,
}
use shawncoin.Crypto.{Digest, sha256d}
use shawncoin.Transaction.{serialize_transaction, deserialize_transaction, with_txid}
use shawncoin.Merkle.{compute_merkle_root}

unfoldable pub write_header : BlockHeader → Bytes
write_header h =
    write_u32 h.version
    ++ (h.previous_hash
        ++ (h.merkle_root
            ++ (write_u64 h.timestamp ++ (write_u32 h.difficulty_target ++ write_u32 h.nonce))))

unfoldable pub serialize_block : Block → Bytes
serialize_block b =
    write_header b.header
    ++ (write_var_int (length b.transactions) ++ write_many serialize_transaction b.transactions)

unfoldable pub read_header : Parser BlockHeader
read_header = do
  version ← read_u32
  previous_hash ← read 32
  merkle_root ← read 32
  timestamp ← read_u64
  difficulty_target ← read_u32
  nonce ← read_u32
  pure (record {
    version = version;
    previous_hash = previous_hash;
    merkle_root = merkle_root;
    timestamp = timestamp;
    difficulty_target = difficulty_target;
    nonce = nonce;
  })

unfoldable pub read_block : Parser Block
read_block = do
  header ← read_header
  n ← read_var_int
  txs ← read_many n deserialize_transaction
  pure (record { header = header; transactions = txs })

-- Fewer than 80 bytes are refused at once; bytes behind the last transaction are ignored.
unfoldable pub deserialize_block : Bytes → Option Block
deserialize_block bs =
    if ltb (length bs) 80
    then none
    else elim (read_block bs) [ none ↦ none | some (b, rest) ↦ some b ]

-- The 80 bytes that getHeaderHash hashes: `(uint32_t)header.timestamp` keeps the low 32 bits.
unfoldable pub header_bytes : BlockHeader → Bytes
header_bytes h =
    write_u32 h.version
    ++ (h.previous_hash
        ++ (h.merkle_root
            ++ (write_u32 (h.timestamp % 2 ^ 32)
                ++ (write_u32 h.difficulty_target ++ write_u32 h.nonce))))

-- "Shawn Coin - The Future of Digital Currency 2026"
abbrev pub genesis_message : Bytes
genesis_message =
    83 ∷ 104 ∷ 97 ∷ 119 ∷ 110 ∷ 32 ∷ 67 ∷ 111 ∷ 105 ∷ 110 ∷ 32 ∷ 45 ∷ 32 ∷ 84 ∷ 104 ∷ 101 ∷ 32 ∷ 70
    ∷ 117 ∷ 116 ∷ 117 ∷ 114 ∷ 101 ∷ 32 ∷ 111 ∷ 102 ∷ 32 ∷ 68 ∷ 105 ∷ 103 ∷ 105 ∷ 116 ∷ 97 ∷ 108 ∷ 32
    ∷ 67 ∷ 117 ∷ 114 ∷ 114 ∷ 101 ∷ 110 ∷ 99 ∷ 121 ∷ 32 ∷ 50 ∷ 48 ∷ 50 ∷ 54 ∷ []

-- OP_DUP OP_HASH160 PUSH20, the hash, OP_EQUALVERIFY OP_CHECKSIG.
abbrev pub p2pkh_script : Bytes → Script
p2pkh_script hash = 0x76 ∷ 0xa9 ∷ 0x14 ∷ (hash ++ (0x88 ∷ 0xac ∷ []))

abbrev pub genesis_coinbase : Transaction
genesis_coinbase = record {
  version = 1;
  inputs =
      record {
        prev_tx_hash = zero_hash;
        output_index = 0xffffffff;
        signature = genesis_message;
        pubkey = [];
      }
      ∷ [];
  outputs =
      record { amount = get_block_subsidy 0; script_pubkey = p2pkh_script (replicate 20 0) } ∷ [];
  lock_time = 0;
  cached_txid = none;
}

module _ (c : Digest) where
  unfoldable pub get_header_hash : BlockHeader → Bytes
  get_header_hash h = sha256d c (header_bytes h)

  -- Block::getHash is the header's hash.
  unfoldable pub get_hash : Block → Bytes
  unfolding get_header_hash
  get_hash b = get_header_hash b.header

  unfoldable pub make_genesis_block : Block
  make_genesis_block = record {
    header = record {
      version = 1;
      previous_hash = zero_hash;
      merkle_root = compute_merkle_root c (genesis_coinbase ∷ []);
      timestamp = 1704067200;
      difficulty_target = 0x1d00ffff;
      nonce = 0;
    };
    transactions = map (with_txid c) (genesis_coinbase ∷ []);
  }
