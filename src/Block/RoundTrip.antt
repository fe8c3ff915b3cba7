-- ===== src/Block/RoundTrip.antt =====
-- deserializeBlock undoes serializeBlock.
use shawncoin.Prelude.{
  ◌^◌, ◌<◌, ◌≡◌, refl, none, some, false, List, [], ◌∷◌, ◌++◌, map, length, length-append,
  append_assoc, All, ltb, le→ltb, arith,
}
use shawncoin.Wire.{Bytes, write_var_int, read, read_u32, read_u64, read_var_int}
use shawncoin.Wire.Monad.{◌>>=◌, read_many, write_many}
use shawncoin.Wire.Reads.{
  Reads, bind-Reads, done-Reads, read-Reads, u32-Reads, u64-Reads, var_int-Reads, length-write_u32,
  length-write_u64,
}
use shawncoin.Types.{Block, BlockHeader, Transaction}
use shawncoin.Transaction.{serialize_transaction, deserialize_transaction}
use shawncoin.Transaction.RoundTrip.{TransactionFits, deserialize_transaction-serialize_transaction}
use shawncoin.Block.{write_header, serialize_block, read_header, read_block, deserialize_block}

pub record HeaderFits (h : BlockHeader) : Type 0 where
  pub version_fits : h.version < 2 ^ 32
  pub previous_len : length h.previous_hash ≡ 32
  pub merkle_len : length h.merkle_root ≡ 32
  pub timestamp_fits : h.timestamp < 2 ^ 64
  pub target_fits : h.difficulty_target < 2 ^ 32
  pub nonce_fits : h.nonce < 2 ^ 32

pub record BlockFits (b : Block) : Type 0 where
  pub header_fits : HeaderFits b.header
  pub count_fits : length b.transactions < 2 ^ 31
  pub transactions_fit : All TransactionFits b.transactions

header-Reads : (h : BlockHeader) → HeaderFits h → Reads read_header (write_header h) h
unfolding read_header write_header
header-Reads h f = bind-Reads read_u32 _ _ _ h.version h (u32-Reads h.version f.version_fits) (
    bind-Reads (read 32) _ _ _ h.previous_hash h (read-Reads h.previous_hash 32 f.previous_len) (
      bind-Reads (read 32) _ _ _ h.merkle_root h (read-Reads h.merkle_root 32 f.merkle_len) (
        bind-Reads read_u64 _ _ _ h.timestamp h (u64-Reads h.timestamp f.timestamp_fits) (
          bind-Reads read_u32 _ _ _ h.difficulty_target h
            (u32-Reads h.difficulty_target f.target_fits)
            (done-Reads read_u32 _ _ h.nonce (u32-Reads h.nonce f.nonce_fits))))))

-- Transactions come back without their cached ids.
abbrev pub forget_txid : Transaction → Transaction
forget_txid tx = record tx { cached_txid = none }

transactions-Reads :
    (txs : List Transaction)
    → All TransactionFits txs
    → Reads
        (read_many (length txs) deserialize_transaction)
        (write_many serialize_transaction txs)
        (map forget_txid txs)
unfolding read_many write_many
transactions-Reads [] h rest = refl
transactions-Reads (tx ∷ txs) (h, hs) rest = rw (
  append_assoc (serialize_transaction tx) (write_many serialize_transaction txs) rest,
  deserialize_transaction-serialize_transaction tx (write_many serialize_transaction txs ++ rest) h,
  ◌>>=◌,
  transactions-Reads txs hs rest,
)

block-Reads :
    (b : Block)
    → BlockFits b
    → Reads read_block
        (serialize_block b)
        (record b { transactions = map forget_txid b.transactions })
unfolding read_block serialize_block
block-Reads b f = bind-Reads read_header _ _ _ b.header _ (header-Reads b.header f.header_fits) (
    bind-Reads read_var_int _ _ _ (length b.transactions) _
      (var_int-Reads (length b.transactions) f.count_fits)
      (done-Reads (read_many (length b.transactions) deserialize_transaction) _ _
        (map forget_txid b.transactions) (transactions-Reads b.transactions f.transactions_fit)))

-- A serialized header takes 84 bytes.
length-write_header : (h : BlockHeader) → HeaderFits h → length (write_header h) ≡ 84
unfolding write_header
length-write_header h f =
    simp (length-append, length-write_u32, length-write_u64, f.previous_len, f.merkle_len)
      (omega arith)

serialize_block_long :
    (b : Block) (rest : Bytes) → BlockFits b → ltb (length (serialize_block b ++ rest)) 80 ≡ false
unfolding serialize_block
serialize_block_long b rest f =
    let tail =
      write_var_int (length b.transactions) ++ write_many serialize_transaction b.transactions in
    le→ltb _ _ (
      omega (
        arith,
        length-append (write_header b.header ++ tail) rest,
        length-append (write_header b.header) tail,
        length-write_header b.header f.header_fits,
      ))

-- A serialized block that fits the format is read back with the same header and transactions,
-- which have no cached ids, whatever bytes follow it.
pub deserialize_block-serialize_block :
    (b : Block) (rest : Bytes)
    → BlockFits b
    → deserialize_block (serialize_block b ++ rest)
      ≡ some (record b { transactions = map forget_txid b.transactions })
unfolding deserialize_block
deserialize_block-serialize_block b rest f =
    rw (serialize_block_long b rest f, block-Reads b f rest)
