-- ===== src/Transaction.antt =====
-- shawncoin/src/core/transaction.cpp (serializeTransaction, deserializeTransaction) and the methods
-- of Transaction in shawncoin/src/core/types.cpp.
pub mod RoundTrip
pub mod Accepts
pub mod Txid
pub mod Equal
use shawncoin.Prelude.{
  ℕ, ◌+◌, ◌/◌, ◌%◌, ◌^◌, ◌≡◌, Option, none, some, Bool, true, false, ◌&&◌, List, [], ◌∷◌, ◌++◌, leb,
  ◌==◌, length,
}
use shawncoin.Wire.{
  Bytes, write_u32, write_u64, write_var_int, read, read_u32, read_u64, read_var_int,
}
use shawncoin.Wire.Monad.{Parser, pure, ◌>>=◌, ◌>>◌, guard, read_many, write_many}
use shawncoin.Types.{Transaction, TxInput, TxOutput, zero_hash}
use shawncoin.Crypto.{Digest, sha256d}

abbrev pub max_script_len : ℕ
max_script_len = 10000

-- writeVarInt(out, v.size()) and the bytes of v.
unfoldable pub write_script : Bytes → Bytes
write_script s = write_var_int (length s) ++ s

unfoldable pub write_input : TxInput → Bytes
write_input i =
    i.prev_tx_hash
    ++ (write_u32 i.output_index ++ (write_script i.signature ++ write_script i.pubkey))

unfoldable pub write_output : TxOutput → Bytes
write_output o = write_u64 o.amount ++ write_script o.script_pubkey

unfoldable pub serialize_transaction : Transaction → Bytes
serialize_transaction tx =
    write_u32 tx.version
    ++ (write_var_int (length tx.inputs)
        ++ (write_many write_input tx.inputs
            ++ (write_var_int (length tx.outputs)
                ++ (write_many write_output tx.outputs ++ write_u32 tx.lock_time))))

-- A length of at most 10000 and that many bytes.
unfoldable pub read_script : Parser Bytes
read_script = do n ← read_var_int; guard (leb n max_script_len); read n

unfoldable pub read_input : Parser TxInput
read_input = do
  hash ← read 32
  index ← read_u32
  sig ← read_script
  pk ← read_script
  pure (record { prev_tx_hash = hash; output_index = index; signature = sig; pubkey = pk })

unfoldable pub read_output : Parser TxOutput
read_output = do
  amount ← read_u64
  script ← read_script
  pure (record { amount = amount; script_pubkey = script })

unfoldable pub deserialize_transaction : Parser Transaction
deserialize_transaction = do
  version ← read_u32
  n_in ← read_var_int
  inputs ← read_many n_in read_input
  n_out ← read_var_int
  outputs ← read_many n_out read_output
  lock_time ← read_u32
  pure (record {
    version = version;
    inputs = inputs;
    outputs = outputs;
    lock_time = lock_time;
    cached_txid = none;
  })

-- What getTxid hashes: no signature and no public key, and each count as one byte.
preimage_input : TxInput → Bytes
preimage_input i = i.prev_tx_hash ++ write_u32 i.output_index

preimage_output : TxOutput → Bytes
preimage_output o = write_u64 o.amount ++ (length o.script_pubkey % 256 ∷ o.script_pubkey)

unfoldable pub txid_preimage : Transaction → Bytes
unfolding preimage_input preimage_output
txid_preimage tx =
    write_u32 tx.version
    ++ (length tx.inputs % 256
        ∷ (write_many preimage_input tx.inputs
            ++ (length tx.outputs % 256
                ∷ (write_many preimage_output tx.outputs ++ write_u32 tx.lock_time))))

unfoldable pub beq_bytes : Bytes → Bytes → Bool
beq_bytes [] [] = true
beq_bytes (x ∷ xs) (y ∷ ys) = (x == y) && beq_bytes xs ys
beq_bytes _ _ = false

-- inputs.size() == 1, a zero previous hash, and the index 0xffffffff.
is_coinbase_inputs : List TxInput → Bool
is_coinbase_inputs (i ∷ []) = beq_bytes i.prev_tx_hash zero_hash && (i.output_index == 0xffffffff)
is_coinbase_inputs _ = false

unfoldable pub is_coinbase : Transaction → Bool
unfolding is_coinbase_inputs
is_coinbase tx = is_coinbase_inputs tx.inputs

-- The uint64_t sum of the output amounts.
unfoldable pub sum_outputs : ℕ → List TxOutput → ℕ
sum_outputs sum [] = sum
sum_outputs sum (o ∷ os) = sum_outputs ((sum + o.amount) % 2 ^ 64) os

unfoldable pub get_total_output : Transaction → ℕ
unfolding sum_outputs
get_total_output tx = sum_outputs 0 tx.outputs

module _ (c : Digest) where
  -- The txid with the transaction afterwards: the digest is computed once and kept.
  unfoldable pub get_txid : Transaction → Bytes × Transaction
  get_txid tx = elim tx.cached_txid [
    | some id ↦ (id, tx)
    | none ↦ let id = sha256d c (txid_preimage tx) in (id, record tx { cached_txid = some id })
  ]

  -- The value alone, and the transaction alone.
  abbrev pub txid : Transaction → Bytes
  txid tx = (get_txid tx).0

  abbrev pub with_txid : Transaction → Transaction
  with_txid tx = (get_txid tx).1
