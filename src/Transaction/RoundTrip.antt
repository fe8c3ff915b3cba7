-- ===== src/Transaction/RoundTrip.antt =====
-- deserializeTransaction undoes serializeTransaction, in whatever bytes the transaction stands.
use shawncoin.Prelude.{
  ◌^◌, ◌≤◌, ◌<◌, ◌≡◌, refl, none, some, List, [], ◌∷◌, ◌++◌, length, All, arith,
}
use shawncoin.Wire.{Bytes, read, read_u32, read_u64, read_var_int}
use shawncoin.Wire.Monad.{read_many}
use shawncoin.Wire.Reads.{
  Reads, bind-Reads, guard-Reads, read-Reads, u32-Reads, u64-Reads, var_int-Reads, many-Reads,
  done-Reads,
}
use shawncoin.Types.{Transaction, TxInput, TxOutput}
use shawncoin.Transaction.{
  max_script_len, write_script, write_input, write_output, serialize_transaction, read_script,
  read_input, read_output, deserialize_transaction,
}

-- The inputs, outputs and transactions that the byte format holds.
pub record InputFits (i : TxInput) : Type 0 where
  pub hash_len : length i.prev_tx_hash ≡ 32
  pub index_fits : i.output_index < 2 ^ 32
  pub sig_fits : length i.signature ≤ max_script_len
  pub key_fits : length i.pubkey ≤ max_script_len

pub record OutputFits (o : TxOutput) : Type 0 where
  pub amount_fits : o.amount < 2 ^ 64
  pub script_fits : length o.script_pubkey ≤ max_script_len

pub record TransactionFits (tx : Transaction) : Type 0 where
  pub version_fits : tx.version < 2 ^ 32
  pub inputs_count : length tx.inputs < 2 ^ 31
  pub inputs_fit : All InputFits tx.inputs
  pub outputs_count : length tx.outputs < 2 ^ 31
  pub outputs_fit : All OutputFits tx.outputs
  pub lock_time_fits : tx.lock_time < 2 ^ 32

script-Reads : (s : Bytes) → length s ≤ max_script_len → Reads read_script (write_script s) s
unfolding read_script write_script
script-Reads s h =
    bind-Reads read_var_int _ _ s (length s) s (var_int-Reads (length s) (omega arith))
      (guard-Reads _ (read (length s)) s s (ground arith) (read-Reads s (length s) refl))

input-Reads : (i : TxInput) → InputFits i → Reads read_input (write_input i) i
unfolding read_input write_input
input-Reads i h =
    bind-Reads (read 32) _ _ _ i.prev_tx_hash i (read-Reads i.prev_tx_hash 32 h.hash_len) (
      bind-Reads read_u32 _ _ _ i.output_index i (u32-Reads i.output_index h.index_fits) (
        bind-Reads read_script _ _ _ i.signature i (script-Reads i.signature h.sig_fits)
          (done-Reads read_script _ _ i.pubkey (script-Reads i.pubkey h.key_fits))))

output-Reads : (o : TxOutput) → OutputFits o → Reads read_output (write_output o) o
unfolding read_output write_output
output-Reads o h =
    bind-Reads read_u64 _ _ _ o.amount o (u64-Reads o.amount h.amount_fits)
      (done-Reads read_script _ _ o.script_pubkey (script-Reads o.script_pubkey h.script_fits))

inputs-Reads :
    (is : List TxInput) → All InputFits is → All (λ i. Reads read_input (write_input i) i) is
inputs-Reads [] h = tt
inputs-Reads (i ∷ is) (h, hs) = (input-Reads i h, inputs-Reads is hs)

outputs-Reads :
    (os : List TxOutput) → All OutputFits os → All (λ o. Reads read_output (write_output o) o) os
outputs-Reads [] h = tt
outputs-Reads (o ∷ os) (h, hs) = (output-Reads o h, outputs-Reads os hs)

-- A serialized transaction that fits the format is read back, with no cached id, and the bytes
-- that follow it are left.
pub deserialize_transaction-serialize_transaction :
    (tx : Transaction) (rest : Bytes)
    → TransactionFits tx
    → deserialize_transaction (serialize_transaction tx ++ rest)
      ≡ some (record tx { cached_txid = none }, rest)
unfolding deserialize_transaction serialize_transaction
deserialize_transaction-serialize_transaction tx rest h =
    let tx' : Transaction = record tx { cached_txid = none } in
    bind-Reads read_u32 _ _ _ tx.version tx' (u32-Reads tx.version h.version_fits)
      (bind-Reads read_var_int _ _ _ (length tx.inputs) tx'
        (var_int-Reads (length tx.inputs) h.inputs_count)
        (bind-Reads (read_many (length tx.inputs) read_input) _ _ _ tx.inputs tx'
          (many-Reads read_input write_input tx.inputs (inputs-Reads tx.inputs h.inputs_fit))
          (bind-Reads read_var_int _ _ _ (length tx.outputs) tx'
            (var_int-Reads (length tx.outputs) h.outputs_count)
            (bind-Reads (read_many (length tx.outputs) read_output) _ _ _ tx.outputs tx'
              (many-Reads read_output write_output tx.outputs
                (outputs-Reads tx.outputs h.outputs_fit))
              (done-Reads read_u32 _ _ tx.lock_time (u32-Reads tx.lock_time h.lock_time_fits))))))
      rest
