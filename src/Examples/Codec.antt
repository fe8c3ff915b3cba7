-- ===== src/Examples/Codec.antt =====
-- Transactions and headers written, read and hashed.
use shawncoin.Prelude.{
  ◌≡◌, ◌↔◌, ◌⊎◌, ◌≢◌, ◌≤◌, ◌||◌, refl, true, not, [], ◌∷◌, ◌++◌, some, none, map, arith, All,
}
use shawncoin.Wire.{Bytes, IsByte}
use shawncoin.Types.{Transaction, BlockHeader, Block, zero_hash, max_money}
use shawncoin.Transaction.{
  serialize_transaction, deserialize_transaction, txid, with_txid, is_coinbase,
}
use shawncoin.Transaction.RoundTrip.{TransactionFits, deserialize_transaction-serialize_transaction}
use shawncoin.Transaction.Accepts.{Received, deserialize_transaction-Received}
use shawncoin.Transaction.Txid.{strip, PreimageFits, Collision, txid_binding}
use shawncoin.Block.{
  genesis_coinbase, serialize_block, deserialize_block, get_header_hash, header_bytes,
}
use shawncoin.Block.RoundTrip.{
  HeaderFits, BlockFits, forget_txid, deserialize_block-serialize_block,
}
use shawncoin.Block.Commitment.{short_time, header_hash_binding}
use shawncoin.Consensus.{validate_transaction_structure, is_empty}
use shawncoin.Consensus.Outputs.{IsAmount, amounts, validate_transaction_structure_iff}
use shawncoin.Examples.{toy, spend_coin1, coin1}

abbrev pub tx : Transaction
tx = spend_coin1 5

-- The same transaction with another signature.
abbrev pub resigned : Transaction
resigned = record {
  version = 1;
  inputs =
      record { prev_tx_hash = coin1; output_index = 0; signature = 2 ∷ 3 ∷ []; pubkey = 4 ∷ [] }
      ∷ [];
  outputs = record { amount = 5; script_pubkey = 0x6a ∷ [] } ∷ [];
  lock_time = 0;
  cached_txid = none;
}

abbrev header : BlockHeader
header = record {
  version = 1;
  previous_hash = coin1;
  merkle_root = zero_hash;
  timestamp = 1704067200;
  difficulty_target = 0x1d00ffff;
  nonce = 77;
}

-- The same header 2 ^ 32 seconds later.
abbrev later_header : BlockHeader
later_header = record {
  version = 1;
  previous_hash = coin1;
  merkle_root = zero_hash;
  timestamp = 5999034496;
  difficulty_target = 0x1d00ffff;
  nonce = 77;
}

tx-Fits : TransactionFits tx
tx-Fits = record {
  version_fits = omega arith;
  inputs_count = omega arith;
  inputs_fit = (
    record {
      hash_len = refl;
      index_fits = omega arith;
      sig_fits = omega arith;
      key_fits = omega arith;
    },
    tt,
  );
  outputs_count = omega arith;
  outputs_fit = (record { amount_fits = omega arith; script_fits = omega arith }, tt);
  lock_time_fits = omega arith;
}

deserialize_transaction-serialize_transaction_example :
    deserialize_transaction (serialize_transaction tx ++ (9 ∷ []))
    ≡ some (record tx { cached_txid = none }, 9 ∷ [])
deserialize_transaction-serialize_transaction_example =
    deserialize_transaction-serialize_transaction tx (9 ∷ []) tx-Fits

-- A transaction with no input and one output, in bytes.
abbrev message : Bytes
message = 1 ∷ 0 ∷ 0 ∷ 0 ∷ 0 ∷ 1 ∷ 5 ∷ 0 ∷ 0 ∷ 0 ∷ 0 ∷ 0 ∷ 0 ∷ 0 ∷ 1 ∷ 0x6a ∷ 0 ∷ 0 ∷ 0 ∷ 0 ∷ 9 ∷ []

abbrev received : Transaction
received = record {
  version = 1;
  inputs = [];
  outputs = record { amount = 5; script_pubkey = 0x6a ∷ [] } ∷ [];
  lock_time = 0;
  cached_txid = none;
}

message-IsByte : All IsByte message
message-IsByte = omega arith

message_read : deserialize_transaction message ≡ some (received, 9 ∷ [])
unfolding deserialize_transaction shawncoin.Wire.read_u32 shawncoin.Wire.read
    shawncoin.Wire.read_var_int shawncoin.Wire.Monad.read_many shawncoin.Transaction.read_output
    shawncoin.Wire.read_u64 shawncoin.Transaction.read_script
message_read = refl

deserialize_transaction-Received_example : Received received × All IsByte (9 ∷ [])
deserialize_transaction-Received_example =
    deserialize_transaction-Received message (9 ∷ []) received message-IsByte message_read

abbrev one_block : Block
one_block = record { header = header; transactions = tx ∷ [] }

header-HeaderFits : HeaderFits header
header-HeaderFits = record {
  version_fits = omega arith;
  previous_len = refl;
  merkle_len = refl;
  timestamp_fits = omega arith;
  target_fits = omega arith;
  nonce_fits = omega arith;
}

later-HeaderFits : HeaderFits later_header
later-HeaderFits = record {
  version_fits = omega arith;
  previous_len = refl;
  merkle_len = refl;
  timestamp_fits = omega arith;
  target_fits = omega arith;
  nonce_fits = omega arith;
}

one_block-BlockFits : BlockFits one_block
one_block-BlockFits = record {
  header_fits = header-HeaderFits;
  count_fits = omega arith;
  transactions_fit = (tx-Fits, tt);
}

deserialize_block-serialize_block_example :
    deserialize_block (serialize_block one_block ++ (9 ∷ []))
    ≡ some (record one_block { transactions = map forget_txid (tx ∷ []) })
deserialize_block-serialize_block_example =
    deserialize_block-serialize_block one_block (9 ∷ []) one_block-BlockFits

same_hash : get_header_hash toy header ≡ get_header_hash toy later_header
unfolding shawncoin.Block.get_header_hash shawncoin.Block.header_bytes
same_hash = refl

header_hash_binding_example : (short_time header ≡ short_time later_header) ⊎ Collision toy
header_hash_binding_example =
    header_hash_binding toy header later_header header-HeaderFits later-HeaderFits same_hash

pub tx-PreimageFits : PreimageFits tx
tx-PreimageFits = record {
  version_fits = omega arith;
  inputs_count = omega arith;
  inputs_fit = (record { hash_len = refl; index_fits = omega arith }, tt);
  outputs_count = omega arith;
  outputs_fit = (record { amount_fits = omega arith; script_fits = omega arith }, tt);
  lock_time_fits = omega arith;
}

pub resigned-PreimageFits : PreimageFits resigned
resigned-PreimageFits = record {
  version_fits = omega arith;
  inputs_count = omega arith;
  inputs_fit = (record { hash_len = refl; index_fits = omega arith }, tt);
  outputs_count = omega arith;
  outputs_fit = (record { amount_fits = omega arith; script_fits = omega arith }, tt);
  lock_time_fits = omega arith;
}

same_id : txid toy tx ≡ txid toy resigned
unfolding shawncoin.Wire.Monad.write_many shawncoin.Transaction.get_txid
    shawncoin.Transaction.txid_preimage
same_id = refl

txid_binding_example : (strip tx ≡ strip resigned) ⊎ Collision toy
txid_binding_example =
    txid_binding toy tx resigned tx-PreimageFits resigned-PreimageFits refl refl same_id

validate_transaction_structure_iff_example : (validate_transaction_structure tx ≡ true) ↔ (
    (tx.outputs ≢ [])
    × All IsAmount tx.outputs
    × (amounts tx.outputs ≤ max_money)
    × ((is_coinbase tx || not (is_empty tx.inputs)) ≡ true))
validate_transaction_structure_iff_example = validate_transaction_structure_iff tx
