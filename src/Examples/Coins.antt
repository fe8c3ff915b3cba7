-- ===== src/Examples/Coins.antt =====
-- The effect of the mined blocks on the unspent outputs, and the pool that they are taken from.
use shawncoin.Prelude.{
  true, false, ◌≡◌, ◌↔◌, refl, List, [], ◌∷◌, is_some, some, none, ℕ, map, replicate,
  length-replicate, arith,
}
use shawncoin.Wire.{Bytes}
use shawncoin.Types.{Block, Transaction, zero_hash}
use shawncoin.Transaction.{txid, with_txid, get_total_output}
use shawncoin.Utxo.{put, spend, has, clear}
use shawncoin.Utxo.Laws.{coins, update, IsValid, utxo_refines}
use shawncoin.Consensus.{
  input_outpoint, after_coinbase, connect_block_utxo, disconnect_block_utxo,
  validate_transaction_structure,
}
use shawncoin.Consensus.Coins.{spend_all, add_all, keys}
use shawncoin.Consensus.Spending.{Distinct, Present}
use shawncoin.Consensus.Effect.{
  spent, created, connect_block_utxo_iff, connect_block_utxo_effect, disconnect_block_utxo_lem,
}
use shawncoin.Map.Keys.{bytes_order}
use shawncoin.Mempool.{Mempool, add, get, get_block_template, max_mempool_size}
use shawncoin.Mempool.Invariant.{
  IsPool, Call, run, run-IsPool, adds, adds-full, add_call, remove_call,
}
use shawncoin.Examples.{
  toy, block1, block2, double_block, chain0, chain1, input1, spend_coin1, pool1, coin1,
}

valid1 : IsValid chain1.utxo
unfolding shawncoin.Blockchain.add_block shawncoin.Blockchain.connect_block
    shawncoin.Blockchain.accept_block shawncoin.Blockchain.check_difficulty
    shawncoin.Blockchain.check_transactions shawncoin.Blockchain.get_height
    shawncoin.Blockchain.get_best_block_hash shawncoin.Blockchain.new_blockchain
    shawncoin.Map.contains shawncoin.Map.find shawncoin.Map.insert shawncoin.Map.Keys.bytes_less
    shawncoin.Map.Keys.outpoint_less shawncoin.Block.get_hash shawncoin.Block.header_bytes
    shawncoin.Block.make_genesis_block shawncoin.Crypto.sha256d shawncoin.Examples.checksum
    shawncoin.Wire.write_u32 shawncoin.Wire.write_u64 shawncoin.Wire.Monad.write_many
    shawncoin.Merkle.compute_merkle_root shawncoin.Merkle.merkle_root_from_hashes
    shawncoin.Merkle.merkle_loop shawncoin.Transaction.get_txid shawncoin.Transaction.txid_preimage
    shawncoin.Transaction.beq_bytes shawncoin.Transaction.is_coinbase
    shawncoin.Consensus.after_coinbase shawncoin.Consensus.check_proof_of_work
    shawncoin.Consensus.compact_target shawncoin.Consensus.connect_block_utxo
    shawncoin.Consensus.meets_target shawncoin.Consensus.put_outputs
    shawncoin.Consensus.put_transactions shawncoin.Consensus.spend_transactions
    shawncoin.Consensus.validate_block_structure shawncoin.Types.get_block_subsidy
    shawncoin.Utxo.put shawncoin.Miner.mine_block shawncoin.Miner.try_nonces shawncoin.Miner.hash_ok
    shawncoin.Miner.with_nonce shawncoin.Miner.candidate_block shawncoin.Mempool.get_block_template
valid1 = ((refl, tt), (tt, tt))

connects : (connect_block_utxo toy block2 chain1.utxo).1 ≡ true
unfolding shawncoin.Blockchain.add_block shawncoin.Blockchain.connect_block
    shawncoin.Blockchain.accept_block shawncoin.Blockchain.check_difficulty
    shawncoin.Blockchain.check_transactions shawncoin.Blockchain.get_block_by_height
    shawncoin.Blockchain.get_height shawncoin.Blockchain.get_best_block_hash
    shawncoin.Blockchain.inputs_present shawncoin.Blockchain.new_blockchain shawncoin.Map.contains
    shawncoin.Map.find shawncoin.Map.insert shawncoin.Map.erase shawncoin.Map.Keys.bytes_less
    shawncoin.Map.Keys.outpoint_less shawncoin.Block.get_hash shawncoin.Block.get_header_hash
    shawncoin.Block.header_bytes shawncoin.Block.make_genesis_block shawncoin.Crypto.sha256d
    shawncoin.Examples.checksum shawncoin.Wire.write_u32 shawncoin.Wire.write_u64
    shawncoin.Wire.Monad.write_many shawncoin.Merkle.compute_merkle_root
    shawncoin.Merkle.merkle_root_from_hashes shawncoin.Merkle.merkle_loop shawncoin.Merkle.next_row
    shawncoin.Transaction.get_txid shawncoin.Transaction.txid_preimage
    shawncoin.Transaction.beq_bytes shawncoin.Transaction.is_coinbase
    shawncoin.Consensus.after_coinbase shawncoin.Consensus.check_proof_of_work
    shawncoin.Consensus.compact_target shawncoin.Consensus.connect_block_utxo
    shawncoin.Consensus.copy_at shawncoin.Consensus.is_empty shawncoin.Consensus.meets_target
    shawncoin.Consensus.pow_buffer shawncoin.Consensus.put_outputs
    shawncoin.Consensus.put_transactions shawncoin.Consensus.spend_inputs
    shawncoin.Consensus.spend_transactions shawncoin.Consensus.starts_with_coinbase
    shawncoin.Consensus.validate_block_structure shawncoin.Consensus.validate_transaction_structure
    shawncoin.Types.get_block_subsidy shawncoin.Utxo.has shawncoin.Utxo.put shawncoin.Utxo.spend
    shawncoin.Miner.mine_block shawncoin.Miner.try_nonces shawncoin.Miner.hash_ok
    shawncoin.Miner.with_nonce shawncoin.Miner.candidate_block shawncoin.Miner.height_script
    shawncoin.Mempool.get_block_template shawncoin.Mempool.add
connects = refl

fails : (connect_block_utxo toy double_block chain1.utxo).1 ≡ false
unfolding shawncoin.Blockchain.add_block shawncoin.Blockchain.connect_block
    shawncoin.Blockchain.accept_block shawncoin.Blockchain.check_difficulty
    shawncoin.Blockchain.check_transactions shawncoin.Blockchain.get_block_by_height
    shawncoin.Blockchain.get_height shawncoin.Blockchain.get_best_block_hash
    shawncoin.Blockchain.inputs_present shawncoin.Blockchain.new_blockchain shawncoin.Map.contains
    shawncoin.Map.find shawncoin.Map.insert shawncoin.Map.erase shawncoin.Map.Keys.bytes_less
    shawncoin.Map.Keys.outpoint_less shawncoin.Block.get_hash shawncoin.Block.get_header_hash
    shawncoin.Block.header_bytes shawncoin.Block.make_genesis_block shawncoin.Crypto.sha256d
    shawncoin.Examples.checksum shawncoin.Wire.write_u32 shawncoin.Wire.write_u64
    shawncoin.Wire.Monad.write_many shawncoin.Merkle.compute_merkle_root
    shawncoin.Merkle.merkle_root_from_hashes shawncoin.Merkle.merkle_loop shawncoin.Merkle.next_row
    shawncoin.Transaction.get_txid shawncoin.Transaction.txid_preimage
    shawncoin.Transaction.beq_bytes shawncoin.Transaction.is_coinbase
    shawncoin.Consensus.after_coinbase shawncoin.Consensus.check_proof_of_work
    shawncoin.Consensus.compact_target shawncoin.Consensus.connect_block_utxo
    shawncoin.Consensus.copy_at shawncoin.Consensus.is_empty shawncoin.Consensus.meets_target
    shawncoin.Consensus.pow_buffer shawncoin.Consensus.put_outputs
    shawncoin.Consensus.put_transactions shawncoin.Consensus.spend_inputs
    shawncoin.Consensus.spend_transactions shawncoin.Consensus.starts_with_coinbase
    shawncoin.Consensus.validate_block_structure shawncoin.Consensus.validate_transaction_structure
    shawncoin.Types.get_block_subsidy shawncoin.Utxo.has shawncoin.Utxo.put shawncoin.Utxo.spend
    shawncoin.Miner.mine_block shawncoin.Miner.try_nonces shawncoin.Miner.hash_ok
    shawncoin.Miner.with_nonce shawncoin.Miner.candidate_block shawncoin.Miner.height_script
    shawncoin.Miner.miner_coinbase shawncoin.Miner.prepared shawncoin.Mempool.get_block_template
    shawncoin.Mempool.add shawncoin.Difficulty.get_adaptive_next_difficulty
fails = refl

connect_block_utxo_iff_example :
    ((connect_block_utxo toy block2 chain1.utxo).1 ≡ true)
    ↔ (Present (coins chain1.utxo) (spent toy block2) × Distinct (spent toy block2))
connect_block_utxo_iff_example = connect_block_utxo_iff toy block2 chain1.utxo valid1

connect_block_utxo_effect_example :
    (coins (connect_block_utxo toy block2 chain1.utxo).0
      ≡ add_all
          (created toy block2.transactions)
          (spend_all (spent toy block2) (coins chain1.utxo)))
    × IsValid (connect_block_utxo toy block2 chain1.utxo).0
connect_block_utxo_effect_example = connect_block_utxo_effect toy block2 chain1.utxo valid1 connects

disconnect_block_utxo_lem_example :
    coins (disconnect_block_utxo toy block2 (connect_block_utxo toy block2 chain1.utxo).0)
    ≡ spend_all
        (keys (created toy block2.transactions))
        (spend_all (spent toy block2) (coins chain1.utxo))
disconnect_block_utxo_lem_example = disconnect_block_utxo_lem toy block2 chain1.utxo valid1 connects

utxo_refines_example :
    (coins (put (input_outpoint input1) 7 [] chain1.utxo)
      ≡ update
          (input_outpoint input1)
          (some (record { amount = 7; script_pubkey = [] }))
          (coins chain1.utxo))
    × (coins (spend (input_outpoint input1) chain1.utxo).0
        ≡ update (input_outpoint input1) none (coins chain1.utxo))
    × ((spend (input_outpoint input1) chain1.utxo).1
        ≡ is_some (coins chain1.utxo (input_outpoint input1)))
    × (has (input_outpoint input1) chain1.utxo
        ≡ is_some (coins chain1.utxo (input_outpoint input1)))
    × (coins (clear chain1.utxo) ≡ λ out'. none)
    × IsValid (put (input_outpoint input1) 7 [] chain1.utxo)
    × IsValid (spend (input_outpoint input1) chain1.utxo).0
utxo_refines_example = utxo_refines (input_outpoint input1) 7 [] chain1.utxo valid1

accepted : validate_transaction_structure (spend_coin1 5) ≡ true
unfolding shawncoin.Blockchain.add_block shawncoin.Blockchain.connect_block
    shawncoin.Blockchain.accept_block shawncoin.Blockchain.check_difficulty
    shawncoin.Blockchain.check_transactions shawncoin.Blockchain.get_block_by_height
    shawncoin.Blockchain.get_height shawncoin.Blockchain.get_best_block_hash
    shawncoin.Blockchain.inputs_present shawncoin.Blockchain.new_blockchain shawncoin.Map.contains
    shawncoin.Map.find shawncoin.Map.insert shawncoin.Map.erase shawncoin.Map.Keys.bytes_less
    shawncoin.Map.Keys.outpoint_less shawncoin.Block.get_hash shawncoin.Block.get_header_hash
    shawncoin.Block.header_bytes shawncoin.Block.make_genesis_block shawncoin.Crypto.sha256d
    shawncoin.Examples.checksum shawncoin.Wire.write_u32 shawncoin.Wire.write_u64
    shawncoin.Wire.Monad.write_many shawncoin.Merkle.compute_merkle_root
    shawncoin.Merkle.merkle_root_from_hashes shawncoin.Merkle.merkle_loop shawncoin.Merkle.next_row
    shawncoin.Transaction.get_txid shawncoin.Transaction.txid_preimage
    shawncoin.Transaction.beq_bytes shawncoin.Transaction.is_coinbase
    shawncoin.Consensus.after_coinbase shawncoin.Consensus.check_proof_of_work
    shawncoin.Consensus.compact_target shawncoin.Consensus.connect_block_utxo
    shawncoin.Consensus.copy_at shawncoin.Consensus.is_empty shawncoin.Consensus.meets_target
    shawncoin.Consensus.pow_buffer shawncoin.Consensus.put_outputs
    shawncoin.Consensus.put_transactions shawncoin.Consensus.spend_inputs
    shawncoin.Consensus.spend_transactions shawncoin.Consensus.starts_with_coinbase
    shawncoin.Consensus.validate_block_structure shawncoin.Consensus.validate_transaction_structure
    shawncoin.Types.get_block_subsidy shawncoin.Utxo.has shawncoin.Utxo.put shawncoin.Utxo.spend
    shawncoin.Miner.mine_block shawncoin.Miner.try_nonces shawncoin.Miner.hash_ok
    shawncoin.Miner.with_nonce shawncoin.Miner.candidate_block shawncoin.Miner.height_script
    shawncoin.Miner.miner_coinbase shawncoin.Miner.prepared shawncoin.Mempool.get_block_template
    shawncoin.Mempool.add shawncoin.Difficulty.get_adaptive_next_difficulty
accepted = refl

abbrev calls : List Call
calls = add_call (spend_coin1 5) 0 ∷ add_call (spend_coin1 6) 0 ∷ remove_call coin1 ∷ []

run-IsPool_example : IsPool toy (run toy calls [])
run-IsPool_example = run-IsPool toy calls

-- A pool of as many entries as it can hold.
abbrev full_pool : Mempool
full_pool = replicate 100000 (zero_hash, spend_coin1 1)

-- Two more transactions, with fees.
abbrev offers : List (Transaction × ℕ)
offers = (spend_coin1 5, 1000) ∷ (spend_coin1 6, 2000) ∷ []

adds-full_example : map (λ p. p.0) (adds toy offers full_pool) ≡ map (λ p. p.0) full_pool
adds-full_example =
    let entry : Bytes × Transaction = (zero_hash, spend_coin1 1) in
    adds-full toy offers full_pool (omega (arith, length-replicate 100000 entry))
