-- ===== src/Examples/Chain.antt =====
-- Calls of addBlock and connectBlock on the mined blocks.
use shawncoin.Prelude.{◌+◌, ◌^◌, ◌<◌, true, false, ◌≡◌, ◌↔◌, refl, [], ◌∷◌, arith, is_some, none}
use shawncoin.Types.{Block}
use shawncoin.Utxo.Laws.{coins, IsValid}
use shawncoin.Consensus.{input_outpoint, after_coinbase}
use shawncoin.Consensus.Spending.{Distinct, all_inputs}
use shawncoin.Consensus.Effect.{spent}
use shawncoin.Blockchain.{new_blockchain, add_block, connect_block}
use shawncoin.Blockchain.Linked.{IsLinked, add_block-IsLinked, new_blockchain-IsLinked}
use shawncoin.Blockchain.History.{run, run-IsLinked}
use shawncoin.Blockchain.Atomicity.{Checked, connect_block_iff, connect_block-leak}
use shawncoin.Examples.{toy, block1, block2, double_block, chain0, chain1, input1}

run-IsLinked_example :
    IsLinked toy
      (run toy (record { now = 1704067800; block = block1; height = 1 } ∷ []) (new_blockchain toy))
run-IsLinked_example =
    run-IsLinked toy (record { now = 1704067800; block = block1; height = 1 } ∷ []) (omega arith)

small0 : chain0.height + 1 < 2 ^ 64
unfolding new_blockchain
small0 = omega arith

add_block-IsLinked_example : IsLinked toy (add_block toy 1704067800 block1 1 chain0).0
add_block-IsLinked_example =
    add_block-IsLinked toy 1704067800 block1 1 chain0 small0 (new_blockchain-IsLinked toy)

chain1-IsValid : IsValid chain1.utxo
unfolding shawncoin.Blockchain.add_block shawncoin.Blockchain.connect_block
    shawncoin.Blockchain.accept_block shawncoin.Blockchain.check_difficulty
    shawncoin.Blockchain.check_transactions shawncoin.Blockchain.get_height
    shawncoin.Blockchain.get_best_block_hash shawncoin.Blockchain.new_blockchain
    shawncoin.Map.contains shawncoin.Map.find shawncoin.Map.insert shawncoin.Map.Keys.bytes_less
    shawncoin.Map.Keys.outpoint_less shawncoin.Block.get_hash shawncoin.Block.header_bytes
    shawncoin.Block.make_genesis_block shawncoin.Crypto.sha256d shawncoin.Examples.checksum
    shawncoin.Wire.write_u32 shawncoin.Wire.write_u64 shawncoin.Wire.Monad.write_many
    shawncoin.Merkle.compute_merkle_root shawncoin.Merkle.merkle_root_from_hashes
    shawncoin.Merkle.merkle_loop shawncoin.Transaction.get_txid shawncoin.Transaction.txid_preimage
    shawncoin.Transaction.beq_bytes shawncoin.Transaction.is_coinbase
    shawncoin.Consensus.after_coinbase shawncoin.Consensus.check_proof_of_work
    shawncoin.Consensus.compact_target shawncoin.Consensus.connect_block_utxo
    shawncoin.Consensus.meets_target shawncoin.Consensus.put_outputs
    shawncoin.Consensus.put_transactions shawncoin.Consensus.spend_transactions
    shawncoin.Consensus.validate_block_structure shawncoin.Types.get_block_subsidy
    shawncoin.Utxo.put shawncoin.Miner.mine_block shawncoin.Miner.try_nonces shawncoin.Miner.hash_ok
    shawncoin.Miner.with_nonce shawncoin.Miner.candidate_block shawncoin.Mempool.get_block_template
chain1-IsValid = ((refl, tt), (tt, tt))

block2-Checked : Checked toy 1704068400 block2 chain1
unfolding shawncoin.Blockchain.add_block shawncoin.Blockchain.connect_block
    shawncoin.Blockchain.accept_block shawncoin.Blockchain.check_difficulty
    shawncoin.Blockchain.check_transactions shawncoin.Blockchain.get_block_by_height
    shawncoin.Blockchain.get_height shawncoin.Blockchain.get_best_block_hash
    shawncoin.Blockchain.inputs_present shawncoin.Blockchain.new_blockchain shawncoin.Map.contains
    shawncoin.Map.find shawncoin.Map.insert shawncoin.Map.erase shawncoin.Map.Keys.bytes_less
    shawncoin.Map.Keys.outpoint_less shawncoin.Block.get_hash shawncoin.Block.get_header_hash
    shawncoin.Block.header_bytes shawncoin.Block.make_genesis_block shawncoin.Crypto.sha256d
    shawncoin.Examples.checksum shawncoin.Wire.write_u32 shawncoin.Wire.write_u64
    shawncoin.Wire.Monad.write_many shawncoin.Merkle.compute_merkle_root
    shawncoin.Merkle.merkle_root_from_hashes shawncoin.Merkle.merkle_loop shawncoin.Merkle.next_row
    shawncoin.Transaction.get_txid shawncoin.Transaction.txid_preimage
    shawncoin.Transaction.beq_bytes shawncoin.Transaction.is_coinbase
    shawncoin.Consensus.after_coinbase shawncoin.Consensus.check_proof_of_work
    shawncoin.Consensus.compact_target shawncoin.Consensus.connect_block_utxo
    shawncoin.Consensus.copy_at shawncoin.Consensus.is_empty shawncoin.Consensus.meets_target
    shawncoin.Consensus.pow_buffer shawncoin.Consensus.put_outputs
    shawncoin.Consensus.put_transactions shawncoin.Consensus.spend_inputs
    shawncoin.Consensus.spend_transactions shawncoin.Consensus.starts_with_coinbase
    shawncoin.Consensus.validate_block_structure shawncoin.Consensus.validate_transaction_structure
    shawncoin.Types.get_block_subsidy shawncoin.Utxo.has shawncoin.Utxo.put shawncoin.Utxo.spend
    shawncoin.Miner.mine_block shawncoin.Miner.try_nonces shawncoin.Miner.hash_ok
    shawncoin.Miner.with_nonce shawncoin.Miner.candidate_block shawncoin.Miner.height_script
    shawncoin.Mempool.get_block_template shawncoin.Mempool.add
block2-Checked = (refl, refl, refl)

connect_block_iff_example :
    ((connect_block toy 1704068400 block2 2 chain1).1 ≡ true) ↔ Distinct (spent toy block2)
connect_block_iff_example =
    connect_block_iff toy 1704068400 block2 2 chain1 chain1-IsValid block2-Checked

double_block-Checked : Checked toy 1704068400 double_block chain1
unfolding shawncoin.Blockchain.add_block shawncoin.Blockchain.connect_block
    shawncoin.Blockchain.accept_block shawncoin.Blockchain.check_difficulty
    shawncoin.Blockchain.check_transactions shawncoin.Blockchain.get_block_by_height
    shawncoin.Blockchain.get_height shawncoin.Blockchain.get_best_block_hash
    shawncoin.Blockchain.inputs_present shawncoin.Blockchain.new_blockchain shawncoin.Map.contains
    shawncoin.Map.find shawncoin.Map.insert shawncoin.Map.erase shawncoin.Map.Keys.bytes_less
    shawncoin.Map.Keys.outpoint_less shawncoin.Block.get_hash shawncoin.Block.get_header_hash
    shawncoin.Block.header_bytes shawncoin.Block.make_genesis_block shawncoin.Crypto.sha256d
    shawncoin.Examples.checksum shawncoin.Wire.write_u32 shawncoin.Wire.write_u64
    shawncoin.Wire.Monad.write_many shawncoin.Merkle.compute_merkle_root
    shawncoin.Merkle.merkle_root_from_hashes shawncoin.Merkle.merkle_loop shawncoin.Merkle.next_row
    shawncoin.Transaction.get_txid shawncoin.Transaction.txid_preimage
    shawncoin.Transaction.beq_bytes shawncoin.Transaction.is_coinbase
    shawncoin.Consensus.after_coinbase shawncoin.Consensus.check_proof_of_work
    shawncoin.Consensus.compact_target shawncoin.Consensus.connect_block_utxo
    shawncoin.Consensus.copy_at shawncoin.Consensus.is_empty shawncoin.Consensus.meets_target
    shawncoin.Consensus.pow_buffer shawncoin.Consensus.put_outputs
    shawncoin.Consensus.put_transactions shawncoin.Consensus.spend_inputs
    shawncoin.Consensus.spend_transactions shawncoin.Consensus.starts_with_coinbase
    shawncoin.Consensus.validate_block_structure shawncoin.Consensus.validate_transaction_structure
    shawncoin.Types.get_block_subsidy shawncoin.Utxo.has shawncoin.Utxo.put shawncoin.Utxo.spend
    shawncoin.Miner.mine_block shawncoin.Miner.try_nonces shawncoin.Miner.hash_ok
    shawncoin.Miner.with_nonce shawncoin.Miner.candidate_block shawncoin.Miner.height_script
    shawncoin.Miner.miner_coinbase shawncoin.Miner.prepared shawncoin.Mempool.get_block_template
    shawncoin.Mempool.add shawncoin.Difficulty.get_adaptive_next_difficulty
double_block-Checked = (refl, refl, refl)

double_block-inputs : all_inputs (after_coinbase double_block.transactions) ≡ input1 ∷ input1 ∷ []
unfolding shawncoin.Blockchain.add_block shawncoin.Blockchain.connect_block
    shawncoin.Blockchain.accept_block shawncoin.Blockchain.check_difficulty
    shawncoin.Blockchain.check_transactions shawncoin.Blockchain.get_block_by_height
    shawncoin.Blockchain.get_height shawncoin.Blockchain.get_best_block_hash
    shawncoin.Blockchain.inputs_present shawncoin.Blockchain.new_blockchain shawncoin.Map.contains
    shawncoin.Map.find shawncoin.Map.insert shawncoin.Map.erase shawncoin.Map.Keys.bytes_less
    shawncoin.Map.Keys.outpoint_less shawncoin.Block.get_hash shawncoin.Block.get_header_hash
    shawncoin.Block.header_bytes shawncoin.Block.make_genesis_block shawncoin.Crypto.sha256d
    shawncoin.Examples.checksum shawncoin.Wire.write_u32 shawncoin.Wire.write_u64
    shawncoin.Wire.Monad.write_many shawncoin.Merkle.compute_merkle_root
    shawncoin.Merkle.merkle_root_from_hashes shawncoin.Merkle.merkle_loop shawncoin.Merkle.next_row
    shawncoin.Transaction.get_txid shawncoin.Transaction.txid_preimage
    shawncoin.Transaction.beq_bytes shawncoin.Transaction.is_coinbase
    shawncoin.Consensus.after_coinbase shawncoin.Consensus.check_proof_of_work
    shawncoin.Consensus.compact_target shawncoin.Consensus.connect_block_utxo
    shawncoin.Consensus.copy_at shawncoin.Consensus.is_empty shawncoin.Consensus.meets_target
    shawncoin.Consensus.pow_buffer shawncoin.Consensus.put_outputs
    shawncoin.Consensus.put_transactions shawncoin.Consensus.spend_inputs
    shawncoin.Consensus.spend_transactions shawncoin.Consensus.starts_with_coinbase
    shawncoin.Consensus.validate_block_structure shawncoin.Consensus.validate_transaction_structure
    shawncoin.Types.get_block_subsidy shawncoin.Utxo.has shawncoin.Utxo.put shawncoin.Utxo.spend
    shawncoin.Miner.mine_block shawncoin.Miner.try_nonces shawncoin.Miner.hash_ok
    shawncoin.Miner.with_nonce shawncoin.Miner.candidate_block shawncoin.Miner.height_script
    shawncoin.Miner.miner_coinbase shawncoin.Miner.prepared shawncoin.Mempool.get_block_template
    shawncoin.Mempool.add shawncoin.Difficulty.get_adaptive_next_difficulty
double_block-inputs = refl

double_block-twice : ¬ Distinct (spent toy double_block)
unfolding shawncoin.Blockchain.add_block shawncoin.Blockchain.connect_block
    shawncoin.Blockchain.accept_block shawncoin.Blockchain.check_difficulty
    shawncoin.Blockchain.check_transactions shawncoin.Blockchain.get_block_by_height
    shawncoin.Blockchain.get_height shawncoin.Blockchain.get_best_block_hash
    shawncoin.Blockchain.inputs_present shawncoin.Blockchain.new_blockchain shawncoin.Map.contains
    shawncoin.Map.find shawncoin.Map.insert shawncoin.Map.erase shawncoin.Map.Keys.bytes_less
    shawncoin.Map.Keys.outpoint_less shawncoin.Block.get_hash shawncoin.Block.get_header_hash
    shawncoin.Block.header_bytes shawncoin.Block.make_genesis_block shawncoin.Crypto.sha256d
    shawncoin.Examples.checksum shawncoin.Wire.write_u32 shawncoin.Wire.write_u64
    shawncoin.Wire.Monad.write_many shawncoin.Merkle.compute_merkle_root
    shawncoin.Merkle.merkle_root_from_hashes shawncoin.Merkle.merkle_loop shawncoin.Merkle.next_row
    shawncoin.Transaction.get_txid shawncoin.Transaction.txid_preimage
    shawncoin.Transaction.beq_bytes shawncoin.Transaction.is_coinbase
    shawncoin.Consensus.after_coinbase shawncoin.Consensus.check_proof_of_work
    shawncoin.Consensus.compact_target shawncoin.Consensus.connect_block_utxo
    shawncoin.Consensus.copy_at shawncoin.Consensus.is_empty shawncoin.Consensus.meets_target
    shawncoin.Consensus.pow_buffer shawncoin.Consensus.put_outputs
    shawncoin.Consensus.put_transactions shawncoin.Consensus.spend_inputs
    shawncoin.Consensus.spend_transactions shawncoin.Consensus.starts_with_coinbase
    shawncoin.Consensus.validate_block_structure shawncoin.Consensus.validate_transaction_structure
    shawncoin.Types.get_block_subsidy shawncoin.Utxo.has shawncoin.Utxo.put shawncoin.Utxo.spend
    shawncoin.Miner.mine_block shawncoin.Miner.try_nonces shawncoin.Miner.hash_ok
    shawncoin.Miner.with_nonce shawncoin.Miner.candidate_block shawncoin.Miner.height_script
    shawncoin.Miner.miner_coinbase shawncoin.Miner.prepared shawncoin.Mempool.get_block_template
    shawncoin.Mempool.add shawncoin.Difficulty.get_adaptive_next_difficulty
double_block-twice h = h.0.0 refl

connect_block-leak_example :
    ((connect_block toy 1704068400 double_block 2 chain1).1 ≡ false)
    × ((connect_block toy 1704068400 double_block 2 chain1).0.best_block_hash
        ≡ chain1.best_block_hash)
    × (is_some (coins chain1.utxo (input_outpoint input1)) ≡ true)
    × (coins (connect_block toy 1704068400 double_block 2 chain1).0.utxo (input_outpoint input1)
        ≡ none)
connect_block-leak_example =
    connect_block-leak toy 1704068400 double_block 2 chain1 input1 (input1 ∷ []) chain1-IsValid
      double_block-Checked double_block-inputs double_block-twice
