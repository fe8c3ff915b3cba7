-- ===== src/Examples/Mining.antt =====
-- Searches for a nonce.
use shawncoin.Prelude.{
  ℕ, zero, suc, ◌+◌, ◌^◌, true, false, ◌≡◌, refl, arith, length, leb, replicate, All,
}
use shawncoin.Wire.{le_value}
use shawncoin.Types.{Block, zero_hash}
use shawncoin.Crypto.{Digest}
use shawncoin.Block.{get_header_hash}
use shawncoin.Merkle.{compute_merkle_root}
use shawncoin.Merkle.Width.{Is32}
use shawncoin.Transaction.{txid}
use shawncoin.Consensus.{check_proof_of_work, compact_target, validate_block_structure}
use shawncoin.Consensus.Work.{check_proof_of_work_lem}
use shawncoin.Difficulty.{easy_mine_difficulty}
use shawncoin.Mempool.{get_block_template}
use shawncoin.Miner.{mine_block, try_nonces, with_nonce, prepared, candidate_block}
use shawncoin.Miner.Search.{mine_block-failure}
use shawncoin.Miner.Candidate.{mined_block_valid}
use shawncoin.Examples.{toy, payout, chain0, chain1, block2, pool1}

-- A digest with a result above the target zero.
abbrev ones : Digest
ones = record {
  sha256 = λ d. replicate 32 1;
  ripemd160 = λ d. replicate 20 1;
  length-sha256 = λ d. refl;
  sha256-IsByte = λ d. omega arith;
  length-ripemd160 = λ d. refl;
  ripemd160-IsByte = λ d. omega arith;
}

abbrev block : Block
block = candidate_block 1704068400 payout chain1 pool1

block_previous : length block.header.previous_hash ≡ 32
unfolding shawncoin.Blockchain.add_block shawncoin.Blockchain.connect_block
    shawncoin.Blockchain.accept_block shawncoin.Blockchain.check_difficulty
    shawncoin.Blockchain.check_transactions shawncoin.Blockchain.get_height
    shawncoin.Blockchain.get_best_block_hash shawncoin.Blockchain.new_blockchain
    shawncoin.Map.contains shawncoin.Map.find shawncoin.Map.insert shawncoin.Map.Keys.bytes_less
    shawncoin.Block.get_hash shawncoin.Block.header_bytes shawncoin.Block.make_genesis_block
    shawncoin.Crypto.sha256d shawncoin.Examples.checksum shawncoin.Wire.write_u32
    shawncoin.Wire.write_u64 shawncoin.Wire.Monad.write_many shawncoin.Merkle.compute_merkle_root
    shawncoin.Merkle.merkle_root_from_hashes shawncoin.Merkle.merkle_loop
    shawncoin.Transaction.get_txid shawncoin.Transaction.txid_preimage
    shawncoin.Transaction.beq_bytes shawncoin.Transaction.is_coinbase
    shawncoin.Consensus.after_coinbase shawncoin.Consensus.check_proof_of_work
    shawncoin.Consensus.compact_target shawncoin.Consensus.connect_block_utxo
    shawncoin.Consensus.meets_target shawncoin.Consensus.spend_transactions
    shawncoin.Consensus.validate_block_structure shawncoin.Types.get_block_subsidy
    shawncoin.Miner.mine_block shawncoin.Miner.try_nonces shawncoin.Miner.hash_ok
    shawncoin.Miner.with_nonce shawncoin.Miner.candidate_block shawncoin.Mempool.get_block_template
block_previous = refl

block_root : length (compute_merkle_root toy block.transactions) ≡ 32
unfolding shawncoin.Map.insert shawncoin.Crypto.sha256d shawncoin.Merkle.compute_merkle_root
    shawncoin.Merkle.merkle_root_from_hashes shawncoin.Merkle.merkle_loop shawncoin.Merkle.next_row
    shawncoin.Transaction.beq_bytes shawncoin.Transaction.is_coinbase
    shawncoin.Consensus.validate_transaction_structure shawncoin.Miner.candidate_block
    shawncoin.Mempool.get_block_template shawncoin.Mempool.add
block_root = refl

block_found : (mine_block toy block easy_mine_difficulty).1 ≡ true
unfolding shawncoin.Block.get_hash shawncoin.Block.get_header_hash shawncoin.Block.header_bytes
    shawncoin.Block.make_genesis_block shawncoin.Crypto.sha256d shawncoin.Examples.checksum
    shawncoin.Wire.write_u32 shawncoin.Wire.write_u64 shawncoin.Transaction.is_coinbase
    shawncoin.Consensus.after_coinbase shawncoin.Consensus.check_proof_of_work
    shawncoin.Consensus.compact_target shawncoin.Consensus.connect_block_utxo
    shawncoin.Consensus.copy_at shawncoin.Consensus.is_empty shawncoin.Consensus.meets_target
    shawncoin.Types.get_block_subsidy shawncoin.Utxo.has shawncoin.Utxo.put shawncoin.Utxo.spend
    shawncoin.Miner.mine_block shawncoin.Miner.try_nonces shawncoin.Miner.hash_ok
    shawncoin.Miner.with_nonce
block_found = refl

block_root_ones : length (compute_merkle_root ones block.transactions) ≡ 32
unfolding shawncoin.Blockchain.add_block shawncoin.Blockchain.connect_block
    shawncoin.Blockchain.accept_block shawncoin.Blockchain.check_difficulty
    shawncoin.Blockchain.check_transactions shawncoin.Blockchain.get_block_by_height
    shawncoin.Blockchain.get_height shawncoin.Blockchain.get_best_block_hash
    shawncoin.Blockchain.inputs_present shawncoin.Blockchain.new_blockchain shawncoin.Map.contains
    shawncoin.Map.find shawncoin.Map.insert shawncoin.Map.erase shawncoin.Map.Keys.bytes_less
    shawncoin.Map.Keys.outpoint_less shawncoin.Block.get_hash shawncoin.Block.get_header_hash
    shawncoin.Block.header_bytes shawncoin.Block.make_genesis_block shawncoin.Crypto.sha256d
    shawncoin.Examples.checksum shawncoin.Wire.write_u32 shawncoin.Wire.write_u64
    shawncoin.Wire.Monad.write_many shawncoin.Merkle.compute_merkle_root
    shawncoin.Merkle.merkle_root_from_hashes shawncoin.Merkle.merkle_loop shawncoin.Merkle.next_row
    shawncoin.Transaction.get_txid shawncoin.Transaction.txid_preimage
    shawncoin.Transaction.beq_bytes shawncoin.Transaction.is_coinbase
    shawncoin.Consensus.after_coinbase shawncoin.Consensus.check_proof_of_work
    shawncoin.Consensus.compact_target shawncoin.Consensus.connect_block_utxo
    shawncoin.Consensus.copy_at shawncoin.Consensus.is_empty shawncoin.Consensus.meets_target
    shawncoin.Consensus.pow_buffer shawncoin.Consensus.put_outputs
    shawncoin.Consensus.put_transactions shawncoin.Consensus.spend_inputs
    shawncoin.Consensus.spend_transactions shawncoin.Consensus.starts_with_coinbase
    shawncoin.Consensus.validate_block_structure shawncoin.Consensus.validate_transaction_structure
    shawncoin.Types.get_block_subsidy shawncoin.Utxo.has shawncoin.Utxo.put shawncoin.Utxo.spend
    shawncoin.Miner.mine_block shawncoin.Miner.try_nonces shawncoin.Miner.hash_ok
    shawncoin.Miner.with_nonce shawncoin.Miner.candidate_block shawncoin.Miner.height_script
    shawncoin.Miner.miner_coinbase shawncoin.Miner.prepared shawncoin.Mempool.get_block_template
    shawncoin.Mempool.add shawncoin.Difficulty.get_adaptive_next_difficulty
block_root_ones = refl

never : (left nonce : ℕ) (b : Block) → (try_nonces ones left nonce zero_hash b).1 ≡ false
unfolding shawncoin.Blockchain.add_block shawncoin.Blockchain.connect_block
    shawncoin.Blockchain.accept_block shawncoin.Blockchain.check_difficulty
    shawncoin.Blockchain.check_transactions shawncoin.Blockchain.get_block_by_height
    shawncoin.Blockchain.get_height shawncoin.Blockchain.get_best_block_hash
    shawncoin.Blockchain.inputs_present shawncoin.Blockchain.new_blockchain shawncoin.Map.contains
    shawncoin.Map.find shawncoin.Map.insert shawncoin.Map.erase shawncoin.Map.Keys.bytes_less
    shawncoin.Map.Keys.outpoint_less shawncoin.Block.get_hash shawncoin.Block.get_header_hash
    shawncoin.Block.header_bytes shawncoin.Block.make_genesis_block shawncoin.Crypto.sha256d
    shawncoin.Examples.checksum shawncoin.Wire.write_u32 shawncoin.Wire.write_u64
    shawncoin.Wire.Monad.write_many shawncoin.Merkle.compute_merkle_root
    shawncoin.Merkle.merkle_root_from_hashes shawncoin.Merkle.merkle_loop shawncoin.Merkle.next_row
    shawncoin.Transaction.get_txid shawncoin.Transaction.txid_preimage
    shawncoin.Transaction.beq_bytes shawncoin.Transaction.is_coinbase
    shawncoin.Consensus.after_coinbase shawncoin.Consensus.check_proof_of_work
    shawncoin.Consensus.compact_target shawncoin.Consensus.connect_block_utxo
    shawncoin.Consensus.copy_at shawncoin.Consensus.is_empty shawncoin.Consensus.meets_target
    shawncoin.Consensus.pow_buffer shawncoin.Consensus.put_outputs
    shawncoin.Consensus.put_transactions shawncoin.Consensus.spend_inputs
    shawncoin.Consensus.spend_transactions shawncoin.Consensus.starts_with_coinbase
    shawncoin.Consensus.validate_block_structure shawncoin.Consensus.validate_transaction_structure
    shawncoin.Types.get_block_subsidy shawncoin.Utxo.has shawncoin.Utxo.put shawncoin.Utxo.spend
    shawncoin.Miner.mine_block shawncoin.Miner.try_nonces shawncoin.Miner.hash_ok
    shawncoin.Miner.with_nonce shawncoin.Miner.candidate_block shawncoin.Miner.height_script
    shawncoin.Miner.miner_coinbase shawncoin.Miner.prepared shawncoin.Mempool.get_block_template
    shawncoin.Mempool.add shawncoin.Difficulty.get_adaptive_next_difficulty
never zero nonce b = refl
never (suc left) nonce b = never left (nonce + 1) (with_nonce nonce b)

block_fails : (mine_block ones block 0).1 ≡ false
unfolding mine_block shawncoin.Consensus.compact_target
block_fails = never (2 ^ 32) 0 (prepared ones block 0)

mine_block-failure_example :
    check_proof_of_work ones (with_nonce 12345 (prepared ones block 0)).header ≡ false
mine_block-failure_example =
    mine_block-failure ones block 0 12345 block_previous block_root_ones block_fails (omega arith)

best1 : length chain1.best_block_hash ≡ 32
unfolding shawncoin.Blockchain.add_block shawncoin.Blockchain.connect_block
    shawncoin.Blockchain.accept_block shawncoin.Blockchain.check_difficulty
    shawncoin.Blockchain.check_transactions shawncoin.Blockchain.get_block_by_height
    shawncoin.Blockchain.get_height shawncoin.Blockchain.get_best_block_hash
    shawncoin.Blockchain.inputs_present shawncoin.Blockchain.new_blockchain shawncoin.Map.contains
    shawncoin.Map.find shawncoin.Map.insert shawncoin.Map.erase shawncoin.Map.Keys.bytes_less
    shawncoin.Map.Keys.outpoint_less shawncoin.Block.get_hash shawncoin.Block.get_header_hash
    shawncoin.Block.header_bytes shawncoin.Block.make_genesis_block shawncoin.Crypto.sha256d
    shawncoin.Examples.checksum shawncoin.Wire.write_u32 shawncoin.Wire.write_u64
    shawncoin.Wire.Monad.write_many shawncoin.Merkle.compute_merkle_root
    shawncoin.Merkle.merkle_root_from_hashes shawncoin.Merkle.merkle_loop shawncoin.Merkle.next_row
    shawncoin.Transaction.get_txid shawncoin.Transaction.txid_preimage
    shawncoin.Transaction.beq_bytes shawncoin.Transaction.is_coinbase
    shawncoin.Consensus.after_coinbase shawncoin.Consensus.check_proof_of_work
    shawncoin.Consensus.compact_target shawncoin.Consensus.connect_block_utxo
    shawncoin.Consensus.copy_at shawncoin.Consensus.is_empty shawncoin.Consensus.meets_target
    shawncoin.Consensus.pow_buffer shawncoin.Consensus.put_outputs
    shawncoin.Consensus.put_transactions shawncoin.Consensus.spend_inputs
    shawncoin.Consensus.spend_transactions shawncoin.Consensus.starts_with_coinbase
    shawncoin.Consensus.validate_block_structure shawncoin.Consensus.validate_transaction_structure
    shawncoin.Types.get_block_subsidy shawncoin.Utxo.has shawncoin.Utxo.put shawncoin.Utxo.spend
    shawncoin.Miner.mine_block shawncoin.Miner.try_nonces shawncoin.Miner.hash_ok
    shawncoin.Miner.with_nonce shawncoin.Miner.candidate_block shawncoin.Miner.height_script
    shawncoin.Miner.miner_coinbase shawncoin.Miner.prepared shawncoin.Mempool.get_block_template
    shawncoin.Mempool.add shawncoin.Difficulty.get_adaptive_next_difficulty
best1 = refl

pool1_ids : All (λ tx. Is32 (txid toy tx)) (get_block_template pool1)
unfolding shawncoin.Blockchain.add_block shawncoin.Blockchain.connect_block
    shawncoin.Blockchain.accept_block shawncoin.Blockchain.check_difficulty
    shawncoin.Blockchain.check_transactions shawncoin.Blockchain.get_block_by_height
    shawncoin.Blockchain.get_height shawncoin.Blockchain.get_best_block_hash
    shawncoin.Blockchain.inputs_present shawncoin.Blockchain.new_blockchain shawncoin.Map.contains
    shawncoin.Map.find shawncoin.Map.insert shawncoin.Map.erase shawncoin.Map.Keys.bytes_less
    shawncoin.Map.Keys.outpoint_less shawncoin.Block.get_hash shawncoin.Block.get_header_hash
    shawncoin.Block.header_bytes shawncoin.Block.make_genesis_block shawncoin.Crypto.sha256d
    shawncoin.Examples.checksum shawncoin.Wire.write_u32 shawncoin.Wire.write_u64
    shawncoin.Wire.Monad.write_many shawncoin.Merkle.compute_merkle_root
    shawncoin.Merkle.merkle_root_from_hashes shawncoin.Merkle.merkle_loop shawncoin.Merkle.next_row
    shawncoin.Transaction.get_txid shawncoin.Transaction.txid_preimage
    shawncoin.Transaction.beq_bytes shawncoin.Transaction.is_coinbase
    shawncoin.Consensus.after_coinbase shawncoin.Consensus.check_proof_of_work
    shawncoin.Consensus.compact_target shawncoin.Consensus.connect_block_utxo
    shawncoin.Consensus.copy_at shawncoin.Consensus.is_empty shawncoin.Consensus.meets_target
    shawncoin.Consensus.pow_buffer shawncoin.Consensus.put_outputs
    shawncoin.Consensus.put_transactions shawncoin.Consensus.spend_inputs
    shawncoin.Consensus.spend_transactions shawncoin.Consensus.starts_with_coinbase
    shawncoin.Consensus.validate_block_structure shawncoin.Consensus.validate_transaction_structure
    shawncoin.Types.get_block_subsidy shawncoin.Utxo.has shawncoin.Utxo.put shawncoin.Utxo.spend
    shawncoin.Miner.mine_block shawncoin.Miner.try_nonces shawncoin.Miner.hash_ok
    shawncoin.Miner.with_nonce shawncoin.Miner.candidate_block shawncoin.Miner.height_script
    shawncoin.Miner.miner_coinbase shawncoin.Miner.prepared shawncoin.Mempool.get_block_template
    shawncoin.Mempool.add shawncoin.Difficulty.get_adaptive_next_difficulty
pool1_ids = (refl, tt)

mined_block_valid_example :
    validate_block_structure toy 1704068400 (mine_block toy block easy_mine_difficulty).0 ≡ true
mined_block_valid_example =
    mined_block_valid toy 1704068400 payout chain1 pool1 1704068400 best1 pool1_ids (omega arith)
      (omega arith) block_found

block2_previous : length block2.header.previous_hash ≡ 32
unfolding shawncoin.Blockchain.add_block shawncoin.Blockchain.connect_block
    shawncoin.Blockchain.accept_block shawncoin.Blockchain.check_difficulty
    shawncoin.Blockchain.check_transactions shawncoin.Blockchain.get_block_by_height
    shawncoin.Blockchain.get_height shawncoin.Blockchain.get_best_block_hash
    shawncoin.Blockchain.inputs_present shawncoin.Blockchain.new_blockchain shawncoin.Map.contains
    shawncoin.Map.find shawncoin.Map.insert shawncoin.Map.erase shawncoin.Map.Keys.bytes_less
    shawncoin.Map.Keys.outpoint_less shawncoin.Block.get_hash shawncoin.Block.get_header_hash
    shawncoin.Block.header_bytes shawncoin.Block.make_genesis_block shawncoin.Crypto.sha256d
    shawncoin.Examples.checksum shawncoin.Wire.write_u32 shawncoin.Wire.write_u64
    shawncoin.Wire.Monad.write_many shawncoin.Merkle.compute_merkle_root
    shawncoin.Merkle.merkle_root_from_hashes shawncoin.Merkle.merkle_loop shawncoin.Merkle.next_row
    shawncoin.Transaction.get_txid shawncoin.Transaction.txid_preimage
    shawncoin.Transaction.beq_bytes shawncoin.Transaction.is_coinbase
    shawncoin.Consensus.after_coinbase shawncoin.Consensus.check_proof_of_work
    shawncoin.Consensus.compact_target shawncoin.Consensus.connect_block_utxo
    shawncoin.Consensus.copy_at shawncoin.Consensus.is_empty shawncoin.Consensus.meets_target
    shawncoin.Consensus.pow_buffer shawncoin.Consensus.put_outputs
    shawncoin.Consensus.put_transactions shawncoin.Consensus.spend_inputs
    shawncoin.Consensus.spend_transactions shawncoin.Consensus.starts_with_coinbase
    shawncoin.Consensus.validate_block_structure shawncoin.Consensus.validate_transaction_structure
    shawncoin.Types.get_block_subsidy shawncoin.Utxo.has shawncoin.Utxo.put shawncoin.Utxo.spend
    shawncoin.Miner.mine_block shawncoin.Miner.try_nonces shawncoin.Miner.hash_ok
    shawncoin.Miner.with_nonce shawncoin.Miner.candidate_block shawncoin.Miner.height_script
    shawncoin.Miner.miner_coinbase shawncoin.Miner.prepared shawncoin.Mempool.get_block_template
    shawncoin.Mempool.add shawncoin.Difficulty.get_adaptive_next_difficulty
block2_previous = refl

block2_root : length block2.header.merkle_root ≡ 32
unfolding shawncoin.Blockchain.add_block shawncoin.Blockchain.connect_block
    shawncoin.Blockchain.accept_block shawncoin.Blockchain.check_difficulty
    shawncoin.Blockchain.check_transactions shawncoin.Blockchain.get_block_by_height
    shawncoin.Blockchain.get_height shawncoin.Blockchain.get_best_block_hash
    shawncoin.Blockchain.inputs_present shawncoin.Blockchain.new_blockchain shawncoin.Map.contains
    shawncoin.Map.find shawncoin.Map.insert shawncoin.Map.erase shawncoin.Map.Keys.bytes_less
    shawncoin.Map.Keys.outpoint_less shawncoin.Block.get_hash shawncoin.Block.get_header_hash
    shawncoin.Block.header_bytes shawncoin.Block.make_genesis_block shawncoin.Crypto.sha256d
    shawncoin.Examples.checksum shawncoin.Wire.write_u32 shawncoin.Wire.write_u64
    shawncoin.Wire.Monad.write_many shawncoin.Merkle.compute_merkle_root
    shawncoin.Merkle.merkle_root_from_hashes shawncoin.Merkle.merkle_loop shawncoin.Merkle.next_row
    shawncoin.Transaction.get_txid shawncoin.Transaction.txid_preimage
    shawncoin.Transaction.beq_bytes shawncoin.Transaction.is_coinbase
    shawncoin.Consensus.after_coinbase shawncoin.Consensus.check_proof_of_work
    shawncoin.Consensus.compact_target shawncoin.Consensus.connect_block_utxo
    shawncoin.Consensus.copy_at shawncoin.Consensus.is_empty shawncoin.Consensus.meets_target
    shawncoin.Consensus.pow_buffer shawncoin.Consensus.put_outputs
    shawncoin.Consensus.put_transactions shawncoin.Consensus.spend_inputs
    shawncoin.Consensus.spend_transactions shawncoin.Consensus.starts_with_coinbase
    shawncoin.Consensus.validate_block_structure shawncoin.Consensus.validate_transaction_structure
    shawncoin.Types.get_block_subsidy shawncoin.Utxo.has shawncoin.Utxo.put shawncoin.Utxo.spend
    shawncoin.Miner.mine_block shawncoin.Miner.try_nonces shawncoin.Miner.hash_ok
    shawncoin.Miner.with_nonce shawncoin.Miner.candidate_block shawncoin.Miner.height_script
    shawncoin.Miner.miner_coinbase shawncoin.Miner.prepared shawncoin.Mempool.get_block_template
    shawncoin.Mempool.add shawncoin.Difficulty.get_adaptive_next_difficulty
block2_root = refl

check_proof_of_work_lem_example :
    check_proof_of_work toy block2.header
    ≡ leb
        (le_value (get_header_hash toy block2.header))
        (le_value (compact_target block2.header.difficulty_target))
check_proof_of_work_lem_example =
    check_proof_of_work_lem toy block2.header block2_previous block2_root
