-- ===== src/Examples/Addresses.antt =====
-- Addresses, keys and the wallet at concrete inputs.
use shawncoin.Prelude.{
  ℕ, ◌%◌, ◌^◌, ◌<◌, ◌≡◌, ◌⊎◌, inl, inr, refl, ap, true, false, none, some, [], ◌∷◌, ◌++◌, take,
  replicate, get_or, All, All-replicate, codes, arith,
}
use mathlib.Core.List.{reverse}
use shawncoin.Wire.{Bytes, IsByte}
use shawncoin.Types.{Transaction, OutPoint}
use shawncoin.Crypto.{sha256d, hash160}
use shawncoin.Block.{p2pkh_script}
use shawncoin.Utxo.{Entry, UtxoSet}
use shawncoin.Util.{hex_encode}
use shawncoin.Address.{
  encode_base58, decode_base58, pub_key_hash_to_address, address_to_pub_key_hash, address_version,
}
use shawncoin.Address.Base58.{zeros_of, significant, decode_base58-encode_base58}
use shawncoin.Address.RoundTrip.{tail, front, address_to_pub_key_hash-pub_key_hash_to_address}
use shawncoin.Wallet.{Wallet, get_balance, sign_transaction, signature_hash}
use shawncoin.Wallet.HdWallet.{derive_private_key, derive_address}
use shawncoin.Keys.{keypair_from_priv, pubkey_get}
use shawncoin.Wallet.Signing.{IsSigned, sign_transaction-IsSigned}
use shawncoin.Wallet.Ownership.{IsTotal}
use shawncoin.Wallet.Balance.{get_balance-IsTotal, Unread, after_addresses, sign_transaction-Unread}
use shawncoin.Wallet.Storage.{Sealed, sealed_text, restore, save_to_file, load_from_file}
use shawncoin.Wallet.Storage.RoundTrip.{load_from_file-save_to_file}
use shawncoin.Json.{Json, array, item, no_items, string, number}
use shawncoin.Rpc.{RpcContext}
use shawncoin.Examples.{toy, checksum, checksum_byte, coin1, chain1, payout, input1}
use shawncoin.Examples.Toys.{toy_curve, toy_cipher, lucky, secret}

abbrev some_bytes : Bytes
some_bytes = 0 ∷ 0 ∷ 7 ∷ 255 ∷ 1 ∷ []

some_bytes-IsByte : All IsByte some_bytes
some_bytes-IsByte = (omega arith, (omega arith, (omega arith, (omega arith, (omega arith, tt)))))

decode_base58-encode_base58_example :
    decode_base58 (encode_base58 some_bytes)
    ≡ zeros_of some_bytes ++ reverse (significant some_bytes)
decode_base58-encode_base58_example = decode_base58-encode_base58 some_bytes some_bytes-IsByte

-- The bytes come back in reverse order, behind the zeros.
decode_base58_of_some_bytes : decode_base58 (encode_base58 some_bytes) ≡ 0 ∷ 0 ∷ 1 ∷ 255 ∷ 7 ∷ []
unfolding shawncoin.Address.shift_in shawncoin.Address.encode_digits shawncoin.Address.leading_ones
    shawncoin.Address.encode_base58 shawncoin.Address.index_in shawncoin.Address.char_digit
    shawncoin.Address.decode_digits shawncoin.Address.leading_zeros shawncoin.Address.decode_base58
decode_base58_of_some_bytes = refl

address_to_pub_key_hash-pub_key_hash_to_address_example :
    (address_to_pub_key_hash toy (pub_key_hash_to_address toy (1 ∷ 2 ∷ 3 ∷ replicate 17 4)) ≡ [])
    ⊎ (take 4 (sha256d toy (reverse (tail toy 1 2 3 (replicate 17 4))))
        ≡ front toy 1 2 3 (replicate 17 4))
address_to_pub_key_hash-pub_key_hash_to_address_example =
    address_to_pub_key_hash-pub_key_hash_to_address toy 1 2 3 (replicate 17 4) refl
      (omega arith, (omega arith, (omega arith, All-replicate IsByte 17 4 (omega arith))))

abbrev wallet0 : Wallet
wallet0 = record { mnemonic = secret; seed = replicate 32 5; keys = [] }

abbrev wallet1 : Wallet
wallet1 = record {
  mnemonic = secret;
  seed = replicate 32 5;
  keys = (codes "an address", payout) ∷ [];
}

get_balance-IsTotal_example :
    (total : ℕ) × IsTotal wallet1.keys chain1.utxo total
    × (get_balance (some chain1.utxo) wallet1 ≡ total % 2 ^ 64)
get_balance-IsTotal_example = get_balance-IsTotal wallet1 chain1.utxo

balance_of_wallet1 : get_balance (some chain1.utxo) wallet1 ≡ 2500000000
unfolding shawncoin.Blockchain.add_block shawncoin.Blockchain.connect_block
    shawncoin.Blockchain.accept_block shawncoin.Blockchain.check_difficulty
    shawncoin.Blockchain.check_transactions shawncoin.Blockchain.get_block_by_height
    shawncoin.Blockchain.get_height shawncoin.Blockchain.get_best_block_hash
    shawncoin.Blockchain.inputs_present shawncoin.Blockchain.new_blockchain shawncoin.Map.contains
    shawncoin.Map.find shawncoin.Map.insert shawncoin.Map.erase shawncoin.Map.Keys.bytes_less
    shawncoin.Map.Keys.outpoint_less shawncoin.Block.get_hash shawncoin.Block.get_header_hash
    shawncoin.Block.header_bytes shawncoin.Block.make_genesis_block shawncoin.Crypto.sha256d
    shawncoin.Examples.checksum shawncoin.Wire.write_u32 shawncoin.Wire.write_u64
    shawncoin.Wire.Monad.write_many shawncoin.Merkle.compute_merkle_root
    shawncoin.Merkle.merkle_root_from_hashes shawncoin.Merkle.merkle_loop shawncoin.Merkle.next_row
    shawncoin.Transaction.get_txid shawncoin.Transaction.txid_preimage
    shawncoin.Transaction.beq_bytes shawncoin.Transaction.is_coinbase
    shawncoin.Consensus.after_coinbase shawncoin.Consensus.check_proof_of_work
    shawncoin.Consensus.compact_target shawncoin.Consensus.connect_block_utxo
    shawncoin.Consensus.copy_at shawncoin.Consensus.is_empty shawncoin.Consensus.meets_target
    shawncoin.Consensus.pow_buffer shawncoin.Consensus.put_outputs
    shawncoin.Consensus.put_transactions shawncoin.Consensus.spend_inputs
    shawncoin.Consensus.spend_transactions shawncoin.Consensus.starts_with_coinbase
    shawncoin.Consensus.validate_block_structure shawncoin.Consensus.validate_transaction_structure
    shawncoin.Types.get_block_subsidy shawncoin.Utxo.has shawncoin.Utxo.put shawncoin.Utxo.spend
    shawncoin.Miner.mine_block shawncoin.Miner.try_nonces shawncoin.Miner.hash_ok
    shawncoin.Miner.with_nonce shawncoin.Miner.candidate_block shawncoin.Miner.height_script
    shawncoin.Miner.miner_coinbase shawncoin.Miner.prepared shawncoin.Mempool.get_block_template
    shawncoin.Mempool.add shawncoin.Difficulty.get_adaptive_next_difficulty
    shawncoin.Address.push_carry shawncoin.Wallet.clear_input shawncoin.Wallet.p2pkh_hash
    shawncoin.Wallet.stores_hash shawncoin.Wallet.add_balance shawncoin.Wallet.get_balance
    shawncoin.Utxo.snapshot shawncoin.Utxo.get shawncoin.Transaction.serialize_transaction
balance_of_wallet1 = refl

abbrev coin_set : UtxoSet
coin_set =
    (
      record { hash = coin1; index = 0 },
      record { amount = 9; script_pubkey = p2pkh_script (1 ∷ 2 ∷ 3 ∷ replicate 17 0) },
    )
    ∷ []

abbrev to_sign : Transaction
to_sign = record {
  version = 1;
  inputs = input1 ∷ [];
  outputs = record { amount = 5; script_pubkey = 0x6a ∷ [] } ∷ [];
  lock_time = 0;
  cached_txid = none;
}

is_signed : (sign_transaction lucky toy_curve (some coin_set) wallet1 to_sign).1 ≡ true
unfolding shawncoin.Blockchain.add_block shawncoin.Blockchain.connect_block
    shawncoin.Blockchain.accept_block shawncoin.Blockchain.check_difficulty
    shawncoin.Blockchain.check_transactions shawncoin.Blockchain.get_block_by_height
    shawncoin.Blockchain.get_height shawncoin.Blockchain.get_best_block_hash
    shawncoin.Blockchain.inputs_present shawncoin.Blockchain.new_blockchain shawncoin.Map.contains
    shawncoin.Map.find shawncoin.Map.insert shawncoin.Map.erase shawncoin.Map.Keys.bytes_less
    shawncoin.Map.Keys.outpoint_less shawncoin.Block.get_hash shawncoin.Block.get_header_hash
    shawncoin.Block.header_bytes shawncoin.Block.make_genesis_block shawncoin.Crypto.sha256d
    shawncoin.Examples.checksum shawncoin.Wire.write_u32 shawncoin.Wire.write_u64
    shawncoin.Wire.Monad.write_many shawncoin.Merkle.compute_merkle_root
    shawncoin.Merkle.merkle_root_from_hashes shawncoin.Merkle.merkle_loop shawncoin.Merkle.next_row
    shawncoin.Transaction.get_txid shawncoin.Transaction.txid_preimage
    shawncoin.Transaction.beq_bytes shawncoin.Transaction.is_coinbase
    shawncoin.Consensus.after_coinbase shawncoin.Consensus.check_proof_of_work
    shawncoin.Consensus.compact_target shawncoin.Consensus.connect_block_utxo
    shawncoin.Consensus.copy_at shawncoin.Consensus.is_empty shawncoin.Consensus.meets_target
    shawncoin.Consensus.pow_buffer shawncoin.Consensus.put_outputs
    shawncoin.Consensus.put_transactions shawncoin.Consensus.spend_inputs
    shawncoin.Consensus.spend_transactions shawncoin.Consensus.starts_with_coinbase
    shawncoin.Consensus.validate_block_structure shawncoin.Consensus.validate_transaction_structure
    shawncoin.Types.get_block_subsidy shawncoin.Utxo.has shawncoin.Utxo.put shawncoin.Utxo.spend
    shawncoin.Miner.mine_block shawncoin.Miner.try_nonces shawncoin.Miner.hash_ok
    shawncoin.Miner.with_nonce shawncoin.Miner.candidate_block shawncoin.Miner.height_script
    shawncoin.Miner.miner_coinbase shawncoin.Miner.prepared shawncoin.Mempool.get_block_template
    shawncoin.Mempool.add shawncoin.Difficulty.get_adaptive_next_difficulty
    shawncoin.Address.push_carry shawncoin.Address.shift_in shawncoin.Address.encode_digits
    shawncoin.Address.leading_ones shawncoin.Address.encode_base58 shawncoin.Address.index_in
    shawncoin.Address.char_digit shawncoin.Address.decode_digits shawncoin.Address.leading_zeros
    shawncoin.Address.decode_base58 shawncoin.Address.encode_base58_check
    shawncoin.Address.decode_base58_check shawncoin.Address.pub_key_hash_to_address
    shawncoin.Address.address_to_pub_key_hash shawncoin.Crypto.hash160
    shawncoin.Keys.keypair_from_priv shawncoin.Keys.pubkey_get shawncoin.Keys.sign
    shawncoin.Wallet.HdWallet.derive_private_key shawncoin.Wallet.HdWallet.derive_address
    shawncoin.Wallet.find_address shawncoin.Wallet.find_private_key shawncoin.Wallet.find_key
    shawncoin.Wallet.sign_with shawncoin.Wallet.sign_input shawncoin.Wallet.sign_inputs
    shawncoin.Wallet.sign_transaction shawncoin.Wallet.signature_hash
    shawncoin.Wallet.without_signatures shawncoin.Wallet.clear_input shawncoin.Wallet.p2pkh_hash
    shawncoin.Wallet.stores_hash shawncoin.Wallet.add_balance shawncoin.Wallet.get_balance
    shawncoin.Utxo.snapshot shawncoin.Utxo.get shawncoin.Transaction.serialize_transaction
    shawncoin.Transaction.write_input shawncoin.Transaction.write_output
    shawncoin.Transaction.write_script shawncoin.Wire.write_var_int shawncoin.Util.hex_encode
    shawncoin.Wallet.Storage.encrypt_with_pass shawncoin.Wallet.Storage.save_to_file
    shawncoin.Wallet.Storage.sealed_text
is_signed = refl

sign_transaction-IsSigned_example :
    All
      (IsSigned toy_curve
        (signature_hash lucky (sign_transaction lucky toy_curve (some coin_set) wallet1 to_sign).0))
      (sign_transaction lucky toy_curve (some coin_set) wallet1 to_sign).0.inputs
sign_transaction-IsSigned_example =
    sign_transaction-IsSigned lucky toy_curve wallet1 to_sign (some coin_set) is_signed

-- Under the toy digest no address is read back.
not_read_back_hash :
    (x : ℕ)
    → x < 256
    → address_to_pub_key_hash toy (pub_key_hash_to_address toy (x ∷ 0 ∷ 0 ∷ replicate 17 0)) ≡ []
unfolding sha256d
not_read_back_hash x lt =
    elim (address_to_pub_key_hash-pub_key_hash_to_address toy x 0 0 (replicate 17 0) refl
      (lt, (omega arith, (omega arith, All-replicate IsByte 17 0 (omega arith))))) [
        | inl e ↦ e
        | inr e ↦ absurd (omega (arith, ap (λ (l : Bytes). get_or l 3 0) e))
      ]

not_read_back : Unread toy toy_curve (replicate 32 5)
unfolding derive_address derive_private_key keypair_from_priv pubkey_get hash160 sha256d
not_read_back k = not_read_back_hash _ (checksum_byte 0 _)

sign_transaction-Unread_example :
    (get_balance (some coin_set) (after_addresses toy toy_curve 3 wallet0) ≡ 0)
    × (sign_transaction toy toy_curve
          (some coin_set)
          (after_addresses toy toy_curve 3 wallet0)
          to_sign
        ≡ (to_sign, false))
sign_transaction-Unread_example =
    sign_transaction-Unread toy toy_curve 3 wallet0 coin_set to_sign input1 [] not_read_back refl
      refl

abbrev stored : Bytes
stored = sealed_text (record {
  salt = hex_encode (replicate 16 1);
  iv = hex_encode (replicate 16 (checksum 0 (codes "pass" ++ replicate 16 1)));
  ct = hex_encode (replicate 32 9);
})

is_stored :
    save_to_file toy_cipher true (some (replicate 16 1)) (codes "pass") wallet1 ≡ some stored
unfolding shawncoin.Blockchain.add_block shawncoin.Blockchain.connect_block
    shawncoin.Blockchain.accept_block shawncoin.Blockchain.check_difficulty
    shawncoin.Blockchain.check_transactions shawncoin.Blockchain.get_block_by_height
    shawncoin.Blockchain.get_height shawncoin.Blockchain.get_best_block_hash
    shawncoin.Blockchain.inputs_present shawncoin.Blockchain.new_blockchain shawncoin.Map.contains
    shawncoin.Map.find shawncoin.Map.insert shawncoin.Map.erase shawncoin.Map.Keys.bytes_less
    shawncoin.Map.Keys.outpoint_less shawncoin.Block.get_hash shawncoin.Block.get_header_hash
    shawncoin.Block.header_bytes shawncoin.Block.make_genesis_block shawncoin.Crypto.sha256d
    shawncoin.Examples.checksum shawncoin.Wire.write_u32 shawncoin.Wire.write_u64
    shawncoin.Wire.Monad.write_many shawncoin.Merkle.compute_merkle_root
    shawncoin.Merkle.merkle_root_from_hashes shawncoin.Merkle.merkle_loop shawncoin.Merkle.next_row
    shawncoin.Transaction.get_txid shawncoin.Transaction.txid_preimage
    shawncoin.Transaction.beq_bytes shawncoin.Transaction.is_coinbase
    shawncoin.Consensus.after_coinbase shawncoin.Consensus.check_proof_of_work
    shawncoin.Consensus.compact_target shawncoin.Consensus.connect_block_utxo
    shawncoin.Consensus.copy_at shawncoin.Consensus.is_empty shawncoin.Consensus.meets_target
    shawncoin.Consensus.pow_buffer shawncoin.Consensus.put_outputs
    shawncoin.Consensus.put_transactions shawncoin.Consensus.spend_inputs
    shawncoin.Consensus.spend_transactions shawncoin.Consensus.starts_with_coinbase
    shawncoin.Consensus.validate_block_structure shawncoin.Consensus.validate_transaction_structure
    shawncoin.Types.get_block_subsidy shawncoin.Utxo.has shawncoin.Utxo.put shawncoin.Utxo.spend
    shawncoin.Miner.mine_block shawncoin.Miner.try_nonces shawncoin.Miner.hash_ok
    shawncoin.Miner.with_nonce shawncoin.Miner.candidate_block shawncoin.Miner.height_script
    shawncoin.Miner.miner_coinbase shawncoin.Miner.prepared shawncoin.Mempool.get_block_template
    shawncoin.Mempool.add shawncoin.Difficulty.get_adaptive_next_difficulty
    shawncoin.Address.push_carry shawncoin.Address.shift_in shawncoin.Address.encode_digits
    shawncoin.Address.leading_ones shawncoin.Address.encode_base58 shawncoin.Address.index_in
    shawncoin.Address.char_digit shawncoin.Address.decode_digits shawncoin.Address.leading_zeros
    shawncoin.Address.decode_base58 shawncoin.Address.encode_base58_check
    shawncoin.Address.decode_base58_check shawncoin.Address.pub_key_hash_to_address
    shawncoin.Address.address_to_pub_key_hash shawncoin.Crypto.hash160
    shawncoin.Keys.keypair_from_priv shawncoin.Keys.pubkey_get shawncoin.Keys.sign
    shawncoin.Wallet.HdWallet.derive_private_key shawncoin.Wallet.HdWallet.derive_address
    shawncoin.Wallet.find_address shawncoin.Wallet.find_private_key shawncoin.Wallet.find_key
    shawncoin.Wallet.sign_with shawncoin.Wallet.sign_input shawncoin.Wallet.sign_inputs
    shawncoin.Wallet.sign_transaction shawncoin.Wallet.signature_hash
    shawncoin.Wallet.without_signatures shawncoin.Wallet.clear_input shawncoin.Wallet.p2pkh_hash
    shawncoin.Wallet.stores_hash shawncoin.Wallet.add_balance shawncoin.Wallet.get_balance
    shawncoin.Utxo.snapshot shawncoin.Utxo.get shawncoin.Transaction.serialize_transaction
    shawncoin.Transaction.write_input shawncoin.Transaction.write_output
    shawncoin.Transaction.write_script shawncoin.Wire.write_var_int shawncoin.Util.hex_encode
    shawncoin.Wallet.Storage.encrypt_with_pass shawncoin.Wallet.Storage.save_to_file
    shawncoin.Wallet.Storage.sealed_text
is_stored = refl

load_from_file-save_to_file_example :
    load_from_file toy_cipher (some stored) (codes "pass") wallet0
    ≡ restore toy_cipher secret [] wallet0
load_from_file-save_to_file_example =
    load_from_file-save_to_file toy_cipher wallet1 wallet0 (replicate 16 1) (codes "pass") stored
      refl (All-replicate IsByte 16 1 (omega arith)) is_stored

-- "an address" and 5
abbrev two_params : Json
two_params = array (item (string (codes "an address")) (item (number 5) no_items))

abbrev sending : RpcContext
sending = record {
  chain = some chain1;
  mempool = some [];
  wallet = some wallet1;
  miner = none;
  files = [];
}
