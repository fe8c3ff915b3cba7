-- ===== src/Consensus.antt =====
-- shawncoin/src/core/consensus.cpp: proof of work, the structure of transactions and blocks, and
-- the effect of a block on the unspent outputs. (checkDifficulty is in Blockchain.antt, since it
-- reads the chain.) The time of the host is an argument, `now`.
pub mod Buffer
pub mod Target
pub mod Compact
pub mod Work
pub mod Outputs
pub mod Coins
pub mod Spending
pub mod Effect
use shawncoin.Prelude.{
  ℕ, zero, suc, ◌+◌, ◌-◌, ◌*◌, ◌/◌, ◌%◌, ◌^◌, Bool, true, false, not, ◌&&◌, ◌||◌, List, [], ◌∷◌,
  ◌++◌, ltb, leb, ◌==◌, if◌then◌else◌, take, drop, replicate, set, get_or,
}
use shawncoin.Wire.{Bytes, write_u32, write_u64}
use shawncoin.Types.{
  Block, BlockHeader, Transaction, TxInput, TxOutput, OutPoint, zero_hash, max_money,
}
use shawncoin.Crypto.{Digest, sha256d}
use shawncoin.Transaction.{txid, is_coinbase, beq_bytes}
use shawncoin.Merkle.{compute_merkle_root}
use shawncoin.Utxo.{UtxoSet, has, spend, put}

-- memcpy(buf + off, src, n) inside the buffer.
unfoldable pub copy_at : ℕ → ℕ → Bytes → Bytes → Bytes
copy_at off n src buf = take off buf ++ (take n src ++ drop (off + n) buf)

-- The 80 bytes that checkProofOfWork hashes: the eight bytes of the time are written at 68, and the
-- target overwrites the upper four of them.
unfoldable pub pow_buffer : BlockHeader → Bytes
pow_buffer h =
    let b0 = replicate 80 0 in
    let b1 = copy_at 0 4 (write_u32 h.version) b0 in
    let b2 = copy_at 4 32 h.previous_hash b1 in
    let b3 = copy_at 36 32 h.merkle_root b2 in
    let b4 = copy_at 68 8 (write_u64 h.timestamp) b3 in
    let b5 = copy_at 72 4 (write_u32 h.difficulty_target) b4 in copy_at 76 4 (write_u32 h.nonce) b5

-- The branch for sizes up to 3: the last three bytes.
small_target : ℕ → Bytes
small_target word =
    set (set (set zero_hash 31 (word % 256)) 30 (word / 2 ^ 8 % 256)) 29 (word / 2 ^ 16 % 256)

-- The branch for larger sizes, with byte_pos not negative.
large_target : ℕ → ℕ → Bytes
large_target word byte_pos =
    let t0 = set zero_hash byte_pos (word % 256) in
    let t1 = if ltb 0 byte_pos then set t0 (byte_pos - 1) (word / 2 ^ 8 % 256) else t0 in
    if ltb 1 byte_pos then set t1 (byte_pos - 2) (word / 2 ^ 16 % 256) else t1

-- byte_pos = 32 - shift / 8 - 1 with shift = 8 * (size - 3) is negative where `used` is above 32.
unfoldable pub compact_target : ℕ → Bytes
unfolding small_target large_target
compact_target compact =
    let size = compact / 2 ^ 24 in
    let word = compact % 2 ^ 23 in
    let used = 8 * (size - 3) / 8 + 1 in
    if leb size 3
    then small_target (word / 2 ^ (8 * (3 - size)))
    else if leb used 32
    then large_target word (32 - used)
    else zero_hash

-- `for (int i = 31; i >= 0; --i)`: the argument is i + 1.
unfoldable pub meets_target : ℕ → Bytes → Bytes → Bool
meets_target zero h target = true
meets_target (suc i) h target =
    let rest = meets_target i h target in
    if ltb (get_or h i 0) (get_or target i 0)
    then true
    else if ltb (get_or target i 0) (get_or h i 0)
    then false
    else rest

-- The loop over the outputs, with the sum so far; it ends with the sum test and the input test.
validate_outputs : Bool → ℕ → List TxOutput → Bool
validate_outputs inputs_ok out_sum [] = if ltb max_money out_sum then false else inputs_ok
validate_outputs inputs_ok out_sum (o ∷ os) =
    let out_sum' = (out_sum + o.amount) % 2 ^ 64 in
    if ltb max_money o.amount
    then false
    else if ltb out_sum' out_sum
    then false
    else validate_outputs inputs_ok out_sum' os

unfoldable pub is_empty {ℓ} : {A : Type ℓ} → List A → Bool
is_empty [] = true
is_empty (x ∷ xs) = false

unfoldable pub validate_transaction_structure : Transaction → Bool
unfolding validate_outputs is_empty
validate_transaction_structure tx =
    if is_empty tx.outputs
    then false
    else validate_outputs (is_coinbase tx || not (is_empty tx.inputs)) 0 tx.outputs

abbrev pub input_outpoint : TxInput → OutPoint
input_outpoint i = record { hash = i.prev_tx_hash; index = i.output_index }

-- One transaction's inputs: each must be there, and is spent before the next is looked at.
unfoldable pub spend_inputs : List TxInput → UtxoSet → UtxoSet × Bool
spend_inputs [] u = (u, true)
spend_inputs (i ∷ is) u =
    if has (input_outpoint i) u then spend_inputs is (spend (input_outpoint i) u).0 else (u, false)

unfoldable pub spend_transactions : List Transaction → UtxoSet → UtxoSet × Bool
spend_transactions [] u = (u, true)
spend_transactions (tx ∷ txs) u =
    let (u', ok) = spend_inputs tx.inputs u in
    let rest = spend_transactions txs u' in if ok then rest else (u', false)

-- The loops start at index 1: the coinbase spends nothing.
unfoldable pub after_coinbase : List Transaction → List Transaction
after_coinbase [] = []
after_coinbase (coinbase ∷ txs) = txs

unfoldable pub put_outputs : Bytes → ℕ → List TxOutput → UtxoSet → UtxoSet
put_outputs id j [] u = u
put_outputs id j (o ∷ os) u =
    put_outputs id (j + 1) os
      (put (record { hash = id; index = j % 2 ^ 32 }) o.amount o.script_pubkey u)

unfoldable pub spend_outputs : Bytes → ℕ → List TxOutput → UtxoSet → UtxoSet
spend_outputs id j [] u = u
spend_outputs id j (o ∷ os) u =
    spend_outputs id (j + 1) os (spend (record { hash = id; index = j % 2 ^ 32 }) u).0

module _ (c : Digest) where
  unfoldable pub check_proof_of_work : BlockHeader → Bool
  check_proof_of_work h =
      meets_target 32 (sha256d c (pow_buffer h)) (compact_target h.difficulty_target)

  -- The first transaction is a coinbase; false for no transaction.
  unfoldable pub starts_with_coinbase : List Transaction → Bool
  starts_with_coinbase [] = false
  starts_with_coinbase (tx ∷ txs) = is_coinbase tx

  unfoldable pub validate_block_structure : ℕ → Block → Bool
  unfolding starts_with_coinbase
  validate_block_structure now b =
      if not (starts_with_coinbase b.transactions)
      then false
      else if not (beq_bytes (compute_merkle_root c b.transactions) b.header.merkle_root)
      then false
      else if ltb ((now + 2 * 60 * 60) % 2 ^ 64) b.header.timestamp
      then false
      else if b.header.difficulty_target % 2 ^ 23 == 0
      then false
      else check_proof_of_work b.header

  unfoldable pub put_transactions : List Transaction → UtxoSet → UtxoSet
  put_transactions [] u = u
  put_transactions (tx ∷ txs) u = put_transactions txs (put_outputs (txid c tx) 0 tx.outputs u)

  unfoldable pub connect_block_utxo : Block → UtxoSet → UtxoSet × Bool
  connect_block_utxo b u =
      let (u', ok) = spend_transactions (after_coinbase b.transactions) u in
      if ok then (put_transactions b.transactions u', true) else (u', false)

  unfoldable pub disconnect_transactions : List Transaction → UtxoSet → UtxoSet
  disconnect_transactions [] u = u
  disconnect_transactions (tx ∷ txs) u =
      disconnect_transactions txs (spend_outputs (txid c tx) 0 tx.outputs u)

  -- The outputs are taken out; the loop over the inputs does nothing.
  unfoldable pub disconnect_block_utxo : Block → UtxoSet → UtxoSet
  disconnect_block_utxo b u = disconnect_transactions b.transactions u
