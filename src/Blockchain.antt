-- ===== src/Blockchain.antt =====
-- shawncoin/src/core/blockchain.cpp: the chain in memory with its optional storage, and
-- checkDifficulty of shawncoin/src/core/consensus.cpp, which reads the chain. Calls are taken one
-- after the other; `now` is the time of the host.
pub mod Linked
pub mod History
pub mod Atomicity
use shawncoin.Prelude.{
  ℕ, ◌+◌, ◌-◌, ◌%◌, ◌^◌, ◌≡◌, Bool, true, false, not, ◌&&◌, Option, none, some, List, [], ◌∷◌, map,
  ltb, ◌==◌, if◌then◌else◌,
}
use shawncoin.Wire.{Bytes}
use shawncoin.Map.{find, insert, contains}
use shawncoin.Map.Keys.{nat_less, bytes_order}
use shawncoin.Types.{Block, BlockHeader, Transaction, TxInput, difficulty_interval}
use shawncoin.Crypto.{Digest}
use shawncoin.Transaction.{with_txid, beq_bytes}
use shawncoin.Block.{get_hash, make_genesis_block}
use shawncoin.Utxo.{UtxoSet, has}
use shawncoin.Consensus.{
  input_outpoint, after_coinbase, validate_block_structure, validate_transaction_structure,
  connect_block_utxo,
}
use shawncoin.Difficulty.{get_adaptive_next_difficulty}
use shawncoin.Storage.{ChainState, get_best_block, set_best_block, put_block, save_to_disk}
use shawncoin.Storage

pub record Blockchain : Type 0 where
  pub utxo : UtxoSet
  pub best_block_hash : Bytes
  pub height : ℕ
  pub block_cache : List (Bytes × Block)
  pub height_index : List (ℕ × Bytes)
  pub chain_state : Option ChainState

unfoldable pub get_block_by_height : ℕ → Blockchain → Option Block
get_block_by_height height chain = elim (find height chain.height_index) [
  | none ↦ none
  | some hash ↦ find hash chain.block_cache
]

-- The cache, then the storage.
unfoldable pub get_block : Bytes → Blockchain → Option Block
get_block hash chain = elim (find hash chain.block_cache) [
  | some b ↦ some b
  | none ↦ elim chain.chain_state [ none ↦ none | some s ↦ Storage.get_block hash s ]
]

unfoldable pub get_best_block_hash : Blockchain → Bytes
get_best_block_hash chain = chain.best_block_hash

unfoldable pub get_height : Blockchain → ℕ
get_height chain = chain.height

unfoldable pub set_chain_state : Option ChainState → Blockchain → Blockchain
set_chain_state state chain = record chain { chain_state = state }

-- Load the best block from the storage, where there is one above genesis.
unfoldable pub init : Blockchain → Blockchain × Bool
init chain = elim chain.chain_state [
  | none ↦ (chain, true)
  | some s ↦
      let (best, height) = get_best_block s in
      if ltb 0 height
      then (record chain { best_block_hash = best; height = height }, true)
      else (chain, true)
]

-- At a retarget height; the rule does not divide by zero over the whole interval.
expected_target : BlockHeader → Option Block → Block → ℕ → Bool
expected_target header none prev next_height =
    header.difficulty_target == prev.header.difficulty_target
expected_target header (some first) prev next_height =
    elim (get_adaptive_next_difficulty prev.header.difficulty_target prev.header.timestamp
      first.header.timestamp difficulty_interval next_height) [
        | some expected ↦ header.difficulty_target == expected
        | none ↦ false
      ]

unfoldable pub check_difficulty : Blockchain → BlockHeader → Bool
unfolding expected_target
check_difficulty chain header =
    let height = get_height chain in
    let next_height = (height + 1) % 2 ^ 64 in
    if height == 0 then true else elim (get_block_by_height height chain) [
      | none ↦ true
      | some prev ↦
          let same = header.difficulty_target == prev.header.difficulty_target in
          if not (next_height % difficulty_interval == 0)
          then same
          else if ltb height (difficulty_interval - 1)
          then same
          else expected_target header
              (get_block_by_height (height - (difficulty_interval - 1)) chain) prev next_height
    ]

-- The inputs of one transaction are all in the set; nothing is spent yet.
unfoldable pub inputs_present : List TxInput → UtxoSet → Bool
inputs_present [] u = true
inputs_present (i ∷ is) u = has (input_outpoint i) u && inputs_present is u

-- The loop of connectBlock over the transactions after the coinbase.
unfoldable pub check_transactions : List Transaction → UtxoSet → Bool
check_transactions [] u = true
check_transactions (tx ∷ txs) u =
    if not (validate_transaction_structure tx)
    then false
    else if not (inputs_present tx.inputs u)
    then false
    else check_transactions txs u

-- To the storage, and to the disk at every tenth height.
persist : Bytes → ℕ → Block → ChainState → ChainState
persist hash height b s =
    let s' = set_best_block hash height (put_block hash b s) in
    if height % 10 == 0 then (save_to_disk s').0 else s'

persist_optional : Bytes → ℕ → Block → Option ChainState → Option ChainState
unfolding persist
persist_optional hash height b none = none
persist_optional hash height b (some s) = some (persist hash height b s)

module _ (c : Digest) where
  -- The constructor.
  unfoldable pub new_blockchain : Blockchain
  new_blockchain =
      let genesis = make_genesis_block c in
      let hash = get_hash c genesis in
      record {
        utxo = (connect_block_utxo c genesis []).0;
        best_block_hash = hash;
        height = 0;
        block_cache = insert hash genesis [];
        height_index = insert 0 hash [];
        chain_state = none;
      }

  -- The block as it is stored: computeMerkleRoot has asked every transaction for its id.
  abbrev pub settled : Block → Block
  settled b = record b { transactions = map (with_txid c) b.transactions }

  -- The end of connectBlock, with the new set.
  unfoldable pub accept_block : Block → ℕ → UtxoSet → Blockchain → Blockchain
  unfolding persist_optional
  accept_block b height u chain =
      let hash = get_hash c b in
      record chain {
        utxo = u;
        block_cache = insert hash (settled b) chain.block_cache;
        height_index = insert height hash chain.height_index;
        best_block_hash = hash;
        height = height;
        chain_state = persist_optional hash height b chain.chain_state;
      }

  unfoldable pub connect_block : ℕ → Block → ℕ → Blockchain → Blockchain × Bool
  connect_block now b height chain =
      let (u, ok) = connect_block_utxo c b chain.utxo in
      if not (validate_block_structure c now b)
      then (chain, false)
      else if not (check_difficulty chain b.header)
      then (chain, false)
      else if not (check_transactions (after_coinbase b.transactions) chain.utxo)
      then (chain, false)
      else if ok
      then (accept_block b height u chain, true)
      else (record chain { utxo = u }, false)

  unfoldable pub add_block : ℕ → Block → ℕ → Blockchain → Blockchain × Bool
  add_block now b height chain =
      if contains (get_hash c b) chain.block_cache
      then (chain, true)
      else if not (height == (chain.height + 1) % 2 ^ 64)
      then (chain, false)
      else if not (beq_bytes b.header.previous_hash chain.best_block_hash)
      then (chain, false)
      else connect_block now b height chain
