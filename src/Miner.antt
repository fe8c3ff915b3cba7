-- ===== src/Miner.antt =====
-- shawncoin/src/mining/miner.cpp: the nonce search of mineBlock and one turn of miningLoop. A turn
-- reads the chain, searches, and hands the block to addBlock; `now` is the time of the host. The
-- threads, the hash rate, the log lines and the realtime events are left out.
pub mod Search
pub mod Candidate
pub mod Control
use shawncoin.Prelude.{
  ℕ, zero, suc, ◌+◌, ◌/◌, ◌%◌, ◌^◌, Bool, true, false, none, List, [], ◌∷◌, map, length, ltb, leb,
  ◌==◌, if◌then◌else◌, get_or, replicate,
}
use shawncoin.Wire.{Bytes}
use shawncoin.Types.{Block, BlockHeader, Transaction, zero_hash, get_block_subsidy}
use shawncoin.Crypto.{Digest}
use shawncoin.Transaction.{with_txid}
use shawncoin.Merkle.{compute_merkle_root}
use shawncoin.Block.{get_header_hash, p2pkh_script}
use shawncoin.Consensus.{compact_target}
use shawncoin.Difficulty.{easy_mine_difficulty}
use shawncoin.Blockchain.{Blockchain, add_block, get_best_block_hash, get_height}
use shawncoin.Mempool.{Mempool, get_block_template}

-- `for (int i = 31; i >= 0 && ok; --i)`: the argument is i + 1. A larger byte clears ok, a smaller
-- one breaks off.
unfoldable pub hash_ok : ℕ → Bytes → Bytes → Bool
hash_ok zero h target = true
hash_ok (suc i) h target =
    let rest = hash_ok i h target in
    if ltb (get_or target i 0) (get_or h i 0)
    then false
    else if ltb (get_or h i 0) (get_or target i 0)
    then true
    else rest

-- The payout hash that a Miner keeps: 20 zero bytes at first, and only hashes of 20 bytes later.
unfoldable pub set_payout_hash : Bytes → Bytes → Bytes
set_payout_hash hash payout = if length hash == 20 then hash else payout

-- The coinbase script: the height, as the three branches write it.
unfoldable pub height_script : ℕ → Bytes
height_script height =
    if ltb height 0xfd
    then height ∷ []
    else if leb height 0xffff
    then 0xfd ∷ height % 256 ∷ height / 2 ^ 8 % 256 ∷ []
    else 0xfe
      ∷ height % 256
      ∷ height / 2 ^ 8 % 256
      ∷ height / 2 ^ 16 % 256
      ∷ height / 2 ^ 24 % 256
      ∷ []

unfoldable pub miner_coinbase : Bytes → ℕ → Transaction
unfolding height_script
miner_coinbase payout height = record {
  version = 1;
  inputs =
      record {
        prev_tx_hash = zero_hash;
        output_index = 0xffffffff;
        signature = height_script height;
        pubkey = [];
      }
      ∷ [];
  outputs =
      record {
        amount = get_block_subsidy height;
        script_pubkey = p2pkh_script (if length payout == 20 then payout else replicate 20 0);
      }
      ∷ [];
  lock_time = 0;
  cached_txid = none;
}

unfoldable pub candidate_block : ℕ → Bytes → Blockchain → Mempool → Block
unfolding miner_coinbase
candidate_block now payout chain pool = record {
  header = record {
    version = 1;
    previous_hash = get_best_block_hash chain;
    merkle_root = zero_hash;
    timestamp = now;
    difficulty_target = easy_mine_difficulty;
    nonce = 0;
  };
  transactions = miner_coinbase payout ((get_height chain + 1) % 2 ^ 64) ∷ get_block_template pool;
}

unfoldable pub with_nonce : ℕ → Block → Block
with_nonce nonce b = record b { header = record b.header { nonce = nonce } }

module _ (c : Digest) where
  -- The do loop over the nonces that are left, from `nonce` on; the block keeps the last nonce.
  unfoldable pub try_nonces : ℕ → ℕ → Bytes → Block → Block × Bool
  try_nonces zero nonce target b = (b, false)
  try_nonces (suc left) nonce target b =
      let b' = with_nonce nonce b in
      elim (hash_ok 32 (get_header_hash c b'.header) target) [
        | true ↦ (b', true)
        | false ↦ try_nonces left (nonce + 1) target b'
      ]

  -- The block with its target and its root; computeMerkleRoot puts the ids in the transactions.
  unfoldable pub prepared : Block → ℕ → Block
  prepared b target = record {
    header = record b.header {
      difficulty_target = target;
      merkle_root = compute_merkle_root c b.transactions;
    };
    transactions = map (with_txid c) b.transactions;
  }

  -- All 2 ^ 32 nonces; the target bytes are computed as in checkProofOfWork.
  unfoldable pub mine_block : Block → ℕ → Block × Bool
  unfolding prepared
  mine_block b target = try_nonces (2 ^ 32) 0 (compact_target target) (prepared b target)

  -- One turn of the loop: the chain afterwards, and whether a block was added.
  unfoldable pub mining_turn : ℕ → ℕ → Bytes → Mempool → Blockchain → Blockchain × Bool
  mining_turn now later payout pool chain =
      let (b, found) = mine_block (candidate_block now payout chain pool) easy_mine_difficulty in
      if found then add_block c later b ((get_height chain + 1) % 2 ^ 64) chain else (chain, false)
