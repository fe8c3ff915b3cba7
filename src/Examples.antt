-- ===== src/Examples.antt =====
-- Concrete data on which the theorems and the definitions are tried: a digest that sums up its
-- input, and a chain of mined blocks.
mod Chain
mod Coins
mod Codec
mod Trees
mod Mining
mod Numbers
mod Files
mod Toys
mod Addresses
mod Requests
use shawncoin.Prelude.{
  ℕ, ◌+◌, ◌*◌, ◌%◌, ◌<◌, refl, List, [], ◌∷◌, none, replicate, length, map, All, arith,
}
use shawncoin.Wire.{Bytes, IsByte}
use shawncoin.Types.{Block, Transaction, TxInput, zero_hash}
use shawncoin.Crypto.{Digest}
use shawncoin.Transaction.{txid}
use shawncoin.Difficulty.{easy_mine_difficulty}
use shawncoin.Blockchain.{Blockchain, new_blockchain, add_block}
use shawncoin.Mempool.{Mempool, add}
use shawncoin.Miner.{candidate_block, mine_block}

-- A checksum of one byte.
unfoldable pub checksum : ℕ → Bytes → ℕ
checksum a [] = a % 256
checksum a (x ∷ xs) = checksum ((31 * a + x + 7) % 256) xs

pub checksum_byte : (a : ℕ) (xs : Bytes) → checksum a xs < 256
unfolding checksum
checksum_byte a [] = omega arith
checksum_byte a (x ∷ xs) = checksum_byte ((31 * a + x + 7) % 256) xs

-- The checksum followed by zeros, which is below every target that counts.
abbrev pub toy : Digest
toy = record {
  sha256 = λ d. checksum 0 d ∷ replicate 31 0;
  ripemd160 = λ d. checksum 0 d ∷ replicate 19 0;
  length-sha256 = λ d. refl;
  sha256-IsByte = λ d. (checksum_byte 0 d, omega arith);
  length-ripemd160 = λ d. refl;
  ripemd160-IsByte = λ d. (checksum_byte 0 d, omega arith);
}

abbrev pub payout : Bytes
payout = replicate 20 7

abbrev pub chain0 : Blockchain
chain0 = new_blockchain toy

-- The first mined block, and the chain with it.
abbrev pub block1 : Block
block1 = (mine_block toy (candidate_block 1704067800 payout chain0 []) easy_mine_difficulty).0

abbrev pub chain1 : Blockchain
chain1 = (add_block toy 1704067800 block1 1 chain0).0

-- The id of its coinbase, and transactions that spend it, with different amounts.
abbrev pub coin1 : Bytes
coin1 = 41 ∷ replicate 31 0

abbrev pub input1 : TxInput
input1 = record { prev_tx_hash = coin1; output_index = 0; signature = 1 ∷ []; pubkey = [] }

abbrev pub spend_coin1 : ℕ → Transaction
spend_coin1 amount = record {
  version = 1;
  inputs = input1 ∷ [];
  outputs = record { amount = amount; script_pubkey = 0x6a ∷ [] } ∷ [];
  lock_time = 0;
  cached_txid = none;
}

-- A pool with one of them and a pool with two, and the blocks mined from them.
abbrev pub pool1 : Mempool
pool1 = (add toy (spend_coin1 5) 0 []).0

abbrev pub pool2 : Mempool
pool2 = (add toy (spend_coin1 6) 0 pool1).0

abbrev pub block2 : Block
block2 = (mine_block toy (candidate_block 1704068400 payout chain1 pool1) easy_mine_difficulty).0

abbrev pub double_block : Block
double_block =
    (mine_block toy (candidate_block 1704068400 payout chain1 pool2) easy_mine_difficulty).0
