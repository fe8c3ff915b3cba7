-- ===== src/Types.antt =====
-- The data of shawncoin/src/core/types.hpp: outpoints, transactions, headers, blocks, and the coin
-- parameters. A uint256 is the list of its bytes, and so is a script. An unsigned integer is a
-- native number; that it fits its width is a hypothesis where it matters.
pub mod Supply
use shawncoin.Prelude.{
  ℕ, zero, suc, ◌+◌, ◌*◌, ◌/◌, ◌%◌, ◌^◌, ◌≤◌, ◌<◌, List, Option, leb, if◌then◌else◌, replicate,
}
use shawncoin.Wire.{Bytes}

abbrev pub Script : Type 0
Script = Bytes

-- `uint256{}`
abbrev pub zero_hash : Bytes
zero_hash = replicate 32 0

pub record OutPoint : Type 0 where
  pub hash : Bytes
  pub index : ℕ

pub record TxOutput : Type 0 where
  pub amount : ℕ
  pub script_pubkey : Script

pub record TxInput : Type 0 where
  pub prev_tx_hash : Bytes
  pub output_index : ℕ
  pub signature : Bytes
  pub pubkey : Bytes

-- `cached_txid` is mutable in the source: it is the memory of `get_txid`.
pub record Transaction : Type 0 where
  pub version : ℕ
  pub inputs : List TxInput
  pub outputs : List TxOutput
  pub lock_time : ℕ
  pub cached_txid : Option Bytes

pub record BlockHeader : Type 0 where
  pub version : ℕ
  pub previous_hash : Bytes
  pub merkle_root : Bytes
  pub timestamp : ℕ
  pub difficulty_target : ℕ
  pub nonce : ℕ

pub record Block : Type 0 where
  pub header : BlockHeader
  pub transactions : List Transaction

abbrev pub coin : ℕ
coin = 100000000

abbrev pub max_money : ℕ
max_money = 12000000 * coin

abbrev pub block_time_target : ℕ
block_time_target = 600

abbrev pub difficulty_interval : ℕ
difficulty_interval = 2016

abbrev pub subsidy_halving_interval : ℕ
subsidy_halving_interval = 210000

abbrev pub initial_block_subsidy : ℕ
initial_block_subsidy = 25 * coin

unfoldable pub get_block_subsidy : ℕ → ℕ
get_block_subsidy height =
    let halvings = height / subsidy_halving_interval in
    if leb 32 halvings then 0 else initial_block_subsidy / 2 ^ halvings

-- The loop `for (h = 0; h <= height; ++h) total += ...` in uint64_t arithmetic. It ends for every
-- height below 2 ^ 64 - 1, and at 2 ^ 64 - 1, where `h <= height` never fails, it does not: the model is
-- of the heights below.
unfoldable pub get_total_supply_up_to : ℕ → ℕ
get_total_supply_up_to zero = get_block_subsidy 0 % 2 ^ 64
get_total_supply_up_to (suc h) = (get_total_supply_up_to h + get_block_subsidy (suc h)) % 2 ^ 64
