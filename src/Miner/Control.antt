-- ===== src/Miner/Control.antt =====
-- shawncoin/src/mining/miner.cpp: starting and stopping a Miner, and its payout hash. The threads
-- themselves run `mining_turn`.
use shawncoin.Prelude.{ℕ, Bool, true, false, replicate, ◌==◌, if◌then◌else◌}
use shawncoin.Wire.{Bytes}
use shawncoin.Crypto.{Digest}
use shawncoin.Address.{address_to_pub_key_hash}
use shawncoin.Miner.{set_payout_hash}

pub record Miner : Type 0 where
  pub mining : Bool
  pub thread_count : ℕ
  pub threads : ℕ
  pub payout_hash : Bytes

unfoldable pub new_miner : Miner
new_miner = record { mining = false; thread_count = 1; threads = 0; payout_hash = replicate 20 0 }

-- A miner that is mining is left as it is.
unfoldable pub start : ℕ → Miner → Miner
start count m =
    let n = if count == 0 then 1 else count in
    if m.mining then m else record m { mining = true; thread_count = n; threads = n }

unfoldable pub stop : Miner → Miner
stop m = record m { mining = false; threads = 0 }

unfoldable pub set_payout_address : Digest → Bytes → Miner → Miner
set_payout_address c address m = record m {
  payout_hash = set_payout_hash (address_to_pub_key_hash c address) m.payout_hash;
}
