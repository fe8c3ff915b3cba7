-- ===== src/Mempool.antt =====
-- shawncoin/src/core/mempool.cpp: the unconfirmed transactions, a map from txids. Each method holds
-- the lock while it reads or writes the map. The realtime event that add reports at its end is
-- left out: it changes no state of the pool. The fee is not used by the source either.
pub mod Invariant
use shawncoin.Prelude.{
  ℕ, Bool, true, false, not, ◌&&◌, List, [], ◌∷◌, map, Option, length, leb, if◌then◌else◌,
}
use shawncoin.Wire.{Bytes}
use shawncoin.Map.{find, insert, erase, contains}
use shawncoin.Map.Keys.{bytes_order}
use shawncoin.Types.{Transaction}
use shawncoin.Crypto.{Digest}
use shawncoin.Transaction.{txid, with_txid}
use shawncoin.Consensus.{validate_transaction_structure}

abbrev pub Mempool : Type 0
Mempool = List (Bytes × Transaction)

abbrev pub max_mempool_size : ℕ
max_mempool_size = 100000

module _ (c : Digest) where
  -- The transaction is stored with the id that getTxid has put in it.
  unfoldable pub add : Transaction → ℕ → Mempool → Mempool × Bool
  add tx fee m =
      if not (validate_transaction_structure tx)
      then (m, false)
      else if leb max_mempool_size (length m) && not (contains (txid c tx) m)
      then (m, false)
      else (insert (txid c tx) (with_txid c tx) m, true)

unfoldable pub remove : Bytes → Mempool → Mempool × Bool
remove id m = (erase id m, contains id m)

unfoldable pub get : Bytes → Mempool → Option Transaction
get id m = find id m

unfoldable pub get_block_template : Mempool → List Transaction
get_block_template m = map (λ p. p.1) m

unfoldable pub size : Mempool → ℕ
size m = length m

unfoldable pub clear : Mempool → Mempool
clear m = []
