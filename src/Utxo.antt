-- ===== src/Utxo.antt =====
-- shawncoin/src/core/utxo.cpp: the set of unspent outputs, a map from outpoints to entries. Each
-- method holds the lock for its whole body, so a method is one step on the map.
pub mod Laws
use shawncoin.Prelude.{ℕ, List, [], ◌∷◌, Bool, Option, length}
use shawncoin.Map.{Less, find, insert, erase, contains}
use shawncoin.Map.Keys.{outpoint_order}
use shawncoin.Types.{OutPoint, Script}

pub record Entry : Type 0 where
  pub amount : ℕ
  pub script_pubkey : Script

abbrev pub UtxoSet : Type 0
UtxoSet = List (OutPoint × Entry)

unfoldable pub put : OutPoint → ℕ → Script → UtxoSet → UtxoSet
put out amount script u = insert out (record { amount = amount; script_pubkey = script }) u

unfoldable pub get : OutPoint → UtxoSet → Option Entry
get out u = find out u

-- The set afterwards, and whether there was an entry.
unfoldable pub spend : OutPoint → UtxoSet → UtxoSet × Bool
spend out u = (erase out u, contains out u)

unfoldable pub has : OutPoint → UtxoSet → Bool
has out u = contains out u

unfoldable pub snapshot : UtxoSet → List (OutPoint × Entry)
snapshot u = u

unfoldable pub size : UtxoSet → ℕ
size u = length u

unfoldable pub clear : UtxoSet → UtxoSet
clear u = []
