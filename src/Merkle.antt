-- ===== src/Merkle.antt =====
-- shawncoin/src/mining/merkle.cpp: computeMerkleRootFromHashes and computeMerkleRoot.
pub mod Tree
pub mod Binding
pub mod Width
use shawncoin.Prelude.{ℕ, zero, suc, List, [], ◌∷◌, ◌++◌, map, length, Option, none, some}
use shawncoin.Wire.{Bytes}
use shawncoin.Types.{Transaction, zero_hash}
use shawncoin.Crypto.{Digest, sha256d}
use shawncoin.Transaction.{txid}

module _ (c : Digest) where
  -- One round of the while loop: the hashes of neighbours, the last with itself where it is alone.
  unfoldable pub next_row : List Bytes → List Bytes
  next_row [] = []
  next_row (x ∷ []) = sha256d c (x ++ x) ∷ []
  next_row (x ∷ y ∷ rest) = sha256d c (x ++ y) ∷ next_row rest

  -- `while (row.size() > 1)`, on fuel; `none` means that the fuel ran out.
  unfoldable pub merkle_loop : ℕ → List Bytes → Option Bytes
  merkle_loop fuel [] = some zero_hash
  merkle_loop fuel (x ∷ []) = some x
  merkle_loop zero (x ∷ y ∷ rest) = none
  merkle_loop (suc fuel) (x ∷ y ∷ rest) = merkle_loop fuel (next_row (x ∷ y ∷ rest))

  -- Each round halves the row, so the length of the list is fuel enough: `merkle_loop` never runs
  -- out of it (Merkle/Tree.antt), and the other result is not used.
  unfoldable pub merkle_root_from_hashes : List Bytes → Bytes
  merkle_root_from_hashes hashes = elim (merkle_loop (length hashes) hashes) [
    | some root ↦ root
    | none ↦ zero_hash
  ]

  -- The root of no transaction is `uint256{}` here too.
  unfoldable pub compute_merkle_root : List Transaction → Bytes
  compute_merkle_root txs = merkle_root_from_hashes (map (txid c) txs)
