-- ===== src/Examples/Trees.antt =====
-- Merkle roots.
use shawncoin.Prelude.{ℕ, ◌≡◌, ◌⊎◌, refl, List, [], ◌∷◌, ◌++◌, map, length}
use shawncoin.Wire.{Bytes}
use shawncoin.Types.{zero_hash}
use shawncoin.Transaction.Txid.{strip, Collision}
use shawncoin.Merkle.{merkle_root_from_hashes, compute_merkle_root}
use shawncoin.Merkle.Tree.{tree, IsDepth, merkle_root-tree}
use shawncoin.Merkle.Binding.{AreHashes, merkle_root_duplicate}
use shawncoin.Block.Commitment.{merkle_root_commits}
use shawncoin.Examples.{toy, coin1}
use shawncoin.Examples.Codec.{tx, resigned, tx-PreimageFits, resigned-PreimageFits}

abbrev leaves : List Bytes
leaves = coin1 ∷ zero_hash ∷ []

merkle_root-tree_example :
    (d : ℕ) × IsDepth (length (zero_hash ∷ leaves)) d
    × (merkle_root_from_hashes toy (zero_hash ∷ leaves) ≡ tree toy d (zero_hash ∷ leaves))
merkle_root-tree_example = merkle_root-tree toy zero_hash leaves

leaves-AreHashes : AreHashes leaves
leaves-AreHashes = (refl, (refl, tt))

merkle_root_duplicate_example :
    merkle_root_from_hashes toy (leaves ++ (coin1 ∷ coin1 ∷ []))
    ≡ merkle_root_from_hashes toy (leaves ++ (coin1 ∷ []))
merkle_root_duplicate_example = merkle_root_duplicate toy 0 leaves coin1 refl

same_root : compute_merkle_root toy (tx ∷ tx ∷ []) ≡ compute_merkle_root toy (tx ∷ resigned ∷ [])
unfolding shawncoin.Wire.Monad.write_many shawncoin.Merkle.compute_merkle_root
    shawncoin.Transaction.get_txid shawncoin.Transaction.txid_preimage
same_root = refl

merkle_root_commits_example :
    (map strip (tx ∷ tx ∷ []) ≡ map strip (tx ∷ resigned ∷ [])) ⊎ Collision toy
merkle_root_commits_example =
    merkle_root_commits toy (tx ∷ tx ∷ []) (tx ∷ resigned ∷ [])
      ((tx-PreimageFits, refl), ((tx-PreimageFits, refl), tt))
      ((tx-PreimageFits, refl), ((resigned-PreimageFits, refl), tt)) refl same_root
