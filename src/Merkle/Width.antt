-- ===== src/Merkle/Width.antt =====
-- The root of hashes of 32 bytes has 32 bytes.
use shawncoin.Prelude.{ℕ, zero, suc, ◌≡◌, refl, List, [], ◌∷◌, map, length, some, none, All, Option}
use shawncoin.Wire.{Bytes}
use shawncoin.Types.{Transaction, zero_hash}
use shawncoin.Crypto.{Digest, length-sha256d}
use shawncoin.Transaction.{txid}
use shawncoin.Merkle.{next_row, merkle_loop, merkle_root_from_hashes, compute_merkle_root}

abbrev pub Is32 : Bytes → Type 0
Is32 h = length h ≡ 32

module _ (c : Digest) where
  row-Is32 : (xs : List Bytes) → All Is32 (next_row c xs)
  unfolding next_row
  row-Is32 [] = tt
  row-Is32 (x ∷ []) = (length-sha256d c _, tt)
  row-Is32 (x ∷ y ∷ rest) = (length-sha256d c _, row-Is32 rest)

  abbrev RootIs32 : Option Bytes → Type 0
  RootIs32 none = Unit {0}
  RootIs32 (some h) = Is32 h

  loop-Is32 : (fuel : ℕ) (xs : List Bytes) → All Is32 xs → RootIs32 (merkle_loop c fuel xs)
  unfolding merkle_loop
  loop-Is32 zero [] h = refl
  loop-Is32 (suc fuel) [] h = refl
  loop-Is32 zero (x ∷ []) h = h.0
  loop-Is32 (suc fuel) (x ∷ []) h = h.0
  loop-Is32 zero (x ∷ y ∷ rest) h = tt
  loop-Is32 (suc fuel) (x ∷ y ∷ rest) h =
      loop-Is32 fuel (next_row c (x ∷ y ∷ rest)) (row-Is32 (x ∷ y ∷ rest))

  chosen-Is32 :
      (r : Option Bytes) → RootIs32 r → Is32 (elim r [ some root ↦ root | none ↦ zero_hash ])
  chosen-Is32 none h = refl
  chosen-Is32 (some root) h = h

  ids-Is32 :
      (txs : List Transaction) → All (λ tx. Is32 (txid c tx)) txs → All Is32 (map (txid c) txs)
  ids-Is32 [] h = tt
  ids-Is32 (tx ∷ txs) h = (h.0, ids-Is32 txs h.1)

  pub compute_merkle_root-Is32 :
      (txs : List Transaction) → All (λ tx. Is32 (txid c tx)) txs → Is32 (compute_merkle_root c txs)
  unfolding compute_merkle_root merkle_root_from_hashes
  compute_merkle_root-Is32 txs h =
      let ids = map (txid c) txs in
      chosen-Is32 (merkle_loop c (length ids) ids) (loop-Is32 (length ids) ids (ids-Is32 txs h))
