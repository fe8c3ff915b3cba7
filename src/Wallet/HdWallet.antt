-- ===== src/Wallet/HdWallet.antt =====
-- shawncoin/src/wallet/hdwallet.cpp: the private keys and the addresses of a seed.
use shawncoin.Prelude.{
  ℕ, Bool, true, false, not, ◌==◌, none, some, [], ◌++◌, length, take, ltb, if◌then◌else◌,
}
use shawncoin.Wire.{Bytes, write_u32}
use shawncoin.Crypto.{Digest, sha256d, hash160}
use shawncoin.Address.{pub_key_hash_to_address}
use shawncoin.Keys.{Curve, keypair_from_priv, pubkey_get}

-- The seed afterwards, and whether it was taken.
unfoldable pub set_seed : Bytes → Bytes → Bytes × Bool
set_seed new seed = if ltb (length new) 32 then (seed, false) else (new, true)

module _ (c : Digest) where
  unfoldable pub derive_private_key : Bytes → ℕ → Bytes
  derive_private_key seed index =
      if ltb (length seed) 32 then [] else sha256d c (take 32 seed ++ write_u32 index)

  -- The empty text where no key is derived.
  unfoldable pub derive_address : Curve → Bytes → ℕ → Bytes
  derive_address e seed index =
      let priv = derive_private_key seed index in
      if not (length priv == 32) then [] else elim (keypair_from_priv e priv) [
        | none ↦ []
        | some key ↦ elim (pubkey_get e key) [
          | none ↦ []
          | some p ↦ pub_key_hash_to_address c (hash160 c p)
        ]
      ]
