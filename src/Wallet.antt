-- ===== src/Wallet.antt =====
-- shawncoin/src/wallet/hdwallet.cpp and wallet.cpp: the keys that are derived from a seed, the
-- addresses that a wallet has given out, its balance, and the signing of transactions. A method holds
-- the lock for its whole body. The files of a wallet are in Wallet.Storage.
pub mod HdWallet
pub mod Signing
pub mod Ownership
pub mod Balance
pub mod Storage
use shawncoin.Prelude.{
  ℕ, zero, suc, ◌+◌, ◌%◌, ◌^◌, Bool, true, false, not, ◌&&◌, Option, none, some, List, [], ◌∷◌,
  ◌++◌, length, take, drop, get_or, map, ltb, ◌==◌, if◌then◌else◌,
}
use shawncoin.Wire.{Bytes}
use shawncoin.Map.{insert}
use shawncoin.Map.Keys.{bytes_order}
use shawncoin.Types.{OutPoint, Script, Transaction, TxInput}
use shawncoin.Crypto.{Digest, sha256d}
use shawncoin.Transaction.{beq_bytes, serialize_transaction}
use shawncoin.Utxo.{Entry, UtxoSet, get, snapshot}
use shawncoin.Address.{address_to_pub_key_hash}
use shawncoin.Keys.{Curve, Keypair, keypair_from_priv, pubkey_get, sign}
use shawncoin.Prelude.Optional.{◌>>=◌, ◌>>◌, guard}
use HdWallet.{derive_private_key, derive_address}

pub record Wallet : Type 0 where
  pub mnemonic : Bytes
  pub seed : Bytes
  -- keys_: the addresses given out, with the hashes read back from them
  pub keys : List (Bytes × Bytes)

-- The hash of a script `OP_DUP OP_HASH160 20 <hash> OP_EQUALVERIFY OP_CHECKSIG`.
unfoldable pub p2pkh_hash : Script → Option Bytes
p2pkh_hash s =
    if (length s == 25)
      && ((get_or s 0 0 == 0x76)
          && ((get_or s 1 0 == 0xa9)
              && ((get_or s 2 0 == 0x14) && ((get_or s 23 0 == 0x88) && (get_or s 24 0 == 0xac)))))
    then some (take 20 (drop 3 s))
    else none

-- Some stored hash of 20 bytes is the given one.
unfoldable pub stores_hash : Bytes → List (Bytes × Bytes) → Bool
stores_hash h [] = false
stores_hash h ((address, our) ∷ keys) =
    let rest = stores_hash h keys in if (length our == 20) && beq_bytes our h then true else rest

-- The loop of getBalance over the snapshot.
unfoldable pub add_balance : List (Bytes × Bytes) → ℕ → List (OutPoint × Entry) → ℕ
unfolding stores_hash
add_balance keys sum [] = sum
add_balance keys sum ((op, entry) ∷ snap) = elim (p2pkh_hash entry.script_pubkey) [
  | none ↦ add_balance keys sum snap
  | some h ↦ elim (stores_hash h keys) [
    | true ↦ add_balance keys ((sum + entry.amount) % 2 ^ 64) snap
    | false ↦ add_balance keys sum snap
  ]
]

unfoldable pub get_balance : Option UtxoSet → Wallet → ℕ
unfolding add_balance
get_balance utxo w = elim utxo [ none ↦ 0 | some u ↦ add_balance w.keys 0 (snapshot u) ]

unfoldable pub get_address_count : Wallet → ℕ
get_address_count w = length w.keys

-- The file that is written.
unfoldable pub backup : Wallet → Bytes
backup w = w.mnemonic ++ (b'\n' ∷ [])

unfoldable pub clear_input : TxInput → TxInput
clear_input i = record i { signature = []; pubkey = [] }

-- What is signed: the transaction without signatures and public keys.
unfoldable pub without_signatures : Transaction → Transaction
without_signatures tx = record tx { inputs = map clear_input tx.inputs }

unfoldable pub signature_hash : Digest → Transaction → Bytes
signature_hash c tx = sha256d c (serialize_transaction (without_signatures tx))

module _ (c : Digest) (e : Curve) where
  unfoldable pub derive_address_at : ℕ → Wallet → Bytes
  derive_address_at index w = derive_address c e w.seed index

  -- An address that cannot be derived is the empty text, and is not stored.
  unfoldable pub generate_new_address : Wallet → Wallet × Bytes
  generate_new_address w =
      let address = derive_address c e w.seed (length w.keys % 2 ^ 32) in
      if length address == 0
      then (w, address)
      else (record w { keys = insert address (address_to_pub_key_hash c address) w.keys }, address)

  -- The loops over the derived addresses: `left` indices from i on. The first whose hash is h.
  unfoldable pub find_address : Bytes → Bytes → ℕ → ℕ → Bytes
  find_address seed h zero i = []
  find_address seed h (suc left) i =
      let a = derive_address c e seed (i % 2 ^ 32) in
      let hash = address_to_pub_key_hash c a in
      elim ((length hash == 20) && beq_bytes hash h) [
        | true ↦ a
        | false ↦ find_address seed h left (i + 1)
      ]

  -- The private key of the first address that is the given one.
  unfoldable pub find_private_key : Bytes → Bytes → ℕ → ℕ → Bytes
  find_private_key seed address zero i = []
  find_private_key seed address (suc left) i =
      elim (beq_bytes (derive_address c e seed (i % 2 ^ 32)) address) [
        | true ↦ derive_private_key c seed (i % 2 ^ 32)
        | false ↦ find_private_key seed address left (i + 1)
      ]

  -- Some derived address has the hash.
  unfoldable pub derives_hash : Bytes → Bytes → ℕ → ℕ → Bool
  derives_hash seed h zero i = false
  derives_hash seed h (suc left) i =
      elim (beq_bytes (address_to_pub_key_hash c (derive_address c e seed (i % 2 ^ 32))) h) [
        | true ↦ true
        | false ↦ derives_hash seed h left (i + 1)
      ]

  -- The loop of hasHash160 over the stored hashes, which may be of any length.
  unfoldable pub has_stored : Bytes → List (Bytes × Bytes) → Bool
  has_stored h [] = false
  has_stored h ((address, our) ∷ keys) =
      let rest = has_stored h keys in if beq_bytes our h then true else rest

  unfoldable pub has_hash160 : Bytes → Wallet → Bool
  unfolding has_stored derives_hash
  has_hash160 h w = if has_stored h w.keys then true else derives_hash w.seed h (length w.keys) 0

  -- The pair of keys of the address that an input spends from.
  unfoldable pub find_key : UtxoSet → Wallet → TxInput → Option Keypair
  unfolding find_address find_private_key
  find_key utxo w i = do
    entry ← get (record { hash = i.prev_tx_hash; index = i.output_index }) utxo
    h ← p2pkh_hash entry.script_pubkey
    let address = find_address w.seed h (length w.keys) 0
    guard (not (length address == 0))
    let priv = find_private_key w.seed address (length w.keys) 0
    guard (length priv == 32)
    keypair_from_priv e priv

  -- The input with the signature of the digest `hash` and the public key.
  unfoldable pub sign_with : Bytes → TxInput → Keypair → Option TxInput
  sign_with hash i key = do
    sig ← sign e key hash
    pub_key ← pubkey_get e key
    some (record i { signature = sig; pubkey = pub_key })

  -- One turn of the loop; `none` where signTransaction returns false.
  unfoldable pub sign_input : Bytes → UtxoSet → Wallet → TxInput → Option TxInput
  unfolding find_key sign_with
  sign_input hash utxo w i = find_key utxo w i >>= sign_with hash i

  -- The inputs afterwards, and whether all are signed: an input that cannot be signed ends the loop,
  -- and those before it keep their signatures.
  unfoldable pub sign_inputs : Bytes → UtxoSet → Wallet → List TxInput → List TxInput × Bool
  sign_inputs hash utxo w [] = ([], true)
  sign_inputs hash utxo w (i ∷ inputs) = elim (sign_input hash utxo w i) [
    | none ↦ (i ∷ inputs, false)
    | some signed ↦ let (rest, ok) = sign_inputs hash utxo w inputs in (signed ∷ rest, ok)
  ]

  unfoldable pub sign_transaction : Option UtxoSet → Wallet → Transaction → Transaction × Bool
  sign_transaction utxo w tx = elim utxo [
    | none ↦ (tx, false)
    | some u ↦
        let (inputs, ok) = sign_inputs (signature_hash c tx) u w tx.inputs in
        (record tx { inputs = inputs }, ok)
  ]
