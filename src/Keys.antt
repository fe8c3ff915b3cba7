-- ===== src/Keys.antt =====
-- shawncoin/src/crypto/keys.c and signatures.c as they are compiled with HAVE_SECP256K1. The library
-- libsecp256k1 is a parameter: a `Curve` holds the functions that are called and what their
-- documentation says of them. A context is always created and memory is always allocated, so a pair
-- of keys is its secret.
pub mod Signed
use shawncoin.Prelude.{ℕ, ◌≡◌, Bool, true, false, Option, none, some, length, ◌==◌, if◌then◌else◌}
use shawncoin.Wire.{Bytes}

pub record Curve : Type 0 where
  -- secp256k1_ec_seckey_verify, secp256k1_ec_pubkey_create, _serialize (compressed) and _parse
  pub seckey_verify : Bytes → Bool
  pub pubkey_create : Bytes → Option Bytes
  pub pubkey_serialize : Bytes → Bytes
  pub pubkey_parse : Bytes → Option Bytes
  -- secp256k1_ecdsa_sign (a hash and a secret), _serialize_compact, _parse_compact and _verify (a
  -- signature, a hash and a public key)
  pub ecdsa_sign : Bytes → Bytes → Option Bytes
  pub serialize_compact : Bytes → Bytes
  pub parse_compact : Bytes → Option Bytes
  pub ecdsa_verify : Bytes → Bytes → Bytes → Bool
  pub created : (k : Bytes) → seckey_verify k ≡ true → (p : Bytes) × (pubkey_create k ≡ some p)
  pub signed : (h k : Bytes) → seckey_verify k ≡ true → (s : Bytes) × (ecdsa_sign h k ≡ some s)
  pub length-pubkey_serialize : (p : Bytes) → length (pubkey_serialize p) ≡ 33
  pub length-serialize_compact : (s : Bytes) → length (serialize_compact s) ≡ 64
  pub parse-serialize :
      (k p : Bytes) → pubkey_create k ≡ some p → pubkey_parse (pubkey_serialize p) ≡ some p
  pub parse-serialize_compact :
      (h k s : Bytes) → ecdsa_sign h k ≡ some s → parse_compact (serialize_compact s) ≡ some s
  pub verify-sign :
      (h k p s : Bytes)
      → pubkey_create k ≡ some p
      → ecdsa_sign h k ≡ some s
      → ecdsa_verify s h p ≡ true

pub record Keypair : Type 0 where
  pub seckey : Bytes

module _ (e : Curve) where
  unfoldable pub keypair_from_priv : Bytes → Option Keypair
  keypair_from_priv priv = if e.seckey_verify priv then some (record { seckey = priv }) else none

  unfoldable pub pubkey_get : Keypair → Option Bytes
  pubkey_get key = elim (e.pubkey_create key.seckey) [
    | none ↦ none
    | some p ↦ some (e.pubkey_serialize p)
  ]

  unfoldable pub privkey_get : Keypair → Bytes
  privkey_get key = key.seckey

  unfoldable pub sign : Keypair → Bytes → Option Bytes
  sign key hash = elim (e.ecdsa_sign hash key.seckey) [
    | none ↦ none
    | some s ↦ some (e.serialize_compact s)
  ]

  unfoldable pub verify : Bytes → Bytes → Bytes → Bool
  verify pubkey hash sig = elim (e.pubkey_parse pubkey) [
    | none ↦ false
    | some p ↦
        if length sig == 64
        then (elim (e.parse_compact sig) [ none ↦ false | some s ↦ e.ecdsa_verify s hash p ])
        else false
  ]
