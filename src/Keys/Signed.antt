-- ===== src/Keys/Signed.antt =====
-- What a pair of keys signs is accepted under its public key.
use shawncoin.Prelude.{◌≡◌, refl, sym, ap, ◌∙◌, true, some, length, some_of_image}
use shawncoin.Wire.{Bytes}
use shawncoin.Keys.{Curve, Keypair, keypair_from_priv, pubkey_get, sign, verify}

module _ (e : Curve) where
  verify_pair :
      (k hash s p : Bytes)
      → e.ecdsa_sign hash k ≡ some s
      → e.pubkey_create k ≡ some p
      → verify e (e.pubkey_serialize p) hash (e.serialize_compact s) ≡ true
  unfolding verify
  verify_pair k hash s p hs hp =
      rw
        (
          verify,
          e.parse-serialize k p hp,
          e.length-serialize_compact s,
          e.parse-serialize_compact hash k s hs,
        )
        (e.verify-sign hash k p s hp hs)

  -- What `sign` returns has 64 bytes, and `verify` accepts it under what `pubkey_get` returns.
  pub verify-sign :
      (key : Keypair) (hash sig pub_key : Bytes)
      → sign e key hash ≡ some sig
      → pubkey_get e key ≡ some pub_key
      → (length sig ≡ 64) × (length pub_key ≡ 33) × (verify e pub_key hash sig ≡ true)
  unfolding sign pubkey_get
  verify-sign key hash sig pub_key es ep =
      let (s, hs, fs) = some_of_image e.serialize_compact (e.ecdsa_sign hash key.seckey) sig es in
      let (p, hp, fp) = some_of_image e.pubkey_serialize (e.pubkey_create key.seckey) pub_key ep in
      (
        ap length (sym fs) ∙ e.length-serialize_compact s,
        ap length (sym fp) ∙ e.length-pubkey_serialize p,
        rw (← fs, ← fp) (verify_pair key.seckey hash s p hs hp),
      )

  -- A secret that the curve accepts gives a pair of keys that signs every hash, and the signature is
  -- accepted under the public key of the pair.
  pub keypair_signs :
      (priv hash : Bytes)
      → e.seckey_verify priv ≡ true
      → (key : Keypair) × (sig : Bytes) × (pub_key : Bytes) × (keypair_from_priv e priv ≡ some key)
        × (sign e key hash ≡ some sig)
        × (pubkey_get e key ≡ some pub_key)
        × (verify e pub_key hash sig ≡ true)
  unfolding keypair_from_priv sign pubkey_get
  keypair_signs priv hash ok =
      let (p, hp) = e.created priv ok in
      let (s, hs) = e.signed hash priv ok in
      (
        record { seckey = priv },
        e.serialize_compact s,
        e.pubkey_serialize p,
        rw ok refl,
        rw (sign, hs) refl,
        rw (pubkey_get, hp) refl,
        verify_pair priv hash s p hs hp,
      )
