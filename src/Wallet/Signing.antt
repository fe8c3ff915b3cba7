-- ===== src/Wallet/Signing.antt =====
-- A transaction that the wallet signs: its signatures are accepted, and it spends and pays the same.
use shawncoin.Prelude.{
  ◌≡◌, refl, sym, ap, inl, inr, subst, ◌∙◌, true, false, Option, none, some, List, [], ◌∷◌, map,
  length, All, eq_of_some, Option-cases,
}
use shawncoin.Prelude.Optional.{◌>>=◌, some_of_bind}
use shawncoin.Wire.{Bytes}
use shawncoin.Types.{Transaction, TxInput}
use shawncoin.Crypto.{Digest, sha256d}
use shawncoin.Transaction.{serialize_transaction}
use shawncoin.Utxo.{UtxoSet}
use shawncoin.Keys.{Curve, verify, sign, pubkey_get}
use shawncoin.Keys.Signed.{verify-sign}
use shawncoin.Wallet.{
  Wallet, sign_input, find_key, sign_with, sign_inputs, sign_transaction, signature_hash,
  without_signatures, clear_input,
}

-- An input whose signature of `hash` is accepted under its public key.
abbrev pub IsSigned : Curve → Bytes → TxInput → Type 0
IsSigned e hash i =
    (length i.signature ≡ 64) × (length i.pubkey ≡ 33) × (verify e i.pubkey hash i.signature ≡ true)

module _ (c : Digest) (e : Curve) (hash : Bytes) (u : UtxoSet) (w : Wallet) where
  -- What a signed input is.
  sign_input-IsSigned :
      (i j : TxInput)
      → sign_input c e hash u w i ≡ some j
      → (sig : Bytes) × (pub_key : Bytes) × (j ≡ record i { signature = sig; pubkey = pub_key })
        × IsSigned e hash (record i { signature = sig; pubkey = pub_key })
  unfolding sign_input sign_with
  sign_input-IsSigned i j h =
      let (key, e1, h1) = some_of_bind (find_key c e u w i) (sign_with c e hash i) j h in
      let (sig, e2, h2) =
        some_of_bind (sign e key hash)
          (λ sig. pubkey_get e key >>= λ p. some (record i { signature = sig; pubkey = p })) j h1 in
      let (pub_key, e3, h3) =
        some_of_bind (pubkey_get e key) (λ p. some (record i { signature = sig; pubkey = p })) j
          h2 in
      (sig, pub_key, sym (eq_of_some h3), verify-sign e key hash sig pub_key e2 e3)

  -- One turn of the loop.
  turn_failed :
      (i : TxInput) (is : List TxInput)
      → sign_input c e hash u w i ≡ none
      → sign_inputs c e hash u w (i ∷ is) ≡ (i ∷ is, false)
  unfolding sign_inputs
  turn_failed i is failed = rw (sign_inputs, failed) refl

  turn_signed :
      (i j : TxInput) (is : List TxInput)
      → sign_input c e hash u w i ≡ some j
      → sign_inputs c e hash u w (i ∷ is)
        ≡ (j ∷ (sign_inputs c e hash u w is).0, (sign_inputs c e hash u w is).1)
  unfolding sign_inputs
  turn_signed i j is ok = rw (sign_inputs, ok) refl

  sign_inputs-IsSigned :
      (is : List TxInput)
      → (sign_inputs c e hash u w is).1 ≡ true
      → All (IsSigned e hash) (sign_inputs c e hash u w is).0
  unfolding sign_inputs
  sign_inputs-IsSigned [] = λ h. tt
  sign_inputs-IsSigned (i ∷ is) = elim (Option-cases (sign_input c e hash u w i)) [
    | inl failed ↦
        subst (λ p. p.1 ≡ true → All (IsSigned e hash) p.0) (sym (turn_failed i is failed))
          (λ h. absurd (cc h))
    | inr (j, passed) ↦
        subst (λ p. p.1 ≡ true → All (IsSigned e hash) p.0) (sym (turn_signed i j is passed))
          (λ h.
            let (sig, pub_key, ej, ok) = sign_input-IsSigned i j passed in
            (subst (IsSigned e hash) (sym ej) ok, sign_inputs-IsSigned is h))
  ]

  inputs_kept :
      (is : List TxInput) → map clear_input (sign_inputs c e hash u w is).0 ≡ map clear_input is
  unfolding sign_inputs clear_input
  inputs_kept [] = refl
  inputs_kept (i ∷ is) = elim (Option-cases (sign_input c e hash u w i)) [
    | inl failed ↦ ap (λ p. map clear_input p.0) (turn_failed i is failed)
    | inr (j, passed) ↦
        let (sig, pub_key, ej, ok) = sign_input-IsSigned i j passed in
        ap (λ p. map clear_input p.0) (turn_signed i j is passed)
        ∙ rw ej (ap (◌∷◌ (clear_input i)) (inputs_kept is))
  ]

module _ (c : Digest) (e : Curve) (w : Wallet) (tx : Transaction) where
  -- Whether it succeeds or not, signing changes nothing but the signatures and the public keys: what
  -- is signed, and the outputs, are as they were.
  pub sign_transaction-without_signatures :
      (utxo : Option UtxoSet)
      → (without_signatures (sign_transaction c e utxo w tx).0 ≡ without_signatures tx)
        × (signature_hash c (sign_transaction c e utxo w tx).0 ≡ signature_hash c tx)
  unfolding sign_transaction signature_hash without_signatures
  sign_transaction-without_signatures none = (refl, refl)
  sign_transaction-without_signatures (some u) =
      let kept : without_signatures (sign_transaction c e (some u) w tx).0 ≡ without_signatures tx =
        ap {A = List TxInput} {B = Transaction} (λ is. record tx { inputs = is })
          (inputs_kept c e (signature_hash c tx) u w tx.inputs) in
      (kept, ap (λ t. sha256d c (serialize_transaction t)) kept)

  -- Where signTransaction returns true, every input of the transaction has a signature of 64 bytes and
  -- a public key of 33, and the signature of the transaction is accepted under that key.
  pub sign_transaction-IsSigned :
      (utxo : Option UtxoSet)
      → (sign_transaction c e utxo w tx).1 ≡ true
      → All
          (IsSigned e (signature_hash c (sign_transaction c e utxo w tx).0))
          (sign_transaction c e utxo w tx).0.inputs
  unfolding sign_transaction
  sign_transaction-IsSigned none h = absurd (cc h)
  sign_transaction-IsSigned (some u) h =
      subst (λ hash. All (IsSigned e hash) (sign_transaction c e (some u) w tx).0.inputs)
        (sym (sign_transaction-without_signatures (some u)).1)
        (sign_inputs-IsSigned c e (signature_hash c tx) u w tx.inputs h)
