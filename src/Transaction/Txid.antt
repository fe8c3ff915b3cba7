-- ===== src/Transaction/Txid.antt =====
-- The transaction id of getTxid: what it is computed from, and what the cache does.
use shawncoin.Prelude.{
  ℕ, ◌%◌, ◌^◌, ◌<◌, ◌≡◌, ◌≢◌, refl, sym, ap, ◌∙◌, none, some, List, [], ◌∷◌, ◌++◌, map, length,
  length-map, All, arith, append_assoc, ◌⊎◌, inl, inr,
}
use native.Mathlib.Decide.{ℕ_discrete}
use shawncoin.Wire.{Bytes, read, read_u32, read_u64}
use shawncoin.Wire.Monad.{Parser, pure, ◌>>=◌, read_many, write_many}
use shawncoin.Wire.Reads.{
  Reads, bind-Reads, done-Reads, read-Reads, u32-Reads, u64-Reads, many-Reads,
}
use shawncoin.Wire.Ranges.{some_pair}
use shawncoin.Types.{Transaction, TxInput, TxOutput}
use shawncoin.Crypto.{Digest, sha256d}
use shawncoin.Transaction.{
  preimage_input, preimage_output, txid_preimage, get_txid, txid, with_txid,
}

-- One byte, as a count or a length stands in the preimage.
read_byte : Parser ℕ
read_byte [] = none
read_byte (b ∷ bs) = some (b, bs)

-- A transaction without its signatures, public keys and cache.
abbrev pub strip_input : TxInput → TxInput
strip_input i = record i { signature = []; pubkey = [] }

abbrev pub strip : Transaction → Transaction
strip tx = record tx { inputs = map strip_input tx.inputs; cached_txid = none }

-- What one byte for a count or a length can hold.
pub record PreimageInputFits (i : TxInput) : Type 0 where
  pub hash_len : length i.prev_tx_hash ≡ 32
  pub index_fits : i.output_index < 2 ^ 32

pub record PreimageOutputFits (o : TxOutput) : Type 0 where
  pub amount_fits : o.amount < 2 ^ 64
  pub script_fits : length o.script_pubkey < 256

pub record PreimageFits (tx : Transaction) : Type 0 where
  pub version_fits : tx.version < 2 ^ 32
  pub inputs_count : length tx.inputs < 256
  pub inputs_fit : All PreimageInputFits tx.inputs
  pub outputs_count : length tx.outputs < 256
  pub outputs_fit : All PreimageOutputFits tx.outputs
  pub lock_time_fits : tx.lock_time < 2 ^ 32

-- A reader of the preimage. The node has none: it shows that the preimage can be read.
read_preimage_input : Parser TxInput
read_preimage_input = do
  hash ← read 32
  index ← read_u32
  pure (record { prev_tx_hash = hash; output_index = index; signature = []; pubkey = [] })

read_preimage_output : Parser TxOutput
read_preimage_output = do
  amount ← read_u64
  n ← read_byte
  script ← read n
  pure (record { amount = amount; script_pubkey = script })

read_preimage : Parser Transaction
read_preimage = do
  version ← read_u32
  n_in ← read_byte
  inputs ← read_many n_in read_preimage_input
  n_out ← read_byte
  outputs ← read_many n_out read_preimage_output
  lock_time ← read_u32
  pure (record {
    version = version;
    inputs = inputs;
    outputs = outputs;
    lock_time = lock_time;
    cached_txid = none;
  })

byte-Reads : (n : ℕ) → n < 256 → Reads read_byte (n % 256 ∷ []) n
unfolding read_byte
byte-Reads n h rest = let e : n % 256 ≡ n = omega arith in rw e

preimage_input-Reads :
    (i : TxInput)
    → PreimageInputFits i
    → Reads read_preimage_input (preimage_input i) (strip_input i)
unfolding read_preimage_input preimage_input
preimage_input-Reads i h =
    bind-Reads (read 32) _ _ _ i.prev_tx_hash _ (read-Reads i.prev_tx_hash 32 h.hash_len)
      (done-Reads read_u32 _ _ i.output_index (u32-Reads i.output_index h.index_fits))

preimage_output-Reads :
    (o : TxOutput) → PreimageOutputFits o → Reads read_preimage_output (preimage_output o) o
unfolding read_preimage_output preimage_output
preimage_output-Reads o h =
    bind-Reads read_u64 _ _ _ o.amount o (u64-Reads o.amount h.amount_fits) (
      bind-Reads read_byte _ (length o.script_pubkey % 256 ∷ []) _ (length o.script_pubkey) o
        (byte-Reads (length o.script_pubkey) h.script_fits)
        (done-Reads (read (length o.script_pubkey)) _ _ o.script_pubkey
          (read-Reads o.script_pubkey _ refl)))

preimage_inputs-Reads :
    (is : List TxInput)
    → All PreimageInputFits is
    → Reads
        (read_many (length is) read_preimage_input)
        (write_many preimage_input is)
        (map strip_input is)
unfolding read_many write_many
preimage_inputs-Reads [] h rest = refl
preimage_inputs-Reads (i ∷ is) (h, hs) rest = rw (
  append_assoc (preimage_input i) (write_many preimage_input is) rest,
  preimage_input-Reads i h (write_many preimage_input is ++ rest),
  ◌>>=◌,
  preimage_inputs-Reads is hs rest,
)

preimage_outputs-Reads :
    (os : List TxOutput)
    → All PreimageOutputFits os
    → All (λ o. Reads read_preimage_output (preimage_output o) o) os
preimage_outputs-Reads [] h = tt
preimage_outputs-Reads (o ∷ os) (h, hs) = (preimage_output-Reads o h, preimage_outputs-Reads os hs)

preimage-Reads :
    (tx : Transaction) → PreimageFits tx → Reads read_preimage (txid_preimage tx) (strip tx)
unfolding read_preimage txid_preimage
preimage-Reads tx h =
    bind-Reads read_u32 _ _ _ tx.version (strip tx) (u32-Reads tx.version h.version_fits) (
      bind-Reads read_byte _ (length tx.inputs % 256 ∷ []) _ (length tx.inputs) (strip tx)
        (byte-Reads (length tx.inputs) h.inputs_count)
        (bind-Reads (read_many (length tx.inputs) read_preimage_input) _ _ _
          (map strip_input tx.inputs) (strip tx) (preimage_inputs-Reads tx.inputs h.inputs_fit)
          (bind-Reads read_byte _ (length tx.outputs % 256 ∷ []) _ (length tx.outputs) (strip tx)
            (byte-Reads (length tx.outputs) h.outputs_count)
            (bind-Reads (read_many (length tx.outputs) read_preimage_output) _ _ _ tx.outputs
              (strip tx)
              (many-Reads read_preimage_output preimage_output tx.outputs
                (preimage_outputs-Reads tx.outputs h.outputs_fit))
              (done-Reads read_u32 _ _ tx.lock_time (u32-Reads tx.lock_time h.lock_time_fits))))))

preimage-injective :
    (a b : Transaction)
    → PreimageFits a
    → PreimageFits b
    → txid_preimage a ≡ txid_preimage b
    → strip a ≡ strip b
preimage-injective a b ha hb e =
    (some_pair (
      sym (preimage-Reads a ha [])
      ∙ ap (λ p. read_preimage (p ++ [])) e
      ∙ preimage-Reads b hb [])).0

pub bytes_discrete : Discrete Bytes
bytes_discrete = hlevel ℕ_discrete

-- Two different byte strings with the same double SHA-256.
abbrev pub Collision : Digest → Type 0
Collision c = (x : Bytes) × (y : Bytes) × (x ≢ y) × (sha256d c x ≡ sha256d c y)

module _ (c : Digest) where
  pub txid-fresh :
      (tx : Transaction) → tx.cached_txid ≡ none → txid c tx ≡ sha256d c (txid_preimage tx)
  unfolding get_txid
  txid-fresh tx e = rw e

  -- Where two transactions fit the format of the id, have no cached id and have the same id, either
  -- they agree in all but signatures and public keys, or two byte strings collide under SHA256d.
  pub txid_binding :
      (a b : Transaction)
      → PreimageFits a
      → PreimageFits b
      → a.cached_txid ≡ none
      → b.cached_txid ≡ none
      → txid c a ≡ txid c b
      → (strip a ≡ strip b) ⊎ Collision c
  txid_binding a b ha hb ea eb e = elim (bytes_discrete (txid_preimage a) (txid_preimage b)) [
    | yes same ↦ inl (preimage-injective a b ha hb same)
    | no differ ↦
        inr (txid_preimage a, txid_preimage b, differ, sym (txid-fresh a ea) ∙ e ∙ txid-fresh b eb)
  ]

  preimage_inputs-strip :
      (is : List TxInput)
      → write_many preimage_input (map strip_input is) ≡ write_many preimage_input is
  unfolding write_many preimage_input
  preimage_inputs-strip [] = refl
  preimage_inputs-strip (i ∷ is) = ap (λ t. preimage_input i ++ t) (preimage_inputs-strip is)

  preimage-strip : (tx : Transaction) → txid_preimage (strip tx) ≡ txid_preimage tx
  unfolding txid_preimage
  preimage-strip tx = rw (length-map strip_input tx.inputs, preimage_inputs-strip tx.inputs)

  -- The id does not depend on signatures or public keys, and asking for it again, after it was
  -- cached, gives the same answer and changes nothing more.
  pub txid_stable :
      (tx : Transaction)
      → tx.cached_txid ≡ none
      → (txid c (strip tx) ≡ txid c tx)
        × (txid c (with_txid c tx) ≡ txid c tx)
        × (with_txid c (with_txid c tx) ≡ with_txid c tx)
  unfolding get_txid
  txid_stable tx e = (
    txid-fresh (strip tx) refl ∙ ap (sha256d c) (preimage-strip tx) ∙ sym (txid-fresh tx e),
    rw e,
    rw e,
  )
