-- ===== src/Block/Commitment.antt =====
-- What the hash of a block commits to.
use shawncoin.Prelude.{
  ◌%◌, ◌^◌, ◌≡◌, refl, sym, ap, ◌∙◌, List, [], ◌∷◌, ◌++◌, map, length, length-map, none, All, arith,
  ◌⊎◌, inl, inr,
}
use shawncoin.Wire.{read, read_u32}
use shawncoin.Wire.Monad.{Parser, pure, ◌>>=◌}
use shawncoin.Wire.Reads.{Reads, bind-Reads, done-Reads, read-Reads, u32-Reads}
use shawncoin.Wire.Ranges.{some_pair}
use shawncoin.Types.{BlockHeader, Transaction}
use shawncoin.Crypto.{Digest, length-sha256d}
use shawncoin.Transaction.{txid}
use shawncoin.Transaction.Txid.{
  Collision, PreimageFits, strip, txid_binding, bytes_discrete, txid-fresh,
}
use shawncoin.Merkle.{compute_merkle_root}
use shawncoin.Merkle.Binding.{AreHashes, merkle_root_binding}
use shawncoin.Block.{header_bytes, get_header_hash}
use shawncoin.Block.RoundTrip.{HeaderFits}

-- A reader of the 80 bytes. The node has none.
read_header_bytes : Parser BlockHeader
read_header_bytes = do
  version ← read_u32
  previous_hash ← read 32
  merkle_root ← read 32
  timestamp ← read_u32
  difficulty_target ← read_u32
  nonce ← read_u32
  pure (record {
    version = version;
    previous_hash = previous_hash;
    merkle_root = merkle_root;
    timestamp = timestamp;
    difficulty_target = difficulty_target;
    nonce = nonce;
  })

-- The header with the low 32 bits of its time.
abbrev pub short_time : BlockHeader → BlockHeader
short_time h = record h { timestamp = h.timestamp % 2 ^ 32 }

header_bytes-Reads :
    (h : BlockHeader) → HeaderFits h → Reads read_header_bytes (header_bytes h) (short_time h)
unfolding read_header_bytes header_bytes
header_bytes-Reads h f =
    bind-Reads read_u32 _ _ _ h.version (short_time h) (u32-Reads h.version f.version_fits) (
      bind-Reads (read 32) _ _ _ h.previous_hash (short_time h)
        (read-Reads h.previous_hash 32 f.previous_len)
        (bind-Reads (read 32) _ _ _ h.merkle_root (short_time h)
          (read-Reads h.merkle_root 32 f.merkle_len)
          (bind-Reads read_u32 _ _ _ (h.timestamp % 2 ^ 32) (short_time h)
            (u32-Reads (h.timestamp % 2 ^ 32) (omega arith))
            (bind-Reads read_u32 _ _ _ h.difficulty_target (short_time h)
              (u32-Reads h.difficulty_target f.target_fits)
              (done-Reads read_u32 _ _ h.nonce (u32-Reads h.nonce f.nonce_fits))))))

header_bytes-injective :
    (a b : BlockHeader)
    → HeaderFits a
    → HeaderFits b
    → header_bytes a ≡ header_bytes b
    → short_time a ≡ short_time b
header_bytes-injective a b fa fb e =
    (some_pair (
      sym (header_bytes-Reads a fa [])
      ∙ ap (λ p. read_header_bytes (p ++ [])) e
      ∙ header_bytes-Reads b fb [])).0

-- A transaction that is fit for an id and has none yet.
abbrev pub IsFresh : Transaction → Type 0
IsFresh tx = PreimageFits tx × (tx.cached_txid ≡ none)

module _ (c : Digest) where
  -- Two headers with the same hash agree in every field, the time in its low 32 bits, or two byte
  -- strings collide under SHA256d.
  pub header_hash_binding :
      (a b : BlockHeader)
      → HeaderFits a
      → HeaderFits b
      → get_header_hash c a ≡ get_header_hash c b
      → (short_time a ≡ short_time b) ⊎ Collision c
  unfolding get_header_hash
  header_hash_binding a b fa fb e = elim (bytes_discrete (header_bytes a) (header_bytes b)) [
    | yes same ↦ inl (header_bytes-injective a b fa fb same)
    | no differ ↦ inr (header_bytes a, header_bytes b, differ, e)
  ]

  txids-AreHashes : (txs : List Transaction) → All IsFresh txs → AreHashes (map (txid c) txs)
  txids-AreHashes [] h = tt
  txids-AreHashes (tx ∷ txs) (h, hs) =
      (rw (txid-fresh c tx h.1) (length-sha256d c _), txids-AreHashes txs hs)

  txids_binding :
      (us vs : List Transaction)
      → All IsFresh us
      → All IsFresh vs
      → map (txid c) us ≡ map (txid c) vs
      → (map strip us ≡ map strip vs) ⊎ Collision c
  txids_binding [] [] ha hb e = inl refl
  txids_binding [] (b ∷ vs) ha hb e = absurd (cc e)
  txids_binding (a ∷ us) [] ha hb e = absurd (cc e)
  txids_binding (a ∷ us) (b ∷ vs) (ha, has) (hb, hbs) e =
      elim (txid_binding c a b ha.0 hb.0 ha.1 hb.1 (cc)) [
        | inr k ↦ inr k
        | inl p ↦ elim (txids_binding us vs has hbs (cc)) [ inr k ↦ inr k | inl q ↦ inl (cc) ]
      ]

  -- Two lists of equally many transactions with the same Merkle root agree in all but signatures
  -- and public keys, or two byte strings collide under SHA256d.
  pub merkle_root_commits :
      (us vs : List Transaction)
      → All IsFresh us
      → All IsFresh vs
      → length us ≡ length vs
      → compute_merkle_root c us ≡ compute_merkle_root c vs
      → (map strip us ≡ map strip vs) ⊎ Collision c
  unfolding compute_merkle_root
  merkle_root_commits us vs ha hb l e =
      elim (merkle_root_binding c (map (txid c) us) (map (txid c) vs) (txids-AreHashes us ha)
        (txids-AreHashes vs hb) (length-map (txid c) us ∙ l ∙ sym (length-map (txid c) vs)) e) [
          | inr k ↦ inr k
          | inl same ↦ txids_binding us vs ha hb same
        ]
