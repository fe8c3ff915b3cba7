-- ===== src/Miner/Search.antt =====
-- What the nonce search of mineBlock finds.
use shawncoin.Prelude.{
  ℕ, zero, suc, ◌+◌, ◌^◌, ◌≤◌, ◌<◌, ◌≡◌, refl, sym, ap, ◌∙◌, true, false, length, arith, Bool-cases,
  inl, inr, ◌⊎◌,
}
use native.Mathlib.Decide.{ℕ_discrete}
use shawncoin.Wire.{Bytes}
use shawncoin.Types.{Block}
use shawncoin.Crypto.{Digest, sha256d}
use shawncoin.Merkle.{compute_merkle_root}
use shawncoin.Block.{get_header_hash}
use shawncoin.Consensus.{compact_target, meets_target, check_proof_of_work}
use shawncoin.Consensus.Buffer.{pow_buffer-header_bytes}
use shawncoin.Miner.{hash_ok, with_nonce, try_nonces, prepared, mine_block}

-- The miner's comparison is that of checkProofOfWork.
hash_ok-meets_target : (i : ℕ) (h t : Bytes) → hash_ok i h t ≡ meets_target i h t
unfolding hash_ok meets_target
hash_ok-meets_target zero h t = refl
hash_ok-meets_target (suc i) h t = rw (hash_ok-meets_target i h t) (ground arith)

module _ (c : Digest) where
  -- A nonce passes where the block with it does.
  abbrev Passes : Bytes → Block → ℕ → Type 0
  Passes target b n = hash_ok 32 (get_header_hash c (with_nonce n b).header) target ≡ true

  -- The result of a search: a nonce from the range that passes, or no nonce of it does.
  abbrev Found : ℕ → ℕ → Bytes → Block → Type 0
  Found left nonce target b =
      (n : ℕ) × (nonce ≤ n)
      × (n < nonce + left)
      × (try_nonces c left nonce target b ≡ (with_nonce n b, true))
      × Passes target b n

  abbrev Failed : ℕ → ℕ → Bytes → Block → Type 0
  Failed left nonce target b =
      ((try_nonces c left nonce target b).1 ≡ false)
      × ((n : ℕ) → nonce ≤ n → n < nonce + left → ¬ Passes target b n)

  search :
      (left nonce : ℕ) (target : Bytes) (b : Block)
      → Found left nonce target b ⊎ Failed left nonce target b
  unfolding try_nonces with_nonce
  search zero nonce target b = inr (refl, λ n lo hi. absurd (omega arith))
  search (suc left) nonce target b =
      elim (Bool-cases (hash_ok 32 (get_header_hash c (with_nonce nonce b).header) target)) [
        | inl ok ↦ inl (nonce, omega arith, omega arith, rw (ok, try_nonces) refl, ok)
        | inr bad ↦ elim (search left (nonce + 1) target (with_nonce nonce b)) [
          | inl (n, lo, hi, e, ok) ↦ inl (n, omega arith, omega arith, rw (bad, try_nonces) e, ok)
          | inr (e, none_of) ↦ inr (
            rw (bad, try_nonces) e,
            λ n lo hi ok. elim (ℕ_discrete n nonce) [
              | yes p ↦ cc (bad, rw p at ok)
              | no ne ↦ none_of n (omega arith) (omega arith) ok
            ],
          )
        ]
      ]

  passes-work :
      (target n : ℕ) (b : Block)
      → length b.header.previous_hash ≡ 32
      → length (compute_merkle_root c b.transactions) ≡ 32
      → hash_ok 32
          (get_header_hash c (with_nonce n (prepared c b target)).header)
          (compact_target target)
        ≡ check_proof_of_work c (with_nonce n (prepared c b target)).header
  unfolding check_proof_of_work get_header_hash with_nonce prepared
  passes-work target n b hp hm =
      hash_ok-meets_target 32 _ (compact_target target)
      ∙ ap (λ d. meets_target 32 (sha256d c d) (compact_target target))
          (sym (pow_buffer-header_bytes (with_nonce n (prepared c b target)).header hp hm))

  -- Where mineBlock answers true, the block is the prepared one with a 32-bit nonce under which
  -- checkProofOfWork accepts its header. The block's previous hash and its Merkle root have 32 bytes.
  pub mine_block-success :
      (b : Block) (target : ℕ)
      → length b.header.previous_hash ≡ 32
      → length (compute_merkle_root c b.transactions) ≡ 32
      → (mine_block c b target).1 ≡ true
      → (n : ℕ) × (n < 2 ^ 32)
        × ((mine_block c b target).0 ≡ with_nonce n (prepared c b target))
        × (check_proof_of_work c (mine_block c b target).0.header ≡ true)
  unfolding mine_block
  mine_block-success b target hp hm found =
      elim (search (2 ^ 32) 0 (compact_target target) (prepared c b target)) [
        | inl (n, lo, hi, e, ok) ↦
            (n, omega arith, ap (λ r. r.0) e, rw e (sym (passes-work target n b hp hm) ∙ ok))
        | inr (e, none_of) ↦ absurd (cc (found, e))
      ]

  -- Where mineBlock answers false, checkProofOfWork accepts the prepared header under no 32-bit
  -- nonce. The block's previous hash and its Merkle root have 32 bytes.
  pub mine_block-failure :
      (b : Block) (target n : ℕ)
      → length b.header.previous_hash ≡ 32
      → length (compute_merkle_root c b.transactions) ≡ 32
      → (mine_block c b target).1 ≡ false
      → n < 2 ^ 32
      → check_proof_of_work c (with_nonce n (prepared c b target)).header ≡ false
  unfolding mine_block
  mine_block-failure b target n hp hm failed hi =
      elim (search (2 ^ 32) 0 (compact_target target) (prepared c b target)) [
        | inl (m, lo, hi', e, ok) ↦ absurd (cc (failed, ap (λ r. r.1) e))
        | inr (e, none_of) ↦
            elim (Bool-cases (check_proof_of_work c (with_nonce n (prepared c b target)).header)) [
              | inl ok ↦
                  absurd (none_of n (omega arith) (omega arith) (passes-work target n b hp hm ∙ ok))
              | inr bad ↦ bad
            ]
      ]
