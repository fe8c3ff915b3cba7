-- ===== src/Miner/Candidate.antt =====
-- The block that miningLoop builds and mineBlock searches for passes validateBlockStructure.
use shawncoin.Prelude.{
  ℕ, ◌+◌, ◌%◌, ◌^◌, ◌≤◌, ◌<◌, ◌≡◌, refl, ap, ◌∙◌, true, List, [], ◌∷◌, map, length, arith, All, inl,
  inr, Option-cases,
}
use shawncoin.Wire.{Bytes}
use shawncoin.Types.{Block, Transaction}
use shawncoin.Crypto.{Digest, length-sha256d}
use shawncoin.Transaction.Equal.{beq_bytes_refl}
use shawncoin.Transaction.{txid, with_txid, get_txid, is_coinbase, beq_bytes}
use shawncoin.Transaction.Txid.{txid-fresh}
use shawncoin.Merkle.{compute_merkle_root}
use shawncoin.Merkle.Width.{Is32, compute_merkle_root-Is32}
use shawncoin.Consensus.{validate_block_structure, check_proof_of_work, starts_with_coinbase}
use shawncoin.Difficulty.{easy_mine_difficulty}
use shawncoin.Blockchain.{Blockchain, get_best_block_hash, get_height}
use shawncoin.Mempool.{Mempool, get_block_template}
use shawncoin.Miner.{candidate_block, miner_coinbase, with_nonce, prepared, mine_block}
use shawncoin.Miner.Search.{mine_block-success}

module _ (c : Digest) where
  kept_id : (tx : Transaction) → txid c (with_txid c tx) ≡ txid c tx
  unfolding get_txid
  kept_id tx = elim (Option-cases tx.cached_txid) [ inl e ↦ rw e | inr (id, e) ↦ rw e ]

  kept_ids : (txs : List Transaction) → map (txid c) (map (with_txid c) txs) ≡ map (txid c) txs
  kept_ids [] = refl
  kept_ids (tx ∷ txs) = rw (kept_id tx) (ap (◌∷◌ (txid c tx)) (kept_ids txs))

  root_kept :
      (txs : List Transaction)
      → compute_merkle_root c (map (with_txid c) txs) ≡ compute_merkle_root c txs
  unfolding compute_merkle_root
  root_kept txs = rw (kept_ids txs)

  module _ (now : ℕ) (payout : Bytes) (chain : Blockchain) (pool : Mempool) where
    abbrev pub candidate : Block
    candidate = candidate_block now payout chain pool

    coinbase_first :
        (n : ℕ)
        → starts_with_coinbase c
            (with_nonce n (prepared c candidate easy_mine_difficulty)).transactions
          ≡ true
    unfolding starts_with_coinbase with_nonce prepared candidate_block miner_coinbase is_coinbase
        get_txid beq_bytes
    coinbase_first n = refl

    root_ok :
        (n : ℕ)
        → let b = with_nonce n (prepared c candidate easy_mine_difficulty) in
          compute_merkle_root c b.transactions ≡ b.header.merkle_root
    unfolding with_nonce prepared candidate_block
    root_ok n = root_kept candidate.transactions

    ids_ok :
        All (λ tx. Is32 (txid c tx)) (get_block_template pool)
        → All (λ tx. Is32 (txid c tx)) candidate.transactions
    unfolding candidate_block miner_coinbase
    ids_ok h = (
      ap length (txid-fresh c (miner_coinbase payout ((get_height chain + 1) % 2 ^ 64)) refl)
          ∙ length-sha256d c _,
      h,
    )

    best : length chain.best_block_hash ≡ 32 → length candidate.header.previous_hash ≡ 32
    unfolding candidate_block get_best_block_hash
    best h = h

    header_time :
        (n : ℕ) → (with_nonce n (prepared c candidate easy_mine_difficulty)).header.timestamp ≡ now
    unfolding with_nonce prepared candidate_block
    header_time n = refl

    header_target :
        (n : ℕ)
        → (with_nonce n (prepared c candidate easy_mine_difficulty)).header.difficulty_target
          ≡ easy_mine_difficulty
    unfolding with_nonce prepared
    header_target n = refl

    checked :
        (later n : ℕ)
        → now ≤ later + 7200
        → later + 7200 < 2 ^ 64
        → check_proof_of_work c (with_nonce n (prepared c candidate easy_mine_difficulty)).header
          ≡ true
        → validate_block_structure c later
            (with_nonce n (prepared c candidate easy_mine_difficulty))
          ≡ true
    unfolding validate_block_structure
    checked later n order small work =
        rw
          (
            coinbase_first n,
            root_ok n,
            beq_bytes_refl
                (with_nonce n (prepared c candidate easy_mine_difficulty)).header.merkle_root,
            work,
            header_time n,
            header_target n,
          )
          (ground arith)

    -- A block that mineBlock has found for a turn of miningLoop passes validateBlockStructure: at a
    -- time not more than two hours before the one in its header, where the best hash and the ids of
    -- the pool's transactions have 32 bytes.
    pub mined_block_valid :
        (later : ℕ)
        → length chain.best_block_hash ≡ 32
        → All (λ tx. Is32 (txid c tx)) (get_block_template pool)
        → now ≤ later + 7200
        → later + 7200 < 2 ^ 64
        → (mine_block c candidate easy_mine_difficulty).1 ≡ true
        → validate_block_structure c later (mine_block c candidate easy_mine_difficulty).0 ≡ true
    mined_block_valid later hp ids order small found =
        let (n, hi, e, work) =
          mine_block-success c candidate easy_mine_difficulty (best hp)
            (compute_merkle_root-Is32 c candidate.transactions (ids_ok ids)) found in
        rw e (checked later n order small (rw e at work))
