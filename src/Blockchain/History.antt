-- ===== src/Blockchain/History.antt =====
-- The calls of addBlock over the life of a Blockchain.
use shawncoin.Prelude.{
  ℕ, ◌+◌, ◌%◌, ◌^◌, ◌≤◌, ◌<◌, Bool, not, List, [], ◌∷◌, length, arith, ◌==◌, if-case,
}
use shawncoin.Map.{contains}
use shawncoin.Map.Keys.{bytes_order}
use shawncoin.Types.{Block}
use shawncoin.Crypto.{Digest}
use shawncoin.Transaction.{beq_bytes}
use shawncoin.Block.{get_hash}
use shawncoin.Consensus.{after_coinbase, validate_block_structure, connect_block_utxo}
use shawncoin.Blockchain.{
  Blockchain, new_blockchain, check_difficulty, check_transactions, accept_block, connect_block,
  add_block,
}
use shawncoin.Blockchain.Linked.{IsLinked, add_block-IsLinked, new_blockchain-IsLinked}

-- A call of addBlock: the time, the block and the height.
pub record Call : Type 0 where
  pub now : ℕ
  pub block : Block
  pub height : ℕ

module _ (c : Digest) where
  -- The chain after calls of addBlock, one after the other.
  unfoldable pub run : List Call → Blockchain → Blockchain
  run [] chain = chain
  run (k ∷ ks) chain = run ks (add_block c k.now k.block k.height chain).0

  abbrev Low : ℕ → Blockchain × Bool → Type 0
  Low n r = r.0.height ≤ n + 1

  height-connect_block :
      (now : ℕ) (b : Block) (h : ℕ) (chain : Blockchain)
      → h ≤ chain.height + 1
      → (connect_block c now b h chain).0.height ≤ chain.height + 1
  unfolding connect_block accept_block
  height-connect_block now b h chain le =
      let n = chain.height in
      if-case (Low n) (not (validate_block_structure c now b)) (λ _. omega arith)
        λ _.
          if-case (Low n) (not (check_difficulty chain b.header)) (λ _. omega arith)
            λ _.
              if-case (Low n) (not (check_transactions (after_coinbase b.transactions) chain.utxo))
                (λ _. omega arith)
                λ _.
                  if-case (Low n) (connect_block_utxo c b chain.utxo).1 (λ _. le) (λ _. omega arith)

  height-add_block :
      (now : ℕ) (b : Block) (h : ℕ) (chain : Blockchain)
      → chain.height + 1 < 2 ^ 64
      → (add_block c now b h chain).0.height ≤ chain.height + 1
  unfolding add_block
  height-add_block now b h chain small =
      let n = chain.height in
      if-case (Low n) (contains (get_hash c b) chain.block_cache) (λ _. omega arith)
        λ new.
          if-case (Low n) (not (h == (chain.height + 1) % 2 ^ 64)) (λ _. omega arith)
            λ next.
              if-case (Low n) (not (beq_bytes b.header.previous_hash chain.best_block_hash))
                (λ _. omega arith) λ prev. height-connect_block now b h chain (ground arith)

  run-IsLinked_from :
      (ks : List Call) (chain : Blockchain)
      → chain.height + length ks < 2 ^ 64
      → IsLinked c chain
      → IsLinked c (run ks chain)
  unfolding run
  run-IsLinked_from [] chain small v = v
  run-IsLinked_from (k ∷ ks) chain small v =
      let low = height-add_block k.now k.block k.height chain (omega arith) in
      run-IsLinked_from ks _ (omega arith)
        (add_block-IsLinked c k.now k.block k.height chain (omega arith) v)

  -- From the genesis chain, fewer than 2 ^ 64 calls of addBlock leave the chain linked: a block at
  -- every height up to the tip, the best hash at the tip, and each block's previous hash the hash of
  -- the block below it.
  pub run-IsLinked : (ks : List Call) → length ks < 2 ^ 64 → IsLinked c (run ks (new_blockchain c))
  unfolding new_blockchain
  run-IsLinked ks small =
      run-IsLinked_from ks (new_blockchain c) (omega arith) (new_blockchain-IsLinked c)
