-- ===== src/Blockchain/Linked.antt =====
-- The chain of blocks that Blockchain keeps.
use shawncoin.Prelude.{
  ℕ, ◌+◌, ◌%◌, ◌^◌, ◌≤◌, ◌<◌, ◌≡◌, ◌≢◌, refl, sym, ap, ◌∙◌, subst, Bool, false, not, [], some,
  is_some, arith, ◌==◌, eq_of_some, if-case, not-false,
}
use native.Mathlib.Decide.{ℕ_discrete}
use shawncoin.Map.{find, insert, contains}
use shawncoin.Map.Keys.{nat_less, bytes_order}
use shawncoin.Map.Laws.{find-insert_self, find-insert_ne}
use shawncoin.Types.{Block}
use shawncoin.Crypto.{Digest}
use shawncoin.Transaction.{beq_bytes}
use shawncoin.Transaction.Equal.{beq_bytes→eq}
use shawncoin.Block.{get_hash, make_genesis_block}
use shawncoin.Utxo.{UtxoSet}
use shawncoin.Consensus.{after_coinbase, validate_block_structure, connect_block_utxo}
use shawncoin.Blockchain.{
  Blockchain, new_blockchain, check_difficulty, check_transactions, settled, accept_block,
  connect_block, add_block,
}

module _ (c : Digest) where
  -- At height `k` stands the block `b`, under its own hash.
  pub record At (chain : Blockchain) (k : ℕ) (b : Block) : Type 0 where
    pub indexed : find k chain.height_index ≡ some (get_hash c b)
    pub cached : find (get_hash c b) chain.block_cache ≡ some b

  -- A block at every height up to the tip, the best hash at the tip, and each block's previous hash
  -- the hash of the block below it.
  pub record IsLinked (chain : Blockchain) : Type 0 where
    pub block_at : (k : ℕ) → k ≤ chain.height → (b : Block) × At chain k b
    pub tip : find chain.height chain.height_index ≡ some chain.best_block_hash
    pub linked :
        (k : ℕ) (a b : Block)
        → k < chain.height
        → At chain k a
        → At chain (k + 1) b
        → b.header.previous_hash ≡ get_hash c a

  -- The hash of a block does not depend on the cached ids.
  get_hash-settled : (b : Block) → get_hash c (settled c b) ≡ get_hash c b
  unfolding get_hash
  get_hash-settled b = refl

  -- One block stands at a height.
  At-unique : (chain : Blockchain) (k : ℕ) (a b : Block) → At chain k a → At chain k b → a ≡ b
  At-unique chain k a b ha hb =
      let same : get_hash c a ≡ get_hash c b = eq_of_some (sym ha.indexed ∙ hb.indexed) in
      eq_of_some (sym ha.cached ∙ ap (λ h. find h chain.block_cache) same ∙ hb.cached)

  module _ (chain : Blockchain) (b : Block) (u : UtxoSet) (h : ℕ) (next : h ≡ chain.height + 1)
      (new : contains (get_hash c b) chain.block_cache ≡ false) where
    grown : Blockchain
    grown = accept_block c b h u chain

    other_hash :
        (a : Block) → find (get_hash c a) chain.block_cache ≡ some a → get_hash c a ≢ get_hash c b
    unfolding contains
    other_hash a e p =
        let q : find (get_hash c b) chain.block_cache ≡ some a = rw p at e in
        cc (sym (ap is_some q) ∙ new)

    -- The blocks below the new one stay where they are, and nothing else comes to stand there.
    old-At : (k : ℕ) (a : Block) → k ≤ chain.height → At chain k a → At grown k a
    unfolding grown accept_block
    old-At k a le at = record {
      indexed = find-insert_ne k h _ _ (λ e. absurd (omega arith)) ∙ at.indexed;
      cached =
          find-insert_ne (get_hash c a) (get_hash c b) _ _ (other_hash a at.cached) ∙ at.cached;
    }

    new-At : At grown h (settled c b)
    unfolding grown accept_block get_hash
    new-At = record {
      indexed = find-insert_self h _ chain.height_index;
      cached = find-insert_self (get_hash c b) (settled c b) chain.block_cache;
    }

    grown-At : IsLinked chain → (k : ℕ) → k ≤ h → (a : Block) × At grown k a
    grown-At v k le = elim (ℕ_discrete k h) [
      | yes e ↦ (settled c b, subst (λ i. At grown i (settled c b)) (sym e) new-At)
      | no ne ↦ let (a, at) = v.block_at k (omega arith) in (a, old-At k a (omega arith) at)
    ]

    grown_linked :
        IsLinked chain
        → b.header.previous_hash ≡ chain.best_block_hash
        → (k : ℕ) (x y : Block) → k < h
        → At grown k x
        → At grown (k + 1) y
        → y.header.previous_hash ≡ get_hash c x
    grown_linked v prev k x y lt hx hy = elim (ℕ_discrete (k + 1) h) [
      | yes e ↦
          let level : k ≡ chain.height = omega arith in
          let (a, at) = v.block_at k (omega arith) in
          let top : get_hash c a ≡ chain.best_block_hash =
            eq_of_some (sym at.indexed ∙ ap (λ i. find i chain.height_index) level ∙ v.tip) in
          let x_is : x ≡ a = At-unique grown k x a hx (old-At k a (omega arith) at) in
          let y_is : y ≡ settled c b =
            At-unique grown h y (settled c b) (subst (λ i. At grown i y) e hy) new-At in
          ap (λ t. t.header.previous_hash) y_is ∙ prev ∙ sym top ∙ ap (get_hash c) (sym x_is)
      | no ne ↦
          let (a, at_a) = v.block_at k (omega arith) in
          let (a', at_a') = v.block_at (k + 1) (omega arith) in
          let x_is = At-unique grown k x a hx (old-At k a (omega arith) at_a) in
          let y_is = At-unique grown (k + 1) y a' hy (old-At (k + 1) a' (omega arith) at_a') in
          ap (λ t. t.header.previous_hash) y_is
          ∙ v.linked k a a' (omega arith) at_a at_a'
          ∙ ap (get_hash c) (sym x_is)
    ]

    grown-IsLinked :
        IsLinked chain → b.header.previous_hash ≡ chain.best_block_hash → IsLinked grown
    unfolding grown accept_block
    grown-IsLinked v prev = record {
      block_at = grown-At v;
      tip = find-insert_self h _ chain.height_index;
      linked = grown_linked v prev;
    }

  -- The set of unspent outputs is not part of it.
  other_utxo :
      (chain : Blockchain) (u : UtxoSet) → IsLinked chain → IsLinked (record chain { utxo = u })
  other_utxo chain u v = record {
    block_at = λ k le.
        let (b, at) = v.block_at k le in (b, record { indexed = at.indexed; cached = at.cached });
    tip = v.tip;
    linked = λ k a b lt ha hb.
        v.linked k a b lt (record { indexed = ha.indexed; cached = ha.cached })
          (record { indexed = hb.indexed; cached = hb.cached });
  }

  abbrev Kept : Blockchain × Bool → Type 0
  Kept r = IsLinked r.0

  connect_block-IsLinked :
      (now : ℕ) (b : Block) (h : ℕ) (chain : Blockchain)
      → h ≡ chain.height + 1
      → contains (get_hash c b) chain.block_cache ≡ false
      → b.header.previous_hash ≡ chain.best_block_hash
      → IsLinked chain
      → IsLinked (connect_block c now b h chain).0
  unfolding connect_block accept_block grown
  connect_block-IsLinked now b h chain next new prev v =
      let u = (connect_block_utxo c b chain.utxo).0 in
      if-case Kept (not (validate_block_structure c now b)) (λ _. v)
        λ _.
          if-case Kept (not (check_difficulty chain b.header)) (λ _. v)
            λ _.
              if-case Kept (not (check_transactions (after_coinbase b.transactions) chain.utxo))
                (λ _. v)
                λ _.
                  if-case Kept (connect_block_utxo c b chain.utxo).1
                    (λ _. grown-IsLinked chain b u h next new v prev) (λ _. other_utxo chain u v)

  -- addBlock keeps the chain linked, whatever block and height it is given and whatever it answers,
  -- as long as the height of the chain is below 2 ^ 64 - 1.
  pub add_block-IsLinked :
      (now : ℕ) (b : Block) (h : ℕ) (chain : Blockchain)
      → chain.height + 1 < 2 ^ 64
      → IsLinked chain
      → IsLinked (add_block c now b h chain).0
  unfolding add_block
  add_block-IsLinked now b h chain small v =
      if-case Kept (contains (get_hash c b) chain.block_cache) (λ _. v)
        λ new.
          if-case Kept (not (h == (chain.height + 1) % 2 ^ 64)) (λ _. v)
            λ next.
              if-case Kept (not (beq_bytes b.header.previous_hash chain.best_block_hash)) (λ _. v)
                λ prev.
                  connect_block-IsLinked now b h chain (ground arith) new
                    (beq_bytes→eq _ _ (not-false _ prev)) v

  pub new_blockchain-IsLinked : IsLinked (new_blockchain c)
  unfolding new_blockchain
  new_blockchain-IsLinked =
      let genesis = make_genesis_block c in
      let hash = get_hash c genesis in
      record {
        block_at = λ k le. (
          genesis,
          record {
            indexed =
                ap (λ i. find i (insert 0 hash [])) (omega arith) ∙ find-insert_self 0 hash [];
            cached = find-insert_self hash genesis [];
          },
        );
        tip = find-insert_self 0 hash [];
        linked = λ k a b lt ha hb. absurd (omega arith);
      }
