-- ===== src/Mempool/Invariant.antt =====
-- What the pool keeps true, and what a block template taken from it holds.
use shawncoin.Prelude.{
  ℕ, ◌≤◌, ◌≡◌, refl, ap, sym, ◌∙◌, Bool, true, not, ◌&&◌, List, [], ◌∷◌, map, length, All, leb,
  Option-cases, not-false, if-case, arith, inl, inr, length-map,
}
use shawncoin.Wire.{Bytes}
use shawncoin.Map.{contains}
use shawncoin.Map.Keys.{bytes_order}
use shawncoin.Map.Laws.{
  IsSorted, insert-IsSorted, erase-IsSorted, length-insert, length-erase, keys-insert,
}
use shawncoin.Map.Entries.{All-insert, All-erase}
use shawncoin.Types.{Transaction}
use shawncoin.Crypto.{Digest}
use shawncoin.Transaction.{txid, with_txid, get_txid, is_coinbase}
use shawncoin.Consensus.{validate_transaction_structure}
use shawncoin.Mempool.{Mempool, add, remove, clear, get_block_template, max_mempool_size}

-- The calls that change the pool.
pub data Call : Type 0 where
  add_call : Transaction → ℕ → Call
  remove_call : Bytes → Call
  clear_call : Call

module _ (c : Digest) where
  -- An entry stands under its transaction's id, and its transaction has the right structure.
  abbrev Entry : Bytes × Transaction → Type 0
  Entry (id, tx) = (txid c tx ≡ id) × (validate_transaction_structure tx ≡ true)

  pub record IsPool (m : Mempool) : Type 0 where
    pub sorted : IsSorted m
    pub bounded : length m ≤ max_mempool_size
    pub entries : All Entry m

  kept_id : (tx : Transaction) → txid c (with_txid c tx) ≡ txid c tx
  unfolding get_txid
  kept_id tx = elim (Option-cases tx.cached_txid) [ inl e ↦ rw e | inr (id, e) ↦ rw e ]

  kept_structure :
      (tx : Transaction)
      → validate_transaction_structure (with_txid c tx) ≡ validate_transaction_structure tx
  unfolding get_txid validate_transaction_structure is_coinbase
  kept_structure tx = elim (Option-cases tx.cached_txid) [ inl e ↦ rw e | inr (id, e) ↦ rw e ]

  abbrev Kept : Mempool × Bool → Type 0
  Kept r = IsPool r.0

  add-IsPool : (tx : Transaction) (fee : ℕ) (m : Mempool) → IsPool m → IsPool (add c tx fee m).0
  unfolding add
  add-IsPool tx fee m v =
      if-case Kept (not (validate_transaction_structure tx)) (λ _. v)
        λ ok.
          if-case Kept (leb max_mempool_size (length m) && not (contains (txid c tx) m)) (λ _. v)
            λ room. record {
              sorted = insert-IsSorted (txid c tx) (with_txid c tx) m v.sorted;
              bounded = ground (arith, length-insert (txid c tx) (with_txid c tx) m, v.bounded);
              entries =
                  All-insert Entry (txid c tx) (with_txid c tx) m
                    (kept_id tx, kept_structure tx ∙ not-false _ ok) v.entries;
            }

  remove-IsPool : (id : Bytes) (m : Mempool) → IsPool m → IsPool (remove id m).0
  unfolding remove
  remove-IsPool id m v = record {
    sorted = erase-IsSorted id m v.sorted;
    bounded = ground (arith, length-erase id m, v.bounded);
    entries = All-erase Entry id m v.entries;
  }

  empty-IsPool : IsPool []
  empty-IsPool = record { sorted = tt; bounded = omega arith; entries = tt }

  pub run : List Call → Mempool → Mempool
  run [] m = m
  run (add_call tx fee ∷ ks) m = run ks (add c tx fee m).0
  run (remove_call id ∷ ks) m = run ks (remove id m).0
  run (clear_call ∷ ks) m = run ks (clear m)

  run-IsPool_from : (ks : List Call) (m : Mempool) → IsPool m → IsPool (run ks m)
  unfolding run clear
  run-IsPool_from [] m v = v
  run-IsPool_from (add_call tx fee ∷ ks) m v = run-IsPool_from ks _ (add-IsPool tx fee m v)
  run-IsPool_from (remove_call id ∷ ks) m v = run-IsPool_from ks _ (remove-IsPool id m v)
  run-IsPool_from (clear_call ∷ ks) m v = run-IsPool_from ks _ empty-IsPool

  -- After any calls of add, remove and clear on an empty pool, its keys are in order, it holds at
  -- most 100000 entries, and each stands under its transaction's id and has the right structure.
  pub run-IsPool : (ks : List Call) → IsPool (run ks [])
  run-IsPool ks = run-IsPool_from ks [] empty-IsPool

  -- Calls of add, each of a transaction and a fee.
  pub adds : List (Transaction × ℕ) → Mempool → Mempool
  adds [] m = m
  adds ((tx, fee) ∷ offers) m = adds offers (add c tx fee m).0

  add-full :
      (tx : Transaction) (fee : ℕ) (m : Mempool)
      → max_mempool_size ≤ length m
      → map (λ p. p.0) (add c tx fee m).0 ≡ map (λ p. p.0) m
  unfolding add
  add-full tx fee m full =
      let Same : Mempool × Bool → Type 0 = λ r. map (λ p. p.0) r.0 ≡ map (λ p. p.0) m in
      if-case Same (not (validate_transaction_structure tx)) (λ _. refl)
        λ ok.
          if-case Same (leb max_mempool_size (length m) && not (contains (txid c tx) m)) (λ _. refl)
            λ room. keys-insert (txid c tx) (with_txid c tx) m (ground (arith, full, room))

  -- A pool that is full keeps the ids that it has, and takes no other, whatever transactions it is
  -- offered and whatever their fees: nothing is evicted.
  pub adds-full :
      (offers : List (Transaction × ℕ)) (m : Mempool)
      → max_mempool_size ≤ length m
      → map (λ p. p.0) (adds offers m) ≡ map (λ p. p.0) m
  unfolding adds
  adds-full [] m full = refl
  adds-full ((tx, fee) ∷ offers) m full =
      let same = add-full tx fee m full in
      let len : length (add c tx fee m).0 ≡ length m =
        sym (length-map (λ p. p.0) (add c tx fee m).0) ∙ ap length same ∙ length-map (λ p. p.0) m in
      adds-full offers (add c tx fee m).0 (omega (arith, len, full)) ∙ same

  entries-template :
      (m : Mempool)
      → All Entry m
      → All (λ tx. validate_transaction_structure tx ≡ true) (get_block_template m)
  unfolding get_block_template
  entries-template [] h = tt
  entries-template ((id, tx) ∷ m) (h, hs) = (h.1, entries-template m hs)

  ids-template :
      (m : Mempool) → All Entry m → map (txid c) (get_block_template m) ≡ map (λ p. p.0) m
  unfolding get_block_template
  ids-template [] h = refl
  ids-template ((id, tx) ∷ m) (h, hs) = rw h.0 (ap (◌∷◌ id) (ids-template m hs))

  -- The transactions of a block template each have the right structure, and their ids, in order, are
  -- the keys of the pool, which increase strictly: no id stands twice.
  pub get_block_template_lem :
      (ks : List Call)
      → All (λ tx. validate_transaction_structure tx ≡ true) (get_block_template (run ks []))
        × (map (txid c) (get_block_template (run ks [])) ≡ map (λ p. p.0) (run ks []))
        × IsSorted (run ks [])
  get_block_template_lem ks =
      let v = run-IsPool ks in
      (entries-template (run ks []) v.entries, ids-template (run ks []) v.entries, v.sorted)
