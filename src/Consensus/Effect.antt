-- ===== src/Consensus/Effect.antt =====
-- What connectBlockUTXO and disconnectBlockUTXO do to the unspent outputs as a whole.
use shawncoin.Prelude.{
  ℕ, ◌+◌, ◌%◌, ◌^◌, ◌≡◌, ◌↔◌, refl, sym, ap, ◌∙◌, Bool, true, false, List, [], ◌∷◌, ◌++◌, take,
  Bool-cases, inl, inr,
}
use mathlib.Core.List.{map-append}
use shawncoin.Wire.{Bytes}
use shawncoin.Types.{Block, Transaction, TxOutput, OutPoint}
use shawncoin.Crypto.{Digest}
use shawncoin.Transaction.{txid}
use shawncoin.Utxo.{UtxoSet, Entry, put, spend}
use shawncoin.Utxo.Laws.{coins, IsValid, coins-put, coins-spend, put-IsValid, spend-IsValid}
use shawncoin.Consensus.{
  after_coinbase, spend_inputs, put_outputs, put_transactions, spend_outputs, connect_block_utxo,
  disconnect_transactions, disconnect_block_utxo,
}
use shawncoin.Consensus.Coins.{
  spend_all, add_all, keys, add_all-append, spend_all-append, spend_all-add_all,
}
use shawncoin.Consensus.Spending.{
  spent_by, all_inputs, Present, Distinct, spend_transactions-inputs, spend_inputs_iff,
  spend_inputs-Spends,
}

-- The entries that a transaction's outputs stand for, from the output with number j on.
abbrev pub outputs_from : Bytes → ℕ → List TxOutput → List (OutPoint × Entry)
outputs_from id j [] = []
outputs_from id j (o ∷ os) =
    (
      record { hash = id; index = j % 2 ^ 32 },
      record { amount = o.amount; script_pubkey = o.script_pubkey },
    )
    ∷ outputs_from id (j + 1) os

put_outputs-add_all :
    (id : Bytes) (j : ℕ) (os : List TxOutput) (u : UtxoSet)
    → coins (put_outputs id j os u) ≡ add_all (outputs_from id j os) (coins u)
unfolding put_outputs add_all
put_outputs-add_all id j [] u = refl
put_outputs-add_all id j (o ∷ os) u =
    let op : OutPoint = record { hash = id; index = j % 2 ^ 32 } in
    put_outputs-add_all id (j + 1) os (put op o.amount o.script_pubkey u)
    ∙ ap (add_all (outputs_from id (j + 1) os)) (coins-put op o.amount o.script_pubkey u)

put_outputs-IsValid :
    (id : Bytes) (j : ℕ) (os : List TxOutput) (u : UtxoSet)
    → IsValid u
    → IsValid (put_outputs id j os u)
unfolding put_outputs
put_outputs-IsValid id j [] u v = v
put_outputs-IsValid id j (o ∷ os) u v =
    put_outputs-IsValid id (j + 1) os _ (put-IsValid _ o.amount o.script_pubkey u v)

spend_outputs-spend_all :
    (id : Bytes) (j : ℕ) (os : List TxOutput) (u : UtxoSet)
    → IsValid u
    → (coins (spend_outputs id j os u) ≡ spend_all (keys (outputs_from id j os)) (coins u))
      × IsValid (spend_outputs id j os u)
unfolding spend_outputs spend_all
spend_outputs-spend_all id j [] u v = (refl, v)
spend_outputs-spend_all id j (o ∷ os) u v =
    let op : OutPoint = record { hash = id; index = j % 2 ^ 32 } in
    let (e, v') = spend_outputs-spend_all id (j + 1) os (spend op u).0 (spend-IsValid op u v) in
    (e ∙ ap (spend_all (keys (outputs_from id (j + 1) os))) (coins-spend op u v), v')

module _ (c : Digest) where
  -- The entries that the transactions of a block create, in order.
  abbrev pub created : List Transaction → List (OutPoint × Entry)
  created [] = []
  created (tx ∷ txs) = outputs_from (txid c tx) 0 tx.outputs ++ created txs

  put_transactions-add_all :
      (txs : List Transaction) (u : UtxoSet)
      → IsValid u
      → (coins (put_transactions c txs u) ≡ add_all (created txs) (coins u))
        × IsValid (put_transactions c txs u)
  unfolding put_transactions
  put_transactions-add_all [] u v = (unfold add_all in refl, v)
  put_transactions-add_all (tx ∷ txs) u v =
      let os = outputs_from (txid c tx) 0 tx.outputs in
      let (e, v') =
        put_transactions-add_all txs (put_outputs (txid c tx) 0 tx.outputs u)
          (put_outputs-IsValid (txid c tx) 0 tx.outputs u v) in
      (
        e
            ∙ ap (add_all (created txs)) (put_outputs-add_all (txid c tx) 0 tx.outputs u)
            ∙ sym (add_all-append os (created txs) (coins u)),
        v',
      )

  -- The outpoints that the block's transactions after the coinbase spend.
  abbrev pub spent : Block → List OutPoint
  spent b = spent_by (all_inputs (after_coinbase b.transactions))

  -- The result of the first loop.
  abbrev after_inputs : Block → UtxoSet → UtxoSet × Bool
  after_inputs b u = spend_inputs (all_inputs (after_coinbase b.transactions)) u

  connect_ok :
      (b : Block) (u : UtxoSet)
      → (after_inputs b u).1 ≡ true
      → connect_block_utxo c b u ≡ (put_transactions c b.transactions (after_inputs b u).0, true)
  unfolding connect_block_utxo
  connect_ok b u h = rw (spend_transactions-inputs (after_coinbase b.transactions) u) (rw h)

  connect_failed :
      (b : Block) (u : UtxoSet)
      → (after_inputs b u).1 ≡ false
      → connect_block_utxo c b u ≡ ((after_inputs b u).0, false)
  unfolding connect_block_utxo
  connect_failed b u h = rw (spend_transactions-inputs (after_coinbase b.transactions) u) (rw h)

  connect-inputs : (b : Block) (u : UtxoSet) → (connect_block_utxo c b u).1 ≡ (after_inputs b u).1
  connect-inputs b u = elim (Bool-cases (after_inputs b u).1) [
    | inl h ↦ ap (λ r. r.1) (connect_ok b u h) ∙ sym h
    | inr h ↦ ap (λ r. r.1) (connect_failed b u h) ∙ sym h
  ]

  -- connectBlockUTXO succeeds exactly where each outpoint that the block spends is in the set
  -- before the block and none is spent twice.
  pub connect_block_utxo_iff :
      (b : Block) (u : UtxoSet)
      → IsValid u
      → ((connect_block_utxo c b u).1 ≡ true) ↔ (Present (coins u) (spent b) × Distinct (spent b))
  connect_block_utxo_iff b u v =
      rw (connect-inputs b u) (spend_inputs_iff (all_inputs (after_coinbase b.transactions)) u v)

  -- Where connectBlockUTXO succeeds, the new set is the old one without the spent entries and with
  -- the outputs of the block, written in order; and its keys stay in order.
  pub connect_block_utxo_effect :
      (b : Block) (u : UtxoSet)
      → IsValid u
      → (connect_block_utxo c b u).1 ≡ true
      → (coins (connect_block_utxo c b u).0
          ≡ add_all (created b.transactions) (spend_all (spent b) (coins u)))
        × IsValid (connect_block_utxo c b u).0
  connect_block_utxo_effect b u v h =
      let ok = sym (connect-inputs b u) ∙ h in
      let s = spend_inputs-Spends (all_inputs (after_coinbase b.transactions)) u v in
      let (e, v') = put_transactions-add_all b.transactions (after_inputs b u).0 s.valid in
      rw (connect_ok b u ok) (e ∙ ap (add_all (created b.transactions)) (s.all_taken ok), v')

  -- Where connectBlockUTXO fails, the entries of the first `n` outpoints that the block spends are
  -- gone from the set all the same.
  pub connect_block_utxo_failure :
      (b : Block) (u : UtxoSet)
      → IsValid u
      → (connect_block_utxo c b u).1 ≡ false
      → (n : ℕ) × (coins (connect_block_utxo c b u).0 ≡ spend_all (take n (spent b)) (coins u))
        × IsValid (connect_block_utxo c b u).0
  connect_block_utxo_failure b u v h =
      let failed = sym (connect-inputs b u) ∙ h in
      let s = spend_inputs-Spends (all_inputs (after_coinbase b.transactions)) u v in
      (s.count, rw (connect_failed b u failed) s.taken, rw (connect_failed b u failed) s.valid)

  disconnect-spend_all :
      (txs : List Transaction) (u : UtxoSet)
      → IsValid u
      → (coins (disconnect_transactions c txs u) ≡ spend_all (keys (created txs)) (coins u))
        × IsValid (disconnect_transactions c txs u)
  unfolding disconnect_transactions
  disconnect-spend_all [] u v = (unfold spend_all in refl, v)
  disconnect-spend_all (tx ∷ txs) u v =
      let os = outputs_from (txid c tx) 0 tx.outputs in
      let (e, v') = spend_outputs-spend_all (txid c tx) 0 tx.outputs u v in
      let (e', v'') = disconnect-spend_all txs (spend_outputs (txid c tx) 0 tx.outputs u) v' in
      (
        e'
            ∙ ap (spend_all (keys (created txs))) e
            ∙ sym (spend_all-append (keys os) (keys (created txs)) (coins u))
            ∙ ap (λ ks. spend_all ks (coins u)) (sym (map-append _ os (created txs))),
        v'',
      )

  -- Where a block was connected, disconnecting it again takes its outputs out and restores nothing:
  -- the outpoints that it spent or created are empty, and the others are as before the block.
  pub disconnect_block_utxo_lem :
      (b : Block) (u : UtxoSet)
      → IsValid u
      → (connect_block_utxo c b u).1 ≡ true
      → coins (disconnect_block_utxo c b (connect_block_utxo c b u).0)
        ≡ spend_all (keys (created b.transactions)) (spend_all (spent b) (coins u))
  unfolding disconnect_block_utxo
  disconnect_block_utxo_lem b u v h =
      let (e, v') = connect_block_utxo_effect b u v h in
      let kvs = created b.transactions in
      (disconnect-spend_all b.transactions (connect_block_utxo c b u).0 v').0
      ∙ ap (spend_all (keys kvs)) e
      ∙ spend_all-add_all kvs (spend_all (spent b) (coins u))
