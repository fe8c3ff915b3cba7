-- ===== src/Blockchain/Atomicity.antt =====
-- What connectBlock does with a block that passes its checks, and so reaches connectBlockUTXO.
use shawncoin.Prelude.{
  ℕ, ◌≡◌, ◌↔◌, refl, sym, ap, ◌∙◌, subst, true, false, List, [], ◌∷◌, ◌++◌, none, is_some,
  Bool-cases, and_left, and_right, inl, inr,
}
use shawncoin.Types.{Block, TxInput, Transaction}
use shawncoin.Crypto.{Digest}
use shawncoin.Utxo.{UtxoSet, has, spend}
use shawncoin.Utxo.Laws.{Coins, coins, IsValid, has-coins, coins-spend, spend-IsValid, update_self}
use shawncoin.Consensus.{
  input_outpoint, after_coinbase, validate_block_structure, validate_transaction_structure,
  spend_inputs, spend_transactions, connect_block_utxo,
}
use shawncoin.Consensus.Coins.{spend_all-none}
use shawncoin.Consensus.Spending.{
  spend_inputs-Spends, spent_by, all_inputs, Present, Distinct, spend_transactions-inputs,
}
use shawncoin.Consensus.Effect.{spent, connect_block_utxo_iff}
use shawncoin.Blockchain.{
  Blockchain, check_difficulty, check_transactions, inputs_present, connect_block,
}

-- The first input of a list is spent where it is there, whatever follows.
first_gone :
    (i : TxInput) (is : List TxInput) (u : UtxoSet)
    → IsValid u
    → has (input_outpoint i) u ≡ true
    → coins (spend_inputs (i ∷ is) u).0 (input_outpoint i) ≡ none
unfolding spend_inputs
first_gone i is u v there =
    let op = input_outpoint i in
    let s = spend_inputs-Spends is (spend op u).0 (spend-IsValid op u v) in
    rw there (
      ap (λ f. f op) s.taken
      ∙ spend_all-none op _ _ (ap (λ f. f op) (coins-spend op u v) ∙ update_self op none (coins u)))

Present-append :
    (f : Coins) (is js : List TxInput)
    → Present f (spent_by is)
    → Present f (spent_by js)
    → Present f (spent_by (is ++ js))
Present-append f [] js h k = k
Present-append f (i ∷ is) js h k = (h.0, Present-append f is js h.1 k)

inputs_present-Present :
    (is : List TxInput) (u : UtxoSet) → inputs_present is u ≡ true → Present (coins u) (spent_by is)
unfolding inputs_present
inputs_present-Present [] u e = tt
inputs_present-Present (i ∷ is) u e = (
  sym (has-coins (input_outpoint i) u) ∙ and_left _ _ e,
  inputs_present-Present is u (and_right (has (input_outpoint i) u) _ e),
)

check_transactions-Present :
    (txs : List Transaction) (u : UtxoSet)
    → check_transactions txs u ≡ true
    → Present (coins u) (spent_by (all_inputs txs))
unfolding check_transactions
check_transactions-Present [] u e = tt
check_transactions-Present (tx ∷ txs) u e = elim (Bool-cases (validate_transaction_structure tx)) [
  | inr bad ↦ absurd (cc (rw bad at e))
  | inl ok ↦ elim (Bool-cases (inputs_present tx.inputs u)) [
    | inr missing ↦ absurd (cc (rw (ok, missing) at e))
    | inl there ↦
        Present-append (coins u) tx.inputs (all_inputs txs)
          (inputs_present-Present tx.inputs u there)
          (check_transactions-Present txs u (rw (ok, there) at e))
  ]
]

module _ (c : Digest) where
  -- The checks of connectBlock before it touches the set.
  abbrev pub Checked : ℕ → Block → Blockchain → Type 0
  Checked now b chain =
      (validate_block_structure c now b ≡ true)
      × (check_difficulty chain b.header ≡ true)
      × (check_transactions (after_coinbase b.transactions) chain.utxo ≡ true)

  Checked-connect :
      (now : ℕ) (b : Block) (h : ℕ) (chain : Blockchain)
      → Checked now b chain
      → ((connect_block c now b h chain).1 ≡ (connect_block_utxo c b chain.utxo).1)
        × ((connect_block c now b h chain).1 ≡ false
            → (connect_block c now b h chain).0
              ≡ record chain { utxo = (connect_block_utxo c b chain.utxo).0 })
  unfolding connect_block
  Checked-connect now b h chain (e1, e2, e3) =
      rw (e1, e2, e3)
        (elim (Bool-cases (connect_block_utxo c b chain.utxo).1) [
          | inl ok ↦ rw ok (refl, λ e. absurd (cc e))
          | inr failed ↦ rw failed (refl, λ e. refl)
        ])

  -- After its checks, connectBlock accepts a block exactly where no outpoint is spent twice in it.
  pub connect_block_iff :
      (now : ℕ) (b : Block) (h : ℕ) (chain : Blockchain)
      → IsValid chain.utxo
      → Checked now b chain
      → ((connect_block c now b h chain).1 ≡ true) ↔ Distinct (spent c b)
  connect_block_iff now b h chain v ok =
      let same = (Checked-connect now b h chain ok).0 in
      let (to, from) = connect_block_utxo_iff c b chain.utxo v in
      let present = check_transactions-Present (after_coinbase b.transactions) chain.utxo ok.2 in
      (λ e. (to (sym same ∙ e)).1, λ d. same ∙ from (present, d))

  gone_utxo :
      (b : Block) (u : UtxoSet) (i : TxInput) (is : List TxInput)
      → IsValid u
      → all_inputs (after_coinbase b.transactions) ≡ i ∷ is
      → has (input_outpoint i) u ≡ true
      → (connect_block_utxo c b u).1 ≡ false
      → coins (connect_block_utxo c b u).0 (input_outpoint i) ≡ none
  unfolding connect_block_utxo
  gone_utxo b u i is v e there failed =
      let same =
        spend_transactions-inputs (after_coinbase b.transactions) u
        ∙ ap (λ js. spend_inputs js u) e in
      elim (Bool-cases (spend_transactions (after_coinbase b.transactions) u).1) [
        | inl ok ↦ absurd (cc (rw ok at failed))
        | inr bad ↦ rw bad (ap (λ r. coins r.0 (input_outpoint i)) same ∙ first_gone i is u v there)
      ]

  -- A block that passes the checks and spends an outpoint twice is turned down, and the chain keeps
  -- its tip; yet the output that the block's first input names, which was there, is gone.
  pub connect_block-leak :
      (now : ℕ) (b : Block) (h : ℕ) (chain : Blockchain) (i : TxInput) (is : List TxInput)
      → IsValid chain.utxo
      → Checked now b chain
      → all_inputs (after_coinbase b.transactions) ≡ i ∷ is
      → ¬ Distinct (spent c b)
      → ((connect_block c now b h chain).1 ≡ false)
        × ((connect_block c now b h chain).0.best_block_hash ≡ chain.best_block_hash)
        × (is_some (coins chain.utxo (input_outpoint i)) ≡ true)
        × (coins (connect_block c now b h chain).0.utxo (input_outpoint i) ≡ none)
  connect_block-leak now b h chain i is v ok e twice =
      let (same, rejected) = Checked-connect now b h chain ok in
      let (to, from) = connect_block_iff now b h chain v ok in
      let failed : (connect_block c now b h chain).1 ≡ false =
        elim (Bool-cases (connect_block c now b h chain).1) [
          | inl e' ↦ absurd (twice (to e'))
          | inr e' ↦ e'
        ] in
      let all = check_transactions-Present (after_coinbase b.transactions) chain.utxo ok.2 in
      let first = (subst (λ js. Present (coins chain.utxo) (spent_by js)) e all).0 in
      (
        failed,
        ap (λ k. k.best_block_hash) (rejected failed),
        first,
        ap (λ k. coins k.utxo (input_outpoint i)) (rejected failed)
            ∙ gone_utxo b chain.utxo i is v e (has-coins (input_outpoint i) chain.utxo ∙ first)
                (sym same ∙ failed),
      )
