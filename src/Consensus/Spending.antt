-- ===== src/Consensus/Spending.antt =====
-- The first half of connectBlockUTXO: which lists of inputs are spent to the end.
use shawncoin.Prelude.{
  ℕ, suc, ◌≡◌, ◌≢◌, ◌↔◌, refl, sym, ap, ◌∙◌, subst, Bool, true, false, List, [], ◌∷◌, ◌++◌, map,
  take, none, is_some, if◌then◌else◌, All, Bool-cases, inl, inr,
}
use shawncoin.Types.{Transaction, TxInput, OutPoint}
use shawncoin.Utxo.{UtxoSet, has, spend}
use shawncoin.Utxo.Laws.{
  Coins, coins, IsValid, update, update_self, update_ne, outpoint_discrete, coins-spend,
  spend-IsValid, has-coins,
}
use shawncoin.Consensus.Coins.{spend_all}
use shawncoin.Consensus.{input_outpoint, spend_inputs, spend_transactions}

-- The outpoints that inputs name, and those of the inputs of all transactions in order.
abbrev pub spent_by : List TxInput → List OutPoint
spent_by = map input_outpoint

abbrev pub all_inputs : List Transaction → List TxInput
all_inputs [] = []
all_inputs (tx ∷ txs) = tx.inputs ++ all_inputs txs

-- Each outpoint has an entry; no outpoint stands twice.
abbrev pub Present : Coins → List OutPoint → Type 0
Present f = All (λ op. is_some (f op) ≡ true)

abbrev pub Without : OutPoint → List OutPoint → Type 0
Without op = All (λ q. q ≢ op)

abbrev pub Distinct : List OutPoint → Type 0
Distinct [] = Unit {0}
Distinct (op ∷ ops) = Without op ops × Distinct ops

present_update :
    (op q : OutPoint) (f : Coins)
    → (is_some (update op none f q) ≡ true) ↔ ((is_some (f q) ≡ true) × (q ≢ op))
present_update op q f = elim (outpoint_discrete q op) [
  | yes e ↦
      (λ h. absurd (cc (h, ap (update op none f) e, update_self op none f)), λ h. absurd (h.1 e))
  | no ne ↦ (λ h. (rw (update_ne op q none f ne) at h, ne), λ h. rw (update_ne op q none f ne) h.0)
]

Present-Without :
    (op : OutPoint) (ops : List OutPoint) (f : Coins)
    → Present (update op none f) ops ↔ (Present f ops × Without op ops)
Present-Without op [] f = (λ h. (tt, tt), λ h. tt)
Present-Without op (q ∷ ops) f =
    let head = present_update op q f in
    let rest = Present-Without op ops f in
    (
      λ h. let (a, b) = head.0 h.0 in let (c, d) = rest.0 h.1 in ((a, c), (b, d)),
      λ h. (head.1 (h.0.0, h.1.0), rest.1 (h.0.1, h.1.1)),
    )

spend_inputs-append :
    (is js : List TxInput) (u : UtxoSet)
    → spend_inputs (is ++ js) u ≡ (
        if (spend_inputs is u).1
        then spend_inputs js (spend_inputs is u).0
        else ((spend_inputs is u).0, false))
unfolding spend_inputs
spend_inputs-append [] js u = refl
spend_inputs-append (i ∷ is) js u = elim (Bool-cases (has (input_outpoint i) u)) [
  | inl there ↦ rw there (spend_inputs-append is js (spend (input_outpoint i) u).0)
  | inr missing ↦ rw missing
]

-- The nested loops go through the inputs of all transactions in order.
pub spend_transactions-inputs :
    (txs : List Transaction) (u : UtxoSet)
    → spend_transactions txs u ≡ spend_inputs (all_inputs txs) u
unfolding spend_transactions
spend_transactions-inputs [] u = unfold spend_inputs in refl
spend_transactions-inputs (tx ∷ txs) u = rw (
  spend_inputs-append tx.inputs (all_inputs txs) u,
  spend_transactions-inputs txs (spend_inputs tx.inputs u).0,
)

-- The inputs are all spent exactly where each outpoint has an entry and none is named twice.
pub spend_inputs_iff :
    (is : List TxInput) (u : UtxoSet)
    → IsValid u
    → ((spend_inputs is u).1 ≡ true) ↔ (Present (coins u) (spent_by is) × Distinct (spent_by is))
unfolding spend_inputs
spend_inputs_iff [] u v = (λ h. (tt, tt), λ h. refl)
spend_inputs_iff (i ∷ is) u v =
    let op = input_outpoint i in
    let u' = (spend op u).0 in
    let taken = coins-spend op u v in
    let rest = spend_inputs_iff is u' (spend-IsValid op u v) in
    let apart = Present-Without op (spent_by is) (coins u) in
    elim (Bool-cases (has op u)) [
      | inl there ↦ (
        λ h.
            let (p, d) = rest.0 (rw there at h) in
            let (a, b) = apart.0 (subst (λ f. Present f (spent_by is)) taken p) in
            ((sym (has-coins op u) ∙ there, a), (b, d)),
        λ h. rw there (
            rest.1
              (subst (λ f. Present f (spent_by is)) (sym taken) (apart.1 (h.0.1, h.1.0)), h.1.1)),
      )
      | inr missing ↦
          (λ h. absurd (cc (rw missing at h)), λ h. absurd (cc (missing, has-coins op u, h.0.0)))
    ]

-- How far the loop comes: it spends the first `n` outpoints, all of them where it succeeds.
pub record Spends (is : List TxInput) (u : UtxoSet) (r : UtxoSet × Bool) : Type 0 where
  pub count : ℕ
  pub taken : coins r.0 ≡ spend_all (take count (spent_by is)) (coins u)
  pub all_taken : r.1 ≡ true → coins r.0 ≡ spend_all (spent_by is) (coins u)
  pub valid : IsValid r.0

pub spend_inputs-Spends :
    (is : List TxInput) (u : UtxoSet) → IsValid u → Spends is u (spend_inputs is u)
unfolding spend_inputs spend_all
spend_inputs-Spends [] u v = record { count = 0; taken = refl; all_taken = λ _. refl; valid = v }
spend_inputs-Spends (i ∷ is) u v =
    let op = input_outpoint i in
    let u' = (spend op u).0 in
    let e = coins-spend op u v in
    let rest = spend_inputs-Spends is u' (spend-IsValid op u v) in
    elim (Bool-cases (has op u)) [
      | inl there ↦ rw there (record {
        count = suc rest.count;
        taken = rest.taken ∙ ap (spend_all (take rest.count (spent_by is))) e;
        all_taken = λ h. rest.all_taken h ∙ ap (spend_all (spent_by is)) e;
        valid = rest.valid;
      })
      | inr missing ↦
          rw missing (record { count = 0; taken = refl; all_taken = λ h. absurd (cc h); valid = v })
    ]
