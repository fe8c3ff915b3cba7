-- ===== src/Rpc/Payment.antt =====
-- wallet.sendtoaddress: what is selected, what the transaction pays, and what becomes of a request
-- where no address is read back.
use shawncoin.Prelude.{
  ℕ, ◌+◌, ◌%◌, ◌^◌, ◌≤◌, ◌<◌, ◌≡◌, refl, sym, ap, subst, ◌∙◌, ◌⊎◌, inl, inr, List, [], ◌∷◌, ◌++◌,
  map, none, some, All, arith, ltb, leb, leb→le, if-case, Bool-cases,
}
use shawncoin.Wire.{Bytes}
use shawncoin.Types.{OutPoint, Transaction, TxInput}
use shawncoin.Crypto.{Digest}
use shawncoin.Transaction.{get_total_output, sum_outputs}
use shawncoin.Utxo.{Entry, UtxoSet, get}
use shawncoin.Keys.{Curve}
use shawncoin.Wallet.{Wallet}
use shawncoin.Blockchain.{Blockchain}
use shawncoin.Mempool.{Mempool}
use shawncoin.Json.{Json}
use shawncoin.Rpc.Sending.{select, spending_input, payment, change_of, with_change, paying_output}

abbrev pub amounts : List (OutPoint × Entry) → ℕ
amounts [] = 0
amounts ((op, entry) ∷ us) = entry.amount + amounts us

-- From the running total on, the total is below what is needed until the last entry is added.
abbrev pub IsWanted : ℕ → ℕ → List (OutPoint × Entry) → Type 0
IsWanted need total [] = Unit
IsWanted need total ((op, entry) ∷ []) = Unit
IsWanted need total ((op, entry) ∷ next ∷ us) =
    ((total + entry.amount) % 2 ^ 64 < need)
    × IsWanted need ((total + entry.amount) % 2 ^ 64) (next ∷ us)

cons-IsWanted :
    (need total : ℕ) (op : OutPoint) (entry : Entry) (us : List (OutPoint × Entry))
    → (total + entry.amount) % 2 ^ 64 < need
    → IsWanted need ((total + entry.amount) % 2 ^ 64) us
    → IsWanted need total ((op, entry) ∷ us)
cons-IsWanted need total op entry [] lt h = tt
cons-IsWanted need total op entry (next ∷ us) lt h = (lt, h)

-- What a selection from a running total on is: the entries from the first on that are needed, and
-- their amounts, on top of that total, modulo 2 ^ 64.
abbrev pub IsSelection : ℕ → ℕ → List (OutPoint × Entry) → List (OutPoint × Entry) × ℕ → Type 0
IsSelection need total us r =
    (r.1 ≡ (total + amounts r.0) % 2 ^ 64)
    × ((need ≤ r.1) ⊎ (r.0 ≡ us))
    × IsWanted need total r.0
    × ((rest : List (OutPoint × Entry)) × (us ≡ r.0 ++ rest))

-- From a running total below 2 ^ 64 on: the total that the selection reports is the given one and the
-- amounts of what is selected, modulo 2 ^ 64; either it is at least what is needed or everything is
-- selected; what is selected is the first entries, in order; and before the last of them is added the
-- total is below what is needed, so that the selection stops at the first entry that reaches it.
pub select_lem :
    (need total : ℕ) (us : List (OutPoint × Entry))
    → total < 2 ^ 64
    → IsSelection need total us (select need total us)
unfolding select
select_lem need total [] lt = (omega arith, inr refl, tt, ([], refl))
select_lem need total ((op, entry) ∷ us) lt =
    let now = (total + entry.amount) % 2 ^ 64 in
    let (sum, enough, wanted, (rest, split)) = select_lem need now us (omega arith) in
    if-case (IsSelection need total ((op, entry) ∷ us)) (leb need now)
      (λ e. (omega arith, inl (leb→le need now e), tt, (us, refl)))
      (λ e. (
        omega arith,
        elim enough [ inl le ↦ inl le | inr all ↦ inr (ap (◌∷◌ (op, entry)) all) ],
        cons-IsWanted need total op entry _ (ground arith) wanted,
        (rest, ap (◌∷◌ (op, entry)) split),
      ))

-- The amounts of the outputs that inputs spend, as the set has them.
pub input_value : UtxoSet → List TxInput → ℕ
input_value u [] = 0
input_value u (i ∷ is) =
    elim (get (record { hash = i.prev_tx_hash; index = i.output_index }) u) [
      | none ↦ 0
      | some entry ↦ entry.amount
    ]
    + input_value u is

-- Every entry is the one that the set has at its outpoint.
abbrev pub IsUnspent : UtxoSet → List (OutPoint × Entry) → Type 0
IsUnspent u us = All (λ coin. get coin.0 u ≡ some coin.1) us

input_value-spending :
    (u : UtxoSet) (us : List (OutPoint × Entry))
    → IsUnspent u us
    → input_value u (map spending_input us) ≡ amounts us
unfolding input_value spending_input
input_value-spending u [] h = refl
input_value-spending u ((op, entry) ∷ us) (e, h) =
    rw (input_value, spending_input, e, input_value-spending u us h) refl

prefix-IsUnspent :
    (u : UtxoSet) (us rest : List (OutPoint × Entry)) → IsUnspent u (us ++ rest) → IsUnspent u us
prefix-IsUnspent u [] rest h = tt
prefix-IsUnspent u (coin ∷ us) rest (e, h) = (e, prefix-IsUnspent u us rest h)

amounts_prefix : (us rest : List (OutPoint × Entry)) → amounts us ≤ amounts (us ++ rest)
amounts_prefix [] rest = omega arith
amounts_prefix ((op, entry) ∷ us) rest = omega (arith, amounts_prefix us rest)

change_of_lem :
    (total amount fee : ℕ)
    → amount + fee ≤ total
    → total < 2 ^ 64
    → change_of total amount fee + amount + fee ≡ total
unfolding change_of
change_of_lem total amount fee le lt = omega arith

module _ (c : Digest) (e : Curve) where
  -- The payment of what is selected of the given outputs, before it is signed.
  pub spending : List (OutPoint × Entry) → Bytes → ℕ → ℕ → Wallet → Transaction
  spending us dest amount fee w =
      let (selected, total) = select ((amount + fee) % 2 ^ 64) 0 us in
      payment selected (with_change c e dest amount (change_of total amount fee) w).0

  outputs_total :
      (selected : List (OutPoint × Entry)) (dest : Bytes) (amount fee total : ℕ) (w : Wallet)
      → amount + fee ≤ total
      → total < 2 ^ 64
      → get_total_output
            (payment selected (with_change c e dest amount (change_of total amount fee) w).0)
          + fee
        ≡ total
  unfolding payment with_change get_total_output sum_outputs paying_output
  outputs_total selected dest amount fee total w le lt =
      let s = change_of_lem total amount fee le lt in
      elim (Bool-cases (ltb 0 (change_of total amount fee))) [
        | inl t ↦ rw t (omega (arith, s))
        | inr f ↦ rw f (ground (arith, s))
      ]

  -- Of unspent outputs whose amounts come to less than 2 ^ 64, where the amount and the fee do not
  -- overflow and what the selection takes reaches them: the outputs of the payment that spends it, with
  -- the change, and the fee come to exactly what the inputs of the payment are worth in the set of
  -- unspent outputs.
  pub payment-total :
      (u : UtxoSet) (us : List (OutPoint × Entry)) (dest : Bytes) (amount fee : ℕ) (w : Wallet)
      → IsUnspent u us
      → amounts us < 2 ^ 64
      → amount + fee < 2 ^ 64
      → amount + fee ≤ (select ((amount + fee) % 2 ^ 64) 0 us).1
      → get_total_output (spending us dest amount fee w) + fee
        ≡ input_value u (spending us dest amount fee w).inputs
  unfolding spending payment
  payment-total u us dest amount fee w h lt fits le =
      let need = (amount + fee) % 2 ^ 64 in
      let (sum, enough, wanted, (rest, split)) = select_lem need 0 us (omega arith) in
      let selected = (select need 0 us).0 in
      let small : amounts selected < 2 ^ 64 =
        omega (arith, lt, amounts_prefix selected rest, ap amounts split) in
      let worth : input_value u (map spending_input selected) ≡ amounts selected =
        input_value-spending u selected
          (prefix-IsUnspent u selected rest (subst (IsUnspent u) split h)) in
      outputs_total selected dest amount fee (select need 0 us).1 w le (omega (arith, sum))
      ∙ sum
      ∙ omega (arith, small)
      ∙ sym worth
