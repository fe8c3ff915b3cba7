-- ===== src/Consensus/Outputs.antt =====
-- What validateTransactionStructure accepts.
use shawncoin.Prelude.{
  ℕ, ◌+◌, ◌%◌, ◌^◌, ◌≤◌, ◌<◌, ◌≡◌, ◌≢◌, ◌↔◌, refl, ◌∙◌, Bool, true, false, not, ◌||◌, List, [], ◌∷◌,
  if◌then◌else◌, All, arith,
}
use native.Mathlib.Nat.{zero-add}
use shawncoin.Types.{Transaction, TxOutput, max_money}
use shawncoin.Transaction.{is_coinbase, get_total_output, sum_outputs}
use shawncoin.Consensus.{validate_outputs, validate_transaction_structure, is_empty}

-- The sum of the amounts as a number.
abbrev pub amounts : List TxOutput → ℕ
amounts [] = 0
amounts (o ∷ os) = o.amount + amounts os

abbrev pub IsAmount : TxOutput → Type 0
IsAmount o = o.amount ≤ max_money

-- What the loop tests, from a sum so far; a sum that wraps is refused.
accepted :
    (ok : Bool) (s : ℕ) (os : List TxOutput)
    → s < 2 ^ 64
    → validate_outputs ok s os ≡ true
    → All IsAmount os × (s + amounts os ≤ max_money) × (ok ≡ true)
unfolding validate_outputs
accepted ok s [] h e = ground arith
accepted ok s (o ∷ os) h e = ground (arith, accepted ok ((s + o.amount) % 2 ^ 64) os (omega arith))

acceptable :
    (ok : Bool) (s : ℕ) (os : List TxOutput)
    → All IsAmount os
    → s + amounts os ≤ max_money
    → ok ≡ true
    → validate_outputs ok s os ≡ true
unfolding validate_outputs
acceptable ok s [] a h e = ground arith
acceptable ok s (o ∷ os) (ao, a) h e =
    let small : (s + o.amount) % 2 ^ 64 ≡ s + o.amount = omega arith in
    rw small (ground (arith, acceptable ok (s + o.amount) os a (omega arith) e))

sum_outputs-amounts :
    (s : ℕ) (os : List TxOutput) → s + amounts os < 2 ^ 64 → sum_outputs s os ≡ s + amounts os
unfolding sum_outputs
sum_outputs-amounts s [] h = omega arith
sum_outputs-amounts s (o ∷ os) h =
    let small : (s + o.amount) % 2 ^ 64 ≡ s + o.amount = omega arith in
    rw small (omega (arith, sum_outputs-amounts (s + o.amount) os (omega arith)))

-- The test for an output before the loop, and the loop.
outputs_iff :
    (ok : Bool) (os : List TxOutput)
    → ((if is_empty os then false else validate_outputs ok 0 os) ≡ true)
      ↔ ((os ≢ []) × All IsAmount os × (amounts os ≤ max_money) × (ok ≡ true))
unfolding is_empty
outputs_iff ok [] = (λ e. absurd (cc e), λ h. absurd (h.0 refl))
outputs_iff ok (o ∷ os) = (
  λ e. let (a, s, k) = accepted ok 0 (o ∷ os) (omega arith) e in ((λ n. cc), a, omega arith, k),
  λ h. acceptable ok 0 (o ∷ os) h.1 (omega arith) h.3,
)

-- validateTransactionStructure accepts a transaction exactly where it has an output, no amount and
-- no sum of amounts (as numbers) is above max_money, and it is a coinbase or has an input.
pub validate_transaction_structure_iff :
    (tx : Transaction)
    → (validate_transaction_structure tx ≡ true) ↔ (
        (tx.outputs ≢ [])
        × All IsAmount tx.outputs
        × (amounts tx.outputs ≤ max_money)
        × ((is_coinbase tx || not (is_empty tx.inputs)) ≡ true))
unfolding validate_transaction_structure
validate_transaction_structure_iff tx =
    outputs_iff (is_coinbase tx || not (is_empty tx.inputs)) tx.outputs

-- The total of an accepted transaction is the sum of its amounts, with no wrap-around.
pub get_total_output-accepted :
    (tx : Transaction)
    → validate_transaction_structure tx ≡ true
    → get_total_output tx ≡ amounts tx.outputs
unfolding get_total_output
get_total_output-accepted tx e =
    let h = (validate_transaction_structure_iff tx).0 e in
    sum_outputs-amounts 0 tx.outputs (omega arith) ∙ zero-add (amounts tx.outputs)
