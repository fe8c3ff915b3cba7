-- ===== src/Utxo/Laws.antt =====
-- The unspent outputs as a function from outpoints to entries.
use shawncoin.Prelude.{ℕ, ◌≡◌, ◌≢◌, refl, sym, ap, ◌∙◌, Option, none, some, is_some}
use mathlib.Core.Path.{fun_ext}
use native.Mathlib.Decide.{ℕ_discrete}
use shawncoin.Map.{find, contains}
use shawncoin.Map.Keys.{outpoint_order}
use shawncoin.Map.Laws.{
  IsSorted, find-insert_self, find-insert_ne, insert-IsSorted, find-erase_self, find-erase_ne,
  erase-IsSorted,
}
use shawncoin.Types.{OutPoint, Script}
use shawncoin.Utxo.{Entry, UtxoSet, put, get, spend, has, clear}

-- The specification: a partial function, with an outpoint's value replaced.
abbrev pub Coins : Type 0
Coins = OutPoint → Option Entry

pub outpoint_discrete : Discrete OutPoint
outpoint_discrete = hlevel ℕ_discrete

pub update : OutPoint → Option Entry → Coins → Coins
update out e f out' = elim (outpoint_discrete out' out) [ yes _ ↦ e | no _ ↦ f out' ]

abbrev pub coins : UtxoSet → Coins
coins u out = get out u

-- The keys of the set are in strict order, as those of a std::map are.
abbrev pub IsValid : UtxoSet → Type 0
IsValid u = IsSorted u

pub update_self : (out : OutPoint) (e : Option Entry) (f : Coins) → update out e f out ≡ e
unfolding update
update_self out e f =
    elim (outpoint_discrete out out)
      as (λ d. (elim d as (λ _. Option Entry) [ yes _ ↦ e | no _ ↦ f out ]) ≡ e) [
        | yes _ ↦ refl
        | no ne ↦ absurd (ne refl)
      ]

pub update_ne : (out j : OutPoint) (e : Option Entry) (f : Coins) → j ≢ out → update out e f j ≡ f j
unfolding update
update_ne out j e f h =
    elim (outpoint_discrete j out)
      as (λ d. (elim d as (λ _. Option Entry) [ yes _ ↦ e | no _ ↦ f j ]) ≡ f j) [
        | yes p ↦ absurd (h p)
        | no _ ↦ refl
      ]

-- A function that has the value at the outpoint, and the old values elsewhere, is the update.
update_unique :
    (out : OutPoint) (e : Option Entry) (f g : Coins)
    → g out ≡ e
    → ((j : OutPoint) → j ≢ out → g j ≡ f j)
    → g ≡ update out e f
update_unique out e f g hit rest = fun_ext λ j. elim (outpoint_discrete j out) [
  | yes p ↦ ap g p ∙ hit ∙ sym (ap (update out e f) p ∙ update_self out e f)
  | no ne ↦ rest j ne ∙ sym (update_ne out j e f ne)
]

pub coins-put :
    (out : OutPoint) (amount : ℕ) (script : Script) (u : UtxoSet)
    → coins (put out amount script u)
      ≡ update out (some (record { amount = amount; script_pubkey = script })) (coins u)
unfolding put get
coins-put out amount script u =
    update_unique out _ _ _ (find-insert_self out _ u) (λ j ne. find-insert_ne j out _ u ne)

pub coins-spend :
    (out : OutPoint) (u : UtxoSet) → IsValid u → coins (spend out u).0 ≡ update out none (coins u)
unfolding spend get
coins-spend out u v =
    update_unique out _ _ _ (find-erase_self out u v) (λ j ne. find-erase_ne j out u v ne)

pub put-IsValid :
    (out : OutPoint) (amount : ℕ) (script : Script) (u : UtxoSet)
    → IsValid u
    → IsValid (put out amount script u)
unfolding put
put-IsValid out amount script u v = insert-IsSorted out _ u v

pub spend-IsValid : (out : OutPoint) (u : UtxoSet) → IsValid u → IsValid (spend out u).0
unfolding spend
spend-IsValid out u v = erase-IsSorted out u v

pub has-coins : (out : OutPoint) (u : UtxoSet) → has out u ≡ is_some (coins u out)
unfolding has get contains
has-coins out u = refl

-- put, spend, has and clear on a valid set are the update at the outpoint, its removal, the test
-- for an entry, and the empty function; spend reports whether there was an entry, and the set stays
-- valid.
pub utxo_refines :
    (out : OutPoint) (amount : ℕ) (script : Script) (u : UtxoSet)
    → IsValid u
    → (coins (put out amount script u)
        ≡ update out (some (record { amount = amount; script_pubkey = script })) (coins u))
      × (coins (spend out u).0 ≡ update out none (coins u))
      × ((spend out u).1 ≡ is_some (coins u out))
      × (has out u ≡ is_some (coins u out))
      × (coins (clear u) ≡ λ out'. none)
      × IsValid (put out amount script u)
      × IsValid (spend out u).0
utxo_refines out amount script u v = (
  coins-put out amount script u,
  coins-spend out u v,
  unfold spend get contains in refl,
  has-coins out u,
  unfold clear get find in refl,
  put-IsValid out amount script u v,
  spend-IsValid out u v,
)
