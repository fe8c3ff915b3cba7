-- ===== src/Consensus/Coins.antt =====
-- Lists of outpoints taken out of the unspent outputs, and of entries added: the specification that
-- connectBlockUTXO and disconnectBlockUTXO are compared with.
use shawncoin.Prelude.{◌≡◌, refl, sym, ap, ◌∙◌, List, [], ◌∷◌, ◌++◌, map, none, some, ◌⊎◌, inl, inr}
use mathlib.Core.Path.{fun_ext}
use shawncoin.Types.{OutPoint}
use shawncoin.Utxo.{Entry}
use shawncoin.Utxo.Laws.{Coins, update, update_self, update_ne, outpoint_discrete}

-- The entries of the outpoints taken out.
unfoldable pub spend_all : List OutPoint → Coins → Coins
spend_all [] f = f
spend_all (op ∷ ops) f = spend_all ops (update op none f)

-- Entries written one after the other.
unfoldable pub add_all : List (OutPoint × Entry) → Coins → Coins
add_all [] f = f
add_all ((op, e) ∷ kvs) f = add_all kvs (update op (some e) f)

abbrev pub keys : List (OutPoint × Entry) → List OutPoint
keys = map (λ p. p.0)

pub add_all-append :
    (xs ys : List (OutPoint × Entry)) (f : Coins) → add_all (xs ++ ys) f ≡ add_all ys (add_all xs f)
unfolding add_all
add_all-append [] ys f = refl
add_all-append ((op, e) ∷ xs) ys f = add_all-append xs ys (update op (some e) f)

pub spend_all-append :
    (xs ys : List OutPoint) (f : Coins) → spend_all (xs ++ ys) f ≡ spend_all ys (spend_all xs f)
unfolding spend_all
spend_all-append [] ys f = refl
spend_all-append (op ∷ xs) ys f = spend_all-append xs ys (update op none f)

-- Whether an outpoint is on a list.
abbrev pub In : OutPoint → List OutPoint → Type 0
In q [] = ⊥
In q (op ∷ ops) = (q ≡ op) ⊎ In q ops

pub in_dec : (q : OutPoint) (ops : List OutPoint) → Dec (In q ops)
in_dec q [] = no (λ h. h)
in_dec q (op ∷ ops) = elim (outpoint_discrete q op) [
  | yes e ↦ yes (inl e)
  | no ne ↦ elim (in_dec q ops) [
    | yes m ↦ yes (inr m)
    | no nm ↦ no (elim [ inl e ↦ ne e | inr m ↦ nm m ])
  ]
]

pub spend_all-none :
    (q : OutPoint) (ops : List OutPoint) (f : Coins) → f q ≡ none → spend_all ops f q ≡ none
unfolding spend_all
spend_all-none q [] f e = e
spend_all-none q (op ∷ ops) f e =
    spend_all-none q ops (update op none f) (elim (outpoint_discrete q op) [
      | yes p ↦ ap (update op none f) p ∙ update_self op none f
      | no ne ↦ update_ne op q none f ne ∙ e
    ])

pub spend_all-In :
    (q : OutPoint) (ops : List OutPoint) (f : Coins) → In q ops → spend_all ops f q ≡ none
unfolding spend_all
spend_all-In q [] f m = absurd m
spend_all-In q (op ∷ ops) f (inl e) =
    spend_all-none q ops (update op none f) (ap (update op none f) e ∙ update_self op none f)
spend_all-In q (op ∷ ops) f (inr m) = spend_all-In q ops (update op none f) m

pub spend_all-out :
    (q : OutPoint) (ops : List OutPoint) (f : Coins) → ¬ In q ops → spend_all ops f q ≡ f q
unfolding spend_all
spend_all-out q [] f m = refl
spend_all-out q (op ∷ ops) f m =
    spend_all-out q ops (update op none f) (λ h. m (inr h)) ∙ update_ne op q none f (λ e. m (inl e))

pub add_all-out :
    (q : OutPoint) (kvs : List (OutPoint × Entry)) (f : Coins)
    → ¬ In q (keys kvs)
    → add_all kvs f q ≡ f q
unfolding add_all
add_all-out q [] f m = refl
add_all-out q ((op, e) ∷ kvs) f m =
    add_all-out q kvs (update op (some e) f) (λ h. m (inr h))
    ∙ update_ne op q (some e) f (λ p. m (inl p))

-- What was added and is then taken out leaves the outpoints empty, whatever was there.
pub spend_all-add_all :
    (kvs : List (OutPoint × Entry)) (f : Coins)
    → spend_all (keys kvs) (add_all kvs f) ≡ spend_all (keys kvs) f
spend_all-add_all kvs f = fun_ext λ q. elim (in_dec q (keys kvs)) [
  | yes m ↦ spend_all-In q (keys kvs) (add_all kvs f) m ∙ sym (spend_all-In q (keys kvs) f m)
  | no n ↦
      spend_all-out q (keys kvs) (add_all kvs f) n
      ∙ add_all-out q kvs f n
      ∙ sym (spend_all-out q (keys kvs) f n)
]
