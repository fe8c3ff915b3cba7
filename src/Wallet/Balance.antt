-- ===== src/Wallet/Balance.antt =====
-- The balance of a wallet, and what becomes of it where the addresses are not read back.
use shawncoin.Prelude.{
  ℕ, zero, suc, ◌+◌, ◌%◌, ◌^◌, ◌≡◌, refl, sym, ap, subst, ◌∙◌, inl, inr, Bool, false, none, some,
  List, [], ◌∷◌, length, All, ◌==◌, arith, if◌then◌else◌, Option-cases, Bool-cases, if-case,
}
use shawncoin.Wire.{Bytes}
use shawncoin.Types.{OutPoint, Transaction, TxInput}
use shawncoin.Crypto.{Digest}
use shawncoin.Utxo.{Entry, UtxoSet, snapshot, get}
use shawncoin.Keys.{Curve}
use shawncoin.Map.Entries.{All-insert}
use shawncoin.Map.Keys.{bytes_order}
use shawncoin.Address.{address_to_pub_key_hash}
use shawncoin.Wallet.HdWallet.{derive_address}
use shawncoin.Wallet.Ownership.{
  IsOwned, IsTotal, no_output, own, foreign, script-IsOwned, other_script, other_hash,
}
use shawncoin.Wallet.{
  Wallet, p2pkh_hash, stores_hash, add_balance, get_balance, generate_new_address, find_address,
  find_key, sign_input, sign_inputs, sign_transaction, signature_hash,
}

-- What the loop adds for an entry, and for all of them, without overflow.
share : List (Bytes × Bytes) → Entry → ℕ
share keys entry = elim (p2pkh_hash entry.script_pubkey) [
  | none ↦ 0
  | some h ↦ if stores_hash h keys then entry.amount else 0
]

owned_total : List (Bytes × Bytes) → UtxoSet → ℕ
unfolding share
owned_total keys [] = 0
owned_total keys ((op, entry) ∷ u) = share keys entry + owned_total keys u

add_step :
    (keys : List (Bytes × Bytes)) (sum : ℕ) (op : OutPoint) (entry : Entry) (u : UtxoSet)
    → sum % 2 ^ 64 ≡ sum
    → add_balance keys sum ((op, entry) ∷ u)
      ≡ add_balance keys ((sum + share keys entry) % 2 ^ 64) u
unfolding add_balance share
add_step keys sum op entry u lt = elim (Option-cases (p2pkh_hash entry.script_pubkey)) [
  | inl e ↦ rw (add_balance, share, e) (ap (λ s. add_balance keys s u) (omega (arith, lt)))
  | inr (h, e) ↦ elim (Bool-cases (stores_hash h keys)) [
    | inl t ↦ rw (add_balance, share, e, t) refl
    | inr f ↦ rw (add_balance, share, e, f) (ap (λ s. add_balance keys s u) (omega (arith, lt)))
  ]
]

add_balance_lem :
    (keys : List (Bytes × Bytes)) (sum : ℕ) (u : UtxoSet)
    → sum % 2 ^ 64 ≡ sum
    → add_balance keys sum u ≡ (sum + owned_total keys u) % 2 ^ 64
unfolding owned_total
add_balance_lem keys sum [] lt = unfold add_balance in omega (arith, lt)
add_balance_lem keys sum ((op, entry) ∷ u) lt =
    add_step keys sum op entry u lt
    ∙ add_balance_lem keys ((sum + share keys entry) % 2 ^ 64) u (omega arith)
    ∙ omega arith

balance_shares : (w : Wallet) (u : UtxoSet) → get_balance (some u) w ≡ owned_total w.keys u % 2 ^ 64
unfolding get_balance snapshot
balance_shares w u = add_balance_lem w.keys 0 u refl ∙ ap (λ n. n % 2 ^ 64) (omega arith)

owned_total-IsTotal :
    (keys : List (Bytes × Bytes)) (u : UtxoSet) → IsTotal keys u (owned_total keys u)
unfolding owned_total share
owned_total-IsTotal keys [] = no_output
owned_total-IsTotal keys ((op, entry) ∷ u) =
    let rest = owned_total-IsTotal keys u in
    let same : owned_total keys u ≡ 0 + owned_total keys u = omega arith in
    let skip : ¬ IsOwned keys entry.script_pubkey
        → IsTotal keys ((op, entry) ∷ u) (0 + owned_total keys u) =
      λ other. subst (IsTotal keys ((op, entry) ∷ u)) same (foreign other rest) in
    elim (Option-cases (p2pkh_hash entry.script_pubkey)) [
      | inl e ↦ rw (owned_total, share, e) (skip (other_script keys entry.script_pubkey e))
      | inr (h, e) ↦ elim (Bool-cases (stores_hash h keys)) [
        | inl t ↦
            rw (owned_total, share, e, t) (own (script-IsOwned keys entry.script_pubkey h e t) rest)
        | inr f ↦ rw (owned_total, share, e, f) (skip (other_hash keys entry.script_pubkey h e f))
      ]
    ]

-- The balance is, modulo 2 ^ 64, the sum of the amounts of exactly those outputs whose script is the
-- standard one that pays to a hash of 20 bytes that the wallet stores.
pub get_balance-IsTotal :
    (w : Wallet) (u : UtxoSet)
    → (total : ℕ) × IsTotal w.keys u total × (get_balance (some u) w ≡ total % 2 ^ 64)
get_balance-IsTotal w u = (owned_total w.keys u, owned_total-IsTotal w.keys u, balance_shares w u)

-- No stored hash was read back from its address.
abbrev pub IsUnread : Wallet → Type 0
IsUnread w = All (λ entry. entry.1 ≡ []) w.keys

stores_hash-IsUnread :
    (h : Bytes) (keys : List (Bytes × Bytes))
    → All (λ entry. entry.1 ≡ []) keys
    → stores_hash h keys ≡ false
unfolding stores_hash
stores_hash-IsUnread h [] n = refl
stores_hash-IsUnread h ((address, our) ∷ keys) (e, n) = rw (e, stores_hash-IsUnread h keys n) refl

owned_total-IsUnread :
    (keys : List (Bytes × Bytes)) (u : UtxoSet)
    → All (λ entry. entry.1 ≡ []) keys
    → owned_total keys u ≡ 0
unfolding owned_total share
owned_total-IsUnread keys [] n = refl
owned_total-IsUnread keys ((op, entry) ∷ u) n =
    elim (Option-cases (p2pkh_hash entry.script_pubkey)) [
      | inl e ↦ rw (owned_total, share, e) (omega (arith, owned_total-IsUnread keys u n))
      | inr (h, e) ↦
          rw (owned_total, share, e, stores_hash-IsUnread h keys n)
            (omega (arith, owned_total-IsUnread keys u n))
    ]

module _ (c : Digest) (e : Curve) where
  -- No address of the seed is read back as a hash.
  abbrev pub Unread : Bytes → Type 0
  Unread seed = (k : ℕ) → address_to_pub_key_hash c (derive_address c e seed k) ≡ []

  -- n calls of generateNewAddress.
  pub after_addresses : ℕ → Wallet → Wallet
  after_addresses zero w = w
  after_addresses (suc n) w = (generate_new_address c e (after_addresses n w)).0

  find_address-Unread :
      (seed h : Bytes) (left i : ℕ) → Unread seed → find_address c e seed h left i ≡ []
  unfolding find_address
  find_address-Unread seed h zero i n = refl
  find_address-Unread seed h (suc left) i n =
      rw (find_address, n (i % 2 ^ 32)) (find_address-Unread seed h left (i + 1) n)

  generate_new_address-Unread :
      (w : Wallet)
      → Unread w.seed
      → IsUnread w
      → IsUnread (generate_new_address c e w).0 × ((generate_new_address c e w).0.seed ≡ w.seed)
  unfolding generate_new_address
  generate_new_address-Unread w n h =
      if-case (λ (r : Wallet × Bytes). IsUnread r.0 × (r.0.seed ≡ w.seed))
        (length (derive_address c e w.seed (length w.keys % 2 ^ 32)) == 0) (λ _. (h, refl))
        (λ _. (
          All-insert (λ entry. entry.1 ≡ []) (derive_address c e w.seed (length w.keys % 2 ^ 32))
              (address_to_pub_key_hash c (derive_address c e w.seed (length w.keys % 2 ^ 32)))
              w.keys (n _) h,
          refl,
        ))

  after_addresses-Unread :
      (n : ℕ) (w : Wallet)
      → Unread w.seed
      → w.keys ≡ []
      → IsUnread (after_addresses n w) × ((after_addresses n w).seed ≡ w.seed)
  unfolding after_addresses
  after_addresses-Unread zero w un k = (subst (All (λ entry. entry.1 ≡ [])) (sym k) tt, refl)
  after_addresses-Unread (suc n) w un k =
      let (h, s) = after_addresses-Unread n w un k in
      let (h', s') =
        generate_new_address-Unread (after_addresses n w) (subst Unread (sym s) un) h in
      (h', s' ∙ s)

  find_key-Unread :
      (u : UtxoSet) (w : Wallet) (i : TxInput) → Unread w.seed → find_key c e u w i ≡ none
  unfolding find_key
  find_key-Unread u w i un =
      elim (Option-cases (get (record { hash = i.prev_tx_hash; index = i.output_index }) u)) [
        | inl n ↦ rw (find_key, n) refl
        | inr (entry, s) ↦ elim (Option-cases (p2pkh_hash entry.script_pubkey)) [
          | inl n ↦ rw (find_key, s, n) refl
          | inr (h, t) ↦ rw (find_key, s, t, find_address-Unread w.seed h (length w.keys) 0 un) refl
        ]
      ]

  sign_inputs-Unread :
      (hash : Bytes) (u : UtxoSet) (w : Wallet) (i : TxInput) (is : List TxInput)
      → Unread w.seed
      → sign_inputs c e hash u w (i ∷ is) ≡ (i ∷ is, false)
  unfolding sign_inputs sign_input
  sign_inputs-Unread hash u w i is un = rw (sign_inputs, sign_input, find_key-Unread u w i un) refl

  -- Where no address of the seed is read back as a hash, a wallet that has given out any number of
  -- addresses has the balance 0 whatever the unspent outputs are, and signs no transaction that has an
  -- input.
  pub sign_transaction-Unread :
      (n : ℕ) (w : Wallet) (u : UtxoSet) (tx : Transaction) (i : TxInput) (is : List TxInput)
      → Unread w.seed
      → w.keys ≡ []
      → tx.inputs ≡ i ∷ is
      → (get_balance (some u) (after_addresses n w) ≡ 0)
        × (sign_transaction c e (some u) (after_addresses n w) tx ≡ (tx, false))
  unfolding sign_transaction
  sign_transaction-Unread n w u tx i is un k t =
      let (h, s) = after_addresses-Unread n w un k in
      let w' = after_addresses n w in
      let stuck : sign_inputs c e (signature_hash c tx) u w' tx.inputs ≡ (tx.inputs, false) =
        subst (λ l. sign_inputs c e (signature_hash c tx) u w' l ≡ (l, false)) (sym t)
          (sign_inputs-Unread (signature_hash c tx) u w' i is (subst Unread (sym s) un)) in
      (
        balance_shares (after_addresses n w) u
            ∙ omega (arith, owned_total-IsUnread (after_addresses n w).keys u h),
        ap {A = List TxInput × Bool} (λ p. (record tx { inputs = p.0 }, p.1)) stuck,
      )
