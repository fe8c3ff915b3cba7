-- ===== src/Wallet/Ownership.antt =====
-- Which scripts pay to a wallet: what the tests of getBalance decide.
use shawncoin.Prelude.{
  ℕ, zero, suc, ◌+◌, ◌≤◌, ◌≡◌, refl, sym, ap, subst, ◌∙◌, ◌⊎◌, inl, inr, true, false, none, some,
  List, [], ◌∷◌, ◌++◌, length, take, get_or, arith, Bool-cases, eq_of_some, none, false,
  length-append, take_exact,
}
use shawncoin.Wire.{Bytes}
use shawncoin.Types.{Script, OutPoint}
use shawncoin.Utxo.{Entry, UtxoSet}
use shawncoin.Block.{p2pkh_script}
use shawncoin.Transaction.{beq_bytes}
use shawncoin.Transaction.Equal.{beq_bytes→eq, beq_bytes_refl}
use shawncoin.Wallet.{p2pkh_hash, stores_hash}

-- A hash is one of the stored ones.
abbrev pub IsStored : Bytes → List (Bytes × Bytes) → Type 0
IsStored h [] = ⊥
IsStored h ((address, our) ∷ keys) = (our ≡ h) ⊎ IsStored h keys

-- A script is the standard one for a stored hash of 20 bytes.
abbrev pub IsOwned : List (Bytes × Bytes) → Script → Type 0
IsOwned keys script = (h : Bytes) × (length h ≡ 20) × (script ≡ p2pkh_script h) × IsStored h keys

-- The last two bytes of the 22 behind the first three.
tail_split :
    (n : ℕ) (s : Bytes)
    → length s ≡ n + 2
    → s ≡ take n s ++ (get_or s n 0 ∷ get_or s (suc n) 0 ∷ [])
tail_split zero (x ∷ y ∷ []) e = refl
tail_split zero [] e = absurd (omega (arith, e))
tail_split zero (x ∷ []) e = absurd (omega (arith, e))
tail_split zero (x ∷ y ∷ z ∷ s) e = absurd (omega (arith, e))
tail_split (suc n) [] e = absurd (omega (arith, e))
tail_split (suc n) (x ∷ s) e = ap (◌∷◌ x) (tail_split n s (omega (arith, e)))

take_len : (n : ℕ) (s : Bytes) → n ≤ length s → length (take n s) ≡ n
take_len zero s le = refl
take_len (suc n) [] le = absurd (omega (arith, le))
take_len (suc n) (x ∷ s) le = ap suc (take_len n s (omega (arith, le)))

get_or_behind :
    (k i : ℕ) (xs ys : Bytes) → k ≡ length xs + i → get_or (xs ++ ys) k 0 ≡ get_or ys i 0
get_or_behind k i [] ys e = ap (λ j. get_or ys j 0) (omega (arith, e))
get_or_behind zero i (x ∷ xs) ys e = absurd (omega (arith, e))
get_or_behind (suc k) i (x ∷ xs) ys e = get_or_behind k i xs ys (omega (arith, e))

p2pkh_hash-p2pkh_script : (h : Bytes) → length h ≡ 20 → p2pkh_hash (p2pkh_script h) ≡ some h
unfolding p2pkh_hash
p2pkh_hash-p2pkh_script h e =
    let n : length (h ++ (0x88 ∷ 0xac ∷ [])) ≡ 22 =
      length-append h (0x88 ∷ 0xac ∷ []) ∙ ap (λ k. k + 2) e in
    let x : get_or (h ++ (0x88 ∷ 0xac ∷ [])) 20 0 ≡ 0x88 =
      get_or_behind 20 0 h _ (omega (arith, e)) in
    let y : get_or (h ++ (0x88 ∷ 0xac ∷ [])) 21 0 ≡ 0xac =
      get_or_behind 21 1 h _ (omega (arith, e)) in
    rw (n, x, y, take_exact 20 h (0x88 ∷ 0xac ∷ []) e) refl

p2pkh_hash_script :
    (s : Script) (h : Bytes) → p2pkh_hash s ≡ some h → (length h ≡ 20) × (s ≡ p2pkh_script h)
unfolding p2pkh_hash
p2pkh_hash_script [] h e = absurd (cc e)
p2pkh_hash_script (x ∷ []) h e = absurd (cc e)
p2pkh_hash_script (x ∷ y ∷ []) h e = absurd (cc e)
p2pkh_hash_script (x ∷ y ∷ z ∷ s) h e =
    let (ex, ey, ez, n, e20, e21, kept) : (x ≡ 0x76)
        × (y ≡ 0xa9)
        × (z ≡ 0x14)
        × (length s ≡ 22)
        × (get_or s 20 0 ≡ 0x88)
        × (get_or s 21 0 ≡ 0xac)
        × (take 20 s ≡ h) =
      ground arith in
    let whole : s ≡ h ++ (0x88 ∷ 0xac ∷ []) = tail_split 20 s n ∙ (rw (kept, e20, e21) refl) in
    let len : length h ≡ 20 = ap length (sym kept) ∙ take_len 20 s (omega (arith, n)) in
    (len, rw (ex, ey, ez, whole) refl)

stores_hash-IsStored :
    (h : Bytes) (keys : List (Bytes × Bytes)) → stores_hash h keys ≡ true → IsStored h keys
unfolding stores_hash
stores_hash-IsStored h [] e = absurd (cc e)
stores_hash-IsStored h ((address, our) ∷ keys) e = elim (Bool-cases (beq_bytes our h)) [
  | inl t ↦ inl (beq_bytes→eq our h t)
  | inr f ↦ inr (stores_hash-IsStored h keys (grind (arith, e, f)))
]

stores_hash_stored :
    (h : Bytes) (keys : List (Bytes × Bytes))
    → length h ≡ 20
    → IsStored h keys
    → stores_hash h keys ≡ true
unfolding stores_hash
stores_hash_stored h [] l m = elim m [ ]
stores_hash_stored h ((address, our) ∷ keys) l (inl e) = rw e (rw (l, beq_bytes_refl h) refl)
stores_hash_stored h ((address, our) ∷ keys) l (inr m) =
    ground (arith, stores_hash_stored h keys l m)

-- A number is the sum, without overflow, of the amounts of the outputs whose scripts are owned.
pub data IsTotal (keys : List (Bytes × Bytes)) : UtxoSet → ℕ → Type 0 where
  no_output : IsTotal keys [] 0
  own :
      {op : OutPoint} {entry : Entry} {u : UtxoSet} {n : ℕ}
      → IsOwned keys entry.script_pubkey
      → IsTotal keys u n
      → IsTotal keys ((op, entry) ∷ u) (entry.amount + n)
  foreign :
      {op : OutPoint} {entry : Entry} {u : UtxoSet} {n : ℕ}
      → ¬ IsOwned keys entry.script_pubkey
      → IsTotal keys u n
      → IsTotal keys ((op, entry) ∷ u) n

pub script-IsOwned :
    (keys : List (Bytes × Bytes)) (s : Script) (h : Bytes)
    → p2pkh_hash s ≡ some h
    → stores_hash h keys ≡ true
    → IsOwned keys s
script-IsOwned keys s h e t =
    let (len, shape) = p2pkh_hash_script s h e in (h, len, shape, stores_hash-IsStored h keys t)

pub other_script :
    (keys : List (Bytes × Bytes)) (s : Script) → p2pkh_hash s ≡ none → ¬ IsOwned keys s
other_script keys s e (h, len, shape, m) =
    absurd (cc (p2pkh_hash-p2pkh_script h len, ap p2pkh_hash shape, e))

pub other_hash :
    (keys : List (Bytes × Bytes)) (s : Script) (h : Bytes)
    → p2pkh_hash s ≡ some h
    → stores_hash h keys ≡ false
    → ¬ IsOwned keys s
other_hash keys s h e f (h', len, shape, m) =
    let same : h' ≡ h =
      eq_of_some (sym (p2pkh_hash-p2pkh_script h' len) ∙ ap p2pkh_hash (sym shape) ∙ e) in
    let t : stores_hash h keys ≡ true =
      subst (λ x. stores_hash x keys ≡ true) same (stores_hash_stored h' keys len m) in
    absurd (cc (t, f))
