-- ===== src/Map/Laws.antt =====
-- The laws of the map operations, for every order.
use shawncoin.Prelude.{
  suc, ◌≡◌, refl, sym, ap, ◌∙◌, true, false, List, [], ◌∷◌, none, some, length, map, arith,
  if◌then◌else◌, Bool-cases, inl, inr, subst, ◌≢◌,
}
use shawncoin.Map.{Less, find, insert, erase, contains}

module _ {ℓ} {K : Type ℓ} ⦃o : Less K⦄ where
  -- How two keys stand, with what `find`, `insert` and `erase` test of them.
  pub data Order (j k : K) : Type ℓ where
    before : o.less j k ≡ true → o.less k j ≡ false → Order j k
    after : o.less j k ≡ false → o.less k j ≡ true → Order j k
    same : o.less j k ≡ false → o.less k j ≡ false → j ≡ k → Order j k

  pub less-asym : (a b : K) → o.less a b ≡ true → o.less b a ≡ false
  less-asym a b h = elim (Bool-cases (o.less b a)) [
    | inl back ↦ absurd (cc (o.trans a b a h back, o.irrefl a))
    | inr ok ↦ ok
  ]

  pub order : (j k : K) → Order j k
  order j k = elim (Bool-cases (o.less j k)) [
    | inl p ↦ before p (less-asym j k p)
    | inr p ↦ elim (Bool-cases (o.less k j)) [
      | inl q ↦ after p q
      | inr q ↦ same p q (o.antisym j k p q)
    ]
  ]

  pub less-ne : (j k : K) → o.less j k ≡ true → j ≢ k
  less-ne j k h e = cc (rw e at h, o.irrefl k)

module _ {ℓ κ} {K : Type ℓ} {V : Type κ} ⦃o : Less K⦄ where
  -- Every key is above k; the keys increase.
  abbrev pub Above : K → List (K × V) → Type 0
  Above k [] = Unit {0}
  Above k ((j, v) ∷ m) = (o.less k j ≡ true) × Above k m

  abbrev pub IsSorted : List (K × V) → Type 0
  IsSorted [] = Unit {0}
  IsSorted ((j, v) ∷ m) = Above j m × IsSorted m

  Above-trans : (i k : K) (m : List (K × V)) → o.less i k ≡ true → Above k m → Above i m
  Above-trans i k [] h a = tt
  Above-trans i k ((j, v) ∷ m) h (p, a) = (o.trans i k j h p, Above-trans i k m h a)

  find-Above : (k : K) (m : List (K × V)) → Above k m → find k m ≡ none
  unfolding find
  find-Above k [] a = refl
  find-Above k ((j, v) ∷ m) (p, a) = rw (less-asym k j p, p)

  -- What was written is found, and what was under other keys stays.
  pub find-insert_self : (k : K) (v : V) (m : List (K × V)) → find k (insert k v m) ≡ some v
  unfolding find insert
  find-insert_self k v [] = rw (o.irrefl k)
  find-insert_self k v ((j, w) ∷ m) = elim (order j k) [
    | before p q ↦ rw p (rw p (find-insert_self k v m))
    | after p q ↦ rw (p, q) (rw (o.irrefl k))
    | same p q e ↦ rw (p, q) (rw (p, q))
  ]

  pub find-insert_ne :
      (j k : K) (v : V) (m : List (K × V)) → j ≢ k → find j (insert k v m) ≡ find j m
  unfolding find insert
  find-insert_ne j k v [] h = elim (order k j) [
    | before p q ↦ rw p
    | after p q ↦ rw (p, q)
    | same p q e ↦ absurd (h (sym e))
  ]
  find-insert_ne j k v ((i, w) ∷ m) h = elim (order i k) [
    | before p q ↦ rw p (
        ap (λ t. if o.less i j then t else if o.less j i then none else some w)
          (find-insert_ne j k v m h))
    | after p q ↦
        rw (p, q)
          (elim (order k j) [
            | before p' q' ↦ rw p'
            | after p' q' ↦ let r = o.trans j k i q' q in rw (p', q', less-asym j i r, r)
            | same p' q' e ↦ absurd (h (sym e))
          ])
    | same p q e ↦
        rw (p, q)
          (elim (order i j) [
            | before p' q' ↦ rw p'
            | after p' q' ↦ rw (p', q')
            | same p' q' e' ↦ absurd (h (sym e' ∙ e))
          ])
  ]

  Above-insert :
      (i k : K) (v : V) (m : List (K × V)) → o.less i k ≡ true → Above i m → Above i (insert k v m)
  unfolding insert
  Above-insert i k v [] h a = (h, tt)
  Above-insert i k v ((j, w) ∷ m) h (p, a) = elim (order j k) [
    | before p' q' ↦ rw p' (p, Above-insert i k v m h a)
    | after p' q' ↦ rw (p', q') (h, (p, a))
    | same p' q' e ↦ rw (p', q') (p, a)
  ]

  -- Writing and erasing keep the order of the keys.
  pub insert-IsSorted : (k : K) (v : V) (m : List (K × V)) → IsSorted m → IsSorted (insert k v m)
  unfolding insert
  insert-IsSorted k v [] s = (tt, tt)
  insert-IsSorted k v ((j, w) ∷ m) (a, s) = elim (order j k) [
    | before p q ↦ rw p (Above-insert j k v m p a, insert-IsSorted k v m s)
    | after p q ↦ rw (p, q) ((q, Above-trans k j m q a), (a, s))
    | same p q e ↦ rw (p, q) (a, s)
  ]

  Above-erase : (i k : K) (m : List (K × V)) → Above i m → Above i (erase k m)
  unfolding erase
  Above-erase i k [] a = tt
  Above-erase i k ((j, w) ∷ m) (p, a) = elim (order j k) [
    | before p' q' ↦ rw p' (p, Above-erase i k m a)
    | after p' q' ↦ rw (p', q') (p, a)
    | same p' q' e ↦ rw (p', q') a
  ]

  pub erase-IsSorted : (k : K) (m : List (K × V)) → IsSorted m → IsSorted (erase k m)
  unfolding erase
  erase-IsSorted k [] s = tt
  erase-IsSorted k ((j, w) ∷ m) (a, s) = elim (order j k) [
    | before p q ↦ rw p (Above-erase j k m a, erase-IsSorted k m s)
    | after p q ↦ rw (p, q) (a, s)
    | same p q e ↦ rw (p, q) s
  ]

  -- What was erased is not found, and what is under other keys stays.
  pub find-erase_self : (k : K) (m : List (K × V)) → IsSorted m → find k (erase k m) ≡ none
  unfolding find erase
  find-erase_self k [] s = refl
  find-erase_self k ((j, w) ∷ m) (a, s) = elim (order j k) [
    | before p q ↦ rw p (rw p (find-erase_self k m s))
    | after p q ↦ rw (p, q) (rw (p, q))
    | same p q e ↦ rw (p, q) (find-Above k m (subst (λ t. Above t m) e a))
  ]

  pub find-erase_ne :
      (j k : K) (m : List (K × V)) → IsSorted m → j ≢ k → find j (erase k m) ≡ find j m
  unfolding find erase
  find-erase_ne j k [] s h = refl
  find-erase_ne j k ((i, w) ∷ m) (a, s) h = elim (order i k) [
    | before p q ↦ rw p (
        ap (λ t. if o.less i j then t else if o.less j i then none else some w)
          (find-erase_ne j k m s h))
    | after p q ↦ rw (p, q)
    | same p q e ↦
        rw (p, q)
          (elim (order i j) [
            | before p' q' ↦ rw p'
            | after p' q' ↦ rw (p', q') (find-Above j m (Above-trans j i m q' a))
            | same p' q' e' ↦ absurd (h (sym e' ∙ e))
          ])
  ]

  -- Sizes: a write adds an entry for a new key, and erasing takes away an entry for an old one.
  pub length-insert :
      (k : K) (v : V) (m : List (K × V))
      → length (insert k v m) ≡ (if contains k m then length m else suc (length m))
  unfolding insert contains find
  length-insert k v [] = refl
  length-insert k v ((j, w) ∷ m) = elim (order j k) [
    | before p q ↦ rw p (ground (arith, length-insert k v m))
    | after p q ↦ rw (p, q)
    | same p q e ↦ rw (p, q)
  ]

  pub keys-insert :
      (k : K) (v : V) (m : List (K × V))
      → contains k m ≡ true
      → map (λ p. p.0) (insert k v m) ≡ map (λ p. p.0) m
  unfolding insert contains find
  keys-insert k v [] h = absurd (cc h)
  keys-insert k v ((j, w) ∷ m) h = elim (order j k) [
    | before p q ↦ rw p (ap (◌∷◌ j) (keys-insert k v m (rw (p, contains, find) at h)))
    | after p q ↦ absurd (cc (rw (p, q, contains, find) at h))
    | same p q e ↦ rw (p, q) refl
  ]

  pub length-erase :
      (k : K) (m : List (K × V))
      → length m ≡ (if contains k m then suc (length (erase k m)) else length (erase k m))
  unfolding erase contains find
  length-erase k [] = refl
  length-erase k ((j, w) ∷ m) = elim (order j k) [
    | before p q ↦ rw p (ground (arith, length-erase k m))
    | after p q ↦ rw (p, q)
    | same p q e ↦ rw (p, q)
  ]
