-- ===== src/Map/Entries.antt =====
-- Conditions on every entry of a map.
use shawncoin.Prelude.{sym, subst, List, [], ◌∷◌, All, if-case}
use shawncoin.Map.{Less, insert, erase}

module _ {ℓ κ ι} {K : Type ℓ} {V : Type κ} ⦃o : Less K⦄ (P : K × V → Type ι) where
  abbrev Good : List (K × V) → Type ι
  Good m = All P m

  pub All-insert : (k : K) (v : V) (m : List (K × V)) → P (k, v) → Good m → Good (insert k v m)
  unfolding insert
  All-insert k v [] new h = (new, tt)
  All-insert k v ((j, w) ∷ m) new (hw, h) =
      if-case Good (o.less j k) (λ _. (hw, All-insert k v m new h))
        λ e.
          if-case Good (o.less k j) (λ _. (new, (hw, h)))
            (λ e'. (subst (λ i. P (i, v)) (sym (o.antisym j k e e')) new, h))

  pub All-erase : (k : K) (m : List (K × V)) → Good m → Good (erase k m)
  unfolding erase
  All-erase k [] h = tt
  All-erase k ((j, w) ∷ m) (hw, h) =
      if-case Good (o.less j k) (λ _. (hw, All-erase k m h))
        λ e. if-case Good (o.less k j) (λ _. (hw, h)) (λ e'. h)
