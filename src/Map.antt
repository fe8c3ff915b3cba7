-- ===== src/Map.antt =====
-- `std::map`: a list of entries in increasing order of their keys, with the order of the key type
-- as an interface. Two keys are the same where neither is less than the other.
pub mod Laws
pub mod Keys
pub mod Entries
use shawncoin.Prelude.{
  ℕ, ◌≡◌, Bool, true, false, List, [], ◌∷◌, Option, none, some, length, map, if◌then◌else◌, is_some,
}

pub record Less {ℓ} (K : Type ℓ) : Type ℓ where
  pub less : K → K → Bool
  pub irrefl : (a : K) → less a a ≡ false
  pub trans : (a b c : K) → less a b ≡ true → less b c ≡ true → less a c ≡ true
  pub antisym : (a b : K) → less a b ≡ false → less b a ≡ false → a ≡ b

module _ {ℓ κ} {K : Type ℓ} {V : Type κ} ⦃o : Less K⦄ where
  -- find
  unfoldable pub find : K → List (K × V) → Option V
  find k [] = none
  find k ((j, v) ∷ m) = if o.less j k then find k m else if o.less k j then none else some v

  -- map[k] = v
  unfoldable pub insert : K → V → List (K × V) → List (K × V)
  insert k v [] = (k, v) ∷ []
  insert k v ((j, w) ∷ m) =
      if o.less j k
      then (j, w) ∷ insert k v m
      else if o.less k j
      then (k, v) ∷ (j, w) ∷ m
      else (j, v) ∷ m

  -- erase(k)
  unfoldable pub erase : K → List (K × V) → List (K × V)
  erase k [] = []
  erase k ((j, w) ∷ m) =
      if o.less j k then (j, w) ∷ erase k m else if o.less k j then (j, w) ∷ m else m

  -- find(k) != end(), count(k), and erase(k) > 0
  unfoldable pub contains : K → List (K × V) → Bool
  contains k m = is_some (find k m)
