-- ===== src/Wire/Monad.antt =====
-- Readers as a state and failure monad over the bytes that are left.
use shawncoin.Prelude.{ℕ, zero, suc, Option, none, some, List, [], ◌∷◌, ◌++◌, Bool, true, false}

abbrev pub Parser : Type 0 → Type 0
Parser A = List ℕ → Option (A × List ℕ)

abbrev pub pure : {A : Type 0} → A → Parser A
pure a bs = some (a, bs)

infixl 5 ◌>>=◌ ◌>>◌
abbrev pub ◌>>=◌ : {A B : Type 0} → Parser A → (A → Parser B) → Parser B
◌>>=◌ m f bs = elim (m bs) [ none ↦ none | some (a, rest) ↦ f a rest ]

abbrev pub ◌>>◌ : {A B : Type 0} → Parser A → Parser B → Parser B
◌>>◌ m k bs = elim (m bs) [ none ↦ none | some (a, rest) ↦ k rest ]

abbrev pub guard : Bool → Parser (Unit {0})
guard true bs = some (tt, bs)
guard false bs = none

-- `for (i = 0; i < n; ++i) { ... push_back(item); }`
unfoldable pub read_many : {A : Type 0} → ℕ → Parser A → Parser (List A)
read_many zero p = pure []
read_many (suc n) p = do x ← p; xs ← read_many n p; pure (x ∷ xs)

-- `for (const auto& x : xs) { ... }` with what each round appends.
unfoldable pub write_many : {A : Type 0} → (A → List ℕ) → List A → List ℕ
write_many w [] = []
write_many w (x ∷ xs) = w x ++ write_many w xs
