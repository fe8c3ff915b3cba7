-- ===== src/Merkle/Tree.antt =====
-- The row loop of computeMerkleRootFromHashes computes the root of a hash tree.
use shawncoin.Prelude.{
  ℕ, zero, suc, ◌+◌, ◌*◌, ◌≤◌, ◌<◌, ◌≡◌, ◌≢◌, refl, sym, ap, ◌∙◌, List, [], ◌∷◌, ◌++◌, length, take,
  drop, some, arith,
}
use native.Mathlib.Decide.{dec_le}
use shawncoin.Wire.{Bytes}
use shawncoin.Types.{zero_hash}
use shawncoin.Crypto.{Digest, sha256d}
use shawncoin.Merkle.{next_row, merkle_loop, merkle_root_from_hashes}

abbrev pub double : ℕ → ℕ
double zero = zero
double (suc n) = suc (suc (double n))

-- 2 ^ d
abbrev pub width : ℕ → ℕ
width zero = 1
width (suc d) = double (width d)

double-add : (n : ℕ) → double n ≡ n + n
double-add zero = omega arith
double-add (suc n) = omega (arith, double-add n)

width-pos : (d : ℕ) → 1 ≤ width d
width-pos zero = omega arith
width-pos (suc d) = omega (arith, width-pos d, double-add (width d))

-- The depth at which n leaves fit, and no smaller one.
abbrev pub IsDepth : ℕ → ℕ → Type 0
IsDepth n d = (n ≤ width d) × (width d < 2 * n)

IsDepth-exists : (n : ℕ) → (d : ℕ) × IsDepth (suc n) d
IsDepth-exists zero = (0, omega arith)
IsDepth-exists (suc n) =
    let (d, b) = IsDepth-exists n in
    elim (dec_le (suc (suc n)) (width d)) [
      | yes fits ↦ (d, omega arith)
      | no wider ↦ (suc d, omega (arith, double-add (width d)))
    ]

take-nil : (n : ℕ) → ◌≡◌ {A = List Bytes} (take n []) []
take-nil zero = refl
take-nil (suc n) = refl

drop-nil : (n : ℕ) → ◌≡◌ {A = List Bytes} (drop n []) []
drop-nil zero = refl
drop-nil (suc n) = refl

take-ne : {n : ℕ} {xs : List Bytes} → 1 ≤ n → xs ≢ [] → take (double n) xs ≢ []
take-ne {n = zero} {xs} p h = absurd (omega arith)
take-ne {n = suc n} {xs = []} p h = absurd (h refl)
take-ne {n = suc n} {xs = x ∷ xs} p h = λ e. cc

module _ (c : Digest) where
  -- The parent of a left child and of the right child's leaves; a missing right child is the left one.
  parent : Bytes → List Bytes → Bytes → Bytes
  parent left [] right = sha256d c (left ++ left)
  parent left (x ∷ xs) right = sha256d c (left ++ right)

  -- The tree of depth d over at most 2 ^ d leaves: the first half below the left child, the rest
  -- below the right one.
  pub tree : ℕ → List Bytes → Bytes
  unfolding parent
  tree zero [] = zero_hash
  tree zero (x ∷ xs) = x
  tree (suc d) xs =
      parent (tree d (take (width d) xs)) (drop (width d) xs) (tree d (drop (width d) xs))

  -- A row of n hashes is followed by one of n / 2, rounded up.
  pub length-next_row :
      (xs : List Bytes)
      → (length xs ≤ 2 * length (next_row c xs)) × (2 * length (next_row c xs) ≤ length xs + 1)
  unfolding next_row
  length-next_row [] = omega arith
  length-next_row (x ∷ []) = omega arith
  length-next_row (x ∷ y ∷ rest) = omega (arith, length-next_row rest)

  pub merkle_loop-total :
      (fuel : ℕ) (xs : List Bytes)
      → length xs ≤ suc fuel
      → (r : Bytes) × (merkle_loop c fuel xs ≡ some r)
  unfolding merkle_loop
  merkle_loop-total fuel [] h = (zero_hash, refl)
  merkle_loop-total fuel (x ∷ []) h = (x, refl)
  merkle_loop-total zero (x ∷ y ∷ rest) h = absurd (omega arith)
  merkle_loop-total (suc fuel) (x ∷ y ∷ rest) h =
      merkle_loop-total fuel (next_row c (x ∷ y ∷ rest))
        (omega (arith, length-next_row (x ∷ y ∷ rest)))

  take-next_row :
      (n : ℕ) (xs : List Bytes) → next_row c (take (double n) xs) ≡ take n (next_row c xs)
  unfolding next_row
  take-next_row zero xs = refl
  take-next_row (suc n) [] = refl
  take-next_row (suc n) (x ∷ []) = rw (take-nil n)
  take-next_row (suc n) (x ∷ y ∷ rest) = ap (◌∷◌ (sha256d c (x ++ y))) (take-next_row n rest)

  drop-next_row :
      (n : ℕ) (xs : List Bytes) → next_row c (drop (double n) xs) ≡ drop n (next_row c xs)
  unfolding next_row
  drop-next_row zero xs = refl
  drop-next_row (suc n) [] = refl
  drop-next_row (suc n) (x ∷ []) = rw (drop-nil n)
  drop-next_row (suc n) (x ∷ y ∷ rest) = drop-next_row n rest

  parent-next_row :
      (left r q : Bytes) (ys : List Bytes)
      → (ys ≢ [] → r ≡ q)
      → parent left ys r ≡ parent left (next_row c ys) q
  unfolding parent next_row
  parent-next_row left r q [] h = refl
  parent-next_row left r q (y ∷ []) h = rw (h (λ e. cc))
  parent-next_row left r q (y ∷ z ∷ ys) h = rw (h (λ e. cc))

  -- One round of the loop takes a tree to the tree that is one level lower, with the same root.
  tree-next_row : (d : ℕ) (xs : List Bytes) → xs ≢ [] → tree (suc d) xs ≡ tree d (next_row c xs)
  unfolding tree
  tree-next_row zero [] h = absurd (h refl)
  tree-next_row zero (x ∷ []) h = unfold next_row in refl
  tree-next_row zero (x ∷ y ∷ rest) h = unfold next_row in refl
  tree-next_row (suc d) xs h =
      let w = width d in
      let halves = take-next_row w xs in
      rw (tree-next_row d (take (double w) xs) (take-ne (width-pos d) h), take-next_row w xs)
        (parent-next_row (tree d (take (width d) (next_row c xs))) _ _ (drop (double w) xs)
            (λ ne. tree-next_row d (drop (double w) xs) ne)
          ∙ rw (drop-next_row w xs))

  merkle_loop-tree :
      (d fuel : ℕ) (xs : List Bytes)
      → length xs ≤ suc fuel
      → IsDepth (length xs) d
      → merkle_loop c fuel xs ≡ some (tree d xs)
  unfolding merkle_loop
  merkle_loop-tree d fuel [] h b = absurd (omega arith)
  merkle_loop-tree zero fuel (x ∷ []) h b = unfold tree in refl
  merkle_loop-tree zero fuel (x ∷ y ∷ rest) h b = absurd (omega arith)
  merkle_loop-tree (suc d) fuel (x ∷ []) h b =
      absurd (omega (arith, double-add (width d), width-pos d))
  merkle_loop-tree (suc d) zero (x ∷ y ∷ rest) h b = absurd (omega arith)
  merkle_loop-tree (suc d) (suc fuel) (x ∷ y ∷ rest) h b =
      merkle_loop-tree d fuel (next_row c (x ∷ y ∷ rest))
        (omega (arith, length-next_row (x ∷ y ∷ rest)))
        (omega (arith, length-next_row (x ∷ y ∷ rest), double-add (width d)))
      ∙ ap some (sym (tree-next_row d (x ∷ y ∷ rest) (λ e. cc)))

  -- The root of n hashes is the root of the tree whose depth is the least at which n leaves fit.
  pub merkle_root-tree :
      (x : Bytes) (xs : List Bytes)
      → (d : ℕ) × IsDepth (length (x ∷ xs)) d
        × (merkle_root_from_hashes c (x ∷ xs) ≡ tree d (x ∷ xs))
  unfolding merkle_root_from_hashes
  merkle_root-tree x xs =
      let (d, b) = IsDepth-exists (length xs) in
      (
        d,
        b,
        rw (merkle_loop-tree d (length (x ∷ xs)) (x ∷ xs) (omega arith) b, merkle_root_from_hashes),
      )
