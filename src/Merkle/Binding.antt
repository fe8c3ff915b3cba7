-- ===== src/Merkle/Binding.antt =====
-- What a Merkle root says of the hashes under it, and what it does not.
use shawncoin.Prelude.{
  ℕ, zero, suc, ◌+◌, ◌≤◌, ◌≡◌, refl, sym, ap, ◌∙◌, List, [], ◌∷◌, ◌++◌, length, some, eq_of_some,
  All, arith, ◌⊎◌, inl, inr,
}
use shawncoin.Wire.{Bytes}
use shawncoin.Crypto.{Digest, sha256d, length-sha256d}
use shawncoin.Transaction.Txid.{Collision, bytes_discrete}
use shawncoin.Merkle.{next_row, merkle_loop, merkle_root_from_hashes}
use shawncoin.Merkle.Tree.{double, length-next_row, merkle_loop-total}

abbrev pub AreHashes : List Bytes → Type 0
AreHashes = All (λ h. length h ≡ 32)

-- Two concatenations are equal only part by part, where the first parts are equally long.
append-injective : (a b x y : Bytes) → length a ≡ length b → a ++ x ≡ b ++ y → (a ≡ b) × (x ≡ y)
append-injective [] [] x y h e = (refl, e)
append-injective [] (b ∷ s) x y h e = absurd (omega arith)
append-injective (a ∷ r) [] x y h e = absurd (omega arith)
append-injective (a ∷ r) (b ∷ s) x y h e =
    let (p, q) = append-injective r s x y (omega arith) (cc) in (cc, q)

module _ (c : Digest) where
  -- Equal digests come from equal pairs of hashes, or collide.
  parents :
      (a b x y : Bytes)
      → length a ≡ 32
      → length b ≡ 32
      → sha256d c (a ++ x) ≡ sha256d c (b ++ y)
      → ((a ≡ b) × (x ≡ y)) ⊎ Collision c
  parents a b x y ha hb e = elim (bytes_discrete (a ++ x) (b ++ y)) [
    | yes same ↦ inl (append-injective a b x y (ha ∙ sym hb) same)
    | no differ ↦ inr (a ++ x, b ++ y, differ, e)
  ]

  next_row-AreHashes : (xs : List Bytes) → AreHashes xs → AreHashes (next_row c xs)
  unfolding next_row
  next_row-AreHashes [] h = tt
  next_row-AreHashes (x ∷ []) h = (length-sha256d c (x ++ x), tt)
  next_row-AreHashes (x ∷ y ∷ rest) (hx, (hy, h)) =
      (length-sha256d c (x ++ y), next_row-AreHashes rest h)

  next_row-injective :
      (xs ys : List Bytes)
      → AreHashes xs
      → AreHashes ys
      → length xs ≡ length ys
      → next_row c xs ≡ next_row c ys
      → (xs ≡ ys) ⊎ Collision c
  unfolding next_row
  next_row-injective [] [] hx hy l e = inl refl
  next_row-injective [] (y ∷ ys) hx hy l e = absurd (omega arith)
  next_row-injective (x ∷ xs) [] hx hy l e = absurd (omega arith)
  next_row-injective (x ∷ []) (y ∷ []) (hx, _) (hy, _) l e = elim (parents x y x y hx hy (cc)) [
    | inl (p, q) ↦ inl (ap (λ t. t ∷ []) p)
    | inr k ↦ inr k
  ]
  next_row-injective (x ∷ []) (y ∷ y' ∷ ys) hx hy l e = absurd (omega arith)
  next_row-injective (x ∷ x' ∷ xs) (y ∷ []) hx hy l e = absurd (omega arith)
  next_row-injective (x ∷ x' ∷ xs) (y ∷ y' ∷ ys) (hx, (hx', hxs)) (hy, (hy', hys)) l e =
      elim (parents x y x' y' hx hy (cc)) [
        | inr k ↦ inr k
        | inl (p, q) ↦ elim (next_row-injective xs ys hxs hys (omega arith) (cc)) [
          | inr k ↦ inr k
          | inl r ↦ inl (cc)
        ]
      ]

  merkle_loop-injective :
      (fuel : ℕ) (xs ys : List Bytes)
      → length xs ≤ suc fuel
      → AreHashes xs
      → AreHashes ys
      → length xs ≡ length ys
      → merkle_loop c fuel xs ≡ merkle_loop c fuel ys
      → (xs ≡ ys) ⊎ Collision c
  unfolding merkle_loop
  merkle_loop-injective fuel [] [] b hx hy l e = inl refl
  merkle_loop-injective fuel [] (y ∷ ys) b hx hy l e = absurd (omega arith)
  merkle_loop-injective fuel (x ∷ xs) [] b hx hy l e = absurd (omega arith)
  merkle_loop-injective fuel (x ∷ []) (y ∷ []) b hx hy l e = inl (cc)
  merkle_loop-injective fuel (x ∷ []) (y ∷ y' ∷ ys) b hx hy l e = absurd (omega arith)
  merkle_loop-injective fuel (x ∷ x' ∷ xs) (y ∷ []) b hx hy l e = absurd (omega arith)
  merkle_loop-injective zero (x ∷ x' ∷ xs) (y ∷ y' ∷ ys) b hx hy l e = absurd (omega arith)
  merkle_loop-injective (suc fuel) (x ∷ x' ∷ xs) (y ∷ y' ∷ ys) b hx hy l e =
      let row : List Bytes → List Bytes = next_row c in
      let us = x ∷ x' ∷ xs in
      let vs = y ∷ y' ∷ ys in
      let same : length (row us) ≡ length (row vs) =
        omega (arith, length-next_row c us, length-next_row c vs) in
      elim (merkle_loop-injective fuel (row us) (row vs) (omega (arith, length-next_row c us))
        (next_row-AreHashes us hx) (next_row-AreHashes vs hy) same e) [
          | inr k ↦ inr k
          | inl r ↦ next_row-injective us vs hx hy l r
        ]

  root-loop : (xs : List Bytes) → merkle_loop c (length xs) xs ≡ some (merkle_root_from_hashes c xs)
  unfolding merkle_root_from_hashes
  root-loop xs =
      let (r, e) = merkle_loop-total c (length xs) xs (omega arith) in
      rw (e, merkle_root_from_hashes)

  -- Two lists of equally many 32-byte hashes with the same root are equal, or two byte strings
  -- collide under SHA256d.
  pub merkle_root_binding :
      (xs ys : List Bytes)
      → AreHashes xs
      → AreHashes ys
      → length xs ≡ length ys
      → merkle_root_from_hashes c xs ≡ merkle_root_from_hashes c ys
      → (xs ≡ ys) ⊎ Collision c
  merkle_root_binding xs ys hx hy l e =
      merkle_loop-injective (length xs) xs ys (omega arith) hx hy l
        (root-loop xs ∙ ap some e ∙ rw l (sym (root-loop ys)))

  -- Rows of an even number of hashes, and one more.
  next_row_odd :
      (n : ℕ) (xs : List Bytes) (x : Bytes)
      → length xs ≡ double n
      → next_row c (xs ++ (x ∷ x ∷ [])) ≡ next_row c (xs ++ (x ∷ []))
  unfolding next_row
  next_row_odd zero [] x h = refl
  next_row_odd zero (y ∷ ys) x h = absurd (omega arith)
  next_row_odd (suc n) [] x h = absurd (omega arith)
  next_row_odd (suc n) (y ∷ []) x h = absurd (omega arith)
  next_row_odd (suc n) (y ∷ z ∷ ys) x h =
      ap (◌∷◌ (sha256d c (y ++ z))) (next_row_odd n ys x (omega arith))

  merkle_loop-fuel :
      (f g : ℕ) (xs : List Bytes)
      → length xs ≤ suc f
      → length xs ≤ suc g
      → merkle_loop c f xs ≡ merkle_loop c g xs
  unfolding merkle_loop
  merkle_loop-fuel f g [] p q = refl
  merkle_loop-fuel f g (x ∷ []) p q = refl
  merkle_loop-fuel zero g (x ∷ y ∷ xs) p q = absurd (omega arith)
  merkle_loop-fuel (suc f) zero (x ∷ y ∷ xs) p q = absurd (omega arith)
  merkle_loop-fuel (suc f) (suc g) (x ∷ y ∷ xs) p q =
      merkle_loop-fuel f g (next_row c (x ∷ y ∷ xs)) (omega (arith, length-next_row c (x ∷ y ∷ xs)))
        (omega (arith, length-next_row c (x ∷ y ∷ xs)))

  root-loop_fuel :
      (f : ℕ) (xs : List Bytes)
      → length xs ≤ suc f
      → merkle_loop c f xs ≡ some (merkle_root_from_hashes c xs)
  root-loop_fuel f xs h = merkle_loop-fuel f (length xs) xs h (omega arith) ∙ root-loop xs

  -- Two rows of two hashes or more with the same next row have the same root.
  root-next_row :
      (y z y' z' : Bytes) (xs ys : List Bytes)
      → next_row c (y ∷ z ∷ xs) ≡ next_row c (y' ∷ z' ∷ ys)
      → merkle_root_from_hashes c (y ∷ z ∷ xs) ≡ merkle_root_from_hashes c (y' ∷ z' ∷ ys)
  unfolding merkle_loop
  root-next_row y z y' z' xs ys e =
      let m = length xs + length ys + 1 in
      eq_of_some (
        sym (root-loop_fuel (suc m) (y ∷ z ∷ xs) (omega arith))
        ∙ ap (merkle_loop c m) e
        ∙ root-loop_fuel (suc m) (y' ∷ z' ∷ ys) (omega arith))

  -- A row of an odd number of hashes, three or more, has the root of the row in which the last hash
  -- stands twice: the number of hashes is not bound by the root.
  pub merkle_root_duplicate :
      (n : ℕ) (xs : List Bytes) (x : Bytes)
      → length xs ≡ double (suc n)
      → merkle_root_from_hashes c (xs ++ (x ∷ x ∷ [])) ≡ merkle_root_from_hashes c (xs ++ (x ∷ []))
  merkle_root_duplicate n [] x h = absurd (omega arith)
  merkle_root_duplicate n (y ∷ []) x h = absurd (omega arith)
  merkle_root_duplicate n (y ∷ z ∷ ys) x h =
      root-next_row y z y z _ _ (next_row_odd (suc n) (y ∷ z ∷ ys) x h)
