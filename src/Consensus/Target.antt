-- ===== src/Consensus/Target.antt =====
-- The target test of checkProofOfWork as a comparison of numbers, and what the compact target
-- stands for.
use shawncoin.Prelude.{
  ℕ, zero, suc, ◌+◌, ◌*◌, ◌^◌, ◌≤◌, ◌<◌, ◌≡◌, refl, ap, ◌∙◌, true, false, [], ◌∷◌, ltb, leb, take,
  take_all, length, All, get_or, arith, if◌then◌else◌, Bool-cases, ltb→lt, inl, inr,
}
use native.Mathlib.Nat.{pow-suc}
use shawncoin.Wire.{Bytes, IsByte, le_value}
use shawncoin.Consensus.{meets_target}

-- The number of the first bytes grows by the next byte at its place.
le_value-take :
    (i : ℕ) (xs : Bytes)
    → i < length xs
    → le_value (take (suc i) xs) ≡ le_value (take i xs) + 256 ^ i * get_or xs i 0
le_value-take i [] h = absurd (omega arith)
le_value-take zero (x ∷ xs) h = omega arith
le_value-take (suc i) (x ∷ xs) h = omega (
  arith,
  le_value-take i xs (omega arith),
  pow-suc 256 i,
  ap (λ (p : ℕ). p * get_or xs i 0) (pow-suc 256 i),
)

take_bound : (i : ℕ) (xs : Bytes) → i ≤ length xs → All IsByte xs → le_value (take i xs) < 256 ^ i
take_bound zero xs h b = omega arith
take_bound (suc i) [] h b = absurd (omega arith)
take_bound (suc i) (x ∷ xs) h (bx, b) =
    omega (arith, take_bound i xs (omega arith) b, pow-suc 256 i)

-- The leading byte decides, unless both are equal.
lead : (a b p x y : ℕ) → a < p → b < p → x < y → a + p * x < b + p * y
lead a b p x y ha hb h = grind arith

lead_leb :
    (a b p x y : ℕ)
    → a < p
    → b < p
    → (if ltb x y then true else if ltb y x then false else leb a b) ≡ leb (a + p * x) (b + p * y)
lead_leb a b p x y ha hb = elim (Bool-cases (ltb x y)) [
  | inl less ↦ rw less (ground (arith, lead a b p x y ha hb (ltb→lt x y less)))
  | inr notless ↦ elim (Bool-cases (ltb y x)) [
    | inl more ↦ rw (notless, more) (ground (arith, lead b a p y x hb ha (ltb→lt y x more)))
    | inr notmore ↦
        let e : x ≡ y = ground arith in
        rw (notless, notmore) (ground (arith, ap (λ (z : ℕ). p * z) e))
  ]
]

meets_target-leb :
    (i : ℕ) (h t : Bytes)
    → i ≤ length h
    → i ≤ length t
    → All IsByte h
    → All IsByte t
    → meets_target i h t ≡ leb (le_value (take i h)) (le_value (take i t))
unfolding meets_target
meets_target-leb zero h t lh lt bh bt = refl
meets_target-leb (suc i) h t lh lt bh bt =
    rw
      (
        meets_target-leb i h t (omega arith) (omega arith) bh bt,
        le_value-take i h lh,
        le_value-take i t lt,
      )
      (lead_leb (le_value (take i h)) (le_value (take i t)) (256 ^ i) (get_or h i 0) (get_or t i 0)
        (take_bound i h (omega arith) bh) (take_bound i t (omega arith) bt))

-- The byte loop of checkProofOfWork, on two strings of 32 bytes, answers whether the hash is at most
-- the target, both read as little-endian numbers.
pub meets_target_lem :
    (h t : Bytes)
    → length h ≡ 32
    → length t ≡ 32
    → All IsByte h
    → All IsByte t
    → meets_target 32 h t ≡ leb (le_value h) (le_value t)
meets_target_lem h t lh lt bh bt =
    meets_target-leb 32 h t (omega arith) (omega arith) bh bt
    ∙ rw (take_all 32 h lh, take_all 32 t lt)
