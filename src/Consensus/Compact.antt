-- ===== src/Consensus/Compact.antt =====
-- The number that the compact target of checkProofOfWork and Miner::mineBlock stands for.
use shawncoin.Prelude.{
  ℕ, zero, suc, ◌+◌, ◌-◌, ◌*◌, ◌/◌, ◌%◌, ◌^◌, ◌≤◌, ◌<◌, ◌≡◌, ◌≢◌, refl, ap, ◌∙◌, true, false, [],
  ◌∷◌, ltb, leb, length, length-set, get_or, arith, set, replicate,
}
use native.Mathlib.Nat.{pow-suc}
use native.Mathlib.Numerals.{towards_suc}
use shawncoin.Wire.{Bytes, le_value}
use shawncoin.Types.{zero_hash}
use shawncoin.Consensus.{compact_target, large_target}

-- The number that the bytes stand for with the highest byte first.
abbrev pub be_value : Bytes → ℕ
be_value [] = 0
be_value (b ∷ bs) = b * 256 ^ length bs + be_value bs

le_value-set :
    (xs : Bytes) (i v : ℕ)
    → i < length xs
    → get_or xs i 0 ≡ 0
    → le_value (set xs i v) ≡ le_value xs + 256 ^ i * v
le_value-set [] i v h e = absurd (omega arith)
le_value-set (x ∷ xs) zero v h e = omega arith
le_value-set (x ∷ xs) (suc i) v h e =
    omega (arith, le_value-set xs i v (omega arith) e, ap (λ (p : ℕ). p * v) (pow-suc 256 i))

-- `k` bytes follow the one that is written.
be_value-set :
    (xs : Bytes) (i k v : ℕ)
    → i + k + 1 ≡ length xs
    → get_or xs i 0 ≡ 0
    → be_value (set xs i v) ≡ be_value xs + 256 ^ k * v
be_value-set [] i k v h e = absurd (omega arith)
be_value-set (x ∷ xs) zero k v h e = let n : length xs ≡ k = omega arith in rw (n, e) (omega arith)
be_value-set (x ∷ xs) (suc i) k v h e =
    rw (length-set xs i v) (omega (arith, be_value-set xs i k v (omega arith) e))

get_or-set_ne : (xs : Bytes) (i j v : ℕ) → i ≢ j → get_or (set xs i v) j 0 ≡ get_or xs j 0
get_or-set_ne [] i j v h = refl
get_or-set_ne (x ∷ xs) zero zero v h = absurd (h refl)
get_or-set_ne (x ∷ xs) zero (suc j) v h = refl
get_or-set_ne (x ∷ xs) (suc i) zero v h = refl
get_or-set_ne (x ∷ xs) (suc i) (suc j) v h = get_or-set_ne xs i j v (λ e. h (ap suc e))

get_or-zeros : (n i z : ℕ) → z ≡ 0 → get_or (replicate n z) i 0 ≡ 0
get_or-zeros zero i z e = refl
get_or-zeros (suc n) zero z e = e
get_or-zeros (suc n) (suc i) z e = get_or-zeros n i z e

-- Three bytes, the last one at place q + 2, in a string of zeros.
three : ℕ → ℕ → ℕ → ℕ → Bytes
three q a b c = set (set (set zero_hash (q + 2) a) (q + 1) b) q c

module _ (q k a b c : ℕ) (fits : q + k + 3 ≡ 32) where
  at_one : get_or (set zero_hash (q + 2) a) (q + 1) 0 ≡ 0
  at_one =
      get_or-set_ne zero_hash (q + 2) (q + 1) a (λ e. absurd (omega arith))
      ∙ get_or-zeros 32 (q + 1) 0 refl

  at_zero : get_or (set (set zero_hash (q + 2) a) (q + 1) b) q 0 ≡ 0
  at_zero =
      get_or-set_ne (set zero_hash (q + 2) a) (q + 1) q b (λ e. absurd (omega arith))
      ∙ get_or-set_ne zero_hash (q + 2) q a (λ e. absurd (omega arith))
      ∙ get_or-zeros 32 q 0 refl

  length_one : length (set zero_hash (q + 2) a) ≡ 32
  length_one = length-set zero_hash (q + 2) a

  length_zero : length (set (set zero_hash (q + 2) a) (q + 1) b) ≡ 32
  length_zero = length-set (set zero_hash (q + 2) a) (q + 1) b ∙ length_one

  three-le_value : le_value (three q a b c) ≡ 256 ^ (q + 2) * a + 256 ^ (q + 1) * b + 256 ^ q * c
  unfolding three
  three-le_value = omega (
    arith,
    le_value-set zero_hash (q + 2) a (omega arith) (get_or-zeros 32 (q + 2) 0 refl),
    le_value-set (set zero_hash (q + 2) a) (q + 1) b (omega (arith, length_one)) at_one,
    le_value-set (set (set zero_hash (q + 2) a) (q + 1) b) q c (omega (arith, length_zero)) at_zero,
  )

  three-be_value : be_value (three q a b c) ≡ 256 ^ k * a + 256 ^ (k + 1) * b + 256 ^ (k + 2) * c
  unfolding three
  three-be_value = omega (
    arith,
    be_value-set zero_hash (q + 2) k a (omega arith) (get_or-zeros 32 (q + 2) 0 refl),
    be_value-set (set zero_hash (q + 2) a) (q + 1) (k + 1) b (omega (arith, length_one)) at_one,
    be_value-set (set (set zero_hash (q + 2) a) (q + 1) b) q (k + 2) c (omega (arith, length_zero))
        at_zero,
  )

pow_add_one : (n : ℕ) → 256 ^ (n + 1) ≡ 256 * 256 ^ n
pow_add_one n = simp towards_suc (omega (arith, pow-suc 256 n))

pow_add_two : (n : ℕ) → 256 ^ (n + 2) ≡ 65536 * 256 ^ n
pow_add_two n = simp towards_suc (omega (arith, pow-suc 256 n, pow-suc 256 (suc n)))

large_target-three :
    (q word : ℕ)
    → large_target word (q + 2) ≡ three q (word % 256) (word / 2 ^ 8 % 256) (word / 2 ^ 16 % 256)
unfolding large_target three
large_target-three q word =
    let p0 : ltb 0 (q + 2) ≡ true = ground arith in
    let p1 : ltb 1 (q + 2) ≡ true = ground arith in
    let e1 : q + 2 - 1 ≡ q + 1 = omega arith in
    let e2 : q + 2 - 2 ≡ q = omega arith in rw (p0, p1, e1, e2)

-- For sizes from 4 to 32 the target consists of the three bytes of the mantissa, the lowest one at
-- place 34 - size.
compact_target-three :
    (compact : ℕ)
    → 4 ≤ compact / 2 ^ 24
    → compact / 2 ^ 24 ≤ 32
    → let word = compact % 2 ^ 23 in
      compact_target compact
      ≡ three (32 - compact / 2 ^ 24) (word % 256) (word / 2 ^ 8 % 256) (word / 2 ^ 16 % 256)
unfolding compact_target
compact_target-three compact lo hi =
    let size = compact / 2 ^ 24 in
    let big : leb size 3 ≡ false = ground arith in
    let used : leb (8 * (size - 3) / 8 + 1) 32 ≡ true = ground arith in
    let place : 32 - (8 * (size - 3) / 8 + 1) ≡ 32 - size + 2 = omega arith in
    rw (big, used, place, large_target-three)

add_rev : (x y z : ℕ) → x + y + z ≡ z + y + x
add_rev x y z = omega arith

-- The sum of three bytes at consecutive places.
digits :
    (n a b c : ℕ)
    → 256 ^ n * a + 256 ^ (n + 1) * b + 256 ^ (n + 2) * c ≡ (65536 * c + 256 * b + a) * 256 ^ n
digits n a b c = rw (pow_add_one n, pow_add_two n) (omega arith)

-- For sizes from 4 to 32: read with the highest byte first, the target is the documented number,
-- the mantissa times 256 ^ (size - 3); read with the lowest byte first, as the comparison with the
-- hash reads it, it is the mantissa with its bytes reversed times 256 ^ (32 - size).
pub compact_target_values :
    (compact : ℕ)
    → 4 ≤ compact / 2 ^ 24
    → compact / 2 ^ 24 ≤ 32
    → let word = compact % 2 ^ 23 in
      (be_value (compact_target compact) ≡ word * 256 ^ (compact / 2 ^ 24 - 3))
      × (le_value (compact_target compact)
          ≡ (65536 * (word % 256) + 256 * (word / 2 ^ 8 % 256) + word / 2 ^ 16)
            * 256 ^ (32 - compact / 2 ^ 24))
compact_target_values compact lo hi =
    let size = compact / 2 ^ 24 in
    let word = compact % 2 ^ 23 in
    let a = word % 256 in
    let b = word / 2 ^ 8 % 256 in
    let c = word / 2 ^ 16 % 256 in
    let fits : 32 - size + (size - 3) + 3 ≡ 32 = omega arith in
    let whole : 65536 * c + 256 * b + a ≡ word = omega arith in
    let top : c ≡ word / 2 ^ 16 = omega arith in
    (
      ap be_value (compact_target-three compact lo hi)
          ∙ three-be_value (32 - size) (size - 3) a b c fits
          ∙ digits (size - 3) a b c
          ∙ ap (λ (w : ℕ). w * 256 ^ (size - 3)) whole,
      ap le_value (compact_target-three compact lo hi)
          ∙ three-le_value (32 - size) (size - 3) a b c fits
          ∙ add_rev (256 ^ (32 - size + 2) * a) (256 ^ (32 - size + 1) * b) (256 ^ (32 - size) * c)
          ∙ digits (32 - size) c b a
          ∙ ap (λ (t : ℕ). (65536 * a + 256 * b + t) * 256 ^ (32 - size)) top,
    )
