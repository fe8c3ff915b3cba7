-- ===== src/Address/Radix.antt =====
-- The digit loop of the Base58 functions changes the base of a number.
use shawncoin.Prelude.{
  ℕ, zero, suc, ◌+◌, ◌*◌, ◌/◌, ◌%◌, ◌^◌, ◌≤◌, ◌<◌, ◌≡◌, ◌≢◌, refl, sym, ap, ◌∙◌, subst, [], ◌∷◌,
  ◌++◌, All, ◌==◌, arith, Bool-cases, if-case, inl, inr,
}
use mathlib.Core.List.{reverse, reverse-append}
use shawncoin.Wire.{Bytes}
use shawncoin.Address.{push_carry, shift_in}

-- The number of digits with the lowest first, and of digits with the highest first behind `acc`.
abbrev pub value : ℕ → Bytes → ℕ
value base [] = 0
value base (d ∷ ds) = d + base * value base ds

abbrev pub value_from : ℕ → ℕ → Bytes → ℕ
value_from base acc [] = acc
value_from base acc (d ∷ ds) = value_from base (acc * base + d) ds

-- Digits below the base, of which the highest, the last one, is not zero.
abbrev pub HasTop : Bytes → Type 0
HasTop [] = Unit {0}
HasTop (d ∷ []) = 0 < d
HasTop (d ∷ e ∷ ds) = HasTop (e ∷ ds)

pub record IsCanonical (base : ℕ) (ds : Bytes) : Type 0 where
  pub digits : All (λ d. d < base) ds
  pub top : HasTop ds

-- What the loop needs of the two bases: no wrap-around, and a carry that stays small.
pub record Fits (from to : ℕ) : Type 0 where
  pub two : 2 ≤ to
  pub apart : (carry d : ℕ) → carry ≤ from → d < to → (carry + d * from) % 2 ^ 32 ≡ carry + d * from
  pub small : (carry d : ℕ) → carry ≤ from → d < to → (carry + d * from) / to ≤ from
  pub rest : (n : ℕ) → (n % to < to) × (n ≡ n % to + to * (n / to))
  pub falls : (n : ℕ) → 0 < n → n / to < n

pub encode_Fits : Fits 256 58
encode_Fits = record {
  two = omega arith;
  apart = λ carry d h k. omega arith;
  small = λ carry d h k. omega arith;
  rest = λ n. omega arith;
  falls = λ n h. omega arith;
}

pub decode_Fits : Fits 58 256
decode_Fits = record {
  two = omega arith;
  apart = λ carry d h k. omega arith;
  small = λ carry d h k. omega arith;
  rest = λ n. omega arith;
  falls = λ n h. omega arith;
}

regroup :
    (to from v r q n d : ℕ)
    → n + d * from ≡ r + to * q
    → r + to * (q + from * v) ≡ n + from * (d + to * v)
regroup to from v r q n d e = grind arith

HasTop-cons : (d : ℕ) (ds : Bytes) → HasTop ds → (ds ≡ [] → 0 < d) → HasTop (d ∷ ds)
HasTop-cons d [] h one = one refl
HasTop-cons d (e ∷ ds) h one = h

HasTop-tail : (d : ℕ) (ds : Bytes) → HasTop (d ∷ ds) → HasTop ds
HasTop-tail d [] h = tt
HasTop-tail d (e ∷ ds) h = h

pos_of_product : (n d from r : ℕ) → 0 < d → 1 ≤ from → n + d * from ≡ r → 0 < r
pos_of_product n d from r h one e = grind arith

module _ (from to : ℕ) (f : Fits from to) where
  value-push_carry : (fuel n : ℕ) → n < fuel → value to (push_carry to fuel n) ≡ n
  unfolding push_carry
  value-push_carry zero n h = absurd (omega arith)
  value-push_carry (suc fuel) n h = elim (Bool-cases (n == 0)) [
    | inl none_left ↦ rw none_left (ground arith)
    | inr more ↦
        let less = f.falls n (ground arith) in
        rw more (rw (value-push_carry fuel (n / to) (omega arith)) (sym (f.rest n).1))
  ]

  pub value-shift_in :
      (n : ℕ) (ds : Bytes)
      → n ≤ from
      → All (λ d. d < to) ds
      → value to (shift_in from to n ds) ≡ n + from * value to ds
  unfolding shift_in
  value-shift_in n [] h a = value-push_carry (suc n) n (omega arith) ∙ omega arith
  value-shift_in n (d ∷ ds) h (hd, a) =
      let c = n + d * from in
      rw (f.apart n d h hd) (
        rw (value-shift_in (c / to) ds (f.small n d h hd) a)
          (regroup to from (value to ds) (c % to) (c / to) n d (f.rest c).1))

  digits-push_carry : (fuel n : ℕ) → All (λ d. d < to) (push_carry to fuel n)
  unfolding push_carry
  digits-push_carry zero n = tt
  digits-push_carry (suc fuel) n =
      if-case (All (λ d. d < to)) (n == 0) (λ _. tt)
        (λ _. ((f.rest n).0, digits-push_carry fuel (n / to)))

  digits-shift_in : (n : ℕ) (ds : Bytes) → All (λ d. d < to) (shift_in from to n ds)
  unfolding shift_in
  digits-shift_in n [] = digits-push_carry (suc n) n
  digits-shift_in n (d ∷ ds) = ((f.rest _).0, digits-shift_in ((n + d * from) % 2 ^ 32 / to) ds)

  HasTop-push_carry : (fuel n : ℕ) → n < fuel → HasTop (push_carry to fuel n)
  unfolding push_carry
  HasTop-push_carry zero n h = tt
  HasTop-push_carry (suc fuel) n h =
      if-case HasTop (n == 0) (λ _. tt)
        λ more.
          let less = f.falls n (ground arith) in
          HasTop-cons (n % to) (push_carry to fuel (n / to))
            (HasTop-push_carry fuel (n / to) (omega arith))
            λ e.
              let q : n / to ≡ 0 =
                sym (value-push_carry fuel (n / to) (omega arith)) ∙ ap (value to) e in
              let whole : n ≡ n % to =
                (f.rest n).1 ∙ ap (λ (k : ℕ). n % to + to * k) q ∙ omega arith in
              ground arith

  shift_in-cons-ne : (n d : ℕ) (ds : Bytes) → shift_in from to n (d ∷ ds) ≢ []
  unfolding shift_in
  shift_in-cons-ne n d ds e = cc e

  shift_in-cons :
      (n d : ℕ) (ds : Bytes)
      → n ≤ from
      → d < to
      → shift_in from to n (d ∷ ds)
        ≡ (n + d * from) % to ∷ shift_in from to ((n + d * from) / to) ds
  unfolding shift_in
  shift_in-cons n d ds h hd =
      ap (λ (c : ℕ). c % to ∷ shift_in from to (c / to) ds) (f.apart n d h hd)

  HasTop-shift_in :
      (n : ℕ) (ds : Bytes)
      → n ≤ from
      → 1 ≤ from
      → IsCanonical to ds
      → HasTop (shift_in from to n ds)
  unfolding shift_in
  HasTop-shift_in n [] h one v = HasTop-push_carry (suc n) n (omega arith)
  HasTop-shift_in n (d ∷ []) h one v =
      let c = n + d * from in
      let small = f.small n d h v.digits.0 in
      subst HasTop (sym (shift_in-cons n d [] h v.digits.0)) (
        HasTop-cons (c % to) (shift_in from to (c / to) [])
          (HasTop-shift_in (c / to) [] small one (record { digits = tt; top = tt }))
          λ e.
            let q : c / to ≡ 0 =
              sym (value-push_carry (suc (c / to)) (c / to) (omega arith)) ∙ ap (value to) e in
            let whole : c ≡ c % to =
              (f.rest c).1 ∙ ap (λ (k : ℕ). c % to + to * k) q ∙ omega arith in
            pos_of_product n d from (c % to) v.top one whole)
  HasTop-shift_in n (d ∷ e ∷ ds) h one v =
      let c = n + d * from in
      subst HasTop (sym (shift_in-cons n d (e ∷ ds) h v.digits.0)) (
        HasTop-cons (c % to) (shift_in from to (c / to) (e ∷ ds))
          (HasTop-shift_in (c / to) (e ∷ ds) (f.small n d h v.digits.0) one
            (record { digits = v.digits.1; top = v.top }))
          λ p. absurd (shift_in-cons-ne (c / to) e ds p))

  pub shift_in-IsCanonical :
      (n : ℕ) (ds : Bytes)
      → n ≤ from
      → 1 ≤ from
      → IsCanonical to ds
      → IsCanonical to (shift_in from to n ds)
  shift_in-IsCanonical n ds h one v = record {
    digits = digits-shift_in n ds;
    top = HasTop-shift_in n ds h one v;
  }

-- Canonical digits to the base 256 are determined by their number.
positive : (d : ℕ) (ds : Bytes) → HasTop (d ∷ ds) → 0 < value 256 (d ∷ ds)
positive d [] h = omega arith
positive d (e ∷ ds) h = omega (arith, positive e ds h)

pub value-injective :
    (xs ys : Bytes)
    → IsCanonical 256 xs
    → IsCanonical 256 ys
    → value 256 xs ≡ value 256 ys
    → xs ≡ ys
value-injective [] [] v w e = refl
value-injective [] (y ∷ ys) v w e = absurd (omega (arith, positive y ys w.top))
value-injective (x ∷ xs) [] v w e = absurd (omega (arith, positive x xs v.top))
value-injective (x ∷ xs) (y ∷ ys) v w e =
    let bx = v.digits.0 in
    let by = w.digits.0 in
    let head : x ≡ y = omega arith in
    let tail =
      value-injective xs ys (record { digits = v.digits.1; top = HasTop-tail x xs v.top })
        (record { digits = w.digits.1; top = HasTop-tail y ys w.top }) (omega arith) in
    cc (head, tail)

-- The two readings agree, one from each end.
value_from-append :
    (base acc d : ℕ) (ds : Bytes)
    → value_from base acc (ds ++ (d ∷ [])) ≡ value_from base acc ds * base + d
value_from-append base acc d [] = refl
value_from-append base acc d (e ∷ ds) = value_from-append base (acc * base + e) d ds

pub value_from-reverse : (base : ℕ) (ds : Bytes) → value_from base 0 (reverse ds) ≡ value base ds
value_from-reverse base [] = refl
value_from-reverse base (d ∷ ds) =
    ap (value_from base 0) (reverse-append (d ∷ []) ds)
    ∙ value_from-append base 0 d (reverse ds)
    ∙ ap (λ (v : ℕ). v * base + d) (value_from-reverse base ds)
    ∙ grind arith
