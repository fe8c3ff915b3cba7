-- ===== src/Wire/Ranges.antt =====
-- What a reader returns when the bytes that it reads are bytes, and that it leaves bytes.
use shawncoin.Prelude.{
  ℕ, zero, suc, ◌^◌, ◌<◌, ◌≡◌, refl, ap, subst, Option, some, [], ◌∷◌, Bool, true, false, length,
  length-take, All, All-take, All-drop, ltb, ◌==◌, ltb→lt, ◌≤◌, Bool-cases, Option-cases, inl, inr,
  arith,
}
use native.Mathlib.Nat.{pow-suc}
use shawncoin.Wire.{
  Bytes, IsByte, read, read_u32, read_u64, read_var_int, le_value, var_int_2, var_int_4,
}
use shawncoin.Wire.Monad.{Parser, pure, ◌>>=◌, ◌>>◌, guard, read_many}

abbrev pub Ensures : {A : Type 0} → Parser A → (A → Type 0) → Type 0
Ensures {A} p P =
    (bs : Bytes) (a : A) (rest : Bytes)
    → All IsByte bs
    → p bs ≡ some (a, rest)
    → P a × All IsByte rest

pub some_pair :
    {A B : Type 0} {a b : A} {x y : B}
    → ◌≡◌ {A = Option (A × B)} (some (a, x)) (some (b, y))
    → (a ≡ b) × (x ≡ y)
some_pair e = (cc, cc)

pub bind-Ensures :
    {A B : Type 0} (P : A → Type 0) (Q : B → Type 0) (p : Parser A) (f : A → Parser B)
    → Ensures p P
    → ((a : A) → P a → Ensures (f a) Q)
    → Ensures (p >>= f) Q
bind-Ensures P Q p f hp hf bs b rest hb e = elim (Option-cases (p bs)) [
  | inl fails ↦ absurd (cc (rw (fails, ◌>>=◌) at e))
  | inr ((a, mid), done) ↦
      let (pa, hm) = hp bs a mid hb done in hf a pa mid b rest hm (rw (done, ◌>>=◌) at e)
]

pub pure-Ensures : {A : Type 0} (P : A → Type 0) (a : A) → P a → Ensures (pure a) P
pure-Ensures P a pa bs b rest hb e =
    let (p, q) = some_pair e in (subst P p pa, subst (All IsByte) q hb)

pub guard-Ensures :
    {A : Type 0} (P : A → Type 0) (g : Bool) (p : Parser A)
    → (g ≡ true → Ensures p P)
    → Ensures (guard g >> p) P
guard-Ensures P true p h bs a rest hb e = h refl bs a rest hb e
guard-Ensures P false p h bs a rest hb e = absurd (cc e)

long_le : (a b : ℕ) → ltb a b ≡ false → b ≤ a
long_le a b h = ground arith

pub read-Ensures : (n : ℕ) → Ensures (read n) (λ xs. (length xs ≡ n) × All IsByte xs)
unfolding read
read-Ensures n bs xs rest hb e = elim (Bool-cases (ltb (length bs) n)) [
  | inl short ↦ absurd (cc (rw short at e))
  | inr long ↦
      let (p, q) = some_pair (rw long at e) in
      (
        (
          rw (← p, length-take n bs) (omega (arith, long_le (length bs) n long)),
          subst (All IsByte) p (All-take IsByte n bs hb),
        ),
        subst (All IsByte) q (All-drop IsByte n bs hb),
      )
]

pub le_value_bound : (bs : Bytes) → All IsByte bs → le_value bs < 256 ^ length bs
le_value_bound [] h = omega arith
le_value_bound (b ∷ bs) (hb, h) = omega (arith, le_value_bound bs h, pow-suc 256 (length bs))

pub u32-Ensures : Ensures read_u32 (λ v. v < 2 ^ 32)
unfolding read_u32
u32-Ensures =
    bind-Ensures _ _ (read 4) _ (read-Ensures 4)
      (λ xs h. pure-Ensures _ (le_value xs) (rw h.0 at (le_value_bound xs h.1)))

pub u64-Ensures : Ensures read_u64 (λ v. v < 2 ^ 64)
unfolding read_u64
u64-Ensures =
    bind-Ensures _ _ (read 8) _ (read-Ensures 8)
      (λ xs h. pure-Ensures _ (le_value xs) (rw h.0 at (le_value_bound xs h.1)))

var_int_2-Ensures : Ensures var_int_2 (λ n. n < 2 ^ 64)
unfolding var_int_2
var_int_2-Ensures [] n rest hb e = absurd (cc e)
var_int_2-Ensures (a ∷ []) n rest hb e = absurd (cc e)
var_int_2-Ensures (a ∷ b ∷ bs) n rest (ha, (hb, h)) e =
    let (p, q) = some_pair e in (omega arith, subst (All IsByte) q h)

var_int_4-Ensures : Ensures var_int_4 (λ n. n < 2 ^ 64)
unfolding var_int_4
var_int_4-Ensures [] n rest hb e = absurd (cc e)
var_int_4-Ensures (a ∷ []) n rest hb e = absurd (cc e)
var_int_4-Ensures (a ∷ b ∷ []) n rest hb e = absurd (cc e)
var_int_4-Ensures (a ∷ b ∷ c ∷ []) n rest hb e = absurd (cc e)
var_int_4-Ensures (a ∷ b ∷ c ∷ d ∷ bs) n rest (ha, (hb, (hc, (hd, h)))) e =
    let (p, q) = some_pair e in (ground arith, subst (All IsByte) q h)

pub var_int-Ensures : Ensures read_var_int (λ n. n < 2 ^ 64)
unfolding read_var_int
var_int-Ensures [] n rest hb e = absurd (cc e)
var_int-Ensures (m ∷ bs) n rest (hm, h) e = elim (Bool-cases (ltb m 0xfd)) [
  | inl small ↦
      let (p, q) = some_pair (rw small at e) in
      (omega (arith, ltb→lt m 0xfd small), subst (All IsByte) q h)
  | inr large ↦ elim (Bool-cases (m == 0xfd)) [
    | inl two ↦ var_int_2-Ensures bs n rest h (rw (large, two) at e)
    | inr more ↦ elim (Bool-cases (m == 0xfe)) [
      | inl four ↦ var_int_4-Ensures bs n rest h (rw (large, more, four) at e)
      | inr other ↦ absurd (cc (rw (large, more, other) at e))
    ]
  ]
]

pub many-Ensures :
    {A : Type 0} (P : A → Type 0) (n : ℕ) (p : Parser A)
    → Ensures p P
    → Ensures (read_many n p) (λ xs. (length xs ≡ n) × All P xs)
unfolding read_many
many-Ensures P zero p h = pure-Ensures _ [] (refl, tt)
many-Ensures P (suc n) p h = bind-Ensures P _ p _ h λ x px.
    bind-Ensures _ _ (read_many n p) _ (many-Ensures P n p h)
      λ xs (e, pxs). pure-Ensures _ (x ∷ xs) (ap suc e, (px, pxs))
