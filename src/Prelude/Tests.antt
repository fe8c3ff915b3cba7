-- ===== src/Prelude/Tests.antt =====
-- Boolean tests on native numbers, the conditional, and case lemmas on computed values.
use Prim.Native.Nat.{ℕ, zero, suc, ◌≤◌, ◌<◌, compare, Ordering}
use mathlib.Core.Path.{◌≡◌, refl, ap, ◌∙◌}
use native.Mathlib.Decide.{ℕ_discrete}
use mathlib.Core.Logic.{◌↔◌, ◌⊎◌, inl, inr}
use mathlib.Core.Bool.{Bool, true, false, not, ◌&&◌}
use mathlib.Core.Option.{Option, none, some}
use native.Mathlib.Omega.{arith}

abbrev pub ltb : ℕ → ℕ → Bool
ltb a b = elim (compare a b) [ Ordering.lt ↦ true | _ ↦ false ]

abbrev pub leb : ℕ → ℕ → Bool
leb a b = elim (compare a b) [ Ordering.gt ↦ false | _ ↦ true ]

infix 50 ◌==◌
abbrev pub ◌==◌ : ℕ → ℕ → Bool
a == b = elim (compare a b) [ Ordering.eq ↦ true | _ ↦ false ]

infix 1 if◌then◌else◌
abbrev pub if◌then◌else◌ {ℓ} : {A : Type ℓ} → Bool → A → A → A
if true then x else y = x
if false then x else y = y

abbrev pub is_some {ℓ} : {A : Type ℓ} → Option A → Bool
is_some none = false
is_some (some a) = true

pub ltb→lt : (a b : ℕ) → ltb a b ≡ true → a < b
ltb→lt a b h = ground arith

pub lt→ltb : (a b : ℕ) → a < b → ltb a b ≡ true
lt→ltb a b h = ground arith

pub leb→le : (a b : ℕ) → leb a b ≡ true → a ≤ b
leb→le a b h = ground arith

pub le→ltb : (a b : ℕ) → b ≤ a → ltb a b ≡ false
le→ltb a b h = ground arith

pub ==_iff : (a b : ℕ) → ((a == b) ≡ true) ↔ (a ≡ b)
==_iff a b = ground arith

-- To split on a computed value and keep the equation.
pub Bool-cases : (b : Bool) → (b ≡ true) ⊎ (b ≡ false)
Bool-cases true = inl refl
Bool-cases false = inr refl

pub Option-cases {ℓ} : {A : Type ℓ} (o : Option A) → (o ≡ none) ⊎ ((a : A) × (o ≡ some a))
Option-cases none = inl refl
Option-cases (some a) = inr (a, refl)

pub eq_of_some {ℓ} : {A : Type ℓ} {a b : A} → some a ≡ some b → a ≡ b
eq_of_some e = cc

-- The two halves of a conjunction that holds.
pub and_left : (a b : Bool) → (a && b) ≡ true → a ≡ true
and_left a b h = ground arith

pub and_right : (a b : Bool) → (a && b) ≡ true → b ≡ true
and_right a b h = ground arith

pub not-false : (b : Bool) → not b ≡ false → b ≡ true
not-false true e = refl
not-false false e = absurd (cc e)

-- A property of both branches, each with the value of its test.
pub if-case {ℓ κ} :
    {A : Type ℓ} (P : A → Type κ) (t : Bool) {x y : A}
    → (t ≡ true → P x)
    → (t ≡ false → P y)
    → P (if t then x else y)
if-case P true px py = px refl
if-case P false px py = py refl

-- Whether a test passes at every number below a limit, by running it at each.
unfoldable pub passes : ℕ → (ℕ → Bool) → Bool
passes zero test = true
passes (suc limit) test = passes limit test && test limit

-- Where it passes at all of them, it passes at each.
pub passes_lem :
    (limit : ℕ) (test : ℕ → Bool) (k : ℕ) → passes limit test ≡ true → k < limit → test k ≡ true
unfolding passes
passes_lem zero test k done less = absurd (omega arith)
passes_lem (suc limit) test k done less = elim (ℕ_discrete k limit) [
  | yes e ↦ ap test e ∙ and_right (passes limit test) (test limit) done
  | no e ↦ passes_lem limit test k (and_left (passes limit test) (test limit) done) (omega arith)
]

-- An optional number is the given one where the test says so.
pub some_of_test :
    (o : Option ℕ) (d : ℕ) → (elim o [ none ↦ false | some e ↦ e == d ]) ≡ true → o ≡ some d
some_of_test none d h = absurd (cc h)
some_of_test (some e) d h = ground arith

-- What an optional value is where its image is present.
pub some_of_image {ℓ κ} :
    {A : Type ℓ} {B : Type κ} (f : A → B) (o : Option A) (b : B)
    → (elim o [ none ↦ none | some a ↦ some (f a) ]) ≡ some b
    → (a : A) × (o ≡ some a) × (f a ≡ b)
some_of_image f none b h = absurd (cc h)
some_of_image f (some a) b h = (a, refl, eq_of_some h)
