-- ===== src/Wire/Reads.antt =====
-- A reader undoes a writer: it takes exactly the bytes that were written, whatever follows.
use shawncoin.Prelude.{
  ℕ, ◌^◌, ◌<◌, ◌≡◌, refl, some, List, [], ◌∷◌, ◌++◌, Bool, true, length, length-append, take-append,
  drop-append, All, arith, append_assoc,
}
use shawncoin.Wire.{
  Bytes, write_u32, write_u64, write_var_int, read, read_u32, read_u64, read_var_int, le_value,
}
use shawncoin.Wire.Monad.{Parser, pure, ◌>>=◌, ◌>>◌, guard, read_many, write_many}

abbrev pub Reads : {A : Type 0} → Parser A → Bytes → A → Type 0
Reads p bs a = (rest : Bytes) → p (bs ++ rest) ≡ some (a, rest)

pub pure-Reads : {A : Type 0} (a : A) → Reads (pure a) [] a
pure-Reads a rest = refl

pub bind-Reads :
    {A B : Type 0} (p : Parser A) (f : A → Parser B) (bs cs : Bytes) (a : A) (b : B)
    → Reads p bs a
    → Reads (f a) cs b
    → Reads (p >>= f) (bs ++ cs) b
bind-Reads p f bs cs a b hp hf rest = rw (append_assoc bs cs rest, hp (cs ++ rest), ◌>>=◌) (hf rest)

-- The last step of a reader that returns what it has read.
pub done-Reads :
    {A B : Type 0} (p : Parser A) (f : A → B) (bs : Bytes) (a : A)
    → Reads p bs a
    → Reads (p >>= λ x. pure (f x)) bs (f a)
done-Reads p f bs a h rest = rw (h rest, ◌>>=◌)

pub guard-Reads :
    {A : Type 0} (g : Bool) (p : Parser A) (bs : Bytes) (a : A)
    → g ≡ true
    → Reads p bs a
    → Reads (guard g >> p) bs a
guard-Reads g p bs a e h rest = rw e (h rest)

pub read-Reads : (xs : Bytes) (n : ℕ) → length xs ≡ n → Reads (read n) xs xs
unfolding read
read-Reads xs n e rest =
    rw (← e) (ground (arith, length-append xs rest, take-append xs rest, drop-append xs rest))

-- Four and eight bytes in little-endian order stand for the number that was written.
le_value-write_u32 : (v : ℕ) → v < 2 ^ 32 → le_value (write_u32 v) ≡ v
unfolding write_u32
le_value-write_u32 v h = omega arith

le_value-write_u64 : (v : ℕ) → v < 2 ^ 64 → le_value (write_u64 v) ≡ v
unfolding write_u64
le_value-write_u64 v h = omega arith

pub length-write_u32 : (v : ℕ) → length (write_u32 v) ≡ 4
unfolding write_u32
length-write_u32 v = refl

pub length-write_u64 : (v : ℕ) → length (write_u64 v) ≡ 8
unfolding write_u64
length-write_u64 v = refl

pub u32-Reads : (v : ℕ) → v < 2 ^ 32 → Reads read_u32 (write_u32 v) v
unfolding read_u32
u32-Reads v h rest =
    rw (read-Reads (write_u32 v) 4 (length-write_u32 v) rest, ◌>>=◌, le_value-write_u32 v h)

pub u64-Reads : (v : ℕ) → v < 2 ^ 64 → Reads read_u64 (write_u64 v) v
unfolding read_u64
u64-Reads v h rest =
    rw (read-Reads (write_u64 v) 8 (length-write_u64 v) rest, ◌>>=◌, le_value-write_u64 v h)

pub var_int-Reads : (n : ℕ) → n < 2 ^ 31 → Reads read_var_int (write_var_int n) n
unfolding read_var_int write_var_int
var_int-Reads n h rest = ground arith

pub many-Reads :
    {A : Type 0} (p : Parser A) (w : A → Bytes) (xs : List A)
    → All (λ x. Reads p (w x) x) xs
    → Reads (read_many (length xs) p) (write_many w xs) xs
unfolding read_many write_many
many-Reads p w [] h rest = refl
many-Reads p w (x ∷ xs) (hx, hs) rest = rw (
  append_assoc (w x) (write_many w xs) rest,
  hx (write_many w xs ++ rest),
  ◌>>=◌,
  many-Reads p w xs hs rest,
)
