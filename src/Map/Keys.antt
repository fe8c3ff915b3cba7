-- ===== src/Map/Keys.antt =====
-- The orders of the node's maps: uint64_t heights, uint256 (the lexicographic order of std::array),
-- and OutPoint (operator< of shawncoin/src/core/types.cpp).
use shawncoin.Prelude.{
  ℕ, ◌≡◌, refl, Bool, true, false, [], ◌∷◌, ltb, ◌==◌, ◌&&◌, ◌||◌, arith, if◌then◌else◌,
}
use shawncoin.Map.{Less}
use shawncoin.Wire.{Bytes}
use shawncoin.Types.{OutPoint}

pub ltb_irrefl : (a : ℕ) → ltb a a ≡ false
ltb_irrefl a = ground arith

pub ltb_trans : (a b c : ℕ) → ltb a b ≡ true → ltb b c ≡ true → ltb a c ≡ true
ltb_trans a b c p q = ground arith

pub ltb_antisym : (a b : ℕ) → ltb a b ≡ false → ltb b a ≡ false → a ≡ b
ltb_antisym a b p q = ground arith

instance abbrev pub nat_less : Less ℕ
nat_less = record { less = ltb; irrefl = ltb_irrefl; trans = ltb_trans; antisym = ltb_antisym }

-- memcmp(a, b, n) < 0, and operator< of two arrays.
unfoldable pub bytes_less : Bytes → Bytes → Bool
bytes_less [] [] = false
bytes_less [] (y ∷ ys) = true
bytes_less (x ∷ xs) [] = false
bytes_less (x ∷ xs) (y ∷ ys) = ltb x y || ((x == y) && bytes_less xs ys)

pub bytes_less_irrefl : (a : Bytes) → bytes_less a a ≡ false
unfolding bytes_less
bytes_less_irrefl [] = refl
bytes_less_irrefl (x ∷ xs) = ground (arith, bytes_less_irrefl xs)

pub bytes_less_trans :
    (a b c : Bytes) → bytes_less a b ≡ true → bytes_less b c ≡ true → bytes_less a c ≡ true
unfolding bytes_less
bytes_less_trans [] [] c p q = q
bytes_less_trans [] (y ∷ ys) [] p q = q
bytes_less_trans [] (y ∷ ys) (z ∷ zs) p q = refl
bytes_less_trans (x ∷ xs) [] c p q = absurd (cc p)
bytes_less_trans (x ∷ xs) (y ∷ ys) [] p q = q
bytes_less_trans (x ∷ xs) (y ∷ ys) (z ∷ zs) p q = ground (arith, bytes_less_trans xs ys zs)

pub bytes_less_antisym : (a b : Bytes) → bytes_less a b ≡ false → bytes_less b a ≡ false → a ≡ b
unfolding bytes_less
bytes_less_antisym [] [] p q = refl
bytes_less_antisym [] (y ∷ ys) p q = absurd (cc p)
bytes_less_antisym (x ∷ xs) [] p q = absurd (cc q)
bytes_less_antisym (x ∷ xs) (y ∷ ys) p q = ground (arith, bytes_less_antisym xs ys)

instance abbrev pub bytes_order : Less Bytes
bytes_order = record {
  less = bytes_less;
  irrefl = bytes_less_irrefl;
  trans = bytes_less_trans;
  antisym = bytes_less_antisym;
}

-- `c < 0 || (c == 0 && index < o.index)`: the hashes are equal where neither is less.
unfoldable pub outpoint_less : OutPoint → OutPoint → Bool
outpoint_less a b =
    if bytes_less a.hash b.hash
    then true
    else if bytes_less b.hash a.hash
    then false
    else ltb a.index b.index

pub outpoint_less_irrefl : (a : OutPoint) → outpoint_less a a ≡ false
unfolding outpoint_less
outpoint_less_irrefl a = ground (arith, bytes_less_irrefl a.hash)

pub outpoint_less_trans :
    (a b c : OutPoint)
    → outpoint_less a b ≡ true
    → outpoint_less b c ≡ true
    → outpoint_less a c ≡ true
unfolding outpoint_less
outpoint_less_trans a b c p q = ground (
  arith,
  bytes_less_trans a.hash b.hash c.hash,
  bytes_less_antisym a.hash b.hash,
  bytes_less_antisym b.hash c.hash,
  bytes_less_irrefl a.hash,
)

pub outpoint_less_antisym :
    (a b : OutPoint) → outpoint_less a b ≡ false → outpoint_less b a ≡ false → a ≡ b
unfolding outpoint_less
outpoint_less_antisym a b p q = ground (arith, bytes_less_antisym a.hash b.hash)

instance abbrev pub outpoint_order : Less OutPoint
outpoint_order = record {
  less = outpoint_less;
  irrefl = outpoint_less_irrefl;
  trans = outpoint_less_trans;
  antisym = outpoint_less_antisym;
}
