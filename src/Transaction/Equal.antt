-- ===== src/Transaction/Equal.antt =====
-- The comparison of bytes decides their equality.
use shawncoin.Prelude.{◌≡◌, refl, true, [], ◌∷◌, arith}
use shawncoin.Wire.{Bytes}
use shawncoin.Transaction.{beq_bytes}

pub beq_bytes→eq : (xs ys : Bytes) → beq_bytes xs ys ≡ true → xs ≡ ys
unfolding beq_bytes
beq_bytes→eq [] [] e = refl
beq_bytes→eq [] (y ∷ ys) e = absurd (cc e)
beq_bytes→eq (x ∷ xs) [] e = absurd (cc e)
beq_bytes→eq (x ∷ xs) (y ∷ ys) e = ground (arith, beq_bytes→eq xs ys)

pub beq_bytes_refl : (xs : Bytes) → beq_bytes xs xs ≡ true
unfolding beq_bytes
beq_bytes_refl [] = refl
beq_bytes_refl (x ∷ xs) = ground (arith, beq_bytes_refl xs)
