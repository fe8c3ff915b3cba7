-- ===== src/Consensus/Buffer.antt =====
-- checkProofOfWork hashes the same bytes as Block::getHeaderHash.
use shawncoin.Prelude.{
  ℕ, ◌+◌, ◌/◌, ◌%◌, ◌^◌, ◌≡◌, refl, sym, ap, ◌∙◌, [], ◌∷◌, ◌++◌, append-nil, append_assoc,
  replicate, length, take_exact, drop_exact, take_all, length-append, arith,
}
use shawncoin.Wire.{Bytes, write_u32, write_u64}
use shawncoin.Wire.Reads.{length-write_u32}
use shawncoin.Types.{BlockHeader}
use shawncoin.Block.{header_bytes}
use shawncoin.Consensus.{copy_at, pow_buffer}

-- A copy of n bytes over the n bytes that follow a prefix of length off.
copy_at-append :
    (off n : ℕ) (a b s z : Bytes)
    → length a ≡ off
    → length b ≡ n
    → length s ≡ n
    → copy_at off n s (a ++ (b ++ z)) ≡ a ++ (s ++ z)
unfolding copy_at
copy_at-append off n a b s z ha hb hs = rw (
  take_exact off a (b ++ z) ha,
  take_all n s hs,
  sym (append_assoc a b z),
  drop_exact (off + n) (a ++ b) z (omega (arith, length-append a b)),
)

write_u64-halves :
    (t : ℕ) → (hi : Bytes) × (write_u64 t ≡ write_u32 (t % 2 ^ 32) ++ hi) × (length hi ≡ 4)
unfolding write_u64 write_u32
write_u64-halves t = (
  t / 2 ^ 32 % 256 ∷ t / 2 ^ 40 % 256 ∷ t / 2 ^ 48 % 256 ∷ t / 2 ^ 56 % 256 ∷ [],
  ground arith,
  refl,
)

-- The zero bytes of the fresh buffer.
abbrev zeros : ℕ → Bytes
zeros n = replicate n 0

-- The six copies, over any six fields of the right lengths; the fifth copy overwrites `hi`.
module _ (v p m t hi d n : Bytes) (lv : length v ≡ 4) (lp : length p ≡ 32) (lm : length m ≡ 32)
    (lt : length t ≡ 4) (lh : length hi ≡ 4) (ld : length d ≡ 4) (ln : length n ≡ 4) where
  copy_version : copy_at 0 4 v (zeros 80) ≡ v ++ zeros 76
  copy_version = copy_at-append 0 4 [] (zeros 4) v (zeros 76) refl refl lv

  copy_previous : copy_at 4 32 p (v ++ zeros 76) ≡ (v ++ p) ++ zeros 44
  copy_previous =
      copy_at-append 4 32 v (zeros 32) p (zeros 44) lv refl lp ∙ sym (append_assoc v p (zeros 44))

  copy_merkle : copy_at 36 32 m ((v ++ p) ++ zeros 44) ≡ ((v ++ p) ++ m) ++ zeros 12
  copy_merkle =
      copy_at-append 36 32 (v ++ p) (zeros 32) m (zeros 12) (omega (arith, length-append v p)) refl
        lm
      ∙ sym (append_assoc (v ++ p) m (zeros 12))

  front : length ((v ++ p) ++ m) ≡ 68
  front = omega (arith, length-append v p, length-append (v ++ p) m)

  copy_time :
      copy_at 68 8 (t ++ hi) (((v ++ p) ++ m) ++ zeros 12)
      ≡ (((v ++ p) ++ m) ++ t) ++ (hi ++ zeros 4)
  copy_time =
      copy_at-append 68 8 ((v ++ p) ++ m) (zeros 8) (t ++ hi) (zeros 4) front refl
        (omega (arith, length-append t hi))
      ∙ ap (◌++◌ ((v ++ p) ++ m)) (append_assoc t hi (zeros 4))
      ∙ sym (append_assoc ((v ++ p) ++ m) t (hi ++ zeros 4))

  timed : length (((v ++ p) ++ m) ++ t) ≡ 72
  timed = omega (arith, front, length-append ((v ++ p) ++ m) t)

  copy_target :
      copy_at 72 4 d ((((v ++ p) ++ m) ++ t) ++ (hi ++ zeros 4))
      ≡ ((((v ++ p) ++ m) ++ t) ++ d) ++ zeros 4
  copy_target =
      copy_at-append 72 4 (((v ++ p) ++ m) ++ t) hi d (zeros 4) timed lh ld
      ∙ sym (append_assoc (((v ++ p) ++ m) ++ t) d (zeros 4))

  copy_nonce :
      copy_at 76 4 n (((((v ++ p) ++ m) ++ t) ++ d) ++ zeros 4) ≡ v ++ (p ++ (m ++ (t ++ (d ++ n))))
  copy_nonce =
      copy_at-append 76 4 ((((v ++ p) ++ m) ++ t) ++ d) (zeros 4) n []
        (omega (arith, timed, length-append (((v ++ p) ++ m) ++ t) d)) refl ln
      ∙ simp (append_assoc, append-nil) refl

  copies :
      copy_at 76 4 n (
        copy_at 72 4 d
          (copy_at 68 8 (t ++ hi) (copy_at 36 32 m (copy_at 4 32 p (copy_at 0 4 v (zeros 80))))))
      ≡ v ++ (p ++ (m ++ (t ++ (d ++ n))))
  copies = rw (copy_version, copy_previous, copy_merkle, copy_time, copy_target) copy_nonce

-- For hashes of 32 bytes, the buffer that checkProofOfWork hashes is the one that getHeaderHash
-- hashes: version, previous hash, Merkle root, the low half of the time, target and nonce.
pub pow_buffer-header_bytes :
    (h : BlockHeader)
    → length h.previous_hash ≡ 32
    → length h.merkle_root ≡ 32
    → pow_buffer h ≡ header_bytes h
unfolding pow_buffer header_bytes
pow_buffer-header_bytes h hp hm =
    let (hi, te, lh) = write_u64-halves h.timestamp in
    rw te (
      copies (write_u32 h.version) h.previous_hash h.merkle_root (write_u32 (h.timestamp % 2 ^ 32))
        hi (write_u32 h.difficulty_target) (write_u32 h.nonce) (length-write_u32 h.version) hp hm
        (length-write_u32 (h.timestamp % 2 ^ 32)) lh (length-write_u32 h.difficulty_target)
        (length-write_u32 h.nonce))
