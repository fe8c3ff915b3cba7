-- ===== src/Consensus/Work.antt =====
-- checkProofOfWork on a header with 32-byte hashes.
use shawncoin.Prelude.{
  ℕ, ◌+◌, ◌-◌, ◌*◌, ◌/◌, ◌%◌, ◌^◌, ◌<◌, ◌≡◌, refl, ◌∙◌, [], ◌∷◌, zero, suc, ltb, leb, length,
  length-set, set, All, arith, if◌then◌else◌, Bool, true, false,
}
use shawncoin.Wire.{Bytes, IsByte, le_value}
use shawncoin.Types.{BlockHeader, zero_hash}
use shawncoin.Crypto.{Digest, length-sha256d, sha256d-IsByte}
use shawncoin.Block.{get_header_hash}
use shawncoin.Consensus.{
  compact_target, small_target, large_target, check_proof_of_work, pow_buffer,
}
use shawncoin.Consensus.Buffer.{pow_buffer-header_bytes}
use shawncoin.Consensus.Target.{meets_target_lem}

-- 32 bytes.
pub record IsHash (h : Bytes) : Type 0 where
  pub len : length h ≡ 32
  pub bytes : All IsByte h

set-IsByte : (xs : Bytes) (i v : ℕ) → v < 256 → All IsByte xs → All IsByte (set xs i v)
set-IsByte [] i v h b = tt
set-IsByte (x ∷ xs) zero v h (bx, b) = (h, b)
set-IsByte (x ∷ xs) (suc i) v h (bx, b) = (bx, set-IsByte xs i v h b)

set-IsHash : (xs : Bytes) (i v : ℕ) → IsHash xs → IsHash (set xs i (v % 256))
set-IsHash xs i v h = record {
  len = length-set xs i (v % 256) ∙ h.len;
  bytes = set-IsByte xs i (v % 256) (omega arith) h.bytes;
}

zero-IsHash : IsHash zero_hash
zero-IsHash = record { len = refl; bytes = omega arith }

if-IsHash : (t : Bool) (x y : Bytes) → IsHash x → IsHash y → IsHash (if t then x else y)
if-IsHash true x y hx hy = hx
if-IsHash false x y hx hy = hy

large-IsHash : (word p : ℕ) → IsHash (large_target word p)
unfolding large_target
large-IsHash word p =
    let t0 = set-IsHash zero_hash p word zero-IsHash in
    let t1 = if-IsHash (ltb 0 p) _ _ (set-IsHash _ (p - 1) (word / 2 ^ 8) t0) t0 in
    if-IsHash (ltb 1 p) _ _ (set-IsHash _ (p - 2) (word / 2 ^ 16) t1) t1

small-IsHash : (word : ℕ) → IsHash (small_target word)
unfolding small_target
small-IsHash word =
    set-IsHash _ 29 (word / 2 ^ 16)
      (set-IsHash _ 30 (word / 2 ^ 8) (set-IsHash zero_hash 31 word zero-IsHash))

pub compact_target-IsHash : (compact : ℕ) → IsHash (compact_target compact)
unfolding compact_target
compact_target-IsHash compact =
    let used = 8 * (compact / 2 ^ 24 - 3) / 8 + 1 in
    if-IsHash (leb (compact / 2 ^ 24) 3) _ _ (small-IsHash _)
      (if-IsHash (leb used 32) _ _ (large-IsHash (compact % 2 ^ 23) (32 - used)) zero-IsHash)

module _ (c : Digest) where
  -- checkProofOfWork accepts a header with 32-byte hashes exactly where the block hash is at most
  -- the target, both read as little-endian numbers.
  pub check_proof_of_work_lem :
      (h : BlockHeader)
      → length h.previous_hash ≡ 32
      → length h.merkle_root ≡ 32
      → check_proof_of_work c h
        ≡ leb (le_value (get_header_hash c h)) (le_value (compact_target h.difficulty_target))
  unfolding check_proof_of_work get_header_hash
  check_proof_of_work_lem h hp hm =
      let t = compact_target-IsHash h.difficulty_target in
      meets_target_lem _ _ (length-sha256d c (pow_buffer h)) t.len (sha256d-IsByte c (pow_buffer h))
        t.bytes
      ∙ rw (pow_buffer-header_bytes h hp hm)
