-- ===== src/Difficulty/Retarget.antt =====
-- What the retarget rules answer.
use shawncoin.Prelude.{ℕ, ◌+◌, ◌-◌, ◌*◌, ◌/◌, ◌%◌, ◌^◌, ◌≤◌, ◌<◌, ◌≡◌, some, arith}
use shawncoin.Types.{block_time_target, difficulty_interval}
use shawncoin.Difficulty.{
  clamp_elapsed, with_exponent, get_next_difficulty, emergency, early, get_adaptive_next_difficulty,
}

-- With two blocks or more and a first time before the last one, getNextDifficulty returns a target
-- with the exponent byte of the old one and a mantissa of at most 0x7fffff.
pub get_next_difficulty_bounds :
    (target last first n : ℕ)
    → 2 ≤ n
    → first < last
    → (r : ℕ) × (get_next_difficulty target last first n ≡ some r)
      × (r / 2 ^ 24 ≡ target / 2 ^ 24)
      × (r % 2 ^ 24 ≤ 0x7fffff)
unfolding get_next_difficulty with_exponent
get_next_difficulty_bounds target last first n hn h =
    let t = block_time_target * (n - 1) in
    let e = clamp_elapsed t (last - first) in
    (with_exponent target (target * e % 2 ^ 64 / t), ground arith, ground arith, ground arith)

clamped : (t e : ℕ) → (t / 4 ≤ clamp_elapsed t e) × (clamp_elapsed t e ≤ t * 4)
unfolding clamp_elapsed
clamped t e = ground arith

product_low : (c e : ℕ) → 2 ^ 25 ≤ c → 2 ^ 25 * e ≤ c * e
product_low c e h = grind arith

product_high : (c e : ℕ) → c < 2 ^ 32 → c * e ≤ 2 ^ 32 * e
product_high c e h = grind arith

-- Over the interval of 2016 blocks every target with an exponent of 2 or more gets the mantissa
-- 0x7fffff, whatever time the blocks took, as long as the first time is before the last one.
pub get_next_difficulty_saturates :
    (target last first : ℕ)
    → 2 ^ 25 ≤ target
    → target < 2 ^ 32
    → first < last
    → get_next_difficulty target last first difficulty_interval
      ≡ some (target / 2 ^ 24 * 2 ^ 24 + 0x7fffff)
unfolding get_next_difficulty with_exponent
get_next_difficulty_saturates target last first lo hi h =
    let e = clamp_elapsed 1209000 (last - first) in
    ground
      (arith, clamped 1209000 (last - first), product_low target e lo, product_high target e hi)

-- From height 10000 on and over the interval of 2016 blocks, the adaptive rule gives the exponent of
-- the old target, where it is 2 or more, and the mantissa 0x7fffff, wherever the blocks took at least
-- an eighth and at most eight times the time meant for them.
pub get_adaptive_next_difficulty_flat :
    (target last first height : ℕ)
    → 2 ^ 25 ≤ target
    → target < 2 ^ 32
    → last < 2 ^ 64
    → first + 1209000 / 8 ≤ last
    → last ≤ first + 1209000 * 8
    → 10000 ≤ height
    → get_adaptive_next_difficulty target last first difficulty_interval height
      ≡ some (target / 2 ^ 24 * 2 ^ 24 + 0x7fffff)
unfolding get_adaptive_next_difficulty emergency early
get_adaptive_next_difficulty_flat target last first height lo hi hl fast slow late =
    ground (arith, get_next_difficulty_saturates target last first)

-- From height 10000 on, where the interval of 2016 blocks took less than an eighth of the time meant
-- for it, an exponent from 2 to 63 becomes four times itself and one more.
pub emergency_exponent :
    (target last first height : ℕ)
    → 2 ^ 25 ≤ target
    → target < 2 ^ 30
    → last < 2 ^ 64
    → first < last
    → last < first + 1209000 / 8
    → 10000 ≤ height
    → (r : ℕ) × (get_adaptive_next_difficulty target last first difficulty_interval height ≡ some r)
      × (r / 2 ^ 24 ≡ 4 * (target / 2 ^ 24) + 1)
unfolding get_adaptive_next_difficulty emergency early
emergency_exponent target last first height lo hi hl up fast late = (
  (target / 2 ^ 24 * 2 ^ 24 + 0x7fffff) * 4,
  ground (arith, get_next_difficulty_saturates target last first),
  omega arith,
)
