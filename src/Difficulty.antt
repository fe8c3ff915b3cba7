-- ===== src/Difficulty.antt =====
-- shawncoin/src/mining/difficulty.cpp: the retarget rules, in uint32_t and uint64_t arithmetic.
-- calculateHashRate, estimateBlockTime and difficultyToString work on doubles and are not modelled.
pub mod Retarget
use shawncoin.Prelude.{
  ℕ, ◌+◌, ◌-◌, ◌*◌, ◌/◌, ◌%◌, ◌^◌, Bool, true, false, ◌||◌, Option, none, some, ltb, leb, ◌==◌,
  if◌then◌else◌,
}
use shawncoin.Types.{block_time_target}

abbrev pub easy_mine_difficulty : ℕ
easy_mine_difficulty = 0x0400ffff

-- The two clamps of the elapsed time.
clamp_elapsed : ℕ → ℕ → ℕ
clamp_elapsed target_time elapsed =
    let e = if ltb elapsed (target_time / 4) then target_time / 4 else elapsed in
    if ltb (target_time * 4) e then target_time * 4 else e

-- The mantissa below the old exponent.
with_exponent : ℕ → ℕ → ℕ
with_exponent current_target new_target =
    current_target / 2 ^ 24 * 2 ^ 24
    + (if ltb 0x007fffff new_target then 0x007fffff else new_target)

-- `none` is the division by zero that a single block runs into.
unfoldable pub get_next_difficulty : ℕ → ℕ → ℕ → ℕ → Option ℕ
unfolding clamp_elapsed with_exponent
get_next_difficulty current_target last_time first_time num_blocks =
    let target_time = block_time_target * (num_blocks - 1) in
    let elapsed = clamp_elapsed target_time (last_time - first_time) in
    let target_mul = current_target * elapsed % 2 ^ 64 in
    if (num_blocks == 0) || leb last_time first_time
    then some current_target
    else if target_time == 0
    then none
    else some (with_exponent current_target (target_mul / target_time))

-- Blocks eight times too fast or too slow.
emergency : ℕ → ℕ → ℕ → ℕ
emergency target_time elapsed new_target =
    if ltb elapsed (target_time / 8)
    then (if ltb new_target (new_target * 4 % 2 ^ 32) then new_target * 4 % 2 ^ 32 else new_target)
    else if ltb (target_time * 8) elapsed
    then (if ltb (new_target / 4) new_target then new_target / 4 else new_target)
    else new_target

-- The early blocks of the chain.
early : ℕ → ℕ → ℕ → ℕ → ℕ
early height target_time elapsed new_target =
    if ltb height 10000
    then (if ltb elapsed (target_time / 2)
        then new_target * 2 % 2 ^ 32
        else if ltb (target_time * 2) elapsed
        then new_target / 2
        else new_target)
    else new_target

-- `elapsed` and `num_blocks - 1` wrap here, where nothing is tested before.
unfoldable pub get_adaptive_next_difficulty : ℕ → ℕ → ℕ → ℕ → ℕ → Option ℕ
unfolding emergency early
get_adaptive_next_difficulty current_target last_time first_time num_blocks height =
    let elapsed = (last_time + 2 ^ 64 - first_time) % 2 ^ 64 in
    let target_time = block_time_target * ((num_blocks + 2 ^ 32 - 1) % 2 ^ 32) in
    elim (get_next_difficulty current_target last_time first_time num_blocks) [
      | none ↦ none
      | some t ↦ some (early height target_time elapsed (emergency target_time elapsed t))
    ]

unfoldable pub is_valid_difficulty : ℕ → Bool
is_valid_difficulty difficulty =
    let mantissa = difficulty % 2 ^ 24 in
    let exponent = difficulty / 2 ^ 24 % 2 ^ 8 in
    if (exponent == 0) || ltb 50 exponent
    then false
    else if mantissa == 0
    then false
    else if ltb difficulty easy_mine_difficulty
    then false
    else true
