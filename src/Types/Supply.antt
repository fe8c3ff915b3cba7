-- ===== src/Types/Supply.antt =====
-- The money supply of getBlockSubsidy and getTotalSupplyUpTo.
use shawncoin.Prelude.{
  ℕ, zero, suc, ◌+◌, ◌-◌, ◌*◌, ◌/◌, ◌%◌, ◌^◌, ◌≤◌, ◌<◌, ◌≡◌, refl, Bool, true, ◌&&◌, leb,
  if◌then◌else◌, arith,
}
use native.Mathlib.Decide.{dec_lt}
use shawncoin.Types.{
  coin, max_money, subsidy_halving_interval, initial_block_subsidy, get_block_subsidy,
  get_total_supply_up_to,
}

-- The subsidy of era `q`, which is `subsidy_halving_interval` blocks long.
era_subsidy : ℕ → ℕ
era_subsidy q = if leb 32 q then 0 else initial_block_subsidy / 2 ^ q

-- Every era pays at most half of the one before: checked for the 32 eras that pay.
halves_below : ℕ → Bool
unfolding era_subsidy
halves_below zero = true
halves_below (suc n) = leb (2 * era_subsidy (suc n)) (era_subsidy n) && halves_below n

halves_below_sound :
    (n q : ℕ) → halves_below n ≡ true → q < n → 2 * era_subsidy (suc q) ≤ era_subsidy q
unfolding halves_below
halves_below_sound zero q e h = absurd (omega arith)
halves_below_sound (suc n) q e h = ground (arith, halves_below_sound n q)

era_table : halves_below 32 ≡ true
unfolding halves_below
era_table = refl

era_late : (q : ℕ) → 32 ≤ q → era_subsidy q ≡ 0
unfolding era_subsidy
era_late q h = ground arith

era_halves : (q : ℕ) → 2 * era_subsidy (suc q) ≤ era_subsidy q
era_halves q = ground (arith, halves_below_sound 32 q era_table, era_late (suc q), era_late q)

get_block_subsidy-era : (h : ℕ) → get_block_subsidy h ≡ era_subsidy (h / subsidy_halving_interval)
unfolding get_block_subsidy era_subsidy
get_block_subsidy-era h = refl

-- The sum of the subsidies as a number, with no wrap-around.
issued : ℕ → ℕ
issued zero = get_block_subsidy 0
issued (suc h) = issued h + get_block_subsidy (suc h)

-- One more block of the same era, and the first block of the next.
within_era :
    (total left s bound : ℕ)
    → total + suc left * s + 210000 * s ≤ bound
    → total + s + left * s + 210000 * s ≤ bound
within_era total left s bound h = omega arith

next_era :
    (total s t bound : ℕ)
    → 2 * t ≤ s
    → total + 0 * s + 210000 * s ≤ bound
    → total + t + 209999 * t + 210000 * t ≤ bound
next_era total s t bound half h = omega arith

-- What is issued so far, the rest of the era, and one more era at the same rate, stay within the
-- value of two whole first eras.
issued_within :
    (h : ℕ)
    → issued h
        + (209999 - h % 210000) * era_subsidy (h / 210000)
        + 210000 * era_subsidy (h / 210000)
      ≤ 1050000000000000
unfolding issued
issued_within zero = unfold era_subsidy get_block_subsidy in omega arith
issued_within (suc h) = elim (dec_lt (h % 210000) 209999) [
  | yes p ↦
      let same : suc h / 210000 ≡ h / 210000 = omega arith in
      let less : 209999 - h % 210000 ≡ suc (209999 - suc h % 210000) = omega arith in
      rw (get_block_subsidy-era (suc h), same)
        (within_era (issued h) _ _ _ (rw less at (issued_within h)))
  | no p ↦
      let up : suc h / 210000 ≡ suc (h / 210000) = omega arith in
      let last : 209999 - h % 210000 ≡ 0 = omega arith in
      let first : 209999 - suc h % 210000 ≡ 209999 = omega arith in
      rw (get_block_subsidy-era (suc h), up, first)
        (next_era (issued h) _ _ _ (era_halves (h / 210000)) (rw last at (issued_within h)))
]

issued_bound : (h : ℕ) → issued h ≤ 1050000000000000
issued_bound h = omega (arith, issued_within h)

-- The uint64_t sum never wraps.
get_total_supply_up_to-issued : (h : ℕ) → get_total_supply_up_to h ≡ issued h
unfolding get_total_supply_up_to issued
get_total_supply_up_to-issued zero = omega (arith, issued_bound 0)
get_total_supply_up_to-issued (suc h) =
    rw (get_total_supply_up_to-issued h) (omega (arith, issued_bound (suc h)))

-- At every height from 1 on at which the loop of the total ends, that is below 2 ^ 64 - 1, the total supply is
-- the previous total plus the subsidy of that height, with no wrap-around in 64 bits, and it stays
-- within 10.5 million coins and so within max_money.
pub total_supply_bounded :
    (h : ℕ)
    → suc h < 2 ^ 64 - 1
    → (get_total_supply_up_to (suc h) ≡ get_total_supply_up_to h + get_block_subsidy (suc h))
      × (get_total_supply_up_to (suc h) ≤ 10500000 * coin)
      × (get_total_supply_up_to (suc h) ≤ max_money)
total_supply_bounded h ends =
    let e = get_total_supply_up_to-issued in
    let b = issued_bound (suc h) in
    (
      rw (e h, e (suc h)) (unfold issued in refl),
      rw (e (suc h)) (omega arith),
      rw (e (suc h)) (omega arith),
    )

-- The block subsidy never rises from one height to the next.
pub get_block_subsidy-falls : (h : ℕ) → get_block_subsidy (suc h) ≤ get_block_subsidy h
get_block_subsidy-falls h =
    rw (get_block_subsidy-era h, get_block_subsidy-era (suc h))
      (elim (dec_lt (h % 210000) 209999) [
        | yes p ↦ let same : suc h / 210000 ≡ h / 210000 = omega arith in rw same (omega arith)
        | no p ↦
            let up : suc h / 210000 ≡ suc (h / 210000) = omega arith in
            rw up (omega (arith, era_halves (h / 210000)))
      ])
