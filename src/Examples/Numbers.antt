-- ===== src/Examples/Numbers.antt =====
-- Targets, difficulties and subsidies.
use shawncoin.Prelude.{◌+◌, ◌*◌, ◌^◌, ◌≤◌, ◌≡◌, some, arith}
use shawncoin.Wire.{le_value}
use shawncoin.Types.{
  coin, max_money, difficulty_interval, get_block_subsidy, get_total_supply_up_to,
}
use shawncoin.Types.Supply.{total_supply_bounded}
use shawncoin.Consensus.{compact_target}
use shawncoin.Consensus.Compact.{be_value, compact_target_values}
use shawncoin.Difficulty.{get_next_difficulty}
use shawncoin.Difficulty.Retarget.{get_next_difficulty_saturates}

total_supply_bounded_example :
    (get_total_supply_up_to 210000 ≡ get_total_supply_up_to 209999 + get_block_subsidy 210000)
    × (get_total_supply_up_to 210000 ≤ 10500000 * coin)
    × (get_total_supply_up_to 210000 ≤ max_money)
total_supply_bounded_example = total_supply_bounded 209999 (omega arith)

compact_target_values_example :
    (be_value (compact_target 0x1d00ffff) ≡ 65535 * 256 ^ 26)
    × (le_value (compact_target 0x1d00ffff) ≡ (65536 * 255 + 256 * 255 + 0) * 256 ^ 3)
compact_target_values_example = compact_target_values 0x1d00ffff (omega arith) (omega arith)

get_next_difficulty_saturates_example :
    get_next_difficulty 0x1d00ffff 1705276800 1704067200 difficulty_interval ≡ some 0x1d7fffff
get_next_difficulty_saturates_example =
    get_next_difficulty_saturates 0x1d00ffff 1705276800 1704067200 (omega arith) (omega arith)
      (omega arith)
