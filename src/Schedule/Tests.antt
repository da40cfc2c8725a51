-- ===== src/Schedule/Tests.antt =====
-- Three nodes that take turns of three seconds, from second 1 on.
use go_apla.Prelude.{ℕ, ◌+◌, ◌/◌, true, ◌≡◌, ◌↔◌, refl, arith, some}
use go_apla.Prelude.Int.{pos, ◌+ℤ◌, wrap64}
use go_apla.Schedule.{
  Calculator, counted, ok, count_block_time, Counter, block_duration, validate_block,
}
use go_apla.Schedule.Turns.{turn_at, count_block_time-turns}
use go_apla.Schedule.Accepts.{validate_block-accepts_iff, validate_block_unique}

abbrev three_nodes : Calculator
three_nodes = record {
  first_block_time = pos 1_000_000_000;
  block_generation_time = pos 1_500_000_000;
  blocks_gap = pos 500_000_000;
  nodes_count = pos 3;
}

abbrev no_blocks : Counter
no_blocks s = some 0

-- Second 14 belongs to turn 4, which is the second node's.
duration_known : block_duration three_nodes ≡ pos 2_000_000_000
unfolding block_duration wrap64 ◌+ℤ◌
duration_known = refl

fourteen : pos 14_000_000_000 ≡ three_nodes.first_block_time +ℤ pos 13_000_000_000
unfolding ◌+ℤ◌
fourteen = refl

abbrev fourth_turn : ℕ
fourth_turn = 13_000_000_000 / (2_000_000_000 + 1_000_000_000)

count_block_time-turns_example :
    count_block_time 5 three_nodes (pos 14_000_000_000)
    ≡ ok (counted (turn_at three_nodes (pos 1_000_000_000) 3_000_000_000 0 fourth_turn))
count_block_time-turns_example =
    (count_block_time-turns 5 three_nodes 2_000_000_000 (pos 14_000_000_000) duration_known).1
      13_000_000_000 fourteen (omega arith)

validate_block-accepts_iff_example :
    (validate_block 5 three_nodes no_blocks (pos 1) (pos 14_000_000_000) ≡ some (ok true)) ↔ (
      (no_blocks (turn_at three_nodes (pos 1_000_000_000) 3_000_000_000 0 fourth_turn) ≡ some 0)
      × (pos (turn_at three_nodes (pos 1_000_000_000) 3_000_000_000 0 fourth_turn).node_position
          ≡ pos 1))
validate_block-accepts_iff_example =
    validate_block-accepts_iff 5 three_nodes no_blocks (pos 1) 2_000_000_000 13_000_000_000
      (pos 14_000_000_000) duration_known fourteen (omega arith)

accepted : validate_block 5 three_nodes no_blocks (pos 1) (pos 14_000_000_000) ≡ some (ok true)
unfolding validate_block wrap64 ◌+ℤ◌
accepted = refl

validate_block_unique_example : pos 1 ≡ pos 1
validate_block_unique_example =
    validate_block_unique 5 three_nodes no_blocks (pos 1) (pos 1) (pos 14_000_000_000) accepted
      accepted
