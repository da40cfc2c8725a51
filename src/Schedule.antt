-- ===== src/Schedule.antt =====
-- Which node makes a block at a time: BlockTimeCalculator (packages/utils/block_time_calculator.go).
-- A time.Time is an integer of nanoseconds, a time.Duration an int64 of them. The loop of
-- countBlockTime recurs on fuel.
pub mod Turns
pub mod Accepts
mod Tests
use go_apla.Prelude.{
  ℕ, zero, suc, ◌+◌, ◌%◌, ◌≤◌, ◌<◌, Bool, true, false, not, ◌&&◌, ◌||◌, Option, none, some,
  if◌then◌else◌, ◌==◌, ltb,
}
use go_apla.Prelude.Int.{ℤ, pos, pos_part, ◌+ℤ◌, ltb_ℤ, ◌==ℤ◌, wrap64}

-- BlockTimeCalculator without its clock, which is an argument, and its counter of blocks.
pub record Calculator : Type 0 where
  pub first_block_time : ℤ
  pub block_generation_time : ℤ
  pub blocks_gap : ℤ
  pub nodes_count : ℤ

-- blockGenerationState
pub record GenerationState : Type 0 where
  pub start : ℤ
  pub duration : ℤ
  pub node_position : ℕ

-- The errors, with those of the counter.
pub data TimeError : Type 0 where
  before_first_block : TimeError
  duplicate_block : TimeError
  counting : TimeError

pub data Result (A : Type 0) : Type 0 where
  ok : A → Result A
  err : TimeError → Result A

-- A loop that has found no interval yet.
pub data Counted : Type 0 where
  counted : GenerationState → Counted
  running : Counted

abbrev pub second : ℤ
second = pos 1_000_000_000

unfoldable pub block_duration : Calculator → ℤ
block_duration c = wrap64 (c.blocks_gap +ℤ c.block_generation_time)

unfoldable pub next_index : Calculator → ℕ → ℕ
next_index c i = if ltb_ℤ (pos 0) c.nodes_count then (i + 1) % pos_part c.nodes_count else i

unfoldable pub in_interval : ℤ → ℤ → ℤ → Bool
in_interval t start next = t ==ℤ start || ltb_ℤ start t && ltb_ℤ t next

unfoldable pub state_at : Calculator → ℤ → ℕ → GenerationState
unfolding block_duration
state_at c start i = record { start = start; duration = block_duration c; node_position = i }

-- `for { … }` of countBlockTime
unfoldable pub count_from : ℕ → Calculator → ℤ → ℤ → ℕ → Counted
unfolding in_interval block_duration next_index state_at
count_from zero c t start i = running
count_from (suc fuel) c t start i =
    let next = start +ℤ block_duration c +ℤ second in
    let rest = count_from fuel c t next (next_index c i) in
    if in_interval t start next then counted (state_at c start i) else rest

unfoldable pub count_block_time : ℕ → Calculator → ℤ → Result Counted
unfolding count_from
count_block_time fuel c t =
    if ltb_ℤ t c.first_block_time
    then err before_first_block
    else ok (count_from fuel c t c.first_block_time 0)

-- blocksCounter.count: the number of blocks of the database in an interval, or an error.
abbrev pub Counter : Type 0
Counter = GenerationState → Option ℕ

unfoldable pub check_free : Option ℕ → Bool → Result Bool
check_free none mine = err counting
check_free (some zero) mine = ok mine
check_free (some (suc n)) mine = err duplicate_block

-- What follows countBlockTime; `none` is a loop that has not ended.
unfoldable pub check_state : Counter → ℤ → Result Counted → Option (Result Bool)
unfolding check_free
check_state count node (err e) = some (err e)
check_state count node (ok running) = none
check_state count node (ok (counted bgs)) =
    some (check_free (count bgs) (pos bgs.node_position ==ℤ node))

unfoldable pub validate_block : ℕ → Calculator → Counter → ℤ → ℤ → Option (Result Bool)
unfolding check_state count_block_time
validate_block fuel c count node t = check_state count node (count_block_time fuel c t)

-- TimeToGenerate, at the time of the clock.
unfoldable pub time_to_generate : ℕ → Calculator → Counter → ℤ → ℤ → Option (Result Bool)
unfolding check_state count_block_time
time_to_generate fuel c count now node = check_state count node (count_block_time fuel c now)
