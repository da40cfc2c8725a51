-- ===== src/Schedule/Accepts.antt =====
-- Which node's block ValidateBlock accepts.
use go_apla.Prelude.{
  ℕ, zero, suc, ◌+◌, ◌/◌, ◌<◌, Bool, true, ◌≡◌, ◌↔◌, sym, ◌∙◌, arith, Option, none, some,
}
use go_apla.Prelude.Int.{ℤ, pos, ◌+ℤ◌, ◌==ℤ◌}
use go_apla.Prelude.Eq.{==ℤ_iff}
use go_apla.Schedule.{
  Calculator, GenerationState, Counted, counted, running, Result, ok, err, block_duration,
  count_block_time, Counter, check_free, check_state, validate_block,
}
use go_apla.Schedule.Turns.{turn_at, count_block_time-turns}

check_free-true :
    (o : Option ℕ) (b : Bool) → (check_free o b ≡ ok true) ↔ ((o ≡ some 0) × (b ≡ true))
unfolding check_free
check_free-true none b = ground arith
check_free-true (some zero) b = ground arith
check_free-true (some (suc n)) b = ground arith

check_state-true :
    (count : Counter) (node : ℤ) (bgs : GenerationState)
    → (check_state count node (ok (counted bgs)) ≡ some (ok true))
      ↔ ((count bgs ≡ some 0) × (pos bgs.node_position ≡ node))
unfolding check_state
check_state-true count node bgs = ground (
  arith,
  check_free-true (count bgs) (pos bgs.node_position ==ℤ node),
  ==ℤ_iff (pos bgs.node_position) node,
)

-- With fuel for the turns before it, a block at `e` nanoseconds after the first is accepted if and only
-- if the counter finds no block in the interval of its turn and the node's position is that of the turn.
-- The duration of a block is not negative.
pub validate_block-accepts_iff :
    (fuel : ℕ) (c : Calculator) (count : Counter) (node : ℤ) (d e : ℕ) (t : ℤ)
    → block_duration c ≡ pos d
    → t ≡ c.first_block_time +ℤ pos e
    → e / (d + 1_000_000_000) < fuel
    → (validate_block fuel c count node t ≡ some (ok true)) ↔ (
        (count (turn_at c c.first_block_time (d + 1_000_000_000) 0 (e / (d + 1_000_000_000)))
          ≡ some 0)
        × (pos
              (turn_at c c.first_block_time
                (d + 1_000_000_000)
                0
                (e / (d + 1_000_000_000))).node_position
            ≡ node))
unfolding validate_block
validate_block-accepts_iff fuel c count node d e t hd ht l =
    rw ((count_block_time-turns fuel c d t hd).1 e ht l) (check_state-true count node _)

same_node :
    (count : Counter) (m n : ℤ) (r : Result Counted)
    → check_state count m r ≡ some (ok true)
    → check_state count n r ≡ some (ok true)
    → m ≡ n
unfolding check_state
same_node count m n (err e) h g = ground (arith, h)
same_node count m n (ok running) h g = ground (arith, h)
same_node count m n (ok (counted bgs)) h g =
    sym ((check_state-true count m bgs).0 h).1 ∙ ((check_state-true count n bgs).0 g).1

-- No two nodes have their blocks accepted at one time.
pub validate_block_unique :
    (fuel : ℕ) (c : Calculator) (count : Counter) (m n t : ℤ)
    → validate_block fuel c count m t ≡ some (ok true)
    → validate_block fuel c count n t ≡ some (ok true)
    → m ≡ n
unfolding validate_block
validate_block_unique fuel c count m n t h g = same_node count m n (count_block_time fuel c t) h g
