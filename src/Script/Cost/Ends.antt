-- ===== src/Script/Cost/Ends.antt =====
-- RunCode ends: the loop has fuel for every command that the cost pays for.
use go_apla.Prelude.{ℕ, zero, suc, ◌≤◌, ◌<◌, false, Option, none, some, ◌≡◌, refl, arith}
use go_apla.Prelude.Int.{pos, pos_part, -ℤ_parts}
use go_apla.Script.Value.{Numbers, Val, Err}
use go_apla.Script.Exec.{◌>>=◌, ◌>>◌}
use go_apla.Script.Runtime.{Block, ByteCode, State, Step, Machine}
use go_apla.Script.Calls.{spend}
use go_apla.Script.Vm.{Locals, Ended, check_limits}
use go_apla.Script.Run.{loop, turn, run_code}
use go_apla.Script.Keeps.{ran_out, Keeps, Keeps-bind, Keeps-then}
use go_apla.Script.Keeps.Vm.{Priced, Keeps-exec, Keeps-check_size}
use go_apla.Script.Keeps.Run.{Keeps-run_block, Keeps-follow}
use go_apla.Script.Cost.{Bounded, PaidHost, Bounded-Rules}

module _ ⦃num : Numbers⦄ where
  -- One unit less is left for what comes after the check of the limits, if anything is.
  Bounded-check_limits :
      {A : Type 0} (n : ℕ) (rest : Step A)
      → ((k : ℕ) → suc k ≡ n → Keeps (Bounded k) rest)
      → Keeps (Bounded n) (check_limits >> rest)
  unfolding check_limits spend ◌>>=◌ ◌>>◌
  Bounded-check_limits zero rest h = record { at = λ s l. ground (arith, -ℤ_parts s.cost (pos 1)) }
  Bounded-check_limits (suc k) rest h = record {
    at = λ s l. ground (arith, -ℤ_parts s.cost (pos 1), (h k refl).at (spend (pos 1) s));
  }

module _ ⦃num : Numbers⦄ {m : Machine} (priced : Priced m) (host : PaidHost m) where
  Bounded-turn :
      (n : ℕ) (enter : ℕ → Step (Ended Err)) (next : Locals → Step (Ended Err))
      → ((k : ℕ) → suc k ≡ n → (b : ℕ) → Keeps (Bounded k) (enter b))
      → ((k : ℕ) → suc k ≡ n → (l : Locals) → Keeps (Bounded k) (next l))
      → (l : Locals) (o : Option (ByteCode Val)) → Keeps (Bounded n) (turn m enter next l o)
  unfolding turn
  Bounded-turn n enter next h g l none = record { at = λ s k. ground arith }
  Bounded-turn n enter next h g l (some cmd) = Bounded-check_limits n _ (λ k e.
      let r = Bounded-Rules k host in
      Keeps-then r _ _ (Keeps-check_size r _)
        (Keeps-bind r _ _ (Keeps-exec r priced enter (h k e) l cmd) (Keeps-follow r next (g k e))))

  Bounded-loop :
      (fuel n : ℕ) → n < fuel → (b : Block Val) (l : Locals) → Keeps (Bounded n) (loop m fuel b l)
  unfolding loop
  Bounded-loop zero n h b l = ground arith
  Bounded-loop (suc fuel) n h b l =
      Bounded-turn n _ _
        (λ k e.
          Keeps-run_block (Bounded-Rules k host) (loop m fuel) (Bounded-loop fuel k (omega arith)))
        (λ k e. Bounded-loop fuel k (omega arith) b) l _

  -- The machine runs every block of any program to an end that is not for want of fuel, if the fuel is
  -- more than the cost that is left, and it leaves no more cost above 0 than that. The costs in the table of
  -- extended functions are -1 or not negative, and the functions of the host and the contract stack
  -- end and add no cost.
  pub run_code-ends :
      (fuel b : ℕ) (s : State)
      → pos_part s.cost < fuel
      → (ran_out (run_code m fuel b s).0 ≡ false)
        × (pos_part (run_code m fuel b s).1.cost ≤ pos_part s.cost)
  unfolding run_code
  run_code-ends fuel b s h =
      let n = pos_part s.cost in
      (Keeps-run_block (Bounded-Rules n host) (loop m fuel) (Bounded-loop fuel n h) b).at s
        (omega arith)
