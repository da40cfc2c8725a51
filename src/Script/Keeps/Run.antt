-- ===== src/Script/Keeps/Run.antt =====
-- Blocks keep every relation with the rules, if the loop does.
use Prim.Native.String.{String}
use go_apla.Prelude.{
  ℕ, zero, suc, ◌-◌, Bool, true, false, Option, none, some, List, [], ◌∷◌, refl, arith, length,
  drop, set,
}
use go_apla.Prelude.Int.{pos}
use go_apla.Script.Value.{Numbers, Val, Err, Ty, nil, arr, names}
use go_apla.Script.Runtime.{ByteCode, Block, FuncInfo, FuncName, State, Step, Machine}
use go_apla.Script.Memory.{act, with_stack}
use go_apla.Script.Vm.{returned, Locals, Flow, go_on, go_to, leaves, raises, Ended, ended, erred}
use go_apla.Script.Run.{
  push_frame, pop_frame, pop_value, as_tails, pop_tails, first_value, init_vars, append_to,
  set_tail_value, set_tail, set_tails, write_bottom, copy_results, end_block, leave_block, run_body,
  run_block, follow, turn, loop, run_code,
}
use go_apla.Script.Keeps.{Relation, Rules, Keeps, Keeps-bind, Keeps-then, Keeps-act}
use go_apla.Script.Keeps.Vm.{Priced, Keeps-exec, Keeps-check_limits, Keeps-check_size}
use go_apla.Script.Keeps.Changes.{changes, Keeps-spend}
use go_apla.Script.Keeps.Steps.{Keeps-zero_value, Keeps-append_values}

module _ ⦃num : Numbers⦄ {m : Machine} {R : Relation} (r : Rules m R) where
  Keeps-as_tails : (v : Val) → Keeps R (as_tails v)
  unfolding as_tails
  Keeps-as_tails nil = search changes
  Keeps-as_tails (names a) = search changes
  Keeps-as_tails _ = search changes

  Keeps-pop_value : Keeps R (act pop_value)
  unfolding pop_value with_stack
  Keeps-pop_value = Keeps-act r pop_value (λ s. r.restack s (drop 1 s.stack))

  Keeps-pop_tails : (b : Bool) → Keeps R (pop_tails b)
  unfolding pop_tails
  Keeps-pop_tails false = search changes
  Keeps-pop_tails true = search (changes, Keeps-as_tails, Keeps-pop_value)

  Keeps-first_value : (params start k : ℕ) (ty : Ty) → Keeps R (first_value m params start k ty)
  unfolding first_value
  Keeps-first_value params start k ty = search (changes, Keeps-zero_value)

  Keeps-init_vars : (params start k : ℕ) (tys : List Ty) → Keeps R (init_vars m params start k tys)
  unfolding init_vars
  Keeps-init_vars params start k [] = search changes
  Keeps-init_vars params start k (ty ∷ tys) = Keeps-then r _ _ (Keeps-spend r (pos 1) refl) (
      Keeps-bind r _ _ (Keeps-first_value params start k ty)
        (λ v. Keeps-then r _ _ (r.adds_var v) (Keeps-init_vars params start (suc k) tys)))

  Keeps-append_to : (off : ℕ) (v w : Val) → Keeps R (append_to m off v w)
  unfolding append_to
  Keeps-append_to off (arr a n) w = search (changes, Keeps-append_values)
  Keeps-append_to off _ w = search changes

  Keeps-set_tail_value :
      (p : FuncName) (varoff i : ℕ) (v : Val) → Keeps R (set_tail_value m p varoff i v)
  unfolding set_tail_value
  Keeps-set_tail_value p varoff i v = search (changes, Keeps-append_to) depth 10

  Keeps-set_tail :
      (p : FuncName) (varoff i : ℕ) (vs : List Val) → Keeps R (set_tail m p varoff i vs)
  unfolding set_tail
  Keeps-set_tail p varoff i [] = search changes
  Keeps-set_tail p varoff i (v ∷ vs) =
      Keeps-then r _ _ (Keeps-set_tail_value p varoff i v) (Keeps-set_tail p varoff (suc i) vs)

  Keeps-set_tails :
      (info : Option FuncInfo) (varoff : ℕ) (ts : List (String × List Val))
      → Keeps R (set_tails m info varoff ts)
  unfolding set_tails
  Keeps-set_tails info varoff [] = search changes
  Keeps-set_tails info varoff ((k, vs) ∷ rest) =
      Keeps-then r _ _ (Keeps-set_tail _ varoff 0 vs) (Keeps-set_tails info varoff rest)

  Keeps-write_bottom : (i : ℕ) (v : Val) → Keeps R (write_bottom m i v)
  unfolding write_bottom with_stack
  Keeps-write_bottom i v = record {
    at = λ s. ground (arith, r.same s, r.restack s (set s.stack (length s.stack - 1 - i) v));
  }

  Keeps-copy_results : (count start : ℕ) → Keeps R (copy_results m count start)
  unfolding copy_results
  Keeps-copy_results zero start = search changes
  Keeps-copy_results (suc count) start =
      search (changes, Keeps-write_bottom, Keeps-copy_results count) depth 10

  Keeps-end_block :
      (o : Option FuncInfo) (start : ℕ) (e : Ended Err) → Keeps R (end_block m o start e)
  unfolding end_block
  Keeps-end_block (some info) start (ended returned) = search (changes, Keeps-copy_results) depth 9
  Keeps-end_block none start (ended returned) = search changes
  Keeps-end_block (some info) start (ended _) = search changes
  Keeps-end_block none start (ended _) = search changes
  Keeps-end_block (some info) start (erred e) = search changes
  Keeps-end_block none start (erred e) = search changes

  Keeps-pop_frame : Keeps R (act pop_frame)
  unfolding pop_frame
  Keeps-pop_frame = Keeps-act r _ (λ s. r.reframe s (drop 1 s.blocks))

  Keeps-push_frame : (b : ℕ) → Keeps R (act (push_frame b))
  unfolding push_frame
  Keeps-push_frame b = Keeps-act r _ (λ s. r.reframe s _)

  Keeps-leave_block : (params start : ℕ) (e : Ended Err) → Keeps R (leave_block m params start e)
  unfolding leave_block
  Keeps-leave_block params start e = search (changes, Keeps-pop_frame, Keeps-end_block) depth 9

  module _ (loop : Block Val → Locals → Step (Ended Err))
      (looped : (b : Block Val) (l : Locals) → Keeps R (loop b l)) where
    Keeps-run_body : (b : Block Val) → Keeps R (run_body m loop b)
    unfolding run_body
    Keeps-run_body b =
        search
          (changes, Keeps-pop_tails, Keeps-init_vars, Keeps-set_tails, looped, Keeps-leave_block)
          depth 14

    pub Keeps-run_block : (b : ℕ) → Keeps R (run_block m loop b)
    unfolding run_block
    Keeps-run_block b = search (changes, Keeps-run_body, Keeps-push_frame) depth 10

  pub Keeps-follow :
      (loop : Locals → Step (Ended Err))
      → ((l : Locals) → Keeps R (loop l))
      → (f : Flow Err) → Keeps R (follow m loop f)
  unfolding follow
  Keeps-follow loop h (go_on l) = h _
  Keeps-follow loop h (go_to l) = h l
  Keeps-follow loop h (leaves st) = search changes
  Keeps-follow loop h (raises e) = search changes

-- The loop keeps a relation whose rules hold, whatever the fuel, if it allows the end of the fuel.
module _ ⦃num : Numbers⦄ {m : Machine} {R : Relation} (r : Rules m R) (priced : Priced m)
    (stops : (s : State) → R s true s) where
  Keeps-turn :
      (enter : ℕ → Step (Ended Err)) (next : Locals → Step (Ended Err))
      → ((b : ℕ) → Keeps R (enter b))
      → ((l : Locals) → Keeps R (next l))
      → (l : Locals) (o : Option (ByteCode Val)) → Keeps R (turn m enter next l o)
  unfolding turn
  Keeps-turn enter next h g l none = search changes
  Keeps-turn enter next h g l (some cmd) = Keeps-then r _ _ (Keeps-check_limits r) (
      Keeps-then r _ _ (Keeps-check_size r _)
        (Keeps-bind r _ _ (Keeps-exec r priced enter h l cmd) (Keeps-follow r next g)))

  Keeps-loop : (fuel : ℕ) (b : Block Val) (l : Locals) → Keeps R (loop m fuel b l)
  unfolding loop
  Keeps-loop zero b l = record { at = stops }
  Keeps-loop (suc fuel) b l =
      Keeps-turn _ _ (Keeps-run_block r (loop m fuel) (Keeps-loop fuel)) (Keeps-loop fuel b) l _

  pub Keeps-run_code : (fuel b : ℕ) → Keeps R (run_code m fuel b)
  unfolding run_code
  Keeps-run_code fuel b = Keeps-run_block r (loop m fuel) (Keeps-loop fuel) b
