-- ===== src/Script/Depth.antt =====
-- callFunc (packages/script/vm.go) counts the calls that are open, and takes its own off however it ends.
use Prim.Native.String.{String}
use go_apla.Prelude.{ℕ, Option, List, ◌≡◌, refl, ◌∙◌, arith}
use go_apla.Script.Value.{Numbers, Val}
use go_apla.Script.Exec.{◌>>=◌, ◌>>◌}
use go_apla.Script.Runtime.{State, Machine}
use go_apla.Script.Memory.{
  with_stack, with_extend, get_var, with_vars, put_var, measure, book_var, book_extend, append_var,
  recalc_mem_var, recalc_mem_extend_var, add_var,
}
use go_apla.Script.Commands.{set_unwrap}
use go_apla.Script.Calls.{spend, no_cost}
use go_apla.Script.ExtCalls.{set_depth, leave}
use go_apla.Script.Vm.{set_err}
use go_apla.Script.Run.{run_code}
use go_apla.Script.Keeps.{Relation, Keeps, Rules}
use go_apla.Script.Keeps.Vm.{Priced}
use go_apla.Script.Keeps.Run.{Keeps-run_code}

module _ ⦃num : Numbers⦄ where
  abbrev pub SameDepth : Relation
  SameDepth s b t = t.call_depth ≡ s.call_depth

module _ ⦃num : Numbers⦄ (m : Machine)
    (host : (f : String) (ps : List Val) (rest : Option (List Val))
      → Keeps SameDepth (m.host f ps rest))
    (stacker : (k : String)
      → Keeps SameDepth (m.append_stack k) × Keeps SameDepth (m.pop_stack k)) where
  SameDepth-Rules : Rules m SameDepth
  unfolding with_stack with_extend set_unwrap set_err spend no_cost set_depth leave put_var get_var
      with_vars recalc_mem_var recalc_mem_extend_var measure book_var book_extend add_var append_var
      ◌>>=◌ ◌>>◌
  SameDepth-Rules = record {
    same = λ s. refl;
    next = λ s t u b h k. k ∙ h;
    restack = λ s st. refl;
    reheap = λ s h. refl;
    reframe = λ s fs. refl;
    re_extend = λ s k v. refl;
    unwraps = λ s b. refl;
    errs = λ s e. refl;
    spends = λ s c h. refl;
    zeroes = λ s. refl;
    nests = λ s t b h. omega (arith, h);
    puts_var = λ k v. record { at = λ s. ground arith };
    recalcs_var = λ k. record { at = λ s. ground arith };
    recalcs_extend = λ k. record { at = λ s. ground arith };
    adds_var = λ v. record { at = λ s. ground arith };
    hosts = host;
    appends = λ k. (stacker k).0;
    pops = λ k. (stacker k).1;
    pays = λ f ps rest s t c rs db e. refl;
  }

  -- A run of a block, however it ends, leaves as many calls open as there were, if the functions of the
  -- host and the contract stack do and the costs in the table of extended functions are -1 or not
  -- negative.
  pub run_code-same_depth :
      Priced m → (fuel b : ℕ) (s : State) → (run_code m fuel b s).1.call_depth ≡ s.call_depth
  run_code-same_depth priced fuel b s =
      (Keeps-run_code SameDepth-Rules priced (λ _. refl) fuel b).at s
