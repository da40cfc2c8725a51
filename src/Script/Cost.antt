-- ===== src/Script/Cost.antt =====
-- The cost of a run bounds it: RunCode (packages/script/vm.go) takes at least one unit for every
-- command, so its loops and its nested blocks end.
use Prim.Native.String.{String}
pub mod Ends
pub mod Below
pub mod Fuel
use go_apla.Prelude.{
  ℕ, zero, suc, ◌+◌, ◌-◌, ◌*◌, ◌≤◌, ◌<◌, Bool, true, false, Option, none, some, List, [], ◌∷◌, ◌≡◌,
  refl, arith, get_elem?, ltb, if◌then◌else◌,
}
use go_apla.Prelude.Int.{ℤ, pos, negsuc, pos_part, neg_part, ltb_ℤ, ◌-ℤ◌, -ℤ_parts, ◌==ℤ◌}
use go_apla.Script.Value.{Numbers, Value, Val, Err, int64}
use go_apla.Script.Exec.{Outcome, out_of_fuel, done, continue, fail, pure, ◌>>=◌, ◌>>◌}
use go_apla.Script.Runtime.{
  Block, ByteCode, ExtFuncInfo, State, Step, Machine, HostResult, host_value,
}
use go_apla.Script.Memory.{
  with_stack, with_extend, act, get_var, with_vars, put_var, measure, book_var, book_extend,
  append_var, recalc_mem_var, recalc_mem_extend_var, add_var,
}
use go_apla.Script.Commands.{set_unwrap}
use go_apla.Script.Calls.{spend, no_cost, cut_diff}
use go_apla.Script.ExtCalls.{set_depth, leave, pay, cost_of, end_call, host_call, push_results}
use go_apla.Script.Vm.{Locals, Ended, ended, normal, set_err, check_limits, check_size, exec, arity}
use go_apla.Script.Run.{loop, run_block, run_code, follow}
use go_apla.Script.Keeps.{ran_out, Relation, Keeps, Rules}
use go_apla.Script.Keeps.Vm.{Priced, Keeps-exec, Keeps-check_size}
use go_apla.Script.Keeps.Run.{Keeps-run_block, Keeps-follow}

module _ ⦃num : Numbers⦄ where
  -- From a state with a cost of at most `n`, a step does not run out and adds no cost.
  abbrev pub Bounded : ℕ → Relation
  Bounded n s b t = pos_part s.cost ≤ n → (b ≡ false) × (pos_part t.cost ≤ pos_part s.cost)

  -- A step that leaves the cost as it is.
  record Free {A : Type 0} (m : Step A) : Type 0 where
    at : (s : State) → (ran_out (m s).0 ≡ false) × ((m s).1.cost ≡ s.cost)

  Free-Keeps : {A : Type 0} (m : Step A) (n : ℕ) → Free m → Keeps (Bounded n) m
  Free-Keeps m n h = record { at = λ s k. ((h.at s).0, ground (arith, (h.at s).1)) }

  Free-put_var : (m : Machine) (k : ℕ) (v : Val) → Free (put_var m k v)
  unfolding put_var get_var with_vars ◌>>=◌ ◌>>◌
  Free-put_var m k v = record { at = λ s. ground arith }

  Free-recalc_mem_var : (m : Machine) (k : ℕ) → Free (recalc_mem_var m k)
  unfolding recalc_mem_var get_var measure book_var ◌>>=◌ ◌>>◌
  Free-recalc_mem_var m k = record { at = λ s. ground arith }

  Free-recalc_mem_extend_var : (m : Machine) (k : String) → Free (recalc_mem_extend_var m k)
  unfolding recalc_mem_extend_var measure book_extend ◌>>=◌ ◌>>◌
  Free-recalc_mem_extend_var m k = record { at = λ s. ground arith }

  Free-add_var : (m : Machine) (v : Val) → Free (add_var m v)
  unfolding add_var measure append_var ◌>>=◌ ◌>>◌
  Free-add_var m v = record { at = λ s. ground arith }

-- What a function of the host promises: it ends, adds no cost, and the cost that one that queries the
-- database returns first is not negative.
module _ ⦃num : Numbers⦄ where
  pub record PaidHost (m : Machine) : Type 0 where
    pub ends :
        (f : String) (ps : List Val) (rest : Option (List Val)) (s : State)
        → ran_out (m.host f ps rest s).0 ≡ false
    pub adds_none :
        (f : String) (ps : List Val) (rest : Option (List Val)) (s : State)
        → pos_part (m.host f ps rest s).1.cost ≤ pos_part s.cost
    pub appends :
        (k : String) (s : State)
        → (ran_out (m.append_stack k s).0 ≡ false)
          × (pos_part (m.append_stack k s).1.cost ≤ pos_part s.cost)
    pub pops :
        (k : String) (s : State)
        → (ran_out (m.pop_stack k s).0 ≡ false)
          × (pos_part (m.pop_stack k s).1.cost ≤ pos_part s.cost)
    pub charges :
        (f : String) (ps : List Val) (rest : Option (List Val)) (s : State) (c : ℤ)
        (rs : List (HostResult Val))
        → m.func_calls_db f ≡ true
        → (m.host f ps rest s).0 ≡ done (host_value (int64 c) ∷ rs)
        → neg_part c ≡ 0

module _ ⦃num : Numbers⦄ {m : Machine} (n : ℕ) (host : PaidHost m) where
  Bounded-host :
      (f : String) (ps : List Val) (rest : Option (List Val)) → Keeps (Bounded n) (m.host f ps rest)
  Bounded-host f ps rest = record {
    at = λ s _. (host.ends f ps rest s, host.adds_none f ps rest s);
  }

  spend_less : (c d : ℤ) → neg_part d ≡ 0 → pos_part (c -ℤ d) ≤ pos_part c
  spend_less c d h = grind (arith, -ℤ_parts)

  pub Bounded-Rules : Rules m (Bounded n)
  unfolding with_stack with_extend set_unwrap set_err spend no_cost set_depth leave
  Bounded-Rules = record {
    same = λ s _. ground arith;
    next = λ s t u b h k l.
        ((k (ground (arith, (h l).1))).0, ground (arith, (h l).1, (k (ground (arith, (h l).1))).1));
    restack = λ s st _. ground arith;
    reheap = λ s h _. ground arith;
    reframe = λ s fs _. ground arith;
    re_extend = λ s k v _. ground arith;
    unwraps = λ s b _. ground arith;
    errs = λ s e _. ground arith;
    spends = λ s c h _. (refl, spend_less s.cost c h);
    zeroes = λ s _. ground arith;
    nests = λ s t b h. h;
    puts_var = λ k v. Free-Keeps _ n (Free-put_var m k v);
    recalcs_var = λ k. Free-Keeps _ n (Free-recalc_mem_var m k);
    recalcs_extend = λ k. Free-Keeps _ n (Free-recalc_mem_extend_var m k);
    adds_var = λ v. Free-Keeps _ n (Free-add_var m v);
    hosts = Bounded-host;
    appends = λ k. record { at = λ s _. host.appends k s };
    pops = λ k. record { at = λ s _. host.pops k s };
    pays = λ f ps rest s t c rs db e _.
        (refl, spend_less t.cost c (host.charges f ps rest s c rs db e));
  }
