-- ===== src/Script/Tests.antt =====
-- Runs of the machine at concrete inputs: a loop that counts down, a function that is called with a
-- parameter, and a host function that queries the database.
use go_apla.Prelude.{
  ℕ, suc, ◌^◌, ◌-◌, ◌⊎◌, ◌+◌, ◌≤◌, ◌<◌, Bool, true, false, Option, none, some, List, [], ◌∷◌, ◌≡◌,
  ◌≢◌, refl, sym, ap, arith, max, length,
}
use go_apla.Prelude.Int.{
  ℤ, pos, negsuc, pos_part, neg_part, ◌+ℤ◌, ◌-ℤ◌, ◌*ℤ◌, ◌==ℤ◌, ltb_ℤ, IsInt64,
}
use go_apla.Prelude.Eq.{string_eq, nat_eq, lookup}
use go_apla.Script.Value.{Numbers, Val, Mem, Err, t_int, t_array, int64, arr, at_ref, div_zero}
use go_apla.Script.Operators.{op_sub, op_add, op_div, quot, binary, value, hard}
use go_apla.Script.Exec.{Outcome, done}
use go_apla.Script.Runtime.{
  FuncInfo, Block, push, while_block, label, continue_loop, assign, assign_var, call, var, operator,
  ret, func, ext_func, local, extend_var, State, Machine, HostResult, host_value, is_sys_var,
}
use go_apla.Script.Memory.{calc_mem}
use go_apla.Script.Commands.{exec_assign}
use go_apla.Script.Vm.{Status, ended, normal}
use go_apla.Script.Run.{run_code, end_block}
use go_apla.Script.Keeps.{ran_out}
use go_apla.Script.Keeps.Vm.{Priced}
use go_apla.Script.Cost.{PaidHost}
use go_apla.Script.Cost.Ends.{run_code-ends}
use go_apla.Script.ExtCalls.{func_info}
use go_apla.Script.Entry.{returned, unfinished, run, run-results}
use go_apla.Script.Cost.Fuel.{run_code_determined}
use go_apla.Script.Leaving.{end_block-stack}
use go_apla.Script.Depth.{run_code-same_depth}
use go_apla.Script.Integers.{Divides, int_division}
use go_apla.Script.Assign.{exec_assign-sys_var}
use go_apla.Script.Cycles.{calc_mem-cyclic}

-- Integers in place of floats and decimals.
instance abbrev ints : Numbers
ints = record {
  Float = ℤ;
  of_int = λ n. n;
  parse_float = λ s. pos 0;
  f_zero = pos 0;
  f_neg = λ n. pos 0 -ℤ n;
  f_add = ◌+ℤ◌;
  f_sub = ◌-ℤ◌;
  f_mul = ◌*ℤ◌;
  f_div = quot;
  f_eq = ◌==ℤ◌;
  f_lt = ltb_ℤ;
  Decimal = ℤ;
  dec_of_int = λ n. n;
  dec_of_float = λ n. n;
  parse_dec = λ s. none;
  d_zero = pos 0;
  d_floor = λ n. n;
  d_add = ◌+ℤ◌;
  d_sub = ◌-ℤ◌;
  d_mul = ◌*ℤ◌;
  d_div = quot;
  d_eq = ◌==ℤ◌;
  d_lt = ltb_ℤ;
}

abbrev main : Block Val
main = record {
  info = none;
  vars = t_int ∷ t_array ∷ [];
  code =
      push (int64 (pos 2))
      ∷ assign_var (local 0 0 ∷ [])
      ∷ assign
      ∷ label
      ∷ var 0 0
      ∷ while_block 1
      ∷ push (int64 (pos 7))
      ∷ call (func 2)
      ∷ call (ext_func (record { name = "DBCount"; auto = []; variadic = false }))
      ∷ [];
}

abbrev count_down : Block Val
count_down = record {
  info = none;
  vars = [];
  code =
      var 0 0
      ∷ push (int64 (pos 1))
      ∷ operator op_sub
      ∷ assign_var (local 0 0 ∷ [])
      ∷ assign
      ∷ continue_loop
      ∷ [];
}

abbrev next_of : Block Val
next_of = record {
  info = some (record { params = t_int ∷ []; results = 1; tails = none });
  vars = t_int ∷ [];
  code = var 2 0 ∷ push (int64 (pos 1)) ∷ operator op_add ∷ ret ∷ [];
}

abbrev db_count : List (HostResult Val)
db_count = host_value (int64 (pos 5)) ∷ host_value (int64 (pos 42)) ∷ []

abbrev machine : Machine
machine = record {
  program = main ∷ count_down ∷ next_of ∷ [];
  ext_cost = some (λ k. negsuc 0);
  func_calls_db = λ k. true;
  host = λ f ps rest s. (done db_count, s);
  append_stack = λ k s. (done tt, s);
  pop_stack = λ k s. (done tt, s);
  grow = λ old need. max need (old + old);
  go_stack = 20;
}

abbrev start : State
start = record {
  stack = [];
  blocks = [];
  vars = [];
  extend = ("key_id", int64 (pos 9)) ∷ [];
  cost = pos 500;
  err = none;
  unwrap = false;
  call_depth = 0;
  mem = pos 0;
  mem_vars = [];
  mem_extend = [];
  heap = record { arrays = []; dicts = []; name_maps = [] };
}

priced : Priced machine
priced c e k h = ground arith

debt : Outcome Err (List (HostResult Val)) → ℕ
debt (done (host_value (int64 c) ∷ rs)) = neg_part c
debt _ = 0

paid : PaidHost machine
unfolding debt
paid = record {
  ends = λ f ps rest s. refl;
  adds_none = λ f ps rest s. omega arith;
  appends = λ k s. (refl, omega arith);
  pops = λ k s. (refl, omega arith);
  charges = λ f ps rest s c rs db e. sym (ap debt e);
}

-- The run counts down to 0, keeps 8 of the function and 42 of the host on the stack, and ends.
run_test : (run_code machine 200 0 start).0 ≡ done (ended normal)
unfolding run_code ◌-ℤ◌ ◌+ℤ◌ lookup go_apla.Prelude.Eq.insert go_apla.Prelude.Int.wrap64
run_test = refl

run_code-ends_example :
    (ran_out (run_code machine 501 0 start).0 ≡ false)
    × (pos_part (run_code machine 501 0 start).1.cost ≤ pos_part start.cost)
run_code-ends_example = run_code-ends priced paid 501 0 start (omega arith)

run_code-same_depth_example : (run_code machine 501 0 start).1.call_depth ≡ 0
run_code-same_depth_example =
    run_code-same_depth machine (λ f ps rest. record { at = λ s. refl })
      (λ k. (record { at = λ s. refl }, record { at = λ s. refl })) priced 501 0 start

abbrev empty_heap : Mem
empty_heap = start.heap

-- The smallest int64, by -1.
abbrev smallest : ℤ
smallest = negsuc (2 ^ 63 - 1)

int_division_example :
    ((d : ℤ) × IsInt64 d
      × (binary empty_heap op_sub (int64 smallest) (int64 (negsuc 0)) ≡ value (int64 d))
      × (binary empty_heap op_add (int64 d) (int64 (negsuc 0)) ≡ value (int64 smallest)))
    × (((negsuc 0 ≡ pos 0)
          × (binary empty_heap op_div (int64 smallest) (int64 (negsuc 0)) ≡ hard div_zero))
        ⊎ Divides empty_heap smallest (negsuc 0))
int_division_example =
    int_division empty_heap smallest (negsuc 0) (omega arith, omega arith)
      (omega arith, omega arith)

exec_assign-sys_var_example :
    lookup "key_id" (exec_assign machine (extend_var "key_id" ∷ []) start).1.extend
    ≡ lookup "key_id" start.extend
unfolding is_sys_var
exec_assign-sys_var_example =
    exec_assign-sys_var machine "key_id" (extend_var "key_id" ∷ []) start refl

abbrev knot : Mem
knot = record { arrays = (arr 0 1 ∷ []) ∷ []; dicts = []; name_maps = [] }

calc_mem-cyclic_example : calc_mem 20 knot (arr 0 1) ≡ none
unfolding at_ref
calc_mem-cyclic_example = calc_mem-cyclic knot 0 1 0 20 refl (omega arith)

-- The function alone, with 4 on the stack as its parameter.
abbrev four : State
four = record start { stack = int64 (pos 4) ∷ [] }

run_function_test : (run machine 200 2 [] four).0 ≡ returned (int64 (pos 5) ∷ [])
unfolding run ◌-ℤ◌ ◌+ℤ◌ lookup go_apla.Prelude.Eq.insert go_apla.Prelude.Int.wrap64
run_function_test = refl

run-results_example :
    ((run machine 501 2 [] four).0 ≢ unfinished)
    × ((vs : List Val) → (run machine 501 2 [] four).0 ≡ returned vs → length vs ≡ 1)
unfolding func_info
run-results_example =
    run-results priced paid 501 2 [] four
      (record { params = t_int ∷ []; results = 1; tails = none }) refl (omega arith)

run_code_determined_example : run_code machine 900 0 start ≡ run_code machine 501 0 start
run_code_determined_example =
    run_code_determined priced paid 501 900 0 start (omega arith) (omega arith)

abbrev one_result : FuncInfo
one_result = record { params = t_int ∷ []; results = 1; tails = none }

-- A value that the block found, one that is left over, and the two results.
abbrev two_results : FuncInfo
two_results = record { params = []; results = 2; tails = none }

abbrev used : State
used = record start { stack = int64 (pos 4) ∷ int64 (pos 3) ∷ int64 (pos 2) ∷ int64 (pos 1) ∷ [] }

end_block-stack_example : end_block machine (some two_results) 1 (ended Status.returned) used ≡ (
  done (ended normal),
  record start { stack = int64 (pos 4) ∷ int64 (pos 3) ∷ int64 (pos 1) ∷ [] },
)
end_block-stack_example =
    end_block-stack machine (some two_results) 1 (ended Status.returned) used (omega arith)
