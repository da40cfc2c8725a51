-- ===== src/Script/ExtCalls.antt =====
-- The calls of the functions that Go gives to contracts (packages/script/vm.go): the branch of
-- callFunc for an extended function, extendFunc, and callFunc itself.
use Prim.Native.String.{String}
use text.Mathlib.Text.{◌==◌ as str_eq}
use go_apla.Prelude.{
  ℕ, suc, ◌+◌, ◌-◌, Bool, true, false, not, ◌&&◌, ◌||◌, Option, none, some, List, [], ◌∷◌, ltb, leb,
  ◌==◌, if◌then◌else◌, length, get_elem?, take,
}
use go_apla.Prelude.Int.{ℤ, ltb_ℤ}
use go_apla.Script.Value.{
  Numbers, Val, nil, int64, str, fn, run_time, call_depth_limit, unknown_function, host_error,
  cost_is_over,
}
use go_apla.Script.Exec.{pure, fail, panic, gets, or_panic, finally, ◌>>=◌, ◌>>◌}
use go_apla.Script.Runtime.{
  FuncInfo, ExtFuncInfo, Callee, func, ext_func, State, Step, Machine, HostResult, host_value,
  no_error, error_text,
}
use go_apla.Script.Memory.{push_value, with_extend, act, peek, extend_value}
use go_apla.Script.Calls.{
  max_call_depth, spend, no_cost, stack_diff, cut_diff, stack_size, count_of, unwrap_pars,
  collect_from, call_block,
}

module _ ⦃num : Numbers⦄ where
  unfoldable pub set_depth : ℕ → State → State
  set_depth n s = record s { call_depth = n }

  -- `rt.callDepth--`
  unfoldable pub leave : State → State
  leave s = record s { call_depth = s.call_depth - 1 }

  unfoldable pub is_auto : String → Bool
  is_auto name = not (str_eq name "")

  unfoldable pub count_auto : List String → ℕ
  unfolding is_auto
  count_auto [] = 0
  count_auto (a ∷ as') = (if is_auto a then 1 else 0) + count_auto as'

  -- A nil parameter becomes the zero value of string.
  unfoldable pub or_empty : Val → Val
  or_empty nil = str ""
  or_empty v = v

  -- The parameter `k`: a value of the extended variables, or one of the stack, above which the
  -- `auto` parameters still to come have no place.
  unfoldable pub one_param : Machine → ℕ → ℕ → ℕ → ℕ → String → Step Val
  unfolding is_auto extend_value stack_diff
  one_param m size count k auto name =
      if is_auto name then gets (extend_value name) else stack_diff m (size + k + auto) count

  unfoldable pub gather : Machine → ℕ → ℕ → ℕ → ℕ → List String → Step (List Val)
  unfolding one_param is_auto or_empty ◌>>=◌
  gather m size count k auto [] = pure []
  gather m size count k auto (a ∷ as') = do
    v ← one_param m size count k auto a
    vs ← gather m size count (suc k) (if is_auto a then auto - 1 else auto) as'
    pure (or_empty v ∷ vs)

  -- The first return value of a function that queries the database is its cost.
  unfoldable pub pay : ℤ → Step (Unit {0})
  unfolding spend no_cost ◌>>=◌ ◌>>◌
  pay cost = do
    left ← gets (λ s. s.cost)
    if ltb_ℤ left cost then (do act no_cost; fail cost_is_over) else act (spend cost)

  unfoldable pub cost_of : HostResult Val → Option ℤ
  cost_of (host_value (int64 c)) = some c
  cost_of _ = none

  unfoldable pub push_results : List (HostResult Val) → Step (Unit {0})
  unfolding push_value ◌>>◌
  push_results [] = pure tt
  push_results (host_value v ∷ rs) = do act (push_value v); push_results rs
  push_results (no_error ∷ rs) = push_results rs
  push_results (error_text e ∷ rs) = fail (host_error e)

  unfoldable pub end_call : Bool → List (HostResult Val) → Step (Unit {0})
  unfolding pay cost_of push_results ◌>>=◌ ◌>>◌
  end_call true (r ∷ rs) = do c ← or_panic (cost_of r); pay c; push_results rs
  end_call _ rs = push_results rs

module _ ⦃num : Numbers⦄ (m : Machine) where
  -- The variadic parameters: a slice of the stack, which is left out if there is none.
  unfoldable pub rest_params : Bool → ℕ → ℕ → ℕ → Step (Option (List Val))
  unfolding collect_from ◌>>=◌
  rest_params false size count ins = pure none
  rest_params true size count ins =
      if ltb count ins
      then pure none
      else if ltb size (count + 1 - ins)
      then panic
      else do vs ← collect_from m (size - (count + 1 - ins)) (count + 1 - ins); pure (some vs)

  unfoldable pub is_string : Val → Bool
  is_string (str s) = true
  is_string _ = false

  -- The check of the parameters of ExecContract.
  unfoldable pub bad_exec_contract : String → List Val → Option (List Val) → Bool
  unfolding is_string
  bad_exec_contract name pars rest =
      let txs = elim (get_elem? pars 2) as (λ _. Bool) [ none ↦ false | some v ↦ is_string v ] in
      str_eq name "ExecContract"
      && (not txs || elim rest as (λ _. Bool) [ none ↦ true | some _ ↦ false ])

  -- A function gets as many parameters as it has; a variadic one gets its rest.
  unfoldable pub all_given : ExtFuncInfo → ℕ → Option (List Val) → Bool
  all_given f count rest =
      if f.variadic
      then elim rest as (λ _. Bool) [ none ↦ false | some _ ↦ true ]
      else count == length f.auto

  -- The call itself, the removal of its parameters and the results.
  unfoldable pub host_call : ℕ → ℕ → ExtFuncInfo → List Val → Option (List Val) → Step (Unit {0})
  unfolding cut_diff end_call ◌>>=◌ ◌>>◌
  host_call size count f pars rest = do
    results ← m.host f.name pars rest
    cut_diff m size count
    m.pop_stack f.name
    end_call (m.func_calls_db f.name) results

  unfoldable pub call_ext : ℕ → ℕ → ExtFuncInfo → Step (Unit {0})
  unfolding with_extend count_auto gather rest_params bad_exec_contract all_given host_call ◌>>=◌
      ◌>>◌
  call_ext size count f = do
    let auto = count_auto f.auto
    let ins = length f.auto
    let given = if f.variadic then count + auto else count
    m.append_stack f.name
    act (with_extend "rt" run_time)
    pars ← gather m size given 0 auto (if f.variadic then take (ins - 1) f.auto else f.auto)
    rest ← rest_params f.variadic size given ins
    if bad_exec_contract f.name pars rest
        then fail (unknown_function f.name)
        else if all_given f given rest
        then host_call (if f.variadic then size else size + auto) count f pars rest
        else panic

  -- The place of the parameters' count, and the count itself.
  unfoldable pub par_count : Bool → ℕ → Step ℕ
  unfolding count_of peek ◌>>=◌
  par_count false ins = pure ins
  par_count true ins = do v ← peek 0; count_of m v

  unfoldable pub func_info : ℕ → Option FuncInfo
  func_info b = elim (get_elem? m.program b) [ none ↦ none | some blk ↦ blk.info ]

  -- The size of the stack below the count
  unfoldable pub below_count : Bool → State → ℕ
  unfolding stack_size
  below_count vari s = if vari then stack_size s - 1 else stack_size s

  module _ (enter : ℕ → Step (Unit {0})) where
    unfoldable pub call_body : Bool → Callee → Step (Unit {0})
    unfolding unwrap_pars par_count func_info below_count call_block call_ext ◌>>=◌ ◌>>◌
    call_body vari (func b) = do
      unwrap_pars m vari
      info ← or_panic (func_info b)
      count ← par_count vari (length info.params)
      size ← gets (below_count vari)
      call_block m enter vari b size count info
    call_body vari (ext_func f) = do
      unwrap_pars m vari
      count ← par_count vari (length f.auto)
      size ← gets (below_count vari)
      call_ext size count f

    unfoldable pub call_func : Bool → Callee → Step (Unit {0})
    unfolding call_body set_depth leave ◌>>=◌ ◌>>◌ finally
    call_func vari callee = do
      depth ← gets (λ s. s.call_depth)
      if leb max_call_depth depth
          then fail call_depth_limit
          else finally (do act (set_depth (depth + 1)); call_body vari callee) leave

  -- extendFunc: a Go function among the extended variables, called by its own type.
  unfoldable pub call_value : Val → String → Step (Unit {0})
  unfolding cut_diff push_results collect_from stack_size ◌>>=◌ ◌>>◌
  call_value (fn f arity) name = do
    size ← gets stack_size
    if ltb size arity then panic else do
      pars ← collect_from m (size - arity) arity
      results ← m.host f pars none
      cut_diff m size arity
      push_results results
  call_value _ name = fail (unknown_function name)
