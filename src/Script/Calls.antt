-- ===== src/Script/Calls.antt =====
-- The calls of functions (packages/script/vm.go): cmdFuncName, callFunc and extendFunc. The block of a
-- function is run by `enter`, which Vm.antt ties to RunCode.
use Prim.Native.String.{String}
use go_apla.Prelude.{
  ℕ, zero, suc, ◌+◌, ◌-◌, Bool, true, false, ◌&&◌, Option, none, some, List, [], ◌∷◌, ◌++◌, ltb,
  if◌then◌else◌, length, set, take, drop,
}
use mathlib.Core.List.{reverse}
use go_apla.Prelude.Int.{ℤ, pos, ◌-ℤ◌}
use go_apla.Prelude.Eq.{nat_eq, string_eq, insert}
use go_apla.Script.Value.{
  Numbers, Val, Ty, t_int, t_string, nil, int, int64, str, arr, names, at_ref, wrong_count_pars,
  type_param,
}
use go_apla.Script.Exec.{Outcome, done, pure, fail, panic, gets, or_panic, ◌>>=◌, ◌>>◌}
use go_apla.Script.Runtime.{FuncInfo, State, Step, Machine}
use go_apla.Script.Memory.{
  push_value, with_stack, with_name_maps, act, peek, new_array, from_bottom,
}
use go_apla.Script.Commands.{Command, ok, set_unwrap}

abbrev pub max_call_depth : ℕ
max_call_depth = 1000

abbrev pub cost_call : ℤ
cost_call = pos 50

abbrev pub cost_extend : ℤ
cost_extend = pos 10

module _ ⦃num : Numbers⦄ where
  unfoldable pub spend : ℤ → State → State
  spend n s = record s { cost = s.cost -ℤ n }

  unfoldable pub no_cost : State → State
  no_cost s = record s { cost = pos 0 }

  -- `rt.stack[i]` from the bottom
  unfoldable pub stack_at : ℕ → Step Val
  unfolding from_bottom
  stack_at i s = or_panic (from_bottom s.stack i) s

  -- `rt.stack = rt.stack[:n]` where the stack is at least that long
  unfoldable pub cut_stack : ℕ → Step (Unit {0})
  cut_stack n s =
      if ltb (length s.stack) n
      then (Outcome.resliced, s)
      else (done tt, record s { stack = drop (length s.stack - n) s.stack })

  unfoldable pub stack_size : State → ℕ
  stack_size s = length s.stack

  -- The elements of an array on the stack.
  unfoldable pub elems_of : Val → Step (List Val)
  unfolding ◌>>=◌
  elems_of (arr r n) = do xs ← gets (λ s. s.heap.arrays); pure (take n (at_ref xs r))
  elems_of _ = panic

  unfoldable pub is_array : Val → Option Bool
  is_array nil = none
  is_array (arr r n) = some true
  is_array _ = some false

  -- The last parameter of a tail is spread if it is an array and cmdUnwrapArr came before it.
  unfoldable pub spread_last : Bool → Val → Step (List Val)
  unfolding is_array elems_of set_unwrap ◌>>=◌ ◌>>◌
  spread_last false v = pure (v ∷ [])
  spread_last true v = do
    spread ← or_panic (is_array v)
    if spread then (do vs ← elems_of v; act (set_unwrap false); pure vs) else pure (v ∷ [])

  -- The parameters from the top of the stack down; the first of them is the last of the tail.
  unfoldable pub tail_params : List Val → Step (List Val)
  unfolding spread_last ◌>>=◌
  tail_params [] = pure []
  tail_params (v ∷ vs) = do
    unwrap ← gets (λ s. s.unwrap)
    last ← spread_last unwrap v
    pure (reverse vs ++ last)

  -- The map of tails below them, made if there is none yet.
  unfoldable pub tails_ref : Val → Step ℕ
  unfolding with_name_maps ◌>>=◌ ◌>>◌
  tails_ref nil = do
    ns ← gets (λ s. s.heap.name_maps)
    act (with_name_maps (ns ++ [] ∷ []))
    pure (length ns)
  tails_ref (names r) = pure r
  tails_ref _ = panic

  unfoldable pub exec_func_name : String → ℕ → Command
  unfolding tail_params tails_ref peek with_name_maps with_stack ◌>>=◌ ◌>>◌
  exec_func_name name count = do
    slot ← peek count
    st ← gets (λ s. s.stack)
    ref ← tails_ref slot
    params ← tail_params (take count st)
    ns ← gets (λ s. s.heap.name_maps)
    act (with_name_maps (set ns ref (insert name params (at_ref ns ref))))
    act (with_stack (names ref ∷ drop (count + 1) st))
    ok

module _ ⦃num : Numbers⦄ (m : Machine) where
  -- The element at a place that may lie below the stack: `a - b` from the bottom.
  unfoldable pub stack_diff : ℕ → ℕ → Step Val
  unfolding stack_at
  stack_diff a b = if ltb a b then panic else stack_at (a - b)

  unfoldable pub cut_diff : ℕ → ℕ → Step (Unit {0})
  unfolding cut_stack
  cut_diff a b = if ltb a b then panic else cut_stack (a - b)

  -- A count on the stack is Go's int, and is not negative.
  unfoldable pub count_of : Val → Step ℕ
  count_of (int (pos n)) = pure n
  count_of _ = panic

  -- An array before the count is spread over the stack when cmdUnwrapArr came before the call.
  unfoldable pub spread_array : Val → Val → Step (Unit {0})
  unfolding is_array elems_of count_of with_stack ◌>>=◌ ◌>>◌
  spread_array top v = do
    spread ← or_panic (is_array v)
    if spread
        then (do
          n ← count_of top
          vs ← elems_of v
          st ← gets (λ s. s.stack)
          act (with_stack (int (pos (n + length vs) -ℤ pos 1) ∷ (reverse vs ++ drop 2 st))))
        else pure tt

  unfoldable pub unwrap_pars : Bool → Step (Unit {0})
  unfolding spread_array set_unwrap peek ◌>>=◌ ◌>>◌
  unwrap_pars vari = do
    unwrap ← gets (λ s. s.unwrap)
    size ← gets stack_size
    if unwrap && vari && ltb 1 size
        then (do top ← peek 0; v ← peek 1; spread_array top v; act (set_unwrap false))
        else act (set_unwrap false)

  -- The parameters of the tail `...`, taken off the stack from `shift` up into one array.
  unfoldable pub collect_from : ℕ → ℕ → Step (List Val)
  unfolding stack_at ◌>>=◌
  collect_from shift zero = pure []
  collect_from shift (suc n) = do v ← stack_at shift; vs ← collect_from (suc shift) n; pure (v ∷ vs)

  -- `if cmd == cmdCallVari` in the branch of a function
  unfoldable pub collect_tail : Bool → ℕ → ℕ → ℕ → Step (Unit {0})
  unfolding collect_from cut_diff new_array push_value ◌>>=◌ ◌>>◌
  collect_tail false size count ins = pure tt
  collect_tail true size count ins =
      if ltb (count + 1) ins
      then fail wrong_count_pars
      else if ltb size (count + 1 - ins)
      then panic
      else do
        let shift = size - (count + 1 - ins)
        pars ← collect_from shift (count + 1 - ins)
        cut_stack shift
        v ← new_array m pars (length pars)
        act (push_value v)

  -- Only the types string and int64 are held against the parameter's.
  unfoldable pub fits_type : Ty → Val → Bool
  fits_type t_string (str s) = true
  fits_type t_string _ = false
  fits_type t_int (int64 n) = true
  fits_type t_int _ = false
  fits_type _ _ = true

  -- The parameters from the `i`th on, `left` of them counted from the top of the stack.
  unfoldable pub check_params : ℕ → List Ty → Step (Unit {0})
  unfolding fits_type peek ◌>>=◌
  check_params i [] = pure tt
  check_params i (ty ∷ tys) = do
    v ← peek (length tys)
    if fits_type ty v then check_params (suc i) tys else fail (type_param (i + 1))

  -- The map of tails on the stack; a value of another type fails the type assertion.
  unfoldable pub tails_of : Val → Step Val
  tails_of nil = pure nil
  tails_of (names r) = pure (names r)
  tails_of _ = panic

  unfoldable pub take_tails : Bool → ℕ → Step Val
  unfolding stack_diff cut_diff tails_of ◌>>=◌ ◌>>◌
  take_tails false size = pure nil
  take_tails true size = do v ← stack_diff size 1; tails ← tails_of v; cut_diff size 1; pure tails

  unfoldable pub push_tails : Bool → Val → Step (Unit {0})
  unfolding push_value
  push_tails false v = pure tt
  push_tails true v = act (push_value v)

  unfoldable pub has_tails : FuncInfo → Bool
  has_tails info = elim info.tails [ none ↦ false | some t ↦ true ]

  module _ (enter : ℕ → Step (Unit {0})) where
    unfoldable pub call_block : Bool → ℕ → ℕ → ℕ → FuncInfo → Step (Unit {0})
    unfolding has_tails take_tails collect_tail check_params push_tails stack_size ◌>>=◌ ◌>>◌
    call_block vari b size count info = do
      tails ← take_tails (has_tails info) size
      collect_tail vari size count (length info.params)
      len ← gets stack_size
      if ltb len (length info.params)
          then fail wrong_count_pars
          else do check_params 0 info.params; push_tails (has_tails info) tails; enter b
