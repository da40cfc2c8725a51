-- ===== src/Script/Vm.antt =====
-- RunCode (packages/script/vm.go): how a block runs. The loop over the commands recurs on fuel, and a
-- nested block is run by the loop with one unit less.
use Prim.Native.String.{String}
use go_apla.Prelude.{ℕ, ◌*◌, Bool, true, false, not, none, some, List, [], ◌∷◌, ltb, if◌then◌else◌}
use go_apla.Prelude.Int.{ℤ, pos, negsuc, ltb_ℤ, ◌==ℤ◌}
use go_apla.Prelude.Eq.{nat_eq, string_eq, lookup}
use go_apla.Script.Value.{
  Numbers, Value, Val, Err, int, int64, cost_is_over, memory_limit, stack_is_empty, thrown,
  unknown_extend, extend_function, unknown_command, value_to_bool,
}
use go_apla.Script.Exec.{pure, fail, panic, gets, catch, ◌>>=◌, ◌>>◌}
use go_apla.Script.Runtime.{
  ByteCode, push, push_str, if_block, else_block, while_block, label, continue_loop, break_loop,
  assign, ret, unwrap_arr, index, sign, negate, assign_var, error, func_name, call, call_vari, var,
  extend, call_extend, set_index, operator, array_init, map_init, unknown, Callee, func, ext_func,
  VarInfo, State, Step, Machine,
}
use go_apla.Script.Memory.{push_value, act, peek, var_value, new_array, new_dict}
use go_apla.Script.Literals.{get_result_value, get_result_array, get_result_map}
use go_apla.Script.Commands.{
  Ends, fine, raised, Command, ok, raise, drop_top, exec_operator, exec_sign, exec_not,
  exec_unwrap_arr, exec_index, exec_assign, exec_set_index,
}
use go_apla.Script.Calls.{cost_call, cost_extend, spend, no_cost, stack_size, exec_func_name}
use go_apla.Script.ExtCalls.{call_func, call_value}

abbrev pub memory_limit_size : ℕ
memory_limit_size = 128 * 1_048_576

pub data Status : Type 0 where
  normal returned continued broken : Status

-- The local variables of the loop: the command's position, `labels` and `assign`.
pub record Locals : Type 0 where
  pub ci : ℕ
  pub labels : List ℕ
  pub assigned : List VarInfo

-- Where a command leads: to the next one, to a position, or out of the loop with a status or an error.
pub data Flow (E : Type 0) : Type 0 where
  go_on : Locals → Flow E
  go_to : Locals → Flow E
  leaves : Status → Flow E
  raises : E → Flow E

-- What RunCode returns; with an error the status is normal.
pub data Ended (E : Type 0) : Type 0 where
  ended : Status → Ended E
  erred : E → Ended E

module _ ⦃num : Numbers⦄ where
  abbrev pub Next : Type 0
  Next = Step (Flow Err)

  unfoldable pub set_err : Err → State → State
  set_err e s = record s { err = some e }

  -- `top[i-1] = rt.stack[size-i]` wants that many elements.
  unfoldable pub arity : ByteCode Val → ℕ
  arity (operator op) = 2
  arity sign = 1
  arity negate = 1
  arity _ = 0

  -- The cost and the memory are looked at before every command.
  unfoldable pub check_limits : Step (Unit {0})
  unfolding spend ◌>>=◌ ◌>>◌
  check_limits = do
    act (spend (pos 1))
    cost ← gets (λ s. s.cost)
    mem ← gets (λ s. s.mem)
    if ltb_ℤ (pos 0) cost
        then (if ltb_ℤ (pos memory_limit_size) mem then fail memory_limit else pure tt)
        else fail cost_is_over

  unfoldable pub check_size : ℕ → Step (Unit {0})
  unfolding stack_size ◌>>=◌
  check_size n = do size ← gets stack_size; if ltb size n then fail stack_is_empty else pure tt

  -- The end of the switch: an error, or the next command.
  unfoldable pub after : Locals → Ends Err → Next
  after l fine = pure (go_on l)
  after l (raised e) = pure (raises e)

  unfoldable pub then_on : Locals → Command → Next
  unfolding after ◌>>=◌
  then_on l m = m >>= after l

  -- The end of the switch after a block has run.
  unfoldable pub after_block : Locals → Ended Err → Next
  after_block l (ended normal) = pure (go_on l)
  after_block l (ended st) = pure (leaves st)
  after_block l (erred e) = pure (raises e)

  unfoldable pub truth : Val → Step Bool
  unfolding value_to_bool ◌>>=◌
  truth v = do heap ← gets (λ s. s.heap); pure (value_to_bool heap v)

  -- The label of the loop is taken whatever the block returned.
  unfoldable pub after_while : Locals → Ended Err → List ℕ → Next
  after_while l e [] = panic
  after_while l (ended continued) (start ∷ labels) =
      pure (go_to (record l { ci = start; labels = labels }))
  after_while l (ended broken) (start ∷ labels) = pure (go_on (record l { labels = labels }))
  after_while l (ended normal) (start ∷ labels) = pure (go_on (record l { labels = labels }))
  after_while l (ended returned) (start ∷ labels) = pure (leaves returned)
  after_while l (erred e) (start ∷ labels) = pure (raises e)

  pub as_int64 : Val → Val
  as_int64 (int n) = int64 n
  as_int64 v = v

  -- ExtCost: -1 is a function without a cost of its own.
  unfoldable pub pay_ext : ℤ → Step (Unit {0})
  unfolding spend no_cost ◌>>=◌ ◌>>◌
  pay_ext cost = do
    left ← gets (λ s. s.cost)
    if ltb_ℤ left cost
        then (do act no_cost; fail cost_is_over)
        else if cost ==ℤ negsuc 0
        then act (spend cost_call)
        else act (spend cost)

  module _ (m : Machine) where
    unfoldable pub pay_call : Callee → Step (Unit {0})
    unfolding pay_ext spend
    pay_call (func b) = act (spend cost_call)
    pay_call (ext_func f) = elim m.ext_cost [ none ↦ pure tt | some cost ↦ pay_ext (cost f.name) ]

    -- cmdExtend; an int of the extended variables is read as int64.
    unfoldable pub exec_extend : String → Command
    unfolding as_int64 push_value spend ◌>>=◌ ◌>>◌
    exec_extend k = do
      found ← gets (λ s. lookup k s.extend)
      elim found [
        | none ↦ raise (unknown_extend k)
        | some v ↦ do act (spend cost_extend); act (push_value (as_int64 v)); ok
      ]

    -- cmdCallExtend; an error of the function is returned at once.
    unfoldable pub exec_call_extend : String → Command
    unfolding call_value spend catch ◌>>=◌ ◌>>◌
    exec_call_extend k = do
      found ← gets (λ s. lookup k s.extend)
      elim found [
        | none ↦ raise (unknown_extend k)
        | some v ↦ do
          act (spend cost_extend)
          end ← catch (do call_value m v k; ok) raised
          elim end [ fine ↦ ok | raised e ↦ fail (extend_function k) ]
      ]

    module _ (enter : ℕ → Step (Ended Err)) where
      -- RunCode as callFunc uses it: the status is dropped.
      unfoldable pub enter_func : ℕ → Step (Unit {0})
      unfolding ◌>>=◌
      enter_func b = do e ← enter b; elim e [ ended st ↦ pure tt | erred err ↦ fail err ]

      unfoldable pub exec_call : Bool → Callee → Command
      unfolding pay_call call_func enter_func catch ◌>>◌
      exec_call vari callee = do
        pay_call callee
        catch (do call_func m enter_func vari callee; ok) raised

      unfoldable pub exec_if : Bool → ℕ → Locals → Next
      unfolding truth after_block peek ◌>>=◌
      exec_if wanted b l = do
        v ← peek 0
        t ← truth v
        if (if wanted then t else not t) then (do e ← enter b; after_block l e) else pure (go_on l)

      unfoldable pub exec_while : ℕ → Locals → Next
      unfolding truth after_while drop_top peek ◌>>=◌ ◌>>◌
      exec_while b l = do
        v ← peek 0
        act (drop_top 1)
        t ← truth v
        if t then (do e ← enter b; after_while l e l.labels) else pure (go_on l)

      unfoldable pub exec : Locals → ByteCode Val → Next
      unfolding exec_if exec_while exec_call exec_extend exec_call_extend exec_operator exec_sign
          exec_not exec_unwrap_arr exec_index exec_assign exec_set_index exec_func_name
          get_result_value push_value var_value then_on ◌>>=◌ ◌>>◌
      exec l (push v) = then_on l (do act (push_value v); ok)
      exec l (push_str s) = then_on l (do act (push_value (Value.str s)); ok)
      exec l (if_block b) = exec_if true b l
      exec l (else_block b) = exec_if false b l
      exec l (while_block b) = exec_while b l
      exec l label = pure (go_on (record l { labels = l.ci ∷ l.labels }))
      exec l continue_loop = pure (leaves continued)
      exec l break_loop = pure (leaves broken)
      exec l (assign_var vs) = pure (go_on (record l { assigned = vs }))
      exec l assign = then_on l (exec_assign m l.assigned)
      exec l ret = pure (leaves returned)
      exec l (error kind) = do v ← peek 0; pure (raises (thrown kind v))
      exec l (func_name name count) = then_on l (exec_func_name name count)
      exec l (call c) = then_on l (exec_call false c)
      exec l (call_vari c) = then_on l (exec_call true c)
      exec l (var owner i) = then_on l (do v ← var_value owner i; act (push_value v); ok)
      exec l (extend k) = then_on l (exec_extend k)
      exec l (call_extend k) = then_on l (exec_call_extend k)
      exec l index = then_on l exec_index
      exec l (set_index v) = then_on l (exec_set_index m v)
      exec l unwrap_arr = then_on l exec_unwrap_arr
      exec l sign = then_on l exec_sign
      exec l negate = then_on l exec_not
      exec l (operator op) = then_on l (exec_operator op)
      exec l (array_init xs) =
          then_on l
            (do start ← new_array m [] 0; v ← get_result_array m xs start; act (push_value v); ok)
      exec l (map_init es) =
          then_on l (do kvs ← get_result_map m es []; v ← new_dict m kvs; act (push_value v); ok)
      exec l unknown = pure (raises unknown_command)
