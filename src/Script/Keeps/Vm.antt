-- ===== src/Script/Keeps/Vm.antt =====
-- The commands of the loop keep every relation with the rules, if the blocks that they enter do.
use Prim.Native.String.{String}
use go_apla.Prelude.{ℕ, Bool, true, false, Option, none, some, List, [], ◌∷◌, ◌≡◌, refl}
use go_apla.Prelude.Int.{ℤ, negsuc, neg_part, ◌==ℤ◌}
use go_apla.Prelude.Eq.{string_eq, lookup}
use go_apla.Script.Value.{Numbers, Val, Err, unknown_extend, extend_function}
use go_apla.Script.Exec.{pure, fail, catch, gets, ◌>>=◌, ◌>>◌}
use go_apla.Script.Runtime.{
  ByteCode, push, push_str, if_block, else_block, while_block, label, continue_loop, break_loop,
  assign, ret, unwrap_arr, index, sign, negate, assign_var, error, func_name, call, call_vari, var,
  extend, call_extend, set_index, operator, array_init, map_init, unknown, Step, Machine, Callee,
  func, ext_func,
}
use go_apla.Script.Memory.{push_value, act}
use go_apla.Script.Commands.{Ends, fine, raised, Command, ok, raise}
use go_apla.Script.ExtCalls.{call_value}
use go_apla.Script.Calls.{spend, cost_extend}
use go_apla.Script.Vm.{
  Locals, Ended, ended, erred, normal, returned, continued, broken, after, then_on, after_block,
  truth, after_while, pay_ext, pay_call, exec_extend, exec_call_extend, enter_func, exec_call,
  exec_if, exec_while, exec, as_int64, check_limits, check_size,
}
use go_apla.Script.Keeps.{Relation, Rules, Keeps, Keeps-bind, Keeps-then, Keeps-pure, Keeps-gets}
use go_apla.Script.Keeps.Changes.{changes, Keeps-spend}
use go_apla.Script.Keeps.Steps.{
  Keeps-new_array, Keeps-new_dict, Keeps-var_value, Keeps-get_result_array, Keeps-get_result_map,
  Keeps-exec_operator, Keeps-exec_sign, Keeps-exec_not, Keeps-exec_unwrap_arr, Keeps-exec_index,
  Keeps-exec_assign, Keeps-exec_set_index,
}
use go_apla.Script.Keeps.Calls.{Keeps-exec_func_name, Keeps-call_func, Keeps-call_value}

module _ ⦃num : Numbers⦄ where
  -- A cost in the table of extended functions is -1 for none of its own, or not negative.
  abbrev pub Priced : Machine → Type 0
  Priced m =
      (c : String → ℤ)
      → m.ext_cost ≡ some c
      → (k : String) → (c k ==ℤ negsuc 0) ≡ false
      → neg_part (c k) ≡ 0

module _ ⦃num : Numbers⦄ {m : Machine} {R : Relation} (r : Rules m R) where
  Keeps-after : (l : Locals) (e : Ends Err) → Keeps R (after l e)
  unfolding after
  Keeps-after l fine = search changes
  Keeps-after l (raised e) = search changes

  Keeps-then_on : (l : Locals) (c : Command) → Keeps R c → Keeps R (then_on l c)
  unfolding then_on
  Keeps-then_on l c h = Keeps-bind r c _ h (Keeps-after l)

  Keeps-after_block : (l : Locals) (e : Ended Err) → Keeps R (after_block l e)
  unfolding after_block
  Keeps-after_block l (ended normal) = search changes
  Keeps-after_block l (ended _) = search changes
  Keeps-after_block l (erred e) = search changes

  Keeps-after_while : (l : Locals) (e : Ended Err) (ls : List ℕ) → Keeps R (after_while l e ls)
  unfolding after_while
  Keeps-after_while l e [] = search changes
  Keeps-after_while l (ended normal) (x ∷ ls) = search changes
  Keeps-after_while l (ended returned) (x ∷ ls) = search changes
  Keeps-after_while l (ended continued) (x ∷ ls) = search changes
  Keeps-after_while l (ended broken) (x ∷ ls) = search changes
  Keeps-after_while l (erred e) (x ∷ ls) = search changes

  Keeps-truth : (v : Val) → Keeps R (truth v)
  unfolding truth
  Keeps-truth v = search changes

  pub Keeps-check_limits : Keeps R check_limits
  unfolding check_limits
  Keeps-check_limits = search changes depth 10

  pub Keeps-check_size : (n : ℕ) → Keeps R (check_size n)
  unfolding check_size
  Keeps-check_size n = search changes

  Keeps-pay_ext : (c : ℤ) → ((c ==ℤ negsuc 0) ≡ false → neg_part c ≡ 0) → Keeps R (pay_ext c)
  unfolding pay_ext
  Keeps-pay_ext c h = search (changes, h) depth 10

  Keeps-priced :
      (o : Option (String → ℤ)) (k : String)
      → ((c : String → ℤ) → o ≡ some c → (c k ==ℤ negsuc 0) ≡ false → neg_part (c k) ≡ 0)
      → Keeps R (elim o as (λ _. Step (Unit {0})) [ none ↦ pure tt | some c ↦ pay_ext (c k) ])
  Keeps-priced none k h = Keeps-pure r tt
  Keeps-priced (some c) k h = Keeps-pay_ext (c k) (h c refl)

  Keeps-pay_call : Priced m → (c : Callee) → Keeps R (pay_call m c)
  unfolding pay_call
  Keeps-pay_call h (func b) = search changes
  Keeps-pay_call h (ext_func f) = Keeps-priced m.ext_cost f.name (λ c e. h c e f.name)

  Keeps-extended :
      (k : String) (o : Option Val)
      → Keeps R (elim o as (λ _. Command) [
        | none ↦ raise (unknown_extend k)
        | some v ↦ do act (spend cost_extend); act (push_value (as_int64 v)); ok
      ])
  Keeps-extended k none = search changes
  Keeps-extended k (some v) = search changes depth 9

  Keeps-exec_extend : (k : String) → Keeps R (exec_extend m k)
  unfolding exec_extend
  Keeps-exec_extend k =
      Keeps-bind r (gets (λ s. lookup k s.extend)) _ (Keeps-gets r _) (Keeps-extended k)

  Keeps-ended_call :
      (k : String) (e : Ends Err)
      → Keeps R (elim e as (λ _. Command) [ fine ↦ ok | raised x ↦ fail (extend_function k) ])
  Keeps-ended_call k fine = search changes
  Keeps-ended_call k (raised e) = search changes

  Keeps-called :
      (k : String) (o : Option Val)
      → Keeps R (elim o as (λ _. Command) [
        | none ↦ raise (unknown_extend k)
        | some v ↦ do
          act (spend cost_extend)
          end ← catch (do call_value m v k; ok) raised
          elim end [ fine ↦ ok | raised e ↦ fail (extend_function k) ]
      ])
  Keeps-called k none = search changes
  Keeps-called k (some v) = Keeps-then r _ _ (Keeps-spend r cost_extend refl) (
      Keeps-bind r (catch (do call_value m v k; ok) raised) _ (search (changes, Keeps-call_value))
        (Keeps-ended_call k))

  Keeps-exec_call_extend : (k : String) → Keeps R (exec_call_extend m k)
  unfolding exec_call_extend
  Keeps-exec_call_extend k =
      Keeps-bind r (gets (λ s. lookup k s.extend)) _ (Keeps-gets r _) (Keeps-called k)

module _ ⦃num : Numbers⦄ {m : Machine} {R : Relation} (r : Rules m R) (priced : Priced m)
    (enter : ℕ → Step (Ended Err)) (entered : (b : ℕ) → Keeps R (enter b)) where
  Keeps-end_func :
      (e : Ended Err)
      → Keeps R (elim e as (λ _. Step (Unit {0})) [ ended st ↦ pure tt | erred err ↦ fail err ])
  Keeps-end_func (ended st) = search changes
  Keeps-end_func (erred e) = search changes

  Keeps-enter_func : (b : ℕ) → Keeps R (enter_func m enter b)
  unfolding enter_func
  Keeps-enter_func b = Keeps-bind r (enter b) _ (entered b) Keeps-end_func

  Keeps-exec_call : (vari : Bool) (c : Callee) → Keeps R (exec_call m enter vari c)
  unfolding exec_call
  Keeps-exec_call vari c =
      search
        (changes, Keeps-pay_call r priced, Keeps-call_func r (enter_func m enter) Keeps-enter_func)

  Keeps-exec_if : (wanted : Bool) (b : ℕ) (l : Locals) → Keeps R (exec_if m enter wanted b l)
  unfolding exec_if
  Keeps-exec_if wanted b l = search (changes, Keeps-truth, entered, Keeps-after_block) depth 9

  Keeps-exec_while : (b : ℕ) (l : Locals) → Keeps R (exec_while m enter b l)
  unfolding exec_while
  Keeps-exec_while b l = search (changes, Keeps-truth, entered, Keeps-after_while) depth 10

  pub Keeps-exec : (l : Locals) (c : ByteCode Val) → Keeps R (exec m enter l c)
  unfolding exec
  Keeps-exec l (push v) = search (changes, Keeps-then_on)
  Keeps-exec l (push_str s) = search (changes, Keeps-then_on)
  Keeps-exec l (if_block b) = Keeps-exec_if true b l
  Keeps-exec l (else_block b) = Keeps-exec_if false b l
  Keeps-exec l (while_block b) = Keeps-exec_while b l
  Keeps-exec l label = search changes
  Keeps-exec l continue_loop = search changes
  Keeps-exec l break_loop = search changes
  Keeps-exec l (assign_var vs) = search changes
  Keeps-exec l assign = Keeps-then_on r l _ (Keeps-exec_assign r l.assigned)
  Keeps-exec l ret = search changes
  Keeps-exec l (error kind) = search changes
  Keeps-exec l (func_name k n) = Keeps-then_on r l _ (Keeps-exec_func_name r k n)
  Keeps-exec l (call c) = Keeps-then_on r l _ (Keeps-exec_call false c)
  Keeps-exec l (call_vari c) = Keeps-then_on r l _ (Keeps-exec_call true c)
  Keeps-exec l (var owner i) = search (changes, Keeps-then_on, Keeps-var_value) depth 9
  Keeps-exec l (extend k) = Keeps-then_on r l _ (Keeps-exec_extend r k)
  Keeps-exec l (call_extend k) = Keeps-then_on r l _ (Keeps-exec_call_extend r k)
  Keeps-exec l index = Keeps-then_on r l _ (Keeps-exec_index r)
  Keeps-exec l (set_index v) = Keeps-then_on r l _ (Keeps-exec_set_index r v)
  Keeps-exec l unwrap_arr = Keeps-then_on r l _ (Keeps-exec_unwrap_arr r)
  Keeps-exec l sign = Keeps-then_on r l _ (Keeps-exec_sign r)
  Keeps-exec l negate = Keeps-then_on r l _ (Keeps-exec_not r)
  Keeps-exec l (operator op) = Keeps-then_on r l _ (Keeps-exec_operator r op)
  Keeps-exec l (array_init xs) =
      search (changes, Keeps-then_on, Keeps-new_array, Keeps-get_result_array) depth 10
  Keeps-exec l (map_init es) =
      search (changes, Keeps-then_on, Keeps-new_dict, Keeps-get_result_map) depth 10
  Keeps-exec l unknown = search changes
