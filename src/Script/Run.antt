-- ===== src/Script/Run.antt =====
-- RunCode and Run (packages/script/vm.go): the variables of a block, its loop, and what it leaves.
use Prim.Native.String.{String}
use go_apla.Prelude.{
  ℕ, zero, suc, ◌+◌, ◌-◌, Bool, true, false, ◌&&◌, Option, none, some, List, [], ◌∷◌, ltb, leb,
  ◌==◌, if◌then◌else◌, length, get_elem?, set, drop,
}
use go_apla.Prelude.Int.{pos}
use go_apla.Prelude.Eq.{string_eq, lookup}
use go_apla.Script.Value.{Numbers, Val, Err, Ty, nil, arr, names, at_ref}
use go_apla.Script.Exec.{
  done, panicked, out_of_fuel, pure, panic, stop, gets, or_panic, reads, catch, ◌>>=◌, ◌>>◌,
}
use go_apla.Script.Runtime.{ByteCode, Block, FuncInfo, FuncName, Frame, State, Step, Machine}
use go_apla.Script.Memory.{act, get_var, set_var, add_var, zero_value, append_values}
use go_apla.Script.Calls.{spend, stack_at, cut_stack, stack_size, stack_diff, has_tails}
use go_apla.Script.ExtCalls.{func_info}
use go_apla.Script.Vm.{
  normal, returned, Locals, Flow, go_on, go_to, leaves, raises, Ended, ended, erred, set_err, arity,
  check_limits, check_size, exec,
}

module _ ⦃num : Numbers⦄ where
  unfoldable pub push_frame : ℕ → State → State
  push_frame b s = record s { blocks = record { block = b; offset = length s.vars } ∷ s.blocks }

  unfoldable pub pop_frame : State → State
  pop_frame s = record s { blocks = drop 1 s.blocks }

  unfoldable pub top_frame : State → Option Frame
  top_frame s = get_elem? s.blocks 0

  unfoldable pub pop_value : State → State
  pop_value s = record s { stack = drop 1 s.stack }

  -- The map of tails on the stack; nil stands for none.
  unfoldable pub as_tails : Val → Step (List (String × List Val))
  unfolding ◌>>=◌
  as_tails nil = pure []
  as_tails (names r) = do ns ← gets (λ s. s.heap.name_maps); pure (at_ref ns r)
  as_tails _ = panic

  unfoldable pub pop_tails : Bool → Step (List (String × List Val))
  unfolding as_tails pop_value stack_at stack_size ◌>>=◌ ◌>>◌
  pop_tails false = pure []
  pop_tails true = do
    v ← reads (λ s. get_elem? s.stack 0)
    tails ← as_tails v
    act pop_value
    pure tails

  unfoldable pub params_of : Option FuncInfo → ℕ
  params_of none = 0
  params_of (some i) = length i.params

  unfoldable pub tailed : Option FuncInfo → Bool
  unfolding has_tails
  tailed none = false
  tailed (some i) = elim i.tails [ none ↦ false | some t ↦ true ]

module _ ⦃num : Numbers⦄ (m : Machine) where
  -- The value of a block's `k`th variable: a parameter of a function on the stack, or a zero value.
  unfoldable pub first_value : ℕ → ℕ → ℕ → Ty → Step Val
  unfolding stack_diff zero_value
  first_value params start k ty =
      if ltb k params then stack_diff m (start + k) params else zero_value m ty

  unfoldable pub init_vars : ℕ → ℕ → ℕ → List Ty → Step (Unit {0})
  unfolding first_value add_var spend ◌>>=◌ ◌>>◌
  init_vars params start k [] = pure tt
  init_vars params start k (ty ∷ tys) = do
    act (spend (pos 1))
    v ← first_value params start k ty
    add_var m v
    init_vars params start (suc k) tys

  -- One more value of a variadic tail, whose variable holds an array.
  unfoldable pub append_to : ℕ → Val → Val → Step (Unit {0})
  unfolding append_values set_var ◌>>=◌
  append_to off (arr r n) v = do more ← append_values m r n (v ∷ []); set_var m off more
  append_to off _ v = panic

  unfoldable pub set_tail_value : FuncName → ℕ → ℕ → Val → Step (Unit {0})
  unfolding append_to set_var get_var ◌>>=◌
  set_tail_value p varoff i v =
      if p.variadic && leb p.params (i + 1)
      then (do
        o ← or_panic (if p.params == 0 then none else get_elem? p.offset (p.params - 1))
        old ← get_var (varoff + o)
        append_to (varoff + o) old v)
      else do o ← or_panic (get_elem? p.offset i); set_var m (varoff + o) v

  unfoldable pub set_tail : FuncName → ℕ → ℕ → List Val → Step (Unit {0})
  unfolding set_tail_value ◌>>◌
  set_tail p varoff i [] = pure tt
  set_tail p varoff i (v ∷ vs) = do set_tail_value p varoff i v; set_tail p varoff (suc i) vs

  -- A name that the function does not have has no parameters.
  unfoldable pub tail_named : String → Option FuncInfo → FuncName
  tail_named k none = record { params = 0; offset = []; variadic = false }
  tail_named k (some info) = elim info.tails [
    | none ↦ record { params = 0; offset = []; variadic = false }
    | some ts ↦ elim (lookup k ts) [
      | none ↦ record { params = 0; offset = []; variadic = false }
      | some p ↦ p
    ]
  ]

  -- Go walks the map of tails in any order; the model takes that of the list.
  unfoldable pub set_tails : Option FuncInfo → ℕ → List (String × List Val) → Step (Unit {0})
  unfolding set_tail tail_named ◌>>◌
  set_tails info varoff [] = pure tt
  set_tails info varoff ((k, vs) ∷ rest) = do
    set_tail (tail_named k info) varoff 0 vs
    set_tails info varoff rest

  -- `rt.stack[start] = rt.stack[len(rt.stack)-count]; start++`, down to count 1
  unfoldable pub write_bottom : ℕ → Val → Step (Unit {0})
  write_bottom i v s =
      if ltb i (length s.stack)
      then (done tt, record s { stack = set s.stack (length s.stack - 1 - i) v })
      else (panicked, s)

  unfoldable pub copy_results : ℕ → ℕ → Step ℕ
  unfolding write_bottom stack_diff stack_size ◌>>=◌ ◌>>◌
  copy_results zero start = pure start
  copy_results (suc count) start = do
    size ← gets stack_size
    v ← stack_diff m size (suc count)
    write_bottom start v
    copy_results count (suc start)

  -- What follows the loop. A block that is no function hands a return on, and leaves the stack as it
  -- is for the function around it.
  unfoldable pub end_block : Option FuncInfo → ℕ → Ended Err → Step (Ended Err)
  unfolding copy_results cut_stack ◌>>=◌ ◌>>◌
  end_block (some info) start (ended returned) = do
    start' ← copy_results info.results start
    cut_stack start'
    pure (ended normal)
  end_block none start (ended returned) = pure (ended returned)
  end_block last start e = do cut_stack start; pure e

  -- The stack below the parameters of a function; a stack shorter than that panics at the end.
  unfoldable pub leave_block : ℕ → ℕ → Ended Err → Step (Ended Err)
  unfolding end_block top_frame pop_frame func_info ◌>>=◌ ◌>>◌
  leave_block params start e = do
    last ← reads top_frame
    act pop_frame
    if ltb start params then panic else end_block (func_info m last.block) (start - params) e

  unfoldable pub run_body : (Block Val → Locals → Step (Ended Err)) → Block Val → Step (Ended Err)
  unfolding pop_tails init_vars set_tails leave_block params_of tailed ◌>>=◌ ◌>>◌
  run_body loop blk = do
    tails ← pop_tails (tailed blk.info)
    start ← gets stack_size
    varoff ← gets (λ s. length s.vars)
    init_vars (params_of blk.info) start 0 blk.vars
    set_tails blk.info varoff tails
    e ← loop blk (record { ci = 0; labels = []; assigned = [] })
    leave_block (params_of blk.info) start e

  -- RunCode on a block of the program. An error that is returned at once leaves the block on the stack
  -- of blocks.
  unfoldable pub run_block : (Block Val → Locals → Step (Ended Err)) → ℕ → Step (Ended Err)
  unfolding run_body push_frame catch ◌>>=◌ ◌>>◌
  run_block loop b = do
    blk ← or_panic (get_elem? m.program b)
    act (push_frame b)
    catch (run_body loop blk) erred

  -- What the loop does with the way out of a command.
  unfoldable pub follow : (Locals → Step (Ended Err)) → Flow Err → Step (Ended Err)
  unfolding set_err ◌>>◌
  follow loop (go_on l) = loop (record l { ci = l.ci + 1 })
  follow loop (go_to l) = loop l
  follow loop (leaves st) = pure (ended st)
  follow loop (raises e) = do act (set_err e); pure (erred e)

  -- One turn of the loop: the limits, the size of the stack, the command and what follows it. The code
  -- ends where there is no command.
  unfoldable pub turn :
      (ℕ → Step (Ended Err))
      → (Locals → Step (Ended Err))
      → Locals
      → Option (ByteCode Val)
      → Step (Ended Err)
  unfolding follow check_limits check_size arity exec ◌>>=◌ ◌>>◌
  turn enter next l none = pure (ended normal)
  turn enter next l (some cmd) = do
    check_limits
    check_size (arity cmd)
    flow ← exec m enter l cmd
    follow next flow

  unfoldable pub loop : ℕ → Block Val → Locals → Step (Ended Err)
  unfolding run_block turn
  loop zero blk l = stop out_of_fuel
  loop (suc fuel) blk l = turn (run_block (loop fuel)) (loop fuel blk) l (get_elem? blk.code l.ci)

  -- RunCode
  unfoldable pub run_code : ℕ → ℕ → Step (Ended Err)
  unfolding run_block loop
  run_code fuel = run_block (loop fuel)
