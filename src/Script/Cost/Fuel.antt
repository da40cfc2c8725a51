-- ===== src/Script/Cost/Fuel.antt =====
-- More fuel than is enough changes nothing: RunCode's result is that of any run with enough fuel.
use go_apla.Prelude.{ℕ, zero, suc, ◌<◌, ◌≤◌, Bool, true, false, Option, none, some, ◌≡◌, arith}
use go_apla.Prelude.Int.{pos_part}
use go_apla.Script.Value.{Numbers, Val, Err}
use go_apla.Script.Runtime.{
  ByteCode, if_block, else_block, while_block, call, call_vari, Block, FuncInfo, Callee, func,
  ext_func, State, Step, Machine,
}
use go_apla.Script.Calls.{call_block}
use go_apla.Script.ExtCalls.{call_body, call_func}
use go_apla.Script.Vm.{
  Locals, Flow, go_on, go_to, leaves, raises, Ended, then_on, enter_func, exec_call, exec_if,
  exec_while, exec, check_limits, check_size, arity,
}
use go_apla.Script.Run.{run_body, run_block, follow, turn, loop, run_code}
use go_apla.Script.Keeps.Vm.{Priced}
use go_apla.Script.Cost.{PaidHost}
use go_apla.Script.Cost.Ends.{run_code-ends}
use go_apla.Script.Cost.Below.{
  Below, Below-same, Below-bind, Below-then, Below-if, Below-catch, Below-finally,
}

module _ ⦃num : Numbers⦄ (m : Machine) where
  Below-call_block :
      (d e : ℕ → Step (Unit {0}))
      → ((b : ℕ) → Below (d b) (e b))
      → (vari : Bool) (b size count : ℕ) (info : FuncInfo)
      → Below (call_block m d vari b size count info) (call_block m e vari b size count info)
  unfolding call_block
  Below-call_block d e h vari b size count info =
      search (Below-bind, Below-then, Below-if, Below-same, h) depth 12

  Below-call_body :
      (d e : ℕ → Step (Unit {0}))
      → ((b : ℕ) → Below (d b) (e b))
      → (vari : Bool) (c : Callee) → Below (call_body m d vari c) (call_body m e vari c)
  unfolding call_body
  Below-call_body d e h vari (func b) =
      search (Below-bind, Below-then, Below-same, Below-call_block d e h) depth 12
  Below-call_body d e h vari (ext_func f) = Below-same _

  Below-call_func :
      (d e : ℕ → Step (Unit {0}))
      → ((b : ℕ) → Below (d b) (e b))
      → (vari : Bool) (c : Callee) → Below (call_func m d vari c) (call_func m e vari c)
  unfolding call_func
  Below-call_func d e h vari c =
      search (Below-bind, Below-then, Below-if, Below-finally, Below-same, Below-call_body d e h)
        depth 12

module _ ⦃num : Numbers⦄ (m : Machine) (d e : ℕ → Step (Ended Err))
    (h : (b : ℕ) → Below (d b) (e b)) where
  Below-enter_func : (b : ℕ) → Below (enter_func m d b) (enter_func m e b)
  unfolding enter_func
  Below-enter_func b = Below-bind (d b) (e b) _ _ (h b) (λ x. Below-same _)

  Below-exec_call : (vari : Bool) (c : Callee) → Below (exec_call m d vari c) (exec_call m e vari c)
  unfolding exec_call
  Below-exec_call vari c =
      search
        (
          Below-then,
          Below-catch,
          Below-same,
          Below-call_func m (enter_func m d) (enter_func m e) Below-enter_func,
        )
        depth 9

  Below-exec_if :
      (wanted : Bool) (b : ℕ) (l : Locals) → Below (exec_if m d wanted b l) (exec_if m e wanted b l)
  unfolding exec_if
  Below-exec_if wanted b l = search (Below-bind, Below-if, Below-same, h) depth 9

  Below-exec_while : (b : ℕ) (l : Locals) → Below (exec_while m d b l) (exec_while m e b l)
  unfolding exec_while
  Below-exec_while b l = search (Below-bind, Below-then, Below-if, Below-same, h) depth 9

  Below-then_on : (l : Locals) (x y : Step _) → Below x y → Below (then_on l x) (then_on l y)
  unfolding then_on
  Below-then_on l x y k = Below-bind x y _ _ k (λ a. Below-same _)

  Below-exec : (l : Locals) (c : ByteCode Val) → Below (exec m d l c) (exec m e l c)
  unfolding exec
  Below-exec l (if_block b) = Below-exec_if true b l
  Below-exec l (else_block b) = Below-exec_if false b l
  Below-exec l (while_block b) = Below-exec_while b l
  Below-exec l (call c) = Below-then_on l _ _ (Below-exec_call false c)
  Below-exec l (call_vari c) = Below-then_on l _ _ (Below-exec_call true c)
  Below-exec l _ = Below-same _

  Below-follow :
      (d' e' : Locals → Step (Ended Err))
      → ((l : Locals) → Below (d' l) (e' l))
      → (f : Flow Err) → Below (follow m d' f) (follow m e' f)
  unfolding follow
  Below-follow d' e' k (go_on l) = k _
  Below-follow d' e' k (go_to l) = k l
  Below-follow d' e' k (leaves st) = Below-same _
  Below-follow d' e' k (raises x) = Below-same _

  Below-turn :
      (d' e' : Locals → Step (Ended Err))
      → ((l : Locals) → Below (d' l) (e' l))
      → (l : Locals) (o : Option (ByteCode Val)) → Below (turn m d d' l o) (turn m e e' l o)
  unfolding turn
  Below-turn d' e' k l none = Below-same _
  Below-turn d' e' k l (some cmd) =
      Below-then check_limits check_limits _ _ (Below-same check_limits) (
        Below-then (check_size (arity cmd)) (check_size (arity cmd)) _ _ (Below-same _)
          (Below-bind _ _ _ _ (Below-exec l cmd) (Below-follow d' e' k)))

module _ ⦃num : Numbers⦄ (m : Machine) where
  Below-run_body :
      (d e : Block Val → Locals → Step (Ended Err))
      → ((b : Block Val) (l : Locals) → Below (d b l) (e b l))
      → (b : Block Val) → Below (run_body m d b) (run_body m e b)
  unfolding run_body
  Below-run_body d e h b = search (Below-bind, Below-then, Below-same, h) depth 14

  Below-run_block :
      (d e : Block Val → Locals → Step (Ended Err))
      → ((b : Block Val) (l : Locals) → Below (d b l) (e b l))
      → (b : ℕ) → Below (run_block m d b) (run_block m e b)
  unfolding run_block
  Below-run_block d e h b =
      search (Below-bind, Below-then, Below-catch, Below-same, Below-run_body d e h) depth 10

  Below-loop :
      (fuel n : ℕ)
      → fuel ≤ n
      → (b : Block Val) (l : Locals) → Below (loop m fuel b l) (loop m n b l)
  unfolding loop
  Below-loop zero n le b l = record { at = λ s h. ground (arith, h) }
  Below-loop (suc fuel) zero le b l = ground (arith, le)
  Below-loop (suc fuel) (suc n) le b l =
      let loops = Below-loop fuel n (omega (arith, le)) in
      Below-turn m (run_block m (loop m fuel)) (run_block m (loop m n))
        (Below-run_block (loop m fuel) (loop m n) loops) (loop m fuel b) (loop m n b) (loops b) l _

module _ ⦃num : Numbers⦄ {m : Machine} (priced : Priced m) (host : PaidHost m) where
  -- All runs of a block with more fuel than the cost that is left are one: they have the same outcome
  -- and leave the same state. The costs in the table of extended functions are -1 or not negative, and
  -- the functions of the host and the contract stack end and add no cost.
  pub run_code_determined :
      (fuel n b : ℕ) (s : State)
      → pos_part s.cost < fuel
      → fuel ≤ n
      → run_code m n b s ≡ run_code m fuel b s
  unfolding run_code
  run_code_determined fuel n b s h le =
      (Below-run_block m (loop m fuel) (loop m n) (Below-loop m fuel n le) b).at s
        (run_code-ends priced host fuel b s h).0
