-- ===== src/Script/Entry.antt =====
-- RunInit and Run (packages/script/vm.go): a run from its start to the results of a function.
use Prim.Native.String.{String}
use go_apla.Prelude.{
  ℕ, ◌<◌, Bool, true, false, Option, none, some, List, [], ◌≡◌, refl, ◌∙◌, arith, length, ltb,
  if◌then◌else◌, take, ◌≢◌, length-reverse, length-take,
}
use mathlib.Core.List.{reverse}
use go_apla.Prelude.Int.{ℤ, pos, pos_part}
use go_apla.Script.Value.{Numbers, Val, Err}
use go_apla.Script.Exec.{Outcome, done, failed, panicked, overflowed, resliced, out_of_fuel}
use go_apla.Script.Runtime.{FuncInfo, State, Machine}
use go_apla.Script.ExtCalls.{func_info}
use go_apla.Script.Vm.{Ended, ended, erred}
use go_apla.Script.Run.{run_code}
use go_apla.Script.Keeps.{ran_out}
use go_apla.Script.Keeps.Vm.{Priced}
use go_apla.Script.Cost.{PaidHost}
use go_apla.Script.Cost.Ends.{run_code-ends}

-- How Run ends: with results, with the error of RunCode, or with a panic that it recovers from. A
-- goroutine out of stack and a slice into old elements are no ends of Run.
pub data Ran (V E : Type 0) : Type 0 where
  returned : List V → Ran V E
  refused : E → Ran V E
  recovered : Ran V E
  crashed old_elements unfinished : Ran V E

module _ ⦃num : Numbers⦄ where
  -- RunInit; `extend` is set by Run.
  unfoldable pub run_init : ℤ → List (String × Val) → State
  run_init cost extend = record {
    stack = [];
    blocks = [];
    vars = [];
    extend = extend;
    cost = cost;
    err = none;
    unwrap = false;
    call_depth = 0;
    mem = pos 0;
    mem_vars = [];
    mem_extend = [];
    heap = record { arrays = []; dicts = []; name_maps = [] };
  }

  -- The results on top of the stack, the last of them first on it.
  unfoldable pub take_results : ℕ → List Val → Ran Val Err
  take_results n st = if ltb (length st) n then recovered else returned (reverse (take n st))

  unfoldable pub ran : ℕ → Outcome Err (Ended Err) → List Val → Ran Val Err
  unfolding take_results
  ran n (done (ended status)) st = take_results n st
  ran n (done (erred e)) st = refused e
  ran n (failed e) st = refused e
  ran n panicked st = recovered
  ran n overflowed st = crashed
  ran n resliced st = old_elements
  ran n out_of_fuel st = unfinished

module _ ⦃num : Numbers⦄ (m : Machine) where
  -- A block that is no function panics before anything is run.
  unfoldable pub run_function :
      ℕ → ℕ → List (String × Val) → Option FuncInfo → State → Ran Val Err × State
  unfolding ran run_code
  run_function fuel b extend none s = (recovered, s)
  run_function fuel b extend (some info) s =
      let s' = record s { extend = extend } in
      let (o, t) = run_code m fuel b s' in (ran info.results o t.stack, t)

  -- Run, which does not look at its parameters.
  unfoldable pub run : ℕ → ℕ → List (String × Val) → State → Ran Val Err × State
  unfolding run_function func_info
  run fuel b extend s = run_function fuel b extend (func_info m b) s

module _ ⦃num : Numbers⦄ where
  Sized : ℕ → Ran Val Err → Type 0
  Sized n (returned vs) = length vs ≡ n
  Sized n unfinished = ⊥
  Sized n _ = Unit {0}

  unless-Sized :
      (n : ℕ) (vs : List Val) (b : Bool)
      → (b ≡ false → length vs ≡ n)
      → Sized n (if b then recovered else returned vs)
  unfolding Sized
  unless-Sized n vs true h = tt
  unless-Sized n vs false h = h refl

  take_results-Sized : (n : ℕ) (st : List Val) → Sized n (take_results n st)
  unfolding take_results
  take_results-Sized n st =
      unless-Sized n (reverse (take n st)) (ltb (length st) n)
        (λ h. length-reverse (take n st) ∙ length-take n st (ground (arith, h)))

  ran-Sized :
      (n : ℕ) (o : Outcome Err (Ended Err)) (st : List Val)
      → ran_out o ≡ false
      → Sized n (ran n o st)
  unfolding ran Sized
  ran-Sized n (done (ended status)) st h = take_results-Sized n st
  ran-Sized n (done (erred e)) st h = tt
  ran-Sized n (failed e) st h = tt
  ran-Sized n panicked st h = tt
  ran-Sized n overflowed st h = tt
  ran-Sized n resliced st h = tt
  ran-Sized n out_of_fuel st h = ground (arith, h)

  Sized-results :
      (n : ℕ) (r : Ran Val Err)
      → Sized n r
      → (r ≢ unfinished) × ((vs : List Val) → r ≡ returned vs → length vs ≡ n)
  unfolding Sized
  Sized-results n (returned ws) h = (λ e. ground (arith, e), λ vs e. ground (arith, e, h))
  Sized-results n (refused x) h = (λ e. ground (arith, e), λ vs e. ground (arith, e))
  Sized-results n recovered h = (λ e. ground (arith, e), λ vs e. ground (arith, e))
  Sized-results n crashed h = (λ e. ground (arith, e), λ vs e. ground (arith, e))
  Sized-results n old_elements h = (λ e. ground (arith, e), λ vs e. ground (arith, e))
  Sized-results n unfinished h = absurd h

module _ ⦃num : Numbers⦄ {m : Machine} (priced : Priced m) (host : PaidHost m) where
  -- Run of a function with more fuel than the cost that is left comes to an end, and if it returns
  -- results, these are as many as the function has. The costs in the table of extended functions are
  -- -1 or not negative, and the functions of the host and the contract stack end and add no cost.
  pub run-results :
      (fuel b : ℕ) (extend : List (String × Val)) (s : State) (info : FuncInfo)
      → func_info m b ≡ some info
      → pos_part s.cost < fuel
      → ((run m fuel b extend s).0 ≢ unfinished)
        × ((vs : List Val) → (run m fuel b extend s).0 ≡ returned vs → length vs ≡ info.results)
  unfolding run
  run-results fuel b extend s info h l =
      let s' = record s { extend = extend } in
      rw h (
        Sized-results info.results _ (
          ran-Sized info.results (run_code m fuel b s').0 (run_code m fuel b s').1.stack
            (run_code-ends priced host fuel b s' l).0))
