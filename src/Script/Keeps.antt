-- ===== src/Script/Keeps.antt =====
-- Relations between the state before a step, whether the step ran out of fuel, and the state after it:
-- the rules by which every step of the machine keeps one, if the changes of the state do.
pub mod Changes
pub mod Steps
pub mod Calls
pub mod Vm
pub mod Run
use Prim.Native.String.{String}
use go_apla.Prelude.{
  ℕ, zero, suc, ◌+◌, ◌-◌, ◌≤◌, Bool, true, false, Option, none, some, List, [], ◌∷◌, ◌≡◌, refl,
  arith, set, length, if◌then◌else◌,
}
use go_apla.Prelude.Int.{ℤ, pos, negsuc, neg_part, ◌≤ℤ◌}
use go_apla.Script.Value.{Numbers, Val, Mem, Err, int64}
use go_apla.Script.Exec.{
  Outcome, done, failed, panicked, overflowed, resliced, out_of_fuel, Exec, pure, fail, panic, gets,
  or_panic, reads, catch, finally, ◌>>=◌, ◌>>◌, continue,
}
use go_apla.Script.Runtime.{State, Step, Machine, Frame, HostResult, host_value}
use go_apla.Script.Memory.{
  push_value, with_stack, with_arrays, with_dicts, with_name_maps, with_vars, with_extend, book_var,
  book_extend, append_var, act, put_var, recalc_mem_var, recalc_mem_extend_var, add_var,
}
use go_apla.Script.Commands.{set_unwrap}
use go_apla.Script.Calls.{spend, no_cost}
use go_apla.Script.ExtCalls.{set_depth, leave}
use go_apla.Script.Vm.{set_err}

abbrev pub ran_out {ℓ κ} : {E : Type ℓ} {A : Type κ} → Outcome E A → Bool
ran_out out_of_fuel = true
ran_out _ = false

module _ ⦃num : Numbers⦄ where
  abbrev pub Relation : Type 1
  Relation = State → Bool → State → Type 0

  pub record Keeps {A : Type 0} (R : Relation) (m : Step A) : Type 0 where
    pub at : (s : State) → R s (ran_out (m s).0) (m s).1

  -- What a relation has to allow: nothing, one step after another, and the changes of the state that
  -- the steps are made of.
  pub record Rules (m : Machine) (R : Relation) : Type 0 where
    pub same : (s : State) → R s false s
    pub next : (s t u : State) (b : Bool) → R s false t → R t b u → R s b u
    pub restack : (s : State) (st : List Val) → R s false (with_stack st s)
    pub reheap : (s : State) (h : Mem) → R s false (record s { heap = h })
    pub reframe : (s : State) (fs : List Frame) → R s false (record s { blocks = fs })
    pub re_extend : (s : State) (k : String) (v : Val) → R s false (with_extend k v s)
    pub unwraps : (s : State) (b : Bool) → R s false (set_unwrap b s)
    pub errs : (s : State) (e : Err) → R s false (set_err e s)
    pub spends : (s : State) (n : ℤ) → neg_part n ≡ 0 → R s false (spend n s)
    pub zeroes : (s : State) → R s false (no_cost s)
    pub nests : (s t : State) (b : Bool) → R (set_depth (s.call_depth + 1) s) b t → R s b (leave t)
    pub puts_var : (k : ℕ) (v : Val) → Keeps R (put_var m k v)
    pub recalcs_var : (k : ℕ) → Keeps R (recalc_mem_var m k)
    pub recalcs_extend : (k : String) → Keeps R (recalc_mem_extend_var m k)
    pub adds_var : (v : Val) → Keeps R (add_var m v)
    pub hosts :
        (name : String) (pars : List Val) (rest : Option (List Val))
        → Keeps R (m.host name pars rest)
    pub appends : (k : String) → Keeps R (m.append_stack k)
    pub pops : (k : String) → Keeps R (m.pop_stack k)
    -- The cost that a function which queries the database returns first.
    pub pays :
        (f : String) (ps : List Val) (rest : Option (List Val)) (s t : State) (c : ℤ)
        (rs : List (HostResult Val))
        → m.func_calls_db f ≡ true
        → (m.host f ps rest s).0 ≡ done (host_value (int64 c) ∷ rs)
        → R t false (spend c t)

module _ ⦃num : Numbers⦄ {m : Machine} {R : Relation} (r : Rules m R) where
  pub Keeps-pure : {A : Type 0} (a : A) → Keeps R (pure {A = A} a)
  Keeps-pure a = record { at = λ s. r.same s }

  pub Keeps-fail : {A : Type 0} (e : Err) → Keeps R (fail {A = A} e)
  Keeps-fail e = record { at = λ s. r.same s }

  pub Keeps-panic : {A : Type 0} → Keeps R (panic {A = A})
  Keeps-panic = record { at = λ s. r.same s }

  pub Keeps-gets : {A : Type 0} (f : State → A) → Keeps R (gets f)
  Keeps-gets f = record { at = λ s. r.same s }

  pub Keeps-or_panic : {A : Type 0} (o : Option A) → Keeps R (or_panic o)
  Keeps-or_panic none = record { at = λ s. r.same s }
  Keeps-or_panic (some a) = record { at = λ s. r.same s }

  pub Keeps-reads : {A : Type 0} (f : State → Option A) → Keeps R (reads f)
  Keeps-reads f = record { at = λ s. (Keeps-or_panic (f s)).at s }

  pub Keeps-act : (f : State → State) → ((s : State) → R s false (f s)) → Keeps R (act f)
  Keeps-act f h = record { at = λ s. h s }

  pub Keeps-stack : (f : State → List Val) → Keeps R (act (λ s. with_stack (f s) s))
  Keeps-stack f = record { at = λ s. r.restack s (f s) }

  Keeps-continue :
      {A B : Type 0} (s t : State) (o : Outcome Err A) (f : A → Step B)
      → R s (ran_out o) t
      → ((a : A) → o ≡ done a → Keeps R (f a))
      → R s (ran_out (continue o f t).0) (continue o f t).1
  Keeps-continue s t (done a) f h k = r.next s t (f a t).1 _ h ((k a refl).at t)
  Keeps-continue s t (failed e) f h k = h
  Keeps-continue s t panicked f h k = h
  Keeps-continue s t overflowed f h k = h
  Keeps-continue s t resliced f h k = h
  Keeps-continue s t out_of_fuel f h k = h

  -- What follows may use where its argument comes from.
  pub Keeps-bind_from :
      {A B : Type 0} (m : Step A) (f : A → Step B)
      → Keeps R m
      → ((a : A) (s : State) → (m s).0 ≡ done a → Keeps R (f a))
      → Keeps R (m >>= f)
  unfolding ◌>>=◌
  Keeps-bind_from m f h k = record {
    at = λ s. Keeps-continue s (m s).1 (m s).0 f (h.at s) (λ a. k a s);
  }

  pub Keeps-bind :
      {A B : Type 0} (m : Step A) (f : A → Step B)
      → Keeps R m
      → ((a : A) → Keeps R (f a))
      → Keeps R (m >>= f)
  Keeps-bind m f h k = Keeps-bind_from m f h (λ a s e. k a)

  pub Keeps-then :
      {A B : Type 0} (m : Step A) (n : Step B) → Keeps R m → Keeps R n → Keeps R (m >> n)
  unfolding ◌>>◌
  Keeps-then m n h k = Keeps-bind m (λ _. n) h (λ _. k)

  pub Keeps-if :
      {A : Type 0} (b : Bool) (m n : Step A)
      → (b ≡ true → Keeps R m)
      → (b ≡ false → Keeps R n)
      → Keeps R (if b then m else n)
  Keeps-if true m n h k = h refl
  Keeps-if false m n h k = k refl

  Keeps-caught :
      {A : Type 0} (s t : State) (o : Outcome Err A) (f : Err → A)
      → R s (ran_out o) t
      → R s (ran_out (catch (λ _. (o, t)) f s).0) (catch (λ _. (o, t)) f s).1
  unfolding catch
  Keeps-caught s t (done a) f h = h
  Keeps-caught s t (failed e) f h = h
  Keeps-caught s t panicked f h = h
  Keeps-caught s t overflowed f h = h
  Keeps-caught s t resliced f h = h
  Keeps-caught s t out_of_fuel f h = h

  pub Keeps-catch : {A : Type 0} (m : Step A) (f : Err → A) → Keeps R m → Keeps R (catch m f)
  unfolding catch
  Keeps-catch m f h = record { at = λ s. Keeps-caught s (m s).1 (m s).0 f (h.at s) }

pub ruleset keeps_rules = (
  Keeps-pure, Keeps-fail, Keeps-panic, Keeps-gets, Keeps-or_panic, Keeps-reads, Keeps-act,
  Keeps-bind, Keeps-then, Keeps-if, Keeps-catch,
)
