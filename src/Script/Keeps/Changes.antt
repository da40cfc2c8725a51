-- ===== src/Script/Keeps/Changes.antt =====
-- The changes of the state, as steps that a relation with the rules keeps.
use Prim.Native.String.{String}
use go_apla.Prelude.{ℕ, ◌-◌, Bool, List, ◌∷◌, ◌≡◌, arith, drop, length}
use go_apla.Prelude.Int.{ℤ, neg_part}
use go_apla.Script.Value.{Numbers, Val, Err}
use go_apla.Script.Runtime.{Machine}
use go_apla.Script.Memory.{
  push_value, with_stack, with_arrays, with_dicts, with_name_maps, with_extend, act, peek, get_var,
  set_var, set_extend_var,
}
use go_apla.Script.Commands.{drop_top, replace_two, replace_top, replace_slice, set_unwrap}
use go_apla.Script.Calls.{spend, no_cost, stack_at, cut_stack, stack_diff, cut_diff}
use go_apla.Script.Vm.{set_err}
use go_apla.Script.Keeps.{
  Relation, Rules, Keeps, Keeps-act, Keeps-stack, keeps_rules, Keeps-or_panic, Keeps-panic,
}

module _ ⦃num : Numbers⦄ {m : Machine} {R : Relation} (r : Rules m R) where
  pub Keeps-with_stack : (st : List Val) → Keeps R (act (with_stack st))
  Keeps-with_stack st = Keeps-act r (with_stack st) (λ s. r.restack s st)

  pub Keeps-push_value : (v : Val) → Keeps R (act (push_value v))
  unfolding push_value with_stack
  Keeps-push_value v = Keeps-stack r (λ s. v ∷ s.stack)

  pub Keeps-drop_top : (n : ℕ) → Keeps R (act (drop_top n))
  unfolding drop_top with_stack
  Keeps-drop_top n = Keeps-stack r (λ s. drop n s.stack)

  pub Keeps-replace_two : (v : Val) → Keeps R (act (replace_two v))
  unfolding replace_two with_stack
  Keeps-replace_two v = Keeps-stack r (λ s. v ∷ drop 2 s.stack)

  pub Keeps-replace_top : (v : Val) → Keeps R (act (replace_top v))
  unfolding replace_top with_stack
  Keeps-replace_top v = Keeps-stack r (λ s. v ∷ drop 1 s.stack)

  pub Keeps-replace_slice : (v : Val) → Keeps R (act (replace_slice m v))
  unfolding replace_slice with_stack
  Keeps-replace_slice v = Keeps-stack r (λ s. v ∷ drop 3 s.stack)

  pub Keeps-with_arrays : (xs : List (List Val)) → Keeps R (act (with_arrays xs))
  unfolding with_arrays
  Keeps-with_arrays xs = record { at = λ s. r.reheap s _ }

  pub Keeps-with_dicts : (ds : List (List (String × Val))) → Keeps R (act (with_dicts ds))
  unfolding with_dicts
  Keeps-with_dicts ds = record { at = λ s. r.reheap s _ }

  pub Keeps-with_name_maps :
      (ns : List (List (String × List Val))) → Keeps R (act (with_name_maps ns))
  unfolding with_name_maps
  Keeps-with_name_maps ns = record { at = λ s. r.reheap s _ }

  pub Keeps-with_extend : (k : String) (v : Val) → Keeps R (act (with_extend k v))
  Keeps-with_extend k v = Keeps-act r (with_extend k v) (λ s. r.re_extend s k v)

  pub Keeps-set_unwrap : (b : Bool) → Keeps R (act (set_unwrap b))
  Keeps-set_unwrap b = Keeps-act r (set_unwrap b) (λ s. r.unwraps s b)

  pub Keeps-set_err : (e : Err) → Keeps R (act (set_err e))
  Keeps-set_err e = Keeps-act r (set_err e) (λ s. r.errs s e)

  pub Keeps-spend : (n : ℤ) → neg_part n ≡ 0 → Keeps R (act (spend n))
  Keeps-spend n h = Keeps-act r (spend n) (λ s. r.spends s n h)

  pub Keeps-no_cost : Keeps R (act no_cost)
  Keeps-no_cost = Keeps-act r no_cost (λ s. r.zeroes s)

  pub Keeps-peek : (k : ℕ) → Keeps R (peek k)
  unfolding peek
  Keeps-peek k = record { at = λ s. (Keeps-or_panic r _).at s }

  pub Keeps-get_var : (k : ℕ) → Keeps R (get_var k)
  unfolding get_var
  Keeps-get_var k = record { at = λ s. (Keeps-or_panic r _).at s }

  pub Keeps-stack_at : (k : ℕ) → Keeps R (stack_at k)
  unfolding stack_at
  Keeps-stack_at k = record { at = λ s. (Keeps-or_panic r _).at s }

  pub Keeps-stack_diff : (a b : ℕ) → Keeps R (stack_diff m a b)
  unfolding stack_diff
  Keeps-stack_diff a b = search (keeps_rules, Keeps-stack_at)

  pub Keeps-cut_stack : (n : ℕ) → Keeps R (cut_stack n)
  unfolding cut_stack with_stack
  Keeps-cut_stack n = record {
    at = λ s. ground (arith, r.same s, r.restack s (drop (length s.stack - n) s.stack));
  }

  pub Keeps-cut_diff : (a b : ℕ) → Keeps R (cut_diff m a b)
  unfolding cut_diff
  Keeps-cut_diff a b = search (keeps_rules, Keeps-cut_stack)

  pub Keeps-set_var : (k : ℕ) (v : Val) → Keeps R (set_var m k v)
  unfolding set_var
  Keeps-set_var k v = search (keeps_rules, r.puts_var, r.recalcs_var)

  pub Keeps-set_extend_var : (k : String) (v : Val) → Keeps R (set_extend_var m k v)
  unfolding set_extend_var
  Keeps-set_extend_var k v = search (keeps_rules, Keeps-with_extend, r.recalcs_extend)

pub ruleset changes = (
  keeps_rules, Keeps-with_stack, Keeps-push_value, Keeps-drop_top, Keeps-replace_two,
  Keeps-replace_top, Keeps-replace_slice, Keeps-with_arrays, Keeps-with_dicts, Keeps-with_name_maps,
  Keeps-with_extend, Keeps-set_unwrap, Keeps-set_err, Keeps-spend, Keeps-no_cost, Keeps-peek,
  Keeps-get_var, Keeps-stack_at, Keeps-stack_diff, Keeps-cut_stack, Keeps-cut_diff, Keeps-set_var,
  Keeps-set_extend_var,
)
