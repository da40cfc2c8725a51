-- ===== src/Script/Keeps/Calls.antt =====
-- The calls of functions keep every relation with the rules, if the blocks that they enter do.
use Prim.Native.String.{String}
use go_apla.Prelude.{
  ℕ, zero, suc, ◌+◌, Bool, true, false, Option, List, [], ◌∷◌, ◌≡◌, refl, arith, ◌∙◌, ap,
}
use go_apla.Prelude.Int.{ℤ, pos}
use go_apla.Script.Value.{Numbers, Val, Ty, nil, int, int64, arr, names, fn, type_param}
use go_apla.Script.Exec.{done, fail, finally, ◌>>=◌, ◌>>◌}
use go_apla.Script.Runtime.{
  State, Step, Machine, FuncInfo, ExtFuncInfo, Callee, func, ext_func, HostResult, host_value,
  no_error, error_text,
}
use go_apla.Script.Memory.{act}
use go_apla.Script.Calls.{
  elems_of, spread_last, tail_params, tails_ref, exec_func_name, count_of, spread_array, spend,
  unwrap_pars, collect_from, collect_tail, fits_type, check_params, tails_of, take_tails,
  push_tails, call_block,
}
use go_apla.Script.ExtCalls.{
  set_depth, one_param, gather, push_results, pay, cost_of, end_call, rest_params, host_call,
  call_ext, par_count, call_body, call_func, call_value,
}
use go_apla.Script.Keeps.{
  Relation, Rules, Keeps, Keeps-bind, Keeps-bind_from, Keeps-act, Keeps-then, Keeps-if, Keeps-pure,
  Keeps-fail, ran_out,
}
use go_apla.Script.Keeps.Changes.{
  changes, Keeps-peek, Keeps-cut_diff, Keeps-stack_at, Keeps-push_value,
}
use go_apla.Script.Keeps.Steps.{Keeps-new_array}

module _ ⦃num : Numbers⦄ {m : Machine} {R : Relation} (r : Rules m R) where
  Keeps-elems_of : (v : Val) → Keeps R (elems_of v)
  unfolding elems_of
  Keeps-elems_of (arr a n) = search changes
  Keeps-elems_of _ = search changes

  Keeps-spread_last : (b : Bool) (v : Val) → Keeps R (spread_last b v)
  unfolding spread_last
  Keeps-spread_last false v = search changes
  Keeps-spread_last true v = search (changes, Keeps-elems_of)

  Keeps-tail_params : (vs : List Val) → Keeps R (tail_params vs)
  unfolding tail_params
  Keeps-tail_params [] = search changes
  Keeps-tail_params (v ∷ vs) = search (changes, Keeps-spread_last)

  Keeps-tails_ref : (v : Val) → Keeps R (tails_ref v)
  unfolding tails_ref
  Keeps-tails_ref nil = search changes
  Keeps-tails_ref (names a) = search changes
  Keeps-tails_ref _ = search changes

  pub Keeps-exec_func_name : (k : String) (n : ℕ) → Keeps R (exec_func_name k n)
  unfolding exec_func_name
  Keeps-exec_func_name k n = search (changes, Keeps-tails_ref, Keeps-tail_params) depth 12

  Keeps-count_of : (v : Val) → Keeps R (count_of m v)
  unfolding count_of
  Keeps-count_of (int (pos n)) = search changes
  Keeps-count_of _ = search changes

  Keeps-spread_array : (v w : Val) → Keeps R (spread_array m v w)
  unfolding spread_array
  Keeps-spread_array v w = search (changes, Keeps-count_of, Keeps-elems_of) depth 9

  Keeps-unwrap_pars : (b : Bool) → Keeps R (unwrap_pars m b)
  unfolding unwrap_pars
  Keeps-unwrap_pars b = search (changes, Keeps-spread_array) depth 9

  Keeps-collect_from : (a n : ℕ) → Keeps R (collect_from m a n)
  unfolding collect_from
  Keeps-collect_from a zero = search changes
  Keeps-collect_from a (suc n) =
      Keeps-bind r _ _ (Keeps-stack_at r a)
        (λ v. Keeps-bind r _ _ (Keeps-collect_from (suc a) n) (λ vs. Keeps-pure r (v ∷ vs)))

  Keeps-collect_tail : (b : Bool) (size count ins : ℕ) → Keeps R (collect_tail m b size count ins)
  unfolding collect_tail
  Keeps-collect_tail false size count ins = search changes
  Keeps-collect_tail true size count ins =
      search (changes, Keeps-collect_from, Keeps-new_array) depth 10

  Keeps-check_params : (i : ℕ) (tys : List Ty) → Keeps R (check_params m i tys)
  unfolding check_params
  Keeps-check_params i [] = search changes
  Keeps-check_params i (ty ∷ tys) = Keeps-bind r _ _ (Keeps-peek r _) (λ v.
      Keeps-if r (fits_type m ty v) (check_params m (suc i) tys) (fail (type_param (i + 1)))
        (λ _. Keeps-check_params (suc i) tys) (λ _. Keeps-fail r (type_param (i + 1))))

  Keeps-tails_of : (v : Val) → Keeps R (tails_of m v)
  unfolding tails_of
  Keeps-tails_of nil = search changes
  Keeps-tails_of (names a) = search changes
  Keeps-tails_of _ = search changes

  Keeps-take_tails : (b : Bool) (size : ℕ) → Keeps R (take_tails m b size)
  unfolding take_tails
  Keeps-take_tails false size = search changes
  Keeps-take_tails true size = search (changes, Keeps-tails_of) depth 9

  Keeps-push_tails : (b : Bool) (v : Val) → Keeps R (push_tails m b v)
  unfolding push_tails
  Keeps-push_tails false v = search changes
  Keeps-push_tails true v = search changes

  module _ (enter : ℕ → Step (Unit {0})) (entered : (b : ℕ) → Keeps R (enter b)) where
    Keeps-call_block :
        (vari : Bool) (b size count : ℕ) (info : FuncInfo)
        → Keeps R (call_block m enter vari b size count info)
    unfolding call_block
    Keeps-call_block vari b size count info =
        search
          (
            changes, Keeps-take_tails, Keeps-collect_tail, Keeps-check_params, Keeps-push_tails,
            entered,
          )
          depth 12

  Keeps-one_param : (size count k auto : ℕ) (a : String) → Keeps R (one_param m size count k auto a)
  unfolding one_param
  Keeps-one_param size count k auto a = search changes

  Keeps-gather :
      (size count k auto : ℕ) (autos : List String) → Keeps R (gather m size count k auto autos)
  unfolding gather
  Keeps-gather size count k auto [] = search changes
  Keeps-gather size count k auto (a ∷ rest) =
      Keeps-bind r _ _ (Keeps-one_param size count k auto a)
        (λ v. Keeps-bind r _ _ (Keeps-gather size count (suc k) _ rest) (λ vs. Keeps-pure r _))

  pub Keeps-push_results : (rs : List (HostResult Val)) → Keeps R (push_results rs)
  unfolding push_results
  Keeps-push_results [] = search changes
  Keeps-push_results (host_value v ∷ rs) =
      Keeps-then r _ _ (Keeps-push_value r v) (Keeps-push_results rs)
  Keeps-push_results (no_error ∷ rs) = Keeps-push_results rs
  Keeps-push_results (error_text e ∷ rs) = search changes

  Keeps-rest_params : (b : Bool) (size count ins : ℕ) → Keeps R (rest_params m b size count ins)
  unfolding rest_params
  Keeps-rest_params false size count ins = search changes
  Keeps-rest_params true size count ins = search (changes, Keeps-collect_from) depth 8

  Keeps-pay : (c : ℤ) → Keeps R (act (spend c)) → Keeps R (pay c)
  unfolding pay
  Keeps-pay c h = search changes depth 9

  -- `h` is what the relation allows if the results stand for a cost and the rest.
  Keeps-end_call :
      (b : Bool) (rs : List (HostResult Val))
      → ((c : ℤ) (rs' : List (HostResult Val)) (s : State)
          → b ≡ true
          → rs ≡ host_value (int64 c) ∷ rs'
          → R s false (spend c s))
      → Keeps R (end_call b rs)
  unfolding end_call cost_of
  Keeps-end_call true (host_value (int64 c) ∷ rs) h =
      Keeps-then r _ _ (Keeps-pay c (Keeps-act r (spend c) (λ s. h c rs s refl refl)))
        (Keeps-push_results rs)
  Keeps-end_call true (host_value _ ∷ rs) h = search changes
  Keeps-end_call true (no_error ∷ rs) h = search changes
  Keeps-end_call true (error_text e ∷ rs) h = search changes
  Keeps-end_call true [] h = Keeps-push_results []
  Keeps-end_call false rs h = Keeps-push_results rs

  Keeps-host_call :
      (size count : ℕ) (f : ExtFuncInfo) (ps : List Val) (rest : Option (List Val))
      → Keeps R (host_call m size count f ps rest)
  unfolding host_call
  Keeps-host_call size count f ps rest = Keeps-bind_from r _ _ (r.hosts f.name ps rest) (λ rs s e.
      Keeps-then r _ _ (Keeps-cut_diff r size count) (
        Keeps-then r _ _ (r.pops f.name) (
          Keeps-end_call _ rs
            (λ c rs' t db e'. r.pays f.name ps rest s t c rs' db (e ∙ ap done e')))))

  Keeps-call_ext : (size count : ℕ) (f : ExtFuncInfo) → Keeps R (call_ext m size count f)
  unfolding call_ext
  Keeps-call_ext size count f =
      Keeps-then r _ _ (r.appends f.name)
        (search (changes, Keeps-gather, Keeps-rest_params, Keeps-host_call) depth 10)

  Keeps-par_count : (b : Bool) (n : ℕ) → Keeps R (par_count m b n)
  unfolding par_count
  Keeps-par_count false n = search changes
  Keeps-par_count true n = search (changes, Keeps-count_of)

  pub Keeps-call_value : (v : Val) (k : String) → Keeps R (call_value m v k)
  unfolding call_value
  Keeps-call_value (fn f n) k =
      search (changes, Keeps-collect_from, Keeps-push_results, r.hosts) depth 10
  Keeps-call_value _ k = search changes

  module _ (enter : ℕ → Step (Unit {0})) (entered : (b : ℕ) → Keeps R (enter b)) where
    Keeps-call_body : (vari : Bool) (c : Callee) → Keeps R (call_body m enter vari c)
    unfolding call_body
    Keeps-call_body vari (func b) =
        search (changes, Keeps-unwrap_pars, Keeps-par_count, Keeps-call_block enter entered) depth
          10
    Keeps-call_body vari (ext_func f) =
        search (changes, Keeps-unwrap_pars, Keeps-par_count, Keeps-call_ext) depth 10

    pub Keeps-call_func : (vari : Bool) (c : Callee) → Keeps R (call_func m enter vari c)
    unfolding call_func finally ◌>>=◌ ◌>>◌
    Keeps-call_func vari c = record {
      at = λ s. ground (
        arith,
        r.same s,
        r.nests s (call_body m enter vari c (set_depth (s.call_depth + 1) s)).1
            (ran_out (call_body m enter vari c (set_depth (s.call_depth + 1) s)).0)
            ((Keeps-call_body vari c).at (set_depth (s.call_depth + 1) s)),
      );
    }
