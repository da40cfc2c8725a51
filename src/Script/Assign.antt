-- ===== src/Script/Assign.antt =====
-- cmdAssign and the variables of the system (packages/script/vm.go).
use Prim.Native.String.{String}
use go_apla.Prelude.{
  ℕ, ◌+◌, Bool, true, false, Bool-cases, inl, inr, ap, sym, get_elem?, Option, none, some, List, [],
  ◌∷◌, ◌≡◌, refl, ◌∙◌, arith, length, if◌then◌else◌,
}
use go_apla.Prelude.Eq.{string_eq, lookup, lookup-insert}
use go_apla.Script.Value.{
  Numbers, Val, Err, Ty, t_money, Converted, converted, bad_text, bad_decimal, sys_var,
}
use go_apla.Script.Exec.{
  Outcome, done, failed, panicked, overflowed, resliced, out_of_fuel, continue, fail, gets,
  or_panic, ◌>>=◌, ◌>>◌,
}
use go_apla.Script.Runtime.{State, Step, Machine, VarInfo, local, extend_var, is_sys_var}
use go_apla.Script.Memory.{
  act, with_extend, put_var, get_var, with_vars, measure, recalc_mem_var, recalc_mem_extend_var,
  book_var, book_extend, set_var, set_extend_var, peek, find_frame,
}
use go_apla.Script.Commands.{
  fine, set_decimal, assign_typed, assign_local, assign_extend, assign_one, assign_all, exec_assign,
}

module _ ⦃num : Numbers⦄ (m : Machine) (k : String) where
  -- A step that leaves the extended variable `k` as it is.
  record Spares {A : Type 0} (c : Step A) : Type 0 where
    at : (s : State) → lookup k (c s).1.extend ≡ lookup k s.extend

  Spares-const : {A : Type 0} (f : State → Outcome Err A) → Spares (λ s. (f s, s))
  Spares-const f = record { at = λ s. refl }

  Spares-or_panic : {A : Type 0} (o : Option A) → Spares (or_panic o)
  Spares-or_panic none = record { at = λ s. refl }
  Spares-or_panic (some a) = record { at = λ s. refl }

  Spares-continue :
      {A B : Type 0} (o : Outcome Err A) (f : A → Step B) (s : State)
      → ((a : A) → Spares (f a))
      → lookup k (continue o f s).1.extend ≡ lookup k s.extend
  Spares-continue (done a) f s h = (h a).at s
  Spares-continue (failed e) f s h = refl
  Spares-continue panicked f s h = refl
  Spares-continue overflowed f s h = refl
  Spares-continue resliced f s h = refl
  Spares-continue out_of_fuel f s h = refl

  Spares-bind :
      {A B : Type 0} (c : Step A) (f : A → Step B)
      → Spares c
      → ((a : A) → Spares (f a))
      → Spares (c >>= f)
  unfolding ◌>>=◌
  Spares-bind c f h g = record { at = λ s. Spares-continue (c s).0 f (c s).1 g ∙ h.at s }

  Spares-then : {A B : Type 0} (c : Step A) (d : Step B) → Spares c → Spares d → Spares (c >> d)
  unfolding ◌>>◌
  Spares-then c d h g = Spares-bind c (λ _. d) h (λ _. g)

  Spares-set_var : (j : ℕ) (v : Val) → Spares (set_var m j v)
  unfolding set_var put_var get_var with_vars recalc_mem_var measure book_var ◌>>=◌ ◌>>◌
  Spares-set_var j v = record { at = λ s. ground arith }

  Spares-recalc : (j : String) → Spares (recalc_mem_extend_var m j)
  unfolding recalc_mem_extend_var measure book_extend ◌>>=◌ ◌>>◌
  Spares-recalc j = record { at = λ s. ground arith }

  Spares-with_extend :
      (j : String) (v : Val)
      → is_sys_var k ≡ true
      → is_sys_var j ≡ false
      → Spares (act (with_extend j v))
  unfolding with_extend
  Spares-with_extend j v h g = record {
    at = λ s. elim (Bool-cases (string_eq.beq j k)) [
      | inl e ↦ ground (arith, sym h ∙ ap is_sys_var (sym ((string_eq.beq_iff j k).0 e)) ∙ g)
      | inr e ↦ lookup-insert j k v s.extend ∙ rw e refl
    ];
  }

  Spares-set_extend_var :
      (j : String) (v : Val)
      → is_sys_var k ≡ true
      → is_sys_var j ≡ false
      → Spares (set_extend_var m j v)
  unfolding set_extend_var
  Spares-set_extend_var j v h g = Spares-then _ _ (Spares-with_extend j v h g) (Spares-recalc j)

  Spares-set_decimal : (i : ℕ) (c : Converted num.Decimal) → Spares (set_decimal m i c)
  unfolding set_decimal
  Spares-set_decimal i (converted d) = Spares-set_var i _
  Spares-set_decimal i bad_text = Spares-const (λ _. failed bad_decimal)
  Spares-set_decimal i Converted.crash = Spares-const (λ _. panicked)

  Spares-assign_typed : (i : ℕ) (v : Val) (ty : Ty) → Spares (assign_typed m i v ty)
  unfolding assign_typed
  Spares-assign_typed i v t_money = Spares-set_decimal i _
  Spares-assign_typed i v _ = Spares-set_var i v

  Spares-peek : (i : ℕ) → Spares (peek i)
  unfolding peek
  Spares-peek i = record { at = λ s. (Spares-or_panic (get_elem? s.stack i)).at s }

  Spares-assign_local : (b i d : ℕ) (o : Option ℕ) → Spares (assign_local m b i d o)
  unfolding assign_local
  Spares-assign_local b i d none = Spares-const (λ _. done tt)
  Spares-assign_local b i d (some n) =
      Spares-bind _ _ (Spares-or_panic _)
        (λ ty. Spares-bind _ _ (Spares-peek d) (λ v. Spares-assign_typed (n + i) v ty))

  Spares-unless_sys :
      (j : String) (d : ℕ) (b : Bool)
      → is_sys_var j ≡ b
      → is_sys_var k ≡ true
      → Spares (if b then fail (sys_var j) else (peek d >>= λ v. set_extend_var m j v))
  Spares-unless_sys j d true e h = Spares-const (λ _. failed (sys_var j))
  Spares-unless_sys j d false e h =
      Spares-bind _ _ (Spares-peek d) (λ v. Spares-set_extend_var j v h e)

  Spares-assign_one : (x : VarInfo) (d : ℕ) → is_sys_var k ≡ true → Spares (assign_one m x d)
  unfolding assign_one assign_extend
  Spares-assign_one (extend_var j) d h = Spares-unless_sys j d (is_sys_var j) refl h
  Spares-assign_one (local b i) d h =
      Spares-bind (gets (λ s. s.blocks)) _ (record { at = λ s. refl })
        (λ fs. Spares-assign_local b i d (find_frame b fs))

  Spares-assign_all : (xs : List VarInfo) → is_sys_var k ≡ true → Spares (assign_all m xs)
  unfolding assign_all
  Spares-assign_all [] h = Spares-const (λ _. done tt)
  Spares-assign_all (x ∷ xs) h =
      Spares-then _ _ (Spares-assign_one x (length xs) h) (Spares-assign_all xs h)

  -- An assignment to any variables leaves a variable of the system as it is, however it ends.
  pub exec_assign-sys_var :
      (xs : List VarInfo) (s : State)
      → is_sys_var k ≡ true
      → lookup k (exec_assign m xs s).1.extend ≡ lookup k s.extend
  unfolding exec_assign
  exec_assign-sys_var xs s h =
      (Spares-then _ _ (Spares-assign_all xs h) (Spares-const (λ _. done fine))).at s
