-- ===== src/Script/Memory.antt =====
-- What a run keeps in memory and how much of it (packages/script/vm.go): calcMem, the variables of
-- RunTime with their sizes, arrays that grow, and the values of literals.
use Prim.Native.String.{String, len}
use go_apla.Prelude.{
  ℕ, zero, suc, ◌+◌, ◌-◌, false, Option, none, some, List, [], ◌∷◌, ◌++◌, ltb, leb, ◌==◌,
  if◌then◌else◌, length, get_elem?, set, take, drop, replicate, max,
}
use go_apla.Prelude.Int.{ℤ, pos, ◌+ℤ◌, ◌-ℤ◌}
use go_apla.Prelude.Eq.{nat_eq, string_eq, lookup, insert}
use go_apla.Script.Value.{
  Numbers, Val, Mem, wrong_var, Ty, nil, int64, uint64, uint8, int, float, bool, str, bytes, dec,
  arr, dict, names, fn, run_time, t_bool, t_bytes, t_int, t_address, t_array, t_map, t_money,
  t_float, t_string, at_ref,
}
use go_apla.Script.Exec.{done, pure, fail, gets, or_panic, or_overflow, ◌>>=◌, ◌>>◌}
use go_apla.Script.Runtime.{Frame, State, Step, Machine}

-- The innermost entry of a block on the stack of blocks, by its offset.
unfoldable pub find_frame : ℕ → List Frame → Option ℕ
find_frame owner [] = none
find_frame owner (f ∷ fs) = if f.block == owner then some f.offset else find_frame owner fs

-- A size that a map does not have is 0.
unfoldable pub size_of : Option ℤ → ℤ
size_of none = pos 0
size_of (some n) = n

module _ ⦃num : Numbers⦄ where
  unfoldable pub sum_mem : (Val → Option ℕ) → List Val → Option ℕ
  sum_mem f [] = some 0
  sum_mem f (v ∷ vs) = elim (f v) [
    | none ↦ none
    | some n ↦ elim (sum_mem f vs) [ none ↦ none | some k ↦ some (n + k) ]
  ]

  unfoldable pub sum_names : (Val → Option ℕ) → List (String × List Val) → Option ℕ
  unfolding sum_mem
  sum_names f [] = some 0
  sum_names f ((k, vs) ∷ rest) = elim (sum_mem f vs) [
    | none ↦ none
    | some n ↦ elim (sum_names f rest) [ none ↦ none | some r ↦ some (len k + (12 + n) + r) ]
  ]

  abbrev pub header : ℕ → Option ℕ → Option ℕ
  header k none = none
  header k (some n) = some (k + n)

  -- calcMem recurs into the elements of an array; `none` is a goroutine out of stack.
  unfoldable pub calc_mem : ℕ → Mem → Val → Option ℕ
  unfolding sum_names
  calc_mem zero heap v = none
  calc_mem (suc d) heap nil = some 16
  calc_mem (suc d) heap (int n) = some 8
  calc_mem (suc d) heap (int64 n) = some 8
  calc_mem (suc d) heap (uint64 n) = some 8
  calc_mem (suc d) heap (uint8 n) = some 1
  calc_mem (suc d) heap (float f) = some 8
  calc_mem (suc d) heap (bool b) = some 1
  calc_mem (suc d) heap (str s) = some (len s)
  calc_mem (suc d) heap (bytes b) = some (12 + length b)
  calc_mem (suc d) heap (dec x) = some 16
  calc_mem (suc d) heap (arr r n) =
      header 12 (sum_mem (calc_mem d heap) (take n (at_ref heap.arrays r)))
  calc_mem (suc d) heap (dict r) = some 16
  calc_mem (suc d) heap (names r) = header 4 (sum_names (calc_mem d heap) (at_ref heap.name_maps r))
  calc_mem (suc d) heap (fn s n) = some 16
  calc_mem (suc d) heap run_time = some 16

  -- The state after `rt.memVars[k] = mem; rt.mem += mem - old`.
  unfoldable pub book_var : ℕ → ℕ → State → State
  unfolding size_of
  book_var k n s = record s {
    mem = s.mem +ℤ (pos n -ℤ size_of (lookup k s.mem_vars));
    mem_vars = insert k (pos n) s.mem_vars;
  }

  unfoldable pub book_extend : String → ℕ → State → State
  unfolding size_of
  book_extend k n s = record s {
    mem = s.mem +ℤ (pos n -ℤ size_of (lookup k s.mem_extend));
    mem_extend = insert k (pos n) s.mem_extend;
  }

  -- addVar writes its own size and does not take an old one away.
  unfoldable pub append_var : Val → ℕ → State → State
  append_var v n s = record s {
    vars = s.vars ++ v ∷ [];
    mem_vars = insert (length s.vars) (pos n) s.mem_vars;
    mem = s.mem +ℤ pos n;
  }

  unfoldable pub push_value : Val → State → State
  push_value v s = record s { stack = v ∷ s.stack }

  unfoldable pub with_stack : List Val → State → State
  with_stack st s = record s { stack = st }

  unfoldable pub with_arrays : List (List Val) → State → State
  with_arrays xs s = record s { heap = record s.heap { arrays = xs } }

  unfoldable pub with_dicts : List (List (String × Val)) → State → State
  with_dicts ds s = record s { heap = record s.heap { dicts = ds } }

  unfoldable pub with_name_maps : List (List (String × List Val)) → State → State
  with_name_maps ns s = record s { heap = record s.heap { name_maps = ns } }

  unfoldable pub with_vars : List Val → State → State
  with_vars vs s = record s { vars = vs }

  unfoldable pub with_extend : String → Val → State → State
  with_extend k v s = record s { extend = insert k v s.extend }

  unfoldable pub extend_value : String → State → Val
  extend_value k s = elim (lookup k s.extend) [ none ↦ nil | some v ↦ v ]

  -- `rt.stack[i]`, counted from the bottom
  unfoldable pub from_bottom : List Val → ℕ → Option Val
  from_bottom st i = if ltb i (length st) then get_elem? st (length st - 1 - i) else none

  abbrev pub act : (State → State) → Step (Unit {0})
  act f s = (done tt, f s)

  -- The stack's element at a depth, 0 for the top.
  unfoldable pub peek : ℕ → Step Val
  peek k s = or_panic (get_elem? s.stack k) s

  unfoldable pub get_var : ℕ → Step Val
  get_var k s = or_panic (get_elem? s.vars k) s

  unfoldable pub read_local : ℕ → ℕ → Option ℕ → Step Val
  unfolding get_var
  read_local owner i none = fail (wrong_var i)
  read_local owner i (some offset) = get_var (offset + i)

  -- cmdVar and mapVar
  unfoldable pub var_value : ℕ → ℕ → Step Val
  unfolding find_frame read_local ◌>>=◌
  var_value owner i = do fs ← gets (λ s. s.blocks); read_local owner i (find_frame owner fs)

  module _ (m : Machine) where
    unfoldable pub measure : Val → Step ℕ
    unfolding calc_mem
    measure v s = or_overflow (calc_mem m.go_stack s.heap v) s

    unfoldable pub recalc_mem_var : ℕ → Step (Unit {0})
    unfolding measure book_var get_var ◌>>=◌
    recalc_mem_var k = do v ← get_var k; n ← measure v; act (book_var k n)

    unfoldable pub recalc_mem_extend_var : String → Step (Unit {0})
    unfolding measure book_extend extend_value ◌>>=◌
    recalc_mem_extend_var k = do v ← gets (extend_value k); n ← measure v; act (book_extend k n)

    unfoldable pub add_var : Val → Step (Unit {0})
    unfolding measure append_var ◌>>=◌
    add_var v = do n ← measure v; act (append_var v n)

    -- A write past the end of `rt.vars` panics.
    unfoldable pub put_var : ℕ → Val → Step (Unit {0})
    unfolding get_var with_vars ◌>>=◌
    put_var k v = do get_var k; vs ← gets (λ s. s.vars); act (with_vars (set vs k v))

    unfoldable pub set_var : ℕ → Val → Step (Unit {0})
    unfolding put_var recalc_mem_var ◌>>◌
    set_var k v = do put_var k v; recalc_mem_var k

    unfoldable pub set_extend_var : String → Val → Step (Unit {0})
    unfolding with_extend recalc_mem_extend_var ◌>>◌
    set_extend_var k v = do act (with_extend k v); recalc_mem_extend_var k

    -- A new backing array, and the slice of all its first `n` elements.
    unfoldable pub new_array : List Val → ℕ → Step Val
    unfolding with_arrays ◌>>=◌
    new_array backing n = do
      xs ← gets (λ s. s.heap.arrays)
      act (with_arrays (xs ++ backing ∷ []))
      pure (arr (length xs) n)

    unfoldable pub new_dict : List (String × Val) → Step Val
    unfolding with_dicts ◌>>=◌
    new_dict entries = do
      ds ← gets (λ s. s.heap.dicts)
      act (with_dicts (ds ++ entries ∷ []))
      pure (dict (length ds))

    -- append(slice, vs...): in place if the capacity is enough, else in a new array.
    unfoldable pub append_values : ℕ → ℕ → List Val → Step Val
    unfolding new_array with_arrays ◌>>=◌
    append_values r n vs = do
      xs ← gets (λ s. s.heap.arrays)
      let old = at_ref xs r
      let need = n + length vs
      if leb need (length old)
          then (do
            act (with_arrays (set xs r (take n old ++ (vs ++ drop need old))))
            pure (arr r need))
          else new_array
              (take n old ++ (vs ++ replicate (max need (m.grow (length old) need) - need) nil))
              need

    -- The zero value of a variable's type; maps and arrays are made.
    unfoldable pub zero_value : Ty → Step Val
    unfolding new_dict new_array ◌>>=◌
    zero_value t_bool = pure (bool false)
    zero_value t_bytes = pure (bytes [])
    zero_value t_int = pure (int64 (pos 0))
    zero_value t_address = pure (uint64 0)
    zero_value t_array = do vs ← gets (λ s. s.vars); new_array (replicate (length vs + 1) nil) 0
    zero_value t_map = new_dict []
    zero_value t_money = pure (dec num.d_zero)
    zero_value t_float = pure (float num.f_zero)
    zero_value t_string = pure (str "")
