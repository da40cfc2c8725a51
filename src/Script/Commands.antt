-- ===== src/Script/Commands.antt =====
-- The commands of RunCode that run no other block (packages/script/vm.go), each as a step of the
-- state. `raise` is `err = e` with the switch left by break; `fail` is `return 0, e`.
use Prim.Native.String.{String}
use go_apla.Prelude.{
  ℕ, ◌+◌, ◌-◌, Bool, true, not, ◌&&◌, Option, none, some, List, [], ◌∷◌, ltb, leb, if◌then◌else◌,
  length, get_elem?, set, drop, replicate,
}
use go_apla.Prelude.Int.{ℤ, pos, negsuc, ◌-ℤ◌, wrap64}
use go_apla.Prelude.Eq.{nat_eq, string_eq, lookup, insert}
use go_apla.Script.Value.{
  Numbers, Val, Err, Ty, t_money, nil, int64, uint8, float, bool, str, bytes, dec, arr, dict,
  at_ref, sys_var, bad_decimal, no_indexing, max_array_index, max_map_count, array_index_type,
  map_index_type, Converted, converted, bad_text, value_to_decimal, value_to_bool,
}
use go_apla.Script.Operators.{Bin, BinOp, binary, value, soft, hard}
use go_apla.Script.Exec.{pure, fail, panic, gets, or_panic, ◌>>=◌, ◌>>◌}
use go_apla.Script.Runtime.{VarInfo, local, extend_var, Frame, State, Step, Machine, is_sys_var}
use go_apla.Script.Memory.{
  with_arrays, with_dicts, with_extend, act, peek, put_var, set_var, set_extend_var, recalc_mem_var,
  recalc_mem_extend_var, append_values, find_frame,
}

abbrev pub max_array_position : ℕ
max_array_position = 1_000_000

abbrev pub max_map_size : ℕ
max_map_size = 100_000

-- How a command ends: with `err` nil, or with an error that ends the block's loop.
pub data Ends (E : Type 0) : Type 0 where
  fine : Ends E
  raised : E → Ends E

module _ ⦃num : Numbers⦄ where
  abbrev pub Command : Type 0
  Command = Step (Ends Err)

  abbrev pub ok : Command
  ok = pure fine

  abbrev pub raise : Err → Command
  raise e = pure (raised e)

  unfoldable pub drop_top : ℕ → State → State
  drop_top n s = record s { stack = drop n s.stack }

  unfoldable pub set_unwrap : Bool → State → State
  set_unwrap b s = record s { unwrap = b }

  -- The two top elements make way for the operator's value.
  unfoldable pub replace_two : Val → State → State
  replace_two v s = record s { stack = v ∷ drop 2 s.stack }

  unfoldable pub replace_top : Val → State → State
  replace_top v s = record s { stack = v ∷ drop 1 s.stack }

  unfoldable pub end_operator : Bin Val → Command
  unfolding replace_two ◌>>◌
  end_operator (value v) = do act (replace_two v); ok
  end_operator (soft e) = raise e
  end_operator (hard e) = fail e
  end_operator Bin.crash = panic

  unfoldable pub exec_operator : BinOp → Command
  unfolding binary end_operator peek ◌>>=◌
  exec_operator op = do
    top0 ← peek 0
    top1 ← peek 1
    heap ← gets (λ s. s.heap)
    end_operator (binary heap op top1 top0)

  unfoldable pub sign_of : Val → Option Val
  sign_of (float f) = some (float (num.f_neg f))
  sign_of (int64 n) = some (int64 (wrap64 (pos 0 -ℤ n)))
  sign_of _ = none

  unfoldable pub exec_sign : Command
  unfolding sign_of replace_top peek ◌>>=◌ ◌>>◌
  exec_sign = do top0 ← peek 0; v ← or_panic (sign_of top0); act (replace_top v); ok

  unfoldable pub exec_not : Command
  unfolding value_to_bool replace_top peek ◌>>=◌ ◌>>◌
  exec_not = do
    top0 ← peek 0
    heap ← gets (λ s. s.heap)
    act (replace_top (bool (not (value_to_bool heap top0))))
    ok

  -- cmdUnwrapArr: the type of nil has no String.
  unfoldable pub unwrap_if : Val → Command
  unfolding set_unwrap ◌>>◌
  unwrap_if (arr r n) = do act (set_unwrap true); ok
  unwrap_if nil = panic
  unwrap_if _ = ok

  unfoldable pub exec_unwrap_arr : Command
  unfolding unwrap_if peek ◌>>=◌
  exec_unwrap_arr = do v ← peek 0; unwrap_if v

  -- cmdIndex on a map, by what the map has
  unfoldable pub dict_value : Option Val → Val
  dict_value none = nil
  dict_value (some v) = v

  -- The element of a slice of `n` elements; an index out of range panics.
  unfoldable pub elem_at : List Val → ℕ → ℤ → Option Val
  elem_at xs n (pos i) = if ltb i n then get_elem? xs i else none
  elem_at xs n (negsuc i) = none

  unfoldable pub byte_at : List ℕ → ℤ → Option Val
  byte_at xs (pos i) = elim (get_elem? xs i) [ none ↦ none | some b ↦ some (uint8 b) ]
  byte_at xs (negsuc i) = none

  unfoldable pub index_into : Val → Val → Command
  unfolding dict_value elem_at byte_at replace_two ◌>>=◌ ◌>>◌
  index_into (dict r) (str k) = do
    ds ← gets (λ s. s.heap.dicts)
    act (replace_two (dict_value (lookup k (at_ref ds r))))
    ok
  index_into (dict r) nil = panic
  index_into (dict r) _ = raise map_index_type
  index_into (arr r n) (int64 i) = do
    xs ← gets (λ s. s.heap.arrays)
    v ← or_panic (elem_at (at_ref xs r) n i)
    act (replace_two v)
    ok
  index_into (arr r n) nil = panic
  index_into (arr r n) _ = raise array_index_type
  index_into (bytes b) (int64 i) = do v ← or_panic (byte_at b i); act (replace_two v); ok
  index_into (bytes b) nil = panic
  index_into (bytes b) _ = raise array_index_type
  index_into nil _ = panic
  index_into _ _ = raise no_indexing

  unfoldable pub exec_index : Command
  unfolding index_into peek ◌>>=◌
  exec_index = do i ← peek 0; container ← peek 1; index_into container i

-- cmdAssign and cmdSetIndex
module _ ⦃num : Numbers⦄ (m : Machine) where
  -- `rt.blocks[i].Block.Vars[k]` is decimal.Decimal; a block or variable out of range panics.
  unfoldable pub var_type : ℕ → ℕ → Option Ty
  var_type owner i = elim (get_elem? m.program owner) [ none ↦ none | some b ↦ get_elem? b.vars i ]

  unfoldable pub set_decimal : ℕ → Converted num.Decimal → Step (Unit {0})
  set_decimal k (converted d) = set_var m k (dec d)
  set_decimal k bad_text = fail bad_decimal
  set_decimal k Converted.crash = panic

  unfoldable pub assign_typed : ℕ → Val → Ty → Step (Unit {0})
  unfolding set_decimal value_to_decimal
  assign_typed k v t_money = set_decimal k (value_to_decimal v)
  assign_typed k v _ = set_var m k v

  -- A variable whose block is not running is left alone, and its value is not read. The value is at a
  -- depth of the stack.
  unfoldable pub assign_local : ℕ → ℕ → ℕ → Option ℕ → Step (Unit {0})
  unfolding assign_typed var_type peek ◌>>=◌
  assign_local owner i depth none = pure tt
  assign_local owner i depth (some offset) = do
    ty ← or_panic (var_type owner i)
    v ← peek depth
    assign_typed (offset + i) v ty

  unfoldable pub assign_extend : String → ℕ → Step (Unit {0})
  unfolding is_sys_var set_extend_var peek ◌>>=◌
  assign_extend k depth =
      if is_sys_var k then fail (sys_var k) else do v ← peek depth; set_extend_var m k v

  unfoldable pub assign_one : VarInfo → ℕ → Step (Unit {0})
  unfolding assign_extend assign_local find_frame ◌>>=◌
  assign_one (extend_var k) depth = assign_extend k depth
  assign_one (local owner i) depth = do
    fs ← gets (λ s. s.blocks)
    assign_local owner i depth (find_frame owner fs)

  -- The first of the variables takes the deepest of the values.
  unfoldable pub assign_all : List VarInfo → Step (Unit {0})
  unfolding assign_one ◌>>◌
  assign_all [] = pure tt
  assign_all (x ∷ xs) = do assign_one x (length xs); assign_all xs

  unfoldable pub exec_assign : List VarInfo → Command
  unfolding assign_all ◌>>◌
  exec_assign xs = do assign_all xs; ok

  -- The variable that an index is set in, and its place in `rt.vars`, which is 0 if its block is not
  -- running.
  unfoldable pub index_key : VarInfo → List Frame → ℕ
  unfolding find_frame
  index_key (extend_var k) fs = 0
  index_key (local owner i) fs = elim (find_frame owner fs) [ none ↦ 0 | some offset ↦ offset + i ]

  unfoldable pub store_slice : VarInfo → ℕ → Val → Step (Unit {0})
  unfolding with_extend put_var
  store_slice (extend_var k) key v = act (with_extend k v)
  store_slice (local owner i) key v = put_var m key v

  unfoldable pub recalc : VarInfo → ℕ → Step (Unit {0})
  unfolding recalc_mem_var recalc_mem_extend_var
  recalc (extend_var k) key = recalc_mem_extend_var m k
  recalc (local owner i) key = recalc_mem_var m key

  -- `rt.stack[size-3] = slice; rt.stack = rt.stack[:size-2]`
  unfoldable pub replace_slice : Val → State → State
  replace_slice v s = record s { stack = v ∷ drop 3 s.stack }

  -- `slice[ind] = v` on a slice that is long enough
  unfoldable pub write_elem : Val → ℕ → Val → Step (Unit {0})
  unfolding with_arrays ◌>>=◌
  write_elem (arr r n) i v = do
    xs ← gets (λ s. s.heap.arrays)
    act (with_arrays (set xs r (set (at_ref xs r) i v)))
  write_elem _ i v = panic

  -- The slice, longer if the index is past its end.
  unfoldable pub extended : VarInfo → ℕ → ℕ → ℕ → ℕ → Step Val
  unfolding append_values store_slice ◌>>=◌ ◌>>◌
  extended var key r n i =
      if leb n i
      then (do
        slice ← append_values m r n (replicate (i - n + 1) nil)
        store_slice var key slice
        pure slice)
      else pure (arr r n)

  unfoldable pub set_elem : VarInfo → ℕ → ℕ → ℕ → ℤ → Val → Command
  unfolding extended write_elem replace_slice ◌>>=◌ ◌>>◌
  set_elem var key r n (pos i) v =
      if leb n i && ltb max_array_position i
      then raise max_array_index
      else do slice ← extended var key r n i; write_elem slice i v; act (replace_slice slice); ok
  set_elem var key r n (negsuc i) v = panic

  unfoldable pub set_entry : ℕ → String → Val → Command
  unfolding with_dicts drop_top ◌>>=◌ ◌>>◌
  set_entry r k nil = panic
  set_entry r k v = do
    ds ← gets (λ s. s.heap.dicts)
    act (with_dicts (set ds r (insert k v (at_ref ds r))))
    act (drop_top 2)
    ok

  unfoldable pub dict_key : ℕ → Val → Val → Command
  unfolding set_entry
  dict_key r (str k) v = set_entry r k v
  dict_key r nil v = panic
  dict_key r _ v = raise map_index_type

  unfoldable pub set_in_dict : ℕ → Val → Val → Command
  unfolding dict_key ◌>>=◌
  set_in_dict r i v = do
    ds ← gets (λ s. s.heap.dicts)
    if ltb max_map_size (length (at_ref ds r)) then raise max_map_count else dict_key r i v

  unfoldable pub set_into : VarInfo → ℕ → Val → Val → Val → Command
  unfolding set_in_dict set_elem
  set_into var key (dict r) i v = set_in_dict r i v
  set_into var key (arr r n) (int64 i) v = set_elem var key r n i v
  set_into var key (arr r n) nil v = panic
  set_into var key (arr r n) _ v = raise array_index_type
  set_into var key (bytes b) (int64 i) v = panic
  set_into var key (bytes b) nil v = panic
  set_into var key (bytes b) _ v = raise array_index_type
  set_into var key nil i v = panic
  set_into var key _ i v = raise no_indexing

  -- The size of the variable is taken anew whether or not the switch has left an error.
  unfoldable pub exec_set_index : VarInfo → Command
  unfolding set_into index_key recalc peek ◌>>=◌ ◌>>◌
  exec_set_index var = do
    v ← peek 0
    i ← peek 1
    container ← peek 2
    fs ← gets (λ s. s.blocks)
    end ← set_into var (index_key var fs) container i v
    recalc var (index_key var fs)
    pure end
