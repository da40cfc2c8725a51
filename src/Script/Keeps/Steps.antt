-- ===== src/Script/Keeps/Steps.antt =====
-- The commands that run no other block keep every relation with the rules.
use Prim.Native.String.{String}
use go_apla.Prelude.{length, ℕ, Option, none, some, List, [], ◌∷◌}
use go_apla.Prelude.Int.{ℤ, pos, negsuc}
use go_apla.Script.Value.{
  Numbers, Val, Ty, nil, int64, str, bytes, arr, dict, t_array, t_map, t_money, Converted,
  converted,
}
use go_apla.Script.Operators.{Bin, BinOp, value}
use go_apla.Script.Runtime.{
  Machine, VarInfo, local, extend_var, MapItem, map_const, map_extend, map_var, map_map, map_array,
  Items, no_item, item, Entries, no_entry, entry,
}
use go_apla.Script.Memory.{var_value, read_local, new_array, new_dict, append_values, zero_value}
use go_apla.Script.Literals.{grow_by, get_result_value, get_result_array, get_result_map}
use go_apla.Script.Commands.{
  end_operator, exec_operator, exec_sign, exec_not, unwrap_if, exec_unwrap_arr, index_into,
  exec_index, set_decimal, assign_typed, assign_local, assign_extend, assign_one, assign_all,
  exec_assign, store_slice, recalc, write_elem, extended, set_elem, set_entry, dict_key,
  set_in_dict, set_into, exec_set_index,
}
use go_apla.Script.Keeps.{Relation, Rules, Keeps, Keeps-bind, Keeps-then}
use go_apla.Script.Keeps.Changes.{changes}

module _ ⦃num : Numbers⦄ {m : Machine} {R : Relation} (r : Rules m R) where
  pub Keeps-new_array : (xs : List Val) (n : ℕ) → Keeps R (new_array m xs n)
  unfolding new_array
  Keeps-new_array xs n = search changes

  pub Keeps-new_dict : (es : List (String × Val)) → Keeps R (new_dict m es)
  unfolding new_dict
  Keeps-new_dict es = search changes

  pub Keeps-append_values : (a n : ℕ) (vs : List Val) → Keeps R (append_values m a n vs)
  unfolding append_values
  Keeps-append_values a n vs = search (changes, Keeps-new_array)

  pub Keeps-zero_value : (ty : Ty) → Keeps R (zero_value m ty)
  unfolding zero_value
  Keeps-zero_value t_array = search (changes, Keeps-new_array)
  Keeps-zero_value t_map = search (changes, Keeps-new_dict)
  Keeps-zero_value _ = search changes

  Keeps-read_local : (owner i : ℕ) (o : Option ℕ) → Keeps R (read_local owner i o)
  unfolding read_local
  Keeps-read_local owner i none = search changes
  Keeps-read_local owner i (some k) = search changes

  pub Keeps-var_value : (owner i : ℕ) → Keeps R (var_value owner i)
  unfolding var_value
  Keeps-var_value owner i = search (changes, Keeps-read_local)

  Keeps-grow_by : (v w : Val) → Keeps R (grow_by m v w)
  unfolding grow_by
  Keeps-grow_by (arr a n) w = search (changes, Keeps-append_values)
  Keeps-grow_by _ w = search changes

  mutual
    unfolding get_result_value get_result_array get_result_map

    pub Keeps-get_result_value : (x : MapItem Val) → Keeps R (get_result_value m x)
    Keeps-get_result_value (map_const v) = search changes
    Keeps-get_result_value (map_extend k) = search changes
    Keeps-get_result_value (map_var owner i) = Keeps-var_value owner i
    Keeps-get_result_value (map_map es) =
        Keeps-bind r _ _ (Keeps-get_result_map es []) (λ kvs. Keeps-new_dict kvs)
    Keeps-get_result_value (map_array xs) =
        Keeps-bind r _ _ (Keeps-new_array [] 0) (λ v. Keeps-get_result_array xs v)

    pub Keeps-get_result_array : (xs : Items Val) (v : Val) → Keeps R (get_result_array m xs v)
    Keeps-get_result_array no_item v = search changes
    Keeps-get_result_array (item x xs) v =
        Keeps-bind r _ _ (Keeps-get_result_value x)
          (λ w. Keeps-bind r _ _ (Keeps-grow_by v w) (λ u. Keeps-get_result_array xs u))

    pub Keeps-get_result_map :
        (es : Entries Val) (kvs : List (String × Val)) → Keeps R (get_result_map m es kvs)
    Keeps-get_result_map no_entry kvs = search changes
    Keeps-get_result_map (entry k x es) kvs =
        Keeps-bind r _ _ (Keeps-get_result_value x) (λ w. Keeps-get_result_map es _)

  Keeps-end_operator : (b : Bin Val) → Keeps R (end_operator b)
  unfolding end_operator
  Keeps-end_operator (value v) = search changes
  Keeps-end_operator _ = search changes

  pub Keeps-exec_operator : (op : BinOp) → Keeps R (exec_operator op)
  unfolding exec_operator
  Keeps-exec_operator op = search (changes, Keeps-end_operator)

  pub Keeps-exec_sign : Keeps R exec_sign
  unfolding exec_sign
  Keeps-exec_sign = search changes

  pub Keeps-exec_not : Keeps R exec_not
  unfolding exec_not
  Keeps-exec_not = search changes

  Keeps-unwrap_if : (v : Val) → Keeps R (unwrap_if v)
  unfolding unwrap_if
  Keeps-unwrap_if (arr a n) = search changes
  Keeps-unwrap_if _ = search changes

  pub Keeps-exec_unwrap_arr : Keeps R exec_unwrap_arr
  unfolding exec_unwrap_arr
  Keeps-exec_unwrap_arr = search (changes, Keeps-unwrap_if)

  Keeps-index_into : (v w : Val) → Keeps R (index_into v w)
  unfolding index_into
  Keeps-index_into (dict a) (str k) = search changes
  Keeps-index_into (dict a) _ = search changes
  Keeps-index_into (arr a n) (int64 i) = search changes
  Keeps-index_into (arr a n) _ = search changes
  Keeps-index_into (bytes b) (int64 i) = search changes
  Keeps-index_into (bytes b) _ = search changes
  Keeps-index_into _ w = search changes

  pub Keeps-exec_index : Keeps R exec_index
  unfolding exec_index
  Keeps-exec_index = search (changes, Keeps-index_into)

-- cmdAssign and cmdSetIndex
module _ ⦃num : Numbers⦄ {m : Machine} {R : Relation} (r : Rules m R) where
  Keeps-set_decimal : (k : ℕ) (c : Converted num.Decimal) → Keeps R (set_decimal m k c)
  unfolding set_decimal
  Keeps-set_decimal k (converted d) = search changes
  Keeps-set_decimal k _ = search changes

  Keeps-assign_typed : (k : ℕ) (v : Val) (ty : Ty) → Keeps R (assign_typed m k v ty)
  unfolding assign_typed
  Keeps-assign_typed k v t_money = search (changes, Keeps-set_decimal)
  Keeps-assign_typed k v _ = search changes

  Keeps-assign_local : (owner i depth : ℕ) (o : Option ℕ) → Keeps R (assign_local m owner i depth o)
  unfolding assign_local
  Keeps-assign_local owner i depth none = search changes
  Keeps-assign_local owner i depth (some k) = search (changes, Keeps-assign_typed)

  Keeps-assign_one : (x : VarInfo) (depth : ℕ) → Keeps R (assign_one m x depth)
  unfolding assign_one assign_extend
  Keeps-assign_one (extend_var k) depth = search changes
  Keeps-assign_one (local owner i) depth = search (changes, Keeps-assign_local)

  Keeps-assign_all : (xs : List VarInfo) → Keeps R (assign_all m xs)
  unfolding assign_all
  Keeps-assign_all [] = search changes
  Keeps-assign_all (x ∷ xs) =
      Keeps-then r _ _ (Keeps-assign_one x (length xs)) (Keeps-assign_all xs)

  pub Keeps-exec_assign : (xs : List VarInfo) → Keeps R (exec_assign m xs)
  unfolding exec_assign
  Keeps-exec_assign xs = search (changes, Keeps-assign_all)

  Keeps-store_slice : (x : VarInfo) (k : ℕ) (v : Val) → Keeps R (store_slice m x k v)
  unfolding store_slice
  Keeps-store_slice (extend_var n) k v = search changes
  Keeps-store_slice (local owner i) k v = r.puts_var k v

  Keeps-recalc : (x : VarInfo) (k : ℕ) → Keeps R (recalc m x k)
  unfolding recalc
  Keeps-recalc (extend_var n) k = r.recalcs_extend n
  Keeps-recalc (local owner i) k = r.recalcs_var k

  Keeps-write_elem : (v : Val) (i : ℕ) (w : Val) → Keeps R (write_elem m v i w)
  unfolding write_elem
  Keeps-write_elem (arr a n) i w = search changes
  Keeps-write_elem _ i w = search changes

  Keeps-extended : (x : VarInfo) (k a n i : ℕ) → Keeps R (extended m x k a n i)
  unfolding extended
  Keeps-extended x k a n i = search (changes, Keeps-append_values, Keeps-store_slice)

  Keeps-set_elem : (x : VarInfo) (k a n : ℕ) (i : ℤ) (v : Val) → Keeps R (set_elem m x k a n i v)
  unfolding set_elem
  Keeps-set_elem x k a n (pos i) v = search (changes, Keeps-extended, Keeps-write_elem) depth 9
  Keeps-set_elem x k a n (negsuc i) v = search changes

  Keeps-set_entry : (a : ℕ) (k : String) (v : Val) → Keeps R (set_entry m a k v)
  unfolding set_entry
  Keeps-set_entry a k nil = search changes
  Keeps-set_entry a k _ = search changes

  Keeps-dict_key : (a : ℕ) (i v : Val) → Keeps R (dict_key m a i v)
  unfolding dict_key
  Keeps-dict_key a (str k) v = Keeps-set_entry a k v
  Keeps-dict_key a _ v = search changes

  Keeps-set_in_dict : (a : ℕ) (i v : Val) → Keeps R (set_in_dict m a i v)
  unfolding set_in_dict
  Keeps-set_in_dict a i v = search (changes, Keeps-dict_key)

  Keeps-set_into : (x : VarInfo) (k : ℕ) (c i v : Val) → Keeps R (set_into m x k c i v)
  unfolding set_into
  Keeps-set_into x k (dict a) i v = Keeps-set_in_dict a i v
  Keeps-set_into x k (arr a n) (int64 i) v = Keeps-set_elem x k a n i v
  Keeps-set_into x k (arr a n) _ v = search changes
  Keeps-set_into x k (bytes b) (int64 i) v = search changes
  Keeps-set_into x k (bytes b) _ v = search changes
  Keeps-set_into x k _ i v = search changes

  pub Keeps-exec_set_index : (x : VarInfo) → Keeps R (exec_set_index m x)
  unfolding exec_set_index
  Keeps-exec_set_index x = search (changes, Keeps-set_into, Keeps-recalc) depth 9
