-- ===== src/Script/Literals.antt =====
-- The values of array and map literals: getResultValue, getResultArray and getResultMap of
-- packages/script/vm.go. A literal array grows by one append for each item.
use Prim.Native.String.{String}
use go_apla.Prelude.{List, [], ◌∷◌}
use go_apla.Prelude.Eq.{string_eq, insert}
use go_apla.Script.Value.{Numbers, Val, arr}
use go_apla.Script.Exec.{pure, gets, panic, ◌>>=◌}
use go_apla.Script.Runtime.{
  MapItem, map_const, map_extend, map_var, map_map, map_array, Items, no_item, item, Entries,
  no_entry, entry, Step, Machine,
}
use go_apla.Script.Memory.{var_value, extend_value, new_array, new_dict, append_values}

module _ ⦃num : Numbers⦄ where
  -- The slice after one more item.
  unfoldable pub grow_by : Machine → Val → Val → Step Val
  unfolding append_values
  grow_by m (arr r n) v = append_values m r n (v ∷ [])
  grow_by m _ v = panic

  module _ (m : Machine) where
    unfoldable mutual
      unfolding var_value extend_value new_array new_dict grow_by ◌>>=◌

      pub get_result_value : MapItem Val → Step Val
      get_result_value (map_const v) = pure v
      get_result_value (map_extend k) = gets (extend_value k)
      get_result_value (map_var owner i) = var_value owner i
      get_result_value (map_map es) = get_result_map es [] >>= λ kvs. new_dict m kvs
      get_result_value (map_array xs) = new_array m [] 0 >>= λ start. get_result_array xs start

      pub get_result_array : Items Val → Val → Step Val
      get_result_array no_item done = pure done
      get_result_array (item x xs) done =
          get_result_value x >>= λ v. grow_by m done v >>= λ more. get_result_array xs more

      pub get_result_map : Entries Val → List (String × Val) → Step (List (String × Val))
      get_result_map no_entry done = pure done
      get_result_map (entry k x es) done =
          get_result_value x >>= λ v. get_result_map es (insert k v done)
