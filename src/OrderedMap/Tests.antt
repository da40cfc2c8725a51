-- ===== src/OrderedMap/Tests.antt =====
-- Three keys put in, one of them again, and one taken out.
use Prim.Native.String.{String}
use go_apla.Prelude.{ℕ, ◌≡◌, refl, ap, arith, some, List, [], ◌∷◌, map, length, ◌==◌}
use go_apla.Prelude.Eq.{string_eq, lookup, insert, delete}
use go_apla.OrderedMap.{Map, new_map, get, size, is_empty, keys, values}
use go_apla.OrderedMap.Reads.{key_of, value_of}
use go_apla.OrderedMap.Refines.{Call, setting, removing, perform_all, on_entries, map_refines}

abbrev three : List (Call ℕ)
three = setting "b" 1 ∷ setting "a" 2 ∷ setting "c" 3 ∷ setting "b" 4 ∷ removing "a" ∷ []

entries_of_three : on_entries three [] ≡ ("b", 4) ∷ ("c", 3) ∷ []
unfolding on_entries insert delete
entries_of_three = refl

map_refines_example :
    (s : Map ℕ) × (perform_all three (some new_map) ≡ some s)
    × ((k : String) → get k s ≡ lookup k (on_entries three []))
    × (size s ≡ length (on_entries three []))
    × (is_empty s ≡ (length (on_entries three []) == 0))
    × (keys 2 s ≡ some (map key_of (on_entries three [])))
    × (values 0 2 s ≡ some (map value_of (on_entries three [])))
map_refines_example = map_refines three 0 2 (omega (arith, ap length entries_of_three))
