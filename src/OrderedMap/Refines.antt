-- ===== src/OrderedMap/Refines.antt =====
-- A map after any calls of its methods, against a list of entries.
use Prim.Native.String.{String}
use go_apla.Prelude.{
  ℕ, ◌≤◌, ◌≡◌, refl, ap, ◌∙◌, Option, none, some, List, [], ◌∷◌, map, length, ◌==◌,
}
use go_apla.Prelude.Eq.{string_eq, lookup, insert, delete}
use go_apla.OrderedMap.{Map, new_map, put, get, remove, size, is_empty, clear, keys, values}
use go_apla.OrderedMap.Represents.{Holds, new_map-Holds, clear-Holds}
use go_apla.OrderedMap.Put.{put-Holds}
use go_apla.OrderedMap.Take.{remove-Holds}
use go_apla.OrderedMap.Reads.{key_of, value_of, get-Holds, size-Holds, keys-Holds, values-Holds}

-- A call that changes the map.
pub data Call (V : Type 0) : Type 0 where
  setting : String → V → Call V
  removing : String → Call V
  clearing : Call V

module _ {V : Type 0} where
  unfoldable pub perform : Call V → Map V → Option (Map V)
  perform (setting k v) s = put k v s
  perform (removing k) s = remove k s
  perform clearing s = some (clear s)

  unfoldable pub perform_all : List (Call V) → Option (Map V) → Option (Map V)
  unfolding perform
  perform_all [] s = s
  perform_all (c ∷ cs) none = none
  perform_all (c ∷ cs) (some s) = perform_all cs (perform c s)

  -- The same on a list of entries: a key that is there keeps its place, a new one comes last.
  unfoldable pub on_entries : List (Call V) → List (String × V) → List (String × V)
  on_entries [] es = es
  on_entries (setting k v ∷ cs) es = on_entries cs (insert k v es)
  on_entries (removing k ∷ cs) es = on_entries cs (delete k es)
  on_entries (clearing ∷ cs) es = on_entries cs []

  perform_all-Holds :
      (cs : List (Call V)) (s : Map V) (es : List (String × V))
      → Holds s es
      → (s' : Map V) × (perform_all cs (some s) ≡ some s') × Holds s' (on_entries cs es)
  unfolding perform_all on_entries
  perform_all-Holds [] s es h = (s, refl, h)
  perform_all-Holds (setting k v ∷ cs) s es h =
      let done = put-Holds k v s es h in
      let rest = perform_all-Holds cs done.0 (insert k v es) done.2 in
      (rest.0, ap (perform_all cs) done.1 ∙ rest.1, rest.2)
  perform_all-Holds (removing k ∷ cs) s es h =
      let done = remove-Holds k s es h in
      let rest = perform_all-Holds cs done.0 (delete k es) done.2 in
      (rest.0, ap (perform_all cs) done.1 ∙ rest.1, rest.2)
  perform_all-Holds (clearing ∷ cs) s es h = perform_all-Holds cs (clear s) [] (clear-Holds s)

  -- After any calls of Set, Remove and Clear on a new map, none of which panics, Get finds what the
  -- list of entries in the order of insertion has, Size is its length, IsEmpty tells whether it is
  -- empty, and Keys and Values are its keys and its values in that order, with at least as much fuel
  -- as there are entries.
  pub map_refines :
      (cs : List (Call V)) (nil : V) (fuel : ℕ)
      → length (on_entries cs []) ≤ fuel
      → (s : Map V) × (perform_all cs (some new_map) ≡ some s)
        × ((k : String) → get k s ≡ lookup k (on_entries cs []))
        × (size s ≡ length (on_entries cs []))
        × (is_empty s ≡ (length (on_entries cs []) == 0))
        × (keys fuel s ≡ some (map key_of (on_entries cs [])))
        × (values nil fuel s ≡ some (map value_of (on_entries cs [])))
  map_refines cs nil fuel h =
      let es = on_entries cs [] in
      let (s, done, holds) = perform_all-Holds cs new_map [] new_map-Holds in
      let count = size-Holds s es holds in
      (
        s,
        done,
        (λ k. get-Holds k s es holds),
        count,
        ap (λ n. n == 0) count,
        keys-Holds fuel s es holds h,
        values-Holds nil fuel s es holds h,
      )
