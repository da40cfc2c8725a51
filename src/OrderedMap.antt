-- ===== src/OrderedMap.antt =====
-- The map that keeps the order of insertion: packages/types/map.go. A Link is an address of `links`;
-- the fields of a Link that a pointer to nil has are a panic, which is `none`.
pub mod Nodes
pub mod Represents
pub mod Put
pub mod Take
pub mod Reads
pub mod Refines
mod Tests
use Prim.Native.String.{String}
use go_apla.Prelude.{
  ℕ, zero, suc, ◌+◌, ◌==◌, ◌&&◌, Bool, true, false, Option, none, some, List, [], ◌∷◌, length, set,
  replicate, if◌then◌else◌, ltb,
}
use go_apla.Prelude.Eq.{string_eq, lookup, insert, delete}

module _ (V : Type 0) where
  pub record Link : Type 0 where
    pub key : String
    pub value : V
    pub next : Option ℕ
    pub prev : Option ℕ

  -- The addresses below `fresh` have been used.
  pub record Map : Type 0 where
    pub m : List (String × ℕ)
    pub head : Option ℕ
    pub tail : Option ℕ
    pub links : ℕ → Option Link
    pub fresh : ℕ

abbrev pub points_to : Option ℕ → ℕ → Bool
points_to none a = false
points_to (some b) a = b == a

module _ {V : Type 0} where
  unfoldable pub update : (ℕ → Option (Link V)) → ℕ → Link V → ℕ → Option (Link V)
  update links a link b = if a == b then some link else links b

  unfoldable pub new_map : Map V
  new_map = record { m = []; head = none; tail = none; links = λ a. none; fresh = 0 }

  -- `p.next = q`, `p.prev = q` and `p.value = v`
  unfoldable pub change : (Link V → Link V) → Option ℕ → Map V → Option (Map V)
  unfolding update
  change f none s = none
  change f (some a) s = elim (s.links a) [
    | none ↦ none
    | some link ↦ some (record s { links = update s.links a (f link) })
  ]

  unfoldable pub with_next : Option ℕ → Link V → Link V
  with_next q link = record link { next = q }

  unfoldable pub with_prev : Option ℕ → Link V → Link V
  with_prev q link = record link { prev = q }

  unfoldable pub with_value : V → Link V → Link V
  with_value v link = record link { value = v }

  -- newLink, with the link before it.
  unfoldable pub new_link : String → V → Option ℕ → Link V
  new_link k v p = record { key = k; value = v; next = none; prev = p }

  -- A link that the map does not hold yet, behind the last one.
  unfoldable pub append_link : String → V → Option ℕ → Map V → Option (Map V)
  unfolding change with_next update new_link
  append_link k v none s = some (record s {
    m = insert k s.fresh s.m;
    head = some s.fresh;
    tail = some s.fresh;
    links = update s.links s.fresh (new_link k v none);
    fresh = suc s.fresh;
  })
  append_link k v (some t) s = change (with_next (some s.fresh)) (some t) (record s {
    m = insert k s.fresh s.m;
    tail = some s.fresh;
    links = update s.links s.fresh (new_link k v (some t));
    fresh = suc s.fresh;
  })

  unfoldable pub put : String → V → Map V → Option (Map V)
  unfolding append_link change with_value
  put k v s = elim (lookup k s.m) [
    | none ↦ append_link k v s.tail s
    | some a ↦ change (with_value v) (some a) s
  ]

  -- Get, with `none` for a key that is not there.
  unfoldable pub value_at : (ℕ → Option (Link V)) → Option ℕ → Option V
  value_at links none = none
  value_at links (some a) = elim (links a) [ none ↦ none | some link ↦ some (link.value) ]

  unfoldable pub get : String → Map V → Option V
  unfolding value_at
  get k s = value_at s.links (lookup k s.m)

  unfoldable pub then_change : (Link V → Link V) → Option ℕ → Option (Map V) → Option (Map V)
  unfolding change
  then_change f p none = none
  then_change f p (some s) = change f p s

  unfoldable pub unlink : ℕ → Link V → Map V → Option (Map V)
  unfolding change then_change with_next with_prev
  unlink a link s =
      if points_to s.head a && points_to s.tail a
      then some (record s { head = none; tail = none })
      else if points_to s.tail a
      then change (with_next none) link.prev (record s { tail = link.prev })
      else if points_to s.head a
      then change (with_prev none) link.next (record s { head = link.next })
      else then_change (with_prev link.prev) link.next (change (with_next link.next) link.prev s)

  unfoldable pub unlink_at : ℕ → Option (Link V) → Map V → Option (Map V)
  unfolding unlink
  unlink_at a none s = none
  unlink_at a (some link) s = unlink a link s

  unfoldable pub remove : String → Map V → Option (Map V)
  unfolding unlink_at
  remove k s = elim (lookup k s.m) [
    | none ↦ some s
    | some a ↦ unlink_at a (s.links a) (record s { m = delete k s.m })
  ]

  abbrev pub size : Map V → ℕ
  size s = length s.m

  abbrev pub is_empty : Map V → Bool
  is_empty s = size s == 0

  unfoldable pub clear : Map V → Map V
  clear s = record s { m = []; head = none; tail = none }

  -- The loops of Keys and Values: `out[count] = f(current)` from a link on, on fuel.
  module _ {B : Type 0} (f : Link V → B) where
    unfoldable pub collect : ℕ → (ℕ → Option (Link V)) → Option ℕ → ℕ → List B → Option (List B)
    collect fuel links none count out = some out
    collect zero links (some a) count out = none
    collect (suc fuel) links (some a) count out = elim (links a) [
      | none ↦ none
      | some link ↦
          (let rest = collect fuel links link.next (count + 1) (set out count (f link)) in
            if ltb count (length out) then rest else none)
    ]

  unfoldable pub keys : ℕ → Map V → Option (List String)
  unfolding collect
  keys fuel s = collect Link.key fuel s.links s.head 0 (replicate (size s) "")

  -- The zero of the values is nil.
  unfoldable pub values : V → ℕ → Map V → Option (List V)
  unfolding collect
  values nil fuel s = collect Link.value fuel s.links s.head 0 (replicate (size s) nil)
