-- ===== src/OrderedMap/Represents.antt =====
-- The map as the list of its entries in the order of insertion: the invariant, and what reads it.
use Prim.Native.String.{String}
use go_apla.Prelude.{
  ℕ, ◌≡◌, refl, sym, ap, ◌∙◌, none, some, List, [], ◌∷◌, ◌++◌, map, Bool-cases, inl, inr, arith,
}
use go_apla.Prelude.Eq.{string_eq, lookup_hit, lookup_miss, lookup}
use go_apla.OrderedMap.{Map, new_map, clear}
use go_apla.OrderedMap.Nodes.{Node, index_of, entry_of, first, last, IsChain, AreApart, AreBelow}

some-none : {A : Type 0} {a : A} → some a ≡ none → ⊥
some-none h = ground arith

some_injective : {A : Type 0} {a b : A} → some a ≡ some b → a ≡ b
some_injective h = ground arith

module _ {V : Type 0} where
  abbrev pub index : List (Node V) → List (String × ℕ)
  index ns = map index_of ns

  abbrev pub entries : List (Node V) → List (String × V)
  entries ns = map entry_of ns

  -- The fields of a map against the nodes of its list.
  pub record Represents (s : Map V) (ns : List (Node V)) : Type 0 where
    pub indexed : s.m ≡ index ns
    pub starts : s.head ≡ first none ns
    pub ends : s.tail ≡ last none ns
    pub chained : IsChain s.links none ns none
    pub apart : AreApart ns
    pub used : AreBelow s.fresh ns

  -- A map with some entries, in the order of insertion.
  abbrev pub Holds : Map V → List (String × V) → Type 0
  Holds s es = (ns : List (Node V)) × Represents s ns × (entries ns ≡ es)

  pub new_map-Holds : Holds new_map []
  unfolding new_map
  new_map-Holds = (
    [],
    record { indexed = refl; starts = refl; ends = refl; chained = tt; apart = tt; used = tt },
    refl,
  )

  pub clear-Holds : (s : Map V) → Holds (clear s) []
  unfolding clear
  clear-Holds s = (
    [],
    record { indexed = refl; starts = refl; ends = refl; chained = tt; apart = tt; used = tt },
    refl,
  )

  pub lookup-entries :
      (k : String) (ns : List (Node V)) → lookup k (index ns) ≡ none → lookup k (entries ns) ≡ none
  unfolding lookup
  lookup-entries k [] h = refl
  lookup-entries k (n ∷ ns) h = elim (Bool-cases (string_eq.beq (n.key) k)) [
    | inl e ↦ absurd (some-none (sym (lookup_hit k (n.key) (n.addr) (index ns) e) ∙ h))
    | inr e ↦
        lookup_miss k (n.key) (n.value) (entries ns) e
        ∙ lookup-entries k ns (sym (lookup_miss k (n.key) (n.addr) (index ns) e) ∙ h)
  ]

  -- Where a key is, and what stands before it.
  unfoldable pub Found : String → ℕ → List (Node V) → Type 0
  Found k a ns =
      (xs : List (Node V)) × (n : Node V) × (ys : List (Node V)) × (ns ≡ xs ++ n ∷ ys)
      × (n.addr ≡ a)
      × (n.key ≡ k)
      × (lookup k (index xs) ≡ none)

  pub find : (k : String) (a : ℕ) (ns : List (Node V)) → lookup k (index ns) ≡ some a → Found k a ns
  unfolding lookup Found
  find k a [] h = ground arith
  find k a (n ∷ ns) h = elim (Bool-cases (string_eq.beq (n.key) k)) [
    | inl e ↦
        let at : n.addr ≡ a =
          some_injective (sym (lookup_hit k (n.key) (n.addr) (index ns) e) ∙ h) in
        ([], n, ns, refl, at, (string_eq.beq_iff (n.key) k).0 e, refl)
    | inr e ↦
        let r = find k a ns (sym (lookup_miss k (n.key) (n.addr) (index ns) e) ∙ h) in
        (
          n ∷ r.0,
          r.1,
          r.2,
          ap (λ l. n ∷ l) r.3,
          r.4,
          r.5,
          lookup_miss k (n.key) (n.addr) (index r.0) e ∙ r.6,
        )
  ]
