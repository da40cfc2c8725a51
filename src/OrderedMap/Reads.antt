-- ===== src/OrderedMap/Reads.antt =====
-- Get, Size, Keys and Values of a map that holds some entries.
use Prim.Native.String.{String}
use go_apla.Prelude.{
  ℕ, zero, suc, ◌+◌, ◌<◌, ◌≤◌, ◌≡◌, refl, sym, ap, ◌∙◌, Option, none, some, List, [], ◌∷◌, ◌++◌,
  map, length, set, replicate, if◌then◌else◌, if_true, Bool-cases, inl, inr, arith, append_assoc,
  length-append, lt→ltb, ltb,
}
use go_apla.Prelude.Eq.{string_eq, lookup, lookup_hit, lookup_miss}
use go_apla.OrderedMap.{Link, Map, value_at, get, size, collect, keys, values}
use go_apla.OrderedMap.Nodes.{Node, index_of, entry_of, link_of, first, IsChain}
use go_apla.OrderedMap.Represents.{index, entries, Holds}

length-map : {A B : Type 0} (f : A → B) (xs : List A) → length (map f xs) ≡ length xs
length-map f [] = refl
length-map f (x ∷ xs) = ap suc (length-map f xs)

set_at :
    {A : Type 0} (done : List A) (d b : A) (rest : List A)
    → set (done ++ d ∷ rest) (length done) b ≡ done ++ b ∷ rest
set_at [] d b rest = refl
set_at (x ∷ done) d b rest = ap (λ l. x ∷ l) (set_at done d b rest)

in_range :
    {A : Type 0} (done : List A) (d : A) (rest : List A) → length done < length (done ++ d ∷ rest)
in_range done d rest = omega (arith, length-append done (d ∷ rest))

abbrev pub key_of : {V : Type 0} → String × V → String
key_of e = e.0

abbrev pub value_of : {V : Type 0} → String × V → V
value_of e = e.1

module _ {V : Type 0} where
  value_here :
      (links : ℕ → Option (Link V)) (a : ℕ) (l : Link V)
      → links a ≡ some l
      → value_at links (some a) ≡ some (l.value)
  unfolding value_at
  value_here links a l h = ap (λ o. elim o [ none ↦ none | some link ↦ some (link.value) ]) h

  value_at-index :
      (links : ℕ → Option (Link V)) (p e : Option ℕ) (k : String) (ns : List (Node V))
      → IsChain links p ns e
      → value_at links (lookup k (index ns)) ≡ lookup k (entries ns)
  unfolding lookup value_at
  value_at-index links p e k [] c = refl
  value_at-index links p e k (n ∷ ns) c = elim (Bool-cases (string_eq.beq (n.key) k)) [
    | inl h ↦
        ap (value_at links) (lookup_hit k (n.key) (n.addr) (index ns) h)
        ∙ value_here links (n.addr) _ c.0
        ∙ sym (lookup_hit k (n.key) (n.value) (entries ns) h)
    | inr h ↦
        ap (value_at links) (lookup_miss k (n.key) (n.addr) (index ns) h)
        ∙ value_at-index links (some (n.addr)) e k ns c.1
        ∙ sym (lookup_miss k (n.key) (n.value) (entries ns) h)
  ]

  pub get-Holds :
      (k : String) (s : Map V) (es : List (String × V)) → Holds s es → get k s ≡ lookup k es
  unfolding get
  get-Holds k s es (ns, r, e) =
      ap (λ m. value_at s.links (lookup k m)) r.indexed
      ∙ value_at-index s.links none none k ns r.chained
      ∙ ap (lookup k) e

  pub size-Holds : (s : Map V) (es : List (String × V)) → Holds s es → size s ≡ length es
  size-Holds s es (ns, r, e) =
      ap length r.indexed ∙ length-map index_of ns ∙ sym (length-map entry_of ns) ∙ ap length e

  module _ {B : Type 0} (f : Link V → B) (d : B) where
    placed :
        (done : List B) (b : B) (rest : List B)
        → set (done ++ d ∷ rest) (length done) b ≡ (done ++ b ∷ []) ++ rest
    placed done b rest = set_at done d b rest ∙ sym (append_assoc done (b ∷ []) rest)

    counted : (done : List B) (b : B) → length done + 1 ≡ length (done ++ b ∷ [])
    counted done b = sym (length-append done (b ∷ []))

    collect_end :
        (fuel : ℕ) (links : ℕ → Option (Link V)) (count : ℕ) (out : List B)
        → collect f fuel links none count out ≡ some out
    unfolding collect
    collect_end zero links count out = refl
    collect_end (suc fuel) links count out = refl

    collect_step :
        (fuel : ℕ) (links : ℕ → Option (Link V)) (a : ℕ) (l : Link V) (done rest : List B)
        → links a ≡ some l
        → collect f (suc fuel) links (some a) (length done) (done ++ d ∷ rest)
          ≡ collect f fuel links l.next (length (done ++ f l ∷ [])) ((done ++ f l ∷ []) ++ rest)
    unfolding collect
    collect_step fuel links a l done rest h =
        let out = done ++ d ∷ rest in
        ap
          (λ o. elim o [
            | none ↦ none
            | some link ↦
                (if ltb (length done) (length out)
                  then collect f fuel links link.next (length done + 1)
                      (set out (length done) (f link))
                  else none)
          ])
          h
        ∙ if_true none (lt→ltb _ _ (in_range done d rest))
        ∙ ap (collect f fuel links l.next (length done + 1)) (placed done (f l) rest)
        ∙ ap (λ c. collect f fuel links l.next c ((done ++ f l ∷ []) ++ rest)) (counted done (f l))

    pub collect_lem :
        (g : Node V → B)
        → ((n : Node V) (p e : Option ℕ) → f (link_of n p e) ≡ g n)
        → (fuel : ℕ) (links : ℕ → Option (Link V)) (p : Option ℕ) (ns : List (Node V))
          (done : List B)
        → IsChain links p ns none
        → length ns ≤ fuel
        → collect f fuel links (first none ns) (length done) (done ++ replicate (length ns) d)
          ≡ some (done ++ map g ns)
    collect_lem g same fuel links p [] done c h = collect_end fuel links (length done) (done ++ [])
    collect_lem g same zero links p (n ∷ ns) done c h = ground arith
    collect_lem g same (suc fuel) links p (n ∷ ns) done c h =
        let l = link_of n p (first none ns) in
        collect_step fuel links (n.addr) l done (replicate (length ns) d) c.0
        ∙ collect_lem g same fuel links (some (n.addr)) ns (done ++ f l ∷ []) c.1 (omega (arith, h))
        ∙ ap some (
            append_assoc done (f l ∷ []) (map g ns)
            ∙ ap (λ b. done ++ b ∷ map g ns) (same n p (first none ns)))

    map-entries :
        (out : String × V → B) (g : Node V → B)
        → ((n : Node V) → g n ≡ out (entry_of n))
        → (ns : List (Node V)) → map g ns ≡ map out (entries ns)
    map-entries out g same [] = refl
    map-entries out g same (n ∷ ns) =
        ap (λ b. b ∷ map g ns) (same n) ∙ ap (λ l. out (entry_of n) ∷ l) (map-entries out g same ns)

    -- What a loop over the links gathers, of the entries.
    pub collect-Holds :
        (out : String × V → B)
        → ((n : Node V) (p e : Option ℕ) → f (link_of n p e) ≡ out (entry_of n))
        → (fuel : ℕ) (s : Map V) (es : List (String × V)) → Holds s es
        → length es ≤ fuel
        → collect f fuel s.links s.head 0 (replicate (size s) d) ≡ some (map out es)
    collect-Holds out same fuel s es (ns, r, e) h =
        let g : Node V → B = λ n. out (entry_of n) in
        let count = ap length r.indexed ∙ length-map index_of ns in
        ap (λ n. collect f fuel s.links s.head 0 (replicate n d)) count
        ∙ ap (λ q. collect f fuel s.links q 0 (replicate (length ns) d)) r.starts
        ∙ collect_lem g same fuel s.links none ns [] r.chained
            (omega (arith, h, length-map entry_of ns, ap length e))
        ∙ ap some (map-entries out g (λ n. refl) ns ∙ ap (map out) e)

  pub keys-Holds :
      (fuel : ℕ) (s : Map V) (es : List (String × V))
      → Holds s es
      → length es ≤ fuel
      → keys fuel s ≡ some (map key_of es)
  unfolding keys
  keys-Holds fuel s es h k = collect-Holds Link.key "" key_of (λ n p e. refl) fuel s es h k

  pub values-Holds :
      (nil : V) (fuel : ℕ) (s : Map V) (es : List (String × V))
      → Holds s es
      → length es ≤ fuel
      → values nil fuel s ≡ some (map value_of es)
  unfolding values
  values-Holds nil fuel s es h k =
      collect-Holds Link.value nil value_of (λ n p e. refl) fuel s es h k
