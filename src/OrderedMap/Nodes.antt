-- ===== src/OrderedMap/Nodes.antt =====
-- The links of a map as a list of nodes: what chains them, and what a change of one keeps.
use Prim.Native.String.{String}
use go_apla.Prelude.{
  ℕ, ◌<◌, ◌≡◌, ◌≢◌, refl, sym, ap, ◌∙◌, ◌==◌, Option, some, List, [], ◌∷◌, ◌++◌, if_true, if_false,
  arith, ==_iff,
}
use go_apla.OrderedMap.{Link, update, with_next, with_prev}

pub record Node (V : Type 0) : Type 0 where
  pub addr : ℕ
  pub key : String
  pub value : V

module _ {V : Type 0} where
  abbrev pub index_of : Node V → String × ℕ
  index_of n = (n.key, n.addr)

  abbrev pub entry_of : Node V → String × V
  entry_of n = (n.key, n.value)

  abbrev pub link_of : Node V → Option ℕ → Option ℕ → Link V
  link_of n p e = record { key = n.key; value = n.value; next = e; prev = p }

  -- The first and the last address, or what stands behind or before.
  abbrev pub first : Option ℕ → List (Node V) → Option ℕ
  first e [] = e
  first e (n ∷ ns) = some (n.addr)

  abbrev pub last : Option ℕ → List (Node V) → Option ℕ
  last p [] = p
  last p (n ∷ ns) = last (some (n.addr)) ns

  abbrev pub last_addr : Node V → List (Node V) → ℕ
  last_addr x [] = x.addr
  last_addr x (y ∷ ys) = last_addr y ys

  -- Each link holds its node, and points to its neighbours.
  abbrev pub IsChain : (ℕ → Option (Link V)) → Option ℕ → List (Node V) → Option ℕ → Type 0
  IsChain links p [] e = Unit {0}
  IsChain links p (n ∷ ns) e =
      (links (n.addr) ≡ some (link_of n p (first e ns))) × IsChain links (some (n.addr)) ns e

  abbrev pub Avoids : ℕ → List (Node V) → Type 0
  Avoids a [] = Unit {0}
  Avoids a (n ∷ ns) = (n.addr ≢ a) × Avoids a ns

  abbrev pub AreApart : List (Node V) → Type 0
  AreApart [] = Unit {0}
  AreApart (n ∷ ns) = Avoids (n.addr) ns × AreApart ns

  abbrev pub AreApartFrom : List (Node V) → List (Node V) → Type 0
  AreApartFrom [] ys = Unit {0}
  AreApartFrom (x ∷ xs) ys = Avoids (x.addr) ys × AreApartFrom xs ys

  abbrev pub AreBelow : ℕ → List (Node V) → Type 0
  AreBelow bound [] = Unit {0}
  AreBelow bound (n ∷ ns) = (n.addr < bound) × AreBelow bound ns

  pub last-last_addr :
      (p : Option ℕ) (x : Node V) (xs : List (Node V)) → last p (x ∷ xs) ≡ some (last_addr x xs)
  last-last_addr p x [] = refl
  last-last_addr p x (y ∷ ys) = last-last_addr (some (x.addr)) y ys

  pub last-append : (p : Option ℕ) (xs ys : List (Node V)) → last p (xs ++ ys) ≡ last (last p xs) ys
  last-append p [] ys = refl
  last-append p (x ∷ xs) ys = last-append (some (x.addr)) xs ys

  pub first-append :
      (e : Option ℕ) (xs ys : List (Node V)) → first e (xs ++ ys) ≡ first (first e ys) xs
  first-append e [] ys = refl
  first-append e (x ∷ xs) ys = refl

  pub update_same : (links : ℕ → Option (Link V)) (a : ℕ) (l : Link V) → update links a l a ≡ some l
  unfolding update
  update_same links a l = if_true {b = a == a} (links a) ((==_iff a a).1 refl)

  pub update_other :
      (links : ℕ → Option (Link V)) (a b : ℕ) (l : Link V) → b ≢ a → update links a l b ≡ links b
  unfolding update
  update_other links a b l h = if_false {b = a == b} (some l) (ground (arith, h))

  pub frame :
      (links : ℕ → Option (Link V)) (a : ℕ) (l : Link V) (p e : Option ℕ) (ns : List (Node V))
      → Avoids a ns
      → IsChain links p ns e
      → IsChain (update links a l) p ns e
  frame links a l p e [] h c = c
  frame links a l p e (n ∷ ns) h c =
      (update_other links a (n.addr) l h.0 ∙ c.0, frame links a l (some (n.addr)) e ns h.1 c.1)

  pub split-IsChain :
      (links : ℕ → Option (Link V)) (p e : Option ℕ) (xs ys : List (Node V))
      → IsChain links p (xs ++ ys) e
      → IsChain links p xs (first e ys) × IsChain links (last p xs) ys e
  split-IsChain links p e [] ys c = (tt, c)
  split-IsChain links p e (x ∷ xs) ys c =
      let rest = split-IsChain links (some (x.addr)) e xs ys c.1 in
      ((c.0 ∙ ap (λ q. some (link_of x p q)) (first-append e xs ys), rest.0), rest.1)

  pub join-IsChain :
      (links : ℕ → Option (Link V)) (p e : Option ℕ) (xs ys : List (Node V))
      → IsChain links p xs (first e ys)
      → IsChain links (last p xs) ys e
      → IsChain links p (xs ++ ys) e
  join-IsChain links p e [] ys c d = d
  join-IsChain links p e (x ∷ xs) ys c d = (
    c.0 ∙ ap (λ q. some (link_of x p q)) (sym (first-append e xs ys)),
    join-IsChain links (some (x.addr)) e xs ys c.1 d,
  )

  pub Avoids-last_addr :
      (b : ℕ) (x : Node V) (xs : List (Node V)) → Avoids b (x ∷ xs) → last_addr x xs ≢ b
  Avoids-last_addr b x [] h = h.0
  Avoids-last_addr b x (y ∷ ys) h = Avoids-last_addr b y ys h.1

  pub last_addr-Avoids :
      (x : Node V) (xs ys : List (Node V)) → AreApartFrom (x ∷ xs) ys → Avoids (last_addr x xs) ys
  last_addr-Avoids x [] ys h = h.0
  last_addr-Avoids x (y ∷ ys) zs h = last_addr-Avoids y ys zs h.1

  -- The last link of a chain with another next link.
  pub relink_end :
      (links : ℕ → Option (Link V)) (p e e' : Option ℕ) (x : Node V) (xs : List (Node V))
      → AreApart (x ∷ xs)
      → IsChain links p (x ∷ xs) e
      → (l : Link V) × (links (last_addr x xs) ≡ some l)
        × IsChain (update links (last_addr x xs) (with_next e' l)) p (x ∷ xs) e'
  unfolding with_next
  relink_end links p e e' x [] h c =
      (link_of x p e, c.0, (update_same links (x.addr) (link_of x p e'), tt))
  relink_end links p e e' x (y ∷ ys) h c =
      let rest = relink_end links (some (x.addr)) e e' y ys h.1 c.1 in
      let other : x.addr ≢ last_addr y ys = λ q. Avoids-last_addr (x.addr) y ys h.0 (sym q) in
      (rest.0, rest.1, (update_other links _ (x.addr) _ other ∙ c.0, rest.2))

  -- The first link with another one before it.
  pub relink_start :
      (links : ℕ → Option (Link V)) (p p' e : Option ℕ) (y : Node V) (ys : List (Node V))
      → AreApart (y ∷ ys)
      → IsChain links p (y ∷ ys) e
      → IsChain (update links (y.addr) (with_prev p' (link_of y p (first e ys)))) p' (y ∷ ys) e
  unfolding with_prev
  relink_start links p p' e y ys h c = (
    update_same links (y.addr) (link_of y p' (first e ys)),
    frame links (y.addr) _ (some (y.addr)) e ys h.0 c.1,
  )

  -- The parts of a list that is apart.
  Avoids-parts : (a : ℕ) (xs ys : List (Node V)) → Avoids a (xs ++ ys) → Avoids a xs × Avoids a ys
  Avoids-parts a [] ys h = (tt, h)
  Avoids-parts a (x ∷ xs) ys h = let rest = Avoids-parts a xs ys h.1 in ((h.0, rest.0), rest.1)

  pub apart_parts :
      (xs ys : List (Node V)) → AreApart (xs ++ ys) → AreApart xs × AreApart ys × AreApartFrom xs ys
  apart_parts [] ys h = (tt, h, tt)
  apart_parts (x ∷ xs) ys h =
      let mine = Avoids-parts (x.addr) xs ys h.0 in
      let rest = apart_parts xs ys h.1 in ((mine.0, rest.0), rest.1, (mine.1, rest.2))

  Avoids-joined : (a : ℕ) (xs ys : List (Node V)) → Avoids a xs → Avoids a ys → Avoids a (xs ++ ys)
  Avoids-joined a [] ys h k = k
  Avoids-joined a (x ∷ xs) ys h k = (h.0, Avoids-joined a xs ys h.1 k)

  pub apart_joined :
      (xs ys : List (Node V)) → AreApart xs → AreApart ys → AreApartFrom xs ys → AreApart (xs ++ ys)
  apart_joined [] ys h k l = k
  apart_joined (x ∷ xs) ys h k l =
      (Avoids-joined (x.addr) xs ys h.0 l.0, apart_joined xs ys h.1 k l.1)

  pub below_parts :
      (b : ℕ) (xs ys : List (Node V)) → AreBelow b (xs ++ ys) → AreBelow b xs × AreBelow b ys
  below_parts b [] ys h = (tt, h)
  below_parts b (x ∷ xs) ys h = let rest = below_parts b xs ys h.1 in ((h.0, rest.0), rest.1)

  pub below_joined :
      (b : ℕ) (xs ys : List (Node V)) → AreBelow b xs → AreBelow b ys → AreBelow b (xs ++ ys)
  below_joined b [] ys h k = k
  below_joined b (x ∷ xs) ys h k = (h.0, below_joined b xs ys h.1 k)

  pub below_more : (b c : ℕ) (ns : List (Node V)) → b < c → AreBelow b ns → AreBelow c ns
  below_more b c [] h k = tt
  below_more b c (n ∷ ns) h k = (omega (arith, h, k.0), below_more b c ns h k.1)

  -- An address that is not used yet.
  pub fresh-Avoids : (b : ℕ) (ns : List (Node V)) → AreBelow b ns → Avoids b ns
  fresh-Avoids b [] h = tt
  fresh-Avoids b (n ∷ ns) h = (λ e. absurd (omega (arith, h.0, e)), fresh-Avoids b ns h.1)

  pub apart_from_fresh :
      (xs : List (Node V)) (n : Node V) → AreBelow (n.addr) xs → AreApartFrom xs (n ∷ [])
  apart_from_fresh [] n h = tt
  apart_from_fresh (x ∷ xs) n h =
      (((λ e. absurd (omega (arith, h.0, e))), tt), apart_from_fresh xs n h.1)

  -- The one node against those before it.
  pub apart_back :
      (xs : List (Node V)) (n : Node V) (ys : List (Node V))
      → AreApartFrom xs (n ∷ ys)
      → Avoids (n.addr) xs
  apart_back [] n ys h = tt
  apart_back (x ∷ xs) n ys h = ((λ e. h.0.0 (sym e)), apart_back xs n ys h.1)

  pub apart_from_tail :
      (xs : List (Node V)) (n : Node V) (ys : List (Node V))
      → AreApartFrom xs (n ∷ ys)
      → AreApartFrom xs ys
  apart_from_tail [] n ys h = tt
  apart_from_tail (x ∷ xs) n ys h = (h.0.1, apart_from_tail xs n ys h.1)

  pub apart_from_same :
      (xs : List (Node V)) (n : Node V) (v : V) (ys : List (Node V))
      → AreApartFrom xs (n ∷ ys)
      → AreApartFrom xs (record n { value = v } ∷ ys)
  apart_from_same [] n v ys h = tt
  apart_from_same (x ∷ xs) n v ys h = (h.0, apart_from_same xs n v ys h.1)
