-- ===== src/OrderedMap/Put.antt =====
-- Set keeps the invariant, and is an insertion into the entries.
use Prim.Native.String.{String}
use mathlib.Core.Path.{subst}
use go_apla.Prelude.{
  ℕ, suc, ◌≡◌, refl, sym, ap, ◌∙◌, Option, none, some, List, [], ◌∷◌, ◌++◌, map, Option-cases,
  append-nil, if_true, inl, inr, arith,
}
use go_apla.Prelude.Eq.{string_eq, lookup, insert, insert-append}
use go_apla.OrderedMap.{
  Link, Map, update, change, with_next, with_value, new_link, append_link, put,
}
use go_apla.OrderedMap.Nodes.{
  Node, index_of, entry_of, link_of, first, last, last_addr, IsChain, last-last_addr, last-append,
  first-append, update_same, update_other, frame, apart_back, apart_from_same, Avoids-last_addr,
  split-IsChain, join-IsChain, relink_end, apart_parts, apart_joined, below_parts, below_joined,
  below_more, fresh-Avoids, apart_from_fresh,
}
use go_apla.OrderedMap.Represents.{index, entries, Represents, Holds, lookup-entries, Found, find}

pub map_joined :
    {A B : Type 0} (f : A → B) (xs ys : List A) → map f (xs ++ ys) ≡ map f xs ++ map f ys
map_joined f [] ys = refl
map_joined f (x ∷ xs) ys = ap (λ l. f x ∷ l) (map_joined f xs ys)

insert_absent :
    {W : Type 0} (k : String) (w : W) (m : List (String × W))
    → lookup k m ≡ none
    → insert k w m ≡ m ++ (k, w) ∷ []
unfolding insert
insert_absent k w m h = ap (insert k w) (sym (append-nil m)) ∙ insert-append k w m [] h

insert_found :
    {W : Type 0} (k j : String) (w v : W) (xs ys : List (String × W))
    → lookup k xs ≡ none
    → j ≡ k
    → insert k w (xs ++ (j, v) ∷ ys) ≡ xs ++ (k, w) ∷ ys
unfolding insert
insert_found k j w v xs ys h e =
    insert-append k w xs ((j, v) ∷ ys) h
    ∙ ap (λ l. xs ++ l) (if_true ((j, v) ∷ insert k w ys) ((string_eq.beq_iff j k).1 e))

module _ {V : Type 0} where
  -- A change of a link that is there.
  pub change_lem :
      (f : Link V → Link V) (a : ℕ) (l : Link V) (s : Map V)
      → s.links a ≡ some l
      → change f (some a) s ≡ some (record s { links = update s.links a (f l) })
  unfolding change
  change_lem f a l s h =
      ap
        (λ o. elim o [
          | none ↦ none
          | some link ↦ some (record s { links = update s.links a (f link) })
        ])
        h

  added : String → V → Map V → Node V
  added k v s = record { addr = s.fresh; key = k; value = v }

  -- The map after a link is put in, before the last one points to it.
  with_link : String → V → Option ℕ → Option ℕ → Map V → Map V
  with_link k v p h s = record s {
    m = insert k s.fresh s.m;
    head = h;
    tail = some s.fresh;
    links = update s.links s.fresh (new_link k v p);
    fresh = suc s.fresh;
  }

  indexed_added :
      (k : String) (v : V) (s : Map V) (ns : List (Node V))
      → Represents s ns
      → lookup k (index ns) ≡ none
      → insert k s.fresh s.m ≡ index (ns ++ added k v s ∷ [])
  unfolding added
  indexed_added k v s ns r h =
      ap (insert k s.fresh) r.indexed
      ∙ insert_absent k s.fresh (index ns) h
      ∙ sym (map_joined index_of ns (added k v s ∷ []))

  Added : String → V → Map V → List (Node V) → Type 0
  Added k v s ns =
      (s' : Map V) × (append_link k v s.tail s ≡ some s') × Represents s' (ns ++ added k v s ∷ [])

  Added-first :
      (k : String) (v : V) (s : Map V)
      → Represents s []
      → lookup k (index {V = V} []) ≡ none
      → Added k v s []
  unfolding Added append_link added new_link with_link
  Added-first k v s r h = (
    with_link k v none (some s.fresh) s,
    ap (λ t. append_link k v t s) r.ends,
    record {
      indexed = indexed_added k v s [] r h;
      starts = refl;
      ends = refl;
      chained = (update_same s.links s.fresh (new_link k v none), tt);
      apart = (tt, tt);
      used = (omega arith, tt);
    },
  )

  Added-more :
      (k : String) (v : V) (s : Map V) (n : Node V) (ns : List (Node V))
      → Represents s (n ∷ ns)
      → lookup k (index (n ∷ ns)) ≡ none
      → Added k v s (n ∷ ns)
  unfolding Added append_link added new_link with_link
  Added-more k v s n ns r h =
      let t = last_addr n ns in
      let s1 = with_link k v (some t) s.head s in
      let away = fresh-Avoids s.fresh (n ∷ ns) r.used in
      let linked =
        relink_end s1.links none none (some s.fresh) n ns r.apart
          (frame s.links s.fresh (new_link k v (some t)) none none (n ∷ ns) away r.chained) in
      let links' = update s1.links t (with_next (some s.fresh) linked.0) in
      let newest : links' s.fresh ≡ some (new_link k v (some t)) =
        update_other s1.links t s.fresh _ (λ e. Avoids-last_addr s.fresh n ns away (sym e))
        ∙ update_same s.links s.fresh (new_link k v (some t)) in
      let end = last-last_addr none n ns in
      (
        record s1 { links = links' },
        ap (λ q. append_link k v q s) (r.ends ∙ end)
            ∙ change_lem (with_next (some s.fresh)) t linked.0 s1 linked.1,
        record {
          indexed = indexed_added k v s (n ∷ ns) r h;
          starts = r.starts;
          ends = sym (last-append none (n ∷ ns) (added k v s ∷ []));
          chained =
              join-IsChain links' none none (n ∷ ns) (added k v s ∷ []) linked.2
                (subst (λ q. IsChain links' q (added k v s ∷ []) none) (sym end) (newest, tt));
          apart = apart_joined (n ∷ ns) _ r.apart (tt, tt) (apart_from_fresh (n ∷ ns) _ r.used);
          used =
              below_joined (suc s.fresh) (n ∷ ns) _
                (below_more s.fresh (suc s.fresh) (n ∷ ns) (omega arith) r.used) (omega arith, tt);
        },
      )

  Added-any :
      (k : String) (v : V) (s : Map V) (ns : List (Node V))
      → Represents s ns
      → lookup k (index ns) ≡ none
      → Added k v s ns
  Added-any k v s [] r h = Added-first k v s r h
  Added-any k v s (n ∷ ns) r h = Added-more k v s n ns r h

  -- The link of a key that is there takes the new value.
  changed :
      (v : V) (s : Map V) (xs : List (Node V)) (n : Node V) (ys : List (Node V))
      → Represents s (xs ++ n ∷ ys)
      → (s' : Map V) × (change (with_value v) (some (n.addr)) s ≡ some s')
        × Represents s' (xs ++ record n { value = v } ∷ ys)
  unfolding with_value
  changed v s xs n ys r =
      let parts = split-IsChain s.links none none xs (n ∷ ys) r.chained in
      let away = apart_parts xs (n ∷ ys) r.apart in
      let below = below_parts s.fresh xs (n ∷ ys) r.used in
      let l = link_of n (last none xs) (first none ys) in
      let n' : Node V = record n { value = v } in
      let links' = update s.links (n.addr) (with_value v l) in
      (
        record s { links = links' },
        change_lem (with_value v) (n.addr) l s parts.1.0,
        record {
          indexed =
              r.indexed ∙ map_joined index_of xs (n ∷ ys) ∙ sym (map_joined index_of xs (n' ∷ ys));
          starts = r.starts ∙ first-append none xs (n ∷ ys) ∙ sym (first-append none xs (n' ∷ ys));
          ends = r.ends ∙ last-append none xs (n ∷ ys) ∙ sym (last-append none xs (n' ∷ ys));
          chained =
              join-IsChain links' none none xs (n' ∷ ys)
                (frame s.links (n.addr) (with_value v l) none (some (n.addr)) xs
                  (apart_back xs n ys away.2) parts.0)
                (
                  update_same s.links (n.addr) (with_value v l),
                  frame s.links (n.addr) (with_value v l) (some (n.addr)) none ys away.1.0
                      parts.1.1,
                );
          apart = apart_joined xs (n' ∷ ys) away.0 away.1 (apart_from_same xs n v ys away.2);
          used = below_joined s.fresh xs (n' ∷ ys) below.0 below.1;
        },
      )

  put_absent :
      (k : String) (v : V) (s : Map V) → lookup k s.m ≡ none → put k v s ≡ append_link k v s.tail s
  unfolding put
  put_absent k v s h =
      ap
        (λ o. elim o [
          | none ↦ append_link k v s.tail s
          | some a ↦ change (with_value v) (some a) s
        ])
        h

  put_present :
      (k : String) (v : V) (s : Map V) (a : ℕ)
      → lookup k s.m ≡ some a
      → put k v s ≡ change (with_value v) (some a) s
  unfolding put
  put_present k v s a h =
      ap
        (λ o. elim o [
          | none ↦ append_link k v s.tail s
          | some a ↦ change (with_value v) (some a) s
        ])
        h

  put_found :
      (k : String) (v : V) (s : Map V) (xs : List (Node V)) (n : Node V) (ys : List (Node V))
      → Represents s (xs ++ n ∷ ys)
      → n.key ≡ k
      → lookup k (index xs) ≡ none
      → (s' : Map V) × (change (with_value v) (some (n.addr)) s ≡ some s')
        × Holds s' (insert k v (entries (xs ++ n ∷ ys)))
  put_found k v s xs n ys r e h =
      let done = changed v s xs n ys r in
      let n' : Node V = record n { value = v } in
      (
        done.0,
        done.1,
        (
          xs ++ n' ∷ ys,
          done.2,
          map_joined entry_of xs (n' ∷ ys)
              ∙ ap (λ j. entries xs ++ (j, v) ∷ entries ys) e
              ∙ sym (
                  insert_found k (n.key) v (n.value) (entries xs) (entries ys)
                    (lookup-entries k xs h) e)
              ∙ ap (insert k v) (sym (map_joined entry_of xs (n ∷ ys))),
        ),
      )

  put_into :
      (k : String) (v : V) (s : Map V) (ns : List (Node V))
      → Represents s ns
      → (s' : Map V) × (put k v s ≡ some s') × Holds s' (insert k v (entries ns))
  unfolding Added added Found
  put_into k v s ns r = elim (Option-cases (lookup k (index ns))) [
    | inl h ↦
        let done = Added-any k v s ns r h in
        (
          done.0,
          put_absent k v s (ap (lookup k) r.indexed ∙ h) ∙ done.1,
          (
            ns ++ added k v s ∷ [],
            done.2,
            map_joined entry_of ns (added k v s ∷ [])
                ∙ sym (insert_absent k v (entries ns) (lookup-entries k ns h)),
          ),
        )
    | inr at ↦
        let f = find k at.0 ns at.1 in
        let done = put_found k v s f.0 f.1 f.2 (subst (Represents s) f.3 r) f.5 f.6 in
        (
          done.0,
          put_present k v s at.0 (ap (lookup k) r.indexed ∙ at.1)
              ∙ ap (λ a. change (with_value v) (some a) s) (sym f.4)
              ∙ done.1,
          subst (λ ms. Holds done.0 (insert k v (entries ms))) (sym f.3) done.2,
        )
  ]

  pub put-Holds :
      (k : String) (v : V) (s : Map V) (es : List (String × V))
      → Holds s es
      → (s' : Map V) × (put k v s ≡ some s') × Holds s' (insert k v es)
  put-Holds k v s es h =
      let done = put_into k v s h.0 h.1 in
      (done.0, done.1, subst (λ ms. Holds done.0 (insert k v ms)) h.2 done.2)
