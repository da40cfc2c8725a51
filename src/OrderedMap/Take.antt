-- ===== src/OrderedMap/Take.antt =====
-- Remove keeps the invariant, and is a deletion from the entries.
use Prim.Native.String.{String}
use mathlib.Core.Path.{subst}
use go_apla.Prelude.{
  ℕ, ◌≡◌, ◌≢◌, refl, sym, ap, ◌∙◌, Bool, true, false, Option, none, some, List, [], ◌∷◌, ◌++◌,
  if_true, Option-cases, inl, inr, arith, append-nil, ==_iff,
}
use go_apla.Prelude.Eq.{string_eq, lookup, delete, delete-append}
use go_apla.OrderedMap.{
  Link, Map, update, change, then_change, with_next, with_prev, points_to, unlink, unlink_at,
  remove,
}
use go_apla.OrderedMap.Nodes.{
  Node, index_of, entry_of, link_of, first, last, last_addr, last-last_addr, last-append, frame,
  split-IsChain, join-IsChain, last_addr-Avoids, relink_end, relink_start, apart_parts,
  apart_joined, below_parts, below_joined, apart_back, apart_from_tail, Avoids-last_addr,
}
use go_apla.OrderedMap.Represents.{index, entries, Represents, Holds, lookup-entries, Found, find}
use go_apla.OrderedMap.Put.{change_lem, map_joined}

delete_found :
    {W : Type 0} (k j : String) (w : W) (xs ys : List (String × W))
    → lookup k xs ≡ none
    → j ≡ k
    → delete k (xs ++ (j, w) ∷ ys) ≡ xs ++ ys
unfolding delete
delete_found k j w xs ys h e =
    delete-append k xs ((j, w) ∷ ys) h
    ∙ ap (λ l. xs ++ l) (if_true ((j, w) ∷ delete k ys) ((string_eq.beq_iff j k).1 e))

same_address : (a : ℕ) → points_to (some a) a ≡ true
same_address a = (==_iff a a).1 refl

other_address : (a b : ℕ) → b ≢ a → points_to (some b) a ≡ false
other_address a b h = ground (arith, h)

module _ {V : Type 0} where
  -- The four branches of Remove, by the two tests.
  unlink_as : Bool → Bool → Link V → Map V → Option (Map V)
  unlink_as true true link s = some (record s { head = none; tail = none })
  unlink_as false true link s = change (with_next none) link.prev (record s { tail = link.prev })
  unlink_as true false link s = change (with_prev none) link.next (record s { head = link.next })
  unlink_as false false link s =
      then_change (with_prev link.prev) link.next (change (with_next link.next) link.prev s)

  unlink_tested :
      (a : ℕ) (link : Link V) (s : Map V) (h t : Bool)
      → points_to s.head a ≡ h
      → points_to s.tail a ≡ t
      → unlink a link s ≡ unlink_as h t link s
  unfolding unlink unlink_as
  unlink_tested a link s true true e f = rw (e, f)
  unlink_tested a link s true false e f = rw (e, f)
  unlink_tested a link s false true e f = rw (e, f)
  unlink_tested a link s false false e f = rw (e, f)

  -- A map that the entry of n is taken from.
  Taken : String → Map V → List (Node V) → Node V → List (Node V) → Type 0
  Taken k s xs n ys =
      (s' : Map V) × (unlink (n.addr) (link_of n (last none xs) (first none ys))
          (record s { m = delete k s.m })
        ≡ some s')
      × Represents s' (xs ++ ys)

  module _ (k : String) (s : Map V) (n : Node V) (key : n.key ≡ k) where
    taken_index :
        (xs ys : List (Node V))
        → Represents s (xs ++ n ∷ ys)
        → lookup k (index xs) ≡ none
        → delete k s.m ≡ index (xs ++ ys)
    taken_index xs ys r h =
        ap (delete k) (r.indexed ∙ map_joined index_of xs (n ∷ ys))
        ∙ delete_found k (n.key) (n.addr) (index xs) (index ys) h key
        ∙ sym (map_joined index_of xs ys)

    take_only : Represents s (n ∷ []) → Taken k s [] n []
    unfolding Taken unlink_as lookup
    take_only r =
        let s0 : Map V = record s { m = delete k s.m } in
        (
          record s0 { head = none; tail = none },
          unlink_tested (n.addr) _ s0 true true
              (ap (λ p. points_to p (n.addr)) r.starts ∙ same_address (n.addr))
              (ap (λ p. points_to p (n.addr)) r.ends ∙ same_address (n.addr)),
          record {
            indexed = taken_index [] [] r refl;
            starts = refl;
            ends = refl;
            chained = tt;
            apart = tt;
            used = tt;
          },
        )

    take_first :
        (y : Node V) (ys : List (Node V)) → Represents s (n ∷ y ∷ ys) → Taken k s [] n (y ∷ ys)
    unfolding Taken unlink_as lookup
    take_first y ys r =
        let s0 : Map V = record s { m = delete k s.m } in
        let a = n.addr in
        let away : last_addr y ys ≢ a = Avoids-last_addr a y ys r.apart.0 in
        let l = link_of y (some a) (first none ys) in
        let links' = update s.links (y.addr) (with_prev none l) in
        (
          record s0 { head = some (y.addr); links = links' },
          unlink_tested a _ s0 true false (ap (λ p. points_to p a) r.starts ∙ same_address a) (
                ap (λ p. points_to p a) (r.ends ∙ last-last_addr (some a) y ys)
                ∙ other_address a _ away)
              ∙ change_lem (with_prev none) (y.addr) l _ r.chained.1.0,
          record {
            indexed = taken_index [] (y ∷ ys) r refl;
            starts = refl;
            ends = r.ends;
            chained = relink_start s.links (some a) none none y ys r.apart.1 r.chained.1;
            apart = r.apart.1;
            used = r.used.1;
          },
        )

    take_last :
        (x : Node V) (xs : List (Node V))
        → Represents s ((x ∷ xs) ++ n ∷ [])
        → lookup k (index (x ∷ xs)) ≡ none
        → Taken k s (x ∷ xs) n []
    unfolding Taken unlink_as
    take_last x xs r h =
        let s0 : Map V = record s { m = delete k s.m } in
        let a = n.addr in
        let t = last_addr x xs in
        let end = last-last_addr none x xs in
        let parts = split-IsChain s.links none none (x ∷ xs) (n ∷ []) r.chained in
        let apart = apart_parts (x ∷ xs) (n ∷ []) r.apart in
        let linked = relink_end s.links none (some a) none x xs apart.0 parts.0 in
        let links' = update s.links t (with_next none linked.0) in
        let s1 : Map V = record s0 { tail = last none (x ∷ xs) } in
        let s' : Map V = record s1 { links = links' } in
        let all = append-nil (x ∷ xs) in
        (
          s',
          unlink_tested a _ s0 false true
                (ap (λ p. points_to p a) r.starts
                  ∙ other_address a (x.addr) (λ e. apart.2.0.0 (sym e)))
                (ap (λ p. points_to p a) (r.ends ∙ last-append none (x ∷ xs) (n ∷ []))
                  ∙ same_address a)
              ∙ ap (λ q. change (with_next none) q s1) end
              ∙ change_lem (with_next none) t linked.0 s1 linked.1,
          subst (Represents s') (sym all) (record {
            indexed = taken_index (x ∷ xs) [] r h ∙ ap index all;
            starts = r.starts;
            ends = refl;
            chained = linked.2;
            apart = apart.0;
            used = (below_parts s.fresh (x ∷ xs) (n ∷ []) r.used).0;
          }),
        )

    take_inner :
        (x : Node V) (xs : List (Node V)) (y : Node V) (ys : List (Node V))
        → Represents s ((x ∷ xs) ++ n ∷ y ∷ ys)
        → lookup k (index (x ∷ xs)) ≡ none
        → Taken k s (x ∷ xs) n (y ∷ ys)
    unfolding Taken unlink_as then_change
    take_inner x xs y ys r h =
        let s0 : Map V = record s { m = delete k s.m } in
        let a = n.addr in
        let t = last_addr x xs in
        let end = last-last_addr none x xs in
        let parts = split-IsChain s.links none none (x ∷ xs) (n ∷ y ∷ ys) r.chained in
        let apart = apart_parts (x ∷ xs) (n ∷ y ∷ ys) r.apart in
        let beyond = apart_from_tail (x ∷ xs) n (y ∷ ys) apart.2 in
        let below = below_parts s.fresh (x ∷ xs) (n ∷ y ∷ ys) r.used in
        let linked = relink_end s.links none (some a) (some (y.addr)) x xs apart.0 parts.0 in
        let next = with_next (some (y.addr)) linked.0 in
        let links1 = update s.links t next in
        let behind =
          frame s.links t next (some a) none (y ∷ ys) (last_addr-Avoids x xs (y ∷ ys) beyond)
            parts.1.1 in
        let p = last none (x ∷ xs) in
        let l = link_of y (some a) (first none ys) in
        let links2 = update links1 (y.addr) (with_prev p l) in
        let s1 : Map V = record s0 { links = links1 } in
        (
          record s1 { links = links2 },
          unlink_tested a _ s0 false false
                (ap (λ q. points_to q a) r.starts
                  ∙ other_address a (x.addr) (λ e. apart.2.0.0 (sym e)))
                (ap (λ q. points_to q a)
                    (r.ends ∙ last-append none (x ∷ xs) (n ∷ y ∷ ys) ∙ last-last_addr (some a) y ys)
                  ∙ other_address a _ (Avoids-last_addr a y ys apart.1.0))
              ∙ ap
                  (λ q.
                    then_change (with_prev p) (some (y.addr))
                      (change (with_next (some (y.addr))) q s0))
                  end
              ∙ ap (then_change (with_prev p) (some (y.addr)))
                  (change_lem (with_next (some (y.addr))) t linked.0 s0 linked.1)
              ∙ change_lem (with_prev p) (y.addr) l s1 behind.0,
          record {
            indexed = taken_index (x ∷ xs) (y ∷ ys) r h;
            starts = r.starts;
            ends =
                r.ends
                ∙ last-append none (x ∷ xs) (n ∷ y ∷ ys)
                ∙ sym (last-append none (x ∷ xs) (y ∷ ys));
            chained =
                join-IsChain links2 none none (x ∷ xs) (y ∷ ys)
                  (frame links1 (y.addr) (with_prev p l) none (some (y.addr)) (x ∷ xs)
                    (apart_back (x ∷ xs) y ys beyond) linked.2)
                  (relink_start links1 (some a) p none y ys apart.1.1 behind);
            apart = apart_joined (x ∷ xs) (y ∷ ys) apart.0 apart.1.1 beyond;
            used = below_joined s.fresh (x ∷ xs) (y ∷ ys) below.0 below.1.1;
          },
        )

    take_any :
        (xs ys : List (Node V))
        → Represents s (xs ++ n ∷ ys)
        → lookup k (index xs) ≡ none
        → Taken k s xs n ys
    take_any [] [] r h = take_only r
    take_any [] (y ∷ ys) r h = take_first y ys r
    take_any (x ∷ xs) [] r h = take_last x xs r h
    take_any (x ∷ xs) (y ∷ ys) r h = take_inner x xs y ys r h

  remove_absent : (k : String) (s : Map V) → lookup k s.m ≡ none → remove k s ≡ some s
  unfolding remove
  remove_absent k s h =
      ap
        (λ o. elim o [
          | none ↦ some s
          | some a ↦ unlink_at a (s.links a) (record s { m = delete k s.m })
        ])
        h

  remove_present :
      (k : String) (s : Map V) (a : ℕ) (l : Link V)
      → lookup k s.m ≡ some a
      → s.links a ≡ some l
      → remove k s ≡ unlink a l (record s { m = delete k s.m })
  unfolding remove unlink_at
  remove_present k s a l h e =
      ap
        (λ o. elim o [
          | none ↦ some s
          | some a ↦ unlink_at a (s.links a) (record s { m = delete k s.m })
        ])
        h
      ∙ ap (λ o. unlink_at a o (record s { m = delete k s.m })) e

  delete_absent : (k : String) (es : List (String × V)) → lookup k es ≡ none → delete k es ≡ es
  unfolding delete
  delete_absent k es h =
      ap (delete k) (sym (append-nil es)) ∙ delete-append k es [] h ∙ append-nil es

  take_found :
      (k : String) (s : Map V) (xs : List (Node V)) (n : Node V) (ys : List (Node V))
      → Represents s (xs ++ n ∷ ys)
      → lookup k s.m ≡ some (n.addr)
      → n.key ≡ k
      → lookup k (index xs) ≡ none
      → (s' : Map V) × (remove k s ≡ some s') × Holds s' (delete k (entries (xs ++ n ∷ ys)))
  unfolding Taken
  take_found k s xs n ys r found e h =
      let done = take_any k s n e xs ys r h in
      let parts = split-IsChain s.links none none xs (n ∷ ys) r.chained in
      (
        done.0,
        remove_present k s (n.addr) _ found parts.1.0 ∙ done.1,
        (
          xs ++ ys,
          done.2,
          map_joined entry_of xs ys
              ∙ sym (
                  delete_found k (n.key) (n.value) (entries xs) (entries ys) (lookup-entries k xs h)
                    e)
              ∙ ap (delete k) (sym (map_joined entry_of xs (n ∷ ys))),
        ),
      )

  take_from :
      (k : String) (s : Map V) (ns : List (Node V))
      → Represents s ns
      → (s' : Map V) × (remove k s ≡ some s') × Holds s' (delete k (entries ns))
  unfolding Found
  take_from k s ns r = elim (Option-cases (lookup k (index ns))) [
    | inl h ↦ (
      s,
      remove_absent k s (ap (lookup k) r.indexed ∙ h),
      (ns, r, sym (delete_absent k (entries ns) (lookup-entries k ns h))),
    )
    | inr at ↦
        let f = find k at.0 ns at.1 in
        let found = ap (lookup k) r.indexed ∙ at.1 ∙ ap some (sym f.4) in
        let done = take_found k s f.0 f.1 f.2 (subst (Represents s) f.3 r) found f.5 f.6 in
        (done.0, done.1, subst (λ ms. Holds done.0 (delete k (entries ms))) (sym f.3) done.2)
  ]

  pub remove-Holds :
      (k : String) (s : Map V) (es : List (String × V))
      → Holds s es
      → (s' : Map V) × (remove k s ≡ some s') × Holds s' (delete k es)
  remove-Holds k s es h =
      let done = take_from k s h.0 h.1 in
      (done.0, done.1, subst (λ ms. Holds done.0 (delete k ms)) h.2 done.2)
