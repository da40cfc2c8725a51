-- ===== src/Block/Merkle/Binding.antt =====
-- The root of the tree is there, and binds the transactions as far as the hash has no collision.
use go_apla.Prelude.{
  Bool-cases, ℕ, zero, suc, ◌+◌, ◌≤◌, ◌≡◌, ◌≢◌, ◌⊎◌, inl, inr, refl, sym, ap, ◌∙◌, List, [], ◌∷◌,
  ◌++◌, map, length, arith, true, false, ◌==◌, ==_iff, dec_both, take, drop, take-append,
  drop-append,
}
use go_apla.Converter.Bytes.{Bytes}
use go_apla.Block.Merkle.{root, hashed, next_level, climb, merkle_tree_root}

head_or : {A : Type 0} → A → List A → A
head_or d [] = d
head_or d (x ∷ xs) = x

tail_of : {A : Type 0} → List A → List A
tail_of [] = []
tail_of (x ∷ xs) = xs

cons_injective : {A : Type 0} (x y : A) (xs ys : List A) → x ∷ xs ≡ y ∷ ys → (x ≡ y) × (xs ≡ ys)
unfolding head_or tail_of
cons_injective x y xs ys e = (ap (head_or x) e, ap tail_of e)

true-false : true ≡ false → ⊥
true-false h = ground arith

dec_nat : (a b : ℕ) → Dec (a ≡ b)
dec_nat a b = elim (Bool-cases (a == b)) [
  | inl h ↦ yes ((==_iff a b).0 h)
  | inr h ↦ no (λ e. true-false (sym ((==_iff a b).1 e) ∙ h))
]

cons_dec : (x y : ℕ) (xs ys : Bytes) → Dec ((x ≡ y) × (xs ≡ ys)) → Dec (x ∷ xs ≡ y ∷ ys)
cons_dec x y xs ys (yes h) = yes (ap (λ z. z ∷ xs) h.0 ∙ ap (λ zs. y ∷ zs) h.1)
cons_dec x y xs ys (no h) = no (λ e. h (cons_injective x y xs ys e))

dec_bytes : (xs ys : Bytes) → Dec (xs ≡ ys)
dec_bytes [] [] = yes refl
dec_bytes [] (y ∷ ys) = no (λ e. absurd (omega (arith, ap length e)))
dec_bytes (x ∷ xs) [] = no (λ e. absurd (omega (arith, ap length e)))
dec_bytes (x ∷ xs) (y ∷ ys) = cons_dec x y xs ys (dec_both (dec_nat x y) (dec_bytes xs ys))

append_injective :
    (x y x' y' : Bytes) → length x ≡ length y → x ++ x' ≡ y ++ y' → (x ≡ y) × (x' ≡ y')
append_injective x y x' y' n e = (
  sym (take-append x x') ∙ ap (take (length x)) e ∙ ap (λ k. take k (y ++ y')) n ∙ take-append y y',
  sym (drop-append x x') ∙ ap (drop (length x)) e ∙ ap (λ k. drop k (y ++ y')) n ∙ drop-append y y',
)

root_injective : {x y : Bytes} → root x ≡ root y → x ≡ y
root_injective e = ground arith

module _ (double_hash : Bytes → Bytes) where
  -- Two texts that the hash does not tell apart.
  abbrev pub Collision : Type 0
  Collision = (u : Bytes) × (v : Bytes) × (u ≢ v) × (hashed double_hash u ≡ hashed double_hash v)

  hashed_same : (u v : Bytes) → hashed double_hash u ≡ hashed double_hash v → (u ≡ v) ⊎ Collision
  hashed_same u v e = elim (dec_bytes u v) [ yes h ↦ inl h | no h ↦ inr (u, v, h, e) ]

  AreSized : List Bytes → Type 0
  AreSized [] = Unit {0}
  AreSized (x ∷ xs) = (length x ≡ 64) × AreSized xs

  pair_same :
      (x x' y y' : Bytes) (xs ys : List Bytes)
      → length x ≡ 64
      → length y ≡ 64
      → (x ++ x' ≡ y ++ y') ⊎ Collision
      → (xs ≡ ys) ⊎ Collision
      → (x ∷ x' ∷ xs ≡ y ∷ y' ∷ ys) ⊎ Collision
  pair_same x x' y y' xs ys n m (inr c) r = inr c
  pair_same x x' y y' xs ys n m (inl e) (inr c) = inr c
  pair_same x x' y y' xs ys n m (inl e) (inl f) =
      let parts = append_injective x y x' y' (omega (arith, n, m)) e in
      inl (ap (λ z. z ∷ x' ∷ xs) parts.0 ∙ ap (λ z. y ∷ z ∷ xs) parts.1 ∙ ap (λ zs. y ∷ y' ∷ zs) f)

  level_same :
      (xs ys : List Bytes)
      → AreSized xs
      → AreSized ys
      → length xs ≡ length ys
      → next_level double_hash xs ≡ next_level double_hash ys
      → (xs ≡ ys) ⊎ Collision
  unfolding next_level AreSized
  level_same [] [] h k n e = inl refl
  level_same [] (y ∷ ys) h k n e = ground arith
  level_same (x ∷ xs) [] h k n e = ground arith
  level_same (x ∷ []) (y ∷ []) h k n e = inl e
  level_same (x ∷ []) (y ∷ y' ∷ ys) h k n e = absurd (omega (arith, n))
  level_same (x ∷ x' ∷ xs) (y ∷ []) h k n e = absurd (omega (arith, n))
  level_same (x ∷ x' ∷ xs) (y ∷ y' ∷ ys) h k n e =
      let parts = cons_injective _ _ _ _ e in
      pair_same x x' y y' xs ys h.0 k.0 (hashed_same (x ++ x') (y ++ y') parts.0)
        (level_same xs ys h.1.1 k.1.1 (omega (arith, n)) parts.1)

  module _ (sized : (v : Bytes) → length (hashed double_hash v) ≡ 64) where
    next_level-AreSized : (xs : List Bytes) → AreSized xs → AreSized (next_level double_hash xs)
    unfolding next_level AreSized
    next_level-AreSized [] h = tt
    next_level-AreSized (x ∷ []) h = h
    next_level-AreSized (x ∷ y ∷ xs) h = (sized (x ++ y), next_level-AreSized xs h.1.1)

    map-hashed-AreSized : (xs : List Bytes) → AreSized (map (hashed double_hash) xs)
    unfolding AreSized
    map-hashed-AreSized [] = tt
    map-hashed-AreSized (x ∷ xs) = (sized x, map-hashed-AreSized xs)

  next_level_lengths :
      (xs ys : List Bytes)
      → length xs ≡ length ys
      → length (next_level double_hash xs) ≡ length (next_level double_hash ys)
  unfolding next_level
  next_level_lengths [] [] n = refl
  next_level_lengths [] (y ∷ ys) n = absurd (omega (arith, n))
  next_level_lengths (x ∷ xs) [] n = absurd (omega (arith, n))
  next_level_lengths (x ∷ []) (y ∷ []) n = refl
  next_level_lengths (x ∷ []) (y ∷ y' ∷ ys) n = absurd (omega (arith, n))
  next_level_lengths (x ∷ x' ∷ xs) (y ∷ []) n = absurd (omega (arith, n))
  next_level_lengths (x ∷ x' ∷ xs) (y ∷ y' ∷ ys) n =
      ap suc (next_level_lengths xs ys (omega (arith, n)))

  -- Twice the next level is at most one more than a level.
  next_level_shorter :
      (xs : List Bytes)
      → length (next_level double_hash xs) + length (next_level double_hash xs) ≤ suc (length xs)
  unfolding next_level
  next_level_shorter [] = omega arith
  next_level_shorter (x ∷ []) = omega arith
  next_level_shorter (x ∷ y ∷ xs) = omega (arith, next_level_shorter xs)

  next_level_there : (x : Bytes) (xs : List Bytes) → 1 ≤ length (next_level double_hash (x ∷ xs))
  unfolding next_level
  next_level_there x [] = omega arith
  next_level_there x (y ∷ xs) = omega arith

  climb_one : (fuel : ℕ) (x : Bytes) → climb double_hash fuel (x ∷ []) ≡ root x
  unfolding climb
  climb_one zero x = refl
  climb_one (suc fuel) x = refl

  climb-zero :
      (x y : Bytes) (xs : List Bytes) (r : Bytes) → climb double_hash zero (x ∷ y ∷ xs) ≢ root r
  unfolding climb
  climb-zero x y xs r e = ground arith

  climb_more :
      (fuel : ℕ) (x y : Bytes) (xs : List Bytes)
      → climb double_hash (suc fuel) (x ∷ y ∷ xs)
        ≡ climb double_hash fuel (next_level double_hash (x ∷ y ∷ xs))
  unfolding climb
  climb_more fuel x y xs = refl

  cons_same :
      (x y : Bytes) (xs ys : List Bytes)
      → (x ≡ y) ⊎ Collision
      → (xs ≡ ys) ⊎ Collision
      → (x ∷ xs ≡ y ∷ ys) ⊎ Collision
  cons_same x y xs ys (inr c) r = inr c
  cons_same x y xs ys (inl e) (inr c) = inr c
  cons_same x y xs ys (inl e) (inl f) = inl (ap (λ z. z ∷ xs) e ∙ ap (λ zs. y ∷ zs) f)

  climb_ends :
      (fuel : ℕ) (xs : List Bytes)
      → 1 ≤ length xs
      → length xs ≤ suc fuel
      → (r : Bytes) × (climb double_hash fuel xs ≡ root r)
  unfolding climb
  climb_ends fuel [] h k = absurd (omega (arith, h))
  climb_ends fuel (x ∷ []) h k = (x, climb_one fuel x)
  climb_ends zero (x ∷ y ∷ xs) h k = absurd (omega (arith, k))
  climb_ends (suc fuel) (x ∷ y ∷ xs) h k =
      climb_ends fuel (next_level double_hash (x ∷ y ∷ xs)) (next_level_there x (y ∷ xs))
        (omega (arith, k, next_level_shorter (x ∷ y ∷ xs)))

  level_or :
      (xs ys : List Bytes)
      → AreSized xs
      → AreSized ys
      → length xs ≡ length ys
      → (next_level double_hash xs ≡ next_level double_hash ys) ⊎ Collision
      → (xs ≡ ys) ⊎ Collision
  level_or xs ys h k n (inl e) = level_same xs ys h k n e
  level_or xs ys h k n (inr c) = inr c

  module _ (sized : (v : Bytes) → length (hashed double_hash v) ≡ 64) where
    climb_same :
        (fuel : ℕ) (xs ys : List Bytes) (r : Bytes)
        → AreSized xs
        → AreSized ys
        → length xs ≡ length ys
        → climb double_hash fuel xs ≡ root r
        → climb double_hash fuel ys ≡ root r
        → (xs ≡ ys) ⊎ Collision
    climb_same fuel [] [] r h k n e f = inl refl
    climb_same fuel [] (y ∷ ys) r h k n e f = absurd (omega (arith, n))
    climb_same fuel (x ∷ xs) [] r h k n e f = absurd (omega (arith, n))
    climb_same fuel (x ∷ []) (y ∷ []) r h k n e f =
        inl (
          ap (λ z. z ∷ []) (root_injective (sym (climb_one fuel x) ∙ e ∙ sym f ∙ climb_one fuel y)))
    climb_same fuel (x ∷ []) (y ∷ y' ∷ ys) r h k n e f = absurd (omega (arith, n))
    climb_same fuel (x ∷ x' ∷ xs) (y ∷ []) r h k n e f = absurd (omega (arith, n))
    climb_same zero (x ∷ x' ∷ xs) (y ∷ y' ∷ ys) r h k n e f = absurd (climb-zero x x' xs r e)
    climb_same (suc fuel) (x ∷ x' ∷ xs) (y ∷ y' ∷ ys) r h k n e f =
        let us = x ∷ x' ∷ xs in
        let vs = y ∷ y' ∷ ys in
        level_or us vs h k n (
          climb_same fuel (next_level double_hash us) (next_level double_hash vs) r
            (next_level-AreSized sized us h) (next_level-AreSized sized vs k)
            (next_level_lengths us vs n) (sym (climb_more fuel x x' xs) ∙ e)
            (sym (climb_more fuel y y' ys) ∙ f))

    leaves_same :
        (xs ys : List Bytes)
        → map (hashed double_hash) xs ≡ map (hashed double_hash) ys
        → length xs ≡ length ys
        → (xs ≡ ys) ⊎ Collision
    leaves_same [] [] e n = inl refl
    leaves_same [] (y ∷ ys) e n = absurd (omega (arith, n))
    leaves_same (x ∷ xs) [] e n = absurd (omega (arith, n))
    leaves_same (x ∷ xs) (y ∷ ys) e n =
        let parts = cons_injective _ _ _ _ e in
        cons_same x y xs ys (hashed_same x y parts.0) (leaves_same xs ys parts.1 (omega (arith, n)))

    leaves_or :
        (xs ys : List Bytes)
        → length xs ≡ length ys
        → (map (hashed double_hash) xs ≡ map (hashed double_hash) ys) ⊎ Collision
        → (xs ≡ ys) ⊎ Collision
    leaves_or xs ys n (inl e) = leaves_same xs ys e n
    leaves_or xs ys n (inr c) = inr c

length-map : {A B : Type 0} (f : A → B) (xs : List A) → length (map f xs) ≡ length xs
length-map f [] = refl
length-map f (x ∷ xs) = ap suc (length-map f xs)

-- With a hash of 64 hexadecimal digits: for at least one datum and as many levels of fuel as there
-- are data there is a root, and two lists of as many data with the same root are the same, or two
-- different texts are found that the hash does not tell apart.
pub merkle_tree_root_binds :
    (double_hash : Bytes → Bytes)
    → ((v : Bytes) → length (hashed double_hash v) ≡ 64)
    → (fuel : ℕ) (xs ys : List Bytes) → 1 ≤ length xs
    → length xs ≤ fuel
    → length xs ≡ length ys
    → ((r : Bytes) × (merkle_tree_root double_hash fuel xs ≡ root r))
      × (merkle_tree_root double_hash fuel xs ≡ merkle_tree_root double_hash fuel ys
          → (xs ≡ ys)
            ⊎ ((u : Bytes) × (v : Bytes) × (u ≢ v) × (hashed double_hash u ≡ hashed double_hash v)))
unfolding merkle_tree_root
merkle_tree_root_binds double_hash sized fuel xs ys h k n =
    let H = hashed double_hash in
    let done =
      climb_ends double_hash fuel (map H xs) (omega (arith, h, length-map H xs))
        (omega (arith, k, length-map H xs)) in
    (
      done,
      λ e. leaves_or double_hash sized xs ys n (
          climb_same double_hash sized fuel (map H xs) (map H ys) done.0
            (map-hashed-AreSized double_hash sized xs) (map-hashed-AreSized double_hash sized ys)
            (length-map H xs ∙ n ∙ sym (length-map H ys)) done.1 (sym e ∙ done.1)),
    )
