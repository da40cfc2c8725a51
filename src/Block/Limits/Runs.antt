-- ===== src/Block/Limits/Runs.antt =====
-- A run of transactions through limiters, one limiter at a time.
use go_apla.Prelude.{
  ℕ, Bool, true, false, ◌&&◌, Option, none, some, List, [], ◌∷◌, ◌≡◌, ◌≢◌, ◌↔◌, refl, arith,
}
use go_apla.Block.Limits.{
  Env, Transaction, LimitError, Limiter, Limits, check, check_each, check_limit,
}

-- A transaction with what its checks read from outside.
abbrev pub Seen : Type 0
Seen = Env × Transaction

-- Whether every transaction passes, each from the state that those before it left.
module _ {ℓ} {S : Type ℓ} (step : S → Seen → Option LimitError × S) where
  unfoldable pub passes : S → List Seen → Bool
  passes s [] = true
  passes s (x ∷ xs) =
      let (err, s') = step s x in
      let rest = passes s' xs in elim err [ none ↦ rest | some _ ↦ false ]

abbrev pub one : ℕ → Limiter → Seen → Option LimitError × Limiter
one mode bl (env, t) = check env bl t mode

abbrev pub each : ℕ → List Limiter → Seen → Option LimitError × List Limiter
each mode limiters (env, t) = check_each env limiters t mode

-- Whether a list of transactions passes `CheckLimit` in a row.
abbrev pub block_passes : Limits → List Seen → Bool
block_passes = passes (λ limits x. check_limit x.0 limits x.1)

pub passes-each-cons :
    (mode : ℕ) (bl : Limiter) (rest : List Limiter) (xs : List Seen)
    → passes (each mode) (bl ∷ rest) xs ≡ passes (one mode) bl xs && passes (each mode) rest xs
unfolding passes check_each
passes-each-cons mode bl rest [] = refl
passes-each-cons mode bl rest ((env, t) ∷ xs) =
    ground (arith, passes-each-cons mode (check env bl t mode).1 (check_each env rest t mode).1 xs)

module _ {ℓ} {S : Type ℓ} (step : S → Seen → Option LimitError × S) where
  pub passes-cons_accepted :
      (s s' : S) (x : Seen) (xs : List Seen)
      → step s x ≡ (none, s')
      → passes step s (x ∷ xs) ≡ passes step s' xs
  unfolding passes
  passes-cons_accepted s s' x xs h = ground arith

  pub passes-cons_refused :
      (s : S) (x : Seen) (xs : List Seen) → (step s x).0 ≢ none → passes step s (x ∷ xs) ≢ true
  unfolding passes
  passes-cons_refused s x xs h e = ground arith

-- Every transaction of a run has a property.
abbrev pub AllTx : (Seen → Type 0) → List Seen → Type 0
AllTx P [] = Unit {0}
AllTx P (x ∷ xs) = P x × AllTx P xs

-- A limiter whose states on a run of `Legal` transactions are `state i`: it accepts exactly those
-- that are `Within` its limits at `i`, and then moves to `after i`.
pub record Exact {S I : Type 0} (step : S → Seen → Option LimitError × S) (state : I → S)
    : Type 1 where
  pub Legal : Seen → Type 0
  pub Good : I → Type 0
  pub Within : I → Seen → Type 0
  pub after : I → Seen → I
  pub decide : (i : I) (x : Seen) → Dec (Within i x)
  pub accepts :
      (i : I) (x : Seen)
      → Legal x
      → Good i
      → Within i x
      → (step (state i) x ≡ (none, state (after i x))) × Good (after i x)
  pub refuses : (i : I) (x : Seen) → Legal x → Good i → ¬ Within i x → (step (state i) x).0 ≢ none

module _ {S I : Type 0} {step : S → Seen → Option LimitError × S} {state : I → S}
    (e : Exact step state) where
  abbrev pub AllWithin : I → List Seen → Type 0
  AllWithin i [] = Unit
  AllWithin i (x ∷ xs) = e.Within i x × AllWithin (e.after i x) xs

  pub passes_iff :
      (i : I) (xs : List Seen)
      → AllTx e.Legal xs
      → e.Good i
      → (passes step (state i) xs ≡ true) ↔ AllWithin i xs
  passes_iff i [] l h = unfold passes in (λ _. tt, λ _. refl)
  passes_iff i (x ∷ xs) l h = elim (e.decide i x) [
    | no p ↦ (
      λ r. absurd (passes-cons_refused step (state i) x xs (e.refuses i x l.0 h p) r),
      λ k. absurd (p k.0),
    )
    | yes p ↦
        let (moves, good) = e.accepts i x l.0 h p in
        let (sound, complete) = passes_iff (e.after i x) xs l.1 good in
        rw (passes-cons_accepted step (state i) (state (e.after i x)) x xs moves)
          (λ r. (p, sound r), λ k. complete k.1)
  ]

-- The limiters of a list are passed one by one.
pub passes-each-nil : (mode : ℕ) (xs : List Seen) → passes (each mode) [] xs ≡ true
unfolding passes check_each
passes-each-nil mode [] = refl
passes-each-nil mode ((env, t) ∷ xs) = passes-each-nil mode xs

-- A limiter of the list runs as the type that implements it.
pub passes-one :
    {S : Type 0} (mode : ℕ) (f : S → Limiter) (step : S → Seen → Option LimitError × S)
    → ((s : S) (x : Seen) → one mode (f s) x ≡ ((step s x).0, f (step s x).1))
    → (s : S) (xs : List Seen) → passes (one mode) (f s) xs ≡ passes step s xs
unfolding passes
passes-one mode f step h s [] = refl
passes-one mode f step h s (x ∷ xs) =
    ground (arith, h s x, passes-one mode f step h (step s x).1 xs)

pub block_passes-each :
    (mode : ℕ) (limiters : List Limiter) (xs : List Seen)
    → block_passes (record { mode = mode; limiters = limiters }) xs ≡ passes (each mode) limiters xs
unfolding passes check_limit
block_passes-each mode limiters [] = refl
block_passes-each mode limiters ((env, t) ∷ xs) =
    ground (arith, block_passes-each mode (check_each env limiters t mode).1 xs)
