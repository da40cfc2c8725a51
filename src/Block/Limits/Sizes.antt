-- ===== src/Block/Limits/Sizes.antt =====
-- The limits that are sums over the transactions of a run: the sizes, the fuel, the number.
use native.Mathlib.Decide.{dec_le}
use go_apla.Prelude.{
  ℕ, ◌+◌, ◌^◌, ◌≤◌, ◌<◌, true, Option, none, List, [], ◌∷◌, ◌≡◌, ◌≢◌, ◌↔◌, refl, arith, length,
  dec_both, ↔_trans,
}
use go_apla.Prelude.Int.{ℤ, pos, negsuc, pos_part, neg_part, ◌+ℤ◌, wrap64}
use go_apla.Block.Limits.{
  Transaction, LimitError, TxMaxSize, max_size_check, TxMaxFuel, max_fuel_check, TxMaxLimit,
  max_limit_check,
}
use go_apla.Block.Limits.Runs.{Seen, AllTx, passes, Exact, AllWithin, passes_iff}

-- The sum of a measure over a run, and the bounds that a pair of limits puts on it.
abbrev pub total : (Transaction → ℕ) → List Seen → ℕ
total f [] = 0
total f ((env, t) ∷ xs) = f t + total f xs

abbrev pub WithinSum : (Transaction → ℕ) → ℕ → ℕ → List Seen → Type 0
WithinSum f each all xs = AllTx (λ x. f x.1 ≤ each) xs × (total f xs ≤ all)

wrapped_sum : (a b m n : ℕ) → a ≤ m → b ≤ n → m + n < 2 ^ 63 → wrap64 (pos a +ℤ pos b) ≡ pos (a + b)
unfolding wrap64 ◌+ℤ◌
wrapped_sum a b m n p q r = ground arith

-- A limiter that adds a measure up and bounds it by `n` for each, `m` for all.
module _ {S : Type 0} (step : S → Seen → Option LimitError × S) (state : ℕ → S)
    (f : Transaction → ℕ) (Legal : Seen → Type 0) (m n : ℕ)
    (accepts : (a : ℕ) (x : Seen)
      → Legal x
      → a ≤ m
      → (f x.1 ≤ n) × (a + f x.1 ≤ m)
      → step (state a) x ≡ (none, state (a + f x.1)))
    (refuses : (a : ℕ) (x : Seen)
      → Legal x
      → a ≤ m
      → ¬ ((f x.1 ≤ n) × (a + f x.1 ≤ m))
      → (step (state a) x).0 ≢ none) where
  abbrev sum_exact : Exact step state
  sum_exact = record {
    Legal = Legal;
    Good = λ a. a ≤ m;
    Within = λ a x. (f x.1 ≤ n) × (a + f x.1 ≤ m);
    after = λ a x. a + f x.1;
    decide = λ a x. dec_both (dec_le (f x.1) n) (dec_le (a + f x.1) m);
    accepts = λ a x l h w. (accepts a x l h w, w.1);
    refuses = refuses;
  }

  sum_within :
      (a : ℕ) (xs : List Seen)
      → a ≤ m
      → AllWithin sum_exact a xs ↔ AllTx (λ x. f x.1 ≤ n) xs × (a + total f xs ≤ m)
  sum_within a [] h = (λ _. (tt, omega arith), λ _. tt)
  sum_within a ((env, t) ∷ xs) h = (
    λ k.
        let (each, all) = (sum_within (a + f t) xs k.0.1).0 k.1 in
        ((k.0.0, each), omega (arith, all)),
    λ k. (
      (k.0.0, omega (arith, k.1)),
      (sum_within (a + f t) xs (omega (arith, k.1))).1 (k.0.1, omega (arith, k.1)),
    ),
  )

  sum_passes :
      (xs : List Seen) → AllTx Legal xs → (passes step (state 0) xs ≡ true) ↔ WithinSum f n m xs
  sum_passes xs l =
      let (sound, complete) = passes_iff sum_exact 0 xs l (omega arith) in
      let (to, from) = sum_within 0 xs (omega arith) in
      (
        λ r. let (each, all) = to (sound r) in (each, omega (arith, all)),
        λ w. complete (from (w.0, omega (arith, w.1))),
      )

abbrev pub size_step : ℕ → TxMaxSize → Seen → Option LimitError × TxMaxSize
size_step mode bl (env, t) = max_size_check bl t mode

-- The limiter when `a` bytes have passed.
abbrev pub size_state : ℕ → ℕ → ℕ → TxMaxSize
size_state m n a = record { size = pos a; limit_block = pos m; limit_tx = pos n }

abbrev pub fuel_step : ℕ → TxMaxFuel → Seen → Option LimitError × TxMaxFuel
fuel_step mode bl (env, t) = max_fuel_check bl t mode

abbrev pub fuel_state : ℕ → ℕ → ℕ → TxMaxFuel
fuel_state m n a = record { fuel = pos a; limit_block = pos m; limit_tx = pos n }

abbrev pub fuel_of : Transaction → ℕ
fuel_of t = pos_part t.tx_fuel

-- A transaction has not used a negative amount of fuel.
abbrev pub HasFuel : Seen → Type 0
HasFuel (env, t) = neg_part t.tx_fuel ≡ 0

abbrev pub count_step : ℕ → TxMaxLimit → Seen → Option LimitError × TxMaxLimit
count_step mode bl (env, t) = max_limit_check bl mode

abbrev pub count_state : ℕ → ℕ → TxMaxLimit
count_state m a = record { count = pos a; limit = pos m }

module _ (mode m n : ℕ) (small : m + n < 2 ^ 63) where
  size_accepts :
      (a : ℕ) (x : Seen)
      → Unit {0}
      → a ≤ m
      → (x.1.size ≤ n) × (a + x.1.size ≤ m)
      → size_step mode (size_state m n a) x ≡ (none, size_state m n (a + x.1.size))
  unfolding max_size_check
  size_accepts a (env, t) _ h (p, q) = ground (arith, wrapped_sum a t.size m n)

  size_refuses :
      (a : ℕ) (x : Seen)
      → Unit {0}
      → a ≤ m
      → ¬ ((x.1.size ≤ n) × (a + x.1.size ≤ m))
      → (size_step mode (size_state m n a) x).0 ≢ none
  unfolding max_size_check
  size_refuses a (env, t) _ h k = elim (dec_le t.size n) [
    | no p ↦ ground arith
    | yes p ↦ elim (dec_le (a + t.size) m) [
      | no q ↦ ground (arith, wrapped_sum a t.size m n)
      | yes q ↦ absurd (k (p, q))
    ]
  ]

  fuel_sum :
      (a : ℕ) (z : ℤ)
      → a ≤ m
      → neg_part z ≡ 0
      → pos_part z ≤ n
      → wrap64 (pos a +ℤ z) ≡ pos (a + pos_part z)
  fuel_sum a (pos b) h p q = wrapped_sum a b m n h q small
  fuel_sum a (negsuc b) h p q = absurd (omega arith)

  fuel_accepts :
      (a : ℕ) (x : Seen)
      → HasFuel x
      → a ≤ m
      → (fuel_of x.1 ≤ n) × (a + fuel_of x.1 ≤ m)
      → fuel_step mode (fuel_state m n a) x ≡ (none, fuel_state m n (a + fuel_of x.1))
  unfolding max_fuel_check
  fuel_accepts a (env, t) l h (p, q) = ground (arith, fuel_sum a t.tx_fuel h l p)

  fuel_refuses :
      (a : ℕ) (x : Seen)
      → HasFuel x
      → a ≤ m
      → ¬ ((fuel_of x.1 ≤ n) × (a + fuel_of x.1 ≤ m))
      → (fuel_step mode (fuel_state m n a) x).0 ≢ none
  unfolding max_fuel_check
  fuel_refuses a (env, t) l h k = elim (dec_le (fuel_of t) n) [
    | no p ↦ ground arith
    | yes p ↦ elim (dec_le (a + fuel_of t) m) [
      | no q ↦ ground (arith, fuel_sum a t.tx_fuel h l p)
      | yes q ↦ absurd (k (p, q))
    ]
  ]

-- Every run is Legal for a limiter that reads nothing of the transaction but a length.
pub AllTx-Unit : (xs : List Seen) → AllTx (λ _. Unit {0}) xs
AllTx-Unit [] = tt
AllTx-Unit ((env, t) ∷ xs) = (tt, AllTx-Unit xs)

module _ (mode m n : ℕ) (small : m + n < 2 ^ 63) (xs : List Seen) where
  pub size_passes_iff :
      (passes (size_step mode) (size_state m n 0) xs ≡ true) ↔ WithinSum (λ t. t.size) n m xs
  size_passes_iff =
      sum_passes (size_step mode) (size_state m n) (λ t. t.size) (λ _. Unit {0}) m n
        (size_accepts mode m n small) (size_refuses mode m n small) xs (AllTx-Unit xs)

  pub fuel_passes_iff :
      AllTx HasFuel xs
      → (passes (fuel_step mode) (fuel_state m n 0) xs ≡ true) ↔ WithinSum fuel_of n m xs
  fuel_passes_iff l =
      sum_passes (fuel_step mode) (fuel_state m n) fuel_of HasFuel m n (fuel_accepts mode m n small)
        (fuel_refuses mode m n small) xs l

module _ (mode m : ℕ) (small : m + 1 < 2 ^ 63) where
  count_accepts :
      (a : ℕ) (x : Seen)
      → Unit {0}
      → a ≤ m
      → (1 ≤ 1) × (a + 1 ≤ m)
      → count_step mode (count_state m a) x ≡ (none, count_state m (a + 1))
  unfolding max_limit_check
  count_accepts a (env, t) _ h (p, q) = ground (arith, wrapped_sum a 1 m 1 h)

  count_refuses :
      (a : ℕ) (x : Seen)
      → Unit {0}
      → a ≤ m
      → ¬ ((1 ≤ 1) × (a + 1 ≤ m))
      → (count_step mode (count_state m a) x).0 ≢ none
  unfolding max_limit_check
  count_refuses a (env, t) _ h k = elim (dec_le (a + 1) m) [
    | no q ↦ ground (arith, wrapped_sum a 1 m 1 h)
    | yes q ↦ absurd (k (omega arith, q))
  ]

  total_ones : (xs : List Seen) → total (λ _. 1) xs ≡ length xs
  total_ones [] = refl
  total_ones ((env, t) ∷ xs) = omega (arith, total_ones xs)

  pub count_passes_iff :
      (xs : List Seen) → (passes (count_step mode) (count_state m 0) xs ≡ true) ↔ (length xs ≤ m)
  count_passes_iff xs =
      ↔_trans
        (sum_passes (count_step mode) (count_state m) (λ _. 1) (λ _. Unit {0}) m 1 count_accepts
          count_refuses xs (AllTx-Unit xs))
        (λ h. omega (arith, h.1, total_ones xs), λ h. (all_one xs, omega (arith, h, total_ones xs)))
    where
      all_one : (ys : List Seen) → AllTx (λ _. 1 ≤ 1) ys
      all_one [] = tt
      all_one ((env, t) ∷ ys) = (omega arith, all_one ys)
