-- ===== src/Block/Limits/Accept.antt =====
-- Which runs of transactions pass `CheckLimit` in each of the three modes.
use go_apla.Prelude.{
  ℕ, ◌+◌, ◌^◌, ◌≤◌, ◌<◌, true, false, ◌&&◌, Option, none, some, List, [], ◌≡◌, ◌↔◌, refl, arith,
  length,
}
use go_apla.Prelude.Int.{ℤ, pos, ◌<ℤ◌, ◌-ℤ◌, ◌*ℤ◌, wrap64}
use go_apla.Block.Limits.{
  Env, Syspar, LimitError, max_size, user_limit, max_limit, user_ecosys, time_block, max_fuel,
  check, new_limits, let_preprocess, let_parsing, TimeBlockLimit, time_block_check,
}
use go_apla.Block.Limits.Runs.{
  Seen, AllTx, passes, one, block_passes, passes-each-cons, passes-each-nil, passes-one,
  block_passes-each,
}
use go_apla.Block.Limits.Sizes.{
  WithinSum, fuel_of, HasFuel, size_step, size_state, size_passes_iff, fuel_step, fuel_state,
  fuel_passes_iff, count_step, count_state, count_passes_iff,
}
use go_apla.Block.Limits.Users.{sent, cap, user_step, user_state, user_passes_iff}
use go_apla.Block.Limits.Ecosystems.{
  sent_to, HasLimits, ecosys_step, ecosys_state, ecosys_passes_iff,
}

-- System parameters that are not negative and far enough from the end of int64.
pub record Bounds : Type 0 where
  pub tx_count : ℕ
  pub generation_time : ℕ
  pub user_tx : ℕ
  pub block_size : ℕ
  pub tx_size : ℕ
  pub block_fuel : ℕ
  pub tx_fuel : ℕ

pub record AreSmall (b : Bounds) : Type 0 where
  pub count : b.tx_count + 1 < 2 ^ 63
  pub user : b.user_tx + 1 < 2 ^ 63
  pub size : b.block_size + b.tx_size < 2 ^ 63
  pub fuel : b.block_fuel + b.tx_fuel < 2 ^ 63

abbrev pub syspar : Bounds → Syspar
syspar b = record {
  max_tx_count = pos b.tx_count;
  max_block_generation_time = pos b.generation_time;
  max_block_user_tx = pos b.user_tx;
  max_block_size = pos b.block_size;
  max_tx_size = pos b.tx_size;
  max_block_fuel = pos b.block_fuel;
  max_tx_fuel = pos b.tx_fuel;
}

abbrev time_step : ℕ → TimeBlockLimit → Seen → Option LimitError × TimeBlockLimit
time_step mode bl (env, t) = time_block_check env bl mode

-- The limiter that `init` makes.
abbrev time_state : Env → TimeBlockLimit
time_state env = record {
  start = env.now;
  limit = wrap64 (pos 1_000_000 *ℤ env.sys.max_block_generation_time);
}

-- The check comes before the time is over that the generation of the block, begun at `start`, may take.
abbrev pub InTime : Env → Seen → Type 0
InTime start (env, t) =
    (env.now -ℤ start.now) <ℤ wrap64 (pos 1_000_000 *ℤ start.sys.max_block_generation_time)

module _ (mode : ℕ) (b : Bounds) (xs : List Seen) where
  size_run :
      passes (one mode) (max_size (size_state b.block_size b.tx_size 0)) xs
      ≡ passes (size_step mode) (size_state b.block_size b.tx_size 0) xs
  unfolding check
  size_run = passes-one mode max_size (size_step mode) (λ s x. refl) _ xs

  user_run :
      passes (one mode) (user_limit (user_state b.user_tx [])) xs
      ≡ passes (user_step mode) (user_state b.user_tx []) xs
  unfolding check
  user_run = passes-one mode user_limit (user_step mode) (λ s x. refl) _ xs

  count_run :
      passes (one mode) (max_limit (count_state b.tx_count 0)) xs
      ≡ passes (count_step mode) (count_state b.tx_count 0) xs
  unfolding check
  count_run = passes-one mode max_limit (count_step mode) (λ s x. refl) _ xs

  ecosys_run :
      passes (one mode) (user_ecosys (ecosys_state [])) xs
      ≡ passes (ecosys_step mode) (ecosys_state []) xs
  unfolding check
  ecosys_run = passes-one mode user_ecosys (ecosys_step mode) (λ s x. refl) _ xs

  fuel_run :
      passes (one mode) (max_fuel (fuel_state b.block_fuel b.tx_fuel 0)) xs
      ≡ passes (fuel_step mode) (fuel_state b.block_fuel b.tx_fuel 0) xs
  unfolding check
  fuel_run = passes-one mode max_fuel (fuel_step mode) (λ s x. refl) _ xs

  time_run :
      (bl : TimeBlockLimit) → passes (one mode) (time_block bl) xs ≡ passes (time_step mode) bl xs
  unfolding check
  time_run bl = passes-one mode time_block (time_step mode) (λ s x. refl) bl xs

ruleset each_laws = (passes-each-cons, passes-each-nil, block_passes-each)

ruleset run_laws = (size_run, user_run, count_run, ecosys_run, fuel_run, time_run)

module _ (env : Env) (b : Bounds) (xs : List Seen) (here : env.sys ≡ syspar b) where
  parsing_runs : block_passes (new_limits env (some false)) xs ≡ (
      passes (size_step let_parsing) (size_state b.block_size b.tx_size 0) xs
      && (passes (user_step let_parsing) (user_state b.user_tx []) xs
          && (passes (count_step let_parsing) (count_state b.tx_count 0) xs
              && (passes (ecosys_step let_parsing) (ecosys_state []) xs
                  && (passes (fuel_step let_parsing) (fuel_state b.block_fuel b.tx_fuel 0) xs
                      && true)))))
  unfolding new_limits
  parsing_runs = rw here (simp each_laws (simp run_laws))

  preprocess_runs : block_passes (new_limits env none) xs ≡ (
      passes (size_step let_preprocess) (size_state b.block_size b.tx_size 0) xs
      && (passes (user_step let_preprocess) (user_state b.user_tx []) xs
          && (passes (count_step let_preprocess) (count_state b.tx_count 0) xs
              && (passes (ecosys_step let_preprocess) (ecosys_state []) xs && true))))
  unfolding new_limits
  preprocess_runs = rw here (simp each_laws (simp run_laws))

  -- With the limits of `b`, no negative fuel and ecosystem parameters that stay `limit`, a block that
  -- is parsed passes `CheckLimit` to its end exactly when: every transaction is at most the largest
  -- size and their sum at most the block's; no user has sent more than the user limit (or 1, since
  -- the first transaction of a user is never refused); there are at most as many transactions as
  -- allowed; no user has sent to an ecosystem more than its limit (or 1); and the fuel of each
  -- transaction and of all is within its limits.
  pub parsing_accepts_iff :
      (limit : ℤ → ℕ)
      → AreSmall b
      → ((eco : ℤ) → limit eco + 1 < 2 ^ 63)
      → AllTx HasFuel xs
      → AllTx (HasLimits limit) xs
      → (block_passes (new_limits env (some false)) xs ≡ true) ↔ (
          WithinSum (λ t. t.size) b.tx_size b.block_size xs
          × ((key : ℤ) → sent key xs ≤ cap b.user_tx)
          × (length xs ≤ b.tx_count)
          × ((eco key : ℤ) → sent_to eco key xs ≤ cap (limit eco))
          × WithinSum fuel_of b.tx_fuel b.block_fuel xs)
  parsing_accepts_iff limit small small_eco fuel limits =
      let sizes = size_passes_iff let_parsing b.block_size b.tx_size small.size xs in
      let users = user_passes_iff let_parsing b.user_tx small.user xs in
      let counts = count_passes_iff let_parsing b.tx_count small.count xs in
      let ecos = ecosys_passes_iff let_parsing limit small_eco xs limits in
      let fuels = fuel_passes_iff let_parsing b.block_fuel b.tx_fuel small.fuel xs fuel in
      rw parsing_runs (
        λ e. (
          sizes.0 (ground arith),
          users.0 (ground arith),
          counts.0 (ground arith),
          ecos.0 (ground arith),
          fuels.0 (ground arith),
        ),
        λ w. simp (sizes.1 w.0, users.1 w.1, counts.1 w.2, ecos.1 w.3, fuels.1 w.4),
      )

  -- Before a block is generated, the same holds without the fuel: a run of transactions passes
  -- exactly when sizes, users, number and ecosystems are within the limits.
  pub preprocess_accepts_iff :
      (limit : ℤ → ℕ)
      → AreSmall b
      → ((eco : ℤ) → limit eco + 1 < 2 ^ 63)
      → AllTx (HasLimits limit) xs
      → (block_passes (new_limits env none) xs ≡ true) ↔ (
          WithinSum (λ t. t.size) b.tx_size b.block_size xs
          × ((key : ℤ) → sent key xs ≤ cap b.user_tx)
          × (length xs ≤ b.tx_count)
          × ((eco key : ℤ) → sent_to eco key xs ≤ cap (limit eco)))
  preprocess_accepts_iff limit small small_eco limits =
      let sizes = size_passes_iff let_preprocess b.block_size b.tx_size small.size xs in
      let users = user_passes_iff let_preprocess b.user_tx small.user xs in
      let counts = count_passes_iff let_preprocess b.tx_count small.count xs in
      let ecos = ecosys_passes_iff let_preprocess limit small_eco xs limits in
      rw preprocess_runs (
        λ e. (
          sizes.0 (ground arith),
          users.0 (ground arith),
          counts.0 (ground arith),
          ecos.0 (ground arith),
        ),
        λ w. simp (sizes.1 w.0, users.1 w.1, counts.1 w.2, ecos.1 w.3),
      )
