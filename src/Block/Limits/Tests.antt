-- ===== src/Block/Limits/Tests.antt =====
-- Runs of the limiters at concrete inputs.
use go_apla.Prelude.{
  ℕ, ◌≤◌, true, false, none, some, List, [], ◌∷◌, ◌≡◌, ◌≢◌, ◌↔◌, refl, arith, length,
}
use go_apla.Prelude.Int.{ℤ, pos, negsuc, ◌+ℤ◌, wrap64}
use go_apla.Prelude.Eq.{lookup, insert}
use go_apla.Block.Limits.{
  Env, Transaction, TxMaxSize, Limiter, max_size, user_limit, Limits, missing, limit_skip,
  limit_stop, let_preprocess, new_limits, check_limit, check_each, check, max_size_check,
  user_limit_check, max_limit_check, user_ecosys_check, max_fuel_check, ecosys_limit,
}
use go_apla.Block.Limits.Runs.{Seen, block_passes, passes}
use go_apla.Block.Limits.Sizes.{WithinSum, fuel_of}
use go_apla.Block.Limits.Users.{sent, cap}
use go_apla.Block.Limits.Ecosystems.{sent_to}
use go_apla.Block.Limits.Accept.{Bounds, syspar, parsing_accepts_iff, preprocess_accepts_iff}
use go_apla.Block.Limits.Errors.{check_limit_parsing}

abbrev bounds : Bounds
bounds = record {
  tx_count = 2;
  generation_time = 2000;
  user_tx = 1;
  block_size = 100;
  tx_size = 60;
  block_fuel = 1000;
  tx_fuel = 600;
}

abbrev here : Env
here = record { now = pos 5; sys = syspar bounds; state_param = λ _. missing }

abbrev tx : ℕ → ℤ → Transaction
tx size key = record { size = size; key_id = key; ecosystem_id = pos 1; tx_fuel = pos 400 }

abbrev two : List Seen
two = (here, tx 50 (pos 7)) ∷ (here, tx 50 (negsuc 7)) ∷ []

parsing_accepts_iff_example : (block_passes (new_limits here (some false)) two ≡ true) ↔ (
    WithinSum (λ t. t.size) 60 100 two
    × ((key : ℤ) → sent key two ≤ cap 1)
    × (length two ≤ 2)
    × ((eco key : ℤ) → sent_to eco key two ≤ cap 1)
    × WithinSum fuel_of 600 1000 two)
unfolding ecosys_limit
parsing_accepts_iff_example =
    parsing_accepts_iff here bounds two refl (λ _. 1) (omega arith) (λ _. omega arith) (omega arith)
      (refl, (refl, tt))

preprocess_accepts_iff_example : (block_passes (new_limits here none) two ≡ true) ↔ (
    WithinSum (λ t. t.size) 60 100 two
    × ((key : ℤ) → sent key two ≤ cap 1)
    × (length two ≤ 2)
    × ((eco key : ℤ) → sent_to eco key two ≤ cap 1))
unfolding ecosys_limit
preprocess_accepts_iff_example =
    preprocess_accepts_iff here bounds two refl (λ _. 1) (omega arith) (λ _. omega arith)
      (refl, (refl, tt))

-- Both transactions pass; a third from the same user would be refused.
two_pass : block_passes (new_limits here (some false)) two ≡ true
unfolding passes check_limit check_each check new_limits max_size_check user_limit_check
    max_limit_check user_ecosys_check max_fuel_check wrap64 ◌+ℤ◌ lookup insert
two_pass = refl

abbrev third : List Seen
third = (here, tx 20 (pos 7)) ∷ two

third_fails : block_passes (new_limits here (some false)) third ≡ false
unfolding passes check_limit check_each check new_limits max_size_check user_limit_check
    max_limit_check user_ecosys_check max_fuel_check wrap64 ◌+ℤ◌ lookup insert
third_fails = refl

abbrev parsing : Limits
parsing = new_limits here (some false)

check_limit_parsing_example :
    ((check_limit here parsing (tx 70 (pos 7))).0 ≢ some limit_skip)
    × ((check_limit here parsing (tx 70 (pos 7))).0 ≢ some limit_stop)
unfolding new_limits
check_limit_parsing_example = check_limit_parsing here parsing (tx 70 (pos 7)) refl

-- A block of 40 bytes so far, and a user that has sent as many transactions as it may.
abbrev forty : TxMaxSize
forty = record { size = pos 40; limit_block = pos 100; limit_tx = pos 60 }

abbrev spent : List Limiter
spent = user_limit (record { tx_users = (pos 7, pos 1) ∷ []; limit = pos 1 }) ∷ []

abbrev collecting : Limits
collecting = record { mode = let_preprocess; limiters = max_size forty ∷ spent }
