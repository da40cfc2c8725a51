-- ===== src/Block/Limits/Errors.antt =====
-- What `CheckLimit` returns when it refuses a transaction, and what it leaves behind.
use go_apla.Prelude.{Option, some, List, [], ◌∷◌, ◌≡◌, ◌≢◌, arith}
use go_apla.Prelude.Eq.{int_eq}
use go_apla.Block.Limits.{
  Env, Transaction, LimitError, limit_skip, limit_stop, Limiter, max_size, user_limit, max_limit,
  user_ecosys, time_block, max_fuel, Limits, check, check_each, check_limit, let_parsing,
  max_size_check, max_limit_check, user_limit_check, user_ecosys_check, time_block_check,
  max_fuel_check, TxUserEcosysLimit, known_ecosys, EcosysLimit,
}

-- The error ends the block: it is neither `ErrLimitSkip` nor `ErrLimitStop`.
abbrev pub IsFatal : Option LimitError → Type 0
IsFatal e = (e ≢ some limit_skip) × (e ≢ some limit_stop)

known_ecosys-IsFatal :
    (bl : TxUserEcosysLimit) (t : Transaction) (val : EcosysLimit)
    → IsFatal (known_ecosys bl t let_parsing val).0
unfolding known_ecosys
known_ecosys-IsFatal bl t val = (λ e. ground arith, λ e. ground arith)

check-IsFatal :
    (env : Env) (bl : Limiter) (t : Transaction) → IsFatal (check env bl t let_parsing).0
unfolding check
check-IsFatal env (max_size bl) t = unfold max_size_check in (λ e. ground arith, λ e. ground arith)
check-IsFatal env (user_limit bl) t =
    unfold user_limit_check in (λ e. ground arith, λ e. ground arith)
check-IsFatal env (max_limit bl) t =
    unfold max_limit_check in (λ e. ground arith, λ e. ground arith)
check-IsFatal env (user_ecosys bl) t =
    unfold user_ecosys_check in (λ e. ground arith, λ e. ground arith)
check-IsFatal env (time_block bl) t =
    unfold time_block_check in (λ e. ground arith, λ e. ground arith)
check-IsFatal env (max_fuel bl) t = unfold max_fuel_check in (λ e. ground arith, λ e. ground arith)

check_each-IsFatal :
    (env : Env) (limiters : List Limiter) (t : Transaction)
    → IsFatal (check_each env limiters t let_parsing).0
unfolding check_each
check_each-IsFatal env [] t = (λ e. cc, λ e. cc)
check_each-IsFatal env (bl ∷ rest) t =
    let (skip, stop) = check-IsFatal env bl t in
    let (skip', stop') = check_each-IsFatal env rest t in
    (λ e. ground (arith, skip, skip'), λ e. ground (arith, stop, stop'))

-- While a block is parsed, `CheckLimit` never asks to skip a transaction or to stop: whatever the
-- limiters, a refusal is an error that refuses the block.
pub check_limit_parsing :
    (env : Env) (limits : Limits) (t : Transaction)
    → limits.mode ≡ let_parsing
    → ((check_limit env limits t).0 ≢ some limit_skip)
      × ((check_limit env limits t).0 ≢ some limit_stop)
unfolding check_limit
check_limit_parsing env limits t h = rw h (check_each-IsFatal env limits.limiters t)
