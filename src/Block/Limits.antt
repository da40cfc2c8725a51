-- ===== src/Block/Limits.antt =====
-- packages/block/limits.go: the limiters that a transaction passes before it enters a block.
-- Go's int and int64 are ℤ with the wrap-around written out. What a check reads from outside (the
-- clock, the system parameters, the ecosystem's parameter in the database) is its `Env`. An error is
-- an `Option LimitError`, with `none` for nil; a limiter is its new state beside it.
pub mod Runs
pub mod Sizes
pub mod Users
pub mod Ecosystems
pub mod Accept
pub mod Errors
pub mod Tests
use Prim.Native.Nat.{bit_and}
use go_apla.Prelude.{
  ℕ, ◌+◌, Bool, true, false, Option, none, some, List, [], ◌∷◌, ◌==◌, if◌then◌else◌,
}
use go_apla.Prelude.Int.{ℤ, pos, ◌+ℤ◌, ◌-ℤ◌, ◌*ℤ◌, ltb_ℤ, wrap64}
use go_apla.Prelude.Eq.{int_eq, lookup, insert}

abbrev pub let_preprocess : ℕ
let_preprocess = 1

abbrev pub let_gen_block : ℕ
let_gen_block = 2

abbrev pub let_parsing : ℕ
let_parsing = 4

-- The fields of a transaction that the limiters read; `size` is `len(t.TxFullData)`.
pub record Transaction : Type 0 where
  pub size : ℕ
  pub key_id : ℤ
  pub ecosystem_id : ℤ
  pub tx_fuel : ℤ

-- The result of `sp.Get(…, "max_tx_block_per_user")` with the value that `StrToInt` reads.
pub data ParamResult : Type 0 where
  db_error missing : ParamResult
  found : ℤ → ParamResult

pub record Syspar : Type 0 where
  pub max_tx_count : ℤ
  pub max_block_generation_time : ℤ
  pub max_block_user_tx : ℤ
  pub max_block_size : ℤ
  pub max_tx_size : ℤ
  pub max_block_fuel : ℤ
  pub max_tx_fuel : ℤ

pub record Env : Type 0 where
  pub now : ℤ
  pub sys : Syspar
  pub state_param : ℤ → ParamResult

-- The limit that a `limitError` names.
pub data Reason : Type 0 where
  max_tx block_time max_size_tx max_size_block max_fuel_tx max_fuel_block param_error : Reason
  user : ℤ → Reason
  ecosys_user : ℤ → ℤ → Reason

pub data LimitError : Type 0 where
  limit_skip limit_stop : LimitError
  limit_error : Reason → LimitError

-- Checking the max tx in the block
pub record TxMaxLimit : Type 0 where
  pub count : ℤ
  pub limit : ℤ

pub max_limit_init : Syspar → TxMaxLimit
max_limit_init sys = record { count = pos 0; limit = sys.max_tx_count }

pub max_limit_check : TxMaxLimit → ℕ → Option LimitError × TxMaxLimit
max_limit_check bl mode =
    let bl' : TxMaxLimit = record bl { count = wrap64 (bl.count +ℤ pos 1) } in
    if ltb_ℤ bl'.limit bl'.count
    then (if mode == let_preprocess
        then (some limit_stop, bl')
        else (some (limit_error max_tx), bl'))
    else (none, bl')

-- Checking the time of the start of generating block, in nanoseconds
pub record TimeBlockLimit : Type 0 where
  pub start : ℤ
  pub limit : ℤ

pub time_block_init : Env → TimeBlockLimit
time_block_init env = record {
  start = env.now;
  limit = wrap64 (pos 1_000_000 *ℤ env.sys.max_block_generation_time);
}

pub time_block_check : Env → TimeBlockLimit → ℕ → Option LimitError × TimeBlockLimit
time_block_check env bl mode =
    if ltb_ℤ (env.now -ℤ bl.start) bl.limit
    then (none, bl)
    else if mode == let_gen_block
    then (some limit_stop, bl)
    else (some (limit_error block_time), bl)

-- Checking the max tx from one user in the block
pub record TxUserLimit : Type 0 where
  pub tx_users : List (ℤ × ℤ)
  pub limit : ℤ

pub user_limit_init : Syspar → TxUserLimit
user_limit_init sys = record { tx_users = []; limit = sys.max_block_user_tx }

-- The test runs only where the map has the key; a missing key counts from 0.
pub user_limit_check : TxUserLimit → Transaction → ℕ → Option LimitError × TxUserLimit
user_limit_check bl t mode = elim (lookup t.key_id bl.tx_users) [
  | none ↦ (none, record bl { tx_users = insert t.key_id (pos 1) bl.tx_users })
  | some count ↦
      if ltb_ℤ bl.limit (wrap64 (count +ℤ pos 1))
      then (if mode == let_preprocess
          then (some limit_skip, bl)
          else (some (limit_error (user t.key_id)), bl))
      else (none, record bl { tx_users = insert t.key_id (wrap64 (count +ℤ pos 1)) bl.tx_users })
]

-- Checking the max tx from one user in the ecosystem contracts
pub record EcosysLimit : Type 0 where
  pub tx_users : List (ℤ × ℤ)
  pub limit : ℤ

pub record TxUserEcosysLimit : Type 0 where
  pub tx_ecosys : List (ℤ × EcosysLimit)

pub user_ecosys_init : TxUserEcosysLimit
user_ecosys_init = record { tx_ecosys = [] }

-- `bl.TxEcosys[ecosystemID].TxUsers[keyID] = n`
pub put_user : ℤ → ℤ → EcosysLimit → ℤ → TxUserEcosysLimit → TxUserEcosysLimit
put_user eco key val n bl = record {
  tx_ecosys = insert eco (record val { tx_users = insert key n val.tx_users }) bl.tx_ecosys;
}

-- The branch of an ecosystem that has been seen in the block.
pub known_ecosys :
    TxUserEcosysLimit → Transaction → ℕ → EcosysLimit → Option LimitError × TxUserEcosysLimit
unfolding put_user
known_ecosys bl t mode val = elim (lookup t.key_id val.tx_users) [
  | none ↦ (none, put_user t.ecosystem_id t.key_id val (pos 1) bl)
  | some n ↦
      if ltb_ℤ val.limit (wrap64 (n +ℤ pos 1))
      then (if mode == let_preprocess
          then (some limit_skip, bl)
          else (some (limit_error (ecosys_user t.key_id t.ecosystem_id)), bl))
      else (none, put_user t.ecosystem_id t.key_id val (wrap64 (n +ℤ pos 1)) bl)
]

-- The limit that a new ecosystem gets; `none` is the database error.
pub ecosys_limit : Env → ℤ → Option ℤ
ecosys_limit env eco = elim (env.state_param eco) [
  | db_error ↦ none
  | missing ↦ some env.sys.max_block_user_tx
  | found n ↦ some n
]

pub user_ecosys_check :
    Env → TxUserEcosysLimit → Transaction → ℕ → Option LimitError × TxUserEcosysLimit
unfolding known_ecosys ecosys_limit put_user
user_ecosys_check env bl t mode = elim (lookup t.ecosystem_id bl.tx_ecosys) [
  | some val ↦ known_ecosys bl t mode val
  | none ↦ elim (ecosys_limit env t.ecosystem_id) [
    | none ↦ (some (limit_error param_error), bl)
    | some n ↦
        (none, put_user t.ecosystem_id t.key_id (record { tx_users = []; limit = n }) (pos 1) bl)
  ]
]

-- Checking the max tx & block size
pub record TxMaxSize : Type 0 where
  pub size : ℤ
  pub limit_block : ℤ
  pub limit_tx : ℤ

pub max_size_init : Syspar → TxMaxSize
max_size_init sys = record {
  size = pos 0;
  limit_block = sys.max_block_size;
  limit_tx = sys.max_tx_size;
}

pub max_size_check : TxMaxSize → Transaction → ℕ → Option LimitError × TxMaxSize
max_size_check bl t mode =
    let bl' : TxMaxSize = record bl { size = wrap64 (bl.size +ℤ pos t.size) } in
    if ltb_ℤ bl.limit_tx (pos t.size)
    then (some (limit_error max_size_tx), bl)
    else if ltb_ℤ bl'.limit_block bl'.size
    then (if mode == let_preprocess
        then (some limit_stop, bl')
        else (some (limit_error max_size_block), bl'))
    else (none, bl')

-- Checking the max tx & block fuel
pub record TxMaxFuel : Type 0 where
  pub fuel : ℤ
  pub limit_block : ℤ
  pub limit_tx : ℤ

pub max_fuel_init : Syspar → TxMaxFuel
max_fuel_init sys = record {
  fuel = pos 0;
  limit_block = sys.max_block_fuel;
  limit_tx = sys.max_tx_fuel;
}

pub max_fuel_check : TxMaxFuel → Transaction → ℕ → Option LimitError × TxMaxFuel
max_fuel_check bl t mode =
    let bl' : TxMaxFuel = record bl { fuel = wrap64 (bl.fuel +ℤ t.tx_fuel) } in
    if ltb_ℤ bl.limit_tx t.tx_fuel
    then (some (limit_error max_fuel_tx), bl)
    else if ltb_ℤ bl'.limit_block bl'.fuel
    then (if mode == let_gen_block
        then (some limit_stop, bl')
        else (some (limit_error max_fuel_block), bl'))
    else (none, bl')

-- The interface `Limiter`, by the types that implement it.
pub data Limiter : Type 0 where
  max_size : TxMaxSize → Limiter
  user_limit : TxUserLimit → Limiter
  max_limit : TxMaxLimit → Limiter
  user_ecosys : TxUserEcosysLimit → Limiter
  time_block : TimeBlockLimit → Limiter
  max_fuel : TxMaxFuel → Limiter

abbrev pub with_state {ℓ} :
    {S : Type ℓ} → (S → Limiter) → Option LimitError × S → Option LimitError × Limiter
with_state f (err, s) = (err, f s)

pub check : Env → Limiter → Transaction → ℕ → Option LimitError × Limiter
check env (max_size bl) t mode = with_state max_size (max_size_check bl t mode)
check env (user_limit bl) t mode = with_state user_limit (user_limit_check bl t mode)
check env (max_limit bl) t mode = with_state max_limit (max_limit_check bl mode)
check env (user_ecosys bl) t mode = with_state user_ecosys (user_ecosys_check env bl t mode)
check env (time_block bl) t mode = with_state time_block (time_block_check env bl mode)
check env (max_fuel bl) t mode = with_state max_fuel (max_fuel_check bl t mode)

pub record Limits : Type 0 where
  pub mode : ℕ
  pub limiters : List Limiter

-- `none` is the nil block, `some` carries `b.GenBlock`.
pub limits_mode : Option Bool → ℕ
limits_mode none = let_preprocess
limits_mode (some true) = let_gen_block
limits_mode (some false) = let_parsing

pub all_limiters : Env → List (Limiter × ℕ)
unfolding max_size_init user_limit_init max_limit_init user_ecosys_init time_block_init
    max_fuel_init
all_limiters env =
    (max_size (max_size_init env.sys), let_preprocess + let_parsing)
    ∷ (user_limit (user_limit_init env.sys), let_preprocess + let_parsing)
    ∷ (max_limit (max_limit_init env.sys), let_preprocess + let_parsing)
    ∷ (user_ecosys user_ecosys_init, let_preprocess + let_parsing)
    ∷ (time_block (time_block_init env), let_gen_block)
    ∷ (max_fuel (max_fuel_init env.sys), let_gen_block + let_parsing)
    ∷ []

pub in_mode : ℕ → List (Limiter × ℕ) → List Limiter
in_mode mode [] = []
in_mode mode ((limiter, modes) ∷ rest) =
    let kept = in_mode mode rest in if bit_and modes mode == 0 then kept else limiter ∷ kept

pub new_limits : Env → Option Bool → Limits
unfolding limits_mode all_limiters in_mode
new_limits env b = record {
  mode = limits_mode b;
  limiters = in_mode (limits_mode b) (all_limiters env);
}

-- The loop of `CheckLimit`: it ends at the first error, and the limiters before it are changed.
pub check_each : Env → List Limiter → Transaction → ℕ → Option LimitError × List Limiter
check_each env [] t mode = (none, [])
check_each env (bl ∷ rest) t mode =
    let (err, bl') = check env bl t mode in
    let tail = check_each env rest t mode in
    elim err [ some e ↦ (some e, bl' ∷ rest) | none ↦ (tail.0, bl' ∷ tail.1) ]

pub check_limit : Env → Limits → Transaction → Option LimitError × Limits
unfolding check_each check
check_limit env limits t =
    let (err, limiters') = check_each env limits.limiters t limits.mode in
    (err, record limits { limiters = limiters' })
