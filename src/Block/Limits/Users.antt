-- ===== src/Block/Limits/Users.antt =====
-- The limits on the number of transactions of one user, in a block and in an ecosystem.
use native.Mathlib.Decide.{dec_le}
use go_apla.Prelude.{
  ℕ, ◌+◌, ◌^◌, ◌≤◌, ◌<◌, max, true, Option, none, some, List, [], ◌∷◌, ◌≡◌, ◌≢◌, ◌↔◌, arith,
  if◌then◌else◌, Option-cases, inl, inr,
}
use go_apla.Prelude.Int.{ℤ, pos, pos_part, ◌+ℤ◌, wrap64, ◌==ℤ◌}
use go_apla.Prelude.Eq.{int_eq, ==ℤ_iff, lookup, insert, lookup-insert}
use go_apla.Block.Limits.{LimitError, TxUserLimit, user_limit_check}
use go_apla.Block.Limits.Runs.{Seen, passes, Exact, AllWithin, passes_iff}
use go_apla.Block.Limits.Sizes.{AllTx-Unit}

-- How many transactions of a run a user has sent.
abbrev pub sent : ℤ → List Seen → ℕ
sent key [] = 0
sent key ((env, t) ∷ xs) = (if t.key_id ==ℤ key then 1 else 0) + sent key xs

-- What the map says that a user has sent; a missing key stands for 0.
abbrev pub held : List (ℤ × ℤ) → ℤ → ℕ
held m key = elim (lookup key m) [ none ↦ 0 | some v ↦ pos_part v ]

-- The counters of a map are positive integers.
abbrev pub IsCounting : List (ℤ × ℤ) → Type 0
IsCounting m = (key v : ℤ) → lookup key m ≡ some v → (v ≡ pos (pos_part v)) × (0 < pos_part v)

-- The first transaction of a user is accepted whatever the limit.
abbrev pub cap : ℕ → ℕ
cap limit = max limit 1

-- One more transaction of `key` in the map.
abbrev pub bump : List (ℤ × ℤ) → ℤ → List (ℤ × ℤ)
bump m key = insert key (pos (held m key + 1)) m

pub held-bump :
    (m : List (ℤ × ℤ)) (key j : ℤ) → held (bump m key) j ≡ (if key ==ℤ j then 1 else 0) + held m j
held-bump m key j = ground (arith, lookup-insert key j (pos (held m key + 1)) m, ==ℤ_iff key j)

pub bump-IsCounting : (m : List (ℤ × ℤ)) (key : ℤ) → IsCounting m → IsCounting (bump m key)
bump-IsCounting m key h j v = ground (arith, lookup-insert key j (pos (held m key + 1)) m, h j v)

abbrev pub user_step : ℕ → TxUserLimit → Seen → Option LimitError × TxUserLimit
user_step mode bl (env, t) = user_limit_check bl t mode

abbrev pub user_state : ℕ → List (ℤ × ℤ) → TxUserLimit
user_state limit m = record { tx_users = m; limit = pos limit }

pub wrapped_next : (n : ℕ) → n + 1 < 2 ^ 63 → wrap64 (pos n +ℤ pos 1) ≡ pos (n + 1)
unfolding wrap64 ◌+ℤ◌
wrapped_next n h = ground arith

module _ (mode limit : ℕ) (small : limit + 1 < 2 ^ 63) where
  user_accepts :
      (m : List (ℤ × ℤ)) (x : Seen)
      → IsCounting m
      → held m x.1.key_id + 1 ≤ cap limit
      → user_step mode (user_state limit m) x ≡ (none, user_state limit (bump m x.1.key_id))
  unfolding user_limit_check
  user_accepts m (env, t) c h = elim (Option-cases (lookup t.key_id m)) [
    | inl e ↦ ground arith
    | inr (v, e) ↦ ground (arith, c t.key_id v e, wrapped_next (pos_part v))
  ]

  user_refuses :
      (m : List (ℤ × ℤ)) (x : Seen)
      → IsCounting m
      → ((key : ℤ) → held m key ≤ cap limit)
      → ¬ (held m x.1.key_id + 1 ≤ cap limit)
      → (user_step mode (user_state limit m) x).0 ≢ none
  unfolding user_limit_check
  user_refuses m (env, t) c b h = elim (Option-cases (lookup t.key_id m)) [
    | inl e ↦ absurd (h (ground arith))
    | inr (v, e) ↦ ground (arith, b t.key_id, c t.key_id v e, wrapped_next (pos_part v))
  ]

  -- The maps that a run of accepted transactions leaves.
  abbrev IsWithinCap : List (ℤ × ℤ) → Type 0
  IsWithinCap m = IsCounting m × ((key : ℤ) → held m key ≤ cap limit)

  bump-le-cap :
      (m : List (ℤ × ℤ)) (key : ℤ)
      → ((j : ℤ) → held m j ≤ cap limit)
      → held m key + 1 ≤ cap limit
      → (j : ℤ) → held (bump m key) j ≤ cap limit
  bump-le-cap m key b h j = ground (arith, held-bump m key j, b j, ==ℤ_iff key j)

  abbrev user_exact : Exact (user_step mode) (user_state limit)
  user_exact = record {
    Legal = λ _. Unit {0};
    Good = IsWithinCap;
    Within = λ m x. held m x.1.key_id + 1 ≤ cap limit;
    after = λ m x. bump m x.1.key_id;
    decide = λ m x. dec_le (held m x.1.key_id + 1) (cap limit);
    accepts = λ m x _ g h. (
      user_accepts m x g.0 h,
      (bump-IsCounting m x.1.key_id g.0, bump-le-cap m x.1.key_id g.1 h),
    );
    refuses = λ m x _ g. user_refuses m x g.0 g.1;
  }

  user_within :
      (m : List (ℤ × ℤ)) (xs : List Seen)
      → IsWithinCap m
      → AllWithin user_exact m xs ↔ ((key : ℤ) → held m key + sent key xs ≤ cap limit)
  user_within m [] g = (λ _ key. omega (arith, g.1 key), λ _. tt)
  user_within m ((env, t) ∷ xs) g = (
    λ k key.
        let good : IsWithinCap (bump m t.key_id) =
          (bump-IsCounting m t.key_id g.0, bump-le-cap m t.key_id g.1 k.0) in
        omega (arith, (user_within (bump m t.key_id) xs good).0 k.1 key, held-bump m t.key_id key),
    λ k.
        let first : held m t.key_id + 1 ≤ cap limit =
          ground (arith, k t.key_id, ==ℤ_iff t.key_id t.key_id) in
        let good : IsWithinCap (bump m t.key_id) =
          (bump-IsCounting m t.key_id g.0, bump-le-cap m t.key_id g.1 first) in
        (
          first,
          (user_within (bump m t.key_id) xs good).1
              (λ key. omega (arith, k key, held-bump m t.key_id key)),
        ),
  )

  pub user_passes_iff :
      (xs : List Seen)
      → (passes (user_step mode) (user_state limit []) xs ≡ true)
        ↔ ((key : ℤ) → sent key xs ≤ cap limit)
  unfolding lookup
  user_passes_iff xs =
      let good : IsWithinCap [] = (λ key v e. absurd (ground arith), λ key. omega arith) in
      let (sound, complete) = passes_iff user_exact [] xs (AllTx-Unit xs) good in
      let (to, from) = user_within [] xs good in
      (λ r key. omega (arith, to (sound r) key), λ h. complete (from (λ key. omega (arith, h key))))
