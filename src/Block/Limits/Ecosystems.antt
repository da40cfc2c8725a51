-- ===== src/Block/Limits/Ecosystems.antt =====
-- The limit on the number of transactions of one user in one ecosystem.
use native.Mathlib.Decide.{dec_le}
use go_apla.Prelude.{
  ℕ, ◌+◌, ◌^◌, ◌≤◌, ◌<◌, true, ◌&&◌, Option, none, some, List, [], ◌∷◌, ◌≡◌, ◌≢◌, ◌↔◌, refl, arith,
  if◌then◌else◌, Bool-cases, Option-cases, inl, inr,
}
use go_apla.Prelude.Int.{ℤ, pos, pos_part, ◌==ℤ◌}
use go_apla.Prelude.Eq.{int_eq, ==ℤ_iff, lookup, insert, lookup-insert}
use go_apla.Block.Limits.{
  LimitError, EcosysLimit, TxUserEcosysLimit, ecosys_limit, user_ecosys_check,
}
use go_apla.Block.Limits.Runs.{Seen, AllTx, passes, Exact, AllWithin, passes_iff}
use go_apla.Block.Limits.Users.{
  held, IsCounting, cap, bump, held-bump, bump-IsCounting, wrapped_next,
}

abbrev Ecosystems : Type 0
Ecosystems = List (ℤ × EcosysLimit)

-- How many transactions of a run a user has sent to an ecosystem.
abbrev pub sent_to : ℤ → ℤ → List Seen → ℕ
sent_to eco key [] = 0
sent_to eco key ((env, t) ∷ xs) =
    (if t.ecosystem_id ==ℤ eco && t.key_id ==ℤ key then 1 else 0) + sent_to eco key xs

abbrev users : Ecosystems → ℤ → List (ℤ × ℤ)
users m eco = elim (lookup eco m) [ none ↦ [] | some v ↦ v.tx_users ]

abbrev held_in : Ecosystems → ℤ → ℤ → ℕ
held_in m eco key = held (users m eco) key

-- The limits that the database and the system parameters give stay `limit` for the whole run.
abbrev pub HasLimits : (ℤ → ℕ) → Seen → Type 0
HasLimits limit (env, t) = ecosys_limit env t.ecosystem_id ≡ some (pos (limit t.ecosystem_id))

abbrev pub ecosys_step : ℕ → TxUserEcosysLimit → Seen → Option LimitError × TxUserEcosysLimit
ecosys_step mode bl (env, t) = user_ecosys_check env bl t mode

abbrev pub ecosys_state : Ecosystems → TxUserEcosysLimit
ecosys_state m = record { tx_ecosys = m }

module _ (mode : ℕ) (limit : ℤ → ℕ) (small : (eco : ℤ) → limit eco + 1 < 2 ^ 63) where
  -- One more transaction of a user in an ecosystem.
  abbrev bump_in : Ecosystems → ℤ → ℤ → Ecosystems
  bump_in m eco key =
      insert eco (record { tx_users = bump (users m eco) key; limit = pos (limit eco) }) m

  abbrev IsFor : ℤ → EcosysLimit → Type 0
  IsFor eco v = (v.limit ≡ pos (limit eco)) × IsCounting v.tx_users

  abbrev IsWithinCaps : Ecosystems → Type 0
  IsWithinCaps m =
      ((eco : ℤ) (v : EcosysLimit) → lookup eco m ≡ some v → IsFor eco v)
      × ((eco key : ℤ) → held_in m eco key ≤ cap (limit eco))

  users-IsCounting : (m : Ecosystems) (eco : ℤ) → IsWithinCaps m → IsCounting (users m eco)
  unfolding lookup
  users-IsCounting m eco g = elim (Option-cases (lookup eco m)) [
    | inl e ↦ λ key v. ground arith
    | inr (w, e) ↦ λ key v. ground (arith, (g.0 eco w e).1 key v)
  ]

  ecosys_accepts :
      (m : Ecosystems) (x : Seen)
      → HasLimits limit x
      → IsWithinCaps m
      → held_in m x.1.ecosystem_id x.1.key_id + 1 ≤ cap (limit x.1.ecosystem_id)
      → ecosys_step mode (ecosys_state m) x
        ≡ (none, ecosys_state (bump_in m x.1.ecosystem_id x.1.key_id))
  unfolding user_ecosys_check lookup insert
  ecosys_accepts m (env, t) l g h = elim (Option-cases (lookup t.ecosystem_id m)) [
    | inl e ↦ ground arith
    | inr (w, e) ↦ elim (Option-cases (lookup t.key_id w.tx_users)) [
      | inl e' ↦ ground (arith, (g.0 t.ecosystem_id w e).0)
      | inr (v, e') ↦ ground (
        arith,
        (g.0 t.ecosystem_id w e).0,
        (g.0 t.ecosystem_id w e).1 t.key_id v e',
        wrapped_next (pos_part v),
        small t.ecosystem_id,
      )
    ]
  ]

  ecosys_refuses :
      (m : Ecosystems) (x : Seen)
      → HasLimits limit x
      → IsWithinCaps m
      → ¬ (held_in m x.1.ecosystem_id x.1.key_id + 1 ≤ cap (limit x.1.ecosystem_id))
      → (ecosys_step mode (ecosys_state m) x).0 ≢ none
  unfolding user_ecosys_check lookup
  ecosys_refuses m (env, t) l g h = elim (Option-cases (lookup t.ecosystem_id m)) [
    | inl e ↦ absurd (h (ground arith))
    | inr (w, e) ↦ elim (Option-cases (lookup t.key_id w.tx_users)) [
      | inl e' ↦ absurd (h (ground arith))
      | inr (v, e') ↦ ground (
        arith,
        (g.0 t.ecosystem_id w e).0,
        (g.0 t.ecosystem_id w e).1 t.key_id v e',
        g.1 t.ecosystem_id t.key_id,
        wrapped_next (pos_part v),
        small t.ecosystem_id,
      )
    ]
  ]

  held-bump_in :
      (m : Ecosystems) (eco key j i : ℤ)
      → held_in (bump_in m eco key) j i ≡ (if eco ==ℤ j && key ==ℤ i then 1 else 0) + held_in m j i
  held-bump_in m eco key j i = ground (
    arith,
    lookup-insert eco j (record { tx_users = bump (users m eco) key; limit = pos (limit eco) }) m,
    ==ℤ_iff eco j,
    held-bump (users m eco) key i,
  )

  bump_in-IsWithinCaps :
      (m : Ecosystems) (eco key : ℤ)
      → IsWithinCaps m
      → held_in m eco key + 1 ≤ cap (limit eco)
      → IsWithinCaps (bump_in m eco key)
  bump_in-IsWithinCaps m eco key g h =
      let new : EcosysLimit = record {
        tx_users = bump (users m eco) key;
        limit = pos (limit eco);
      } in
      (
        λ j v e. elim (Bool-cases (eco ==ℤ j)) [
          | inl same ↦
              let val : new ≡ v = ground (arith, lookup-insert eco j new m) in
              rw (← (==ℤ_iff eco j).0 same, ← val)
                (refl, bump-IsCounting (users m eco) key (users-IsCounting m eco g))
          | inr other ↦ g.0 j v (ground (arith, lookup-insert eco j new m))
        ],
        λ j i. ground (arith, held-bump_in m eco key j i, g.1 j i, ==ℤ_iff eco j, ==ℤ_iff key i),
      )

  abbrev ecosys_exact : Exact (ecosys_step mode) ecosys_state
  ecosys_exact = record {
    Legal = HasLimits limit;
    Good = IsWithinCaps;
    Within = λ m x. held_in m x.1.ecosystem_id x.1.key_id + 1 ≤ cap (limit x.1.ecosystem_id);
    after = λ m x. bump_in m x.1.ecosystem_id x.1.key_id;
    decide =
        λ m x. dec_le (held_in m x.1.ecosystem_id x.1.key_id + 1) (cap (limit x.1.ecosystem_id));
    accepts = λ m x l g h.
        (ecosys_accepts m x l g h, bump_in-IsWithinCaps m x.1.ecosystem_id x.1.key_id g h);
    refuses = ecosys_refuses;
  }

  abbrev AreSent : Ecosystems → List Seen → Type 0
  AreSent m xs = (eco key : ℤ) → held_in m eco key + sent_to eco key xs ≤ cap (limit eco)

  ecosys_within :
      (m : Ecosystems) (xs : List Seen)
      → IsWithinCaps m
      → AllWithin ecosys_exact m xs ↔ AreSent m xs
  ecosys_within m [] g = (λ _ eco key. omega (arith, g.1 eco key), λ _. tt)
  ecosys_within m ((env, t) ∷ xs) g = (
    λ k eco key.
        let good = bump_in-IsWithinCaps m t.ecosystem_id t.key_id g k.0 in
        omega (
          arith,
          (ecosys_within (bump_in m t.ecosystem_id t.key_id) xs good).0 k.1 eco key,
          held-bump_in m t.ecosystem_id t.key_id eco key,
        ),
    λ k.
        let first : held_in m t.ecosystem_id t.key_id + 1 ≤ cap (limit t.ecosystem_id) = ground (
          arith,
          k t.ecosystem_id t.key_id,
          ==ℤ_iff t.ecosystem_id t.ecosystem_id,
          ==ℤ_iff t.key_id t.key_id,
        ) in
        let good = bump_in-IsWithinCaps m t.ecosystem_id t.key_id g first in
        (
          first,
          (ecosys_within (bump_in m t.ecosystem_id t.key_id) xs good).1
              (λ eco key. omega (arith, k eco key, held-bump_in m t.ecosystem_id t.key_id eco key)),
        ),
  )

  pub ecosys_passes_iff :
      (xs : List Seen)
      → AllTx (HasLimits limit) xs
      → (passes (ecosys_step mode) (ecosys_state []) xs ≡ true)
        ↔ ((eco key : ℤ) → sent_to eco key xs ≤ cap (limit eco))
  unfolding lookup
  ecosys_passes_iff xs l =
      let good : IsWithinCaps [] = (λ eco v e. absurd (ground arith), λ eco key. omega arith) in
      let (sound, complete) = passes_iff ecosys_exact [] xs l good in
      let (to, from) = ecosys_within [] xs good in
      (
        λ r eco key. omega (arith, to (sound r) eco key),
        λ h. complete (from (λ eco key. omega (arith, h eco key))),
      )
