-- ===== src/Schedule/Turns.antt =====
-- The loop of countBlockTime against the division of time into turns.
use native.Mathlib.Nat.{mod-add-mod, div-eq_of_lt, div-eq-sub-div, mod-eq_of_lt, mod-lt}
use go_apla.Prelude.{
  ℕ, zero, suc, ◌+◌, ◌-◌, ◌*◌, ◌/◌, ◌%◌, ◌≤◌, ◌<◌, true, false, ◌≡◌, refl, sym, ap, ◌∙◌, arith,
  if◌then◌else◌, leb-cases, inl, inr,
}
use go_apla.Prelude.Int.{ℤ, pos, pos_part, ◌+ℤ◌, ltb_ℤ, int_laws, +ℤ_parts, eq_of_parts}
use go_apla.Schedule.{
  Calculator, GenerationState, counted, state_at, ok, err, before_first_block, second,
  block_duration, next_index, in_interval, count_from, count_block_time,
}

-- The position that is `k` turns after the position `i`.
abbrev pub position_after : Calculator → ℕ → ℕ → ℕ
position_after c i k = if ltb_ℤ (pos 0) c.nodes_count then (i + k) % pos_part c.nodes_count else i

IsPosition : Calculator → ℕ → Type 0
IsPosition c i = ltb_ℤ (pos 0) c.nodes_count ≡ true → i < pos_part c.nodes_count

position_now : (c : Calculator) (i : ℕ) → IsPosition c i → i ≡ position_after c i 0
unfolding IsPosition
position_now c i h =
    elim (ltb_ℤ (pos 0) c.nodes_count)
        as (λ b.
          (b ≡ true → i < pos_part c.nodes_count)
          → i ≡ (if b then (i + 0) % pos_part c.nodes_count else i)) [
            | true ↦ λ g.
                sym (mod-eq_of_lt (g refl)) ∙ ap (λ j. j % pos_part c.nodes_count) (omega arith)
            | false ↦ λ g. refl
          ]
      h

position_next :
    (c : Calculator) (i k : ℕ) → position_after c (next_index c i) k ≡ position_after c i (suc k)
unfolding next_index
position_next c i k =
    elim (ltb_ℤ (pos 0) c.nodes_count)
      as (λ b.
        (if b
          then ((if b then (i + 1) % pos_part c.nodes_count else i) + k) % pos_part c.nodes_count
          else (if b then (i + 1) % pos_part c.nodes_count else i))
        ≡ (if b then (i + suc k) % pos_part c.nodes_count else i)) [
          | true ↦
              mod-add-mod (i + 1) (pos_part c.nodes_count) k
              ∙ ap (λ j. j % pos_part c.nodes_count) (omega arith)
          | false ↦ refl
        ]

next_index-IsPosition : (c : Calculator) (i : ℕ) → IsPosition c (next_index c i)
unfolding IsPosition next_index
next_index-IsPosition c i h = rw h (mod-lt (i + 1) (ground (arith, h)))

not_before : (t first : ℤ) (e : ℕ) → t ≡ first +ℤ pos e → ltb_ℤ t first ≡ false
not_before t first e h = ground (arith, h, +ℤ_parts first (pos e))

turns_add : (p k : ℕ) → p + k * p ≡ (k + 1) * p
turns_add p k = omega arith

-- A time of the interval that starts at `start`, or one after it.
inside :
    (t start : ℤ) (d e : ℕ)
    → t ≡ start +ℤ pos e
    → e < d + 1_000_000_000
    → in_interval t start (start +ℤ pos d +ℤ second) ≡ true
unfolding in_interval
inside t start d e h l =
    ground
      (arith, h, +ℤ_parts start (pos e), +ℤ_parts start (pos d), +ℤ_parts (start +ℤ pos d) second)

outside :
    (t start : ℤ) (d e : ℕ)
    → t ≡ start +ℤ pos e
    → d + 1_000_000_000 ≤ e
    → in_interval t start (start +ℤ pos d +ℤ second) ≡ false
unfolding in_interval
outside t start d e h l =
    ground
      (arith, h, +ℤ_parts start (pos e), +ℤ_parts start (pos d), +ℤ_parts (start +ℤ pos d) second)

later : (t start : ℤ) (p e : ℕ) → t ≡ start +ℤ pos e → p ≤ e → t ≡ start +ℤ pos p +ℤ pos (e - p)
later t start p e h l = ground (
  arith,
  h,
  +ℤ_parts start (pos e),
  +ℤ_parts start (pos p),
  +ℤ_parts (start +ℤ pos p) (pos (e - p)),
  eq_of_parts t (start +ℤ pos p +ℤ pos (e - p)),
)

join : (start : ℤ) (d : ℕ) → start +ℤ pos d +ℤ second ≡ start +ℤ pos (d + 1_000_000_000)
join start d = grind int_laws

split : (start : ℤ) (p k : ℕ) → start +ℤ pos p +ℤ pos k ≡ start +ℤ pos (p + k)
split start p k = grind int_laws

none_added : (start : ℤ) → start ≡ start +ℤ pos 0
none_added start = grind int_laws

-- What the loop finds `k` turns of `p` nanoseconds after `start`.
abbrev pub turn_at : Calculator → ℤ → ℕ → ℕ → ℕ → GenerationState
turn_at c start p i k = state_at c (start +ℤ pos (k * p)) (position_after c i k)

same_state : (c : Calculator) (s t : ℤ) (i j : ℕ) → s ≡ t → i ≡ j → state_at c s i ≡ state_at c t j
same_state c s t i j h g = ap (λ r. state_at c r i) h ∙ ap (state_at c t) g

first_turn :
    (c : Calculator) (start : ℤ) (p i k : ℕ)
    → IsPosition c i
    → k ≡ 0
    → state_at c start i ≡ turn_at c start p i k
first_turn c start p i k h g =
    same_state c _ _ i _ (none_added start ∙ ap (λ j. start +ℤ pos j) (ground (arith, g)))
      (position_now c i h ∙ ap (position_after c i) (sym g))

next_turn :
    (c : Calculator) (start b : ℤ) (d i k l : ℕ)
    → b ≡ pos d
    → l ≡ k + 1
    → turn_at c (start +ℤ b +ℤ second) (d + 1_000_000_000) (next_index c i) k
      ≡ turn_at c start (d + 1_000_000_000) i l
next_turn c start b d i k l hd g =
    let p = d + 1_000_000_000 in
    same_state c _ _ _ _
      (ap (λ b'. start +ℤ b' +ℤ second +ℤ pos (k * p)) hd
        ∙ ap (λ s. s +ℤ pos (k * p)) (join start d)
        ∙ split start p (k * p)
        ∙ ap (λ j. start +ℤ pos j) (turns_add p k ∙ ap (λ j. j * p) (sym g)))
      (position_next c i k ∙ ap (position_after c i) (omega (arith, g)))

count_from-turns :
    (fuel : ℕ) (c : Calculator) (d : ℕ) (t start : ℤ) (e i : ℕ)
    → block_duration c ≡ pos d
    → t ≡ start +ℤ pos e
    → e / (d + 1_000_000_000) < fuel
    → IsPosition c i
    → count_from fuel c t start i
      ≡ counted (turn_at c start (d + 1_000_000_000) i (e / (d + 1_000_000_000)))
unfolding count_from
count_from-turns zero c d t start e i hd ht l h = ground (arith, l)
count_from-turns (suc fuel) c d t start e i hd ht l h =
    let p = d + 1_000_000_000 in
    let here = ap (λ b. in_interval t start (start +ℤ b +ℤ second)) hd in
    elim (leb-cases p e) [
      | inl le ↦
          let q = div-eq-sub-div {m = p} {n = e} (omega arith) le in
          rw (here ∙ outside t start d e ht le) (
            count_from-turns fuel c d t (start +ℤ block_duration c +ℤ second) (e - p)
              (next_index c i) hd
              (later t start p e ht le
                ∙ ap (λ s. s +ℤ pos (e - p))
                    (sym (ap (λ b. start +ℤ b +ℤ second) hd ∙ join start d)))
              (omega (arith, q, l)) (next_index-IsPosition c i)
            ∙ ap counted (next_turn c start (block_duration c) d i ((e - p) / p) (e / p) hd q))
      | inr lt ↦
          rw (here ∙ inside t start d e ht lt)
            (ap counted (first_turn c start p i (e / p) h (div-eq_of_lt lt)))
    ]

-- countBlockTime ends at every time, if the fuel is more than the turns since the first block: before
-- the first block it is an error, and at `e` nanoseconds after it the turn is number `e / p`, where `p`
-- is the duration of a block and a second more; the position is that number modulo the count of nodes,
-- or 0 if there are none. The duration is not negative.
pub count_block_time-turns :
    (fuel : ℕ) (c : Calculator) (d : ℕ) (t : ℤ)
    → block_duration c ≡ pos d
    → ((ltb_ℤ t c.first_block_time ≡ true) → count_block_time fuel c t ≡ err before_first_block)
      × ((e : ℕ)
          → t ≡ c.first_block_time +ℤ pos e
          → e / (d + 1_000_000_000) < fuel
          → count_block_time fuel c t
            ≡ ok (
                counted
                  (turn_at c c.first_block_time (d + 1_000_000_000) 0 (e / (d + 1_000_000_000)))))
unfolding count_block_time IsPosition
count_block_time-turns fuel c d t hd = (
  λ h. rw h refl,
  λ e ht l.
      rw (not_before t c.first_block_time e ht) (
        ap ok
          (count_from-turns fuel c d t c.first_block_time e 0 hd ht l (λ h. ground (arith, h)))),
)
