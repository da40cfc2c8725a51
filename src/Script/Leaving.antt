-- ===== src/Script/Leaving.antt =====
-- What is on the stack after a block (the end of RunCode, packages/script/vm.go).
use go_apla.Prelude.{
  take-set, drop-set, element, take-suc, ℕ, zero, suc, ◌+◌, ◌-◌, ◌<◌, ◌≤◌, true, false, Option,
  none, some, List, [], ◌∷◌, ◌++◌, ◌≡◌, refl, sym, ap, ◌∙◌, arith, length, length-set, take, drop,
  set, get_elem?, ltb, if_true, if_false, append_assoc,
}
use go_apla.Script.Value.{Numbers, Val, Err}
use go_apla.Script.Exec.{Outcome, done, continue, pure, or_panic, panic, panicked, ◌>>=◌, ◌>>◌}
use go_apla.Script.Runtime.{FuncInfo, State, Machine}
use go_apla.Script.Calls.{cut_stack, stack_diff, stack_at}
use go_apla.Script.Vm.{normal, returned, continued, broken, Ended, ended, erred}
use go_apla.Script.Memory.{from_bottom}
use go_apla.Script.Run.{write_bottom, copy_results, end_block}

no_less : (a b : ℕ) → b ≤ a → ltb a b ≡ false
no_less a b h = ground arith

less : (a b : ℕ) → a < b → ltb a b ≡ true
less a b h = ground arith

module _ {A : Type 0} where
  -- What one write adds to the upper values.
  shifted :
      (c start : ℕ) (xs : List A) (v : A)
      → get_elem? xs c ≡ some v
      → start + suc c ≤ length xs
      → take c (set xs (length xs - 1 - start) v)
          ++ drop (length xs - suc start) (set xs (length xs - 1 - start) v)
        ≡ take (suc c) xs ++ drop (length xs - start) xs
  shifted c start xs v e h =
      ap (λ r. r ++ drop (length xs - suc start) (set xs (length xs - 1 - start) v))
        (take-set c (length xs - 1 - start) xs v (omega (arith, h)))
      ∙ ap (λ n. take c xs ++ drop n (set xs (length xs - 1 - start) v)) {y = length xs - 1 - start}
          (omega arith)
      ∙ ap (λ r. take c xs ++ r) (drop-set (length xs - 1 - start) xs v (omega (arith, h)))
      ∙ ap (λ n. take c xs ++ v ∷ drop n xs) {x = suc (length xs - 1 - start)}
          {y = length xs - start} (omega (arith, h))
      ∙ sym (append_assoc (take c xs) (v ∷ []) (drop (length xs - start) xs))
      ∙ ap (λ r. r ++ drop (length xs - start) xs) (sym (take-suc c xs v e))

  from_top :
      (c : ℕ) (xs : List A) (v : A)
      → get_elem? xs c ≡ some v
      → c < length xs
      → get_elem? xs (length xs - 1 - (length xs - suc c)) ≡ some v
  from_top c xs v e h = ap (get_elem? xs) {y = c} (omega (arith, h)) ∙ e

module _ ⦃num : Numbers⦄ where
  -- The upper values, above the values that a block found.
  abbrev pub kept_above : ℕ → ℕ → List Val → List Val
  kept_above count start xs = take count xs ++ drop (length xs - start) xs

  abbrev with_stack_of : State → List Val → State
  with_stack_of s xs = record s { stack = xs }

  cut_lem :
      (n : ℕ) (s : State)
      → n ≤ length s.stack
      → cut_stack n s ≡ (done tt, with_stack_of s (drop (length s.stack - n) s.stack))
  unfolding cut_stack
  cut_lem n s h = if_false (Outcome.resliced, s) (no_less (length s.stack) n h)

module _ ⦃num : Numbers⦄ (m : Machine) where
  top_read :
      (c : ℕ) (s : State) (v : Val)
      → get_elem? s.stack c ≡ some v
      → c < length s.stack
      → stack_diff m (length s.stack) (suc c) s ≡ (done v, s)
  unfolding stack_diff stack_at from_bottom
  top_read c s v e h =
      ap (λ k. k s) (if_false panic (no_less (length s.stack) (suc c) (omega (arith, h))))
      ∙ ap (λ o. or_panic o s)
          (if_true none (less (length s.stack - suc c) (length s.stack) (omega (arith, h)))
            ∙ from_top c s.stack v e h)

  write_lem :
      (i : ℕ) (v : Val) (s : State)
      → i < length s.stack
      → write_bottom m i v s ≡ (done tt, with_stack_of s (set s.stack (length s.stack - 1 - i) v))
  unfolding write_bottom
  write_lem i v s h = if_true (panicked, s) (less i (length s.stack) h)

  Copies : ℕ → ℕ → State → Type 0
  Copies count start s =
      (ys : List Val) × (copy_results m count start s ≡ (done (start + count), with_stack_of s ys))
      × (length ys ≡ length s.stack)
      × (drop (length s.stack - (start + count)) ys ≡ kept_above count start s.stack)

  copy_step :
      (count start : ℕ) (s : State) (v : Val)
      → get_elem? s.stack count ≡ some v
      → start + suc count ≤ length s.stack
      → Copies count (suc start) (with_stack_of s (set s.stack (length s.stack - 1 - start) v))
      → Copies (suc count) start s
  unfolding copy_results Copies ◌>>=◌ ◌>>◌
  copy_step count start s v e h (ys, run, size, upper) = (
    ys,
    ap (λ r. continue r.0 (λ w. write_bottom m start w >> copy_results m count (suc start)) r.1)
          (top_read count s v e (omega (arith, h)))
        ∙ ap (λ r. continue r.0 (λ _. copy_results m count (suc start)) r.1)
            (write_lem start v s (omega (arith, h)))
        ∙ run
        ∙ ap (λ n. (done n, with_stack_of s ys)) {x = suc start + count} {y = start + suc count}
            (omega arith),
    size ∙ length-set s.stack (length s.stack - 1 - start) v,
    ap (λ n. drop n ys) {x = length s.stack - (start + suc count)}
          {y = length (set s.stack (length s.stack - 1 - start) v) - (suc start + count)}
          (omega (arith, length-set s.stack (length s.stack - 1 - start) v))
        ∙ upper
        ∙ ap
            (λ n.
              take count (set s.stack (length s.stack - 1 - start) v)
              ++ drop (n - suc start) (set s.stack (length s.stack - 1 - start) v))
            (length-set s.stack (length s.stack - 1 - start) v)
        ∙ shifted count start s.stack v e h,
  )

  copies : (count start : ℕ) (s : State) → start + count ≤ length s.stack → Copies count start s
  unfolding Copies copy_results
  copies zero start s h = (
    s.stack,
    ap (λ n. (done n, s)) {y = start + 0} (omega arith),
    refl,
    ap (λ n. drop n s.stack) {y = length s.stack - start} (omega arith),
  )
  copies (suc count) start s h =
      let (v, e) = element count s.stack (omega (arith, h)) in
      copy_step count start s v e h (
        copies count (suc start) (with_stack_of s (set s.stack (length s.stack - 1 - start) v))
          (omega (arith, h, length-set s.stack (length s.stack - 1 - start) v)))

  -- The results that are moved down at the end of a block.
  abbrev pub moved : Option FuncInfo → Ended Err → ℕ
  moved (some info) (ended returned) = info.results
  moved _ _ = 0

  -- What a block hands on: a return ends at the function.
  abbrev pub handed_on : Option FuncInfo → Ended Err → Ended Err
  handed_on (some info) (ended returned) = ended normal
  handed_on _ e = e

  -- The stack that a block leaves, its top first.
  abbrev pub left_stack : Option FuncInfo → ℕ → Ended Err → List Val → List Val
  left_stack (some info) start (ended returned) xs = kept_above info.results start xs
  left_stack none start (ended returned) xs = xs
  left_stack _ start _ xs = drop (length xs - start) xs

  cut_then :
      (n : ℕ) (s : State) (e : Ended Err)
      → n ≤ length s.stack
      → (cut_stack n >> pure e) s ≡ (done e, with_stack_of s (drop (length s.stack - n) s.stack))
  unfolding ◌>>=◌ ◌>>◌
  cut_then n s e h = ap (λ r. continue r.0 (λ _. pure e) r.1) (cut_lem n s h)

  returned-stack :
      (info : FuncInfo) (start : ℕ) (s : State)
      → start + info.results ≤ length s.stack
      → Copies info.results start s
      → end_block m (some info) start (ended returned) s
        ≡ (done (ended normal), with_stack_of s (kept_above info.results start s.stack))
  unfolding end_block Copies ◌>>=◌
  returned-stack info start s h (ys, run, size, upper) =
      ap (λ r. continue r.0 (λ start'. cut_stack start' >> pure (ended normal)) r.1) run
      ∙ cut_then (start + info.results) (with_stack_of s ys) (ended normal) (omega (arith, h, size))
      ∙ ap (λ n. (done (ended normal), with_stack_of s (drop (n - (start + info.results)) ys))) size
      ∙ ap (λ xs. (done (ended normal), with_stack_of s xs)) upper

  -- Where the stack holds the values that a block found and the results that the function is to
  -- return besides, the end of the block is no panic. A function that returns ends normally and leaves
  -- its results, the upper values in their order, on the values that it found; another block that
  -- returns hands that on and leaves all values; any other end is handed on and leaves the values that
  -- the block found. Nothing else of the state changes.
  pub end_block-stack :
      (o : Option FuncInfo) (start : ℕ) (e : Ended Err) (s : State)
      → start + moved o e ≤ length s.stack
      → end_block m o start e s
        ≡ (done (handed_on o e), record s { stack = left_stack o start e s.stack })
  unfolding end_block
  end_block-stack (some info) start (ended returned) s h =
      returned-stack info start s h (copies info.results start s h)
  end_block-stack none start (ended returned) s h = refl
  end_block-stack (some info) start (ended normal) s h =
      cut_then start s (ended normal) (omega (arith, h))
  end_block-stack (some info) start (ended continued) s h =
      cut_then start s (ended continued) (omega (arith, h))
  end_block-stack (some info) start (ended broken) s h =
      cut_then start s (ended broken) (omega (arith, h))
  end_block-stack (some info) start (erred x) s h = cut_then start s (erred x) (omega (arith, h))
  end_block-stack none start (ended normal) s h = cut_then start s (ended normal) (omega (arith, h))
  end_block-stack none start (ended continued) s h =
      cut_then start s (ended continued) (omega (arith, h))
  end_block-stack none start (ended broken) s h = cut_then start s (ended broken) (omega (arith, h))
  end_block-stack none start (erred x) s h = cut_then start s (erred x) (omega (arith, h))
