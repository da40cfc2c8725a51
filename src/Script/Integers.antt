-- ===== src/Script/Integers.antt =====
-- The arithmetic of int64 that the operators do (packages/script/vm.go).
pub mod Signs
use go_apla.Prelude.{
  false, leb-cases, ℕ, zero, suc, ◌+◌, ◌-◌, ◌*◌, ◌/◌, ◌%◌, ◌^◌, ◌<◌, ◌≤◌, ◌≡◌, ◌≢◌, refl, sym, ap,
  ◌∙◌, arith, ltb, leb, if◌then◌else◌, ◌==◌, if_false, ◌⊎◌, inl, inr,
}
use go_apla.Prelude.Int.{
  ℤ, pos, negsuc, wrap64, wrap64_id, to_word, of_word, IsInt64, ◌+ℤ◌, ◌-ℤ◌, ◌*ℤ◌, ◌==ℤ◌, sub_ℕ,
  pos_part, neg_part, ltb_ℤ,
}
use go_apla.Script.Value.{Numbers, Val, Mem, int64, div_zero}
use go_apla.Script.Operators.{
  Bin, quot, value, hard, BinOp, binary, add, sub, mul, div, arithmetic, div_int, op_add, op_sub,
  op_mul, op_div,
}
use go_apla.Script.Integers.Signs.{
  word_small, wrap64-IsInt64, sub_then_add, quotient_le, remainder_lt, quotient_small, neg, quot_pp,
  quot_pn, quot_np, quot_nn, mul_pp, zero_parts, mul_pn, mul_np, mul_nn, neg_parts, wrap_pos,
  wrap_neg, sub_pos, add_pos, sub_neg, add_neg, nonzero, half,
}

-- What a division leaves, told by the other operators.
module _ ⦃num : Numbers⦄ (heap : Mem) where
  abbrev pub Divides : ℤ → ℤ → Type 0
  Divides a b =
      (q p r : ℤ) × (binary heap op_div (int64 a) (int64 b) ≡ value (int64 q))
      × (binary heap op_mul (int64 q) (int64 b) ≡ value (int64 p))
      × (binary heap op_sub (int64 a) (int64 p) ≡ value (int64 r))
      × (binary heap op_add (int64 r) (int64 p) ≡ value (int64 a))
      × (pos_part r + neg_part r < pos_part b + neg_part b)
      × (pos_part r ≤ pos_part a)
      × (neg_part r ≤ neg_part a)

  divides :
      (a b q p r : ℤ)
      → (b ==ℤ pos 0) ≡ false
      → wrap64 (quot a b) ≡ q
      → wrap64 (q *ℤ b) ≡ p
      → wrap64 (a -ℤ p) ≡ r
      → wrap64 (r +ℤ p) ≡ a
      → pos_part r + neg_part r < pos_part b + neg_part b
      → pos_part r ≤ pos_part a
      → neg_part r ≤ neg_part a
      → Divides a b
  unfolding binary add sub mul arithmetic div div_int
  divides a b q p r z e f g h lt up down = (
    q,
    p,
    r,
    if_false (hard div_zero) z ∙ ap (λ n. value (int64 n)) e,
    ap (λ n. value (int64 n)) f,
    ap (λ n. value (int64 n)) g,
    ap (λ n. value (int64 n)) h,
    lt,
    up,
    down,
  )

  from_pos :
      (a m : ℕ) (b q : ℤ)
      → (b ==ℤ pos 0) ≡ false
      → a < 2 ^ 63
      → wrap64 (quot (pos a) b) ≡ q
      → q *ℤ b ≡ pos m
      → m ≤ a
      → a - m < pos_part b + neg_part b
      → Divides (pos a) b
  from_pos a m b q z small e f le lt =
      divides (pos a) b q (pos m) (pos (a - m)) z e
        (ap wrap64 f ∙ wrap_pos m (omega (arith, le, small)))
        (ap wrap64 (sub_pos a m le) ∙ wrap_pos (a - m) (omega (arith, small)))
        (ap wrap64 (add_pos a m le) ∙ wrap_pos a small) (omega (arith, lt)) (omega arith)
        (omega arith)

  from_neg :
      (a m : ℕ) (b q : ℤ)
      → (b ==ℤ pos 0) ≡ false
      → suc a ≤ 2 ^ 63
      → wrap64 (quot (negsuc a) b) ≡ q
      → q *ℤ b ≡ neg m
      → m ≤ suc a
      → suc a - m < pos_part b + neg_part b
      → Divides (negsuc a) b
  unfolding neg
  from_neg a m b q z small e f le lt =
      divides (negsuc a) b q (neg m) (neg (suc a - m)) z e
        (ap wrap64 f ∙ wrap_neg m (omega (arith, le, small)))
        (ap wrap64 (sub_neg (suc a) m le) ∙ wrap_neg (suc a - m) (omega (arith, small)))
        (ap wrap64 (add_neg (suc a) m le) ∙ wrap_neg (suc a) small)
        (omega (arith, lt, neg_parts (suc a - m))) (omega (arith, neg_parts (suc a - m)))
        (omega (arith, neg_parts (suc a - m)))

  -- The smallest int64 by -1.
  overflow : (a : ℕ) → a ≡ 2 ^ 63 - 1 → Divides (negsuc a) (negsuc 0)
  unfolding neg wrap64 to_word of_word quot ◌*ℤ◌ ◌-ℤ◌ ◌+ℤ◌
  overflow a e =
      divides (negsuc a) (negsuc 0) (negsuc a) (negsuc a) (pos 0) refl (rw e refl) (rw e refl)
        (rw e refl) (rw e refl) (omega arith) (omega arith) (omega arith)

  by_minus_one : (a : ℕ) → suc a ≤ 2 ^ 63 → Divides (negsuc a) (negsuc 0)
  by_minus_one a h = elim (leb-cases (2 ^ 63) (suc a)) [
    | inl k ↦ overflow a (omega (arith, h, k))
    | inr k ↦
        from_neg a (suc a / 1 * 1) (negsuc 0) (pos (suc a / 1)) refl h
          (ap wrap64 (quot_nn a 0) ∙ wrap_pos (suc a / 1) (omega (arith, k))) (mul_pn (suc a / 1) 0)
          (quotient_le (suc a) 0) (remainder_lt (suc a) 0)
  ]

  division : (a b : ℤ) → IsInt64 a → IsInt64 b → b ≢ pos 0 → Divides a b
  division (pos a) (pos zero) h k z = absurd (z refl)
  division (pos a) (pos (suc b)) h k z =
      from_pos a (a / suc b * suc b) (pos (suc b)) (pos (a / suc b))
        (nonzero (pos (suc b)) (omega arith)) h.0
        (ap wrap64 (quot_pp a (suc b)) ∙ wrap_pos _ (omega (arith, h.0, quotient_small a b)))
        (mul_pp (a / suc b) (suc b)) (quotient_le a b) (omega (arith, remainder_lt a b))
  division (pos a) (negsuc b) h k z =
      from_pos a (a / suc b * suc b) (negsuc b) (neg (a / suc b)) (nonzero (negsuc b) (omega arith))
        h.0 (ap wrap64 (quot_pn a b) ∙ wrap_neg _ (omega (arith, h.0, quotient_small a b)))
        (mul_nn (a / suc b) b) (quotient_le a b) (omega (arith, remainder_lt a b))
  division (negsuc a) (pos zero) h k z = absurd (z refl)
  division (negsuc a) (pos (suc b)) h k z =
      from_neg a (suc a / suc b * suc b) (pos (suc b)) (neg (suc a / suc b))
        (nonzero (pos (suc b)) (omega arith)) h.1
        (ap wrap64 (quot_np a (suc b)) ∙ wrap_neg _ (omega (arith, h.1, quotient_small (suc a) b)))
        (mul_np (suc a / suc b) (suc b)) (quotient_le (suc a) b)
        (omega (arith, remainder_lt (suc a) b))
  division (negsuc a) (negsuc zero) h k z = by_minus_one a h.1
  division (negsuc a) (negsuc (suc b)) h k z =
      from_neg a (suc a / suc (suc b) * suc (suc b)) (negsuc (suc b)) (pos (suc a / suc (suc b)))
        (nonzero (negsuc (suc b)) (omega arith)) h.1
        (ap wrap64 (quot_nn a (suc b)) ∙ wrap_pos _ (half (suc a) b h.1))
        (mul_pn (suc a / suc (suc b)) (suc b)) (quotient_le (suc a) (suc b))
        (omega (arith, remainder_lt (suc a) (suc b)))

  zero_or :
      (a b : ℤ)
      → IsInt64 a
      → IsInt64 b
      → ((b ≡ pos 0) × (binary heap op_div (int64 a) (int64 b) ≡ hard div_zero)) ⊎ Divides a b
  unfolding binary div div_int
  zero_or a (pos zero) h k = inl (refl, refl)
  zero_or a (pos (suc b)) h k =
      inr (division a (pos (suc b)) h k (λ e. ground (arith, ap pos_part e)))
  zero_or a (negsuc b) h k = inr (division a (negsuc b) h k (λ e. ground (arith, ap neg_part e)))

  regained :
      (a b : ℤ)
      → IsInt64 a
      → IsInt64 b
      → (d : ℤ) × IsInt64 d
        × (binary heap op_sub (int64 a) (int64 b) ≡ value (int64 d))
        × (binary heap op_add (int64 d) (int64 b) ≡ value (int64 a))
  unfolding binary add sub arithmetic
  regained a b h k = (
    wrap64 (a -ℤ b),
    wrap64-IsInt64 (a -ℤ b),
    refl,
    ap (λ n. value (int64 n)) (sub_then_add a b h k),
  )

  -- For two int64, subtracting one from the other and adding it again gives the first, whatever
  -- overflows. A division by 0 is the error of it; any other division gives a quotient whose product
  -- with the divisor, subtracted from the dividend, leaves a remainder smaller than the divisor,
  -- between 0 and the dividend, to which the product adds up to the dividend, the overflow of the
  -- smallest int64 by -1 included.
  pub int_division :
      (a b : ℤ)
      → IsInt64 a
      → IsInt64 b
      → ((d : ℤ) × IsInt64 d
          × (binary heap op_sub (int64 a) (int64 b) ≡ value (int64 d))
          × (binary heap op_add (int64 d) (int64 b) ≡ value (int64 a)))
        × (((b ≡ pos 0) × (binary heap op_div (int64 a) (int64 b) ≡ hard div_zero)) ⊎ Divides a b)
  int_division a b h k = (regained a b h k, zero_or a b h k)
