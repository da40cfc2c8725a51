-- ===== src/Converter/Address/Errors.antt =====
-- The errors in a text that the check digit finds.
use go_apla.Prelude.{
  ℕ, zero, suc, ◌+◌, ◌*◌, ◌%◌, ◌<◌, ◌≤◌, ◌≡◌, refl, ap, Bool, true, false, not, [], ◌∷◌,
  if◌then◌else◌, length, take, drop, arith, set, ==_iff,
}
use go_apla.Converter.Bytes.{Bytes}
use go_apla.Converter.Address.{digit, last_digit, checks, check_sum, sum_digits}
use go_apla.Converter.Address.Digits.{AreDigits}

-- The weighted sum of checkSum: three for a place with an odd index, one for the others.
weighted : Bool → Bytes → ℕ
weighted odd [] = 0
weighted odd (c ∷ cs) = (if odd then 3 else 1) * digit c + weighted (not odd) cs

sum_digits-weighted :
    (odd : Bool) (xs : Bytes) (one two : ℕ)
    → (sum_digits odd xs one two).1 + 3 * (sum_digits odd xs one two).0
      ≡ two + 3 * one + weighted odd xs
unfolding sum_digits weighted
sum_digits-weighted odd [] one two = omega arith
sum_digits-weighted true (c ∷ cs) one two =
    omega (arith, sum_digits-weighted false cs (one + digit c) two)
sum_digits-weighted false (c ∷ cs) one two =
    omega (arith, sum_digits-weighted true cs one (two + digit c))

check_sum-weighted : (xs : Bytes) → (check_sum xs + weighted false xs) % 10 ≡ 0
unfolding check_sum
check_sum-weighted xs = ground (arith, sum_digits-weighted false xs 0 0)

-- The weighted sum with the digit behind it, of a place, which has weight one.
total : ℕ → Bool → Bytes → ℕ
total k odd [] = 0
total zero odd (c ∷ cs) = digit c
total (suc k) odd (c ∷ cs) = (if odd then 3 else 1) * digit c + total k (not odd) cs

total-weighted :
    (k : ℕ) (odd : Bool) (xs : Bytes)
    → total k odd xs ≡ weighted odd (take k xs) + last_digit (drop k xs)
unfolding total weighted
total-weighted zero odd [] = refl
total-weighted zero odd (c ∷ cs) = omega arith
total-weighted (suc k) odd [] = refl
total-weighted (suc k) odd (c ∷ cs) = omega (arith, total-weighted k (not odd) cs)

checks-total : (xs : Bytes) → checks xs ≡ true → total 19 false xs % 10 ≡ 0
unfolding checks
checks-total xs h =
    let same = (==_iff (check_sum (take 19 xs)) (last_digit (drop 19 xs))).0 h in
    omega (arith, same, total-weighted 19 false xs, check_sum-weighted (take 19 xs))

nothing : (xs : Bytes) (i c : ℕ) → length xs ≡ 0 → set xs i c ≡ xs
nothing [] i c e = refl
nothing (x ∷ xs) i c e = ground arith

-- Another digit at one place changes the sum by less than ten times its weight.
total-set :
    (k : ℕ) (odd : Bool) (xs : Bytes) (i c : ℕ)
    → AreDigits xs
    → length xs ≡ suc k
    → 48 ≤ c
    → c < 58
    → total k odd (set xs i c) % 10 ≡ total k odd xs % 10
    → set xs i c ≡ xs
unfolding total AreDigits
total-set k odd [] i c h n p q e = refl
total-set zero odd (x ∷ xs) zero c h n p q e = ap (λ y. y ∷ xs) (omega (arith, h.0, h.1, p, q, e))
total-set zero odd (x ∷ xs) (suc i) c h n p q e =
    ap (λ r. x ∷ r) (nothing xs i c (omega (arith, n)))
total-set (suc k) true (x ∷ xs) zero c h n p q e =
    ap (λ y. y ∷ xs) (omega (arith, h.0, h.1, p, q, e))
total-set (suc k) false (x ∷ xs) zero c h n p q e =
    ap (λ y. y ∷ xs) (omega (arith, h.0, h.1, p, q, e))
total-set (suc k) true (x ∷ xs) (suc i) c h n p q e =
    ap (λ r. x ∷ r) (total-set k false xs i c h.2 (omega (arith, n)) p q (omega (arith, e)))
total-set (suc k) false (x ∷ xs) (suc i) c h n p q e =
    ap (λ r. x ∷ r) (total-set k true xs i c h.2 (omega (arith, n)) p q (omega (arith, e)))

-- Of two texts of twenty digits that differ in one place at most and both pass the check of the last
-- digit, the one is the other: the check finds every single wrong digit.
pub checks_unique :
    (xs : Bytes) (i c : ℕ)
    → AreDigits xs
    → length xs ≡ 20
    → 48 ≤ c
    → c < 58
    → checks xs ≡ true
    → checks (set xs i c) ≡ true
    → set xs i c ≡ xs
checks_unique xs i c h n p q e e' =
    total-set 19 false xs i c h n p q
      (omega (arith, checks-total xs e, checks-total (set xs i c) e'))
