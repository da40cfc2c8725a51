-- ===== src/Script/Integers/Signs.antt =====
-- Sums, products and quotients of int64 by the signs of their operands, for the operators of
-- packages/script/vm.go.
use go_apla.Prelude.{false, ℕ, zero, suc, ◌+◌, ◌-◌, ◌*◌, ◌/◌, ◌^◌, ◌<◌, ◌≤◌, ◌≡◌, refl, ap, arith}
use go_apla.Prelude.Int.{
  ℤ, pos, negsuc, wrap64, wrap64_id, to_word, of_word, IsInt64, ◌+ℤ◌, ◌-ℤ◌, ◌*ℤ◌, ◌==ℤ◌, sub_ℕ,
  pos_part, neg_part,
}
use go_apla.Script.Operators.{quot}

pub word_small : (z : ℤ) → to_word z < 2 ^ 64
unfolding to_word
word_small (pos n) = ground arith
word_small (negsuc n) = ground arith

pub wrap64-IsInt64 : (z : ℤ) → IsInt64 (wrap64 z)
unfolding wrap64 of_word
wrap64-IsInt64 z = (ground (arith, word_small z), ground (arith, word_small z))

pub sub_then_add : (a b : ℤ) → IsInt64 a → IsInt64 b → wrap64 (wrap64 (a -ℤ b) +ℤ b) ≡ a
unfolding wrap64 to_word of_word ◌-ℤ◌ ◌+ℤ◌
sub_then_add (pos a) (pos b) h k = ground arith
sub_then_add (pos a) (negsuc b) h k = ground arith
sub_then_add (negsuc a) (pos b) h k = ground arith
sub_then_add (negsuc a) (negsuc b) h k = ground arith

pub quotient_le : (a b : ℕ) → a / suc b * suc b ≤ a
quotient_le a b = grind arith

pub remainder_lt : (a b : ℕ) → a - a / suc b * suc b < suc b
remainder_lt a b = grind arith

pub quotient_small : (a b : ℕ) → a / suc b ≤ a
quotient_small a b = grind arith

-- -n
unfoldable pub neg : ℕ → ℤ
neg zero = pos 0
neg (suc n) = negsuc n

pub quot_pp : (a b : ℕ) → quot (pos a) (pos b) ≡ pos (a / b)
unfolding quot
quot_pp a b = ground arith

pub quot_pn : (a b : ℕ) → quot (pos a) (negsuc b) ≡ neg (a / suc b)
unfolding quot neg
quot_pn a b = ground arith

pub quot_np : (a b : ℕ) → quot (negsuc a) (pos b) ≡ neg (suc a / b)
unfolding quot neg
quot_np a b = ground arith

pub quot_nn : (a b : ℕ) → quot (negsuc a) (negsuc b) ≡ pos (suc a / suc b)
unfolding quot
quot_nn a b = ground arith

pub mul_pp : (x y : ℕ) → pos x *ℤ pos y ≡ pos (x * y)
unfolding ◌*ℤ◌
mul_pp x y = grind arith

pub zero_parts : (z n : ℕ) → z ≡ 0 → sub_ℕ z n ≡ neg n
unfolding neg
zero_parts z n h = ground arith

pub mul_pn : (x y : ℕ) → pos x *ℤ negsuc y ≡ neg (x * suc y)
unfolding ◌*ℤ◌ neg
mul_pn x y =
    rw (zero_parts (x * 0 + 0 * suc y) (x * suc y + 0 * 0) (grind arith)) (ap neg (grind arith))

pub mul_np : (x y : ℕ) → neg x *ℤ pos y ≡ neg (x * y)
unfolding ◌*ℤ◌ neg
mul_np zero y = grind arith
mul_np (suc x) y = grind arith

pub mul_nn : (x y : ℕ) → neg x *ℤ negsuc y ≡ pos (x * suc y)
unfolding ◌*ℤ◌ neg
mul_nn zero y = grind arith
mul_nn (suc x) y = grind arith

pub neg_parts : (n : ℕ) → (pos_part (neg n) ≡ 0) × (neg_part (neg n) ≡ n)
unfolding neg
neg_parts zero = (refl, refl)
neg_parts (suc n) = (refl, refl)

pub wrap_pos : (n : ℕ) → n < 2 ^ 63 → wrap64 (pos n) ≡ pos n
wrap_pos n h = wrap64_id (pos n) h (omega arith)

pub wrap_neg : (n : ℕ) → n ≤ 2 ^ 63 → wrap64 (neg n) ≡ neg n
unfolding neg
wrap_neg zero h = wrap64_id (pos 0) (omega arith) (omega arith)
wrap_neg (suc n) h = wrap64_id (negsuc n) (omega arith) h

pub sub_pos : (a m : ℕ) → m ≤ a → pos a -ℤ pos m ≡ pos (a - m)
unfolding ◌-ℤ◌
sub_pos a m h = ground arith

pub add_pos : (a m : ℕ) → m ≤ a → pos (a - m) +ℤ pos m ≡ pos a
unfolding ◌+ℤ◌
add_pos a m h = ground arith

pub sub_neg : (a m : ℕ) → m ≤ a → neg a -ℤ neg m ≡ neg (a - m)
unfolding ◌-ℤ◌ neg
sub_neg a m h = ground arith

pub add_neg : (a m : ℕ) → m ≤ a → neg (a - m) +ℤ neg m ≡ neg a
unfolding ◌+ℤ◌ neg
add_neg a m h = ground arith

pub nonzero : (b : ℤ) → 0 < pos_part b + neg_part b → (b ==ℤ pos 0) ≡ false
nonzero b h = ground arith

pub half : (a b : ℕ) → a ≤ 2 ^ 63 → a / suc (suc b) < 2 ^ 63
half a b h = grind (arith, quotient_le a (suc b))
