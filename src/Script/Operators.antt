-- ===== src/Script/Operators.antt =====
-- The operators of expressions in RunCode (packages/script/vm.go). `top1` is the left operand, the
-- second from the top of the stack, and `top0` the right one. Go's switches on the dynamic types are
-- the clauses.
use Prim.Native.Nat.{Ordering}
use Prim.Native.String.{String, compare, ◌++◌}
use text.Mathlib.Text.{◌==◌ as str_eq}
use go_apla.Prelude.{◌+◌, ◌/◌, Bool, true, false, not, ◌&&◌, ◌||◌, none, some, if◌then◌else◌}
use go_apla.Prelude.Int.{ℤ, pos, pos_part, neg_part, ◌+ℤ◌, ◌-ℤ◌, ◌*ℤ◌, ◌==ℤ◌, ltb_ℤ, sub_ℕ, wrap64}
use go_apla.Script.Value.{
  Numbers, Val, Mem, nil, int64, float, bool, str, dec, VmError, unsupported_type, div_zero,
  not_integer, bad_decimal, Converted, converted, bad_text, string_to_int, value_to_float,
  value_to_decimal, value_to_bool,
}

-- What an operator does: `bin = v`; `err = e` with `bin` left nil; `return 0, e`; or a panic.
pub data Bin (V : Type 0) : Type 0 where
  value : V → Bin V
  soft hard : VmError V → Bin V
  crash : Bin V

-- Go's quotient of integers, which is truncated towards zero.
unfoldable pub quot : ℤ → ℤ → ℤ
quot a b =
    let q = (pos_part a + neg_part a) / (pos_part b + neg_part b) in
    if ltb_ℤ a (pos 0)
    then (if ltb_ℤ b (pos 0) then pos q else sub_ℕ 0 q)
    else if ltb_ℤ b (pos 0)
    then sub_ℕ 0 q
    else pos q

module _ ⦃num : Numbers⦄ where
  abbrev pub Res : Type 0
  Res = Bin Val

  -- `if tmpInt, err = converter.ValueToInt(s); err == nil { bin = … }`
  unfoldable pub with_int : String → (ℤ → Res) → Res
  with_int s k = elim (string_to_int s) [ none ↦ soft (not_integer s) | some n ↦ k n ]

  -- The default branch of the arithmetic operators: `String` of the type of a nil panics.
  unfoldable pub on_decimals : Val → Val → (num.Decimal → num.Decimal → Res) → Res
  on_decimals (dec a) (dec b) k = k a b
  on_decimals (dec a) nil k = crash
  on_decimals nil _ k = crash
  on_decimals _ _ k = hard unsupported_type

  -- The switch that cmdSub and cmdMul share.
  unfoldable pub arithmetic :
      (ℤ → ℤ → ℤ)
      → (num.Float → num.Float → num.Float)
      → (num.Decimal → num.Decimal → num.Decimal)
      → Val
      → Val
      → Res
  unfolding with_int on_decimals value_to_float
  arithmetic i f d (str s) (int64 b) = with_int s (λ a. value (int64 (wrap64 (i a b))))
  arithmetic i f d (str s) (float b) = value (float (f (value_to_float (str s)) b))
  arithmetic i f d (str s) _ = hard unsupported_type
  arithmetic i f d (float a) (str s) = value (float (f a (value_to_float (str s))))
  arithmetic i f d (float a) (int64 b) = value (float (f a (value_to_float (int64 b))))
  arithmetic i f d (float a) (float b) = value (float (f a b))
  arithmetic i f d (float a) _ = hard unsupported_type
  arithmetic i f d (int64 a) (int64 b) = value (int64 (wrap64 (i a b)))
  arithmetic i f d (int64 a) (str s) = with_int s (λ b. value (int64 (wrap64 (i a b))))
  arithmetic i f d (int64 a) (float b) = value (float (f (value_to_float (int64 a)) b))
  arithmetic i f d (int64 a) _ = hard unsupported_type
  arithmetic i f d top1 top0 = on_decimals top1 top0 (λ a b. value (dec (d a b)))

  -- cmdAdd: besides, two strings are joined.
  unfoldable pub add : Val → Val → Res
  unfolding arithmetic
  add (str s) (str t) = value (str (s ++ t))
  add top1 top0 = arithmetic ◌+ℤ◌ num.f_add num.d_add top1 top0

  unfoldable pub sub : Val → Val → Res
  unfolding arithmetic
  sub = arithmetic ◌-ℤ◌ num.f_sub num.d_sub

  unfoldable pub mul : Val → Val → Res
  unfolding arithmetic
  mul = arithmetic ◌*ℤ◌ num.f_mul num.d_mul

  unfoldable pub div_float : num.Float → num.Float → Res
  div_float a b = if num.f_eq b num.f_zero then hard div_zero else value (float (num.f_div a b))

  unfoldable pub div_int : ℤ → ℤ → Res
  unfolding quot
  div_int a b = if b ==ℤ pos 0 then hard div_zero else value (int64 (wrap64 (quot a b)))

  unfoldable pub div_dec : num.Decimal → num.Decimal → Res
  div_dec a b =
      if num.d_eq b num.d_zero then hard div_zero else value (dec (num.d_floor (num.d_div a b)))

  -- cmdDiv: a zero divisor is told before the dividend is read.
  unfoldable pub div : Val → Val → Res
  unfolding div_float div_int div_dec with_int on_decimals value_to_float
  div (str s) (int64 b) = if b ==ℤ pos 0 then hard div_zero else with_int s (λ a. div_int a b)
  div (str s) (float b) = div_float (value_to_float (str s)) b
  div (str s) _ = hard unsupported_type
  div (float a) (str s) = div_float a (value_to_float (str s))
  div (float a) (int64 b) = div_float a (value_to_float (int64 b))
  div (float a) (float b) = div_float a b
  div (float a) _ = hard unsupported_type
  div (int64 a) (int64 b) = div_int a b
  div (int64 a) (str s) = with_int s (λ b. div_int a b)
  div (int64 a) (float b) = div_float (value_to_float (int64 a)) b
  div (int64 a) _ = hard unsupported_type
  div top1 top0 = on_decimals top1 top0 div_dec

  -- What the branches of a comparison compare with.
  pub record Comparison : Type 0 where
    pub ints : ℤ → ℤ → Bool
    pub floats : num.Float → num.Float → Bool
    pub decs : num.Decimal → num.Decimal → Bool
    pub texts : String → String → Bool

  -- ValueToDecimal, whose error is returned at once.
  unfoldable pub with_decimal : Val → (num.Decimal → Res) → Res
  with_decimal v k = elim (value_to_decimal v) [
    | converted d ↦ k d
    | bad_text ↦ hard bad_decimal
    | Converted.crash ↦ crash
  ]

  -- The switch that cmdEqual, cmdLess and cmdGreat share.
  unfoldable pub comparison : Comparison → Val → Val → Res
  unfolding with_int with_decimal value_to_float value_to_decimal
  comparison c (str s) (int64 b) = with_int s (λ a. value (bool (c.ints a b)))
  comparison c (str s) (float b) = value (bool (c.floats (value_to_float (str s)) b))
  comparison c (str s) (dec b) = with_decimal (str s) (λ a. value (bool (c.decs a b)))
  comparison c (str s) (str t) = value (bool (c.texts s t))
  comparison c (str s) _ = crash
  comparison c (float a) top0 = value (bool (c.floats a (value_to_float top0)))
  comparison c (int64 a) (int64 b) = value (bool (c.ints a b))
  comparison c (int64 a) (float b) = value (bool (c.floats (value_to_float (int64 a)) b))
  comparison c (int64 a) _ = hard unsupported_type
  comparison c (dec a) top0 = with_decimal top0 (λ b. value (bool (c.decs a b)))
  comparison c _ top0 = with_decimal top0 (λ _. crash)

  unfoldable pub is_nil : Val → Bool
  is_nil nil = true
  is_nil _ = false

  abbrev pub equality : Comparison
  equality = record { ints = ◌==ℤ◌; floats = num.f_eq; decs = num.d_eq; texts = str_eq }

  unfoldable pub equal : Val → Val → Res
  unfolding comparison is_nil
  equal top1 top0 =
      if is_nil top1 || is_nil top0
      then value (bool (is_nil top1 && is_nil top0))
      else comparison equality top1 top0

  unfoldable pub text_lt : String → String → Bool
  text_lt s t = elim (compare s t) [ Ordering.lt ↦ true | _ ↦ false ]

  abbrev pub ascending : Comparison
  ascending = record { ints = ltb_ℤ; floats = num.f_lt; decs = num.d_lt; texts = text_lt }

  abbrev pub descending : Comparison
  descending = record {
    ints = λ a b. ltb_ℤ b a;
    floats = λ a b. num.f_lt b a;
    decs = λ a b. num.d_lt b a;
    texts = λ s t. text_lt t s;
  }

  unfoldable pub less : Val → Val → Res
  unfolding comparison text_lt
  less = comparison ascending

  unfoldable pub great : Val → Val → Res
  unfolding comparison text_lt
  great = comparison descending

  -- `bin = !bin.(bool)` after cmdNotEq, cmdNotLess and cmdNotGreat: where the comparison has left an
  -- error and `bin` is nil, the type assertion panics.
  unfoldable pub negated : Res → Res
  negated (value (bool b)) = value (bool (not b))
  negated (hard e) = hard e
  negated _ = crash

-- The commands whose code has 2 in its high byte.
pub data BinOp : Type 0 where
  op_add op_sub op_mul op_div op_and op_or : BinOp
  op_equal op_not_eq op_less op_not_less op_great op_not_great : BinOp

module _ ⦃num : Numbers⦄ where
  unfoldable pub binary : Mem → BinOp → Val → Val → Res
  unfolding add sub mul div equal less great negated value_to_bool
  binary heap op_add top1 top0 = add top1 top0
  binary heap op_sub top1 top0 = sub top1 top0
  binary heap op_mul top1 top0 = mul top1 top0
  binary heap op_div top1 top0 = div top1 top0
  binary heap op_and top1 top0 = value (bool (value_to_bool heap top1 && value_to_bool heap top0))
  binary heap op_or top1 top0 = value (bool (value_to_bool heap top1 || value_to_bool heap top0))
  binary heap op_equal top1 top0 = equal top1 top0
  binary heap op_not_eq top1 top0 = negated (equal top1 top0)
  binary heap op_less top1 top0 = less top1 top0
  binary heap op_not_less top1 top0 = negated (less top1 top0)
  binary heap op_great top1 top0 = great top1 top0
  binary heap op_not_great top1 top0 = negated (great top1 top0)
