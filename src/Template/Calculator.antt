-- ===== src/Template/Calculator.antt =====
-- The calculator of page templates (packages/template/calculate.go): reading an expression, its
-- postfix order and its value. The texts are ASCII; the printing of the value is left out.
pub mod Postfix
pub mod Order
mod Tests
use Prim.Native.Char.{Char, code}
use Prim.Native.String.{String, ◌++◌ as str_append}
use text.Mathlib.Text.{◌==◌ as str_eq}
use mathlib.Core.List.{reverse}
use go_apla.Prelude.{
  ℕ, zero, suc, ◌+◌, Bool, true, false, not, ◌&&◌, ◌||◌, Option, none, some, List, [], ◌∷◌, ◌++◌,
  leb, ◌==◌, if◌then◌else◌,
}
use go_apla.Prelude.Int.{ℤ, pos, ◌+ℤ◌, ◌-ℤ◌, ◌*ℤ◌, ◌==ℤ◌, wrap64}
use go_apla.Script.Value.{parse_int}
use go_apla.Script.Operators.{quot}

-- What calcExp does with the values of one result type: int64, float64 or decimal.Decimal.
pub record Arithmetic : Type 1 where
  pub Number : Type 0
  pub parse : String → Option Number
  pub add : Number → Number → Number
  pub sub : Number → Number → Number
  pub mul : Number → Number → Number
  pub div : Number → Number → Number
  pub is_zero : Number → Bool

-- expInt
abbrev pub int_arithmetic : Arithmetic
int_arithmetic = record {
  Number = ℤ;
  parse = parse_int;
  add = λ a b. wrap64 (a +ℤ b);
  sub = λ a b. wrap64 (a -ℤ b);
  mul = λ a b. wrap64 (a *ℤ b);
  div = λ a b. wrap64 (quot a b);
  is_zero = λ a. a ==ℤ pos 0;
}

pub data Op : Type 0 where
  tk_add tk_sub tk_mul tk_div : Op

pub data Token (N : Type 0) : Type 0 where
  number : N → Token N
  oper : Op → Token N
  l_par r_par : Token N

-- A token of the postfix order, and one that waits in `buf`.
pub data Item (N : Type 0) : Type 0 where
  value : N → Item N
  apply : Op → Item N

pub data Waiting : Type 0 where
  open_par : Waiting
  waits : Op → Waiting

pub data CalcError : Type 0 where
  wrong_expression dividing_by_zero bad_number : CalcError

pub data Calc {ℓ} (A : Type ℓ) : Type ℓ where
  good : A → Calc A
  bad : CalcError → Calc A

infixl 5 ◌and_then◌
unfoldable pub ◌and_then◌ {ℓ κ} : {A : Type ℓ} → {B : Type κ} → Calc A → (A → Calc B) → Calc B
good a and_then f = f a
bad e and_then f = bad e

unfoldable pub priority : Op → ℕ
priority tk_add = 1
priority tk_sub = 1
priority tk_mul = 2
priority tk_div = 2

unfoldable pub op_of : ℕ → Option Op
op_of c =
    if c == b'+'
    then some tk_add
    else if c == b'-'
    then some tk_sub
    else if c == b'*'
    then some tk_mul
    else if c == b'/'
    then some tk_div
    else none

unfoldable pub is_digit : ℕ → Bool
is_digit c = leb b'0' c && leb c b'9'

unfoldable pub is_space : ℕ → Bool
is_space c = c == 32 || c == 9 || c == 10 || c == 13

module _ (num : Arithmetic) where
  abbrev pub Tokens : Type 0
  Tokens = List (Token num.Number)

  -- prevNumber and prevOper look at the last token, which stands first.
  unfoldable pub prev_number : Tokens → Bool
  prev_number (number n ∷ ts) = true
  prev_number _ = false

  unfoldable pub prev_oper : Tokens → Bool
  prev_oper (oper op ∷ ts) = true
  prev_oper _ = false

  unless : Bool → Tokens → Calc Tokens
  unless b ts = if b then bad wrong_expression else good ts

  unfoldable pub new_number : Tokens → Option num.Number → Calc Tokens
  unfolding unless prev_number
  new_number ts none = bad bad_number
  new_number ts (some n) = unless (prev_number ts) (number n ∷ ts)

  -- `if numlen > 0`: the digits before this character make a number.
  unfoldable pub end_number : String → Tokens → Calc Tokens
  unfolding new_number
  end_number digits ts = if str_eq digits "" then good ts else new_number ts (num.parse digits)

  -- The character itself.
  unfoldable pub new_sign : ℕ → Option Op → Tokens → Calc Tokens
  unfolding unless prev_oper prev_number is_space
  new_sign c (some op) ts = unless (prev_oper ts) (oper op ∷ ts)
  new_sign c none ts =
      if c == b'('
      then unless (prev_number ts) (l_par ∷ ts)
      else if c == b')'
      then unless (prev_oper ts) (r_par ∷ ts)
      else if is_space c
      then good ts
      else bad wrong_expression

  -- parsing: `digits` are those since the last token.
  unfoldable pub parsing_from : String → String → Tokens → Calc Tokens
  unfolding end_number new_sign op_of is_digit ◌and_then◌
  parsing_from String.[] digits ts = good (reverse ts)
  parsing_from (String.◌∷◌ c rest) digits ts = elim (is_digit (code c) || code c == b'.') [
    | true ↦ parsing_from rest (str_append digits (String.◌∷◌ c String.[])) ts
    | false ↦ end_number digits ts and_then λ ts'.
        new_sign (code c) (op_of (code c)) ts' and_then parsing_from rest ""
  ]

  unfoldable pub parsing : String → Calc Tokens
  unfolding parsing_from
  parsing input = parsing_from input "" []

  abbrev pub Items : Type 0
  Items = List (Item num.Number)

  -- calculate moves the operators that wait, down to the parenthesis, which goes too.
  unfoldable pub close_par : Items → List Waiting → Calc (Items × List Waiting)
  close_par out [] = bad wrong_expression
  close_par out (open_par ∷ buf) = good (out, buf)
  close_par out (waits op ∷ buf) = close_par (apply op ∷ out) buf

  -- The operator on top of `buf` moves if it does not bind less; only that one does.
  unfoldable pub put_op : Op → Items → List Waiting → Items × List Waiting
  unfolding priority
  put_op op out (waits last ∷ buf) =
      if leb (priority op) (priority last)
      then (apply last ∷ out, waits op ∷ buf)
      else (out, waits op ∷ waits last ∷ buf)
  put_op op out buf = (out, waits op ∷ buf)

  unfoldable pub move_all : Items → List Waiting → Calc Items
  move_all out [] = good (reverse out)
  move_all out (waits op ∷ buf) = move_all (apply op ∷ out) buf
  move_all out (open_par ∷ buf) = bad wrong_expression

  -- The loop of calculate over the tokens; the postfix order has its last item first.
  unfoldable pub postfix_from : Tokens → Items → List Waiting → Calc Items
  unfolding close_par put_op move_all ◌and_then◌
  postfix_from [] out buf = move_all out buf
  postfix_from (number n ∷ ts) out buf = postfix_from ts (value n ∷ out) buf
  postfix_from (l_par ∷ ts) out buf = postfix_from ts out (open_par ∷ buf)
  postfix_from (r_par ∷ ts) out buf = close_par out buf and_then λ p. postfix_from ts p.0 p.1
  postfix_from (oper op ∷ ts) out buf =
      let (out', buf') = put_op op out buf in postfix_from ts out' buf'

  -- The table of functions of calcExp.
  unfoldable pub operate : Op → num.Number → num.Number → num.Number
  operate tk_add a b = num.add a b
  operate tk_sub a b = num.sub a b
  operate tk_mul a b = num.mul a b
  operate tk_div a b = num.div a b

  unfoldable pub is_div : Op → Bool
  is_div tk_div = true
  is_div _ = false

  unfoldable pub checked : Op → num.Number → num.Number → Calc num.Number
  unfolding operate is_div
  checked op a b =
      if is_div op && num.is_zero b then bad dividing_by_zero else good (operate op a b)

  -- calcExp, with the top of the stack first.
  unfoldable pub calc_from : Items → List num.Number → Calc num.Number
  unfolding checked ◌and_then◌
  calc_from [] (v ∷ []) = good v
  calc_from [] _ = bad wrong_expression
  calc_from (value n ∷ items) stack = calc_from items (n ∷ stack)
  calc_from (apply op ∷ items) (b ∷ a ∷ stack) =
      checked op a b and_then λ v. calc_from items (v ∷ stack)
  calc_from (apply op ∷ items) _ = bad wrong_expression

  unfoldable pub evaluate : Tokens → Calc num.Number
  unfolding postfix_from calc_from ◌and_then◌
  evaluate ts = postfix_from ts [] [] and_then λ items. calc_from items []

  unfoldable pub calculate : String → Calc num.Number
  unfolding parsing evaluate ◌and_then◌
  calculate text = parsing (str_append text " ") and_then evaluate
