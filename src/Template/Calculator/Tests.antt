-- ===== src/Template/Calculator/Tests.antt =====
-- Calculations with int64. Without parentheses only one waiting operator moves, so that the
-- subtraction of 4 comes before that of the product.
use go_apla.Prelude.{[], ◌∷◌, ◌≡◌, refl}
use go_apla.Prelude.Int.{ℤ, pos, negsuc, ◌-ℤ◌, ◌*ℤ◌, wrap64}
use go_apla.Script.Value.{parse_int}
use go_apla.Template.Calculator.{
  int_arithmetic, number, oper, l_par, r_par, value, apply, postfix_from, tk_sub, tk_mul, good, bad,
  wrong_expression, dividing_by_zero, evaluate, calculate,
}
use go_apla.Template.Calculator.Order.{numbers, values, postfix-numbers}
use go_apla.Template.Calculator.Postfix.{
  Expr, literal, binary_of, infix_onto, value_of, evaluate-infix_onto,
}

left_out_test : calculate int_arithmetic "1-2*3-4" ≡ good (negsuc 0)
unfolding calculate parse_int ◌-ℤ◌ ◌*ℤ◌ wrap64
left_out_test = refl

with_parentheses_test : calculate int_arithmetic "(1 - (2*3)) - 4" ≡ good (negsuc 8)
unfolding calculate parse_int ◌-ℤ◌ ◌*ℤ◌ wrap64
with_parentheses_test = refl

division_test : calculate int_arithmetic "7 / (2 - 2)" ≡ bad dividing_by_zero
unfolding calculate parse_int ◌-ℤ◌ ◌*ℤ◌ wrap64
division_test = refl

two_numbers_test : calculate int_arithmetic "7 2" ≡ bad wrong_expression
unfolding calculate parse_int
two_numbers_test = refl

-- (1 - (2 * 3)) - 4
abbrev nested : Expr ℤ
nested =
    binary_of tk_sub
      (binary_of tk_sub (literal (pos 1)) (binary_of tk_mul (literal (pos 2)) (literal (pos 3))))
      (literal (pos 4))

evaluate-infix_onto_example :
    evaluate int_arithmetic (infix_onto int_arithmetic nested []) ≡ value_of int_arithmetic nested
evaluate-infix_onto_example = evaluate-infix_onto int_arithmetic nested

value_test : value_of int_arithmetic nested ≡ good (negsuc 8)
unfolding value_of ◌-ℤ◌ ◌*ℤ◌ wrap64
value_test = refl

-- 5 * (2 - 3)
postfix-numbers_example :
    values int_arithmetic
      (value (pos 5) ∷ value (pos 2) ∷ value (pos 3) ∷ apply tk_sub ∷ apply tk_mul ∷ [])
    ≡ numbers int_arithmetic (
        number (pos 5)
        ∷ oper tk_mul
        ∷ l_par
        ∷ number (pos 2)
        ∷ oper tk_sub
        ∷ number (pos 3)
        ∷ r_par
        ∷ [])
unfolding postfix_from
postfix-numbers_example =
    postfix-numbers int_arithmetic
      (number (pos 5)
        ∷ oper tk_mul
        ∷ l_par
        ∷ number (pos 2)
        ∷ oper tk_sub
        ∷ number (pos 3)
        ∷ r_par
        ∷ [])
      (value (pos 5) ∷ value (pos 2) ∷ value (pos 3) ∷ apply tk_sub ∷ apply tk_mul ∷ []) refl
