-- ===== src/Template/Calculator/Postfix.antt =====
-- The postfix order of an expression with all its parentheses, and its value.
use mathlib.Core.List.{reverse_aux}
use go_apla.Prelude.{List, [], ◌∷◌, ◌≡◌, refl, sym, ap, ◌∙◌}
use go_apla.Template.Calculator.{
  Arithmetic, Op, number, oper, l_par, r_par, value, apply, Waiting, open_par, waits, Calc, good,
  bad, ◌and_then◌, Tokens, Items, close_par, put_op, move_all, postfix_from, checked, calc_from,
  evaluate,
}

-- An expression tree.
pub data Expr (N : Type 0) : Type 0 where
  literal : N → Expr N
  binary_of : Op → Expr N → Expr N → Expr N

module _ (num : Arithmetic) where
  -- The tokens of an expression with parentheses around every operation, before others.
  unfoldable pub infix_onto : Expr num.Number → Tokens num → Tokens num
  infix_onto (literal n) ts = number n ∷ ts
  infix_onto (binary_of op l r) ts = l_par ∷ infix_onto l (oper op ∷ infix_onto r (r_par ∷ ts))

  -- The value, or the error of the first division by zero.
  unfoldable pub value_of : Expr num.Number → Calc num.Number
  unfolding checked ◌and_then◌
  value_of (literal n) = good n
  value_of (binary_of op l r) = value_of l and_then λ a. value_of r and_then λ b. checked num op a b

  -- The postfix order, and the same with its last item first.
  unfoldable postfix_onto : Expr num.Number → Items num → Items num
  postfix_onto (literal n) items = value n ∷ items
  postfix_onto (binary_of op l r) items = postfix_onto l (postfix_onto r (apply op ∷ items))

  unfoldable moved : Expr num.Number → Items num → Items num
  moved (literal n) out = value n ∷ out
  moved (binary_of op l r) out = apply op ∷ moved r (moved l out)

  postfix_from-infix_onto :
      (e : Expr num.Number) (ts : Tokens num) (out : Items num) (buf : List Waiting)
      → postfix_from num (infix_onto e ts) out buf ≡ postfix_from num ts (moved e out) buf
  unfolding postfix_from infix_onto moved put_op close_par ◌and_then◌
  postfix_from-infix_onto (literal n) ts out buf = refl
  postfix_from-infix_onto (binary_of op l r) ts out buf =
      postfix_from-infix_onto l _ out (open_par ∷ buf)
      ∙ postfix_from-infix_onto r (r_par ∷ ts) (moved l out) (waits op ∷ open_par ∷ buf)

  reverse_aux-moved :
      (e : Expr num.Number) (out items : Items num)
      → reverse_aux (moved e out) items ≡ reverse_aux out (postfix_onto e items)
  unfolding moved postfix_onto
  reverse_aux-moved (literal n) out items = refl
  reverse_aux-moved (binary_of op l r) out items =
      reverse_aux-moved r (moved l out) (apply op ∷ items)
      ∙ reverse_aux-moved l out (postfix_onto r (apply op ∷ items))

  and_then_assoc :
      {A B C : Type 0} (x : Calc A) (f : A → Calc B) (g : B → Calc C)
      → ((x and_then f) and_then g) ≡ (x and_then (λ a. f a and_then g))
  unfolding ◌and_then◌
  and_then_assoc (good a) f g = refl
  and_then_assoc (bad e) f g = refl

  and_then_ext :
      {A B : Type 0} (x : Calc A) (f g : A → Calc B)
      → ((a : A) → f a ≡ g a)
      → (x and_then f) ≡ (x and_then g)
  unfolding ◌and_then◌
  and_then_ext (good a) f g h = h a
  and_then_ext (bad e) f g h = refl

  calc_from-postfix_onto :
      (e : Expr num.Number) (items : Items num) (stack : List num.Number)
      → calc_from num (postfix_onto e items) stack
        ≡ (value_of e and_then λ v. calc_from num items (v ∷ stack))
  unfolding calc_from postfix_onto value_of ◌and_then◌
  calc_from-postfix_onto (literal n) items stack = refl
  calc_from-postfix_onto (binary_of op l r) items stack =
      calc_from-postfix_onto l _ stack
      ∙ and_then_ext (value_of l) _ _ (λ a.
        calc_from-postfix_onto r _ (a ∷ stack)
        ∙ sym (
            and_then_assoc (value_of r) (λ b. checked num op a b)
              (λ v. calc_from num items (v ∷ stack))))
      ∙ sym (and_then_assoc (value_of l) _ (λ v. calc_from num items (v ∷ stack)))

  good_last : (x : Calc num.Number) → (x and_then λ v. calc_from num [] (v ∷ [])) ≡ x
  unfolding calc_from ◌and_then◌
  good_last (good v) = refl
  good_last (bad e) = refl

  -- An expression with parentheses around every operation is calculated to its value, or to the error
  -- of the division by zero that comes first.
  pub evaluate-infix_onto : (e : Expr num.Number) → evaluate num (infix_onto e []) ≡ value_of e
  unfolding evaluate move_all postfix_from ◌and_then◌
  evaluate-infix_onto e =
      ap (λ c. c and_then λ items. calc_from num items []) (postfix_from-infix_onto e [] [] [])
      ∙ ap (λ items. calc_from num items []) (reverse_aux-moved e [] [])
      ∙ calc_from-postfix_onto e [] []
      ∙ good_last (value_of e)
