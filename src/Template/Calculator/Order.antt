-- ===== src/Template/Calculator/Order.antt =====
-- The postfix order of any tokens has their numbers in their order.
use mathlib.Core.List.{reverse, reverse_aux}
use go_apla.Prelude.{
  Bool, true, false, List, [], ◌∷◌, ◌++◌, append_assoc, append-nil, ◌≡◌, refl, sym, ap, ◌∙◌, arith,
  if◌then◌else◌, leb,
}
use go_apla.Template.Calculator.{
  Arithmetic, Op, priority, number, oper, l_par, r_par, value, apply, Waiting, open_par, waits,
  Calc, good, bad, ◌and_then◌, Tokens, Items, close_par, put_op, move_all, postfix_from,
}

abbrev payload {ℓ} : {A : Type ℓ} → A → Calc A → A
payload d (good a) = a
payload d (bad e) = d

module _ (num : Arithmetic) where
  unfoldable pub numbers : Tokens num → List num.Number
  numbers [] = []
  numbers (number n ∷ ts) = n ∷ numbers ts
  numbers (_ ∷ ts) = numbers ts

  unfoldable pub values : Items num → List num.Number
  values [] = []
  values (value n ∷ items) = n ∷ values items
  values (apply op ∷ items) = values items

  -- The numbers of an order whose last item stands first.
  kept : Items num → List num.Number
  kept out = values (reverse out)

  values-reverse_aux :
      (out items : Items num) → values (reverse_aux out items) ≡ kept out ++ values items
  unfolding kept values
  values-reverse_aux [] items = refl
  values-reverse_aux (value n ∷ out) items =
      values-reverse_aux out (value n ∷ items)
      ∙ sym (append_assoc (kept out) (n ∷ []) (values items))
      ∙ ap (λ xs. xs ++ values items) (sym (values-reverse_aux out (value n ∷ [])))
  values-reverse_aux (apply op ∷ out) items =
      values-reverse_aux out (apply op ∷ items)
      ∙ ap (λ xs. xs ++ values items)
          (sym (values-reverse_aux out (apply op ∷ []) ∙ append-nil (kept out)))

  kept_value : (n : num.Number) (out : Items num) → kept (value n ∷ out) ≡ kept out ++ n ∷ []
  unfolding kept values
  kept_value n out = values-reverse_aux out (value n ∷ [])

  kept_apply : (op : Op) (out : Items num) → kept (apply op ∷ out) ≡ kept out
  unfolding kept values
  kept_apply op out = values-reverse_aux out (apply op ∷ []) ∙ append-nil (kept out)

  close_par-kept :
      (out : Items num) (buf : List Waiting) (p : Items num × List Waiting)
      → close_par num out buf ≡ good p
      → kept p.0 ≡ kept out
  unfolding close_par
  close_par-kept out [] p h = ground (arith, h)
  close_par-kept out (open_par ∷ buf) p h =
      ap (λ c. kept (payload {A = Items num × List Waiting} (out, buf) c).0) (sym h)
  close_par-kept out (waits op ∷ buf) p h =
      close_par-kept (apply op ∷ out) buf p h ∙ kept_apply op out

  move_all-kept :
      (out : Items num) (buf : List Waiting) (items : Items num)
      → move_all num out buf ≡ good items
      → values items ≡ kept out
  unfolding move_all kept
  move_all-kept out [] items h = ap (λ c. values (payload (reverse out) c)) (sym h)
  move_all-kept out (waits op ∷ buf) items h =
      move_all-kept (apply op ∷ out) buf items h ∙ kept_apply op out
  move_all-kept out (open_par ∷ buf) items h = ground (arith, h)

  kept_if :
      (b : Bool) (out : Items num) (p q : Items num × List Waiting)
      → kept p.0 ≡ kept out
      → kept q.0 ≡ kept out
      → kept (if◌then◌else◌ {A = Items num × List Waiting} b p q).0 ≡ kept out
  kept_if true out p q h k = h
  kept_if false out p q h k = k

  put_op-kept :
      (op : Op) (out : Items num) (buf : List Waiting) → kept (put_op num op out buf).0 ≡ kept out
  unfolding put_op
  put_op-kept op out (waits last ∷ buf) =
      kept_if (leb (priority op) (priority last)) out _ _ (kept_apply last out) refl
  put_op-kept op out (open_par ∷ buf) = refl
  put_op-kept op out [] = refl

  after_close :
      (ts : Tokens num) (out : Items num) (c : Calc (Items num × List Waiting)) (items : Items num)
      → ((o : Items num) (buf : List Waiting)
          → postfix_from num ts o buf ≡ good items
          → values items ≡ kept o ++ numbers ts)
      → ((p : Items num × List Waiting) → c ≡ good p → kept p.0 ≡ kept out)
      → (c and_then λ p. postfix_from num ts p.0 p.1) ≡ good items
      → values items ≡ kept out ++ numbers ts
  unfolding ◌and_then◌
  after_close ts out (good p) items ih h e = ih p.0 p.1 e ∙ ap (λ xs. xs ++ numbers ts) (h p refl)
  after_close ts out (bad x) items ih h e = ground (arith, e)

  postfix_from-values :
      (ts : Tokens num) (out : Items num) (buf : List Waiting) (items : Items num)
      → postfix_from num ts out buf ≡ good items
      → values items ≡ kept out ++ numbers ts
  unfolding postfix_from numbers
  postfix_from-values [] out buf items e =
      move_all-kept out buf items e ∙ sym (append-nil (kept out))
  postfix_from-values (number n ∷ ts) out buf items e =
      postfix_from-values ts (value n ∷ out) buf items e
      ∙ ap (λ xs. xs ++ numbers ts) (kept_value n out)
      ∙ append_assoc (kept out) (n ∷ []) (numbers ts)
  postfix_from-values (l_par ∷ ts) out buf items e =
      postfix_from-values ts out (open_par ∷ buf) items e
  postfix_from-values (r_par ∷ ts) out buf items e =
      after_close ts out (close_par num out buf) items (λ o b. postfix_from-values ts o b items)
        (close_par-kept out buf) e
  postfix_from-values (oper op ∷ ts) out buf items e =
      postfix_from-values ts (put_op num op out buf).0 (put_op num op out buf).1 items e
      ∙ ap (λ xs. xs ++ numbers ts) (put_op-kept op out buf)

  -- Where tokens have a postfix order, it has exactly their numbers, in their order.
  pub postfix-numbers :
      (ts : Tokens num) (items : Items num)
      → postfix_from num ts [] [] ≡ good items
      → values items ≡ numbers ts
  unfolding kept values
  postfix-numbers ts items e = postfix_from-values ts [] [] items e
