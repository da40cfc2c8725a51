-- ===== src/Converter/Address/Check.antt =====
-- The check digit of an address, and the text of an address without its dashes.
use go_apla.Prelude.{
  append-nil, ℕ, zero, suc, ◌+◌, ◌*◌, ◌/◌, ◌%◌, ◌<◌, ◌≡◌, refl, sym, ap, ◌∙◌, [], ◌∷◌, ◌++◌, ◌==◌,
  take, drop, arith, Bool-cases, inl, inr, take-append, drop-append, if_false, take-append-drop,
}
use go_apla.Prelude.Int.{ℤ, to_word}
use go_apla.Converter.Bytes.{Bytes}
use go_apla.Converter.Address.{
  last_digit, checks, check_sum, remove_dashes, groups, address_to_string,
}
use go_apla.Converter.Address.Digits.{
  fixed, length-fixed, fill_zeros-format_uint, AreDigits, fixed-AreDigits,
}

-- The first nineteen digits and the last one.
pub take-fixed : (n : ℕ) → take 19 (fixed 20 n) ≡ fixed 19 (n / 10)
unfolding fixed
take-fixed n =
    ap (λ k. take k (fixed 20 n)) (sym (length-fixed 19 (n / 10)))
    ∙ take-append (fixed 19 (n / 10)) ((48 + n % 10) ∷ [])

drop-fixed : (n : ℕ) → drop 19 (fixed 20 n) ≡ (48 + n % 10) ∷ []
unfolding fixed
drop-fixed n =
    ap (λ k. drop k (fixed 20 n)) (sym (length-fixed 19 (n / 10)))
    ∙ drop-append (fixed 19 (n / 10)) ((48 + n % 10) ∷ [])

last_digit-fixed : (n : ℕ) → last_digit (drop 19 (fixed 20 n)) ≡ n % 10
last_digit-fixed n = ap last_digit (drop-fixed n) ∙ omega arith

pub checks-fixed : (n : ℕ) → checks (fixed 20 n) ≡ (check_sum (fixed 19 (n / 10)) == n % 10)
unfolding checks
checks-fixed n =
    ap (λ s. check_sum s == last_digit (drop 19 (fixed 20 n))) (take-fixed n)
    ∙ ap (λ d. check_sum (fixed 19 (n / 10)) == d) (last_digit-fixed n)

pub check_sum_lt : (s : Bytes) → check_sum s < 10
unfolding check_sum
check_sum_lt s = ground arith

remove_dashes-append :
    (xs ys : Bytes) → remove_dashes (xs ++ ys) ≡ remove_dashes xs ++ remove_dashes ys
unfolding remove_dashes
remove_dashes-append [] ys = refl
remove_dashes-append (x ∷ xs) ys = elim (Bool-cases (x == 45)) [
  | inl h ↦ rw (h, remove_dashes-append xs ys)
  | inr h ↦ rw (h, remove_dashes-append xs ys)
]

pub remove_dashes_lem : (xs : Bytes) → AreDigits xs → remove_dashes xs ≡ xs
unfolding remove_dashes AreDigits
remove_dashes_lem [] h = refl
remove_dashes_lem (x ∷ xs) h =
    if_false {b = x == 45} (remove_dashes xs) (ground (arith, h.0))
    ∙ ap (λ r. x ∷ r) (remove_dashes_lem xs h.2)

pub take-AreDigits : (k : ℕ) (xs : Bytes) → AreDigits xs → AreDigits (take k xs)
unfolding AreDigits
take-AreDigits zero xs h = tt
take-AreDigits (suc k) [] h = tt
take-AreDigits (suc k) (x ∷ xs) h = (h.0, h.1, take-AreDigits k xs h.2)

pub drop-AreDigits : (k : ℕ) (xs : Bytes) → AreDigits xs → AreDigits (drop k xs)
unfolding AreDigits
drop-AreDigits zero xs h = h
drop-AreDigits (suc k) [] h = tt
drop-AreDigits (suc k) (x ∷ xs) h = drop-AreDigits k xs h.2

-- A group of four digits loses its dash.
remove_group :
    (ret val : Bytes) (i : ℕ)
    → AreDigits val
    → remove_dashes (ret ++ take 4 (drop (i * 4) val) ++ 45 ∷ [])
      ≡ remove_dashes ret ++ take 4 (drop (i * 4) val)
unfolding remove_dashes
remove_group ret val i h =
    let group = take 4 (drop (i * 4) val) in
    remove_dashes-append (ret ++ group) (45 ∷ [])
    ∙ append-nil (remove_dashes (ret ++ group))
    ∙ remove_dashes-append ret group
    ∙ ap (λ g. remove_dashes ret ++ g)
        (remove_dashes_lem group
          (take-AreDigits 4 (drop (i * 4) val) (drop-AreDigits (i * 4) val h)))

abbrev none_left : Bytes
none_left = []

take_none : (n : ℕ) → take n none_left ≡ []
take_none zero = refl
take_none (suc n) = refl

take_more : (m n k : ℕ) (xs : Bytes) → k ≡ m + n → take m xs ++ take n (drop m xs) ≡ take k xs
take_more zero n k xs e = ap (λ j. take j xs) (omega (arith, e))
take_more (suc m) n zero xs e = ground arith
take_more (suc m) n (suc k) [] e = take_none n
take_more (suc m) n (suc k) (x ∷ xs) e = ap (λ r. x ∷ r) (take_more m n k xs (omega (arith, e)))

remove_dashes-groups :
    (left i : ℕ) (val ret : Bytes)
    → AreDigits val
    → remove_dashes ret ≡ take (i * 4) val
    → remove_dashes (groups left i val ret) ≡ take ((left + i) * 4) val
unfolding groups
remove_dashes-groups zero i val ret h e = e ∙ ap (λ k. take k val) (omega arith)
remove_dashes-groups (suc left) i val ret h e =
    let group = take 4 (drop (i * 4) val) in
    remove_dashes-groups left (suc i) val _ h (
      remove_group ret val i h
      ∙ ap (λ r. r ++ group) e
      ∙ take_more (i * 4) 4 (suc i * 4) val (omega arith))
    ∙ ap (λ k. take k val) (omega arith)

pub remove_dashes-address_to_string :
    (a : ℤ) → remove_dashes (address_to_string a) ≡ fixed 20 (to_word a)
unfolding address_to_string remove_dashes
remove_dashes-address_to_string a =
    let val = fixed 20 (to_word a) in
    let digits = fixed-AreDigits 20 (to_word a) in
    ap (λ v. remove_dashes (groups 4 0 v [] ++ drop 16 v)) (fill_zeros-format_uint (to_word a))
    ∙ remove_dashes-append (groups 4 0 val []) (drop 16 val)
    ∙ ap (λ r. r ++ remove_dashes (drop 16 val)) (remove_dashes-groups 4 0 val [] digits refl)
    ∙ ap (λ r. take 16 val ++ r) (remove_dashes_lem (drop 16 val) (drop-AreDigits 16 val digits))
    ∙ take-append-drop 16 val
