-- ===== src/Converter/Address/Text.antt =====
-- The text of an address and what it reads back to.
use mathlib.Core.Path.{subst}
use go_apla.Prelude.{
  replicate, ℕ, zero, suc, ◌-◌, ◌<◌, ◌≤◌, ◌^◌, ◌≡◌, refl, sym, ap, ◌∙◌, true, [], ◌∷◌, ◌++◌,
  if◌then◌else◌, ◌==◌, ◌&&◌, length, take, drop, arith, if_true, if_false,
}
use go_apla.Prelude.Int.{ℤ, pos, negsuc, to_word, of_word, IsInt64}
use go_apla.Converter.Bytes.{Bytes}
use go_apla.Converter.Length.Back.{of_word-to_word}
use go_apla.Converter.Address.{
  fill_zeros, parse_uint, checks, remove_dashes, groups, address_to_string, string_to_address,
  address_value, checked_value, is_valid_address, is_number,
}
use go_apla.Converter.Address.Digits.{
  fixed, length-fixed, fill_zeros-format_uint, AreDigits, fixed-AreDigits, parse_uint-fixed,
}
use go_apla.Converter.Address.Check.{remove_dashes-address_to_string}

pub to_word_lt : (a : ℤ) → to_word a < 2 ^ 64
unfolding to_word
to_word_lt (pos n) = ground arith
to_word_lt (negsuc n) = ground arith

has_twenty : (n : ℕ) → (length (fixed 20 n) == 20) ≡ true
has_twenty n = ground (arith, length-fixed 20 n)

pub is_valid_address-address_to_string :
    (a : ℤ) → is_valid_address (address_to_string a) ≡ checks (fixed 20 (to_word a))
unfolding is_valid_address
is_valid_address-address_to_string a =
    let n = to_word a in
    ap (λ val. (length val == 20) && is_number (parse_uint val) && checks val)
      (remove_dashes-address_to_string a)
    ∙ ap (λ b. b && is_number (parse_uint (fixed 20 n)) && checks (fixed 20 n)) (has_twenty n)
    ∙ ap (λ r. is_number r && checks (fixed 20 n)) (parse_uint-fixed n (to_word_lt a))

-- The value of a text that is long enough to need no zeros.
long_value :
    (text : Bytes) (n : ℕ)
    → fill_zeros text ≡ text
    → remove_dashes text ≡ fixed 20 n
    → n < 2 ^ 64
    → address_value text ≡ (if checks (fixed 20 n) then of_word n else pos 0)
unfolding address_value checked_value
long_value text n long e h =
    ap
      (λ t.
        if length (remove_dashes t) == 20
        then checked_value (remove_dashes t) (parse_uint (remove_dashes t))
        else pos 0)
      long
    ∙ ap (λ val. if length val == 20 then checked_value val (parse_uint val) else pos 0) e
    ∙ if_true (pos 0) (has_twenty n)
    ∙ ap (λ r. checked_value (fixed 20 n) r) (parse_uint-fixed n h)

remove_dashes_le : (xs : Bytes) → length (remove_dashes xs) ≤ length xs
unfolding remove_dashes
remove_dashes_le [] = omega arith
remove_dashes_le (x ∷ xs) = ground (arith, remove_dashes_le xs)

no_zeros : (n : ℕ) (xs : Bytes) → n ≡ 0 → replicate n 48 ++ xs ≡ xs
no_zeros zero xs e = refl
no_zeros (suc n) xs e = ground arith

fill_zeros_long : (xs : Bytes) → 20 ≤ length xs → fill_zeros xs ≡ xs
unfolding fill_zeros
fill_zeros_long xs h = no_zeros (20 - length xs) xs (omega (arith, h))

pub address_to_string_ge : (a : ℤ) → 20 ≤ length (address_to_string a)
address_to_string_ge a = omega (
  arith,
  remove_dashes_le (address_to_string a),
  ap length (remove_dashes-address_to_string a),
  length-fixed 20 (to_word a),
)

-- A text that does not start with a dash.
unfoldable pub DigitFirst : Bytes → Type 0
DigitFirst [] = ⊥
DigitFirst (c ∷ cs) = (48 ≤ c) × (c < 58)

append-DigitFirst : (xs ys : Bytes) → DigitFirst xs → DigitFirst (xs ++ ys)
unfolding DigitFirst
append-DigitFirst [] ys h = absurd h
append-DigitFirst (x ∷ xs) ys h = h

AreDigits-DigitFirst : (xs : Bytes) → 1 ≤ length xs → AreDigits xs → DigitFirst xs
unfolding DigitFirst AreDigits
AreDigits-DigitFirst [] p h = ground arith
AreDigits-DigitFirst (x ∷ xs) p h = (h.0, h.1)

take-DigitFirst : (k : ℕ) (xs : Bytes) → DigitFirst xs → DigitFirst (take (suc k) xs)
unfolding DigitFirst
take-DigitFirst k [] h = h
take-DigitFirst k (x ∷ xs) h = h

groups-DigitFirst :
    (left i : ℕ) (val ret : Bytes) → DigitFirst ret → DigitFirst (groups left i val ret)
unfolding groups
groups-DigitFirst zero i val ret h = h
groups-DigitFirst (suc left) i val ret h =
    groups-DigitFirst left (suc i) val _ (append-DigitFirst _ _ (append-DigitFirst ret _ h))

first_group : (val : Bytes) → DigitFirst val → DigitFirst (groups 4 0 val [] ++ drop 16 val)
unfolding groups
first_group val h =
    append-DigitFirst _ (drop 16 val)
      (groups-DigitFirst 3 1 val _ (append-DigitFirst _ _ (take-DigitFirst 3 val h)))

pub address_to_string-DigitFirst : (a : ℤ) → DigitFirst (address_to_string a)
unfolding address_to_string
address_to_string-DigitFirst a =
    let digits = fixed-AreDigits 20 (to_word a) in
    subst (λ v. DigitFirst (groups 4 0 v [] ++ drop 16 v))
      (sym (fill_zeros-format_uint (to_word a)))
      (first_group (fixed 20 (to_word a))
        (AreDigits-DigitFirst _ (omega (arith, length-fixed 20 (to_word a))) digits))

pub string_to_address_plain :
    (text : Bytes) → DigitFirst text → string_to_address text ≡ address_value text
unfolding string_to_address DigitFirst
string_to_address_plain [] h = absurd h
string_to_address_plain (c ∷ cs) h = if_false {b = c == 45} _ (ground (arith, h.0))

-- StringToAddress reads the text that AddressToString gives of an int64 back to that number where
-- IsValidAddress accepts the text, and to 0 where it does not.
pub string_to_address-address_to_string :
    (a : ℤ)
    → IsInt64 a
    → string_to_address (address_to_string a)
      ≡ (if is_valid_address (address_to_string a) then a else pos 0)
string_to_address-address_to_string a h =
    let text = address_to_string a in
    string_to_address_plain text (address_to_string-DigitFirst a)
    ∙ long_value text (to_word a) (fill_zeros_long text (address_to_string_ge a))
        (remove_dashes-address_to_string a) (to_word_lt a)
    ∙ ap (λ b. if b then of_word (to_word a) else pos 0)
        (sym (is_valid_address-address_to_string a))
    ∙ ap (λ z. if is_valid_address text then z else pos 0) (of_word-to_word a h)
