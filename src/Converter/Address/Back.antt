-- ===== src/Converter/Address/Back.antt =====
-- The readings of AddressToID (packages/smart/funcs.go) on the texts of addresses.
use mathlib.Core.List.{reverse, reverse-cons, reverse-reverse}
use mathlib.Core.Path.{subst}
use go_apla.Prelude.{
  ℕ, zero, suc, ◌+◌, ◌*◌, ◌≤◌, ◌≡◌, refl, sym, ap, ◌∙◌, true, false, [], ◌∷◌, ◌++◌, if◌then◌else◌,
  ◌==◌, ltb, leb, ◌||◌, ◌&&◌, length, take, drop, arith, if_true, if_false, Bool-cases, inl, inr,
}
use go_apla.Prelude.Int.{ℤ, pos, to_word, of_word, IsInt64}
use go_apla.Converter.Bytes.{Bytes}
use go_apla.Converter.Address.{groups, address_to_string, string_to_address, is_valid_address}
use go_apla.Converter.Address.Digits.{fixed, fill_zeros-format_uint, AreDigits, fixed-AreDigits}
use go_apla.Converter.Address.Check.{take-AreDigits, drop-AreDigits}
use go_apla.Converter.Address.Text.{
  DigitFirst, address_to_string-DigitFirst, address_to_string_ge,
  string_to_address-address_to_string,
}
use go_apla.Converter.Address.Ids.{
  trim_left, trim_space, count_dashes, read_address, checked_id, address_to_id, invalid,
  id_to_address,
}

-- Texts without a space, of which strings.TrimSpace takes nothing.
HasNoSpace : Bytes → Type 0
HasNoSpace [] = Unit {0}
HasNoSpace (c ∷ cs) = (33 ≤ c) × HasNoSpace cs

append-HasNoSpace : (xs ys : Bytes) → HasNoSpace xs → HasNoSpace ys → HasNoSpace (xs ++ ys)
unfolding HasNoSpace
append-HasNoSpace [] ys h k = k
append-HasNoSpace (x ∷ xs) ys h k = (h.0, append-HasNoSpace xs ys h.1 k)

one-HasNoSpace : (c : ℕ) → 33 ≤ c → HasNoSpace (c ∷ [])
unfolding HasNoSpace
one-HasNoSpace c h = (h, tt)

reverse-HasNoSpace : (xs : Bytes) → HasNoSpace xs → HasNoSpace (reverse xs)
unfolding HasNoSpace
reverse-HasNoSpace [] h = h
reverse-HasNoSpace (x ∷ xs) h =
    subst HasNoSpace (sym (reverse-cons x xs))
      (append-HasNoSpace (reverse xs) _ (reverse-HasNoSpace xs h.1) (one-HasNoSpace x h.0))

trim_left_lem : (xs : Bytes) → HasNoSpace xs → trim_left xs ≡ xs
unfolding trim_left HasNoSpace
trim_left_lem [] h = refl
trim_left_lem (c ∷ cs) h =
    if_false {b = (c == 32) || (leb 9 c && leb c 13)} (trim_left cs) (ground (arith, h.0))

trim_space_lem : (xs : Bytes) → HasNoSpace xs → trim_space xs ≡ xs
unfolding trim_space
trim_space_lem xs h =
    ap (λ s. reverse (trim_left (reverse s))) (trim_left_lem xs h)
    ∙ ap reverse (trim_left_lem (reverse xs) (reverse-HasNoSpace xs h))
    ∙ reverse-reverse xs

AreDigits-HasNoSpace : (xs : Bytes) → AreDigits xs → HasNoSpace xs
unfolding AreDigits HasNoSpace
AreDigits-HasNoSpace [] h = tt
AreDigits-HasNoSpace (c ∷ cs) h = (omega (arith, h.0), AreDigits-HasNoSpace cs h.2)

groups-HasNoSpace :
    (left i : ℕ) (val ret : Bytes)
    → AreDigits val
    → HasNoSpace ret
    → HasNoSpace (groups left i val ret)
unfolding groups
groups-HasNoSpace zero i val ret h k = k
groups-HasNoSpace (suc left) i val ret h k =
    let group = take 4 (drop (i * 4) val) in
    groups-HasNoSpace left (suc i) val _ h (
      append-HasNoSpace (ret ++ group) _
        (append-HasNoSpace ret group k
          (AreDigits-HasNoSpace group (take-AreDigits 4 _ (drop-AreDigits (i * 4) val h))))
        (one-HasNoSpace 45 (omega arith)))

count_dashes-append : (xs ys : Bytes) → count_dashes (xs ++ ys) ≡ count_dashes xs + count_dashes ys
unfolding count_dashes
count_dashes-append [] ys = omega arith
count_dashes-append (x ∷ xs) ys = ground (arith, count_dashes-append xs ys)

count_dashes-AreDigits : (xs : Bytes) → AreDigits xs → count_dashes xs ≡ 0
unfolding count_dashes AreDigits
count_dashes-AreDigits [] h = refl
count_dashes-AreDigits (x ∷ xs) h = ground (arith, h.0, count_dashes-AreDigits xs h.2)

one_dash : count_dashes (45 ∷ []) ≡ 1
unfolding count_dashes
one_dash = refl

no_dash : count_dashes [] ≡ 0
unfolding count_dashes
no_dash = refl

count_dashes-groups :
    (left i : ℕ) (val ret : Bytes)
    → AreDigits val
    → count_dashes (groups left i val ret) ≡ count_dashes ret + left
unfolding groups
count_dashes-groups zero i val ret h = omega arith
count_dashes-groups (suc left) i val ret h =
    let group = take 4 (drop (i * 4) val) in
    count_dashes-groups left (suc i) val _ h
    ∙ omega (
      arith,
      count_dashes-append (ret ++ group) (45 ∷ []),
      count_dashes-append ret group,
      one_dash,
      count_dashes-AreDigits group (take-AreDigits 4 _ (drop-AreDigits (i * 4) val h)),
    )

laid_out : ℤ → Bytes
laid_out a = groups 4 0 (fixed 20 (to_word a)) [] ++ drop 16 (fixed 20 (to_word a))

address_to_string-laid_out : (a : ℤ) → address_to_string a ≡ laid_out a
unfolding address_to_string laid_out
address_to_string-laid_out a =
    ap (λ v. groups 4 0 v [] ++ drop 16 v) (fill_zeros-format_uint (to_word a))

no_text : HasNoSpace []
unfolding HasNoSpace
no_text = tt

laid_out-HasNoSpace : (a : ℤ) → HasNoSpace (laid_out a)
unfolding laid_out
laid_out-HasNoSpace a =
    let val = fixed 20 (to_word a) in
    let digits = fixed-AreDigits 20 (to_word a) in
    append-HasNoSpace _ (drop 16 val) (groups-HasNoSpace 4 0 val [] digits no_text)
      (AreDigits-HasNoSpace _ (drop-AreDigits 16 val digits))

four_dashes : (a : ℤ) → count_dashes (laid_out a) ≡ 4
unfolding laid_out
four_dashes a =
    let val = fixed 20 (to_word a) in
    let digits = fixed-AreDigits 20 (to_word a) in
    omega (
      arith,
      count_dashes-append (groups 4 0 val []) (drop 16 val),
      count_dashes-groups 4 0 val [] digits,
      no_dash,
      count_dashes-AreDigits (drop 16 val) (drop-AreDigits 16 val digits),
    )

read_grouped :
    (text : Bytes)
    → DigitFirst text
    → count_dashes text ≡ 4
    → read_address text ≡ string_to_address text
unfolding read_address DigitFirst
read_grouped [] h e = absurd h
read_grouped (c ∷ cs) h e =
    if_false {b = c == 45} _ (ground (arith, h.0))
    ∙ if_true {b = count_dashes (c ∷ cs) == 4} _ (ground (arith, e))

long_text : (a : ℤ) → ltb (length (address_to_string a)) 2 ≡ false
long_text a = ground (arith, address_to_string_ge a)

read_own_text :
    (a : ℤ)
    → IsInt64 a
    → address_to_id (address_to_string a) ≡ checked_id (string_to_address (address_to_string a))
unfolding address_to_id
read_own_text a h =
    let text = address_to_string a in
    let layout = address_to_string-laid_out a in
    let trimmed : trim_space text ≡ text =
      trim_space_lem text (subst HasNoSpace (sym layout) (laid_out-HasNoSpace a)) in
    ap (λ t. if ltb (length t) 2 then pos 0 else checked_id (read_address t)) trimmed
    ∙ if_false (pos 0) (long_text a)
    ∙ ap checked_id (
        read_grouped text (address_to_string-DigitFirst a) (ap count_dashes layout ∙ four_dashes a))

valid_text :
    (a : ℤ)
    → IsInt64 a
    → is_valid_address (address_to_string a) ≡ true
    → address_to_id (address_to_string a) ≡ a
unfolding checked_id
valid_text a h v =
    let back = string_to_address-address_to_string a h ∙ if_true (pos 0) v in
    read_own_text a h ∙ ap checked_id back ∙ if_true (pos 0) v

invalid_text : address_to_id invalid ≡ pos 0
unfolding address_to_id checked_id to_word of_word
invalid_text = refl

-- AddressToID reads the text that IDToAddress gives of an int64 back to that number where
-- IsValidAddress accepts it as an address, and to 0 where IDToAddress has no address for it.
pub address_to_id-id_to_address :
    (id : ℤ)
    → IsInt64 id
    → address_to_id (id_to_address id)
      ≡ (if is_valid_address (address_to_string id) then id else pos 0)
unfolding id_to_address
address_to_id-id_to_address id h = elim (Bool-cases (is_valid_address (address_to_string id))) [
  | inl v ↦ ap address_to_id (if_true invalid v) ∙ valid_text id h v ∙ sym (if_true (pos 0) v)
  | inr v ↦
      ap address_to_id (if_false (address_to_string id) v) ∙ invalid_text ∙ sym (if_false id v)
]
