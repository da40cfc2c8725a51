-- ===== src/Converter/Address/Digits.antt =====
-- The twenty decimal digits of an address.

use go_apla.Prelude.{
  lt→ltb, if_true, if_false, ℕ, zero, suc, ◌+◌, ◌-◌, ◌*◌, ◌/◌, ◌%◌, ◌<◌, ◌≤◌, ◌^◌, ◌≡◌, refl, sym,
  ap, ◌∙◌, [], ◌∷◌, ◌++◌, ltb, leb, ◌&&◌, length, replicate, length-append, append_assoc, arith,
  inl, inr, leb-cases,
}
use go_apla.Converter.Bytes.{Bytes}
use go_apla.Converter.Address.{
  format_from, format_uint, fill_zeros, number, syntax_error, range_error, parse_digits, parse_uint,
}

unfoldable pub fixed : ℕ → ℕ → Bytes
fixed zero n = []
fixed (suc k) n = fixed k (n / 10) ++ (48 + n % 10) ∷ []

pub length-fixed : (k n : ℕ) → length (fixed k n) ≡ k
unfolding fixed
length-fixed zero n = refl
length-fixed (suc k) n = length-append (fixed k (n / 10)) _ ∙ omega (arith, length-fixed k (n / 10))

abbrev zero_text : Bytes
zero_text = 48 ∷ []

replicate_last : (k : ℕ) → replicate k 48 ++ zero_text ≡ replicate (suc k) 48
replicate_last zero = refl
replicate_last (suc k) = ap (λ r. 48 ∷ r) (replicate_last k)

zeros-fixed : (k : ℕ) → replicate k 48 ≡ fixed k 0
unfolding fixed
zeros-fixed zero = refl
zeros-fixed (suc k) = sym (replicate_last k) ∙ ap (λ r. r ++ 48 ∷ []) (zeros-fixed k)

format_from_short : (k n : ℕ) → n < 10 → format_from (suc k) n ≡ (48 + n % 10) ∷ []
unfolding format_from
format_from_short k n h = ap (λ r. r ++ (48 + n % 10) ∷ []) (if_true _ (lt→ltb n 10 h))

format_from_long :
    (k n : ℕ) → 10 ≤ n → format_from (suc k) n ≡ format_from k (n / 10) ++ (48 + n % 10) ∷ []
unfolding format_from
format_from_long k n h =
    ap (λ r. r ++ (48 + n % 10) ∷ []) (if_false {b = ltb n 10} [] (ground arith))

length_none : (n : ℕ) → length (format_from zero n) ≤ zero
unfolding format_from
length_none n = omega arith

fill_none :
    (n : ℕ) → replicate (zero - length (format_from zero n)) 48 ++ format_from zero n ≡ fixed zero n
unfolding format_from fixed
fill_none n = refl

pub length-format_from : (k n : ℕ) → length (format_from k n) ≤ k
length-format_from zero n = length_none n
length-format_from (suc k) n =
    let front = format_from k (n / 10) in
    elim (leb-cases 10 n) [
      | inl h ↦ omega (
        arith,
        ap length (format_from_long k n h),
        length-append front ((48 + n % 10) ∷ []),
        length-format_from k (n / 10),
      )
      | inr h ↦ omega (arith, ap length (format_from_short k n h))
    ]

one_less : (k c : ℕ) → suc k - length (c ∷ []) ≡ k
one_less k c = omega arith

small_quotient : (n : ℕ) → n < 10 → 0 ≡ n / 10
small_quotient n h = omega (arith, h)

fill_short :
    (k n : ℕ)
    → n < 10
    → replicate (suc k - length ((48 + n % 10) ∷ [])) 48 ++ (48 + n % 10) ∷ [] ≡ fixed (suc k) n
unfolding fixed
fill_short k n h =
    let last = (48 + n % 10) ∷ [] in
    ap (λ m. replicate m 48 ++ last) (one_less k (48 + n % 10))
    ∙ ap (λ r. r ++ last) (zeros-fixed k ∙ ap (fixed k) (small_quotient n h))

missing :
    (k : ℕ) (front : Bytes) (c : ℕ)
    → length front ≤ k
    → suc k - length (front ++ c ∷ []) ≡ k - length front
missing k front c h = omega (arith, h, length-append front (c ∷ []))

fill_long :
    (k n : ℕ) (front : Bytes)
    → length front ≤ k
    → replicate (k - length front) 48 ++ front ≡ fixed k (n / 10)
    → replicate (suc k - length (front ++ (48 + n % 10) ∷ [])) 48 ++ (front ++ (48 + n % 10) ∷ [])
      ≡ fixed (suc k) n
unfolding fixed
fill_long k n front h e =
    let last = (48 + n % 10) ∷ [] in
    ap (λ m. replicate m 48 ++ (front ++ last)) (missing k front (48 + n % 10) h)
    ∙ sym (append_assoc (replicate (k - length front) 48) front last)
    ∙ ap (λ r. r ++ last) e

fill-format_from :
    (k n : ℕ) → replicate (k - length (format_from k n)) 48 ++ format_from k n ≡ fixed k n
fill-format_from zero n = fill_none n
fill-format_from (suc k) n = elim (leb-cases 10 n) [
  | inl h ↦
      ap (λ r. replicate (suc k - length r) 48 ++ r) (format_from_long k n h)
      ∙ fill_long k n (format_from k (n / 10)) (length-format_from k (n / 10))
          (fill-format_from k (n / 10))
  | inr h ↦
      ap (λ r. replicate (suc k - length r) 48 ++ r) (format_from_short k n h) ∙ fill_short k n h
]

pub fill_zeros-format_uint : (n : ℕ) → fill_zeros (format_uint n) ≡ fixed 20 n
unfolding fill_zeros format_uint
fill_zeros-format_uint n = fill-format_from 20 n

-- Texts of digits only.
unfoldable pub AreDigits : Bytes → Type 0
AreDigits [] = Unit {0}
AreDigits (c ∷ cs) = (48 ≤ c) × (c < 58) × AreDigits cs

pub append-AreDigits : (xs ys : Bytes) → AreDigits xs → AreDigits ys → AreDigits (xs ++ ys)
unfolding AreDigits
append-AreDigits [] ys h k = k
append-AreDigits (x ∷ xs) ys h k = (h.0, h.1, append-AreDigits xs ys h.2 k)

last-AreDigits : (n : ℕ) → AreDigits ((48 + n % 10) ∷ [])
unfolding AreDigits
last-AreDigits n = (omega arith, omega arith, tt)

none-AreDigits : AreDigits []
unfolding AreDigits
none-AreDigits = tt

pub fixed-AreDigits : (k n : ℕ) → AreDigits (fixed k n)
unfolding fixed
fixed-AreDigits zero n = none-AreDigits
fixed-AreDigits (suc k) n =
    append-AreDigits (fixed k (n / 10)) _ (fixed-AreDigits k (n / 10)) (last-AreDigits n)

parse_step :
    (a c : ℕ) (cs : Bytes)
    → 48 ≤ c
    → c < 58
    → a * 10 + (c - 48) < 2 ^ 64
    → parse_digits a (c ∷ cs) ≡ parse_digits (a * 10 + (c - 48)) cs
unfolding parse_digits
parse_step a c cs h k l =
    if_true {b = leb 48 c && ltb c 58} syntax_error (ground arith)
    ∙ if_true range_error (lt→ltb _ _ l)

-- What the digits are worth, read from the left.
pub value_from : ℕ → Bytes → ℕ
value_from a [] = a
value_from a (c ∷ cs) = value_from (a * 10 + (c - 48)) cs

value_from_ge : (a : ℕ) (xs : Bytes) → a ≤ value_from a xs
unfolding value_from
value_from_ge a [] = omega arith
value_from_ge a (c ∷ cs) = omega (arith, value_from_ge (a * 10 + (c - 48)) cs)

parse_none : (a : ℕ) → parse_digits a [] ≡ number a
unfolding parse_digits
parse_none a = refl

parse_digits_lem :
    (a : ℕ) (xs : Bytes)
    → AreDigits xs
    → value_from a xs < 2 ^ 64
    → parse_digits a xs ≡ number (value_from a xs)
unfolding AreDigits value_from
parse_digits_lem a [] h k = parse_none a
parse_digits_lem a (c ∷ cs) h k =
    let n = a * 10 + (c - 48) in
    parse_step a c cs h.0 h.1 (omega (arith, value_from_ge n cs, k)) ∙ parse_digits_lem n cs h.2 k

value_from-append :
    (a : ℕ) (xs : Bytes) (c : ℕ) → value_from a (xs ++ c ∷ []) ≡ value_from a xs * 10 + (c - 48)
unfolding value_from
value_from-append a [] c = refl
value_from-append a (x ∷ xs) c = value_from-append (a * 10 + (x - 48)) xs c

quotient_small : (k n : ℕ) → n < 10 ^ suc k → n / 10 < 10 ^ k
quotient_small k n h = grind arith

value_from-fixed : (k n : ℕ) → n < 10 ^ k → value_from 0 (fixed k n) ≡ n
unfolding fixed value_from
value_from-fixed zero n h = omega arith
value_from-fixed (suc k) n h =
    value_from-append 0 (fixed k (n / 10)) (48 + n % 10)
    ∙ omega (arith, value_from-fixed k (n / 10) (quotient_small k n h))

pub parse_uint-digits :
    (xs : Bytes)
    → 1 ≤ length xs
    → AreDigits xs
    → value_from 0 xs < 2 ^ 64
    → parse_uint xs ≡ number (value_from 0 xs)
unfolding parse_uint
parse_uint-digits [] p h k = ground arith
parse_uint-digits (c ∷ cs) p h k = parse_digits_lem 0 (c ∷ cs) h k

pub parse_uint-fixed : (n : ℕ) → n < 2 ^ 64 → parse_uint (fixed 20 n) ≡ number n
parse_uint-fixed n h =
    let worth = value_from-fixed 20 n (omega (arith, h)) in
    parse_uint-digits (fixed 20 n) (omega (arith, length-fixed 20 n)) (fixed-AreDigits 20 n)
      (omega (arith, h, worth))
    ∙ ap number worth
