-- ===== src/Converter/Hex/Back.antt =====
-- What hexadecimal texts read back to.
use mathlib.Core.Path.{subst}
use go_apla.Prelude.{
  ℕ, zero, suc, ◌+◌, ◌-◌, ◌*◌, ◌/◌, ◌%◌, ◌^◌, ◌<◌, ◌≤◌, ◌≡◌, refl, sym, ap, ◌∙◌, [], ◌∷◌, ◌++◌,
  some, ltb, length, replicate, length-append, append_assoc, arith, if_true, if_false, lt→ltb,
  leb-cases, inl, inr,
}
use go_apla.Prelude.Int.{pos, of_word}
use go_apla.Converter.Bytes.{Bytes, be_bytes}
use go_apla.Converter.Bytes.Values.{of_be-be_bytes}
use go_apla.Converter.Hex.{
  hex_char, hex_from, zeros_to, format_hex, hex_value, hex_pair, hex_to_bin, bin_to_hex, dec_to_bin,
  bin_to_dec,
}

unfoldable pub AreBytes : Bytes → Type 0
AreBytes [] = Unit {0}
AreBytes (b ∷ bs) = (b < 256) × AreBytes bs

hex_value-hex_char : (d : ℕ) → d < 16 → hex_value (hex_char d) ≡ some d
unfolding hex_value hex_char
hex_value-hex_char d h = ground arith

pair_again : (b : ℕ) → b / 16 * 16 + b % 16 ≡ b
pair_again b = omega arith

-- HexToBin reads back the bytes that BinToHex has printed.
pub hex_to_bin-bin_to_hex : (bs : Bytes) → AreBytes bs → hex_to_bin (bin_to_hex bs) ≡ bs
unfolding hex_to_bin bin_to_hex AreBytes hex_pair
hex_to_bin-bin_to_hex [] h = refl
hex_to_bin-bin_to_hex (b ∷ bs) h =
    ap (λ o. hex_pair o (hex_value (hex_char (b % 16))) (hex_to_bin (bin_to_hex bs)))
      (hex_value-hex_char (b / 16) (omega (arith, h.0)))
    ∙ ap (λ o. hex_pair (some (b / 16)) o (hex_to_bin (bin_to_hex bs)))
        (hex_value-hex_char (b % 16) (omega arith))
    ∙ ap (λ c. c ∷ hex_to_bin (bin_to_hex bs)) (pair_again b)
    ∙ ap (λ r. b ∷ r) (hex_to_bin-bin_to_hex bs h.1)

hex_digits : ℕ → ℕ → Bytes
hex_digits zero n = []
hex_digits (suc k) n = hex_digits k (n / 16) ++ hex_char (n % 16) ∷ []

abbrev zero_text : Bytes
zero_text = 48 ∷ []

replicate_last : (k : ℕ) → replicate k 48 ++ zero_text ≡ replicate (suc k) 48
replicate_last zero = refl
replicate_last (suc k) = ap (λ r. 48 ∷ r) (replicate_last k)

zeros-hex_digits : (k : ℕ) → replicate k 48 ≡ hex_digits k 0
unfolding hex_digits hex_char
zeros-hex_digits zero = refl
zeros-hex_digits (suc k) = sym (replicate_last k) ∙ ap (λ r. r ++ 48 ∷ []) (zeros-hex_digits k)

hex_from_short : (k n : ℕ) → n < 16 → hex_from (suc k) n ≡ hex_char (n % 16) ∷ []
unfolding hex_from
hex_from_short k n h = ap (λ r. r ++ hex_char (n % 16) ∷ []) (if_true _ (lt→ltb n 16 h))

hex_from_long :
    (k n : ℕ) → 16 ≤ n → hex_from (suc k) n ≡ hex_from k (n / 16) ++ hex_char (n % 16) ∷ []
unfolding hex_from
hex_from_long k n h =
    ap (λ r. r ++ hex_char (n % 16) ∷ []) (if_false {b = ltb n 16} [] (ground arith))

missing : (k : ℕ) (front : Bytes) (c : ℕ) → suc k - length (front ++ c ∷ []) ≡ k - length front
missing k front c = omega (arith, length-append front (c ∷ []))

small_quotient : (n : ℕ) → n < 16 → 0 ≡ n / 16
small_quotient n h = omega (arith, h)

quotient_lt : (k n : ℕ) → n < 16 ^ suc k → n / 16 < 16 ^ k
quotient_lt k n h = grind arith

one_less : (k c : ℕ) → suc k - length (c ∷ []) ≡ k
one_less k c = omega arith

zeros_to_short :
    (k n : ℕ) → n < 16 → zeros_to (suc k) (hex_char (n % 16) ∷ []) ≡ hex_digits (suc k) n
unfolding zeros_to hex_digits
zeros_to_short k n h =
    let last = hex_char (n % 16) ∷ [] in
    ap (λ m. replicate m 48 ++ last) (one_less k (hex_char (n % 16)))
    ∙ ap (λ r. r ++ last) (zeros-hex_digits k ∙ ap (hex_digits k) (small_quotient n h))

zeros_to-append :
    (k : ℕ) (front : Bytes) (c : ℕ)
    → zeros_to (suc k) (front ++ c ∷ []) ≡ zeros_to k front ++ c ∷ []
unfolding zeros_to
zeros_to-append k front c =
    ap (λ m. replicate m 48 ++ (front ++ c ∷ [])) (missing k front c)
    ∙ sym (append_assoc (replicate (k - length front) 48) front (c ∷ []))

last_digit :
    (k n : ℕ) → hex_digits (suc k) (n / 16) ++ hex_char (n % 16) ∷ [] ≡ hex_digits (suc (suc k)) n
unfolding hex_digits
last_digit k n = refl

by_256 : (n : ℕ) → n / 16 / 16 ≡ n / 256
by_256 n = omega arith

high : (n : ℕ) → n / 16 % 16 ≡ n % 256 / 16
high n = omega arith

low : (n : ℕ) → n % 16 ≡ n % 256 % 16
low n = omega arith

fits_short : (j k n : ℕ) → n < 16 → zeros_to (suc k) (hex_from (suc j) n) ≡ hex_digits (suc k) n
fits_short j k n h = ap (zeros_to (suc k)) (hex_from_short j n h) ∙ zeros_to_short k n h

-- As many digits as the width has room for.
zeros_to-hex_from :
    (j k n : ℕ)
    → n < 16 ^ suc j
    → n < 16 ^ suc k
    → zeros_to (suc k) (hex_from (suc j) n) ≡ hex_digits (suc k) n
zeros_to-hex_from zero k n g h = fits_short zero k n (omega (arith, g))
zeros_to-hex_from (suc j) zero n g h = fits_short (suc j) zero n (omega (arith, h))
zeros_to-hex_from (suc j) (suc k) n g h = elim (leb-cases 16 n) [
  | inl l ↦
      ap (zeros_to (suc (suc k))) (hex_from_long (suc j) n l)
      ∙ zeros_to-append (suc k) (hex_from (suc j) (n / 16)) (hex_char (n % 16))
      ∙ ap (λ r. r ++ hex_char (n % 16) ∷ [])
          (zeros_to-hex_from j k (n / 16) (quotient_lt (suc j) n g) (quotient_lt (suc k) n h))
      ∙ last_digit k n
  | inr l ↦ fits_short (suc j) (suc k) n l
]

twice : ℕ → ℕ
twice zero = zero
twice (suc s) = suc (suc (twice s))

bin_to_hex-append :
    (xs : Bytes) (b : ℕ)
    → bin_to_hex (xs ++ b ∷ []) ≡ bin_to_hex xs ++ hex_char (b / 16) ∷ hex_char (b % 16) ∷ []
unfolding bin_to_hex
bin_to_hex-append [] b = refl
bin_to_hex-append (x ∷ xs) b =
    ap (λ r. hex_char (x / 16) ∷ hex_char (x % 16) ∷ r) (bin_to_hex-append xs b)

two_digits : (xs : Bytes) (c d : ℕ) → (xs ++ c ∷ []) ++ d ∷ [] ≡ xs ++ c ∷ d ∷ []
two_digits xs c d = append_assoc xs (c ∷ []) (d ∷ [])

digits-bytes : (s n : ℕ) → hex_digits (twice s) n ≡ bin_to_hex (be_bytes s n)
unfolding hex_digits twice be_bytes bin_to_hex
digits-bytes zero n = refl
digits-bytes (suc s) n =
    two_digits (hex_digits (twice s) (n / 16 / 16)) (hex_char (n / 16 % 16)) (hex_char (n % 16))
    ∙ ap (λ q. hex_digits (twice s) q ++ hex_char (n / 16 % 16) ∷ hex_char (n % 16) ∷ []) (by_256 n)
    ∙ ap (λ r. r ++ hex_char (n / 16 % 16) ∷ hex_char (n % 16) ∷ []) (digits-bytes s (n / 256))
    ∙ ap (λ c. bin_to_hex (be_bytes s (n / 256)) ++ hex_char c ∷ hex_char (n % 16) ∷ []) (high n)
    ∙ ap (λ d. bin_to_hex (be_bytes s (n / 256)) ++ hex_char (n % 256 / 16) ∷ hex_char d ∷ [])
        (low n)
    ∙ sym (bin_to_hex-append (be_bytes s (n / 256)) (n % 256))

pub append-AreBytes : (xs ys : Bytes) → AreBytes xs → AreBytes ys → AreBytes (xs ++ ys)
unfolding AreBytes
append-AreBytes [] ys h k = k
append-AreBytes (x ∷ xs) ys h k = (h.0, append-AreBytes xs ys h.1 k)

pub be_bytes-AreBytes : (k n : ℕ) → AreBytes (be_bytes k n)
unfolding be_bytes AreBytes
be_bytes-AreBytes zero n = tt
be_bytes-AreBytes (suc k) n =
    append-AreBytes (be_bytes k (n / 256)) _ (be_bytes-AreBytes k (n / 256)) (omega arith, tt)

twice_lem : (s : ℕ) → s * 2 ≡ twice s
unfolding twice
twice_lem zero = refl
twice_lem (suc s) = omega (arith, twice_lem s)

-- In the size that is asked for, DecToBin is the number in big-endian order.
pub dec_to_bin-be_bytes :
    (s n : ℕ) → n < 16 ^ (suc s * 2) → n < 16 ^ 16 → dec_to_bin (pos n) (suc s) ≡ be_bytes (suc s) n
unfolding dec_to_bin format_hex twice
dec_to_bin-be_bytes s n h g =
    let bytes = be_bytes (suc s) n in
    ap (λ w. hex_to_bin (zeros_to w (hex_from 16 n))) (twice_lem (suc s))
    ∙ ap hex_to_bin (
        zeros_to-hex_from 15 (suc (twice s)) n g (subst (λ w. n < 16 ^ w) (twice_lem (suc s)) h)
        ∙ digits-bytes (suc s) n)
    ∙ hex_to_bin-bin_to_hex bytes (be_bytes-AreBytes (suc s) n)

-- A number that has room in some bytes reads back from them.
pub bin_to_dec-be_bytes : (k n : ℕ) → n < 256 ^ k → n < 2 ^ 63 → bin_to_dec (be_bytes k n) ≡ pos n
unfolding bin_to_dec of_word
bin_to_dec-be_bytes k n h g = ap (λ w. of_word (w % 2 ^ 64)) (of_be-be_bytes k n h) ∙ ground arith
