-- ===== src/Converter/Bytes/Values.antt =====
-- What the bytes of a number are worth, with the zeros that an encoding leaves out.
use Prim.Native.Nat.{ℕ, zero, suc}
use go_apla.Prelude.{
  ◌+◌, ◌*◌, ◌/◌, ◌%◌, ◌^◌, ◌≤◌, ◌<◌, ◌≡◌, refl, ap, ◌∙◌, true, [], ◌∷◌, ◌++◌, arith, length,
  length-append, take, drop, replicate, Bool-cases, inl, inr,
}
use go_apla.Converter.Bytes.{
  Bytes, le_bytes, of_le, be_bytes, of_be_from, of_be, copy_into, zero_at, trim_zeros, skip_zeros,
}

pub length-le_bytes : (k x : ℕ) → length (le_bytes k x) ≡ k
unfolding le_bytes
length-le_bytes zero x = refl
length-le_bytes (suc k) x = ap suc (length-le_bytes k (x / 256))

pub length-be_bytes : (k x : ℕ) → length (be_bytes k x) ≡ k
unfolding be_bytes
length-be_bytes zero x = refl
length-be_bytes (suc k) x =
    length-append (be_bytes k (x / 256)) _ ∙ omega (arith, length-be_bytes k (x / 256))

of_be_from-append :
    (a : ℕ) (xs : Bytes) (b : ℕ) → of_be_from a (xs ++ b ∷ []) ≡ of_be_from a xs * 256 + b
unfolding of_be_from
of_be_from-append a [] b = refl
of_be_from-append a (x ∷ xs) b = of_be_from-append (a * 256 + x) xs b

quotient_small : (k x : ℕ) → x < 256 ^ suc k → x / 256 < 256 ^ k
quotient_small k x h = grind arith

pub of_be-be_bytes : (k x : ℕ) → x < 256 ^ k → of_be (be_bytes k x) ≡ x
unfolding be_bytes of_be_from
of_be-be_bytes zero x h = omega arith
of_be-be_bytes (suc k) x h =
    of_be_from-append 0 (be_bytes k (x / 256)) (x % 256)
    ∙ omega (arith, of_be-be_bytes k (x / 256) (quotient_small k x h))

pub of_le-le_bytes : (k x : ℕ) → x < 256 ^ k → of_le (le_bytes k x) ≡ x
unfolding le_bytes of_le
of_le-le_bytes zero x h = omega arith
of_le-le_bytes (suc k) x h = omega (arith, of_le-le_bytes k (x / 256) (quotient_small k x h))

-- Leading zeros are worth nothing in the one order, and trailing zeros in the other.
pub of_be-zeros : (n : ℕ) (xs : Bytes) → of_be (replicate n 0 ++ xs) ≡ of_be xs
unfolding of_be_from
of_be-zeros zero xs = refl
of_be-zeros (suc n) xs = of_be-zeros n xs

of_le-zeros : (n : ℕ) → of_le (replicate n 0) ≡ 0
unfolding of_le
of_le-zeros zero = refl
of_le-zeros (suc n) = omega (arith, of_le-zeros n)

pub of_le-copy_into :
    (n : ℕ) (xs : Bytes) → length xs ≤ n → of_le (copy_into (replicate n 0) xs) ≡ of_le xs
unfolding of_le copy_into
of_le-copy_into zero [] h = refl
of_le-copy_into zero (x ∷ xs) h = omega (arith, h)
of_le-copy_into (suc n) [] h = of_le-zeros (suc n)
of_le-copy_into (suc n) (x ∷ xs) h = omega (arith, of_le-copy_into n xs (omega (arith, h)))

of_be-drop :
    (xs : Bytes) (i : ℕ) → zero_at xs i ≡ true → of_be (drop (suc i) xs) ≡ of_be (drop i xs)
unfolding of_be_from
of_be-drop [] zero h = refl
of_be-drop [] (suc i) h = refl
of_be-drop (zero ∷ xs) zero h = refl
of_be-drop (suc x ∷ xs) zero h = ground arith
of_be-drop (x ∷ xs) (suc i) h = of_be-drop xs i h

of_le-take :
    (xs : Bytes) (i : ℕ) → zero_at xs i ≡ true → of_le (take (suc i) xs) ≡ of_le (take i xs)
unfolding of_le
of_le-take [] zero h = refl
of_le-take [] (suc i) h = refl
of_le-take (zero ∷ xs) zero h = refl
of_le-take (suc x ∷ xs) zero h = ground arith
of_le-take (x ∷ xs) (suc i) h = omega (arith, of_le-take xs i h)

pub of_be-skip_zeros :
    (left : ℕ) (xs : Bytes) (i : ℕ) → of_be (drop (skip_zeros left xs i) xs) ≡ of_be (drop i xs)
unfolding skip_zeros
of_be-skip_zeros zero xs i = refl
of_be-skip_zeros (suc left) xs i = elim (Bool-cases (zero_at xs i)) [
  | inl h ↦ rw (h, of_be-skip_zeros left xs (suc i), of_be-drop xs i h)
  | inr h ↦ rw h
]

pub of_le-trim_zeros : (n : ℕ) (xs : Bytes) → of_le (take (trim_zeros n xs) xs) ≡ of_le (take n xs)
unfolding trim_zeros
of_le-trim_zeros zero xs = refl
of_le-trim_zeros (suc n) xs = elim (Bool-cases (zero_at xs n)) [
  | inl h ↦ rw (h, of_le-trim_zeros n xs, of_le-take xs n h)
  | inr h ↦ rw h
]

pub trim_zeros_le : (n : ℕ) (xs : Bytes) → trim_zeros n xs ≤ n
unfolding trim_zeros
trim_zeros_le zero xs = omega arith
trim_zeros_le (suc n) xs = ground (arith, trim_zeros_le n xs)

-- The bounds of the index at which the zeros end.
pub skip_zeros_ge : (left : ℕ) (xs : Bytes) (i : ℕ) → i ≤ skip_zeros left xs i
unfolding skip_zeros
skip_zeros_ge zero xs i = omega arith
skip_zeros_ge (suc left) xs i = ground (arith, skip_zeros_ge left xs (suc i))

pub skip_zeros_le : (left : ℕ) (xs : Bytes) (i : ℕ) → skip_zeros left xs i ≤ left + i
unfolding skip_zeros
skip_zeros_le zero xs i = omega arith
skip_zeros_le (suc left) xs i = ground (arith, skip_zeros_le left xs (suc i))
