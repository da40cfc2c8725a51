-- ===== src/Converter/Length/Back.antt =====
-- What the encoders of a number write, the decoders read back, whatever follows it.
use mathlib.Core.Path.{subst}
use go_apla.Prelude.{
  ↔_trans, ◌↔◌, ℕ, suc, ◌+◌, ◌-◌, ◌%◌, ◌<◌, ◌≤◌, ◌^◌, ◌≡◌, refl, sym, ap, ◌∙◌, [], ◌∷◌, ◌++◌, ◌&&◌,
  not, Bool, true, false, if◌then◌else◌, ltb, leb, length, take, drop, replicate, append_assoc,
  length-drop, length-take, length-append, arith, take-append, drop-append, take_all,
  length-replicate,
}
use go_apla.Prelude.Int.{ℤ, pos, negsuc, pos_part, neg_part, ltb_ℤ, to_word, of_word, IsInt64}
use go_apla.Converter.Bytes.{Bytes, le_bytes, of_le, be_bytes, of_be, trim_zeros, skip_zeros}
use go_apla.Converter.Bytes.Values.{
  length-le_bytes, length-be_bytes, of_be-be_bytes, of_le-le_bytes, of_be-zeros, of_le-copy_into,
  of_be-skip_zeros, of_le-trim_zeros, trim_zeros_le, skip_zeros_ge, skip_zeros_le,
}
use go_apla.Converter.Length.{
  got, failed, negative_size, encode_len_int64, encode_length, le_int64, be_int64, decode_len_int64,
  decode_len_int64_buf, decode_length, decode_length_buf,
}

to_word_small : (x : ℤ) → to_word x < 256 ^ 8
unfolding to_word
to_word_small (pos n) = ground arith
to_word_small (negsuc n) = ground arith

pub of_word-to_word : (x : ℤ) → IsInt64 x → of_word (to_word x) ≡ x
unfolding of_word to_word
of_word-to_word (pos n) h = ground arith
of_word-to_word (negsuc n) h = ground arith

-- The bytes of an int64 that EncodeLenInt64 keeps.
unfoldable pub trimmed : ℤ → Bytes
trimmed x = take (trim_zeros 8 (le_bytes 8 (to_word x))) (le_bytes 8 (to_word x))

pub length-trimmed : (x : ℤ) → length (trimmed x) ≡ trim_zeros 8 (le_bytes 8 (to_word x))
unfolding trimmed
length-trimmed x =
    length-take _ (le_bytes 8 (to_word x))
      (omega (arith, trim_zeros_le 8 (le_bytes 8 (to_word x)), length-le_bytes 8 (to_word x)))

pub le_int64-trimmed : (x : ℤ) → IsInt64 x → le_int64 (trimmed x) ≡ x
unfolding le_int64 trimmed
le_int64-trimmed x h =
    let bytes = le_bytes 8 (to_word x) in
    ap of_word (
      of_le-copy_into 8 (trimmed x) (omega (arith, length-trimmed x, trim_zeros_le 8 bytes))
      ∙ of_le-trim_zeros 8 bytes
      ∙ ap of_le (take_all 8 bytes (omega (arith, length-le_bytes 8 (to_word x))))
      ∙ of_le-le_bytes 8 (to_word x) (to_word_small x))
    ∙ of_word-to_word x h

pub encode_len_int64-appends :
    (out : Bytes) (x : ℤ) → encode_len_int64 out x ≡ out ++ length (trimmed x) ∷ trimmed x
unfolding encode_len_int64 trimmed
encode_len_int64-appends out x =
    append_assoc out _ _ ∙ ap (λ n. out ++ n ∷ trimmed x) (sym (length-trimmed x))

long_enough : (xs rest : Bytes) → ltb (suc (length (xs ++ rest))) (length xs + 1) ≡ false
long_enough xs rest = ground (arith, length-append xs rest)

long_enough_buf : (xs rest : Bytes) → ltb (length (xs ++ rest)) (length xs) ≡ false
long_enough_buf xs rest = ground (arith, length-append xs rest)

pub plus_one : (n : ℕ) → n + 1 ≡ suc n
plus_one n = omega arith

pub drop_more : (n : ℕ) (b : ℕ) (xs : Bytes) → drop (n + 1) (b ∷ xs) ≡ drop n xs
drop_more n b xs = ap (λ k. drop k (b ∷ xs)) (plus_one n)

pub decode_len_int64_lem :
    (xs rest : Bytes) → decode_len_int64 (length xs ∷ xs ++ rest) ≡ got (le_int64 xs) rest
unfolding decode_len_int64
decode_len_int64_lem xs rest = rw (
  long_enough xs rest,
  drop_more (length xs) (length xs) (xs ++ rest),
  take-append xs rest,
  drop-append xs rest,
)

pub decode_len_int64_buf_lem :
    (xs rest : Bytes) → decode_len_int64_buf (length xs ∷ xs ++ rest) ≡ got (le_int64 xs) rest
unfolding decode_len_int64_buf
decode_len_int64_buf_lem xs rest =
    rw (long_enough_buf xs rest, take-append xs rest, drop-append xs rest)

-- The two forms of EncodeLength, as what they are worth.
pub data EncodedAs (n : ℤ) : Bytes → Type 0 where
  one_byte : (b : ℕ) → b < 128 → n ≡ pos b → EncodedAs n (b ∷ [])
  sized :
      (xs : Bytes)
      → 1 ≤ length xs
      → length xs ≤ 8
      → of_word (of_be xs) ≡ n
      → EncodedAs n ((128 + length xs) ∷ xs)

padding : (n : ℕ) → n ≤ 8 → (8 + 256 - n) % 256 ≡ 8 - n
padding n h = omega arith

filled : (xs : Bytes) → length xs ≤ 8 → length (replicate (8 - length xs) 0 ++ xs) ≤ 8
filled xs h = omega (
  arith,
  h,
  length-append (replicate (8 - length xs) 0) xs,
  length-replicate {A = ℕ} (8 - length xs) 0,
)

be_int64_lem : (xs : Bytes) → length xs ≤ 8 → be_int64 (length xs) xs ≡ of_word (of_be xs)
unfolding be_int64
be_int64_lem xs h = ap of_word (
    ap (λ n. of_be (take 8 (replicate n 0 ++ xs))) (padding (length xs) h)
    ∙ ap of_be (take_all 8 _ (filled xs h))
    ∙ of_be-zeros (8 - length xs) xs)

size_bits : (n : ℕ) → n ≤ 8 → (128 + n) % 128 ≡ n
size_bits n h = omega arith

flag_set : (n : ℕ) → leb 128 (128 + n) ≡ true
flag_set n = ground arith

flag_clear : (b : ℕ) → b < 128 → leb 128 b ≡ false
flag_clear b h = ground arith

decode_length-sized :
    (xs rest : Bytes)
    → length xs ≤ 8
    → decode_length ((128 + length xs) ∷ xs ++ rest) ≡ got (of_word (of_be xs)) rest
unfolding decode_length
decode_length-sized xs rest h = rw (
  flag_set (length xs),
  size_bits (length xs) h,
  long_enough xs rest,
  drop_more (length xs) (128 + length xs) (xs ++ rest),
  take-append xs rest,
  drop-append xs rest,
  be_int64_lem xs h,
)

pub decode_length_lem :
    (n : ℤ) (bs rest : Bytes) → EncodedAs n bs → decode_length (bs ++ rest) ≡ got n rest
unfolding decode_length
decode_length_lem n bs rest (one_byte b h e) = rw (flag_clear b h, e)
decode_length_lem n bs rest (sized xs _ h e) = decode_length-sized xs rest h ∙ rw e

decode_length_buf-sized :
    (xs rest : Bytes)
    → length xs ≤ 8
    → ltb_ℤ (of_word (of_be xs)) (pos 0) ≡ false
    → decode_length_buf ((128 + length xs) ∷ xs ++ rest) ≡ got (of_word (of_be xs)) rest
unfolding decode_length_buf
decode_length_buf-sized xs rest h k = rw (
  flag_set (length xs),
  size_bits (length xs) h,
  long_enough_buf xs rest,
  take-append xs rest,
  drop-append xs rest,
  be_int64_lem xs h,
  k,
)

pub decode_length_buf-refused :
    (xs rest : Bytes)
    → length xs ≤ 8
    → ltb_ℤ (of_word (of_be xs)) (pos 0) ≡ true
    → decode_length_buf ((128 + length xs) ∷ xs ++ rest) ≡ failed negative_size rest
unfolding decode_length_buf
decode_length_buf-refused xs rest h k = rw (
  flag_set (length xs),
  size_bits (length xs) h,
  long_enough_buf xs rest,
  drop-append xs rest,
  take-append xs rest,
  be_int64_lem xs h,
  k,
)

pub decode_length_buf_lem :
    (n : ℕ) (bs rest : Bytes)
    → EncodedAs (pos n) bs
    → decode_length_buf (bs ++ rest) ≡ got (pos n) rest
unfolding decode_length_buf
decode_length_buf_lem n bs rest (one_byte b h e) = rw (flag_clear b h, e)
decode_length_buf_lem n bs rest (sized xs _ h e) =
    decode_length_buf-sized xs rest h (rw e (ground arith)) ∙ rw e

-- The place of the first byte that counts, and the bytes from there.
start : ℤ → ℕ
start n = skip_zeros 7 (0 ∷ be_bytes 8 (to_word n)) 1

digits : ℤ → Bytes
unfolding start
digits n = drop (start n) (0 ∷ be_bytes 8 (to_word n))

start_bounds : (n : ℤ) → (1 ≤ start n) × (start n ≤ 8)
unfolding start
start_bounds n =
    let buf = 0 ∷ be_bytes 8 (to_word n) in (skip_zeros_ge 7 buf 1, skip_zeros_le 7 buf 1)

length-digits : (n : ℤ) → length (digits n) ≡ 9 - start n
unfolding digits
length-digits n =
    length-drop (start n) (0 ∷ be_bytes 8 (to_word n))
    ∙ omega (arith, length-be_bytes 8 (to_word n))

of_be-digits : (n : ℤ) → IsInt64 n → of_word (of_be (digits n)) ≡ n
unfolding digits start
of_be-digits n h =
    ap of_word (
      of_be-skip_zeros 7 (0 ∷ be_bytes 8 (to_word n)) 1
      ∙ of_be-be_bytes 8 (to_word n) (to_word_small n))
    ∙ of_word-to_word n h

digits-EncodedAs : (n : ℤ) → IsInt64 n → EncodedAs n ((128 + (9 - start n)) ∷ digits n)
digits-EncodedAs n h =
    subst (λ k. EncodedAs n ((128 + k) ∷ digits n)) (length-digits n)
      (sized (digits n) (omega (arith, length-digits n, start_bounds n))
        (omega (arith, length-digits n, start_bounds n)) (of_be-digits n h))

either-EncodedAs :
    (n : ℤ) (small : Bool)
    → (small ≡ true → EncodedAs n (pos_part n ∷ []))
    → IsInt64 n
    → EncodedAs n (if small then pos_part n ∷ [] else (128 + (9 - start n)) ∷ digits n)
either-EncodedAs n true k h = k refl
either-EncodedAs n false k h = digits-EncodedAs n h

pub encode_length-EncodedAs : (n : ℤ) → IsInt64 n → EncodedAs n (encode_length n)
unfolding encode_length start digits
encode_length-EncodedAs (pos n) h =
    either-EncodedAs (pos n) _ (λ e. one_byte n (ground arith) refl) h
encode_length-EncodedAs (negsuc n) h = either-EncodedAs (negsuc n) _ (λ e. ground arith) h

test_iff :
    (n : ℤ)
    → (not (ltb_ℤ n (pos 0)) && not (ltb_ℤ (pos 127) n) ≡ true)
      ↔ ((neg_part n ≡ 0) × (pos_part n ≤ 127))
test_iff (pos n) = ground arith
test_iff (negsuc n) = ground arith

-- One byte where the test of EncodeLength holds, and more where it does not.
flag-length :
    (n : ℤ) (small : Bool) (bs : Bytes)
    → bs ≡ (if small then pos_part n ∷ [] else (128 + (9 - start n)) ∷ digits n)
    → (length bs ≡ 1) ↔ (small ≡ true)
flag-length n true bs e = ((λ h. refl), (λ h. ap length e))
flag-length n false bs e =
    let long = ap length e in
    ((λ h. absurd (omega (arith, h, long, length-digits n, start_bounds n))), (λ h. ground arith))

pub length-encode_length :
    (n : ℤ) → (length (encode_length n) ≡ 1) ↔ ((neg_part n ≡ 0) × (pos_part n ≤ 127))
unfolding encode_length start digits
length-encode_length n =
    let test = not (ltb_ℤ n (pos 0)) && not (ltb_ℤ (pos 127) n) in
    ↔_trans (flag-length n test _ refl) (test_iff n)
