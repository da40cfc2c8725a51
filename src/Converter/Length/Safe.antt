-- ===== src/Converter/Length/Safe.antt =====
-- The decoders on any input, and the lengths of what the encoders write.
use go_apla.Prelude.{
  if_true, if_false, ℕ, ◌≤◌, ◌≡◌, sym, ap, ◌∙◌, ◌∷◌, ◌++◌, ◌↔◌, if◌then◌else◌, length, take, arith,
}
use go_apla.Prelude.Int.{ℤ, pos, negsuc, pos_part, neg_part, IsInt64, to_word, ltb_ℤ}
use go_apla.Converter.Bytes.{Bytes, le_bytes, trim_zeros}
use go_apla.Converter.Bytes.Values.{trim_zeros_le}
use go_apla.Converter.Length.{
  got, failed, negative_size, encode_len_int64, encode_len_int64_in_place, encode_length,
  decode_len_int64, decode_len_int64_buf, decode_length, decode_length_buf,
}
use go_apla.Converter.Length.Back.{
  decode_len_int64_buf_lem, decode_length_buf_lem, decode_length_buf-refused, plus_one,
  length-encode_length, trimmed, length-trimmed, encode_len_int64-appends, EncodedAs, one_byte,
  sized, encode_length-EncodedAs, le_int64-trimmed, decode_len_int64_lem, decode_length_lem,
}

-- The form of EncodeLenInt64InPlace is the one that EncodeLenInt64 appends.
in_place-trimmed : (x : ℤ) → encode_len_int64_in_place x ≡ length (trimmed x) ∷ trimmed x
unfolding encode_len_int64_in_place trimmed
in_place-trimmed x =
    let value = le_bytes 8 (to_word x) in
    let size = trim_zeros 8 value in
    ap (λ k. take k (size ∷ value)) (plus_one size)
    ∙ ap (λ n. n ∷ trimmed x) (sym (length-trimmed x))

-- For any int64, EncodeLenInt64 appends to any output what EncodeLenInt64InPlace gives, and both
-- decoders read that back, with whatever follows it left over.
pub decode_len_int64-encode_len_int64 :
    (x : ℤ) (out rest : Bytes)
    → IsInt64 x
    → (encode_len_int64 out x ≡ out ++ encode_len_int64_in_place x)
      × (decode_len_int64 (encode_len_int64_in_place x ++ rest) ≡ got x rest)
      × (decode_len_int64_buf (encode_len_int64_in_place x ++ rest) ≡ got x rest)
decode_len_int64-encode_len_int64 x out rest h =
    let form = in_place-trimmed x in
    let worth = ap (λ y. got y rest) (le_int64-trimmed x h) in
    (
      encode_len_int64-appends out x ∙ ap (λ bs. out ++ bs) (sym form),
      ap (λ bs. decode_len_int64 (bs ++ rest)) form ∙ decode_len_int64_lem (trimmed x) rest ∙ worth,
      ap (λ bs. decode_len_int64_buf (bs ++ rest)) form
          ∙ decode_len_int64_buf_lem (trimmed x) rest
          ∙ worth,
    )

buf-negative :
    (n : ℕ) (bs rest : Bytes)
    → EncodedAs (negsuc n) bs
    → decode_length_buf (bs ++ rest) ≡ failed negative_size rest
buf-negative n bs rest (one_byte b h e) = ground arith
buf-negative n bs rest (sized xs _ h e) = decode_length_buf-refused xs rest h (rw e (ground arith))

buf-EncodedAs :
    (n : ℤ) (bs rest : Bytes)
    → EncodedAs n bs
    → decode_length_buf (bs ++ rest)
      ≡ (if ltb_ℤ n (pos 0) then failed negative_size rest else got n rest)
buf-EncodedAs (pos n) bs rest h =
    decode_length_buf_lem n bs rest h
    ∙ sym (if_false {b = ltb_ℤ (pos n) (pos 0)} (failed negative_size rest) (ground arith))
buf-EncodedAs (negsuc n) bs rest h =
    buf-negative n bs rest h
    ∙ sym (if_true {b = ltb_ℤ (negsuc n) (pos 0)} (got (negsuc n) rest) (ground arith))

-- DecodeLength reads back every int64 that EncodeLength has written, with whatever follows left
-- over; DecodeLengthBuf does too, but refuses a negative one after reading it.
pub decode_length-encode_length :
    (n : ℤ) (rest : Bytes)
    → IsInt64 n
    → (decode_length (encode_length n ++ rest) ≡ got n rest)
      × (decode_length_buf (encode_length n ++ rest)
          ≡ (if ltb_ℤ n (pos 0) then failed negative_size rest else got n rest))
decode_length-encode_length n rest h =
    let form = encode_length-EncodedAs n h in
    (decode_length_lem n _ rest form, buf-EncodedAs n _ rest form)

got_injective : {A : Type 0} {a b : A} {xs ys : Bytes} → got a xs ≡ got b ys → (a ≡ b) × (xs ≡ ys)
got_injective e = ground arith

-- No encoding of a length is the start of another one: inputs that begin with the encodings of
-- two int64s are equal only if these are and what follows is.
pub encode_length_unique :
    (m n : ℤ) (xs ys : Bytes)
    → IsInt64 m
    → IsInt64 n
    → encode_length m ++ xs ≡ encode_length n ++ ys
    → (m ≡ n) × (xs ≡ ys)
encode_length_unique m n xs ys h k e = got_injective (
    sym (decode_length-encode_length m xs h).0
    ∙ ap decode_length e
    ∙ (decode_length-encode_length n ys k).0)

EncodedAs-bounds : (n : ℤ) (bs : Bytes) → EncodedAs n bs → (1 ≤ length bs) × (length bs ≤ 9)
EncodedAs-bounds n bs (one_byte b h e) = omega arith
EncodedAs-bounds n bs (sized xs h k e) = omega (arith, k)

-- EncodeLength takes one byte from 0 to 127 and two to nine otherwise; EncodeLenInt64InPlace one to
-- nine.
pub encode_length-bounds :
    (n : ℤ)
    → IsInt64 n
    → (1 ≤ length (encode_length n))
      × (length (encode_length n) ≤ 9)
      × ((length (encode_length n) ≡ 1) ↔ ((neg_part n ≡ 0) × (pos_part n ≤ 127)))
      × (1 ≤ length (encode_len_int64_in_place n))
      × (length (encode_len_int64_in_place n) ≤ 9)
encode_length-bounds n h =
    let form = EncodedAs-bounds n _ (encode_length-EncodedAs n h) in
    let trim = trim_zeros_le 8 (le_bytes 8 (to_word n)) in
    let size = ap length (in_place-trimmed n) in
    (
      form.0,
      form.1,
      length-encode_length n,
      omega (arith, size),
      omega (arith, size, trim, length-trimmed n),
    )
