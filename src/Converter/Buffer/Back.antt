-- ===== src/Converter/Buffer/Back.antt =====
-- BinUnmarshalBuff on what BinMarshal has written.
use mathlib.Core.Path.{subst}
use go_apla.Prelude.{
  ℕ, ◌-◌, ◌%◌, ◌<◌, ◌≤◌, ◌^◌, ◌≡◌, ◌⊎◌, inl, inr, refl, ap, ◌∙◌, [], ◌∷◌, ◌++◌, true, false, length,
  length-append, append_assoc, arith, take-append, drop-append,
}
use go_apla.Prelude.Int.{ℤ, pos, ltb_ℤ}
use go_apla.Converter.Bytes.{Bytes, of_le, of_be, le_bytes, be_bytes}
use go_apla.Converter.Bytes.Values.{
  of_be-zeros, length-le_bytes, length-be_bytes, of_be-be_bytes, of_le-le_bytes,
}
use go_apla.Converter.Length.{
  Reader, got, failed, wrong_data, ◌>>=◌, encode_length, decode_length_buf,
}
use go_apla.Converter.Length.Back.{
  encode_length-EncodedAs, decode_length_buf_lem, decode_len_int64_buf_lem, le_int64-trimmed,
  trimmed,
}
use go_apla.Converter.Marshal.{
  GoValue, Fields, uint8, int8, uint32, int32, float64, int64, uint64, string, bytes, slice, struct,
  ptr, nil_ptr, other, field, k_int32, returns, too_few, sized_bytes, with_input, bin_marshal,
  written, marshal_int32,
}
use go_apla.Converter.Marshal.Encoding.{
  IsInt32, IsStorable, AreStorable, kind_of, kinds_of, encoding, encodings, bin_marshal-encoding,
  Int32As, small, counted, marshal_int32-Int32As, encoding_starts,
}
use go_apla.Converter.Marshal.Back.{
  text_bytes, next_bytes_then, one_byte_worth, sized_bytes_lem, small_byte, big_byte, size_byte,
  with_input_lem,
}
use go_apla.Converter.Buffer.{
  read_int32_buf, unmarshal_buff_kind, unmarshal_buff_fields, bin_unmarshal_buff,
}

enough :
    (xs : Bytes) (rest : Bytes)
    → 1 ≤ length rest
    → length xs ≤ 4
    → too_few (length (xs ++ rest)) (length xs) ≡ false
unfolding too_few
enough xs rest p h = ground (arith, length-append xs rest)

read_int32_buf_lem :
    (z : ℤ) (bs : Bytes) (rest : Bytes)
    → 1 ≤ length rest
    → Int32As z bs
    → read_int32_buf (bs ++ rest) ≡ got (int32 z) rest
unfolding read_int32_buf
read_int32_buf_lem z bs rest p (small c h e) = rw (small_byte c h, e)
read_int32_buf_lem z bs rest p (counted xs h e) = rw (
  big_byte (length xs),
  size_byte (length xs),
  enough xs rest p h,
  take-append xs rest,
  drop-append xs rest,
  of_be-zeros (4 - length xs) xs,
  e,
)

sized_text_buf : (v : Bytes → GoValue) → Reader GoValue
sized_text_buf v input =
    decode_length_buf input >>= λ n. λ more. sized_bytes n more >>= λ s. returns (v s)

length_encoded :
    (s rest : Bytes)
    → length s < 2 ^ 63
    → decode_length_buf (text_bytes s ++ rest) ≡ got (pos (length s)) (s ++ rest)
unfolding text_bytes
length_encoded s rest h =
    ap decode_length_buf (append_assoc (encode_length (pos (length s))) s rest)
    ∙ decode_length_buf_lem (length s) _ (s ++ rest)
        (encode_length-EncodedAs (pos (length s)) (omega (arith, h)))

sized_text_buf_lem :
    (v : Bytes → GoValue) (s rest : Bytes)
    → length s < 2 ^ 63
    → sized_text_buf v (text_bytes s ++ rest) ≡ got (v s) rest
unfolding sized_text_buf ◌>>=◌ returns
sized_text_buf_lem v s rest h =
    ap (λ r. r >>= λ n. λ more. sized_bytes n more >>= λ s. returns (v s)) (length_encoded s rest h)
    ∙ ap (λ r. r >>= λ s. returns (v s)) (sized_bytes_lem s rest)

mutual
  unfolding IsStorable encoding kind_of unmarshal_buff_kind ◌>>=◌ returns sized_text_buf text_bytes

  unmarshal_buff_kind-encoding :
      (v : GoValue) (rest : Bytes)
      → 1 ≤ length rest
      → IsStorable v
      → unmarshal_buff_kind (kind_of v) (encoding v ++ rest) ≡ got v rest
  unmarshal_buff_kind-encoding (uint8 n) rest p h =
      next_bytes_then 1 (λ bs. uint8 (of_be bs)) (n % 256 ∷ []) rest (uint8 n) refl
        (ap uint8 (one_byte_worth n h))
  unmarshal_buff_kind-encoding (uint32 n) rest p h =
      next_bytes_then 4 (λ bs. uint32 (of_be bs)) (be_bytes 4 n) rest (uint32 n)
        (length-be_bytes 4 n) (ap uint32 (of_be-be_bytes 4 n h))
  unmarshal_buff_kind-encoding (int32 z) rest p h =
      read_int32_buf_lem z _ rest p (marshal_int32-Int32As z h)
  unmarshal_buff_kind-encoding (float64 w) rest p h =
      next_bytes_then 8 (λ bs. float64 (of_le bs)) (le_bytes 8 w) rest (float64 w)
        (length-le_bytes 8 w) (ap float64 (of_le-le_bytes 8 w h))
  unmarshal_buff_kind-encoding (int64 z) rest p h =
      ap (λ r. r >>= λ x. returns (int64 x)) (decode_len_int64_buf_lem (trimmed z) rest)
      ∙ ap (λ x. got (int64 x) rest) (le_int64-trimmed z h)
  unmarshal_buff_kind-encoding (uint64 n) rest p h =
      next_bytes_then 8 (λ bs. uint64 (of_be bs)) (be_bytes 8 n) rest (uint64 n)
        (length-be_bytes 8 n) (ap uint64 (of_be-be_bytes 8 n h))
  unmarshal_buff_kind-encoding (string s) rest p h = sized_text_buf_lem string s rest h
  unmarshal_buff_kind-encoding (bytes s) rest p h = sized_text_buf_lem bytes s rest h
  unmarshal_buff_kind-encoding (int8 z) rest p h = absurd h
  unmarshal_buff_kind-encoding (slice n) rest p h = absurd h
  unmarshal_buff_kind-encoding (ptr v) rest p h = absurd h
  unmarshal_buff_kind-encoding nil_ptr rest p h = absurd h
  unmarshal_buff_kind-encoding other rest p h = absurd h
  unmarshal_buff_kind-encoding (struct Fields.end) rest p h = absurd h
  unmarshal_buff_kind-encoding (struct (field v fs)) rest p h =
      ap (λ r. r >>= λ gs. returns (struct gs))
        (unmarshal_buff_fields-encodings (field v fs) rest p h)

  unmarshal_buff_fields-encodings :
      (fs : Fields) (rest : Bytes)
      → 1 ≤ length rest
      → AreStorable fs
      → unmarshal_buff_fields (kinds_of fs) (encodings fs ++ rest) ≡ got fs rest
  unmarshal_buff_fields-encodings Fields.end rest p h = refl
  unmarshal_buff_fields-encodings (field v fs) rest p h =
      let more = encodings fs ++ rest in
      ap (unmarshal_buff_fields (kinds_of (field v fs)))
        (append_assoc (encoding v) (encodings fs) rest)
      ∙ ap
          (λ r. r >>= λ w.
            λ left. unmarshal_buff_fields (kinds_of fs) left >>= λ gs. returns (field w gs))
          (with_input_lem (unmarshal_buff_kind (kind_of v)) (encoding v) more
              (encoding_starts v h.0)
            ∙ unmarshal_buff_kind-encoding v more
                (omega (arith, p, length-append (encodings fs) rest)) h.0)
      ∙ ap (λ r. r >>= λ gs. returns (field v gs)) (unmarshal_buff_fields-encodings fs rest p h.1)

-- For a storable value and at least one byte behind what BinMarshal appends, BinUnmarshalBuff
-- gives the value back and leaves what was behind.
pub bin_unmarshal_buff-bin_marshal :
    (v : GoValue) (out rest : Bytes)
    → IsStorable v
    → 1 ≤ length rest
    → (bs : Bytes) × (bin_marshal out v ≡ written (out ++ bs))
      × (bin_unmarshal_buff (kind_of v) (bs ++ rest) ≡ got v rest)
unfolding bin_unmarshal_buff
bin_unmarshal_buff-bin_marshal v out rest h p = (
  encoding v,
  bin_marshal-encoding v out h,
  with_input_lem (unmarshal_buff_kind (kind_of v)) (encoding v) rest (encoding_starts v h)
      ∙ unmarshal_buff_kind-encoding v rest p h,
)

IsLong : ℤ → Type 0
IsLong z = (ltb_ℤ (pos 127) z ≡ true) ⊎ (ltb_ℤ z (pos 0) ≡ true)

short_pos : (c : ℕ) → c < 128 → ¬ IsLong (pos c)
unfolding IsLong
short_pos c h (inl k) = ground arith
short_pos c h (inr k) = ground arith

none_left : (n : ℕ) → too_few n n ≡ true
unfolding too_few
none_left n = ground arith

refused_last :
    (z : ℤ) (bs : Bytes)
    → Int32As z bs
    → IsLong z
    → (rest : Bytes) × (read_int32_buf bs ≡ failed wrong_data rest)
unfolding read_int32_buf
refused_last z bs (small c h e) k = absurd (short_pos c h (subst IsLong e k))
refused_last z bs (counted xs h e) k =
    (xs, rw (big_byte (length xs), size_byte (length xs), none_left (length xs)))

with_input_int32 :
    (z : ℤ) (bs : Bytes) → Int32As z bs → bin_unmarshal_buff k_int32 bs ≡ read_int32_buf bs
unfolding bin_unmarshal_buff with_input unmarshal_buff_kind
with_input_int32 z bs (small c h e) = refl
with_input_int32 z bs (counted xs h e) = refl

-- An int32 that is not between 0 and 127 is refused as wrong data when nothing is behind what
-- BinMarshal wrote.
pub bin_unmarshal_buff_last :
    (z : ℤ)
    → IsInt32 z
    → (ltb_ℤ (pos 127) z ≡ true) ⊎ (ltb_ℤ z (pos 0) ≡ true)
    → (bs : Bytes) × (rest : Bytes) × (bin_marshal [] (int32 z) ≡ written bs)
      × (bin_unmarshal_buff k_int32 bs ≡ failed wrong_data rest)
unfolding bin_marshal IsLong
bin_unmarshal_buff_last z h k =
    let form = marshal_int32-Int32As z h in
    let r = refused_last z (marshal_int32 z) form k in
    (marshal_int32 z, r.0, refl, with_input_int32 z _ form ∙ r.1)
