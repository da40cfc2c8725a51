-- ===== src/Converter/Marshal/Back.antt =====
-- BinUnmarshal on what BinMarshal has written.
use mathlib.Core.Path.{subst}
use go_apla.Prelude.{
  ℕ, suc, ◌+◌, ◌-◌, ◌%◌, ◌<◌, ◌≤◌, ◌^◌, ◌≡◌, refl, ap, ◌∙◌, [], ◌∷◌, ◌++◌, true, false, ltb, length,
  length-append, append_assoc, arith, take-append, drop-append,
}
use go_apla.Prelude.Int.{ℤ, pos, ltb_ℤ}
use go_apla.Converter.Bytes.{Bytes, of_be_from, of_le, of_be, le_bytes, be_bytes}
use go_apla.Converter.Bytes.Values.{
  of_be-zeros, length-le_bytes, length-be_bytes, of_be-be_bytes, of_le-le_bytes,
}
use go_apla.Converter.Length.{Reader, got, ◌>>=◌, encode_length, decode_length}
use go_apla.Converter.Length.Back.{
  encode_length-EncodedAs, decode_length_lem, decode_len_int64_lem, le_int64-trimmed, trimmed,
}
use go_apla.Converter.Marshal.{
  GoValue, Fields, uint8, int8, uint32, int32, float64, int64, uint64, string, bytes, slice, struct,
  ptr, nil_ptr, other, field, next_bytes, returns, read_int32, too_few, sized_bytes, with_input,
  unmarshal_kind, unmarshal_fields, bin_unmarshal, bin_marshal, written,
}
use go_apla.Converter.Marshal.Encoding.{
  IsStorable, AreStorable, kind_of, kinds_of, encoding, encodings, bin_marshal-encoding, Int32As,
  small, counted, marshal_int32-Int32As, encoding_starts,
}

has_bytes : (xs rest : Bytes) → ltb (length (xs ++ rest)) (length xs) ≡ false
has_bytes xs rest = ground (arith, length-append xs rest)

has_sized : (xs rest : Bytes) → ltb_ℤ (pos (length (xs ++ rest))) (pos (length xs)) ≡ false
has_sized xs rest = ground (arith, length-append xs rest)

not_negative : (n : ℕ) → ltb_ℤ (pos n) (pos 0) ≡ false
not_negative n = ground arith

pub next_bytes_lem :
    (k : ℕ) (xs rest : Bytes) → length xs ≡ k → next_bytes k (xs ++ rest) ≡ got xs rest
unfolding next_bytes
next_bytes_lem k xs rest e =
    subst (λ n. next_bytes n (xs ++ rest) ≡ got xs rest) e
      (rw (has_bytes xs rest, take-append xs rest, drop-append xs rest))

pub sized_bytes_lem : (xs rest : Bytes) → sized_bytes (pos (length xs)) (xs ++ rest) ≡ got xs rest
unfolding sized_bytes
sized_bytes_lem xs rest =
    rw (has_sized xs rest, not_negative (length xs), take-append xs rest, drop-append xs rest)

enough : (xs rest : Bytes) → length xs ≤ 4 → too_few (suc (length (xs ++ rest))) (length xs) ≡ false
unfolding too_few
enough xs rest h = ground (arith, length-append xs rest)

pub small_byte : (b : ℕ) → b < 128 → ltb b 128 ≡ true
small_byte b h = ground arith

pub big_byte : (n : ℕ) → ltb (128 + n) 128 ≡ false
big_byte n = ground arith

pub size_byte : (n : ℕ) → 128 + n - 128 ≡ n
size_byte n = omega arith

read_int32_lem :
    (z : ℤ) (bs rest : Bytes) → Int32As z bs → read_int32 (bs ++ rest) ≡ got (int32 z) rest
unfolding read_int32
read_int32_lem z bs rest (small b h e) = rw (small_byte b h, e)
read_int32_lem z bs rest (counted xs h e) = rw (
  big_byte (length xs),
  size_byte (length xs),
  enough xs rest h,
  take-append xs rest,
  drop-append xs rest,
  of_be-zeros (4 - length xs) xs,
  e,
)

-- A string or a slice of bytes, and what reads it.
sized_text : (v : Bytes → GoValue) → Reader GoValue
unfolding decode_length sized_bytes
sized_text v input = decode_length input >>= λ n. λ more. sized_bytes n more >>= λ s. returns (v s)

unfoldable pub text_bytes : Bytes → Bytes
text_bytes s = encode_length (pos (length s)) ++ s

length_encoded :
    (s rest : Bytes)
    → length s < 2 ^ 63
    → decode_length (text_bytes s ++ rest) ≡ got (pos (length s)) (s ++ rest)
unfolding text_bytes
length_encoded s rest h =
    ap decode_length (append_assoc (encode_length (pos (length s))) s rest)
    ∙ decode_length_lem (pos (length s)) _ (s ++ rest)
        (encode_length-EncodedAs (pos (length s)) (omega (arith, h)))

sized_text_lem :
    (v : Bytes → GoValue) (s rest : Bytes)
    → length s < 2 ^ 63
    → sized_text v (text_bytes s ++ rest) ≡ got (v s) rest
unfolding sized_text ◌>>=◌ returns
sized_text_lem v s rest h =
    ap (λ r. r >>= λ n. λ more. sized_bytes n more >>= λ s. returns (v s)) (length_encoded s rest h)
    ∙ ap (λ r. r >>= λ s. returns (v s)) (sized_bytes_lem s rest)

pub next_bytes_then :
    (k : ℕ) (f : Bytes → GoValue) (xs rest : Bytes) (v : GoValue)
    → length xs ≡ k
    → f xs ≡ v
    → (next_bytes k (xs ++ rest) >>= λ bs. returns (f bs)) ≡ got v rest
unfolding ◌>>=◌ returns
next_bytes_then k f xs rest v e e' =
    ap (λ r. r >>= λ bs. returns (f bs)) (next_bytes_lem k xs rest e) ∙ ap (λ w. got w rest) e'

-- The check for input passes before anything that starts with a byte.
pub with_input_lem :
    {A : Type 0} (read : Reader A) (xs rest : Bytes)
    → 1 ≤ length xs
    → with_input read (xs ++ rest) ≡ read (xs ++ rest)
unfolding with_input
with_input_lem read [] rest h = ground arith
with_input_lem read (x ∷ xs) rest h = refl

pub one_byte_worth : (n : ℕ) → n < 256 → of_be (n % 256 ∷ []) ≡ n
unfolding of_be_from
one_byte_worth n h = omega (arith, h)

mutual
  unfolding IsStorable encoding kind_of unmarshal_kind ◌>>=◌ returns sized_text text_bytes

  unmarshal_kind-encoding :
      (v : GoValue) (rest : Bytes)
      → IsStorable v
      → unmarshal_kind (kind_of v) (encoding v ++ rest) ≡ got v rest
  unmarshal_kind-encoding (uint8 n) rest h =
      next_bytes_then 1 (λ bs. uint8 (of_be bs)) (n % 256 ∷ []) rest (uint8 n) refl
        (ap uint8 (one_byte_worth n h))
  unmarshal_kind-encoding (uint32 n) rest h =
      next_bytes_then 4 (λ bs. uint32 (of_be bs)) (be_bytes 4 n) rest (uint32 n)
        (length-be_bytes 4 n) (ap uint32 (of_be-be_bytes 4 n h))
  unmarshal_kind-encoding (int32 z) rest h = read_int32_lem z _ rest (marshal_int32-Int32As z h)
  unmarshal_kind-encoding (float64 w) rest h =
      next_bytes_then 8 (λ bs. float64 (of_le bs)) (le_bytes 8 w) rest (float64 w)
        (length-le_bytes 8 w) (ap float64 (of_le-le_bytes 8 w h))
  unmarshal_kind-encoding (int64 z) rest h =
      ap (λ r. r >>= λ x. returns (int64 x)) (decode_len_int64_lem (trimmed z) rest)
      ∙ ap (λ x. got (int64 x) rest) (le_int64-trimmed z h)
  unmarshal_kind-encoding (uint64 n) rest h =
      next_bytes_then 8 (λ bs. uint64 (of_be bs)) (be_bytes 8 n) rest (uint64 n)
        (length-be_bytes 8 n) (ap uint64 (of_be-be_bytes 8 n h))
  unmarshal_kind-encoding (string s) rest h = sized_text_lem string s rest h
  unmarshal_kind-encoding (bytes s) rest h = sized_text_lem bytes s rest h
  unmarshal_kind-encoding (int8 z) rest h = absurd h
  unmarshal_kind-encoding (slice n) rest h = absurd h
  unmarshal_kind-encoding (ptr v) rest h = absurd h
  unmarshal_kind-encoding nil_ptr rest h = absurd h
  unmarshal_kind-encoding other rest h = absurd h
  unmarshal_kind-encoding (struct Fields.end) rest h = absurd h
  unmarshal_kind-encoding (struct (field v fs)) rest h =
      ap (λ r. r >>= λ gs. returns (struct gs)) (unmarshal_fields-encodings (field v fs) rest h)

  unmarshal_fields-encodings :
      (fs : Fields) (rest : Bytes)
      → AreStorable fs
      → unmarshal_fields (kinds_of fs) (encodings fs ++ rest) ≡ got fs rest
  unmarshal_fields-encodings Fields.end rest h = refl
  unmarshal_fields-encodings (field v fs) rest h =
      let more = encodings fs ++ rest in
      ap (unmarshal_fields (kinds_of (field v fs))) (append_assoc (encoding v) (encodings fs) rest)
      ∙ ap
          (λ r.
            r >>= λ w. λ left. unmarshal_fields (kinds_of fs) left >>= λ gs. returns (field w gs))
          (with_input_lem (unmarshal_kind (kind_of v)) (encoding v) more (encoding_starts v h.0)
            ∙ unmarshal_kind-encoding v more h.0)
      ∙ ap (λ r. r >>= λ gs. returns (field v gs)) (unmarshal_fields-encodings fs rest h.1)

-- For a storable value BinMarshal appends some bytes to any output and returns no error, and
-- BinUnmarshal, given the kind of the value and those bytes with anything behind them, gives the
-- value back and leaves what was behind.
pub bin_unmarshal-bin_marshal :
    (v : GoValue) (out rest : Bytes)
    → IsStorable v
    → (bs : Bytes) × (bin_marshal out v ≡ written (out ++ bs))
      × (bin_unmarshal (kind_of v) (bs ++ rest) ≡ got v rest)
unfolding bin_unmarshal
bin_unmarshal-bin_marshal v out rest h = (
  encoding v,
  bin_marshal-encoding v out h,
  with_input_lem (unmarshal_kind (kind_of v)) (encoding v) rest (encoding_starts v h)
      ∙ unmarshal_kind-encoding v rest h,
)
