-- ===== src/Converter/Marshal/Encoding.antt =====
-- The values that BinMarshal writes and BinUnmarshal reads back, with their bytes.
use mathlib.Core.Path.{subst}
use go_apla.Prelude.{
  ℕ, ◌+◌, ◌-◌, ◌%◌, ◌<◌, ◌≤◌, ◌^◌, ◌≡◌, refl, sym, ap, ◌∙◌, [], ◌∷◌, ◌++◌, Bool, true, false,
  if◌then◌else◌, length, drop, length-append, length-drop, append_assoc, arith, append-nil,
}
use go_apla.Prelude.Int.{ℤ, pos, negsuc, pos_part, neg_part, IsInt64, to_word}
use go_apla.Converter.Bytes.{Bytes, le_bytes, be_bytes, of_be, skip_zeros}
use go_apla.Converter.Bytes.Values.{
  length-le_bytes, length-be_bytes, of_be-be_bytes, of_be-skip_zeros, skip_zeros_le,
}
use go_apla.Converter.Length.{encode_length}
use go_apla.Converter.Length.Back.{
  EncodedAs, one_byte, sized, encode_length-EncodedAs, trimmed, encode_len_int64-appends,
}
use go_apla.Converter.Marshal.{
  GoValue, Fields, uint8, int8, uint32, int32, float64, int64, uint64, string, bytes, slice, struct,
  ptr, nil_ptr, other, field, Kind, Kinds, k_uint8, k_int8, k_uint32, k_int32, k_float64, k_int64,
  k_uint64, k_string, k_bytes, k_slice, k_struct, k_other, kind, written, marshal_int32,
  bin_marshal, marshal_fields, low_int32,
}

abbrev pub IsInt32 : ℤ → Type 0
IsInt32 z = (pos_part z < 2 ^ 31) × (neg_part z ≤ 2 ^ 31)

-- A value in the range of its type, of the kinds that both functions take: no int8, pointer or
-- slice of anything but bytes. A struct has a field.
unfoldable mutual
  pub IsStorable : GoValue → Type 0
  IsStorable (uint8 n) = n < 256
  IsStorable (uint32 n) = n < 2 ^ 32
  IsStorable (int32 z) = IsInt32 z
  IsStorable (float64 w) = w < 2 ^ 64
  IsStorable (int64 z) = IsInt64 z
  IsStorable (uint64 n) = n < 2 ^ 64
  IsStorable (string s) = length s < 2 ^ 63
  IsStorable (bytes bs) = length bs < 2 ^ 63
  IsStorable (struct Fields.end) = ⊥
  IsStorable (struct (field v fs)) = IsStorable v × AreStorable fs
  IsStorable _ = ⊥

  pub AreStorable : Fields → Type 0
  AreStorable Fields.end = Unit {0}
  AreStorable (field v fs) = IsStorable v × AreStorable fs

unfoldable mutual
  pub kind_of : GoValue → Kind
  kind_of (uint8 n) = k_uint8
  kind_of (int8 z) = k_int8
  kind_of (uint32 n) = k_uint32
  kind_of (int32 z) = k_int32
  kind_of (float64 w) = k_float64
  kind_of (int64 z) = k_int64
  kind_of (uint64 n) = k_uint64
  kind_of (string s) = k_string
  kind_of (bytes bs) = k_bytes
  kind_of (slice n) = k_slice
  kind_of (struct fs) = k_struct (kinds_of fs)
  kind_of _ = k_other

  pub kinds_of : Fields → Kinds
  kinds_of Fields.end = Kinds.end
  kinds_of (field v fs) = kind (kind_of v) (kinds_of fs)

-- What BinMarshal appends.
unfoldable mutual
  pub encoding : GoValue → Bytes
  encoding (uint8 n) = n % 256 ∷ []
  encoding (uint32 n) = be_bytes 4 n
  encoding (int32 z) = marshal_int32 z
  encoding (float64 w) = le_bytes 8 w
  encoding (int64 z) = length (trimmed z) ∷ trimmed z
  encoding (uint64 n) = be_bytes 8 n
  encoding (string s) = encode_length (pos (length s)) ++ s
  encoding (bytes bs) = encode_length (pos (length bs)) ++ bs
  encoding (struct fs) = encodings fs
  encoding (ptr v) = encoding v
  encoding _ = []

  pub encodings : Fields → Bytes
  encodings Fields.end = []
  encodings (field v fs) = encoding v ++ encodings fs

mutual
  unfolding bin_marshal IsStorable encoding

  pub bin_marshal-encoding :
      (v : GoValue) (out : Bytes) → IsStorable v → bin_marshal out v ≡ written (out ++ encoding v)
  bin_marshal-encoding (uint8 n) out h = refl
  bin_marshal-encoding (uint32 n) out h = refl
  bin_marshal-encoding (int32 z) out h = refl
  bin_marshal-encoding (float64 w) out h = refl
  bin_marshal-encoding (int64 z) out h = ap written (encode_len_int64-appends out z)
  bin_marshal-encoding (uint64 n) out h = refl
  bin_marshal-encoding (string s) out h = ap written (append_assoc out _ s)
  bin_marshal-encoding (bytes bs) out h = ap written (append_assoc out _ bs)
  bin_marshal-encoding (int8 z) out h = absurd h
  bin_marshal-encoding (slice n) out h = absurd h
  bin_marshal-encoding (ptr v) out h = absurd h
  bin_marshal-encoding nil_ptr out h = absurd h
  bin_marshal-encoding other out h = absurd h
  bin_marshal-encoding (struct Fields.end) out h = absurd h
  bin_marshal-encoding (struct (field v fs)) out h = marshal_fields-encodings (field v fs) out h

  marshal_fields-encodings :
      (fs : Fields) (out : Bytes)
      → AreStorable fs
      → marshal_fields (written out) fs ≡ written (out ++ encodings fs)
  marshal_fields-encodings Fields.end out h = ap written (sym (append-nil out))
  marshal_fields-encodings (field v fs) out h =
      ap (λ w. marshal_fields w fs) (bin_marshal-encoding v out h.0)
      ∙ marshal_fields-encodings fs (out ++ encoding v) h.1
      ∙ ap written (append_assoc out (encoding v) (encodings fs))

-- The two forms of an int32, as what they are worth.
pub data Int32As (z : ℤ) : Bytes → Type 0 where
  small : (b : ℕ) → b < 128 → z ≡ pos b → Int32As z (b ∷ [])
  counted :
      (xs : Bytes) → length xs ≤ 4 → low_int32 (of_be xs) ≡ z → Int32As z ((128 + length xs) ∷ xs)

bits32 : ℤ → ℕ
bits32 z = to_word z % 2 ^ 32

bits32_back : (z : ℤ) → IsInt32 z → low_int32 (bits32 z) ≡ z
unfolding low_int32 bits32 to_word
bits32_back (pos n) h = ground arith
bits32_back (negsuc n) h = ground arith

bits32_small : (z : ℤ) → IsInt32 z → bits32 z < 128 → z ≡ pos (bits32 z)
unfolding bits32 to_word
bits32_small (pos n) h k = ground arith
bits32_small (negsuc n) h k = ground arith

first : ℤ → ℕ
first z = skip_zeros 4 (be_bytes 4 (bits32 z)) 0

kept : ℤ → Bytes
unfolding first
kept z = drop (first z) (be_bytes 4 (bits32 z))

length-kept : (z : ℤ) → length (kept z) ≡ 4 - first z
unfolding kept
length-kept z =
    length-drop (first z) (be_bytes 4 (bits32 z)) ∙ omega (arith, length-be_bytes 4 (bits32 z))

bits32_lt : (z : ℤ) → bits32 z < 256 ^ 4
unfolding bits32
bits32_lt z = omega arith

of_be-kept : (z : ℤ) → of_be (kept z) ≡ bits32 z
unfolding kept first
of_be-kept z =
    of_be-skip_zeros 4 (be_bytes 4 (bits32 z)) 0 ∙ of_be-be_bytes 4 (bits32 z) (bits32_lt z)

first_le : (z : ℤ) → first z ≤ 4
unfolding first
first_le z = skip_zeros_le 4 (be_bytes 4 (bits32 z)) 0

kept-Int32As : (z : ℤ) → IsInt32 z → Int32As z ((128 + 4 - first z) ∷ kept z)
kept-Int32As z h =
    subst (λ k. Int32As z (k ∷ kept z)) (omega (arith, length-kept z, first_le z))
      (counted (kept z) (omega (arith, length-kept z))
        (ap low_int32 (of_be-kept z) ∙ bits32_back z h))

either-Int32As :
    (z : ℤ) (b : Bool)
    → IsInt32 z
    → (b ≡ true → bits32 z < 128)
    → Int32As z (if b then bits32 z ∷ [] else (128 + 4 - first z) ∷ kept z)
either-Int32As z true h k = small (bits32 z) (k refl) (bits32_small z h (k refl))
either-Int32As z false h k = kept-Int32As z h

pub marshal_int32-Int32As : (z : ℤ) → IsInt32 z → Int32As z (marshal_int32 z)
unfolding marshal_int32 bits32 first kept
marshal_int32-Int32As z h = either-Int32As z _ h (λ e. ground arith)

Int32As-starts : (z : ℤ) (bs : Bytes) → Int32As z bs → 1 ≤ length bs
Int32As-starts z bs (small b h e) = omega arith
Int32As-starts z bs (counted xs h e) = omega arith

EncodedAs-starts : (z : ℤ) (bs : Bytes) → EncodedAs z bs → 1 ≤ length bs
EncodedAs-starts z bs (one_byte b h e) = omega arith
EncodedAs-starts z bs (sized xs h k e) = omega arith

text_starts : (s : Bytes) → length s < 2 ^ 63 → 1 ≤ length (encode_length (pos (length s)) ++ s)
text_starts s h =
    let encoded = encode_length (pos (length s)) in
    omega (
      arith,
      length-append encoded s,
      EncodedAs-starts (pos (length s)) encoded
          (encode_length-EncodedAs (pos (length s)) (omega (arith, h))),
    )

-- Every value has a byte at least.
pub encoding_starts : (v : GoValue) → IsStorable v → 1 ≤ length (encoding v)
unfolding IsStorable encoding
encoding_starts (uint8 n) h = omega arith
encoding_starts (uint32 n) h = omega (arith, length-be_bytes 4 n)
encoding_starts (int32 z) h = Int32As-starts z _ (marshal_int32-Int32As z h)
encoding_starts (float64 w) h = omega (arith, length-le_bytes 8 w)
encoding_starts (int64 z) h = omega arith
encoding_starts (uint64 n) h = omega (arith, length-be_bytes 8 n)
encoding_starts (string s) h = text_starts s h
encoding_starts (bytes s) h = text_starts s h
encoding_starts (int8 z) h = absurd h
encoding_starts (slice n) h = absurd h
encoding_starts (ptr v) h = absurd h
encoding_starts nil_ptr h = absurd h
encoding_starts other h = absurd h
encoding_starts (struct Fields.end) h = absurd h
encoding_starts (struct (field v fs)) h =
    omega (arith, length-append (encoding v) (encodings fs), encoding_starts v h.0)
