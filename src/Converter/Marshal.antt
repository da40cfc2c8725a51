-- ===== src/Converter/Marshal.antt =====
-- BinMarshal and BinUnmarshal (packages/converter/converter.go), on the values
-- that reflection shows them.
pub mod Encoding
pub mod Back
use go_apla.Prelude.{
  ℕ, zero, suc, ◌+◌, ◌-◌, ◌*◌, ◌%◌, ◌<◌, ◌^◌, List, [], ◌∷◌, ◌++◌, ◌||◌, Bool, true, false,
  if◌then◌else◌, ltb, leb, length, take, drop, replicate,
}
use go_apla.Prelude.Int.{ℤ, pos, negsuc, pos_part, ltb_ℤ, to_word}
use go_apla.Converter.Bytes.{Bytes, le_bytes, of_le, be_bytes, of_be, skip_zeros}
use go_apla.Converter.Length.{
  Reader, Read, got, failed, crash, ◌>>=◌, wrong_data, short_input, empty_input, unsupported,
  encode_len_int64, encode_length, decode_len_int64, decode_length,
}

-- A float64 is its 64 bits, a string its bytes. A slice of anything but bytes is `slice`, and
-- `other` a value of a kind that the switch does not name.
mutual
  pub data GoValue : Type 0 where
    uint8 : ℕ → GoValue
    int8 : ℤ → GoValue
    uint32 : ℕ → GoValue
    int32 : ℤ → GoValue
    float64 : ℕ → GoValue
    int64 : ℤ → GoValue
    uint64 : ℕ → GoValue
    string : Bytes → GoValue
    bytes : Bytes → GoValue
    slice : ℕ → GoValue
    struct : Fields → GoValue
    ptr : GoValue → GoValue
    nil_ptr : GoValue
    other : GoValue

  pub data Fields : Type 0 where
    end : Fields
    field : GoValue → Fields → Fields

-- What the output holds after a call that returns nil, or an error; and a panic.
pub data Written : Type 0 where
  written : Bytes → Written
  refused : Bytes → Written
  panicked : Written

-- `case reflect.Int32` of BinMarshal: one byte, or the number of bytes and the bytes.
unfoldable pub marshal_int32 : ℤ → Bytes
marshal_int32 z =
    let w = to_word z % 2 ^ 32 in
    let tmp = be_bytes 4 w in
    let i = skip_zeros 4 tmp 0 in if ltb w 128 then w ∷ [] else (128 + 4 - i) ∷ drop i tmp

unfoldable mutual
  unfolding marshal_int32

  pub bin_marshal : Bytes → GoValue → Written
  bin_marshal out (uint8 n) = written (out ++ n % 256 ∷ [])
  bin_marshal out (int8 z) = panicked
  bin_marshal out (uint32 n) = written (out ++ be_bytes 4 n)
  bin_marshal out (int32 z) = written (out ++ marshal_int32 z)
  bin_marshal out (float64 w) = written (out ++ le_bytes 8 w)
  bin_marshal out (int64 z) = written (encode_len_int64 out z)
  bin_marshal out (uint64 n) = written (out ++ be_bytes 8 n)
  bin_marshal out (string s) = written ((out ++ encode_length (pos (length s))) ++ s)
  bin_marshal out (struct fs) = marshal_fields (written out) fs
  bin_marshal out (bytes bs) = written ((out ++ encode_length (pos (length bs))) ++ bs)
  bin_marshal out (slice n) = panicked
  bin_marshal out (ptr v) = bin_marshal out v
  bin_marshal out nil_ptr = panicked
  bin_marshal out other = refused out

  pub marshal_fields : Written → Fields → Written
  marshal_fields so_far end = so_far
  marshal_fields (written out) (field v fs) = marshal_fields (bin_marshal out v) fs
  marshal_fields (refused out) (field v fs) = refused out
  marshal_fields panicked (field v fs) = panicked

-- The kind of the value that the pointer points to.
mutual
  pub data Kind : Type 0 where
    k_uint8 : Kind
    k_int8 : Kind
    k_uint32 : Kind
    k_int32 : Kind
    k_float64 : Kind
    k_int64 : Kind
    k_uint64 : Kind
    k_string : Kind
    k_bytes : Kind
    k_slice : Kind
    k_struct : Kinds → Kind
    k_other : Kind

  pub data Kinds : Type 0 where
    end : Kinds
    kind : Kind → Kinds → Kinds

-- What SetInt keeps in an int32: the low 32 bits.
unfoldable pub low_int32 : ℕ → ℤ
low_int32 w = if ltb w (2 ^ 31) then pos w else negsuc (2 ^ 32 - 1 - w)

-- The next n bytes, a panic where they are fewer.
unfoldable pub next_bytes : ℕ → Reader Bytes
next_bytes n input = if ltb (length input) n then crash else got (take n input) (drop n input)

unfoldable pub returns : {A : Type 0} → A → Reader A
returns a rest = got a rest

-- `len(*out) <= int(size) || size > 4`
unfoldable pub too_few : ℕ → ℕ → Bool
too_few available size = leb available size || ltb 4 size

-- `case reflect.Int32` of BinUnmarshal.
unfoldable pub read_int32 : Reader GoValue
unfolding low_int32 too_few
read_int32 [] = crash
read_int32 (b ∷ more) =
    let size = b - 128 in
    let tmp = replicate (4 - size) 0 ++ take size more in
    if ltb b 128
    then got (int32 (pos b)) more
    else if too_few (suc (length more)) size
    then failed wrong_data (b ∷ more)
    else got (int32 (low_int32 (of_be tmp))) (drop size more)

-- The bytes after a length: `int(val)` below zero is a slice out of range.
unfoldable pub sized_bytes : ℤ → Reader Bytes
sized_bytes n input =
    if ltb_ℤ (pos (length input)) n
    then failed short_input input
    else if ltb_ℤ n (pos 0)
    then crash
    else got (take (pos_part n) input) (drop (pos_part n) input)

-- The check for input, before the switch on the kind.
unfoldable pub with_input : {A : Type 0} → Reader A → Reader A
with_input read [] = failed empty_input []
with_input read (b ∷ more) = read (b ∷ more)

unfoldable mutual
  unfolding next_bytes read_int32 sized_bytes ◌>>=◌ returns with_input

  pub unmarshal_kind : Kind → Reader GoValue
  unmarshal_kind k_uint8 input = next_bytes 1 input >>= λ bs. returns (uint8 (of_be bs))
  unmarshal_kind k_int8 input = crash
  unmarshal_kind k_uint32 input = next_bytes 4 input >>= λ bs. returns (uint32 (of_be bs))
  unmarshal_kind k_int32 input = read_int32 input
  unmarshal_kind k_float64 input = next_bytes 8 input >>= λ bs. returns (float64 (of_le bs))
  unmarshal_kind k_int64 input = decode_len_int64 input >>= λ z. returns (int64 z)
  unmarshal_kind k_uint64 input = next_bytes 8 input >>= λ bs. returns (uint64 (of_be bs))
  unmarshal_kind k_string input =
      decode_length input >>= λ n. λ more. sized_bytes n more >>= λ s. returns (string s)
  unmarshal_kind (k_struct ks) input = unmarshal_fields ks input >>= λ fs. returns (struct fs)
  unmarshal_kind k_bytes input =
      decode_length input >>= λ n. λ more. sized_bytes n more >>= λ s. returns (bytes s)
  unmarshal_kind k_slice input =
      decode_length input >>= λ n. λ more. sized_bytes n more >>= λ s. λ rest. crash
  unmarshal_kind k_other input = failed unsupported input

  pub unmarshal_fields : Kinds → Reader Fields
  unmarshal_fields end input = got end input
  unmarshal_fields (kind k ks) input = with_input (unmarshal_kind k) input >>= λ v.
      λ more. unmarshal_fields ks more >>= λ fs. returns (field v fs)

unfoldable pub bin_unmarshal : Kind → Reader GoValue
unfolding unmarshal_kind with_input
bin_unmarshal k = with_input (unmarshal_kind k)
