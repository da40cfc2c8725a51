-- ===== src/Converter/Length.antt =====
-- The two forms of a number with its length in front, and what reads them back from a slice or
-- from a bytes.Buffer: EncodeLenInt64 to DecodeLengthBuf (packages/converter/converter.go).
-- A slice behind a pointer, or a buffer, is the list of the bytes that are left.
pub mod Back
pub mod Safe
pub mod Total
use go_apla.Prelude.{
  ℕ, zero, suc, ◌+◌, ◌-◌, ◌%◌, ◌<◌, ◌^◌, List, [], ◌∷◌, ◌++◌, ◌&&◌, not, Bool, if◌then◌else◌, ltb,
  leb, length, take, drop, replicate,
}
use go_apla.Prelude.Int.{ℤ, pos, pos_part, ltb_ℤ, to_word, of_word}
use go_apla.Converter.Bytes.{
  Bytes, le_bytes, of_le, be_bytes, of_be, copy_into, trim_zeros, skip_zeros,
}

-- The errors of the decoders, those of BinUnmarshal with them.
pub data Refusal : Type 0 where
  shorter_than : ℕ → ℕ → Refusal
  small_size : Refusal
  negative_size : Refusal
  empty_input : Refusal
  wrong_data : Refusal
  short_input : Refusal
  unsupported : Refusal

-- A value and what is left of the input; an error leaves an input too; and a panic.
pub data Read {ℓ} (A : Type ℓ) : Type ℓ where
  got : A → Bytes → Read A
  failed : Refusal → Bytes → Read A
  crash : Read A

abbrev pub Reader {ℓ} : Type ℓ → Type ℓ
Reader A = Bytes → Read A

infixl 20 ◌>>=◌
unfoldable pub ◌>>=◌ {ℓ ℓ'} : {A : Type ℓ} {B : Type ℓ'} → Read A → (A → Reader B) → Read B
got a rest >>= k = k a rest
failed e rest >>= k = failed e rest
crash >>= k = crash

-- EncodeLenInt64, on what it appends.
unfoldable pub encode_len_int64 : Bytes → ℤ → Bytes
encode_len_int64 out x =
    let buf = le_bytes 8 (to_word x) in
    let size = trim_zeros 8 buf in (out ++ size ∷ []) ++ take size buf

-- EncodeLenInt64InPlace: one buffer, its first byte last.
unfoldable pub encode_len_int64_in_place : ℤ → Bytes
encode_len_int64_in_place x =
    let value = le_bytes 8 (to_word x) in
    let size = trim_zeros 8 value in take (size + 1) (size ∷ value)

unfoldable pub encode_length : ℤ → Bytes
encode_length n =
    let buf = be_bytes 8 (to_word n) in
    let i = skip_zeros 7 (0 ∷ buf) 1 in
    if not (ltb_ℤ n (pos 0)) && not (ltb_ℤ (pos 127) n)
    then pos_part n ∷ []
    else (128 + (9 - i)) ∷ drop i (0 ∷ buf)

unfoldable pub encode_len_byte : Bytes → Bytes → Bytes
unfolding encode_length
encode_len_byte out buf = (out ++ encode_length (pos (length buf))) ++ buf

-- At most eight bytes with zeros behind them, or before them, as an int64.
unfoldable pub le_int64 : Bytes → ℤ
le_int64 buf = of_word (of_le (copy_into (replicate 8 0) buf))

-- `make([]byte, 8-length)` is of bytes, so the difference wraps at 256.
unfoldable pub be_int64 : ℕ → Bytes → ℤ
be_int64 size buf = of_word (of_be (take 8 (replicate ((8 + 256 - size) % 256) 0 ++ buf)))

unfoldable pub decode_len_int64 : Reader ℤ
unfolding le_int64
decode_len_int64 [] = got (pos 0) []
decode_len_int64 (b ∷ more) =
    if ltb (suc (length more)) (b + 1)
    then failed (shorter_than (suc (length more)) (b + 1)) (b ∷ more)
    else got (le_int64 (take b more)) (drop (b + 1) (b ∷ more))

unfoldable pub decode_len_int64_buf : Reader ℤ
unfolding le_int64
decode_len_int64_buf [] = got (pos 0) []
decode_len_int64_buf (b ∷ more) =
    if ltb (length more) b
    then failed (shorter_than (length more) b) more
    else got (le_int64 (take b more)) (drop b more)

unfoldable pub decode_length : Reader ℤ
unfolding be_int64
decode_length [] = got (pos 0) []
decode_length (b ∷ more) =
    let size = b % 128 in
    if leb 128 b
    then (if ltb (suc (length more)) (size + 1)
        then failed small_size (b ∷ more)
        else got (be_int64 size (take size more)) (drop (size + 1) (b ∷ more)))
    else got (pos b) more

unfoldable pub decode_length_buf : Reader ℤ
unfolding be_int64
decode_length_buf [] = got (pos 0) []
decode_length_buf (b ∷ more) =
    let size = b % 128 in
    let n = be_int64 size (take size more) in
    if leb 128 b
    then (if ltb (length more) size
        then failed small_size more
        else if ltb_ℤ n (pos 0)
        then failed negative_size (drop size more)
        else got n (drop size more))
    else got (pos b) more
