-- ===== src/Converter/Buffer.antt =====
-- BinUnmarshalBuff (packages/converter/converter.go): BinUnmarshal over a bytes.Buffer.
pub mod Back
pub mod Negative
use go_apla.Prelude.{
  ℕ, suc, ◌-◌, List, [], ◌∷◌, ◌++◌, if◌then◌else◌, ltb, length, take, drop, replicate,
}
use go_apla.Prelude.Int.{ℤ, pos}
use go_apla.Converter.Bytes.{of_le, of_be}
use go_apla.Converter.Length.{
  Reader, got, failed, crash, ◌>>=◌, wrong_data, unsupported, decode_len_int64_buf,
  decode_length_buf,
}
use go_apla.Converter.Marshal.{
  GoValue, Fields, uint8, uint32, int32, float64, int64, uint64, string, bytes, struct, field, Kind,
  Kinds, k_uint8, k_int8, k_uint32, k_int32, k_float64, k_int64, k_uint64, k_string, k_bytes,
  k_slice, k_struct, k_other, kind, low_int32, next_bytes, returns, too_few, sized_bytes,
  with_input,
}

-- `case reflect.Int32`; the length that the bytes are compared with has lost the first byte.
unfoldable pub read_int32_buf : Reader GoValue
unfolding low_int32 too_few
read_int32_buf [] = crash
read_int32_buf (b ∷ more) =
    let size = b - 128 in
    let tmp = replicate (4 - size) 0 ++ take size more in
    if ltb b 128
    then got (int32 (pos b)) more
    else if too_few (length more) size
    then failed wrong_data more
    else got (int32 (low_int32 (of_be tmp))) (drop size more)

unfoldable mutual
  unfolding next_bytes read_int32_buf sized_bytes ◌>>=◌ returns with_input

  pub unmarshal_buff_kind : Kind → Reader GoValue
  unmarshal_buff_kind k_uint8 input = next_bytes 1 input >>= λ bs. returns (uint8 (of_be bs))
  unmarshal_buff_kind k_int8 input = crash
  unmarshal_buff_kind k_uint32 input = next_bytes 4 input >>= λ bs. returns (uint32 (of_be bs))
  unmarshal_buff_kind k_int32 input = read_int32_buf input
  unmarshal_buff_kind k_float64 input = next_bytes 8 input >>= λ bs. returns (float64 (of_le bs))
  unmarshal_buff_kind k_int64 input = decode_len_int64_buf input >>= λ z. returns (int64 z)
  unmarshal_buff_kind k_uint64 input = next_bytes 8 input >>= λ bs. returns (uint64 (of_be bs))
  unmarshal_buff_kind k_string input =
      decode_length_buf input >>= λ n. λ more. sized_bytes n more >>= λ s. returns (string s)
  unmarshal_buff_kind (k_struct ks) input =
      unmarshal_buff_fields ks input >>= λ fs. returns (struct fs)
  unmarshal_buff_kind k_bytes input =
      decode_length_buf input >>= λ n. λ more. sized_bytes n more >>= λ s. returns (bytes s)
  unmarshal_buff_kind k_slice input =
      decode_length_buf input >>= λ n. λ more. sized_bytes n more >>= λ s. λ rest. crash
  unmarshal_buff_kind k_other input = failed unsupported input

  pub unmarshal_buff_fields : Kinds → Reader Fields
  unmarshal_buff_fields Kinds.end input = got Fields.end input
  unmarshal_buff_fields (kind k ks) input = with_input (unmarshal_buff_kind k) input >>= λ v.
      λ more. unmarshal_buff_fields ks more >>= λ fs. returns (field v fs)

unfoldable pub bin_unmarshal_buff : Kind → Reader GoValue
unfolding unmarshal_buff_kind with_input
bin_unmarshal_buff k = with_input (unmarshal_buff_kind k)
