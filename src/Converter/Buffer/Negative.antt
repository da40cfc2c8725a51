-- ===== src/Converter/Buffer/Negative.antt =====
-- A negative length in front of a string.
use go_apla.Prelude.{ℕ, ◌≡◌, ap, ◌∙◌, ◌++◌, arith, if_true}
use go_apla.Prelude.Int.{pos, negsuc, IsInt64, ltb_ℤ}
use go_apla.Converter.Bytes.{Bytes}
use go_apla.Converter.Length.{got, failed, crash, negative_size, ◌>>=◌, encode_length}
use go_apla.Converter.Length.Safe.{decode_length-encode_length, encode_length-bounds}
use go_apla.Converter.Marshal.{
  k_string, sized_bytes, unmarshal_kind, bin_unmarshal, string, returns,
}
use go_apla.Converter.Marshal.Back.{with_input_lem}
use go_apla.Converter.Buffer.{bin_unmarshal_buff, unmarshal_buff_kind}

sized_bytes_negative : (n : ℕ) (rest : Bytes) → sized_bytes (negsuc n) rest ≡ crash
unfolding sized_bytes
sized_bytes_negative n rest = ground arith

text_negative :
    (n : ℕ) (rest : Bytes)
    → IsInt64 (negsuc n)
    → unmarshal_kind k_string (encode_length (negsuc n) ++ rest) ≡ crash
unfolding unmarshal_kind ◌>>=◌
text_negative n rest h =
    ap (λ r. r >>= λ m. λ more. sized_bytes m more >>= λ s. returns (string s))
      (decode_length-encode_length (negsuc n) rest h).0
    ∙ ap (λ r. r >>= λ s. returns (string s)) (sized_bytes_negative n rest)

text_buf_negative :
    (n : ℕ) (rest : Bytes)
    → IsInt64 (negsuc n)
    → unmarshal_buff_kind k_string (encode_length (negsuc n) ++ rest) ≡ failed negative_size rest
unfolding unmarshal_buff_kind ◌>>=◌
text_buf_negative n rest h =
    ap (λ r. r >>= λ m. λ more. sized_bytes m more >>= λ s. returns (string s))
      ((decode_length-encode_length (negsuc n) rest h).1
        ∙ if_true {b = ltb_ℤ (negsuc n) (pos 0)} (got (negsuc n) rest) (ground arith))

-- An input that starts with a negative int64 as EncodeLength writes it makes BinUnmarshal panic when
-- it reads a string, and gives BinUnmarshalBuff an error.
pub bin_unmarshal_negative :
    (n : ℕ) (rest : Bytes)
    → IsInt64 (negsuc n)
    → (bin_unmarshal k_string (encode_length (negsuc n) ++ rest) ≡ crash)
      × (bin_unmarshal_buff k_string (encode_length (negsuc n) ++ rest) ≡ failed negative_size rest)
unfolding bin_unmarshal bin_unmarshal_buff
bin_unmarshal_negative n rest h =
    let bytes = encode_length (negsuc n) in
    let starts = (encode_length-bounds (negsuc n) h).0 in
    (
      with_input_lem (unmarshal_kind k_string) bytes rest starts ∙ text_negative n rest h,
      with_input_lem (unmarshal_buff_kind k_string) bytes rest starts ∙ text_buf_negative n rest h,
    )
