-- ===== src/Converter/Tests.antt =====
-- The converter on small inputs.
use go_apla.Prelude.{◌≤◌, ◌≡◌, inl, refl, ◌↔◌, [], ◌∷◌, ◌++◌, if◌then◌else◌, arith, length}
use go_apla.Prelude.Int.{pos, negsuc, pos_part, neg_part, ltb_ℤ, to_word, of_word}
use go_apla.Converter.Bytes.{Bytes, skip_zeros, be_bytes, of_be_from}
use go_apla.Converter.Length.{
  got, failed, crash, negative_size, wrong_data, encode_len_int64, encode_len_int64_in_place,
  encode_length, decode_len_int64, decode_len_int64_buf, decode_length, decode_length_buf,
}
use go_apla.Converter.Length.Safe.{
  decode_len_int64-encode_len_int64, decode_length-encode_length, encode_length_unique,
  encode_length-bounds,
}
use go_apla.Converter.Marshal.{
  GoValue, Fields, uint8, int32, int64, string, struct, field, written, bin_marshal, bin_unmarshal,
  k_int32, k_string,
}
use go_apla.Converter.Marshal.Encoding.{IsStorable, kind_of}
use go_apla.Converter.Marshal.Back.{bin_unmarshal-bin_marshal}
use go_apla.Converter.Buffer.{bin_unmarshal_buff}
use go_apla.Converter.Buffer.Back.{bin_unmarshal_buff-bin_marshal, bin_unmarshal_buff_last}
use go_apla.Converter.Buffer.Negative.{bin_unmarshal_negative}
use go_apla.Converter.Hex.{bin_to_hex, hex_to_bin, dec_to_bin}
use go_apla.Converter.Hex.Back.{AreBytes, hex_to_bin-bin_to_hex}

-- The three encodings of the comment on EncodeLength.
documented : encode_length (pos 67) ≡ 0x43 ∷ []
unfolding encode_length
documented = refl

documented_two : encode_length (pos 1024) ≡ 0x82 ∷ 0x04 ∷ 0x00 ∷ []
unfolding encode_length skip_zeros be_bytes to_word
documented_two = refl

documented_three : encode_length (pos 1_000_000) ≡ 0x83 ∷ 0x0f ∷ 0x42 ∷ 0x40 ∷ []
unfolding encode_length skip_zeros be_bytes to_word
documented_three = refl

-- A prefix of more than eight bytes is read as 0.
nine : decode_length (0x89 ∷ 1 ∷ 2 ∷ 3 ∷ 4 ∷ 5 ∷ 6 ∷ 7 ∷ 8 ∷ 9 ∷ []) ≡ got (pos 0) []
unfolding decode_length of_word of_be_from
nine = refl

abbrev sample : GoValue
sample = struct (
    field (uint8 7) (
      field (int32 (negsuc 4))
        (field (int64 (pos 300)) (field (string (65 ∷ 66 ∷ [])) Fields.end))))

sample-IsStorable : IsStorable sample
unfolding IsStorable
sample-IsStorable =
    (omega arith, ((omega arith, omega arith), ((omega arith, omega arith), (omega arith, tt))))

decode_len_int64-encode_len_int64_example :
    (encode_len_int64 (9 ∷ []) (pos 300) ≡ 9 ∷ [] ++ encode_len_int64_in_place (pos 300))
    × (decode_len_int64 (encode_len_int64_in_place (pos 300) ++ 5 ∷ []) ≡ got (pos 300) (5 ∷ []))
    × (decode_len_int64_buf (encode_len_int64_in_place (pos 300) ++ 5 ∷ [])
        ≡ got (pos 300) (5 ∷ []))
decode_len_int64-encode_len_int64_example =
    decode_len_int64-encode_len_int64 (pos 300) (9 ∷ []) (5 ∷ []) (omega arith, omega arith)

decode_length-encode_length_example :
    (decode_length (encode_length (negsuc 2) ++ 5 ∷ []) ≡ got (negsuc 2) (5 ∷ []))
    × (decode_length_buf (encode_length (negsuc 2) ++ 5 ∷ []) ≡ (
        if ltb_ℤ (negsuc 2) (pos 0)
        then failed negative_size (5 ∷ [])
        else got (negsuc 2) (5 ∷ [])))
decode_length-encode_length_example =
    decode_length-encode_length (negsuc 2) (5 ∷ []) (omega arith, omega arith)

abbrev seven : Bytes
seven = 7 ∷ []

encode_length_unique_example : (pos 1024 ≡ pos 1024) × (seven ≡ seven)
encode_length_unique_example =
    encode_length_unique (pos 1024) (pos 1024) (7 ∷ []) (7 ∷ []) (omega arith, omega arith)
      (omega arith, omega arith) refl

encode_length-bounds_example :
    (1 ≤ length (encode_length (pos 1024)))
    × (length (encode_length (pos 1024)) ≤ 9)
    × ((length (encode_length (pos 1024)) ≡ 1)
        ↔ ((neg_part (pos 1024) ≡ 0) × (pos_part (pos 1024) ≤ 127)))
    × (1 ≤ length (encode_len_int64_in_place (pos 1024)))
    × (length (encode_len_int64_in_place (pos 1024)) ≤ 9)
encode_length-bounds_example = encode_length-bounds (pos 1024) (omega arith, omega arith)

bin_unmarshal-bin_marshal_example :
    (bs : Bytes) × (bin_marshal (1 ∷ []) sample ≡ written (1 ∷ [] ++ bs))
    × (bin_unmarshal (kind_of sample) (bs ++ 2 ∷ []) ≡ got sample (2 ∷ []))
bin_unmarshal-bin_marshal_example =
    bin_unmarshal-bin_marshal sample (1 ∷ []) (2 ∷ []) sample-IsStorable

bin_unmarshal_buff-bin_marshal_example :
    (bs : Bytes) × (bin_marshal (1 ∷ []) sample ≡ written (1 ∷ [] ++ bs))
    × (bin_unmarshal_buff (kind_of sample) (bs ++ 2 ∷ []) ≡ got sample (2 ∷ []))
bin_unmarshal_buff-bin_marshal_example =
    bin_unmarshal_buff-bin_marshal sample (1 ∷ []) (2 ∷ []) sample-IsStorable (omega arith)

bin_unmarshal_buff_last_example :
    (bs : Bytes) × (rest : Bytes) × (bin_marshal [] (int32 (pos 200)) ≡ written bs)
    × (bin_unmarshal_buff k_int32 bs ≡ failed wrong_data rest)
bin_unmarshal_buff_last_example =
    bin_unmarshal_buff_last (pos 200) (omega arith, omega arith) (inl refl)

bin_unmarshal_negative_example :
    (bin_unmarshal k_string (encode_length (negsuc 2) ++ 5 ∷ []) ≡ crash)
    × (bin_unmarshal_buff k_string (encode_length (negsuc 2) ++ 5 ∷ [])
        ≡ failed negative_size (5 ∷ []))
bin_unmarshal_negative_example = bin_unmarshal_negative 2 (5 ∷ []) (omega arith, omega arith)

two_bytes-AreBytes : AreBytes (0x4f ∷ 0x0a ∷ [])
unfolding AreBytes
two_bytes-AreBytes = (omega arith, (omega arith, tt))

hex_to_bin-bin_to_hex_example : hex_to_bin (bin_to_hex (0x4f ∷ 0x0a ∷ [])) ≡ 0x4f ∷ 0x0a ∷ []
hex_to_bin-bin_to_hex_example = hex_to_bin-bin_to_hex (0x4f ∷ 0x0a ∷ []) two_bytes-AreBytes

-- A number that one byte has no room for.
too_large_for_a_byte : dec_to_bin (pos 300) 1 ≡ 0x12 ∷ []
unfolding dec_to_bin
too_large_for_a_byte = refl
