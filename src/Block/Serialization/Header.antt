-- ===== src/Block/Serialization/Header.antt =====
-- ParseBlockHeader on the header that MarshallBlock writes.
use go_apla.Prelude.{
  ℕ, suc, ◌+◌, ◌*◌, ◌^◌, ◌<◌, ◌≤◌, ◌≡◌, ◌⊎◌, inl, inr, refl, sym, ap, ◌∙◌, Bool, true, false, ◌&&◌,
  [], ◌++◌, length, take, drop, if◌then◌else◌, ltb, length-append, append_assoc, take-append,
  drop-append, if_true, if_false, arith,
}
use go_apla.Prelude.Int.{ℤ, pos, negsuc, pos_part, neg_part, ltb_ℤ, IsInt64}
use go_apla.Converter.Bytes.{Bytes, be_bytes}
use go_apla.Converter.Bytes.Values.{length-be_bytes}
use go_apla.Converter.Length.{
  got, encode_length, encode_len_int64_in_place, decode_len_int64_buf, decode_length_buf,
}
use go_apla.Converter.Length.Back.{decode_length_buf_lem, encode_length-EncodedAs}
use go_apla.Converter.Length.Safe.{decode_len_int64-encode_len_int64}
use go_apla.Converter.Hex.{dec_to_bin, bin_to_dec, encode_length_plus_data}
use go_apla.Converter.Hex.Back.{dec_to_bin-be_bytes, bin_to_dec-be_bytes}
use go_apla.Block.Serialization.{
  BlockData, header_bytes, parsed, rejected, with_sign, parse_sign, parse_key, parse_fields,
  parse_block_header, too_large, bad_length, no_sign,
}

-- A number that is not negative and is below a bound.
abbrev pub IsBelow : ℕ → ℤ → Type 0
IsBelow bound z = (neg_part z ≡ 0) × (pos_part z < bound)

-- Numbers that have room in their fields.
abbrev pub IsSerializable : BlockData → Type 0
IsSerializable h =
    IsBelow (2 ^ 16) h.version
    × IsBelow (2 ^ 32) h.block_id
    × IsBelow (2 ^ 32) h.time
    × IsBelow (2 ^ 32) h.ecosystem_id
    × IsInt64 h.key_id
    × IsBelow (2 ^ 8) h.node_position

-- A field of so many bytes.
record Field (z : ℤ) (k : ℕ) : Type 0 where
  pub taken : (rest : Bytes) → bin_to_dec (take k (dec_to_bin z k ++ rest)) ≡ z
  pub dropped : (rest : Bytes) → drop k (dec_to_bin z k ++ rest) ≡ rest
  pub size : length (dec_to_bin z k) ≡ k

Field-pos : (n s : ℕ) → n < 16 ^ (suc s * 2) → n < 256 ^ suc s → n < 2 ^ 63 → Field (pos n) (suc s)
Field-pos n s h g l =
    let bytes = be_bytes (suc s) n in
    let same = dec_to_bin-be_bytes s n h (omega (arith, l)) in
    let size = length-be_bytes (suc s) n in
    record {
      taken = λ rest.
          ap (λ b. bin_to_dec (take (suc s) (b ++ rest))) same
          ∙ ap (λ k. bin_to_dec (take k (bytes ++ rest))) (sym size)
          ∙ ap bin_to_dec (take-append bytes rest)
          ∙ bin_to_dec-be_bytes (suc s) n g l;
      dropped = λ rest.
          ap (λ b. drop (suc s) (b ++ rest)) same
          ∙ ap (λ k. drop k (bytes ++ rest)) (sym size)
          ∙ drop-append bytes rest;
      size = ap length same ∙ size;
    }

two_bytes : (z : ℤ) → IsBelow (2 ^ 16) z → Field z 2
two_bytes (pos n) h = Field-pos n 1 (omega (arith, h.1)) (omega (arith, h.1)) (omega (arith, h.1))
two_bytes (negsuc n) h = absurd (omega (arith, h.0))

four_bytes : (z : ℤ) → IsBelow (2 ^ 32) z → Field z 4
four_bytes (pos n) h = Field-pos n 3 (omega (arith, h.1)) (omega (arith, h.1)) (omega (arith, h.1))
four_bytes (negsuc n) h = absurd (omega (arith, h.0))

one_byte : (z : ℤ) → IsBelow (2 ^ 8) z → Field z 1
one_byte (pos n) h = Field-pos n 0 (omega (arith, h.1)) (omega (arith, h.1)) (omega (arith, h.1))
one_byte (negsuc n) h = absurd (omega (arith, h.0))

pub sign_read :
    (signed rest : Bytes)
    → length signed < 2 ^ 63
    → decode_length_buf (encode_length_plus_data signed ++ rest)
      ≡ got (pos (length signed)) (signed ++ rest)
unfolding encode_length_plus_data
sign_read signed rest h =
    ap decode_length_buf (append_assoc (encode_length (pos (length signed))) signed rest)
    ∙ decode_length_buf_lem (length signed) _ (signed ++ rest)
        (encode_length-EncodedAs (pos (length signed)) (omega (arith, h)))

pub room : (xs rest : Bytes) → ltb_ℤ (pos (length (xs ++ rest))) (pos (length xs)) ≡ false
room xs rest = ground (arith, length-append xs rest)

with_sign_lem :
    (h : BlockData) (signed rest : Bytes)
    → with_sign h (got (pos (length signed)) (signed ++ rest))
      ≡ parsed (record h { sign = signed }) rest
unfolding with_sign
with_sign_lem h signed rest =
    if_false (rejected no_sign) (room signed rest)
    ∙ ap (λ s. parsed (record h { sign = s }) (drop (length signed) (signed ++ rest)))
        (take-append signed rest)
    ∙ ap (parsed (record h { sign = signed })) (drop-append signed rest)

-- A block after the first one is signed, and any other is not.
abbrev pub IsSigned : BlockData → Bytes → Type 0
IsSigned h signed =
    ((ltb_ℤ (pos 1) h.block_id ≡ true) × (length signed < 2 ^ 63))
    ⊎ ((ltb_ℤ (pos 1) h.block_id ≡ false) × (signed ≡ []))

abbrev unsigned : BlockData → BlockData
unsigned h = record h { sign = [] }

no_sign_read : (rest : Bytes) → drop 1 (encode_length_plus_data [] ++ rest) ≡ rest
unfolding encode_length_plus_data encode_length
no_sign_read rest = refl

parse_sign_lem :
    (h : BlockData) (signed rest : Bytes)
    → IsSigned h signed
    → parse_sign (unsigned h) (encode_length_plus_data signed ++ rest)
      ≡ parsed (record h { sign = signed }) rest
unfolding parse_sign
parse_sign_lem h signed rest (inl k) =
    if_true (parsed (unsigned h) (drop 1 (encode_length_plus_data signed ++ rest))) k.0
    ∙ ap (with_sign (unsigned h)) (sign_read signed rest k.1)
    ∙ with_sign_lem (unsigned h) signed rest
parse_sign_lem h signed rest (inr k) =
    if_false (with_sign (unsigned h) (decode_length_buf (encode_length_plus_data signed ++ rest)))
      k.0
    ∙ ap (λ s. parsed (unsigned h) (drop 1 (encode_length_plus_data s ++ rest))) k.1
    ∙ ap (parsed (unsigned h)) (no_sign_read rest)
    ∙ ap (λ s. parsed (record h { sign = s }) rest) (sym k.1)

parse_key_lem :
    (h : BlockData) (rest : Bytes)
    → IsBelow (2 ^ 8) h.node_position
    → parse_key h.version h.block_id h.time h.ecosystem_id
        (got h.key_id (dec_to_bin h.node_position 1 ++ rest))
      ≡ parse_sign (unsigned h) rest
unfolding parse_key
parse_key_lem h rest k =
    let field = one_byte h.node_position k in
    ap
      (λ n.
        parse_sign (record h { node_position = n; sign = [] })
          (drop 1 (dec_to_bin h.node_position 1 ++ rest)))
      (field.taken rest)
    ∙ ap (parse_sign (unsigned h)) (field.dropped rest)

parse_fields_lem :
    (h : BlockData) (rest : Bytes)
    → IsSerializable h
    → parse_fields h.version (
        dec_to_bin h.block_id 4
        ++ (dec_to_bin h.time 4
            ++ (dec_to_bin h.ecosystem_id 4 ++ (encode_len_int64_in_place h.key_id ++ rest))))
      ≡ parse_key h.version h.block_id h.time h.ecosystem_id (got h.key_id rest)
unfolding parse_fields
parse_fields_lem h rest k =
    let v = h.version in
    let id = four_bytes h.block_id k.1 in
    let time = four_bytes h.time k.2 in
    let eco = four_bytes h.ecosystem_id k.3 in
    let in3 = encode_len_int64_in_place h.key_id ++ rest in
    let in2 = dec_to_bin h.ecosystem_id 4 ++ in3 in
    let in1 = dec_to_bin h.time 4 ++ in2 in
    let in0 = dec_to_bin h.block_id 4 ++ in1 in
    ap
      (λ r.
        parse_key v (bin_to_dec (take 4 in0)) (bin_to_dec (take 4 r))
          (bin_to_dec (take 4 (drop 4 r))) (decode_len_int64_buf (drop 4 (drop 4 r))))
      (id.dropped in1)
    ∙ ap
        (λ r.
          parse_key v (bin_to_dec (take 4 in0)) (bin_to_dec (take 4 in1)) (bin_to_dec (take 4 r))
            (decode_len_int64_buf (drop 4 r)))
        (time.dropped in2)
    ∙ ap
        (λ r.
          parse_key v (bin_to_dec (take 4 in0)) (bin_to_dec (take 4 in1)) (bin_to_dec (take 4 in2))
            (decode_len_int64_buf r))
        (eco.dropped in3)
    ∙ ap
        (λ i.
          parse_key v i (bin_to_dec (take 4 in1)) (bin_to_dec (take 4 in2))
            (decode_len_int64_buf in3))
        (id.taken in1)
    ∙ ap (λ t. parse_key v h.block_id t (bin_to_dec (take 4 in2)) (decode_len_int64_buf in3))
        (time.taken in2)
    ∙ ap (λ e. parse_key v h.block_id h.time e (decode_len_int64_buf in3)) (eco.taken in3)
    ∙ ap (parse_key v h.block_id h.time h.ecosystem_id)
        (decode_len_int64-encode_len_int64 h.key_id [] rest k.4).2

long_input : (n m : ℕ) → n ≡ 2 + m → 12 ≤ m → ltb n 9 ≡ false
long_input n m e h = ground arith

fits_size :
    (max_size : ℤ) (check : Bool) (n : ℕ)
    → n ≤ pos_part max_size
    → 1 ≤ n
    → check && ltb_ℤ max_size (pos n) ≡ false
fits_size (pos m) true n h k = ground arith
fits_size (pos m) false n h k = refl
fits_size (negsuc m) check n h k = absurd (omega (arith, h, k))

-- The header of a block is read back, with its sign, and the transactions are left.
pub parse_block_header-header_bytes :
    (h : BlockData) (signed txs : Bytes) (max_size : ℤ) (check : Bool)
    → IsSerializable h
    → IsSigned h signed
    → length (header_bytes h signed txs) ≤ pos_part max_size + 2
    → parse_block_header max_size check (header_bytes h signed txs)
      ≡ parsed (record h { sign = signed }) txs
unfolding parse_block_header header_bytes
parse_block_header-header_bytes h signed txs max_size check k s fits =
    let version = two_bytes h.version k.0 in
    let in5 = encode_length_plus_data signed ++ txs in
    let in4 = dec_to_bin h.node_position 1 ++ in5 in
    let in3 = encode_len_int64_in_place h.key_id ++ in4 in
    let in2 = dec_to_bin h.ecosystem_id 4 ++ in3 in
    let in1 = dec_to_bin h.time 4 ++ in2 in
    let in0 = dec_to_bin h.block_id 4 ++ in1 in
    let input = dec_to_bin h.version 2 ++ in0 in
    let long : 12 ≤ length in0 = omega (
      arith,
      length-append (dec_to_bin h.block_id 4) in1,
      length-append (dec_to_bin h.time 4) in2,
      length-append (dec_to_bin h.ecosystem_id 4) in3,
      (four_bytes h.block_id k.1).size,
      (four_bytes h.time k.2).size,
      (four_bytes h.ecosystem_id k.3).size,
    ) in
    let all : length input ≡ 2 + length in0 =
      length-append (dec_to_bin h.version 2) in0 ∙ ap (λ n. n + length in0) version.size in
    if_false {b = ltb (length input) 9} (rejected bad_length)
      (long_input (length input) (length in0) all long)
    ∙ ap
        (λ rest.
          if check && ltb_ℤ max_size (pos (length rest))
          then rejected too_large
          else parse_fields (bin_to_dec (take 2 input)) rest)
        (version.dropped in0)
    ∙ if_false (rejected too_large)
        (fits_size max_size check (length in0) (omega (arith, fits, all)) (omega (arith, long)))
    ∙ ap (λ v. parse_fields v in0) (version.taken in0)
    ∙ parse_fields_lem h in4 k
    ∙ parse_key_lem h in5 k.5
    ∙ parse_sign_lem h signed txs s
