-- ===== src/Converter/Hex.antt =====
-- Hexadecimal texts: DecToBin, BinToHex, HexToBin, BinToDec and EncodeLengthPlusData
-- (packages/converter/converter.go). A text is its bytes.
pub mod Back
use go_apla.Prelude.{
  ℕ, zero, suc, ◌+◌, ◌-◌, ◌*◌, ◌/◌, ◌%◌, ◌^◌, List, [], ◌∷◌, ◌++◌, Option, none, some,
  if◌then◌else◌, ltb, leb, ◌&&◌, length, replicate,
}
use go_apla.Prelude.Int.{ℤ, pos, negsuc, of_word}
use go_apla.Converter.Bytes.{Bytes, of_be}
use go_apla.Converter.Length.{encode_length}

unfoldable pub hex_char : ℕ → ℕ
hex_char d = if ltb d 10 then 48 + d else 87 + d

-- The digits that `%x` prints, at most as many as given.
unfoldable pub hex_from : ℕ → ℕ → Bytes
unfolding hex_char
hex_from zero n = []
hex_from (suc more) n =
    let front = hex_from more (n / 16) in (if ltb n 16 then [] else front) ++ hex_char (n % 16) ∷ []

unfoldable pub zeros_to : ℕ → Bytes → Bytes
zeros_to width s = replicate (width - length s) 48 ++ s

-- `%0wx` of an int64; a minus counts for the width and stands before the zeros.
unfoldable pub format_hex : ℕ → ℤ → Bytes
unfolding hex_from zeros_to
format_hex width (pos n) = zeros_to width (hex_from 16 n)
format_hex width (negsuc n) = 45 ∷ zeros_to (width - 1) (hex_from 16 (suc n))

unfoldable pub hex_value : ℕ → Option ℕ
hex_value c =
    if leb 48 c && leb c 57
    then some (c - 48)
    else if leb 97 c && leb c 102
    then some (c - 87)
    else if leb 65 c && leb c 70
    then some (c - 55)
    else none

unfoldable pub hex_pair : Option ℕ → Option ℕ → Bytes → Bytes
hex_pair (some a) (some b) rest = (a * 16 + b) ∷ rest
hex_pair _ _ rest = []

-- HexToBin: the bytes of the pairs of digits before an error, which is only logged.
unfoldable pub hex_to_bin : Bytes → Bytes
unfolding hex_value hex_pair
hex_to_bin [] = []
hex_to_bin (c ∷ []) = []
hex_to_bin (c ∷ d ∷ cs) = hex_pair (hex_value c) (hex_value d) (hex_to_bin cs)

-- BinToHex of a slice of bytes.
unfoldable pub bin_to_hex : Bytes → Bytes
unfolding hex_char
bin_to_hex [] = []
bin_to_hex (b ∷ bs) = hex_char (b / 16) ∷ hex_char (b % 16) ∷ bin_to_hex bs

-- DecToBin of an integer.
unfoldable pub dec_to_bin : ℤ → ℕ → Bytes
unfolding format_hex hex_to_bin
dec_to_bin dec size_bytes = hex_to_bin (format_hex (size_bytes * 2) dec)

-- BinToDec: a shift of 64 bits or more leaves nothing of a byte.
unfoldable pub bin_to_dec : Bytes → ℤ
bin_to_dec bin = of_word (of_be bin % 2 ^ 64)

-- EncodeLengthPlusData of a slice of bytes.
unfoldable pub encode_length_plus_data : Bytes → Bytes
unfolding encode_length
encode_length_plus_data bytes = encode_length (pos (length bytes)) ++ bytes
