-- ===== src/Converter/Address.antt =====
-- Addresses of keys as numbers and as text, with their check digit: AddressToString,
-- StringToAddress, checkSum and IsValidAddress (packages/converter/converter.go), and Address of
-- packages/crypto/address.go. A text is its bytes: 48 is '0', 45 is '-', 43 is '+'.
pub mod Digits
pub mod Check
pub mod Text
pub mod Keys
pub mod Back
pub mod Errors
mod Tests
pub mod Ids
use go_apla.Prelude.{
  ℕ, zero, suc, ◌+◌, ◌-◌, ◌*◌, ◌/◌, ◌%◌, ◌<◌, ◌≤◌, ◌^◌, Bool, true, false, List, [], ◌∷◌, ◌++◌,
  if◌then◌else◌, ◌==◌, ltb, leb, not, ◌&&◌, length, take, drop, replicate,
}
use go_apla.Prelude.Int.{ℤ, pos, negsuc, to_word, of_word}
use go_apla.Converter.Bytes.{Bytes}

-- strconv.FormatUint in base 10, on the number of digits that there may be.
unfoldable pub format_from : ℕ → ℕ → Bytes
format_from zero n = []
format_from (suc more) n =
    let front = format_from more (n / 10) in (if ltb n 10 then [] else front) ++ (48 + n % 10) ∷ []

unfoldable pub format_uint : ℕ → Bytes
unfolding format_from
format_uint n = format_from 20 n

-- strconv.FormatInt in base 10.
unfoldable pub format_int : ℤ → Bytes
unfolding format_uint
format_int (pos n) = format_uint n
format_int (negsuc n) = 45 ∷ format_uint (suc n)

-- strconv.ParseUint in base 10, for 64 bits.
pub data Parsed : Type 0 where
  number : ℕ → Parsed
  syntax_error : Parsed
  range_error : Parsed

unfoldable pub parse_digits : ℕ → Bytes → Parsed
parse_digits so_far [] = number so_far
parse_digits so_far (c ∷ cs) =
    let n = so_far * 10 + (c - 48) in
    let rest = parse_digits n cs in
    if leb 48 c && ltb c 58 then (if ltb n (2 ^ 64) then rest else range_error) else syntax_error

unfoldable pub parse_uint : Bytes → Parsed
unfolding parse_digits
parse_uint [] = syntax_error
parse_uint (c ∷ cs) = parse_digits 0 (c ∷ cs)

-- The value that ParseUint returns, with an error too.
abbrev pub uint_value : Parsed → ℕ
uint_value (number n) = n
uint_value syntax_error = 0
uint_value range_error = 2 ^ 64 - 1

-- strconv.ParseInt on what follows a minus: the value, and whether the error is nil.
unfoldable pub parse_negative : Parsed → ℤ × Bool
parse_negative (number zero) = (pos zero, true)
parse_negative (number (suc n)) =
    if ltb n (2 ^ 63) then (negsuc n, true) else (negsuc (2 ^ 63 - 1), false)
parse_negative syntax_error = (pos 0, false)
parse_negative range_error = (negsuc (2 ^ 63 - 1), false)

-- `strings.Repeat("0", 20-len(s)) + s`
unfoldable pub fill_zeros : Bytes → Bytes
fill_zeros s = replicate (20 - length s) 48 ++ s

-- `val[i*4:(i+1)*4]` and a dash, for the places that are left.
unfoldable pub groups : ℕ → ℕ → Bytes → Bytes → Bytes
groups zero i val ret = ret
groups (suc left) i val ret = groups left (suc i) val (ret ++ take 4 (drop (i * 4) val) ++ 45 ∷ [])

unfoldable pub address_to_string : ℤ → Bytes
unfolding format_uint fill_zeros groups
address_to_string address =
    let val = fill_zeros (format_uint (to_word address)) in groups 4 0 val [] ++ drop 16 val

-- `strings.Replace(address, "-", "", -1)`
unfoldable pub remove_dashes : Bytes → Bytes
remove_dashes [] = []
remove_dashes (c ∷ cs) = let rest = remove_dashes cs in if c == 45 then rest else c ∷ rest

-- `ch - '0'` on bytes.
abbrev pub digit : ℕ → ℕ
digit c = (c + 208) % 256

-- The two sums of checkSum, of the places with an odd index and of the others.
unfoldable pub sum_digits : Bool → Bytes → ℕ → ℕ → ℕ × ℕ
sum_digits odd [] one two = (one, two)
sum_digits odd (c ∷ cs) one two =
    let at_odd = sum_digits false cs (one + digit c) two in
    let at_even = sum_digits true cs one (two + digit c) in if odd then at_odd else at_even

unfoldable pub check_sum : Bytes → ℕ
unfolding sum_digits
check_sum val =
    let sums = sum_digits false val 0 0 in
    let checksum = (sums.1 + 3 * sums.0) % 10 in if ltb 0 checksum then 10 - checksum else checksum

abbrev pub last_digit : Bytes → ℕ
last_digit [] = 0
last_digit (c ∷ cs) = digit c

-- `checkSum(val[:len(val)-1]) == int(val[len(val)-1]-'0')`, on 20 bytes.
unfoldable pub checks : Bytes → Bool
unfolding check_sum
checks val = check_sum (take 19 val) == last_digit (drop 19 val)

-- What follows the removal of the dashes in StringToAddress.
unfoldable pub checked_value : Bytes → Parsed → ℤ
unfolding checks
checked_value val (number ret) = if checks val then of_word ret else pos 0
checked_value val _ = pos 0

unfoldable pub address_value : Bytes → ℤ
unfolding fill_zeros remove_dashes checked_value parse_uint
address_value address =
    let val = remove_dashes (fill_zeros address) in
    if length val == 20 then checked_value val (parse_uint val) else pos 0

-- A number that starts with a minus is read, and written as an unsigned one.
unfoldable pub string_to_address : Bytes → ℤ
unfolding address_value format_uint parse_negative parse_uint
string_to_address [] = pos 0
string_to_address (c ∷ cs) =
    let id = parse_negative (parse_uint cs) in
    if c == 45
    then (if id.1 then address_value (format_uint (to_word id.0)) else pos 0)
    else address_value (c ∷ cs)

abbrev pub is_number : Parsed → Bool
is_number (number n) = true
is_number _ = false

unfoldable pub is_valid_address : Bytes → Bool
unfolding remove_dashes checks parse_uint
is_valid_address address =
    let val = remove_dashes address in
    (length val == 20) && is_number (parse_uint val) && checks val

-- Address, from the CRC-64 of the hashes of the public key: its last digit is replaced.
unfoldable pub address_of_crc : ℕ → ℤ
unfolding format_uint fill_zeros check_sum
address_of_crc crc =
    let val = fill_zeros (format_uint crc) in
    of_word ((crc - crc % 10 + check_sum (take 19 val)) % 2 ^ 64)

-- CutPub
unfoldable pub cut_pub : Bytes → Bytes
cut_pub [] = []
cut_pub (b ∷ key) = if (length key == 64) && (b == 4) then key else b ∷ key

-- Address and KeyToAddress; the hashes and the CRC-64 are the parameter.
module _ (checksum_of : Bytes → ℕ) where
  unfoldable pub address : Bytes → ℤ
  unfolding cut_pub address_of_crc
  address pub_key = address_of_crc (checksum_of (cut_pub pub_key))

  unfoldable pub key_to_address : Bytes → Bytes
  unfolding address address_to_string
  key_to_address pub_key = address_to_string (address pub_key)
