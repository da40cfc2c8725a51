-- ===== src/Converter/Address/Tests.antt =====
-- Addresses and their texts at small inputs.
use go_apla.Prelude.{ℕ, ◌%◌, ◌<◌, ◌^◌, ◌≡◌, refl, true, [], ◌∷◌, if◌then◌else◌, arith, length, set}
use go_apla.Prelude.Int.{pos, negsuc}
use go_apla.Converter.Bytes.{Bytes}
use go_apla.Converter.Address.{
  address_to_string, string_to_address, is_valid_address, checks, address, key_to_address,
}
use go_apla.Converter.Address.Digits.{AreDigits}
use go_apla.Converter.Address.Text.{string_to_address-address_to_string}
use go_apla.Converter.Address.Keys.{key_to_address_valid}
use go_apla.Converter.Address.Ids.{address_to_id, id_to_address}
use go_apla.Converter.Address.Back.{address_to_id-id_to_address}
use go_apla.Converter.Address.Errors.{checks_unique}

string_to_address-address_to_string_example :
    string_to_address (address_to_string (pos 35))
    ≡ (if is_valid_address (address_to_string (pos 35)) then pos 35 else pos 0)
string_to_address-address_to_string_example =
    string_to_address-address_to_string (pos 35) (omega arith, omega arith)

address_to_id-id_to_address_example :
    address_to_id (id_to_address (negsuc 4))
    ≡ (if is_valid_address (address_to_string (negsuc 4)) then negsuc 4 else pos 0)
address_to_id-id_to_address_example =
    address_to_id-id_to_address (negsuc 4) (omega arith, omega arith)

abbrev length_checksum : Bytes → ℕ
length_checksum key = length key % 1000

length_checksum_lt : (key : Bytes) → length_checksum key < 2 ^ 64
length_checksum_lt key = omega arith

key_to_address_valid_example :
    (is_valid_address (key_to_address length_checksum (4 ∷ 7 ∷ [])) ≡ true)
    × (string_to_address (key_to_address length_checksum (4 ∷ 7 ∷ []))
        ≡ address length_checksum (4 ∷ 7 ∷ []))
key_to_address_valid_example = key_to_address_valid length_checksum length_checksum_lt (4 ∷ 7 ∷ [])

-- Seven behind eighteen zeros and a one: three times one and seven make ten.
abbrev ten_and_seven : Bytes
ten_and_seven =
    48 ∷ 48 ∷ 48 ∷ 48 ∷ 48 ∷ 48 ∷ 48 ∷ 48 ∷ 48 ∷ 48 ∷ 48 ∷ 48 ∷ 48 ∷ 48 ∷ 48 ∷ 48 ∷ 48 ∷ 49 ∷ 48
    ∷ 55 ∷ []

ten_and_seven-checks : checks ten_and_seven ≡ true
unfolding checks
ten_and_seven-checks = refl

ten_and_seven-AreDigits : AreDigits ten_and_seven
unfolding AreDigits
ten_and_seven-AreDigits = ground arith

checks_unique_example : set ten_and_seven 17 49 ≡ ten_and_seven
checks_unique_example =
    checks_unique ten_and_seven 17 49 ten_and_seven-AreDigits refl (omega arith) (omega arith)
      ten_and_seven-checks ten_and_seven-checks
