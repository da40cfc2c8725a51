-- ===== src/Converter/Address/Ids.antt =====
-- AddressToID and IDToAddress (packages/smart/funcs.go), on text in ASCII.
use go_apla.Prelude.{ℕ, suc, [], ◌∷◌, if◌then◌else◌, ◌==◌, ltb, leb, ◌&&◌, ◌||◌, length}
use mathlib.Core.List.{reverse}
use go_apla.Prelude.Int.{ℤ, pos, of_word}
use go_apla.Converter.Bytes.{Bytes}
use go_apla.Converter.Address.{
  parse_uint, parse_negative, uint_value, string_to_address, address_to_string, is_valid_address,
}

-- strings.TrimSpace
unfoldable pub trim_left : Bytes → Bytes
trim_left [] = []
trim_left (c ∷ cs) =
    let rest = trim_left cs in if (c == 32) || (leb 9 c && leb c 13) then rest else c ∷ cs

unfoldable pub trim_space : Bytes → Bytes
unfolding trim_left
trim_space s = reverse (trim_left (reverse (trim_left s)))

-- strings.Count of a dash.
unfoldable pub count_dashes : Bytes → ℕ
count_dashes [] = 0
count_dashes (c ∷ cs) = let rest = count_dashes cs in if c == 45 then suc rest else rest

-- The three readings of a text; the errors of the parsers are dropped and their values kept.
unfoldable pub read_address : Bytes → ℤ
unfolding count_dashes parse_negative parse_uint string_to_address
read_address [] = pos 0
read_address (c ∷ cs) =
    if c == 45
    then (parse_negative (parse_uint cs)).0
    else if count_dashes (c ∷ cs) == 4
    then string_to_address (c ∷ cs)
    else of_word (uint_value (parse_uint (c ∷ cs)))

unfoldable pub checked_id : ℤ → ℤ
unfolding is_valid_address address_to_string
checked_id addr = if is_valid_address (address_to_string addr) then addr else pos 0

unfoldable pub address_to_id : Bytes → ℤ
unfolding trim_space read_address checked_id
address_to_id input =
    let text = trim_space input in
    if ltb (length text) 2 then pos 0 else checked_id (read_address text)

-- The bytes of `invalid`.
abbrev pub invalid : Bytes
invalid = 105 ∷ 110 ∷ 118 ∷ 97 ∷ 108 ∷ 105 ∷ 100 ∷ []

unfoldable pub id_to_address : ℤ → Bytes
unfolding is_valid_address address_to_string
id_to_address id = let out = address_to_string id in if is_valid_address out then out else invalid
