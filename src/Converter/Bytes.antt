-- ===== src/Converter/Bytes.antt =====
-- Go's byte slices, with what the converter uses of encoding/binary and of copy. A byte is a number
-- below 256.
pub mod Values
use go_apla.Prelude.{
  ℕ, zero, suc, ◌+◌, ◌*◌, ◌/◌, ◌%◌, ◌<◌, Bool, true, false, Option, none, some, List, [], ◌∷◌, ◌++◌,
  if◌then◌else◌, ◌==◌, take,
}
use go_apla.Prelude.{get_elem?}

abbrev pub Bytes : Type 0
Bytes = List ℕ

-- binary.LittleEndian.PutUint64 and PutUint32, on the number of bytes.
unfoldable pub le_bytes : ℕ → ℕ → Bytes
le_bytes zero x = []
le_bytes (suc k) x = x % 256 ∷ le_bytes k (x / 256)

unfoldable pub of_le : Bytes → ℕ
of_le [] = 0
of_le (b ∷ bs) = b + 256 * of_le bs

-- binary.BigEndian.PutUint64 and PutUint32, on the number of bytes.
unfoldable pub be_bytes : ℕ → ℕ → Bytes
be_bytes zero x = []
be_bytes (suc k) x = be_bytes k (x / 256) ++ x % 256 ∷ []

unfoldable pub of_be_from : ℕ → Bytes → ℕ
of_be_from a [] = a
of_be_from a (b ∷ bs) = of_be_from (a * 256 + b) bs

abbrev pub of_be : Bytes → ℕ
of_be = of_be_from 0

-- copy: as many bytes as both slices have.
unfoldable pub copy_into : Bytes → Bytes → Bytes
copy_into [] src = []
copy_into (d ∷ dst) [] = d ∷ dst
copy_into (d ∷ dst) (s ∷ src) = s ∷ copy_into dst src

-- `buf[i] == 0`; the loops that ask it stay inside of the buffer.
abbrev pub zero_at : Bytes → ℕ → Bool
zero_at buf i = elim (get_elem? buf i) [ none ↦ false | some b ↦ b == 0 ]

-- `for length = n; length > 0 && buf[length-1] == 0; length-- {}`
unfoldable pub trim_zeros : ℕ → Bytes → ℕ
trim_zeros zero buf = zero
trim_zeros (suc n) buf = let shorter = trim_zeros n buf in if zero_at buf n then shorter else suc n

-- `for ; buf[i] == 0 && i < last; i++ {}`, on last - i.
unfoldable pub skip_zeros : ℕ → Bytes → ℕ → ℕ
skip_zeros zero buf i = i
skip_zeros (suc left) buf i =
    let further = skip_zeros left buf (suc i) in if zero_at buf i then further else i
