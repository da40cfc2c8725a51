-- ===== src/Converter/Length/Total.antt =====
-- The decoders of a length on any input.
use go_apla.Prelude.{ℕ, ◌<◌, ◌^◌, ◌≡◌, if◌then◌else◌, ltb, length, take, drop}
use go_apla.Prelude.Int.{ℤ, pos, ltb_ℤ}
use go_apla.Converter.Bytes.{Bytes}
use go_apla.Converter.Length.{Read, got, failed, Refusal, small_size, negative_size, be_int64}

-- A length, which fits an int, and an input that has lost a byte at least.
Length : Bytes → Read ℤ → Type 0
Length input r =
    (n : ℕ) × (rest : Bytes) × (r ≡ got (pos n) rest) × (n < 2 ^ 63) × (length rest < length input)

Refused : Bytes → Read ℤ → Type 0
Refused input r =
    (e : Refusal) × (rest : Bytes) × (r ≡ failed e rest) × (length rest < length input)

-- The part of DecodeLengthBuf behind the first byte.
long_form : ℕ → Bytes → Read ℤ
long_form size more =
    let n = be_int64 size (take size more) in
    if ltb (length more) size
    then failed small_size more
    else if ltb_ℤ n (pos 0)
    then failed negative_size (drop size more)
    else got n (drop size more)
