-- ===== src/Crypto/Tests.antt =====
-- A key of 32 bytes and a library whose cipher turns the bits of every byte around.
use go_apla.Prelude.{
  ℕ, suc, ◌-◌, ◌+◌, ◌≤◌, ◌<◌, ◌≡◌, refl, ap, some, none, [], ◌∷◌, ◌++◌, ◌==◌, length, replicate,
  arith,
}
use go_apla.Converter.Bytes.{Bytes}
use go_apla.Converter.Hex.Back.{AreBytes}
use go_apla.Crypto.{Library, aes_cbc, gives, encrypt, decrypt, pkcs7_unpadding, slice_panics}
use go_apla.Crypto.Padding.{replicate-AreBytes}
use go_apla.Crypto.Back.{IsCbc, fresh, decrypt-encrypt}

abbrev vector : Bytes
vector = replicate 16 7

abbrev turn : Bytes → Bytes
turn [] = []
turn (b ∷ bs) = (255 - b) ∷ turn bs

abbrev turning : Library
turning = record {
  takes_key = λ key. length key == 32;
  crypt_blocks = λ key iv text. turn text;
  decrypt_blocks = λ key iv text. turn text;
  random = some vector;
}

length-turn : (bs : Bytes) → length (turn bs) ≡ length bs
length-turn [] = refl
length-turn (b ∷ bs) = ap suc (length-turn bs)

byte_twice : (b : ℕ) → b < 256 → 255 - (255 - b) ≡ b
byte_twice b h = omega (arith, h)

turn-turn : (bs : Bytes) → AreBytes bs → turn (turn bs) ≡ bs
unfolding AreBytes
turn-turn [] h = refl
turn-turn (b ∷ bs) h = rw (byte_twice b h.0, turn-turn bs h.1)

turning-IsCbc : IsCbc turning
turning-IsCbc = record {
  length-crypt_blocks = λ key iv text ok h e. length-turn text;
  decrypt-crypt = λ key iv text ok h e bi bt. turn-turn text bt;
}

vector-AreBytes : AreBytes vector
vector-AreBytes = replicate-AreBytes 16 7 (omega arith)

two_bytes-AreBytes : AreBytes (200 ∷ 3 ∷ [])
unfolding AreBytes
two_bytes-AreBytes = (omega arith, (omega arith, tt))

decrypt-encrypt_example :
    (c : Bytes) × (encrypt aes_cbc turning (200 ∷ 3 ∷ []) (replicate 32 1) none
      ≡ gives (vector ++ c))
    × (length vector ≡ 16)
    × (1 + 2 ≤ length c)
    × (length c ≤ 16 + 2)
    × (decrypt aes_cbc turning (vector ++ c) (replicate 32 1) none ≡ gives (200 ∷ 3 ∷ []))
    × (decrypt aes_cbc turning c (replicate 32 1) (some vector) ≡ gives (200 ∷ 3 ∷ []))
decrypt-encrypt_example =
    decrypt-encrypt turning turning-IsCbc (replicate 32 1) (200 ∷ 3 ∷ []) none vector refl
      (fresh vector refl refl) vector-AreBytes two_bytes-AreBytes

-- A last byte of 0 is no padding, and no error either; one that is too large is a panic.
zero_kept : pkcs7_unpadding (5 ∷ 0 ∷ []) ≡ gives (5 ∷ 0 ∷ [])
unfolding pkcs7_unpadding
zero_kept = refl

too_large : pkcs7_unpadding (5 ∷ 9 ∷ []) ≡ slice_panics
unfolding pkcs7_unpadding
too_large = refl
