-- ===== src/Crypto.antt =====
-- The encryption of texts with AES in CBC mode: Encrypt, Decrypt and the padding of
-- packages/crypto/crypto.go. AES and CBC themselves are those of Go's library, and arguments here.
-- A slice has no room behind its end.
pub mod Padding
pub mod Back
mod Tests
use go_apla.Prelude.{
  ℕ, zero, suc, ◌-◌, ◌*◌, ◌%◌, Bool, true, false, ◌&&◌, ◌||◌, not, Option, none, some, List, [],
  ◌∷◌, ◌++◌, if◌then◌else◌, ◌==◌, ltb, length, take, drop, replicate, get_elem?,
}
use go_apla.Converter.Bytes.{Bytes}

-- crypto/aes, crypto/cipher and crypto/rand: the keys that NewCipher takes, CryptBlocks of both ways
-- on a key, an initialization vector and a text, and what Read puts into a new vector.
pub record Library : Type 0 where
  pub takes_key : Bytes → Bool
  pub crypt_blocks : Bytes → Bytes → Bytes → Bytes
  pub decrypt_blocks : Bytes → Bytes → Bytes → Bytes
  pub random : Option Bytes

-- The global variable cryptoProv.
pub data CryptoProvider : Type 0 where
  aes_cbc : CryptoProvider
  unknown : CryptoProvider

pub data Ciphered : Type 0 where
  gives : Bytes → Ciphered
  unknown_provider : Ciphered
  no_random : Ciphered
  wrong_iv : ℕ → Ciphered
  wrong_key : Ciphered
  wrong_size : ℕ → Ciphered
  wrong_padding : Ciphered
  slice_panics : Ciphered

-- consts.BlockSize
abbrev pub block_size : ℕ
block_size = 16

unfoldable pub pkcs7_padding : Bytes → ℕ → Bytes
pkcs7_padding src size =
    let padding = size - length src % size in src ++ replicate padding (padding % 256)

-- The loop over the padding.
unfoldable pub all_are : ℕ → Bytes → Bool
all_are pad [] = true
all_are pad (b ∷ bs) = let rest = all_are pad bs in if not (b == pad) then false else rest

-- The loop starts before the first byte if the padding is longer than the text.
unfoldable pub cut_padding : Bytes → Option ℕ → Ciphered
unfolding all_are
cut_padding src none = slice_panics
cut_padding src (some pad) =
    let start = length src - pad in
    if ltb (length src) pad
    then slice_panics
    else if not (all_are pad (drop start src))
    then wrong_padding
    else gives (take start src)

unfoldable pub pkcs7_unpadding : Bytes → Ciphered
unfolding cut_padding
pkcs7_unpadding [] = slice_panics
pkcs7_unpadding (b ∷ bs) = cut_padding (b ∷ bs) (get_elem? (b ∷ bs) (length (b ∷ bs) - 1))

-- encryptCBC behind the checks of the vector.
unfoldable pub seal : Library → Bytes → Bytes → Bytes → Ciphered
unfolding pkcs7_padding
seal lib text key iv =
    if not (lib.takes_key key)
    then wrong_key
    else gives (iv ++ lib.crypt_blocks key iv (pkcs7_padding text block_size))

unfoldable pub encrypt_cbc : Library → Bytes → Bytes → Option Bytes → Ciphered
unfolding seal
encrypt_cbc lib text key none = elim lib.random [
  | none ↦ no_random
  | some iv ↦ seal lib text key iv
]
encrypt_cbc lib text key (some iv) =
    if ltb (length iv) block_size
    then wrong_iv (length iv)
    else seal lib text key (if ltb block_size (length iv) then take block_size iv else iv)

-- decryptCBC once there is a vector.
unfoldable pub unseal : Library → Bytes → Bytes → Bytes → Ciphered
unfolding pkcs7_unpadding
unseal lib ciphertext key iv =
    if ltb (length ciphertext) block_size || not (length ciphertext % block_size == 0)
    then wrong_size (length ciphertext)
    else if not (lib.takes_key key)
    then wrong_key
    else if ltb (length iv) block_size
    then slice_panics
    else pkcs7_unpadding (lib.decrypt_blocks key (take block_size iv) ciphertext)

unfoldable pub decrypt_cbc : Library → Bytes → Bytes → Option Bytes → Ciphered
unfolding unseal
decrypt_cbc lib ciphertext key none =
    if ltb (length ciphertext) block_size
    then slice_panics
    else unseal lib (drop block_size ciphertext) key (take block_size ciphertext)
decrypt_cbc lib ciphertext key (some iv) = unseal lib ciphertext key iv

unfoldable pub encrypt : CryptoProvider → Library → Bytes → Bytes → Option Bytes → Ciphered
unfolding encrypt_cbc
encrypt aes_cbc lib msg key iv = encrypt_cbc lib msg key iv
encrypt unknown lib msg key iv = unknown_provider

unfoldable pub decrypt : CryptoProvider → Library → Bytes → Bytes → Option Bytes → Ciphered
unfolding decrypt_cbc
decrypt aes_cbc lib msg key iv = decrypt_cbc lib msg key iv
decrypt unknown lib msg key iv = unknown_provider
