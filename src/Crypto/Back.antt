-- ===== src/Crypto/Back.antt =====
-- What is encrypted is decrypted: Encrypt and Decrypt (packages/crypto/crypto.go) one after the other.
use go_apla.Prelude.{
  ◌+◌, ◌%◌, ◌≤◌, ◌≡◌, sym, ap, ◌∙◌, true, false, ◌||◌, not, ◌++◌, Option, none, some, if◌then◌else◌,
  ◌==◌, ltb, length, take, drop, length-append, length-take, take-append, drop-append, take_all,
  if_true, if_false, arith, Bool-cases, inl, inr,
}
use go_apla.Converter.Bytes.{Bytes}
use go_apla.Converter.Hex.Back.{AreBytes}
use go_apla.Crypto.{
  Library, aes_cbc, gives, wrong_size, wrong_key, wrong_iv, slice_panics, encrypt, decrypt,
  encrypt_cbc, decrypt_cbc, seal, unseal, pkcs7_padding, pkcs7_unpadding, block_size,
}
use go_apla.Crypto.Padding.{
  pad_length, pad_length-bounds, length-pkcs7_padding, padded_blocks, pkcs7_padding-AreBytes,
  pkcs7_unpadding-pkcs7_padding,
}

-- What CryptBlocks promises, for a key that is taken, a vector of one block and whole blocks: as many
-- bytes, and the way back.
pub record IsCbc (lib : Library) : Type 0 where
  pub length-crypt_blocks :
      (key iv text : Bytes)
      → lib.takes_key key ≡ true
      → length iv ≡ 16
      → length text % 16 ≡ 0
      → length (lib.crypt_blocks key iv text) ≡ length text
  pub decrypt-crypt :
      (key iv text : Bytes)
      → lib.takes_key key ≡ true
      → length iv ≡ 16
      → length text % 16 ≡ 0
      → AreBytes iv
      → AreBytes text
      → lib.decrypt_blocks key iv (lib.crypt_blocks key iv text) ≡ text

-- The vector that is used.
pub data IsVector (lib : Library) : Option Bytes → Bytes → Type 0 where
  fresh : (iv : Bytes) → lib.random ≡ some iv → length iv ≡ 16 → IsVector lib none iv
  given : (iv : Bytes) → 16 ≤ length iv → IsVector lib (some iv) (take 16 iv)

IsVector-length :
    {lib : Library} {iv? : Option Bytes} {iv : Bytes} → IsVector lib iv? iv → length iv ≡ 16
IsVector-length (fresh iv e h) = h
IsVector-length (given iv h) = length-take 16 iv h

no_less_16 : (bytes : Bytes) → 16 ≤ length bytes → ltb (length bytes) 16 ≡ false
no_less_16 bytes h = ground arith

not_longer : (v : Bytes) → ltb 16 (length v) ≡ false → length v ≤ 16
not_longer v e = ground arith

blocks_pass :
    (bytes : Bytes)
    → 16 ≤ length bytes
    → length bytes % 16 ≡ 0
    → (ltb (length bytes) 16 || not (length bytes % 16 == 0)) ≡ false
blocks_pass bytes h e = ground arith

one_block : (v : Bytes) → 16 ≤ length v → (if ltb 16 (length v) then take 16 v else v) ≡ take 16 v
one_block v h = elim (Bool-cases (ltb 16 (length v))) [
  | inl e ↦ if_true v e
  | inr e ↦ if_false (take 16 v) e ∙ sym (take_all 16 v (not_longer v e))
]

module _ (lib : Library) (law : IsCbc lib) (key : Bytes) (ok : lib.takes_key key ≡ true) where
  abbrev sealed : Bytes → Bytes → Bytes
  sealed iv text = lib.crypt_blocks key iv (pkcs7_padding text block_size)

  length-sealed :
      (iv text : Bytes) → length iv ≡ 16 → length (sealed iv text) ≡ length text + pad_length text
  length-sealed iv text h =
      law.length-crypt_blocks key iv (pkcs7_padding text block_size) ok h (padded_blocks text).1
      ∙ length-pkcs7_padding text

  sealed_blocks : (iv text : Bytes) → length iv ≡ 16 → length (sealed iv text) % 16 ≡ 0
  sealed_blocks iv text h =
      ap (λ n. n % 16)
        (law.length-crypt_blocks key iv (pkcs7_padding text block_size) ok h (padded_blocks text).1)
      ∙ (padded_blocks text).1

  seal_lem : (iv text : Bytes) → seal lib text key iv ≡ gives (iv ++ sealed iv text)
  unfolding seal
  seal_lem iv text = if_false wrong_key (ap not ok)

  encrypt_lem :
      (text : Bytes) (iv? : Option Bytes) (iv : Bytes)
      → IsVector lib iv? iv
      → encrypt aes_cbc lib text key iv? ≡ gives (iv ++ sealed iv text)
  unfolding encrypt encrypt_cbc
  encrypt_lem text none r (fresh iv e h) = rw (e, seal_lem iv text)
  encrypt_lem text (some v) r (given iv h) =
      if_false (wrong_iv (length v)) (no_less_16 v h)
      ∙ ap (seal lib text key) (one_block v h)
      ∙ seal_lem (take 16 v) text

  unseal_lem :
      (iv text : Bytes)
      → length iv ≡ 16
      → AreBytes iv
      → AreBytes text
      → unseal lib (sealed iv text) key iv ≡ gives text
  unfolding unseal
  unseal_lem iv text h bi bt =
      if_false (wrong_size (length (sealed iv text))) (
        blocks_pass (sealed iv text) (omega (arith, length-sealed iv text h))
          (sealed_blocks iv text h))
      ∙ if_false wrong_key (ap not ok)
      ∙ if_false slice_panics (no_less_16 iv (omega (arith, h)))
      ∙ ap (λ v. pkcs7_unpadding (lib.decrypt_blocks key v (sealed iv text)))
          (take_all 16 iv (omega (arith, h)))
      ∙ ap pkcs7_unpadding (
          law.decrypt-crypt key iv (pkcs7_padding text block_size) ok h (padded_blocks text).1 bi
            (pkcs7_padding-AreBytes text bt))
      ∙ pkcs7_unpadding-pkcs7_padding text

  own_vector :
      (iv text : Bytes)
      → length iv ≡ 16
      → AreBytes iv
      → AreBytes text
      → decrypt aes_cbc lib (iv ++ sealed iv text) key none ≡ gives text
  unfolding decrypt decrypt_cbc
  own_vector iv text h bi bt =
      if_false slice_panics
        (no_less_16 (iv ++ sealed iv text) (omega (arith, h, length-append iv (sealed iv text))))
      ∙ ap (λ v. unseal lib (drop 16 (iv ++ sealed iv text)) key v) {y = iv}
          (ap (λ n. take n (iv ++ sealed iv text)) (sym h) ∙ take-append iv (sealed iv text))
      ∙ ap (λ c. unseal lib c key iv) {y = sealed iv text}
          (ap (λ n. drop n (iv ++ sealed iv text)) (sym h) ∙ drop-append iv (sealed iv text))
      ∙ unseal_lem iv text h bi bt

  given_vector :
      (iv text : Bytes)
      → length iv ≡ 16
      → AreBytes iv
      → AreBytes text
      → decrypt aes_cbc lib (sealed iv text) key (some iv) ≡ gives text
  unfolding decrypt decrypt_cbc
  given_vector iv text h bi bt = unseal_lem iv text h bi bt

-- With AES in CBC mode, texts of bytes, a key that is taken and a vector that is fresh or given with
-- at least one block: Encrypt gives one block, which is the vector, and behind it the text with 1 to 16 bytes
-- more. Decrypt reads the text back from all of that without a vector, and from what is behind the
-- first block with it.
pub decrypt-encrypt :
    (lib : Library) (law : IsCbc lib) (key text : Bytes) (iv? : Option Bytes) (iv : Bytes)
    → lib.takes_key key ≡ true
    → IsVector lib iv? iv
    → AreBytes iv
    → AreBytes text
    → (c : Bytes) × (encrypt aes_cbc lib text key iv? ≡ gives (iv ++ c))
      × (length iv ≡ 16)
      × (1 + length text ≤ length c)
      × (length c ≤ 16 + length text)
      × (decrypt aes_cbc lib (iv ++ c) key none ≡ gives text)
      × (decrypt aes_cbc lib c key (some iv) ≡ gives text)
decrypt-encrypt lib law key text iv? iv ok vector bi bt =
    let h = IsVector-length vector in
    let size = length-sealed lib law key ok iv text h in
    let bounds = pad_length-bounds text in
    (
      sealed lib law key ok iv text,
      encrypt_lem lib law key ok text iv? iv vector,
      h,
      omega (arith, size, bounds),
      omega (arith, size, bounds),
      own_vector lib law key ok iv text h bi bt,
      given_vector lib law key ok iv text h bi bt,
    )
