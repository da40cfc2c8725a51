-- ===== src/Crypto/Padding.antt =====
-- The padding of whole blocks: _PKCS7Padding and _PKCS7UnPadding (packages/crypto/crypto.go).
use go_apla.Prelude.{
  ℕ, zero, suc, ◌+◌, ◌-◌, ◌%◌, ◌<◌, ◌≤◌, ◌≡◌, refl, ap, ◌∙◌, true, false, not, [], ◌∷◌, ◌++◌, some,
  if◌then◌else◌, ◌==◌, ltb, length, take, drop, replicate, get_elem?, length-append,
  length-replicate, take-append, drop-append, if_false, arith,
}
use go_apla.Converter.Bytes.{Bytes}
use go_apla.Converter.Hex.Back.{AreBytes, append-AreBytes}
use go_apla.Crypto.{
  pkcs7_padding, pkcs7_unpadding, cut_padding, all_are, gives, Ciphered, block_size, slice_panics,
  wrong_padding,
}

-- The number of bytes that are added.
abbrev pub pad_length : Bytes → ℕ
pad_length text = block_size - length text % block_size

pub pad_length-bounds : (text : Bytes) → (1 ≤ pad_length text) × (pad_length text ≤ 16)
pad_length-bounds text = omega arith

pub pkcs7_padding_lem :
    (text : Bytes)
    → pkcs7_padding text block_size ≡ text ++ replicate (pad_length text) (pad_length text)
unfolding pkcs7_padding
pkcs7_padding_lem text =
    ap (λ b. text ++ replicate (pad_length text) b) (omega (arith, pad_length-bounds text))

pub length-pkcs7_padding :
    (text : Bytes) → length (pkcs7_padding text block_size) ≡ length text + pad_length text
length-pkcs7_padding text =
    ap length (pkcs7_padding_lem text)
    ∙ length-append text (replicate (pad_length text) (pad_length text))
    ∙ ap (λ n. length text + n) (length-replicate (pad_length text) (pad_length text))

-- Whole blocks, and at least one.
pub padded_blocks :
    (text : Bytes)
    → (16 ≤ length (pkcs7_padding text block_size))
      × (length (pkcs7_padding text block_size) % 16 ≡ 0)
padded_blocks text = omega (arith, length-pkcs7_padding text)

==_refl : (a : ℕ) → (a == a) ≡ true
==_refl a = ground arith

all_are-replicate : (n pad : ℕ) → all_are pad (replicate n pad) ≡ true
unfolding all_are
all_are-replicate zero pad = refl
all_are-replicate (suc n) pad = rw (==_refl pad, all_are-replicate n pad)

get_elem?-replicate : (n : ℕ) (b : ℕ) (i : ℕ) → i < n → get_elem? (replicate n b) i ≡ some b
get_elem?-replicate zero b i h = ground arith
get_elem?-replicate (suc n) b zero h = refl
get_elem?-replicate (suc n) b (suc i) h = get_elem?-replicate n b i (omega (arith, h))

get_elem?-append :
    (xs ys : Bytes) (i j : ℕ) → j ≡ length xs + i → get_elem? (xs ++ ys) j ≡ get_elem? ys i
get_elem?-append [] ys i j h = ap (get_elem? ys) {x = j} {y = i} (omega (arith, h))
get_elem?-append (x ∷ xs) ys i zero h = ground arith
get_elem?-append (x ∷ xs) ys i (suc j) h = get_elem?-append xs ys i j (omega (arith, h))

no_less : (src : Bytes) (pad : ℕ) → pad ≤ length src → ltb (length src) pad ≡ false
no_less src pad h = ground arith

-- What is cut off, once it is in the text.
abbrev cut_at : ℕ → Bytes → ℕ → Ciphered
cut_at start src pad =
    if not (all_are pad (drop start src)) then wrong_padding else gives (take start src)

length-padded : (text : Bytes) (pad : ℕ) → length (text ++ replicate pad pad) ≡ length text + pad
length-padded text pad =
    length-append text (replicate pad pad) ∙ ap (λ n. length text + n) (length-replicate pad pad)

cut_padding-replicate :
    (text : Bytes) (pad : ℕ) → cut_padding (text ++ replicate pad pad) (some pad) ≡ gives text
unfolding cut_padding
cut_padding-replicate text pad =
    if_false slice_panics
      (no_less (text ++ replicate pad pad) pad (omega (arith, length-padded text pad)))
    ∙ ap (λ n. cut_at n (text ++ replicate pad pad) pad) {y = length text}
        (omega (arith, length-padded text pad))
    ∙ rw (
      drop-append text (replicate pad pad),
      all_are-replicate pad pad,
      take-append text (replicate pad pad),
    )

unpadding_last :
    (src : Bytes)
    → 0 < length src
    → pkcs7_unpadding src ≡ cut_padding src (get_elem? src (length src - 1))
unfolding pkcs7_unpadding
unpadding_last [] h = ground arith
unpadding_last (b ∷ bs) h = refl

padded_last :
    (text : Bytes) (pad : ℕ)
    → 1 ≤ pad
    → get_elem? (text ++ replicate pad pad) (length (text ++ replicate pad pad) - 1) ≡ some pad
padded_last text pad h =
    get_elem?-append text (replicate pad pad) (pad - 1) (length (text ++ replicate pad pad) - 1)
      (omega (arith, length-padded text pad, h))
    ∙ get_elem?-replicate pad pad (pad - 1) (omega (arith, h))

unpadding-replicate :
    (text : Bytes) (pad : ℕ) → 1 ≤ pad → pkcs7_unpadding (text ++ replicate pad pad) ≡ gives text
unpadding-replicate text pad h =
    unpadding_last (text ++ replicate pad pad) (omega (arith, length-padded text pad, h))
    ∙ ap (cut_padding (text ++ replicate pad pad)) (padded_last text pad h)
    ∙ cut_padding-replicate text pad

pub pkcs7_unpadding-pkcs7_padding :
    (text : Bytes) → pkcs7_unpadding (pkcs7_padding text block_size) ≡ gives text
pkcs7_unpadding-pkcs7_padding text =
    ap pkcs7_unpadding (pkcs7_padding_lem text)
    ∙ unpadding-replicate text (pad_length text) (pad_length-bounds text).0

pub replicate-AreBytes : (n b : ℕ) → b < 256 → AreBytes (replicate n b)
unfolding AreBytes
replicate-AreBytes zero b h = tt
replicate-AreBytes (suc n) b h = (h, replicate-AreBytes n b h)

pub pkcs7_padding-AreBytes :
    (text : Bytes) → AreBytes text → AreBytes (pkcs7_padding text block_size)
unfolding pkcs7_padding
pkcs7_padding-AreBytes text h =
    append-AreBytes text _ h
      (replicate-AreBytes (pad_length text) (pad_length text % 256) (omega arith))
