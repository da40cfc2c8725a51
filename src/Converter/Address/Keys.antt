-- ===== src/Converter/Address/Keys.antt =====
-- The addresses of keys are valid.
use go_apla.Prelude.{
  ℕ, ◌+◌, ◌-◌, ◌/◌, ◌%◌, ◌<◌, ◌^◌, ◌≡◌, refl, sym, ap, ◌∙◌, true, ◌==◌, take, arith, if_true,
  ==_iff, leb-cases, inl, inr,
}
use go_apla.Prelude.Int.{pos, to_word, of_word, IsInt64}
use go_apla.Converter.Bytes.{Bytes}
use go_apla.Converter.Address.{
  checks, check_sum, address_to_string, string_to_address, is_valid_address, address_of_crc,
  address, key_to_address, cut_pub,
}
use go_apla.Converter.Address.Digits.{fixed, fill_zeros-format_uint}
use go_apla.Converter.Address.Check.{checks-fixed, check_sum_lt, take-fixed}
use go_apla.Converter.Address.Text.{
  is_valid_address-address_to_string, string_to_address-address_to_string,
}

to_word-of_word : (w : ℕ) → w < 2 ^ 64 → to_word (of_word w) ≡ w
unfolding to_word of_word
to_word-of_word w h = ground arith

pub of_word-IsInt64 : (w : ℕ) → IsInt64 (of_word w)
unfolding of_word
of_word-IsInt64 w = ground arith

-- The digits of the CRC with a new last one.
digit_of : ℕ → ℕ
digit_of crc = check_sum (fixed 19 (crc / 10))

-- Only with the largest quotient by ten could the new digit be too large, and there it is 4.
top : check_sum (fixed 19 1_844_674_407_370_955_161) ≡ 4
unfolding check_sum fixed
top = refl

small_enough : (crc : ℕ) → crc < 2 ^ 64 → crc - crc % 10 + digit_of crc < 2 ^ 64
unfolding digit_of
small_enough crc h = elim (leb-cases 1_844_674_407_370_955_161 (crc / 10)) [
  | inl k ↦
      let e : crc / 10 ≡ 1_844_674_407_370_955_161 = omega (arith, h, k) in
      omega (arith, h, e, ap (λ q. check_sum (fixed 19 q)) e, top)
  | inr k ↦ omega (arith, k, check_sum_lt (fixed 19 (crc / 10)))
]

no_wrap : (n : ℕ) → n < 2 ^ 64 → n % 2 ^ 64 ≡ n
no_wrap n h = omega (arith, h)

address_word :
    (crc : ℕ) → crc < 2 ^ 64 → to_word (address_of_crc crc) ≡ crc - crc % 10 + digit_of crc
unfolding address_of_crc digit_of
address_word crc h =
    ap (λ v. to_word (of_word ((crc - crc % 10 + check_sum (take 19 v)) % 2 ^ 64)))
      (fill_zeros-format_uint crc)
    ∙ ap (λ s. to_word (of_word ((crc - crc % 10 + check_sum s) % 2 ^ 64))) (take-fixed crc)
    ∙ ap (λ w. to_word (of_word w)) (no_wrap _ (small_enough crc h))
    ∙ to_word-of_word _ (small_enough crc h)

same_quotient : (n d : ℕ) → d < 10 → (n - n % 10 + d) / 10 ≡ n / 10
same_quotient n d h = omega arith

new_last : (n d : ℕ) → d < 10 → d ≡ (n - n % 10 + d) % 10
new_last n d h = omega arith

checks-replaced :
    (crc d : ℕ) → d ≡ digit_of crc → d < 10 → checks (fixed 20 (crc - crc % 10 + d)) ≡ true
unfolding digit_of
checks-replaced crc d e h =
    let n = crc - crc % 10 + d in
    checks-fixed n
    ∙ ap (λ q. check_sum (fixed 19 q) == n % 10) (same_quotient crc d h)
    ∙ (==_iff (check_sum (fixed 19 (crc / 10))) (n % 10)).1 (sym e ∙ new_last crc d h)

pub address_of_crc_valid :
    (crc : ℕ) → crc < 2 ^ 64 → is_valid_address (address_to_string (address_of_crc crc)) ≡ true
unfolding digit_of
address_of_crc_valid crc h =
    is_valid_address-address_to_string (address_of_crc crc)
    ∙ ap (λ w. checks (fixed 20 w)) (address_word crc h)
    ∙ checks-replaced crc (digit_of crc) refl (check_sum_lt (fixed 19 (crc / 10)))

address_of_crc-IsInt64 : (crc : ℕ) → IsInt64 (address_of_crc crc)
unfolding address_of_crc
address_of_crc-IsInt64 crc = of_word-IsInt64 _

-- Whatever the hashes and the CRC-64 give, as long as it has 64 bits, the text of the address of a
-- public key is valid, and reads back to the address.
pub key_to_address_valid :
    (checksum_of : Bytes → ℕ)
    → ((key : Bytes) → checksum_of key < 2 ^ 64)
    → (pub_key : Bytes)
    → (is_valid_address (key_to_address checksum_of pub_key) ≡ true)
      × (string_to_address (key_to_address checksum_of pub_key) ≡ address checksum_of pub_key)
unfolding key_to_address address
key_to_address_valid checksum_of h pub_key =
    let crc = checksum_of (cut_pub pub_key) in
    let valid = address_of_crc_valid crc (h (cut_pub pub_key)) in
    (
      valid,
      string_to_address-address_to_string (address_of_crc crc) (address_of_crc-IsInt64 crc)
          ∙ if_true (pos 0) valid,
    )
