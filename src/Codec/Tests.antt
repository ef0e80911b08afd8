-- ===== src/Codec/Tests.antt =====
-- Runs of the encryption at concrete texts, with a cipher that swaps the bytes of a block of two.
use go_zero.Prelude.{◌≡◌, refl, ◌∙◌, Option, none, some, [], ◌∷◌, Bytes, length, arith}
use go_zero.Codec.{
  crypt_blocks, pkcs5_padding, crypt_from, Cipher, IsCipher, bytes, ecb_encrypt, ecb_decrypt,
  get_key_bytes, ecb_encrypt_base64, ecb_decrypt_base64,
}
use go_zero.Codec.Padding.{restored}
use go_zero.Codec.RoundTrip.{
  and_then, ecb_decrypt-encrypt, ecb_decrypt-partial, ecb_decrypt_base64-encrypt_base64,
}

abbrev swap : Bytes → Bytes
swap [] = []
swap (a ∷ []) = a ∷ []
swap (a ∷ b ∷ rest) = b ∷ a ∷ rest

abbrev swapper : Cipher
swapper = record { block_size = 2; encrypt = swap; decrypt = swap }

abbrev new_swapper : Bytes → Option Cipher
new_swapper [] = none
new_swapper (b ∷ key) = some swapper

length-swap : (b : Bytes) → length (swap b) ≡ length b
length-swap [] = refl
length-swap (a ∷ []) = refl
length-swap (a ∷ b ∷ rest) = refl

swap-swap : (b : Bytes) → swap (swap b) ≡ b
swap-swap [] = refl
swap-swap (a ∷ []) = refl
swap-swap (a ∷ b ∷ rest) = refl

swapper-IsCipher : IsCipher swapper
swapper-IsCipher = record {
  positive = omega arith;
  byte_sized = omega arith;
  encrypt_size = λ b h. length-swap b ∙ h;
  undone = λ b h. swap-swap b;
}

-- An encoding that marks its texts.
abbrev mark : Bytes → Bytes
mark b = 61 ∷ b

abbrev unmark : Bytes → Option Bytes
unmark [] = none
unmark (b ∷ rest) = some rest

swapped : ecb_encrypt new_swapper (7 ∷ []) (1 ∷ 2 ∷ 3 ∷ []) ≡ bytes (2 ∷ 1 ∷ 1 ∷ 3 ∷ [])
unfolding ecb_encrypt crypt_blocks pkcs5_padding crypt_from
swapped = refl

ecb_decrypt-encrypt_example :
    and_then (ecb_encrypt new_swapper (7 ∷ []) (1 ∷ 2 ∷ 3 ∷ [])) (ecb_decrypt new_swapper (7 ∷ []))
    ≡ restored (1 ∷ 2 ∷ 3 ∷ [])
ecb_decrypt-encrypt_example =
    ecb_decrypt-encrypt new_swapper (7 ∷ []) swapper refl swapper-IsCipher (1 ∷ 2 ∷ 3 ∷ [])

ecb_decrypt-partial_example :
    ecb_decrypt new_swapper (7 ∷ []) (1 ∷ 2 ∷ 3 ∷ []) ≡ bytes (0 ∷ 0 ∷ 0 ∷ [])
ecb_decrypt-partial_example =
    ecb_decrypt-partial new_swapper (7 ∷ []) swapper refl swapper-IsCipher (1 ∷ 2 ∷ 3 ∷ [])
      (omega arith)

short_key : get_key_bytes unmark (7 ∷ []) ≡ some (7 ∷ [])
unfolding get_key_bytes
short_key = refl

ecb_decrypt_base64-encrypt_base64_example :
    and_then
      (ecb_encrypt_base64 new_swapper mark unmark (7 ∷ []) (mark (1 ∷ 2 ∷ 3 ∷ [])))
      (ecb_decrypt_base64 new_swapper mark unmark (7 ∷ []))
    ≡ and_then (restored (1 ∷ 2 ∷ 3 ∷ [])) (λ b. bytes (mark b))
ecb_decrypt_base64-encrypt_base64_example =
    ecb_decrypt_base64-encrypt_base64 new_swapper (7 ∷ []) swapper refl swapper-IsCipher mark unmark
      (λ b. refl) (7 ∷ []) short_key (1 ∷ 2 ∷ 3 ∷ [])
