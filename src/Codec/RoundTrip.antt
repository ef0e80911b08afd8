-- ===== src/Codec/RoundTrip.antt =====
-- What is encrypted is decrypted again, in bytes and through base64.
use go_zero.Prelude.{
  ℕ, zero, suc, ◌*◌, ◌/◌, ◌%◌, ◌<◌, ◌≡◌, ◌≢◌, refl, ap, ◌∙◌, Option, some, Bytes, length, replicate,
  arith, length-replicate,
}
use native.Mathlib.Nat.{mul-mod_left, mod-eq_of_lt}
use go_zero.Codec.{
  Cipher, IsCipher, crypt_from, crypt_blocks, Result, bytes, key_error, padding_size_error,
  base64_error, index_out_of_range, pkcs5_padding, pkcs5_unpadding, ecb_encrypt, ecb_decrypt,
  get_key_bytes, encoded, through_base64, ecb_encrypt_base64, ecb_decrypt_base64,
}
use go_zero.Codec.Blocks.{length-crypt_from, crypt_from-inverse}
use go_zero.Codec.Padding.{unpadding-zeros, restored, length-pkcs5_padding, pkcs5_unpadding-padding}

-- The next step, where the last one succeeded.
unfoldable pub and_then : Result → (Bytes → Result) → Result
and_then (bytes b) next = next b
and_then key_error next = key_error
and_then padding_size_error next = padding_size_error
and_then base64_error next = base64_error
and_then index_out_of_range next = index_out_of_range

-- The guards of `crypt_blocks` let whole blocks pass.
crypt_blocks-whole :
    (crypt : Bytes → Bytes) (n m : ℕ) (dst src : Bytes)
    → length src ≡ m * n
    → length dst ≡ length src
    → crypt_blocks crypt n dst src ≡ crypt_from crypt n dst src (length src)
unfolding crypt_blocks
crypt_blocks-whole crypt n m dst src h e =
    let whole = ap (λ l. l % n) h ∙ mul-mod_left m n in ground arith

crypt_blocks-part :
    (crypt : Bytes → Bytes) (n : ℕ) (dst src : Bytes)
    → length src % n ≢ 0
    → crypt_blocks crypt n dst src ≡ dst
unfolding crypt_blocks
crypt_blocks-part crypt n dst src part = ground arith

nonempty : (n l : ℕ) → 0 < n → l % n ≢ 0 → 0 < l
nonempty n zero h part = absurd (part (mod-eq_of_lt h))
nonempty n (suc l) h part = omega arith

module _ (c : Cipher) (law : IsCipher c) (m : ℕ) (src : Bytes)
    (whole : length src ≡ m * c.block_size) where
  -- Whole blocks come back.
  crypt_blocks-inverse :
      (e : Bytes)
      → e ≡ crypt_blocks c.encrypt c.block_size (replicate (length src) 0) src
      → crypt_blocks c.decrypt c.block_size (replicate (length e) 0) e ≡ src
  crypt_blocks-inverse e is =
      let dst : Bytes = replicate (length src) 0 in
      let dst' : Bytes = replicate (length e) 0 in
      let size = length-replicate {A = ℕ} (length src) 0 in
      let size' = length-replicate {A = ℕ} (length e) 0 in
      let loop = crypt_blocks-whole c.encrypt c.block_size m dst src whole size in
      let same =
        ap length (is ∙ loop)
        ∙ length-crypt_from c law m dst src (length src) whole size (omega arith) in
      crypt_blocks-whole c.decrypt c.block_size m dst' e (same ∙ whole) size'
      ∙ ap (λ x. crypt_from c.decrypt c.block_size dst' x (length e)) (is ∙ loop)
      ∙ crypt_from-inverse c law m dst dst' src (length src) (length e) whole size (size' ∙ same)
          (omega arith) (omega (arith, same))

module _ (new_cipher : Bytes → Option Cipher) (key : Bytes) (c : Cipher)
    (known : new_cipher key ≡ some c) (law : IsCipher c) where
  -- With a key that the cipher takes, `EcbEncrypt` gives bytes from which `EcbDecrypt` gives the
  -- text again, but for the empty text, on which it answers with the error of the padding.
  pub ecb_decrypt-encrypt :
      (src : Bytes)
      → and_then (ecb_encrypt new_cipher key src) (ecb_decrypt new_cipher key) ≡ restored src
  unfolding ecb_encrypt ecb_decrypt and_then
  ecb_decrypt-encrypt src =
      let n = c.block_size in
      let padded = pkcs5_padding src n in
      rw (known, ecb_encrypt, ecb_decrypt, and_then)
        (ap (λ b. pkcs5_unpadding b n)
            (crypt_blocks-inverse c law (suc (length src / n)) padded
              (length-pkcs5_padding src n law.positive law.byte_sized)
              (crypt_blocks c.encrypt n (replicate (length padded) 0) padded) refl)
          ∙ pkcs5_unpadding-padding src n law.positive law.byte_sized)

  -- `EcbDecrypt` of a text that is not a whole number of blocks is no error: with a key that the
  -- cipher takes it gives as many zeros.
  pub ecb_decrypt-partial :
      (src : Bytes)
      → length src % c.block_size ≢ 0
      → ecb_decrypt new_cipher key src ≡ bytes (replicate (length src) 0)
  unfolding ecb_decrypt
  ecb_decrypt-partial src part =
      let n = c.block_size in
      let dst : Bytes = replicate (length src) 0 in
      rw (known, ecb_decrypt)
        (ap (λ b. pkcs5_unpadding b n) (crypt_blocks-part c.decrypt n dst src part)
          ∙ unpadding-zeros (length src) n (nonempty c.block_size (length src) law.positive part))

module _ (new_cipher : Bytes → Option Cipher) (key : Bytes) (c : Cipher)
    (known : new_cipher key ≡ some c) (law : IsCipher c) (encode_string : Bytes → Bytes)
    (decode_string : Bytes → Option Bytes)
    (decoded : (b : Bytes) → decode_string (encode_string b) ≡ some b) (text_key : Bytes)
    (is_key : get_key_bytes decode_string text_key ≡ some key) where
  encoded_lem : (r : Result) → encoded encode_string r ≡ and_then r (λ b. bytes (encode_string b))
  unfolding encoded and_then
  encoded_lem (bytes b) = refl
  encoded_lem key_error = refl
  encoded_lem padding_size_error = refl
  encoded_lem base64_error = refl
  encoded_lem index_out_of_range = refl

  decrypted :
      (r : Result)
      → and_then
          (encoded encode_string r)
          (ecb_decrypt_base64 new_cipher encode_string decode_string text_key)
        ≡ and_then (and_then r (ecb_decrypt new_cipher key)) (λ b. bytes (encode_string b))
  unfolding encoded and_then ecb_decrypt_base64
  decrypted (bytes b) =
      rw (is_key, decoded b, ecb_decrypt_base64, through_base64)
        (encoded_lem (ecb_decrypt new_cipher key b))
  decrypted key_error = refl
  decrypted padding_size_error = refl
  decrypted base64_error = refl
  decrypted index_out_of_range = refl

  -- Where decoding base64 undoes encoding and the text of the key gives a key that the cipher takes,
  -- `EcbDecryptBase64` of what `EcbEncryptBase64` gives for an encoded text is that encoded text
  -- again, but for the empty text, on which it answers with the error of the padding.
  pub ecb_decrypt_base64-encrypt_base64 :
      (src : Bytes)
      → and_then
          (ecb_encrypt_base64 new_cipher encode_string decode_string text_key (encode_string src))
          (ecb_decrypt_base64 new_cipher encode_string decode_string text_key)
        ≡ and_then (restored src) (λ b. bytes (encode_string b))
  unfolding ecb_encrypt_base64
  ecb_decrypt_base64-encrypt_base64 src =
      rw (is_key, decoded src, ecb_encrypt_base64, through_base64)
        (decrypted (ecb_encrypt new_cipher key src)
          ∙ ap (λ r. and_then r (λ b. bytes (encode_string b)))
              (ecb_decrypt-encrypt new_cipher key c known law src))
