-- ===== src/Codec.antt =====
-- core/codec/aesecb.go: encryption block by block, with padding. The cipher, what makes it from a key
-- and base64 are arguments. A slice that is filled in place is given and returned; the spare room
-- that `append` may write to in the caller's array is not modelled.
pub mod Blocks
pub mod Padding
pub mod RoundTrip
mod Tests
use go_zero.Prelude.{
  ℕ, zero, suc, ◌+◌, ◌-◌, ◌%◌, ◌≡◌, ◌<◌, ltb, leb, ◌==◌, ◌||◌, not, if◌then◌else◌, Bool, true,
  false, List, [], ◌∷◌, ◌++◌, Option, none, some, Bytes, length, take, drop, replicate, get_or,
}

-- `cipher.Block`
pub record Cipher : Type 0 where
  pub block_size : ℕ
  pub encrypt : Bytes → Bytes
  pub decrypt : Bytes → Bytes

-- What its documentation promises: a block gives a block, and decryption undoes encryption.
pub record IsCipher (c : Cipher) : Type 0 where
  pub positive : 0 < c.block_size
  pub byte_sized : c.block_size < 256
  pub encrypt_size : (b : Bytes) → length b ≡ c.block_size → length (c.encrypt b) ≡ c.block_size
  pub undone : (b : Bytes) → length b ≡ c.block_size → c.decrypt (c.encrypt b) ≡ b

-- The loop of `CryptBlocks`, `k` rounds left; `dst` is what it fills.
unfoldable pub crypt_from : (Bytes → Bytes) → ℕ → Bytes → Bytes → ℕ → Bytes
crypt_from crypt n dst [] k = dst
crypt_from crypt n dst (b ∷ src) zero = dst
crypt_from crypt n dst (b ∷ src) (suc k) =
    crypt (take n (b ∷ src)) ++ crypt_from crypt n (drop n dst) (drop n (b ∷ src)) k

-- `CryptBlocks` of both modes: on a wrong length it changes nothing.
unfoldable pub crypt_blocks : (Bytes → Bytes) → ℕ → Bytes → Bytes → Bytes
crypt_blocks crypt n dst src =
    if not (length src % n == 0)
    then dst
    else (if ltb (length dst) (length src) then dst else crypt_from crypt n dst src (length src))

-- The results of this file: the bytes, or an error, or the panic of an index out of range.
pub data Result : Type 0 where
  bytes : Bytes → Result
  key_error padding_size_error base64_error index_out_of_range : Result

-- `pkcs5Padding`
unfoldable pub pkcs5_padding : Bytes → ℕ → Bytes
pkcs5_padding ciphertext block_size =
    let padding = block_size - length ciphertext % block_size in
    ciphertext ++ replicate padding (padding % 256)

-- `pkcs5Unpadding`
unfoldable pub pkcs5_unpadding : Bytes → ℕ → Result
pkcs5_unpadding [] block_size = index_out_of_range
pkcs5_unpadding (b ∷ src) block_size =
    let len = length (b ∷ src) in
    let unpadding = get_or (b ∷ src) (len - 1) 0 in
    if leb len unpadding || ltb block_size unpadding
    then padding_size_error
    else bytes (take (len - unpadding) (b ∷ src))

-- `aes.NewCipher`; `none` is an error.
module _ (new_cipher : Bytes → Option Cipher) where
  -- `EcbEncrypt`
  unfoldable pub ecb_encrypt : Bytes → Bytes → Result
  ecb_encrypt key src = elim (new_cipher key) [
    | none ↦ key_error
    | some block ↦
        let padded = pkcs5_padding src block.block_size in
        bytes (crypt_blocks block.encrypt block.block_size (replicate (length padded) 0) padded)
  ]

  -- `EcbDecrypt`
  unfoldable pub ecb_decrypt : Bytes → Bytes → Result
  ecb_decrypt key src = elim (new_cipher key) [
    | none ↦ key_error
    | some block ↦
        pkcs5_unpadding (crypt_blocks block.decrypt block.block_size (replicate (length src) 0) src)
          block.block_size
  ]

-- The two directions of `base64.StdEncoding`
unfoldable pub get_key_bytes : (Bytes → Option Bytes) → Bytes → Option Bytes
get_key_bytes decode_string key = if leb (length key) 32 then some key else decode_string key

unfoldable pub encoded : (Bytes → Bytes) → Result → Result
encoded encode_string (bytes b) = bytes (encode_string b)
encoded encode_string key_error = key_error
encoded encode_string padding_size_error = padding_size_error
encoded encode_string base64_error = base64_error
encoded encode_string index_out_of_range = index_out_of_range

module _ (new_cipher : Bytes → Option Cipher) (encode_string : Bytes → Bytes)
    (decode_string : Bytes → Option Bytes) where
  -- What `EcbEncryptBase64` and `EcbDecryptBase64` share
  abbrev pub through_base64 : (Bytes → Bytes → Result) → Bytes → Bytes → Result
  through_base64 run key src = elim (get_key_bytes decode_string key) [
    | none ↦ base64_error
    | some key_bytes ↦ elim (decode_string src) [
      | none ↦ base64_error
      | some src_bytes ↦ encoded encode_string (run key_bytes src_bytes)
    ]
  ]

  unfoldable pub ecb_encrypt_base64 : Bytes → Bytes → Result
  ecb_encrypt_base64 = through_base64 (ecb_encrypt new_cipher)

  unfoldable pub ecb_decrypt_base64 : Bytes → Bytes → Result
  ecb_decrypt_base64 = through_base64 (ecb_decrypt new_cipher)
