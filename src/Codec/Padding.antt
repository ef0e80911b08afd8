-- ===== src/Codec/Padding.antt =====
-- The padding: what it adds, and that it is taken away again.
use go_zero.Prelude.{
  ℕ, zero, suc, ◌+◌, ◌-◌, ◌*◌, ◌/◌, ◌%◌, ◌≤◌, ◌<◌, ◌≡◌, refl, ap, ◌∙◌, ltb, leb, ◌||◌,
  if◌then◌else◌, [], ◌∷◌, ◌++◌, Bytes, length, take, get_or, replicate, arith, length-append,
  length-replicate, get_or-append_right, get_or-replicate, mod-lt, mod-eq_of_lt, div-add-mod,
}
use native.Mathlib.Nat.{suc-mul, mul_comm}
use go_zero.Codec.{Result, bytes, padding_size_error, pkcs5_padding, pkcs5_unpadding}
use go_zero.Codec.Blocks.{take-append_length}

get_or-replicate_inside : (n i a d : ℕ) → i < n → get_or (replicate n a) i d ≡ a
get_or-replicate_inside zero i a d h = elim h [ ]
get_or-replicate_inside (suc n) zero a d h = refl
get_or-replicate_inside (suc n) (suc i) a d h = get_or-replicate_inside n i a d (omega arith)

-- What the padding leaves of an empty text: nothing that it can be told from.
unfoldable pub restored : Bytes → Result
restored [] = padding_size_error
restored (b ∷ src) = bytes (b ∷ src)

at_last :
    (xs : Bytes) (n : ℕ)
    → 0 < length xs
    → pkcs5_unpadding xs n ≡ (
        if leb (length xs) (get_or xs (length xs - 1) 0) || ltb n (get_or xs (length xs - 1) 0)
        then padding_size_error
        else bytes (take (length xs - get_or xs (length xs - 1) 0) xs))
unfolding pkcs5_unpadding
at_last [] n h = elim h [ ]
at_last (x ∷ xs) n h = refl

kept :
    (src : Bytes) (n p len : ℕ)
    → 0 < p
    → p ≤ n
    → len ≡ length src + p
    → (if leb len p || ltb n p
        then padding_size_error
        else bytes (take (len - p) (src ++ replicate p p)))
      ≡ restored src
unfolding restored
kept [] n p len h le sum = ground arith
kept (b ∷ src) n p len h le sum =
    ground arith ∙ ap bytes (take-append_length (b ∷ src) (replicate p p) (len - p) (omega arith))

-- Unpadding reads the length from the last byte.
unpadding_append :
    (src : Bytes) (n p : ℕ)
    → 0 < p
    → p ≤ n
    → pkcs5_unpadding (src ++ replicate p p) n ≡ restored src
unpadding_append src n p h le =
    let all = src ++ replicate p p in
    let len = length all in
    let sum = length-append src (replicate p p) ∙ ap (λ k. length src + k) (length-replicate p p) in
    let last =
      get_or-append_right src (replicate p p) (len - 1) 0 (omega arith)
      ∙ get_or-replicate_inside p (len - 1 - length src) p 0 (omega arith) in
    at_last all n (omega arith)
    ∙ ap (λ u. if leb len u || ltb n u then padding_size_error else bytes (take (len - u) all)) last
    ∙ kept src n p len h le sum

module _ (src : Bytes) (n : ℕ) (positive : 0 < n) (small : n < 256) where
  -- A padded text is a whole number of blocks.
  pub length-pkcs5_padding : length (pkcs5_padding src n) ≡ suc (length src / n) * n
  unfolding pkcs5_padding
  length-pkcs5_padding =
      let part = length src % n in
      let less = mod-lt (length src) positive in
      let whole = div-add-mod (length src) n in
      let pad = replicate (n - part) ((n - part) % 256) in
      length-append src pad
      ∙ ap (λ k. length src + k) (length-replicate (n - part) ((n - part) % 256))
      ∙ omega (arith, mul_comm n (length src / n), suc-mul (length src / n) n)

  pub pkcs5_unpadding-padding : pkcs5_unpadding (pkcs5_padding src n) n ≡ restored src
  unfolding pkcs5_padding
  pkcs5_unpadding-padding =
      let less = mod-lt (length src) positive in
      let p = n - length src % n in
      ap (λ v. pkcs5_unpadding (src ++ replicate p v) n) (mod-eq_of_lt (omega arith))
      ∙ unpadding_append src n p (omega arith) (omega arith)

take-length : (xs : Bytes) (k : ℕ) → length xs ≡ k → take k xs ≡ xs
take-length [] zero h = refl
take-length [] (suc k) h = refl
take-length (x ∷ xs) zero h = absurd (omega arith)
take-length (x ∷ xs) (suc k) h = ap (◌∷◌ x) (take-length xs k (omega arith))

-- A last byte of zero asks for nothing to be taken.
pub unpadding-zeros : (l n : ℕ) → 0 < l → pkcs5_unpadding (replicate l 0) n ≡ bytes (replicate l 0)
unpadding-zeros l n h =
    let zeros : Bytes = replicate l 0 in
    let size = length-replicate {A = ℕ} l 0 in
    at_last zeros n (omega arith)
    ∙ ap
        (λ u.
          if leb (length zeros) u || ltb n u
          then padding_size_error
          else bytes (take (length zeros - u) zeros))
        (get_or-replicate l 0 (length zeros - 1))
    ∙ ground arith
    ∙ ap bytes (take-length zeros (length zeros - 0) (omega arith))
