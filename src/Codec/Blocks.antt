-- ===== src/Codec/Blocks.antt =====
-- Block by block, decryption undoes encryption.
use go_zero.Prelude.{
  ℕ, zero, suc, ◌+◌, ◌-◌, ◌*◌, ◌≤◌, ◌<◌, ◌≡◌, refl, sym, ap, ap₂, ◌∙◌, [], ◌∷◌, ◌++◌, Bytes, length,
  take, drop, arith, length-append, length-take, length-drop,
}
use native.Mathlib.Nat.{suc-mul}
use go_zero.Codec.{Cipher, IsCipher, crypt_from}

pub take-append_length : (xs ys : Bytes) (n : ℕ) → length xs ≡ n → take n (xs ++ ys) ≡ xs
take-append_length xs ys n h = ap (λ k. take k (xs ++ ys)) (sym h) ∙ at xs ys
  where
    at : (xs ys : Bytes) → take (length xs) (xs ++ ys) ≡ xs
    at [] [] = refl
    at [] (y ∷ ys) = refl
    at (x ∷ xs) ys = ap (◌∷◌ x) (at xs ys)

pub drop-append_length : (xs ys : Bytes) (n : ℕ) → length xs ≡ n → drop n (xs ++ ys) ≡ ys
drop-append_length xs ys n h = ap (λ k. drop k (xs ++ ys)) (sym h) ∙ at xs ys
  where
    at : (xs ys : Bytes) → drop (length xs) (xs ++ ys) ≡ ys
    at [] [] = refl
    at [] (y ∷ ys) = refl
    at (x ∷ xs) ys = at xs ys

take-drop : (n : ℕ) (xs : Bytes) → take n xs ++ drop n xs ≡ xs
take-drop zero xs = refl
take-drop (suc n) [] = refl
take-drop (suc n) (x ∷ xs) = ap (◌∷◌ x) (take-drop n xs)

crypt_from-step :
    (crypt : Bytes → Bytes) (n : ℕ) (dst src : Bytes) (k : ℕ)
    → 0 < length src
    → crypt_from crypt n dst src (suc k)
      ≡ crypt (take n src) ++ crypt_from crypt n (drop n dst) (drop n src) k
unfolding crypt_from
crypt_from-step crypt n dst [] k h = absurd (omega arith)
crypt_from-step crypt n dst (b ∷ src) k h = refl

module _ (m n l : ℕ) (h : l ≡ suc m * n) where
  expand : l ≡ m * n + n
  expand = h ∙ suc-mul m n

  sub_block : l - n ≡ m * n
  sub_block = omega (arith, expand)

  block_fits : n ≤ l
  block_fits = omega (arith, expand)

module _ (c : Cipher) (law : IsCipher c) where
  -- The loop leaves the length of what it fills, block for block.
  pub length-crypt_from :
      (m : ℕ) (dst src : Bytes) (k : ℕ)
      → length src ≡ m * c.block_size
      → length dst ≡ length src
      → length src ≤ k
      → length (crypt_from c.encrypt c.block_size dst src k) ≡ length src
  unfolding crypt_from
  length-crypt_from m dst [] k hm hd hk = hd
  length-crypt_from m dst (b ∷ src) zero hm hd hk = absurd (omega arith)
  length-crypt_from zero dst (b ∷ src) (suc k) hm hd hk = absurd (omega arith)
  length-crypt_from (suc m) dst (b ∷ src) (suc k) hm hd hk =
      let all = b ∷ src in
      let first = take c.block_size all in
      let rest = drop c.block_size all in
      let old = drop c.block_size dst in
      let n1 = length-drop c.block_size all in
      let n2 = length-drop c.block_size dst in
      let n3 = length-take c.block_size all in
      let fits = block_fits m c.block_size (length all) hm in
      let some_block = law.positive in
      let size = law.encrypt_size first (omega arith) in
      let ih =
        length-crypt_from m old rest k (n1 ∙ sub_block m c.block_size (length all) hm) (omega arith)
          (omega arith) in
      length-append (c.encrypt first) (crypt_from c.encrypt c.block_size old rest k) ∙ omega arith

  pub crypt_from-inverse :
      (m : ℕ) (dst dst' src : Bytes) (k k' : ℕ)
      → length src ≡ m * c.block_size
      → length dst ≡ length src
      → length dst' ≡ length src
      → length src ≤ k
      → length src ≤ k'
      → crypt_from c.decrypt c.block_size dst' (crypt_from c.encrypt c.block_size dst src k) k'
        ≡ src
  unfolding crypt_from
  crypt_from-inverse m [] [] [] k k' hm hd hd' hk hk' = refl
  crypt_from-inverse m (x ∷ dst) dst' [] k k' hm hd hd' hk hk' = absurd (omega arith)
  crypt_from-inverse m [] (x ∷ dst') [] k k' hm hd hd' hk hk' = absurd (omega arith)
  crypt_from-inverse m dst dst' (b ∷ src) zero k' hm hd hd' hk hk' = absurd (omega arith)
  crypt_from-inverse m dst dst' (b ∷ src) (suc k) zero hm hd hd' hk hk' = absurd (omega arith)
  crypt_from-inverse zero dst dst' (b ∷ src) (suc k) (suc k') hm hd hd' hk hk' =
      absurd (omega arith)
  crypt_from-inverse (suc m) dst dst' (b ∷ src) (suc k) (suc k') hm hd hd' hk hk' =
      let n = c.block_size in
      let all = b ∷ src in
      let first = take n all in
      let rest = drop n all in
      let n1 = length-drop n all in
      let n2 = length-drop n dst in
      let n3 = length-drop n dst' in
      let n4 = length-take n all in
      let fits = block_fits m n (length all) hm in
      let some_block = law.positive in
      let less = n1 ∙ sub_block m n (length all) hm in
      let size = law.encrypt_size first (omega arith) in
      let out = crypt_from c.encrypt n (drop n dst) rest k in
      let ih =
        crypt_from-inverse m (drop n dst) (drop n dst') rest k k' less (omega arith) (omega arith)
          (omega arith) (omega arith) in
      let sum = length-append (c.encrypt first) out in
      crypt_from-step c.decrypt n dst' (c.encrypt first ++ out) k' (omega arith)
      ∙ ap₂ ◌++◌
          (ap c.decrypt (take-append_length (c.encrypt first) out n size)
            ∙ law.undone first (omega arith))
          (ap (λ r. crypt_from c.decrypt n (drop n dst') r k')
              (drop-append_length (c.encrypt first) out n size)
            ∙ ih)
      ∙ take-drop n all
