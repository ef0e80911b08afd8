-- ===== src/Prelude/Window.antt =====
-- Reading a list round its end.
use Prim.Native.Nat.{ℕ, zero, suc, ◌+◌, ◌-◌, ◌%◌, ◌<◌}
use mathlib.Core.Path.{◌≡◌, refl, sym, ap, ap₂, ◌∙◌}
use mathlib.Core.Logic.{◌≢◌}
use mathlib.Core.List.{List, [], ◌∷◌, ◌++◌}
use native.Mathlib.Nat.{mod-eq-sub-mod, mod-eq_of_lt, mod-lt, suc-mod, div-add-mod}
use native.Mathlib.Omega.{arith}
use native.Mathlib.Decide.{dec_lt}
use go_zero.Prelude.Lists.{
  take, length-append, length-drop, length-take, get_or-drop, get_or-take, get_or-append_left,
  get_or-append_right, ext_get_or, length, length-set, get_or, set, drop, get_or-set_self,
  get_or-set_ne,
}

-- Indices less than `m` apart differ by their remainders too.
pub mod-ne : (m a b : ℕ) → a < b → b < a + m → a % m ≢ b % m
mod-ne m a b h k e = grind (arith, div-add-mod a m, div-add-mod b m)

-- Numbers with one remainder have successors with one remainder.
pub mod-suc : (m s t : ℕ) → s % m ≡ t % m → suc s % m ≡ suc t % m
mod-suc m s t e = suc-mod s m ∙ ap (λ k. suc k % m) e ∙ sym (suc-mod t m)

mod_small : (i m : ℕ) → i < m → (0 + i) % m ≡ i
mod_small i m h = ap (λ k. k % m) (omega arith) ∙ mod-eq_of_lt h

module _ {ℓ} {A : Type ℓ} (d : A) where
  -- The `n` entries from index `s` on, each index taken modulo the length.
  unfoldable pub window : List A → ℕ → ℕ → List A
  window xs s zero = []
  window xs s (suc n) = get_or xs (s % length xs) d ∷ window xs (suc s) n

  pub length-window : (xs : List A) (s n : ℕ) → length (window xs s n) ≡ n
  unfolding window
  length-window xs s zero = refl
  length-window xs s (suc n) = ap suc (length-window xs (suc s) n)

  -- Start indices with one remainder give one window.
  pub window-mod :
      (xs : List A) (s t n : ℕ) → s % length xs ≡ t % length xs → window xs s n ≡ window xs t n
  unfolding window
  window-mod xs s t zero e = refl
  window-mod xs s t (suc n) e =
      ap₂ ◌∷◌ (ap (λ k. get_or xs k d) e)
        (window-mod xs (suc s) (suc t) n (mod-suc (length xs) s t e))

  pub get_or-window :
      (xs : List A) (s n i : ℕ)
      → i < n
      → get_or (window xs s n) i d ≡ get_or xs ((s + i) % length xs) d
  unfolding window
  get_or-window xs s zero i h = elim h [ ]
  get_or-window xs s (suc n) zero h = ap (λ k. get_or xs (k % length xs) d) (omega arith)
  get_or-window xs s (suc n) (suc i) h =
      get_or-window xs (suc s) n i (omega arith)
      ∙ ap (λ k. get_or xs (k % length xs) d) (omega arith)

  -- The last element of a window, apart.
  pub window-snoc :
      (xs : List A) (s n : ℕ)
      → window xs s (suc n) ≡ window xs s n ++ (get_or xs ((s + n) % length xs) d ∷ [])
  unfolding window
  window-snoc xs s zero = ap (λ k. get_or xs (k % length xs) d ∷ []) (omega arith)
  window-snoc xs s (suc n) = ap (◌∷◌ (get_or xs (s % length xs) d)) (
      window-snoc xs (suc s) n
      ∙ ap (λ k. window xs (suc s) n ++ (get_or xs (k % length xs) d ∷ [])) (omega arith))

  -- A write at an index that the window does not reach.
  pub window-set_ne :
      (xs : List A) (s n p : ℕ) (v : A)
      → ((i : ℕ) → i < n → p ≢ (s + i) % length xs)
      → window (set xs p v) s n ≡ window xs s n
  unfolding window
  window-set_ne xs s zero p v h = refl
  window-set_ne xs s (suc n) p v h =
      ap₂ ◌∷◌
        (rw (length-set xs p v) (
          get_or-set_ne xs p (s % length xs) v d
            (λ e. h 0 (omega arith) (e ∙ ap (λ k. k % length xs) (omega arith)))))
        (window-set_ne xs (suc s) n p v
          (λ i lt e. h (suc i) (omega arith) (e ∙ ap (λ k. k % length xs) (omega arith))))

  -- A write just past a window extends it by that element.
  pub window-push :
      (xs : List A) (s n p : ℕ) (v : A)
      → n < length xs
      → p ≡ (s + n) % length xs
      → window (set xs p v) s (suc n) ≡ window xs s n ++ (v ∷ [])
  window-push xs s n p v h e =
      window-snoc (set xs p v) s n
      ∙ ap₂ (λ ys y. ys ++ (y ∷ [])) (window-set_ne xs s n p v apart) last
    where
      apart : (i : ℕ) → i < n → p ≢ (s + i) % length xs
      apart i lt q = mod-ne (length xs) (s + i) (s + n) (omega arith) (omega arith) (sym q ∙ e)

      last : get_or (set xs p v) ((s + n) % length (set xs p v)) d ≡ v
      last =
          ap (λ k. get_or (set xs p v) k d) (ap (λ m. (s + n) % m) (length-set xs p v) ∙ sym e)
          ∙ get_or-set_self xs p v d (rw e (mod-lt (s + n) (omega arith)))

  pub window-cons :
      (xs : List A) (s n : ℕ) (y : A) (ys : List A)
      → window xs s (suc n) ≡ y ∷ ys
      → (get_or xs (s % length xs) d ≡ y) × (window xs (suc s) n ≡ ys)
  unfolding window
  window-cons xs s n y ys e = (cc, cc)

  -- The first element of a window, apart.
  pub drop-window : (xs : List A) (s n : ℕ) → drop 1 (window xs s (suc n)) ≡ window xs (suc s) n
  unfolding window
  drop-window xs s n = refl

  window-ext :
      (xs ys : List A) (s : ℕ)
      → ((i : ℕ) → i < length ys → get_or xs ((s + i) % length xs) d ≡ get_or ys i d)
      → window xs s (length ys) ≡ ys
  window-ext xs ys s same =
      ext_get_or (window xs s (length ys)) ys d (length-window xs s (length ys))
        (λ i lt. step i (omega (arith, length-window xs s (length ys))))
    where
      step : (i : ℕ) → i < length ys → get_or (window xs s (length ys)) i d ≡ get_or ys i d
      step i lt = get_or-window xs s (length ys) i lt ∙ same i lt

  -- The first elements of a list, read as a window.
  pub window-append : (xs ys : List A) → window (xs ++ ys) 0 (length xs) ≡ xs
  window-append xs ys = window-ext (xs ++ ys) xs 0 λ i lt.
      ap (λ k. get_or (xs ++ ys) k d) (mod_small i (length (xs ++ ys)) (longer i lt))
      ∙ get_or-append_left xs ys i d lt
    where
      longer : (i : ℕ) → i < length xs → i < length (xs ++ ys)
      longer i lt = omega (arith, length-append xs ys)

  -- A whole turn round a list, from index `s` on.
  pub window-turn :
      (xs : List A) (s : ℕ) → s < length xs → window xs s (length xs) ≡ drop s xs ++ take s xs
  window-turn xs s h =
      ap (window xs s) (sym turn)
      ∙ window-ext xs (drop s xs ++ take s xs) s (λ i lt. at i (rw turn at lt))
    where
      turn : length (drop s xs ++ take s xs) ≡ length xs
      turn =
          omega (arith, length-append (drop s xs) (take s xs), length-drop s xs, length-take s xs)

      at :
          (i : ℕ)
          → i < length xs
          → get_or xs ((s + i) % length xs) d ≡ get_or (drop s xs ++ take s xs) i d
      at i lt = elim (dec_lt i (length xs - s)) [
        | yes p ↦
            ap (λ k. get_or xs k d) (mod-eq_of_lt (omega arith))
            ∙ sym (get_or-drop s xs i d)
            ∙ sym (get_or-append_left (drop s xs) (take s xs) i d (omega (arith, length-drop s xs)))
        | no p ↦
            ap (λ k. get_or xs k d)
              (mod-eq-sub-mod (omega arith)
                ∙ mod-eq_of_lt (omega arith)
                ∙ omega (arith, length-drop s xs))
            ∙ sym (get_or-take s xs (i - length (drop s xs)) d (omega (arith, length-drop s xs)))
            ∙ sym
                (get_or-append_right (drop s xs) (take s xs) i d (omega (arith, length-drop s xs)))
      ]
