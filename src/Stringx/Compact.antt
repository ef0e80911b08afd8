-- ===== src/Stringx/Compact.antt =====
-- The loops that move the elements that are kept to the front of the same slice.
use go_zero.Prelude.{
  ℕ, ◌+◌, ◌≡◌, refl, sym, ap, ◌∙◌, inl, inr, ltb, if◌then◌else◌, Bool, List, [], ◌∷◌, ◌++◌, length,
  get_or, set, take, arith, Bool-cases, append-nil, append_assoc, length-append,
}

-- The elements that `keep` accepts.
unfoldable pub kept {ℓ} : {A : Type ℓ} → (A → Bool) → List A → List A
kept keep [] = []
kept keep (x ∷ xs) = if keep x then x ∷ kept keep xs else kept keep xs

module _ {ℓ} {A : Type ℓ} (nothing : A) where
  pub get_or-here : (xs ys : List A) (y : A) → get_or (xs ++ (y ∷ ys)) (length xs) nothing ≡ y
  get_or-here [] ys y = refl
  get_or-here (x ∷ xs) ys y = get_or-here xs ys y

  pub set-here : (xs ys : List A) (y v : A) → set (xs ++ (y ∷ ys)) (length xs) v ≡ xs ++ (v ∷ ys)
  set-here [] ys y v = refl
  set-here (x ∷ xs) ys y v = ap (◌∷◌ x) (set-here xs ys y v)

  take-here : (xs ys : List A) → take (length xs) (xs ++ ys) ≡ xs
  take-here [] [] = refl
  take-here [] (y ∷ ys) = refl
  take-here (x ∷ xs) ys = ap (◌∷◌ x) (take-here xs ys)

  -- What is left of the elements in between when `x` is moved over the first of them.
  abbrev pub shift : List A → A → List A
  shift [] x = []
  shift (y ∷ gap) x = gap ++ (x ∷ [])

  length-shift : (gap : List A) (x : A) → length (shift gap x) ≡ length gap
  length-shift [] x = refl
  length-shift (y ∷ gap) x = length-append gap (x ∷ []) ∙ omega arith

  -- The slice when the element `x` after `front ++ gap` has been written behind `front`.
  pub moved :
      (front gap rest : List A) (x : A) (n : ℕ)
      → length front ≡ n
      → set ((front ++ gap) ++ (x ∷ rest)) n x ≡ ((front ++ (x ∷ [])) ++ shift gap x) ++ rest
  moved front [] rest x n h =
      ap (λ l. set (l ++ (x ∷ rest)) n x) (append-nil front)
      ∙ ap (λ k. set (front ++ (x ∷ rest)) k x) (sym h)
      ∙ set-here front rest x x
      ∙ simp (append_assoc, append-nil)
  moved front (y ∷ gap) rest x n h =
      ap (λ l. set l n x) (append_assoc front (y ∷ gap) (x ∷ rest))
      ∙ ap (λ k. set (front ++ (y ∷ (gap ++ (x ∷ rest)))) k x) (sym h)
      ∙ set-here front (gap ++ (x ∷ rest)) y x
      ∙ simp append_assoc

  -- `Filter` does not write where the element would stay.
  pub unmoved :
      (front gap rest : List A) (x : A) (n i : ℕ)
      → length front ≡ n
      → length (front ++ gap) ≡ i
      → (if ltb n i then set ((front ++ gap) ++ (x ∷ rest)) n x else ((front ++ gap) ++ (x ∷ rest)))
        ≡ set ((front ++ gap) ++ (x ∷ rest)) n x
  unmoved front [] rest x n i h j = elim (Bool-cases (ltb n i)) [
    | inl e ↦ rw e refl
    | inr e ↦ rw e (sym (moved front [] rest x n h ∙ simp (append_assoc, append-nil)))
  ]
  unmoved front (y ∷ gap) rest x n i h j = ground (arith, length-append front (y ∷ gap))

  pub length-moved :
      (front gap : List A) (x : A) (i : ℕ)
      → length (front ++ gap) ≡ i
      → length ((front ++ (x ∷ [])) ++ shift gap x) ≡ i + 1
  length-moved front gap x i h = omega (
    arith,
    length-append (front ++ (x ∷ [])) (shift gap x),
    length-append front (x ∷ []),
    length-append front gap,
    length-shift gap x,
  )

  pub length-snoc :
      (front : List A) (x : A) (n : ℕ) → length front ≡ n → length (front ++ (x ∷ [])) ≡ n + 1
  length-snoc front x n h = length-append front (x ∷ []) ∙ omega arith

  pub read :
      (front gap rest : List A) (x : A) (i : ℕ)
      → length (front ++ gap) ≡ i
      → get_or ((front ++ gap) ++ (x ∷ rest)) i nothing ≡ x
  read front gap rest x i h =
      ap (λ k. get_or ((front ++ gap) ++ (x ∷ rest)) k nothing) (sym h)
      ∙ get_or-here (front ++ gap) rest x

  pub front_left :
      (front gap : List A) (n : ℕ) → length front ≡ n → take n ((front ++ gap) ++ []) ≡ front ++ []
  front_left front gap n h =
      ap (λ k. take k ((front ++ gap) ++ [])) (sym h)
      ∙ ap (take (length front)) (append-nil (front ++ gap))
      ∙ take-here front gap
      ∙ sym (append-nil front)
