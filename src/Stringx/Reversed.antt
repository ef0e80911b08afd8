-- ===== src/Stringx/Reversed.antt =====
-- `Reverse` swaps its way to the reversed list.
use go_zero.Prelude.{
  ℕ, zero, suc, ◌+◌, ◌-◌, ◌≤◌, ◌<◌, ◌≡◌, refl, sym, ap, ap₂, ◌∙◌, ◌⊎◌, inl, inr, ltb, true, false,
  [], ◌∷◌, ◌++◌, length, get_or, set, arith, append_assoc, append-nil, length-append,
}
use go_zero.Stringx.{Runes, reverse_from, reverse_chars}
use go_zero.Stringx.Compact.{get_or-here, set-here}
use mathlib.Core.List.{reverse, reverse-cons, reverse-append}

-- A list is empty, or has one element, or a first and a last one.
ends :
    (l : Runes)
    → (l ≡ [])
      ⊎ (((x : ℕ) × (l ≡ x ∷ [])) ⊎ ((x : ℕ) × (m : Runes) × (y : ℕ) × (l ≡ x ∷ (m ++ (y ∷ [])))))
ends [] = inl refl
ends (x ∷ l) = elim (ends l) [
  | inl e ↦ inr (inl (x, ap (◌∷◌ x) e))
  | inr (inl (y, e)) ↦ inr (inr (x, [], y, ap (◌∷◌ x) e))
  | inr (inr (y, m, z, e)) ↦ inr (inr (x, y ∷ m, z, ap (◌∷◌ x) e))
]

-- One swap of the loop.
swapped :
    (pre m post : Runes) (x y : ℕ) (start last : ℕ)
    → length pre ≡ start
    → length (pre ++ (x ∷ m)) ≡ last
    → set
        (set
          (pre ++ (x ∷ (m ++ (y ∷ post))))
          start
          (get_or (pre ++ (x ∷ (m ++ (y ∷ post)))) last 0))
        last
        (get_or (pre ++ (x ∷ (m ++ (y ∷ post)))) start 0)
      ≡ (pre ++ (y ∷ [])) ++ (m ++ (x ∷ post))
swapped pre m post x y start last hs hl =
    ap₂ (λ u v. set (set l start u) last v) last_is first_is
    ∙ ap (λ r. set r last x)
        (ap (λ k. set l k y) (sym hs)
          ∙ set-here 0 pre (m ++ (y ∷ post)) x y
          ∙ sym (append_assoc pre (y ∷ m) (y ∷ post)))
    ∙ ap (λ k. set ((pre ++ (y ∷ m)) ++ (y ∷ post)) k x) (sym place)
    ∙ set-here 0 (pre ++ (y ∷ m)) post y x
    ∙ simp append_assoc
  where
    l : Runes
    l = pre ++ (x ∷ (m ++ (y ∷ post)))

    first_is : get_or l start 0 ≡ x
    first_is = ap (λ k. get_or l k 0) (sym hs) ∙ get_or-here 0 pre (m ++ (y ∷ post)) x

    last_is : get_or l last 0 ≡ y
    last_is =
        ap₂ (λ r k. get_or r k 0) (sym (append_assoc pre (x ∷ m) (y ∷ post))) (sym hl)
        ∙ get_or-here 0 (pre ++ (x ∷ m)) post y

    place : length (pre ++ (y ∷ m)) ≡ last
    place = length-append pre (y ∷ m) ∙ sym (length-append pre (x ∷ m)) ∙ hl

reverse-swapped :
    (m : Runes) (x y : ℕ) → reverse (x ∷ (m ++ (y ∷ []))) ≡ y ∷ (reverse m ++ (x ∷ []))
reverse-swapped m x y =
    reverse-cons x (m ++ (y ∷ [])) ∙ ap (◌++ (x ∷ [])) (reverse-append m (y ∷ []))

-- The loop stops when at most one rune is left.
few_left : (k : ℕ) (l : Runes) (start stop : ℕ) → stop ≤ start + 1 → reverse_from l start stop k ≡ l
unfolding reverse_from
few_left zero l start stop h = refl
few_left (suc k) l start stop h = rw (done, reverse_from) refl
  where
    done : ltb (start + 1) stop ≡ false
    done = ground arith

one_round :
    (k : ℕ) (l : Runes) (start stop : ℕ)
    → start + 1 < stop
    → reverse_from l start stop (suc k)
      ≡ reverse_from
          (set (set l start (get_or l (stop - 1) 0)) (stop - 1) (get_or l start 0))
          (start + 1)
          (stop - 1)
          k
unfolding reverse_from
one_round k l start stop h = rw (more, reverse_from) refl
  where
    more : ltb (start + 1) stop ≡ true
    more = ground arith

reverse_from-reverse :
    (k : ℕ) (mid pre post : Runes) (start stop : ℕ)
    → length pre ≡ start
    → length pre + length mid ≡ stop
    → length mid ≤ k
    → reverse_from (pre ++ (mid ++ post)) start stop k ≡ pre ++ (reverse mid ++ post)
reverse_from-reverse zero [] pre post start stop hs ht hk =
    few_left 0 (pre ++ post) start stop (omega arith)
reverse_from-reverse zero (x ∷ mid) pre post start stop hs ht hk = absurd (omega (arith, hk))
reverse_from-reverse (suc k) mid pre post start stop hs ht hk = elim (ends mid) [
  | inl e ↦
      few_left (suc k) (pre ++ (mid ++ post)) start stop (omega (arith, ap length e))
      ∙ ap (λ l. pre ++ (l ++ post)) (e ∙ sym (ap reverse e))
  | inr (inl (x, e)) ↦
      few_left (suc k) (pre ++ (mid ++ post)) start stop (omega (arith, ap length e))
      ∙ ap (λ l. pre ++ (l ++ post)) (e ∙ sym (ap reverse e))
  | inr (inr (x, m, y, e)) ↦
      let size : length mid ≡ length m + 2 =
        ap length e ∙ omega (arith, length-append m (y ∷ [])) in
      ap (λ l. reverse_from l start stop (suc k))
        (ap (λ l. pre ++ (l ++ post)) e ∙ ap (λ l. pre ++ (x ∷ l)) (append_assoc m (y ∷ []) post))
      ∙ one_round k (pre ++ (x ∷ (m ++ (y ∷ post)))) start stop (omega (arith, size))
      ∙ ap (λ l. reverse_from l (start + 1) (stop - 1) k)
          (swapped pre m post x y start (stop - 1) hs
            (length-append pre (x ∷ m) ∙ omega (arith, size)))
      ∙ reverse_from-reverse k m (pre ++ (y ∷ [])) (x ∷ post) (start + 1) (stop - 1)
          (length-append pre (y ∷ []) ∙ omega arith)
          (ap (◌+ length m) (length-append pre (y ∷ [])) ∙ omega (arith, size))
          (omega (arith, size))
      ∙ append_assoc pre (y ∷ []) (reverse m ++ (x ∷ post))
      ∙ ap (λ l. pre ++ (y ∷ l)) (sym (append_assoc (reverse m) (x ∷ []) post))
      ∙ ap (λ l. pre ++ (l ++ post)) (sym (ap reverse e ∙ reverse-swapped m x y))
]

-- `Reverse` gives the runes in reverse order.
pub reverse_chars-reverse : (s : Runes) → reverse_chars s ≡ reverse s
unfolding reverse_chars
reverse_chars-reverse s =
    ap (λ l. reverse_from l 0 (length s) (length s)) (sym (append-nil s))
    ∙ reverse_from-reverse (length s) s [] [] 0 (length s) refl (omega arith) (omega arith)
    ∙ append-nil (reverse s)
