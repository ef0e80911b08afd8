-- ===== src/Stringx/Joined.antt =====
-- `Join` puts the separator between the elements that are not empty.
use go_zero.Prelude.{
  ℕ, ◌≡◌, ◌==◌, refl, sym, ap, ◌∙◌, inl, inr, ltb, Bool, true, false, List, [], ◌∷◌, ◌++◌, length,
  arith, Bool-cases, append_assoc,
}
use go_zero.Stringx.{Runes, total_size, join_from, join}
use go_zero.Stringx.Compact.{kept}

abbrev pub is_filled : Runes → Bool
is_filled [] = false
is_filled (_ ∷ _) = true

-- The strings with `sep` between each two.
abbrev pub between : ℕ → List Runes → Runes
between sep [] = []
between sep (e ∷ []) = e
between sep (e ∷ f ∷ es) = e ++ (sep ∷ between sep (f ∷ es))

join_from-between :
    (elem : List Runes) (sep c : ℕ) (buf : Runes)
    → join_from sep (c ∷ buf) elem ≡ between sep ((c ∷ buf) ∷ kept is_filled elem)
unfolding join_from kept
join_from-between [] sep c buf = refl
join_from-between ([] ∷ elem) sep c buf = join_from-between elem sep c buf
join_from-between ((d ∷ e) ∷ elem) sep c buf =
    rw filled
      (join_from-between elem sep c ((buf ++ (sep ∷ [])) ++ (d ∷ e)) ∙ onto (kept is_filled elem))
  where
    filled : ltb 0 (length (c ∷ buf)) ≡ true
    filled = ground arith

    onto :
        (es : List Runes)
        → between sep ((c ∷ ((buf ++ (sep ∷ [])) ++ (d ∷ e))) ∷ es)
          ≡ (c ∷ buf) ++ (sep ∷ between sep ((d ∷ e) ∷ es))
    onto [] = simp append_assoc
    onto (f ∷ es) = simp append_assoc

empty_kept : (elem : List Runes) → total_size elem ≡ 0 → kept is_filled elem ≡ []
unfolding total_size kept
empty_kept [] h = refl
empty_kept ([] ∷ elem) h = empty_kept elem (omega (arith, h))
empty_kept ((c ∷ e) ∷ elem) h = absurd (omega (arith, h))

join_from-start :
    (elem : List Runes) (sep : ℕ) → join_from sep [] elem ≡ between sep (kept is_filled elem)
unfolding join_from kept
join_from-start [] sep = refl
join_from-start ([] ∷ elem) sep = join_from-start elem sep
join_from-start ((c ∷ e) ∷ elem) sep = join_from-between elem sep c e

-- `Join` gives the elements that are not empty, in order, with the separator between each two of
-- them and nowhere else.
pub join-between : (elem : List Runes) (sep : ℕ) → join sep elem ≡ between sep (kept is_filled elem)
unfolding join
join-between elem sep = elim (Bool-cases (total_size elem == 0)) [
  | inl e ↦ rw (e, join) (ap (between sep) (sym (empty_kept elem (ground arith))))
  | inr e ↦ rw (e, join) (join_from-start elem sep)
]
