-- ===== src/Stringx/Cut.antt =====
-- What `Substr` and `FirstN` cut out.
use go_zero.Prelude.{
  ℕ, zero, suc, ◌+◌, ◌-◌, ◌≤◌, ◌≡◌, ◌==◌, refl, ap, ◌∙◌, inl, inr, ltb, leb, if◌then◌else◌, true,
  false, [], ◌∷◌, ◌++◌, length, take, drop, arith, Bool-cases, append-nil, append_assoc,
  length-append,
}
use go_zero.Stringx.{pos, Runes, substring, substr, first_from, first_n}

take-append : (t post : Runes) → take (length t) (t ++ post) ≡ t
take-append [] [] = refl
take-append [] (x ∷ post) = refl
take-append (x ∷ t) post = ap (◌∷◌ x) (take-append t post)

drop-append_length : (pre t : Runes) → drop (length pre) (pre ++ t) ≡ t
drop-append_length [] [] = refl
drop-append_length [] (x ∷ t) = refl
drop-append_length (x ∷ pre) t = drop-append_length pre t

-- `Substr` with the positions where a part of a string begins and ends gives that part.
pub substr-append :
    (pre t post : Runes)
    → substr (pre ++ (t ++ post)) (pos (length pre)) (pos (length pre + length t)) ≡ substring t
unfolding substr
substr-append pre t post =
    rw
      (in_range (length pre) (omega arith), in_range (length pre + length t) (omega arith), ordered)
      (ap substring (
        ap (λ l. take ((length pre + length t) - length pre) l) (drop-append_length pre (t ++ post))
        ∙ ap (λ k. take k (t ++ post)) (omega arith)
        ∙ take-append t post))
  where
    in_range : (k : ℕ) → k ≤ length pre + length t → ltb (length (pre ++ (t ++ post))) k ≡ false
    in_range k h = ground (arith, length-append pre (t ++ post), length-append t post)

    ordered : leb (length pre) (length pre + length t) ≡ true
    ordered = ground arith

first_from-take :
    (rs seen ellipsis : Runes) (i n d : ℕ)
    → i + d ≡ n
    → first_from i n seen ellipsis rs
      ≡ seen ++ (if leb (length rs) d then rs else take d rs ++ ellipsis)
unfolding first_from
first_from-take [] seen ellipsis i n d h = ground (arith, append-nil seen)
first_from-take (r ∷ rs) seen ellipsis i n zero h = ground arith
first_from-take (r ∷ rs) seen ellipsis i n (suc d) h =
    rw (onward, first_from)
      (first_from-take rs (seen ++ (r ∷ [])) ellipsis (i + 1) n d (omega arith)
        ∙ append_assoc seen (r ∷ []) (if leb (length rs) d then rs else take d rs ++ ellipsis)
        ∙ ap (seen ++◌) (elim (Bool-cases (leb (length rs) d)) [
          | inl e ↦ rw (still, e) refl
          | inr e ↦ rw (still, e) refl
        ]))
  where
    onward : (i == n) ≡ false
    onward = ground arith

    still : leb (suc (length rs)) (suc d) ≡ leb (length rs) d
    still = ground arith

-- `FirstN` gives the whole string if it has at most `n` runes, else its first `n` runes and the
-- ellipsis.
pub first_n-take :
    (s : Runes) (n : ℕ) (ellipsis : Runes)
    → first_n s n ellipsis ≡ (if leb (length s) n then s else take n s ++ ellipsis)
unfolding first_n
first_n-take s n ellipsis = first_from-take s [] ellipsis 0 n n (omega arith)
