-- ===== src/Collection/Cache/Recent.antt =====
-- The list of evicts and its map of elements, against a list of entries in the order of use.
use go_zero.Prelude.{
  ℕ, zero, suc, ◌<◌, ◌≡◌, ◌↔◌, inl, inr, refl, sym, ap, ◌∙◌, subst, ◌==◌, Bool, true, false,
  Bool-cases, List, [], ◌∷◌, none, some, arith, length, take, lookup, erase, present, OneEntry, All,
  ==_iff,
}
use go_zero.Collection.Cache.{Element, remove_id, back}

-- `id` is the identity of the element of `key`.
abbrev pub Coherent : {K : Type 0} → (K → K → Bool) → ℕ → K → List (Element K) → Type 0
Coherent same id key es = All (λ e. (e.id == id) ≡ same e.value key) es

pub All-lt_suc :
    {K : Type 0} (n : ℕ) (es : List (Element K))
    → All (λ e. e.id < n) es
    → All (λ e. e.id < suc n) es
All-lt_suc n [] h = tt
All-lt_suc n (e ∷ es) (p, h) = (omega arith, All-lt_suc n es h)

pub remove_id-All :
    {K : Type 0} (P : Element K → Type 0) (id : ℕ) (es : List (Element K))
    → All P es
    → All P (remove_id id es)
unfolding remove_id
remove_id-All P id [] h = tt
remove_id-All P id (e ∷ es) (p, h) = elim (Bool-cases (e.id == id)) [
  | inl b ↦ rw b (remove_id-All P id es h)
  | inr b ↦ rw b (p, remove_id-All P id es h)
]

pub other : (a b : ℕ) → a < b → (a == b) ≡ false
other a b h = ground arith

module _ {K V : Type 0} (same : K → K → Bool)
    (same_iff : (a b : K) → (same a b ≡ true) ↔ (a ≡ b)) where
  -- The elements hold the keys of the entries, in order.
  abbrev pub Aligned : List (Element K) → List (K × V) → Type 0
  Aligned [] [] = Unit
  Aligned [] (_ ∷ _) = ⊥
  Aligned (_ ∷ _) [] = ⊥
  Aligned (e ∷ es) ((k, v) ∷ sp) = (e.value ≡ k) × Aligned es sp

  pub remove_id-Aligned :
      (id : ℕ) (key : K) (es : List (Element K)) (sp : List (K × V))
      → Aligned es sp
      → Coherent same id key es
      → Aligned (remove_id id es) (erase same key sp)
  unfolding remove_id erase
  remove_id-Aligned id key [] [] al co = tt
  remove_id-Aligned id key [] (p ∷ sp) al co = absurd al
  remove_id-Aligned id key (e ∷ es) [] al co = absurd al
  remove_id-Aligned id key (e ∷ es) ((k, v) ∷ sp) (at, al) (is, co) =
      let ih = remove_id-Aligned id key es sp al co in
      rw (is, at) (elim (Bool-cases (same k key)) [ inl b ↦ rw b ih | inr b ↦ rw b (refl, ih) ])

  pub length-Aligned :
      (es : List (Element K)) (sp : List (K × V)) → Aligned es sp → length es ≡ length sp
  length-Aligned [] [] al = refl
  length-Aligned [] (p ∷ sp) al = absurd al
  length-Aligned (e ∷ es) [] al = absurd al
  length-Aligned (e ∷ es) ((k, v) ∷ sp) (at, al) = ap suc (length-Aligned es sp al)

  -- A new identity belongs to a new key.
  pub new-Coherent :
      (n : ℕ) (key : K) (es : List (Element K)) (sp : List (K × V))
      → Aligned es sp
      → All (λ e. e.id < n) es
      → lookup same key sp ≡ none
      → Coherent same n key es
  unfolding lookup
  new-Coherent n key [] sp al below new = tt
  new-Coherent n key (e ∷ es) [] al below new = absurd al
  new-Coherent n key (e ∷ es) ((k, v) ∷ sp) (at, al) (lt, below) new =
      elim (Bool-cases (same k key)) [
        | inl b ↦ absurd (cc (rw b at new))
        | inr b ↦ (
          other e.id n lt ∙ sym (ap (λ x. same x key) at ∙ b),
          new-Coherent n key es sp al below (rw b at new),
        )
      ]

  -- The last element is that of the last entry.
  pub back-last :
      (n : ℕ) (es : List (Element K)) (sp : List (K × V))
      → Aligned es sp
      → OneEntry same sp
      → length sp ≡ suc n
      → (b : Element K) × (back es ≡ some b)
        × (erase same b.value sp ≡ take n sp)
        × (present (lookup same b.value sp) ≡ 1)
  unfolding back erase lookup
  back-last n es [] al once size = absurd (omega arith)
  back-last n [] (p ∷ sp) al once size = absurd al
  back-last n (e ∷ f ∷ es) (p ∷ []) al once size = absurd al.1
  back-last n (e ∷ []) (p ∷ q ∷ sp) al once size = absurd al.1
  back-last (suc n) (e ∷ []) ((k, v) ∷ []) al once size = absurd (omega arith)
  back-last zero (e ∷ []) ((k, v) ∷ []) (at, al) once size =
      let self = (same_iff k e.value).1 (sym at) in (e, refl, rw self refl, rw self refl)
  back-last zero (e ∷ f ∷ es) (p ∷ q ∷ sp) al once size = absurd (omega arith)
  back-last (suc n) (e ∷ f ∷ es) ((k, v) ∷ q ∷ sp) (at, al) (new, once) size =
      let (b, is, cut, there) = back-last n (f ∷ es) (q ∷ sp) al once (omega arith) in
      elim (Bool-cases (same k b.value)) [
        | inl h ↦
            absurd (
              cc (subst (λ x. lookup same x (q ∷ sp) ≡ none) ((same_iff k b.value).0 h) new, there))
        | inr h ↦ (b, is, rw h (ap (◌∷◌ (k, v)) cut), rw h there)
      ]

  -- Two identities of keys are equal where the keys are.
  pub same_element :
      (id i : ℕ) (key k : K) (es : List (Element K)) (sp : List (K × V))
      → Aligned es sp
      → present (lookup same key sp) ≡ 1
      → Coherent same id key es
      → Coherent same i k es
      → (id == i) ≡ same key k
  unfolding lookup
  same_element id i key k [] [] al there one two = absurd (omega arith)
  same_element id i key k [] (p ∷ sp) al there one two = absurd al
  same_element id i key k (e ∷ es) [] al there one two = absurd al
  same_element id i key k (e ∷ es) ((j, v) ∷ sp) (at, al) there (is, one) (is', two) =
      elim (Bool-cases (same j key)) [
        | inl b ↦
            let same_id = (==_iff e.id id).0 (is ∙ ap (λ x. same x key) at ∙ b) in
            let same_key = at ∙ (same_iff j key).0 b in
            ap (λ x. x == i) (sym same_id) ∙ is' ∙ ap (λ x. same x k) same_key
        | inr b ↦ same_element id i key k es sp al (rw b at there) one two
      ]
