-- ===== src/Collection/Cache/Agrees.antt =====
-- The data of the cache has the entries of the list in the order of use.
use go_zero.Prelude.{
  ℕ, zero, suc, ◌≤◌, ◌≡◌, ◌↔◌, inl, inr, refl, sym, ap, ◌∙◌, subst, if◌then◌else◌, Bool, true,
  Bool-cases, List, [], ◌∷◌, none, some, arith, length, take, lookup, insert, erase, present,
  OneEntry, lookup-erase, lookup-insert, erase-OneEntry, length-insert, length-erase,
  insert-OneEntry, All,
}
use go_zero.Collection.Cache.{Element, back}

pub take-all : {A : Type 0} (n : ℕ) (xs : List A) → length xs ≤ n → take n xs ≡ xs
take-all zero [] h = refl
take-all zero (x ∷ xs) h = absurd (omega arith)
take-all (suc n) [] h = refl
take-all (suc n) (x ∷ xs) h = ap (◌∷◌ x) (take-all n xs (omega arith))

pub length-take_one_less :
    {A : Type 0} (n : ℕ) (xs : List A) → length xs ≡ suc n → length (take n xs) ≡ n
length-take_one_less zero xs h = refl
length-take_one_less (suc n) [] h = absurd (omega arith)
length-take_one_less (suc n) (x ∷ xs) h = ap suc (length-take_one_less n xs (omega arith))

pub back-All :
    {K : Type 0} (P : Element K → Type 0) (b : Element K) (es : List (Element K))
    → All P es
    → back es ≡ some b
    → P b
unfolding back
back-All P b [] h e = cc
back-All P b (x ∷ []) (p, h) e = subst P (cc (e)) p
back-All P b (x ∷ y ∷ es) (p, h) e = back-All P b (y ∷ es) h e

module _ {K V : Type 0} (same : K → K → Bool)
    (same_iff : (a b : K) → (same a b ≡ true) ↔ (a ≡ b)) where
  pub record Agrees (data_of sp : List (K × V)) : Type 0 where
    pub found : (k : K) → lookup same k data_of ≡ lookup same k sp
    pub data_once : OneEntry same data_of
    pub sized : length data_of ≡ length sp

  module _ (data_of sp : List (K × V)) (a : Agrees data_of sp) (once : OneEntry same sp)
      (key : K) where
    pub erase-Agrees : Agrees (erase same key data_of) (erase same key sp)
    erase-Agrees = record {
      found = λ k.
          lookup-erase same same_iff key k data_of
          ∙ ap (λ o. if same key k then none else o) (a.found k)
          ∙ sym (lookup-erase same same_iff key k sp);
      data_once = erase-OneEntry same same_iff key data_of a.data_once;
      sized =
          let one = length-erase same same_iff key data_of a.data_once in
          let two = length-erase same same_iff key sp once in
          let three = ap present (a.found key) in let four = a.sized in omega arith;
    }

    lookup-used :
        (v : V) (k : K)
        → (if same key k then some v else lookup same k sp)
          ≡ lookup same k ((key, v) ∷ erase same key sp)
    unfolding lookup
    lookup-used v k = elim (Bool-cases (same key k)) [
      | inl e ↦ rw e refl
      | inr e ↦ rw e (sym (lookup-erase same same_iff key k sp ∙ rw e refl))
    ]

    pub insert-Agrees : (v : V) → Agrees (insert same key v data_of) ((key, v) ∷ erase same key sp)
    insert-Agrees v = record {
      found = λ k.
          lookup-insert same same_iff key k v data_of
          ∙ ap (λ o. if same key k then some v else o) (a.found k)
          ∙ lookup-used v k;
      data_once = insert-OneEntry same same_iff key v data_of a.data_once;
      sized =
          let one = length-insert same same_iff key v data_of in
          let two = length-erase same same_iff key sp once in
          let three = ap present (a.found key) in let four = a.sized in omega arith;
    }

    pub used-Agrees :
        (v : V) → lookup same key sp ≡ some v → Agrees data_of ((key, v) ∷ erase same key sp)
    used-Agrees v at = record {
      found = λ k. a.found k ∙ kept k ∙ lookup-used v k;
      data_once = a.data_once;
      sized =
          let two = length-erase same same_iff key sp once in
          let three = ap present at in let four = a.sized in omega arith;
    }
      where
        kept : (k : K) → lookup same k sp ≡ (if same key k then some v else lookup same k sp)
        kept k = elim (Bool-cases (same key k)) [
          | inl e ↦ rw e (subst (λ x. lookup same x sp ≡ some v) ((same_iff key k).0 e) at)
          | inr e ↦ rw e refl
        ]
