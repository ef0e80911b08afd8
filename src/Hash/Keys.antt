-- ===== src/Hash/Keys.antt =====
-- The sorted keys: sorting keeps the keys, and a key is cut.
use go_zero.Prelude.{
  ℕ, ◌≤◌, ◌<◌, ◌≡◌, ◌≢◌, ◌⊎◌, inl, inr, ◌↔◌, sym, ap, ◌∙◌, leb, ◌==◌, Bool-cases, List, [], ◌∷◌,
  arith, Among, NoDup, leb_iff, ==_iff,
}
use go_zero.Hash.{insert_key, sort, search, cut_key}

-- Each key is less than the ones after it.
abbrev pub Ascending : List ℕ → Type 0
Ascending [] = Unit
Ascending (k ∷ ks) = ((j : ℕ) → Among j ks → k < j) × Ascending ks

-- No key is greater than the ones after it.
abbrev pub Sorted : List ℕ → Type 0
Sorted [] = Unit
Sorted (k ∷ ks) = ((j : ℕ) → Among j ks → k ≤ j) × Sorted ks

pub insert_key-Among : (x k : ℕ) (ks : List ℕ) → Among x (insert_key k ks) ↔ Among x (k ∷ ks)
insert_key-Among x k [] = ((λ a. a), (λ a. a))
insert_key-Among x k (j ∷ js) = elim (Bool-cases (leb k j)) [
  | inl e ↦ rw e ((λ a. a), (λ a. a))
  | inr e ↦ rw e (swapped (insert_key-Among x k js))
]
  where
    swapped :
        Among x (insert_key k js) ↔ Among x (k ∷ js)
        → Among x (j ∷ insert_key k js) ↔ Among x (k ∷ j ∷ js)
    swapped ih = (
      elim [ inl e ↦ inr (inl e) | inr a ↦ elim (ih.0 a) [ inl e ↦ inl e | inr b ↦ inr (inr b) ] ],
      elim [
        | inl e ↦ inr (ih.1 (inl e))
        | inr b ↦ elim b [ inl e ↦ inl e | inr c ↦ inr (ih.1 (inr c)) ]
      ],
    )

pub sort-Among : (x : ℕ) (ks : List ℕ) → Among x (sort ks) ↔ Among x ks
unfolding sort
sort-Among x [] = ((λ a. a), (λ a. a))
sort-Among x (k ∷ ks) =
    let here = insert_key-Among x k (sort ks) in
    let ih = sort-Among x ks in
    (
      (λ a. elim (here.0 a) [ inl e ↦ inl e | inr b ↦ inr (ih.0 b) ]),
      elim [ inl e ↦ here.1 (inl e) | inr b ↦ here.1 (inr (ih.1 b)) ],
    )

insert_key-Ascending :
    (k : ℕ) (ks : List ℕ) → Ascending ks → ¬ Among k ks → Ascending (insert_key k ks)
insert_key-Ascending k [] up new = ((λ j a. absurd a), tt)
insert_key-Ascending k (j ∷ js) (first, up) new = elim (Bool-cases (leb k j)) [
  | inl e ↦
      let less : k < j =
        let differ : k ≢ j = λ q. new (inl q) in omega (arith, (leb_iff k j).0 e) in
      rw e (
        (λ i a. elim a [ inl q ↦ omega arith | inr b ↦ let after = first i b in omega arith ]),
        (first, up),
      )
  | inr e ↦
      let less : j < k = let only = leb_iff k j in ground (arith, e) in
      rw e (
        (λ i a. elim ((insert_key-Among i k js).0 a) [ inl q ↦ omega arith | inr b ↦ first i b ]),
        insert_key-Ascending k js up (λ a. new (inr a)),
      )
]

pub sort-Ascending : (ks : List ℕ) → NoDup ks → Ascending (sort ks)
unfolding sort
sort-Ascending [] h = tt
sort-Ascending (k ∷ ks) (new, h) =
    insert_key-Ascending k (sort ks) (sort-Ascending ks h) (λ a. new ((sort-Among k ks).0 a))

pub Ascending-NoDup : (ks : List ℕ) → Ascending ks → NoDup ks
Ascending-NoDup [] up = tt
Ascending-NoDup (k ∷ ks) (first, up) =
    ((λ a. absurd (omega (arith, first k a))), Ascending-NoDup ks up)

insert_key-Sorted : (k : ℕ) (ks : List ℕ) → Sorted ks → Sorted (insert_key k ks)
insert_key-Sorted k [] up = ((λ j a. absurd a), tt)
insert_key-Sorted k (j ∷ js) (first, up) = elim (Bool-cases (leb k j)) [
  | inl e ↦
      let at_most = (leb_iff k j).0 e in
      rw e (
        (λ i a. elim a [ inl q ↦ omega arith | inr b ↦ let after = first i b in omega arith ]),
        (first, up),
      )
  | inr e ↦
      let less : j < k = let only = leb_iff k j in ground (arith, e) in
      rw e (
        (λ i a. elim ((insert_key-Among i k js).0 a) [ inl q ↦ omega arith | inr b ↦ first i b ]),
        insert_key-Sorted k js up,
      )
]

pub sort-Sorted : (ks : List ℕ) → Sorted (sort ks)
unfolding sort
sort-Sorted [] = tt
sort-Sorted (k ∷ ks) = insert_key-Sorted k (sort ks) (sort-Sorted ks)

pub Ascending-Sorted : (ks : List ℕ) → Ascending ks → Sorted ks
Ascending-Sorted [] up = tt
Ascending-Sorted (k ∷ ks) (first, up) =
    ((λ j a. let less = first j a in omega arith), Ascending-Sorted ks up)

module _ (hash : ℕ) where
  pub cut_key-equal : (js : List ℕ) → cut_key (hash ∷ js) hash ≡ js
  unfolding cut_key search
  cut_key-equal js = ground arith

  pub cut_key-less : (j : ℕ) (js : List ℕ) → hash < j → cut_key (j ∷ js) hash ≡ j ∷ js
  unfolding cut_key search
  cut_key-less j js h = ground arith

  pub cut_key-greater :
      (j : ℕ) (js : List ℕ) → j < hash → cut_key (j ∷ js) hash ≡ j ∷ cut_key js hash
  unfolding cut_key search
  cut_key-greater j js h = ground arith

order-cases : (a b : ℕ) → (a ≡ b) ⊎ ((a < b) ⊎ (b < a))
order-cases a b = ground arith

-- Cutting a key takes that key and no other.
pub cut_key-Among :
    (x hash : ℕ) (ks : List ℕ)
    → Ascending ks
    → Among x (cut_key ks hash) ↔ (Among x ks × (x ≢ hash))
unfolding cut_key search
cut_key-Among x hash [] up = ((λ a. absurd a), λ a. absurd a.0)
cut_key-Among x hash (j ∷ js) (first, up) = elim (order-cases j hash) [
  | inl same ↦ rw (ap (λ h. cut_key (j ∷ js) h) (sym same) ∙ cut_key-equal j js) (
    (λ b. let after = first x b in (inr b, omega arith)),
    (λ a. elim a.0 [ inl q ↦ absurd (a.1 (q ∙ same)) | inr b ↦ b ]),
  )
  | inr other ↦ elim other [
    | inl less ↦
        let ih = cut_key-Among x hash js up in
        rw (cut_key-greater hash j js less) (
          elim [ inl q ↦ (inl q, omega arith) | inr b ↦ (inr (ih.0 b).0, (ih.0 b).1) ],
          (λ a. elim a.0 [ inl q ↦ inl q | inr b ↦ inr (ih.1 (b, a.1)) ]),
        )
    | inr more ↦ rw (cut_key-less hash j js more) (
      (λ a. (a, elim a [ inl q ↦ omega arith | inr b ↦ let after = first x b in omega arith ])),
      (λ a. a.0),
    )
  ]
]

pub cut_key-Ascending : (hash : ℕ) (ks : List ℕ) → Ascending ks → Ascending (cut_key ks hash)
unfolding cut_key search
cut_key-Ascending hash [] up = tt
cut_key-Ascending hash (j ∷ js) (first, up) = elim (order-cases j hash) [
  | inl same ↦ rw (ap (λ h. cut_key (j ∷ js) h) (sym same) ∙ cut_key-equal j js) up
  | inr other ↦ elim other [
    | inl less ↦
        rw (cut_key-greater hash j js less)
          ((λ i a. first i ((cut_key-Among i hash js up).0 a).0), cut_key-Ascending hash js up)
    | inr more ↦ rw (cut_key-less hash j js more) (first, up)
  ]
]

pub Among-cases : (k : ℕ) (ks : List ℕ) → Among k ks ⊎ (¬ Among k ks)
Among-cases k [] = inr (λ a. a)
Among-cases k (j ∷ ks) = elim (Bool-cases (k == j)) [
  | inl e ↦ inl (inl ((==_iff k j).0 e))
  | inr e ↦ elim (Among-cases k ks) [
    | inl a ↦ inl (inr a)
    | inr na ↦ inr (elim [ inl q ↦ absurd (cc (e, (==_iff k j).1 q)) | inr a ↦ na a ])
  ]
]
