-- ===== src/Hash/Successor.antt =====
-- The search in sorted keys finds the successor of a hash.
use go_zero.Prelude.{
  ℕ, zero, suc, ◌%◌, ◌≤◌, ◌<◌, ◌≡◌, ◌⊎◌, inl, inr, refl, sym, ap, ◌∙◌, leb, ◌==◌, Bool-cases, List,
  [], ◌∷◌, length, get_or, arith, Among, leb_iff, mod-eq_of_lt, subst, false,
}
use native.Mathlib.Nat.{mod_self}
use go_zero.Hash.{search}
use go_zero.Hash.Keys.{Sorted}

-- The key that follows `hash` on the ring: the least one that is at least `hash`, or the least of
-- all where there is none.
pub data IsSuccessor (ks : List ℕ) (hash k : ℕ) : Type 0 where
  ahead : Among k ks → hash ≤ k → ((j : ℕ) → Among j ks → hash ≤ j → k ≤ j) → IsSuccessor ks hash k
  around :
      Among k ks
      → ((j : ℕ) → Among j ks → j < hash)
      → ((j : ℕ) → Among j ks → k ≤ j)
      → IsSuccessor ks hash k

module _ (hash : ℕ) where
  get_or-Among : (ks : List ℕ) (i : ℕ) → i < length ks → Among (get_or ks i 0) ks
  get_or-Among [] i h = elim h [ ]
  get_or-Among (k ∷ ks) zero h = inl refl
  get_or-Among (k ∷ ks) (suc i) h = inr (get_or-Among ks i (omega arith))

  -- What the search finds.
  abbrev IsFirst : List ℕ → ℕ → Type 0
  IsFirst ks i =
      ((i < length ks)
        × (hash ≤ get_or ks i 0)
        × ((j : ℕ) → Among j ks → hash ≤ j → get_or ks i 0 ≤ j))
      ⊎ ((i ≡ length ks) × ((j : ℕ) → Among j ks → j < hash))

  search-IsFirst : (ks : List ℕ) → Sorted ks → IsFirst ks (search ks hash)
  unfolding search
  search-IsFirst [] up = inr (refl, λ j a. absurd a)
  search-IsFirst (k ∷ ks) (first, up) = elim (Bool-cases (leb hash k)) [
    | inl e ↦
        let at = (leb_iff hash k).0 e in
        rw e (
          inl (
            omega arith,
            at,
            (λ j a h. elim a [
              | inl q ↦ omega arith
              | inr b ↦ let after = first j b in omega arith
            ]),
          ))
    | inr e ↦
        let less : k < hash = let only = leb_iff hash k in ground (arith, e) in
        rw e (elim (search-IsFirst ks up) [
          | inl (within, at, least) ↦ inl (
            omega arith,
            at,
            (λ j a h. elim a [ inl q ↦ absurd (omega arith) | inr b ↦ least j b h ]),
          )
          | inr (none_left, below) ↦
              inr (ap suc none_left, (λ j a. elim a [ inl q ↦ omega arith | inr b ↦ below j b ]))
        ])
  ]

  first-least : (ks : List ℕ) → Sorted ks → (j : ℕ) → Among j ks → get_or ks 0 0 ≤ j
  first-least [] up j a = absurd a
  first-least (k ∷ ks) (first, up) j a = elim a [
    | inl q ↦ omega arith
    | inr b ↦ let after = first j b in omega arith
  ]

  pub search-IsSuccessor :
      (ks : List ℕ)
      → Sorted ks
      → 0 < length ks
      → IsSuccessor ks hash (get_or ks (search ks hash % length ks) 0)
  search-IsSuccessor ks up some_key = elim (search-IsFirst ks up) [
    | inl (within, at, least) ↦
        subst (λ i. IsSuccessor ks hash (get_or ks i 0)) (sym (mod-eq_of_lt within))
          (ahead (get_or-Among ks (search ks hash) within) at least)
    | inr (none_left, below) ↦
        subst (λ i. IsSuccessor ks hash (get_or ks i 0))
          (sym (ap (λ i. i % length ks) none_left ∙ mod_self (length ks)))
          (around (get_or-Among ks 0 some_key) below (first-least ks up))
  ]

-- The successor is one key.
pub IsSuccessor-unique :
    (ks : List ℕ) (hash k k' : ℕ) → IsSuccessor ks hash k → IsSuccessor ks hash k' → k ≡ k'
IsSuccessor-unique ks hash k k' (ahead a h least) (ahead a' h' least') =
    let one = least k' a' h' in let two = least' k a h in omega arith
IsSuccessor-unique ks hash k k' (ahead a h least) (around a' below least') =
    let wrong = below k a in absurd (omega arith)
IsSuccessor-unique ks hash k k' (around a below least) (ahead a' h' least') =
    let wrong = below k' a' in absurd (omega arith)
IsSuccessor-unique ks hash k k' (around a below least) (around a' below' least') =
    let one = least k' a' in let two = least' k a in omega arith

-- Where keys are taken away, a successor that is left stays the successor.
pub IsSuccessor-fewer :
    (ks ks' : List ℕ) (hash k : ℕ)
    → ((j : ℕ) → Among j ks → Among j ks')
    → Among k ks
    → IsSuccessor ks' hash k
    → IsSuccessor ks hash k
IsSuccessor-fewer ks ks' hash k within a (ahead a' h least) =
    ahead a h (λ j b. least j (within j b))
IsSuccessor-fewer ks ks' hash k within a (around a' below least) =
    around a (λ j b. below j (within j b)) (λ j b. least j (within j b))

pub Among-successor : (ks : List ℕ) (hash k : ℕ) → IsSuccessor ks hash k → Among k ks
Among-successor ks hash k (ahead a h l) = a
Among-successor ks hash k (around a h l) = a

pub length-Among : (k : ℕ) (ks : List ℕ) → Among k ks → 0 < length ks
length-Among k [] a = absurd a
length-Among k (j ∷ ks) a = omega arith

pub positive : (n : ℕ) → 0 < n → (n == 0) ≡ false
positive n h = ground arith
