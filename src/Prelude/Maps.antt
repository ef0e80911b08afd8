-- ===== src/Prelude/Maps.antt =====
-- Go's maps as association lists with one entry for a key. `same` compares keys.
use Prim.Native.Nat.{ℕ, ◌+◌}
use mathlib.Core.Path.{◌≡◌, refl, sym, ap, ◌∙◌}
use mathlib.Core.Logic.{◌≢◌, ◌↔◌, ◌⊎◌, inl, inr}
use mathlib.Core.Bool.{Bool, true}
use mathlib.Core.Option.{Option, none, some}
use mathlib.Core.List.{List, [], ◌∷◌, ◌++◌}
use native.Mathlib.Omega.{arith}
use go_zero.Prelude.Tests.{if◌then◌else◌, Bool-cases, Option-cases}
use go_zero.Prelude.Lists.{length}

abbrev pub first_of {ℓ} : {V : Type ℓ} → Option V → Option V → Option V
first_of none o = o
first_of (some v) o = some v

-- Is there an entry?
abbrev pub present {ℓ} : {V : Type ℓ} → Option V → ℕ
present none = 0
present (some _) = 1

module _ {ℓ} {K V : Type ℓ} (same : K → K → Bool) where
  unfoldable pub lookup : K → List (K × V) → Option V
  lookup k [] = none
  lookup k ((j, v) ∷ m) = if same j k then some v else lookup k m

  unfoldable pub insert : K → V → List (K × V) → List (K × V)
  insert k v [] = (k, v) ∷ []
  insert k v ((j, w) ∷ m) = if same j k then (j, v) ∷ m else (j, w) ∷ insert k v m

  unfoldable pub erase : K → List (K × V) → List (K × V)
  erase k [] = []
  erase k ((j, w) ∷ m) = if same j k then erase k m else (j, w) ∷ erase k m

  -- `for k, v := range m { into[k] = v }`
  unfoldable pub copy_all : List (K × V) → List (K × V) → List (K × V)
  copy_all [] into = into
  copy_all ((k, v) ∷ m) into = copy_all m (insert k v into)

  -- Every key has one entry.
  abbrev pub OneEntry : List (K × V) → Type ℓ
  OneEntry [] = Unit
  OneEntry ((k, v) ∷ m) = (lookup k m ≡ none) × OneEntry m

  -- No key has entries in both.
  abbrev pub Disjoint : List (K × V) → List (K × V) → Type ℓ
  Disjoint m n = (k : K) → (lookup k m ≡ none) ⊎ (lookup k n ≡ none)

  pub lookup-append :
      (k : K) (m n : List (K × V)) → lookup k (m ++ n) ≡ first_of (lookup k m) (lookup k n)
  unfolding lookup
  lookup-append k [] n = refl
  lookup-append k ((j, v) ∷ m) n = elim (Bool-cases (same j k)) [
    | inl e ↦ rw e refl
    | inr e ↦ rw e (lookup-append k m n)
  ]

  module _ (same_iff : (a b : K) → (same a b ≡ true) ↔ (a ≡ b)) where
    pub lookup-insert :
        (j k : K) (v : V) (m : List (K × V))
        → lookup k (insert j v m) ≡ (if same j k then some v else lookup k m)
    unfolding lookup insert
    lookup-insert j k v [] = refl
    lookup-insert j k v ((i, w) ∷ m) =
        ground (arith, same_iff i j, same_iff i k, same_iff j k, lookup-insert j k v m)

    pub lookup-erase :
        (j k : K) (m : List (K × V))
        → lookup k (erase j m) ≡ (if same j k then none else lookup k m)
    unfolding lookup erase
    lookup-erase j k [] = ground arith
    lookup-erase j k ((i, w) ∷ m) =
        ground (arith, same_iff i j, same_iff i k, same_iff j k, lookup-erase j k m)

    -- What is left after a deletion was there before, under another key.
    pub erase-some :
        (j k : K) (v : V) (m : List (K × V))
        → lookup k (erase j m) ≡ some v
        → (j ≢ k) × (lookup k m ≡ some v)
    erase-some j k v m at = elim (Bool-cases (same j k)) [
      | inl e ↦ absurd (cc (at, rw e at (lookup-erase j k m)))
      | inr e ↦ ((λ x. cc (e, (same_iff j k).1 x)), sym (rw e at (lookup-erase j k m)) ∙ at)
    ]

    length-insert_new :
        (k : K) (v : V) (m : List (K × V))
        → lookup k m ≡ none
        → length (insert k v m) ≡ length m + 1
    unfolding lookup insert
    length-insert_new k v [] h = refl
    length-insert_new k v ((j, w) ∷ m) h = ground (arith, length-insert_new k v m)

    length-insert_old :
        (k : K) (v w : V) (m : List (K × V))
        → lookup k m ≡ some w
        → length (insert k v m) ≡ length m
    unfolding lookup insert
    length-insert_old k v w [] h = cc
    length-insert_old k v w ((j, u) ∷ m) h = ground (arith, length-insert_old k v w m)

    erase-new : (k : K) (m : List (K × V)) → lookup k m ≡ none → length (erase k m) ≡ length m
    unfolding lookup erase
    erase-new k [] h = refl
    erase-new k ((j, w) ∷ m) h = ground (arith, erase-new k m)

    erase-old :
        (k : K) (v : V) (m : List (K × V))
        → OneEntry m
        → lookup k m ≡ some v
        → length (erase k m) + 1 ≡ length m
    unfolding lookup erase
    erase-old k v [] one h = cc
    erase-old k v ((j, w) ∷ m) (new, one) h = elim (Bool-cases (same j k)) [
      | inl e ↦ rw e (
          ap (λ n. n + 1) (erase-new k m (ap (λ i. lookup i m) (sym ((same_iff j k).0 e)) ∙ new))
          ∙ omega arith)
      | inr e ↦ rw e (omega (arith, erase-old k v m one (rw (e, lookup) at h)))
    ]

    pub length-insert :
        (k : K) (v : V) (m : List (K × V))
        → length (insert k v m) + present (lookup k m) ≡ length m + 1
    length-insert k v m = elim (Option-cases (lookup k m)) [
      | inl free ↦ rw free (omega (arith, length-insert_new k v m free))
      | inr (w, held) ↦ rw held (omega (arith, length-insert_old k v w m held))
    ]

    pub length-erase :
        (k : K) (m : List (K × V))
        → OneEntry m
        → length (erase k m) + present (lookup k m) ≡ length m
    length-erase k m one = elim (Option-cases (lookup k m)) [
      | inl free ↦ rw free (omega (arith, erase-new k m free))
      | inr (w, held) ↦ rw held (erase-old k w m one held)
    ]

    -- Nothing is deleted where there is no entry.
    pub erase-none : (k : K) (m : List (K × V)) → lookup k m ≡ none → erase k m ≡ m
    unfolding lookup erase
    erase-none k [] h = refl
    erase-none k ((j, w) ∷ m) h = elim (Bool-cases (same j k)) [
      | inl e ↦ absurd (cc (rw (e, lookup) at h))
      | inr e ↦ rw e (ap (◌∷◌ (j, w)) (erase-none k m (rw (e, lookup) at h)))
    ]

    pub insert-OneEntry : (k : K) (v : V) (m : List (K × V)) → OneEntry m → OneEntry (insert k v m)
    unfolding lookup insert
    insert-OneEntry k v [] one = (refl, tt)
    insert-OneEntry k v ((j, w) ∷ m) (new, one) = elim (Bool-cases (same j k)) [
      | inl e ↦ rw (e, insert) (new, one)
      | inr e ↦
          rw (e, insert)
            (
              lookup-insert k j v m ∙ ground (arith, same_iff j k, same_iff k j),
              insert-OneEntry k v m one,
            )
    ]

    pub erase-OneEntry : (k : K) (m : List (K × V)) → OneEntry m → OneEntry (erase k m)
    unfolding lookup erase
    erase-OneEntry k [] one = tt
    erase-OneEntry k ((j, w) ∷ m) (new, one) = elim (Bool-cases (same j k)) [
      | inl e ↦ rw (e, erase) (erase-OneEntry k m one)
      | inr e ↦ rw (e, erase) (lookup-erase k j m ∙ ground (arith, new), erase-OneEntry k m one)
    ]

    pub copy_all-OneEntry : (m into : List (K × V)) → OneEntry into → OneEntry (copy_all m into)
    unfolding copy_all
    copy_all-OneEntry [] into one = one
    copy_all-OneEntry ((k, v) ∷ m) into one =
        copy_all-OneEntry m (insert k v into) (insert-OneEntry k v into one)

    pub lookup-copy_all :
        (k : K) (m into : List (K × V))
        → OneEntry m
        → lookup k (copy_all m into) ≡ first_of (lookup k m) (lookup k into)
    unfolding copy_all lookup
    lookup-copy_all k [] into one = refl
    lookup-copy_all k ((j, v) ∷ m) into (new, one) = elim (Bool-cases (same j k)) [
      | inl e ↦
          lookup-copy_all k m (insert j v into) one
          ∙ rw (lookup-insert j k v into, e, ap (λ i. lookup i m) (sym ((same_iff j k).0 e)) ∙ new)
              refl
      | inr e ↦ lookup-copy_all k m (insert j v into) one ∙ rw (lookup-insert j k v into, e) refl
    ]

    pub length-copy_all :
        (m into : List (K × V))
        → OneEntry m
        → Disjoint m into
        → length (copy_all m into) ≡ length m + length into
    unfolding copy_all lookup
    length-copy_all [] into one apart = omega arith
    length-copy_all ((k, v) ∷ m) into (new, one) apart =
        length-copy_all m (insert k v into) one still
        ∙ omega (arith, length-insert_new k v into fresh)
      where
        fresh : lookup k into ≡ none
        fresh = elim (apart k) [
          | inr free ↦ free
          | inl bad ↦ absurd (cc (rw (lookup, (same_iff k k).1 refl) at bad))
        ]

        still : Disjoint m (insert k v into)
        still i = elim (Bool-cases (same k i)) [
          | inl e ↦ inl (ap (λ x. lookup x m) (sym ((same_iff k i).0 e)) ∙ new)
          | inr e ↦ elim (apart i) [
            | inl free ↦ inl (rw (e, lookup) at free)
            | inr free ↦ inr (lookup-insert k i v into ∙ rw e free)
          ]
        ]

    pub append-OneEntry :
        (m n : List (K × V)) → OneEntry m → OneEntry n → Disjoint m n → OneEntry (m ++ n)
    unfolding lookup
    append-OneEntry [] n one_m one_n apart = one_n
    append-OneEntry ((k, v) ∷ m) n (new, one_m) one_n apart =
        (lookup-append k m n ∙ rw new free, append-OneEntry m n one_m one_n later)
      where
        free : lookup k n ≡ none
        free = elim (apart k) [
          | inr e ↦ e
          | inl bad ↦ absurd (cc (rw (lookup, (same_iff k k).1 refl) at bad))
        ]

        later : Disjoint m n
        later j = elim (apart j) [
          | inr e ↦ inr e
          | inl e ↦ elim (Bool-cases (same k j)) [
            | inl h ↦ absurd (cc (rw (h, lookup) at e))
            | inr h ↦ inl (rw (h, lookup) at e)
          ]
        ]
