-- ===== src/Collection/Cache/Ordered.antt =====
-- The state of `keyLru` follows the entries in the order of use, and its operations keep that.
use go_zero.Prelude.{
  ℕ, suc, ◌<◌, ◌≡◌, ◌↔◌, inl, inr, refl, sym, ap, ◌∙◌, subst, ◌==◌, Bool, true, false, Bool-cases,
  List, ◌∷◌, Option, none, some, eq_of_some, arith, lookup, insert, erase, present, OneEntry,
  lookup-erase, lookup-insert, erase-OneEntry, All, ==-self,
}
use go_zero.Collection.Cache.{KeyLru, remove_id, move_to_front}
use go_zero.Collection.Cache.Recent.{
  Aligned, Coherent, remove_id-Aligned, remove_id-All, new-Coherent, All-lt_suc, same_element,
}

more : (n i : ℕ) → i < n → (n == i) ≡ false
more n i h = ground arith

pub absent : {V : Type 0} (x : Option V) → present x ≡ 0 → x ≡ none
absent none h = refl
absent (some v) h = absurd (omega arith)

module _ {K V : Type 0} (same : K → K → Bool)
    (same_iff : (a b : K) → (same a b ≡ true) ↔ (a ≡ b)) where
  -- `klru` has the keys of the entries `sp`, latest first.
  pub record Ordered (klru : KeyLru K) (sp : List (K × V)) : Type 0 where
    pub aligned : Aligned same same_iff klru.evicts sp
    pub once : OneEntry same sp
    pub known :
        (k : K) (id : ℕ)
        → lookup same k klru.elements ≡ some id
        → Coherent same id k klru.evicts × (id < klru.next_id)
    pub there : (k : K) → present (lookup same k klru.elements) ≡ present (lookup same k sp)
    pub fresh : All (λ e. e.id < klru.next_id) klru.evicts

  lookup-erase_self : (k : K) (sp : List (K × V)) → lookup same k (erase same k sp) ≡ none
  lookup-erase_self k sp = lookup-erase same same_iff k k sp ∙ rw ((same_iff k k).1 refl) refl

  module _ (klru : KeyLru K) (sp : List (K × V)) (o : Ordered klru sp) (key : K) where
    -- `removeElement`
    pub remove-Ordered :
        (id : ℕ)
        → Coherent same id key klru.evicts
        → Ordered
            (record klru {
              evicts = remove_id id klru.evicts;
              elements = erase same key klru.elements;
            })
            (erase same key sp)
    remove-Ordered id co = record {
      aligned = remove_id-Aligned same same_iff id key klru.evicts sp o.aligned co;
      once = erase-OneEntry same same_iff key sp o.once;
      known = λ k i at. elim (Bool-cases (same key k)) [
        | inl e ↦ absurd (cc (rw e at (sym at ∙ lookup-erase same same_iff key k klru.elements)))
        | inr e ↦
            let was =
              o.known k i (sym (lookup-erase same same_iff key k klru.elements ∙ rw e refl) ∙ at) in
            (remove_id-All _ id klru.evicts was.0, was.1)
      ];
      there = λ k.
          ap present (lookup-erase same same_iff key k klru.elements)
          ∙ elim (Bool-cases (same key k)) [ inl e ↦ rw e refl | inr e ↦ rw e (o.there k) ]
          ∙ sym (ap present (lookup-erase same same_iff key k sp));
      fresh = remove_id-All _ id klru.evicts o.fresh;
    }

    -- `MoveToFront`
    pub front-Ordered :
        (id : ℕ) (v : V)
        → lookup same key klru.elements ≡ some id
        → Ordered
            (record klru { evicts = move_to_front (record { id = id; value = key }) klru.evicts })
            ((key, v) ∷ erase same key sp)
    unfolding move_to_front lookup
    front-Ordered id v at =
        let co = o.known key id at in
        record {
          aligned = (refl, remove_id-Aligned same same_iff id key klru.evicts sp o.aligned co.0);
          once = (lookup-erase_self key sp, erase-OneEntry same same_iff key sp o.once);
          known = λ k i here.
              let was = o.known k i here in
              (
                (
                  same_element same same_iff id i key k klru.evicts sp o.aligned
                      (sym (o.there key) ∙ ap present at) co.0 was.0,
                  remove_id-All _ id klru.evicts was.0,
                ),
                was.1,
              );
          there = λ k. elim (Bool-cases (same key k)) [
            | inl e ↦ rw e (
                ap present
                  (subst (λ x. lookup same x klru.elements ≡ some id) ((same_iff key k).0 e) at))
            | inr e ↦
                rw e
                  (o.there k ∙ sym (ap present (lookup-erase same same_iff key k sp ∙ rw e refl)))
          ];
          fresh = (co.1, remove_id-All _ id klru.evicts o.fresh);
        }

    -- `PushFront`
    pub push-Ordered :
        (v : V)
        → lookup same key klru.elements ≡ none
        → Ordered
            (record klru {
              evicts = record { id = klru.next_id; value = key } ∷ klru.evicts;
              elements = insert same key klru.next_id klru.elements;
              next_id = suc klru.next_id;
            })
            ((key, v) ∷ sp)
    unfolding lookup
    push-Ordered v new =
        let new_in : lookup same key sp ≡ none =
          absent (lookup same key sp) (sym (o.there key) ∙ ap present new) in
        let n = klru.next_id in
        let fits = new-Coherent same same_iff n key klru.evicts sp o.aligned o.fresh new_in in
        record {
          aligned = (refl, o.aligned);
          once = (new_in, o.once);
          known = λ k i here. elim (Bool-cases (same key k)) [
            | inl e ↦
                let put : lookup same k (insert same key n klru.elements) ≡ some n =
                  lookup-insert same same_iff key k n klru.elements ∙ rw e refl in
                let is : n ≡ i = eq_of_some (sym put ∙ here) in
                (
                  (
                    ap (λ x. n == x) (sym is) ∙ ==-self n ∙ sym e,
                    subst (λ x. Coherent same x k klru.evicts) is
                        (subst (λ x. Coherent same n x klru.evicts) ((same_iff key k).0 e) fits),
                  ),
                  omega arith,
                )
            | inr e ↦
                let was =
                  o.known k i
                    (sym (lookup-insert same same_iff key k n klru.elements ∙ rw e refl) ∙ here) in
                ((more n i was.1 ∙ sym e, was.0), omega arith)
          ];
          there = λ k.
              ap present (lookup-insert same same_iff key k n klru.elements)
              ∙ elim (Bool-cases (same key k)) [ inl e ↦ rw e refl | inr e ↦ rw e (o.there k) ];
          fresh = (omega arith, All-lt_suc n klru.evicts o.fresh);
        }
