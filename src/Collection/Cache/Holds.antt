-- ===== src/Collection/Cache/Holds.antt =====
-- What `add` makes of the cache and its list of evicts.
use go_zero.Prelude.{
  ℕ, suc, ◌≤◌, ◌<◌, ◌≡◌, ◌↔◌, inl, inr, refl, sym, ap, ◌∙◌, subst, ◌==◌, ltb, if◌then◌else◌, Bool,
  true, Bool-cases, List, ◌∷◌, none, some, Option-cases, arith, length, take, lookup, insert, erase,
  present, length-erase, ltb_iff, ==_iff, erase-none,
}
use go_zero.Collection.Cache.{
  Element, KeyLru, Cache, remove_id, move_to_front, back, on_evict, remove_element, remove_oldest,
  add_key,
}
use go_zero.Collection.Cache.Recent.{Coherent, back-last, length-Aligned}
use go_zero.Collection.Cache.Agrees.{Agrees, erase-Agrees, take-all, length-take_one_less, back-All}
use go_zero.Collection.Cache.Ordered.{absent, Ordered, remove-Ordered, front-Ordered, push-Ordered}

-- The list with a new element at its front.
abbrev with_key : {K : Type 0} → (K → K → Bool) → KeyLru K → K → KeyLru K
with_key same klru key = record klru {
  evicts = record { id = klru.next_id; value = key } ∷ klru.evicts;
  elements = insert same key klru.next_id klru.elements;
  next_id = suc klru.next_id;
}

module _ {K V : Type 0} (same : K → K → Bool)
    (same_iff : (a b : K) → (same a b ≡ true) ↔ (a ≡ b)) where
  pub record Holds (limit : ℕ) (c : Cache K V) (sp : List (K × V)) : Type 0 where
    pub klru : KeyLru K
    pub has_lru : c.lru_cache ≡ some klru
    pub limited : klru.limit ≡ limit
    pub ordered : Ordered same same_iff klru sp
    pub agrees : Agrees same same_iff c.data_of sp
    pub bounded : length sp ≤ limit

  -- Taking one element out of the list and the maps.
  pub remove_element-Holds :
      (limit : ℕ) (c : Cache K V) (klru : KeyLru K) (e : Element K) (sp : List (K × V))
      → klru.limit ≡ limit
      → Ordered same same_iff klru sp
      → Agrees same same_iff (erase same e.value c.data_of) (erase same e.value sp)
      → Coherent same e.id e.value klru.evicts
      → length (erase same e.value sp) ≤ limit
      → Holds limit (remove_element same c klru e) (erase same e.value sp)
  unfolding remove_element on_evict
  remove_element-Holds limit c klru e sp limited o a co fits = record {
    klru = record klru {
      evicts = remove_id e.id klru.evicts;
      elements = erase same e.value klru.elements;
    };
    has_lru = refl;
    limited = limited;
    ordered = remove-Ordered same same_iff klru sp o e.value e.id co;
    agrees = a;
    bounded = fits;
  }

  Coherent-back :
      (klru : KeyLru K) (sp : List (K × V)) (b : Element K)
      → Ordered same same_iff klru sp
      → back klru.evicts ≡ some b
      → present (lookup same b.value sp) ≡ 1
      → Coherent same b.id b.value klru.evicts
  Coherent-back klru sp b o last in_sp = elim (Option-cases (lookup same b.value klru.elements)) [
    | inl none_there ↦
        let gone = ap present none_there in let same_there = o.there b.value in absurd (omega arith)
    | inr (i, at) ↦
        let co = (o.known b.value i at).0 in
        let is : (b.id == i) ≡ same b.value b.value =
          back-All (λ e. (e.id == i) ≡ same e.value b.value) b klru.evicts co last in
        subst (λ x. Coherent same x b.value klru.evicts)
          (sym ((==_iff b.id i).0 (is ∙ (same_iff b.value b.value).1 refl))) co
  ]

  -- A new key at the front may push the last one out.
  pushed :
      (limit : ℕ) (c : Cache K V) (klru : KeyLru K) (sp : List (K × V)) (key : K) (v : V)
      → klru.limit ≡ limit
      → length sp ≤ limit
      → Ordered same same_iff klru sp
      → Agrees same same_iff c.data_of ((key, v) ∷ sp)
      → lookup same key klru.elements ≡ none
      → Holds limit
          (if ltb klru.limit (length (with_key same klru key).evicts)
            then remove_oldest same c (with_key same klru key)
            else record c { lru_cache = some (with_key same klru key) })
          (take limit ((key, v) ∷ sp))
  unfolding remove_oldest
  pushed limit c klru sp key v limited bounded o a new =
      let klru' = with_key same klru key in
      let sp' : List (K × V) = (key, v) ∷ sp in
      let o' = push-Ordered same same_iff klru sp o key v new in
      let long = length-Aligned same same_iff klru.evicts sp o.aligned in
      elim (Bool-cases (ltb klru.limit (length klru'.evicts))) [
        | inl more ↦
            let over = (ltb_iff klru.limit (length klru'.evicts)).0 more in
            let size : length sp' ≡ suc limit = omega arith in
            let (b, is, cut, there) =
              back-last same same_iff limit klru'.evicts sp' o'.aligned o'.once size in
            let left = length-take_one_less limit sp' size in
            let one = ap length cut in
            rw (more, is, remove_oldest)
              (subst (λ x. Holds limit (remove_element same c klru' b) x) cut
                (remove_element-Holds limit c klru' b sp' limited o'
                  (erase-Agrees same same_iff c.data_of sp' a o'.once b.value)
                  (Coherent-back klru' sp' b o' is there) (omega arith)))
        | inr fewer ↦
            let fits : length sp' ≤ limit =
              let test = ltb_iff klru.limit (length klru'.evicts) in
              ground (arith, fewer, limited, long) in
            rw (fewer, take-all limit sp' fits)
              (record {
                klru = klru';
                has_lru = refl;
                limited = limited;
                ordered = o';
                agrees = a;
                bounded = fits;
              })
      ]

  -- `keyLru.add` of a key whose data is set.
  pub add_key-Holds :
      (limit : ℕ) (c : Cache K V) (klru : KeyLru K) (sp : List (K × V)) (key : K) (v : V)
      → 0 < limit
      → klru.limit ≡ limit
      → length sp ≤ limit
      → Ordered same same_iff klru sp
      → Agrees same same_iff c.data_of ((key, v) ∷ erase same key sp)
      → Holds limit (add_key same c klru key) (take limit ((key, v) ∷ erase same key sp))
  unfolding add_key remove_oldest
  add_key-Holds limit c klru sp key v positive limited bounded o a =
      elim (Option-cases (lookup same key klru.elements)) [
        | inr (id, at) ↦
            let there = ap present at in
            let same_there = o.there key in
            let cut = length-erase same same_iff key sp o.once in
            let fits : length ((key, v) ∷ erase same key sp) ≤ limit = omega arith in
            rw (take-all limit ((key, v) ∷ erase same key sp) fits, at, add_key)
              (record {
                klru = record klru {
                  evicts = move_to_front (record { id = id; value = key }) klru.evicts;
                };
                has_lru = refl;
                limited = limited;
                ordered = front-Ordered same same_iff klru sp o key id v at;
                agrees = a;
                bounded = fits;
              })
        | inl new ↦
            let in_sp : lookup same key sp ≡ none =
              absent (lookup same key sp) (sym (o.there key) ∙ ap present new) in
            let all = erase-none same same_iff key sp in_sp in
            rw (all, new, add_key)
              (pushed limit c klru sp key v limited bounded o
                (subst (λ x. Agrees same same_iff c.data_of ((key, v) ∷ x)) all a) new)
      ]
