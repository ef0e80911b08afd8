-- ===== src/Hash/Nearest.antt =====
-- `Get`: the node of the successor of a hash, and which values move where points come or go.
use go_zero.Prelude.{
  ℕ, ◌%◌, ◌≡◌, ◌⊎◌, inl, inr, refl, sym, ap, ◌∙◌, List, [], ◌∷◌, Bytes, length, get_or, arith,
  Among, eq_of_some, subst,
}
use go_zero.Hash.{ConsistentHash, found, missing, nodes_at, choose, get, search}
use go_zero.Hash.Keys.{Ascending, Ascending-Sorted}
use go_zero.Hash.Successor.{
  IsSuccessor, search-IsSuccessor, IsSuccessor-unique, IsSuccessor-fewer, Among-successor,
  length-Among, positive,
}
use go_zero.Hash.Points.{length-some, length-free, Spread, Owner, Fewer}
use go_zero.Hash.Gone.{Sound}

module _ {A : Type 0} (hash_func : Bytes → ℕ) (repr inner_repr : A → Bytes) (itoa : ℕ → Bytes)
    (Used : Bytes → Type 0) where
  module _ (h : ConsistentHash A) (sound : Sound hash_func repr itoa Used h) (v : A) where
    -- `Get` finds the node of the successor.
    pub get-found :
        (k : ℕ)
        → IsSuccessor h.keys (hash_func (repr v)) k
        → (o : Owner hash_func repr itoa Used h k)
        → get hash_func repr inner_repr h v ≡ found o.node
    unfolding get choose nodes_at
    get-found k next o =
        let hash = hash_func (repr v) in
        let some_key = length-Among k h.keys (Among-successor h.keys hash k next) in
        let some_point = length-some k h.ring (o.node ∷ []) o.alone in
        let at =
          IsSuccessor-unique h.keys hash (get_or h.keys (search h.keys hash % length h.keys) 0) k
            (search-IsSuccessor hash h.keys (Ascending-Sorted h.keys sound.up) some_key) next in
        rw
          (
            positive (length h.ring) some_point,
            positive (length h.keys) some_key,
            at,
            o.alone,
            nodes_at,
          )
          refl

    pub get-missing : h.keys ≡ [] → get hash_func repr inner_repr h v ≡ missing
    unfolding get
    get-missing e =
        rw (length-free h.ring (λ k. sound.placed.free k (λ a. subst (Among k) e a))) refl

  -- A key and its owner are there, or no key is.
  pub get-cases :
      (h : ConsistentHash A)
      → Sound hash_func repr itoa Used h
      → (v : A)
      → (h.keys ≡ [])
        ⊎ ((k : ℕ) × IsSuccessor h.keys (hash_func (repr v)) k × Owner hash_func repr itoa Used h k)
  get-cases h sound v = cases h.keys sound.up (λ k a. sound.placed.owned k a)
    where
      cases :
          (ks : List ℕ)
          → Ascending ks
          → ((k : ℕ) → Among k ks → Owner hash_func repr itoa Used h k)
          → (ks ≡ [])
            ⊎ ((k : ℕ) × IsSuccessor ks (hash_func (repr v)) k × Owner hash_func repr itoa Used h k)
      cases [] up owned = inl refl
      cases (j ∷ js) up owned =
          let next =
            search-IsSuccessor (hash_func (repr v)) (j ∷ js) (Ascending-Sorted (j ∷ js) up)
              (omega arith) in
          inr (_, next, owned _ (Among-successor (j ∷ js) (hash_func (repr v)) _ next))

  -- Where points of one node go, a value stays with its node, or it was with that node.
  pub get-Fewer :
      (s : Bytes) (h h' : ConsistentHash A) (v : A)
      → Sound hash_func repr itoa Used h
      → Sound hash_func repr itoa Used h'
      → Fewer hash_func repr itoa Used s h h'
      → Spread hash_func repr itoa Used h.replicas
      → Used s
      → (get hash_func repr inner_repr h' v ≡ get hash_func repr inner_repr h v)
        ⊎ ((n : A) × (get hash_func repr inner_repr h v ≡ found n) × (repr n ≡ s))
  get-Fewer s h h' v sound sound' fewer spread used = elim (get-cases h sound v) [
    | inl e ↦ inl (
        get-missing h' sound' v (no_keys h'.keys (λ k a. subst (Among k) e (fewer.still k a)))
        ∙ sym (get-missing h sound v e))
    | inr (k, next, o) ↦
        let a = Among-successor h.keys (hash_func (repr v)) k next in
        elim (fewer.rest k a) [
          | inl a' ↦
              let o' = sound'.placed.owned k a' in
              let next' =
                IsSuccessor-fewer h'.keys h.keys (hash_func (repr v)) k fewer.still a' next in
              let same = single (eq_of_some (sym o'.alone ∙ fewer.unchanged k a' ∙ o.alone)) in
              inl (
                get-found h' sound' v k next' o'
                ∙ ap found same
                ∙ sym (get-found h sound v k next o))
          | inr (j, within, at) ↦ inr (
            o.node,
            get-found h sound v k next o,
            (spread (repr o.node) s o.replica j o.used used o.within within (o.hashed ∙ sym at)).0,
          )
        ]
  ]
    where
      no_keys : (ks : List ℕ) → ((k : ℕ) → Among k ks → ⊥) → ks ≡ []
      no_keys [] h = refl
      no_keys (k ∷ ks) h = absurd (h k (inl refl))

      single : {a b : A} → (a ∷ []) ≡ (b ∷ []) → a ≡ b
      single e = cc
