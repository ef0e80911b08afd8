-- ===== src/Hash/Shared.antt =====
-- The ring after additions of new nodes, where points of different nodes may have one hash.
use go_zero.Prelude.{
  ℕ, zero, suc, ◌<◌, ◌≡◌, ◌⊎◌, inl, inr, refl, sym, ◌∙◌, ltb, ◌==◌, if◌then◌else◌, Bool-cases,
  false, List, [], ◌∷◌, ◌++◌, none, some, Bytes, bytes_eq, bytes_eq_iff, length, get_or, arith,
  lookup, lookup-insert, Among, Among-append, All, ==_iff, subst, length-append, mod-lt,
}
use go_zero.Hash.{
  placeholder, ConsistentHash, found, nodes_at, point, contains_node, add_node, remove, add_point,
  add_points, sort_keys, add_with_replicas, choose,
}
use go_zero.Hash.Keys.{Among-cases, Sorted, sort-Sorted, sort-Among}
use go_zero.Hash.Points.{differ}

All-append : {A : Type 0} (P : A → Type 0) (xs ys : List A) → All P xs → All P ys → All P (xs ++ ys)
All-append P [] ys h k = k
All-append P (x ∷ xs) ys (p, h) k = (p, All-append P xs ys h k)

All-get_or :
    {A : Type 0} (P : A → Type 0) (xs : List A) (i : ℕ) (d : A)
    → All P xs
    → i < length xs
    → P (get_or xs i d)
All-get_or P [] i d h lt = absurd (omega arith)
All-get_or P (x ∷ xs) zero d (p, h) lt = p
All-get_or P (x ∷ xs) (suc i) d (p, h) lt = All-get_or P xs i d h (omega arith)

module _ {A : Type 0} (hash_func : Bytes → ℕ) (repr inner_repr : A → Bytes) where
  -- `Get` chooses a node of the point, where there is one.
  pub choose-All :
      (P : A → Type 0) (nodes : List A) (v : A)
      → 0 < length nodes
      → All P nodes
      → (n : A) × (choose hash_func repr inner_repr nodes v ≡ found n) × P n
  unfolding choose
  choose-All P [] v some_node h = absurd (omega arith)
  choose-All P (x ∷ []) v some_node (p, h) = (x, refl, p)
  choose-All P (x ∷ y ∷ nodes) v some_node h = (
    _,
    refl,
    All-get_or P (x ∷ y ∷ nodes) _ x h (mod-lt (hash_func (inner_repr v)) (omega arith)),
  )

module _ {A : Type 0} (hash_func : Bytes → ℕ) (repr : A → Bytes) (itoa : ℕ → Bytes) where
  -- A node that is contained and has the point `k`.
  abbrev pub Belongs : ConsistentHash A → ℕ → A → Type 0
  Belongs h k n =
      (lookup bytes_eq (repr n) h.nodes ≡ some placeholder)
      × (i : ℕ) × (point hash_func itoa (repr n) i ≡ k)

  pub record Held (h : ConsistentHash A) (k : ℕ) : Type 0 where
    pub nodes : List A
    pub at : lookup ◌==◌ k h.ring ≡ some nodes
    pub some_node : 0 < length nodes
    pub belong : All (Belongs h k) nodes

  pub record Pointed (h : ConsistentHash A) : Type 0 where
    pub held : (k : ℕ) → Among k h.keys → Held h k
    pub free : (k : ℕ) → ¬ Among k h.keys → lookup ◌==◌ k h.ring ≡ none

  module _ (h : ConsistentHash A) (node : A) (i : ℕ) (pointed : Pointed h)
      (known : lookup bytes_eq (repr node) h.nodes ≡ some placeholder) where
    abbrev new_key : ℕ
    new_key = point hash_func itoa (repr node) i

    before-Belongs : All (Belongs h new_key) (nodes_at h.ring new_key)
    unfolding nodes_at
    before-Belongs = elim (Among-cases new_key h.keys) [
      | inl a ↦ let there = pointed.held new_key a in rw (there.at, nodes_at) there.belong
      | inr gone ↦ rw (pointed.free new_key gone, nodes_at) tt
    ]

    add_point-Held :
        (k : ℕ) → (new_key ≡ k) ⊎ Among k h.keys → Held (add_point hash_func repr itoa h node i) k
    unfolding add_point
    add_point-Held k where_k = elim (Bool-cases (new_key == k)) [
      | inl e ↦
          let before = nodes_at h.ring new_key in
          let size = length-append before (node ∷ []) in
          record {
            nodes = before ++ (node ∷ []);
            at = lookup-insert ◌==◌ ==_iff new_key k (before ++ (node ∷ [])) h.ring ∙ rw e refl;
            some_node = omega arith;
            belong =
                subst (λ x. All (Belongs h x) (before ++ (node ∷ []))) ((==_iff new_key k).0 e)
                  (All-append (Belongs h new_key) before (node ∷ []) before-Belongs
                    ((known, i, refl), tt));
          }
      | inr e ↦ elim where_k [
        | inl q ↦ absurd (cc (e, (==_iff new_key k).1 q))
        | inr a ↦
            let there = pointed.held k a in
            record {
              nodes = there.nodes;
              at = lookup-insert ◌==◌ ==_iff new_key k _ h.ring ∙ rw e there.at;
              some_node = there.some_node;
              belong = there.belong;
            }
      ]
    ]

    add_point-Pointed : Pointed (add_point hash_func repr itoa h node i)
    unfolding add_point
    add_point-Pointed = record {
      held = λ k a. add_point-Held k (elim ((Among-append k h.keys (new_key ∷ [])).0 a) [
        | inl b ↦ inr b
        | inr c ↦ elim c [ inl q ↦ inl (sym q) | inr d ↦ absurd d ]
      ]);
      free = λ k gone.
          lookup-insert ◌==◌ ==_iff new_key k _ h.ring
          ∙ rw
              (differ new_key k
                (λ q. gone ((Among-append k h.keys (new_key ∷ [])).1 (inr (inl (sym q))))))
              (pointed.free k (λ a. gone ((Among-append k h.keys (new_key ∷ [])).1 (inl a))));
    }

  add_points-Pointed :
      (n i : ℕ) (h : ConsistentHash A) (node : A)
      → Pointed h
      → lookup bytes_eq (repr node) h.nodes ≡ some placeholder
      → Pointed (add_points hash_func repr itoa h node i n)
  unfolding add_points add_point
  add_points-Pointed zero i h node pointed known = pointed
  add_points-Pointed (suc n) i h node pointed known =
      add_points-Pointed n (suc i) (add_point hash_func repr itoa h node i) node
        (add_point-Pointed h node i pointed known) known

  module _ (h : ConsistentHash A) (pointed : Pointed h) where
    add_node-Pointed : (s : Bytes) → Pointed (add_node h s)
    unfolding add_node
    add_node-Pointed s = record {
      held = λ k a.
          let there = pointed.held k a in
          record {
            nodes = there.nodes;
            at = there.at;
            some_node = there.some_node;
            belong = still k there.nodes there.belong;
          };
      free = pointed.free;
    }
      where
        still :
            (k : ℕ) (nodes : List A)
            → All (Belongs h k) nodes
            → All (Belongs (add_node h s) k) nodes
        still k [] all = tt
        still k (n ∷ nodes) ((known, i, at), all) = (
          (
            lookup-insert bytes_eq bytes_eq_iff s (repr n) placeholder h.nodes
                ∙ elim (Bool-cases (bytes_eq s (repr n))) [
                  | inl e ↦ rw e refl
                  | inr e ↦ rw e known
                ],
            i,
            at,
          ),
          still k nodes all,
        )

    sort_keys-Pointed : Pointed (sort_keys h)
    unfolding sort_keys
    sort_keys-Pointed = record {
      held = λ k a.
          let there = pointed.held k ((sort-Among k h.keys).0 a) in
          record {
            nodes = there.nodes;
            at = there.at;
            some_node = there.some_node;
            belong = there.belong;
          };
      free = λ k gone. pointed.free k (λ a. gone ((sort-Among k h.keys).1 a));
    }

  pub record Filled (h : ConsistentHash A) : Type 0 where
    pub pointed : Pointed h
    pub up : Sorted h.keys

  grown-Filled :
      (h : ConsistentHash A) (node : A) (count : ℕ)
      → Filled h
      → Filled (sort_keys (add_points hash_func repr itoa (add_node h (repr node)) node 0 count))
  unfolding sort_keys add_node
  grown-Filled h node count filled =
      let known =
        lookup-insert bytes_eq bytes_eq_iff (repr node) (repr node) placeholder h.nodes
        ∙ rw ((bytes_eq_iff (repr node) (repr node)).1 refl) refl in
      let h' = add_points hash_func repr itoa (add_node h (repr node)) node 0 count in
      record {
        pointed = sort_keys-Pointed h' (
            add_points-Pointed count 0 (add_node h (repr node)) node
              (add_node-Pointed h filled.pointed (repr node)) known);
        up = sort-Sorted h'.keys;
      }

  -- `AddWithReplicas` of a node that is not contained.
  pub add_with_replicas-Filled :
      (h : ConsistentHash A) (node : A) (replicas : ℕ)
      → Filled h
      → contains_node h (repr node) ≡ false
      → Filled (add_with_replicas hash_func repr itoa h node replicas)
  unfolding add_with_replicas remove
  add_with_replicas-Filled h node replicas filled new =
      rw (removed h node new, add_with_replicas)
        (grown-Filled h node (if ltb h.replicas replicas then h.replicas else replicas) filled)
    where
      removed :
          (h : ConsistentHash A) (node : A)
          → contains_node h (repr node) ≡ false
          → remove hash_func repr itoa h node ≡ h
      removed h node new = rw (new, remove) refl
