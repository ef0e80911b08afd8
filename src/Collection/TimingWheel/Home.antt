-- ===== src/Collection/TimingWheel/Home.antt =====
-- Every pending entry is in one slot, the one that `timers` has for its key.
use go_zero.Prelude.{
  ℕ, ◌<◌, ◌==◌, ◌≡◌, ◌≢◌, ◌↔◌, ◌⊎◌, inl, inr, sym, ◌∙◌, subst, Bool, false, List, [], ◌∷◌, ◌++◌,
  some, length, get_or-set, Among, NoDup, Among-append, NoDup-snoc, lookup, Bool-cases, ==_iff,
}
use go_zero.Collection.TimingWheel.{Position, TimingWheel, without, slot, push_back, unlink}

pub Among-without : (x id : ℕ) (l : List ℕ) → Among x (without id l) ↔ ((x ≢ id) × Among x l)
unfolding without
Among-without x id [] = ((λ a. absurd a), (λ p. absurd (p.1)))
Among-without x id (y ∷ l) = elim (Bool-cases (y == id)) [
  | inl e ↦
      rw (e, without)
        (
          (λ a. let (ne, b) = (Among-without x id l).0 a in (ne, inr b)),
          (λ (ne, a). elim a [
            | inl h ↦ absurd (ne (h ∙ (==_iff y id).0 e))
            | inr b ↦ (Among-without x id l).1 (ne, b)
          ]),
        )
  | inr e ↦
      rw (e, without)
        (
          elim [
            | inl h ↦ ((λ xi. cc (e, (==_iff y id).1 (sym h ∙ xi))), inl h)
            | inr a ↦ let (ne, b) = (Among-without x id l).0 a in (ne, inr b)
          ],
          (λ (ne, a). elim a [ inl h ↦ inl h | inr b ↦ inr ((Among-without x id l).1 (ne, b)) ]),
        )
]

NoDup-without : (id : ℕ) (l : List ℕ) → NoDup l → NoDup (without id l)
unfolding without
NoDup-without id [] h = tt
NoDup-without id (y ∷ l) (first, h) = elim (Bool-cases (y == id)) [
  | inl e ↦ rw (e, without) (NoDup-without id l h)
  | inr e ↦ rw (e, without) ((λ a. first ((Among-without y id l).0 a).1), NoDup-without id l h)
]

module _ {K V : Type 0} (same : K → K → Bool) where
  -- The invariant of the wheel.
  pub record Homed (w : TimingWheel K V) : Type 0 where
    pub in_wheel : w.ticked_pos < w.num_slots
    pub sized : length w.slots ≡ w.num_slots
    pub kept :
        (p id : ℕ)
        → p < w.num_slots
        → Among id (slot same w p)
        → (w.items id).removed ≡ false
        → lookup same (w.items id).key w.timers ≡ some (record { pos = p; item = id })
    pub found :
        (k : K) (t : Position)
        → lookup same k w.timers ≡ some t
        → (t.pos < w.num_slots)
          × Among t.item (slot same w t.pos)
          × ((w.items t.item).removed ≡ false)
          × ((w.items t.item).key ≡ k)
          × ((w.items t.item).diff < w.num_slots)
    pub once : (p : ℕ) → p < w.num_slots → NoDup (slot same w p)
    pub allocated : (p id : ℕ) → p < w.num_slots → Among id (slot same w p) → id < w.fresh

  -- The entries of the slots after a change of one slot.
  pub Among-push :
      (w : TimingWheel K V) (pos id p x : ℕ)
      → pos < length w.slots
      → Among x (slot same (push_back same w pos id) p)
        ↔ (Among x (slot same w p) ⊎ ((x ≡ id) × (p ≡ pos)))
  Among-push w pos id p x h = elim (Bool-cases (pos == p)) [
    | inl e ↦
        let at : pos ≡ p = (==_iff pos p).0 e in
        rw (get_or-set w.slots pos p (slot same w pos ++ (id ∷ [])) [] h, e)
          (
            (λ a. elim ((Among-append x (slot same w pos) (id ∷ [])).0 a) [
              | inl b ↦ inl (subst (λ q. Among x (slot same w q)) at b)
              | inr c ↦ elim c [ inl xi ↦ inr (xi, sym at) | inr d ↦ absurd d ]
            ]),
            elim [
              | inl b ↦
                  (Among-append x (slot same w pos) (id ∷ [])).1
                    (inl (subst (λ q. Among x (slot same w q)) (sym at) b))
              | inr (xi, _) ↦ (Among-append x (slot same w pos) (id ∷ [])).1 (inr (inl xi))
            ],
          )
    | inr e ↦
        rw (get_or-set w.slots pos p (slot same w pos ++ (id ∷ [])) [] h, e)
          (inl, elim [ inl b ↦ b | inr (_, at) ↦ absurd (cc (e, (==_iff pos p).1 (sym at))) ])
  ]

  pub Among-unlink :
      (w : TimingWheel K V) (id p x : ℕ)
      → w.ticked_pos < length w.slots
      → Among x (slot same (unlink same w id) p)
        ↔ ((¬ ((p ≡ w.ticked_pos) × (x ≡ id))) × Among x (slot same w p))
  Among-unlink w id p x h = elim (Bool-cases (w.ticked_pos == p)) [
    | inl e ↦
        let at : w.ticked_pos ≡ p = (==_iff w.ticked_pos p).0 e in
        rw (get_or-set w.slots w.ticked_pos p (without id (slot same w w.ticked_pos)) [] h, e)
          (
            (λ a.
                let (ne, b) = (Among-without x id (slot same w w.ticked_pos)).0 a in
                ((λ q. ne (q.1)), subst (λ q. Among x (slot same w q)) at b)),
            (λ (out, b).
                (Among-without x id (slot same w w.ticked_pos)).1
                  ((λ xi. out (sym at, xi)), subst (λ q. Among x (slot same w q)) (sym at) b)),
          )
    | inr e ↦
        rw (get_or-set w.slots w.ticked_pos p (without id (slot same w w.ticked_pos)) [] h, e)
          ((λ b. ((λ q. cc (e, (==_iff w.ticked_pos p).1 (sym (q.0)))), b)), (λ p. p.1))
  ]

  pub NoDup-push :
      (w : TimingWheel K V) (pos id p : ℕ)
      → pos < length w.slots
      → (¬ Among id (slot same w pos))
      → ((q : ℕ) → q < w.num_slots → NoDup (slot same w q))
      → pos < w.num_slots
      → p < w.num_slots
      → NoDup (slot same (push_back same w pos id) p)
  NoDup-push w pos id p h new once hpos hp = elim (Bool-cases (pos == p)) [
    | inl e ↦
        rw (get_or-set w.slots pos p (slot same w pos ++ (id ∷ [])) [] h, e)
          (NoDup-snoc (slot same w pos) id (once pos hpos) new)
    | inr e ↦ rw (get_or-set w.slots pos p (slot same w pos ++ (id ∷ [])) [] h, e) (once p hp)
  ]

  pub NoDup-unlink :
      (w : TimingWheel K V) (id p : ℕ)
      → w.ticked_pos < length w.slots
      → w.ticked_pos < w.num_slots
      → ((q : ℕ) → q < w.num_slots → NoDup (slot same w q))
      → p < w.num_slots
      → NoDup (slot same (unlink same w id) p)
  NoDup-unlink w id p h ht once hp = elim (Bool-cases (w.ticked_pos == p)) [
    | inl e ↦
        rw (get_or-set w.slots w.ticked_pos p (without id (slot same w w.ticked_pos)) [] h, e)
          (NoDup-without id (slot same w w.ticked_pos) (once w.ticked_pos ht))
    | inr e ↦
        rw (get_or-set w.slots w.ticked_pos p (without id (slot same w w.ticked_pos)) [] h, e)
          (once p hp)
  ]
