-- ===== src/Search/Lookup.antt =====
-- A search finds an item whose path matches, and fails only if no path matches.
use go_zero.Prelude.{
  ◌==◌, ◌≡◌, refl, sym, ap, subst, ◌∙◌, inl, inr, List, [], ◌∷◌, ◌++◌, Option, none, some, Bytes,
  arith, Bool-cases, Option-cases,
}
use go_zero.Search.{
  slash, Node, node, Children, no_child, child, Result, Match, missed, literal, named, match,
  with_match, item_of, each, for_each, found_item, next_end, next,
}
use go_zero.Search.Paths.{In, IsChild, At, with_params, match_path, tokens_from}

-- What is left of a route has tokens.
tokens_from-cons :
    (token route : Bytes) → (t : Bytes) × (ts : List Bytes) × (tokens_from token route ≡ t ∷ ts)
unfolding tokens_from
tokens_from-cons token [] = (token, [], refl)
tokens_from-cons token (c ∷ route) = elim (Bool-cases (c == slash)) [
  | inl cut ↦ (token, tokens_from [] route, rw (cut, tokens_from))
  | inr on ↦
      let (t, ts, e) = tokens_from-cons (token ++ (c ∷ [])) route in
      (t, ts, (rw (on, tokens_from) refl) ∙ e)
]

module _ {I : Type 0} where
  each-some :
      (f : Bytes → Node I → Option (Result I)) (cs : Children I) (r : Result I)
      → each f cs ≡ some r
      → (k : Bytes) × (m : Node I) × In k m cs × (f k m ≡ some r)
  unfolding each
  each-some f no_child r e = cc
  each-some f (child k v cs) r e = elim (Option-cases (f k v)) [
    | inl missed' ↦
        let (j, m, found, q) = each-some f cs r (rw (missed', each) at e) in (j, m, inr found, q)
    | inr (r', hit) ↦ (k, v, inl (refl, refl), hit ∙ (rw (hit, each) at e))
  ]

  each-none :
      (f : Bytes → Node I → Option (Result I)) (cs : Children I)
      → each f cs ≡ none
      → (k : Bytes) (m : Node I) → In k m cs
      → f k m ≡ none
  unfolding each
  each-none f (child k v cs) e j m (inl (same_key, same_node)) =
      let miss : f k v ≡ none = ground arith in
      ap (λ l. f l m) (sym same_key) ∙ ap (f k) (sym same_node) ∙ miss
  each-none f (child k v cs) e j m (inr here) = each-none f cs (ground arith) j m here
  each-none f no_child e j m here = absurd here

  for_each-some :
      (f : Bytes → Node I → Option (Result I)) (n : Node I) (r : Result I)
      → for_each f n ≡ some r
      → (k : Bytes) × (m : Node I) × IsChild n k m × (f k m ≡ some r)
  unfolding for_each
  for_each-some f (node _ literals params) r e = elim (Option-cases (each f literals)) [
    | inl missed' ↦
        let (j, m, found, q) = each-some f params r (rw (missed', for_each) at e) in
        (j, m, inr found, q)
    | inr (r', hit) ↦
        let (j, m, found, q) = each-some f literals r' hit in
        (j, m, inl found, q ∙ (rw (hit, for_each) at e))
  ]

  for_each-none :
      (f : Bytes → Node I → Option (Result I)) (n : Node I)
      → for_each f n ≡ none
      → (k : Bytes) (m : Node I) → IsChild n k m
      → f k m ≡ none
  unfolding for_each
  for_each-none f (node _ literals params) e k m (inl here) =
      each-none f literals (ground arith) k m here
  for_each-none f (node _ literals params) e k m (inr here) =
      each-none f params (ground arith) k m here

  -- A search of a child, undone.
  with_match-some :
      (a : Match) (o : Option (Result I)) (r : Result I)
      → with_match a o ≡ some r
      → (r' : Result I) × (o ≡ some r')
        × (r.item ≡ r'.item)
        × (with_params a (some r'.params) ≡ some r.params)
  unfolding with_match with_params
  with_match-some missed o r e = cc
  with_match-some literal (some o) r e = (o, refl, ground arith, ground arith)
  with_match-some literal none r e = cc
  with_match-some (named k v) none r e = cc
  with_match-some (named k v) (some o) r e = (o, refl, ground arith, ground arith)

  with_match-none :
      (a : Match) (o : Option (Result I)) (ps : Option (List (Bytes × Bytes)))
      → with_match a o ≡ none
      → (o ≡ none → ps ≡ none)
      → with_params a ps ≡ none
  unfolding with_match with_params
  with_match-none missed o ps e h = refl
  with_match-none literal o ps e h = h e
  with_match-none (named k v) none ps e h = rw (h refl)
  with_match-none (named k v) (some o) ps e h = cc

  -- A path found by the search, with the parameters of the result.
  abbrev pub Finds : Node I → List Bytes → Result I → Type 0
  Finds n tokens r =
      (path : List Bytes) × At n path r.item × (match_path path tokens ≡ some r.params)

  found_item-some :
      (o : Option I) (r : Result I) → found_item o ≡ some r → (o ≡ some r.item) × ([] ≡ r.params)
  found_item-some none r e = cc
  found_item-some (some i) r e = ground arith

  end_child :
      (n : Node I) (token : Bytes) (r : Result I)
      → for_each (λ k v. with_match (match k token) (found_item (item_of v))) n ≡ some r
      → Finds n (token ∷ []) r
  unfolding match_path
  end_child n token r e =
      let (k, m, c, q) = for_each-some _ n r e in
      let (r', found, same, ps) = with_match-some (match k token) _ r q in
      let (stands, no_params) = found_item-some (item_of m) r' found in
      (
        k ∷ [],
        (m, c, stands ∙ ap some (sym same)),
        ap (λ z. with_params (match k token) (some z)) no_params ∙ ps,
      )

  next_end-some :
      (n : Node I) (token : Bytes) (r : Result I)
      → next_end n token ≡ some r
      → Finds n (token ∷ []) r
  unfolding next_end match_path
  next_end-some (node (some i) ls ps) [] r e = ([], ground arith, ground arith)
  next_end-some (node (some i) ls ps) (t ∷ token) r e =
      end_child (node (some i) ls ps) (t ∷ token) r e
  next_end-some (node none ls ps) token r e = end_child (node none ls ps) token r e

  -- A step of the search past a slash, given the search of the rest.
  slash-some :
      (n : Node I) (token route : Bytes) (r : Result I)
      → ((m : Node I) (r' : Result I)
          → next m [] route ≡ some r'
          → Finds m (tokens_from [] route) r')
      → for_each (λ k v. with_match (match k token) (next v [] route)) n ≡ some r
      → Finds n (token ∷ tokens_from [] route) r
  unfolding match_path
  slash-some n token route r ih e =
      let (k, m, c, q) = for_each-some _ n r e in
      let (r', sub, same, ps) = with_match-some (match k token) (next m [] route) r q in
      let (path, at, matched) = ih m r' sub in
      (
        k ∷ path,
        (m, c, subst (At m path) (sym same) at),
        ap (with_params (match k token)) matched ∙ ps,
      )

  -- What the search finds stands at a path that matches the route, with the parameters found.
  pub next-some :
      (n : Node I) (token route : Bytes) (r : Result I)
      → next n token route ≡ some r
      → Finds n (tokens_from token route) r
  unfolding next tokens_from
  next-some n token [] r e = next_end-some n token r e
  next-some n token (c ∷ route) r e = elim (Bool-cases (c == slash)) [
    | inl cut ↦
        rw (cut, tokens_from)
          (slash-some n token route r (λ m r'. next-some m [] route r') (rw (cut, next) at e))
    | inr on ↦ rw (on, tokens_from) (next-some n (token ++ (c ∷ [])) route r (rw (on, next) at e))
  ]

  end_child-none :
      (n m : Node I) (k token : Bytes) (path : List Bytes) (i : I)
      → for_each (λ j v. with_match (match j token) (found_item (item_of v))) n ≡ none
      → IsChild n k m
      → At m path i
      → match_path (k ∷ path) (token ∷ []) ≡ none
  unfolding match_path
  end_child-none n m k token path i e c at =
      with_match-none (match k token) (found_item (item_of m)) (match_path path [])
        (for_each-none _ n e k m c) (no_rest path at)
    where
      no_rest : (p : List Bytes) → At m p i → found_item (item_of m) ≡ none → match_path p [] ≡ none
      no_rest [] stands none_found = absurd (cc (ap found_item stands))
      no_rest (_ ∷ _) stands none_found = refl

  next_end-none :
      (n : Node I) (token : Bytes) (path : List Bytes) (i : I)
      → next_end n token ≡ none
      → At n path i
      → match_path path (token ∷ []) ≡ none
  unfolding next_end match_path
  next_end-none (node (some j) ls ps) [] path i e at = cc
  next_end-none (node (some j) ls ps) (t ∷ token) [] i e at = refl
  next_end-none (node (some j) ls ps) (t ∷ token) (k ∷ path) i e (m, c, at) =
      end_child-none (node (some j) ls ps) m k (t ∷ token) path i e c at
  next_end-none (node none ls ps) token [] i e at = cc
  next_end-none (node none ls ps) token (k ∷ path) i e (m, c, at) =
      end_child-none (node none ls ps) m k token path i e c at

  slash-none :
      (n : Node I) (token route : Bytes) (path : List Bytes) (i : I)
      → ((m : Node I) (p : List Bytes)
          → next m [] route ≡ none
          → At m p i
          → match_path p (tokens_from [] route) ≡ none)
      → for_each (λ k v. with_match (match k token) (next v [] route)) n ≡ none
      → At n path i
      → match_path path (token ∷ tokens_from [] route) ≡ none
  unfolding match_path
  slash-none n [] route [] i ih e at = let (t, ts, q) = tokens_from-cons [] route in rw q refl
  slash-none n (t ∷ token) route [] i ih e at = refl
  slash-none n token route (k ∷ path) i ih e (m, c, at) =
      with_match-none (match k token) (next m [] route) (match_path path (tokens_from [] route))
        (for_each-none _ n e k m c) (λ missed'. ih m path missed' at)

  -- Where the search finds nothing, no path with an item matches the route.
  pub next-none :
      (n : Node I) (token route : Bytes) (path : List Bytes) (i : I)
      → next n token route ≡ none
      → At n path i
      → match_path path (tokens_from token route) ≡ none
  unfolding next tokens_from
  next-none n token [] path i e at = next_end-none n token path i e at
  next-none n token (c ∷ route) path i e at = elim (Bool-cases (c == slash)) [
    | inl cut ↦
        rw (cut, tokens_from)
          (slash-none n token route path i (λ m p. next-none m [] route p i) (rw (cut, next) at e)
            at)
    | inr on ↦
        rw (on, tokens_from) (next-none n (token ++ (c ∷ [])) route path i (rw (on, next) at e) at)
  ]
