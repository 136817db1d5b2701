-- ===== src/Tree/Search/Reach.antt =====
-- src/handler/tree_router.rs: which nodes a path leads to, and that the search finds one of them.
use rustful.Base.{
  ℕ, ◌+◌, ◌≡◌, refl, sym, ◌∙◌, ◌⊎◌, inl, inr, Option, none, some, List, [], ◌∷◌, ◌++◌, append_assoc,
  append-nil, Bytes,
}
use rustful.Tree.{
  TreeRouter, Branch, static, variable, wildcard, Child, absent, present, item, static_routes,
  variable_route, wildcard_route, get_route,
}
use rustful.Tree.Search.{Found, first, each, through, visit, find}

-- The ways from a node to the node `n`: the segments that they take, the number of variables before them,
-- and the variable of each segment. A variable takes one segment and a sequence takes one or more, all
-- of them under one variable. `last` is the number of variables in the end.
mutual
  pub data Reaches {T : Type 0} (n : TreeRouter T) (last : ℕ)
      : TreeRouter T → List Bytes → ℕ → List (Option ℕ) → Type 0 where
    here : {t : TreeRouter T} {v : ℕ} → t ≡ n → v ≡ last → Reaches n last t [] v []
    by_static :
        {t m : TreeRouter T} {s : Bytes} {r : List Bytes} {v : ℕ} {vars : List (Option ℕ)}
        → get_route (static_routes t) s ≡ present m
        → Reaches n last m r v vars
        → Reaches n last t (s ∷ r) v (none ∷ vars)
    by_variable :
        {t m : TreeRouter T} {s : Bytes} {r : List Bytes} {v : ℕ} {x : Option ℕ}
        {vars : List (Option ℕ)}
        → variable_route t ≡ present m
        → x ≡ some v
        → Reaches n last m r (v + 1) vars
        → Reaches n last t (s ∷ r) v (x ∷ vars)
    by_sequence :
        {t : TreeRouter T} {r : List Bytes} {v : ℕ} {vars : List (Option ℕ)}
        → Takes n last t r v vars
        → Reaches n last t r v vars

  pub data Takes {T : Type 0} (n : TreeRouter T) (last : ℕ)
      : TreeRouter T → List Bytes → ℕ → List (Option ℕ) → Type 0 where
    done :
        {t m : TreeRouter T} {s : Bytes} {r : List Bytes} {v : ℕ} {x : Option ℕ}
        {vars : List (Option ℕ)}
        → wildcard_route t ≡ present m
        → x ≡ some v
        → Reaches n last m r (v + 1) vars
        → Takes n last t (s ∷ r) v (x ∷ vars)
    more :
        {t : TreeRouter T} {s : Bytes} {r : List Bytes} {v : ℕ} {x : Option ℕ}
        {vars : List (Option ℕ)}
        → x ≡ some v
        → Takes n last t r v vars
        → Takes n last t (s ∷ r) v (x ∷ vars)

module _ {T : Type 0} where
  -- the ways that start at one branch
  abbrev Along :
      TreeRouter T → ℕ → Branch → TreeRouter T → List Bytes → ℕ → List (Option ℕ) → Type 0
  Along n last wildcard t (s ∷ r) v vars = Takes n last t (s ∷ r) v vars
  Along n last b t r v vars = Reaches n last t r v vars

  -- a finding and a way to it
  record Sound (b : Branch) (t : TreeRouter T) (r : List Bytes) (v : ℕ) (acc : List (Option ℕ))
      (f : Found T) : Type 0 where
    n : TreeRouter T
    vars : List (Option ℕ)
    way : Along n f.var_index b t r v vars
    item_eq : f.item ≡ item n
    vars_eq : f.variables ≡ acc ++ vars

  Along-Reaches :
      {n : TreeRouter T} {last v : ℕ} {vars : List (Option ℕ)} (b : Branch) (t : TreeRouter T)
      (r : List Bytes)
      → Along n last b t r v vars
      → Reaches n last t r v vars
  Along-Reaches static t r a = a
  Along-Reaches variable t r a = a
  Along-Reaches wildcard t [] a = a
  Along-Reaches wildcard t (s ∷ r) a = by_sequence a

  first-some :
      (o o' : Option (Found T)) {f : Found T} → first o o' ≡ some f → (o ≡ some f) ⊎ (o' ≡ some f)
  first-some none o' e = inr e
  first-some (some x) o' e = inl e

  -- every finding of all branches is one of a branch
  each-some :
      (g : Branch → Option (Found T)) {f : Found T}
      → each g ≡ some f
      → (b : Branch) × (g b ≡ some f)
  each-some g e = elim (first-some (g static) _ e) [
    | inl p ↦ (static, p)
    | inr q ↦ elim (first-some (g variable) _ q) [ inl p ↦ (variable, p) | inr p ↦ (wildcard, p) ]
  ]

  through-some :
      (c : Child T) (k : TreeRouter T → Option (Found T)) {f : Found T}
      → through c k ≡ some f
      → (m : TreeRouter T) × (c ≡ present m) × (k m ≡ some f)
  through-some absent k e = cc
  through-some (present m) k e = (m, refl, e)

  -- what one more segment in front of a way makes of a finding
  extend :
      {b b' : Branch} {t m : TreeRouter T} {r r' : List Bytes} {v v' : ℕ} {acc : List (Option ℕ)}
      {f : Found T} (x : Option ℕ)
      → ((n : TreeRouter T) (vars : List (Option ℕ))
          → Along n f.var_index b' m r' v' vars
          → Along n f.var_index b t r v (x ∷ vars))
      → Sound b' m r' v' (acc ++ x ∷ []) f
      → Sound b t r v acc f
  extend {acc} x step s = record {
    n = s.n;
    vars = x ∷ s.vars;
    way = step s.n s.vars s.way;
    item_eq = s.item_eq;
    vars_eq = s.vars_eq ∙ append_assoc acc (x ∷ []) s.vars;
  }

  Sound-found :
      (b : Branch) (t : TreeRouter T) (v : ℕ) (acc : List (Option ℕ)) {f : Found T}
      → Along t f.var_index b t [] v []
      → item t ≡ f.item
      → acc ≡ f.variables
      → Sound b t [] v acc f
  Sound-found b t v acc a i e = record {
    n = t;
    vars = [];
    way = a;
    item_eq = sym i;
    vars_eq = sym e ∙ sym (append-nil acc);
  }

  visit-Sound :
      (r : List Bytes) (t : TreeRouter T) (b : Branch) (v : ℕ) (acc : List (Option ℕ)) {f : Found T}
      → visit r t b v acc ≡ some f
      → Sound b t r v acc f
  unfolding visit
  visit-Sound [] t static v acc e = Sound-found static t v acc (here refl (cc)) (cc) (cc)
  visit-Sound [] t variable v acc e = Sound-found variable t v acc (here refl (cc)) (cc) (cc)
  visit-Sound [] t wildcard v acc e = Sound-found wildcard t v acc (here refl (cc)) (cc) (cc)
  visit-Sound (s ∷ r) t static v acc e =
      let (m, c, k) = through-some (get_route (static_routes t) s) _ e in
      let (b, q) = each-some (λ b. visit r m b v (acc ++ none ∷ [])) k in
      extend none (λ n vars a. by_static c (Along-Reaches b m r a))
        (visit-Sound r m b v (acc ++ none ∷ []) q)
  visit-Sound (s ∷ r) t variable v acc e =
      let (m, c, k) = through-some (variable_route t) _ e in
      let (b, q) = each-some (λ b. visit r m b (v + 1) (acc ++ some v ∷ [])) k in
      extend (some v) (λ n vars a. by_variable c refl (Along-Reaches b m r a))
        (visit-Sound r m b (v + 1) (acc ++ some v ∷ []) q)
  visit-Sound (s ∷ []) t wildcard v acc e =
      let (m, c, k) = through-some (wildcard_route t) _ e in
      extend (some v) (λ n vars a. done c refl a)
        (visit-Sound [] m static (v + 1) (acc ++ some v ∷ []) k)
  visit-Sound (s ∷ s' ∷ r) t wildcard v acc e =
      let (m, c, k) = through-some (wildcard_route t) _ e in
      elim (first-some _ _ k) [
        | inl k' ↦
            let (b, q) = each-some (λ b. visit (s' ∷ r) m b (v + 1) (acc ++ some v ∷ [])) k' in
            extend (some v) (λ n vars a. done c refl (Along-Reaches b m (s' ∷ r) a))
              (visit-Sound (s' ∷ r) m b (v + 1) (acc ++ some v ∷ []) q)
        | inr q ↦
            extend (some v) (λ n vars a. more refl a)
              (visit-Sound (s' ∷ r) t wildcard v (acc ++ some v ∷ []) q)
      ]

  -- a way is enough for a finding
  abbrev pub Finds : Option (Found T) → Type 0
  Finds o = (f : Found T) × (o ≡ some f)

  first-Finds : (o o' : Option (Found T)) → Finds o ⊎ Finds o' → Finds (first o o')
  first-Finds none o' (inl (f, e)) = cc
  first-Finds none o' (inr h) = h
  first-Finds (some f) o' h = (f, refl)

  each-Finds : (g : Branch → Option (Found T)) (b : Branch) → Finds (g b) → Finds (each g)
  each-Finds g static h = first-Finds (g static) _ (inl h)
  each-Finds g variable h =
      first-Finds (g static) _ (inr (first-Finds (g variable) (g wildcard) (inl h)))
  each-Finds g wildcard h =
      first-Finds (g static) _ (inr (first-Finds (g variable) (g wildcard) (inr h)))

  through-Finds :
      {c : Child T} {m : TreeRouter T} (k : TreeRouter T → Option (Found T))
      → c ≡ present m
      → Finds (k m)
      → Finds (through c k)
  through-Finds k e h = rw e h

  Takes-present :
      {n : TreeRouter T} {last : ℕ} {t : TreeRouter T} {r : List Bytes} {v : ℕ}
      {vars : List (Option ℕ)}
      → Takes n last t r v vars
      → (m : TreeRouter T) × (wildcard_route t ≡ present m)
  Takes-present (done {m = m} c x w) = (m, c)
  Takes-present (more x w) = Takes-present w

  mutual
    unfolding find visit

    pub Reaches-Finds :
        {n : TreeRouter T} {last : ℕ} {t : TreeRouter T} {r : List Bytes} {v : ℕ}
        {vars : List (Option ℕ)}
        → Reaches n last t r v vars
        → (acc : List (Option ℕ)) → Finds (find t r v acc)
    Reaches-Finds (here e e') acc = (_, refl)
    Reaches-Finds (by_static {t} {s = s} {r = r} {v = v} c w) acc =
        each-Finds (λ b. visit (s ∷ r) t b v acc) static
          (through-Finds _ c (Reaches-Finds w (acc ++ none ∷ [])))
    Reaches-Finds (by_variable {t} {s = s} {r = r} {v = v} c e w) acc =
        each-Finds (λ b. visit (s ∷ r) t b v acc) variable
          (through-Finds _ c (Reaches-Finds w (acc ++ some v ∷ [])))
    Reaches-Finds (by_sequence {t} {r} {v} w) acc =
        each-Finds (λ b. visit r t b v acc) wildcard (Takes-Finds w acc)

    Takes-Finds :
        {n : TreeRouter T} {last : ℕ} {t : TreeRouter T} {r : List Bytes} {v : ℕ}
        {vars : List (Option ℕ)}
        → Takes n last t r v vars
        → (acc : List (Option ℕ)) → Finds (visit r t wildcard v acc)
    Takes-Finds (done {v = v} c e w) acc =
        through-Finds _ c (first-Finds _ _ (inl (Reaches-Finds w (acc ++ some v ∷ []))))
    Takes-Finds (more {v = v} e w) acc =
        let (m, c) = Takes-present w in
        through-Finds _ c (first-Finds _ _ (inr (Takes-Finds w (acc ++ some v ∷ []))))

  -- A finding of the search belongs to a node that the segments lead to.
  pub find-Reaches :
      (r : List Bytes) (t : TreeRouter T) (v : ℕ) (acc : List (Option ℕ)) {f : Found T}
      → find t r v acc ≡ some f
      → (n : TreeRouter T) × (vars : List (Option ℕ)) × Reaches n f.var_index t r v vars
        × (f.item ≡ item n)
        × (f.variables ≡ acc ++ vars)
  unfolding find
  find-Reaches r t v acc e =
      let (b, q) = each-some (λ b. visit r t b v acc) e in
      let s = visit-Sound r t b v acc q in
      (s.n, s.vars, Along-Reaches b t r s.way, s.item_eq, s.vars_eq)
