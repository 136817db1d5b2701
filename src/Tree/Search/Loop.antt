-- ===== src/Tree/Search/Loop.antt =====
-- src/handler/tree_router.rs: the loop of `handle_request`, for a router that does not look for
-- hyperlinks, related to the recursive search.
use rustful.Base.{
  ℕ, zero, suc, ◌+◌, ◌≤◌, ◌≡◌, refl, sym, ◌∙◌, ap, true, false, some, Option, none, List, [], ◌∷◌,
  ◌++◌, append_assoc, arith, subst, get_elem?, Bytes, length, set, ◌==◌,
}
use rustful.Http.{World, Environment}
use rustful.Handler.{HandleRequest}
use rustful.Route.{RouteState, skip, keep, fuse, snapshot, go_to}
use rustful.Tree.{
  TreeRouter, Branch, static, variable, wildcard, Child, absent, present, item, static_routes,
  variable_route, wildcard_route, get_route, Frame, push_node, search, Searched, answered, answer,
  at_route, advance, skip_to, keep_to, fuse_to,
}
use rustful.Tree.Search.{Found, first, each, through, visit, cost, cost_all}
use rustful.Tree.Search.Position.{Here, Here-move, Here-end, Here-segment, Here-step}

pub set-set {ℓ} : {A : Type ℓ} (xs : List A) (i : ℕ) (x : A) → set (set xs i x) i x ≡ set xs i x
set-set [] i x = refl
set-set (y ∷ xs) zero x = refl
set-set (y ∷ xs) (suc i) x = ap (λ l. y ∷ l) (set-set xs i x)

pub cost_pos : (n : ℕ) (b : Branch) → 1 ≤ cost n b
unfolding cost
cost_pos zero b = omega arith
cost_pos (suc n) static = omega arith
cost_pos (suc n) variable = omega arith
cost_pos (suc n) wildcard = omega arith

abbrev pub state : List Bytes → List (Option ℕ) → ℕ → ℕ → RouteState
state route vars i v = record { route = route; variables = vars; index = i; var_index = v }

abbrev pub end_state : {T : Type 0} → List Bytes → Found T → RouteState
end_state route f = state route f.variables (length route) f.var_index

module _ {w : World} {T : Type 0} (h : HandleRequest w T) (e : Environment w) where
  abbrev pub loop : ℕ → RouteState → List (Frame T) → Searched h
  loop fuel r stack = search h false e fuel r stack [] []

  module _ (route : List Bytes) where
    -- What the loop does with a part of the stack: it answers for what was found, or it goes on with
    -- the rest, the variables behind the position untouched.
    abbrev pub Explores :
        List (Option ℕ) → ℕ → ℕ → List (Frame T) → Option (Found T) → Searched h → Type 0
    Explores acc n k stack (some f) s =
        s ≡ answered (answer h f.item (at_route h false e (end_state route f)))
    Explores acc n k stack none s =
        (fuel : ℕ) × (rest : List (Option ℕ)) × (i : ℕ) × (v : ℕ) × (k ≤ fuel)
        × (length rest ≡ n)
        × (s ≡ loop fuel (state route (acc ++ rest) i v) stack)

    Explores-first :
        (acc : List (Option ℕ)) (n k₁ k : ℕ) (above stack : List (Frame T))
        (o o' : Option (Found T)) (s : Searched h)
        → Explores acc n k₁ above o s
        → ((fuel : ℕ) (rest : List (Option ℕ)) (i v : ℕ)
            → k₁ ≤ fuel
            → length rest ≡ n
            → Explores acc n k stack o' (loop fuel (state route (acc ++ rest) i v) above))
        → Explores acc n k stack (first o o') s
    Explores-first acc n k₁ k above stack (some f) o' s x next = x
    Explores-first acc n k₁ k above stack none o' s (fuel, rest, i, v, le, len, eq) next =
        subst (Explores acc n k stack o') (sym eq) (next fuel rest i v le len)

    Explores-snoc :
        (acc : List (Option ℕ)) (n k : ℕ) (stack : List (Frame T)) (x : Option ℕ)
        (o : Option (Found T)) (s : Searched h)
        → Explores (acc ++ x ∷ []) n k stack o s
        → Explores acc (suc n) k stack o s
    Explores-snoc acc n k stack x (some f) s p = p
    Explores-snoc acc n k stack x none s (fuel, rest, i, v, le, len, eq) = (
      fuel,
      x ∷ rest,
      i,
      v,
      le,
      ap suc len,
      eq ∙ ap (λ l. loop fuel (state route l i v) stack) (append_assoc acc (x ∷ []) rest),
    )

    module _ (fuel : ℕ) (vars : List (Option ℕ)) (i v i' v' : ℕ) (stack : List (Frame T))
        (t : TreeRouter T) (b : Branch) where
      abbrev popped : Searched h
      popped = loop (suc fuel) (state route vars i' v') ((t, b, (i, v)) ∷ stack)

      loop_end :
          (i == length route) ≡ true
          → popped ≡ answered (answer h (item t) (at_route h false e (state route vars i v)))
      unfolding search
      loop_end q = rw (q, search)

      loop_step :
          {s : Bytes}
          → (i == length route) ≡ false
          → get_elem? route i ≡ some s
          → popped
            ≡ loop fuel
                (advance t b (i, v) s (state route vars i v) stack).0
                (advance t b (i, v) s (state route vars i v) stack).1
      unfolding search
      loop_step q g = rw (q, search) (rw g)

    -- What is to prove of a frame, and of all frames of a node.
    abbrev pub Visits : List Bytes → TreeRouter T → Branch → ℕ → List (Option ℕ) → Type 0
    Visits r t b v acc =
        (fuel : ℕ) (vars : List (Option ℕ)) (i i' v' k : ℕ) (stack : List (Frame T))
        → Here route vars r acc i
        → cost (length r) b + k ≤ fuel
        → Explores acc (length r) k stack (visit r t b v acc)
            (loop fuel (state route vars i' v') ((t, b, (i, v)) ∷ stack))

    pub each-loop :
        (r : List Bytes) (t : TreeRouter T) (v : ℕ) (acc : List (Option ℕ))
        → ((b : Branch) → Visits r t b v acc)
        → (fuel : ℕ) (vars : List (Option ℕ)) (i i' v' k : ℕ) (stack : List (Frame T))
        → Here route vars r acc i
        → cost_all (length r) + k ≤ fuel
        → Explores acc
            (length r)
            k
            stack
            (each (λ b. visit r t b v acc))
            (loop fuel (state route vars i' v') (push_node t (i, v) stack))
    unfolding cost_all
    each-loop r t v acc ih fuel vars i i' v' k stack here le =
        let c = λ (b : Branch). cost (length r) b in
        let last : List (Frame T) = (t, wildcard, (i, v)) ∷ stack in
        let found = λ (b : Branch). visit r t b v acc in
        Explores-first acc (length r) (c variable + (c wildcard + k)) k
          ((t, variable, (i, v)) ∷ last) stack (found static)
          (first (found variable) (found wildcard)) _
          (ih static fuel vars i i' v' (c variable + (c wildcard + k)) _ here (omega arith))
          λ fuel₁ rest₁ i₁ v₁ le₁ len₁.
            Explores-first acc (length r) (c wildcard + k) k last stack (found variable)
              (found wildcard) _
              (ih variable fuel₁ (acc ++ rest₁) i i₁ v₁ (c wildcard + k) last
                (Here-move r rest₁ here len₁) le₁)
              λ fuel₂ rest₂ i₂ v₂ le₂ len₂.
                ih wildcard fuel₂ (acc ++ rest₂) i i₂ v₂ k stack (Here-move r rest₂ here len₂) le₂

    -- A step into no child leaves the rest of the stack.
    Explores-absent :
        (acc : List (Option ℕ)) (r : List Bytes) (fuel k : ℕ) (stack : List (Frame T))
        (vars : List (Option ℕ)) (i v : ℕ)
        → Here route vars r acc i
        → k ≤ fuel
        → Explores acc (length r) k stack none (loop fuel (state route vars i v) stack)
    Explores-absent acc r fuel k stack vars i v here le = (
      fuel,
      here.rest,
      i,
      v,
      le,
      here.rest_length,
      ap (λ l. loop fuel (state route l i v) stack) here.vars_eq,
    )

    module _ (s : Bytes) (r : List Bytes) (v : ℕ) (acc : List (Option ℕ)) (fuel : ℕ)
        (vars : List (Option ℕ)) (i k : ℕ) (stack : List (Frame T))
        (here : Here route vars (s ∷ r) acc i) where
      abbrev at_frame : RouteState
      at_frame = state route vars i v

      skip-loop :
          (c : Child T)
          → ((n : TreeRouter T) (b : Branch) → Visits r n b v (acc ++ none ∷ []))
          → cost_all (length r) + k ≤ fuel
          → Explores acc
              (suc (length r))
              k
              stack
              (through c (λ n. each (λ b. visit r n b v (acc ++ none ∷ []))))
              (loop fuel (skip_to c at_frame stack).0 (skip_to c at_frame stack).1)
      unfolding skip snapshot
      skip-loop absent ih le = Explores-absent acc (s ∷ r) fuel k stack vars i v here (omega arith)
      skip-loop (present n) ih le = Explores-snoc acc (length r) k stack none _ _ (
          each-loop r n v (acc ++ none ∷ []) (ih n) fuel (set vars i none) (i + 1) (i + 1) v k stack
            (Here-step none here) le)

      keep-loop :
          (c : Child T)
          → ((n : TreeRouter T) (b : Branch) → Visits r n b (v + 1) (acc ++ some v ∷ []))
          → cost_all (length r) + k ≤ fuel
          → Explores acc
              (suc (length r))
              k
              stack
              (through c (λ n. each (λ b. visit r n b (v + 1) (acc ++ some v ∷ []))))
              (loop fuel (keep_to c at_frame stack).0 (keep_to c at_frame stack).1)
      unfolding keep snapshot
      keep-loop absent ih le = Explores-absent acc (s ∷ r) fuel k stack vars i v here (omega arith)
      keep-loop (present n) ih le = Explores-snoc acc (length r) k stack (some v) _ _ (
          each-loop r n (v + 1) (acc ++ some v ∷ []) (ih n) fuel (set vars i (some v)) (i + 1)
            (i + 1) (v + 1) k stack (Here-step (some v) here) le)

      fuse-loop :
          (c : Child T) (t : TreeRouter T)
          → ((n : TreeRouter T) (b : Branch) → Visits r n b (v + 1) (acc ++ some v ∷ []))
          → Visits r t wildcard v (acc ++ some v ∷ [])
          → cost_all (length r) + cost (length r) wildcard + k ≤ fuel
          → Explores acc
              (suc (length r))
              k
              stack
              (through c (λ n.
                first
                  (each (λ b. visit r n b (v + 1) (acc ++ some v ∷ [])))
                  (visit r t wildcard v (acc ++ some v ∷ []))))
              (loop fuel
                (fuse_to c t (i, v) at_frame stack).0
                (fuse_to c t (i, v) at_frame stack).1)
      unfolding keep fuse snapshot go_to
      fuse-loop absent t ih longer le =
          Explores-absent acc (s ∷ r) fuel k stack vars i v here (omega arith)
      fuse-loop (present n) t ih longer le =
          let acc' : List (Option ℕ) = acc ++ some v ∷ [] in
          let rest : List (Frame T) = (t, wildcard, (i + 1, v)) ∷ stack in
          let twice : Here route (set (set vars i (some v)) i (some v)) r acc' (i + 1) =
            rw (set-set vars i (some v)) (Here-step (some v) here) in
          Explores-snoc acc (length r) k stack (some v) _ _ (
            Explores-first acc' (length r) (cost (length r) wildcard + k) k rest stack
              (each (λ b. visit r n b (v + 1) acc')) (visit r t wildcard v acc') _
              (each-loop r n (v + 1) acc' (ih n) fuel _ (i + 1) (i + 1) (v + 1)
                (cost (length r) wildcard + k) rest twice (omega arith))
              λ fuel₁ rest₁ i₁ v₁ le₁ len₁.
                longer fuel₁ (acc' ++ rest₁) (i + 1) i₁ v₁ k stack (Here-move r rest₁ twice len₁)
                  le₁)

    pub visit-loop :
        (r : List Bytes) (t : TreeRouter T) (b : Branch) (v : ℕ) (acc : List (Option ℕ))
        → Visits r t b v acc
    unfolding visit cost cost_all advance get_route
    visit-loop [] t b v acc zero vars i i' v' k stack here le = absurd (omega arith)
    visit-loop [] t b v acc (suc fuel) vars i i' v' k stack here le =
        let (q, va, ie) = Here-end here in
        loop_end fuel vars i v i' v' stack t b q
        ∙ ap (λ a. answered (answer h (item t) (at_route h false e (state route a i v)))) va
        ∙ ap (λ m. answered (answer h (item t) (at_route h false e (state route acc m v)))) ie
    visit-loop (s ∷ r) t b v acc zero vars i i' v' k stack here le =
        absurd (omega (arith, cost_pos (length (s ∷ r)) b))
    visit-loop (s ∷ r) t static v acc (suc fuel) vars i i' v' k stack here le =
        let (g, q) = Here-segment here in
        subst (Explores acc (suc (length r)) k stack (visit (s ∷ r) t static v acc))
          (sym (loop_step fuel vars i v i' v' stack t static q g))
          (skip-loop s r v acc fuel vars i k stack here (get_route (static_routes t) s)
            (λ n b. visit-loop r n b v (acc ++ none ∷ [])) (omega arith))
    visit-loop (s ∷ r) t variable v acc (suc fuel) vars i i' v' k stack here le =
        let (g, q) = Here-segment here in
        subst (Explores acc (suc (length r)) k stack (visit (s ∷ r) t variable v acc))
          (sym (loop_step fuel vars i v i' v' stack t variable q g))
          (keep-loop s r v acc fuel vars i k stack here (variable_route t)
            (λ n b. visit-loop r n b (v + 1) (acc ++ some v ∷ [])) (omega arith))
    visit-loop (s ∷ r) t wildcard v acc (suc fuel) vars i i' v' k stack here le =
        let (g, q) = Here-segment here in
        subst (Explores acc (suc (length r)) k stack (visit (s ∷ r) t wildcard v acc))
          (sym (loop_step fuel vars i v i' v' stack t wildcard q g))
          (fuse-loop s r v acc fuel vars i k stack here (wildcard_route t) t
            (λ n b. visit-loop r n b (v + 1) (acc ++ some v ∷ []))
            (visit-loop r t wildcard v (acc ++ some v ∷ [])) (omega arith))
