-- ===== src/Tree/Search/Gather/Loop.antt =====
-- src/handler/tree_router.rs: the loop of `handle_request`, for a router that looks for hyperlinks, related to
-- all findings of the search.
use rustful.Base.{
  ℕ, suc, ◌+◌, ◌≤◌, ◌≡◌, refl, sym, ◌∙◌, ap, ap₂, true, false, some, Option, none, List, [], ◌∷◌,
  ◌++◌, append_assoc, append-nil, arith, get_elem?, Bytes, length, set, ◌==◌,
}
use rustful.Http.{World, Environment, Link}
use rustful.Handler.{HandleRequest}
use rustful.Route.{RouteState, skip, keep, fuse, snapshot, go_to}
use rustful.Tree.{
  TreeRouter, Branch, static, variable, wildcard, Child, absent, present, item, Frame, push_node,
  search, Searched, node_links, advance, skip_to, keep_to, fuse_to,
}
use rustful.Tree.Search.{cost, cost_all}
use rustful.Tree.Search.Loop.{state, set-set}
use rustful.Tree.Search.Position.{Here, Here-move, Here-step}
use rustful.Tree.Search.Gather.{Hit, hits, all_hits, below, links_of, matches_of}

matches_of-append :
    {T : Type 0} (route : List Bytes) (xs ys : List (Hit T))
    → matches_of route (xs ++ ys) ≡ matches_of route xs ++ matches_of route ys
matches_of-append route [] ys = refl
matches_of-append route (x ∷ xs) ys =
    ap (λ l. (item x.at_node, state route x.variables (length route) x.var_index) ∷ l)
      (matches_of-append route xs ys)

module _ {w : World} {T : Type 0} (h : HandleRequest w T) (e : Environment w) where
  abbrev pub linked : List (Hit T) → List (Link w)
  linked hs = links_of h e.context.method hs

  linked-append : (xs ys : List (Hit T)) → linked (xs ++ ys) ≡ linked xs ++ linked ys
  unfolding links_of
  linked-append [] ys = refl
  linked-append (x ∷ xs) ys =
      ap (λ l. node_links h x.branch x.at_node e.context.method ++ l) (linked-append xs ys)
      ∙ sym
          (append_assoc (node_links h x.branch x.at_node e.context.method) (linked xs) (linked ys))

  abbrev pub loop :
      ℕ → RouteState → List (Frame T) → List (Link w) → List (T × RouteState) → Searched h
  loop fuel r stack links matches = search h true e fuel r stack links matches

  module _ (route : List Bytes) where
    -- What the loop does with a part of the stack: it goes on with the rest, with the links and matches of what was
    -- found, the variables behind the position untouched.
    abbrev pub Gathers :
        List (Option ℕ)
        → ℕ
        → ℕ
        → List (Frame T)
        → List (Link w)
        → List (T × RouteState)
        → List (Hit T)
        → Searched h
        → Type 0
    Gathers acc n k stack links matches hs s =
        (fuel : ℕ) × (rest : List (Option ℕ)) × (i : ℕ) × (v : ℕ) × (k ≤ fuel)
        × (length rest ≡ n)
        × (s
            ≡ loop fuel (state route (acc ++ rest) i v) stack (links ++ linked hs)
                (matches ++ matches_of route hs))

    Gathers-then :
        (acc : List (Option ℕ)) (n k₁ k : ℕ) (above stack : List (Frame T)) (links : List (Link w))
        (matches : List (T × RouteState)) (xs ys : List (Hit T)) (s : Searched h)
        → Gathers acc n k₁ above links matches xs s
        → ((fuel : ℕ) (rest : List (Option ℕ)) (i v : ℕ)
            → k₁ ≤ fuel
            → length rest ≡ n
            → Gathers acc n k stack (links ++ linked xs) (matches ++ matches_of route xs) ys (
                loop fuel
                  (state route (acc ++ rest) i v)
                  above
                  (links ++ linked xs)
                  (matches ++ matches_of route xs)))
        → Gathers acc n k stack links matches (xs ++ ys) s
    Gathers-then acc n k₁ k above stack links matches xs ys s (fuel, rest, i, v, le, len, eq) next =
        let (fuel', rest', i', v', le', len', eq') = next fuel rest i v le len in
        (
          fuel',
          rest',
          i',
          v',
          le',
          len',
          eq
              ∙ eq'
              ∙ ap₂ (λ l m. loop fuel' (state route (acc ++ rest') i' v') stack l m)
                  (append_assoc links (linked xs) (linked ys)
                    ∙ ap (λ l. links ++ l) (sym (linked-append xs ys)))
                  (append_assoc matches (matches_of route xs) (matches_of route ys)
                    ∙ ap (λ m. matches ++ m) (sym (matches_of-append route xs ys))),
        )

    Gathers-snoc :
        (acc : List (Option ℕ)) (n k : ℕ) (stack : List (Frame T)) (links : List (Link w))
        (matches : List (T × RouteState)) (x : Option ℕ) (hs : List (Hit T)) (s : Searched h)
        → Gathers (acc ++ x ∷ []) n k stack links matches hs s
        → Gathers acc (suc n) k stack links matches hs s
    Gathers-snoc acc n k stack links matches x hs s (fuel, rest, i, v, le, len, eq) = (
      fuel,
      x ∷ rest,
      i,
      v,
      le,
      ap suc len,
      eq
          ∙ ap
              (λ l.
                loop fuel (state route l i v) stack (links ++ linked hs)
                  (matches ++ matches_of route hs))
              (append_assoc acc (x ∷ []) rest),
    )

    module _ (fuel : ℕ) (vars : List (Option ℕ)) (i v i' v' : ℕ) (stack : List (Frame T))
        (t : TreeRouter T) (b : Branch) (links : List (Link w))
        (matches : List (T × RouteState)) where
      abbrev pub popped : Searched h
      popped = loop (suc fuel) (state route vars i' v') ((t, b, (i, v)) ∷ stack) links matches

      pub loop_end :
          (i == length route) ≡ true
          → popped
            ≡ loop fuel
                (state route vars i v)
                stack
                (links ++ node_links h b t e.context.method)
                (matches ++ (item t, state route vars i v) ∷ [])
      unfolding search
      loop_end q = rw (q, search) refl

      pub loop_step :
          {s : Bytes}
          → (i == length route) ≡ false
          → get_elem? route i ≡ some s
          → popped
            ≡ loop fuel
                (advance t b (i, v) s (state route vars i v) stack).0
                (advance t b (i, v) s (state route vars i v) stack).1
                links
                matches
      unfolding search
      loop_step q g = rw (q, search) (rw g)

    -- What is to prove of a frame, and of all frames of a node.
    abbrev pub Visits : List Bytes → TreeRouter T → Branch → ℕ → List (Option ℕ) → Type 0
    Visits r t b v acc =
        (fuel : ℕ) (vars : List (Option ℕ)) (i i' v' k : ℕ) (stack : List (Frame T))
        (links : List (Link w)) (matches : List (T × RouteState))
        → Here route vars r acc i
        → cost (length r) b + k ≤ fuel
        → Gathers acc (length r) k stack links matches (hits r t b v acc)
            (loop fuel (state route vars i' v') ((t, b, (i, v)) ∷ stack) links matches)

    pub each-loop :
        (r : List Bytes) (t : TreeRouter T) (v : ℕ) (acc : List (Option ℕ))
        → ((b : Branch) → Visits r t b v acc)
        → (fuel : ℕ) (vars : List (Option ℕ)) (i i' v' k : ℕ) (stack : List (Frame T))
          (links : List (Link w)) (matches : List (T × RouteState))
        → Here route vars r acc i
        → cost_all (length r) + k ≤ fuel
        → Gathers acc
            (length r)
            k
            stack
            links
            matches
            (all_hits (λ b. hits r t b v acc))
            (loop fuel (state route vars i' v') (push_node t (i, v) stack) links matches)
    unfolding cost_all
    each-loop r t v acc ih fuel vars i i' v' k stack links matches here le =
        let c = λ (b : Branch). cost (length r) b in
        let last : List (Frame T) = (t, wildcard, (i, v)) ∷ stack in
        let found = λ (b : Branch). hits r t b v acc in
        Gathers-then acc (length r) (c variable + (c wildcard + k)) k ((t, variable, (i, v)) ∷ last)
          stack links matches (found static) (found variable ++ found wildcard) _
          (ih static fuel vars i i' v' (c variable + (c wildcard + k)) _ links matches here
            (omega arith))
          λ fuel₁ rest₁ i₁ v₁ le₁ len₁.
            Gathers-then acc (length r) (c wildcard + k) k last stack _ _ (found variable)
              (found wildcard) _
              (ih variable fuel₁ (acc ++ rest₁) i i₁ v₁ (c wildcard + k) last _ _
                (Here-move r rest₁ here len₁) le₁)
              λ fuel₂ rest₂ i₂ v₂ le₂ len₂.
                ih wildcard fuel₂ (acc ++ rest₂) i i₂ v₂ k stack _ _ (Here-move r rest₂ here len₂)
                  le₂

    -- A step into no child leaves the rest of the stack.
    Gathers-absent :
        (acc : List (Option ℕ)) (r : List Bytes) (fuel k : ℕ) (stack : List (Frame T))
        (links : List (Link w)) (matches : List (T × RouteState)) (vars : List (Option ℕ)) (i v : ℕ)
        → Here route vars r acc i
        → k ≤ fuel
        → Gathers acc
            (length r)
            k
            stack
            links
            matches
            []
            (loop fuel (state route vars i v) stack links matches)
    unfolding links_of
    Gathers-absent acc r fuel k stack links matches vars i v here le = (
      fuel,
      here.rest,
      i,
      v,
      le,
      here.rest_length,
      ap (λ l. loop fuel (state route l i v) stack links matches) here.vars_eq
          ∙ ap₂ (λ l m. loop fuel (state route (acc ++ here.rest) i v) stack l m)
              (sym (append-nil links)) (sym (append-nil matches)),
    )

    module _ (s : Bytes) (r : List Bytes) (v : ℕ) (acc : List (Option ℕ)) (fuel : ℕ)
        (vars : List (Option ℕ)) (i k : ℕ) (stack : List (Frame T)) (links : List (Link w))
        (matches : List (T × RouteState)) (here : Here route vars (s ∷ r) acc i) where
      abbrev pub at_frame : RouteState
      at_frame = state route vars i v

      pub skip-loop :
          (c : Child T)
          → ((n : TreeRouter T) (b : Branch) → Visits r n b v (acc ++ none ∷ []))
          → cost_all (length r) + k ≤ fuel
          → Gathers acc
              (suc (length r))
              k
              stack
              links
              matches
              (below c (λ n. all_hits (λ b. hits r n b v (acc ++ none ∷ []))))
              (loop fuel (skip_to c at_frame stack).0 (skip_to c at_frame stack).1 links matches)
      unfolding skip snapshot
      skip-loop absent ih le =
          Gathers-absent acc (s ∷ r) fuel k stack links matches vars i v here (omega arith)
      skip-loop (present n) ih le = Gathers-snoc acc (length r) k stack links matches none _ _ (
          each-loop r n v (acc ++ none ∷ []) (ih n) fuel (set vars i none) (i + 1) (i + 1) v k stack
            links matches (Here-step none here) le)

      pub keep-loop :
          (c : Child T)
          → ((n : TreeRouter T) (b : Branch) → Visits r n b (v + 1) (acc ++ some v ∷ []))
          → cost_all (length r) + k ≤ fuel
          → Gathers acc
              (suc (length r))
              k
              stack
              links
              matches
              (below c (λ n. all_hits (λ b. hits r n b (v + 1) (acc ++ some v ∷ []))))
              (loop fuel (keep_to c at_frame stack).0 (keep_to c at_frame stack).1 links matches)
      unfolding keep snapshot
      keep-loop absent ih le =
          Gathers-absent acc (s ∷ r) fuel k stack links matches vars i v here (omega arith)
      keep-loop (present n) ih le = Gathers-snoc acc (length r) k stack links matches (some v) _ _ (
          each-loop r n (v + 1) (acc ++ some v ∷ []) (ih n) fuel (set vars i (some v)) (i + 1)
            (i + 1) (v + 1) k stack links matches (Here-step (some v) here) le)

      pub fuse-loop :
          (c : Child T) (t : TreeRouter T)
          → ((n : TreeRouter T) (b : Branch) → Visits r n b (v + 1) (acc ++ some v ∷ []))
          → Visits r t wildcard v (acc ++ some v ∷ [])
          → cost_all (length r) + cost (length r) wildcard + k ≤ fuel
          → Gathers acc
              (suc (length r))
              k
              stack
              links
              matches
              (below c (λ n.
                all_hits (λ b. hits r n b (v + 1) (acc ++ some v ∷ []))
                ++ hits r t wildcard v (acc ++ some v ∷ [])))
              (loop fuel
                (fuse_to c t (i, v) at_frame stack).0
                (fuse_to c t (i, v) at_frame stack).1
                links
                matches)
      unfolding keep fuse snapshot go_to
      fuse-loop absent t ih longer le =
          Gathers-absent acc (s ∷ r) fuel k stack links matches vars i v here (omega arith)
      fuse-loop (present n) t ih longer le =
          let acc' : List (Option ℕ) = acc ++ some v ∷ [] in
          let rest : List (Frame T) = (t, wildcard, (i + 1, v)) ∷ stack in
          let twice : Here route (set (set vars i (some v)) i (some v)) r acc' (i + 1) =
            rw (set-set vars i (some v)) (Here-step (some v) here) in
          Gathers-snoc acc (length r) k stack links matches (some v) _ _ (
            Gathers-then acc' (length r) (cost (length r) wildcard + k) k rest stack links matches
              (all_hits (λ b. hits r n b (v + 1) acc')) (hits r t wildcard v acc') _
              (each-loop r n (v + 1) acc' (ih n) fuel _ (i + 1) (i + 1) (v + 1)
                (cost (length r) wildcard + k) rest links matches twice (omega arith))
              λ fuel₁ rest₁ i₁ v₁ le₁ len₁.
                longer fuel₁ (acc' ++ rest₁) (i + 1) i₁ v₁ k stack _ _
                  (Here-move r rest₁ twice len₁) le₁)
