-- ===== src/Tree/Request/Reach.antt =====
-- src/handler/tree_router.rs: the answer of `handle_request` by the ways that a path has through the tree.
use rustful.Base.{
  ℕ, ◌≡◌, ◌⊎◌, inl, inr, ◌∙◌, ap, ap₂, false, Option, some, List, [], Bytes, length, Option-cases,
}
use rustful.Http.{World, Environment, returned, set_status}
use rustful.Handler.{HandleRequest}
use rustful.Route.{RouteState, route_state}
use rustful.Tree.{TreeRouter, item, find_hyperlinks, answer}
use rustful.Tree.Search.{find}
use rustful.Tree.Search.Loop.{state}
use rustful.Tree.Search.Reach.{Reaches, Reaches-Finds, find-Reaches}
use rustful.Tree.Request.{handle_request, handle_request-find, found_answer}

module _ {w : World} {T : Type 0} (h : HandleRequest w T) where
  -- A router that does not look for hyperlinks answers a fresh request in one of two ways. Either the
  -- segments lead to a node of the tree, with each variable taking one segment and each sequence one or
  -- more, and the item of such a node decides, its route state at the end and with the variables of the
  -- way; or they lead to no node, and the request comes back with the status 404.
  pub handle_request-Reaches :
      (t : TreeRouter T) (e : Environment w) (segments : List Bytes)
      → find_hyperlinks t ≡ false
      → e.route_state ≡ route_state segments
      → ((n : TreeRouter T) × (last : ℕ) × (vars : List (Option ℕ)) × Reaches n last t segments 0
            vars
          × (handle_request h t e
              ≡ some (
                  answer h
                    (item n)
                    (record e { route_state = state segments vars (length segments) last }))))
        ⊎ (((n : TreeRouter T) (last : ℕ) (vars : List (Option ℕ))
              → ¬ Reaches n last t segments 0 vars)
            × ((r : RouteState) × (handle_request h t e
                  ≡ some (
                      returned
                        (record e { route_state = r; response = set_status e.response 404 })))))
  handle_request-Reaches t e segments q f =
      let (r, s, eq) = handle_request-find h t e segments q f in
      elim (Option-cases (find t segments 0 [])) [
        | inl miss ↦ inr (
          λ n last vars w. let (g, found) = Reaches-Finds w [] in cc,
          (r, eq ∙ ap (λ o. some (found_answer h e segments r o)) miss),
        )
        | inr (g, hit) ↦
            let (n, vars, w, i, v) = find-Reaches segments t 0 [] hit in
            inl (
              n,
              g.var_index,
              vars,
              w,
              eq
                  ∙ ap (λ o. some (found_answer h e segments r o)) hit
                  ∙ ap
                      (λ (x : T × List (Option ℕ)). some (
                        answer h x.0 (record e {
                          route_state = state segments x.1 (length segments) g.var_index;
                        })))
                      (ap₂ (λ i vs. (i, vs)) i v),
            )
      ]
