-- ===== src/Tree/Search/Gather/Visit.antt =====
-- src/handler/tree_router.rs: every frame of the loop gathers its findings.
use rustful.Base.{
  ℕ, zero, suc, ◌+◌, ◌≡◌, refl, sym, ◌∙◌, ap₂, some, Option, none, List, [], ◌∷◌, ◌++◌, append-nil,
  arith, subst, Bytes, length,
}
use rustful.Http.{World, Environment, Link}
use rustful.Handler.{HandleRequest}
use rustful.Route.{RouteState}
use rustful.Tree.{
  TreeRouter, Branch, static, variable, wildcard, item, static_routes, variable_route,
  wildcard_route, get_route, Frame, node_links, advance,
}
use rustful.Tree.Search.{cost, cost_all}
use rustful.Tree.Search.Loop.{state, cost_pos}
use rustful.Tree.Search.Position.{Here, Here-end, Here-segment}
use rustful.Tree.Search.Gather.{hits, links_of}
use rustful.Tree.Search.Gather.Loop.{
  loop, Gathers, Visits, loop_end, loop_step, skip-loop, keep-loop, fuse-loop,
}

module _ {w : World} {T : Type 0} (h : HandleRequest w T) (e : Environment w)
    (route : List Bytes) where
  visit-end :
      (t : TreeRouter T) (b : Branch) (v : ℕ) (acc : List (Option ℕ)) (fuel : ℕ)
      (vars : List (Option ℕ)) (i i' v' : ℕ) (stack : List (Frame T)) (links : List (Link w))
      (matches : List (T × RouteState))
      → Here route vars [] acc i
      → loop h e (suc fuel) (state route vars i' v') ((t, b, (i, v)) ∷ stack) links matches
        ≡ loop h e fuel
            (state route (acc ++ []) i v)
            stack
            (links ++ (node_links h b t e.context.method ++ []))
            (matches ++ (item t, state route acc (length route) v) ∷ [])
  visit-end t b v acc fuel vars i i' v' stack links matches here =
      let (q, va, ie) = Here-end here in
      loop_end h e route fuel vars i v i' v' stack t b links matches q
      ∙ ap₂
          (λ a l.
            loop h e fuel (state route a i v) stack (links ++ l)
              (matches ++ (item t, state route vars i v) ∷ []))
          (va ∙ sym (append-nil acc)) (sym (append-nil (node_links h b t e.context.method)))
      ∙ ap₂
          (λ a m.
            loop h e fuel (state route (acc ++ []) i v) stack
              (links ++ (node_links h b t e.context.method ++ []))
              (matches ++ (item t, state route a m v) ∷ []))
          va ie

  pub visit-loop :
      (r : List Bytes) (t : TreeRouter T) (b : Branch) (v : ℕ) (acc : List (Option ℕ))
      → Visits h e route r t b v acc
  unfolding hits links_of cost cost_all advance get_route
  visit-loop [] t b v acc zero vars i i' v' k stack links matches here le = absurd (omega arith)
  visit-loop [] t b v acc (suc fuel) vars i i' v' k stack links matches here le = (
    fuel,
    [],
    i,
    v,
    omega arith,
    refl,
    visit-end t b v acc fuel vars i i' v' stack links matches here,
  )
  visit-loop (s ∷ r) t b v acc zero vars i i' v' k stack links matches here le =
      absurd (omega (arith, cost_pos (length (s ∷ r)) b))
  visit-loop (s ∷ r) t static v acc (suc fuel) vars i i' v' k stack links matches here le =
      let (g, q) = Here-segment here in
      subst
        (Gathers h e route acc (suc (length r)) k stack links matches (hits (s ∷ r) t static v acc))
        (sym (loop_step h e route fuel vars i v i' v' stack t static links matches q g))
        (skip-loop h e route s r v acc fuel vars i k stack links matches here
          (get_route (static_routes t) s) (λ n b. visit-loop r n b v (acc ++ none ∷ []))
          (omega arith))
  visit-loop (s ∷ r) t variable v acc (suc fuel) vars i i' v' k stack links matches here le =
      let (g, q) = Here-segment here in
      subst
        (Gathers h e route acc (suc (length r)) k stack links matches
          (hits (s ∷ r) t variable v acc))
        (sym (loop_step h e route fuel vars i v i' v' stack t variable links matches q g))
        (keep-loop h e route s r v acc fuel vars i k stack links matches here (variable_route t)
          (λ n b. visit-loop r n b (v + 1) (acc ++ some v ∷ [])) (omega arith))
  visit-loop (s ∷ r) t wildcard v acc (suc fuel) vars i i' v' k stack links matches here le =
      let (g, q) = Here-segment here in
      subst
        (Gathers h e route acc (suc (length r)) k stack links matches
          (hits (s ∷ r) t wildcard v acc))
        (sym (loop_step h e route fuel vars i v i' v' stack t wildcard links matches q g))
        (fuse-loop h e route s r v acc fuel vars i k stack links matches here (wildcard_route t) t
          (λ n b. visit-loop r n b (v + 1) (acc ++ some v ∷ []))
          (visit-loop r t wildcard v (acc ++ some v ∷ [])) (omega arith))
