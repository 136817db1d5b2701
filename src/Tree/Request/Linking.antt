-- ===== src/Tree/Request/Linking.antt =====
-- src/handler/tree_router.rs: what `handle_request` answers when it looks for hyperlinks, and that it always
-- answers.
use rustful.Base.{
  ℕ, zero, suc, ◌+◌, ◌<◌, ◌≡◌, refl, sym, ◌∙◌, ap, ap₂, true, Bool-cases, inl, inr, some, Option,
  none, List, [], ◌∷◌, ◌++◌, arith, Bytes, length,
}
use rustful.Http.{
  World, Environment, Outcome, handled, returned, panicked, replace_hyperlinks, Link,
}
use rustful.Http.Order.{sort_links, dedup_links}
use rustful.Tree.Request.Asking.{
  next_asked, asked, reference_answer, offered, links_of-offered, with_links, with_old_links,
}
use rustful.Handler.{HandleRequest}
use rustful.Route.{RouteState, route_state, snapshot}
use rustful.Tree.{
  TreeRouter, Branch, static, variable, wildcard, Child, absent, present, find_hyperlinks, search,
  Searched, conclude, concluded, try_matches, restored, handle_request_fuel, item, static_routes,
  variable_route, wildcard_route, get_route,
}
use rustful.Tree.Search.{Found, first, each, through, visit, find, cost_all}
use rustful.Tree.Search.Position.{Here-start}
use rustful.Tree.Search.Loop.{state}
use rustful.Tree.Search.Gather.{Hit, hits, all_hits, below, gather, links_of, matches_of}
use rustful.Tree.Search.Gather.Loop.{Gathers, each-loop}
use rustful.Tree.Search.Gather.Visit.{visit-loop}
use rustful.Tree.Request.{handle_request, handle_request-find}

module _ {T : Type 0} where
  abbrev as_found : Hit T → Found T
  as_found x = record { item = item x.at_node; variables = x.variables; var_index = x.var_index }

  abbrev pub first_hit : List (Hit T) → Option (Found T)
  first_hit [] = none
  first_hit (x ∷ hs) = some (as_found x)

  first_hit-append :
      (xs ys : List (Hit T)) → first_hit (xs ++ ys) ≡ first (first_hit xs) (first_hit ys)
  first_hit-append [] ys = refl
  first_hit-append (x ∷ xs) ys = refl

  each-all_hits :
      (f : Branch → Option (Found T)) (g : Branch → List (Hit T))
      → ((b : Branch) → f b ≡ first_hit (g b))
      → each f ≡ first_hit (all_hits g)
  each-all_hits f g e =
      ap₂ (λ x y. first x y) (e static)
        (ap₂ (λ x y. first x y) (e variable) (e wildcard)
          ∙ sym (first_hit-append (g variable) (g wildcard)))
      ∙ sym (first_hit-append (g static) (g variable ++ g wildcard))

  through-below :
      (c : Child T) (f : TreeRouter T → Option (Found T)) (g : TreeRouter T → List (Hit T))
      → ((n : TreeRouter T) → f n ≡ first_hit (g n))
      → through c f ≡ first_hit (below c g)
  through-below absent f g e = refl
  through-below (present n) f g e = e n

  visit-hits :
      (r : List Bytes) (t : TreeRouter T) (b : Branch) (v : ℕ) (acc : List (Option ℕ))
      → visit r t b v acc ≡ first_hit (hits r t b v acc)
  unfolding visit hits
  visit-hits [] t b v acc = refl
  visit-hits (s ∷ r) t static v acc =
      through-below (get_route (static_routes t) s) _ _
        λ n. each-all_hits _ _ (λ b. visit-hits r n b v (acc ++ none ∷ []))
  visit-hits (s ∷ r) t variable v acc =
      through-below (variable_route t) _ _
        λ n. each-all_hits _ _ (λ b. visit-hits r n b (v + 1) (acc ++ some v ∷ []))
  visit-hits (s ∷ r) t wildcard v acc = through-below (wildcard_route t) _ _ λ n.
      ap₂ (λ x y. first x y)
        (each-all_hits _ _ (λ b. visit-hits r n b (v + 1) (acc ++ some v ∷ [])))
        (visit-hits r t wildcard v (acc ++ some v ∷ []))
      ∙ sym (
          first_hit-append (all_hits (λ b. hits r n b (v + 1) (acc ++ some v ∷ [])))
            (hits r t wildcard v (acc ++ some v ∷ [])))

  -- The first of all findings is the only one that a router without hyperlinks asks; where it finds
  -- nothing, there are no findings at all.
  find-gather :
      (t : TreeRouter T) (segments : List Bytes)
      → find t segments 0 [] ≡ first_hit (gather t segments)
  unfolding find gather
  find-gather t segments = each-all_hits _ _ (λ b. visit-hits segments t b 0 [])

module _ {w : World} {T : Type 0} (h : HandleRequest w T) where
  -- What the router does with all findings: the handlers are asked in order, with all links.
  abbrev linked_answer : Environment w → List Bytes → RouteState → List (Hit T) → Outcome w
  linked_answer e segments r hs =
      conclude h true (record e { route_state = r }) (links_of h e.context.method hs)
        (matches_of segments hs)

  try_matches-asked :
      (segments : List Bytes) (hs : List (Hit T)) (e : Environment w)
      → try_matches h (matches_of segments hs) e ≡ asked h segments hs e
  unfolding try_matches
  try_matches-asked segments [] e = refl
  try_matches-asked segments (x ∷ hs) e =
      go
        (h.handle_request (item x.at_node)
          (record e { route_state = state segments x.variables (length segments) x.var_index }))
        (λ e'. try_matches-asked segments hs e')
    where
      go :
          (o : Outcome w)
          → ((e' : Environment w)
              → try_matches h (matches_of segments hs) e' ≡ asked h segments hs e')
          → elim o [
            | handled y ↦ handled y
            | returned e' ↦ try_matches h (matches_of segments hs) e'
            | panicked ↦ panicked
          ]
            ≡ next_asked o (λ e'. asked h segments hs e')
      go (handled y) k = refl
      go (returned e') k = k e'
      go panicked k = refl

  -- the environment that the first handler is asked with
  abbrev asking : Environment w → List Bytes → RouteState → List (Hit T) → Environment w
  asking e segments r hs =
      with_links (dedup_links w (sort_links w (offered h e.context.method hs)))
        (record e { route_state = r })

  linked_answer-reference :
      (e : Environment w) (segments : List Bytes) (r : RouteState) (hs : List (Hit T))
      → linked_answer e segments r hs ≡ reference_answer h e segments r hs
  unfolding conclude replace_hyperlinks restored
  linked_answer-reference e segments r [] = refl
  linked_answer-reference e segments r (x ∷ hs) =
      ap (λ links. answered_with (dedup_links w (sort_links w links)))
        (links_of-offered h e.context.method (x ∷ hs))
      ∙ ap (λ o. restored h e.context.hyperlinks o)
          (try_matches-asked segments (x ∷ hs) (asking e segments r (x ∷ hs)))
      ∙ go (asked h segments (x ∷ hs) (asking e segments r (x ∷ hs)))
    where
      answered_with : List (Link w) → Outcome w
      answered_with links = restored h e.context.hyperlinks (
          try_matches h (matches_of segments (x ∷ hs))
            (with_links links (record e { route_state = r })))

      go :
          (o : Outcome w)
          → restored h e.context.hyperlinks o ≡ with_old_links e.context.hyperlinks o
      go (handled y) = refl
      go (returned e') = refl
      go panicked = refl

  finish :
      (e : Environment w) (segments : List Bytes) (hs : List (Hit T)) (s : Searched h)
      → Gathers h e segments [] (length segments) 1 [] [] [] hs s
      → (r : RouteState) × (r.route ≡ segments)
        × (concluded h true e s ≡ some (linked_answer e segments r hs))
  unfolding concluded search
  finish e segments hs s (zero, rest, i, v, le, len, eq) = absurd (omega arith)
  finish e segments hs s (suc fuel, rest, i, v, le, len, eq) =
      (state segments rest i v, refl, ap (concluded h true e) eq)

  handle_request_fuel-gather :
      (fuel : ℕ) (t : TreeRouter T) (e : Environment w) (segments : List Bytes)
      → find_hyperlinks t ≡ true
      → e.route_state ≡ route_state segments
      → cost_all (length segments) < fuel
      → (r : RouteState) × (r.route ≡ segments)
        × (handle_request_fuel h fuel t e ≡ some (linked_answer e segments r (gather t segments)))
  unfolding handle_request_fuel gather route_state snapshot
  handle_request_fuel-gather fuel t e segments q f lt = rw q (
      rw f (
        finish e segments (gather t segments) _ (
          each-loop h e segments segments t 0 [] (λ b. visit-loop h e segments segments t b 0 [])
            fuel _ 0 0 0 1 [] [] [] (Here-start segments) (omega arith))))

  -- A router that looks for hyperlinks always answers a fresh request: it asks the handlers of all findings, in
  -- the order of the search, each with the variables of its own way, until one takes the request or panics, and all of
  -- them get the links that the findings offer, sorted and without repetition; a request that none takes comes back as the
  -- last of them left it, with its old links. Where nothing is found, the request comes back with the status 404.
  pub handle_request-gather :
      (t : TreeRouter T) (e : Environment w) (segments : List Bytes)
      → find_hyperlinks t ≡ true
      → e.route_state ≡ route_state segments
      → (r : RouteState) × (r.route ≡ segments)
        × (handle_request h t e ≡ some (reference_answer h e segments r (gather t segments)))
  unfolding handle_request route_state
  handle_request-gather t e segments q f =
      let (r, route_eq, eq) =
        handle_request_fuel-gather (suc (cost_all (length e.route_state.route))) t e segments q f
          (rw f (omega arith)) in
      (r, route_eq, eq ∙ ap some (linked_answer-reference e segments r (gather t segments)))

  -- Handling a fresh request ends for every tree and path, with hyperlinks and without them: the fuel of
  -- `handle_request` is enough for all rounds of its loop.
  pub handle_request-Total :
      (t : TreeRouter T) (e : Environment w) (segments : List Bytes)
      → e.route_state ≡ route_state segments
      → (o : Outcome w) × (handle_request h t e ≡ some o)
  handle_request-Total t e segments f = elim (Bool-cases (find_hyperlinks t)) [
    | inl linking ↦ let (r, p, q) = handle_request-gather t e segments linking f in (_, q)
    | inr plain ↦ let (r, p, q) = handle_request-find h t e segments plain f in (_, q)
  ]
