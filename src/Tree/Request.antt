-- ===== src/Tree/Request.antt =====
-- src/handler/tree_router.rs: what `handle_request` answers.
pub mod Reach
pub mod Asking
pub mod Linking
use rustful.Base.{
  ℕ, zero, suc, ◌<◌, ◌≡◌, refl, ap, false, some, Option, none, List, [], arith, Bytes, length,
}
use rustful.Http.{World, Environment, Outcome, returned, panicked, set_status}
use rustful.Handler.{HandleRequest}
use rustful.Route.{RouteState, route_state, snapshot}
use rustful.Tree.{
  TreeRouter, find_hyperlinks, search, Searched, answer, conclude, concluded, handle_request_fuel,
  hyperlinks,
}
use rustful.Tree.Search.{Found, find, cost_all}
use rustful.Tree.Search.Position.{Here-start}
use rustful.Tree.Search.Loop.{state, end_state, Explores, each-loop, visit-loop}

module _ {w : World} {T : Type 0} (h : HandleRequest w T) where
  -- `handle_request`, with the fuel for the longest search over the segments of the route.
  unfoldable pub handle_request : TreeRouter T → Environment w → Option (Outcome w)
  unfolding handle_request_fuel cost_all
  handle_request t e = handle_request_fuel h (suc (cost_all (length e.route_state.route))) t e

  -- `none` never comes, as the fuel is enough
  abbrev settled : Option (Outcome w) → Outcome w
  settled none = panicked
  settled (some o) = o

  unfoldable pub answered_request : TreeRouter T → Environment w → Outcome w
  answered_request t e = settled (handle_request t e)

  instance abbrev pub TreeRouter_HandleRequest : HandleRequest w (TreeRouter T)
  TreeRouter_HandleRequest = record { handle_request = answered_request; hyperlinks = hyperlinks h }

  pub answered_request-some :
      (t : TreeRouter T) (e : Environment w) {o : Outcome w}
      → handle_request t e ≡ some o
      → answered_request t e ≡ o
  unfolding answered_request
  answered_request-some t e q = ap settled q

  -- The answer that a finding calls for; the route state of a request that nobody takes is `r`.
  abbrev pub found_answer : Environment w → List Bytes → RouteState → Option (Found T) → Outcome w
  found_answer e segments r (some f) =
      answer h f.item (record e { route_state = end_state segments f })
  found_answer e segments r none =
      returned (record e { route_state = r; response = set_status e.response 404 })

  module _ (e : Environment w) (segments : List Bytes) where
    finish :
        (o : Option (Found T)) (s : Searched h)
        → Explores h e segments [] (length segments) 1 [] o s
        → (r : RouteState) × (r.route ≡ segments)
          × (concluded h false e s ≡ some (found_answer e segments r o))
    unfolding concluded conclude search
    finish (some f) s p = (end_state segments f, refl, ap (concluded h false e) p)
    finish none s (zero, rest, i, v, le, len, eq) = absurd (omega arith)
    finish none s (suc fuel, rest, i, v, le, len, eq) =
        (state segments rest i v, refl, ap (concluded h false e) eq)

  handle_request_fuel-find :
      (fuel : ℕ) (t : TreeRouter T) (e : Environment w) (segments : List Bytes)
      → find_hyperlinks t ≡ false
      → e.route_state ≡ route_state segments
      → cost_all (length segments) < fuel
      → (r : RouteState) × (r.route ≡ segments)
        × (handle_request_fuel h fuel t e ≡ some (found_answer e segments r (find t segments 0 [])))
  unfolding handle_request_fuel find route_state snapshot
  handle_request_fuel-find fuel t e segments q f lt = rw q (
      rw f (
        finish e segments (find t segments 0 []) _ (
          each-loop h e segments segments t 0 [] (λ b. visit-loop h e segments segments t b 0 [])
            fuel _ 0 0 0 1 [] (Here-start segments) (omega arith))))

  -- A router that does not look for hyperlinks always answers a fresh request, and as the recursive
  -- search says: the first handler found, static before variable before wildcard and shorter
  -- sequences before longer ones, decides alone, with the variables of its own path and without
  -- hyperlinks; where none is found, the request comes back with the status 404.
  pub handle_request-find :
      (t : TreeRouter T) (e : Environment w) (segments : List Bytes)
      → find_hyperlinks t ≡ false
      → e.route_state ≡ route_state segments
      → (r : RouteState) × (r.route ≡ segments)
        × (handle_request t e ≡ some (found_answer e segments r (find t segments 0 [])))
  unfolding handle_request route_state
  handle_request-find t e segments q f =
      handle_request_fuel-find (suc (cost_all (length e.route_state.route))) t e segments q f
        (rw f (omega arith))
