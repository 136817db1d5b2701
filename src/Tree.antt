-- ===== src/Tree.antt =====
-- src/handler/tree_router.rs: the tree of nodes and the search for the handler of a path.
pub mod Search
pub mod Request
pub mod Build
pub mod Traverse
pub mod Default
mod Tests
mod LinkTests
mod BuildTests
pub mod DefaultTests
mod TableTests
use rustful.Base.{
  ℕ, zero, suc, Bool, true, false, Option, none, some, List, [], ◌∷◌, ◌++◌, Bytes, bytes_discrete,
  ite, if◌then◌else◌,
}
use rustful.Text.{MaybeUtf8, from_vec, utf8}
use rustful.Http
use rustful.Http.{
  World, Link, LinkSegment, variable_segment, variable_sequence, Environment, Outcome, handled,
  returned, panicked, replace_hyperlinks, set_status, SegmentType,
}
use rustful.Http.Order.{sort_links, dedup_links, leads_elsewhere}
use rustful.Handler.{HandleRequest}
use rustful.Route.{RouteState, Snapshot, get_segment, skip, keep, fuse, snapshot, go_to, is_empty}

-- `static_routes` is a list of entries without repeated keys, in the order of iteration.
mutual
  pub data TreeRouter (T : Type 0) : Type 0 where
    node : T → Routes T → Child T → Child T → Bool → TreeRouter T

  pub data Routes (T : Type 0) : Type 0 where
    no_routes : Routes T
    route : Bytes → TreeRouter T → Routes T → Routes T

  pub data Child (T : Type 0) : Type 0 where
    absent : Child T
    present : TreeRouter T → Child T

pub data Branch : Type 0 where
  static variable wildcard : Branch

abbrev pub Frame : Type 0 → Type 0
Frame T = TreeRouter T × Branch × Snapshot

module _ {T : Type 0} where
  abbrev pub item : TreeRouter T → T
  item (node i s v w f) = i

  abbrev pub static_routes : TreeRouter T → Routes T
  static_routes (node i s v w f) = s

  abbrev pub variable_route : TreeRouter T → Child T
  variable_route (node i s v w f) = v

  abbrev pub wildcard_route : TreeRouter T → Child T
  wildcard_route (node i s v w f) = w

  abbrev pub find_hyperlinks : TreeRouter T → Bool
  find_hyperlinks (node i s v w f) = f

  unfoldable pub with_handler : T → TreeRouter T
  with_handler handler = node handler no_routes absent absent false

  -- `static_routes.get(segment)`
  unfoldable pub get_route : Routes T → Bytes → Child T
  get_route no_routes key = absent
  get_route (route k n rs) key = ite (bytes_discrete k key) (present n) (get_route rs key)

  -- the three pushes for a node; the top of the stack is the head
  abbrev pub push_node : TreeRouter T → Snapshot → List (Frame T) → List (Frame T)
  push_node n s stack = (n, static, s) ∷ (n, variable, s) ∷ (n, wildcard, s) ∷ stack

  abbrev pub skip_to : Child T → RouteState → List (Frame T) → RouteState × List (Frame T)
  skip_to absent r stack = (r, stack)
  skip_to (present n) r stack = let r' = skip r in (r', push_node n (snapshot r') stack)

  abbrev pub keep_to : Child T → RouteState → List (Frame T) → RouteState × List (Frame T)
  keep_to absent r stack = (r, stack)
  keep_to (present n) r stack = let r' = keep r in (r', push_node n (snapshot r') stack)

  -- the rest of the sequence is tried after all that is below the next node
  abbrev pub fuse_to :
      Child T → TreeRouter T → Snapshot → RouteState → List (Frame T) → RouteState × List (Frame T)
  fuse_to absent current at r stack = (r, stack)
  fuse_to (present n) current at r stack =
      let fused = fuse r in
      let longer : Frame T = (current, wildcard, snapshot fused) in
      let r' = keep (go_to fused at) in (r', push_node n (snapshot r') (longer ∷ stack))

  -- the `match branch` of the loop
  pub advance :
      TreeRouter T
      → Branch
      → Snapshot
      → Bytes
      → RouteState
      → List (Frame T)
      → RouteState × List (Frame T)
  unfolding get_route skip keep fuse snapshot go_to
  advance current static at segment r stack =
      skip_to (get_route (static_routes current) segment) r stack
  advance current variable at segment r stack = keep_to (variable_route current) r stack
  advance current wildcard at segment r stack = fuse_to (wildcard_route current) current at r stack

-- the hyperlink with one more segment than its base
module _ {w : World} where
  abbrev extend_link : Link w → MaybeUtf8 → SegmentType → Link w
  extend_link base label ty = record base {
    path = base.path ++ record { label = label; ty = ty } ∷ [];
  }

  module _ {T : Type 0} where
    abbrev route_links : Link w → Routes T → List (Link w)
    route_links base no_routes = []
    route_links base (route k n rs) =
        extend_link base (from_vec k) SegmentType.static ∷ route_links base rs

    abbrev child_link : Link w → SegmentType → Child T → List (Link w)
    child_link base ty absent = []
    child_link base ty (present n) = extend_link base (utf8 []) ty ∷ []

    -- the links to the children of a node
    unfoldable pub child_links : TreeRouter T → Link w → List (Link w)
    unfolding from_vec
    child_links t base =
        route_links base (static_routes t)
        ++ child_link base variable_segment (variable_route t)
        ++ child_link base variable_sequence (wildcard_route t)

abbrev own_link : (w : World) → Link w
own_link w = record { method = none; path = []; handler = none }

module _ {w : World} {T : Type 0} (h : HandleRequest w T) where
  -- `hyperlinks` of the router
  unfoldable pub hyperlinks : TreeRouter T → Link w → List (Link w)
  unfolding child_links
  hyperlinks t base = h.hyperlinks (item t) base ++ child_links t base

  abbrev keep_where : (Link w → Bool) → List (Link w) → List (Link w)
  keep_where p [] = []
  keep_where p (l ∷ ls) = if p l then l ∷ keep_where p ls else keep_where p ls

  -- the links that a matching node adds, on its static branch only
  pub node_links : Branch → TreeRouter T → w.Method → List (Link w)
  unfolding child_links leads_elsewhere
  node_links static t method =
      keep_where (leads_elsewhere w method) (h.hyperlinks (item t) (own_link w))
      ++ child_links t (own_link w)
  node_links variable t method = []
  node_links wildcard t method = []

  -- How the search ends: it answers at once, or it hands over what it found; or the fuel is out.
  pub data Searched : Type 0 where
    out_of_fuel : Searched
    answered : Outcome w → Searched
    exhausted : RouteState → List (Link w) → List (T × RouteState) → Searched

  -- `replace_hyperlinks(…).0` on a returned environment
  unfoldable pub restored : List (Link w) → Outcome w → Outcome w
  restored old_links (handled x) = handled x
  restored old_links (returned e) = returned (replace_hyperlinks e old_links).0
  restored old_links panicked = panicked

  -- the early answer of a router that does not look for hyperlinks
  pub answer : T → Environment w → Outcome w
  unfolding restored replace_hyperlinks
  answer i e =
      let (e', old_links) = replace_hyperlinks e [] in restored old_links (h.handle_request i e')

  module _ (linking : Bool) (environment : Environment w) where
    abbrev pub at_route : RouteState → Environment w
    at_route r = record environment { route_state = r }

    -- `while let Some(…) = stack.pop()`; the loop changes nothing in the environment but the route state
    pub search : ℕ → RouteState → List (Frame T) → List (Link w) → List (T × RouteState) → Searched
    unfolding advance answer node_links get_segment go_to is_empty
    search zero r stack links matches = out_of_fuel
    search (suc fuel) r [] links matches = exhausted r links matches
    search (suc fuel) r ((current, branch, at) ∷ stack) links matches =
        let here = go_to r at in
        elim (is_empty here) [
          | true ↦ elim linking [
            | false ↦ answered (answer (item current) (at_route here))
            | true ↦
                search fuel here stack
                  (links ++ node_links branch current environment.context.method)
                  (matches ++ (item current, here) ∷ [])
          ]
          | false ↦ elim (get_segment here) [
            | none ↦ search fuel here stack links matches
            | some segment ↦
                let (r', stack') = advance current branch at segment here stack in
                search fuel r' stack' links matches
          ]
        ]

  -- the loop over the matches; an environment that comes back goes to the next
  pub try_matches : List (T × RouteState) → Environment w → Outcome w
  try_matches [] e = returned e
  try_matches ((i, r) ∷ ms) e = elim (h.handle_request i (record e { route_state = r })) [
    | handled x ↦ handled x
    | returned e' ↦ try_matches ms e'
    | panicked ↦ panicked
  ]

  -- what follows the loop
  pub conclude : Bool → Environment w → List (Link w) → List (T × RouteState) → Outcome w
  unfolding try_matches restored replace_hyperlinks set_status
  conclude linking e links [] = returned (record e { response = set_status e.response 404 })
  conclude false e links (m ∷ ms) = returned e
  conclude true e links (m ∷ ms) =
      let (e', old_links) = replace_hyperlinks e (dedup_links w (sort_links w links)) in
      restored old_links (try_matches (m ∷ ms) e')

  pub concluded : Bool → Environment w → Searched → Option (Outcome w)
  unfolding conclude
  concluded linking e out_of_fuel = none
  concluded linking e (answered o) = some o
  concluded linking e (exhausted r links matches) =
      some (conclude linking (record e { route_state = r }) links matches)

  -- `handle_request` on fuel; `none` means that the fuel ran out
  unfoldable pub handle_request_fuel : ℕ → TreeRouter T → Environment w → Option (Outcome w)
  unfolding search concluded snapshot
  handle_request_fuel fuel t e =
      let now = snapshot e.route_state in
      concluded (find_hyperlinks t) e
        (search (find_hyperlinks t) e fuel e.route_state (push_node t now []) [] [])
