-- ===== src/Tree/Request/Asking.antt =====
-- src/handler/tree_router.rs: the reference for a router that looks for hyperlinks: which links its findings offer, and
-- who is asked.
use rustful.Base.{
  ◌≡◌, refl, ap, ap₂, Bool, true, false, List, [], ◌∷◌, ◌++◌, Bytes, length, if◌then◌else◌, not,
  ◌||◌, none, some, Option, ite,
}
use rustful.Text.{from_vec}
use rustful.Route.{RouteState}
use rustful.Http.{
  World, Link, LinkSegment, SegmentType, variable_segment, variable_sequence, Environment, Outcome,
  handled, returned, panicked, set_status,
}
use rustful.Text.Utf8.{is_valid}
use rustful.Http.Order.{same_method, sort_links, dedup_links, leads_elsewhere}
use rustful.Handler.{HandleRequest}
use rustful.Tree.{
  TreeRouter, Routes, Child, no_routes, route, absent, present, Branch, static, variable, wildcard,
  item, static_routes, variable_route, wildcard_route, node_links, child_links, child_link,
  route_links, keep_where,
}
use rustful.Tree.Search.Loop.{state}
use rustful.Tree.Search.Gather.{Hit, links_of}

module _ (w : World) where
  -- a link of one segment
  abbrev pub way : Bytes → SegmentType → Link w
  way label ty = record {
    method = none;
    path = record { label = from_vec label; ty = ty } ∷ [];
    handler = none;
  }

  module _ {T : Type 0} where
    abbrev pub static_ways : Routes T → List (Link w)
    static_ways no_routes = []
    static_ways (route k n rs) = way k SegmentType.static ∷ static_ways rs

    abbrev pub way_to : SegmentType → Child T → List (Link w)
    way_to ty absent = []
    way_to ty (present n) = way [] ty ∷ []

    -- a link for each child: to a static one under its name, to the others without a name
    abbrev pub ways : TreeRouter T → List (Link w)
    ways t =
        static_ways (static_routes t)
        ++ way_to variable_segment (variable_route t)
        ++ way_to variable_sequence (wildcard_route t)

  -- the link is to the path and the method of the request itself
  abbrev pub to_method : w.Method → Option w.Method → Bool
  to_method m none = false
  to_method m (some k) = ite (w.method_discrete k m) true false

  abbrev pub to_itself : w.Method → Link w → Bool
  to_itself m l = elim l.path [ [] ↦ to_method m l.method | s ∷ ss ↦ false ]

  abbrev pub others : w.Method → List (Link w) → List (Link w)
  others m [] = []
  others m (l ∷ ls) = if to_itself m l then others m ls else l ∷ others m ls

negated : (b : Bool) → (not b || not true) ≡ not b
negated true = refl
negated false = refl

never : (b : Bool) → (b || not false) ≡ not false
never true = refl
never false = refl

module _ {w : World} where
  -- the empty link of a node
  abbrev pub here : Link w
  here = record { method = none; path = []; handler = none }

  static_ways-lem : {T : Type 0} (rs : Routes T) → route_links here rs ≡ static_ways w rs
  static_ways-lem no_routes = refl
  static_ways-lem (route k n rs) = ap (λ ls. way w k SegmentType.static ∷ ls) (static_ways-lem rs)

  child_links-ways : {T : Type 0} (t : TreeRouter T) → child_links t here ≡ ways w t
  unfolding child_links from_vec is_valid
  child_links-ways t =
      ap₂ (λ xs ys. xs ++ ys)
        (ap₂ (λ xs ys. xs ++ ys) (static_ways-lem (static_routes t))
          (go variable_segment (variable_route t)))
        (go variable_sequence (wildcard_route t))
    where
      go : {T : Type 0} (ty : SegmentType) (c : Child T) → child_link here ty c ≡ way_to w ty c
      go ty absent = refl
      go ty (present n) = refl

  leads_elsewhere-to_itself :
      (m : w.Method) (l : Link w) → leads_elsewhere w m l ≡ not (to_itself w m l)
  unfolding leads_elsewhere same_method
  leads_elsewhere-to_itself m l = go l.method l.path
    where
      go :
          (o : Option w.Method) (ss : List LinkSegment)
          → leads_elsewhere w m (record l { method = o; path = ss })
            ≡ not (elim ss [ [] ↦ to_method w m o | s ∷ ts ↦ false ])
      go none [] = refl
      go (some k) [] = negated (ite (w.method_discrete k m) true false)
      go none (s ∷ ss) = refl
      go (some k) (s ∷ ss) = never (not (ite (w.method_discrete k m) true false))

module _ {w : World} where
  abbrev pub next_asked : Outcome w → (Environment w → Outcome w) → Outcome w
  next_asked (handled y) rest = handled y
  next_asked (returned e) rest = rest e
  next_asked panicked rest = panicked

  abbrev pub with_links : List (Link w) → Environment w → Environment w
  with_links links e = record e { context = record e.context { hyperlinks = links } }

  -- an environment that comes back has its old links
  abbrev pub with_old_links : List (Link w) → Outcome w → Outcome w
  with_old_links links (handled y) = handled y
  with_old_links links (returned e) = returned (with_links links e)
  with_old_links links panicked = panicked

module _ {w : World} {T : Type 0} (h : HandleRequest w T) where
  -- What a finding offers: on its static branch the links of the handler but for the one to the request itself, and
  -- links to all children.
  abbrev pub offered_by : w.Method → Branch → TreeRouter T → List (Link w)
  offered_by m static t = others w m (h.hyperlinks (item t) here) ++ ways w t
  offered_by m variable t = []
  offered_by m wildcard t = []

  abbrev pub offered : w.Method → List (Hit T) → List (Link w)
  offered m [] = []
  offered m (x ∷ hs) = offered_by m x.branch x.at_node ++ offered m hs

  keep_where-others :
      (m : w.Method) (ls : List (Link w)) → keep_where h (leads_elsewhere w m) ls ≡ others w m ls
  keep_where-others m [] = refl
  keep_where-others m (l ∷ ls) =
      rw (leads_elsewhere-to_itself m l) (go (to_itself w m l) (keep_where-others m ls))
    where
      go :
          (b : Bool) {xs ys : List (Link w)}
          → xs ≡ ys
          → (if not b then l ∷ xs else xs) ≡ (if b then ys else l ∷ ys)
      go true e = e
      go false e = ap (λ zs. l ∷ zs) e

  node_links-offered :
      (m : w.Method) (b : Branch) (t : TreeRouter T) → node_links h b t m ≡ offered_by m b t
  unfolding node_links
  node_links-offered m static t =
      ap₂ (λ xs ys. xs ++ ys) (keep_where-others m (h.hyperlinks (item t) here))
        (child_links-ways t)
  node_links-offered m variable t = refl
  node_links-offered m wildcard t = refl

  pub links_of-offered : (m : w.Method) (hs : List (Hit T)) → links_of h m hs ≡ offered m hs
  unfolding links_of
  links_of-offered m [] = refl
  links_of-offered m (x ∷ hs) =
      ap₂ (λ xs ys. xs ++ ys) (node_links-offered m x.branch x.at_node) (links_of-offered m hs)

  -- The handlers of the findings are asked in order, each with the variables of its own way.
  abbrev pub asked : List Bytes → List (Hit T) → Environment w → Outcome w
  asked segments [] e = returned e
  asked segments (x ∷ hs) e =
      next_asked
        (h.handle_request (item x.at_node)
          (record e { route_state = state segments x.variables (length segments) x.var_index }))
        (λ e'. asked segments hs e')

  abbrev pub reference_answer : Environment w → List Bytes → RouteState → List (Hit T) → Outcome w
  reference_answer e segments r [] =
      returned (record e { route_state = r; response = set_status e.response 404 })
  reference_answer e segments r (x ∷ hs) = with_old_links e.context.hyperlinks (
      asked segments (x ∷ hs) (
        with_links (dedup_links w (sort_links w (offered e.context.method (x ∷ hs))))
          (record e { route_state = r })))
