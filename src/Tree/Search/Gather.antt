-- ===== src/Tree/Search/Gather.antt =====
-- src/handler/tree_router.rs: all findings of the search, for a router that looks for hyperlinks.
pub mod Loop
pub mod Visit
use rustful.Base.{ℕ, ◌+◌, Option, none, some, List, [], ◌∷◌, ◌++◌, Bytes}
use rustful.Http.{World, Link}
use rustful.Route.{RouteState}
use rustful.Handler.{HandleRequest}
use rustful.Tree.{
  TreeRouter, Branch, static, variable, wildcard, Child, absent, present, item, static_routes,
  variable_route, wildcard_route, get_route, node_links,
}
use rustful.Tree.Search.Loop.{state}
use rustful.Base.{length}

-- A frame of the search that is at the end of the path.
pub record Hit (T : Type 0) : Type 0 where
  pub at_node : TreeRouter T
  pub branch : Branch
  pub variables : List (Option ℕ)
  pub var_index : ℕ

module _ {T : Type 0} where
  abbrev pub below : Child T → (TreeRouter T → List (Hit T)) → List (Hit T)
  below absent k = []
  below (present n) k = k n

  abbrev pub all_hits : (Branch → List (Hit T)) → List (Hit T)
  all_hits f = f static ++ (f variable ++ f wildcard)

  -- The frames at the end, from one branch of a node, in the order of the search.
  unfoldable pub hits : List Bytes → TreeRouter T → Branch → ℕ → List (Option ℕ) → List (Hit T)
  hits [] t b v acc = record { at_node = t; branch = b; variables = acc; var_index = v } ∷ []
  hits (s ∷ r) t static v acc =
      below (get_route (static_routes t) s) (λ n. all_hits (λ b. hits r n b v (acc ++ none ∷ [])))
  hits (s ∷ r) t variable v acc =
      below (variable_route t) (λ n. all_hits (λ b. hits r n b (v + 1) (acc ++ some v ∷ [])))
  hits (s ∷ r) t wildcard v acc = below (wildcard_route t) (λ n.
      all_hits (λ b. hits r n b (v + 1) (acc ++ some v ∷ []))
      ++ hits r t wildcard v (acc ++ some v ∷ []))

  unfoldable pub gather : TreeRouter T → List Bytes → List (Hit T)
  unfolding hits
  gather t segments = all_hits (λ b. hits segments t b 0 [])

module _ {w : World} {T : Type 0} (h : HandleRequest w T) where
  -- the links that the findings add
  unfoldable pub links_of : w.Method → List (Hit T) → List (Link w)
  unfolding node_links
  links_of method [] = []
  links_of method (x ∷ hs) = node_links h x.branch x.at_node method ++ links_of method hs

-- the items that are asked, with their route states
abbrev pub matches_of : {T : Type 0} → List Bytes → List (Hit T) → List (T × RouteState)
matches_of route [] = []
matches_of route (x ∷ hs) =
    (item x.at_node, state route x.variables (length route) x.var_index) ∷ matches_of route hs
