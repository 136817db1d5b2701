-- ===== src/Tree/LinkTests.antt =====
-- Requests at concrete trees, with and without hyperlinks.
use rustful.Base.{ℕ, ◌≡◌, refl, true, Option, some, List, [], ◌∷◌, Bytes}
use rustful.Http.{Outcome, handled}
use rustful.Handler.{option_request, handler_request}
use rustful.Route.{RouteState, segments}
use rustful.Sample.{world, contexts, optional, keep_context, some_handler, no_handler, request}
use rustful.Tree.{
  TreeRouter, node, no_routes, absent, present, item, get_route, answer, static, variable, wildcard,
}
use rustful.Tree.Search.Loop.{state}
use rustful.Tree.Search.Reach.{Reaches}
use rustful.Tree.Search.Gather.{gather}
use rustful.Tree.Request.{handle_request}
use rustful.Tree.Request.Linking.{handle_request-gather, handle_request-Total}
use rustful.Tree.Build.{Builder, on_path, branch_of}
use rustful.Tree.Build.Routed.{literal, one_segment, nothing, handle_request-on_path}
use rustful.Tree.Tests.{leaf, a_c, a_x, at_tree}

handle_request-on_path_example :
    (b' : Builder contexts (Option ℕ)) × (on_path keep_context no_handler some_handler at_tree a_x 7
      ≡ some b')
    × (n : TreeRouter (Option ℕ)) × (last : ℕ) × (vars : List (Option ℕ)) × Reaches n last b'.node
        a_c 0 vars
    × (handle_request optional b'.node (request 0 200 a_c)
        ≡ some (
            answer optional
              (item n)
              (record (request 0 200 a_c) { route_state = state a_c vars 2 last })))
unfolding segments branch_of
handle_request-on_path_example =
    handle_request-on_path keep_context no_handler some_handler at_tree a_x 7 optional
      (request 0 200 a_c) a_c refl refl refl (literal refl refl (one_segment refl nothing))

-- 9 at the root and 3 at "*y", with hyperlinks
abbrev linking : TreeRouter (Option ℕ)
linking = node (some 9) no_routes absent (present (leaf 3)) true

abbrev one_a : List Bytes
one_a = (b'a' ∷ []) ∷ []

handle_request-gather_example :
    (r : RouteState) × (r.route ≡ one_a)
    × (handle_request optional linking (request 0 200 one_a) ≡ some (handled (3, [])))
unfolding gather get_route option_request handler_request
handle_request-gather_example =
    handle_request-gather optional linking (request 0 200 one_a) one_a refl refl

handle_request-Total_example :
    (o : Outcome world) × (handle_request optional linking (request 0 200 one_a) ≡ some o)
handle_request-Total_example =
    handle_request-Total optional linking (request 0 200 one_a) one_a refl

-- For "a" the node at "*y" is asked three times, and then the root, to which the path "a" does not lead.
root_is_asked :
    gather linking one_a
    ≡ record { at_node = leaf 3; branch = static; variables = some 0 ∷ []; var_index = 1 }
      ∷ record { at_node = leaf 3; branch = variable; variables = some 0 ∷ []; var_index = 1 }
      ∷ record { at_node = leaf 3; branch = wildcard; variables = some 0 ∷ []; var_index = 1 }
      ∷ record { at_node = linking; branch = wildcard; variables = some 0 ∷ []; var_index = 0 }
      ∷ []
unfolding gather get_route
root_is_asked = refl
