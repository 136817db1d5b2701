-- ===== src/Tree/Tests.antt =====
-- A tree at concrete paths.
use rustful.Base.{ℕ, ℕ_discrete, ◌≡◌, refl, false, Option, none, some, List, [], ◌∷◌, Bytes}
use rustful.Text.{utf8, from_vec}
use rustful.Text.Utf8.{is_valid}
use rustful.Tree.Build.{branch_of}
use rustful.Route.{RouteState, segments}
use rustful.Handler.{option_merge}
use rustful.Sample.{contexts, optional, keep_context, some_handler, last_wins, no_handler, request}
use rustful.Tree.{TreeRouter, node, no_routes, route, absent, present, item, get_route}
use rustful.Tree.Search.{find}
use rustful.Tree.Request.{handle_request, found_answer, handle_request-find}
use rustful.Tree.Traverse.{merge}
use rustful.Tree.Build.{Builder, get_path, on_path, child}
use rustful.Tree.Build.Merging.{item_at, IsMap, item_at-merge}
use rustful.Tree.Build.Paths.{apart, same_place, pattern_names, get_path-on_path, item_at-on_path}

abbrev pub leaf : ℕ → TreeRouter (Option ℕ)
leaf h = node (some h) no_routes absent absent false

-- "a/b" goes to 1, "a/:x" to 2 and "*y" to 3
abbrev pub tree : TreeRouter (Option ℕ)
tree =
    node none
      (route (b'a' ∷ [])
        (node none (route (b'b' ∷ []) (leaf 1) no_routes) (present (leaf 2)) absent false)
        no_routes)
      absent (present (leaf 3)) false

abbrev pub a_c : List Bytes
a_c = (b'a' ∷ []) ∷ (b'c' ∷ []) ∷ []

handle_request-find_example :
    (r : RouteState) × (r.route ≡ a_c)
    × (handle_request optional tree (request 0 200 a_c)
        ≡ some (found_answer optional (request 0 200 a_c) a_c r (find tree a_c 0 [])))
handle_request-find_example = handle_request-find optional tree (request 0 200 a_c) a_c refl refl

found_in_tree :
    find tree a_c 0 []
    ≡ some (record { item = some 2; variables = none ∷ some 0 ∷ []; var_index = 1 })
unfolding find get_route ℕ_discrete
found_in_tree = refl

-- the path "a/:x"
abbrev pub a_x : Bytes
a_x = b'a' ∷ b'/' ∷ b':' ∷ b'x' ∷ []

abbrev pub at_tree : Builder contexts (Option ℕ)
at_tree = record { node = tree; variables = []; context = none }

get_path-on_path_example :
    (b' : Builder contexts (Option ℕ)) × (n : TreeRouter (Option ℕ)) × (on_path keep_context
        no_handler some_handler at_tree a_x 7
      ≡ some b')
    × (get_path b' a_x
        ≡ some (record { node = n; variables = utf8 (b'x' ∷ []) ∷ []; context = none }))
    × (item n ≡ some 7)
unfolding segments pattern_names branch_of from_vec is_valid
get_path-on_path_example = get_path-on_path keep_context no_handler some_handler at_tree a_x 7 refl

built : Builder contexts (Option ℕ)
built = record {
  node =
      node none
        (route (b'a' ∷ [])
          (node none (route (b'b' ∷ []) (leaf 1) no_routes) (present (leaf 7)) absent false)
          no_routes)
        absent (present (leaf 3)) false;
  variables = [];
  context = none;
}

abbrev pub a_b : List Bytes
a_b = (b'a' ∷ []) ∷ (b'b' ∷ []) ∷ []

item_at-on_path_example : item_at built.node a_b ≡ some (some 1)
unfolding segments on_path item_at apart built get_route ℕ_discrete same_place child
item_at-on_path_example =
    item_at-on_path keep_context no_handler some_handler at_tree a_x 7 a_b {b' = built} {x = some 1}
      refl refl refl

-- "a" goes to 4 and "*" to 5
abbrev pub other : TreeRouter (Option ℕ)
other = node none (route (b'a' ∷ []) (leaf 4) no_routes) absent (present (leaf 5)) false

item_at-merge_example :
    item_at (merge last_wins tree other) ((b'a' ∷ []) ∷ [])
    ≡ option_merge last_wins (item_at tree ((b'a' ∷ []) ∷ [])) (item_at other ((b'a' ∷ []) ∷ []))
unfolding IsMap get_route
item_at-merge_example =
    item_at-merge last_wins tree other ((b'a' ∷ []) ∷ [])
      ((refl, (tt, tt, tt), tt), tt, (tt, tt, tt))
