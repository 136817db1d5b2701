-- ===== src/Server/ListedTests.antt =====
-- A server with a list of routes at a concrete request.
use rustful.Base.{ℕ, ◌+◌, ◌≡◌, refl, false, map, none, some, List, [], ◌∷◌, Bytes, ℕ_discrete}
use rustful.Text.{utf8, as_bytes}
use rustful.Text.Utf8.{is_valid}
use rustful.Http.{as_path}
use rustful.Handler.{handler_ApplyContext, handler_FromHandler, handler_from_handler}
use rustful.Route.{segments}
use rustful.Sample.{world, contexts, handles, shifted}
use rustful.Uri.{parse_path}
use rustful.Method.{MethodRouter, on, get_builder as method_builder, apply_context as methods_apply}
use rustful.Names.{Variables, from_handler}
use rustful.Tree.{node, no_routes, route, absent, with_handler}
use rustful.Tree.Build.{branch_of, get_builder, path, then_item, push_label}
use rustful.Tree.Build.Tables.{meeting}
use rustful.Tree.Default.{DefaultRouter, from_iter, on_route_method}
use rustful.Tree.Default.Reference.{chosen}
use rustful.Server.{
  Request, absolute_path, ServerInstance, taken, modify_context, modify_with, handle,
}
use rustful.Server.Routed.{routing}
use rustful.Server.Listed.{handle-routes}
use rustful.Server.Tests.{world-StatusLaw, header_library, pass, get_root}

abbrev a_b : Bytes
a_b = b'a' ∷ b'/' ∷ b'b' ∷ []

abbrev routes : List (ℕ × Bytes × ℕ)
routes = (2, a_b, 1) ∷ (3, a_b, 5) ∷ []

abbrev methods_of : List (ℕ × Variables ℕ) → MethodRouter world (Variables ℕ)
methods_of handlers = record { handlers = handlers }

abbrev leaf : DefaultRouter world ℕ
leaf =
    node
      (methods_of
        ((2, record { handler = 1; names = [] }) ∷ (3, record { handler = 5; names = [] }) ∷ []))
      no_routes absent absent false

abbrev below : DefaultRouter world ℕ
below = node (methods_of []) (route (b'b' ∷ []) leaf no_routes) absent absent false

-- the tree of the routes
abbrev collected : DefaultRouter world ℕ
collected = node (methods_of []) (route (b'a' ∷ []) below no_routes) absent absent false

routes-collected :
    from_iter world
      (handler_ApplyContext world contexts)
      (handler_FromHandler world contexts)
      routes
    ≡ some collected
unfolding from_iter on_route_method path then_item branch_of segments ℕ_discrete on method_builder
    from_handler is_valid handler_from_handler methods_apply get_builder with_handler push_label
routes-collected = refl

abbrev listing_server : ServerInstance world (DefaultRouter world ℕ)
listing_server = record {
  handlers = collected;
  threads = 4;
  keep_alive = none;
  threads_in_use = 0;
  context_filters = pass ∷ [];
  response_filters = [];
  global = tt;
}

-- "/a/b", in the code of the sample
abbrev a_b_path : Bytes
a_b_path = map (λ b. b + 100) (b'/' ∷ b'a' ∷ b'/' ∷ b'b' ∷ [])

abbrev get_a_b : Request world shifted
get_a_b = record get_root { uri = absolute_path a_b_path; method = 3 }

-- the handler 5 has the method of the request
handle-routes_example :
    handle header_library (routing contexts handles) listing_server get_a_b (200, 0) ≡ taken (5, [])
unfolding modify_context modify_with parse_path as_path is_valid as_bytes segments branch_of chosen
    meeting ℕ_discrete
handle-routes_example =
    handle-routes world-StatusLaw header_library contexts handles routes listing_server get_a_b
      (200, 0) a_b_path {t = collected} {text = utf8 (b'/' ∷ b'a' ∷ b'/' ∷ b'b' ∷ [])}
      ((refl, (refl, (refl, tt))), ((refl, (refl, (refl, tt))), tt)) routes-collected refl refl refl
      refl
