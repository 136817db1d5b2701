-- ===== src/Names/Tests.antt =====
-- Names at a concrete request.
use rustful.Base.{◌≡◌, none, some, [], ◌∷◌, ◌++◌}
use rustful.Text.{utf8}
use rustful.Route.{variables}
use rustful.Handler.{VariableNames}
use rustful.Http.{Environment}
use rustful.Sample.{world, optional, some_handler, keep_context, request}
use rustful.Names.{from_handler, prepend_context, handle_request}
use rustful.Names.Order.{handle_request-prepend_context}

abbrev inner : VariableNames
inner = utf8 (b'y' ∷ []) ∷ []

abbrev outer : VariableNames
outer = utf8 (b'x' ∷ []) ∷ []

-- "a/b", both segments kept as variables
abbrev env : Environment world
env = record (request 0 200 []) {
  route_state = record {
    route = (b'a' ∷ []) ∷ (b'b' ∷ []) ∷ [];
    variables = some 0 ∷ some 1 ∷ [];
    index = 2;
    var_index = 2;
  };
}

handle_request-prepend_context_example :
    handle_request optional
      (prepend_context keep_context (from_handler some_handler (some inner) 3) (some outer))
      env
    ≡ optional.handle_request (some 3) (record env {
      context = record env.context { variables = variables env.route_state (outer ++ inner) };
    })
handle_request-prepend_context_example =
    handle_request-prepend_context optional some_handler keep_context 3 none none inner outer env
