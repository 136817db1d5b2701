-- ===== src/Names/Order.antt =====
-- src/handler/variables.rs: the order of the names.
use rustful.Base.{◌≡◌, refl, ◌++◌}
use rustful.Route.{variables}
use rustful.Http.{World, Environment}
use rustful.Handler.{BuilderContexts, VariableNames, HandleRequest, ApplyContext, FromHandler}
use rustful.Names.{from_handler, prepend_context, handle_request}

module _ {w : World} {c : BuilderContexts} {T H : Type 0} (h : HandleRequest w T)
    (f : FromHandler c T H) (a : ApplyContext c T) where
  -- A handler that is made where some variables are named, and is then put below a path that names
  -- others, gets a request with the variables of its route under the names of the outer path followed
  -- by its own. The rest of both contexts goes to the inner handler, without the names.
  pub handle_request-prepend_context :
      (x : H) (context outer : c.BuilderContext) (names prefix : VariableNames) (e : Environment w)
      → handle_request h
          (prepend_context a (from_handler f (c.insert context names) x) (c.insert outer prefix))
          e
        ≡ h.handle_request
            (a.prepend_context (f.from_handler (c.remove context).1 x) (c.remove outer).1)
            (record e {
              context = record e.context { variables = variables e.route_state (prefix ++ names) };
            })
  unfolding handle_request prepend_context from_handler
  handle_request-prepend_context x context outer names prefix e =
      rw (c.remove-insert context names) (rw (c.remove-insert outer prefix) refl)
