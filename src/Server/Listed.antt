-- ===== src/Server/Listed.antt =====
-- src/server/instance.rs, src/handler/tree_router.rs, src/handler/method_router.rs: a server with a `DefaultRouter`
-- of plain handlers that is made from a list of literal routes.
use rustful.Base.{
  ℕ, ◌≡◌, refl, sym, ◌∙◌, ap, Bool, true, false, Option, none, some, List, [], All, Bytes,
}
use rustful.Text.{MaybeUtf8, as_bytes}
use rustful.Http.{World, Context, Environment, Response, as_path, status, set_status, new_response}
use rustful.Handler.{
  BuilderContexts, Handles, handler_request, handler_from_handler, handler_HandleRequest,
  handler_ApplyContext, handler_FromHandler,
}
use rustful.Route.{RouteState, segments, route_state}
use rustful.Uri.{UrlLibrary}
use rustful.Tree.{restored}
use rustful.Tree.Request.{answered_request-some}
use rustful.Tree.Default.{DefaultRouter, from_iter}
use rustful.Tree.Default.Requests.{methods_handling}
use rustful.Tree.Default.Reference.{chosen, reached, IsLiteral}
use rustful.Tree.Default.Tables.{table_answer, from_iter-table}
use rustful.Server.{
  next, Request, absolute_path, HeaderLibrary, ServerInstance, Served, taken, dropped,
  first_response, answered, not_found, handle,
}
use rustful.Server.Unhandled.{StatusLaw, status-set_status}
use rustful.Server.Routed.{routing, passed, response_for}

some_inj : {A : Type 0} {x y : A} → some x ≡ some y → x ≡ y
some_inj e = cc

module _ {w : World} (user : Handles w) where
  -- What a server does with a request that its table of routes answers so.
  abbrev pub served : Context w → Response w → Option w.Handler → Bool → Served w
  served context response (some x) b =
      taken (user.handle x (record context { hyperlinks = []; variables = [] }) response)
  served context response none true = dropped (set_status response 405)
  served context response none false = dropped (set_status response 404)

  answered-table_answer :
      (c : BuilderContexts) (e : Environment w) (qs : List Bytes) (r : RouteState)
      (o : Option w.Handler) (b : Bool)
      → ((code : ℕ) → status (set_status e.response code) ≡ some code)
      → answered (
          table_answer
            (handler_ApplyContext w c)
            (handler_FromHandler w c)
            (handler_HandleRequest user)
            e
            qs
            r
            o
            b)
        ≡ served e.context e.response o b
  unfolding answered restored handler_request handler_from_handler
  answered-table_answer c e qs r (some x) b h = refl
  answered-table_answer c e qs r none true h = ap (not_found (set_status e.response 405)) (h 405)
  answered-table_answer c e qs r none false h = ap (not_found (set_status e.response 404)) (h 404)

module _ {w : World} (k : StatusLaw w) {u : UrlLibrary} (l : HeaderLibrary w u)
    (c : BuilderContexts) (user : Handles w) where
  -- A server with a default router of plain handlers that is made from a list of routes with literal segments, none
  -- of them empty, answers every request for a path that passes the context filters, and still has a path then, as
  -- the table of the routes: it hands the request to the handler of the last route with the path and the method,
  -- with the context that the filters left, without variables and hyperlinks; it drops the response with the status 405
  -- where no route has both but the path is the root, that of a route or one that a route goes on from; and with the status 404
  -- everywhere else. A status that is set is read back.
  pub handle-routes :
      (routes : List (w.Method × Bytes × w.Handler))
      (s : ServerInstance w (DefaultRouter w w.Handler)) (r : Request w u) (writer : w.Fresh)
      (q : Bytes) {t : DefaultRouter w w.Handler} {text : MaybeUtf8}
      → All (IsLiteral w) routes
      → from_iter w (handler_ApplyContext w c) (handler_FromHandler w c) routes ≡ some t
      → s.handlers ≡ t
      → r.uri ≡ absolute_path q
      → (passed l s r q).action ≡ next
      → as_path (passed l s r q).context.uri_path ≡ some text
      → handle l (routing c user) s r writer
        ≡ served user
            (passed l s r q).context
            (response_for l s (passed l s r q) writer)
            (chosen w routes (segments (as_bytes text)) (passed l s r q).context.method)
            (reached w routes (segments (as_bytes text)))
  unfolding handle answered first_response new_response status
  handle-routes routes s r writer q {t} {text} lit built serves at go has =
      let m = passed l s r q in
      let response = response_for l s m writer in
      let qs = segments (as_bytes text) in
      let e : Environment w = record {
        context = m.context;
        response = response;
        route_state = route_state qs;
      } in
      let (t', r', made, route_eq, found) =
        from_iter-table (handler_ApplyContext w c) (handler_FromHandler w c)
          (handler_HandleRequest user) routes e qs lit refl in
      let same : s.handlers ≡ t' = serves ∙ some_inj (sym built ∙ made) in
      rw at (
        rw go (
          rw has (
            rw same (
              ap answered (
                answered_request-some
                  (methods_handling (handler_ApplyContext w c) (handler_FromHandler w c)
                    (handler_HandleRequest user))
                  t' e found)
              ∙ answered-table_answer user c e qs r' _ _
                  (λ code. status-set_status k response code refl)))))
