-- ===== src/Server/Routed.antt =====
-- src/server/instance.rs, src/handler/tree_router.rs, src/handler/mod.rs: a server with a `DefaultRouter` of plain
-- handlers, from hyper's request to the call of a handler.
use rustful.Base.{some, Bytes}
use rustful.Http.{World, Response}
use rustful.Handler.{
  BuilderContexts, Handles, HandleRequest, handler_HandleRequest, handler_ApplyContext,
  handler_FromHandler,
}
use rustful.Uri.{UrlLibrary, parse_path}
use rustful.Tree.Request.{TreeRouter_HandleRequest}
use rustful.Tree.Default.{DefaultRouter}
use rustful.Tree.Default.Requests.{methods_handling}
use rustful.Server.{
  Modified, Request, HeaderLibrary, ServerInstance, modify_context, request_context, first_response,
}

module _ {w : World} (c : BuilderContexts) (user : Handles w) where
  abbrev pub routing : HandleRequest w (DefaultRouter w w.Handler)
  routing = TreeRouter_HandleRequest (
      methods_handling (handler_ApplyContext w c) (handler_FromHandler w c)
        (handler_HandleRequest user))

module _ {w : World} {u : UrlLibrary} (l : HeaderLibrary w u) {T : Type 0}
    (s : ServerInstance w T) where
  -- the request for the path `q` when all context filters have seen it
  abbrev pub passed : Request w u → Bytes → Modified w
  passed r q =
      modify_context s.global s.context_filters w.no_storage
        (request_context l s r (parse_path u q))

  -- the response that the handlers get, with the storage of the filters
  abbrev pub response_for : Modified w → w.Fresh → Response w
  response_for m writer = record (first_response l s writer) { filter_storage = some m.storage }
