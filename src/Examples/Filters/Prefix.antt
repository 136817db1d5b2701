-- ===== src/Examples/Filters/Prefix.antt =====
-- examples/filters.rs: the context filters, from a request to the handlers.
use rustful.Base.{ℕ, ◌≡◌, refl, ◌∙◌, ap, true, some, List, [], ◌∷◌, ◌++◌, Bytes}
use rustful.Text.{MaybeUtf8, utf8, as_bytes, is_utf8, push_str}
use rustful.Text.Utf8.{is_valid}
use rustful.Text.Truth.{push_bytes_lem, push_str_lem}
use rustful.Route.{segments, route_state, slash}
use rustful.Route.Segments.{IsSegment}
use rustful.Route.Prefixed.{segments-prefix}
use rustful.Http.{World, Environment, path, as_path}
use rustful.Handler.{HandleRequest}
use rustful.Uri.{UrlLibrary, ParsedUri}
use rustful.Server.{
  ContextFilter, HeaderLibrary, ServerInstance, Request, answered, modify_context, request_context,
  first_response, path_components, handle,
}
use rustful.Examples.Filters.{log_request, path_prefix, prefixed, trim_matches}

-- a slash, the prefix and the old path
prefixed_lem :
    (prefix : Bytes) (p : Bytes)
    → is_valid (trim_matches prefix) ≡ true
    → as_bytes (prefixed prefix p) ≡ slash ∷ (trim_matches prefix ++ p)
unfolding prefixed is_utf8
prefixed_lem prefix p v =
    let (pushed, truthful) =
      push_str_lem (utf8 (slash ∷ [])) (trim_matches prefix) v (unfold is_valid in refl) in
    (push_bytes_lem (push_str (utf8 (slash ∷ [])) (trim_matches prefix)) p truthful).0
    ∙ ap (λ s. s ++ p) pushed

module _ {w : World} {u : UrlLibrary} (l : HeaderLibrary w u) {T : Type 0} (h : HandleRequest w T)
    (prefix : Bytes) (first second : ℕ) where
  -- the filters of the program, with the counters of the two loggers
  abbrev pub filters : List (ContextFilter w)
  filters =
      (λ storage global context. (log_request first storage context).1)
      ∷ path_prefix prefix
      ∷ (λ storage global context. (log_request second storage context).1)
      ∷ []

  -- the environment at the handlers, for the old path and the new segments
  abbrev pub arrived :
      ServerInstance w T → Request w u → w.Fresh → ParsedUri → Bytes → List Bytes → Environment w
  arrived s r writer parsed p route = record {
    context = record (request_context l s r parsed) { uri_path = path (prefixed prefix p) };
    response = record (first_response l s writer) { filter_storage = some w.no_storage };
    route_state = route_state route;
  }

  abbrev pub with_filters : ServerInstance w T → ServerInstance w T
  with_filters s = record s { context_filters = filters }

  handle-filters :
      (s : ServerInstance w T) (r : Request w u) (writer : w.Fresh) (parsed : ParsedUri)
      (m : MaybeUtf8)
      → path_components r.uri ≡ some (record parsed { uri_path = path m })
      → handle l h (with_filters s) r writer
        ≡ answered (
            h.handle_request s.handlers (
              arrived
                (with_filters s)
                r
                writer
                parsed
                (as_bytes m)
                (segments (as_bytes (prefixed prefix (as_bytes m))))))
  unfolding handle modify_context path_prefix log_request answered as_path
  handle-filters s r writer parsed m known = rw known refl

  -- A request for any path that begins with a slash, but for "//", comes to the handlers with the prefix as its first segment, and for its segments
  -- behind it, where the prefix less the slashes around it is one segment.
  pub handle-prefixed :
      (s : ServerInstance w T) (r : Request w u) (writer : w.Fresh) (parsed : ParsedUri)
      (m : MaybeUtf8) (rest : Bytes)
      → path_components r.uri ≡ some (record parsed { uri_path = path m })
      → as_bytes m ≡ slash ∷ rest
      → ¬ (rest ≡ slash ∷ [])
      → IsSegment (trim_matches prefix)
      → is_valid (trim_matches prefix) ≡ true
      → handle l h (with_filters s) r writer
        ≡ answered (
            h.handle_request s.handlers (
              arrived
                (with_filters s)
                r
                writer
                parsed
                (slash ∷ rest)
                (trim_matches prefix ∷ segments (slash ∷ rest))))
  handle-prefixed s r writer parsed m rest known bytes_of few one v =
      handle-filters s r writer parsed m known
      ∙ ap
          (λ p. answered (
            h.handle_request s.handlers (
              arrived (with_filters s) r writer parsed p
                (segments (as_bytes (prefixed prefix p))))))
          bytes_of
      ∙ ap
          (λ route. answered (
            h.handle_request s.handlers
              (arrived (with_filters s) r writer parsed (slash ∷ rest) route)))
          (ap segments (prefixed_lem prefix (slash ∷ rest) v)
            ∙ segments-prefix (trim_matches prefix) rest one few)
