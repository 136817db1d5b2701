-- ===== src/Server.antt =====
-- src/server/instance.rs, src/filter.rs: a request on its way to the handlers.
pub mod Threads
pub mod Unhandled
pub mod Routed
pub mod Listed
mod RoutedTests
mod ListedTests
pub mod Tests
use rustful.Base.{
  ℕ, ◌+◌, ◌-◌, ◌%◌, ◌^◌, Bool, true, false, Option, none, some, List, [], ◌∷◌, Bytes, ltb, ◌==◌,
  if◌then◌else◌,
}
use rustful.Text.{MaybeUtf8, as_bytes}
use rustful.Route.{segments, route_state}
use rustful.Http.{
  World, Context, UriPath, path, asterisk, Environment, Outcome, handled, returned, panicked,
  Response, ResponseFilter, MaybeMock, new_response, set_mock_headers, mock_headers, status,
  set_status, as_path,
}
use rustful.Handler.{HandleRequest}
use rustful.Uri.{UrlLibrary, ParsedUri, parse_path, parse_url}

pub data ContextAction : Type 0 where
  next : ContextAction
  abort : ℕ → ContextAction

module _ (w : World) where
  pub record Modified : Type 0 where
    pub action : ContextAction
    pub context : Context w
    pub storage : w.Storage

module _ (w : World) where
  -- a `ContextFilter`
  abbrev pub ContextFilter : Type 0
  ContextFilter = w.Storage → w.Global → Context w → Modified w

module _ (w : World) (u : UrlLibrary) where
  -- hyper's `RequestUri`; the last stands for the forms that are refused
  pub data RequestUri : Type 0 where
    absolute_uri : u.Url → RequestUri
    absolute_path : Bytes → RequestUri
    star : RequestUri
    unsupported : RequestUri

  -- what hyper takes a request apart into
  pub record Request : Type 0 where
    pub address : w.Address
    pub method : w.Method
    pub headers : w.Headers
    pub uri : RequestUri
    pub version : w.Version
    pub reader : w.Body

  -- What hyper's typed headers do, and the body reader that is made with the headers.
  pub record HeaderLibrary : Type 0 where
    pub set_defaults : w.Headers → w.Headers
    pub set_host : Bytes × Option ℕ → w.Headers → w.Headers
    pub body_reader : w.Body → w.Headers → w.Body

module _ (w : World) (T : Type 0) where
  -- `keep_alive` holds the number of threads that are kept free
  pub record ServerInstance : Type 0 where
    pub handlers : T
    pub threads : ℕ
    pub keep_alive : Option ℕ
    pub threads_in_use : ℕ
    pub context_filters : List (ContextFilter w)
    pub response_filters : List (ResponseFilter w)
    pub global : w.Global

-- How `handle` ends: a handler took the request, the response is dropped, or the thread panics.
module _ (w : World) where
  pub data Served : Type 0 where
    taken : w.Effect → Served
    dropped : Response w → Served
    failed : Served

module _ {w : World} (global : w.Global) where
  -- `modify_context`; `action` is `result`
  unfoldable pub modify_with : List (ContextFilter w) → Modified w → Modified w
  modify_with [] m = m
  modify_with (f ∷ fs) m = elim m.action [
    | next ↦ modify_with fs (f m.storage global m.context)
    | abort code ↦ m
  ]

  unfoldable pub modify_context : List (ContextFilter w) → w.Storage → Context w → Modified w
  unfolding modify_with
  modify_context fs storage context =
      modify_with fs (record { action = next; context = context; storage = storage })

abbrev pub word : ℕ
word = 2 ^ 64

module _ {w : World} {T : Type 0} where
  -- the sum wraps around, as in a release build
  unfoldable pub force_close : ServerInstance w T → Option ℕ → Bool
  force_close s none = false
  force_close s (some free_threads) = ltb s.threads ((s.threads_in_use + free_threads) % word)

module _ {w : World} {u : UrlLibrary} where
  abbrev pub path_components : RequestUri w u → Option ParsedUri
  path_components (absolute_uri url) = some (parse_url u url)
  path_components (absolute_path p) = some (parse_path u p)
  path_components star =
      some (record { host = none; uri_path = asterisk; query = []; fragment = none })
  path_components unsupported = none

module _ {w : World} {u : UrlLibrary} (l : HeaderLibrary w u) where
  abbrev pub default_headers : Option (MaybeMock w) → Option (MaybeMock w)
  default_headers none = none
  default_headers (some writer) =
      some (set_mock_headers writer (l.set_defaults (mock_headers writer)))

  abbrev pub with_host : Option (Bytes × Option ℕ) → w.Headers → w.Headers
  with_host none headers = headers
  with_host (some host) headers = l.set_host host headers

  abbrev pub request_context :
      {T : Type 0} → ServerInstance w T → Request w u → ParsedUri → Context w
  request_context s r parsed = record {
    headers = with_host parsed.host r.headers;
    http_version = r.version;
    address = r.address;
    method = r.method;
    uri_path = parsed.uri_path;
    hyperlinks = [];
    variables = [];
    query = parsed.query;
    fragment = parsed.fragment;
    global = s.global;
    body = l.body_reader r.reader (with_host parsed.host r.headers);
  }

  -- the response that `handle` starts with
  unfoldable pub first_response : {T : Type 0} → ServerInstance w T → w.Fresh → Response w
  unfolding new_response default_headers force_close
  first_response s writer =
      let response = new_response writer s.response_filters s.global (force_close s s.keep_alive) in
      record response { writer = default_headers response.writer }

module _ {w : World} where
  -- a 404 for a response that comes back with 200; `none` is the panic of `status`
  abbrev pub not_found : Response w → Option ℕ → Served w
  not_found r none = failed
  not_found r (some code) = if code == 200 then dropped (set_status r 404) else dropped r

  unfoldable pub answered : Outcome w → Served w
  unfolding not_found status
  answered (handled x) = taken x
  answered (returned e) = not_found e.response (status e.response)
  answered panicked = failed

module _ {w : World} {T : Type 0} (h : HandleRequest w T) where
  -- the handlers get requests with a path; for others the response is dropped as it is
  abbrev pub routed : ServerInstance w T → Context w → Response w → Option MaybeUtf8 → Served w
  routed s context response none = dropped response
  routed s context response (some p) = answered (
      h.handle_request s.handlers (record {
        context = context;
        response = response;
        route_state = route_state (segments (as_bytes p));
      }))

  abbrev pub after_filters : ServerInstance w T → Modified w → Response w → Served w
  after_filters s m response = elim m.action [
    | next ↦
        routed s m.context (record response { filter_storage = some m.storage })
          (as_path m.context.uri_path)
    | abort code ↦ dropped (set_status (record response { filter_storage = some m.storage }) code)
  ]

module _ {w : World} {u : UrlLibrary} (l : HeaderLibrary w u) {T : Type 0}
    (h : HandleRequest w T) where
  abbrev pub with_components :
      ServerInstance w T → Request w u → Response w → Option ParsedUri → Served w
  with_components s r response none = dropped (set_status response 400)
  with_components s r response (some parsed) =
      after_filters h s
        (modify_context s.global s.context_filters w.no_storage (request_context l s r parsed))
        response

  unfoldable pub handle : ServerInstance w T → Request w u → w.Fresh → Served w
  unfolding first_response with_components path_components
  handle s r writer = with_components s r (first_response l s writer) (path_components r.uri)

module _ {w : World} {T : Type 0} where
  -- `fetch_add` and `fetch_sub` of an `AtomicUsize` wrap around
  unfoldable pub on_connection_start : ServerInstance w T → ServerInstance w T
  on_connection_start s = record s { threads_in_use = (s.threads_in_use + 1) % word }

  unfoldable pub on_connection_end : ServerInstance w T → ServerInstance w T
  on_connection_end s = record s { threads_in_use = (s.threads_in_use + (word - 1)) % word }
