-- ===== src/Http.antt =====
-- The data of a request: src/context/mod.rs, src/context/hypermedia.rs, the state of a response
-- (src/response.rs) and the environment of handlers (src/handler/mod.rs).
pub mod Order
use rustful.Base.{ℕ, Bool, true, false, Option, none, some, List, [], ◌∷◌, Bytes, HashMap}
use rustful.Text.{MaybeUtf8, as_utf8, as_utf8_lossy, utf8}
use rustful.Route.{RouteState}

-- What the program takes from hyper, anymap and the user, and only hands on: the types of headers,
-- methods, protocol versions, addresses, bodies and the fresh response of hyper with its status and
-- headers; the typed maps for global data and filters; the user's handlers and what they do with a
-- request that they accept. A status is its code.
pub record World : Type 1 where
  pub Headers : Type 0
  pub Method : Type 0
  pub Version : Type 0
  pub Address : Type 0
  pub Body : Type 0
  pub Global : Type 0
  pub Storage : Type 0
  pub Fresh : Type 0
  pub Handler : Type 0
  pub Effect : Type 0
  pub method_discrete : Discrete Method
  pub method_name : Method → Bytes
  pub no_headers : Headers
  pub no_storage : Storage
  pub fresh_status : Fresh → ℕ
  pub set_fresh_status : Fresh → ℕ → Fresh
  pub fresh_headers : Fresh → Headers
  pub set_fresh_headers : Fresh → Headers → Fresh

abbrev pub Parameters : Type 0
Parameters = HashMap Bytes MaybeUtf8

pub data SegmentType : Type 0 where
  static variable_segment variable_sequence : SegmentType

pub record LinkSegment : Type 0 where
  pub label : MaybeUtf8
  pub ty : SegmentType

pub data UriPath : Type 0 where
  path : MaybeUtf8 → UriPath
  asterisk : UriPath

unfoldable pub as_path : UriPath → Option MaybeUtf8
as_path (path p) = some p
as_path asterisk = none

unfoldable pub as_utf8_path : UriPath → Option Bytes
unfolding as_utf8
as_utf8_path (path p) = as_utf8 p
as_utf8_path asterisk = none

-- over `String::from_utf8_lossy`
unfoldable pub as_utf8_path_lossy : (Bytes → Bytes) → UriPath → Option Bytes
unfolding as_utf8_lossy
as_utf8_path_lossy from_utf8_lossy (path p) = some (as_utf8_lossy from_utf8_lossy p)
as_utf8_path_lossy from_utf8_lossy asterisk = none

-- `Display for UriPath`
abbrev shown_path : Option Bytes → Bytes
shown_path none = b'*' ∷ []
shown_path (some p) = p

unfoldable pub display_path : (Bytes → Bytes) → UriPath → Bytes
unfolding as_utf8_path_lossy
display_path from_utf8_lossy uri = shown_path (as_utf8_path_lossy from_utf8_lossy uri)

unfoldable pub is_path : UriPath → Bool
is_path (path p) = true
is_path asterisk = false

unfoldable pub is_asterisk : UriPath → Bool
is_asterisk (path p) = false
is_asterisk asterisk = true

module _ (w : World) where
  pub record Link : Type 0 where
    pub method : Option w.Method
    pub path : List LinkSegment
    pub handler : Option w.Handler

module _ (w : World) where
  pub record Context : Type 0 where
    pub headers : w.Headers
    pub http_version : w.Version
    pub address : w.Address
    pub method : w.Method
    pub uri_path : UriPath
    pub hyperlinks : List (Link w)
    pub variables : Parameters
    pub query : Parameters
    pub fragment : Option MaybeUtf8
    pub global : w.Global
    pub body : w.Body

  -- `Context::mock`, with a body, a version and an address for it
  unfoldable pub mock_context :
      w.Body → w.Version → w.Address → w.Method → Bytes → w.Headers → w.Global → Context
  mock_context body version address method p headers global = record {
    headers = headers;
    http_version = version;
    address = address;
    method = method;
    uri_path = path (utf8 p);
    hyperlinks = [];
    variables = [];
    query = [];
    fragment = none;
    global = global;
    body = body;
  }

  -- `Data`
  pub data Content : Type 0 where
    bytes string : Bytes → Content

  -- `ResponseAction`
  pub data Action : Type 0 where
    next : Option Content → Action
    silent_abort : Action
    abort : Bytes → Action

module _ (w : World) where
  -- a `ResponseFilter` and what its methods return; the storage is what they may write to
  pub record Begun : Type 0 where
    pub status : ℕ
    pub action : Action w
    pub headers : w.Headers
    pub storage : w.Storage

  pub record ResponseFilter : Type 0 where
    pub begin : w.Storage → w.Global → ℕ → w.Headers → Begun
    pub write : w.Storage → w.Global → Option (Content w) → Action w × w.Storage
    pub end : w.Storage → w.Global → Action w × w.Storage

  pub data MaybeMock : Type 0 where
    actual : w.Fresh → MaybeMock
    mock : w.Headers → ℕ → MaybeMock

module _ (w : World) where
  pub record Response : Type 0 where
    pub writer : Option (MaybeMock w)
    pub filters : List (ResponseFilter w)
    pub global : w.Global
    pub filter_storage : Option w.Storage
    pub force_close : Bool

module _ {w : World} where
  unfoldable pub mock_status : MaybeMock w → ℕ
  mock_status (actual r) = w.fresh_status r
  mock_status (mock headers status) = status

  -- a write through `status_mut`
  unfoldable pub set_mock_status : MaybeMock w → ℕ → MaybeMock w
  set_mock_status (actual r) status = actual (w.set_fresh_status r status)
  set_mock_status (mock headers _) status = mock headers status

  unfoldable pub mock_headers : MaybeMock w → w.Headers
  mock_headers (actual r) = w.fresh_headers r
  mock_headers (mock headers status) = headers

  -- a write through `headers_mut`
  unfoldable pub set_mock_headers : MaybeMock w → w.Headers → MaybeMock w
  set_mock_headers (actual r) headers = actual (w.set_fresh_headers r headers)
  set_mock_headers (mock _ status) headers = mock headers status

  -- `Response::new` and `Response::mock`
  unfoldable pub new_response : w.Fresh → List (ResponseFilter w) → w.Global → Bool → Response w
  new_response response filters global force_close = record {
    writer = some (actual response);
    filters = filters;
    global = global;
    filter_storage = some w.no_storage;
    force_close = force_close;
  }

  unfoldable pub mock_response : w.Global → Response w
  mock_response global = record {
    writer = some (mock w.no_headers 200);
    filters = [];
    global = global;
    filter_storage = some w.no_storage;
    force_close = false;
  }

  -- `Response::status`; `none` is the panic "status accessed after drop"
  abbrev status_of : Option (MaybeMock w) → Option ℕ
  status_of none = none
  status_of (some writer) = some (mock_status writer)

  unfoldable pub status : Response w → Option ℕ
  unfolding mock_status
  status r = status_of r.writer

  abbrev with_status : Option (MaybeMock w) → ℕ → Option (MaybeMock w)
  with_status none code = none
  with_status (some writer) code = some (set_mock_status writer code)

  unfoldable pub set_status : Response w → ℕ → Response w
  unfolding set_mock_status
  set_status r code = record r { writer = with_status r.writer code }

  -- `Response::headers` and a write through `headers_mut`; `none` is a panic after the response is used
  abbrev headers_of : Option (MaybeMock w) → Option w.Headers
  headers_of none = none
  headers_of (some writer) = some (mock_headers writer)

  unfoldable pub headers : Response w → Option w.Headers
  unfolding mock_headers
  headers r = headers_of r.writer

  abbrev written_headers :
      Response w → Option (MaybeMock w) → (w.Headers → w.Headers) → Option (Response w)
  written_headers r none change = none
  written_headers r (some writer) change =
      some (record r { writer = some (set_mock_headers writer (change (mock_headers writer))) })

  unfoldable pub headers_mut : Response w → (w.Headers → w.Headers) → Option (Response w)
  unfolding mock_headers set_mock_headers
  headers_mut r change = written_headers r r.writer change

  -- `Response::filter_storage` and a write through `filter_storage_mut`; `none` is a panic after the response
  -- is used
  unfoldable pub filter_storage : Response w → Option w.Storage
  filter_storage r = r.filter_storage

  abbrev written_storage :
      Response w → Option w.Storage → (w.Storage → w.Storage) → Option (Response w)
  written_storage r none change = none
  written_storage r (some storage) change =
      some (record r { filter_storage = some (change storage) })

  unfoldable pub filter_storage_mut : Response w → (w.Storage → w.Storage) → Option (Response w)
  filter_storage_mut r change = written_storage r r.filter_storage change

module _ (w : World) where
  pub record Environment : Type 0 where
    pub context : Context w
    pub response : Response w
    pub route_state : RouteState

module _ {w : World} where
  -- `replace_hyperlinks` of the context and of the environment
  unfoldable pub replace_context_links : Context w → List (Link w) → Context w × List (Link w)
  replace_context_links c links = (record c { hyperlinks = links }, c.hyperlinks)

  unfoldable pub replace_hyperlinks : Environment w → List (Link w) → Environment w × List (Link w)
  unfolding replace_context_links
  replace_hyperlinks e links =
      let (context, old_links) = replace_context_links e.context links in
      (record e { context = context }, old_links)

-- `Result<(), Environment>` of a handler: an accepted request shows what the handler did.
module _ (w : World) where
  pub data Outcome : Type 0 where
    handled : w.Effect → Outcome
    returned : Environment w → Outcome
    panicked : Outcome
