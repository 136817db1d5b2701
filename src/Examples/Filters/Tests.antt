-- ===== src/Examples/Filters/Tests.antt =====
-- The filters at concrete requests.
use rustful.Base.{
  ℕ, suc, false, ◌+◌, ℕ_discrete, ◌≡◌, refl, Option, none, some, [], ◌∷◌, Bytes, codes, map, arith,
}
use rustful.Route.{segments}
use rustful.Base.{get as entry_at}
use rustful.Text.{utf8, as_utf8_lossy, as_bytes, from_vec}
use rustful.Text.Utf8.{is_valid}
use rustful.Text.Conversions.{borrowed, into_string}
use rustful.Http.{World, Context, actual, path, set_mock_headers, mock_headers}
use rustful.Uri.{ParsedUri, parse_path, parse_fragment, cut}
use rustful.Parameters.{get, remove}
use rustful.Response.{Sending}
use rustful.Response.Sized.{send}
use rustful.Server.{Request, absolute_path, handle, answered, ServerInstance}
use rustful.Server.Tests.{header_library, server}
use rustful.Sample.{world, optional, shifted}
use rustful.Examples.Filters.{FilterStore, Kind, javascript, json, text, as_json, trim_matches}
use rustful.Examples.Filters.Jsonp.{filtered, begun, sent_once, say_hello_lem}
use rustful.Examples.Filters.Prefix.{arrived, with_filters, handle-prefixed}
use rustful.Examples.Filters.{say_hello}

-- a storage with the two values
abbrev storing : World
storing = record world { Storage = Option Bytes × Option Bytes; no_storage = (none, none) }

-- headers show the content type
abbrev kind_number : Kind → ℕ
kind_number javascript = 1
kind_number json = 2
kind_number text = 3

abbrev pair : FilterStore storing
pair = record {
  json_var = λ s. s.0;
  jsonp_fn = λ s. s.1;
  insert_var = λ s v. (some v, s.1);
  insert_fn = λ s f. (s.0, some f);
  set_content_type = λ kind headers. kind_number kind;
  var-new = refl;
  fn-new = refl;
  var-insert_var = λ s v. refl;
  var-insert_fn = λ s f. refl;
  fn-insert_fn = λ s f. refl;
  fn-insert_var = λ s v. refl;
}

abbrev stored : Sending storing
stored = record { IoError = ℕ; send = λ r body. none; set_close = λ headers. suc headers }

-- "/json/Peter?jsonp=f"
abbrev hello_peter : Context storing
hello_peter = record {
  headers = 0;
  http_version = tt;
  address = tt;
  method = 1;
  uri_path = path (utf8 (codes "/json/Peter"));
  hyperlinks = [];
  variables = (codes "person", utf8 (codes "Peter")) ∷ [];
  query = (codes "jsonp", utf8 (codes "f")) ∷ [];
  fragment = none;
  global = tt;
  body = tt;
}

say_hello_lem_example :
    say_hello pair stored
      (λ s. borrowed s)
      (λ s. s)
      hello_peter
      (filtered pair stored (actual (200, 0)) tt false)
      as_json
    ≡ some (
        sent_once pair stored (
          send stored
            (begun pair stored false (actual (200, 1)))
            (codes "f({\"message\": \"Hello, Peter!\"});")))
unfolding get remove entry_at ℕ_discrete as_utf8_lossy into_string set_mock_headers mock_headers
say_hello_lem_example =
    say_hello_lem pair stored (λ s. borrowed s) (λ s. s) hello_peter (actual (200, 0)) tt false
      as_json (some (utf8 (codes "f"))) (some (codes "Peter")) refl refl

-- "/Peter" behind the prefix "/print/"
abbrev get_peter : Request world shifted
get_peter = record {
  address = tt;
  method = 1;
  headers = 0;
  uri = absolute_path (map (λ b. b + 100) (codes "/Peter"));
  version = tt;
  reader = tt;
}

abbrev peter : ParsedUri
peter = record { host = none; uri_path = path (utf8 (codes "/Peter")); query = []; fragment = none }

abbrev seven : ServerInstance world (Option ℕ)
seven = record (server []) { handlers = some 7 }

handle-prefixed_example :
    handle header_library optional
      (with_filters header_library optional (codes "/print/") 0 0 seven)
      get_peter
      (200, 0)
    ≡ answered (
        optional.handle_request (some 7) (
          arrived header_library optional
            (codes "/print/")
            0
            0
            (with_filters header_library optional (codes "/print/") 0 0 seven)
            get_peter
            (200, 0)
            peter
            (codes "/Peter")
            (codes "print" ∷ codes "Peter" ∷ [])))
unfolding parse_path parse_fragment cut from_vec is_valid as_bytes trim_matches segments
handle-prefixed_example =
    handle-prefixed header_library optional (codes "/print/") 0 0 seven get_peter (200, 0) peter
      (utf8 (codes "/Peter")) (codes "Peter") refl refl (λ q. cc) ((λ q. cc), grind arith) refl
