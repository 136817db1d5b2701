-- ===== src/Examples/Filters.antt =====
-- examples/filters.rs: filters of requests and of responses around a handler that says hello.
pub mod Jsonp
pub mod Prefix
mod Tests
use rustful.Base.{
  ◌≡◌, and_then, ℕ, ◌+◌, ◌%◌, ◌^◌, Bool, true, false, Option, none, some, List, [], ◌∷◌, ◌++◌,
  Bytes, codes, if◌then◌else◌, ◌==◌, reverse,
}
use rustful.Text.{MaybeUtf8, utf8, push_bytes, push_str, as_bytes}
use rustful.Text.Conversions.{Cow, into_string}
use rustful.Http.{
  World, Context, UriPath, path, asterisk, as_path, Content, string, next, ResponseFilter, Begun,
  Response, headers_mut, filter_storage_mut,
}
use rustful.Parameters.{get, remove}
use rustful.Response.{Sending}
use rustful.Response.Contents.{Reply, reply_data}
use rustful.Response.Sized.{Error}
use rustful.Server.{ContextFilter, Modified, ContextAction}

-- the content types that the program sends, all in UTF-8
pub data Kind : Type 0 where
  javascript json text : Kind

-- What the program stores for its filters in the typed map, `JsonVar` and `JsonpFn`, and the header that it sets.
pub record FilterStore (w : World) : Type 0 where
  pub json_var : w.Storage → Option Bytes
  pub jsonp_fn : w.Storage → Option Bytes
  pub insert_var : w.Storage → Bytes → w.Storage
  pub insert_fn : w.Storage → Bytes → w.Storage
  pub set_content_type : Kind → w.Headers → w.Headers
  pub var-new : json_var w.no_storage ≡ none
  pub fn-new : jsonp_fn w.no_storage ≡ none
  pub var-insert_var : (s : w.Storage) (v : Bytes) → json_var (insert_var s v) ≡ some v
  pub var-insert_fn : (s : w.Storage) (v : Bytes) → json_var (insert_fn s v) ≡ json_var s
  pub fn-insert_fn : (s : w.Storage) (v : Bytes) → jsonp_fn (insert_fn s v) ≡ some v
  pub fn-insert_var : (s : w.Storage) (v : Bytes) → jsonp_fn (insert_var s v) ≡ jsonp_fn s

pub data Format : Type 0 where
  as_json as_text : Format

abbrev pub kind_of : Bool → Format → Kind
kind_of true format = javascript
kind_of false as_json = json
kind_of false as_text = text

abbrev pub quotes : Bool → Format → Bool
quotes true format = true
quotes false as_json = true
quotes false as_text = false

abbrev pub or_stranger : Option Bytes → Bytes
or_stranger none = codes "stranger"
or_stranger (some name) = name

abbrev pub greeting : Bool → Bytes → Bytes
greeting true person = codes "\"Hello, " ++ person ++ codes "!\""
greeting false person = codes "Hello, " ++ person ++ codes "!"

module _ {w : World} (store : FilterStore w) where
  -- `format!("{{\"{}\": ", var)` and `format!("{}(", function)`
  abbrev pub opening_brace : Option Bytes → Option (Content w)
  opening_brace none = none
  opening_brace (some v) = some (string (codes "{\"" ++ v ++ codes "\": "))

  abbrev pub opening_call : Option Bytes → Option (Content w)
  opening_call none = none
  opening_call (some f) = some (string (f ++ codes "("))

  abbrev pub closing : Bytes → Option Bytes → Option (Content w)
  closing end none = none
  closing end (some _) = some (string end)

  -- `ResponseFilter for Json`
  abbrev pub json_filter : ResponseFilter w
  json_filter = record {
    begin = λ storage global status headers. record {
      status = status;
      action = next (opening_brace (store.json_var storage));
      headers = headers;
      storage = storage;
    };
    write = λ storage global content. (next content, storage);
    end = λ storage global. (next (closing (codes "}") (store.json_var storage)), storage);
  }

  -- `ResponseFilter for Jsonp`
  abbrev pub jsonp_filter : ResponseFilter w
  jsonp_filter = record {
    begin = λ storage global status headers. record {
      status = status;
      action = next (opening_call (store.jsonp_fn storage));
      headers = headers;
      storage = storage;
    };
    write = λ storage global content. (next content, storage);
    end = λ storage global. (next (closing (codes ");") (store.jsonp_fn storage)), storage);
  }

  abbrev pub with_var : Format → Response w → Option (Response w)
  with_var as_json r = filter_storage_mut r (λ s. store.insert_var s (codes "message"))
  with_var as_text r = some r

  module _ (s : Sending w) (cow : Bytes → Cow) (lossy : Bytes → Bytes) where
    -- the function name of the query, put into the storage
    abbrev pub with_fn : Option MaybeUtf8 → Response w → Option (Bool × Response w)
    with_fn none r = some (false, r)
    with_fn (some name) r =
        and_then (filter_storage_mut r (λ storage. store.insert_fn storage (into_string cow name)))
          (λ r'. some (true, r'))

    abbrev pub message : Context w → Bool → Format → Bytes
    message context is_jsonp format =
        greeting (quotes is_jsonp format)
          (or_stranger (get lossy context.variables (codes "person")))

    -- `say_hello`, with what is sent; the error of `try_send` is only logged; `none` is a panic
    unfoldable pub say_hello : Context w → Response w → Format → Option (Reply s (Error s))
    unfolding filter_storage_mut headers_mut get remove into_string reply_data
    say_hello context response format =
        and_then (with_fn (remove context.query (codes "jsonp")).0 response) (λ (is_jsonp, named).
          and_then (headers_mut named (store.set_content_type (kind_of is_jsonp format))) (λ typed.
            and_then (with_var format typed)
              (λ ready. some (reply_data s (string (message context is_jsonp format)) ready))))

-- `RequestLogger::modify`: the counter, which wraps around in a release build, and the action
unfoldable pub log_request : {w : World} → ℕ → w.Storage → Context w → ℕ × Modified w
log_request counter storage context = (
  (counter + 1) % 2 ^ 32,
  record { action = ContextAction.next; context = context; storage = storage },
)

-- `trim_matches('/')`
unfoldable pub trim_start : Bytes → Bytes
trim_start [] = []
trim_start (b ∷ s) = if b == b'/' then trim_start s else b ∷ s

unfoldable pub trim_matches : Bytes → Bytes
unfolding trim_start
trim_matches s = reverse (trim_start (reverse (trim_start s)))

-- `PathPrefix::modify`
unfoldable pub prefixed : Bytes → Bytes → MaybeUtf8
unfolding push_bytes push_str trim_matches
prefixed prefix p = push_bytes (push_str (utf8 (codes "/")) (trim_matches prefix)) p

abbrev pub prefixed_path : Bytes → UriPath → UriPath
prefixed_path prefix (path p) = path (prefixed prefix (as_bytes p))
prefixed_path prefix asterisk = asterisk

unfoldable pub path_prefix : {w : World} → Bytes → ContextFilter w
unfolding prefixed as_bytes
path_prefix prefix storage global context = record {
  action = ContextAction.next;
  context = record context { uri_path = prefixed_path prefix context.uri_path };
  storage = storage;
}
