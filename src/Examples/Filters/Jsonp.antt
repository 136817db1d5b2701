-- ===== src/Examples/Filters/Jsonp.antt =====
-- examples/filters.rs: what the two response filters make of a response.
use rustful.Base.{
  ◌≡◌, refl, sym, ◌∙◌, ap, ap₂, Bool, true, false, Option, none, some, [], ◌∷◌, ◌++◌, append_assoc,
  Bytes, codes,
}
use rustful.Text.{MaybeUtf8}
use rustful.Text.Conversions.{Cow, into_string}
use rustful.Http.{
  World, Context, Content, string, Response, MaybeMock, mock_status, set_mock_status, mock_headers,
  set_mock_headers,
}
use rustful.Parameters.{remove, get}
use rustful.Response.{
  Sending, as_bytes, headers_loop, begun_step, rewrite, filter_content, content_loop, filter_end,
  end_outputs, end_loop,
}
use rustful.Response.Sized.{
  Error, send, buffer_queue, send_filtered, send_body, send_through, close_header, Sent,
}
use rustful.Response.Contents.{Reply, reply_data, error_of}
use rustful.Examples.Filters.{
  FilterStore, json_filter, jsonp_filter, Format, as_json, as_text, say_hello, message, kind_of,
  Kind, javascript, json, text, greeting, quotes, or_stranger,
}

-- an object with the content as its only field, and a call of a function with it
abbrev pub object : Option Bytes → Bytes → Bytes
object none c = c
object (some v) c = codes "{\"" ++ v ++ codes "\": " ++ c ++ codes "}"

abbrev pub call : Option Bytes → Bytes → Bytes
call none c = c
call (some f) c = f ++ codes "(" ++ c ++ codes ");"

-- the greeting, who it is for, and how it is shown
abbrev pub hello : Bytes → Bytes
hello person = codes "Hello, " ++ person ++ codes "!"

abbrev pub called : Option Bytes → Bytes
called none = codes "stranger"
called (some name) = name

abbrev pub quoted : Bytes → Bytes
quoted s = codes "\"" ++ s ++ codes "\""

abbrev pub shown : Option MaybeUtf8 → Format → Bytes → Bytes
shown none as_text person = hello person
shown none as_json person = quoted (hello person)
shown (some name) format person = quoted (hello person)

abbrev pub shown_kind : Option MaybeUtf8 → Format → Kind
shown_kind none as_text = text
shown_kind none as_json = json
shown_kind (some name) format = javascript

in_quotes : (person : Bytes) → greeting true person ≡ quoted (hello person)
in_quotes person =
    ap (λ s. codes "\"Hello, " ++ s) (sym (append_assoc person (codes "!") (codes "\"")))

grouped : (a b c d e : Bytes) → (((a ++ b) ++ c) ++ d) ++ e ≡ (a ++ ((b ++ c) ++ d)) ++ e
grouped a b c d e = simp append_assoc

module _ {w : World} (store : FilterStore w) (s : Sending w) where
  -- the headers and the status are written back
  abbrev pub begun : Bool → MaybeMock w → MaybeMock w
  begun force m =
      set_mock_status (close_header s force (set_mock_headers m (mock_headers m))) (mock_status m)

  pub send_through-wrapped :
      (m : MaybeMock w) (storage : w.Storage) (global : w.Global) (force : Bool)
      (content : Content w) (f v : Option Bytes)
      → store.jsonp_fn storage ≡ f
      → store.json_var storage ≡ v
      → send_through s (jsonp_filter store ∷ json_filter store ∷ []) global force content m storage
        ≡ send s (begun force m) (call f (object v (as_bytes content)))
  unfolding send_through begun_step rewrite headers_loop filter_content content_loop filter_end
      end_outputs end_loop buffer_queue send_filtered as_bytes send_body
  send_through-wrapped m storage global force content none none e d = rw (e, d) refl
  send_through-wrapped m storage global force content none (some v) e d = rw (e, d) refl
  send_through-wrapped m storage global force content (some f) none e d = rw (e, d) refl
  send_through-wrapped m storage global force content (some f) (some v) e d =
      rw (e, d)
        (ap (send s (begun force m))
          (grouped (f ++ codes "(") _ (as_bytes content) (codes "}") (codes ");")))

  abbrev pub fn_of : (Bytes → Cow) → Option MaybeUtf8 → Option Bytes
  fn_of cow none = none
  fn_of cow (some name) = some (into_string cow name)

  abbrev pub var_of : Format → Option Bytes
  var_of as_json = some (codes "message")
  var_of as_text = none

  abbrev pub is_given : Option MaybeUtf8 → Bool
  is_given none = false
  is_given (some name) = true

  -- a response of the server with the two filters, which no one has used
  abbrev pub filtered : MaybeMock w → w.Global → Bool → Response w
  filtered m global force = record {
    writer = some m;
    filters = jsonp_filter store ∷ json_filter store ∷ [];
    global = global;
    filter_storage = some w.no_storage;
    force_close = force;
  }

  abbrev pub typed : Bool → Format → MaybeMock w → MaybeMock w
  typed is_jsonp format m =
      set_mock_headers m (store.set_content_type (kind_of is_jsonp format) (mock_headers m))

  -- what the handler sends, once
  abbrev pub sent_once : Sent s → Reply s (Error s)
  sent_once x = record { error = error_of s (some x); sends = some x ∷ [] }

  reply-wrapped :
      (m : MaybeMock w) (storage : w.Storage) (global : w.Global) (force : Bool)
      (content : Content w) (f v : Option Bytes)
      → store.jsonp_fn storage ≡ f
      → store.json_var storage ≡ v
      → reply_data s content (record (filtered m global force) { filter_storage = some storage })
        ≡ sent_once (send s (begun force m) (call f (object v (as_bytes content))))
  unfolding reply_data
  reply-wrapped m storage global force content f v e d =
      ap sent_once (send_through-wrapped m storage global force content f v e d)

  module _ (cow : Bytes → Cow) (lossy : Bytes → Bytes) where
    say_hello-message :
        (context : Context w) (m : MaybeMock w) (global : w.Global) (force : Bool) (format : Format)
        (jsonp : Option MaybeUtf8)
        → (remove context.query (codes "jsonp")).0 ≡ jsonp
        → say_hello store s cow lossy context (filtered m global force) format
          ≡ some (
              sent_once (
                send s (begun force (typed (is_given jsonp) format m)) (
                  call (fn_of cow jsonp) (
                    object
                      (var_of format)
                      (message store s cow lossy context (is_given jsonp) format)))))
    unfolding say_hello
    say_hello-message context m global force as_json none e = rw e (
        ap some (
          reply-wrapped (typed false as_json m) _ global force
            (string (message store s cow lossy context false as_json)) none (some (codes "message"))
            (store.fn-insert_var _ _ ∙ store.fn-new) (store.var-insert_var _ _)))
    say_hello-message context m global force as_text none e = rw e (
        ap some (
          reply-wrapped (typed false as_text m) w.no_storage global force
            (string (message store s cow lossy context false as_text)) none none store.fn-new
            store.var-new))
    say_hello-message context m global force as_json (some name) e = rw e (
        ap some (
          reply-wrapped (typed true as_json m) _ global force
            (string (message store s cow lossy context true as_json)) (some (into_string cow name))
            (some (codes "message")) (store.fn-insert_var _ _ ∙ store.fn-insert_fn _ _)
            (store.var-insert_var _ _)))
    say_hello-message context m global force as_text (some name) e = rw e (
        ap some (
          reply-wrapped (typed true as_text m) _ global force
            (string (message store s cow lossy context true as_text)) (some (into_string cow name))
            none (store.fn-insert_fn _ _) (store.var-insert_fn _ _ ∙ store.var-new)))

    called-or_stranger : (o : Option Bytes) → or_stranger o ≡ called o
    called-or_stranger none = refl
    called-or_stranger (some name) = refl

    greeting_shown :
        (person : Bytes) (jsonp : Option MaybeUtf8) (format : Format)
        → greeting (quotes (is_given jsonp) format) person ≡ shown jsonp format person
    greeting_shown person none as_text = refl
    greeting_shown person none as_json = in_quotes person
    greeting_shown person (some name) as_text = in_quotes person
    greeting_shown person (some name) as_json = in_quotes person

    kind_shown :
        (jsonp : Option MaybeUtf8) (format : Format)
        → kind_of (is_given jsonp) format ≡ shown_kind jsonp format
    kind_shown none as_text = refl
    kind_shown none as_json = refl
    kind_shown (some name) as_text = refl
    kind_shown (some name) as_json = refl

    -- The handler sends one response, whatever the query and the variables are. It says "Hello, …!" to the person of the
    -- variables, or to a stranger: for plain text without a function name in the query just so, and else in quotes;
    -- for JSON as the field "message" of an object, and with a function name as the argument of a call of the function. The
    -- content type is that of a script for a call, else that of the format.
    pub say_hello_lem :
        (context : Context w) (m : MaybeMock w) (global : w.Global) (force : Bool) (format : Format)
        (jsonp : Option MaybeUtf8) (person : Option Bytes)
        → (remove context.query (codes "jsonp")).0 ≡ jsonp
        → get lossy context.variables (codes "person") ≡ person
        → say_hello store s cow lossy context (filtered m global force) format
          ≡ some (
              sent_once (
                send s
                  (begun force (
                    set_mock_headers m
                      (store.set_content_type (shown_kind jsonp format) (mock_headers m))))
                  (call
                    (fn_of cow jsonp)
                    (object (var_of format) (shown jsonp format (called person))))))
    say_hello_lem context m global force format jsonp person e p =
        say_hello-message context m global force format jsonp e
        ∙ ap₂
            (λ kind words. some (
              sent_once (
                send s
                  (begun force (set_mock_headers m (store.set_content_type kind (mock_headers m))))
                  (call (fn_of cow jsonp) (object (var_of format) words)))))
            (kind_shown jsonp format)
            (greeting_shown _ jsonp format
              ∙ ap (shown jsonp format)
                  (called-or_stranger (get lossy context.variables (codes "person")) ∙ ap called p))
