-- ===== src/Examples/Todo/Api.antt =====
-- examples/todo.rs: the handler around the actions.
pub mod Replies
use rustful.Base.{
  ℕ, Option, none, some, List, [], ◌∷◌, ◌++◌, Bytes, codes, Result, ok, err, and_then,
}
use rustful.Http.{World, Context, Link, Response, Content, string, bytes, set_status, headers_mut}
use rustful.Response.{Sending}
use rustful.Response.Sized.{Sent, Error, drop}
use rustful.Response.Contents.{
  Reply, SendResponse, reply_data, reply_option, reply_result, drop_sends,
}
use rustful.Examples.Todo.{
  Table, Failure, parse_error, bad_id, missing_host_header, TodoLibrary, Action,
}

unfoldable pub failure_message : Failure → Bytes
failure_message parse_error = codes "Couldn't parse the todo"
failure_message bad_id = codes "The 'id' parameter should be a non-negative integer"
failure_message missing_host_header = codes "No 'Host' header was sent"

-- the methods of the links
unfoldable pub methods_of : {w : World} → List (Link w) → List w.Method
methods_of [] = []
methods_of (l ∷ ls) = elim l.method [ none ↦ methods_of ls | some m ↦ m ∷ methods_of ls ]

module _ {w : World} (l : TodoLibrary w) (s : Sending w) where
  -- a panic where there is no response left
  abbrev pub or_panic : Option (Response w) → (Response w → Reply s (Error s)) → Reply s (Error s)
  or_panic none k = record { error = none; sends = none ∷ [] }
  or_panic (some r) k = k r

  -- `SendResponse for Error`
  unfoldable pub reply_failure : Failure → Response w → Reply s (Error s)
  unfolding failure_message headers_mut set_status reply_data
  reply_failure e r =
      or_panic (headers_mut r l.plain_text)
        (λ r'. reply_data s (string (failure_message e)) (set_status r' 400))

  abbrev pub text_reply : SendResponse s Bytes (Error s)
  text_reply = record { send_response = λ text r. reply_data s (string text) r }

  abbrev pub option_reply : SendResponse s (Option Bytes) (Error s)
  option_reply = record { send_response = reply_option s text_reply }

  abbrev pub failure_reply : SendResponse s Failure (Error s)
  failure_reply = record { send_response = reply_failure }

  -- What a request leads to: all that is sent, and the database afterwards.
  pub record Handled : Type 0 where
    pub sends : List (Option (Sent s))
    pub database : Option Table

  -- the three headers for requests of other origins
  abbrev pub with_cors : Context w → Response w → Option (Response w)
  with_cors context r = and_then (headers_mut r l.allow_origin) (λ r1.
      and_then
        (headers_mut r1 (l.allow_methods (methods_of context.hyperlinks ++ context.method ∷ [])))
        (λ r2. headers_mut r2 l.allow_headers))

  -- behind the headers
  abbrev pub answer : Option (Action l) → Option Table → Context w → Response w → Handled
  answer action none context r = record {
    sends = drop_sends s (drop s (set_status r 500));
    database = none;
  }
  answer none (some t) context r = record { sends = drop_sends s (drop s r); database = some t }
  answer (some action) (some t) context r =
      let (result, t') = action t context in
      record {
        sends = (reply_result s option_reply failure_reply (λ e. e) result r).sends;
        database = some t';
      }

  abbrev pub ready_or_panic : Option (Response w) → Option Table → (Response w → Handled) → Handled
  ready_or_panic none database k = record { sends = none ∷ []; database = database }
  ready_or_panic (some r) database k = k r

  -- `Api::handle`
  unfoldable pub handle : Option (Action l) → Option Table → Context w → Response w → Handled
  unfolding methods_of headers_mut set_status drop reply_option reply_result reply_failure
  handle action database context response =
      ready_or_panic (with_cors context response) database (answer action database context)
