-- ===== src/Examples/Todo/Api/Replies.antt =====
-- examples/todo.rs: what the handler sends for each outcome of an action.
use rustful.Base.{Option, none, some, List, [], ◌∷◌, ◌++◌, Bytes, Result, ok, err, Bool}
use rustful.Http.{
  World, Context, Response, ResponseFilter, Content, string, bytes, MaybeMock, set_mock_status,
  set_mock_headers, mock_headers,
}
use rustful.Response.{Sending}
use rustful.Response.Sized.{send_through}
use rustful.Examples.Todo.{Table, Failure, TodoLibrary}
use rustful.Examples.Todo.Api.{failure_message, methods_of, Handled}

module _ {w : World} (l : TodoLibrary w) (s : Sending w) where
  abbrev pub changed : (w.Headers → w.Headers) → MaybeMock w → MaybeMock w
  changed f m = set_mock_headers m (f (mock_headers m))

  -- the head of the response with the headers for other origins
  abbrev pub cors : Context w → MaybeMock w → MaybeMock w
  cors context m = changed l.allow_headers (
      changed (l.allow_methods (methods_of context.hyperlinks ++ context.method ∷ []))
        (changed l.allow_origin m))

  -- status, headers and body for a result: 200 with a text, 404 without one, 400 with a plain message for an error
  abbrev pub head_for : Result (Option Bytes) Failure → MaybeMock w → MaybeMock w
  head_for (ok (some text)) m = set_mock_status m 200
  head_for (ok none) m = set_mock_status (set_mock_status m 200) 404
  head_for (err e) m = set_mock_status (changed l.plain_text (set_mock_status m 500)) 400

  abbrev pub body_for : Result (Option Bytes) Failure → Content w
  body_for (ok (some text)) = string text
  body_for (ok none) = bytes []
  body_for (err e) = string (failure_message e)

  abbrev pub fresh :
      MaybeMock w → List (ResponseFilter w) → w.Global → w.Storage → Bool → Response w
  fresh m filters global storage force = record {
    writer = some m;
    filters = filters;
    global = global;
    filter_storage = some storage;
    force_close = force;
  }

  module _ (context : Context w) (m : MaybeMock w) (filters : List (ResponseFilter w))
      (global : w.Global) (storage : w.Storage) (force : Bool) where
    abbrev pub sent_once : MaybeMock w → Content w → Option Table → Handled l s
    sent_once head content database = record {
      sends = some (send_through s filters global force content head storage) ∷ [];
      database = database;
    }
