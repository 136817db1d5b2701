-- ===== src/Examples/Todo.antt =====
-- examples/todo.rs: a list of things to do behind an interface of requests. The database is the table behind its lock;
-- an action takes it and gives back the changed one, as the lock is held for its whole work.
pub mod Listing
pub mod Views
pub mod Refines
pub mod Api
mod Tests
use rustful.Base.{
  ℕ, zero, suc, ◌+◌, ◌%◌, ◌/◌, ◌^◌, Bool, false, Option, none, some, List, [], ◌∷◌, ◌++◌, Bytes,
  codes, map, Result, ok, err, and_then, BTreeMap, tree_get, tree_insert, tree_remove, last_key,
  ltb, if◌then◌else◌,
}
use rustful.Http.{World, Context, Link, Response, Content, string, set_status, headers_mut}
use rustful.Parameters.{FromStr, parse}
use rustful.Response.{Sending}
use rustful.Response.Sized.{Sent, Error, drop}
use rustful.Response.Contents.{
  Reply, SendResponse, reply_data, reply_option, reply_result, drop_sends,
}

pub record Todo : Type 0 where
  pub title : Bytes
  pub completed : Bool
  pub order : ℕ

pub record NetworkTodo : Type 0 where
  pub title : Option Bytes
  pub completed : Option Bool
  pub order : Option ℕ
  pub url : Option Bytes

-- the header `Host` of hyper
pub record Host : Type 0 where
  pub hostname : Bytes
  pub port : Option ℕ

pub record Table : Type 0 where
  pub next_id : ℕ
  pub items : BTreeMap Todo

abbrev pub or_else : {A : Type 0} → Option A → A → A
or_else none a = a
or_else (some x) a = x

-- `Todo::update`
unfoldable pub update : Todo → NetworkTodo → Todo
update todo changes = record {
  title = or_else changes.title todo.title;
  completed = or_else changes.completed todo.completed;
  order = or_else changes.order todo.order;
}

-- `From<NetworkTodo> for Todo`
unfoldable pub from_network : NetworkTodo → Todo
from_network todo = record {
  title = or_else todo.title [];
  completed = or_else todo.completed false;
  order = or_else todo.order 0;
}

-- how a number is written
abbrev pub onto_digits : ℕ → ℕ → (ℕ → Bytes) → Bytes
onto_digits n d rest = if ltb n 10 then d ∷ [] else rest (n / 10) ++ d ∷ []

pub digits : ℕ → ℕ → Bytes
digits zero n = []
digits (suc f) n = onto_digits n (b'0' + n % 10) (λ m. digits f m)

unfoldable pub to_string : ℕ → Bytes
unfolding digits
to_string n = digits (suc n) n

abbrev pub authority : Host → Option ℕ → Bytes
authority host none = host.hostname
authority host (some port) = host.hostname ++ codes ":" ++ to_string port

-- `NetworkTodo::from_todo`
unfoldable pub from_todo : Todo → Host → ℕ → NetworkTodo
unfolding to_string
from_todo todo host id = record {
  title = some todo.title;
  completed = some todo.completed;
  order = some todo.order;
  url = some (codes "http://" ++ authority host host.port ++ codes "/" ++ to_string id);
}

-- the methods of `Table`; the next id wraps around in a release build
unfoldable pub new : Table
new = record { next_id = 0; items = [] }

unfoldable pub insert : Table → Todo → Table
insert t item = record {
  next_id = (t.next_id + 1) % 2 ^ 64;
  items = tree_insert t.items t.next_id item;
}

unfoldable pub delete : Table → ℕ → Table
delete t id = record t { items = tree_remove t.items id }

unfoldable pub clear : Table → Table
clear t = record t { items = [] }

unfoldable pub last : Table → Option (ℕ × Todo)
last t =
    and_then (last_key t.items) (λ id. and_then (tree_get t.items id) (λ item. some (id, item)))

unfoldable pub get : Table → ℕ → Option Todo
get t id = tree_get t.items id

-- `get_mut`: what the caller does with the item, if there is one, is `change`
abbrev pub put_back : Table → ℕ → Option Todo → (Todo → Todo) → Table
put_back t id none change = t
put_back t id (some item) change = record t { items = tree_insert t.items id (change item) }

unfoldable pub get_mut : Table → ℕ → (Todo → Todo) → Table
get_mut t id change = put_back t id (tree_get t.items id) change

-- the errors of the actions
pub data Failure : Type 0 where
  parse_error bad_id missing_host_header : Failure

-- What the program takes from serde, hyper and the standard library: bodies read as JSON, what is written, the header of
-- the request, numbers in a path, and the headers of the response.
pub record TodoLibrary (w : World) : Type 1 where
  pub IdError : Type 0
  pub from_reader : w.Body → Option NetworkTodo
  pub json_one : Option NetworkTodo → Bytes
  pub json_todo : NetworkTodo → Bytes
  pub json_all : List NetworkTodo → Bytes
  pub host_of : w.Headers → Option Host
  pub from_str : FromStr ℕ IdError
  pub from_utf8_lossy : Bytes → Bytes
  pub allow_origin : w.Headers → w.Headers
  pub allow_methods : List w.Method → w.Headers → w.Headers
  pub allow_headers : w.Headers → w.Headers
  pub plain_text : w.Headers → w.Headers

abbrev pub ok_or : {A : Type 0} → Option A → Failure → Result A Failure
ok_or none e = err e
ok_or (some a) e = ok a

abbrev pub map_failure : {A E : Type 0} → Result A E → Failure → Result A Failure
map_failure (ok a) e = ok a
map_failure (err x) e = err e

-- What an action gives: the text for the client, if there is one, or an error, and the state afterwards.
abbrev pub Answer : Type 0 → Type 0
Answer S = Result (Option Bytes) Failure × S

-- `try!`: a part of the request that fails ends the action and leaves the state
abbrev pub with : {A S : Type 0} → S → Result A Failure → (A → Answer S) → Answer S
with s (err e) f = (err e, s)
with s (ok a) f = f a

module _ {w : World} (l : TodoLibrary w) where
  abbrev pub Action : Type 0
  Action = Table → Context w → Answer Table

  abbrev pub host : Context w → Result Host Failure
  host context = ok_or (l.host_of context.headers) missing_host_header

  abbrev pub body : Context w → Result NetworkTodo Failure
  body context = ok_or (l.from_reader context.body) parse_error

  unfoldable pub id_of : Context w → Result ℕ Failure
  unfolding parse
  id_of context =
      map_failure (parse l.from_str l.from_utf8_lossy context.variables (codes "id")) bad_id

  abbrev pub shown : Host → ℕ × Todo → NetworkTodo
  shown h (id, todo) = from_todo todo h id

  abbrev pub map_shown : Host → ℕ → Option Todo → Option NetworkTodo
  map_shown h id none = none
  map_shown h id (some todo) = some (from_todo todo h id)

  abbrev pub last_shown : Host → Option (ℕ × Todo) → Option NetworkTodo
  last_shown h none = none
  last_shown h (some (id, todo)) = some (from_todo todo h id)

  unfoldable pub list_all : Action
  unfolding from_todo
  list_all t context =
      with t (host context) (λ h. (ok (some (l.json_all (map (shown h) t.items))), t))

  unfoldable pub store : Action
  unfolding insert last from_network from_todo
  store t context = with t (body context) (λ todo. with t (host context) (λ h.
      let t' = insert t (from_network todo) in
      (ok (some (l.json_one (last_shown h (last t')))), t')))

  unfoldable pub clear_all : Action
  unfolding clear
  clear_all t context = (ok (some []), clear t)

  abbrev pub json_found : Option NetworkTodo → Option Bytes
  json_found none = none
  json_found (some todo) = some (l.json_todo todo)

  unfoldable pub get_todo : Action
  unfolding get id_of from_todo
  get_todo t context =
      with t (host context)
        (λ h. with t (id_of context) (λ id. (ok (json_found (map_shown h id (get t id))), t)))

  unfoldable pub edit_todo : Action
  unfolding get get_mut update id_of from_todo
  edit_todo t context = with t (body context) (λ edits. with t (host context) (λ h.
      with t (id_of context) (λ id.
        let t' = get_mut t id (λ todo. update todo edits) in
        (ok (some (l.json_one (map_shown h id (get t' id)))), t'))))

  unfoldable pub delete_todo : Action
  unfolding delete id_of
  delete_todo t context = with t (id_of context) (λ id. (ok (some []), delete t id))
