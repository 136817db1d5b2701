-- ===== src/Examples/Todo/Tests.antt =====
-- The list of things to do at concrete requests.
use rustful.Base.{
  ℕ, suc, ◌+◌, ◌-◌, ◌*◌, ℕ_discrete, ◌≡◌, refl, true, false, Option, none, some, List, [], ◌∷◌,
  Bytes, codes, Result, ok, err, arith,
}
use rustful.Base.{get as entry_at, tree_get, tree_insert, tree_remove, last_key}
use rustful.Text.{utf8, as_utf8_lossy}
use rustful.Http.{World, Context, asterisk}
use rustful.Response.{Sending}
use rustful.Sample.{world}
use rustful.Parameters.{parse}
use rustful.Examples.Todo.{
  NetworkTodo, Table, new, to_string, from_todo, bad_id, TodoLibrary, or_else, list_all, store,
  get_todo, edit_todo, delete_todo, clear_all,
}
use rustful.Examples.Todo.Views.{
  Call, Store, Shows, store_call, get_call, delete_call, list_call, edit_call, run, on_table,
  on_store,
}
use rustful.Examples.Todo.Refines.{run-Shows}

-- a body is what is read from it
abbrev bodies : World
bodies = record world { Body = Option NetworkTodo }

abbrev digit : Bytes → Result ℕ Unit
digit (b ∷ []) = ok (b - b'0')
digit _ = err tt

abbrev title_of : NetworkTodo → Bytes
title_of t = or_else t.title (codes "?")

abbrev json_one : Option NetworkTodo → Bytes
json_one none = codes "null"
json_one (some t) = title_of t

abbrev json_all : List NetworkTodo → Bytes
json_all [] = []
json_all (t ∷ ts) = b';' ∷ json_all ts

abbrev library : TodoLibrary bodies
library = record {
  IdError = Unit;
  from_reader = λ body. body;
  json_one = json_one;
  json_todo = title_of;
  json_all = json_all;
  host_of = λ headers. some (record { hostname = codes "h"; port = some 80 });
  from_str = record { from_str = digit };
  from_utf8_lossy = λ s. s;
  allow_origin = λ headers. headers + 1;
  allow_methods = λ methods headers. headers * 2;
  allow_headers = λ headers. headers + 3;
  plain_text = λ headers. headers * 5;
}

abbrev sends : Sending bodies
sends = record { IoError = ℕ; send = λ r body. none; set_close = λ headers. suc headers }

abbrev context : Bytes → Option NetworkTodo → Context bodies
context id body = record {
  headers = 0;
  http_version = tt;
  address = tt;
  method = 1;
  uri_path = asterisk;
  hyperlinks = [];
  variables = (codes "id", utf8 id) ∷ [];
  query = [];
  fragment = none;
  global = tt;
  body = body;
}

abbrev wash : NetworkTodo
wash = record { title = some (codes "wash"); completed = none; order = some 2; url = none }

abbrev finish : NetworkTodo
finish = record { title = none; completed = some true; order = none; url = none }

printed : to_string 1080 ≡ codes "1080"
unfolding to_string
printed = refl

url_of_wash :
    (from_todo
      (record { title = []; completed = false; order = 0 })
      (record { hostname = codes "h"; port = some 80 })
      7).url
    ≡ some (codes "http://h:80/7")
unfolding from_todo
url_of_wash = refl

-- wash, finish it, ask for a missing one, delete, ask again, a bad id
abbrev calls : List (Call × Context bodies)
calls =
    (store_call, context [] (some wash))
    ∷ (edit_call, context (codes "0") (some finish))
    ∷ (get_call, context (codes "0") none)
    ∷ (edit_call, context (codes "4") (some finish))
    ∷ (list_call, context [] none)
    ∷ (delete_call, context (codes "0") none)
    ∷ (get_call, context (codes "0") none)
    ∷ (store_call, context [] (some finish))
    ∷ (get_call, context (codes "??") none)
    ∷ []

abbrev nothing : Store
nothing = record { next = 0; at = λ id. none }

new-Shows : Shows new nothing
unfolding new
new-Shows = record {
  same_next = refl;
  same_items = λ id. unfold tree_get in refl;
  ascends = omega arith;
}

-- an edit of a missing item is answered with "null"
answered :
    (run library (on_table library) calls new).0
    ≡ ok (some (codes "wash"))
      ∷ ok (some (codes "wash"))
      ∷ ok (some (codes "wash"))
      ∷ ok (some (codes "null"))
      ∷ ok (some (codes ";"))
      ∷ ok (some [])
      ∷ ok none
      ∷ ok (some [])
      ∷ err bad_id
      ∷ []
unfolding list_all store clear_all get_todo edit_todo delete_todo new parse ℕ_discrete as_utf8_lossy
    entry_at last_key tree_get tree_insert tree_remove
answered = refl

run-Shows_example :
    ((run library (on_table library) calls new).0
      ≡ (run library (on_store library) calls nothing).0)
    × Shows
        (run library (on_table library) calls new).1
        (run library (on_store library) calls nothing).1
run-Shows_example = run-Shows library calls new nothing new-Shows (omega arith)

abbrev one : Table
one = record {
  next_id = 1;
  items = (0, record { title = codes "wash"; completed = false; order = 2 }) ∷ [];
}

abbrev missing : Context bodies
missing = context (codes "7") none
