-- ===== src/Examples/Todo/Views.antt =====
-- examples/todo.rs: the table seen as a map from ids to things to do, and the actions on it.
use rustful.Base.{
  ℕ, zero, suc, ◌+◌, ◌≡◌, Option, none, some, List, [], ◌∷◌, map, Result, ok, Bytes, BTreeMap,
  tree_get, Ascends, ◌==◌, if◌then◌else◌,
}
use rustful.Http.{World, Context}
use rustful.Examples.Todo.{
  Todo, NetworkTodo, Table, update, from_network, from_todo, Failure, TodoLibrary, Answer, with,
  Action, host, body, id_of, shown, map_shown, json_found, list_all, store, clear_all, get_todo,
  edit_todo, delete_todo,
}

-- The next id and the item of each id.
pub record Store : Type 0 where
  pub next : ℕ
  pub at : ℕ → Option Todo

-- A table shows a store: it has the same next id and items, its ids ascend, and all are below the next one.
pub record Shows (t : Table) (s : Store) : Type 0 where
  pub same_next : t.next_id ≡ s.next
  pub same_items : (id : ℕ) → tree_get t.items id ≡ s.at id
  pub ascends : Ascends 0 t.next_id t.items

-- the items with their ids, in ascending order
abbrev pub entry : ℕ → Option Todo → BTreeMap Todo → BTreeMap Todo
entry id none rest = rest
entry id (some todo) rest = (id, todo) ∷ rest

abbrev pub listed : ℕ → ℕ → (ℕ → Option Todo) → BTreeMap Todo
listed lo zero at = []
listed lo (suc c) at = entry lo (at lo) (listed (lo + 1) c at)

-- The actions on a store.
abbrev pub put : ℕ → Option Todo → (ℕ → Option Todo) → ℕ → Option Todo
put id item at i = if id == i then item else at i

abbrev pub edited : Store → ℕ → NetworkTodo → Option Todo → Store
edited s id edits none = s
edited s id edits (some todo) = record s { at = put id (some (update todo edits)) s.at }

abbrev pub updated : NetworkTodo → Option Todo → Option Todo
updated edits none = none
updated edits (some todo) = some (update todo edits)

pub data Call : Type 0 where
  list_call store_call clear_call get_call edit_call delete_call : Call

module _ {w : World} (l : TodoLibrary w) where
  abbrev pub on_store : Call → Store → Context w → Answer Store
  on_store list_call s context =
      with s (host l context)
        (λ h. (ok (some (l.json_all (map (shown l h) (listed 0 s.next s.at)))), s))
  on_store store_call s context = with s (body l context) (λ todo. with s (host l context) (λ h. (
    ok (some (l.json_one (some (from_todo (from_network todo) h s.next)))),
    record { next = s.next + 1; at = put s.next (some (from_network todo)) s.at },
  )))
  on_store clear_call s context = (ok (some []), record s { at = λ id. none })
  on_store get_call s context =
      with s (host l context)
        (λ h. with s (id_of l context) (λ id. (ok (json_found l (map_shown l h id (s.at id))), s)))
  on_store edit_call s context = with s (body l context) (λ edits. with s (host l context) (λ h.
      with s (id_of l context) (λ id. (
        ok (some (l.json_one (map_shown l h id (updated edits (s.at id))))),
        edited s id edits (s.at id),
      ))))
  on_store delete_call s context =
      with s (id_of l context) (λ id. (ok (some []), record s { at = put id none s.at }))

  abbrev pub on_table : Call → Action l
  on_table list_call = list_all l
  on_table store_call = store l
  on_table clear_call = clear_all l
  on_table get_call = get_todo l
  on_table edit_call = edit_todo l
  on_table delete_call = delete_todo l

  -- a sequence of requests, with all answers
  abbrev pub run :
      {S : Type 0}
      → (Call → S → Context w → Answer S)
      → List (Call × Context w)
      → S
      → List (Result (Option Bytes) Failure) × S
  run act [] s = ([], s)
  run act ((call, context) ∷ calls) s =
      let (answer, s') = act call s context in
      let (answers, end) = run act calls s' in (answer ∷ answers, end)
