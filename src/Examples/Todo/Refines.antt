-- ===== src/Examples/Todo/Refines.antt =====
-- examples/todo.rs: the actions on the table do what they do on a store of items by their ids.
use rustful.Base.{
  ℕ, ◌+◌, ◌%◌, ◌^◌, ◌<◌, ◌≤◌, ◌≡◌, refl, ap, subst, ap₂, ◌∙◌, Bool-cases, inl, inr, Option, none,
  some, List, [], ◌∷◌, map, Result, ok, err, length, and_then, tree_get, tree_insert, Ascends,
  Ascends-upper, tree_get-insert, tree_get-remove, tree_insert-Ascends, tree_get-above, ltb,
  tree_remove-Ascends, last_key-insert, ◌==◌, if◌then◌else◌, arith,
}
use rustful.Http.{World, Context}
use rustful.Examples.Todo.{
  Todo, NetworkTodo, Table, update, from_network, insert, delete, clear, last, get, get_mut,
  put_back, Failure, TodoLibrary, Answer, with, host, body, id_of, shown, map_shown, last_shown,
  json_found, list_all, store, clear_all, get_todo, edit_todo, delete_todo,
}
use rustful.Examples.Todo.Views.{
  Store, Shows, listed, put, edited, updated, Call, list_call, store_call, clear_call, get_call,
  edit_call, delete_call, on_store, on_table, run,
}
use rustful.Examples.Todo.Listing.{listed_lem}

-- the answers are the same, and the states after them correspond
abbrev Agrees : Answer Table → Answer Store → Type 0
Agrees a b = (a.0 ≡ b.0) × Shows a.1 b.1

with-Agrees :
    {A : Type 0} (t : Table) (s : Store) (p : Result A Failure) (f : A → Answer Table)
    (g : A → Answer Store)
    → Shows t s
    → ((x : A) → Agrees (f x) (g x))
    → Agrees (with t p f) (with s p g)
with-Agrees t s (err e) f g h k = (refl, h)
with-Agrees t s (ok x) f g h k = k x

items-listed : (t : Table) (s : Store) → Shows t s → t.items ≡ listed 0 s.next s.at
items-listed t s h =
    listed_lem s.at s.next 0 t.items
      (subst (λ n. Ascends 0 n t.items) (omega (arith, h.same_next)) h.ascends)
      (λ id k. h.same_items id)

below : (n : ℕ) → n + 1 < 2 ^ 64 → n + 1 ≡ (n + 1) % 2 ^ 64
below n h = omega arith

insert-Shows :
    (t : Table) (s : Store) (item : Todo)
    → Shows t s
    → s.next + 1 < 2 ^ 64
    → Shows (insert t item) (record { next = s.next + 1; at = put s.next (some item) s.at })
unfolding insert
insert-Shows t s item h k = record {
  same_next = omega (arith, h.same_next);
  same_items = λ id.
      tree_get-insert t.items t.next_id id item
      ∙ ap (λ n. if n == id then some item else tree_get t.items id) h.same_next
      ∙ ap (λ o. if s.next == id then some item else o) (h.same_items id);
  ascends =
      subst (λ n. Ascends 0 n (tree_insert t.items t.next_id item))
        (below t.next_id (omega (arith, h.same_next)))
        (tree_insert-Ascends 0 (t.next_id + 1) t.items t.next_id item
          (Ascends-upper 0 t.next_id (t.next_id + 1) t.items (omega arith) h.ascends) (omega arith)
          (omega arith));
}

same_key : {A : Type 0} (n : ℕ) (x y : A) → (if n == n then x else y) ≡ x
same_key n x y = ground arith

last-insert :
    (t : Table) (s : Store) (item : Todo) → Shows t s → last (insert t item) ≡ some (s.next, item)
unfolding last insert
last-insert t s item h =
    ap
      (λ o.
        and_then o
          (λ id. and_then (tree_get (tree_insert t.items t.next_id item) id) (λ x. some (id, x))))
      (last_key-insert 0 t.next_id t.items item h.ascends)
    ∙ ap (λ o. and_then o (λ x. some (t.next_id, x)))
        (tree_get-insert t.items t.next_id t.next_id item ∙ same_key t.next_id (some item) _)
    ∙ ap (λ n. some (n, item)) h.same_next

clear-Shows : (t : Table) (s : Store) → Shows t s → Shows (clear t) (record s { at = λ id. none })
unfolding clear
clear-Shows t s h = record {
  same_next = h.same_next;
  same_items = λ id. unfold tree_get in refl;
  ascends = omega arith;
}

delete-Shows :
    (t : Table) (s : Store) (id : ℕ)
    → Shows t s
    → Shows (delete t id) (record s { at = put id none s.at })
unfolding delete
delete-Shows t s id h = record {
  same_next = h.same_next;
  same_items = λ i.
      tree_get-remove 0 t.next_id t.items id i h.ascends
      ∙ ap (λ o. if id == i then none else o) (h.same_items i);
  ascends = tree_remove-Ascends 0 t.next_id t.items id h.ascends;
}

some_inside :
    (t : Table) (s : Store) (id : ℕ) (todo : Todo)
    → Shows t s
    → tree_get t.items id ≡ some todo
    → id < t.next_id
some_inside t s id todo h e = elim (Bool-cases (ltb id t.next_id)) [
  | inl k ↦ ground arith
  | inr k ↦
      let nothing : tree_get t.items id ≡ none =
        tree_get-above 0 t.next_id id t.items h.ascends (ground arith) in
      cc
]

put_back-Shows :
    (t : Table) (s : Store) (id : ℕ) (edits : NetworkTodo) (o : Option Todo)
    → Shows t s
    → tree_get t.items id ≡ o
    → Shows (put_back t id o (λ todo. update todo edits)) (edited s id edits o)
put_back-Shows t s id edits none h e = h
put_back-Shows t s id edits (some todo) h e = record {
  same_next = h.same_next;
  same_items = λ i.
      tree_get-insert t.items id i (update todo edits)
      ∙ ap (λ x. if id == i then some (update todo edits) else x) (h.same_items i);
  ascends =
      tree_insert-Ascends 0 t.next_id t.items id (update todo edits) h.ascends (omega arith)
        (some_inside t s id todo h e);
}

get-put_back :
    (t : Table) (id : ℕ) (edits : NetworkTodo) (o : Option Todo)
    → tree_get t.items id ≡ o
    → get (put_back t id o (λ todo. update todo edits)) id ≡ updated edits o
unfolding get
get-put_back t id edits none e = e
get-put_back t id edits (some todo) e =
    tree_get-insert t.items id id (update todo edits) ∙ same_key id (some (update todo edits)) _

module _ {w : World} (l : TodoLibrary w) where
  on_table-Agrees :
      (call : Call) (t : Table) (s : Store) (context : Context w)
      → Shows t s
      → s.next + 1 < 2 ^ 64
      → Agrees (on_table l call t context) (on_store l call s context)
  unfolding list_all store clear_all get_todo edit_todo delete_todo get get_mut
  on_table-Agrees list_call t s context h k =
      with-Agrees t s (host l context) _ _ h (λ x.
        (ap (λ items. ok (some (l.json_all (map (shown l x) items)))) (items-listed t s h), h))
  on_table-Agrees store_call t s context h k = with-Agrees t s (body l context) _ _ h (λ todo.
      with-Agrees t s (host l context) _ _ h (λ x. (
        ap (λ o. ok (some (l.json_one (last_shown l x o)))) (last-insert t s (from_network todo) h),
        insert-Shows t s (from_network todo) h k,
      )))
  on_table-Agrees clear_call t s context h k = (refl, clear-Shows t s h)
  on_table-Agrees get_call t s context h k = with-Agrees t s (host l context) _ _ h (λ x.
      with-Agrees t s (id_of l context) _ _ h
        (λ id. (ap (λ o. ok (json_found l (map_shown l x id o))) (h.same_items id), h)))
  on_table-Agrees edit_call t s context h k = with-Agrees t s (body l context) _ _ h (λ edits.
      with-Agrees t s (host l context) _ _ h (λ x. with-Agrees t s (id_of l context) _ _ h (λ id. (
        ap (λ o. ok (some (l.json_one (map_shown l x id o))))
            (get-put_back t id edits (tree_get t.items id) refl
              ∙ ap (updated edits) (h.same_items id)),
        subst (λ o. Shows (get_mut t id (λ todo. update todo edits)) (edited s id edits o))
            (h.same_items id) (put_back-Shows t s id edits (tree_get t.items id) h refl),
      ))))
  on_table-Agrees delete_call t s context h k =
      with-Agrees t s (id_of l context) _ _ h (λ id. (refl, delete-Shows t s id h))

  with-next :
      {A : Type 0} (n : ℕ) (s : Store) (p : Result A Failure) (g : A → Answer Store)
      → s.next ≤ n
      → ((x : A) → (g x).1.next ≤ n)
      → (with s p g).1.next ≤ n
  with-next n s (err e) g h k = h
  with-next n s (ok x) g h k = k x

  edited-next :
      (s : Store) (id : ℕ) (edits : NetworkTodo) (o : Option Todo)
      → (edited s id edits o).next ≤ s.next + 1
  edited-next s id edits none = omega arith
  edited-next s id edits (some todo) = omega arith

  -- a request takes one id at most
  on_store-next :
      (call : Call) (s : Store) (context : Context w)
      → (on_store l call s context).1.next ≤ s.next + 1
  on_store-next list_call s context =
      with-next (s.next + 1) s (host l context) _ (omega arith) (λ x. omega arith)
  on_store-next store_call s context =
      with-next (s.next + 1) s (body l context) _ (omega arith)
        (λ todo. with-next (s.next + 1) s (host l context) _ (omega arith) (λ x. omega arith))
  on_store-next clear_call s context = omega arith
  on_store-next get_call s context =
      with-next (s.next + 1) s (host l context) _ (omega arith)
        (λ x. with-next (s.next + 1) s (id_of l context) _ (omega arith) (λ id. omega arith))
  on_store-next edit_call s context =
      with-next (s.next + 1) s (body l context) _ (omega arith) (λ edits.
        with-next (s.next + 1) s (host l context) _ (omega arith) (λ x.
          with-next (s.next + 1) s (id_of l context) _ (omega arith)
            (λ id. edited-next s id edits (s.at id))))
  on_store-next delete_call s context =
      with-next (s.next + 1) s (id_of l context) _ (omega arith) (λ id. omega arith)

  -- Every sequence of requests, fewer than there are ids left, is answered from the table as from a map from ids to items
  -- that gives each new item the next id and never an id twice: the same texts and errors, in the same order, and at
  -- the end the table shows the map again.
  pub run-Shows :
      (calls : List (Call × Context w)) (t : Table) (s : Store)
      → Shows t s
      → s.next + length calls < 2 ^ 64
      → ((run l (on_table l) calls t).0 ≡ (run l (on_store l) calls s).0)
        × Shows (run l (on_table l) calls t).1 (run l (on_store l) calls s).1
  run-Shows [] t s h k = (refl, h)
  run-Shows ((call, context) ∷ calls) t s h k =
      let (same, h') = on_table-Agrees call t s context h (omega arith) in
      let (answers, end) =
        run-Shows calls (on_table l call t context).1 (on_store l call s context).1 h'
          (omega (arith, on_store-next call s context)) in
      (ap₂ (λ a as'. a ∷ as') same answers, end)
