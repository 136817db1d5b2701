-- ===== src/Tree/Build.antt =====
-- src/handler/tree_router.rs: the builder of a tree, and the merging of trees.
pub mod Paths
pub mod Routed
pub mod Literal
pub mod Keys
pub mod Kept
pub mod Tables
pub mod Merging
use rustful.Base.{
  ℕ, Bool, true, false, ◌||◌, ◌&&◌, Option, none, some, List, [], ◌∷◌, ◌++◌, Bytes, bytes_discrete,
  ite, if◌then◌else◌, ◌==◌, is_none,
}
use rustful.Text.{MaybeUtf8, from_vec}
use rustful.Route.{segments}
use rustful.Handler.{BuilderContexts, VariableNames, ApplyContext, FromHandler, Merge, Default}
use rustful.Tree.{
  TreeRouter, Routes, Child, node, no_routes, route, absent, present, Branch, static, variable,
  wildcard, with_handler, get_route, static_routes, variable_route, wildcard_route, item,
}
use rustful.Tree.Traverse.{apply_context, merge}

-- what the first byte of a segment says
unfoldable pub branch_of : Bytes → Branch
branch_of [] = static
branch_of (b ∷ name) = if b == b'*' then wildcard else if b == b':' then variable else static

module _ {T : Type 0} where
  -- the child of a node for a segment of a pattern
  abbrev pub child_of : Branch → TreeRouter T → Bytes → Child T
  child_of static t key = get_route (static_routes t) key
  child_of variable t key = variable_route t
  child_of wildcard t key = wildcard_route t

  unfoldable pub child : TreeRouter T → Bytes → Child T
  unfolding get_route branch_of
  child t key = child_of (branch_of key) t key

  pub update_child : Child T → T → (TreeRouter T → TreeRouter T) → Child T
  unfolding with_handler
  update_child absent created k = present (k (with_handler created))
  update_child (present n) created k = present (k n)

  pub update_route : Routes T → Bytes → T → (TreeRouter T → TreeRouter T) → Routes T
  unfolding with_handler
  update_route no_routes key created k = route key (k (with_handler created)) no_routes
  update_route (route j n rs) key created k =
      ite (bytes_discrete j key) (route j (k n) rs) (route j n (update_route rs key created k))

  abbrev pub insert_at :
      Branch → TreeRouter T → Bytes → T → (TreeRouter T → TreeRouter T) → TreeRouter T
  insert_at static (node i s v w f) key created k = node i (update_route s key created k) v w f
  insert_at variable (node i s v w f) key created k = node i s (update_child v created k) w f
  insert_at wildcard (node i s v w f) key created k = node i s v (update_child w created k) f

  -- `find_or_insert_router`: the node that it lends out is changed by `k`
  unfoldable pub find_or_insert :
      TreeRouter T → Bytes → T → (TreeRouter T → TreeRouter T) → TreeRouter T
  unfolding branch_of update_child update_route
  find_or_insert t key created k = insert_at (branch_of key) t key created k

  abbrev pub set_item : T → TreeRouter T → TreeRouter T
  set_item i (node _ s v w f) = node i s v w f

-- the label behind the first byte of a segment, if it is of a variable
unfoldable pub push_label : VariableNames → Bytes → VariableNames
unfolding from_vec
push_label names [] = names
push_label names (b ∷ label) =
    if b == b':' || b == b'*' then names ++ from_vec label ∷ [] else names

-- `segment[0]` is in bounds for all segments; otherwise building panics
abbrev pub indexable : List Bytes → Bool
indexable [] = true
indexable ([] ∷ ss) = false
indexable ((b ∷ s) ∷ ss) = indexable ss

module _ {T : Type 0} where
  -- the fold of `get_path`: the node and the names on its path, if the tree has them
  pub walk : List Bytes → TreeRouter T → VariableNames → Option (TreeRouter T × VariableNames)
  unfolding child push_label
  walk [] t names = some (t, names)
  walk (s ∷ ss) t names = elim (child t s) [
    | absent ↦ none
    | present n ↦ walk ss n (push_label names s)
  ]

module _ (c : BuilderContexts) (T : Type 0) where
  pub record Builder : Type 0 where
    pub node : TreeRouter T
    pub variables : VariableNames
    pub context : c.BuilderContext

module _ {c : BuilderContexts} {T : Type 0} where
  abbrev pub named_context : Builder c T → c.BuilderContext
  named_context b = c.insert b.context b.variables

  -- `TreeRouter::get_builder`
  unfoldable pub get_builder : TreeRouter T → c.BuilderContext → Builder c T
  get_builder t context =
      let (names, context') = c.remove context in
      record { node = t; variables = elim names [ none ↦ [] | some v ↦ v ]; context = context' }

  module _ (a : ApplyContext c T) (d : Default T) where
    -- the handler of a new node
    unfoldable pub created : c.BuilderContext → VariableNames → T
    created context names = a.apply_context d.default (c.insert context names)

    -- the fold over the segments; `k` is what is done with the last node and the names on its path
    pub along :
        List Bytes
        → c.BuilderContext
        → VariableNames
        → TreeRouter T
        → (TreeRouter T → VariableNames → TreeRouter T)
        → TreeRouter T
    unfolding find_or_insert push_label created
    along [] context names t k = k t names
    along (s ∷ ss) context names t k =
        let names' = push_label names s in
        find_or_insert t s (created context names') (λ n. along ss context names' n k)

    -- `path` lends out a builder of the node at the end of the path; `k` is what is done with it.
    -- `none` is a panic.
    unfoldable pub path : Builder c T → Bytes → (Builder c T → Builder c T) → Option (Builder c T)
    unfolding along
    path b p k =
        if indexable (segments p)
        then some (record b {
          node =
              along (segments p) b.context b.variables b.node
                (λ n names. (k (record { node = n; variables = names; context = b.context })).node);
        })
        else none

    -- `handler`, and the end of `on_path`
    unfoldable pub handler : {H : Type 0} → FromHandler c T H → Builder c T → H → Builder c T
    handler f b h = record b { node = set_item (f.from_handler (named_context b) h) b.node }

    unfoldable pub on_path :
        {H : Type 0} → FromHandler c T H → Builder c T → Bytes → H → Option (Builder c T)
    unfolding path handler
    on_path f b p h = path b p (λ b'. handler f b' h)

  -- `get_path`, as the builder of the node that it finds
  unfoldable pub get_path : Builder c T → Bytes → Option (Builder c T)
  unfolding walk
  get_path b p = elim (walk (segments p) b.node b.variables) [
    | none ↦ none
    | some (n, names) ↦ some (record { node = n; variables = names; context = b.context })
  ]

  -- `on_route`: a handler is made only for a node that is not there yet. `none` is a panic, for a
  -- longer path or a segment that cannot be indexed; without a segment `k` gets the builder itself.
  abbrev on_segments :
      {H : Type 0}
      → FromHandler c T H
      → Builder c T
      → List Bytes
      → H
      → (Builder c T → Builder c T)
      → Option (Builder c T)
  on_segments f b [] h k = some (k b)
  on_segments f b ([] ∷ []) h k = none
  on_segments f b ((x ∷ label) ∷ []) h k =
      let names = push_label b.variables (x ∷ label) in
      let made = f.from_handler (c.insert b.context names) h in
      some (record b {
        node =
            find_or_insert b.node (x ∷ label) made
              (λ n. (k (record { node = n; variables = names; context = b.context })).node);
      })
  on_segments f b (s ∷ t ∷ ss) h k = none

  unfoldable pub on_route :
      {H : Type 0}
      → FromHandler c T H
      → Builder c T
      → Bytes
      → H
      → (Builder c T → Builder c T)
      → Option (Builder c T)
  unfolding find_or_insert push_label
  on_route f b p h k = on_segments f b (segments p) h k

  -- `then`: the builder of the item, whose work on the item is `k`, gets the names in its context
  unfoldable pub then_item : Builder c T → (c.BuilderContext → T → T) → Builder c T
  then_item b k = record b { node = set_item (k (named_context b) (item b.node)) b.node }

  -- `merge` of the builder
  unfoldable pub merge_router :
      ApplyContext c T → Merge T → Builder c T → TreeRouter T → Builder c T
  unfolding apply_context merge
  merge_router a m b other = record b {
    node = merge m b.node (apply_context a other (named_context b));
  }
