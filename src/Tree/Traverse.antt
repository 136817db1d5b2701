-- ===== src/Tree/Traverse.antt =====
-- src/handler/tree_router.rs: the operations on whole trees, `ApplyContext` and `Merge`.
pub mod Contexts
use rustful.Base.{Option, none, some, Bytes, bytes_discrete, ite}
use rustful.Handler.{BuilderContexts, VariableNames, ApplyContext, Merge, Default, FromHandler}
use rustful.Tree.{TreeRouter, Routes, Child, node, no_routes, route, absent, present, with_handler}

module _ {c : BuilderContexts} {T : Type 0} (a : ApplyContext c T) where
  -- the names of the context go in front of those of the item, and what else is in it is applied
  abbrev pub item_apply : Option VariableNames → T → c.BuilderContext → T
  item_apply none i context = i
  item_apply (some names) i context =
      a.apply_context (a.prepend_context i (c.insert c.empty names)) context

  -- the context for the children
  abbrev pub context_for : Option VariableNames → c.BuilderContext → c.BuilderContext
  context_for none context = context
  context_for (some names) context = c.insert context names

  unfoldable mutual
    pub apply_context : TreeRouter T → c.BuilderContext → TreeRouter T
    apply_context (node i s v w f) context =
        let (names, rest) = c.remove context in
        let below = context_for names rest in
        node (item_apply names i rest) (apply_routes s below) (apply_child v below)
          (apply_child w below) f

    pub apply_routes : Routes T → c.BuilderContext → Routes T
    apply_routes no_routes context = no_routes
    apply_routes (route k n rs) context =
        route k (apply_context n context) (apply_routes rs context)

    pub apply_child : Child T → c.BuilderContext → Child T
    apply_child absent context = absent
    apply_child (present n) context = present (apply_context n context)

  unfoldable mutual
    pub prepend_context : TreeRouter T → c.BuilderContext → TreeRouter T
    prepend_context (node i s v w f) context =
        node (a.prepend_context i context) (prepend_routes s context) (prepend_child v context)
          (prepend_child w context) f

    pub prepend_routes : Routes T → c.BuilderContext → Routes T
    prepend_routes no_routes context = no_routes
    prepend_routes (route k n rs) context =
        route k (prepend_context n context) (prepend_routes rs context)

    pub prepend_child : Child T → c.BuilderContext → Child T
    prepend_child absent context = absent
    prepend_child (present n) context = present (prepend_context n context)

module _ {T : Type 0} where
  -- `entry(key)`: a vacant entry takes the other node, an occupied one is merged with it
  unfoldable pub merge_entry :
      Routes T → Bytes → TreeRouter T → (TreeRouter T → TreeRouter T) → Routes T
  merge_entry no_routes key other merged = route key other no_routes
  merge_entry (route j n rs) key other merged =
      ite (bytes_discrete j key) (route j (merged n) rs)
        (route j n (merge_entry rs key other merged))

  abbrev merge_into : Child T → TreeRouter T → (TreeRouter T → TreeRouter T) → Child T
  merge_into absent other merged = present other
  merge_into (present n) other merged = present (merged n)

module _ {T : Type 0} (m : Merge T) where
  unfoldable mutual
    pub merge : TreeRouter T → TreeRouter T → TreeRouter T
    merge (node i s v w f) (node i' s' v' w' f') =
        node (m.merge i i') (merge_routes s s') (merge_child v v') (merge_child w w') f

    pub merge_routes : Routes T → Routes T → Routes T
    merge_routes s no_routes = s
    merge_routes s (route key other rs) =
        merge_routes (merge_entry s key other (λ n. merge n other)) rs

    pub merge_child : Child T → Child T → Child T
    merge_child v absent = v
    merge_child v (present other) = merge_into v other (λ n. merge n other)

-- `Default` and `FromHandler`: a tree of one node
unfoldable pub tree_default : {T : Type 0} → Default T → TreeRouter T
unfolding with_handler
tree_default d = with_handler d.default

unfoldable pub tree_from_handler :
    {c : BuilderContexts} {T H : Type 0} → FromHandler c T H → c.BuilderContext → H → TreeRouter T
unfolding with_handler
tree_from_handler f context h = with_handler (f.from_handler context h)
