-- ===== src/Tree/Traverse/Contexts.antt =====
-- src/handler/tree_router.rs: `apply_context` at the paths of a tree, and `merge` of the builder.
use rustful.Base.{◌≡◌, refl, ◌∙◌, ap, subst, Option, none, some, List, [], ◌∷◌, Bytes, arith}
use rustful.Handler.{BuilderContexts, VariableNames, ApplyContext, Merge, option_merge}
use rustful.Tree.{
  TreeRouter, Routes, Child, node, no_routes, route, absent, present, Branch, static, variable,
  wildcard, get_route, item,
}
use rustful.Tree.Traverse.{item_apply, context_for, apply_context, apply_routes, apply_child}
use rustful.Tree.Build.{Builder, branch_of, child, child_of, merge_router, named_context}
use rustful.Tree.Build.Merging.{item_at, next_item, IsMap, IsMapRoutes, IsMapChild, item_at-merge}

abbrev pub map_item : {T : Type 0} → (T → T) → Option T → Option T
map_item f none = none
map_item f (some i) = some (f i)

module _ {c : BuilderContexts} {T : Type 0} (a : ApplyContext c T) where
  -- what a context does to every item of a tree
  abbrev pub item_in : c.BuilderContext → T → T
  item_in context i = item_apply a (c.remove context).0 i (c.remove context).1

  -- the context for the children does to them the same
  below_context :
      (names : Option VariableNames) (rest context : c.BuilderContext)
      → c.remove context ≡ (names, rest)
      → c.remove (context_for a names rest) ≡ (names, rest)
  below_context none rest context e =
      let same : (c.remove context).1 ≡ rest =
        ap (λ (x : Option VariableNames × c.BuilderContext). x.1) e in
      subst (λ r. c.remove r ≡ (none, r)) same (c.remove-remove context)
  below_context (some names) rest context e =
      let same : (c.remove context).1 ≡ rest =
        ap (λ (x : Option VariableNames × c.BuilderContext). x.1) e in
      subst (λ r. c.remove (c.insert r names) ≡ (some names, r)) same
        (c.remove-insert (c.remove context).1 names
          ∙ ap (λ (x : Option VariableNames × c.BuilderContext). (some names, x.1))
              (c.remove-remove context))

  abbrev children_context : c.BuilderContext → c.BuilderContext
  children_context context = context_for a (c.remove context).0 (c.remove context).1

  get_route-apply_routes :
      (rs : Routes T) (context : c.BuilderContext) (s : Bytes)
      → get_route (apply_routes a rs context) s ≡ apply_child a (get_route rs s) context
  unfolding get_route apply_context
  get_route-apply_routes no_routes context s = refl
  get_route-apply_routes (route k n rs) context s =
      ground (arith, get_route-apply_routes rs context s)

  child_of-apply_context :
      (b : Branch) (t : TreeRouter T) (context : c.BuilderContext) (s : Bytes)
      → child_of b (apply_context a t context) s
        ≡ apply_child a (child_of b t s) (children_context context)
  unfolding apply_context
  child_of-apply_context static (node i rs v w f) context s =
      get_route-apply_routes rs (children_context context) s
  child_of-apply_context variable (node i rs v w f) context s = refl
  child_of-apply_context wildcard (node i rs v w f) context s = refl

  item-apply_context :
      (t : TreeRouter T) (context : c.BuilderContext)
      → item (apply_context a t context) ≡ item_in context (item t)
  unfolding apply_context
  item-apply_context (node i rs v w f) context = refl

  next_item-apply_child :
      (x : Child T) (context : c.BuilderContext) (f g : TreeRouter T → Option T) (h : T → T)
      → ((n : TreeRouter T) → f (apply_context a n context) ≡ map_item h (g n))
      → next_item (apply_child a x context) f ≡ map_item h (next_item x g)
  unfolding apply_context
  next_item-apply_child absent context f g h e = refl
  next_item-apply_child (present n) context f g h e = e n

  -- Applying a context to a tree applies it to the item at every path, in the same way at every depth: the names in it
  -- go in front of those of the item, and then what else is in it is applied.
  pub item_at-apply_context :
      (t : TreeRouter T) (context : c.BuilderContext) (q : List Bytes)
      → item_at (apply_context a t context) q ≡ map_item (item_in context) (item_at t q)
  unfolding item_at child
  item_at-apply_context t context [] = ap some (item-apply_context t context)
  item_at-apply_context t context (s ∷ q) =
      ap (λ x. next_item x (λ n. item_at n q)) (child_of-apply_context (branch_of s) t context s)
      ∙ next_item-apply_child (child_of (branch_of s) t s) (children_context context)
          (λ n. item_at n q) (λ n. item_at n q) (item_in context)
          (λ n.
            item_at-apply_context n (children_context context) q
            ∙ ap
                (λ (r : Option VariableNames × c.BuilderContext).
                  map_item (λ i. item_apply a r.0 i r.1) (item_at n q))
                (below_context (c.remove context).0 (c.remove context).1 context refl))

  mutual
    unfolding IsMap apply_context

    pub apply_context-IsMap :
        (t : TreeRouter T) (context : c.BuilderContext)
        → IsMap t
        → IsMap (apply_context a t context)
    apply_context-IsMap (node i rs v w f) context (hs, hv, hw) = (
      apply_routes-IsMap rs (children_context context) hs,
      apply_child-IsMap v (children_context context) hv,
      apply_child-IsMap w (children_context context) hw,
    )

    apply_routes-IsMap :
        (rs : Routes T) (context : c.BuilderContext)
        → IsMapRoutes rs
        → IsMapRoutes (apply_routes a rs context)
    apply_routes-IsMap no_routes context h = tt
    apply_routes-IsMap (route k n rs) context (fresh, hn, h) = (
      get_route-apply_routes rs context k ∙ ap (λ x. apply_child a x context) fresh,
      apply_context-IsMap n context hn,
      apply_routes-IsMap rs context h,
    )

    apply_child-IsMap :
        (x : Child T) (context : c.BuilderContext)
        → IsMapChild x
        → IsMapChild (apply_child a x context)
    apply_child-IsMap absent context h = tt
    apply_child-IsMap (present n) context h = apply_context-IsMap n context h

  -- Merging a router at a builder, with no key twice in its routes, gives at every path below the builder the merge of
  -- what is there and of the item of the other router, to which first a context that has just the names of the variables
  -- on the way to the builder is prepended and then the context of the builder, less its names, is applied.
  pub merge_router-item_at :
      (m : Merge T) (b : Builder c T) (other : TreeRouter T) (q : List Bytes)
      → IsMap other
      → item_at (merge_router a m b other).node q
        ≡ option_merge m (item_at b.node q) (
            map_item
              (λ i.
                a.apply_context
                  (a.prepend_context i (c.insert c.empty b.variables))
                  (c.remove b.context).1)
              (item_at other q))
  unfolding merge_router
  merge_router-item_at m b other q h =
      item_at-merge m b.node (apply_context a other (named_context b)) q
        (apply_context-IsMap other (named_context b) h)
      ∙ ap (λ o. option_merge m (item_at b.node q) o)
          (item_at-apply_context other (named_context b) q
            ∙ ap
                (λ (r : Option VariableNames × c.BuilderContext).
                  map_item (λ i. item_apply a r.0 i r.1) (item_at other q))
                (c.remove-insert b.context b.variables))
