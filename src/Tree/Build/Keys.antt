-- ===== src/Tree/Build/Keys.antt =====
-- src/handler/tree_router.rs: no key comes twice in the static routes of a tree that is built and merged.
use rustful.Base.{
  ◌≡◌, refl, sym, ◌∙◌, subst, Bool-cases, inl, inr, Option, none, some, List, [], ◌∷◌, Bytes,
  bytes_discrete, if_pos, if_neg,
}
use rustful.Handler.{BuilderContexts, VariableNames, ApplyContext, FromHandler, Merge, Default}
use rustful.Route.{segments}
use rustful.Tree.{
  TreeRouter, Routes, Child, node, no_routes, route, absent, present, Branch, static, variable,
  wildcard, get_route, with_handler,
}
use rustful.Tree.Traverse.{merge, merge_routes, merge_child, merge_entry}
use rustful.Tree.Traverse.Contexts.{apply_context-IsMap}
use rustful.Tree.Build.{
  Builder, branch_of, insert_at, find_or_insert, update_child, update_route, set_item, along,
  on_path, indexable, merge_router, named_context, push_label,
}
use rustful.Tree.Build.Merging.{IsMap, IsMapRoutes, IsMapChild, get_route-merge_entry}
use rustful.Tree.Build.Paths.{get_route-update_route}

module _ {T : Type 0} where
  with_handler-IsMap : (i : T) → IsMap (with_handler i)
  unfolding with_handler IsMap
  with_handler-IsMap i = (tt, tt, tt)

  set_item-IsMap : (i : T) (n : TreeRouter T) → IsMap n → IsMap (set_item i n)
  unfolding IsMap
  set_item-IsMap i (node _ s v w f) h = h

  module _ (i : T) (k : TreeRouter T → TreeRouter T)
      (keeps : (n : TreeRouter T) → IsMap n → IsMap (k n)) where
    update_child-IsMap : (x : Child T) → IsMapChild x → IsMapChild (update_child x i k)
    unfolding update_child IsMap
    update_child-IsMap absent h = keeps (with_handler i) (with_handler-IsMap i)
    update_child-IsMap (present n) h = keeps n h

    update_route-same :
        (j key : Bytes) (n : TreeRouter T) (rs : Routes T)
        → j ≡ key
        → update_route (route j n rs) key i k ≡ route j (k n) rs
    unfolding update_route
    update_route-same j key n rs p = if_pos (bytes_discrete j key) p _ _

    update_route-other :
        (j key : Bytes) (n : TreeRouter T) (rs : Routes T)
        → ¬ (j ≡ key)
        → update_route (route j n rs) key i k ≡ route j n (update_route rs key i k)
    unfolding update_route
    update_route-other j key n rs p = if_neg (bytes_discrete j key) p _ _

    update_route-IsMap :
        (rs : Routes T) (key : Bytes) → IsMapRoutes rs → IsMapRoutes (update_route rs key i k)
    unfolding IsMap
    update_route-IsMap no_routes key h =
        unfold update_route in
        unfold get_route in (refl, keeps (with_handler i) (with_handler-IsMap i), tt)
    update_route-IsMap (route j n rs) key (fresh, hn, h) = elim (bytes_discrete j key) [
      | yes p ↦
          subst (λ r. IsMapRoutes r) (sym (update_route-same j key n rs p)) (fresh, keeps n hn, h)
      | no p ↦
          subst (λ r. IsMapRoutes r) (sym (update_route-other j key n rs p))
            (
              get_route-update_route rs key j i k
                  ∙ if_neg (bytes_discrete key j) (λ e. p (sym e)) _ _
                  ∙ fresh,
              hn,
              update_route-IsMap rs key h,
            )
    ]

    insert_at-IsMap :
        (b : Branch) (t : TreeRouter T) (key : Bytes) → IsMap t → IsMap (insert_at b t key i k)
    unfolding IsMap
    insert_at-IsMap static (node _ s v w f) key (hs, hv, hw) = (update_route-IsMap s key hs, hv, hw)
    insert_at-IsMap variable (node _ s v w f) key (hs, hv, hw) = (hs, update_child-IsMap v hv, hw)
    insert_at-IsMap wildcard (node _ s v w f) key (hs, hv, hw) = (hs, hv, update_child-IsMap w hw)

    find_or_insert-IsMap :
        (t : TreeRouter T) (key : Bytes) → IsMap t → IsMap (find_or_insert t key i k)
    unfolding find_or_insert
    find_or_insert-IsMap t key h = insert_at-IsMap (branch_of key) t key h

module _ {T : Type 0} (m : Merge T) where
  module _ (o : TreeRouter T) (ih : (n : TreeRouter T) → IsMap n → IsMap (merge m n o))
      (ho : IsMap o) where
    abbrev entered : Routes T → Bytes → Routes T
    entered rs key = merge_entry rs key o (λ n. merge m n o)

    merge_entry-same :
        (j key : Bytes) (n : TreeRouter T) (rs : Routes T)
        → j ≡ key
        → entered (route j n rs) key ≡ route j (merge m n o) rs
    unfolding merge_entry
    merge_entry-same j key n rs p = if_pos (bytes_discrete j key) p _ _

    merge_entry-other :
        (j key : Bytes) (n : TreeRouter T) (rs : Routes T)
        → ¬ (j ≡ key)
        → entered (route j n rs) key ≡ route j n (entered rs key)
    unfolding merge_entry
    merge_entry-other j key n rs p = if_neg (bytes_discrete j key) p _ _

    merge_entry-IsMap :
        (rs : Routes T) (key : Bytes) → IsMapRoutes rs → IsMapRoutes (entered rs key)
    unfolding IsMap
    merge_entry-IsMap no_routes key h = unfold merge_entry in unfold get_route in (refl, ho, tt)
    merge_entry-IsMap (route j n rs) key (fresh, hn, h) = elim (bytes_discrete j key) [
      | yes p ↦ subst (λ r. IsMapRoutes r) (sym (merge_entry-same j key n rs p)) (fresh, ih n hn, h)
      | no p ↦
          subst (λ r. IsMapRoutes r) (sym (merge_entry-other j key n rs p))
            (
              get_route-merge_entry m rs key o j
                  ∙ if_neg (bytes_discrete key j) (λ e. p (sym e)) _ _
                  ∙ fresh,
              hn,
              merge_entry-IsMap rs key h,
            )
    ]

  mutual
    unfolding IsMap merge

    merge-IsMap : (t o : TreeRouter T) → IsMap t → IsMap o → IsMap (merge m t o)
    merge-IsMap (node i s v w f) (node i' s' v' w' f') (hs, hv, hw) (hs', hv', hw') = (
      merge_routes-IsMap s s' hs hs',
      merge_child-IsMap v v' hv hv',
      merge_child-IsMap w w' hw hw',
    )

    merge_routes-IsMap :
        (s o : Routes T) → IsMapRoutes s → IsMapRoutes o → IsMapRoutes (merge_routes m s o)
    merge_routes-IsMap s no_routes hs ho = hs
    merge_routes-IsMap s (route key o os) hs (_, ho, hos) =
        merge_routes-IsMap _ os (merge_entry-IsMap o (λ n hn. merge-IsMap n o hn ho) ho s key hs)
          hos

    merge_child-IsMap :
        (x y : Child T) → IsMapChild x → IsMapChild y → IsMapChild (merge_child m x y)
    merge_child-IsMap x absent hx hy = hx
    merge_child-IsMap absent (present o) hx hy = hy
    merge_child-IsMap (present n) (present o) hx hy = merge-IsMap n o hx hy

module _ {c : BuilderContexts} {T : Type 0} (a : ApplyContext c T) (d : Default T) where
  module _ (context : c.BuilderContext) (k : TreeRouter T → VariableNames → TreeRouter T)
      (keeps : (n : TreeRouter T) (names : VariableNames) → IsMap n → IsMap (k n names)) where
    along-IsMap :
        (ss : List Bytes) (names : VariableNames) (t : TreeRouter T)
        → IsMap t
        → IsMap (along a d ss context names t k)
    unfolding along
    along-IsMap [] names t h = keeps t names h
    along-IsMap (s ∷ ss) names t h =
        find_or_insert-IsMap _ _ (λ n hn. along-IsMap ss (push_label names s) n hn) t s h

  module _ {H : Type 0} (f : FromHandler c T H) (m : Merge T) where
    -- What is done with a builder, step by step: handlers are put at paths, and routers are merged.
    pub data Builds : Builder c T → Builder c T → Type 0 where
      finished : {b : Builder c T} → Builds b b
      puts :
          {b b' b'' : Builder c T} (p : Bytes) (x : H)
          → on_path a d f b p x ≡ some b'
          → Builds b' b''
          → Builds b b''
      merges :
          {b b'' : Builder c T} (other : TreeRouter T)
          → IsMap other
          → Builds (merge_router a m b other) b''
          → Builds b b''

    BuiltIsMap : Option (Builder c T) → Type 0
    BuiltIsMap none = Unit {0}
    BuiltIsMap (some b) = IsMap b.node

    on_path-IsMap :
        (b b' : Builder c T) (p : Bytes) (x : H)
        → on_path a d f b p x ≡ some b'
        → IsMap b.node
        → IsMap b'.node
    unfolding on_path BuiltIsMap
    on_path-IsMap b b' p x e h = elim (Bool-cases (indexable (segments p))) [
      | inl ok ↦ subst BuiltIsMap (rw ok at e) (
          along-IsMap b.context
            (λ n names. set_item (f.from_handler (c.insert b.context names) x) n)
            (λ n names hn. set_item-IsMap _ n hn) (segments p) b.variables b.node h)
      | inr bad ↦ cc (rw bad at e)
    ]

    -- However many handlers are put at paths and routers are merged, no key comes twice in the static routes of any
    -- node of the tree, if that was so at the start and in the routers that are merged.
    pub Builds-IsMap : {b b' : Builder c T} → Builds b b' → IsMap b.node → IsMap b'.node
    unfolding merge_router
    Builds-IsMap finished h = h
    Builds-IsMap (puts {b} {b'} p x e rest) h = Builds-IsMap rest (on_path-IsMap b b' p x e h)
    Builds-IsMap (merges {b} other ho rest) h =
        Builds-IsMap rest
          (merge-IsMap m b.node _ h (apply_context-IsMap a other (named_context b) ho))
