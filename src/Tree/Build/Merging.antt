-- ===== src/Tree/Build/Merging.antt =====
-- src/handler/tree_router.rs: what merged trees hold.
use rustful.Base.{
  ◌≡◌, refl, sym, ◌∙◌, ap, subst, Option, none, some, List, [], ◌∷◌, Bytes, bytes_discrete, ite,
  if_pos, if_neg, arith,
}
use rustful.Handler.{Merge, option_merge}
use rustful.Tree.{
  TreeRouter, Routes, Child, node, no_routes, route, absent, present, Branch, static, variable,
  wildcard, get_route, item,
}
use rustful.Tree.Traverse.{merge, merge_routes, merge_child, merge_entry}
use rustful.Tree.Build.{branch_of, child, child_of}

module _ {T : Type 0} where
  -- the item of the node at the end of a path of pattern segments
  abbrev pub next_item : Child T → (TreeRouter T → Option T) → Option T
  next_item absent f = none
  next_item (present n) f = f n

  unfoldable pub item_at : TreeRouter T → List Bytes → Option T
  item_at t [] = some (item t)
  item_at t (s ∷ ss) = next_item (child t s) (λ n. item_at n ss)

  -- The routes of every node are a map: no key comes twice.
  unfoldable mutual
    pub IsMap : TreeRouter T → Type 0
    IsMap (node i s v w f) = IsMapRoutes s × IsMapChild v × IsMapChild w

    pub IsMapRoutes : Routes T → Type 0
    IsMapRoutes no_routes = Unit
    IsMapRoutes (route k n rs) = (get_route rs k ≡ absent) × IsMap n × IsMapRoutes rs

    pub IsMapChild : Child T → Type 0
    IsMapChild absent = Unit
    IsMapChild (present n) = IsMap n

  IsMap-get_route : (rs : Routes T) (s : Bytes) → IsMapRoutes rs → IsMapChild (get_route rs s)
  unfolding get_route IsMap
  IsMap-get_route no_routes s h = tt
  IsMap-get_route (route k n rs) s (_, hn, h) = elim (bytes_discrete k s) [
    | yes p ↦ rw (if_pos _ p) hn
    | no p ↦ rw (if_neg _ p) (IsMap-get_route rs s h)
  ]

  IsMap-child_of :
      (b : Branch) (t : TreeRouter T) (s : Bytes) → IsMap t → IsMapChild (child_of b t s)
  unfolding IsMap
  IsMap-child_of static (node i rs v w f) s (h, _, _) = IsMap-get_route rs s h
  IsMap-child_of variable (node i rs v w f) s (_, h, _) = h
  IsMap-child_of wildcard (node i rs v w f) s (_, _, h) = h

  IsMap-child : (t : TreeRouter T) (s : Bytes) → IsMap t → IsMapChild (child t s)
  unfolding child
  IsMap-child t s = IsMap-child_of (branch_of s) t s

module _ {T : Type 0} (m : Merge T) where
  pub get_route-merge_entry :
      (rs : Routes T) (k : Bytes) (o : TreeRouter T) (s : Bytes)
      → get_route (merge_entry rs k o (λ n. merge m n o)) s
        ≡ ite (bytes_discrete k s) (merge_child m (get_route rs s) (present o)) (get_route rs s)
  unfolding get_route merge_entry merge
  get_route-merge_entry no_routes k o s = refl
  get_route-merge_entry (route j n rs) k o s = ground (arith, get_route-merge_entry rs k o s)

  get_route-merge_routes :
      (rs os : Routes T) (s : Bytes)
      → IsMapRoutes os
      → get_route (merge_routes m rs os) s ≡ merge_child m (get_route rs s) (get_route os s)
  unfolding get_route merge IsMap
  get_route-merge_routes rs no_routes s h = refl
  get_route-merge_routes rs (route k o os) s (fresh, ho, h) =
      get_route-merge_routes (merge_entry rs k o (λ n. merge m n o)) os s h
      ∙ rw (get_route-merge_entry rs k o s) (elim (bytes_discrete k s) [
        | yes p ↦
            rw (if_pos _ p)
              (rw (if_pos _ p) (rw (subst (λ x. get_route os x ≡ absent) p fresh) refl))
        | no p ↦ rw (if_neg _ p) (rw (if_neg _ p) refl)
      ])

  child_of-merge :
      (c : Branch) (a b : TreeRouter T) (s : Bytes)
      → IsMap b
      → child_of c (merge m a b) s ≡ merge_child m (child_of c a s) (child_of c b s)
  unfolding merge IsMap
  child_of-merge static (node i rs v w f) (node i' rs' v' w' f') s (h, _, _) =
      get_route-merge_routes rs rs' s h
  child_of-merge variable (node i rs v w f) (node i' rs' v' w' f') s h = refl
  child_of-merge wildcard (node i rs v w f) (node i' rs' v' w' f') s h = refl

  child-merge :
      (a b : TreeRouter T) (s : Bytes)
      → IsMap b
      → child (merge m a b) s ≡ merge_child m (child a s) (child b s)
  unfolding child
  child-merge a b s = child_of-merge (branch_of s) a b s

  item-merge : (a b : TreeRouter T) → item (merge m a b) ≡ m.merge (item a) (item b)
  unfolding merge
  item-merge (node i rs v w f) (node i' rs' v' w' f') = refl

  option_merge-none : (o : Option T) → option_merge m o none ≡ o
  unfolding option_merge
  option_merge-none none = refl
  option_merge-none (some x) = refl

  next_item-merge_child :
      (p : List Bytes) (x y : Child T)
      → ((a b : TreeRouter T)
          → IsMap b
          → item_at (merge m a b) p ≡ option_merge m (item_at a p) (item_at b p))
      → IsMapChild y
      → next_item (merge_child m x y) (λ n. item_at n p)
        ≡ option_merge m (next_item x (λ n. item_at n p)) (next_item y (λ n. item_at n p))
  unfolding merge option_merge IsMap
  next_item-merge_child p x absent ih h = sym (option_merge-none _)
  next_item-merge_child p absent (present o) ih h = refl
  next_item-merge_child p (present n) (present o) ih h = ih n o h

  -- At every path of pattern segments, the merged tree holds what merging the two trees' items there
  -- gives: the merged item where both have one, and else the one that there is. The other tree's
  -- routes are maps, where no key comes twice.
  pub item_at-merge :
      (a b : TreeRouter T) (p : List Bytes)
      → IsMap b
      → item_at (merge m a b) p ≡ option_merge m (item_at a p) (item_at b p)
  unfolding item_at
  item_at-merge a b [] h = unfold option_merge in ap some (item-merge a b)
  item_at-merge a b (s ∷ p) h = rw (child-merge a b s h) (
      next_item-merge_child p (child a s) (child b s) (λ n o k. item_at-merge n o p k)
        (IsMap-child b s h))
