-- ===== src/Tree/BuildTests.antt =====
-- Building and merging at concrete trees.
use rustful.Base.{◌≡◌, refl, none, some, List, [], ◌∷◌, Bytes}
use rustful.Handler.{option_merge}
use rustful.Sample.{keep_context, some_handler, last_wins, no_handler}
use rustful.Tree.{get_route}
use rustful.Tree.Traverse.Contexts.{map_item, merge_router-item_at}
use rustful.Tree.Build.{merge_router}
use rustful.Tree.Build.Merging.{item_at, IsMap}
use rustful.Tree.Build.Keys.{finished, merges, Builds-IsMap}
use rustful.Tree.Tests.{tree, other, at_tree}

abbrev just_a : List Bytes
just_a = (b'a' ∷ []) ∷ []

merge_router-item_at_example :
    item_at (merge_router keep_context last_wins at_tree other).node just_a
    ≡ option_merge last_wins (item_at tree just_a) (
        map_item
          (λ i. keep_context.apply_context (keep_context.prepend_context i (some [])) none)
          (item_at other just_a))
unfolding IsMap get_route
merge_router-item_at_example =
    merge_router-item_at keep_context last_wins at_tree other just_a
      ((refl, (tt, tt, tt), tt), tt, (tt, tt, tt))

other-IsMap : IsMap other
unfolding IsMap get_route
other-IsMap = ((refl, (tt, tt, tt), tt), tt, (tt, tt, tt))

tree-IsMap : IsMap tree
unfolding IsMap get_route
tree-IsMap = ((refl, ((refl, (tt, tt, tt), tt), (tt, tt, tt), tt), tt), tt, (tt, tt, tt))

Builds-IsMap_example : IsMap (merge_router keep_context last_wins at_tree other).node
Builds-IsMap_example =
    Builds-IsMap keep_context no_handler some_handler last_wins {b = at_tree}
      {b' = merge_router keep_context last_wins at_tree other} (merges other other-IsMap finished)
      tree-IsMap
