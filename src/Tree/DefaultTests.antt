-- ===== src/Tree/DefaultTests.antt =====
-- A default router with two routes.
use rustful.Base.{ℕ, ◌≡◌, refl, false, none, some, List, [], ◌∷◌, Bytes, subst, ℕ_discrete}
use rustful.Text.{utf8}
use rustful.Text.Utf8.{is_valid}
use rustful.Route.{segments}
use rustful.Sample.{world, contexts}
use rustful.Handler.{handler_ApplyContext, handler_FromHandler, handler_from_handler}
use rustful.Method.{MethodRouter, on, get_builder as method_builder, apply_context as methods_apply}
use rustful.Names.{Variables, from_handler}
use rustful.Tree.{TreeRouter, node, no_routes, route, absent, present, get_route}
use rustful.Tree.Build.{Builder, branch_of, child, path, then_item}
use rustful.Tree.Build.Kept.{Free, ended, literal, kept_segment}
use rustful.Tree.Default.{on_route_method}

abbrev ServedMethods : Type 0
ServedMethods = MethodRouter world (Variables ℕ)

abbrev methods_of : List (ℕ × Variables ℕ) → ServedMethods
methods_of handlers = record { handlers = handlers }

abbrev plain_leaf : ServedMethods → TreeRouter ServedMethods
plain_leaf m = node m no_routes absent absent false

-- "a/b" goes to 1 for the method 2
abbrev leaf_b : TreeRouter ServedMethods
leaf_b = plain_leaf (methods_of ((2, record { handler = 1; names = [] }) ∷ []))

abbrev leaf_x : TreeRouter ServedMethods
leaf_x = plain_leaf (methods_of ((2, record { handler = 7; names = utf8 (b'x' ∷ []) ∷ [] }) ∷ []))

abbrev below : TreeRouter ServedMethods
below = node (methods_of []) (route (b'b' ∷ []) leaf_b no_routes) absent absent false

abbrev below_x : TreeRouter ServedMethods
below_x = node (methods_of []) (route (b'b' ∷ []) leaf_b no_routes) (present leaf_x) absent false

abbrev pub before : Builder contexts ServedMethods
before = record {
  node = node (methods_of []) (route (b'a' ∷ []) below no_routes) absent absent false;
  variables = [];
  context = none;
}

abbrev pub a_x : Bytes
a_x = b'a' ∷ b'/' ∷ b':' ∷ b'x' ∷ []

abbrev pub after : Builder contexts ServedMethods
after = record {
  node = node (methods_of []) (route (b'a' ∷ []) below_x no_routes) absent absent false;
  variables = [];
  context = none;
}

abbrev a_c : List Bytes
a_c = (b'a' ∷ []) ∷ (b'c' ∷ []) ∷ []

only :
    {m : TreeRouter ServedMethods} {ps rs : List Bytes} (n : TreeRouter ServedMethods)
    → Free n ps rs
    → present n ≡ present m
    → Free m ps rs
only {ps} {rs} n free e = subst (λ t. Free t ps rs) (cc) free

pub after-Free : Free after.node (segments a_x) (segments (b'/' ∷ b'a' ∷ b'/' ∷ b'c' ∷ []))
unfolding segments branch_of child get_route ℕ_discrete
after-Free =
    literal refl (λ m e. only below_x (kept_segment refl refl (λ m e. only leaf_x ended e)) e)

pub built_after :
    on_route_method world
      (handler_ApplyContext world contexts)
      (handler_FromHandler world contexts)
      before
      2
      a_x
      7
    ≡ some after
unfolding on_route_method path then_item branch_of segments ℕ_discrete on method_builder
    from_handler is_valid handler_from_handler methods_apply
built_after = refl
