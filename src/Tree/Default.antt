-- ===== src/Tree/Default.antt =====
-- src/handler/tree_router.rs and src/handler/mod.rs: `DefaultRouter`, a tree of method routers with named
-- variables, made from a list of routes.
pub mod Requests
pub mod Named
pub mod Reference
pub mod Inserted
pub mod Tables
use rustful.Base.{Option, none, some, List, [], ◌∷◌, Bytes}
use rustful.Http.{World}
use rustful.Handler.{BuilderContexts, ApplyContext, FromHandler, Default, HandleRequest}
use rustful.Tree.{TreeRouter, with_handler}
use rustful.Tree.Build.{Builder, get_builder, path, then_item}
use rustful.Method.{
  MethodRouter, new as new_methods, get_builder as method_builder, on,
  apply_context as methods_apply, prepend_context as methods_prepend,
}
use rustful.Names.{
  Variables, from_handler as named_handler, apply_context as names_apply,
  prepend_context as names_prepend,
}

abbrev pub DefaultRouter : World → Type 0 → Type 0
DefaultRouter w T = TreeRouter (MethodRouter w (Variables T))

module _ (w : World) {c : BuilderContexts} {T H : Type 0} (a : ApplyContext c T)
    (f : FromHandler c T H) where
  abbrev pub names_context : ApplyContext c (Variables T)
  names_context = record { apply_context = names_apply a; prepend_context = names_prepend a }

  abbrev pub methods_context : ApplyContext c (MethodRouter w (Variables T))
  methods_context = record {
    apply_context = methods_apply names_context;
    prepend_context = methods_prepend names_context;
  }

  abbrev pub no_methods : Default (MethodRouter w (Variables T))
  no_methods = record { default = new_methods }

  abbrev pub naming : FromHandler c (Variables T) H
  naming = record { from_handler = named_handler f }

  -- `path(route).then().on(method, item)`; `none` is a panic
  unfoldable pub on_route_method :
      Builder c (MethodRouter w (Variables T))
      → w.Method
      → Bytes
      → H
      → Option (Builder c (MethodRouter w (Variables T)))
  unfolding path then_item
  on_route_method b method route item = path methods_context no_methods b route (λ b'.
      then_item b'
        (λ context router. (on naming (method_builder router context) method item).router))

  -- the loop of `from_iter`, each time with a new builder of the root
  abbrev pub insert_routes :
      List (w.Method × Bytes × H) → DefaultRouter w T → Option (DefaultRouter w T)
  insert_routes [] root = some root
  insert_routes ((method, route, item) ∷ routes) root =
      elim (on_route_method (get_builder root c.empty) method route item) [
        | none ↦ none
        | some b ↦ insert_routes routes b.node
      ]

  unfoldable pub from_iter : List (w.Method × Bytes × H) → Option (DefaultRouter w T)
  from_iter routes = insert_routes routes (with_handler new_methods)
