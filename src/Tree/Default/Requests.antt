-- ===== src/Tree/Default/Requests.antt =====
-- src/handler/tree_router.rs and src/handler/mod.rs: from a route of a `DefaultRouter` to the handler.
use rustful.Base.{
  ◌≡◌, sym, ◌∙◌, ap, if_pos, Option, none, some, [], All, Bytes, length, replicate, false, true,
}
use rustful.Http.{World, Environment, replace_hyperlinks}
use rustful.Handler.{BuilderContexts, VariableNames, HandleRequest, ApplyContext, FromHandler}
use rustful.Route.{RouteState, segments, route_state, variables}
use rustful.Route.Plain.{variables-none}
use rustful.Tree.{node, item, find_hyperlinks, answer, restored}
use rustful.Tree.Search.Loop.{state}
use rustful.Tree.Request.{handle_request, handle_request-find, found_answer}
use rustful.Tree.Build.{Builder, along, indexable, set_item, path, then_item}
use rustful.Tree.Build.Paths.{labels, walk-along, if_true}
use rustful.Tree.Build.Routed.{along-keeps, find_hyperlinks-set_item}
use rustful.Tree.Build.Literal.{Literal, find-walk}
use rustful.Method.{
  MethodRouter, get_builder as method_builder, on, handle_request as methods_request,
  hyperlinks as methods_hyperlinks,
}
use rustful.Method.Dispatch.{handle_request-on}
use rustful.Names.{
  Variables, or_no_names, handle_request as names_request, from_handler as named_handler,
  Variables_HandleRequest,
}
use rustful.Tree.Default.{DefaultRouter, methods_context, no_methods, naming, on_route_method}

module _ {w : World} {c : BuilderContexts} {T H : Type 0} (a : ApplyContext c T)
    (f : FromHandler c T H) (h : HandleRequest w T) where
  abbrev pub names_handling : HandleRequest w (Variables T)
  names_handling = Variables_HandleRequest h

  abbrev pub methods_handling : HandleRequest w (MethodRouter w (Variables T))
  methods_handling = record {
    handle_request = methods_request names_handling;
    hyperlinks = methods_hyperlinks names_handling;
  }

  module _ (b : Builder c (MethodRouter w (Variables T))) (method : w.Method) (p : Bytes)
      (x : H) where
    -- the work at the node of the route
    abbrev item_with : VariableNames → MethodRouter w (Variables T) → MethodRouter w (Variables T)
    item_with names router =
        (on (naming w a f) (method_builder router (c.insert b.context names)) method x).router

    abbrev pub made_node : DefaultRouter w T → VariableNames → DefaultRouter w T
    made_node n names = set_item (item_with names (item n)) n

    -- the environment at the end of the path, without links
    abbrev pub at_end : Environment w → Environment w
    at_end e =
        (replace_hyperlinks
          (record e {
            route_state =
                state (segments p) (replicate (length (segments p)) none) (length (segments p)) 0;
          })
          []).0

    -- the environment that the handler gets
    abbrev pub handed : Environment w → Environment w
    handed e = record (at_end e) { context = record (at_end e).context { variables = [] } }

    -- what the handler gets at the end of a search
    abbrev pub named_at : RouteState → VariableNames → Environment w → Environment w
    named_at r names e =
        let e' = (replace_hyperlinks (record e { route_state = r }) []).0 in
        record e' { context = record e'.context { variables = variables r names } }

    pub made_answer :
        (n : DefaultRouter w T) (names : VariableNames) (r : RouteState) (e : Environment w)
        → e.context.method ≡ method
        → answer methods_handling (item (made_node n names)) (record e { route_state = r })
          ≡ restored methods_handling
              (replace_hyperlinks e []).1
              (h.handle_request (f.from_handler (c.remove b.context).1 x) (named_at r names e))
    unfolding answer names_request named_handler replace_hyperlinks method_builder methods_request
    made_answer (node i s v w' f') names r e same =
        let e' = (replace_hyperlinks (record e { route_state = r }) []).0 in
        ap (λ o. restored methods_handling (replace_hyperlinks e []).1 o)
          (handle_request-on names_handling (naming w a f)
              (method_builder i (c.insert b.context names)) method x _
            ∙ if_pos (w.method_discrete method e.context.method) (sym same) _ _
            ∙ ap
                (λ (z : Option VariableNames × c.BuilderContext).
                  h.handle_request (f.from_handler z.1 x) (record e' {
                    context = record e'.context { variables = variables r (or_no_names z.0) };
                  }))
                (c.remove-insert b.context names))

    nothing_named :
        (names : VariableNames) (e : Environment w)
        → named_at
            (state (segments p) (replicate (length (segments p)) none) (length (segments p)) 0)
            names
            e
          ≡ handed e
    unfolding replace_hyperlinks
    nothing_named names e =
        ap (λ vs. record (at_end e) { context = record (at_end e).context { variables = vs } })
          (variables-none names (segments p) (length (segments p)) 0)

    -- A route of a default router without variables, put at a builder of a tree that does not look for hyperlinks: every
    -- fresh request with its path and method is handled by exactly its handler, without variables, whatever
    -- other routes the tree has.
    handle_request-on_route_method :
        (e : Environment w)
        → indexable (segments p) ≡ true
        → find_hyperlinks b.node ≡ false
        → e.route_state ≡ route_state (segments p)
        → All Literal (segments p)
        → e.context.method ≡ method
        → (b' : Builder c (MethodRouter w (Variables T))) × (on_route_method w a f b method p x
            ≡ some b')
          × (handle_request methods_handling b'.node e
              ≡ some (
                  restored methods_handling
                    (replace_hyperlinks e []).1
                    (h.handle_request (f.from_handler (c.remove b.context).1 x) (handed e))))
    unfolding on_route_method path then_item
    handle_request-on_route_method e ok plain fresh lit same =
        let t' =
          along (methods_context w a f) (no_methods w a f) (segments p) b.context b.variables b.node
            made_node in
        let (n, walked) =
          walk-along (methods_context w a f) (no_methods w a f) b.context made_node (segments p)
            b.variables b.node in
        let (r, route_eq, found) =
          handle_request-find methods_handling t' e (segments p)
            (along-keeps (methods_context w a f) (no_methods w a f) b.context made_node
                (λ n names. find_hyperlinks-set_item _ n) (segments p) b.variables b.node
              ∙ plain)
            fresh in
        (
          record b { node = t' },
          if_true none ok,
          found
              ∙ ap (λ o. some (found_answer methods_handling e (segments p) r o))
                  (find-walk (segments p) t' b.variables 0 [] lit walked)
              ∙ ap some (
                  made_answer n (labels b.variables (segments p))
                    (state (segments p) (replicate (length (segments p)) none) (length (segments p))
                      0)
                    e same
                  ∙ ap
                      (λ e'.
                        restored methods_handling (replace_hyperlinks e []).1
                          (h.handle_request (f.from_handler (c.remove b.context).1 x) e'))
                      (nothing_named (labels b.variables (segments p)) e)),
        )
