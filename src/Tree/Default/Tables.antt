-- ===== src/Tree/Default/Tables.antt =====
-- src/handler/tree_router.rs and src/handler/method_router.rs: a `DefaultRouter` made from a list of literal
-- routes, against a table of paths and methods.
use rustful.Base.{
  ◌≡◌, refl, ◌∙◌, ap, ap₂, Bool, true, false, Option, none, some, List, [], ◌∷◌, All, Bytes, length,
  replicate, get,
}
use rustful.Http.{World, Environment, returned, Outcome, set_status, replace_hyperlinks}
use rustful.Handler.{BuilderContexts, VariableNames, HandleRequest, ApplyContext, FromHandler}
use rustful.Route.{RouteState, route_state, variables}
use rustful.Route.Plain.{variables-none}
use rustful.Tree.{answer, restored, with_handler, get_route}
use rustful.Tree.Search.Loop.{state}
use rustful.Tree.Search.Plain.{Plain, static_at, nothing_kept, find-Plain}
use rustful.Tree.Request.{handle_request, handle_request-find, found_answer}
use rustful.Method.{MethodRouter, new as new_methods, dispatch, handle_request as methods_request}
use rustful.Names.{
  Variables, or_no_names, handle_request as names_request, from_handler as named_handler,
}
use rustful.Tree.Default.{DefaultRouter, from_iter}
use rustful.Tree.Default.Requests.{methods_handling, names_handling}
use rustful.Tree.Default.Reference.{chosen, led, reached, IsLiteral, result}
use rustful.Tree.Default.Inserted.{value, seen, inserted}

module _ {w : World} {c : BuilderContexts} {T H : Type 0} (a : ApplyContext c T)
    (f : FromHandler c T H) (h : HandleRequest w T) where
  -- the state at the end of a path of which nothing is kept
  abbrev pub through_path : List Bytes → RouteState
  through_path qs = state qs (replicate (length qs) none) (length qs) 0

  -- What a table of routes answers: the handler of the last route with the path and the method, without variables
  -- and hyperlinks; else 405 where the path is that of a node, and 404 where it is not.
  abbrev pub table_answer : Environment w → List Bytes → RouteState → Option H → Bool → Outcome w
  table_answer e qs r (some x) b = restored (methods_handling a f h) e.context.hyperlinks (
      h.handle_request (f.from_handler c.empty x) (record e {
        context = record e.context { hyperlinks = []; variables = [] };
        route_state = through_path qs;
      }))
  table_answer e qs r none true =
      returned (record e { route_state = through_path qs; response = set_status e.response 405 })
  table_answer e qs r none false =
      returned (record e { route_state = r; response = set_status e.response 404 })

  abbrev entry_answer :
      Environment w → List Bytes → RouteState → Option (Option (Variables T)) → Outcome w
  entry_answer e qs r none =
      returned (record e { route_state = r; response = set_status e.response 404 })
  entry_answer e qs r (some none) =
      returned (record e { route_state = through_path qs; response = set_status e.response 405 })
  entry_answer e qs r (some (some v)) = restored (methods_handling a f h) e.context.hyperlinks (
      names_request h v (record e {
        context = record e.context { hyperlinks = [] };
        route_state = through_path qs;
      }))

  dispatched :
      (e : Environment w) (qs : List Bytes) (r : RouteState) (o : Option (Variables T))
      → restored (methods_handling a f h) e.context.hyperlinks (
          dispatch (names_handling a f h) o (record e {
            context = record e.context { hyperlinks = [] };
            route_state = through_path qs;
          }))
        ≡ entry_answer e qs r (some o)
  unfolding restored replace_hyperlinks
  dispatched e qs r none = refl
  dispatched e qs r (some v) = refl

  found_answer-seen :
      (e : Environment w) (qs : List Bytes) (r : RouteState)
      (o : Option (MethodRouter w (Variables T)))
      → found_answer (methods_handling a f h) e qs r (nothing_kept 0 [] qs o)
        ≡ entry_answer e qs r (seen w o e.context.method)
  unfolding answer replace_hyperlinks methods_request
  found_answer-seen e qs r none = refl
  found_answer-seen e qs r (some i) =
      dispatched e qs r (get w.method_discrete i.handlers e.context.method)

  entry_answer-value :
      (e : Environment w) (qs : List Bytes) (r : RouteState) (x : H) (b : Bool)
      → entry_answer e qs r (some (some (value f x))) ≡ table_answer e qs r (some x) b
  unfolding names_request named_handler
  entry_answer-value e qs r x b =
      ap (λ o. restored (methods_handling a f h) e.context.hyperlinks o)
        (ap
            (λ (z : Option VariableNames × c.BuilderContext).
              h.handle_request (f.from_handler z.1 x) (record e {
                context = record e.context {
                  hyperlinks = [];
                  variables = variables (through_path qs) (or_no_names z.0);
                };
                route_state = through_path qs;
              }))
            (c.remove-insert c.empty [])
          ∙ ap₂
              (λ context named. h.handle_request (f.from_handler context x) (record e {
                context = record e.context { hyperlinks = []; variables = named };
                route_state = through_path qs;
              }))
              (ap (λ (z : Option VariableNames × c.BuilderContext). z.1) c.remove-empty)
              (variables-none [] qs (length qs) 0))

  unchosen_root :
      (e : Environment w) (r : RouteState) (b : Bool)
      → entry_answer e [] r (result (value f) none b (some none)) ≡ table_answer e [] r none true
  unchosen_root e r true = refl
  unchosen_root e r false = refl

  unchosen :
      (e : Environment w) (qs : List Bytes) (r : RouteState) (b : Bool)
      → entry_answer e qs r (result (value f) none b none) ≡ table_answer e qs r none b
  unchosen e qs r true = refl
  unchosen e qs r false = refl

  entry_answer-result :
      (e : Environment w) (routes : List (w.Method × Bytes × H)) (qs : List Bytes) (r : RouteState)
      (o : Option H)
      → entry_answer e qs r (
          result (value f) o (led w routes qs) (
            seen w
              (static_at (with_handler (new_methods {w = w} {T = Variables T})) qs)
              e.context.method))
        ≡ table_answer e qs r o (reached w routes qs)
  unfolding reached static_at with_handler get_route get
  entry_answer-result e routes qs r (some x) = entry_answer-value e qs r x (reached w routes qs)
  entry_answer-result e routes [] r none = unchosen_root e r (led w routes [])
  entry_answer-result e routes (q ∷ qs) r none = unchosen e (q ∷ qs) r (led w routes (q ∷ qs))

  -- A default router is made of every list of routes with literal segments, none of them empty, and answers every
  -- fresh request as their table: with the handler of the last route that has its path and method, without
  -- variables; with the status 405 where none has but the path is the root, that of a route or one that a route goes on from;
  -- and with the status 404 everywhere else.
  pub from_iter-table :
      (routes : List (w.Method × Bytes × H)) (e : Environment w) (qs : List Bytes)
      → All (IsLiteral w) routes
      → e.route_state ≡ route_state qs
      → (t : DefaultRouter w T) × (r : RouteState) × (from_iter w a f routes ≡ some t)
        × (r.route ≡ qs)
        × (handle_request (methods_handling a f h) t e
            ≡ some
                (table_answer e qs r (chosen w routes qs e.context.method) (reached w routes qs)))
  unfolding from_iter with_handler Plain
  from_iter-table routes e qs lit fresh =
      let i = inserted w a f routes (with_handler new_methods) lit tt refl in
      let (r, route_eq, found) =
        handle_request-find (methods_handling a f h) i.tree e qs i.unlinked fresh in
      (
        i.tree,
        r,
        i.made,
        route_eq,
        found
            ∙ ap some (
                ap (λ o. found_answer (methods_handling a f h) e qs r o)
                  (find-Plain qs i.tree 0 [] i.plain)
                ∙ found_answer-seen e qs r (static_at i.tree qs)
                ∙ ap (λ o. entry_answer e qs r o) (i.entries qs e.context.method)
                ∙ entry_answer-result e routes qs r (chosen w routes qs e.context.method)),
      )
