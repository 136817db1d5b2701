-- ===== src/Tree/TableTests.antt =====
-- A default router made from a list of routes at a concrete request.
use rustful.Base.{ℕ, ◌≡◌, refl, some, List, [], ◌∷◌, Bytes, ℕ_discrete}
use rustful.Http.{handled}
use rustful.Handler.{
  handler_ApplyContext, handler_FromHandler, handler_request, handler_from_handler,
}
use rustful.Route.{RouteState, segments}
use rustful.Sample.{plain, request, world, contexts}
use rustful.Tree.{restored}
use rustful.Tree.Build.{branch_of}
use rustful.Tree.Build.Tables.{meeting}
use rustful.Tree.Request.{handle_request}
use rustful.Tree.Default.{DefaultRouter, from_iter}
use rustful.Tree.Default.Requests.{methods_handling}
use rustful.Tree.Default.Reference.{chosen}
use rustful.Tree.Default.Tables.{from_iter-table}

abbrev a_b : Bytes
a_b = b'a' ∷ b'/' ∷ b'b' ∷ []

-- two handlers for one path and method, and one for a path below
abbrev routes : List (ℕ × Bytes × ℕ)
routes = (2, a_b, 1) ∷ (2, a_b, 5) ∷ (2, b'a' ∷ b'/' ∷ b'b' ∷ b'/' ∷ b'c' ∷ [], 6) ∷ []

-- the later of the two handlers answers
from_iter-table_example :
    (t : DefaultRouter world ℕ) × (r : RouteState) × (from_iter world
        (handler_ApplyContext world contexts)
        (handler_FromHandler world contexts)
        routes
      ≡ some t)
    × (r.route ≡ (b'a' ∷ []) ∷ (b'b' ∷ []) ∷ [])
    × (handle_request
          (methods_handling
            (handler_ApplyContext world contexts)
            (handler_FromHandler world contexts)
            plain)
          t
          (request 2 200 ((b'a' ∷ []) ∷ (b'b' ∷ []) ∷ []))
        ≡ some (handled (5, [])))
unfolding chosen meeting segments branch_of ℕ_discrete restored handler_request handler_from_handler
from_iter-table_example =
    from_iter-table (handler_ApplyContext world contexts) (handler_FromHandler world contexts) plain
      routes (request 2 200 ((b'a' ∷ []) ∷ (b'b' ∷ []) ∷ [])) ((b'a' ∷ []) ∷ (b'b' ∷ []) ∷ [])
      (
        (refl, (refl, (refl, tt))),
        ((refl, (refl, (refl, tt))), ((refl, (refl, (refl, (refl, tt)))), tt)),
      )
      refl
