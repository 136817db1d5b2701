-- ===== src/Status.antt =====
-- src/handler/status_router.rs: a handler for each status of the response.
pub mod Dispatch
mod Tests
use rustful.Base.{
  ℕ, Option, none, some, List, [], ◌∷◌, ◌++◌, HashMap, get, insert, upsert, map_values, merge_with,
  ℕ_discrete,
}
use rustful.Http.{World, Environment, Outcome, returned, panicked, Link, status}
use rustful.Handler.{BuilderContexts, HandleRequest, ApplyContext, FromHandler, Merge, Default}

module _ (T : Type 0) where
  pub record StatusRouter : Type 0 where
    pub handlers : HashMap ℕ T

module _ {T : Type 0} where
  abbrev pub new : StatusRouter T
  new = record { handlers = [] }

  unfoldable pub insert_handler : StatusRouter T → ℕ → T → StatusRouter T
  unfolding insert
  insert_handler r code handler = record { handlers = insert ℕ_discrete r.handlers code handler }

module _ {w : World} {T : Type 0} (h : HandleRequest w T) where
  -- A handler for the status decides; without one the request comes back unchanged.
  abbrev pub dispatch : Option T → Environment w → Outcome w
  dispatch (some handler) e = h.handle_request handler e
  dispatch none e = returned e

  abbrev with_current : HashMap ℕ T → Option ℕ → Environment w → Outcome w
  with_current handlers none e = panicked
  with_current handlers (some code) e = dispatch (get ℕ_discrete handlers code) e

  -- `response.status()` panics without a writer
  unfoldable pub handle_request : StatusRouter T → Environment w → Outcome w
  unfolding get status
  handle_request r e = with_current r.handlers (status e.response) e

  links_of : HashMap ℕ T → Link w → List (Link w)
  links_of [] base = []
  links_of ((code, handler) ∷ m) base = h.hyperlinks handler base ++ links_of m base

  unfoldable pub hyperlinks : StatusRouter T → Link w → List (Link w)
  unfolding links_of
  hyperlinks r base = links_of r.handlers base

module _ {c : BuilderContexts} {T : Type 0} (a : ApplyContext c T) where
  unfoldable pub apply_context : StatusRouter T → c.BuilderContext → StatusRouter T
  unfolding map_values
  apply_context r context = record {
    handlers = map_values ℕ_discrete (λ handler. a.apply_context handler context) r.handlers;
  }

  unfoldable pub prepend_context : StatusRouter T → c.BuilderContext → StatusRouter T
  unfolding map_values
  prepend_context r context = record {
    handlers = map_values ℕ_discrete (λ handler. a.prepend_context handler context) r.handlers;
  }

module _ {T : Type 0} (m : Merge T) where
  unfoldable pub merge : StatusRouter T → StatusRouter T → StatusRouter T
  unfolding merge_with
  merge r other = record { handlers = merge_with ℕ_discrete m.merge r.handlers other.handlers }

module _ (c : BuilderContexts) (T : Type 0) where
  pub record Builder : Type 0 where
    pub router : StatusRouter T
    pub context : c.BuilderContext

module _ {c : BuilderContexts} {T : Type 0} where
  unfoldable pub get_builder : StatusRouter T → c.BuilderContext → Builder c T
  get_builder r context = record { router = r; context = context }

  -- `on`
  unfoldable pub on : {H : Type 0} → FromHandler c T H → Builder c T → ℕ → H → Builder c T
  unfolding insert_handler
  on f b code handler = record b {
    router = insert_handler b.router code (f.from_handler b.context handler);
  }

  -- `status`: the handler of the status, made if there is none, is lent out with the context; `k` is
  -- what its builder does with it
  unfoldable pub at_status :
      ApplyContext c T → Default T → Builder c T → ℕ → (c.BuilderContext → T → T) → Builder c T
  unfolding upsert
  at_status a d b at k = record b {
    router = record {
      handlers =
          upsert ℕ_discrete b.router.handlers at (k b.context (a.apply_context d.default b.context))
            (k b.context);
    };
  }

  unfoldable pub merge_router :
      ApplyContext c T → Merge T → Builder c T → StatusRouter T → Builder c T
  unfolding apply_context merge
  merge_router a m b other = record b {
    router = merge m b.router (apply_context a other b.context);
  }
