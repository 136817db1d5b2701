-- ===== src/Method.antt =====
-- src/handler/method_router.rs: a handler for each method.
pub mod Dispatch
pub mod Verbs
mod Tests
use rustful.Base.{
  ℕ, Option, none, some, List, [], ◌∷◌, ◌++◌, HashMap, get, insert, upsert, map_values, merge_with,
}
use rustful.Http.{World, Environment, Outcome, returned, Link, set_status}
use rustful.Handler.{BuilderContexts, HandleRequest, ApplyContext, FromHandler, Merge, Default}

module _ (w : World) (T : Type 0) where
  pub record MethodRouter : Type 0 where
    pub handlers : HashMap w.Method T

module _ {w : World} {T : Type 0} where
  abbrev pub new : MethodRouter w T
  new = record { handlers = [] }

  unfoldable pub insert_handler : MethodRouter w T → w.Method → T → MethodRouter w T
  unfolding insert
  insert_handler r method handler = record {
    handlers = insert w.method_discrete r.handlers method handler;
  }

module _ {w : World} {T : Type 0} (h : HandleRequest w T) where
  -- the answer of the handler that the map has, or 405
  abbrev pub dispatch : Option T → Environment w → Outcome w
  dispatch (some handler) e = h.handle_request handler e
  dispatch none e = returned (record e { response = set_status e.response 405 })

  unfoldable pub handle_request : MethodRouter w T → Environment w → Outcome w
  unfolding get
  handle_request r e = dispatch (get w.method_discrete r.handlers e.context.method) e

  links_of : HashMap w.Method T → Link w → List (Link w)
  links_of [] base = []
  links_of ((method, handler) ∷ m) base =
      h.hyperlinks handler (record base { method = some method }) ++ links_of m base

  unfoldable pub hyperlinks : MethodRouter w T → Link w → List (Link w)
  unfolding links_of
  hyperlinks r base = links_of r.handlers base

module _ {w : World} {c : BuilderContexts} {T : Type 0} (a : ApplyContext c T) where
  unfoldable pub apply_context : MethodRouter w T → c.BuilderContext → MethodRouter w T
  unfolding map_values
  apply_context r context = record {
    handlers = map_values w.method_discrete (λ handler. a.apply_context handler context) r.handlers;
  }

  unfoldable pub prepend_context : MethodRouter w T → c.BuilderContext → MethodRouter w T
  unfolding map_values
  prepend_context r context = record {
    handlers =
        map_values w.method_discrete (λ handler. a.prepend_context handler context) r.handlers;
  }

module _ {w : World} {T : Type 0} (m : Merge T) where
  unfoldable pub merge : MethodRouter w T → MethodRouter w T → MethodRouter w T
  unfolding merge_with
  merge r other = record {
    handlers = merge_with w.method_discrete m.merge r.handlers other.handlers;
  }

module _ (w : World) (c : BuilderContexts) (T : Type 0) where
  pub record Builder : Type 0 where
    pub router : MethodRouter w T
    pub context : c.BuilderContext

module _ {w : World} {c : BuilderContexts} {T : Type 0} where
  unfoldable pub get_builder : MethodRouter w T → c.BuilderContext → Builder w c T
  get_builder r context = record { router = r; context = context }

  -- `on`, and `on_get` and its like at their method
  unfoldable pub on :
      {H : Type 0} → FromHandler c T H → Builder w c T → w.Method → H → Builder w c T
  unfolding insert_handler
  on f b method handler = record b {
    router = insert_handler b.router method (f.from_handler b.context handler);
  }

  -- `method`: the handler of the method, made if there is none, is lent out with the context; `k` is
  -- what its builder does with it
  unfoldable pub method :
      ApplyContext c T
      → Default T
      → Builder w c T
      → w.Method
      → (c.BuilderContext → T → T)
      → Builder w c T
  unfolding upsert
  method a d b at k = record b {
    router = record {
      handlers =
          upsert w.method_discrete b.router.handlers at
            (k b.context (a.apply_context d.default b.context)) (k b.context);
    };
  }

  unfoldable pub merge_router :
      ApplyContext c T → Merge T → Builder w c T → MethodRouter w T → Builder w c T
  unfolding apply_context merge
  merge_router a m b other = record b {
    router = merge m b.router (apply_context a other b.context);
  }
