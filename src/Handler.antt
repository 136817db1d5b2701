-- ===== src/Handler.antt =====
-- src/handler/mod.rs: what routers and handlers have in common, the instances for plain handlers and
-- for `Option`, and the context that builders pass down.
pub mod Factories
use rustful.Base.{Option, none, some, List, [], ◌∷◌, ◌≡◌}
use rustful.Text.{MaybeUtf8}
use rustful.Http.{
  World, Context, Response, Environment, Outcome, handled, returned, Link, set_status,
}

-- `VariableNames`
abbrev pub VariableNames : Type 0
VariableNames = List MaybeUtf8

-- `BuilderContext` is an anymap; the library puts one type into it, `VariableNames`. The laws are
-- those of a map.
pub record BuilderContexts : Type 1 where
  pub BuilderContext : Type 0
  pub empty : BuilderContext
  pub insert : BuilderContext → VariableNames → BuilderContext
  pub remove : BuilderContext → Option VariableNames × BuilderContext
  pub remove-empty : remove empty ≡ (none, empty)
  pub remove-insert :
      (c : BuilderContext) (names : VariableNames)
      → remove (insert c names) ≡ (some names, (remove c).1)
  pub remove-remove : (c : BuilderContext) → remove (remove c).1 ≡ (none, (remove c).1)

-- The trait `Handler`: what the user's code does with a request.
pub record Handles (w : World) : Type 0 where
  pub handle : w.Handler → Context w → Response w → w.Effect

pub record HandleRequest (w : World) (T : Type 0) : Type 0 where
  pub handle_request : T → Environment w → Outcome w
  pub hyperlinks : T → Link w → List (Link w)

pub record ApplyContext (c : BuilderContexts) (T : Type 0) : Type 0 where
  pub apply_context : T → c.BuilderContext → T
  pub prepend_context : T → c.BuilderContext → T

pub record FromHandler (c : BuilderContexts) (T H : Type 0) : Type 0 where
  pub from_handler : c.BuilderContext → H → T

pub record Merge (T : Type 0) : Type 0 where
  pub merge : T → T → T

pub record Default (T : Type 0) : Type 0 where
  pub default : T

-- `impl … for H: Handler`
module _ {w : World} (u : Handles w) where
  unfoldable pub handler_request : w.Handler → Environment w → Outcome w
  handler_request h e = handled (u.handle h e.context e.response)

  unfoldable pub handler_hyperlinks : w.Handler → Link w → List (Link w)
  handler_hyperlinks h base_link = record base_link { handler = some h } ∷ []

  instance abbrev pub handler_HandleRequest : HandleRequest w w.Handler
  handler_HandleRequest = record {
    handle_request = handler_request;
    hyperlinks = handler_hyperlinks;
  }

-- `impl … for Option<H>`
module _ {w : World} {T : Type 0} (h : HandleRequest w T) where
  unfoldable pub option_request : Option T → Environment w → Outcome w
  option_request (some handler) e = h.handle_request handler e
  option_request none e = returned (record e { response = set_status e.response 404 })

  unfoldable pub option_hyperlinks : Option T → Link w → List (Link w)
  option_hyperlinks (some handler) base_link = h.hyperlinks handler base_link
  option_hyperlinks none base_link = []

module _ {c : BuilderContexts} {T : Type 0} (a : ApplyContext c T) where
  unfoldable pub option_apply_context : Option T → c.BuilderContext → Option T
  option_apply_context none context = none
  option_apply_context (some handler) context = some (a.apply_context handler context)

  unfoldable pub option_prepend_context : Option T → c.BuilderContext → Option T
  option_prepend_context none context = none
  option_prepend_context (some handler) context = some (a.prepend_context handler context)

module _ {c : BuilderContexts} {T H : Type 0} (f : FromHandler c T H) where
  unfoldable pub option_from_handler : c.BuilderContext → H → Option T
  option_from_handler context handler = some (f.from_handler context handler)

module _ {T : Type 0} (m : Merge T) where
  unfoldable pub option_merge : Option T → Option T → Option T
  option_merge (some this) (some other) = some (m.merge this other)
  option_merge (some this) none = some this
  option_merge none other = other

-- the other instances for plain handlers: no context is used, and the last handler stays
module _ (w : World) (c : BuilderContexts) where
  unfoldable pub handler_from_handler : c.BuilderContext → w.Handler → w.Handler
  handler_from_handler context handler = handler

  unfoldable pub handler_apply_context : w.Handler → c.BuilderContext → w.Handler
  handler_apply_context handler context = handler

  unfoldable pub handler_prepend_context : w.Handler → c.BuilderContext → w.Handler
  handler_prepend_context handler context = handler

  abbrev pub handler_ApplyContext : ApplyContext c w.Handler
  handler_ApplyContext = record {
    apply_context = handler_apply_context;
    prepend_context = handler_prepend_context;
  }

  abbrev pub handler_FromHandler : FromHandler c w.Handler w.Handler
  handler_FromHandler = record { from_handler = handler_from_handler }

unfoldable pub handler_merge : (w : World) → w.Handler → w.Handler → w.Handler
handler_merge w this other = other
