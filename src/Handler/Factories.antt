-- ===== src/Handler/Factories.antt =====
-- src/handler/mod.rs: `ContentFactory`, a handler that sends what it creates from the context.
use rustful.Base.{◌≡◌, ap, Option, some, List, [], ◌∷◌}
use rustful.Http.{World, Context, Environment, Outcome, handled, Link}
use rustful.Handler.{BuilderContexts}
use rustful.Response.{Sending}
use rustful.Response.Sized.{Sent}
use rustful.Response.Contents.{
  SendResponse, IoErrors, Sendable, Sends, instance_of, Unused, try_send, try_send-once, chosen,
  passed,
}

-- the trait `CreateContent`
pub record CreateContent (w : World) (T C : Type 0) : Type 0 where
  pub create_content : T → Context w → C

pub record ContentFactory (T : Type 0) : Type 0 where
  pub factory : T

module _ (c : BuilderContexts) {T : Type 0} where
  -- `into` is the conversion of the caller
  unfoldable pub factory_from_handler :
      {H : Type 0} → (H → ContentFactory T) → c.BuilderContext → H → ContentFactory T
  factory_from_handler into context handler = into handler

  -- the context is ignored
  unfoldable pub factory_apply_context : ContentFactory T → c.BuilderContext → ContentFactory T
  factory_apply_context f context = f

  unfoldable pub factory_prepend_context : ContentFactory T → c.BuilderContext → ContentFactory T
  factory_prepend_context f context = f

unfoldable pub factory_merge : {T : Type 0} → ContentFactory T → ContentFactory T → ContentFactory T
factory_merge this other = other

module _ {w : World} (s : Sending w) {T C E : Type 0} (r : SendResponse s C E)
    (create : CreateContent w T C) where
  -- `effect` is what is seen of all that is sent; `send` only logs the error
  unfoldable pub factory_request :
      (List (Option (Sent s)) → w.Effect) → ContentFactory T → Environment w → Outcome w
  factory_request effect f e =
      handled (effect (try_send s r e.response (create.create_content f.factory e.context)).sends)

  unfoldable pub factory_hyperlinks : ContentFactory T → Link w → List (Link w)
  factory_hyperlinks f base_link = base_link ∷ []

module _ {w : World} (s : Sending w) (i : IoErrors s) {T : Type 0} (k : Sendable s)
    (create : CreateContent w T (Sends s i k)) where
  -- A factory of data, errors, options and results takes every request with an unused response, and one content passes
  -- through the response filters, once: the one that its value stands for, with its status.
  pub factory_request-once :
      (effect : List (Option (Sent s)) → w.Effect) (f : ContentFactory T) (e : Environment w)
      (u : Unused s e.response)
      → factory_request s (instance_of s i k) create effect f e
        ≡ handled (
            effect (
              some (
                passed s i e.response u.storage
                  (chosen s i k (create.create_content f.factory e.context) u.writer))
              ∷ []))
  unfolding factory_request
  factory_request-once effect f e u =
      ap (λ l. handled (effect l))
        (try_send-once s i k (create.create_content f.factory e.context) e.response u)
