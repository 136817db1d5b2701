-- ===== src/OrElse.antt =====
-- src/handler/or_else.rs: a second handler for the requests that the first one gives back.
pub mod Chain
mod Tests
use rustful.Base.{List, ◌++◌, ◌≡◌, refl, ◌⊎◌, inl, inr}
use rustful.Http.{World, Environment, Outcome, handled, returned, panicked, Link}
use rustful.Handler.{BuilderContexts, HandleRequest, ApplyContext, Merge, Default}

module _ (A B : Type 0) where
  pub record OrElse : Type 0 where
    pub primary : A
    pub secondary : B

module _ {A B : Type 0} where
  abbrev pub new : A → B → OrElse A B
  new primary secondary = record { primary = primary; secondary = secondary }

  unfoldable pub with_primary : Default B → A → OrElse A B
  with_primary d primary = record { primary = primary; secondary = d.default }

  unfoldable pub with_secondary : Default A → B → OrElse A B
  with_secondary d secondary = record { primary = d.default; secondary = secondary }

  unfoldable pub default : Default A → Default B → OrElse A B
  default a b = record { primary = a.default; secondary = b.default }

module _ {w : World} where
  -- `Result::or_else`
  abbrev pub or_else : Outcome w → (Environment w → Outcome w) → Outcome w
  or_else (handled x) f = handled x
  or_else (returned e) f = f e
  or_else panicked f = panicked

module _ {w : World} {A B : Type 0} (a : HandleRequest w A) (b : HandleRequest w B) where
  unfoldable pub handle_request : OrElse A B → Environment w → Outcome w
  handle_request r e =
      or_else (a.handle_request r.primary e) (λ e'. b.handle_request r.secondary e')

  unfoldable pub hyperlinks : OrElse A B → Link w → List (Link w)
  hyperlinks r base = a.hyperlinks r.primary base ++ b.hyperlinks r.secondary base

  instance abbrev pub OrElse_HandleRequest : HandleRequest w (OrElse A B)
  OrElse_HandleRequest = record { handle_request = handle_request; hyperlinks = hyperlinks }

module _ {c : BuilderContexts} {A B : Type 0} (a : ApplyContext c A) (b : ApplyContext c B) where
  unfoldable pub apply_context : OrElse A B → c.BuilderContext → OrElse A B
  apply_context r context = record {
    primary = a.apply_context r.primary context;
    secondary = b.apply_context r.secondary context;
  }

  unfoldable pub prepend_context : OrElse A B → c.BuilderContext → OrElse A B
  prepend_context r context = record {
    primary = a.prepend_context r.primary context;
    secondary = b.prepend_context r.secondary context;
  }

module _ {A B : Type 0} (a : Merge A) (b : Merge B) where
  unfoldable pub merge : OrElse A B → OrElse A B → OrElse A B
  merge r other = record {
    primary = a.merge r.primary other.primary;
    secondary = b.merge r.secondary other.secondary;
  }

module _ (c : BuilderContexts) (A B : Type 0) where
  pub record Builder : Type 0 where
    pub router : OrElse A B
    pub context : c.BuilderContext

module _ {c : BuilderContexts} {A B : Type 0} where
  unfoldable pub get_builder : OrElse A B → c.BuilderContext → Builder c A B
  get_builder r context = record { router = r; context = context }

  -- `primary` and `secondary` lend out the two routers with the context
  unfoldable pub build_primary : Builder c A B → (c.BuilderContext → A → A) → Builder c A B
  build_primary b k = record b {
    router = record b.router { primary = k b.context b.router.primary };
  }

  unfoldable pub build_secondary : Builder c A B → (c.BuilderContext → B → B) → Builder c A B
  build_secondary b k = record b {
    router = record b.router { secondary = k b.context b.router.secondary };
  }
