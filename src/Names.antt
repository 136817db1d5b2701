-- ===== src/Names.antt =====
-- src/handler/variables.rs: the names of the route variables, and the handler that gets their values.
pub mod Order
mod Tests
use rustful.Base.{Option, none, some, List, [], ◌++◌}
use rustful.Text.{MaybeUtf8}
use rustful.Route.{variables}
use rustful.Http.{World, Environment, Outcome, Link}
use rustful.Handler.{
  BuilderContexts, VariableNames, HandleRequest, ApplyContext, FromHandler, Merge, Default,
}

module _ (T : Type 0) where
  pub record Variables : Type 0 where
    pub handler : T
    pub names : List MaybeUtf8

module _ {w : World} {T : Type 0} (h : HandleRequest w T) where
  unfoldable pub handle_request : Variables T → Environment w → Outcome w
  unfolding variables
  handle_request v e =
      let named = variables e.route_state v.names in
      h.handle_request v.handler (record e { context = record e.context { variables = named } })

  unfoldable pub hyperlinks : Variables T → Link w → List (Link w)
  hyperlinks v base = h.hyperlinks v.handler base

  instance abbrev pub Variables_HandleRequest : HandleRequest w (Variables T)
  Variables_HandleRequest = record { handle_request = handle_request; hyperlinks = hyperlinks }

abbrev pub or_no_names : Option VariableNames → VariableNames
or_no_names none = []
or_no_names (some names) = names

module _ {c : BuilderContexts} {T H : Type 0} (f : FromHandler c T H) where
  unfoldable pub from_handler : c.BuilderContext → H → Variables T
  from_handler context h =
      let (names, context') = c.remove context in
      record { handler = f.from_handler context' h; names = or_no_names names }

abbrev pub replaced : Option VariableNames → VariableNames → VariableNames
replaced none old = old
replaced (some names) old = names

-- the swap and the `extend`: the new names come first
abbrev pub prepended : Option VariableNames → VariableNames → VariableNames
prepended none old = old
prepended (some names) old = names ++ old

module _ {c : BuilderContexts} {T : Type 0} (a : ApplyContext c T) where
  unfoldable pub apply_context : Variables T → c.BuilderContext → Variables T
  apply_context v context =
      let (names, context') = c.remove context in
      record { handler = a.apply_context v.handler context'; names = replaced names v.names }

  unfoldable pub prepend_context : Variables T → c.BuilderContext → Variables T
  prepend_context v context =
      let (names, context') = c.remove context in
      record { handler = a.prepend_context v.handler context'; names = prepended names v.names }

module _ {T : Type 0} (m : Merge T) where
  unfoldable pub merge : Variables T → Variables T → Variables T
  merge v other = record { handler = m.merge v.handler other.handler; names = other.names }

module _ {T : Type 0} (d : Default T) where
  unfoldable pub default : Variables T
  default = record { handler = d.default; names = [] }

-- `get_builder`: the names are taken out of the context, and the builder of the handler gets the rest
module _ (c : BuilderContexts) {T B : Type 0} (build : T → c.BuilderContext → B) where
  unfoldable pub get_builder : Variables T → c.BuilderContext → B
  get_builder v context = build v.handler (c.remove context).1
