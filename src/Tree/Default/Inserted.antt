-- ===== src/Tree/Default/Inserted.antt =====
-- src/handler/tree_router.rs and src/handler/method_router.rs: the tree that a list of literal routes makes.
use rustful.Base.{
  ◌≡◌, refl, ◌∙◌, ap, true, false, Option, none, some, List, [], ◌∷◌, All, Bytes, ite, if_pos,
  if_neg, get, get-insert,
}
use rustful.Http.{World}
use rustful.Handler.{BuilderContexts, VariableNames, ApplyContext, FromHandler}
use rustful.Route.{segments}
use rustful.Tree.{item, find_hyperlinks}
use rustful.Tree.Search.{first}
use rustful.Tree.Search.Plain.{Plain, static_at}
use rustful.Tree.Build.{Builder, get_builder, set_item, along, created, indexable, path, then_item}
use rustful.Tree.Build.Paths.{if_true}
use rustful.Tree.Build.Literal.{Literal}
use rustful.Tree.Build.Routed.{along-keeps, find_hyperlinks-set_item}
use rustful.Tree.Build.Tables.{
  Meeting, at_end, on_way, elsewhere, meeting, left_by, static_at-along, along-Plain,
}
use rustful.Method.{
  MethodRouter, new as new_methods, get_builder as method_builder, on,
  apply_context as methods_apply,
}
use rustful.Names.{Variables, from_handler as named_handler}
use rustful.Tree.Default.{
  DefaultRouter, methods_context, no_methods, naming, on_route_method, insert_routes,
}
use rustful.Tree.Default.Reference.{
  chosen, led, IsLiteral, labels-Literal, as_value, step, result, result-step,
}

module _ {c : BuilderContexts} {T H : Type 0} (f : FromHandler c T H) where
  abbrev pub value : H → Variables T
  value x = named_handler f (c.insert c.empty []) x

module _ (w : World) {T : Type 0} where
  abbrev pub seen : Option (MethodRouter w (Variables T)) → w.Method → Option (Option (Variables T))
  seen none m = none
  seen (some r) m = some (get w.method_discrete r.handlers m)

module _ (w : World) {c : BuilderContexts} {T H : Type 0} (a : ApplyContext c T)
    (f : FromHandler c T H) where
  abbrev put :
      w.Method → H → VariableNames → MethodRouter w (Variables T) → MethodRouter w (Variables T)
  put method x names router =
      (on (naming w a f) (method_builder router (c.insert c.empty names)) method x).router

  new_value :
      (method m : w.Method) (x : H) (o : Option (Variables T))
      → ite (w.method_discrete method m) (some (value f x)) o
        ≡ first (as_value (value f) (ite (w.method_discrete method m) (some x) none)) o
  new_value method m x o = elim (w.method_discrete method m) [
    | yes p ↦ rw (if_pos _ p) (rw (if_pos _ p) refl)
    | no p ↦ rw (if_neg _ p) (rw (if_neg _ p) refl)
  ]

  seen-left_by :
      (mt : Meeting) (method m : w.Method) (x : H) (o : Option (MethodRouter w (Variables T)))
      → seen w (left_by new_methods (put method x []) mt o) m
        ≡ step (value f) mt (ite (w.method_discrete method m) (some x) none) (seen w o m)
  unfolding on method_builder get
  seen-left_by at_end method m x none =
      ap some (get-insert w.method_discrete [] method m (value f x) ∙ new_value method m x none)
  seen-left_by at_end method m x (some r) = ap some (
      get-insert w.method_discrete r.handlers method m (value f x)
      ∙ new_value method m x (get w.method_discrete r.handlers m))
  seen-left_by on_way method m x none = refl
  seen-left_by on_way method m x (some r) = refl
  seen-left_by elsewhere method m x o = refl

  abbrev work : w.Method → H → DefaultRouter w T → VariableNames → DefaultRouter w T
  work method x n names = set_item (put method x names (item n)) n

  abbrev with_route : w.Method → Bytes → H → DefaultRouter w T → DefaultRouter w T
  with_route method p x t =
      along (methods_context w a f) (no_methods w a f) (segments p) c.empty [] t (work method x)

  get_builder-empty :
      (t : DefaultRouter w T)
      → get_builder {c = c} t c.empty ≡ record { node = t; variables = []; context = c.empty }
  unfolding get_builder
  get_builder-empty t = rw c.remove-empty refl

  insert-route :
      (method : w.Method) (p : Bytes) (x : H) (t : DefaultRouter w T)
      → indexable (segments p) ≡ true
      → on_route_method w a f (get_builder t c.empty) method p x
        ≡ some (record { node = with_route method p x t; variables = []; context = c.empty })
  unfolding on_route_method path then_item
  insert-route method p x t ok =
      ap (λ b. on_route_method w a f b method p x) (get_builder-empty t) ∙ if_true none ok

  insert_routes-cons :
      (method : w.Method) (p : Bytes) (x : H) (routes : List (w.Method × Bytes × H))
      (t : DefaultRouter w T)
      → indexable (segments p) ≡ true
      → insert_routes w a f ((method, p, x) ∷ routes) t
        ≡ insert_routes w a f routes (with_route method p x t)
  insert_routes-cons method p x routes t ok =
      ap
        (λ (o : Option (Builder c (MethodRouter w (Variables T)))). elim o [
          | none ↦ none
          | some b ↦ insert_routes w a f routes b.node
        ])
        (insert-route method p x t ok)

  created-new :
      (names : VariableNames)
      → created (methods_context w a f) (no_methods w a f) c.empty names ≡ new_methods
  unfolding created methods_apply
  created-new names = refl

  seen-with_route :
      (method m : w.Method) (p : Bytes) (x : H) (t : DefaultRouter w T) (qs : List Bytes)
      → All Literal (segments p)
      → seen w (static_at (with_route method p x t) qs) m
        ≡ step
            (value f)
            (meeting (segments p) qs)
            (ite (w.method_discrete method m) (some x) none)
            (seen w (static_at t qs) m)
  seen-with_route method m p x t qs lit =
      ap (λ o. seen w o m)
        (static_at-along (methods_context w a f) (no_methods w a f) c.empty new_methods
            (put method x) (segments p) qs [] t created-new lit
          ∙ ap
              (λ names.
                left_by new_methods (put method x names) (meeting (segments p) qs) (static_at t qs))
              (labels-Literal [] (segments p) lit))
      ∙ seen-left_by (meeting (segments p) qs) method m x (static_at t qs)

  -- what a list of routes makes of a tree
  pub record Inserted (routes : List (w.Method × Bytes × H)) (t : DefaultRouter w T) : Type 0 where
    pub tree : DefaultRouter w T
    pub made : insert_routes w a f routes t ≡ some tree
    pub plain : Plain tree
    pub unlinked : find_hyperlinks tree ≡ false
    pub entries :
        (qs : List Bytes) (m : w.Method)
        → seen w (static_at tree qs) m
          ≡ result (value f) (chosen w routes qs m) (led w routes qs) (seen w (static_at t qs) m)

  pub inserted :
      (routes : List (w.Method × Bytes × H)) (t : DefaultRouter w T)
      → All (IsLiteral w) routes
      → Plain t
      → find_hyperlinks t ≡ false
      → Inserted routes t
  unfolding chosen led
  inserted [] t lit p u = record {
    tree = t;
    made = refl;
    plain = p;
    unlinked = u;
    entries = λ qs m. refl;
  }
  inserted ((method, p, x) ∷ routes) t ((ok, l), lit) pl u =
      let rest =
        inserted routes (with_route method p x t) lit
          (along-Plain (methods_context w a f) (no_methods w a f) c.empty new_methods (put method x)
            (segments p) [] t l pl)
          (along-keeps (methods_context w a f) (no_methods w a f) c.empty (work method x)
              (λ n names. find_hyperlinks-set_item _ n) (segments p) [] t
            ∙ u) in
      record {
        tree = rest.tree;
        made = insert_routes-cons method p x routes t ok ∙ rest.made;
        plain = rest.plain;
        unlinked = rest.unlinked;
        entries = λ qs m.
            rest.entries qs m
            ∙ ap (λ o. result (value f) (chosen w routes qs m) (led w routes qs) o)
                (seen-with_route method m p x t qs l)
            ∙ result-step (value f) (meeting (segments p) qs) (chosen w routes qs m) _
                (led w routes qs) (seen w (static_at t qs) m);
      }
