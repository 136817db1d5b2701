-- ===== src/Tree/Build/Tables.antt =====
-- src/handler/tree_router.rs: what the builder leaves in a tree at the ends of static routes.
use rustful.Base.{
  ◌≡◌, refl, ◌∙◌, ap, Option, none, some, List, [], ◌∷◌, Bytes, bytes_discrete, ite, if_pos, if_neg,
  All,
}
use rustful.Handler.{BuilderContexts, VariableNames, ApplyContext, Default}
use rustful.Tree.{
  TreeRouter, Routes, Child, node, no_routes, route, absent, present, item, static_routes,
  get_route, with_handler,
}
use rustful.Tree.Search.{through}
use rustful.Tree.Build.{find_or_insert, update_route, set_item, push_label, along, created}
use rustful.Tree.Search.Plain.{Plain, PlainRoutes, static_at}
use rustful.Tree.Build.Paths.{item-find_or_insert, lent, get_route-update_route, labels}
use rustful.Tree.Build.Literal.{Literal}

-- where a path of static segments leads from another
pub data Meeting : Type 0 where
  at_end on_way elsewhere : Meeting

unfoldable pub meeting : List Bytes → List Bytes → Meeting
meeting [] [] = at_end
meeting [] (q ∷ qs) = elsewhere
meeting (s ∷ ss) [] = on_way
meeting (s ∷ ss) (q ∷ qs) = ite (bytes_discrete s q) (meeting ss qs) elsewhere

module _ {T : Type 0} (d : T) (g : T → T) where
  abbrev pub or_new : Option T → T
  or_new none = d
  or_new (some i) = i

  -- what the builder leaves at a node that its path meets like that
  abbrev pub left_by : Meeting → Option T → Option T
  left_by at_end o = some (g (or_new o))
  left_by on_way o = some (or_new o)
  left_by elsewhere o = o

module _ {c : BuilderContexts} {T : Type 0} (a : ApplyContext c T) (d : Default T)
    (context : c.BuilderContext) (new : T) (g : VariableNames → T → T) where
  abbrev made : TreeRouter T → VariableNames → TreeRouter T
  made n names = set_item (g names (item n)) n

  abbrev made_along : List Bytes → VariableNames → TreeRouter T → TreeRouter T
  made_along ss names t = along a d ss context names t made

  static_at-set_item :
      (i : T) (n : TreeRouter T) (q : Bytes) (qs : List Bytes)
      → static_at (set_item i n) (q ∷ qs) ≡ static_at n (q ∷ qs)
  unfolding static_at
  static_at-set_item i (node _ rs v w f) q qs = refl

  static_at-find_or_insert :
      (t : TreeRouter T) (s q : Bytes) (qs : List Bytes) (i : T) (k : TreeRouter T → TreeRouter T)
      → Literal s
      → static_at (find_or_insert t s i k) (q ∷ qs)
        ≡ through
            (ite
              (bytes_discrete s q)
              (present (k (lent (get_route (static_routes t) q) i)))
              (get_route (static_routes t) q))
            (λ n. static_at n qs)
  unfolding find_or_insert static_at
  static_at-find_or_insert (node _ rs v w f) s q qs i k lit =
      rw lit (ap (λ x. through x (λ n. static_at n qs)) (get_route-update_route rs s q i k))

  fresh_left :
      (f : T → T) (ss qs : List Bytes)
      → left_by new f (meeting ss qs) (static_at (with_handler new) qs)
        ≡ left_by new f (meeting ss qs) none
  unfolding meeting static_at get_route with_handler
  fresh_left f [] [] = refl
  fresh_left f [] (q ∷ qs) = refl
  fresh_left f (s ∷ ss) [] = refl
  fresh_left f (s ∷ ss) (q ∷ qs) = refl

  lent_left :
      (f : T → T) (ss qs : List Bytes) (x : Child T) {i : T}
      → i ≡ new
      → left_by new f (meeting ss qs) (static_at (lent x i) qs)
        ≡ left_by new f (meeting ss qs) (through x (λ n. static_at n qs))
  lent_left f ss qs absent e =
      ap (λ j. left_by new f (meeting ss qs) (static_at (with_handler j) qs)) e ∙ fresh_left f ss qs
  lent_left f ss qs (present n) e = refl

  further :
      (f : T → T) (m : Meeting) (s q : Bytes) (qs : List Bytes) (n : TreeRouter T) (x : Child T)
      → static_at n qs ≡ left_by new f m (through x (λ y. static_at y qs))
      → through (ite (bytes_discrete s q) (present n) x) (λ y. static_at y qs)
        ≡ left_by new f (ite (bytes_discrete s q) m elsewhere) (through x (λ y. static_at y qs))
  further f m s q qs n x h = elim (bytes_discrete s q) [
    | yes e ↦ rw (if_pos _ e) (rw (if_pos _ e) h)
    | no e ↦ rw (if_neg _ e) (rw (if_neg _ e) refl)
  ]

  -- What is at the end of static routes after the work at the end of others.
  pub static_at-along :
      (ss qs : List Bytes) (names : VariableNames) (t : TreeRouter T)
      → ((names : VariableNames) → created a d context names ≡ new)
      → All Literal ss
      → static_at (made_along ss names t) qs
        ≡ left_by new (g (labels names ss)) (meeting ss qs) (static_at t qs)
  unfolding along meeting static_at
  static_at-along [] [] names (node i rs v w f) h lit = refl
  static_at-along [] (q ∷ qs) names t h lit = static_at-set_item _ t q qs
  static_at-along (s ∷ ss) [] names t h (l, lit) = ap some (item-find_or_insert t s _ _)
  static_at-along (s ∷ ss) (q ∷ qs) names t h (l, lit) =
      static_at-find_or_insert t s q qs _ _ l
      ∙ further (g (labels names (s ∷ ss))) (meeting ss qs) s q qs _ (get_route (static_routes t) q)
          (static_at-along ss qs _ (lent (get_route (static_routes t) q) _) h lit
            ∙ lent_left (g (labels names (s ∷ ss))) ss qs (get_route (static_routes t) q)
                (h (push_label names s)))

  update_route-Plain :
      (rs : Routes T) (s : Bytes) (i : T) (k : TreeRouter T → TreeRouter T)
      → ((n : TreeRouter T) → Plain n → Plain (k n))
      → PlainRoutes rs
      → PlainRoutes (update_route rs s i k)
  unfolding update_route Plain
  update_route-Plain no_routes s i k h p = (h (with_handler i) tt, tt)
  update_route-Plain (route j n rs) s i k h (pn, p) = elim (bytes_discrete j s) [
    | yes e ↦ rw (if_pos _ e) (h n pn, p)
    | no e ↦ rw (if_neg _ e) (pn, update_route-Plain rs s i k h p)
  ]

  find_or_insert-Plain :
      (t : TreeRouter T) (s : Bytes) (i : T) (k : TreeRouter T → TreeRouter T)
      → ((n : TreeRouter T) → Plain n → Plain (k n))
      → Literal s
      → Plain t
      → Plain (find_or_insert t s i k)
  unfolding find_or_insert Plain
  find_or_insert-Plain (node _ rs absent absent f) s i k h lit p =
      rw lit (update_route-Plain rs s i k h p)
  find_or_insert-Plain (node _ rs absent (present n) f) s i k h lit p = absurd p
  find_or_insert-Plain (node _ rs (present n) w f) s i k h lit p = absurd p

  set_item-Plain : (i : T) (n : TreeRouter T) → Plain n → Plain (set_item i n)
  unfolding Plain
  set_item-Plain i (node _ rs absent absent f) p = p
  set_item-Plain i (node _ rs absent (present n) f) p = absurd p
  set_item-Plain i (node _ rs (present n) w f) p = absurd p

  -- Literal routes keep a tree of static routes such a tree.
  pub along-Plain :
      (ss : List Bytes) (names : VariableNames) (t : TreeRouter T)
      → All Literal ss
      → Plain t
      → Plain (made_along ss names t)
  unfolding along
  along-Plain [] names t lit p = set_item-Plain _ t p
  along-Plain (s ∷ ss) names t (l, lit) p =
      find_or_insert-Plain t s _ _ (λ n pn. along-Plain ss _ n lit pn) l p
