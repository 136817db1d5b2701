-- ===== src/Tree/Build/Kept.antt =====
-- src/handler/tree_router.rs: paths with variables, from the builder to the answer, where no static route comes first.
use rustful.Base.{
  ℕ, Bool, if◌then◌else◌, ◌+◌, ◌≡◌, refl, sym, ◌∙◌, ap, Option, none, some, List, [], ◌∷◌, ◌++◌,
  append-nil, append_assoc, Bytes, length, false, true,
}
use rustful.Http.{World, Environment}
use rustful.Handler.{
  BuilderContexts, VariableNames, HandleRequest, ApplyContext, FromHandler, Default,
}
use rustful.Route.{segments, route_state}
use rustful.Tree.{
  TreeRouter, Branch, static, variable, wildcard, Child, absent, present, item, find_hyperlinks,
  answer, get_route, static_routes,
}
use rustful.Tree.Search.{Found, find, visit, first, each, through}
use rustful.Tree.Search.Loop.{state}
use rustful.Tree.Request.{handle_request, handle_request-find, found_answer}
use rustful.Tree.Build.{Builder, branch_of, child, walk, along, on_path, indexable}
use rustful.Tree.Build.Paths.{labels, walk-along, item-set_item}
use rustful.Tree.Build.Literal.{first-hit, through-hit}
use rustful.Tree.Build.Routed.{child_at, walk-present, made_item, find_hyperlinks-along}

-- what is kept of a segment by its pattern, and the number of variables after it
abbrev pub kept_by : Branch → ℕ → Option ℕ × ℕ
kept_by static v = (none, v)
kept_by variable v = (some v, v + 1)
kept_by wildcard v = (some v, v + 1)

abbrev pub kept : List Bytes → ℕ → List (Option ℕ)
kept [] v = []
kept (s ∷ ps) v = (kept_by (branch_of s) v).0 ∷ kept ps (kept_by (branch_of s) v).1

abbrev pub count : List Bytes → ℕ → ℕ
count [] v = v
count (s ∷ ps) v = count ps (kept_by (branch_of s) v).1

module _ {T : Type 0} where
  -- The segments of a request fit a pattern of literals and variables in a tree, segment by segment, and where a
  -- variable takes a segment, no static route of the node has that segment.
  pub data Free : TreeRouter T → List Bytes → List Bytes → Type 0 where
    ended : {t : TreeRouter T} → Free t [] []
    literal :
        {t : TreeRouter T} {s : Bytes} {ps rs : List Bytes}
        → branch_of s ≡ static
        → ((m : TreeRouter T) → child t s ≡ present m → Free m ps rs)
        → Free t (s ∷ ps) (s ∷ rs)
    kept_segment :
        {t : TreeRouter T} {s x : Bytes} {ps rs : List Bytes}
        → branch_of s ≡ variable
        → get_route (static_routes t) x ≡ absent
        → ((m : TreeRouter T) → child t s ≡ present m → Free m ps rs)
        → Free t (s ∷ ps) (x ∷ rs)

  first-miss :
      {f : Found T} (o o' : Option (Found T)) → o ≡ none → o' ≡ some f → first o o' ≡ some f
  first-miss o o' e e' = rw e e'

  through-miss :
      {c : Child T} (k : TreeRouter T → Option (Found T)) → c ≡ absent → through c k ≡ none
  through-miss k e = rw e refl

  one_more :
      {b : Branch} {i : T} (s : Bytes) (ps : List Bytes) (v : ℕ) (acc : List (Option ℕ))
      → branch_of s ≡ b
      → ◌≡◌ {A = Option (Found T)}
          (some (record {
            item = i;
            variables = (acc ++ (kept_by b v).0 ∷ []) ++ kept ps (kept_by b v).1;
            var_index = count ps (kept_by b v).1;
          }))
          (some
            (record { item = i; variables = acc ++ kept (s ∷ ps) v; var_index = count (s ∷ ps) v }))
  one_more {b} {i} s ps v acc e =
      ap (λ l. some (record { item = i; variables = l; var_index = count ps (kept_by b v).1 }))
        (append_assoc acc ((kept_by b v).0 ∷ []) (kept ps (kept_by b v).1))
      ∙ ap
          (λ z.
            some
              (record { item = i; variables = acc ++ z.0 ∷ kept ps z.1; var_index = count ps z.1 }))
          (sym (ap (λ y. kept_by y v) e))

  -- The search takes the way of the pattern.
  pub find-Free :
      {n : TreeRouter T} {found : VariableNames} {ps rs : List Bytes} (t : TreeRouter T)
      (names : VariableNames) (v : ℕ) (acc : List (Option ℕ))
      → Free t ps rs
      → walk ps t names ≡ some (n, found)
      → find t rs v acc
        ≡ some (record { item = item n; variables = acc ++ kept ps v; var_index = count ps v })
  unfolding find visit walk
  find-Free {n} t names v acc ended e =
      let same : t ≡ n = cc in
      ap (λ y. some (record { item = item y; variables = acc; var_index = v })) same
      ∙ ap (λ l. some (record { item = item n; variables = l; var_index = v }))
          (sym (append-nil acc))
  find-Free {n} t names v acc (literal {s = s} {ps = ps} {rs = rs} b next) e =
      let (m, c, rest) = walk-present s ps t names e in
      first-hit (visit (s ∷ rs) t static v acc) _ (
        through-hit (λ y. each (λ d. visit rs y d v (acc ++ none ∷ [])))
          (sym (child_at static t s b) ∙ c)
          (find-Free m _ v (acc ++ none ∷ []) (next m c) rest ∙ one_more s ps v acc b))
  find-Free {n} t names v acc (kept_segment {s = s} {x = x} {ps = ps} {rs = rs} b missing next) e =
      let (m, c, rest) = walk-present s ps t names e in
      first-miss (visit (x ∷ rs) t static v acc) _
        (through-miss (λ y. each (λ d. visit rs y d v (acc ++ none ∷ []))) missing)
        (first-hit (visit (x ∷ rs) t variable v acc) _ (
          through-hit (λ y. each (λ d. visit rs y d (v + 1) (acc ++ some v ∷ [])))
            (sym (child_at variable t s b) ∙ c)
            (find-Free m _ (v + 1) (acc ++ some v ∷ []) (next m c) rest ∙ one_more s ps v acc b)))

pub if_some : {A : Type 0} {x y : A} (t : Bool) → (if t then some x else none) ≡ some y → x ≡ y
if_some true e = cc
if_some false e = cc

module _ {c : BuilderContexts} {T : Type 0} (a : ApplyContext c T) (d : Default T) {H : Type 0}
    (f : FromHandler c T H) (b : Builder c T) (p : Bytes) (x : H) {w : World}
    (h : HandleRequest w T) where
  -- After a handler is put at a path of literals and variables, a router that does not look for hyperlinks answers
  -- a fresh request that fits the path by this handler, where no static route of the tree comes before a variable
  -- of the path: the segments that the variables stand for are kept for them, in the order of their names.
  handle_request-on_Free :
      {b' : Builder c T} (e : Environment w) (r : List Bytes)
      → on_path a d f b p x ≡ some b'
      → find_hyperlinks b.node ≡ false
      → e.route_state ≡ route_state r
      → Free b'.node (segments p) r
      → handle_request h b'.node e
        ≡ some (
            answer h
              (f.from_handler (c.insert b.context (labels b.variables (segments p))) x)
              (record e {
                route_state = state r (kept (segments p) 0) (length r) (count (segments p) 0);
              }))
  unfolding on_path
  handle_request-on_Free {b'} e r made_b plain fresh free =
      let made = made_item a d f b p x in
      let t' = along a d (segments p) b.context b.variables b.node made in
      let same : record b { node = t' } ≡ b' = if_some (indexable (segments p)) made_b in
      let (n, walked) = walk-along a d b.context made (segments p) b.variables b.node in
      let (route, route_eq, found) =
        handle_request-find h b'.node e r
          (ap (λ y. find_hyperlinks y.node) (sym same)
            ∙ find_hyperlinks-along a d f b p x (segments p) b.variables b.node
            ∙ plain)
          fresh in
      found
      ∙ ap (λ o. some (found_answer h e r route o))
          (find-Free b'.node b.variables 0 [] free
            (ap (λ y. walk (segments p) y.node b.variables) (sym same) ∙ walked))
      ∙ ap
          (λ i. some (
            answer h i (record e {
              route_state = state r (kept (segments p) 0) (length r) (count (segments p) 0);
            })))
          (item-set_item _ n)
