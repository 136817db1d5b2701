-- ===== src/Tree/Build/Routed.antt =====
-- src/handler/tree_router.rs: the builder and the search together, from a pattern to the request that fits it.
use rustful.Base.{
  ◌⊎◌, ℕ, ◌+◌, ◌≡◌, refl, sym, ◌∙◌, ap, inl, inr, true, false, Option, none, some, List, [], ◌∷◌,
  Bytes, length,
}
use rustful.Http.{World, Environment}
use rustful.Handler.{
  BuilderContexts, VariableNames, HandleRequest, ApplyContext, FromHandler, Default,
}
use rustful.Route.{segments, route_state}
use rustful.Tree.{
  TreeRouter, Branch, static, variable, wildcard, Child, absent, present, node, item,
  find_hyperlinks, answer, get_route, static_routes,
}
use rustful.Tree.Search.Loop.{state}
use rustful.Tree.Search.Reach.{
  Reaches, here, by_static, by_variable, by_sequence, Takes, done, more,
}
use rustful.Tree.Request.{handle_request}
use rustful.Tree.Request.Reach.{handle_request-Reaches}
use rustful.Tree.Build.{
  Builder, branch_of, child, child_of, insert_at, find_or_insert, set_item, push_label, walk, along,
  on_path, indexable,
}
use rustful.Tree.Build.Paths.{walk-along, if_true}

-- Segments of a request fit the segments of a pattern: a variable stands for one segment, a sequence for
-- one or more.
pub data Fits : List Bytes → List Bytes → Type 0 where
  nothing : Fits [] []
  literal :
      {s x : Bytes} {ps rs : List Bytes}
      → branch_of s ≡ static
      → x ≡ s
      → Fits ps rs
      → Fits (s ∷ ps) (x ∷ rs)
  one_segment :
      {s x : Bytes} {ps rs : List Bytes}
      → branch_of s ≡ variable
      → Fits ps rs
      → Fits (s ∷ ps) (x ∷ rs)
  last_segment :
      {s x : Bytes} {ps rs : List Bytes}
      → branch_of s ≡ wildcard
      → Fits ps rs
      → Fits (s ∷ ps) (x ∷ rs)
  more_segments :
      {s x : Bytes} {ps rs : List Bytes}
      → branch_of s ≡ wildcard
      → Fits (s ∷ ps) rs
      → Fits (s ∷ ps) (x ∷ rs)

module _ {T : Type 0} where
  pub child_at :
      (b : Branch) (t : TreeRouter T) (s : Bytes) → branch_of s ≡ b → child t s ≡ child_of b t s
  unfolding child
  child_at b t s e = ap (λ x. child_of x t s) e

  pub walk-present :
      (s : Bytes) (ss : List Bytes) (t : TreeRouter T) (names : VariableNames) {n : TreeRouter T}
      {found : VariableNames}
      → walk (s ∷ ss) t names ≡ some (n, found)
      → (m : TreeRouter T) × (child t s ≡ present m)
        × (walk ss m (push_label names s) ≡ some (n, found))
  unfolding walk
  walk-present s ss t names {n} {found} e = go (child t s) refl e
    where
      go :
          (x : Child T)
          → child t s ≡ x
          → elim x [ absent ↦ none | present m ↦ walk ss m (push_label names s) ] ≡ some (n, found)
          → (m : TreeRouter T) × (child t s ≡ present m)
            × (walk ss m (push_label names s) ≡ some (n, found))
      go absent c e = cc
      go (present m) c e = (m, c, e)

  mutual
    unfolding walk

    -- Segments that fit the path to a node lead to the node.
    Fits-Reaches :
        {n : TreeRouter T} {found : VariableNames} {ps rs : List Bytes} (t : TreeRouter T)
        (names : VariableNames)
        → Fits ps rs
        → walk ps t names ≡ some (n, found)
        → (v : ℕ) → (last : ℕ) × (vars : List (Option ℕ)) × Reaches n last t rs v vars
    Fits-Reaches t names nothing e v = (v, [], here (cc) refl)
    Fits-Reaches t names (literal {s} {ps = ps} b same fits) e v =
        let (m, c, next) = walk-present s ps t names e in
        let (last, vars, w) = Fits-Reaches m (push_label names s) fits next v in
        (
          last,
          none ∷ vars,
          by_static (ap (get_route (static_routes t)) same ∙ sym (child_at static t s b) ∙ c) w,
        )
    Fits-Reaches t names (one_segment {s} {ps = ps} b fits) e v =
        let (m, c, next) = walk-present s ps t names e in
        let (last, vars, w) = Fits-Reaches m (push_label names s) fits next (v + 1) in
        (last, some v ∷ vars, by_variable (sym (child_at variable t s b) ∙ c) refl w)
    Fits-Reaches t names (last_segment {s} {ps = ps} b fits) e v =
        let (m, c, next) = walk-present s ps t names e in
        let (last, vars, w) = Fits-Reaches m (push_label names s) fits next (v + 1) in
        (last, some v ∷ vars, by_sequence (done (sym (child_at wildcard t s b) ∙ c) refl w))
    Fits-Reaches t names (more_segments b fits) e v =
        let (last, vars, w) = Fits-Takes t names b fits e v in
        (last, some v ∷ vars, by_sequence (more refl w))

    Fits-Takes :
        {n : TreeRouter T} {found : VariableNames} {s : Bytes} {ps rs : List Bytes}
        (t : TreeRouter T) (names : VariableNames)
        → branch_of s ≡ wildcard
        → Fits (s ∷ ps) rs
        → walk (s ∷ ps) t names ≡ some (n, found)
        → (v : ℕ) → (last : ℕ) × (vars : List (Option ℕ)) × Takes n last t rs v vars
    Fits-Takes t names q (literal b same fits) e v = cc
    Fits-Takes t names q (one_segment b fits) e v = cc
    Fits-Takes t names q (last_segment {s} {ps = ps} b fits) e v =
        let (m, c, next) = walk-present s ps t names e in
        let (last, vars, w) = Fits-Reaches m (push_label names s) fits next (v + 1) in
        (last, some v ∷ vars, done (sym (child_at wildcard t s b) ∙ c) refl w)
    Fits-Takes t names q (more_segments b fits) e v =
        let (last, vars, w) = Fits-Takes t names q fits e v in (last, some v ∷ vars, more refl w)

  pub find_hyperlinks-set_item :
      (i : T) (n : TreeRouter T) → find_hyperlinks (set_item i n) ≡ find_hyperlinks n
  find_hyperlinks-set_item i (node _ rs v w f) = refl

  pub find_hyperlinks-find_or_insert :
      (t : TreeRouter T) (s : Bytes) (i : T) (k : TreeRouter T → TreeRouter T)
      → find_hyperlinks (find_or_insert t s i k) ≡ find_hyperlinks t
  unfolding find_or_insert
  find_hyperlinks-find_or_insert t s i k = go (branch_of s) t
    where
      go :
          (b : Branch) (t : TreeRouter T)
          → find_hyperlinks (insert_at b t s i k) ≡ find_hyperlinks t
      go static (node _ rs v w f) = refl
      go variable (node _ rs v w f) = refl
      go wildcard (node _ rs v w f) = refl

-- A case that is ruled out leaves the other one.
answered_by_node :
    {T : Type 0} {t n : TreeRouter T} {r : List Bytes} {last : ℕ} {vars : List (Option ℕ)}
    {Answered Unanswered : Type 0}
    → (Answered
        ⊎ (((n : TreeRouter T) (last : ℕ) (vars : List (Option ℕ)) → ¬ Reaches n last t r 0 vars)
            × Unanswered))
    → Reaches n last t r 0 vars
    → Answered
answered_by_node (inl x) way = x
answered_by_node {n} {last} {vars} (inr (nowhere, _)) way = absurd (nowhere n last vars way)

module _ {c : BuilderContexts} {T : Type 0} (a : ApplyContext c T) (d : Default T) where
  module _ (context : c.BuilderContext) (k : TreeRouter T → VariableNames → TreeRouter T)
      (keeps : (n : TreeRouter T) (names : VariableNames)
        → find_hyperlinks (k n names) ≡ find_hyperlinks n) where
    pub along-keeps :
        (ss : List Bytes) (names : VariableNames) (t : TreeRouter T)
        → find_hyperlinks (along a d ss context names t k) ≡ find_hyperlinks t
    unfolding along
    along-keeps [] names t = keeps t names
    along-keeps (s ∷ ss) names t = find_hyperlinks-find_or_insert t s _ _

  module _ {H : Type 0} (f : FromHandler c T H) (b : Builder c T) (p : Bytes) (x : H) where
    abbrev pub made_item : TreeRouter T → VariableNames → TreeRouter T
    made_item n names = set_item (f.from_handler (c.insert b.context names) x) n

    pub find_hyperlinks-along :
        (ss : List Bytes) (names : VariableNames) (t : TreeRouter T)
        → find_hyperlinks (along a d ss b.context names t made_item) ≡ find_hyperlinks t
    find_hyperlinks-along =
        along-keeps b.context made_item (λ n names. find_hyperlinks-set_item _ n)

    module _ {w : World} (h : HandleRequest w T) where
      -- After a handler is put at a path without empty segments, a router that does not look for
      -- hyperlinks never answers a fresh request itself whose segments fit the path: the request is
      -- answered by the item of a node that the segments lead to.
      pub handle_request-on_path :
          (e : Environment w) (r : List Bytes)
          → indexable (segments p) ≡ true
          → find_hyperlinks b.node ≡ false
          → e.route_state ≡ route_state r
          → Fits (segments p) r
          → (b' : Builder c T) × (on_path a d f b p x ≡ some b')
            × (n : TreeRouter T) × (last : ℕ) × (vars : List (Option ℕ)) × Reaches n last b'.node r
                0 vars
            × (handle_request h b'.node e
                ≡ some
                    (answer h (item n) (record e { route_state = state r vars (length r) last })))
      unfolding on_path
      handle_request-on_path e r ok plain fresh fits =
          let t' = along a d (segments p) b.context b.variables b.node made_item in
          let (n, walked) = walk-along a d b.context made_item (segments p) b.variables b.node in
          let (last, vars, way) = Fits-Reaches t' b.variables fits walked 0 in
          let (m, last', vars', way', answered) =
            answered_by_node
              (handle_request-Reaches h t' e r
                (find_hyperlinks-along (segments p) b.variables b.node ∙ plain) fresh)
              way in
          (record b { node = t' }, if_true none ok, m, last', vars', way', answered)
