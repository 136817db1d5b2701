-- ===== src/Tree/Build/Literal.antt =====
-- src/handler/tree_router.rs: paths without variables, from the builder to the answer.
use rustful.Base.{
  ℕ, ◌≡◌, refl, sym, ◌∙◌, ap, Option, none, some, List, [], ◌∷◌, ◌++◌, append-nil, append_assoc,
  All, Bytes, length, replicate, false, true,
}
use rustful.Http.{World, Environment}
use rustful.Handler.{
  BuilderContexts, VariableNames, HandleRequest, ApplyContext, FromHandler, Default,
}
use rustful.Route.{segments, route_state}
use rustful.Tree.{TreeRouter, static, Child, present, item, find_hyperlinks, answer}
use rustful.Tree.Search.{Found, find, visit, first, each, through}
use rustful.Tree.Search.Loop.{state}
use rustful.Tree.Request.{handle_request, handle_request-find, found_answer}
use rustful.Tree.Build.{Builder, branch_of, walk, along, on_path, indexable}
use rustful.Tree.Build.Paths.{labels, walk-along, if_true, item-set_item}
use rustful.Tree.Build.Routed.{child_at, walk-present, made_item, find_hyperlinks-along}

-- a segment that is neither a variable nor a sequence
abbrev pub Literal : Bytes → Type 0
Literal s = branch_of s ≡ static

module _ {T : Type 0} where
  pub first-hit : {f : Found T} (o o' : Option (Found T)) → o ≡ some f → first o o' ≡ some f
  first-hit o o' e = rw e refl

  pub through-hit :
      {c : Child T} {m : TreeRouter T} {f : Found T} (k : TreeRouter T → Option (Found T))
      → c ≡ present m
      → k m ≡ some f
      → through c k ≡ some f
  through-hit k e h = rw e h

  pub find-walk :
      (ps : List Bytes) (t : TreeRouter T) (names : VariableNames) (v : ℕ) (acc : List (Option ℕ))
      {n : TreeRouter T} {names' : VariableNames}
      → All Literal ps
      → walk ps t names ≡ some (n, names')
      → find t ps v acc
        ≡ some
            (record { item = item n; variables = acc ++ replicate (length ps) none; var_index = v })
  unfolding find visit walk
  find-walk [] t names v acc {n} lit e =
      let same : t ≡ n = cc in
      ap (λ x. some (record { item = item x; variables = acc; var_index = v })) same
      ∙ ap (λ l. some (record { item = item n; variables = l; var_index = v }))
          (sym (append-nil acc))
  find-walk (s ∷ ps) t names v acc {n} (lit, lits) e =
      let (m, c, next) = walk-present s ps t names e in
      first-hit (visit (s ∷ ps) t static v acc) _ (
        through-hit (λ x. each (λ b. visit ps x b v (acc ++ none ∷ [])))
          (sym (child_at static t s lit) ∙ c)
          (find-walk ps m _ v (acc ++ none ∷ []) lits next
            ∙ ap (λ l. some (record { item = item n; variables = l; var_index = v }))
                (append_assoc acc (none ∷ []) (replicate (length ps) none))))

module _ {c : BuilderContexts} {T : Type 0} (a : ApplyContext c T) (d : Default T) {H : Type 0}
    (f : FromHandler c T H) (b : Builder c T) (p : Bytes) (x : H) {w : World}
    (h : HandleRequest w T) where
  -- After a handler is put at a path of literal segments, none of them empty, a router that does not look for
  -- hyperlinks answers a fresh request for that path by this handler, whatever else is in the tree: no variable
  -- and no sequence comes before it, and no segment is kept as a variable.
  pub handle_request-on_Literal :
      (e : Environment w)
      → indexable (segments p) ≡ true
      → find_hyperlinks b.node ≡ false
      → e.route_state ≡ route_state (segments p)
      → All Literal (segments p)
      → (b' : Builder c T) × (on_path a d f b p x ≡ some b')
        × (handle_request h b'.node e
            ≡ some (
                answer h
                  (f.from_handler (c.insert b.context (labels b.variables (segments p))) x)
                  (record e {
                    route_state =
                        state
                          (segments p)
                          (replicate (length (segments p)) none)
                          (length (segments p))
                          0;
                  })))
  unfolding on_path
  handle_request-on_Literal e ok plain fresh lit =
      let made = made_item a d f b p x in
      let t' = along a d (segments p) b.context b.variables b.node made in
      let (n, walked) = walk-along a d b.context made (segments p) b.variables b.node in
      let (r, route_eq, found) =
        handle_request-find h t' e (segments p)
          (find_hyperlinks-along a d f b p x (segments p) b.variables b.node ∙ plain) fresh in
      (
        record b { node = t' },
        if_true none ok,
        found
            ∙ ap (λ o. some (found_answer h e (segments p) r o))
                (find-walk (segments p) t' b.variables 0 [] lit walked)
            ∙ ap
                (λ i. some (
                  answer h i (record e {
                    route_state =
                        state (segments p) (replicate (length (segments p)) none)
                          (length (segments p)) 0;
                  })))
                (item-set_item _ n),
      )
