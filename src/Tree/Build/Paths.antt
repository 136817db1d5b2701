-- ===== src/Tree/Build/Paths.antt =====
-- src/handler/tree_router.rs: what is at the paths of a tree after the builder's `on_path`.
use rustful.Base.{
  ◌++◌, ◌||◌, ◌==◌, append-nil, append_assoc, ◌≡◌, refl, sym, ◌∙◌, ap, Bool, true, false, Option,
  none, some, List, [], ◌∷◌, Bytes, bytes_discrete, ite, if_pos, if_neg, arith, if◌then◌else◌,
  Bool-cases, inl, inr,
}
use rustful.Route.{segments}
use rustful.Text.{from_vec}
use rustful.Handler.{BuilderContexts, VariableNames, ApplyContext, FromHandler, Default}
use rustful.Tree.{
  TreeRouter, Routes, Child, node, no_routes, route, absent, present, Branch, static, variable,
  wildcard, get_route, item, with_handler,
}
use rustful.Tree.Build.{
  branch_of, insert_at, child, child_of, find_or_insert, update_child, update_route, set_item,
  push_label, indexable, Builder, along, created, on_path, get_path, walk,
}
use rustful.Tree.Build.Merging.{item_at, next_item}

-- Two pattern segments lead to one child: both are variables, both are wildcards, or they are equal.
abbrev same_branch : Branch → Branch → Bytes → Bytes → Bool
same_branch static static s q = ite (bytes_discrete s q) true false
same_branch variable variable s q = true
same_branch wildcard wildcard s q = true
same_branch _ _ s q = false

unfoldable pub same_place : Bytes → Bytes → Bool
unfolding branch_of
same_place s q = same_branch (branch_of s) (branch_of q) s q

-- Two paths of pattern segments do not end at one node.
unfoldable pub apart : List Bytes → List Bytes → Bool
apart [] [] = false
apart [] (q ∷ qs) = true
apart (s ∷ ss) [] = true
apart (s ∷ ss) (q ∷ qs) = if same_place s q then apart ss qs else true

module _ {T : Type 0} where
  -- the node that `find_or_insert` lends out
  abbrev pub lent : Child T → T → TreeRouter T
  lent absent created = with_handler created
  lent (present n) created = n

  pub get_route-update_route :
      (rs : Routes T) (s q : Bytes) (i : T) (k : TreeRouter T → TreeRouter T)
      → get_route (update_route rs s i k) q
        ≡ ite (bytes_discrete s q) (present (k (lent (get_route rs q) i))) (get_route rs q)
  unfolding get_route update_route with_handler
  get_route-update_route no_routes s q i k = refl
  get_route-update_route (route j n rs) s q i k = ground (arith, get_route-update_route rs s q i k)

  update_child_lem :
      (v : Child T) (i : T) (k : TreeRouter T → TreeRouter T)
      → update_child v i k ≡ present (k (lent v i))
  unfolding update_child with_handler
  update_child_lem absent i k = refl
  update_child_lem (present n) i k = refl

  ite-if :
      (s q : Bytes) (x y : Child T)
      → ite (bytes_discrete s q) x y ≡ (if ite (bytes_discrete s q) true false then x else y)
  ite-if s q x y = elim (bytes_discrete s q) [
    | yes p ↦ rw (if_pos _ p) (rw (if_pos _ p) refl)
    | no p ↦ rw (if_neg _ p) (rw (if_neg _ p) refl)
  ]

  child_of-insert_at :
      (b c : Branch) (t : TreeRouter T) (s q : Bytes) (i : T) (k : TreeRouter T → TreeRouter T)
      → child_of c (insert_at b t s i k) q
        ≡ (if same_branch b c s q then present (k (lent (child_of c t q) i)) else child_of c t q)
  child_of-insert_at static static (node _ rs v w f) s q i k =
      get_route-update_route rs s q i k ∙ ite-if s q _ _
  child_of-insert_at static variable (node _ rs v w f) s q i k = refl
  child_of-insert_at static wildcard (node _ rs v w f) s q i k = refl
  child_of-insert_at variable static (node _ rs v w f) s q i k = refl
  child_of-insert_at variable variable (node _ rs v w f) s q i k = update_child_lem v i k
  child_of-insert_at variable wildcard (node _ rs v w f) s q i k = refl
  child_of-insert_at wildcard static (node _ rs v w f) s q i k = refl
  child_of-insert_at wildcard variable (node _ rs v w f) s q i k = refl
  child_of-insert_at wildcard wildcard (node _ rs v w f) s q i k = update_child_lem w i k

  child-find_or_insert :
      (t : TreeRouter T) (s q : Bytes) (i : T) (k : TreeRouter T → TreeRouter T)
      → child (find_or_insert t s i k) q
        ≡ (if same_place s q then present (k (lent (child t q) i)) else child t q)
  unfolding child find_or_insert same_place
  child-find_or_insert t s q i k = child_of-insert_at (branch_of s) (branch_of q) t s q i k

  pub item-find_or_insert :
      (t : TreeRouter T) (s : Bytes) (i : T) (k : TreeRouter T → TreeRouter T)
      → item (find_or_insert t s i k) ≡ item t
  unfolding find_or_insert
  item-find_or_insert t s i k = go (branch_of s) t
    where
      go : (b : Branch) (t : TreeRouter T) → item (insert_at b t s i k) ≡ item t
      go static (node _ rs v w f) = refl
      go variable (node _ rs v w f) = refl
      go wildcard (node _ rs v w f) = refl

  item_at-set_item :
      (i : T) (n : TreeRouter T) (s : Bytes) (q : List Bytes)
      → item_at (set_item i n) (s ∷ q) ≡ item_at n (s ∷ q)
  unfolding item_at child
  item_at-set_item i n s q = ap (λ x. next_item x (λ m. item_at m q)) (go (branch_of s) n)
    where
      go : (b : Branch) (n : TreeRouter T) → child_of b (set_item i n) s ≡ child_of b n s
      go static (node _ rs v w f) = refl
      go variable (node _ rs v w f) = refl
      go wildcard (node _ rs v w f) = refl

  pub item-set_item : (i : T) (n : TreeRouter T) → item (set_item i n) ≡ i
  item-set_item i (node _ rs v w f) = refl

  pub walk-cons :
      (s : Bytes) (ss : List Bytes) (t : TreeRouter T) (names : VariableNames) {n : TreeRouter T}
      → child t s ≡ present n
      → walk (s ∷ ss) t names ≡ walk ss n (push_label names s)
  unfolding walk
  walk-cons s ss t names e = rw (e, walk)

  lent-next :
      (x : Child T) (created : T) (f : TreeRouter T → Option T) {i : T}
      → next_item x f ≡ some i
      → f (lent x created) ≡ some i
  lent-next absent created f e = cc
  lent-next (present n) created f e = e

pub if_true {ℓ} : {A : Type ℓ} {b : Bool} {x : A} (y : A) → b ≡ true → (if b then x else y) ≡ x
if_true y e = rw e

same_branch_self : (b : Branch) (s : Bytes) → same_branch b b s s ≡ true
same_branch_self static s = ground arith
same_branch_self variable s = refl
same_branch_self wildcard s = refl

same_place_self : (s : Bytes) → same_place s s ≡ true
unfolding same_place
same_place_self s = same_branch_self (branch_of s) s

-- the names behind a path of pattern segments
abbrev pub labels : VariableNames → List Bytes → VariableNames
labels names [] = names
labels names (s ∷ ss) = labels (push_label names s) ss

-- The reference: each variable and each wildcard of a pattern has its text behind the sign as its name.
abbrev pub own_name : Branch → Bytes → VariableNames
own_name static s = []
own_name variable [] = []
own_name variable (b ∷ name) = from_vec name ∷ []
own_name wildcard [] = []
own_name wildcard (b ∷ name) = from_vec name ∷ []

unfoldable pub pattern_names : List Bytes → VariableNames
unfolding branch_of
pattern_names [] = []
pattern_names (s ∷ ss) = own_name (branch_of s) s ++ pattern_names ss

push_label-own_name :
    (names : VariableNames) (s : Bytes) → push_label names s ≡ names ++ own_name (branch_of s) s
unfolding push_label branch_of
push_label-own_name names [] = sym (append-nil names)
push_label-own_name names (b ∷ name) = go (b == b'*') (b == b':')
  where
    go :
        (star colon : Bool)
        → (if colon || star then names ++ from_vec name ∷ [] else names)
          ≡ names
            ++ own_name (if star then wildcard else if colon then variable else static) (b ∷ name)
    go true true = refl
    go true false = refl
    go false true = refl
    go false false = sym (append-nil names)

labels-pattern_names :
    (names : VariableNames) (ss : List Bytes) → labels names ss ≡ names ++ pattern_names ss
unfolding pattern_names
labels-pattern_names names [] = sym (append-nil names)
labels-pattern_names names (s ∷ ss) =
    labels-pattern_names (push_label names s) ss
    ∙ ap (λ n. n ++ pattern_names ss) (push_label-own_name names s)
    ∙ append_assoc names (own_name (branch_of s) s) (pattern_names ss)

module _ {c : BuilderContexts} {T : Type 0} (a : ApplyContext c T) (d : Default T) where
  module _ (context : c.BuilderContext) (k : TreeRouter T → VariableNames → TreeRouter T) where
    pub walk-along :
        (ss : List Bytes) (names : VariableNames) (t : TreeRouter T)
        → (n : TreeRouter T) × (walk ss (along a d ss context names t k) names
            ≡ some (k n (labels names ss), labels names ss))
    unfolding walk along
    walk-along [] names t = (t, refl)
    walk-along (s ∷ ss) names t =
        let made = created a d context (push_label names s) in
        let below = λ (n : TreeRouter T). along a d ss context (push_label names s) n k in
        let (n, e) = walk-along ss (push_label names s) (lent (child t s) made) in
        (
          n,
          walk-cons s ss _ names
                (child-find_or_insert t s s made below ∙ if_true _ (same_place_self s))
              ∙ e,
        )

    module _
        (k_keeps : (n : TreeRouter T) (names : VariableNames) (s : Bytes) (q : List Bytes)
          → item_at (k n names) (s ∷ q) ≡ item_at n (s ∷ q)) where
      item_at-along :
          (ss q : List Bytes) (names : VariableNames) (t : TreeRouter T) {x : T}
          → apart ss q ≡ true
          → item_at t q ≡ some x
          → item_at (along a d ss context names t k) q ≡ some x
      unfolding apart along item_at
      item_at-along [] [] names t h e = cc
      item_at-along [] (s ∷ q) names t h e = k_keeps t names s q ∙ e
      item_at-along (s ∷ ss) [] names t h e = ap some (item-find_or_insert t s _ _) ∙ e
      item_at-along (s ∷ ss) (r ∷ q) names t h e = elim (Bool-cases (same_place s r)) [
        | inl same ↦ rw (child-find_or_insert t s r _ _) (
            rw same (
              item_at-along ss q (push_label names s) _ (rw same at h)
                (lent-next (child t r) _ (λ n. item_at n q) e)))
        | inr other ↦ rw (child-find_or_insert t s r _ _) (rw other e)
      ]

  get_path_of_walk :
      (b : Builder c T) (p : Bytes) {n : TreeRouter T} {names : VariableNames}
      → walk (segments p) b.node b.variables ≡ some (n, names)
      → get_path b p ≡ some (record { node = n; variables = names; context = b.context })
  unfolding get_path
  get_path_of_walk b p e = rw (e, get_path)

  built_item : List Bytes → Option (Builder c T) → Option T
  built_item q none = none
  built_item q (some b) = item_at b.node q

  module _ {H : Type 0} (f : FromHandler c T H) (b : Builder c T) (p : Bytes) (h : H) where
    -- If no segment of the path is empty, a handler can be put at the path, and there `get_path` finds
    -- the node with the handler, made with the names of the builder and behind them those of all variables and
    -- wildcards on the path, in order, in its context: the text behind the sign of each.
    pub get_path-on_path :
        indexable (segments p) ≡ true
        → (b' : Builder c T) × (n : TreeRouter T) × (on_path a d f b p h ≡ some b')
          × (get_path b' p
              ≡ some (record {
                node = n;
                variables = b.variables ++ pattern_names (segments p);
                context = b.context;
              }))
          × (item n
              ≡ f.from_handler (c.insert b.context (b.variables ++ pattern_names (segments p))) h)
    unfolding on_path
    get_path-on_path ok =
        let made = λ (n : TreeRouter T) (names : VariableNames).
          set_item (f.from_handler (c.insert b.context names) h) n in
        let (n, e) = walk-along b.context made (segments p) b.variables b.node in
        let same = labels-pattern_names b.variables (segments p) in
        (
          record b { node = along a d (segments p) b.context b.variables b.node made },
          made n (labels b.variables (segments p)),
          if_true none ok,
          get_path_of_walk _ p e
              ∙ ap
                  (λ names. some (record {
                    node = made n (labels b.variables (segments p));
                    variables = names;
                    context = b.context;
                  }))
                  same,
          item-set_item _ n ∙ ap (λ names. f.from_handler (c.insert b.context names) h) same,
        )

    -- Putting a handler at a path leaves the items at all other paths that the tree has as they are.
    pub item_at-on_path :
        (q : List Bytes) {b' : Builder c T} {x : T}
        → on_path a d f b p h ≡ some b'
        → apart (segments p) q ≡ true
        → item_at b.node q ≡ some x
        → item_at b'.node q ≡ some x
    unfolding on_path built_item
    item_at-on_path q {b'} e ap_q at_q = elim (Bool-cases (indexable (segments p))) [
      | inl ok ↦
          sym (ap (built_item q) (rw ok at e))
          ∙ item_at-along b.context _ (λ n names s q. item_at-set_item _ n s q) (segments p) q
              b.variables b.node ap_q at_q
      | inr bad ↦ cc (rw bad at e)
    ]
