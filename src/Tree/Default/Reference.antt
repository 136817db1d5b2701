-- ===== src/Tree/Default/Reference.antt =====
-- src/handler/tree_router.rs and src/handler/method_router.rs: what a list of routes says of a path and a method.
use rustful.Base.{
  ◌≡◌, refl, ◌∙◌, ap, Bool, true, false, ◌||◌, if◌then◌else◌, Option, none, some, List, [], ◌∷◌,
  All, Bytes, ite, ◌==◌,
}
use rustful.Http.{World}
use rustful.Handler.{VariableNames}
use rustful.Route.{segments}
use rustful.Tree.{static, variable, wildcard}
use rustful.Tree.Search.{first}
use rustful.Tree.Build.{indexable, branch_of, push_label}
use rustful.Tree.Build.Paths.{labels}
use rustful.Tree.Build.Literal.{Literal}
use rustful.Tree.Build.Tables.{Meeting, at_end, on_way, elsewhere, meeting}

-- The reference: what a list of routes says of a path.
abbrev pub leads : Meeting → Bool
leads at_end = true
leads on_way = true
leads elsewhere = false

abbrev pub at_its_end {ℓ} : {A : Type ℓ} → Meeting → Option A → Option A
at_its_end at_end o = o
at_its_end on_way o = none
at_its_end elsewhere o = none

module _ (w : World) {H : Type 0} where
  -- the handler of the last route with this path and method
  unfoldable pub chosen : List (w.Method × Bytes × H) → List Bytes → w.Method → Option H
  unfolding meeting
  chosen [] qs m = none
  chosen ((method, p, x) ∷ routes) qs m =
      first (chosen routes qs m)
        (at_its_end (meeting (segments p) qs) (ite (w.method_discrete method m) (some x) none))

  -- some route has this path or goes on from it
  unfoldable pub led : List (w.Method × Bytes × H) → List Bytes → Bool
  unfolding meeting
  led [] qs = false
  led ((method, p, x) ∷ routes) qs = leads (meeting (segments p) qs) || led routes qs

  -- and the root is always there
  unfoldable pub reached : List (w.Method × Bytes × H) → List Bytes → Bool
  unfolding led
  reached routes [] = true
  reached routes (q ∷ qs) = led routes (q ∷ qs)

  -- a route of segments that are neither empty nor variables
  abbrev pub IsLiteral : w.Method × Bytes × H → Type 0
  IsLiteral (method, p, x) = (indexable (segments p) ≡ true) × All Literal (segments p)

unlabelled :
    {A : Type 0} (star colon : Bool) (x y : A)
    → (if star then wildcard else if colon then variable else static) ≡ static
    → (if colon || star then x else y) ≡ y
unlabelled true colon x y e = cc
unlabelled false true x y e = cc
unlabelled false false x y e = refl

push_label-Literal : (names : VariableNames) (s : Bytes) → Literal s → push_label names s ≡ names
unfolding push_label branch_of
push_label-Literal names [] l = refl
push_label-Literal names (b ∷ s) l = unlabelled (b == b'*') (b == b':') _ names l

pub labels-Literal :
    (names : VariableNames) (ss : List Bytes) → All Literal ss → labels names ss ≡ names
labels-Literal names [] lit = refl
labels-Literal names (s ∷ ss) (l, lit) =
    ap (λ n. labels n ss) (push_label-Literal names s l) ∙ labels-Literal names ss lit

module _ {V H : Type 0} (v : H → V) where
  abbrev pub joined : Option (Option V) → Option V
  joined none = none
  joined (some o) = o

  abbrev pub as_value : Option H → Option V
  as_value none = none
  as_value (some x) = some (v x)

  -- what a route changes at a path
  abbrev pub step : Meeting → Option H → Option (Option V) → Option (Option V)
  step at_end o old = some (first (as_value o) (joined old))
  step on_way o old = some (joined old)
  step elsewhere o old = old

  -- what all routes leave
  abbrev pub result : Option H → Bool → Option (Option V) → Option (Option V)
  result (some x) b old = some (some (v x))
  result none true old = some (joined old)
  result none false old = old

  pub result-step :
      (m : Meeting) (later now : Option H) (b : Bool) (old : Option (Option V))
      → result later b (step m now old) ≡ result (first later (at_its_end m now)) (leads m || b) old
  result-step m (some x) now b old = refl
  result-step at_end none none true old = refl
  result-step at_end none none false old = refl
  result-step at_end none (some x) true old = refl
  result-step at_end none (some x) false old = refl
  result-step on_way none now true old = refl
  result-step on_way none now false old = refl
  result-step elsewhere none now true old = refl
  result-step elsewhere none now false old = refl
