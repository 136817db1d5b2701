-- ===== src/Tree/Search.antt =====
-- src/handler/tree_router.rs: the search as a recursive function, without stack, snapshots and shared
-- variables. The children relate the loop to it.
pub mod Position
pub mod Loop
pub mod Reach
pub mod Gather
pub mod Plain
use rustful.Base.{ℕ, zero, suc, ◌+◌, Option, none, some, List, [], ◌∷◌, ◌++◌, Bytes}
use rustful.Tree.{
  TreeRouter, Branch, static, variable, wildcard, Child, absent, present, item, static_routes,
  variable_route, wildcard_route, get_route,
}

-- The first handler found: which variable each segment belongs to, and the number of variables.
pub record Found (T : Type 0) : Type 0 where
  pub item : T
  pub variables : List (Option ℕ)
  pub var_index : ℕ

abbrev pub first {ℓ} : {A : Type ℓ} → Option A → Option A → Option A
first (some a) o = some a
first none o = o

module _ {T : Type 0} where
  abbrev pub through {ℓ} : {A : Type ℓ} → Child T → (TreeRouter T → Option A) → Option A
  through absent k = none
  through (present n) k = k n

  -- all branches of a node: static before variable before wildcard
  abbrev pub each : (Branch → Option (Found T)) → Option (Found T)
  each f = first (f static) (first (f variable) (f wildcard))

  -- The search from one branch of a node: the segments to come, the number of variables so far, and
  -- the variables of the segments behind.
  unfoldable pub visit : List Bytes → TreeRouter T → Branch → ℕ → List (Option ℕ) → Option (Found T)
  visit [] t b v acc = some (record { item = item t; variables = acc; var_index = v })
  visit (s ∷ r) t static v acc =
      through (get_route (static_routes t) s) (λ n. each (λ b. visit r n b v (acc ++ none ∷ [])))
  visit (s ∷ r) t variable v acc =
      through (variable_route t) (λ n. each (λ b. visit r n b (v + 1) (acc ++ some v ∷ [])))
  visit (s ∷ r) t wildcard v acc = through (wildcard_route t) (λ n.
      first (each (λ b. visit r n b (v + 1) (acc ++ some v ∷ [])))
        (visit r t wildcard v (acc ++ some v ∷ [])))

  unfoldable pub find : TreeRouter T → List Bytes → ℕ → List (Option ℕ) → Option (Found T)
  unfolding visit
  find t segments v acc = each (λ b. visit segments t b v acc)

-- The rounds of the loop that a frame can take, for the number of segments to come.
unfoldable pub cost : ℕ → Branch → ℕ
cost zero b = 1
cost (suc n) static = suc (cost n static + (cost n variable + cost n wildcard))
cost (suc n) variable = suc (cost n static + (cost n variable + cost n wildcard))
cost (suc n) wildcard =
    suc ((cost n static + (cost n variable + cost n wildcard)) + cost n wildcard)

unfoldable pub cost_all : ℕ → ℕ
unfolding cost
cost_all n = cost n static + (cost n variable + cost n wildcard)
