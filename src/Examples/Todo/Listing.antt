-- ===== src/Examples/Todo/Listing.antt =====
-- examples/todo.rs: all items of a table, in the order of their ids.
use rustful.Base.{
  ℕ, zero, suc, ◌+◌, ◌≤◌, ◌<◌, ◌≡◌, refl, sym, ap, ◌∙◌, Option, none, some, [], ◌∷◌, BTreeMap,
  tree_get, Ascends, Ascends-le, Ascends-lower, Ascends-upper, tree_get-below, Bool-cases, ◌==◌,
  inl, inr, ◌⊎◌, arith,
}
use rustful.Examples.Todo.{Todo}
use rustful.Examples.Todo.Views.{listed, entry}

get_nothing : (k : ℕ) → tree_get {V = Todo} [] k ≡ none
unfolding tree_get
get_nothing k = refl

get_head : (j : ℕ) (v : Todo) (m : BTreeMap Todo) → tree_get ((j, v) ∷ m) j ≡ some v
unfolding tree_get
get_head j v m = ground arith

get_tail :
    (j id : ℕ) (v : Todo) (m : BTreeMap Todo) → j < id → tree_get ((j, v) ∷ m) id ≡ tree_get m id
unfolding tree_get
get_tail j id v m h = ground arith

le_cases : (a b : ℕ) → a ≤ b → (a ≡ b) ⊎ (a < b)
le_cases a b h = elim (Bool-cases (a == b)) [
  | inl e ↦ inl (ground arith)
  | inr e ↦ inr (ground arith)
]

module _ (at : ℕ → Option Todo) where
  -- A map is the listing of what it says of each key from `lo` on.
  pub listed_lem :
      (c lo : ℕ) (m : BTreeMap Todo)
      → Ascends lo (lo + c) m
      → ((id : ℕ) → lo ≤ id → tree_get m id ≡ at id)
      → m ≡ listed lo c at
  listed_lem zero lo [] a h = refl
  listed_lem zero lo ((j, v) ∷ m) (l, a) h = absurd (omega (arith, Ascends-le (j + 1) (lo + 0) m a))
  listed_lem (suc c) lo [] a h =
      listed_lem c (lo + 1) [] (omega arith) (λ id k. h id (omega arith))
      ∙ ap (λ o. entry lo o (listed (lo + 1) c at)) (sym (get_nothing lo) ∙ h lo (omega arith))
  listed_lem (suc c) lo ((j, v) ∷ m) (l, a) h = elim (le_cases lo j l) [
    | inl e ↦
        ap (λ k. (k, v) ∷ m) (sym e)
        ∙ ap (λ rest. (lo, v) ∷ rest)
            (listed_lem c (lo + 1) m
              (Ascends-lower (j + 1) (lo + 1) (lo + 1 + c) m (omega arith) (ends (j + 1) m a))
              (λ id k. sym (get_tail j id v m (omega arith)) ∙ h id (omega arith)))
        ∙ ap (λ o. entry lo o (listed (lo + 1) c at))
            (sym (ap (λ k. tree_get ((j, v) ∷ m) k) e ∙ get_head j v m) ∙ h lo (omega arith))
    | inr k ↦
        listed_lem c (lo + 1) ((j, v) ∷ m) (omega arith, ends (j + 1) m a)
          (λ id q. h id (omega arith))
        ∙ ap (λ o. entry lo o (listed (lo + 1) c at))
            (sym (tree_get-below j (lo + suc c) lo ((j, v) ∷ m) (omega arith, a) k)
              ∙ h lo (omega arith))
  ]
    where
      ends : (b : ℕ) (m : BTreeMap Todo) → Ascends b (lo + suc c) m → Ascends b (lo + 1 + c) m
      ends b m a = Ascends-upper b (lo + suc c) (lo + 1 + c) m (omega arith) a
