-- ===== src/Base/TreeMaps.antt =====
-- `BTreeMap` with numbers for keys, as a list of entries in ascending order.
use Prim.Native.Nat.{ℕ, compare, lt, eq, gt, ◌<◌, ◌≤◌, ◌+◌}
use mathlib.Core.Path.{◌≡◌, refl}
use mathlib.Core.List.{List, [], ◌∷◌}
use mathlib.Core.Option.{Option, none, some}
use native.Mathlib.Omega.{arith}
use rustful.Base.Tests.{◌==◌, if◌then◌else◌}

abbrev pub BTreeMap {ℓ} : Type ℓ → Type ℓ
BTreeMap V = List (ℕ × V)

module _ {ℓ} {V : Type ℓ} where
  -- `map.get(&k)`
  unfoldable pub tree_get : BTreeMap V → ℕ → Option V
  tree_get [] k = none
  tree_get ((j, v) ∷ m) k = if j == k then some v else tree_get m k

  -- `map.insert(k, v)`
  unfoldable pub tree_insert : BTreeMap V → ℕ → V → BTreeMap V
  tree_insert [] k v = (k, v) ∷ []
  tree_insert ((j, w) ∷ m) k v = elim (compare k j) [
    | lt ↦ (k, v) ∷ (j, w) ∷ m
    | eq ↦ (j, v) ∷ m
    | gt ↦ (j, w) ∷ tree_insert m k v
  ]

  -- `map.remove(&k)`
  unfoldable pub tree_remove : BTreeMap V → ℕ → BTreeMap V
  tree_remove [] k = []
  tree_remove ((j, v) ∷ m) k = if j == k then m else (j, v) ∷ tree_remove m k

  -- `map.keys().next_back()`
  unfoldable pub last_key : BTreeMap V → Option ℕ
  last_key [] = none
  last_key ((j, v) ∷ []) = some j
  last_key ((j, v) ∷ e ∷ m) = last_key (e ∷ m)

  -- keys ascend from `lo` and stay below `hi`
  abbrev pub Ascends : ℕ → ℕ → BTreeMap V → Type 0
  Ascends lo hi [] = lo ≤ hi
  Ascends lo hi ((j, v) ∷ m) = (lo ≤ j) × Ascends (j + 1) hi m

  pub Ascends-le : (lo hi : ℕ) (m : BTreeMap V) → Ascends lo hi m → lo ≤ hi
  Ascends-le lo hi [] h = h
  Ascends-le lo hi ((j, v) ∷ m) (h, a) = omega (arith, Ascends-le (j + 1) hi m a)

  pub Ascends-lower :
      (lo lo' hi : ℕ) (m : BTreeMap V) → lo' ≤ lo → Ascends lo hi m → Ascends lo' hi m
  Ascends-lower lo lo' hi [] h a = omega arith
  Ascends-lower lo lo' hi ((j, v) ∷ m) h (k, a) = (omega arith, a)

  pub Ascends-upper :
      (lo hi hi' : ℕ) (m : BTreeMap V) → hi ≤ hi' → Ascends lo hi m → Ascends lo hi' m
  Ascends-upper lo hi hi' [] h a = omega arith
  Ascends-upper lo hi hi' ((j, v) ∷ m) h (k, a) = (k, Ascends-upper (j + 1) hi hi' m h a)

  -- no entry below the first key
  pub tree_get-below :
      (lo hi k : ℕ) (m : BTreeMap V) → Ascends lo hi m → k < lo → tree_get m k ≡ none
  unfolding tree_get
  tree_get-below lo hi k [] a h = refl
  tree_get-below lo hi k ((j, v) ∷ m) (l, a) h = ground (arith, tree_get-below (j + 1) hi k m a)

  pub tree_get-above :
      (lo hi k : ℕ) (m : BTreeMap V) → Ascends lo hi m → hi ≤ k → tree_get m k ≡ none
  unfolding tree_get
  tree_get-above lo hi k [] a h = refl
  tree_get-above lo hi k ((j, v) ∷ m) (l, a) h =
      ground (arith, Ascends-le (j + 1) hi m a, tree_get-above (j + 1) hi k m a)

  pub tree_get-insert :
      (m : BTreeMap V) (k i : ℕ) (v : V)
      → tree_get (tree_insert m k v) i ≡ (if k == i then some v else tree_get m i)
  unfolding tree_get tree_insert
  tree_get-insert [] k i v = refl
  tree_get-insert ((j, w) ∷ m) k i v = ground (arith, tree_get-insert m k i v)

  pub tree_get-remove :
      (lo hi : ℕ) (m : BTreeMap V) (k i : ℕ)
      → Ascends lo hi m
      → tree_get (tree_remove m k) i ≡ (if k == i then none else tree_get m i)
  unfolding tree_get tree_remove
  tree_get-remove lo hi [] k i a = ground arith
  tree_get-remove lo hi ((j, w) ∷ m) k i (l, a) =
      ground (arith, tree_get-remove (j + 1) hi m k i a, tree_get-below (j + 1) hi i m a)

  pub tree_insert-Ascends :
      (lo hi : ℕ) (m : BTreeMap V) (k : ℕ) (v : V)
      → Ascends lo hi m
      → lo ≤ k
      → k < hi
      → Ascends lo hi (tree_insert m k v)
  unfolding tree_insert
  tree_insert-Ascends lo hi [] k v a l h = omega arith
  tree_insert-Ascends lo hi ((j, w) ∷ m) k v (b, a) l h =
      ground (arith, tree_insert-Ascends (j + 1) hi m k v a)

  pub tree_remove-Ascends :
      (lo hi : ℕ) (m : BTreeMap V) (k : ℕ) → Ascends lo hi m → Ascends lo hi (tree_remove m k)
  unfolding tree_remove
  tree_remove-Ascends lo hi [] k a = a
  tree_remove-Ascends lo hi ((j, w) ∷ m) k (b, a) =
      ground (arith, Ascends-lower (j + 1) lo hi m, tree_remove-Ascends (j + 1) hi m k a)

  -- an entry behind all others is the last one
  pub last_key-insert :
      (lo k : ℕ) (m : BTreeMap V) (v : V) → Ascends lo k m → last_key (tree_insert m k v) ≡ some k
  unfolding last_key tree_insert
  last_key-insert lo k [] v a = refl
  last_key-insert lo k ((j, w) ∷ []) v (b, a) = ground arith
  last_key-insert lo k ((j, w) ∷ (i, u) ∷ m) v (b, (c, a)) =
      ground (arith, Ascends-le (i + 1) k m a, last_key-insert (j + 1) k ((i, u) ∷ m) v)
