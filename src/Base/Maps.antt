-- ===== src/Base/Maps.antt =====
-- `HashMap` as an association list without repeated keys. The order of the entries stands for the
-- order of iteration, which the source leaves to the hasher.
use mathlib.Core.Path.{◌≡◌, refl, sym, ◌∙◌, subst}
use mathlib.Core.Logic.{ite, if_pos, if_neg}
use mathlib.Core.List.{List, [], ◌∷◌}
use mathlib.Core.Option.{Option, none, some}
use native.Mathlib.Omega.{arith}

abbrev pub HashMap {ℓ} : Type ℓ → Type ℓ → Type ℓ
HashMap K V = List (K × V)

module _ {ℓ} {V : Type ℓ} where
  abbrev pub combine : (V → V → V) → Option V → Option V → Option V
  combine f (some a) (some b) = some (f a b)
  combine f (some a) none = some a
  combine f none o = o

  combine-some :
      (f : V → V → V) (v : V) (o : Option V)
      → combine f (elim o [ none ↦ some v | some w ↦ some (f w v) ]) none ≡ combine f o (some v)
  combine-some f v none = refl
  combine-some f v (some w) = refl

module _ {ℓ} {K V : Type ℓ} (q : Discrete K) where
  -- `map.get(k)`
  unfoldable pub get : HashMap K V → K → Option V
  get [] k = none
  get ((j, v) ∷ m) k = ite (q j k) (some v) (get m k)

  -- `map.insert(k, v)`: the old key stays, its value is replaced
  unfoldable pub insert : HashMap K V → K → V → HashMap K V
  insert [] k v = (k, v) ∷ []
  insert ((j, w) ∷ m) k v = ite (q j k) ((j, v) ∷ m) ((j, w) ∷ insert m k v)

  -- `map.remove(k)`
  unfoldable pub remove : HashMap K V → K → HashMap K V
  remove [] k = []
  remove ((j, w) ∷ m) k = ite (q j k) m ((j, w) ∷ remove m k)

  pub get-insert :
      (m : HashMap K V) (k j : K) (v : V) → get (insert m k v) j ≡ ite (q k j) (some v) (get m j)
  unfolding get insert
  get-insert [] k j v = ground arith
  get-insert ((i, w) ∷ m) k j v = ground (arith, get-insert m k j v)

  -- No key comes twice.
  abbrev pub IsMap : HashMap K V → Type ℓ
  IsMap [] = Unit
  IsMap ((k, v) ∷ m) = (get m k ≡ none) × IsMap m

  -- `for v in map.values_mut()`
  unfoldable pub map_values : (V → V) → HashMap K V → HashMap K V
  map_values f [] = []
  map_values f ((k, v) ∷ m) = (k, f v) ∷ map_values f m

  -- `match map.entry(k)`: a vacant entry takes the value, an occupied one is changed
  unfoldable pub upsert : HashMap K V → K → V → (V → V) → HashMap K V
  upsert [] k v f = (k, v) ∷ []
  upsert ((j, w) ∷ m) k v f = ite (q j k) ((j, f w) ∷ m) ((j, w) ∷ upsert m k v f)

  -- all entries of the second map into the first, equal keys by `f`
  unfoldable pub merge_with : (V → V → V) → HashMap K V → HashMap K V → HashMap K V
  unfolding upsert
  merge_with f m [] = m
  merge_with f m ((k, v) ∷ n) = merge_with f (upsert m k v (λ w. f w v)) n

  pub get-upsert :
      (m : HashMap K V) (k j : K) (v : V) (f : V → V)
      → get (upsert m k v f) j
        ≡ ite (q k j) (elim (get m j) [ none ↦ some v | some w ↦ some (f w) ]) (get m j)
  unfolding get upsert
  get-upsert [] k j v f = ground arith
  get-upsert ((i, w) ∷ m) k j v f = ground (arith, get-upsert m k j v f)

  pub get-merge_with :
      (f : V → V → V) (m n : HashMap K V) (k : K)
      → IsMap n
      → get (merge_with f m n) k ≡ combine f (get m k) (get n k)
  unfolding merge_with
  get-merge_with f m [] k h = unfold get in ground arith
  get-merge_with f m ((j, v) ∷ n) k (fresh, h) =
      get-merge_with f (upsert m j v (λ w. f w v)) n k h
      ∙ rw (get-upsert m j k v (λ w. f w v)) (
          unfold get in
          elim (q j k) [
            | yes p ↦ rw (if_pos _ p) (
                rw (if_pos _ p)
                  (rw (subst (λ i. get n i ≡ none) p fresh) (combine-some f v (get m k))))
            | no p ↦ rw (if_neg _ p) (rw (if_neg _ p) refl)
          ])

  pub get-remove :
      (m : HashMap K V) (k j : K) → IsMap m → get (remove m k) j ≡ ite (q k j) none (get m j)
  unfolding get remove
  get-remove [] k j h = ground arith
  get-remove ((i, w) ∷ m) k j (fresh, h) = elim (q i k) [
    | yes p ↦ rw (if_pos _ p) (elim (q k j) [
      | yes e ↦ rw (if_pos _ e) (subst (λ x. get m x ≡ none) (p ∙ e) fresh)
      | no e ↦ rw (if_neg _ e) (rw (if_neg (q i j) (λ x. e (sym p ∙ x))) refl)
    ])
    | no p ↦ rw (if_neg _ p) (ground (arith, get-remove m k j h))
  ]

  get-insert_other :
      (m : HashMap K V) (k j : K) (v : V) → ¬ (k ≡ j) → get (insert m k v) j ≡ get m j
  get-insert_other m k j v ne = get-insert m k j v ∙ if_neg (q k j) ne _ _

  get-remove_other :
      (m : HashMap K V) (k j : K) → IsMap m → ¬ (k ≡ j) → get (remove m k) j ≡ get m j
  get-remove_other m k j h ne = get-remove m k j h ∙ if_neg (q k j) ne _ _

  insert-same : (m : HashMap K V) (i k : K) (w v : V) → i ≡ k → insert ((i, w) ∷ m) k v ≡ (i, v) ∷ m
  unfolding insert
  insert-same m i k w v p = if_pos (q i k) p _ _

  insert-other :
      (m : HashMap K V) (i k : K) (w v : V)
      → ¬ (i ≡ k)
      → insert ((i, w) ∷ m) k v ≡ (i, w) ∷ insert m k v
  unfolding insert
  insert-other m i k w v p = if_neg (q i k) p _ _

  remove-same : (m : HashMap K V) (i k : K) (w : V) → i ≡ k → remove ((i, w) ∷ m) k ≡ m
  unfolding remove
  remove-same m i k w p = if_pos (q i k) p _ _

  remove-other :
      (m : HashMap K V) (i k : K) (w : V) → ¬ (i ≡ k) → remove ((i, w) ∷ m) k ≡ (i, w) ∷ remove m k
  unfolding remove
  remove-other m i k w p = if_neg (q i k) p _ _

  pub insert-IsMap : (m : HashMap K V) (k : K) (v : V) → IsMap m → IsMap (insert m k v)
  insert-IsMap [] k v h = unfold insert in (unfold get in refl, tt)
  insert-IsMap ((i, w) ∷ m) k v (fresh, h) = elim (q i k) [
    | yes p ↦ subst (λ l. IsMap l) (sym (insert-same m i k w v p)) (fresh, h)
    | no p ↦
        subst (λ l. IsMap l) (sym (insert-other m i k w v p))
          (get-insert_other m k i v (λ e. p (sym e)) ∙ fresh, insert-IsMap m k v h)
  ]

  pub remove-IsMap : (m : HashMap K V) (k : K) → IsMap m → IsMap (remove m k)
  remove-IsMap [] k h = unfold remove in tt
  remove-IsMap ((i, w) ∷ m) k (fresh, h) = elim (q i k) [
    | yes p ↦ subst (λ l. IsMap l) (sym (remove-same m i k w p)) h
    | no p ↦
        subst (λ l. IsMap l) (sym (remove-other m i k w p))
          (get-remove_other m k i h (λ e. p (sym e)) ∙ fresh, remove-IsMap m k h)
  ]
