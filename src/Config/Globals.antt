-- ===== src/Config/Globals.antt =====
-- src/server/config.rs: global data as a map from types to values.
use rustful.Base.{◌≡◌, refl, sym, ◌∙◌, ap, subst, Option, none, some, List, [], ◌∷◌}
use mathlib.Core.Path.{subst_refl}
use mathlib.Core.HLevel.{hedberg}
use rustful.Config.{
  AnyMaps, Global, nothing, one, many, downcast, get, insert, insert_many, insert_all, from_tuple,
}

module _ (a : AnyMaps) where
  downcast_lem : {t : a.TypeId} (p : t ≡ t) (v : a.Value t) → downcast a p v ≡ v
  downcast_lem {t} p v =
      ap (λ (e : t ≡ t). downcast a e v) (hedberg a.id_discrete t t p refl)
      ∙ subst_refl (λ x. a.Value x) v

  -- what a state with one value gives
  get-one : (t : a.TypeId) (v : a.Value t) → get a (one t v) t ≡ some v
  unfolding get
  get-one t v =
      elim (a.id_discrete t t)
        as (λ (d : Dec (t ≡ t)). elim d [ yes p ↦ some (downcast a p v) | no p ↦ none ] ≡ some v) [
          | yes p ↦ ap some (downcast_lem p v)
          | no p ↦ absurd (p refl)
        ]

  get-one_other : (t s : a.TypeId) (v : a.Value t) → ¬ (t ≡ s) → get a (one t v) s ≡ none
  unfolding get
  get-one_other t s v ne =
      elim (a.id_discrete t s)
        as (λ (d : Dec (t ≡ s)). elim d [ yes p ↦ some (downcast a p v) | no p ↦ none ] ≡ none) [
          | yes p ↦ absurd (ne p)
          | no p ↦ refl
        ]

  -- One insertion does to every type what it does in a map.
  record Inserted (g : Global a) (t : a.TypeId) (v : a.Value t) (r : Option (a.Value t) × Global a)
      : Type 0 where
    previous : r.0 ≡ get a g t
    present_now : get a r.1 t ≡ some v
    others : (s : a.TypeId) → ¬ (t ≡ s) → get a r.1 s ≡ get a g s

  insert_many-Inserted :
      (g : Global a) (m : a.Map) (t : a.TypeId) (v : a.Value t)
      → ((s : a.TypeId) → a.map_get m s ≡ get a g s)
      → Inserted g t v (insert_many a m t v)
  unfolding get
  insert_many-Inserted g m t v same = record {
    previous = a.map_insert-old m t v ∙ same t;
    present_now = a.map_get-insert m t v;
    others = λ s ne. a.map_get-insert_other m t s v ne ∙ same s;
  }

  raw_one :
      (id : a.TypeId) (v : a.Value id) (s : a.TypeId)
      → a.map_get (a.raw_insert a.new_map id v) s ≡ get a (one id v) s
  raw_one id v s = elim (a.id_discrete id s) [
    | yes p ↦
        subst (λ x. a.map_get (a.raw_insert a.new_map id v) x ≡ get a (one id v) x) p
          (a.map_get-raw a.new_map id v ∙ sym (get-one id v))
    | no p ↦ a.map_get-raw_other a.new_map id s v p ∙ a.map_get-new s ∙ sym (get-one_other id s v p)
  ]

  get-one_same :
      (t s : a.TypeId) (p : t ≡ s) (v : a.Value t) → some (downcast a p v) ≡ get a (one t v) s
  unfolding get
  get-one_same t s p v =
      elim (a.id_discrete t s)
        as (λ (d : Dec (t ≡ s)).
          some (downcast a p v) ≡ elim d [ yes p' ↦ some (downcast a p' v) | no p' ↦ none ]) [
            | yes p' ↦ ap (λ (e : t ≡ s). some (downcast a e v)) (hedberg a.id_discrete t s p p')
            | no ne ↦ absurd (ne p)
          ]

  insert_one :
      (t s : a.TypeId) (v : a.Value t) (v' : a.Value s) (d : Dec (t ≡ s))
      → Inserted (one t v) s v' (elim d [
        | yes p ↦ (some (downcast a p v), one s v')
        | no p ↦ insert_many a (a.raw_insert a.new_map t v) s v'
      ])
  insert_one t s v v' (yes p) = record {
    previous = get-one_same t s p v;
    present_now = get-one s v';
    others = λ x ne. get-one_other s x v' ne ∙ sym (get-one_other t x v (λ e. ne (sym p ∙ e)));
  }
  insert_one t s v v' (no p) =
      insert_many-Inserted (one t v) (a.raw_insert a.new_map t v) s v' (raw_one t v)

  insert-Inserted : (g : Global a) (t : a.TypeId) (v : a.Value t) → Inserted g t v (insert a g t v)
  unfolding insert get
  insert-Inserted nothing t v = record {
    previous = refl;
    present_now = get-one t v;
    others = λ s ne. get-one_other t s v ne;
  }
  insert-Inserted (one id w) t v = insert_one id t w v (a.id_discrete id t)
  insert-Inserted (many m) t v = insert_many-Inserted (many m) m t v (λ s. refl)

  -- In all three forms of the global data, `insert` returns the previous value of the same type, `get` gives
  -- the new one afterwards, and the values of all other types stay.
  pub get-insert :
      (g : Global a) (t : a.TypeId) (v : a.Value t)
      → ((insert a g t v).0 ≡ get a g t)
        × (get a (insert a g t v).1 t ≡ some v)
        × ((s : a.TypeId) → ¬ (t ≡ s) → get a (insert a g t v).1 s ≡ get a g s)
  get-insert g t v = let i = insert-Inserted g t v in (i.previous, i.present_now, i.others)

  -- the last value of the type in a tuple, or else `o`
  abbrev pub given :
      {s t : a.TypeId} → Dec (s ≡ t) → a.Value s → Option (a.Value t) → Option (a.Value t)
  given (yes p) v o = some (downcast a p v)
  given (no p) v o = o

  abbrev pub last_given :
      (t : a.TypeId) → List ((s : a.TypeId) × a.Value s) → Option (a.Value t) → Option (a.Value t)
  last_given t [] o = o
  last_given t ((s, v) ∷ tuple) o = last_given t tuple (given (a.id_discrete s t) v o)

  map_get-given :
      (m : a.Map) (s t : a.TypeId) (v : a.Value s) (d : Dec (s ≡ t))
      → a.map_get (a.map_insert m s v).1 t ≡ given d v (a.map_get m t)
  map_get-given m s t v (yes p) =
      subst (λ x. a.map_get (a.map_insert m s v).1 x ≡ get a (one s v) x) p
        (a.map_get-insert m s v ∙ sym (get-one s v))
      ∙ sym (get-one_same s t p v)
  map_get-given m s t v (no p) = a.map_get-insert_other m s t v p

  map_get-insert_all :
      (tuple : List ((s : a.TypeId) × a.Value s)) (m : a.Map) (t : a.TypeId)
      → a.map_get (insert_all a m tuple) t ≡ last_given t tuple (a.map_get m t)
  map_get-insert_all [] m t = refl
  map_get-insert_all ((s, v) ∷ tuple) m t =
      map_get-insert_all tuple (a.map_insert m s v).1 t
      ∙ ap (λ o. last_given t tuple o) (map_get-given m s t v (a.id_discrete s t))

  get-one-given :
      (s t : a.TypeId) (v : a.Value s) → get a (one s v) t ≡ given (a.id_discrete s t) v none
  unfolding get
  get-one-given s t v =
      elim (a.id_discrete s t)
        as (λ (d : Dec (s ≡ t)).
          elim d [ yes p ↦ some (downcast a p v) | no p ↦ none ] ≡ given d v none) [
            | yes p ↦ refl
            | no p ↦ refl
          ]

  -- Global data from a tuple of any length holds for each type the last value of that type in the tuple, and
  -- nothing for a type that is not in the tuple.
  pub get-from_tuple :
      (tuple : List ((s : a.TypeId) × a.Value s)) (t : a.TypeId)
      → get a (from_tuple a tuple) t ≡ last_given t tuple none
  get-from_tuple [] t = unfold from_tuple in unfold get in refl
  get-from_tuple ((s, v) ∷ []) t = unfold from_tuple in get-one-given s t v
  get-from_tuple (first ∷ second ∷ tuple) t =
      unfold from_tuple in
      unfold get in
      (map_get-insert_all (first ∷ second ∷ tuple) a.new_map t
        ∙ ap (λ o. last_given t (first ∷ second ∷ tuple) o) (a.map_get-new t))
