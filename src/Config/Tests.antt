-- ===== src/Config/Tests.antt =====
-- Global data of two types.
use rustful.Base.{ℕ, ◌≡◌, refl, Bool, true, false, Option, none, some}
use rustful.Config.{AnyMaps, one, get, insert}
use rustful.Config.Globals.{get-insert}

-- the types `ℕ` and `Bool`
abbrev Value : Bool → Type 0
Value true = ℕ
Value false = Bool

bool_discrete : Discrete Bool
bool_discrete true true = yes refl
bool_discrete true false = no (λ e. cc)
bool_discrete false true = no (λ e. cc)
bool_discrete false false = yes refl

abbrev Map : Type 0
Map = Option ℕ × Option Bool

abbrev map_get : Map → (t : Bool) → Option (Value t)
map_get m true = m.0
map_get m false = m.1

abbrev put : Map → (t : Bool) → Value t → Map
put m true v = (some v, m.1)
put m false v = (m.0, some v)

map_get-put : (m : Map) (t : Bool) (v : Value t) → map_get (put m t v) t ≡ some v
map_get-put m true v = refl
map_get-put m false v = refl

map_get-put_other :
    (m : Map) (t s : Bool) (v : Value t) → ¬ (t ≡ s) → map_get (put m t v) s ≡ map_get m s
map_get-put_other m true true v ne = absurd (ne refl)
map_get-put_other m true false v ne = refl
map_get-put_other m false true v ne = refl
map_get-put_other m false false v ne = absurd (ne refl)

map_get-empty : (t : Bool) → map_get (none, none) t ≡ none
map_get-empty true = refl
map_get-empty false = refl

abbrev maps : AnyMaps
maps = record {
  TypeId = Bool;
  id_discrete = bool_discrete;
  Value = Value;
  Map = Map;
  new_map = (none, none);
  map_get = map_get;
  map_insert = λ m t v. (map_get m t, put m t v);
  raw_insert = put;
  map_get-new = map_get-empty;
  map_insert-old = λ m t v. refl;
  map_get-insert = map_get-put;
  map_get-insert_other = map_get-put_other;
  map_get-raw = map_get-put;
  map_get-raw_other = map_get-put_other;
}

-- a second type beside the first
get-insert_example :
    ((insert maps (one true 5) false true).0 ≡ get maps (one true 5) false)
    × (get maps (insert maps (one true 5) false true).1 false ≡ some true)
    × ((s : Bool)
        → ¬ (false ≡ s)
        → get maps (insert maps (one true 5) false true).1 s ≡ get maps (one true 5) s)
get-insert_example = get-insert maps (one true 5) false true
