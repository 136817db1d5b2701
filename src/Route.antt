-- ===== src/Route.antt =====
-- src/handler/routing.rs: paths cut into segments, and the state of a routing run.
pub mod Segments
pub mod Prefixed
pub mod Variables
pub mod Plain
mod Tests
use rustful.Base.{
  ℕ, zero, suc, ◌+◌, Bool, true, false, Option, none, some, List, [], ◌∷◌, ◌++◌, Bytes,
  bytes_discrete, length, get_elem?, set, replicate, HashMap, insert, ◌==◌, if◌then◌else◌,
}
use rustful.Text.{MaybeUtf8, as_bytes, from_vec, push_char, push_bytes}

abbrev pub slash : ℕ
slash = b'/'

abbrev pub is_slash : ℕ → Bool
is_slash c = c == slash

-- `s.split(IS_SLASH)`: one piece more than there are slashes
abbrev onto_first : ℕ → List Bytes → List Bytes
onto_first b [] = (b ∷ []) ∷ []
onto_first b (p ∷ ps) = (b ∷ p) ∷ ps

unfoldable pub split : Bytes → List Bytes
split [] = [] ∷ []
split (b ∷ s) = let rest = split s in if is_slash b then [] ∷ rest else onto_first b rest

unfoldable pub strip_front : Bytes → Bytes
strip_front [] = []
strip_front (b ∷ s) = if is_slash b then s else b ∷ s

unfoldable pub strip_back : Bytes → Bytes
strip_back [] = []
strip_back (b ∷ []) = if is_slash b then [] else b ∷ []
strip_back (b ∷ c ∷ s) = b ∷ strip_back (c ∷ s)

-- `RouteIter`; the split is held as the pieces that it will yield
pub data RouteIter : Type 0 where
  root : RouteIter
  path : List Bytes → RouteIter

unfoldable pub route_next : RouteIter → Option Bytes × RouteIter
route_next root = (none, root)
route_next (path []) = (none, path [])
route_next (path (p ∷ ps)) = (some p, path ps)

-- `segments` of `[u8]` and of `str`, as the iterator and as what it yields
abbrev iter_of : Bytes → RouteIter
iter_of [] = root
iter_of (b ∷ s) = path (split (b ∷ s))

unfoldable pub segments_iter : Bytes → RouteIter
unfolding split strip_front strip_back
segments_iter s = iter_of (strip_back (strip_front s))

abbrev collect : RouteIter → List Bytes
collect root = []
collect (path ps) = ps

unfoldable pub segments : Bytes → List Bytes
unfolding segments_iter
segments s = collect (segments_iter s)

-- `segments` of a collection of routes, by `flat_map`
unfoldable pub segments_all : List Bytes → List Bytes
unfolding segments
segments_all [] = []
segments_all (s ∷ ss) = segments s ++ segments_all ss

pub record RouteState : Type 0 where
  pub route : List Bytes
  pub variables : List (Option ℕ)
  pub index : ℕ
  pub var_index : ℕ

-- `From<&R> for RouteState`, on the collected segments
unfoldable pub route_state : List Bytes → RouteState
route_state route = record {
  route = route;
  variables = replicate (length route) none;
  index = 0;
  var_index = 0;
}

unfoldable pub get_segment : RouteState → Option Bytes
get_segment r = get_elem? r.route r.index

unfoldable pub skip : RouteState → RouteState
skip r = record r { variables = set r.variables r.index none; index = r.index + 1 }

unfoldable pub keep : RouteState → RouteState
keep r = record r {
  variables = set r.variables r.index (some r.var_index);
  index = r.index + 1;
  var_index = r.var_index + 1;
}

unfoldable pub fuse : RouteState → RouteState
fuse r = record r { variables = set r.variables r.index (some r.var_index); index = r.index + 1 }

abbrev pub Snapshot : Type 0
Snapshot = ℕ × ℕ

unfoldable pub snapshot : RouteState → Snapshot
snapshot r = (r.index, r.var_index)

unfoldable pub go_to : RouteState → Snapshot → RouteState
go_to r (index, var_index) = record r { index = index; var_index = var_index }

unfoldable pub is_empty : RouteState → Bool
is_empty r = r.index == length r.route

-- `route.iter().zip(variables.iter()).filter_map(…)`
unfoldable pub kept_values : List Bytes → List (Option ℕ) → List (ℕ × Bytes)
kept_values [] vs = []
kept_values (s ∷ ss) [] = []
kept_values (s ∷ ss) (none ∷ vs) = kept_values ss vs
kept_values (s ∷ ss) (some i ∷ vs) = (i, s) ∷ kept_values ss vs

-- the name of a variable; an unlabelled one has an empty name, and its values are dropped
abbrev labelled : Option MaybeUtf8 → Option MaybeUtf8
labelled none = none
labelled (some n) = elim (as_bytes n) [ [] ↦ none | b ∷ s ↦ some n ]

unfoldable pub name_at : List MaybeUtf8 → ℕ → Option MaybeUtf8
unfolding as_bytes
name_at names i = labelled (get_elem? names i)

-- `VariableIter`: the values to come, and the variable that is being put together
pub record Current : Type 0 where
  pub at : ℕ
  pub name : MaybeUtf8
  pub segment : MaybeUtf8

pub record VariableIter : Type 0 where
  pub iter : List (ℕ × Bytes)
  pub current : Option Current

abbrev finished : Option Current → Option (MaybeUtf8 × MaybeUtf8)
finished none = none
finished (some c) = some (c.name, c.segment)

abbrev fresh : ℕ → MaybeUtf8 → Bytes → Current
fresh i n s = record { at = i; name = n; segment = from_vec s }

abbrev extended : Current → Bytes → Current
extended c s = record c { segment = push_bytes (push_char c.segment slash) s }

abbrev yielded :
    Option (MaybeUtf8 × MaybeUtf8) → List (MaybeUtf8 × MaybeUtf8) → List (MaybeUtf8 × MaybeUtf8)
yielded none rest = []
yielded (some entry) rest = entry ∷ rest

module _ (names : List MaybeUtf8) where
  -- `VariableIter::next`, as a release build runs it: the assertion on the index is not compiled
  iter_next : Option Current → List (ℕ × Bytes) → Option (MaybeUtf8 × MaybeUtf8) × VariableIter
  iter_next current [] = (finished current, record { iter = []; current = none })
  iter_next current ((i, s) ∷ rest) = elim (name_at names i) [
    | none ↦ iter_next current rest
    | some n ↦ elim current [
      | none ↦ iter_next (some (fresh i n s)) rest
      | some c ↦ elim (c.at == i) [
        | true ↦ iter_next (some (extended c s)) rest
        | false ↦ (some (c.name, c.segment), record { iter = rest; current = some (fresh i n s) })
      ]
    ]
  ]

  -- the `for` loop over the iterator; the fuel is one more than the values
  iter_collect : ℕ → VariableIter → List (MaybeUtf8 × MaybeUtf8)
  unfolding iter_next
  iter_collect zero v = []
  iter_collect (suc fuel) v =
      let (item, v') = iter_next v.current v.iter in
      let rest = iter_collect fuel v' in yielded item rest

  unfoldable pub variable_pairs : List (ℕ × Bytes) → List (MaybeUtf8 × MaybeUtf8)
  unfolding iter_collect
  variable_pairs values =
      iter_collect (suc (length values)) (record { iter = values; current = none })

abbrev insert_pairs :
    HashMap Bytes MaybeUtf8 → List (MaybeUtf8 × MaybeUtf8) → HashMap Bytes MaybeUtf8
insert_pairs m [] = m
insert_pairs m ((name, value) ∷ ps) =
    insert_pairs (insert bytes_discrete m (as_bytes name) value) ps

-- `RouteState::variables`; the keys of the map are compared and hashed by their bytes
unfoldable pub variables : RouteState → List MaybeUtf8 → HashMap Bytes MaybeUtf8
unfolding kept_values variable_pairs name_at from_vec push_char push_bytes insert
variables r names = insert_pairs [] (variable_pairs names (kept_values r.route r.variables))
