-- ===== src/Parameters.antt =====
-- src/context/parameters.rs: a map of named texts with conversions of its values. A key is its bytes, by
-- which the map hashes and compares.
pub mod Views
pub mod Parsing
mod Tests
use rustful.Base.{
  Result, ok, err, Bool, true, false, Option, none, some, List, [], ◌∷◌, Bytes, bytes_discrete,
  is_none, not,
}
use rustful.Base.{get as entry_at, insert as put, remove as take_out}
use rustful.Text.{MaybeUtf8, as_bytes, as_utf8_lossy}
use rustful.Http.{Parameters}

-- `FromStr` of a type, on the bytes of a text, and `String::from_utf8_lossy`
pub record FromStr (T E : Type 0) : Type 0 where
  pub from_str : Bytes → Result T E

abbrev pub new : Parameters
new = []

unfoldable pub get_raw : Parameters → Bytes → Option MaybeUtf8
get_raw p key = entry_at bytes_discrete p key

abbrev pub lossy : (Bytes → Bytes) → Option MaybeUtf8 → Option Bytes
lossy from_utf8_lossy none = none
lossy from_utf8_lossy (some v) = some (as_utf8_lossy from_utf8_lossy v)

unfoldable pub get : (Bytes → Bytes) → Parameters → Bytes → Option Bytes
unfolding as_utf8_lossy
get from_utf8_lossy p key = lossy from_utf8_lossy (entry_at bytes_discrete p key)

-- `get_mut`: what the caller does with the value, if there is one, is `k`
unfoldable pub update_at :
    Parameters → Option MaybeUtf8 → Bytes → (MaybeUtf8 → MaybeUtf8) → Parameters
update_at p none key k = p
update_at p (some v) key k = put bytes_discrete p key (k v)

unfoldable pub get_mut : Parameters → Bytes → (MaybeUtf8 → MaybeUtf8) → Parameters
unfolding update_at
get_mut p key k = update_at p (entry_at bytes_discrete p key) key k

unfoldable pub contains_key : Parameters → Bytes → Bool
contains_key p key = not (is_none (entry_at bytes_discrete p key))

-- the previous value and the map
unfoldable pub insert : Parameters → Bytes → MaybeUtf8 → Option MaybeUtf8 × Parameters
insert p key value = (entry_at bytes_discrete p key, put bytes_discrete p key value)

unfoldable pub remove : Parameters → Bytes → Option MaybeUtf8 × Parameters
remove p key = (entry_at bytes_discrete p key, take_out bytes_discrete p key)

unfoldable pub extend : Parameters → List (Bytes × MaybeUtf8) → Parameters
extend p [] = p
extend p ((key, value) ∷ entries) = extend (put bytes_discrete p key value) entries

unfoldable pub from_iter : List (Bytes × MaybeUtf8) → Parameters
unfolding extend
from_iter entries = extend new entries

module _ {T E : Type 0} where
  abbrev pub map_err : {F : Type 0} → (E → F) → Result T E → Result T F
  map_err f (ok t) = ok t
  map_err f (err e) = err (f e)

  abbrev pub unwrap_or : Result T E → T → T
  unwrap_or (ok t) or = t
  unwrap_or (err e) or = or

  abbrev pub unwrap_or_else : Result T E → (E → T) → T
  unwrap_or_else (ok t) or_else = t
  unwrap_or_else (err e) or_else = or_else e

module _ {T E : Type 0} (s : FromStr T E) (from_utf8_lossy : Bytes → Bytes) where
  abbrev pub parse_value : Option MaybeUtf8 → Result T (Option E)
  parse_value none = err none
  parse_value (some v) = map_err some (s.from_str (as_utf8_lossy from_utf8_lossy v))

  unfoldable pub parse : Parameters → Bytes → Result T (Option E)
  unfolding as_utf8_lossy
  parse p key = parse_value (entry_at bytes_discrete p key)

  unfoldable pub parse_or : Parameters → Bytes → T → T
  unfolding parse
  parse_or p key or = unwrap_or (parse p key) or

  unfoldable pub parse_or_else : Parameters → Bytes → (Option E → T) → T
  unfolding parse
  parse_or_else p key or_else = unwrap_or_else (parse p key) or_else
