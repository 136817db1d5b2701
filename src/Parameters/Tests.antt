-- ===== src/Parameters/Tests.antt =====
-- Parameters with two keys.
use rustful.Base.{
  ℕ, ◌≡◌, refl, Result, ok, err, none, List, [], ◌∷◌, Bytes, ℕ_discrete, get as entry_at,
}
use rustful.Text.{MaybeUtf8, utf8}
use rustful.Parameters.{FromStr, new, parse, get_raw}
use rustful.Parameters.Views.{
  Call, look_up, has, take_away, put_in, put_all, Viewed, Shows, calls, abstract_calls, calls-Shows,
}

abbrev a : Bytes
a = b'a' ∷ []

abbrev b : Bytes
b = b'b' ∷ []

abbrev one : MaybeUtf8
one = utf8 (b'1' ∷ [])

abbrev script : List Call
script =
    put_in a one ∷ put_all ((b, one) ∷ (b, utf8 []) ∷ []) ∷ take_away a ∷ look_up b ∷ has a ∷ []

abbrev nothing_there : Viewed
nothing_there key = none

new-Shows : Shows new nothing_there
unfolding get_raw entry_at
new-Shows = record { unique = tt; shown = λ key. refl }

calls-Shows_example :
    ((calls script new).0 ≡ (abstract_calls script nothing_there).0)
    × Shows (calls script new).1 (abstract_calls script nothing_there).1
calls-Shows_example = calls-Shows script new nothing_there new-Shows

-- texts of one digit
abbrev digit : Bytes → Result ℕ (Unit {0})
digit (c ∷ []) = ok c
digit s = err tt

abbrev digits : FromStr ℕ (Unit {0})
digits = record { from_str = digit }

parsed : parse digits (λ s. s) ((a, one) ∷ []) a ≡ ok b'1'
unfolding parse ℕ_discrete entry_at
parsed = refl
