-- ===== src/Route/Tests.antt =====
-- Paths and variables at concrete values.
use rustful.Base.{◌≡◌, ℕ, refl, true, [], ◌∷◌, ◌++◌, Bytes, All, List}
use rustful.Text.{MaybeUtf8, utf8, push_bytes, push_char}
use rustful.Text.Utf8.{is_valid, encode_char}
use rustful.Route.{segments, name_at, variable_pairs}
use rustful.Route.Segments.{join, IsSegment, optional_slash, segments-join}

abbrev a_b : List Bytes
a_b = (b'a' ∷ []) ∷ (b'b' ∷ b'c' ∷ []) ∷ []

-- "/a/bc/"
abbrev path_a_b : Bytes
path_a_b = b'/' ∷ b'a' ∷ b'/' ∷ b'b' ∷ b'c' ∷ b'/' ∷ []

a_b-IsSegment : All IsSegment a_b
a_b-IsSegment = (((λ e. cc), (refl, tt)), (((λ e. cc), (refl, (refl, tt))), tt))

segments-join_example : segments (optional_slash true ++ join a_b ++ optional_slash true) ≡ a_b
segments-join_example = segments-join true true a_b a_b-IsSegment

segments-a_b : segments path_a_b ≡ a_b
unfolding segments
segments-a_b = refl

-- two segments for the first variable, one for the second, which has no name
abbrev values : List (ℕ × Bytes)
values = (0, b'a' ∷ []) ∷ (0, b'b' ∷ []) ∷ (1, b'c' ∷ []) ∷ []

abbrev names : List MaybeUtf8
names = utf8 (b'x' ∷ []) ∷ utf8 [] ∷ []

pairs_of_values :
    variable_pairs names values ≡ (utf8 (b'x' ∷ []), utf8 (b'a' ∷ b'/' ∷ b'b' ∷ [])) ∷ []
unfolding variable_pairs name_at push_bytes is_valid push_char encode_char
pairs_of_values = refl
