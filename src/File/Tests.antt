-- ===== src/File/Tests.antt =====
-- Paths and extensions.
use rustful.Base.{ℕ_discrete, ◌≡◌, refl, List, [], ◌∷◌, Bytes}
use rustful.File.{normal, parent_dir, root_dir, cur_dir, ok, err, check_path, components}
use rustful.File.Confined.{Below, follow, check_path-Below}

-- "./a//b/."
abbrev a_b : Bytes
a_b = b'.' ∷ b'/' ∷ b'a' ∷ b'/' ∷ b'/' ∷ b'b' ∷ b'/' ∷ b'.' ∷ []

dot_components : components a_b ≡ cur_dir ∷ normal (b'a' ∷ []) ∷ normal (b'b' ∷ []) ∷ []
unfolding components ℕ_discrete
dot_components = refl

-- "a/../b"
a_parent_b : check_path (b'a' ∷ b'/' ∷ b'.' ∷ b'.' ∷ b'/' ∷ b'b' ∷ []) ≡ err parent_dir
unfolding check_path ℕ_discrete
a_parent_b = refl

root : check_path (b'/' ∷ []) ≡ err root_dir
unfolding check_path ℕ_discrete
root = refl

-- "a...b" has no component for the parent
dots : check_path (b'a' ∷ b'.' ∷ b'.' ∷ []) ≡ ok
unfolding check_path ℕ_discrete
dots = refl

abbrev www : List Bytes
www = (b'w' ∷ []) ∷ []

check_path-Below_example : Below www (follow www (cur_dir ∷ normal (b'a' ∷ []) ∷ []))
unfolding check_path ℕ_discrete
check_path-Below_example =
    check_path-Below a_b www (cur_dir ∷ normal (b'a' ∷ []) ∷ []) (normal (b'b' ∷ []) ∷ []) refl refl

abbrev a_up_b : Bytes
a_up_b = b'a' ∷ b'/' ∷ b'.' ∷ b'.' ∷ b'/' ∷ b'b' ∷ []
