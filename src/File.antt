-- ===== src/File.antt =====
-- src/file.rs: checking paths, and MIME types by file extension. Paths are those of Unix, so no path has
-- a prefix; the table of MIME types is made by the build script (MimeTable).
pub mod Confined
mod Tests
use rustful.Base.{
  ℕ, Bool, Option, none, some, List, [], ◌∷◌, Bytes, bytes_discrete, if◌then◌else◌, ite,
}
use rustful.Uri.{split_on}

-- `std::path::Component`
pub data Component : Type 0 where
  prefix normal : Bytes → Component
  root_dir cur_dir parent_dir : Component

-- `Path::components`: a root for a path that starts with a slash, no components for repeated slashes,
-- and none for "." but at the start of a relative path
abbrev pub dot : Bytes
dot = b'.' ∷ []

abbrev pub dot_dot : Bytes
dot_dot = b'.' ∷ b'.' ∷ []

unfoldable pub named_component : Bytes → Component
named_component name = ite (bytes_discrete name dot_dot) parent_dir (normal name)

unfoldable pub later_components : List Bytes → List Component
unfolding named_component
later_components [] = []
later_components ([] ∷ names) = later_components names
later_components ((b ∷ name) ∷ names) =
    let rest = later_components names in
    ite (bytes_discrete (b ∷ name) dot) rest (named_component (b ∷ name) ∷ rest)

unfoldable pub first_components : Bytes → List Bytes → List Component
unfolding later_components
first_components [] [] = []
first_components [] (name ∷ names) = root_dir ∷ later_components (name ∷ names)
first_components (b ∷ name) names =
    let rest = later_components names in
    ite (bytes_discrete (b ∷ name) dot) (cur_dir ∷ rest) (named_component (b ∷ name) ∷ rest)

unfoldable pub all_components : List Bytes → List Component
unfolding first_components
all_components [] = []
all_components (name ∷ names) = first_components name names

unfoldable pub components : Bytes → List Component
unfolding all_components split_on
components path = all_components (split_on b'/' path)

-- `Result<(), Component>`
pub data Checked : Type 0 where
  ok : Checked
  err : Component → Checked

unfoldable pub check_components : List Component → Checked
check_components [] = ok
check_components (root_dir ∷ cs) = err root_dir
check_components (prefix p ∷ cs) = err (prefix p)
check_components (parent_dir ∷ cs) = err parent_dir
check_components (normal n ∷ cs) = check_components cs
check_components (cur_dir ∷ cs) = check_components cs

unfoldable pub check_path : Bytes → Checked
unfolding components check_components
check_path path = check_components (components path)

pub data MaybeKnown (T : Type 0) : Type 0 where
  known : T → MaybeKnown T
  unknown : Bytes → MaybeKnown T

-- The crate mime, with the parts of a MIME type that have no constructor of their own, and the table
-- `MIME`, which MimeTable builds.
pub record MimeLibrary : Type 1 where
  pub TopLevel : Type 0
  pub SubLevel : Type 0
  pub top_ext : Bytes → TopLevel
  pub sub_ext : Bytes → SubLevel
  pub table : Bytes → Option (MaybeKnown TopLevel × MaybeKnown SubLevel)

-- `Mime`; the list has the parameters
pub record Mime (l : MimeLibrary) : Type 0 where
  pub top : l.TopLevel
  pub sub : l.SubLevel
  pub parameters : List (Bytes × Bytes)

module _ (l : MimeLibrary) where
  unfoldable pub top_level : MaybeKnown l.TopLevel → l.TopLevel
  top_level (known t) = t
  top_level (unknown t) = l.top_ext t

  unfoldable pub sub_level : MaybeKnown l.SubLevel → l.SubLevel
  sub_level (known s) = s
  sub_level (unknown s) = l.sub_ext s

  unfoldable pub ext_to_mime : Bytes → Option (Mime l)
  unfolding top_level sub_level
  ext_to_mime ext = elim (l.table ext) [
    | none ↦ none
    | some (top, sub) ↦ some (record { top = top_level top; sub = sub_level sub; parameters = [] })
  ]
