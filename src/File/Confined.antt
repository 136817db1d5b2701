-- ===== src/File/Confined.antt =====
-- src/file.rs: where the paths that `check_path` lets through lead to.
use rustful.Base.{
  subst, ◌≡◌, refl, List, [], ◌∷◌, ◌++◌, append_assoc, append-nil, Bytes, All, ap, sym, ◌∙◌,
}
use rustful.File.{
  Component, prefix, normal, root_dir, cur_dir, parent_dir, Checked, ok, err, check_components,
  check_path, components,
}

-- the components that the comment of `check_path` forbids
abbrev pub Forbidden : Component → Type 0
Forbidden root_dir = Unit {0}
Forbidden (prefix p) = Unit {0}
Forbidden parent_dir = Unit {0}
Forbidden (normal n) = ⊥
Forbidden cur_dir = ⊥

abbrev pub Allowed : Component → Type 0
Allowed c = ¬ Forbidden c

-- A directory is the names on the way from the root to it. One component leads from a directory to
-- another; there is no way above the root, and a prefix leads to the root of another drive.
unfoldable pub enter : List Bytes → Component → List Bytes
enter dir root_dir = []
enter dir (prefix p) = []
enter dir cur_dir = dir
enter dir (normal n) = dir ++ n ∷ []
enter [] parent_dir = []
enter (n ∷ []) parent_dir = []
enter (n ∷ m ∷ dir) parent_dir = n ∷ enter (m ∷ dir) parent_dir

unfoldable pub follow : List Bytes → List Component → List Bytes
unfolding enter
follow dir [] = dir
follow dir (c ∷ cs) = follow (enter dir c) cs

-- a directory and all that is below it
abbrev pub Below : List Bytes → List Bytes → Type 0
Below base dir = (names : List Bytes) × (dir ≡ base ++ names)

-- What `check_components` answers on a list of components.
abbrev pub CheckedAs : List Component → Checked → Type 0
CheckedAs cs ok = All Allowed cs
CheckedAs cs (err c) =
    (before : List Component) × (after : List Component) × (cs ≡ before ++ c ∷ after)
    × All Allowed before
    × Forbidden c

later :
    (c : Component) (cs : List Component) (r : Checked)
    → Allowed c
    → CheckedAs cs r
    → CheckedAs (c ∷ cs) r
later c cs ok a h = (a, h)
later c cs (err d) a (before, after, e, h, f) = (c ∷ before, after, ap (λ l. c ∷ l) e, (a, h), f)

check_components-CheckedAs : (cs : List Component) → CheckedAs cs (check_components cs)
unfolding check_components
check_components-CheckedAs [] = tt
check_components-CheckedAs (root_dir ∷ cs) = ([], cs, refl, tt, tt)
check_components-CheckedAs (prefix p ∷ cs) = ([], cs, refl, tt, tt)
check_components-CheckedAs (parent_dir ∷ cs) = ([], cs, refl, tt, tt)
check_components-CheckedAs (normal n ∷ cs) =
    later (normal n) cs _ (λ x. x) (check_components-CheckedAs cs)
check_components-CheckedAs (cur_dir ∷ cs) =
    later cur_dir cs _ (λ x. x) (check_components-CheckedAs cs)

-- A path is accepted if all its components are allowed. Otherwise the error is its first forbidden
-- component, and all components before it are allowed.
pub check_path-CheckedAs : (path : Bytes) → CheckedAs (components path) (check_path path)
unfolding check_path
check_path-CheckedAs path = check_components-CheckedAs (components path)

enter-Below :
    (base dir : List Bytes) (c : Component) → Allowed c → Below base dir → Below base (enter dir c)
unfolding enter
enter-Below base dir root_dir a h = absurd (a tt)
enter-Below base dir (prefix p) a h = absurd (a tt)
enter-Below base dir parent_dir a h = absurd (a tt)
enter-Below base dir cur_dir a h = h
enter-Below base dir (normal n) a (names, e) =
    (names ++ n ∷ [], ap (λ l. l ++ n ∷ []) e ∙ append_assoc base names (n ∷ []))

follow-Below :
    (base : List Bytes) (before after : List Component) (dir : List Bytes)
    → All Allowed (before ++ after)
    → Below base dir
    → Below base (follow dir before)
unfolding follow
follow-Below base [] after dir a h = h
follow-Below base (c ∷ cs) after dir (a, rest) h =
    follow-Below base cs after (enter dir c) rest (enter-Below base dir c a h)

-- Following an accepted path from a directory never leaves the directory, neither in the end nor on the way.
pub check_path-Below :
    (path : Bytes) (base : List Bytes) (before after : List Component)
    → check_path path ≡ ok
    → components path ≡ before ++ after
    → Below base (follow base before)
unfolding check_path
check_path-Below path base before after accepted e =
    follow-Below base before after base
      (subst (λ cs. All Allowed cs) e
        (subst (λ r. CheckedAs (components path) r) accepted (check_path-CheckedAs path)))
      ([], sym (append-nil base))
