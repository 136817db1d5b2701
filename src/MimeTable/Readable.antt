-- ===== src/MimeTable/Readable.antt =====
-- build/mime.rs: rows that are valid text, and types whose names stand for themselves in generated code.
use rustful.Base.{
  ℕ, zero, suc, Bool, true, false, ◌≡◌, refl, ◌∙◌, Option, none, some, List, [], ◌∷◌, ◌++◌, Bytes,
  All, if◌then◌else◌, replicate,
}
use rustful.Text.Utf8.{is_valid, is_valid-append}
use rustful.File.{MaybeKnown, known, unknown}
use rustful.MimeTable.{MimeType, top_of, sub_of, or_unknown}
use rustful.MimeTable.Rows.{
  Row, Line, comment, row, IsRow, IsLine, IsExtension, IsLiteral, own_type, print_row, spaced,
  type_of, mime_of, later, last_type, lists,
}

-- validity of a row, by its parts
slash_valid : (s : Bytes) → is_valid (b'/' ∷ s) ≡ is_valid s
unfolding is_valid
slash_valid s = refl

tab_valid : (s : Bytes) → is_valid (b'\t' ∷ s) ≡ is_valid s
unfolding is_valid
tab_valid s = refl

space_valid : (s : Bytes) → is_valid (b' ' ∷ s) ≡ is_valid s
unfolding is_valid
space_valid s = refl

joined_valid : (s t : Bytes) → is_valid s ≡ true → is_valid t ≡ true → is_valid (s ++ t) ≡ true
joined_valid s t v u = is_valid-append s t u ∙ v

spaced_valid :
    (e : Bytes) (es : List Bytes) → All IsExtension (e ∷ es) → is_valid (spaced e es) ≡ true
spaced_valid e [] h = h.0.0.3
spaced_valid e (f ∷ fs) h =
    joined_valid e (b' ' ∷ spaced f fs) h.0.0.3 (space_valid (spaced f fs) ∙ spaced_valid f fs h.1)

tabs_valid : (n : ℕ) (s : Bytes) → is_valid s ≡ true → is_valid (replicate n b'\t' ++ s) ≡ true
tabs_valid zero s v = v
tabs_valid (suc n) s v = tab_valid (replicate n b'\t' ++ s) ∙ tabs_valid n s v

pub row_valid : (r : Row) → IsRow r → is_valid (print_row r) ≡ true
row_valid r h =
    joined_valid (type_of r) _
      (joined_valid r.top (b'/' ∷ r.sub) h.top-Plain.3 (slash_valid r.sub ∙ h.sub-Plain.3))
      (tab_valid _ ∙ tabs_valid r.tabs _ (spaced_valid r.first r.more h.extensions))

-- The names of a type have no special characters.
abbrev pub IsReadable : {T : Type 0} → MaybeKnown T → Type 0
IsReadable (known t) = Unit
IsReadable (unknown s) = IsLiteral s

abbrev pub AreReadable : Option MimeType → Type 0
AreReadable none = Unit
AreReadable (some (t, s)) = IsReadable t × IsReadable s

pub or_unknown-IsReadable :
    {T : Type 0} (s : Bytes) (o : Option T) → IsLiteral s → IsReadable (or_unknown s o)
or_unknown-IsReadable s none h = h
or_unknown-IsReadable s (some t) h = tt

mime_of-AreReadable : (r : Row) → IsRow r → AreReadable (some (mime_of r))
unfolding top_of sub_of
mime_of-AreReadable r h =
    (or_unknown-IsReadable r.top _ h.top_literal, or_unknown-IsReadable r.sub _ h.sub_literal)

later-AreReadable :
    (o o' : Option MimeType) → AreReadable o → AreReadable o' → AreReadable (later o o')
later-AreReadable none o' h h' = h'
later-AreReadable (some t) o' h h' = h

pub last_type-AreReadable :
    (ls : List Line) (ext : Bytes) → All IsLine ls → AreReadable (last_type ls ext)
last_type-AreReadable [] ext h = tt
last_type-AreReadable (l ∷ ls) ext h =
    later-AreReadable (last_type ls ext) (own_type l ext) (last_type-AreReadable ls ext h.1)
      (own l h.0)
  where
    given : (r : Row) (b : Bool) → IsRow r → AreReadable (if b then some (mime_of r) else none)
    given r true k = mime_of-AreReadable r k
    given r false k = tt

    own : (l : Line) → IsLine l → AreReadable (own_type l ext)
    own (comment s) k = tt
    own (row r) k = given r (lists (r.first ∷ r.more) ext) k
