-- ===== src/MimeTable/Lines.antt =====
-- build/mime.rs: the table of a file that is put together from its lines, and the lookup of src/file.rs in it.
use rustful.Base.{◌≡◌, refl, ap, Option, none, some, [], ◌∷◌, Bytes}
use rustful.File.{MaybeKnown, known, unknown, Mime, top_level, sub_level}
use rustful.MimeTable.{MimeType, Types, insert_all, trim_return, MimeCrate, named, built}
use rustful.MimeTable.Rows.{Line, comment, row, IsLiteral, print_line, mime_of}
use rustful.MimeTable.Readable.{IsReadable}

-- what a line of the file does to the table
abbrev entered : Types → Line → Types
entered types (comment s) = types
entered types (row r) = insert_all types (r.first ∷ r.more) (mime_of r)

-- a line as it is read
abbrev read_line : Line → Bytes
read_line l = trim_return (print_line l)

-- What is known of the compiler: text without special characters stands for itself.
pub record LiteralLaw (c : MimeCrate) : Type 0 where
  pub string_literal-plain : (s : Bytes) → IsLiteral s → c.string_literal s ≡ s

module _ (c : MimeCrate) where
  -- a known type as the constructor, and others under their names
  abbrev pub under_name : {T U : Type 0} → (T → U) → MaybeKnown T → MaybeKnown U
  under_name f (known t) = known (f t)
  under_name f (unknown s) = unknown s

  pub named-under_name :
      {T U : Type 0} (k : LiteralLaw c) (f : T → U) (x : MaybeKnown T)
      → IsReadable x
      → named c f x ≡ under_name f x
  named-under_name k f (known t) h = refl
  named-under_name k f (unknown s) h = ap unknown (k.string_literal-plain s h)

  -- the type that is looked up
  abbrev pub looked_up : (file : Bytes) → Option MimeType → Option (Mime (built c file))
  looked_up file none = none
  looked_up file (some (t, s)) = some (record {
    top = top_level (built c file) (under_name c.top t);
    sub = sub_level (built c file) (under_name c.sub s);
    parameters = [];
  })
