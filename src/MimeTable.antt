-- ===== src/MimeTable.antt =====
-- build/mime.rs: the build script that makes the table of MIME types from a file of lines, each with a type, tabs and
-- file extensions. A value of the table is an expression that the script writes: a known constructor, or `Unknown` of a
-- string literal, which is held as the text between its quotes; the script writes names there as they are.
pub mod Rows
pub mod Reading
pub mod Readable
pub mod Lines
pub mod Names
mod Tests
use rustful.Base.{
  ℕ, Bool, true, false, Option, none, some, List, [], ◌∷◌, ◌++◌, Bytes, codes, bytes_discrete,
  HashMap, get, insert, ◌==◌, if◌then◌else◌,
}
use rustful.Text.Utf8.{is_valid}
use rustful.Uri.{split_on}
use rustful.File.{MaybeKnown, known, unknown, MimeLibrary}

-- the constructors of the crate mime that the generated code names
pub data TopLevel : Type 0 where
  star text image audio video application multipart message model : TopLevel

pub data SubLevel : Type 0 where
  star plain html xml javascript css json www_form_url_encoded form_data png gif bmp jpeg : SubLevel

abbrev pub MimeType : Type 0
MimeType = MaybeKnown TopLevel × MaybeKnown SubLevel

-- the two `match`es, their arms in order
abbrev pub tops : HashMap Bytes TopLevel
tops =
    (codes "*", TopLevel.star)
    ∷ (codes "text", text)
    ∷ (codes "image", image)
    ∷ (codes "audio", audio)
    ∷ (codes "video", image)
    ∷ (codes "application", application)
    ∷ (codes "multipart", multipart)
    ∷ (codes "message", message)
    ∷ (codes "model", model)
    ∷ []

abbrev pub subs : HashMap Bytes SubLevel
subs =
    (codes "*", SubLevel.star)
    ∷ (codes "plain", plain)
    ∷ (codes "html", html)
    ∷ (codes "xml", xml)
    ∷ (codes "javascript", javascript)
    ∷ (codes "css", css)
    ∷ (codes "json", json)
    ∷ (codes "www-form-url-encoded", www_form_url_encoded)
    ∷ (codes "form-data", form_data)
    ∷ (codes "png", png)
    ∷ (codes "gif", gif)
    ∷ (codes "bmp", bmp)
    ∷ (codes "jpeg", jpeg)
    ∷ []

abbrev pub or_unknown : {T : Type 0} → Bytes → Option T → MaybeKnown T
or_unknown s none = unknown s
or_unknown s (some t) = known t

unfoldable pub top_of : Bytes → MaybeKnown TopLevel
unfolding get
top_of s = or_unknown s (get bytes_discrete tops s)

unfoldable pub sub_of : Bytes → MaybeKnown SubLevel
unfolding get
sub_of s = or_unknown s (get bytes_discrete subs s)

abbrev pub Types : Type 0
Types = HashMap Bytes MimeType

-- the loop over the extensions of a line
unfoldable pub insert_all : Types → List Bytes → MimeType → Types
unfolding insert
insert_all types [] type = types
insert_all types (ext ∷ exts) type = insert_all (insert bytes_discrete types ext type) exts type

-- behind the type; a line without extensions is passed over
abbrev pub add_extensions : Types → MimeType → List Bytes → Types
add_extensions types type [] = types
add_extensions types type (exts ∷ more) = insert_all types (split_on b' ' exts) type

abbrev pub add_type : Types → List Bytes → List Bytes → Types
add_type types [] parts = types
add_type types (top ∷ []) parts = types
add_type types (top ∷ sub ∷ more) parts = add_extensions types (top_of top, sub_of sub) parts

abbrev pub add_parts : Types → List Bytes → Types
add_parts types [] = types
add_parts types (type ∷ parts) = add_type types (split_on b'/' type) parts

-- `filter(|v| v.len() > 0)`
unfoldable pub filled : List Bytes → List Bytes
filled [] = []
filled ([] ∷ vs) = filled vs
filled ((b ∷ v) ∷ vs) = (b ∷ v) ∷ filled vs

abbrev pub is_comment : Bytes → Bool
is_comment [] = false
is_comment (b ∷ line) = b == b'#'

-- the body of the loop over the lines
unfoldable pub add_line : Types → Bytes → Types
unfolding filled split_on insert_all top_of sub_of
add_line types line =
    if is_comment line then types else add_parts types (filled (split_on b'\t' line))

-- `lines` of a reader: the pieces between line feeds, but for an empty one at the end; a carriage return before a line
-- feed goes with it; lines that are no UTF-8 are errors, which the script leaves out
unfoldable pub trim_return : Bytes → Bytes
trim_return [] = []
trim_return (b ∷ []) = if b == b'\r' then [] else b ∷ []
trim_return (b ∷ c ∷ s) = b ∷ trim_return (c ∷ s)

unfoldable pub read_lines : List Bytes → List Bytes
unfolding trim_return
read_lines [] = []
read_lines ([] ∷ []) = []
read_lines ((b ∷ s) ∷ []) = (b ∷ s) ∷ []
read_lines (s ∷ t ∷ ss) = trim_return s ∷ read_lines (t ∷ ss)

unfoldable pub add_lines : Types → List Bytes → Types
unfolding add_line is_valid
add_lines types [] = types
add_lines types (line ∷ lines) =
    add_lines (if is_valid line then add_line types line else types) lines

-- `gen`, from the bytes of the file to the table
unfoldable pub generate : Bytes → Types
unfolding add_lines read_lines split_on
generate file = add_lines [] (read_lines (split_on b'\n' file))

-- The crate mime with its constructors, and the compiler: `string_literal` is what a string literal with that text
-- between its quotes stands for. Where the compiler refuses the generated code there is no program.
pub record MimeCrate : Type 1 where
  pub Top : Type 0
  pub Sub : Type 0
  pub top : TopLevel → Top
  pub sub : SubLevel → Sub
  pub top_ext : Bytes → Top
  pub sub_ext : Bytes → Sub
  pub string_literal : Bytes → Bytes

-- the library that the build gives with a file
module _ (c : MimeCrate) where
  abbrev pub named : {T U : Type 0} → (T → U) → MaybeKnown T → MaybeKnown U
  named f (known t) = known (f t)
  named f (unknown s) = unknown (c.string_literal s)

  abbrev pub evaluated : Option MimeType → Option (MaybeKnown c.Top × MaybeKnown c.Sub)
  evaluated none = none
  evaluated (some (t, s)) = some (named c.top t, named c.sub s)

  abbrev pub built : Bytes → MimeLibrary
  built file = record {
    TopLevel = c.Top;
    SubLevel = c.Sub;
    top_ext = c.top_ext;
    sub_ext = c.sub_ext;
    table = λ ext. evaluated (get bytes_discrete (generate file) ext);
  }
