-- ===== src/MimeTable/Rows.antt =====
-- build/mime.rs: the table of a file that is put together from its lines, and the lookup of src/file.rs in it.
use rustful.Base.{
  ℕ, zero, suc, Bool, true, false, ◌≡◌, refl, ◌∙◌, ap, Option, none, some, List, [], ◌∷◌, ◌++◌,
  Bytes, bytes_discrete, All, ite, get, insert, get-insert, ◌==◌, if◌then◌else◌, replicate,
}
use rustful.Text.Utf8.{is_valid}
use rustful.Uri.{split_on}
use rustful.Uri.Parts.{Without}
use rustful.Uri.Queries.{split_on-append, split_on-Without, Without-append}
use rustful.MimeTable.{MimeType, Types, top_of, sub_of, insert_all, filled, is_comment}

-- A row of the file: a type with its extensions, at least one, behind some tabs.
pub record Row : Type 0 where
  pub top : Bytes
  pub sub : Bytes
  pub tabs : ℕ
  pub first : Bytes
  pub more : List Bytes

pub data Line : Type 0 where
  comment : Bytes → Line
  row : Row → Line

abbrev pub spaced : Bytes → List Bytes → Bytes
spaced e [] = e
spaced e (f ∷ fs) = e ++ b' ' ∷ spaced f fs

abbrev pub type_of : Row → Bytes
type_of r = r.top ++ b'/' ∷ r.sub

abbrev pub print_row : Row → Bytes
print_row r = type_of r ++ b'\t' ∷ (replicate r.tabs b'\t' ++ spaced r.first r.more)

abbrev pub print_line : Line → Bytes
print_line (comment s) = b'#' ∷ s
print_line (row r) = print_row r

abbrev pub print : List Line → Bytes
print [] = []
print (l ∷ ls) = print_line l ++ b'\n' ∷ print ls

-- the type of a row, where it lists the extension
abbrev pub lists : List Bytes → Bytes → Bool
lists [] ext = false
lists (e ∷ es) ext = ite (bytes_discrete e ext) true (lists es ext)

abbrev pub mime_of : Row → MimeType
mime_of r = (top_of r.top, sub_of r.sub)

abbrev pub own_type : Line → Bytes → Option MimeType
own_type (comment s) ext = none
own_type (row r) ext = if lists (r.first ∷ r.more) ext then some (mime_of r) else none

abbrev pub later : {A : Type 0} → Option A → Option A → Option A
later none o = o
later (some a) o = some a

-- the type in the last row that lists the extension
abbrev pub last_type : List Line → Bytes → Option MimeType
last_type [] ext = none
last_type (l ∷ ls) ext = later (last_type ls ext) (own_type l ext)

-- no character of the part stands for something else
abbrev pub Plain : Bytes → Type 0
Plain s = Without b'\t' s × Without b'\n' s × Without b'\r' s × (is_valid s ≡ true)

-- no character of the part is special in a string literal
abbrev pub IsLiteral : Bytes → Type 0
IsLiteral s = Without b'"' s × Without b'\\' s × Without b'\r' s × Without b'\n' s

abbrev pub IsExtension : Bytes → Type 0
IsExtension e = Plain e × Without b' ' e × ¬ (e ≡ [])

pub record IsRow (r : Row) : Type 0 where
  pub top-Plain : Plain r.top
  pub top_slash : Without b'/' r.top
  pub top_comment : is_comment (type_of r) ≡ false
  pub sub-Plain : Plain r.sub
  pub sub_slash : Without b'/' r.sub
  pub top_literal : IsLiteral r.top
  pub sub_literal : IsLiteral r.sub
  pub extensions : All IsExtension (r.first ∷ r.more)

abbrev pub IsLine : Line → Type 0
IsLine (comment s) = Without b'\n' s
IsLine (row r) = IsRow r

pub get-insert_all :
    (types : Types) (es : List Bytes) (m : MimeType) (ext : Bytes)
    → get bytes_discrete (insert_all types es m) ext
      ≡ (if lists es ext then some m else get bytes_discrete types ext)
unfolding insert_all
get-insert_all types [] m ext = refl
get-insert_all types (e ∷ es) m ext =
    get-insert_all (insert bytes_discrete types e m) es m ext
    ∙ rw (get-insert bytes_discrete types e ext m) (go (bytes_discrete e ext) (lists es ext))
  where
    go :
        {P : Type 0} (d : Dec P) (b : Bool)
        → (if b then some m else ite d (some m) (get bytes_discrete types ext))
          ≡ (if ite d true b then some m else get bytes_discrete types ext)
    go (yes p) true = refl
    go (yes p) false = refl
    go (no p) b = refl

pub split_on-spaced :
    (e : Bytes) (es : List Bytes) → All IsExtension (e ∷ es) → split_on b' ' (spaced e es) ≡ e ∷ es
split_on-spaced e [] h = split_on-Without b' ' e h.0.1
split_on-spaced e (f ∷ fs) h =
    split_on-append b' ' e (spaced f fs) h.0.1 ∙ ap (λ l. e ∷ l) (split_on-spaced f fs h.1)

pub spaced-Without :
    (c : ℕ) (e : Bytes) (es : List Bytes)
    → (b' ' == c) ≡ false
    → All (λ x. Without c x) (e ∷ es)
    → Without c (spaced e es)
spaced-Without c e [] q h = h.0
spaced-Without c e (f ∷ fs) q h =
    Without-append c e (b' ' ∷ spaced f fs) h.0 (q, spaced-Without c f fs q h.1)

pub filled-tabs :
    (n : ℕ) (s : Bytes)
    → filled (split_on b'\t' (replicate n b'\t' ++ s)) ≡ filled (split_on b'\t' s)
unfolding filled split_on
filled-tabs zero s = refl
filled-tabs (suc n) s = filled-tabs n s

pub filled-cons :
    (b : ℕ) (v : Bytes) (vs : List Bytes) → filled ((b ∷ v) ∷ vs) ≡ (b ∷ v) ∷ filled vs
unfolding filled
filled-cons b v vs = refl
