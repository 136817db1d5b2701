-- ===== src/Body.antt =====
-- src/context/body.rs: reading the body of a request, as a query or as a multipart form.
pub mod Reading
mod Tests
use rustful.Base.{
  ℕ, zero, suc, Bool, true, false, Option, none, some, List, [], ◌∷◌, ◌++◌, Bytes, if◌then◌else◌,
}
use rustful.Http.{World, Parameters}
use rustful.Base.{Result, ok, err}
use rustful.Uri.{UrlLibrary, parse_parameters}

-- The constructors of the crate mime that the code names, and the others.
pub data TopLevel : Type 0 where
  multipart other_top : TopLevel

pub data SubLevel : Type 0 where
  form_data other_sub : SubLevel

pub data Attr : Type 0 where
  boundary other_attr : Attr

pub data Value : Type 0 where
  ext : Bytes → Value
  other_value : Value

pub record ContentType : Type 0 where
  pub top : TopLevel
  pub sub : SubLevel
  pub attrs : List (Attr × Value)

-- The readers of hyper and the crate multipart. `read` gets the length of the buffer and gives the bytes
-- that it puts there; `room` is the length that the standard library offers after the bytes read so far.
pub record BodyLibrary (w : World) : Type 1 where
  pub Reader : Type 0
  pub IoError : Type 0
  pub Multipart : Type 0
  pub interrupted : IoError → Bool
  pub read : Reader → ℕ → Result Bytes IoError × Reader
  pub room : Bytes → ℕ
  pub content_type : w.Headers → Option ContentType
  pub from_request : Bytes → Reader → Option Multipart

module _ {w : World} (l : BodyLibrary w) where
  pub data MaybeMock : Type 0 where
    actual : l.Reader → MaybeMock
    mock : MaybeMock

  pub record BodyReader : Type 0 where
    pub reader : MaybeMock
    pub multipart_boundary : Option Bytes

  -- `attrs.iter().find(…)`
  abbrev pub find_boundary : List (Attr × Value) → Option Value
  find_boundary [] = none
  find_boundary ((boundary, v) ∷ attrs) = some v
  find_boundary ((other_attr, v) ∷ attrs) = find_boundary attrs

  abbrev pub boundary_value : Option Value → Option Bytes
  boundary_value (some (ext b)) = some b
  boundary_value (some other_value) = none
  boundary_value none = none

  abbrev pub form_boundary : TopLevel → SubLevel → List (Attr × Value) → Option Bytes
  form_boundary multipart form_data attrs = boundary_value (find_boundary attrs)
  form_boundary multipart other_sub attrs = none
  form_boundary other_top sub attrs = none

  unfoldable pub boundary_of : w.Headers → Option Bytes
  boundary_of headers = elim (l.content_type headers) [
    | none ↦ none
    | some c ↦ form_boundary c.top c.sub c.attrs
  ]

  unfoldable pub from_reader : l.Reader → w.Headers → BodyReader
  unfolding boundary_of
  from_reader r headers = record { reader = actual r; multipart_boundary = boundary_of headers }

  -- `BodyReader::mock`
  unfoldable pub mock_reader : w.Headers → BodyReader
  unfolding boundary_of
  mock_reader headers = record { reader = mock; multipart_boundary = boundary_of headers }

  unfoldable pub as_multipart : BodyReader → Option l.Multipart
  as_multipart body = elim body.reader [
    | mock ↦ none
    | actual r ↦ elim body.multipart_boundary [ none ↦ none | some b ↦ l.from_request b r ]
  ]

  -- `Read for MaybeMock`
  unfoldable pub mock_read : MaybeMock → ℕ → Result Bytes l.IoError × MaybeMock
  mock_read (actual r) n = let (bytes, r') = l.read r n in (bytes, actual r')
  mock_read mock n = (ok [], mock)

  -- `Read for BodyReader`
  unfoldable pub read : BodyReader → ℕ → Result Bytes l.IoError × BodyReader
  unfolding mock_read
  read b n = let (bytes, m) = mock_read b.reader n in (bytes, record b { reader = m })

  -- `read_to_end` of the standard library, on fuel: the reader is asked until it gives no bytes or fails,
  -- and again when it was interrupted. `none` when the fuel does not last.
  abbrev pub after_read :
      (Bytes → BodyReader → Option (Result Bytes l.IoError × BodyReader))
      → Bytes
      → Result Bytes l.IoError
      → BodyReader
      → Option (Result Bytes l.IoError × BodyReader)
  after_read continue buf (ok []) b = some (ok buf, b)
  after_read continue buf (ok (x ∷ bytes)) b = continue (buf ++ x ∷ bytes) b
  after_read continue buf (err e) b = if l.interrupted e then continue buf b else some (err e, b)

  unfoldable pub read_to_end : ℕ → Bytes → BodyReader → Option (Result Bytes l.IoError × BodyReader)
  unfolding read
  read_to_end zero buf b = none
  read_to_end (suc fuel) buf b =
      let (result, b') = read b (l.room buf) in
      after_read (λ buf' b''. read_to_end fuel buf' b'') buf result b'

  abbrev pub parse_body : UrlLibrary → Result Bytes l.IoError → Result Parameters l.IoError
  parse_body u (ok buf) = ok (parse_parameters u buf)
  parse_body u (err e) = err e

  unfoldable pub read_query_body :
      UrlLibrary → ℕ → BodyReader → Option (Result Parameters l.IoError × BodyReader)
  unfolding read_to_end
  read_query_body u fuel b = elim (read_to_end fuel [] b) [
    | none ↦ none
    | some (result, b') ↦ some (parse_body u result, b')
  ]

  -- `MultipartRequest`
  pub record MultipartRequest : Type 0 where
    pub boundary : Bytes
    pub reader : l.Reader

  unfoldable pub multipart_boundary_of : MultipartRequest → Option Bytes
  multipart_boundary_of m = some m.boundary

  unfoldable pub multipart_read : MultipartRequest → ℕ → Result Bytes l.IoError × MultipartRequest
  multipart_read m n = let (bytes, r) = l.read m.reader n in (bytes, record m { reader = r })
