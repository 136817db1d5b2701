-- ===== src/Body/Tests.antt =====
-- A body in two pieces with an interruption between them.
use rustful.Base.{ℕ, ◌≡◌, refl, true, none, some, List, [], ◌∷◌, Bytes, Result, ok, err, arith}
use rustful.Sample.{world, shifted}
use rustful.Uri.{parse_parameters}
use rustful.Body.{BodyLibrary, BodyReader, actual, read_query_body, read}
use rustful.Body.Reading.{Gives, ended, piece, again, calls_of, read_query_body-Gives}

-- A reader is the pieces to come; an empty list of bytes is an interruption, and errors are numbers.
abbrev next_piece : List Bytes → Result Bytes ℕ × List Bytes
next_piece [] = (ok [], [])
next_piece ([] ∷ pieces) = (err 0, pieces)
next_piece ((b ∷ bytes) ∷ pieces) = (ok (b ∷ bytes), pieces)

abbrev library : BodyLibrary world
library = record {
  Reader = List Bytes;
  IoError = ℕ;
  Multipart = Unit;
  interrupted = λ e. true;
  read = λ r room. next_piece r;
  room = λ buf. 32;
  content_type = λ headers. none;
  from_request = λ boundary r. none;
}

abbrev at_pieces : List Bytes → BodyReader library
at_pieces pieces = record { reader = actual pieces; multipart_boundary = none }

-- "a=" and "b"
abbrev two_pieces : List Bytes
two_pieces = (b'a' ∷ b'=' ∷ []) ∷ [] ∷ (b'b' ∷ []) ∷ []

two_pieces-Gives :
    Gives library (at_pieces []) [] (at_pieces two_pieces) (ok (b'a' ∷ b'=' ∷ b'b' ∷ []))
unfolding read
two_pieces-Gives = piece refl (again refl refl (piece refl (ended refl)))

read_query_body-Gives_example :
    read_query_body library shifted (calls_of library two_pieces-Gives) (at_pieces two_pieces)
    ≡ some (ok (parse_parameters shifted (b'a' ∷ b'=' ∷ b'b' ∷ [])), at_pieces [])
read_query_body-Gives_example =
    read_query_body-Gives library shifted two_pieces-Gives (calls_of library two_pieces-Gives)
      (omega arith)
