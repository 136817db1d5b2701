-- ===== src/Body/Reading.antt =====
-- src/context/body.rs: the query in a body that comes in pieces.
use rustful.Base.{
  ℕ, zero, suc, ◌≤◌, arith, sym, ◌≡◌, refl, ◌∙◌, ap, true, false, Option, some, [], ◌∷◌, ◌++◌,
  Bytes, append_assoc, append-nil,
}
use rustful.Http.{World}
use rustful.Base.{Result, ok, err, map_ok}
use rustful.Uri.{UrlLibrary, parse_parameters}
use rustful.Body.{BodyLibrary, BodyReader, read, after_read, read_to_end, read_query_body}

module _ {w : World} (l : BodyLibrary w) where
  -- What a reader gives from now on, after the bytes `buf`: pieces and interruptions, and in the end no more
  -- bytes or an error. `b'` is the reader after that.
  pub data Gives (b' : BodyReader l) : Bytes → BodyReader l → Result Bytes l.IoError → Type 0 where
    ended :
        {buf : Bytes} {b : BodyReader l}
        → read l b (l.room buf) ≡ (ok [], b')
        → Gives b' buf b (ok [])
    failed :
        {buf : Bytes} {b : BodyReader l} {e : l.IoError}
        → read l b (l.room buf) ≡ (err e, b')
        → l.interrupted e ≡ false
        → Gives b' buf b (err e)
    piece :
        {buf : Bytes} {b b'' : BodyReader l} {x : ℕ} {bytes rest : Bytes}
        → read l b (l.room buf) ≡ (ok (x ∷ bytes), b'')
        → Gives b' (buf ++ x ∷ bytes) b'' (ok rest)
        → Gives b' buf b (ok (x ∷ bytes ++ rest))
    lost :
        {buf : Bytes} {b b'' : BodyReader l} {x : ℕ} {bytes : Bytes} {e : l.IoError}
        → read l b (l.room buf) ≡ (ok (x ∷ bytes), b'')
        → Gives b' (buf ++ x ∷ bytes) b'' (err e)
        → Gives b' buf b (err e)
    again :
        {buf : Bytes} {b b'' : BodyReader l} {e : l.IoError} {result : Result Bytes l.IoError}
        → read l b (l.room buf) ≡ (err e, b'')
        → l.interrupted e ≡ true
        → Gives b' buf b'' result
        → Gives b' buf b result

  -- the number of calls of `read`
  abbrev pub calls_of :
      {b' b : BodyReader l} {buf : Bytes} {r : Result Bytes l.IoError} → Gives b' buf b r → ℕ
  calls_of (ended e) = 1
  calls_of (failed e f) = 1
  calls_of (piece e g) = suc (calls_of g)
  calls_of (lost e g) = suc (calls_of g)
  calls_of (again e f g) = suc (calls_of g)

  -- the result with the bytes from before
  abbrev behind_bytes : Bytes → Result Bytes l.IoError → Result Bytes l.IoError
  behind_bytes buf (ok rest) = ok (buf ++ rest)
  behind_bytes buf (err e) = err e

  read_to_end-step :
      (fuel : ℕ) (buf : Bytes) (b : BodyReader l) {result : Result Bytes l.IoError}
      {b'' : BodyReader l}
      → read l b (l.room buf) ≡ (result, b'')
      → read_to_end l (suc fuel) buf b
        ≡ after_read l (λ buf' c. read_to_end l fuel buf' c) buf result b''
  unfolding read_to_end
  read_to_end-step fuel buf b e =
      ap
        (λ (x : Result Bytes l.IoError × BodyReader l).
          after_read l (λ buf' c. read_to_end l fuel buf' c) buf x.0 x.1)
        e

  after_read-failed :
      (continue : Bytes → BodyReader l → Option (Result Bytes l.IoError × BodyReader l))
      (buf : Bytes) (e : l.IoError) (b : BodyReader l)
      → l.interrupted e ≡ false
      → after_read l continue buf (err e) b ≡ some (err e, b)
  after_read-failed continue buf e b f = rw f refl

  after_read-again :
      (continue : Bytes → BodyReader l → Option (Result Bytes l.IoError × BodyReader l))
      (buf : Bytes) (e : l.IoError) (b : BodyReader l)
      → l.interrupted e ≡ true
      → after_read l continue buf (err e) b ≡ continue buf b
  after_read-again continue buf e b f = rw f refl

  read_to_end-Gives :
      {b' b : BodyReader l} {buf : Bytes} {r : Result Bytes l.IoError} (g : Gives b' buf b r)
      (fuel : ℕ)
      → calls_of g ≤ fuel
      → read_to_end l fuel buf b ≡ some (behind_bytes buf r, b')
  read_to_end-Gives (ended e) zero le = absurd (omega arith)
  read_to_end-Gives (failed e f) zero le = absurd (omega arith)
  read_to_end-Gives (piece e g) zero le = absurd (omega arith)
  read_to_end-Gives (lost e g) zero le = absurd (omega arith)
  read_to_end-Gives (again e f g) zero le = absurd (omega arith)
  read_to_end-Gives {b' = b'} (ended {buf} {b} e) (suc fuel) le =
      read_to_end-step fuel buf b e ∙ ap (λ bytes. some (ok bytes, b')) (sym (append-nil buf))
  read_to_end-Gives {b' = b'} (failed {buf} {b} {e = x} e f) (suc fuel) le =
      read_to_end-step fuel buf b e
      ∙ after_read-failed (λ buf' c. read_to_end l fuel buf' c) buf x b' f
  read_to_end-Gives {b' = b'} (piece {buf} {b} {x = x} {bytes} {rest} e g) (suc fuel) le =
      read_to_end-step fuel buf b e
      ∙ read_to_end-Gives g fuel (omega arith)
      ∙ ap (λ all. some (ok all, b')) (append_assoc buf (x ∷ bytes) rest)
  read_to_end-Gives (lost {buf} {b} e g) (suc fuel) le =
      read_to_end-step fuel buf b e ∙ read_to_end-Gives g fuel (omega arith)
  read_to_end-Gives (again {buf} {b} {b'' = c} {e = x} e f g) (suc fuel) le =
      read_to_end-step fuel buf b e
      ∙ after_read-again (λ buf' c'. read_to_end l fuel buf' c') buf x c f
      ∙ read_to_end-Gives g fuel (omega arith)

  -- Whatever the pieces in which a body comes and whatever interruptions are between them, reading it as a
  -- query ends and gives the parameters of the whole body, or the first error that is not an interruption.
  -- Fuel for as many calls of the reader as there are is enough.
  pub read_query_body-Gives :
      (u : UrlLibrary) {b' b : BodyReader l} {r : Result Bytes l.IoError} (g : Gives b' [] b r)
      (fuel : ℕ)
      → calls_of g ≤ fuel
      → read_query_body l u fuel b ≡ some (map_ok (parse_parameters u) r, b')
  unfolding read_query_body
  read_query_body-Gives u {b'} {r = ok body} g fuel le =
      rw (read_to_end-Gives g fuel le, read_query_body) refl
  read_query_body-Gives u {b'} {r = err e} g fuel le =
      rw (read_to_end-Gives g fuel le, read_query_body) refl
