-- ===== src/Response/Files.antt =====
-- src/response.rs: sending files, and the errors of it.
pub mod Sends
use rustful.Base.{
  ℕ, ◌≡◌, refl, ap, ◌⊎◌, inl, inr, Bool, true, false, Bool-cases, if◌then◌else◌, Option, none, some,
  List, [], ◌∷◌, ◌++◌, Bytes, Result, ok, err,
}
use rustful.File.{MimeLibrary, Mime, ext_to_mime}
use rustful.Http.{
  World, Content, bytes, string, Response, MaybeMock, mock_headers, set_mock_headers, set_status,
}
use rustful.Response.{Sending}
use rustful.Response.Sized.{Sent, drop}
use rustful.Response.Chunked.{Streaming}
use rustful.Response.Raw.{Raw, into_raw, raw_write_all}
use rustful.Response.Contents.{IoErrors, Reply, reply_data, drop_sends}

-- The file system of the standard library. `pieces` are what `io::copy` reads of a file, and the error that
-- ends it, if there is one.
pub record FileSystem {w : World} (s : Sending w) (l : MimeLibrary) : Type 1 where
  pub File : Type 0
  pub open_file : Bytes → Result File s.IoError
  pub metadata_len : File → Result ℕ s.IoError
  pub pieces : File → List Bytes × Option s.IoError
  -- the text of the extension
  pub extension : Bytes → Option Bytes
  pub octet_stream : Mime l
  pub set_content_type : Mime l → w.Headers → w.Headers

module _ {w : World} {s : Sending w} (x : Streaming s) where
  -- `FileError`; `sent_error` is its `Send`
  pub data FileError : Type 0 where
    open_error : s.IoError → Response w → FileError
    sent_error : s.IoError → FileError

  unfoldable pub recover_response : FileError → Result (Response w) FileError
  recover_response (open_error e r) = ok r
  recover_response (sent_error e) = err (sent_error e)

  -- `Response::send` is without a result
  unfoldable pub send_not_found :
      IoErrors s → FileError → Content w → Result (Unit {0}) FileError × List (Option (Sent s))
  unfolding set_status reply_data
  send_not_found i (open_error e r) message =
      if i.not_found e
      then (ok tt, (reply_data s message (set_status r 404)).sends)
      else (err (open_error e r), [])
  send_not_found i (sent_error e) message = (err (sent_error e), [])

  unfoldable pub ignore_send_error : FileError → Result (Unit {0}) (s.IoError × Response w)
  ignore_send_error (open_error e r) = err (e, r)
  ignore_send_error (sent_error e) = ok tt

  abbrev pub or_else_ignore :
      Result (Unit {0}) FileError → Result (Unit {0}) (s.IoError × Response w)
  or_else_ignore (ok u) = ok u
  or_else_ignore (err e) = ignore_send_error e

  -- the status for a file that could not be opened, and the drop of the response
  abbrev pub handle_rest : Result (Unit {0}) (s.IoError × Response w) → List (Option (Sent s))
  handle_rest (ok u) = []
  handle_rest (err (e, r)) = drop_sends s (drop s (set_status r 500))

  -- `handle`: all that is sent
  unfoldable pub handle : IoErrors s → FileError → List (Option (Sent s))
  unfolding send_not_found ignore_send_error set_status drop
  handle i e =
      let (result, sends) = send_not_found i e (string []) in
      sends ++ handle_rest (or_else_ignore result)

  -- `Into<io::Error>`
  unfoldable pub into_io_error : FileError → s.IoError
  into_io_error (open_error e r) = e
  into_io_error (sent_error e) = e

  -- the end of sending a file: the error if there is one, and the response on its way
  pub record FileReply : Type 0 where
    pub error : Option FileError
    pub raw : Option (Raw x)

  module _ {l : MimeLibrary} (fs : FileSystem s l) where
    -- `io::copy`: each piece is written whole
    unfoldable pub copy : List Bytes → Option s.IoError → Raw x → Option s.IoError × Raw x
    unfolding raw_write_all
    copy [] failed r = (failed, r)
    copy (b ∷ bs) failed r =
        let (result, r') = raw_write_all x r b in
        elim result [ ok u ↦ copy bs failed r' | err e ↦ (some e, r') ]

    abbrev pub file_reply : Option s.IoError × Raw x → FileReply
    file_reply (none, r) = record { error = none; raw = some r }
    file_reply (some e, r) = record { error = some (sent_error e); raw = some r }

    abbrev pub copy_into : fs.File → Option (Raw x) → FileReply
    copy_into file none = record { error = none; raw = none }
    copy_into file (some r) = file_reply (copy (fs.pieces file).0 (fs.pieces file).1 r)

    -- `SendResponse` for `File`; without an error and a response it is the panic of `into_raw`
    unfoldable pub send_file : fs.File → Response w → FileReply
    unfolding copy into_raw
    send_file file r = elim (fs.metadata_len file) [
      | err e ↦ record { error = some (open_error e r); raw = none }
      | ok n ↦ copy_into file (into_raw x r n)
    ]

    abbrev pub with_headers : Option (MaybeMock w) → Mime l → Option (MaybeMock w)
    with_headers none mime = none
    with_headers (some m) mime =
        some (set_mock_headers m (fs.set_content_type mime (mock_headers m)))

    abbrev pub mime_of : (Bytes → Option (Mime l)) → Option Bytes → Mime l
    mime_of to_mime none = fs.octet_stream
    mime_of to_mime (some ext) = elim (to_mime ext) [ none ↦ fs.octet_stream | some mime ↦ mime ]

    -- `send_file_with_mime`
    unfoldable pub send_file_with_mime : Response w → Bytes → (Bytes → Option (Mime l)) → FileReply
    unfolding send_file mock_headers set_mock_headers
    send_file_with_mime r path to_mime = elim (fs.open_file path) [
      | err e ↦ record { error = some (open_error e r); raw = none }
      | ok file ↦
          send_file file
            (record r { writer = with_headers r.writer (mime_of to_mime (fs.extension path)) })
    ]

    -- `SendResponse` for paths
    unfoldable pub send_path : Bytes → Response w → FileReply
    unfolding send_file_with_mime ext_to_mime
    send_path path r = send_file_with_mime r path (ext_to_mime l)
