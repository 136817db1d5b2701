-- ===== src/Response/Files/Sends.antt =====
-- src/response.rs: what is sent for a file, and for a file that cannot be opened.
use rustful.Base.{
  ◌≡◌, refl, sym, ◌∙◌, ap, Bool-cases, inl, inr, if◌then◌else◌, Option, none, some, List, [], ◌∷◌,
  ◌++◌, append-nil, append_assoc, Bytes, ok, err,
}
use rustful.File.{MimeLibrary}
use rustful.Http.{World, bytes, string, Response, set_status, set_mock_status}
use rustful.Response.{Sending}
use rustful.Response.Sized.{send_through, drop, send_sized, taken, drop_writer, try_send_data}
use rustful.Response.Chunked.{Streaming, live, write_all}
use rustful.Response.Raw.{Raw, ready, raw_write_all, stream_write_all, unit_result, Collects}
use rustful.Response.Contents.{IoErrors, reply_data, Unused}
use rustful.Response.Files.{
  FileSystem, open_error, sent_error, handle, send_not_found, ignore_send_error, copy,
}

module _ {w : World} {s : Sending w} (x : Streaming s) where
  -- Handling the error of a file that could not be opened sends the unused response exactly once, with an empty
  -- string and the status 404 if the file was not found, and with no bytes and the status 500 otherwise. After an error while the file was sent,
  -- nothing more is sent.
  pub handle_lem :
      (i : IoErrors s) (e : s.IoError) (r : Response w) (u : Unused s r)
      → (handle x i (open_error e r)
          ≡ some (
              send_through s r.filters r.global r.force_close
                (if i.not_found e then string [] else bytes [])
                (set_mock_status u.writer (if i.not_found e then 404 else 500))
                u.storage)
            ∷ [])
        × (handle x i (sent_error e) ≡ [])
  unfolding handle send_not_found ignore_send_error set_status reply_data drop send_sized taken
      drop_writer try_send_data
  handle_lem i e r u = elim (Bool-cases (i.not_found e)) [
    | inl found ↦ (rw found (rw u.has_writer (rw u.has_storage refl)), refl)
    | inr other ↦ (rw other (rw u.has_writer (rw u.has_storage refl)), refl)
  ]

  -- the bytes of all pieces
  abbrev pub joined : List Bytes → Bytes
  joined [] = []
  joined (b ∷ bs) = b ++ joined bs

  module _ {l : MimeLibrary} (fs : FileSystem s l) (body : x.Stream → Bytes)
      (collects : Collects x body) where
    copy-write :
        (o : Option s.IoError) (bs : List Bytes) (failed : Option s.IoError) (r : Raw x)
        → (elim (unit_result x o) as (λ y. Option s.IoError × Raw x) [
          | ok u ↦ copy x fs bs failed r
          | err e ↦ (some e, r)
        ]).0
          ≡ none
        → o ≡ none
    copy-write none bs failed r h = refl
    copy-write (some e) bs failed r h = cc

    copy-step :
        (b : Bytes) (bs : List Bytes) (failed : Option s.IoError) (stream : x.Stream)
        → (x.write_all stream b).0 ≡ none
        → copy x fs (b ∷ bs) failed (record { writer = some (ready (live stream)) })
          ≡ copy x fs bs failed (record { writer = some (ready (live (x.write_all stream b).1)) })
    unfolding copy raw_write_all stream_write_all write_all
    copy-step b bs failed stream e =
        ap
          (λ (o : Option s.IoError). elim (unit_result x o) as (λ y. Option s.IoError × Raw x) [
            | ok u ↦
                copy x fs bs failed
                  (record { writer = some (ready (live (x.write_all stream b).1)) })
            | err e' ↦ (some e', record { writer = some (ready (live (x.write_all stream b).1)) })
          ])
          e

    -- If a file is copied to a response without an error, then reading the file did not fail, and the stream has got
    -- all pieces of the file, in order and without any change.
    pub copy-body :
        (bs : List Bytes) (failed : Option s.IoError) (stream : x.Stream)
        → (copy x fs bs failed (record { writer = some (ready (live stream)) })).0 ≡ none
        → (failed ≡ none)
          × (stream' : x.Stream) × ((copy x fs bs failed
                (record { writer = some (ready (live stream)) })).1.writer
              ≡ some (ready (live stream')))
          × (body stream' ≡ body stream ++ joined bs)
    unfolding copy raw_write_all stream_write_all write_all
    copy-body [] failed stream e = (e, stream, refl, sym (append-nil (body stream)))
    copy-body (b ∷ bs) failed stream e =
        let written_ok =
          copy-write (x.write_all stream b).0 bs failed
            (record { writer = some (ready (live (x.write_all stream b).1)) }) e in
        let step = copy-step b bs failed stream written_ok in
        let (read_ok, stream', p, q) =
          copy-body bs failed (x.write_all stream b).1
            (ap (λ (y : Option s.IoError × Raw x). y.0) (sym step) ∙ e) in
        (
          read_ok,
          stream',
          ap (λ (y : Option s.IoError × Raw x). y.1.writer) step ∙ p,
          q
              ∙ ap (λ c. c ++ joined bs) (collects.body-write_all stream b written_ok)
              ∙ append_assoc (body stream) b (joined bs),
        )
