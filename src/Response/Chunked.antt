-- ===== src/Response/Chunked.antt =====
-- src/response.rs: a response that is sent in chunks.
use rustful.Base.{
  ℕ, ◌≡◌, refl, Option, none, some, List, [], ◌∷◌, ◌⊎◌, inl, inr, Bool, Bytes, All, length,
}
use rustful.Http.{
  World, Content, Action, next, silent_abort, abort, Response, ResponseFilter, MaybeMock, actual,
  mock, mock_status, set_mock_status, mock_headers, set_mock_headers,
}
use rustful.Response.{
  Sending, as_bytes, Headed, accepted, aborted, Ended, ended, failed, filter_headers,
  filter_content, filter_end,
}
use rustful.Response.Sized.{Error, filter_error, io_error, close_header}
use rustful.Response.Filters.{Transparent, content_loop-quiet}

-- What hyper does with a response that is streamed; errors are values of `IoError`.
pub record Streaming {w : World} (s : Sending w) : Type 1 where
  pub Stream : Type 0
  pub write_zero : s.IoError
  pub broken_pipe : s.IoError
  -- the error of `start`, or the stream
  pub start : w.Fresh → s.IoError ⊎ Stream
  pub write_all : Stream → Bytes → Option s.IoError × Stream
  -- an error, or the number of bytes that are written
  pub write : Stream → Bytes → (s.IoError ⊎ ℕ) × Stream
  pub flush : Stream → Option s.IoError × Stream
  pub end : Stream → Option s.IoError
  pub remove_length : w.Headers → w.Headers
  -- the length replaces one that is there
  pub set_length : ℕ → w.Headers → w.Headers
  -- `io::Error::new(Other, e)` for the message of a filter
  pub other_error : Bytes → s.IoError

module _ {w : World} {s : Sending w} (x : Streaming s) where
  pub data StreamWriter : Type 0 where
    live : x.Stream → StreamWriter
    mocked : StreamWriter

  pub data ChunkWriter : Type 0 where
    ready : StreamWriter → ChunkWriter
    broken : Error s → ChunkWriter

  pub record Chunked : Type 0 where
    pub writer : Option ChunkWriter
    pub filters : List (ResponseFilter w)
    pub global : w.Global
    pub filter_storage : w.Storage

  pub data SendResult : Type 0 where
    written : ℕ → SendResult
    refused : Error s → SendResult
    panicked : SendResult

  abbrev pub wrapped : Option s.IoError × x.Stream → Option s.IoError × StreamWriter
  wrapped (e, stream) = (e, live stream)

  -- `write_all` of `MaybeMock`: a mock takes no bytes, which `write_all` of the standard library reports
  -- unless there are none to take
  unfoldable pub write_all : StreamWriter → Bytes → Option s.IoError × StreamWriter
  write_all (live stream) b = wrapped (x.write_all stream b)
  write_all mocked [] = (none, mocked)
  write_all mocked (b ∷ bs) = (some x.write_zero, mocked)

  unfoldable pub mock_end : StreamWriter → Option s.IoError
  mock_end (live stream) = x.end stream
  mock_end mocked = none

  abbrev pub started : s.IoError ⊎ x.Stream → Error s ⊎ StreamWriter
  started (inl e) = inl (io_error e)
  started (inr stream) = inr (live stream)

  unfoldable pub mock_start : MaybeMock w → Error s ⊎ StreamWriter
  mock_start (actual r) = started (x.start r)
  mock_start (mock headers status) = inr mocked

  -- the loop over the write queue of the headers
  unfoldable pub write_queue : List (Action w) → StreamWriter → ChunkWriter
  write_queue [] writer = ready writer
  write_queue (next none ∷ q) writer = write_queue q writer
  write_queue (next (some c) ∷ q) writer =
      let (error, writer') = write_all writer (as_bytes c) in
      elim error [ some e ↦ broken (io_error e) | none ↦ write_queue q writer' ]
  write_queue (abort e ∷ q) writer = broken (filter_error e)
  write_queue (silent_abort ∷ q) writer = ready writer

  abbrev pub write_started : List (Action w) → Error s ⊎ StreamWriter → ChunkWriter
  write_started q (inl e) = broken e
  write_started q (inr writer) = write_queue q writer

  -- `into_chunked`, once writer and storage are taken out of the response
  abbrev pub chunk_writer : Bool → MaybeMock w → Headed w → ChunkWriter
  chunk_writer force writer headed = elim headed.result [
    | aborted e ↦ broken (filter_error e)
    | accepted status q ↦ write_started q (
        mock_start
          (set_mock_status (close_header s force (set_mock_headers writer headed.headers)) status))
  ]

  abbrev pub chunked : Option (MaybeMock w) → Option w.Storage → Response w → Option Chunked
  chunked none storage r = none
  chunked (some writer) none r = none
  chunked (some writer) (some storage) r =
      let headed =
        filter_headers r.global r.filters (mock_status writer)
          (x.remove_length (mock_headers writer)) storage in
      some (record {
        writer = some (chunk_writer r.force_close writer headed);
        filters = r.filters;
        global = r.global;
        filter_storage = headed.storage;
      })

  -- `none` is the panic "response used after drop"
  unfoldable pub into_chunked : Response w → Option Chunked
  into_chunked r = chunked r.writer r.filter_storage r

  abbrev pub write_result : ℕ → Option s.IoError → SendResult
  write_result n none = written n
  write_result n (some e) = refused (io_error e)

  abbrev pub send_chunk : StreamWriter → Action w → SendResult × StreamWriter
  send_chunk writer (next (some c)) =
      let (error, writer') = write_all writer (as_bytes c) in
      (write_result (length (as_bytes c)) error, writer')
  send_chunk writer (next none) = (written 0, writer)
  send_chunk writer (abort e) = (refused (filter_error e), writer)
  send_chunk writer silent_abort = (panicked, writer)

  abbrev pub try_send_to : Option ChunkWriter → Chunked → Content w → SendResult × Chunked
  try_send_to none c content = (refused (io_error x.broken_pipe), c)
  try_send_to (some (broken e)) c content = (refused e, record c { writer = none })
  try_send_to (some (ready writer)) c content =
      let (action, storage) = filter_content c.global c.filters content c.filter_storage in
      let (result, writer') = send_chunk writer action in
      (result, record c { writer = some (ready writer'); filter_storage = storage })

  unfoldable pub try_send : Chunked → Content w → SendResult × Chunked
  try_send c content = try_send_to c.writer c content

  -- the loop over the write queue at the end, and the end of the stream
  abbrev pub finished : Option s.IoError → Option (Error s)
  finished none = none
  finished (some e) = some (io_error e)

  unfoldable pub finish_queue : List (Action w) → StreamWriter → Option (Error s)
  finish_queue [] writer = finished (mock_end writer)
  finish_queue (next (some c) ∷ q) writer =
      let (error, writer') = write_all writer (as_bytes c) in
      elim error [ some e ↦ some (io_error e) | none ↦ finish_queue q writer' ]
  finish_queue (next none ∷ q) writer = finish_queue q writer
  finish_queue (silent_abort ∷ q) writer = finish_queue q writer
  finish_queue (abort e ∷ q) writer = some (filter_error e)

  abbrev pub finish_ended : StreamWriter → Ended w → Option (Error s)
  finish_ended writer (failed e) = some (filter_error e)
  finish_ended writer (ended q storage) = finish_queue q writer

  -- `finish`: the error if there is one, or `none` for the panic "can only finish once"
  abbrev pub finish_writer : Option ChunkWriter → Chunked → Option (Option (Error s))
  finish_writer none c = none
  finish_writer (some (broken e)) c = some (some e)
  finish_writer (some (ready writer)) c =
      some (finish_ended writer (filter_end c.global c.filters c.filter_storage))

  unfoldable pub finish : Chunked → Option (Option (Error s))
  finish c = finish_writer c.writer c

  -- the result of a chunk without filters
  abbrev pub sent_plain : StreamWriter → Content w → SendResult × StreamWriter
  sent_plain writer content = send_chunk writer (next (some content))

  -- Filters that change nothing let every chunk through: it is written as it is to the open writer, the
  -- result is its length or the error of the writer, and only the storage of the filters may change.
  pub try_send-Transparent :
      (c : Chunked) (content : Content w) {writer : StreamWriter}
      → c.writer ≡ some (ready writer)
      → All Transparent c.filters
      → (storage : w.Storage) × (try_send c content ≡ (
        (sent_plain writer content).0,
        record c { writer = some (ready (sent_plain writer content).1); filter_storage = storage },
      ))
  unfolding try_send filter_content
  try_send-Transparent c content e a =
      let (storage, p) = content_loop-quiet c.filters c.global (some content) c.filter_storage a in
      (storage, rw e (rw p refl))
