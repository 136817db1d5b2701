-- ===== src/Response/Sized.antt =====
-- src/response.rs: `send_sized` and what is built on it, and the end of an unsent response.
use rustful.Base.{Bool, Option, none, some, List, [], ◌∷◌, ◌++◌, Bytes, if◌then◌else◌}
use rustful.Http.{
  World, Content, bytes, Action, next, silent_abort, abort, Response, ResponseFilter, MaybeMock,
  actual, mock, mock_status, set_mock_status, mock_headers, set_mock_headers,
}
use rustful.Response.{
  Sending, as_bytes, Headed, Ended, ended, failed, accepted, aborted, filter_headers,
  filter_content, filter_end,
}

module _ {w : World} (s : Sending w) where
  -- `Error`
  pub data Error : Type 0 where
    filter_error : Bytes → Error
    io_error : s.IoError → Error

  -- What became of the writer: it was sent, with a body, or dropped on the error of a filter.
  pub data Sent : Type 0 where
    sent : MaybeMock w → Bytes → Option Error → Sent
    dropped : Bytes → Sent

  abbrev pub io_result : Option s.IoError → Option Error
  io_result none = none
  io_result (some e) = some (io_error e)

  -- `MaybeMock::send`
  unfoldable pub mock_send : MaybeMock w → Bytes → Option s.IoError
  mock_send (actual r) payload = s.send r payload
  mock_send (mock headers status) payload = none

  unfoldable pub close_header : Bool → MaybeMock w → MaybeMock w
  unfolding mock_headers set_mock_headers
  close_header force writer =
      if force then set_mock_headers writer (s.set_close (mock_headers writer)) else writer

  unfoldable pub send : MaybeMock w → Bytes → Sent
  unfolding mock_send
  send writer payload = sent writer payload (io_result (mock_send writer payload))

  -- the two loops over a write queue; the last of `Sent` is what the caller does with the buffer
  unfoldable pub buffer_queue : List (Action w) → Bytes → (Bytes → Sent) → Sent
  unfolding as_bytes
  buffer_queue [] buffer k = k buffer
  buffer_queue (next (some c) ∷ q) buffer k = buffer_queue q (buffer ++ as_bytes c) k
  buffer_queue (next none ∷ q) buffer k = buffer_queue q buffer k
  buffer_queue (abort e ∷ q) buffer k = dropped e
  buffer_queue (silent_abort ∷ q) buffer k = k buffer

  unfoldable pub end_body : Ended w → MaybeMock w → Bytes → Sent
  unfolding buffer_queue send
  end_body (failed e) writer buffer = dropped e
  end_body (ended q storage) writer buffer = buffer_queue q buffer (send writer)

  unfoldable pub send_filtered :
      List (ResponseFilter w) → w.Global → Action w × w.Storage → MaybeMock w → Bytes → Sent
  unfolding filter_end as_bytes end_body
  send_filtered filters global (next (some c), storage) writer buffer =
      end_body (filter_end global filters storage) writer (buffer ++ as_bytes c)
  send_filtered filters global (next none, storage) writer buffer =
      end_body (filter_end global filters storage) writer buffer
  send_filtered filters global (silent_abort, storage) writer buffer =
      end_body (filter_end global filters storage) writer buffer
  send_filtered filters global (abort e, storage) writer buffer = dropped e

  -- after the headers have gone through the filters
  unfoldable pub send_body :
      List (ResponseFilter w) → w.Global → Bool → Content w → MaybeMock w → Headed w → Sent
  unfolding close_header set_mock_headers set_mock_status buffer_queue filter_content send_filtered
  send_body filters global force content writer headed = elim headed.result [
    | aborted e ↦ dropped e
    | accepted status q ↦
        let started =
          set_mock_status (close_header force (set_mock_headers writer headed.headers)) status in
        buffer_queue q [] (λ buffer.
          send_filtered filters global (filter_content global filters content headed.storage)
            started buffer)
  ]

  unfoldable pub send_through :
      List (ResponseFilter w) → w.Global → Bool → Content w → MaybeMock w → w.Storage → Sent
  unfolding filter_headers mock_status mock_headers send as_bytes close_header send_body
  send_through [] global force content writer storage =
      send (close_header force writer) (as_bytes content)
  send_through (f ∷ fs) global force content writer storage =
      send_body (f ∷ fs) global force content writer
        (filter_headers global (f ∷ fs) (mock_status writer) (mock_headers writer) storage)

  unfoldable pub taken :
      Option (MaybeMock w) → Option w.Storage → Response w → Content w → Option Sent
  unfolding send_through
  taken none storage r content = none
  taken (some writer) none r content = none
  taken (some writer) (some storage) r content =
      some (send_through r.filters r.global r.force_close content writer storage)

  -- `send_sized`, `none` where it panics ("response used after drop"), with the response after it
  unfoldable pub send_sized : Response w → Content w → Option Sent × Response w
  unfolding taken
  send_sized r content =
      (taken r.writer r.filter_storage r content, record r { writer = none; filter_storage = none })

  -- `drop`: an unsent response is sent with an empty body
  unfoldable pub drop_writer : Option (MaybeMock w) → Response w → Option (Option Sent)
  unfolding send_sized
  drop_writer none r = none
  drop_writer (some writer) r = some (send_sized r (bytes [])).0

  -- `none` where nothing is done
  unfoldable pub drop : Response w → Option (Option Sent)
  unfolding drop_writer
  drop r = drop_writer r.writer r

  -- `try_send_data`, with the drop of the response at its end
  unfoldable pub try_send_data : Response w → Content w → Option Sent × Option (Option Sent)
  unfolding send_sized drop
  try_send_data r content = let (result, r') = send_sized r content in (result, drop r')
