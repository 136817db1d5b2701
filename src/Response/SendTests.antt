-- ===== src/Response/SendTests.antt =====
-- What is sent with concrete contents, files and streams.
use rustful.Base.{
  ℕ, ◌≡◌, refl, true, none, some, List, [], ◌∷◌, Bytes, length, Option, ok, replicate, inr, ◌++◌,
}
use rustful.File.{MimeLibrary}
use rustful.Http.{Response, bytes, string, Content, new_response, actual, set_mock_status}
use rustful.Sample.{world, sending, response_at}
use rustful.Response.Sized.{send_through, io_error}
use rustful.Response.Chunked.{Streaming, live, broken, Chunked, refused, write_all}
use rustful.Response.Raw.{ready, stream_write_all}
use rustful.Response.Writers.{chunk_sends, chunk_drop, chunk_sends-broken}
use rustful.Response.Contents.{
  IoErrors, Unused, option_kind, result_kind, data_kind, error_kind, try_send, instance_of,
  try_send-once,
}
use rustful.Response.Files.{FileSystem, handle, open_error, sent_error, copy}
use rustful.Response.Files.Sends.{handle_lem, joined, copy-body}
use rustful.Response.Tests.{streaming, chunks}

abbrev errors : IoErrors sending
errors = record { not_found = λ e. true; to_string = λ e. e ∷ [] }

abbrev fresh : Response world
fresh = response_at 200

fresh-Unused : Unused sending fresh
unfolding new_response
fresh-Unused = record {
  writer = actual (200, 0);
  storage = 0;
  has_writer = refl;
  has_storage = refl;
}

-- a result whose data are missing
try_send-once_example :
    (try_send sending
      (instance_of sending errors (result_kind (option_kind data_kind) error_kind))
      fresh
      (ok none)).sends
    ≡ some (
        send_through sending fresh.filters fresh.global fresh.force_close
          (bytes [])
          (actual (404, 0))
          0)
      ∷ []
unfolding fresh-Unused set_mock_status
try_send-once_example =
    try_send-once sending errors (result_kind (option_kind data_kind) error_kind) (ok none) fresh
      fresh-Unused

abbrev broken_chunks : Chunked streaming
broken_chunks = record chunks { writer = some (broken (io_error 7)) }

abbrev letter : Content world
letter = bytes (b'a' ∷ [])

chunk_sends-broken_example :
    (chunk_sends streaming (letter ∷ letter ∷ []) broken_chunks ≡ (
      refused (io_error 7) ∷ replicate 1 (refused (io_error 1)),
      record broken_chunks { writer = none },
    ))
    × (chunk_drop streaming (chunk_sends streaming (letter ∷ letter ∷ []) broken_chunks).1 ≡ none)
chunk_sends-broken_example =
    chunk_sends-broken streaming broken_chunks (io_error 7) letter (letter ∷ []) refl

handle_lem_example :
    (handle streaming errors (open_error 3 fresh)
      ≡ some (
          send_through sending fresh.filters fresh.global fresh.force_close
            (string [])
            (set_mock_status (actual (200, 0)) 404)
            0)
        ∷ [])
    × (handle streaming errors (sent_error 3) ≡ [])
unfolding fresh-Unused
handle_lem_example = handle_lem streaming errors 3 fresh fresh-Unused

-- a stream that keeps its bytes
abbrev keeping : Streaming sending
keeping = record {
  Stream = Bytes;
  write_zero = 0;
  broken_pipe = 1;
  start = λ r. inr [];
  write_all = λ body b. (none, body ++ b);
  write = λ body b. (inr (length b), body ++ b);
  flush = λ body. (none, body);
  end = λ body. none;
  remove_length = λ headers. headers;
  set_length = λ n headers. headers;
  other_error = λ message. 2;
}

abbrev mimes : MimeLibrary
mimes = record {
  TopLevel = Bytes;
  SubLevel = Bytes;
  top_ext = λ t. t;
  sub_ext = λ s. s;
  table = λ ext. none;
}

-- every path leads to a file of two pieces
abbrev files : FileSystem sending mimes
files = record {
  File = Unit;
  open_file = λ path. ok tt;
  metadata_len = λ file. ok 3;
  pieces = λ file. ((b'a' ∷ []) ∷ (b'b' ∷ b'c' ∷ []) ∷ [], none);
  extension = λ path. none;
  octet_stream = record { top = []; sub = []; parameters = [] };
  set_content_type = λ mime headers. headers;
}

abbrev two_pieces : List Bytes
two_pieces = (b'a' ∷ []) ∷ (b'b' ∷ b'c' ∷ []) ∷ []

copy-body_example :
    (◌≡◌ {A = Option ℕ} none none)
    × (stream' : Bytes) × ((copy keeping files two_pieces none
          (record { writer = some (ready (live [])) })).1.writer
        ≡ some (ready (live stream')))
    × (stream' ≡ [] ++ joined keeping two_pieces)
unfolding copy stream_write_all write_all
copy-body_example =
    copy-body keeping files (λ body. body) (record { body-write_all = λ stream b e. refl })
      two_pieces none [] refl
