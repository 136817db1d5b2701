-- ===== src/Response/Writers.antt =====
-- src/response.rs: a response in chunks as a writer of the standard library, and its end.
use rustful.Base.{
  ℕ, ◌≡◌, refl, ap, Option, none, some, List, [], ◌∷◌, Bytes, Result, ok, err, length, replicate,
}
use rustful.Http.{World, Content, bytes}
use rustful.Response.{Sending}
use rustful.Response.Sized.{Error, filter_error, io_error}
use rustful.Response.Raw.{stream_flush}
use rustful.Response.Chunked.{
  Streaming, StreamWriter, ChunkWriter, ready, broken, Chunked, SendResult, written, refused,
  panicked, try_send, finish,
}

module _ {w : World} {s : Sending w} (x : Streaming s) where
  -- `response_to_io_result`
  unfoldable pub response_to_io_result : {T : Type 0} → Result T (Error s) → Result T s.IoError
  response_to_io_result (ok v) = ok v
  response_to_io_result (err (io_error e)) = err e
  response_to_io_result (err (filter_error message)) = err (x.other_error message)

  -- the result of `try_send`, `none` for its panic
  abbrev pub result_of : SendResult x → Option (Result ℕ (Error s))
  result_of (written n) = some (ok n)
  result_of (refused e) = some (err e)
  result_of panicked = none

  abbrev pub map_result : {A B : Type 0} → (A → B) → Option A → Option B
  map_result f none = none
  map_result f (some a) = some (f a)

  -- `Write for Chunked`
  unfoldable pub chunk_write : Chunked x → Bytes → Option (Result ℕ s.IoError) × Chunked x
  unfolding response_to_io_result
  chunk_write c content =
      let (result, c') = try_send x c (bytes content) in
      (map_result (λ r. response_to_io_result r) (result_of result), c')

  abbrev pub without_size : Result ℕ s.IoError → Result (Unit {0}) s.IoError
  without_size (ok n) = ok tt
  without_size (err e) = err e

  unfoldable pub chunk_write_all :
      Chunked x → Bytes → Option (Result (Unit {0}) s.IoError) × Chunked x
  unfolding chunk_write
  chunk_write_all c content =
      let (result, c') = chunk_write c content in (map_result without_size result, c')

  -- `borrow_writer`, with what `k` does with the writer
  abbrev pub with_chunk_writer :
      {R : Type 0}
      → Option (ChunkWriter x)
      → Chunked x
      → (StreamWriter x → Result R s.IoError × StreamWriter x)
      → Result R s.IoError × Chunked x
  with_chunk_writer none c k = (response_to_io_result (err (io_error x.broken_pipe)), c)
  with_chunk_writer (some (broken e)) c k =
      (response_to_io_result (err e), record c { writer = none })
  with_chunk_writer (some (ready writer)) c k =
      let (result, writer') = k writer in (result, record c { writer = some (ready writer') })

  unfoldable pub chunk_flush : Chunked x → Result (Unit {0}) s.IoError × Chunked x
  unfolding response_to_io_result
  chunk_flush c = with_chunk_writer c.writer c (λ writer. stream_flush x writer)

  -- `Chunked::send`; the error is logged
  unfoldable pub chunk_send : Chunked x → Content w → Chunked x
  chunk_send c content = (try_send x c content).1

  -- `drop`: what `finish` does, if there is a writer
  abbrev pub drop_with : Option (ChunkWriter x) → Chunked x → Option (Option (Option (Error s)))
  drop_with none c = none
  drop_with (some writer) c = some (finish x c)

  unfoldable pub chunk_drop : Chunked x → Option (Option (Option (Error s)))
  chunk_drop c = drop_with c.writer c

  -- `end`: `finish`, and the drop of what it leaves, which has no writer
  unfoldable pub chunk_end :
      Chunked x → Option (Option (Error s)) × Option (Option (Option (Error s)))
  unfolding chunk_drop
  chunk_end c = (finish x c, chunk_drop (record c { writer = none }))

  -- a sequence of chunks, with all results
  abbrev pub chunk_sends : List (Content w) → Chunked x → List (SendResult x) × Chunked x
  chunk_sends [] c = ([], c)
  chunk_sends (content ∷ cs) c =
      let (result, c') = try_send x c content in
      let (results, c'') = chunk_sends cs c' in (result ∷ results, c'')

  chunk_sends-closed :
      (cs : List (Content w)) (c : Chunked x)
      → chunk_sends cs (record c { writer = none })
        ≡ (replicate (length cs) (refused (io_error x.broken_pipe)), record c { writer = none })
  unfolding try_send
  chunk_sends-closed [] c = refl
  chunk_sends-closed (content ∷ cs) c =
      ap (λ (r : List (SendResult x) × Chunked x). (refused (io_error x.broken_pipe) ∷ r.0, r.1))
        (chunk_sends-closed cs c)

  -- Where the headers or the start of a response failed, the first chunk gets that error, every later
  -- chunk gets that of a broken pipe, no filter sees any of them, and nothing is left to finish when the
  -- response is dropped.
  pub chunk_sends-broken :
      (c : Chunked x) (e : Error s) (content : Content w) (cs : List (Content w))
      → c.writer ≡ some (broken e)
      → (chunk_sends (content ∷ cs) c ≡ (
        refused e ∷ replicate (length cs) (refused (io_error x.broken_pipe)),
        record c { writer = none },
      ))
        × (chunk_drop (chunk_sends (content ∷ cs) c).1 ≡ none)
  unfolding try_send chunk_drop
  chunk_sends-broken c e content cs p = rw p (
    ap (λ (r : List (SendResult x) × Chunked x). (refused e ∷ r.0, r.1)) (chunk_sends-closed cs c),
    ap (λ (r : List (SendResult x) × Chunked x). drop_with r.1.writer r.1)
        (chunk_sends-closed cs c),
  )
