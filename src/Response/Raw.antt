-- ===== src/Response/Raw.antt =====
-- src/response.rs: a response of a fixed length that is sent as it is, past the filters.
use rustful.Base.{
  All, ℕ, ◌≡◌, refl, ◌∙◌, ap, Option, none, some, List, [], ◌∷◌, ◌++◌, append-nil, append_assoc,
  ◌⊎◌, inl, inr, Bool, Bytes, Result, ok, err, length, replicate, sym,
}
use rustful.Http.{World, Content, Response, MaybeMock, mock_headers, set_mock_headers}
use rustful.Response.{Sending, as_bytes}
use rustful.Response.Sized.{Error, filter_error, io_error, close_header}
use rustful.Response.Chunked.{
  Streaming, StreamWriter, live, mocked, write_all, mock_start, mock_end,
}

module _ {w : World} {s : Sending w} (x : Streaming s) where
  -- the writer, or the error of starting it, until one of them is taken
  pub data RawWriter : Type 0 where
    ready : StreamWriter x → RawWriter
    broken : s.IoError → RawWriter

  pub record Raw : Type 0 where
    pub writer : Option RawWriter

  -- `start` has no errors but those of hyper
  abbrev pub raw_started : Error s ⊎ StreamWriter x → RawWriter
  raw_started (inl (io_error e)) = broken e
  raw_started (inl (filter_error m)) = broken (x.other_error m)
  raw_started (inr writer) = ready writer

  unfoldable pub raw_headers : Bool → ℕ → MaybeMock w → MaybeMock w
  unfolding close_header mock_headers set_mock_headers
  raw_headers force content_length writer =
      let closed = close_header s force writer in
      set_mock_headers closed (x.set_length content_length (mock_headers closed))

  -- `into_raw`; `none` is the panic "response used after drop"
  abbrev pub raw_of : Option (MaybeMock w) → Bool → ℕ → Option Raw
  raw_of none force content_length = none
  raw_of (some writer) force content_length = some (record {
    writer = some (raw_started (mock_start x (raw_headers force content_length writer)));
  })

  unfoldable pub into_raw : Response w → ℕ → Option Raw
  into_raw r content_length = raw_of r.writer r.force_close content_length

  -- `borrow_writer`: what `k` does with the writer, or the error that is in its place, once
  abbrev pub with_writer :
      {R : Type 0}
      → Option RawWriter
      → (StreamWriter x → Result R s.IoError × StreamWriter x)
      → Result R s.IoError × Raw
  with_writer none k = (err x.broken_pipe, record { writer = none })
  with_writer (some (broken e)) k = (err e, record { writer = none })
  with_writer (some (ready writer)) k =
      let (result, writer') = k writer in (result, record { writer = some (ready writer') })

  abbrev pub unit_result : Option s.IoError → Result (Unit {0}) s.IoError
  unit_result none = ok tt
  unit_result (some e) = err e

  abbrev pub size_result : s.IoError ⊎ ℕ → Result ℕ s.IoError
  size_result (inl e) = err e
  size_result (inr n) = ok n

  -- `Write for MaybeMock`
  unfoldable pub stream_write : Bytes → StreamWriter x → Result ℕ s.IoError × StreamWriter x
  stream_write b (live stream) =
      let (result, stream') = x.write stream b in (size_result result, live stream')
  stream_write b mocked = (ok 0, mocked)

  unfoldable pub stream_write_all :
      Bytes → StreamWriter x → Result (Unit {0}) s.IoError × StreamWriter x
  stream_write_all b writer = let (e, writer') = write_all x writer b in (unit_result e, writer')

  unfoldable pub stream_flush : StreamWriter x → Result (Unit {0}) s.IoError × StreamWriter x
  stream_flush (live stream) = let (e, stream') = x.flush stream in (unit_result e, live stream')
  stream_flush mocked = (ok tt, mocked)

  -- `Write for Raw`
  unfoldable pub raw_write : Raw → Bytes → Result ℕ s.IoError × Raw
  raw_write r b = with_writer r.writer (stream_write b)

  unfoldable pub raw_write_all : Raw → Bytes → Result (Unit {0}) s.IoError × Raw
  raw_write_all r b = with_writer r.writer (stream_write_all b)

  unfoldable pub raw_flush : Raw → Result (Unit {0}) s.IoError × Raw
  raw_flush r = with_writer r.writer stream_flush

  -- `Raw::try_send`; `send` is the same without the result
  unfoldable pub raw_try_send : Raw → Content w → Result (Unit {0}) s.IoError × Raw
  unfolding raw_write_all as_bytes
  raw_try_send r content = raw_write_all r (as_bytes content)

  unfoldable pub raw_send : Raw → Content w → Raw
  unfolding raw_try_send
  raw_send r content = (raw_try_send r content).1

  -- `Raw::end`
  abbrev pub end_writer : Option RawWriter → Result (Unit {0}) s.IoError
  end_writer none = ok tt
  end_writer (some (broken e)) = err e
  end_writer (some (ready writer)) = unit_result (mock_end x writer)

  unfoldable pub raw_end : Raw → Result (Unit {0}) s.IoError
  raw_end r = end_writer r.writer

  -- a sequence of chunks, with all results
  abbrev pub raw_sends : List (Content w) → Raw → List (Result (Unit {0}) s.IoError) × Raw
  raw_sends [] r = ([], r)
  raw_sends (c ∷ cs) r =
      let (result, r') = raw_try_send r c in
      let (results, r'') = raw_sends cs r' in (result ∷ results, r'')

  raw_sends-closed :
      (cs : List (Content w))
      → raw_sends cs (record { writer = none })
        ≡ (replicate (length cs) (err x.broken_pipe), record { writer = none })
  unfolding raw_try_send raw_write_all
  raw_sends-closed [] = refl
  raw_sends-closed (c ∷ cs) =
      ap (λ (r : List (Result (Unit {0}) s.IoError) × Raw). (err x.broken_pipe ∷ r.0, r.1))
        (raw_sends-closed cs)

  -- Where the response could not be started, the first chunk gets the error of starting, every later chunk
  -- gets that of a broken pipe, and the end that follows reports nothing more.
  pub raw_sends-broken :
      (r : Raw) (e : s.IoError) (c : Content w) (cs : List (Content w))
      → r.writer ≡ some (broken e)
      → ((raw_sends (c ∷ cs) r).0 ≡ err e ∷ replicate (length cs) (err x.broken_pipe))
        × (raw_end (raw_sends (c ∷ cs) r).1 ≡ ok tt)
  unfolding raw_try_send raw_write_all raw_end
  raw_sends-broken r e c cs p = rw p (
    ap (λ (l : List (Result (Unit {0}) s.IoError) × Raw). err e ∷ l.0) (raw_sends-closed cs),
    ap (λ (l : List (Result (Unit {0}) s.IoError) × Raw). end_writer l.1.writer)
        (raw_sends-closed cs),
  )

  -- the bytes of all chunks
  abbrev pub all_bytes : List (Content w) → Bytes
  all_bytes [] = []
  all_bytes (c ∷ cs) = as_bytes c ++ all_bytes cs

  -- streams of which one knows what was written to them
  pub record Collects (body : x.Stream → Bytes) : Type 0 where
    pub body-write_all :
        (stream : x.Stream) (b : Bytes)
        → (x.write_all stream b).0 ≡ none
        → body (x.write_all stream b).1 ≡ body stream ++ b

  module _ (body : x.Stream → Bytes) (collects : Collects body) where
    unit_result-none : (o : Option s.IoError) → unit_result o ≡ ok tt → o ≡ none
    unit_result-none none p = refl
    unit_result-none (some e) p = cc

    -- If all chunks to a response on its way succeed, the stream has got all their bytes, in order and without
    -- any change.
    pub raw_sends-body :
        (cs : List (Content w)) (stream : x.Stream)
        → All
            (λ (r : Result (Unit {0}) s.IoError). r ≡ ok tt)
            (raw_sends cs (record { writer = some (ready (live stream)) })).0
        → (stream' : x.Stream) × ((raw_sends cs
              (record { writer = some (ready (live stream)) })).1.writer
            ≡ some (ready (live stream')))
          × (body stream' ≡ body stream ++ all_bytes cs)
    unfolding raw_try_send raw_write_all stream_write_all write_all
    raw_sends-body [] stream all_ok = (stream, refl, sym (append-nil (body stream)))
    raw_sends-body (c ∷ cs) stream (first_ok, all_ok) =
        let (stream', p, q) = raw_sends-body cs (x.write_all stream (as_bytes c)).1 all_ok in
        (
          stream',
          p,
          q
              ∙ ap (λ b. b ++ all_bytes cs)
                  (collects.body-write_all stream (as_bytes c)
                    (unit_result-none (x.write_all stream (as_bytes c)).0 first_ok))
              ∙ append_assoc (body stream) (as_bytes c) (all_bytes cs),
        )
