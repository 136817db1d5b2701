-- ===== src/Response/Tests.antt =====
-- Filters at concrete responses.
use rustful.Base.{ℕ, ◌+◌, inr, none, some, length, ◌≡◌, refl, true, [], ◌∷◌}
use rustful.Http.{Response, bytes, new_response}
use rustful.Sample.{world, response_at, counting, sending}
use rustful.Response.Sized.{send_sized}
use rustful.Response.Chunked.{Streaming, live, ready, Chunked}
use rustful.Response.Filters.{Transparent, FreshLaws, send_sized-Transparent}

abbrev counting-Transparent : Transparent counting
counting-Transparent = record {
  begin-status = λ s g code headers. refl;
  begin-action = λ s g code headers. refl;
  begin-headers = λ s g code headers. refl;
  write-content = λ s g content. refl;
  end-action = λ s g. refl;
}

abbrev world-FreshLaws : FreshLaws world
world-FreshLaws = record {
  set_headers-headers = λ r. refl;
  set_status-status = λ r. refl;
  status-set_headers = λ r headers. refl;
}

-- two counting filters, and the connection to be closed
abbrev filtered : Response world
filtered = record (response_at 200) { filters = counting ∷ counting ∷ []; force_close = true }

send_sized-Transparent_example :
    (send_sized sending filtered (bytes (b'a' ∷ []))).0
    ≡ (send_sized sending (record filtered { filters = [] }) (bytes (b'a' ∷ []))).0
unfolding new_response
send_sized-Transparent_example =
    send_sized-Transparent sending world-FreshLaws filtered (bytes (b'a' ∷ []))
      (counting-Transparent, (counting-Transparent, tt))

-- a stream that counts its bytes
abbrev pub streaming : Streaming sending
streaming = record {
  Stream = ℕ;
  write_zero = 0;
  broken_pipe = 1;
  start = λ r. inr 0;
  write_all = λ n b. (none, n + length b);
  write = λ n b. (inr (length b), n + length b);
  flush = λ n. (none, n);
  end = λ n. none;
  remove_length = λ headers. headers;
  set_length = λ n headers. headers;
  other_error = λ message. 2;
}

abbrev pub chunks : Chunked streaming
chunks = record {
  writer = some (ready (live 0));
  filters = counting ∷ [];
  global = tt;
  filter_storage = 0;
}
