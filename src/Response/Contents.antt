-- ===== src/Response/Contents.antt =====
-- src/response.rs: what can be sent as a response, and that it is sent once.
use rustful.Base.{
  ℕ, ◌≡◌, refl, Bool, if◌then◌else◌, Bool-cases, inl, inr, Option, none, some, List, [], ◌∷◌, Bytes,
  Result, ok, err,
}
use rustful.Text.Utf8.{is_valid}
use rustful.Http.{World, Content, bytes, string, Response, MaybeMock, set_status, set_mock_status}
use rustful.Response.{Sending}
use rustful.Response.Sized.{
  Error, filter_error, Sent, sent, dropped, try_send_data, send_sized, drop, send_through, taken,
  drop_writer,
}

module _ {w : World} where
  -- `into_bytes` of `Data`
  unfoldable pub into_bytes : Content w → Bytes
  into_bytes (bytes b) = b
  into_bytes (string s) = s

  -- `as_string` and `into_string`; the error is that of the standard library, for the bytes
  unfoldable pub as_string : Content w → Result Bytes Bytes
  as_string (bytes b) = if is_valid b then ok b else err b
  as_string (string s) = ok s

-- The errors of the standard library: their kind, as far as the code looks at it, and their text.
pub record IoErrors {w : World} (s : Sending w) : Type 0 where
  pub not_found : s.IoError → Bool
  pub to_string : s.IoError → Bytes

module _ {w : World} (s : Sending w) where
  -- What `send_response` returns, the error if there is one, and all that is sent meanwhile, also by the drop of
  -- the response. A panic is `none` among what is sent.
  pub record Reply (E : Type 0) : Type 0 where
    pub error : Option E
    pub sends : List (Option (Sent s))

  pub record SendResponse (C E : Type 0) : Type 0 where
    pub send_response : C → Response w → Reply E

  abbrev pub error_of : Option (Sent s) → Option (Error s)
  error_of none = none
  error_of (some (sent writer payload e)) = e
  error_of (some (dropped message)) = some (filter_error message)

  abbrev pub sends_of : Option (Sent s) → Option (Option (Sent s)) → List (Option (Sent s))
  sends_of first none = first ∷ []
  sends_of first (some second) = first ∷ second ∷ []

  -- `SendResponse` for all that becomes `Data`
  unfoldable pub reply_data : Content w → Response w → Reply (Error s)
  unfolding try_send_data
  reply_data content r =
      let (first, second) = try_send_data s r content in
      record { error = error_of first; sends = sends_of first second }

  -- a response that is dropped
  abbrev pub drop_sends : Option (Option (Sent s)) → List (Option (Sent s))
  drop_sends none = []
  drop_sends (some x) = x ∷ []

  abbrev pub map_error : {E F : Type 0} → (E → F) → Reply E → Reply F
  map_error f r = record {
    error = elim r.error [ none ↦ none | some e ↦ some (f e) ];
    sends = r.sends;
  }

  -- `SendResponse` for `Result`
  unfoldable pub reply_result :
      {T U E F : Type 0}
      → SendResponse T E
      → SendResponse U F
      → (F → E)
      → Result T U
      → Response w
      → Reply E
  unfolding set_status
  reply_result t u into (ok content) r = t.send_response content (set_status r 200)
  reply_result t u into (err error) r = map_error into (u.send_response error (set_status r 500))

  -- `SendResponse` for `Option`
  unfoldable pub reply_option : {T E : Type 0} → SendResponse T E → Option T → Response w → Reply E
  unfolding set_status drop
  reply_option t (some content) r = t.send_response content r
  reply_option t none r = record { error = none; sends = drop_sends (drop s (set_status r 404)) }

  -- `SendResponse` for `io::Error`
  unfoldable pub reply_error : IoErrors s → s.IoError → Response w → Reply (Error s)
  unfolding reply_data set_status
  reply_error i e r =
      if i.not_found e
      then reply_data (string (i.to_string e)) (set_status r 404)
      else reply_data (string (i.to_string e)) r

  -- `Response::try_send`; `send` hands the error to `handle`, which logs it
  unfoldable pub try_send : {C E : Type 0} → SendResponse C E → Response w → C → Reply E
  try_send c r content = c.send_response content r

  -- a response that has not been used
  pub record Unused (r : Response w) : Type 0 where
    pub writer : MaybeMock w
    pub storage : w.Storage
    pub has_writer : r.writer ≡ some writer
    pub has_storage : r.filter_storage ≡ some storage

  -- The types that can be sent, as they are built from data and errors.
  pub data Sendable : Type 0 where
    data_kind error_kind : Sendable
    option_kind : Sendable → Sendable
    result_kind : Sendable → Sendable → Sendable

  module _ (i : IoErrors s) where
    abbrev pub Sends : Sendable → Type 0
    Sends data_kind = Content w
    Sends error_kind = s.IoError
    Sends (option_kind k) = Option (Sends k)
    Sends (result_kind k l) = Result (Sends k) (Sends l)

    abbrev pub instance_of : (k : Sendable) → SendResponse (Sends k) (Error s)
    instance_of data_kind = record { send_response = reply_data }
    instance_of error_kind = record { send_response = reply_error i }
    instance_of (option_kind k) = record { send_response = reply_option (instance_of k) }
    instance_of (result_kind k l) = record {
      send_response = reply_result (instance_of k) (instance_of l) (λ e. e);
    }

    set_status-Unused : (r : Response w) (code : ℕ) → Unused r → Unused (set_status r code)
    unfolding set_status
    set_status-Unused r code u = record {
      writer = set_mock_status u.writer code;
      storage = u.storage;
      has_writer = rw u.has_writer refl;
      has_storage = u.has_storage;
    }

    -- The reference: the content that is sent in the end, and the response with the status that it is sent with. The status
    -- of an inner value comes after that of an outer one.
    abbrev pub chosen : (k : Sendable) → Sends k → MaybeMock w → Content w × MaybeMock w
    chosen data_kind content m = (content, m)
    chosen error_kind e m =
        (string (i.to_string e), if i.not_found e then set_mock_status m 404 else m)
    chosen (option_kind k) none m = (bytes [], set_mock_status m 404)
    chosen (option_kind k) (some content) m = chosen k content m
    chosen (result_kind k l) (ok content) m = chosen k content (set_mock_status m 200)
    chosen (result_kind k l) (err content) m = chosen l content (set_mock_status m 500)

    -- one pass of a content through the filters
    abbrev pub passed : Response w → w.Storage → Content w × MaybeMock w → Sent s
    passed r storage (content, m) =
        send_through s r.filters r.global r.force_close content m storage

    reply_data-once :
        (content : Content w) (r : Response w) (u : Unused r)
        → (reply_data content r).sends ≡ some (passed r u.storage (content, u.writer)) ∷ []
    unfolding reply_data try_send_data send_sized drop taken drop_writer
    reply_data-once content r u = rw u.has_writer (rw u.has_storage refl)

    drop-once :
        (r : Response w) (u : Unused r)
        → drop_sends (drop s r) ≡ some (passed r u.storage (bytes [], u.writer)) ∷ []
    unfolding send_sized drop taken drop_writer
    drop-once r u = rw u.has_writer (rw u.has_storage refl)

    -- Whatever is sent with an unused response, data, an error of the standard library, or options and results of
    -- these however nested, one content passes through the response filters, once and without a panic: the data or the text
    -- of the error inside, or nothing where there are no data. It goes with the status of the innermost value that
    -- sets one: 404 for missing data and for an error that something was not found, 200 and 500 for the two sides of a result.
    pub try_send-once :
        (k : Sendable) (content : Sends k) (r : Response w) (u : Unused r)
        → (try_send (instance_of k) r content).sends
          ≡ some (passed r u.storage (chosen k content u.writer)) ∷ []
    unfolding try_send reply_option reply_result reply_error set_status set_status-Unused
    try_send-once data_kind content r u = reply_data-once content r u
    try_send-once error_kind e r u = elim (Bool-cases (i.not_found e)) [
      | inl found ↦
          rw found (
            reply_data-once (string (i.to_string e)) (set_status r 404) (set_status-Unused r 404 u))
      | inr other ↦ rw other (reply_data-once (string (i.to_string e)) r u)
    ]
    try_send-once (option_kind k) (some content) r u = try_send-once k content r u
    try_send-once (option_kind k) none r u =
        drop-once (set_status r 404) (set_status-Unused r 404 u)
    try_send-once (result_kind k l) (ok content) r u =
        try_send-once k content (set_status r 200) (set_status-Unused r 200 u)
    try_send-once (result_kind k l) (err content) r u =
        try_send-once l content (set_status r 500) (set_status-Unused r 500 u)
