-- ===== src/Response.antt =====
-- src/response.rs: sending a response through the filters.
pub mod Filters
pub mod Sized
pub mod Chunked
pub mod Raw
pub mod Writers
pub mod Contents
pub mod Files
mod Tests
mod SendTests
use rustful.Base.{ℕ, Bool, true, false, Option, none, some, List, [], ◌∷◌, ◌++◌, reverse, Bytes}
use rustful.Http.{
  World, Content, bytes, string, Action, next, silent_abort, abort, ResponseFilter, Begun, Response,
  MaybeMock, actual, mock, mock_status, set_mock_status, mock_headers, set_mock_headers, set_status,
}

-- What hyper does with a response that is sent, and the changes of headers that the program asks for.
pub record Sending (w : World) : Type 1 where
  pub IoError : Type 0
  -- the error of `send`, if there is one
  pub send : w.Fresh → Bytes → Option IoError
  -- `Connection: close`
  pub set_close : w.Headers → w.Headers

module _ {w : World} where
  unfoldable pub as_bytes : Content w → Bytes
  as_bytes (bytes b) = b
  as_bytes (string s) = s

module _ (w : World) where
  -- the result of `filter_map` over the write queue: the actions that the filter gives back, the last
  -- error that stood in the queue, and the storage
  pub record Rewritten : Type 0 where
    pub queue : List (Action w)
    pub error : Option Bytes
    pub storage : w.Storage

module _ {w : World} (f : ResponseFilter w) (global : w.Global) where
  unfoldable pub rewrite : List (Action w) → Option Bytes → w.Storage → Rewritten w
  rewrite [] error storage = record { queue = []; error = error; storage = storage }
  rewrite (next c ∷ q) error storage =
      let (action, storage') = f.write storage global c in
      let rest = rewrite q error storage' in record rest { queue = action ∷ rest.queue }
  rewrite (silent_abort ∷ q) error storage = rewrite q error storage
  rewrite (abort e ∷ q) error storage = rewrite q (some e) storage

-- `filter_headers`: the status and the write queue, or the message of an error; the headers and the
-- storage change in either case
module _ (w : World) where
  pub data HeadersResult : Type 0 where
    accepted : ℕ → List (Action w) → HeadersResult
    aborted : Bytes → HeadersResult

  -- `filter_end`
  pub data Ended : Type 0 where
    ended : List (Action w) → w.Storage → Ended
    failed : Bytes → Ended

  pub record Headed : Type 0 where
    pub result : HeadersResult
    pub headers : w.Headers
    pub storage : w.Storage

module _ {w : World} (global : w.Global) where
  abbrev pub or_abort : Option Bytes → Action w → Action w
  or_abort none action = action
  or_abort (some e) action = abort e

  -- the last `match` of the function
  abbrev pub conclude : List (Action w) → ℕ → Action w → HeadersResult w
  conclude queue status (abort e) = aborted e
  conclude queue status (next c) = accepted status (queue ++ next c ∷ [])
  conclude queue status silent_abort = accepted status (queue ++ silent_abort ∷ [])

  -- the inner `match`, after `begin`: the queue goes through the filter, unless it aborts; the result is
  -- the queue, the action for the next turn and the storage
  unfoldable pub begun_step :
      ResponseFilter w
      → List (Action w)
      → Action w
      → w.Storage
      → List (Action w) × Action w × w.Storage
  unfolding rewrite
  begun_step f queue (abort e) storage = (queue, abort e, storage)
  begun_step f queue silent_abort storage =
      let written = rewrite f global queue none storage in
      (written.queue, or_abort written.error silent_abort, written.storage)
  begun_step f queue (next c) storage =
      let written = rewrite f global queue none storage in
      (written.queue, or_abort written.error (next c), written.storage)

  -- the loop; `action` and `status` are `header_result`
  unfoldable pub headers_loop :
      List (ResponseFilter w) → List (Action w) → ℕ → Action w → w.Headers → w.Storage → Headed w
  headers_loop [] queue status action headers storage = record {
    result = conclude queue status action;
    headers = headers;
    storage = storage;
  }
  headers_loop (f ∷ fs) queue status silent_abort headers storage = record {
    result = conclude queue status silent_abort;
    headers = headers;
    storage = storage;
  }
  headers_loop (f ∷ fs) queue status (abort e) headers storage = record {
    result = aborted e;
    headers = headers;
    storage = storage;
  }
  headers_loop (f ∷ fs) queue status (next c) headers storage =
      let begun = f.begin storage global status headers in
      let (queue', action, storage') =
        begun_step f (queue ++ next c ∷ []) begun.action begun.storage in
      headers_loop fs queue' begun.status action begun.headers storage'

  unfoldable pub filter_headers : List (ResponseFilter w) → ℕ → w.Headers → w.Storage → Headed w
  unfolding headers_loop
  filter_headers filters status headers storage =
      headers_loop filters [] status (next none) headers storage

  -- `filter_content`
  unfoldable pub content_loop :
      List (ResponseFilter w) → Action w → w.Storage → Action w × w.Storage
  content_loop [] action storage = (action, storage)
  content_loop (f ∷ fs) (next c) storage =
      let (action, storage') = f.write storage global c in content_loop fs action storage'
  content_loop (f ∷ fs) silent_abort storage = (silent_abort, storage)
  content_loop (f ∷ fs) (abort e) storage = (abort e, storage)

  unfoldable pub filter_content :
      List (ResponseFilter w) → Content w → w.Storage → Action w × w.Storage
  unfolding content_loop
  filter_content filters content storage = content_loop filters (next (some content)) storage

  -- `filter_end`: `end` of the filters, in the order given, until one does not go on
  unfoldable pub end_outputs : List (ResponseFilter w) → w.Storage → List (Action w) × w.Storage
  end_outputs [] storage = ([], storage)
  end_outputs (f ∷ fs) storage =
      let (action, storage') = f.end storage global in
      elim action [
        | next c ↦ let (rest, storage_end) = end_outputs fs storage' in (next c ∷ rest, storage_end)
        | silent_abort ↦ ([], storage')
        | abort e ↦ ([], storage')
      ]

  -- the loop over the filters, from the first to the last, each with the next of the outputs
  unfoldable pub end_loop :
      List (ResponseFilter w) → List (Action w) → List (Action w) → w.Storage → Ended w
  unfolding rewrite
  end_loop [] outputs queue storage = ended queue storage
  end_loop (f ∷ fs) outputs queue storage =
      let written = rewrite f global queue none storage in
      elim written.error [
        | some e ↦ failed e
        | none ↦ elim outputs [
          | [] ↦ end_loop fs [] written.queue written.storage
          | action ∷ rest ↦ end_loop fs rest (written.queue ++ action ∷ []) written.storage
        ]
      ]

  unfoldable pub filter_end : List (ResponseFilter w) → w.Storage → Ended w
  unfolding end_outputs end_loop
  filter_end filters storage =
      let (outputs, storage') = end_outputs (reverse filters) storage in
      end_loop filters outputs [] storage'
