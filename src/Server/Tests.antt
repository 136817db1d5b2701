-- ===== src/Server/Tests.antt =====
-- A server at concrete requests.
use rustful.Base.{ℕ, suc, ◌≡◌, ◌≢◌, refl, Option, none, some, List, [], ◌∷◌, false}
use rustful.Http.{
  Response, actual, status, set_status, mock_status, set_mock_status, set_mock_headers,
  mock_headers, new_response, as_path,
}
use rustful.Handler.{option_request}
use rustful.Sample.{world, optional, shifted}
use rustful.Text.{from_vec}
use rustful.Text.Utf8.{is_valid}
use rustful.Uri.{cut, parse_fragment, parse_path}
use rustful.Server.{
  ContextFilter, next, abort, Request, absolute_path, HeaderLibrary, ServerInstance, dropped,
  modify_context, modify_with, handle, first_response, answered, force_close,
}
use rustful.Server.Threads.{started, ended, none_more, one_started, one_ended, run, run-Connections}
use rustful.Server.Unhandled.{StatusLaw, handle-unhandled, handle-abort, runs, all_run}

abbrev pub world-StatusLaw : StatusLaw world
world-StatusLaw = record { fresh_status-set = λ r code. refl }

abbrev pub header_library : HeaderLibrary world shifted
header_library = record {
  set_defaults = λ headers. suc headers;
  set_host = λ host headers. headers;
  body_reader = λ reader headers. reader;
}

abbrev forbid : ContextFilter world
forbid s g context = record { action = abort 403; context = context; storage = s }

abbrev pub pass : ContextFilter world
pass s g context = record { action = next; context = context; storage = suc s }

abbrev pub server : List (ContextFilter world) → ServerInstance world (Option ℕ)
server filters = record {
  handlers = none;
  threads = 4;
  keep_alive = some 1;
  threads_in_use = 2;
  context_filters = filters;
  response_filters = [];
  global = tt;
}

abbrev pub get_root : Request world shifted
get_root = record {
  address = tt;
  method = 1;
  headers = 0;
  uri = absolute_path [];
  version = tt;
  reader = tt;
}

abbrev last : Response world
last = record {
  writer = some (actual (404, 1));
  filters = [];
  global = tt;
  filter_storage = some 1;
  force_close = false;
}

handle-unhandled_example : status last ≢ some 200
unfolding handle first_response modify_context modify_with answered force_close option_request
    set_status new_response set_mock_status set_mock_headers mock_headers mock_status status as_path
    parse_path parse_fragment cut from_vec is_valid
handle-unhandled_example =
    handle-unhandled world-StatusLaw header_library optional (server (pass ∷ [])) get_root (200, 0)
      [] {last = last} refl refl refl refl

-- the first filter counts one, the second aborts, and the third does not count
handle-abort_example :
    (handle header_library optional (server (pass ∷ forbid ∷ pass ∷ [])) get_root (200, 0)
      ≡ dropped (record last { writer = some (actual (403, 1)) }))
    × (status (record last { writer = some (actual (403, 1)) }) ≡ some 403)
unfolding set_status new_response set_mock_status set_mock_headers mock_headers mock_status status
    first_response force_close
handle-abort_example =
    handle-abort world-StatusLaw header_library optional (server (pass ∷ forbid ∷ pass ∷ []))
      get_root (200, 0) [] (pass ∷ forbid ∷ []) (pass ∷ []) {code = 403} refl refl
      (runs refl (runs refl all_run)) refl

-- two more connections than the two that are open, one of which ends
run-Connections_example :
    run (started ∷ started ∷ ended ∷ []) (server []) ≡ record (server []) { threads_in_use = 3 }
run-Connections_example =
    run-Connections {n = 2} {m = 3} (server []) (one_started (one_started (one_ended none_more)))
      refl
