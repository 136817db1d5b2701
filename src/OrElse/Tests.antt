-- ===== src/OrElse/Tests.antt =====
-- Alternatives at a concrete request.
use rustful.Base.{ℕ, ◌≡◌, Option, none, some, []}
use rustful.Handler.{option_request, handler_request}
use rustful.Http.{handled}
use rustful.Sample.{optional, request}
use rustful.OrElse.{new, handle_request, OrElse_HandleRequest}
use rustful.OrElse.Chain.{handle_request-grouped}

abbrev no_one : Option ℕ
no_one = none

abbrev second : Option ℕ
second = some 2

handle_request-grouped_example :
    (handle_request
        (OrElse_HandleRequest optional optional)
        optional
        (new (new no_one second) no_one)
        (request 0 200 [])
      ≡ handled (2, []))
    × (handle_request optional
          (OrElse_HandleRequest optional optional)
          (new no_one (new second no_one))
          (request 0 200 [])
        ≡ handled (2, []))
unfolding option_request handler_request
handle_request-grouped_example =
    handle_request-grouped optional optional optional no_one second no_one (request 0 200 [])
