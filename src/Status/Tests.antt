-- ===== src/Status/Tests.antt =====
-- A status router at concrete requests.
use rustful.Base.{ℕ, ◌≡◌, refl, Option, none, some, [], ◌∷◌, get, ite, ℕ_discrete}
use rustful.Http.{status, new_response}
use rustful.Sample.{contexts, optional, some_handler, request}
use rustful.Status.{StatusRouter, Builder, handle_request, on}
use rustful.Status.Dispatch.{handle_request-on_status}

abbrev router : StatusRouter (Option ℕ)
router = record { handlers = (404, some 4) ∷ (500, some 5) ∷ [] }

abbrev builder : Builder contexts (Option ℕ)
builder = record { router = router; context = none }

handle_request-on_status_example :
    handle_request optional (on some_handler builder 404 6).router (request 0 404 [])
    ≡ ite
        (ℕ_discrete 404 404)
        (optional.handle_request (some 6) (request 0 404 []))
        (handle_request optional router (request 0 404 []))
unfolding status new_response get
handle_request-on_status_example =
    handle_request-on_status optional some_handler builder 404 6 (request 0 404 []) {current = 404}
      refl

abbrev other : StatusRouter (Option ℕ)
other = record { handlers = (403, some 7) ∷ [] }
