-- ===== src/Status/Dispatch.antt =====
-- src/handler/status_router.rs: which handler a request gets.
use rustful.Base.{
  ℕ, ◌≡◌, refl, Option, some, get, get-insert, get-merge_with, IsMap, combine, ite, ℕ_discrete,
}
use rustful.Http.{World, Environment, status}
use rustful.Handler.{BuilderContexts, HandleRequest, FromHandler, Merge}
use rustful.Status.{StatusRouter, Builder, handle_request, dispatch, on, merge}

module _ {w : World} {T : Type 0} (h : HandleRequest w T) where
  dispatch-ite :
      {P : Type 0} (d : Dec P) (x : T) (y : Option T) (e : Environment w)
      → dispatch h (ite d (some x) y) e ≡ ite d (h.handle_request x e) (dispatch h y e)
  dispatch-ite (yes p) x y e = refl
  dispatch-ite (no p) x y e = refl

  -- After a builder has put a handler at a status, requests whose response has that status go to the
  -- handler that is made from it with the builder's context, and all others that have a status are
  -- answered as before.
  pub handle_request-on_status :
      {c : BuilderContexts} {H : Type 0} (f : FromHandler c T H) (b : Builder c T) (code : ℕ)
      (x : H) (e : Environment w) {current : ℕ}
      → status e.response ≡ some current
      → handle_request h (on f b code x).router e
        ≡ ite
            (ℕ_discrete code current)
            (h.handle_request (f.from_handler b.context x) e)
            (handle_request h b.router e)
  unfolding on handle_request
  handle_request-on_status f b code x e {current} s = rw s (
      rw (get-insert ℕ_discrete b.router.handlers code current (f.from_handler b.context x))
        (dispatch-ite (ℕ_discrete code current) _ _ e))

  -- A merged router answers a request with a status as the merged handler for it does if both routers
  -- have one, else as the router that has one, and gives it back unchanged if none has. No status comes
  -- twice in the second router.
  pub handle_request-merge_status :
      (m : Merge T) (r other : StatusRouter T) (e : Environment w) {current : ℕ}
      → IsMap ℕ_discrete other.handlers
      → status e.response ≡ some current
      → handle_request h (merge m r other) e
        ≡ dispatch h
            (combine m.merge
              (get ℕ_discrete r.handlers current)
              (get ℕ_discrete other.handlers current))
            e
  unfolding merge handle_request
  handle_request-merge_status m r other e {current} k s =
      rw s (rw (get-merge_with ℕ_discrete m.merge r.handlers other.handlers current k) refl)
