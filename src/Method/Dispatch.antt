-- ===== src/Method/Dispatch.antt =====
-- src/handler/method_router.rs: which handler a request gets.
use rustful.Base.{◌≡◌, refl, get, get-insert, get-merge_with, IsMap, combine, ite, if_pos, if_neg}
use rustful.Http.{World, Environment}
use rustful.Handler.{BuilderContexts, HandleRequest, FromHandler, Merge}
use rustful.Method.{MethodRouter, Builder, handle_request, dispatch, on, merge}

module _ {w : World} {T : Type 0} (h : HandleRequest w T) where
  -- After a builder has put a handler at a method, requests with that method go to the handler that is
  -- made from it with the builder's context, and all others are answered as before.
  pub handle_request-on :
      {c : BuilderContexts} {H : Type 0} (f : FromHandler c T H) (b : Builder w c T) (m : w.Method)
      (x : H) (e : Environment w)
      → handle_request h (on f b m x).router e
        ≡ ite
            (w.method_discrete m e.context.method)
            (h.handle_request (f.from_handler b.context x) e)
            (handle_request h b.router e)
  unfolding on handle_request
  handle_request-on f b m x e =
      rw
        (get-insert w.method_discrete b.router.handlers m e.context.method
          (f.from_handler b.context x))
        (elim (w.method_discrete m e.context.method) [
          | yes p ↦ rw (if_pos _ p) (rw (if_pos _ p) refl)
          | no p ↦ rw (if_neg _ p) (rw (if_neg _ p) refl)
        ])

  -- A merged router answers each request as the merged handler for its method does if both routers
  -- have one, else as the router that has one, and with 405 if none has. No method comes twice in the
  -- second router.
  pub handle_request-merge :
      (m : Merge T) (r other : MethodRouter w T) (e : Environment w)
      → IsMap w.method_discrete other.handlers
      → handle_request h (merge m r other) e
        ≡ dispatch h
            (combine m.merge
              (get w.method_discrete r.handlers e.context.method)
              (get w.method_discrete other.handlers e.context.method))
            e
  unfolding merge handle_request
  handle_request-merge m r other e k =
      rw (get-merge_with w.method_discrete m.merge r.handlers other.handlers e.context.method k)
        refl
