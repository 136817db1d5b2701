-- ===== src/Server/Unhandled.antt =====
-- src/server/instance.rs: requests that no handler takes.
use rustful.Base.{
  ℕ, ◌≡◌, ◌≢◌, refl, sym, ◌∙◌, ap, false, Bool-cases, ◌⊎◌, inl, inr, Option, none, some, List, [],
  ◌∷◌, ◌++◌, Bytes, ◌==◌, arith,
}
use rustful.Text.{MaybeUtf8}
use rustful.Http.{
  World, Response, Outcome, handled, returned, panicked, MaybeMock, actual, mock, status,
  set_status, set_mock_status, mock_status, as_path, new_response,
}
use rustful.Handler.{HandleRequest}
use rustful.Uri.{UrlLibrary, parse_path}
use rustful.Server.{
  ContextAction, ContextFilter, next, abort, Modified, Request, absolute_path, HeaderLibrary,
  ServerInstance, dropped, modify_with, modify_context, answered, after_filters, not_found,
  request_context, first_response, handle,
}

-- What hyper says of a fresh response: a status that was set is read back.
pub record StatusLaw (w : World) : Type 0 where
  pub fresh_status-set :
      (r : w.Fresh) (code : ℕ) → w.fresh_status (w.set_fresh_status r code) ≡ code

module _ {w : World} (k : StatusLaw w) where
  mock_status-set : (m : MaybeMock w) (code : ℕ) → mock_status (set_mock_status m code) ≡ code
  unfolding mock_status set_mock_status
  mock_status-set (actual r) code = k.fresh_status-set r code
  mock_status-set (mock headers old) code = refl

  pub status-set_status :
      (r : Response w) (code : ℕ) {old : ℕ}
      → status r ≡ some old
      → status (set_status r code) ≡ some code
  unfolding status set_status
  status-set_status r code h = go r.writer h
    where
      go :
          (o : Option (MaybeMock w)) {old : ℕ}
          → status (record r { writer = o }) ≡ some old
          → status (set_status (record r { writer = o }) code) ≡ some code
      go none e = cc
      go (some m) e = ap some (mock_status-set m code)

  dropped_inj : {r r' : Response w} → dropped r ≡ dropped r' → r ≡ r'
  dropped_inj e = cc

  not_200 : {code : ℕ} → code ≡ 404 → some code ≡ some 200 → code ≡ 200
  not_200 h e = cc

  not_other : {code : ℕ} → (code == 200) ≡ false → code ≢ 200
  not_other h e = ground arith

  not_found-status :
      (r : Response w) (o : Option ℕ) {last : Response w}
      → status r ≡ o
      → not_found r o ≡ dropped last
      → status last ≢ some 200
  not_found-status r none e d = cc
  not_found-status r (some code) e d = elim (Bool-cases (code == 200)) [
    | inl ok ↦ λ bad.
        let same : 404 ≡ 200 =
          not_200 refl
            (sym (status-set_status r 404 e) ∙ ap status (dropped_inj (rw ok at d)) ∙ bad) in
        absurd (omega (arith, same))
    | inr other ↦ λ bad.
        let same : some code ≡ some 200 = sym e ∙ ap status (dropped_inj (rw other at d)) ∙ bad in
        not_other other cc
  ]

  answered-status :
      (o : Outcome w) {last : Response w} → answered o ≡ dropped last → status last ≢ some 200
  unfolding answered
  answered-status (handled x) d = cc
  answered-status (returned e) d = not_found-status e.response _ refl d
  answered-status panicked d = cc

module _ {w : World} (k : StatusLaw w) {u : UrlLibrary} (l : HeaderLibrary w u) {T : Type 0}
    (h : HandleRequest w T) where
  module _ (s : ServerInstance w T) (r : Request w u) (writer : w.Fresh) (p : Bytes) where
    -- the context when all filters have seen it
    abbrev pub filtered : Modified w
    filtered =
        modify_context s.global s.context_filters w.no_storage
          (request_context l s r (parse_path u p))

    -- A request for a path that passes the context filters, and still has a path then, is never answered
    -- with the status 200 by the server itself: when the response comes back from the handlers, the status
    -- that it is dropped with is another one. A status that is set is read back.
    pub handle-unhandled :
        {q : MaybeUtf8} {last : Response w}
        → r.uri ≡ absolute_path p
        → filtered.action ≡ next
        → as_path filtered.context.uri_path ≡ some q
        → handle l h s r writer ≡ dropped last
        → status last ≢ some 200
    unfolding handle
    handle-unhandled {q} {last} e a n d = answered-status k _ (rw n at (rw a at (rw e at d)))

action-cases : (a : ContextAction) → (a ≡ next) ⊎ ((code : ℕ) × (a ≡ abort code))
action-cases next = inl refl
action-cases (abort code) = inr (code, refl)

module _ {w : World} (global : w.Global) where
  -- The filters are run in their order, each after one that lets the request through, on what that one left.
  pub data Runs : List (ContextFilter w) → Modified w → Modified w → Type 0 where
    all_run : {m : Modified w} → Runs [] m m
    runs :
        {f : ContextFilter w} {fs : List (ContextFilter w)} {m last : Modified w}
        → m.action ≡ next
        → Runs fs (f m.storage global m.context) last
        → Runs (f ∷ fs) m last

  modify_with-Runs :
      {fs : List (ContextFilter w)} {m last : Modified w}
      → Runs fs m last
      → modify_with global fs m ≡ last
  unfolding modify_with
  modify_with-Runs all_run = refl
  modify_with-Runs (runs e r) = rw e (modify_with-Runs r)

  modify_with_stop :
      (fs : List (ContextFilter w)) (m : Modified w) {code : ℕ}
      → m.action ≡ abort code
      → modify_with global fs m ≡ m
  unfolding modify_with
  modify_with_stop [] m e = refl
  modify_with_stop (f ∷ fs) m e = rw e refl

  modify_with-append :
      (fs gs : List (ContextFilter w)) (m : Modified w)
      → modify_with global (fs ++ gs) m ≡ modify_with global gs (modify_with global fs m)
  unfolding modify_with
  modify_with-append [] gs m = refl
  modify_with-append (f ∷ fs) gs m = elim (action-cases m.action) [
    | inl e ↦ rw e (modify_with-append fs gs (f m.storage global m.context))
    | inr (code, e) ↦
        modify_with_stop (f ∷ fs ++ gs) m e
        ∙ sym (ap (modify_with global gs) (modify_with_stop (f ∷ fs) m e) ∙ modify_with_stop gs m e)
  ]

module _ {w : World} (k : StatusLaw w) {u : UrlLibrary} (l : HeaderLibrary w u) {T : Type 0}
    (h : HandleRequest w T) where
  after_filters_abort :
      (s : ServerInstance w T) (m : Modified w) (response : Response w) {code : ℕ}
      → m.action ≡ abort code
      → after_filters h s m response
        ≡ dropped (set_status (record response { filter_storage = some m.storage }) code)
  after_filters_abort s m response e = rw (after_filters, e) refl

  -- what the filters begin with
  abbrev pub unfiltered : ServerInstance w T → Request w u → Bytes → Modified w
  unfiltered s r p = record {
    action = next;
    context = request_context l s r (parse_path u p);
    storage = w.no_storage;
  }

  -- the response for an abort, with the storage that the filters left
  abbrev pub aborted : ServerInstance w T → w.Fresh → w.Storage → ℕ → Response w
  aborted s writer storage code =
      set_status (record (first_response l s writer) { filter_storage = some storage }) code

  -- When some of the context filters of a server are run in their order for a request for a path, and the last of them
  -- aborts, then no other filter and no handler has a part in what follows: the response of the server is dropped
  -- with the status of the abort, and with the storage just as that filter left it. A status that is set is read back.
  pub handle-abort :
      (s : ServerInstance w T) (r : Request w u) (writer : w.Fresh) (p : Bytes)
      (fs gs : List (ContextFilter w)) {m : Modified w} {code : ℕ}
      → r.uri ≡ absolute_path p
      → s.context_filters ≡ fs ++ gs
      → Runs s.global fs (unfiltered s r p) m
      → m.action ≡ abort code
      → (handle l h s r writer ≡ dropped (aborted s writer m.storage code))
        × (status (aborted s writer m.storage code) ≡ some code)
  unfolding handle first_response new_response status modify_context
  handle-abort s r writer p fs gs {m} {code} e f run a =
      let response : Response w = record (first_response l s writer) {
        filter_storage = some m.storage;
      } in
      (
        rw e (
            ap (λ x. after_filters h s x (first_response l s writer))
              (ap (λ x. modify_with s.global x (unfiltered s r p)) f
                ∙ modify_with-append s.global fs gs (unfiltered s r p)
                ∙ ap (modify_with s.global gs) (modify_with-Runs s.global run)
                ∙ modify_with_stop s.global gs m a)
            ∙ after_filters_abort s m (first_response l s writer) a),
        status-set_status k response code refl,
      )
