-- ===== src/Response/Filters.antt =====
-- src/response.rs: filters that change nothing.
use rustful.Base.{
  ℕ, zero, suc, ◌≡◌, refl, sym, ap, Bool, true, false, Option, none, some, List, [], ◌∷◌, ◌++◌,
  reverse, replicate, All, Bytes,
}
use mathlib.Core.List.{reverse_aux}
use rustful.Http.{
  World, Content, Action, next, Response, ResponseFilter, MaybeMock, actual, mock, mock_status,
  set_mock_status, mock_headers, set_mock_headers,
}
use rustful.Response.{
  Sending, accepted, ended, rewrite, begun_step, or_abort, headers_loop, filter_headers,
  content_loop, filter_content, end_outputs, end_loop, filter_end,
}
use rustful.Response.Sized.{Sent, send_sized, buffer_queue, close_header, send_through, taken}

-- A filter that lets everything through. It may write to the storage.
pub record Transparent {w : World} (f : ResponseFilter w) : Type 0 where
  pub begin-status :
      (s : w.Storage) (g : w.Global) (code : ℕ) (h : w.Headers) → (f.begin s g code h).status ≡ code
  pub begin-action :
      (s : w.Storage) (g : w.Global) (code : ℕ) (h : w.Headers)
      → (f.begin s g code h).action ≡ next none
  pub begin-headers :
      (s : w.Storage) (g : w.Global) (code : ℕ) (h : w.Headers) → (f.begin s g code h).headers ≡ h
  pub write-content :
      (s : w.Storage) (g : w.Global) (c : Option (Content w)) → (f.write s g c).0 ≡ next c
  pub end-action : (s : w.Storage) (g : w.Global) → (f.end s g).0 ≡ next none

-- What hyper says of a fresh response: writing back what was read changes nothing, and the status
-- does not depend on the headers.
pub record FreshLaws (w : World) : Type 0 where
  pub set_headers-headers : (r : w.Fresh) → w.set_fresh_headers r (w.fresh_headers r) ≡ r
  pub set_status-status : (r : w.Fresh) → w.set_fresh_status r (w.fresh_status r) ≡ r
  pub status-set_headers :
      (r : w.Fresh) (h : w.Headers) → w.fresh_status (w.set_fresh_headers r h) ≡ w.fresh_status r

module _ {w : World} where
  abbrev quiet : ℕ → List (Action w)
  quiet n = replicate n (next none)

  quiet-snoc : (n : ℕ) → quiet n ++ next none ∷ [] ≡ quiet (suc n)
  quiet-snoc zero = refl
  quiet-snoc (suc n) = ap (λ q. next none ∷ q) (quiet-snoc n)

  rewrite-quiet :
      {f : ResponseFilter w} (t : Transparent f) (g : w.Global) (n : ℕ) (e : Option Bytes)
      (s : w.Storage)
      → (s' : w.Storage) × (rewrite f g (quiet n) e s
          ≡ record { queue = quiet n; error = e; storage = s' })
  unfolding rewrite
  rewrite-quiet t g zero e s = (s, refl)
  rewrite-quiet {f = f} t g (suc n) e s =
      let (s', p) = rewrite-quiet t g n e (f.write s g none).1 in
      (s', rw p (rw (t.write-content s g none) refl))

  begun_step-quiet :
      {f : ResponseFilter w} (t : Transparent f) (g : w.Global) (n : ℕ) (s : w.Storage)
      → (s' : w.Storage) × (begun_step g f (quiet n) (next none) s ≡ (quiet n, next none, s'))
  unfolding begun_step
  begun_step-quiet t g n s =
      let (s', p) = rewrite-quiet t g n none s in
      (s', ap (λ x. (x.queue, or_abort g x.error (next none), x.storage)) p)

  headers_loop-quiet :
      (fs : List (ResponseFilter w)) (g : w.Global) (n code : ℕ) (h : w.Headers) (s : w.Storage)
      → All Transparent fs
      → (m : ℕ) × (s' : w.Storage) × (headers_loop g fs (quiet n) code (next none) h s
          ≡ record { result = accepted code (quiet m); headers = h; storage = s' })
  unfolding headers_loop
  headers_loop-quiet [] g n code h s a = (suc n, s, rw (quiet-snoc n) refl)
  headers_loop-quiet (f ∷ fs) g n code h s (t, a) =
      let (s1, p) = begun_step-quiet t g (suc n) (f.begin s g code h).storage in
      let (m, s', r) = headers_loop-quiet fs g (suc n) code h s1 a in
      (
        m,
        s',
        rw (quiet-snoc n) (
            rw (t.begin-action s g code h)
              (rw p (rw (t.begin-status s g code h) (rw (t.begin-headers s g code h) r)))),
      )

  pub content_loop-quiet :
      (fs : List (ResponseFilter w)) (g : w.Global) (c : Option (Content w)) (s : w.Storage)
      → All Transparent fs
      → (s' : w.Storage) × (content_loop g fs (next c) s ≡ (next c, s'))
  unfolding content_loop
  content_loop-quiet [] g c s a = (s, refl)
  content_loop-quiet (f ∷ fs) g c s (t, a) =
      let (s', p) = content_loop-quiet fs g c (f.write s g c).1 a in
      (s', rw (t.write-content s g c) p)

  end_outputs-quiet :
      (fs : List (ResponseFilter w)) (g : w.Global) (s : w.Storage)
      → All Transparent fs
      → (n : ℕ) × (s' : w.Storage) × (end_outputs g fs s ≡ (quiet n, s'))
  unfolding end_outputs
  end_outputs-quiet [] g s a = (zero, s, refl)
  end_outputs-quiet (f ∷ fs) g s (t, a) =
      let (n, s', p) = end_outputs-quiet fs g (f.end s g).1 a in
      (suc n, s', rw (t.end-action s g) (rw p refl))

  end_loop-quiet :
      (fs : List (ResponseFilter w)) (g : w.Global) (k n : ℕ) (s : w.Storage)
      → All Transparent fs
      → (m : ℕ) × (s' : w.Storage) × (end_loop g fs (quiet k) (quiet n) s ≡ ended (quiet m) s')
  unfolding end_loop
  end_loop-quiet [] g k n s a = (n, s, refl)
  end_loop-quiet (f ∷ fs) g zero n s (t, a) =
      let (s1, p) = rewrite-quiet t g n none s in
      let (m, s', r) = end_loop-quiet fs g zero n s1 a in (m, s', rw (end_loop, p) (rw p r))
  end_loop-quiet (f ∷ fs) g (suc k) n s (t, a) =
      let (s1, p) = rewrite-quiet t g n none s in
      let (m, s', r) = end_loop-quiet fs g k (suc n) s1 a in
      (m, s', rw (end_loop, p) (rw p (rw (quiet-snoc n) r)))

  All-reverse_aux :
      (fs gs : List (ResponseFilter w))
      → All Transparent fs
      → All Transparent gs
      → All Transparent (reverse_aux fs gs)
  All-reverse_aux [] gs a b = b
  All-reverse_aux (f ∷ fs) gs (t, a) b = All-reverse_aux fs (f ∷ gs) a (t, b)

  filter_end-quiet :
      (fs : List (ResponseFilter w)) (g : w.Global) (s : w.Storage)
      → All Transparent fs
      → (m : ℕ) × (s' : w.Storage) × (filter_end g fs s ≡ ended (quiet m) s')
  unfolding filter_end
  filter_end-quiet fs g s a =
      let (n, s1, p) = end_outputs-quiet (reverse fs) g s (All-reverse_aux fs [] a tt) in
      let (m, s', r) = end_loop-quiet fs g n zero s1 a in (m, s', rw p r)

  buffer_queue-quiet :
      (x : Sending w) (n : ℕ) (b : Bytes) (k : Bytes → Sent x) → buffer_queue x (quiet n) b k ≡ k b
  unfolding buffer_queue
  buffer_queue-quiet x zero b k = refl
  buffer_queue-quiet x (suc n) b k = buffer_queue-quiet x n b k

  -- Setting headers and status to what was read, closed in between or not, is closing.
  close_header-same :
      (x : Sending w) (l : FreshLaws w) (force : Bool) (m : MaybeMock w)
      → set_mock_status (close_header x force (set_mock_headers m (mock_headers m))) (mock_status m)
        ≡ close_header x force m
  unfolding close_header set_mock_status set_mock_headers mock_headers mock_status
  close_header-same x l true (mock h code) = refl
  close_header-same x l false (mock h code) = refl
  close_header-same x l true (actual r) = ap actual (
      rw (l.set_headers-headers r) (
        rw (sym (l.status-set_headers r (x.set_close (w.fresh_headers r))))
          (l.set_status-status _)))
  close_header-same x l false (actual r) =
      ap actual (rw (l.set_headers-headers r) (l.set_status-status r))

  send_through-Transparent :
      (x : Sending w) (l : FreshLaws w) (fs : List (ResponseFilter w)) (g : w.Global) (force : Bool)
      (c : Content w) (m : MaybeMock w) (s : w.Storage)
      → All Transparent fs
      → send_through x fs g force c m s ≡ send_through x [] g force c m s
  unfolding send_through filter_headers filter_content
  send_through-Transparent x l [] g force c m s a = refl
  send_through-Transparent x l (f ∷ fs) g force c m s a =
      let (n, s1, p) = headers_loop-quiet (f ∷ fs) g zero (mock_status m) (mock_headers m) s a in
      let (s2, q) = content_loop-quiet (f ∷ fs) g (some c) s1 a in
      let (k, s3, r) = filter_end-quiet (f ∷ fs) g s2 a in
      rw p (
        rw (buffer_queue-quiet x n [] _)
          (rw q (rw r (rw (buffer_queue-quiet x k _ _) (rw (close_header-same x l force m) refl)))))

  -- Filters that change nothing are not seen: a response is sent with the same status, headers and
  -- body, and the same result, as without filters, also where the connection is to be closed.
  pub send_sized-Transparent :
      (x : Sending w) (l : FreshLaws w) (r : Response w) (c : Content w)
      → All Transparent r.filters
      → (send_sized x r c).0 ≡ (send_sized x (record r { filters = [] }) c).0
  unfolding send_sized taken
  send_sized-Transparent x l r c a = go r.writer r.filter_storage
    where
      go :
          (m : Option (MaybeMock w)) (s : Option w.Storage)
          → taken x m s r c ≡ taken x m s (record r { filters = [] }) c
      go none s = refl
      go (some m) none = refl
      go (some m) (some s) =
          ap some (send_through-Transparent x l r.filters r.global r.force_close c m s a)
