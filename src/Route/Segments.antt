-- ===== src/Route/Segments.antt =====
-- src/handler/routing.rs: cutting a path into segments and joining them again.
use rustful.Base.{
  ℕ, ◌≡◌, ◌≢◌, refl, ◌∙◌, ap, Bool, true, false, inl, inr, List, [], ◌∷◌, ◌++◌, append-nil, arith,
  Bytes, All, Bool-cases,
}
use rustful.Route.{
  slash, is_slash, onto_first, split, strip_front, strip_back, iter_of, collect, segments,
}

-- The reference: pieces put together with slashes between them.
abbrev pub join : List Bytes → Bytes
join [] = []
join (p ∷ []) = p
join (p ∷ q ∷ ps) = p ++ slash ∷ join (q ∷ ps)

abbrev pub NoSlash : Bytes → Type 0
NoSlash p = All (λ b. is_slash b ≡ false) p

-- A piece that can come out of a path other than by a doubled slash.
abbrev pub IsSegment : Bytes → Type 0
IsSegment p = (p ≢ []) × NoSlash p

abbrev pub optional_slash : Bool → Bytes
optional_slash true = slash ∷ []
optional_slash false = []

NoSlash-onto_first :
    (b : ℕ) (ps : List Bytes) → is_slash b ≡ false → All NoSlash ps → All NoSlash (onto_first b ps)
NoSlash-onto_first b [] h k = ((h, tt), tt)
NoSlash-onto_first b (p ∷ ps) h (k, ks) = ((h, k), ks)

split-NoSlash : (s : Bytes) → All NoSlash (split s)
unfolding split
split-NoSlash [] = (tt, tt)
split-NoSlash (b ∷ s) = elim (Bool-cases (is_slash b)) [
  | inl e ↦ rw e (tt, split-NoSlash s)
  | inr e ↦ rw e (NoSlash-onto_first b (split s) e (split-NoSlash s))
]

iter_of-NoSlash : (s : Bytes) → All NoSlash (collect (iter_of s))
iter_of-NoSlash [] = tt
iter_of-NoSlash (b ∷ s) = split-NoSlash (b ∷ s)

-- Whatever the path, no segment of it holds a slash.
pub segments-NoSlash : (s : Bytes) → All NoSlash (segments s)
unfolding segments
segments-NoSlash s = iter_of-NoSlash (strip_back (strip_front s))

split-cons : (s : Bytes) → (p : Bytes) × (ps : List Bytes) × (split s ≡ p ∷ ps)
unfolding split
split-cons [] = ([], [], refl)
split-cons (b ∷ s) = elim (Bool-cases (is_slash b)) [
  | inl e ↦ ([], split s, rw e)
  | inr e ↦ let (p, ps, h) = split-cons s in (b ∷ p, ps, rw e (rw h))
]

join-onto_first :
    (b : ℕ) (p : Bytes) (ps : List Bytes) → join (onto_first b (p ∷ ps)) ≡ b ∷ join (p ∷ ps)
join-onto_first b p [] = refl
join-onto_first b p (q ∷ ps) = refl

join-nil : (s : Bytes) → join ([] ∷ split s) ≡ slash ∷ join (split s)
join-nil s = let (p, ps, h) = split-cons s in rw h

join-onto_split : (b : ℕ) (s : Bytes) → join (onto_first b (split s)) ≡ b ∷ join (split s)
join-onto_split b s = let (p, ps, h) = split-cons s in rw h (join-onto_first b p ps)

join-split : (s : Bytes) → join (split s) ≡ s
unfolding split
join-split [] = refl
join-split (b ∷ s) = elim (Bool-cases (is_slash b)) [
  | inl e ↦
      let q : b ≡ slash = ground arith in
      rw e (join-nil s ∙ rw q (ap (λ l. slash ∷ l) (join-split s)))
  | inr e ↦ rw e (join-onto_split b s ∙ ap (λ l. b ∷ l) (join-split s))
]

join-iter_of : (s : Bytes) → join (collect (iter_of s)) ≡ s
join-iter_of [] = refl
join-iter_of (b ∷ s) = join-split (b ∷ s)

-- For every path, its segments joined by slashes are the path without one slash at each end: cutting
-- loses nothing else.
pub join-segments : (s : Bytes) → join (segments s) ≡ strip_back (strip_front s)
unfolding segments
join-segments s = join-iter_of (strip_back (strip_front s))

pub split-segment : (p s : Bytes) → NoSlash p → split (p ++ slash ∷ s) ≡ p ∷ split s
unfolding split
split-segment [] s h = refl
split-segment (b ∷ p) s (e, h) = rw (e, split-segment p s h)

pub split_self : (p : Bytes) → NoSlash p → split p ≡ p ∷ []
unfolding split
split_self [] h = refl
split_self (b ∷ p) (e, h) = rw (e, split_self p h)

split-join : (p : Bytes) (ps : List Bytes) → All NoSlash (p ∷ ps) → split (join (p ∷ ps)) ≡ p ∷ ps
split-join p [] (h, _) = split_self p h
split-join p (q ∷ ps) (h, hs) = split-segment p _ h ∙ ap (λ l. p ∷ l) (split-join q ps hs)

pub strip_back-slash : (s : Bytes) → strip_back (s ++ slash ∷ []) ≡ s
unfolding strip_back
strip_back-slash [] = refl
strip_back-slash (b ∷ []) = refl
strip_back-slash (b ∷ c ∷ s) = ap (λ l. b ∷ l) (strip_back-slash (c ∷ s))

pub strip_back-append :
    (s : Bytes) (b : ℕ) (t : Bytes) → strip_back (s ++ b ∷ t) ≡ s ++ strip_back (b ∷ t)
unfolding strip_back
strip_back-append [] b t = refl
strip_back-append (c ∷ []) b t = refl
strip_back-append (c ∷ d ∷ s) b t = ap (λ l. c ∷ l) (strip_back-append (d ∷ s) b t)

strip_back-segment : (p : Bytes) → NoSlash p → strip_back p ≡ p
unfolding strip_back
strip_back-segment [] h = refl
strip_back-segment (b ∷ []) (e, _) = rw e
strip_back-segment (b ∷ c ∷ s) (e, h) = ap (λ l. b ∷ l) (strip_back-segment (c ∷ s) h)

-- A joined path begins with a byte that is no slash.
join-cons :
    (p : Bytes) (ps : List Bytes)
    → All IsSegment (p ∷ ps)
    → (b : ℕ) × (t : Bytes) × (join (p ∷ ps) ≡ b ∷ t) × (is_slash b ≡ false)
join-cons [] ps ((h, _), _) = absurd (h refl)
join-cons (b ∷ p) [] ((_, (e, _)), _) = (b, p, refl, e)
join-cons (b ∷ p) (q ∷ ps) ((_, (e, _)), _) = (b, p ++ slash ∷ join (q ∷ ps), refl, e)

strip_back-slash-join :
    (q : Bytes) (ps : List Bytes)
    → All IsSegment (q ∷ ps)
    → strip_back (slash ∷ join (q ∷ ps)) ≡ slash ∷ strip_back (join (q ∷ ps))
unfolding strip_back
strip_back-slash-join q ps h = let (b, t, e, _) = join-cons q ps h in rw e

strip_back-join : (ps : List Bytes) → All IsSegment ps → strip_back (join ps) ≡ join ps
strip_back-join [] h = unfold strip_back in refl
strip_back-join (p ∷ []) ((_, k), _) = strip_back-segment p k
strip_back-join (p ∷ q ∷ ps) (_, h) =
    strip_back-append p slash (join (q ∷ ps))
    ∙ ap (λ l. p ++ l)
        (strip_back-slash-join q ps h ∙ ap (λ l. slash ∷ l) (strip_back-join (q ∷ ps) h))

strip_back-join_slash :
    (trail : Bool) (ps : List Bytes)
    → All IsSegment ps
    → strip_back (join ps ++ optional_slash trail) ≡ join ps
strip_back-join_slash true ps h = strip_back-slash (join ps)
strip_back-join_slash false ps h = rw (append-nil (join ps)) (strip_back-join ps h)

strip_front-join :
    (lead : Bool) (p : Bytes) (ps : List Bytes) (t : Bytes)
    → All IsSegment (p ∷ ps)
    → strip_front (optional_slash lead ++ join (p ∷ ps) ++ t) ≡ join (p ∷ ps) ++ t
unfolding strip_front
strip_front-join true p ps t h = refl
strip_front-join false p ps t h = let (b, u, e, k) = join-cons p ps h in rw e (rw k)

All-NoSlash : (ps : List Bytes) → All IsSegment ps → All NoSlash ps
All-NoSlash [] h = tt
All-NoSlash (p ∷ ps) ((_, k), h) = (k, All-NoSlash ps h)

iter_of-join :
    (p : Bytes) (ps : List Bytes)
    → All IsSegment (p ∷ ps)
    → collect (iter_of (join (p ∷ ps))) ≡ p ∷ ps
iter_of-join p ps h =
    let (b, t, e, _) = join-cons p ps h in
    rw e (rw (← e) (split-join p ps (All-NoSlash (p ∷ ps) h)))

-- Segments that are not empty and hold no slash come back from the path that joins them, with or
-- without a slash at each end. No segments at all come back from the root path.
pub segments-join :
    (lead trail : Bool) (ps : List Bytes)
    → All IsSegment ps
    → segments (optional_slash lead ++ join ps ++ optional_slash trail) ≡ ps
unfolding segments
segments-join true true [] h = refl
segments-join true false [] h = refl
segments-join false true [] h = refl
segments-join false false [] h = refl
segments-join lead trail (p ∷ ps) h =
    rw (strip_front-join lead p ps (optional_slash trail) h)
      (rw (strip_back-join_slash trail (p ∷ ps) h) (iter_of-join p ps h))
