-- ===== src/Route/Prefixed.antt =====
-- src/handler/routing.rs: the segments of a path behind a further segment.
use rustful.Base.{ℕ, ◌≡◌, refl, sym, ◌∙◌, ap, Bool-cases, inl, inr, [], ◌∷◌, ◌++◌, Bytes, arith}
use rustful.Route.{segments, slash, is_slash, strip_front, strip_back, split, collect, iter_of}
use rustful.Route.Segments.{
  IsSegment, split-segment, split_self, strip_back-append, strip_back-slash,
}

collect-iter_of : (x : Bytes) → ¬ (x ≡ []) → collect (iter_of x) ≡ split x
collect-iter_of [] h = absurd (h refl)
collect-iter_of (b ∷ x) h = refl

strip_back_filled : (b : ℕ) (s : Bytes) → ¬ (b ∷ s ≡ slash ∷ []) → ¬ (strip_back (b ∷ s) ≡ [])
unfolding strip_back
strip_back_filled b [] h = elim (Bool-cases (is_slash b)) [
  | inl e ↦ absurd (h (ap (λ c. c ∷ []) (ground arith)))
  | inr e ↦ rw e (λ q. cc)
]
strip_back_filled b (c ∷ s) h = λ q. cc

append_filled : (t s : Bytes) (b : ℕ) → ¬ (t ++ b ∷ s ≡ [])
append_filled [] s b = λ q. cc
append_filled (c ∷ t) s b = λ q. cc

-- A segment in front of a path is its first segment, but for the path "//".
pub segments-prefix :
    (t rest : Bytes)
    → IsSegment t
    → ¬ (rest ≡ slash ∷ [])
    → segments (slash ∷ (t ++ slash ∷ rest)) ≡ t ∷ segments (slash ∷ rest)
unfolding segments strip_front
segments-prefix t [] (ne, free) k =
    ap (λ x. collect (iter_of x)) (strip_back-slash t)
    ∙ collect-iter_of t ne
    ∙ split_self t free
    ∙ ap (λ x. t ∷ x) (unfold strip_back in refl)
segments-prefix t (b ∷ s) (ne, free) k =
    ap (λ x. collect (iter_of x))
      (strip_back-append t slash (b ∷ s) ∙ ap (λ x. t ++ x) (unfold strip_back in refl))
    ∙ collect-iter_of _ (append_filled t (strip_back (b ∷ s)) slash)
    ∙ split-segment t (strip_back (b ∷ s)) free
    ∙ ap (λ x. t ∷ x) (sym (collect-iter_of _ (strip_back_filled b s k)))
