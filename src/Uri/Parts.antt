-- ===== src/Uri/Parts.antt =====
-- src/server/instance.rs: `parse_path` on a path put together from its parts.
use rustful.Base.{
  ℕ, ◌≡◌, refl, false, Option, none, some, [], ◌∷◌, ◌++◌, append-nil, Bytes, ◌==◌, All, arith,
}
use rustful.Text.{from_vec}
use rustful.Http.{path}
use rustful.Uri.{
  UrlLibrary, ParsedUri, cut, parse_fragment, parse_parameters, parse_path, or_root, decoded,
}

abbrev pub Without : ℕ → Bytes → Type 0
Without c s = All (λ b. (b == c) ≡ false) s

pub cut-append : (c : ℕ) (s t : Bytes) → Without c s → cut c (s ++ c ∷ t) ≡ some (s, t)
unfolding cut
cut-append c [] t h = ground arith
cut-append c (b ∷ s) t (e, h) = rw (e, cut-append c s t h)

pub cut-Without : (c : ℕ) (s : Bytes) → Without c s → cut c s ≡ none
unfolding cut
cut-Without c [] h = refl
cut-Without c (b ∷ s) (e, h) = rw (e, cut-Without c s h)

abbrev pub behind : ℕ → Option Bytes → Bytes
behind c none = []
behind c (some s) = c ∷ s

parse_fragment-append :
    (s : Bytes) (fragment : Option Bytes)
    → Without b'#' s
    → parse_fragment (s ++ behind b'#' fragment) ≡ (s, fragment)
unfolding parse_fragment
parse_fragment-append s none h = rw (append-nil s) (rw (cut-Without b'#' s h) refl)
parse_fragment-append s (some f) h = rw (cut-append b'#' s f h) refl

module _ (u : UrlLibrary) where
  -- what the parts stand for
  abbrev pub parsed : Bytes → Option Bytes → Option Bytes → ParsedUri
  parsed p none fragment = record {
    host = none;
    uri_path = path (from_vec (or_root (u.percent_decode p)));
    query = [];
    fragment = decoded u fragment;
  }
  parsed p (some q) fragment = record {
    host = none;
    uri_path = path (from_vec (or_root (u.percent_decode p)));
    query = parse_parameters u q;
    fragment = decoded u fragment;
  }

  -- A path with neither `?` nor `#` in it, with a query without `#` behind it and any fragment behind
  -- that, is parsed into these three parts, each decoded. The root stands for an empty path.
  pub parse_path-query :
      (p q : Bytes) (fragment : Option Bytes)
      → Without b'?' p
      → Without b'#' q
      → parse_path u (p ++ b'?' ∷ (q ++ behind b'#' fragment)) ≡ parsed p (some q) fragment
  unfolding parse_path
  parse_path-query p q fragment hp hq =
      rw (cut-append b'?' p (q ++ behind b'#' fragment) hp)
        (rw (parse_fragment-append q fragment hq) refl)

  -- A path without a query is parsed into the path and the fragment, if neither holds a `?` and the path
  -- holds no `#`.
  pub parse_path-no_query :
      (p : Bytes) (fragment : Option Bytes)
      → Without b'?' (p ++ behind b'#' fragment)
      → Without b'#' p
      → parse_path u (p ++ behind b'#' fragment) ≡ parsed p none fragment
  unfolding parse_path
  parse_path-no_query p fragment hq hp =
      rw (cut-Without b'?' (p ++ behind b'#' fragment) hq)
        (rw (parse_fragment-append p fragment hp) refl)
