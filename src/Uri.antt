-- ===== src/Uri.antt =====
-- src/server/instance.rs and src/utils.rs: the parts of a request URI.
pub mod Parts
pub mod Queries
mod Tests
use rustful.Base.{
  ℕ, Bool, true, false, Option, none, some, List, [], ◌∷◌, Bytes, HashMap, insert, bytes_discrete,
  ◌==◌, if◌then◌else◌, map,
}
use rustful.Text.{MaybeUtf8, utf8, as_bytes, from_vec}
use rustful.Http.{Parameters, UriPath, path}

-- The crate url: `percent_decode`, and parsed URLs with what is read of them.
pub record UrlLibrary : Type 1 where
  pub percent_decode : Bytes → Bytes
  pub Url : Type 0
  pub url_path : Url → Bytes
  pub query_pairs : Url → List (Bytes × Bytes)
  pub host_str : Url → Option Bytes
  pub port : Url → Option ℕ
  pub url_fragment : Url → Option Bytes

-- `split(|&e| e == c)`: one piece more than there are separators
abbrev pub onto_piece : ℕ → List Bytes → List Bytes
onto_piece b [] = (b ∷ []) ∷ []
onto_piece b (p ∷ ps) = (b ∷ p) ∷ ps

unfoldable pub split_on : ℕ → Bytes → List Bytes
split_on c [] = [] ∷ []
split_on c (b ∷ s) = let rest = split_on c s in if b == c then [] ∷ rest else onto_piece b rest

-- `find(c)` and the two slices: what is before the first `c`, and what is behind it
abbrev pub onto_cut : ℕ → Option (Bytes × Bytes) → Option (Bytes × Bytes)
onto_cut b none = none
onto_cut b (some (s, t)) = some (b ∷ s, t)

unfoldable pub cut : ℕ → Bytes → Option (Bytes × Bytes)
cut c [] = none
cut c (b ∷ s) = let rest = cut c s in if b == c then some ([], s) else onto_cut b rest

abbrev pub insert_parameter : Bytes → MaybeUtf8 → Parameters → Parameters
insert_parameter name value m = insert bytes_discrete m name value

abbrev pub plus_to_space : ℕ → ℕ
plus_to_space e = if e == b'+' then b' ' else e

pub record ParsedUri : Type 0 where
  pub host : Option (Bytes × Option ℕ)
  pub uri_path : UriPath
  pub query : Parameters
  pub fragment : Option MaybeUtf8

abbrev pub or_root : Bytes → Bytes
or_root [] = b'/' ∷ []
or_root (b ∷ s) = b ∷ s

abbrev pub or_whole : Bytes → Option (Bytes × Bytes) → Bytes × Option Bytes
or_whole s none = (s, none)
or_whole s (some (before, behind)) = (before, some behind)

unfoldable pub parse_fragment : Bytes → Bytes × Option Bytes
unfolding cut
parse_fragment s = or_whole s (cut b'#' s)

module _ (u : UrlLibrary) where
  -- the `match` on the first two pieces of a parameter
  abbrev pub add_parts : List Bytes → Parameters → Parameters
  add_parts [] m = m
  add_parts (name ∷ []) m = insert_parameter (u.percent_decode name) (utf8 []) m
  add_parts (name ∷ value ∷ more) m =
      insert_parameter (u.percent_decode name) (from_vec (u.percent_decode value)) m

  abbrev pub add_all : List Bytes → Parameters → Parameters
  add_all [] m = m
  add_all (p ∷ ps) m = add_all ps (add_parts (split_on b'=' p) m)

  unfoldable pub parse_parameters : Bytes → Parameters
  unfolding split_on insert from_vec
  parse_parameters source = add_all (split_on b'&' (map plus_to_space source)) []

  abbrev pub decoded : Option Bytes → Option MaybeUtf8
  decoded none = none
  decoded (some f) = some (from_vec (u.percent_decode f))

  abbrev pub with_query : Bytes → Option (Bytes × Bytes) → ParsedUri
  with_query s (some (before, behind)) =
      let (query, fragment) = parse_fragment behind in
      record {
        host = none;
        uri_path = path (from_vec (or_root (u.percent_decode before)));
        query = parse_parameters query;
        fragment = decoded fragment;
      }
  with_query s none =
      let (before, fragment) = parse_fragment s in
      record {
        host = none;
        uri_path = path (from_vec (or_root (u.percent_decode before)));
        query = [];
        fragment = decoded fragment;
      }

  unfoldable pub parse_path : Bytes → ParsedUri
  unfolding cut parse_fragment parse_parameters from_vec
  parse_path s = with_query s (cut b'?' s)

  abbrev pub collect_pairs : List (Bytes × Bytes) → Parameters → Parameters
  collect_pairs [] m = m
  collect_pairs ((k, v) ∷ ps) m = collect_pairs ps (insert_parameter k (utf8 v) m)

  abbrev pub with_port : Option ℕ → Option Bytes → Option (Bytes × Option ℕ)
  with_port port none = none
  with_port port (some host) = some (host, port)

  unfoldable pub parse_url : u.Url → ParsedUri
  unfolding insert from_vec
  parse_url url = record {
    host = with_port (u.port url) (u.host_str url);
    uri_path = path (from_vec (u.percent_decode (u.url_path url)));
    query = collect_pairs (u.query_pairs url) [];
    fragment = decoded (u.url_fragment url);
  }
