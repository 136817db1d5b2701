-- ===== src/Uri/Queries.antt =====
-- src/utils.rs: `parse_parameters` on a query put together from its parameters.
use rustful.Base.{ℕ, ◌≡◌, refl, ◌∙◌, ap, false, List, [], ◌∷◌, ◌++◌, Bytes, ◌==◌, arith, map}
use rustful.Text.{from_vec}
use rustful.Http.{Parameters}
use rustful.Uri.{
  UrlLibrary, split_on, plus_to_space, insert_parameter, add_parts, add_all, parse_parameters,
}
use rustful.Uri.Parts.{Without}

pub split_on-append :
    (c : ℕ) (s t : Bytes) → Without c s → split_on c (s ++ c ∷ t) ≡ s ∷ split_on c t
unfolding split_on
split_on-append c [] t h = ground arith
split_on-append c (b ∷ s) t (e, h) = rw (e, split_on-append c s t h)

pub split_on-Without : (c : ℕ) (s : Bytes) → Without c s → split_on c s ≡ s ∷ []
unfolding split_on
split_on-Without c [] h = refl
split_on-Without c (b ∷ s) (e, h) = rw (e, split_on-Without c s h)

map_plus-Without : (s : Bytes) → Without b'+' s → map plus_to_space s ≡ s
map_plus-Without [] h = refl
map_plus-Without (b ∷ s) (e, h) = rw (e, map_plus-Without s h)

pub Without-append : (c : ℕ) (s t : Bytes) → Without c s → Without c t → Without c (s ++ t)
Without-append c [] t h k = k
Without-append c (b ∷ s) t (e, h) k = (e, Without-append c s t h k)

-- An encoder for the parameters: what it writes is decoded to what it was given, and holds none of
-- the characters that separate parameters or stand for a space.
pub record Encoder (u : UrlLibrary) : Type 0 where
  pub encode : Bytes → Bytes
  pub percent_decode-encode : (s : Bytes) → u.percent_decode (encode s) ≡ s
  pub no_plus : (s : Bytes) → Without b'+' (encode s)
  pub no_and : (s : Bytes) → Without b'&' (encode s)
  pub no_equals : (s : Bytes) → Without b'=' (encode s)

module _ {u : UrlLibrary} (en : Encoder u) where
  abbrev pub print_one : Bytes × Bytes → Bytes
  print_one (name, value) = en.encode name ++ b'=' ∷ en.encode value

  abbrev pub print : Bytes × Bytes → List (Bytes × Bytes) → Bytes
  print p [] = print_one p
  print p (q ∷ ps) = print_one p ++ b'&' ∷ print q ps

  -- the parameters in order, the later ones in place of the earlier ones of the same name
  abbrev pub inserted : List (Bytes × Bytes) → Parameters → Parameters
  inserted [] m = m
  inserted ((name, value) ∷ ps) m = inserted ps (insert_parameter name (from_vec value) m)

  print_one-Without :
      (c : ℕ) (p : Bytes × Bytes)
      → ((s : Bytes) → Without c (en.encode s))
      → (b'=' == c) ≡ false
      → Without c (print_one p)
  print_one-Without c (name, value) h e =
      Without-append c (en.encode name) (b'=' ∷ en.encode value) (h name) (e, h value)

  print-Without_plus : (p : Bytes × Bytes) (ps : List (Bytes × Bytes)) → Without b'+' (print p ps)
  print-Without_plus p [] = print_one-Without b'+' p en.no_plus refl
  print-Without_plus p (q ∷ ps) =
      Without-append b'+' (print_one p) (b'&' ∷ print q ps)
        (print_one-Without b'+' p en.no_plus refl) (refl, print-Without_plus q ps)

  add_parts-print_one :
      (p : Bytes × Bytes) (m : Parameters)
      → add_parts u (split_on b'=' (print_one p)) m ≡ insert_parameter p.0 (from_vec p.1) m
  add_parts-print_one (name, value) m =
      rw (split_on-append b'=' (en.encode name) (en.encode value) (en.no_equals name)) (
        rw (split_on-Without b'=' (en.encode value) (en.no_equals value))
          (rw (en.percent_decode-encode name) (rw (en.percent_decode-encode value) refl)))

  add_all-print :
      (p : Bytes × Bytes) (ps : List (Bytes × Bytes)) (m : Parameters)
      → add_all u (split_on b'&' (print p ps)) m ≡ inserted (p ∷ ps) m
  add_all-print p [] m =
      rw (split_on-Without b'&' (print_one p) (print_one-Without b'&' p en.no_and refl))
        (add_parts-print_one p m)
  add_all-print p (q ∷ ps) m =
      rw (split_on-append b'&' (print_one p) (print q ps) (print_one-Without b'&' p en.no_and refl))
        (ap (λ m'. add_all u (split_on b'&' (print q ps)) m') (add_parts-print_one p m)
          ∙ add_all-print q ps _)

  -- A query written with an encoder, at least one parameter, is parsed into its parameters: decoded,
  -- put into the map in order, so that the last value of a name stays.
  pub parse_parameters-print :
      (p : Bytes × Bytes) (ps : List (Bytes × Bytes))
      → parse_parameters u (print p ps) ≡ inserted (p ∷ ps) []
  unfolding parse_parameters
  parse_parameters-print p ps =
      rw (map_plus-Without (print p ps) (print-Without_plus p ps)) (add_all-print p ps [])
