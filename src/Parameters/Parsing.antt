-- ===== src/Parameters/Parsing.antt =====
-- src/context/parameters.rs: collecting parameters, and what the result of parsing says about them.
use rustful.Base.{
  Result, ok, err, get, ◌≡◌, refl, ◌∙◌, ap, Option, none, some, List, [], ◌∷◌, Bytes,
  bytes_discrete, ite, get-insert,
}
use rustful.Text.{MaybeUtf8, as_utf8_lossy}
use rustful.Http.{Parameters}
use rustful.Parameters.{FromStr, get_raw, extend, from_iter, parse, parse_value, map_err}

-- the value of the last pair with the key, or else `o`
abbrev pub last_value : Bytes → List (Bytes × MaybeUtf8) → Option MaybeUtf8 → Option MaybeUtf8
last_value key [] o = o
last_value key ((k, v) ∷ entries) o = last_value key entries (ite (bytes_discrete k key) (some v) o)

extend-last :
    (entries : List (Bytes × MaybeUtf8)) (p : Parameters) (key : Bytes)
    → get_raw (extend p entries) key ≡ last_value key entries (get_raw p key)
unfolding extend get_raw
extend-last [] p key = refl
extend-last ((k, v) ∷ entries) p key =
    extend-last entries _ key
    ∙ ap (λ o. last_value key entries o) (get-insert bytes_discrete p k key v)

module _ {T E : Type 0} (s : FromStr T E) (from_utf8_lossy : Bytes → Bytes) where
  -- what a value of a key parses to
  abbrev Parses : Parameters → Bytes → Result T E → Type 0
  Parses p key r =
      (v : MaybeUtf8) × (get_raw p key ≡ some v)
      × (s.from_str (as_utf8_lossy from_utf8_lossy v) ≡ r)

  -- What a result of `parse` says: there is no value, or there is one that fails or that succeeds.
  abbrev pub Explains : Parameters → Bytes → Result T (Option E) → Type 0
  Explains p key (err none) = get_raw p key ≡ none
  Explains p key (err (some e)) = Parses p key (err e)
  Explains p key (ok t) = Parses p key (ok t)

  parse_value-Explains :
      (p : Parameters) (key : Bytes) (v : MaybeUtf8) (r : Result T E)
      → get_raw p key ≡ some v
      → s.from_str (as_utf8_lossy from_utf8_lossy v) ≡ r
      → Explains p key (map_err some r)
  parse_value-Explains p key v (ok t) e f = (v, e, f)
  parse_value-Explains p key v (err x) e f = (v, e, f)

  -- `parse` fails with `None` exactly if there is no value of the key; any other result is that of
  -- parsing the value of the key as text.
  pub parse-Explains :
      (p : Parameters) (key : Bytes)
      → Explains p key (parse s from_utf8_lossy p key)
        × (get_raw p key ≡ none → parse s from_utf8_lossy p key ≡ err none)
  unfolding parse get_raw
  parse-Explains p key = (go (get_raw p key) refl, λ e. ap (λ o. parse_value s from_utf8_lossy o) e)
    where
      go :
          (o : Option MaybeUtf8)
          → get_raw p key ≡ o
          → Explains p key (parse_value s from_utf8_lossy o)
      go none e = e
      go (some v) e = parse_value-Explains p key v _ e refl

  -- Parsing a key of parameters that are collected from pairs parses the value of the last pair with the key.
  pub parse-from_iter :
      (entries : List (Bytes × MaybeUtf8)) (key : Bytes)
      → parse s from_utf8_lossy (from_iter entries) key
        ≡ parse_value s from_utf8_lossy (last_value key entries none)
  unfolding parse get_raw from_iter get
  parse-from_iter entries key =
      ap (λ o. parse_value s from_utf8_lossy o) (extend-last entries [] key)
