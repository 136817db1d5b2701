-- ===== src/Uri/Tests.antt =====
-- Paths with queries and fragments.
use rustful.Base.{ℕ, ◌+◌, ◌-◌, ◌≡◌, refl, ap₂, [], ◌∷◌, map, Bytes, arith, ◌==◌, false}
use rustful.Sample.{shifted}
use rustful.Uri.{parse_parameters}
use rustful.Uri.Parts.{Without}
use rustful.Uri.Queries.{Encoder, print, inserted, parse_parameters-print}

-- "/a?b#c" and "/a"
abbrev a_path : Bytes
a_path = b'/' ∷ b'a' ∷ []

abbrev shift : Bytes → Bytes
shift s = map (λ b. b + 100) s

unshift-shift : (s : Bytes) → map (λ b. b - 100) (shift s) ≡ s
unshift-shift [] = refl
unshift-shift (b ∷ s) = ap₂ (λ c t. c ∷ t) (omega arith) (unshift-shift s)

shift-Without : (c : ℕ) (s : Bytes) → ((b : ℕ) → (b + 100 == c) ≡ false) → Without c (shift s)
shift-Without c [] h = tt
shift-Without c (b ∷ s) h = (h b, shift-Without c s h)

abbrev shifting : Encoder shifted
shifting = record {
  encode = shift;
  percent_decode-encode = unshift-shift;
  no_plus = λ s. shift-Without b'+' s (λ b. ground arith);
  no_and = λ s. shift-Without b'&' s (λ b. ground arith);
  no_equals = λ s. shift-Without b'=' s (λ b. ground arith);
}

-- two parameters of one name
parse_parameters-print_example :
    parse_parameters shifted (print shifting (b'a' ∷ [], b'b' ∷ []) ((b'a' ∷ [], b'c' ∷ []) ∷ []))
    ≡ inserted shifting ((b'a' ∷ [], b'b' ∷ []) ∷ (b'a' ∷ [], b'c' ∷ []) ∷ []) []
parse_parameters-print_example =
    parse_parameters-print shifting (b'a' ∷ [], b'b' ∷ []) ((b'a' ∷ [], b'c' ∷ []) ∷ [])
