-- ===== src/Route/Plain.antt =====
-- src/handler/routing.rs: a path of which nothing is kept.
use rustful.Base.{ℕ, ◌≡◌, ◌∙◌, refl, ap, none, List, [], ◌∷◌, Bytes, length, replicate}
use rustful.Text.{MaybeUtf8}
use rustful.Route.{kept_values, variable_pairs, variables, iter_collect, iter_next, insert_pairs}

kept_values-none : (ss : List Bytes) → kept_values ss (replicate (length ss) none) ≡ []
unfolding kept_values
kept_values-none [] = refl
kept_values-none (s ∷ ss) = kept_values-none ss

module _ (names : List MaybeUtf8) where
  variable_pairs-nil : variable_pairs names [] ≡ []
  unfolding variable_pairs iter_collect iter_next
  variable_pairs-nil = refl

  -- Where no segment was kept, there are no variables, whatever names there are.
  pub variables-none :
      (segments : List Bytes) (i v : ℕ)
      → variables
          (record {
            route = segments;
            variables = replicate (length segments) none;
            index = i;
            var_index = v;
          })
          names
        ≡ []
  unfolding variables
  variables-none segments i v =
      ap (λ l. insert_pairs [] (variable_pairs names l)) (kept_values-none segments)
      ∙ ap (λ ps. insert_pairs [] ps) variable_pairs-nil
