-- ===== src/Route/Variables.antt =====
-- src/handler/routing.rs: `VariableIter` and `RouteState::variables` against a reference.
use rustful.Base.{ℕ, ◌≡◌, Option, none, some, List, [], ◌∷◌, map, Bytes, ◌==◌, if◌then◌else◌, All}
use rustful.Text.{MaybeUtf8, as_bytes}
use rustful.Text.Truth.{IsTruthful}
use rustful.Route.{name_at, Current, iter_collect}
use rustful.Route.Segments.{join}

-- The reference: values of one index that follow one another are one run.
abbrev onto_run : ℕ → Bytes → List (ℕ × List Bytes) → List (ℕ × List Bytes)
onto_run i s [] = (i, s ∷ []) ∷ []
onto_run i s ((j, ss) ∷ rs) = if i == j then (i, s ∷ ss) ∷ rs else (i, s ∷ []) ∷ (j, ss) ∷ rs

pub runs : List (ℕ × Bytes) → List (ℕ × List Bytes)
runs [] = []
runs ((i, s) ∷ vs) = onto_run i s (runs vs)

-- Values of variables without a label do not count.
abbrev when_named : Option MaybeUtf8 → ℕ × Bytes → List (ℕ × Bytes) → List (ℕ × Bytes)
when_named none v vs = vs
when_named (some n) v vs = v ∷ vs

module _ (names : List MaybeUtf8) where
  pub named : List (ℕ × Bytes) → List (ℕ × Bytes)
  named [] = []
  named ((i, s) ∷ vs) = when_named (name_at names i) (i, s) (named vs)

  abbrev pub reference_pair : ℕ × List Bytes → Option MaybeUtf8 × Bytes
  reference_pair (i, ss) = (name_at names i, join ss)

abbrev pub shown_pair : MaybeUtf8 × MaybeUtf8 → Option MaybeUtf8 × Bytes
shown_pair (n, v) = (some n, as_bytes v)

abbrev at_index : ℕ → Bytes → ℕ × Bytes
at_index i s = (i, s)

module _ (names : List MaybeUtf8) where
  abbrev from_here : ℕ → Option Current → List (ℕ × Bytes) → List (MaybeUtf8 × MaybeUtf8)
  from_here k c vs = iter_collect names k (record { iter = vs; current = c })

  -- What the loop must yield, in terms of the reference.
  record Yields (ps : List (MaybeUtf8 × MaybeUtf8)) (vs : List (ℕ × Bytes)) : Type 0 where
    shown : map shown_pair ps ≡ map (reference_pair names) (runs vs)
    truthful : All (λ p. IsTruthful p.1) ps
