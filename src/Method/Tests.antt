-- ===== src/Method/Tests.antt =====
-- A method router at concrete requests.
use rustful.Base.{ℕ, Option, some, [], ◌∷◌}
use rustful.Sample.{world}
use rustful.Method.{MethodRouter}

abbrev router : MethodRouter world (Option ℕ)
router = record { handlers = (1, some 4) ∷ (2, some 5) ∷ [] }

abbrev other : MethodRouter world (Option ℕ)
other = record { handlers = (2, some 7) ∷ (3, some 8) ∷ [] }
