-- ===== src/Http/Order/Tests.antt =====
-- Links of a node, with a repetition.
use rustful.Base.{ℕ, ◌≡◌, none, some, List, [], ◌∷◌, All}
use rustful.Sample.{world}
use rustful.Text.{utf8}
use rustful.Http.{Link, static}
use rustful.Http.Order.{sort_links, dedup_links}
use rustful.Http.Order.Sorted.{Chain, Before}
use rustful.Http.Order.Shown.{Member, Listed, dedup_links-sort_links}

abbrev to_b : Link world
to_b = record {
  method = none;
  path = record { label = utf8 (b'b' ∷ []); ty = static } ∷ [];
  handler = some 1;
}

abbrev to_a : Link world
to_a = record {
  method = some 0;
  path = record { label = utf8 (b'a' ∷ []); ty = static } ∷ [];
  handler = some 2;
}

abbrev collected : List (Link world)
collected = to_a ∷ to_b ∷ to_a ∷ []

same_name : (a b : ℕ) → ◌≡◌ {A = List ℕ} (a ∷ []) (b ∷ []) → a ≡ b
same_name a b e = cc

dedup_links-sort_links_example :
    Chain (Before world) (dedup_links world (sort_links world collected))
    × All (Member world collected) (dedup_links world (sort_links world collected))
    × All (Listed world (dedup_links world (sort_links world collected))) collected
dedup_links-sort_links_example = dedup_links-sort_links world same_name collected
