-- ===== src/Tree/Search/Plain.antt =====
-- src/handler/tree_router.rs: the search in trees of static routes.
use rustful.Base.{
  ℕ, ◌≡◌, refl, sym, ◌∙◌, ap, Option, none, some, List, [], ◌∷◌, ◌++◌, append-nil, append_assoc,
  Bytes, bytes_discrete, length, replicate, if_pos, if_neg,
}
use rustful.Tree.{
  TreeRouter, Routes, Child, node, no_routes, route, absent, present, item, static_routes,
  get_route,
}
use rustful.Tree.Search.{Found, find, visit, first, through}

module _ {T : Type 0} where
  -- A tree of static routes alone.
  unfoldable mutual
    pub Plain : TreeRouter T → Type 0
    Plain (node i rs absent absent f) = PlainRoutes rs
    Plain (node i rs absent (present n) f) = ⊥
    Plain (node i rs (present n) w f) = ⊥

    pub PlainRoutes : Routes T → Type 0
    PlainRoutes no_routes = Unit
    PlainRoutes (route k n rs) = Plain n × PlainRoutes rs

  abbrev PlainChild : Child T → Type 0
  PlainChild absent = Unit
  PlainChild (present n) = Plain n

  -- the item at the end of static routes
  unfoldable pub static_at : TreeRouter T → List Bytes → Option T
  unfolding get_route
  static_at t [] = some (item t)
  static_at t (s ∷ ss) = through (get_route (static_routes t) s) (λ n. static_at n ss)

  abbrev pub nothing_kept : ℕ → List (Option ℕ) → List Bytes → Option T → Option (Found T)
  nothing_kept v acc ss none = none
  nothing_kept v acc ss (some i) =
      some (record { item = i; variables = acc ++ replicate (length ss) none; var_index = v })

  get_route-Plain : (rs : Routes T) (s : Bytes) → PlainRoutes rs → PlainChild (get_route rs s)
  unfolding get_route Plain
  get_route-Plain no_routes s p = tt
  get_route-Plain (route k n rs) s (pn, p) = elim (bytes_discrete k s) [
    | yes e ↦ rw (if_pos _ e) pn
    | no e ↦ rw (if_neg _ e) (get_route-Plain rs s p)
  ]

  one_less :
      (s : Bytes) (ss : List Bytes) (v : ℕ) (acc : List (Option ℕ)) (o : Option T)
      → first (nothing_kept v (acc ++ none ∷ []) ss o) none ≡ nothing_kept v acc (s ∷ ss) o
  one_less s ss v acc none = refl
  one_less s ss v acc (some i) =
      ap (λ l. some (record { item = i; variables = l; var_index = v }))
        (append_assoc acc (none ∷ []) (replicate (length ss) none))

  one_further :
      (c : Child T) (s : Bytes) (ss : List Bytes) (v : ℕ) (acc : List (Option ℕ))
      → PlainChild c
      → ((n : TreeRouter T)
          → Plain n
          → find n ss v (acc ++ none ∷ []) ≡ nothing_kept v (acc ++ none ∷ []) ss (static_at n ss))
      → first (through c (λ n. find n ss v (acc ++ none ∷ []))) none
        ≡ nothing_kept v acc (s ∷ ss) (through c (λ n. static_at n ss))
  one_further absent s ss v acc p k = refl
  one_further (present n) s ss v acc p k =
      ap (λ o. first o none) (k n p) ∙ one_less s ss v acc (static_at n ss)

  -- In a tree of static routes the search finds what is at their end, and keeps nothing.
  pub find-Plain :
      (ss : List Bytes) (t : TreeRouter T) (v : ℕ) (acc : List (Option ℕ))
      → Plain t
      → find t ss v acc ≡ nothing_kept v acc ss (static_at t ss)
  unfolding find visit static_at Plain
  find-Plain [] t v acc p =
      ap (λ l. some (record { item = item t; variables = l; var_index = v })) (sym (append-nil acc))
  find-Plain (s ∷ ss) (node i rs absent absent f) v acc p =
      one_further (get_route rs s) s ss v acc (get_route-Plain rs s p)
        (λ n pn. find-Plain ss n v (acc ++ none ∷ []) pn)
  find-Plain (s ∷ ss) (node i rs absent (present n) f) v acc p = absurd p
  find-Plain (s ∷ ss) (node i rs (present n) w f) v acc p = absurd p
