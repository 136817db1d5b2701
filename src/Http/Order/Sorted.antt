-- ===== src/Http/Order/Sorted.antt =====
-- src/handler/tree_router.rs: the links that a handler gets, sorted and without repetitions; over src/context/hypermedia.rs.
use Prim.Native.Nat.{Ordering, lt, eq, gt}
use rustful.Base.{Bool, true, false, ◌≡◌, refl, sym, ap, ◌∙◌, List, [], ◌∷◌}
use rustful.Http.{World, Link}
use rustful.Http.Order.{cmp_link, eq_link, insert_link, sort_links, dedup_after}
use rustful.Http.Order.Mirrored.{flip}
use rustful.Http.Order.Laws.{cmp_link-IsOrder}
use rustful.Http.Order.Equal.{eq_link-eq, eq-eq_link}

-- neighbours of a list are related
module _ {A : Type 0} (R : A → A → Type 0) where
  abbrev pub ChainFrom : A → List A → Type 0
  ChainFrom a [] = Unit
  ChainFrom a (b ∷ bs) = R a b × ChainFrom b bs

  abbrev pub Chain : List A → Type 0
  Chain [] = Unit
  Chain (a ∷ bs) = ChainFrom a bs

module _ (w : World) where
  abbrev pub NotAfter : Link w → Link w → Type 0
  NotAfter l m = ¬ (cmp_link w l m ≡ gt)

  abbrev pub Before : Link w → Link w → Type 0
  Before l m = cmp_link w l m ≡ lt

  after : (l m : Link w) → cmp_link w l m ≡ gt → NotAfter m l
  after l m e h =
      let o : cmp_link w l m ≡ flip gt = (cmp_link-IsOrder w).flips l m ∙ ap flip h in cc

  before :
      (apart : (a b : w.Method) → w.method_name a ≡ w.method_name b → a ≡ b) (l m : Link w)
      → NotAfter l m
      → eq_link w l m ≡ false
      → Before l m
  before apart l m h e = go (cmp_link w l m) refl
    where
      go : (o : Ordering) → cmp_link w l m ≡ o → o ≡ lt
      go lt q = refl
      go eq q = let t : eq_link w l m ≡ true = eq-eq_link w apart l m q in cc
      go gt q = absurd (h q)

  skip :
      (l m : Link w) (ms : List (Link w))
      → eq_link w l m ≡ true
      → ChainFrom NotAfter m ms
      → ChainFrom NotAfter l ms
  skip l m [] e c = tt
  skip l m (n ∷ ns) e (first, c) =
      ((λ q. first (sym ((cmp_link-IsOrder w).same (eq_link-eq w l m e) n) ∙ q)), c)

  insert_link-ChainFrom :
      (a l : Link w) (ms : List (Link w))
      → NotAfter a l
      → ChainFrom NotAfter a ms
      → ChainFrom NotAfter a (insert_link w l ms)
  unfolding insert_link
  insert_link-ChainFrom a l [] h c = (h, tt)
  insert_link-ChainFrom a l (m ∷ ms) h (first, c) =
      go (λ q. insert_link-ChainFrom m l ms q c) (cmp_link w l m) refl
    where
      go :
          (NotAfter m l → ChainFrom NotAfter m (insert_link w l ms))
          → (o : Ordering) → cmp_link w l m ≡ o
          → ChainFrom NotAfter a (elim o [ gt ↦ m ∷ insert_link w l ms | _ ↦ l ∷ m ∷ ms ])
      go k gt e = (first, k (after l m e))
      go k lt e = (h, ((λ q. cc), c))
      go k eq e = (h, ((λ q. cc), c))

  insert_link-Chain :
      (l : Link w) (ms : List (Link w)) → Chain NotAfter ms → Chain NotAfter (insert_link w l ms)
  unfolding insert_link
  insert_link-Chain l [] c = tt
  insert_link-Chain l (m ∷ ms) c = go (cmp_link w l m) refl
    where
      go :
          (o : Ordering)
          → cmp_link w l m ≡ o
          → Chain NotAfter (elim o [ gt ↦ m ∷ insert_link w l ms | _ ↦ l ∷ m ∷ ms ])
      go gt e = insert_link-ChainFrom m l ms (after l m e) c
      go lt e = ((λ q. cc), c)
      go eq e = ((λ q. cc), c)

  pub sort_links-Chain : (ls : List (Link w)) → Chain NotAfter (sort_links w ls)
  unfolding sort_links
  sort_links-Chain [] = tt
  sort_links-Chain (l ∷ ls) = insert_link-Chain l (sort_links w ls) (sort_links-Chain ls)

  -- what is left of the links that come next to each other
  pub dedup_after-Chain :
      (apart : (a b : w.Method) → w.method_name a ≡ w.method_name b → a ≡ b) (l : Link w)
      (ms : List (Link w))
      → ChainFrom NotAfter l ms
      → ChainFrom Before l (dedup_after w l ms)
  unfolding dedup_after
  dedup_after-Chain apart l [] c = tt
  dedup_after-Chain apart l (m ∷ ms) (first, c) =
      go (λ q. dedup_after-Chain apart l ms (skip l m ms q c)) (dedup_after-Chain apart m ms c)
        (eq_link w l m) refl
    where
      go :
          (eq_link w l m ≡ true → ChainFrom Before l (dedup_after w l ms))
          → ChainFrom Before m (dedup_after w m ms)
          → (t : Bool) → eq_link w l m ≡ t
          → ChainFrom Before l
              (elim t [ true ↦ dedup_after w l ms | false ↦ m ∷ dedup_after w m ms ])
      go k rest true e = k e
      go k rest false e = (before apart l m first e, rest)
