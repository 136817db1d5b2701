-- ===== src/Http/Order/Shown.antt =====
-- src/handler/tree_router.rs: which links are left after the sorting and the removal of repeated ones.
use Prim.Native.Nat.{Ordering, lt, eq, gt}
use rustful.Base.{◌⊎◌, inl, inr, Bool, true, false, ◌≡◌, refl, subst, List, [], ◌∷◌, All}
use rustful.Http.{World, Link}
use rustful.Http.Order.{cmp_link, eq_link, insert_link, sort_links, dedup_after, dedup_links}
use rustful.Http.Order.Equal.{eq_link_refl}
use rustful.Http.Order.Sorted.{Chain, Before, NotAfter, sort_links-Chain, dedup_after-Chain}

-- some member of a list has a property
module _ {A : Type 0} (P : A → Type 0) where
  abbrev pub Some : List A → Type 0
  Some [] = ⊥
  Some (x ∷ xs) = P x ⊎ Some xs

All-each :
    {A : Type 0} {P : A → Type 0} (xs : List A) → ((x : A) → Some (λ k. k ≡ x) xs → P x) → All P xs
All-each [] f = tt
All-each (x ∷ xs) f = (f x (inl refl), All-each xs (λ y h. f y (inr h)))

module _ (w : World) where
  -- a link is in a list, and a list has a link that equals it
  abbrev pub Member : List (Link w) → Link w → Type 0
  Member ls x = Some (λ k. k ≡ x) ls

  abbrev pub Listed : List (Link w) → Link w → Type 0
  Listed ls x = Some (λ k. eq_link w k x ≡ true) ls

  insert_link-Member :
      (l : Link w) (ms : List (Link w)) (x : Link w)
      → Member (l ∷ ms) x
      → Member (insert_link w l ms) x
  unfolding insert_link
  insert_link-Member l [] x h = h
  insert_link-Member l (m ∷ ms) x h = go (insert_link-Member l ms x) h (cmp_link w l m)
    where
      go :
          (Member (l ∷ ms) x → Member (insert_link w l ms) x)
          → Member (l ∷ m ∷ ms) x
          → (o : Ordering) → Member (elim o [ gt ↦ m ∷ insert_link w l ms | _ ↦ l ∷ m ∷ ms ]) x
      go k (inl e) gt = inr (k (inl e))
      go k (inr (inl e)) gt = inl e
      go k (inr (inr t)) gt = inr (k (inr t))
      go k h lt = h
      go k h eq = h

  Member-insert_link :
      (l : Link w) (ms : List (Link w)) (x : Link w)
      → Member (insert_link w l ms) x
      → Member (l ∷ ms) x
  unfolding insert_link
  Member-insert_link l [] x h = h
  Member-insert_link l (m ∷ ms) x h = go (Member-insert_link l ms x) (cmp_link w l m) h
    where
      swap : Member (l ∷ ms) x → Member (l ∷ m ∷ ms) x
      swap (inl e) = inl e
      swap (inr t) = inr (inr t)

      go :
          (Member (insert_link w l ms) x → Member (l ∷ ms) x)
          → (o : Ordering) → Member (elim o [ gt ↦ m ∷ insert_link w l ms | _ ↦ l ∷ m ∷ ms ]) x
          → Member (l ∷ m ∷ ms) x
      go k gt (inl e) = inr (inl e)
      go k gt (inr t) = swap (k t)
      go k lt h = h
      go k eq h = h

  sort_links-Member : (ls : List (Link w)) (x : Link w) → Member ls x → Member (sort_links w ls) x
  unfolding sort_links
  sort_links-Member [] x h = h
  sort_links-Member (l ∷ ls) x (inl e) = insert_link-Member l (sort_links w ls) x (inl e)
  sort_links-Member (l ∷ ls) x (inr h) =
      insert_link-Member l (sort_links w ls) x (inr (sort_links-Member ls x h))

  Member-sort_links : (ls : List (Link w)) (x : Link w) → Member (sort_links w ls) x → Member ls x
  unfolding sort_links
  Member-sort_links [] x h = h
  Member-sort_links (l ∷ ls) x h = elim (Member-insert_link l (sort_links w ls) x h) [
    | inl e ↦ inl e
    | inr t ↦ inr (Member-sort_links ls x t)
  ]

  dedup_after-Listed :
      (l : Link w) (ms : List (Link w)) (x : Link w)
      → Member (l ∷ ms) x
      → Listed (l ∷ dedup_after w l ms) x
  unfolding dedup_after
  dedup_after-Listed l [] x (inl e) = inl (subst (λ y. eq_link w l y ≡ true) e (eq_link_refl w l))
  dedup_after-Listed l [] x (inr h) = absurd h
  dedup_after-Listed l (m ∷ ms) x h =
      go (dedup_after-Listed l ms x) (dedup_after-Listed m ms x) (eq_link w l m) refl h
    where
      go :
          (Member (l ∷ ms) x → Listed (l ∷ dedup_after w l ms) x)
          → (Member (m ∷ ms) x → Listed (m ∷ dedup_after w m ms) x)
          → (t : Bool) → eq_link w l m ≡ t
          → Member (l ∷ m ∷ ms) x
          → Listed (l ∷ elim t [ true ↦ dedup_after w l ms | false ↦ m ∷ dedup_after w m ms ]) x
      go k j true q (inl e) = k (inl e)
      go k j true q (inr (inl e)) = inl (subst (λ y. eq_link w l y ≡ true) e q)
      go k j true q (inr (inr t)) = k (inr t)
      go k j false q (inl e) = inl (subst (λ y. eq_link w l y ≡ true) e (eq_link_refl w l))
      go k j false q (inr t) = inr (j t)

  Member-dedup_after :
      (l : Link w) (ms : List (Link w)) (x : Link w) → Member (dedup_after w l ms) x → Member ms x
  unfolding dedup_after
  Member-dedup_after l [] x h = h
  Member-dedup_after l (m ∷ ms) x h =
      go (Member-dedup_after l ms x) (Member-dedup_after m ms x) (eq_link w l m) h
    where
      go :
          (Member (dedup_after w l ms) x → Member ms x)
          → (Member (dedup_after w m ms) x → Member ms x)
          → (t : Bool)
          → Member (elim t [ true ↦ dedup_after w l ms | false ↦ m ∷ dedup_after w m ms ]) x
          → Member (m ∷ ms) x
      go k j true h = inr (k h)
      go k j false (inl e) = inl e
      go k j false (inr t) = inr (j t)

  dedup_links-Listed : (ls : List (Link w)) (x : Link w) → Member ls x → Listed (dedup_links w ls) x
  unfolding dedup_links
  dedup_links-Listed [] x h = h
  dedup_links-Listed (l ∷ ls) x h = dedup_after-Listed l ls x h

  Member-dedup_links : (ls : List (Link w)) (x : Link w) → Member (dedup_links w ls) x → Member ls x
  unfolding dedup_links
  Member-dedup_links [] x h = h
  Member-dedup_links (l ∷ ls) x (inl e) = inl e
  Member-dedup_links (l ∷ ls) x (inr h) = inr (Member-dedup_after l ls x h)

  dedup_links-Chain :
      (apart : (a b : w.Method) → w.method_name a ≡ w.method_name b → a ≡ b) (ls : List (Link w))
      → Chain (NotAfter w) ls
      → Chain (Before w) (dedup_links w ls)
  unfolding dedup_links
  dedup_links-Chain apart [] c = tt
  dedup_links-Chain apart (l ∷ ls) c = dedup_after-Chain w apart l ls c

  -- Where methods with the same name are the same, the links that a handler gets are in ascending order, no two of
  -- them equal, each of them is one of the collected links, and each of the collected links equals one of them.
  pub dedup_links-sort_links :
      (apart : (a b : w.Method) → w.method_name a ≡ w.method_name b → a ≡ b) (ls : List (Link w))
      → Chain (Before w) (dedup_links w (sort_links w ls))
        × All (Member ls) (dedup_links w (sort_links w ls))
        × All (Listed (dedup_links w (sort_links w ls))) ls
  dedup_links-sort_links apart ls = (
    dedup_links-Chain apart (sort_links w ls) (sort_links-Chain w ls),
    All-each (dedup_links w (sort_links w ls))
        (λ x h. Member-sort_links ls x (Member-dedup_links (sort_links w ls) x h)),
    All-each ls (λ x h. dedup_links-Listed (sort_links w ls) x (sort_links-Member ls x h)),
  )
