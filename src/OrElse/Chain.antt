-- ===== src/OrElse/Chain.antt =====
-- src/handler/or_else.rs: chains of alternatives.
use rustful.Base.{◌≡◌, refl, ◌∙◌, List, [], ◌∷◌}
use rustful.Http.{World, Environment, Outcome, handled, returned, panicked}
use rustful.Handler.{HandleRequest}
use rustful.OrElse.{new, handle_request, or_else, OrElse_HandleRequest}

-- The reference: the handlers of a list are asked in order.
module _ {w : World} where
  abbrev pub next_asked : Outcome w → (Environment w → Outcome w) → Outcome w
  next_asked (handled x) rest = handled x
  next_asked (returned e) rest = rest e
  next_asked panicked rest = panicked

  abbrev pub first_taker : List (Environment w → Outcome w) → Environment w → Outcome w
  first_taker [] e = returned e
  first_taker (f ∷ fs) e = next_asked (f e) (λ e'. first_taker fs e')

  asked :
      (o : Outcome w) (k rest : Environment w → Outcome w)
      → ((e : Environment w) → k e ≡ rest e)
      → or_else o k ≡ next_asked o rest
  asked (handled x) k rest h = refl
  asked (returned e) k rest h = h e
  asked panicked k rest h = refl

  last : (o : Outcome w) → o ≡ next_asked o (λ e. returned e)
  last (handled x) = refl
  last (returned e) = refl
  last panicked = refl

module _ {w : World} {A B C : Type 0} (a : HandleRequest w A) (b : HandleRequest w B)
    (c : HandleRequest w C) where
  handle_request_assoc :
      (x : A) (y : B) (z : C) (e : Environment w)
      → handle_request (OrElse_HandleRequest a b) c (new (new x y) z) e
        ≡ handle_request a (OrElse_HandleRequest b c) (new x (new y z)) e
  unfolding handle_request
  handle_request_assoc x y z e = go (a.handle_request x e)
    where
      go :
          (o : Outcome w)
          → or_else (or_else o (λ e'. b.handle_request y e')) (λ e'. c.handle_request z e')
            ≡ or_else o (λ e'. or_else (b.handle_request y e') (λ e''. c.handle_request z e''))
      go (handled _) = refl
      go (returned _) = refl
      go panicked = refl

  nested :
      (x : A) (y : B) (z : C) (e : Environment w)
      → handle_request a (OrElse_HandleRequest b c) (new x (new y z)) e
        ≡ first_taker (a.handle_request x ∷ b.handle_request y ∷ c.handle_request z ∷ []) e
  unfolding handle_request
  nested x y z e =
      asked (a.handle_request x e) _ _
        (λ e'. asked (b.handle_request y e') _ _ (λ e''. last (c.handle_request z e'')))

  -- Three handlers in a row answer the same however they are grouped: they are asked in order, each gets the environment
  -- that the one before it gave back, and the first that takes the request or panics decides; where none does, the
  -- request comes back as the last one gave it back.
  pub handle_request-grouped :
      (x : A) (y : B) (z : C) (e : Environment w)
      → (handle_request (OrElse_HandleRequest a b) c (new (new x y) z) e
          ≡ first_taker (a.handle_request x ∷ b.handle_request y ∷ c.handle_request z ∷ []) e)
        × (handle_request a (OrElse_HandleRequest b c) (new x (new y z)) e
            ≡ first_taker (a.handle_request x ∷ b.handle_request y ∷ c.handle_request z ∷ []) e)
  handle_request-grouped x y z e = (handle_request_assoc x y z e ∙ nested x y z e, nested x y z e)
