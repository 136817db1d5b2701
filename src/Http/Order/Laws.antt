-- ===== src/Http/Order/Laws.antt =====
-- src/context/hypermedia.rs: the orders of links, their segments and their methods.
use Prim.Native.Nat.{compare, Ordering, lt, eq, gt}
use rustful.Base.{ℕ, ◌≡◌, refl, sym, ap, ap₂, ◌∙◌, Option, none, some, List, [], ◌∷◌, Bytes, arith}
use rustful.Text.{as_bytes}
use rustful.Http.{World}
use rustful.Http.Order.{cmp_list, cmp_text, cmp_segment, cmp_link, cmp_method, rank, then_cmp}
use rustful.Http.Order.Mirrored.{flip, compare-flip}

-- A comparison says the same from both sides, and what it finds equal it compares equally with all else.
pub record IsOrder {A : Type 0} (cmp : A → A → Ordering) : Type 0 where
  pub flips : (a b : A) → cmp a b ≡ flip (cmp b a)
  pub same : {a b : A} → cmp a b ≡ eq → (c : A) → cmp a c ≡ cmp b c

compare-eq : (a b : ℕ) → compare a b ≡ eq → a ≡ b
compare-eq a b e = ground arith

pub compare-IsOrder : IsOrder compare
compare-IsOrder = record {
  flips = compare-flip;
  same = λ {a} {b} e c. ap (λ x. compare x c) (compare-eq a b e);
}

then_cmp-flip : (a b c d : Ordering) → a ≡ flip b → c ≡ flip d → then_cmp a c ≡ flip (then_cmp b d)
then_cmp-flip a lt c d e f = ap (λ x. then_cmp x c) e
then_cmp-flip a eq c d e f = ap (λ x. then_cmp x c) e ∙ f
then_cmp-flip a gt c d e f = ap (λ x. then_cmp x c) e

-- what makes two parts equal in turn
pub then_cmp-eq : (a b : Ordering) → then_cmp a b ≡ eq → (a ≡ eq) × (b ≡ eq)
then_cmp-eq lt b e = cc
then_cmp-eq eq b e = (refl, e)
then_cmp-eq gt b e = cc

-- one comparison, and where it finds no difference another one
pub both-IsOrder :
    {A B C : Type 0} {f : A → A → Ordering} {g : B → B → Ordering} (l : C → A) (r : C → B)
    → IsOrder f
    → IsOrder g
    → IsOrder (λ (x y : C). then_cmp (f (l x) (l y)) (g (r x) (r y)))
both-IsOrder {f} {g} l r p q = record {
  flips = λ a b.
      then_cmp-flip (f (l a) (l b)) (f (l b) (l a)) _ _ (p.flips (l a) (l b)) (q.flips (r a) (r b));
  same = λ {a} {b} e c.
      let (e1, e2) = then_cmp-eq (f (l a) (l b)) _ e in
      ap (λ o. then_cmp o (g (r a) (r c))) (p.same e1 (l c))
      ∙ ap (λ o. then_cmp (f (l b) (l c)) o) (q.same e2 (r c));
}

module _ {A : Type 0} {cmp : A → A → Ordering} (laws : IsOrder cmp) where
  -- lists are compared as a pair of the head and the rest
  cmp_list-cons :
      (x y : A) (xs ys : List A)
      → cmp_list cmp (x ∷ xs) (y ∷ ys) ≡ then_cmp (cmp x y) (cmp_list cmp xs ys)
  unfolding cmp_list
  cmp_list-cons x y xs ys = go (cmp x y)
    where
      go :
          (o : Ordering)
          → elim o [ lt ↦ lt | eq ↦ cmp_list cmp xs ys | gt ↦ gt ] ≡ then_cmp o (cmp_list cmp xs ys)
      go lt = refl
      go eq = refl
      go gt = refl

  cmp_list-flip : (xs ys : List A) → cmp_list cmp xs ys ≡ flip (cmp_list cmp ys xs)
  unfolding cmp_list
  cmp_list-flip [] [] = refl
  cmp_list-flip [] (y ∷ ys) = refl
  cmp_list-flip (x ∷ xs) [] = refl
  cmp_list-flip (x ∷ xs) (y ∷ ys) =
      cmp_list-cons x y xs ys
      ∙ then_cmp-flip (cmp x y) (cmp y x) _ _ (laws.flips x y) (cmp_list-flip xs ys)
      ∙ ap flip (sym (cmp_list-cons y x ys xs))

  cmp_list-same :
      (xs ys : List A)
      → cmp_list cmp xs ys ≡ eq
      → (zs : List A) → cmp_list cmp xs zs ≡ cmp_list cmp ys zs
  unfolding cmp_list
  cmp_list-same [] [] e zs = refl
  cmp_list-same [] (y ∷ ys) e zs = cc
  cmp_list-same (x ∷ xs) [] e zs = cc
  cmp_list-same (x ∷ xs) (y ∷ ys) e [] = refl
  cmp_list-same (x ∷ xs) (y ∷ ys) e (z ∷ zs) =
      let (e1, e2) = then_cmp-eq (cmp x y) _ (sym (cmp_list-cons x y xs ys) ∙ e) in
      cmp_list-cons x z xs zs
      ∙ ap (λ o. then_cmp o (cmp_list cmp xs zs)) (laws.same e1 z)
      ∙ ap (λ o. then_cmp (cmp y z) o) (cmp_list-same xs ys e2 zs)
      ∙ sym (cmp_list-cons y z ys zs)

  pub cmp_list-IsOrder : IsOrder (cmp_list cmp)
  cmp_list-IsOrder = record { flips = cmp_list-flip; same = λ {a} {b} e c. cmp_list-same a b e c }

pub cmp_bytes-eq : (xs ys : Bytes) → cmp_list compare xs ys ≡ eq → xs ≡ ys
unfolding cmp_list
cmp_bytes-eq [] [] e = refl
cmp_bytes-eq [] (y ∷ ys) e = cc
cmp_bytes-eq (x ∷ xs) [] e = cc
cmp_bytes-eq (x ∷ xs) (y ∷ ys) e =
    let (first, rest) = then_cmp-eq _ _ (sym (cmp_list-cons compare-IsOrder x y xs ys) ∙ e) in
    ap₂ (λ z zs. z ∷ zs) (compare-eq x y first) (cmp_bytes-eq xs ys rest)

pub cmp_segment-IsOrder : IsOrder cmp_segment
unfolding cmp_segment cmp_text
cmp_segment-IsOrder =
    both-IsOrder (λ s. as_bytes s.label) (λ s. rank s.ty) (cmp_list-IsOrder compare-IsOrder)
      compare-IsOrder

module _ (w : World) where
  names-IsOrder : IsOrder (cmp_list compare)
  names-IsOrder = cmp_list-IsOrder compare-IsOrder

  cmp_method-flip : (a b : Option w.Method) → cmp_method w a b ≡ flip (cmp_method w b a)
  unfolding cmp_method cmp_list
  cmp_method-flip none none = refl
  cmp_method-flip (some a) none = refl
  cmp_method-flip none (some b) = refl
  cmp_method-flip (some a) (some b) = names-IsOrder.flips (w.method_name a) (w.method_name b)

  cmp_method-same :
      (a b : Option w.Method)
      → cmp_method w a b ≡ eq
      → (c : Option w.Method) → cmp_method w a c ≡ cmp_method w b c
  unfolding cmp_method cmp_list
  cmp_method-same none none e c = refl
  cmp_method-same (some a) none e c = cc
  cmp_method-same none (some b) e c = cc
  cmp_method-same (some a) (some b) e none = refl
  cmp_method-same (some a) (some b) e (some c) = names-IsOrder.same e (w.method_name c)

  pub cmp_link-IsOrder : IsOrder (cmp_link w)
  unfolding cmp_link
  cmp_link-IsOrder =
      both-IsOrder (λ l. l.method) (λ l. l.path)
        (record { flips = cmp_method-flip; same = λ {a} {b} e c. cmp_method-same a b e c })
        (cmp_list-IsOrder cmp_segment-IsOrder)
