-- ===== src/Http/Order/Mirrored.antt =====
-- src/context/maybe_utf8.rs: comparing a string with a text, and a text with a string.
use Prim.Native.Nat.{compare, Ordering, lt, eq, gt}
use rustful.Base.{ℕ, ◌≡◌, refl, ap, ◌∙◌, [], ◌∷◌, Bytes, arith}
use rustful.Text.{MaybeUtf8, as_bytes}
use rustful.Http.Order.{cmp_list, cmp_text_bytes, cmp_bytes_text}

abbrev pub flip : Ordering → Ordering
flip lt = gt
flip eq = eq
flip gt = lt

pub compare-flip : (a b : ℕ) → compare a b ≡ flip (compare b a)
compare-flip a b = ground arith

cmp_list-flip : (a b : Bytes) → cmp_list compare a b ≡ flip (cmp_list compare b a)
unfolding cmp_list
cmp_list-flip [] [] = refl
cmp_list-flip [] (y ∷ ys) = refl
cmp_list-flip (x ∷ xs) [] = refl
cmp_list-flip (x ∷ xs) (y ∷ ys) =
    ap (λ o. elim o [ lt ↦ lt | eq ↦ cmp_list compare xs ys | gt ↦ gt ]) (compare-flip x y)
    ∙ go (cmp_list-flip xs ys) (compare y x)
  where
    go :
        cmp_list compare xs ys ≡ flip (cmp_list compare ys xs)
        → (o : Ordering)
        → elim (flip o) [ lt ↦ lt | eq ↦ cmp_list compare xs ys | gt ↦ gt ]
          ≡ flip (elim o [ lt ↦ lt | eq ↦ cmp_list compare ys xs | gt ↦ gt ])
    go h lt = refl
    go h eq = h
    go h gt = refl

-- A text compared with a string gives the order of their bytes, but a string compared with a text gives
-- the opposite of the order of their bytes.
pub cmp_bytes_text-flip :
    (b : Bytes) (m : MaybeUtf8)
    → (cmp_text_bytes m b ≡ cmp_list compare (as_bytes m) b)
      × (cmp_bytes_text b m ≡ flip (cmp_list compare b (as_bytes m)))
unfolding cmp_text_bytes cmp_bytes_text
cmp_bytes_text-flip b m = (refl, cmp_list-flip (as_bytes m) b)
