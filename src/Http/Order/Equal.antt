-- ===== src/Http/Order/Equal.antt =====
-- src/context/hypermedia.rs: the equality of links and their order.
use Prim.Native.Nat.{Ordering, lt, eq, gt}
use rustful.Base.{Bool, true, false, ◌&&◌, ◌≡◌, refl, sym, ap, ◌∙◌, ite, Option, none, some}
use rustful.Http.{World, Link}
use rustful.Http.Order.{
  cmp_list, cmp_segment, cmp_link, cmp_method, same_method, eq_link, is_eq, then_cmp,
}
use rustful.Http.Order.Mirrored.{flip}
use rustful.Http.Order.Laws.{
  cmp_link-IsOrder, cmp_segment-IsOrder, cmp_list-IsOrder, compare-IsOrder, cmp_bytes-eq,
  then_cmp-eq,
}

module _ (w : World) where
  equal-flip : (o : Ordering) → o ≡ flip o → o ≡ eq
  equal-flip lt e = cc
  equal-flip eq e = refl
  equal-flip gt e = cc

  cmp_link_refl : (l : Link w) → cmp_link w l l ≡ eq
  cmp_link_refl l = equal-flip (cmp_link w l l) ((cmp_link-IsOrder w).flips l l)

  is_eq-eq : (o : Ordering) → is_eq o ≡ true → o ≡ eq
  is_eq-eq lt e = cc
  is_eq-eq eq e = refl
  is_eq-eq gt e = cc

  and_both : (a b : Bool) → (a && b) ≡ true → (a ≡ true) × (b ≡ true)
  and_both true true e = (refl, refl)
  and_both true false e = cc
  and_both false b e = cc

  when_true : {P : Type 0} (d : Dec P) → ite d true false ≡ true → P
  when_true (yes h) e = h
  when_true (no h) e = cc

  true_when : {P : Type 0} (d : Dec P) → P → ite d true false ≡ true
  true_when (yes h) p = refl
  true_when (no h) p = absurd (h p)

  same_method-same : (a b : Option w.Method) → same_method w a b ≡ true → a ≡ b
  unfolding same_method
  same_method-same none none e = refl
  same_method-same (some a) none e = cc
  same_method-same none (some b) e = cc
  same_method-same (some a) (some b) e = ap some (when_true (w.method_discrete a b) e)

  same_method_refl : (a : Option w.Method) → same_method w a a ≡ true
  unfolding same_method
  same_method_refl none = refl
  same_method_refl (some a) = true_when (w.method_discrete a a) refl

  cmp_method_refl : (a : Option w.Method) → cmp_method w a a ≡ eq
  unfolding cmp_method cmp_list
  cmp_method_refl none = refl
  cmp_method_refl (some a) =
      equal-flip _ ((cmp_list-IsOrder compare-IsOrder).flips (w.method_name a) (w.method_name a))

  pub eq_link_refl : (l : Link w) → eq_link w l l ≡ true
  unfolding eq_link
  eq_link_refl l =
      let paths : cmp_list cmp_segment l.path l.path ≡ eq =
        equal-flip _ ((cmp_list-IsOrder cmp_segment-IsOrder).flips l.path l.path) in
      rw (same_method_refl l.method, paths) refl

  pub eq_link-eq : (a b : Link w) → eq_link w a b ≡ true → cmp_link w a b ≡ eq
  unfolding eq_link cmp_link
  eq_link-eq a b e =
      let (m, p) = and_both (same_method w a.method b.method) _ e in
      let methods : cmp_method w a.method b.method ≡ eq =
        ap (cmp_method w a.method) (sym (same_method-same a.method b.method m))
        ∙ cmp_method_refl a.method in
      ap (λ o. then_cmp o (cmp_list cmp_segment a.path b.path)) methods ∙ is_eq-eq _ p

  module _ (apart : (a b : w.Method) → w.method_name a ≡ w.method_name b → a ≡ b) where
    cmp_method-same_method :
        (a b : Option w.Method) → cmp_method w a b ≡ eq → same_method w a b ≡ true
    unfolding cmp_method same_method cmp_list
    cmp_method-same_method none none e = refl
    cmp_method-same_method (some a) none e = cc
    cmp_method-same_method none (some b) e = cc
    cmp_method-same_method (some a) (some b) e =
        true_when (w.method_discrete a b)
          (apart a b (cmp_bytes-eq (w.method_name a) (w.method_name b) e))

    pub eq-eq_link : (a b : Link w) → cmp_link w a b ≡ eq → eq_link w a b ≡ true
    unfolding eq_link cmp_link
    eq-eq_link a b e =
        let (m, p) = then_cmp-eq (cmp_method w a.method b.method) _ e in
        rw (cmp_method-same_method a.method b.method m, p) refl
