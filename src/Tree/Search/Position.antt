-- ===== src/Tree/Search/Position.antt =====
-- src/handler/tree_router.rs: where the search stands in the path: what the snapshots of the loop mean.
use rustful.Base.{
  ℕ, suc, ◌+◌, ◌≡◌, refl, sym, ◌∙◌, ap, true, false, some, Option, none, List, [], ◌∷◌, ◌++◌,
  append_assoc, append-nil, arith, Bytes, length, get_elem?, set, ◌==◌, length-append,
  get_elem?-append, set-append, ==_iff, replicate, length-replicate,
}

eq_nil {ℓ} : {A : Type ℓ} (xs : List A) → length xs ≡ 0 → xs ≡ []
eq_nil [] e = refl
eq_nil (x ∷ xs) e = absurd (omega arith)

eq_cons {ℓ} :
    {A : Type ℓ} {n : ℕ} (xs : List A) → length xs ≡ suc n → (y : A) × (ys : List A) × (xs ≡ y ∷ ys)
eq_cons [] e = absurd (omega arith)
eq_cons (x ∷ xs) e = (x, xs, refl)

-- At index `i` of the route the segments `r` are to come, and the variables before `i` are `acc`.
pub record Here (route : List Bytes) (vars : List (Option ℕ)) (r : List Bytes)
    (acc : List (Option ℕ)) (i : ℕ) : Type 0 where
  pub pre : List Bytes
  pub rest : List (Option ℕ)
  pub route_eq : route ≡ pre ++ r
  pub vars_eq : vars ≡ acc ++ rest
  pub pre_length : length pre ≡ i
  pub acc_length : length acc ≡ i
  pub rest_length : length rest ≡ length r

module _ {route : List Bytes} {vars : List (Option ℕ)} {acc : List (Option ℕ)} {i : ℕ} where
  pub Here-move :
      (r : List Bytes) (rest : List (Option ℕ))
      → Here route vars r acc i
      → length rest ≡ length r
      → Here route (acc ++ rest) r acc i
  Here-move r rest h e = record {
    pre = h.pre;
    rest = rest;
    route_eq = h.route_eq;
    vars_eq = refl;
    pre_length = h.pre_length;
    acc_length = h.acc_length;
    rest_length = e;
  }

  Here-length : (r : List Bytes) → Here route vars r acc i → length route ≡ i + length r
  Here-length r h = omega (arith, ap length h.route_eq, length-append h.pre r, h.pre_length)

  pub Here-end :
      Here route vars [] acc i → ((i == length route) ≡ true) × (vars ≡ acc) × (i ≡ length route)
  Here-end h =
      let here : i ≡ length route = omega (arith, Here-length [] h) in
      (
        (==_iff i (length route)).1 here,
        h.vars_eq ∙ ap (λ l. acc ++ l) (eq_nil h.rest h.rest_length) ∙ append-nil acc,
        here,
      )

  pub Here-segment :
      {s : Bytes} {r : List Bytes}
      → Here route vars (s ∷ r) acc i
      → (get_elem? route i ≡ some s) × ((i == length route) ≡ false)
  Here-segment {s} {r} h = (
    ap (λ k. get_elem? route k) (sym h.pre_length)
        ∙ ap (λ l. get_elem? l (length h.pre)) h.route_eq
        ∙ get_elem?-append h.pre r s,
    ground (arith, Here-length (s ∷ r) h),
  )

  pub Here-step :
      {s : Bytes} {r : List Bytes} (x : Option ℕ)
      → Here route vars (s ∷ r) acc i
      → Here route (set vars i x) r (acc ++ x ∷ []) (i + 1)
  Here-step {s} {r} x h =
      let (y, ys, e) = eq_cons h.rest h.rest_length in
      record {
        pre = h.pre ++ s ∷ [];
        rest = ys;
        route_eq = h.route_eq ∙ sym (append_assoc h.pre (s ∷ []) r);
        vars_eq =
            ap (λ l. set l i x) (h.vars_eq ∙ ap (λ l. acc ++ l) e)
            ∙ ap (λ k. set (acc ++ y ∷ ys) k x) (sym h.acc_length)
            ∙ set-append acc ys y x
            ∙ sym (append_assoc acc (x ∷ []) ys);
        pre_length = omega (arith, length-append h.pre (s ∷ []), h.pre_length);
        acc_length = omega (arith, length-append acc (x ∷ []), h.acc_length);
        rest_length = omega (arith, ap length e, h.rest_length);
      }

-- The start of a route: no segment is behind.
pub Here-start : (route : List Bytes) → Here route (replicate (length route) none) route [] 0
Here-start route = record {
  pre = [];
  rest = replicate (length route) none;
  route_eq = refl;
  vars_eq = refl;
  pre_length = refl;
  acc_length = refl;
  rest_length = length-replicate (length route) none;
}
