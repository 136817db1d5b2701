-- ===== src/Http/Order.antt =====
-- src/context/hypermedia.rs: comparing hyperlinks; the sorting and the removal of repeated links of the
-- standard library, which src/handler/tree_router.rs calls.
mod Tests
pub mod Mirrored
pub mod Laws
pub mod Equal
pub mod Sorted
pub mod Shown
use Prim.Native.Nat.{compare, Ordering, lt, eq, gt}
use rustful.Base.{
  ℕ, Bool, true, false, ◌&&◌, ◌||◌, Option, none, some, List, [], ◌∷◌, ite, not, Bytes,
  bytes_discrete,
}
use rustful.Text.{MaybeUtf8, as_bytes}
use rustful.Http.{
  World, Link, LinkSegment, SegmentType, static, variable_segment, variable_sequence,
}

-- the order of slices: the first difference decides, and a prefix is smaller
module _ {ℓ} {A : Type ℓ} (cmp : A → A → Ordering) where
  unfoldable pub cmp_list : List A → List A → Ordering
  cmp_list [] [] = eq
  cmp_list [] (y ∷ ys) = lt
  cmp_list (x ∷ xs) [] = gt
  cmp_list (x ∷ xs) (y ∷ ys) = elim (cmp x y) [ lt ↦ lt | eq ↦ cmp_list xs ys | gt ↦ gt ]

-- `Ord for MaybeUtf8`: the bytes decide
unfoldable pub cmp_text : MaybeUtf8 → MaybeUtf8 → Ordering
unfolding cmp_list as_bytes
cmp_text a b = cmp_list compare (as_bytes a) (as_bytes b)

-- `PartialEq` and `PartialOrd` of a text with bytes or a string, and of bytes or a string with a text,
-- which hand on to the former
unfoldable pub eq_text_bytes : MaybeUtf8 → Bytes → Bool
unfolding as_bytes
eq_text_bytes m b = elim (bytes_discrete (as_bytes m) b) [ yes h ↦ true | no h ↦ false ]

unfoldable pub eq_bytes_text : Bytes → MaybeUtf8 → Bool
unfolding eq_text_bytes
eq_bytes_text b m = eq_text_bytes m b

unfoldable pub cmp_text_bytes : MaybeUtf8 → Bytes → Ordering
unfolding cmp_list as_bytes
cmp_text_bytes m b = cmp_list compare (as_bytes m) b

unfoldable pub cmp_bytes_text : Bytes → MaybeUtf8 → Ordering
unfolding cmp_text_bytes
cmp_bytes_text b m = cmp_text_bytes m b

-- the derived orders of `SegmentType` and `LinkSegment`
abbrev pub rank : SegmentType → ℕ
rank static = 0
rank variable_segment = 1
rank variable_sequence = 2

abbrev pub then_cmp : Ordering → Ordering → Ordering
then_cmp lt o = lt
then_cmp eq o = o
then_cmp gt o = gt

unfoldable pub cmp_segment : LinkSegment → LinkSegment → Ordering
unfolding cmp_text
cmp_segment a b = then_cmp (cmp_text a.label b.label) (compare (rank a.ty) (rank b.ty))

abbrev pub is_eq : Ordering → Bool
is_eq eq = true
is_eq _ = false

module _ (w : World) where
  pub cmp_method : Option w.Method → Option w.Method → Ordering
  cmp_method none none = eq
  cmp_method (some a) none = gt
  cmp_method none (some b) = lt
  cmp_method (some a) (some b) =
      unfold cmp_list in cmp_list compare (w.method_name a) (w.method_name b)

  unfoldable pub cmp_link : Link w → Link w → Ordering
  unfolding cmp_method cmp_list cmp_segment
  cmp_link a b = then_cmp (cmp_method a.method b.method) (cmp_list cmp_segment a.path b.path)

  unfoldable pub same_method : Option w.Method → Option w.Method → Bool
  same_method none none = true
  same_method (some a) none = false
  same_method none (some b) = false
  same_method (some a) (some b) = ite (w.method_discrete a b) true false

  -- `PartialEq for Link`; slices of segments are equal where the derived order says so
  unfoldable pub eq_link : Link w → Link w → Bool
  unfolding same_method cmp_list cmp_segment
  eq_link a b = same_method a.method b.method && is_eq (cmp_list cmp_segment a.path b.path)

  -- `sort`, which is stable
  unfoldable pub insert_link : Link w → List (Link w) → List (Link w)
  unfolding cmp_link
  insert_link l [] = l ∷ []
  insert_link l (m ∷ ms) = elim (cmp_link l m) [ gt ↦ m ∷ insert_link l ms | _ ↦ l ∷ m ∷ ms ]

  unfoldable pub sort_links : List (Link w) → List (Link w)
  unfolding insert_link
  sort_links [] = []
  sort_links (l ∷ ls) = insert_link l (sort_links ls)

  -- `dedup`: the first of equal neighbours stays
  pub dedup_after : Link w → List (Link w) → List (Link w)
  unfolding eq_link
  dedup_after l [] = []
  dedup_after l (m ∷ ms) = elim (eq_link l m) [
    | true ↦ dedup_after l ms
    | false ↦ m ∷ dedup_after m ms
  ]

  unfoldable pub dedup_links : List (Link w) → List (Link w)
  unfolding dedup_after
  dedup_links [] = []
  dedup_links (l ∷ ls) = l ∷ dedup_after l ls

  -- the links to the current method of the node itself are not shown
  abbrev no_segments : List LinkSegment → Bool
  no_segments [] = true
  no_segments (s ∷ ss) = false

  unfoldable pub leads_elsewhere : w.Method → Link w → Bool
  unfolding same_method
  leads_elsewhere method l = not (same_method l.method (some method)) || not (no_segments l.path)
