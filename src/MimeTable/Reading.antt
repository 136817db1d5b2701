-- ===== src/MimeTable/Reading.antt =====
-- build/mime.rs: what a row enters into the table.
use rustful.Base.{ℕ, false, ◌≡◌, refl, ◌∙◌, ap, List, [], ◌∷◌, ◌++◌, Bytes, All, ◌==◌, replicate}
use rustful.Uri.{split_on}
use rustful.Uri.Parts.{Without}
use rustful.Uri.Queries.{split_on-append, split_on-Without, Without-append}
use rustful.MimeTable.{Types, insert_all, add_parts, add_type, filled, is_comment, add_line}
use rustful.MimeTable.Rows.{
  Row, IsRow, IsExtension, print_row, spaced, type_of, mime_of, split_on-spaced, spaced-Without,
  filled-tabs, filled-cons,
}

-- parts that are not empty
filled-type :
    (top sub : Bytes) (vs : List Bytes)
    → filled ((top ++ b'/' ∷ sub) ∷ vs) ≡ (top ++ b'/' ∷ sub) ∷ filled vs
filled-type [] sub vs = filled-cons b'/' sub vs
filled-type (b ∷ top) sub vs = filled-cons b (top ++ b'/' ∷ sub) vs

filled-last : (s : Bytes) → ¬ (s ≡ []) → filled (s ∷ []) ≡ s ∷ []
unfolding filled
filled-last [] h = absurd (h refl)
filled-last (b ∷ s) h = refl

spaced_filled : (e : Bytes) (es : List Bytes) → ¬ (e ≡ []) → ¬ (spaced e es ≡ [])
spaced_filled e [] h = h
spaced_filled [] (f ∷ fs) h = absurd (h refl)
spaced_filled (b ∷ e) (f ∷ fs) h = λ q. cc

is_comment-append : (s t : Bytes) → ¬ (s ≡ []) → is_comment (s ++ t) ≡ is_comment s
is_comment-append [] t h = absurd (h refl)
is_comment-append (b ∷ s) t h = refl

type_filled : (top sub : Bytes) → ¬ (top ++ b'/' ∷ sub ≡ [])
type_filled [] sub = λ q. cc
type_filled (b ∷ top) sub = λ q. cc

each : {A : Type 0} {P Q : A → Type 0} (xs : List A) → ((x : A) → P x → Q x) → All P xs → All Q xs
each [] f h = tt
each (x ∷ xs) f (h, hs) = (f x h, each xs f hs)

module _ (r : Row) (h : IsRow r) where
  pub type-Without :
      (c : ℕ) → (b'/' == c) ≡ false → Without c r.top → Without c r.sub → Without c (type_of r)
  type-Without c q t s = Without-append c r.top (b'/' ∷ r.sub) t (q, s)

  pub list-Without :
      (c : ℕ)
      → (b' ' == c) ≡ false
      → ((x : Bytes) → IsExtension x → Without c x)
      → Without c (spaced r.first r.more)
  list-Without c q f = spaced-Without c r.first r.more q (each (r.first ∷ r.more) f h.extensions)

  row_parts : filled (split_on b'\t' (print_row r)) ≡ type_of r ∷ spaced r.first r.more ∷ []
  row_parts =
      ap filled (
        split_on-append b'\t' (type_of r) (replicate r.tabs b'\t' ++ spaced r.first r.more)
          (type-Without b'\t' refl h.top-Plain.0 h.sub-Plain.0))
      ∙ filled-type r.top r.sub _
      ∙ ap (λ l. type_of r ∷ l)
          (filled-tabs r.tabs (spaced r.first r.more)
            ∙ ap filled (
                split_on-Without b'\t' (spaced r.first r.more)
                  (list-Without b'\t' refl (λ x k. k.0.0)))
            ∙ filled-last (spaced r.first r.more) (spaced_filled r.first r.more h.extensions.0.2))

  type_parts : split_on b'/' (type_of r) ≡ r.top ∷ r.sub ∷ []
  type_parts =
      split_on-append b'/' r.top r.sub h.top_slash
      ∙ ap (λ l. r.top ∷ l) (split_on-Without b'/' r.sub h.sub_slash)

  -- A row enters its extensions with its type.
  pub add_line-row :
      (types : Types)
      → add_line types (print_row r) ≡ insert_all types (r.first ∷ r.more) (mime_of r)
  unfolding add_line
  add_line-row types =
      rw
        (
          is_comment-append (type_of r) (b'\t' ∷ (replicate r.tabs b'\t' ++ spaced r.first r.more))
              (type_filled r.top r.sub),
          h.top_comment,
        )
        (ap (add_parts types) row_parts
          ∙ ap (λ l. add_type types l (spaced r.first r.more ∷ [])) type_parts
          ∙ ap (λ l. insert_all types l (mime_of r)) (split_on-spaced r.first r.more h.extensions))
