-- ===== src/Text/Truth.antt =====
-- src/context/maybe_utf8.rs: the constructor tells whether the bytes are UTF-8.
use rustful.Base.{ℕ, ◌≡◌, refl, sym, ◌∙◌, true, ◌++◌, arith, Bytes, Bool-cases, inl, inr}
use rustful.Text.Utf8.{is_valid, is_valid-append, encode_char, encode_char-is_valid, IsScalar}
use rustful.Text.{
  MaybeUtf8, utf8, not_utf8, as_bytes, is_utf8, from_vec, push_char, push_str, push_bytes,
}

abbrev pub IsTruthful : MaybeUtf8 → Type 0
IsTruthful m = is_utf8 m ≡ is_valid (as_bytes m)

-- A byte vector becomes text that keeps the bytes and whose constructor tells the truth.
pub from_vec_lem : (b : Bytes) → (as_bytes (from_vec b) ≡ b) × IsTruthful (from_vec b)
unfolding from_vec as_bytes is_utf8
from_vec_lem b = ground arith

pub push_str_lem :
    (m : MaybeUtf8) (s : Bytes)
    → is_valid s ≡ true
    → IsTruthful m
    → (as_bytes (push_str m s) ≡ as_bytes m ++ s) × IsTruthful (push_str m s)
unfolding push_str as_bytes is_utf8
push_str_lem (utf8 t) s v h = (refl, h ∙ sym (is_valid-append t s v))
push_str_lem (not_utf8 t) s v h = (refl, h ∙ sym (is_valid-append t s v))

-- Pushing any bytes onto text whose constructor tells the truth appends exactly these bytes, and the
-- constructor of the result tells the truth.
pub push_bytes_lem :
    (m : MaybeUtf8) (b : Bytes)
    → IsTruthful m
    → (as_bytes (push_bytes m b) ≡ as_bytes m ++ b) × IsTruthful (push_bytes m b)
unfolding push_bytes
push_bytes_lem m b h = elim (Bool-cases (is_valid b)) [
  | inl v ↦ rw v (push_str_lem m b v h)
  | inr v ↦ rw v (from_vec_lem (as_bytes m ++ b))
]

-- Pushing a Unicode scalar value onto such text appends its UTF-8 encoding, and the constructor
-- still tells the truth.
pub push_char_lem :
    (m : MaybeUtf8) (c : ℕ)
    → IsScalar c
    → IsTruthful m
    → (as_bytes (push_char m c) ≡ as_bytes m ++ encode_char c) × IsTruthful (push_char m c)
unfolding push_char as_bytes is_utf8
push_char_lem (utf8 t) c s h = (refl, h ∙ sym (is_valid-append t _ (encode_char-is_valid c s)))
push_char_lem (not_utf8 t) c s h = (refl, h ∙ sym (is_valid-append t _ (encode_char-is_valid c s)))
