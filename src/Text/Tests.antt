-- ===== src/Text/Tests.antt =====
-- Text at concrete bytes.
use rustful.Base.{inl, Bytes, true, inr, ap, subst, Bool-cases, if◌then◌else◌, ◌≡◌, refl, [], ◌∷◌}
use rustful.Text.{utf8, not_utf8, as_bytes, push_bytes, is_utf8}
use rustful.Text.Conversions.{
  Cow, borrowed, owned, LossyLaws, into_string, into_string-lossy, text_of,
}
use rustful.Text.Utf8.{is_valid}
use rustful.Text.Truth.{IsTruthful, push_bytes_lem}

-- the first byte of a two-byte character, completed by the second
push_bytes_lem_example :
    (as_bytes (push_bytes (not_utf8 (0xc3 ∷ [])) (0xa9 ∷ [])) ≡ 0xc3 ∷ 0xa9 ∷ [])
    × IsTruthful (push_bytes (not_utf8 (0xc3 ∷ [])) (0xa9 ∷ []))
unfolding is_utf8 is_valid as_bytes
push_bytes_lem_example = push_bytes_lem (not_utf8 (0xc3 ∷ [])) (0xa9 ∷ []) refl

completed : push_bytes (not_utf8 (0xc3 ∷ [])) (0xa9 ∷ []) ≡ utf8 (0xc3 ∷ 0xa9 ∷ [])
unfolding push_bytes is_valid
completed = refl

-- a lossy conversion that drops what is not valid
abbrev dropping : Bytes → Cow
dropping v = if is_valid v then borrowed v else owned []

nothing-is_valid : is_valid [] ≡ true
unfolding is_valid
nothing-is_valid = refl

dropping-LossyLaws : LossyLaws dropping
dropping-LossyLaws = record {
  valid-borrowed = λ v e. rw e refl;
  borrowed-is_valid = keeps;
  owned-is_valid = drops;
}
  where
    keeps : (v b : Bytes) → dropping v ≡ borrowed b → is_valid v ≡ true
    keeps v b e = elim (Bool-cases (is_valid v)) [ inl ok ↦ ok | inr bad ↦ cc (rw bad at e) ]

    drops : (v b : Bytes) → dropping v ≡ owned b → is_valid b ≡ true
    drops v b e = elim (Bool-cases (is_valid v)) [
      | inl ok ↦ cc (rw ok at e)
      | inr bad ↦
          let empty : [] ≡ b = ap text_of (rw bad at e) in
          subst (λ x. is_valid x ≡ true) empty nothing-is_valid
    ]

-- the text "a" held as bytes
into_string-lossy_example :
    (into_string dropping (not_utf8 (b'a' ∷ [])) ≡ b'a' ∷ [])
    × (is_valid (into_string dropping (not_utf8 (b'a' ∷ []))) ≡ true)
unfolding is_utf8 is_valid as_bytes
into_string-lossy_example =
    into_string-lossy dropping dropping-LossyLaws (not_utf8 (b'a' ∷ [])) (λ e. refl)
