-- ===== src/Text/Conversions.antt =====
-- src/context/maybe_utf8.rs: conversions between texts, strings and byte vectors.
use rustful.Base.{◌≡◌, refl, true, false, if◌then◌else◌, Bool-cases, inl, inr, Bytes}
use rustful.Text.{MaybeUtf8, utf8, not_utf8, as_bytes, from_vec, is_utf8}
use rustful.Text.Utf8.{is_valid}

-- `From<String>` and `From<&str>`
unfoldable pub from_string : Bytes → MaybeUtf8
from_string string = utf8 string

-- `as_slice`: borrowed bytes are the same bytes
unfoldable pub as_slice : MaybeUtf8 → MaybeUtf8
as_slice (utf8 s) = utf8 s
as_slice (not_utf8 v) = not_utf8 v

-- `Into<Vec<u8>>`
unfoldable pub into_vec : MaybeUtf8 → Bytes
into_vec (utf8 s) = s
into_vec (not_utf8 v) = v

-- `Hash`: the bytes are hashed
unfoldable pub hash : {S : Type 0} → (Bytes → S → S) → MaybeUtf8 → S → S
unfolding as_bytes
hash hash_bytes m state = hash_bytes (as_bytes m) state

-- `Cow<str>`, what `String::from_utf8_lossy` gives: borrowed where the bytes are valid
pub data Cow : Type 0 where
  borrowed owned : Bytes → Cow

-- `Into<String>`: where the lossy conversion borrows, the bytes themselves are taken unchecked
abbrev pub unchecked : Bytes → Cow → Bytes
unchecked bytes (borrowed _) = bytes
unchecked bytes (owned s) = s

unfoldable pub into_string : (Bytes → Cow) → MaybeUtf8 → Bytes
into_string from_utf8_lossy (utf8 s) = s
into_string from_utf8_lossy (not_utf8 v) = unchecked v (from_utf8_lossy v)

-- the text of a `Cow`
abbrev pub text_of : Cow → Bytes
text_of (borrowed b) = b
text_of (owned b) = b

-- What the standard library documents of the lossy conversion: it borrows the valid bytes and no others, and what it
-- makes is valid.
pub record LossyLaws (from_utf8_lossy : Bytes → Cow) : Type 0 where
  pub valid-borrowed : (v : Bytes) → is_valid v ≡ true → from_utf8_lossy v ≡ borrowed v
  pub borrowed-is_valid : (v b : Bytes) → from_utf8_lossy v ≡ borrowed b → is_valid v ≡ true
  pub owned-is_valid : (v b : Bytes) → from_utf8_lossy v ≡ owned b → is_valid b ≡ true

module _ (from_utf8_lossy : Bytes → Cow) (l : LossyLaws from_utf8_lossy) where
  -- the bytes themselves where they are valid, else what the lossy conversion makes of them
  abbrev pub lossy : Bytes → Bytes
  lossy v = if is_valid v then v else text_of (from_utf8_lossy v)

  -- The unchecked conversion is safe and keeps all valid text, also where valid bytes are held as if they were not: a
  -- text becomes its own bytes if they are valid, else what the lossy conversion makes of them, and in both cases the
  -- string is valid UTF-8. What is held as a string is valid.
  pub into_string-lossy :
      (m : MaybeUtf8)
      → (is_utf8 m ≡ true → is_valid (as_bytes m) ≡ true)
      → (into_string from_utf8_lossy m ≡ lossy (as_bytes m))
        × (is_valid (into_string from_utf8_lossy m) ≡ true)
  unfolding into_string is_utf8 as_bytes
  into_string-lossy (utf8 s) t = (rw (t refl) refl, t refl)
  into_string-lossy (not_utf8 v) t = elim (Bool-cases (is_valid v)) [
    | inl valid ↦
        (rw (l.valid-borrowed v valid) (rw valid refl), rw (l.valid-borrowed v valid) valid)
    | inr invalid ↦ go (from_utf8_lossy v) refl invalid
  ]
    where
      go :
          (x : Cow)
          → from_utf8_lossy v ≡ x
          → is_valid v ≡ false
          → (unchecked v x ≡ (if is_valid v then v else text_of x))
            × (is_valid (unchecked v x) ≡ true)
      go (borrowed b) e f = cc (l.borrowed-is_valid v b e)
      go (owned b) e f = (rw f refl, l.owned-is_valid v b e)

-- A byte vector comes back from the text that is made of it.
pub into_vec-from_vec : (b : Bytes) → into_vec (from_vec b) ≡ b
unfolding into_vec from_vec
into_vec-from_vec b = elim (Bool-cases (is_valid b)) [ inl v ↦ rw v refl | inr v ↦ rw v refl ]
