-- ===== src/Text/Utf8.antt =====
-- UTF-8 of the standard library, as maybe_utf8.rs uses it: `from_utf8` accepts a byte string, and
-- `String::push` appends the encoding of a scalar value.
use rustful.Base.{
  ℕ, ◌+◌, ◌/◌, ◌%◌, ◌<◌, ◌≤◌, ◌≡◌, ◌≢◌, refl, Bool, true, false, ◌&&◌, ◌⊎◌, inl, inr, Option, none,
  some, [], ◌∷◌, ◌++◌, arith, Bytes, ltb, leb, ◌==◌, if◌then◌else◌, Option-cases,
}

-- What a decoder waits for: nothing, some continuation bytes, or the restricted second byte after
-- the leads e0, ed, f0 and f4.
pub data Decoder : Type 0 where
  start more1 more2 more3 after_e0 after_ed after_f0 after_f4 : Decoder

abbrev between : ℕ → ℕ → ℕ → Bool
between lo hi b = leb lo b && leb b hi

lead : ℕ → Option Decoder
lead b =
    if ltb b 0x80
    then some start
    else if between 0xc2 0xdf b
    then some more1
    else if b == 0xe0
    then some after_e0
    else if b == 0xed
    then some after_ed
    else if between 0xe1 0xef b
    then some more2
    else if b == 0xf0
    then some after_f0
    else if between 0xf1 0xf3 b
    then some more3
    else if b == 0xf4
    then some after_f4
    else none

abbrev expect : ℕ → ℕ → Decoder → ℕ → Option Decoder
expect lo hi next b = if between lo hi b then some next else none

step : Decoder → ℕ → Option Decoder
unfolding lead
step start b = lead b
step more1 b = expect 0x80 0xbf start b
step more2 b = expect 0x80 0xbf more1 b
step more3 b = expect 0x80 0xbf more2 b
step after_e0 b = expect 0xa0 0xbf more1 b
step after_ed b = expect 0x80 0x9f more1 b
step after_f0 b = expect 0x90 0xbf more2 b
step after_f4 b = expect 0x80 0x8f more2 b

run : Decoder → Bytes → Option Decoder
run d [] = some d
run d (b ∷ ys) = elim (step d b) [ none ↦ none | some next ↦ run next ys ]

abbrev at_start : Option Decoder → Bool
at_start (some start) = true
at_start _ = false

unfoldable pub is_valid : Bytes → Bool
unfolding run step
is_valid ys = at_start (run start ys)

-- A Unicode scalar value, which is what a `char` holds.
abbrev pub IsScalar : ℕ → Type 0
IsScalar c = (c < 0xd800) ⊎ ((0xe000 ≤ c) × (c < 0x110000))

unfoldable pub encode_char : ℕ → Bytes
encode_char c =
    if ltb c 0x80
    then c ∷ []
    else if ltb c 0x800
    then (0xc0 + c / 64) ∷ (0x80 + c % 64) ∷ []
    else if ltb c 0x10000
    then (0xe0 + c / 4096) ∷ (0x80 + c / 64 % 64) ∷ (0x80 + c % 64) ∷ []
    else (0xf0 + c / 262144) ∷ (0x80 + c / 4096 % 64) ∷ (0x80 + c / 64 % 64) ∷ (0x80 + c % 64) ∷ []

abbrev then_run : Option Decoder → Bytes → Option Decoder
then_run none ys = none
then_run (some d) ys = run d ys

run-append : (d : Decoder) (xs ys : Bytes) → run d (xs ++ ys) ≡ then_run (run d xs) ys
unfolding run
run-append d [] ys = refl
run-append d (a ∷ xs) ys = elim (Option-cases (step d a)) [
  | inl stop ↦ rw (stop, run)
  | inr (next, go) ↦ rw (go, run) (run-append next xs ys)
]

-- No lead byte continues a character.
step-lead : (d : Decoder) (b : ℕ) → d ≢ start → lead b ≢ none → step d b ≡ none
unfolding step
step-lead start b h k = absurd (h refl)
step-lead more1 b h k = ground arith
step-lead _ b h k = ground arith

run-valid :
    (d : Decoder) (b : ℕ) (ys : Bytes)
    → d ≢ start
    → is_valid (b ∷ ys) ≡ true
    → run d (b ∷ ys) ≡ none
unfolding is_valid
run-valid d b ys h v = rw (step-lead d b h (λ e. cc (rw (e, run) at v)), run)

at_start-then_run :
    (o : Option Decoder) (ys : Bytes) → is_valid ys ≡ true → at_start (then_run o ys) ≡ at_start o
unfolding is_valid
at_start-then_run none ys v = refl
at_start-then_run (some start) ys v = v
at_start-then_run (some more1) [] v = refl
at_start-then_run (some more1) (b ∷ ys) v = rw (run-valid more1 b ys (λ e. cc) v)
at_start-then_run (some d) [] v = refl
at_start-then_run (some d) (b ∷ ys) v = rw (run-valid d b ys (λ e. cc) v)

-- What follows a prefix, if valid by itself, leaves the verdict to the prefix.
pub is_valid-append : (xs ys : Bytes) → is_valid ys ≡ true → is_valid (xs ++ ys) ≡ is_valid xs
unfolding is_valid
is_valid-append xs ys v = rw (run-append start xs ys) (at_start-then_run (run start xs) ys v)

pub encode_char-is_valid : (c : ℕ) → IsScalar c → is_valid (encode_char c) ≡ true
unfolding is_valid encode_char
encode_char-is_valid c h = ground arith
