-- ===== src/Text.antt =====
-- src/context/maybe_utf8.rs: text that may or may not be UTF-8. A Rust string is its bytes.
pub mod Utf8
pub mod Truth
pub mod Conversions
mod Tests
use rustful.Base.{
  ℕ, Bool, true, false, Option, none, some, List, [], ◌∷◌, ◌++◌, Bytes, if◌then◌else◌,
}
use Utf8.{is_valid, encode_char}

pub data MaybeUtf8 : Type 0 where
  utf8 not_utf8 : Bytes → MaybeUtf8

abbrev pub new : MaybeUtf8
new = utf8 []

unfoldable pub as_bytes : MaybeUtf8 → Bytes
as_bytes (utf8 s) = s
as_bytes (not_utf8 v) = v

unfoldable pub as_utf8 : MaybeUtf8 → Option Bytes
as_utf8 (utf8 s) = some s
as_utf8 (not_utf8 v) = none

-- `as_utf8_lossy`, over `String::from_utf8_lossy`
unfoldable pub as_utf8_lossy : (Bytes → Bytes) → MaybeUtf8 → Bytes
as_utf8_lossy from_utf8_lossy (utf8 s) = s
as_utf8_lossy from_utf8_lossy (not_utf8 v) = from_utf8_lossy v

unfoldable pub is_utf8 : MaybeUtf8 → Bool
is_utf8 (utf8 s) = true
is_utf8 (not_utf8 v) = false

-- `From<Vec<u8>>`
unfoldable pub from_vec : Bytes → MaybeUtf8
from_vec bytes = if is_valid bytes then utf8 bytes else not_utf8 bytes

-- both constructors get the encoding of the character
unfoldable pub push_char : MaybeUtf8 → ℕ → MaybeUtf8
push_char (utf8 s) c = utf8 (s ++ encode_char c)
push_char (not_utf8 v) c = not_utf8 (v ++ encode_char c)

unfoldable pub push_str : MaybeUtf8 → Bytes → MaybeUtf8
push_str (utf8 s) string = utf8 (s ++ string)
push_str (not_utf8 v) string = not_utf8 (v ++ string)

-- `Buffer`: the bytes taken out of the source. The mutable borrow means that nothing else sees the
-- source meanwhile, and `drop` overwrites it.
pub record Buffer : Type 0 where
  pub bytes : Bytes

unfoldable pub as_buffer : MaybeUtf8 → Buffer
unfolding as_bytes
as_buffer m = record { bytes = as_bytes m }

unfoldable pub buffer_push_bytes : Buffer → Bytes → Buffer
buffer_push_bytes b bytes = record { bytes = b.bytes ++ bytes }

unfoldable pub buffer_push_char : Buffer → ℕ → Buffer
buffer_push_char b c = record { bytes = b.bytes ++ encode_char c }

-- `Drop for Buffer`: what the source becomes
unfoldable pub buffer_drop : Buffer → MaybeUtf8
unfolding from_vec
buffer_drop b = from_vec b.bytes

unfoldable pub push_bytes : MaybeUtf8 → Bytes → MaybeUtf8
unfolding push_str as_buffer buffer_push_bytes buffer_drop
push_bytes m bytes =
    if is_valid bytes then push_str m bytes else buffer_drop (buffer_push_bytes (as_buffer m) bytes)

unfoldable pub push_byte : MaybeUtf8 → ℕ → MaybeUtf8
unfolding push_bytes
push_byte m byte = push_bytes m (byte ∷ [])
