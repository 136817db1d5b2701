-- ===== src/Base/Results.antt =====
-- `Result` of the source's language, with its `map`, and `and_then` of `Option`.
use mathlib.Core.Option.{Option, none, some}

pub data Result (T E : Type 0) : Type 0 where
  ok : T → Result T E
  err : E → Result T E

abbrev pub map_ok : {T U E : Type 0} → (T → U) → Result T E → Result U E
map_ok f (ok t) = ok (f t)
map_ok f (err e) = err e

abbrev pub and_then {ℓ κ} : {A : Type ℓ} {B : Type κ} → Option A → (A → Option B) → Option B
and_then none f = none
and_then (some a) f = f a
