-- ===== src/Server/Threads.antt =====
-- src/server/instance.rs: the counter of threads in use.
use rustful.Base.{List, [], ◌∷◌, ◌∙◌, ap, ℕ, ◌+◌, ◌-◌, ◌%◌, ◌≡◌, refl, arith}
use rustful.Http.{World}
use rustful.Server.{ServerInstance, word, on_connection_start, on_connection_end}

-- what happens to connections
pub data Event : Type 0 where
  started ended : Event

-- Connections that start and end, where only an open one ends: the number of open ones before and after.
pub data Connections : List Event → ℕ → ℕ → Type 0 where
  none_more : {n : ℕ} → Connections [] n n
  one_started :
      {events : List Event} {n m : ℕ}
      → Connections events (n + 1) m
      → Connections (started ∷ events) n m
  one_ended :
      {events : List Event} {n m : ℕ}
      → Connections events n m
      → Connections (ended ∷ events) (n + 1) m

module _ {w : World} {T : Type 0} where
  -- the handlers of hyper's events, one after the other
  abbrev pub run : List Event → ServerInstance w T → ServerInstance w T
  run [] s = s
  run (started ∷ events) s = run events (on_connection_start s)
  run (ended ∷ events) s = run events (on_connection_end s)

  abbrev counting : ServerInstance w T → ℕ → ServerInstance w T
  counting s n = record s { threads_in_use = n % word }

  start_lem :
      (s : ServerInstance w T) (n : ℕ) → on_connection_start (counting s n) ≡ counting s (n + 1)
  unfolding on_connection_start
  start_lem s n = rw (one_more n) refl
    where
      one_more : (n : ℕ) → (n % word + 1) % word ≡ (n + 1) % word
      one_more n = omega arith

  end_lem : (s : ServerInstance w T) (n : ℕ) → on_connection_end (counting s (n + 1)) ≡ counting s n
  unfolding on_connection_end
  end_lem s n = rw (one_less n) refl
    where
      one_less : (n : ℕ) → ((n + 1) % word + (word - 1)) % word ≡ n % word
      one_less n = omega arith

  run-counting :
      {events : List Event} {n m : ℕ} (s : ServerInstance w T)
      → Connections events n m
      → run events (counting s n) ≡ counting s m
  run-counting s none_more = refl
  run-counting s (one_started {events} {n} c) = ap (run events) (start_lem s n) ∙ run-counting s c
  run-counting s (one_ended {events} {n} c) = ap (run events) (end_lem s n) ∙ run-counting s c

  -- Whatever connections start and end, the counter of threads is the number of open connections, as a machine word
  -- that wraps around, and nothing else of the instance changes.
  pub run-Connections :
      {events : List Event} {n m : ℕ} (s : ServerInstance w T)
      → Connections events n m
      → s.threads_in_use ≡ n % word
      → run events s ≡ record s { threads_in_use = m % word }
  run-Connections {events} s c e =
      ap (λ x. run events (record s { threads_in_use = x })) e ∙ run-counting s c
