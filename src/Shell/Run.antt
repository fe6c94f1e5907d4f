-- ===== src/Shell/Run.antt =====
-- An action of the terminal: it ends with a result and the new state, or it waits for a key that is
-- never typed, or the fuel of one of its loops is exhausted.
use existent_os.Prelude.{ℕ, Bool, List, Option, none, some, if◌then◌else◌, ◌++◌}
use existent_os.Terminal as Text
use existent_os.Shell.State.{State}

pub data Run (World A : Type 0) : Type 0 where
  done : A → State World → Run World A
  waiting : Run World A
  exhausted : Run World A

abbrev pub Action : Type 0 → Type 0 → Type 0
Action World A = State World → Run World A

-- What follows a run.
abbrev pub and_then : {World A B : Type 0} → Run World A → (A → Action World B) → Run World B
and_then (done a s) f = f a s
and_then waiting f = waiting
and_then exhausted f = exhausted

infixl 5 ◌>>=◌ ◌>>◌
abbrev pub ◌>>=◌ : {World A B : Type 0} → Action World A → (A → Action World B) → Action World B
◌>>=◌ m f s = and_then (m s) f

abbrev pub ◌>>◌ : {World A B : Type 0} → Action World A → Action World B → Action World B
m >> k = m >>= λ _. k

module _ {World : Type 0} where
  abbrev pub return : {A : Type 0} → A → Action World A
  return a s = done a s

  abbrev pub modify : (State World → State World) → Action World (Unit {0})
  modify f s = done tt (f s)

  abbrev pub when : Bool → Action World (Unit {0}) → Action World (Unit {0})
  when c m s = if c then m s else done tt s

  abbrev pub set_echo : Bool → Action World (Unit {0})
  set_echo echo s = done tt (record s { echo_enabled = echo })

  -- The state after a line was read.
  abbrev pub after_line : State World → Option (Text.Input × List ℕ) → Run World (List ℕ × ℕ)
  after_line s none = waiting
  after_line s (some (i, keys)) =
      done (i.line, i.length) (record s { keys = keys; written = i.written ++ s.written })

  -- terminal_read_line into an array of `room` cells that holds `line`.
  unfoldable pub read_line : ℕ → List ℕ → Action World (List ℕ × ℕ)
  read_line room line s = after_line s (Text.read_line s.echo_enabled room line s.keys)
