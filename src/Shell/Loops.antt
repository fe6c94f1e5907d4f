-- ===== src/Shell/Loops.antt =====
-- The loops of the terminal end or wait for a key: each round takes at least one key.
pub mod Keys
pub mod Commands
pub mod Lines
use existent_os.Prelude.{
  ℕ, zero, suc, ◌+◌, ◌<◌, ◌≤◌, ◌≡◌, refl, ◌∙◌, Bool, true, false, not, ◌||◌, List, [], ◌∷◌, Option,
  none, some, arith, leb, ◌==◌, if◌then◌else◌, length, Bool-cases, inl, inr,
}
use existent_os.CString.{text, chars}
use existent_os.Accounts.State as Accounts
use existent_os.Terminal as Text
use existent_os.Terminal.{Input, max_line, match_command, read_keys, take_key}
use existent_os.Terminal.Echo.{read_line_within}
use existent_os.Shell.Kept.{Ends}
use existent_os.Shell.State.{State, write, write_line, current_prompt}
use existent_os.Shell.Run.{
  Run, done, waiting, exhausted, Action, and_then, ◌>>=◌, ◌>>◌, return, modify, after_line,
  read_line,
}
use existent_os.Shell.Programs.{
  sign_in, read_secret, try_login, login_round, login_rounds, login, edit, nano_round, nano_rounds,
  run_nano, max_editor_lines,
}
use existent_os.Shell.Session.{shell_round, shell_rounds, run_shell}

-- It has not run out of fuel, and if it ended, fewer than `n` keys are left.
abbrev pub IsOver : {World A : Type 0} → ℕ → Run World A → Type 0
IsOver n (done a s) = length s.keys < n
IsOver n waiting = Unit {0}
IsOver n exhausted = ⊥

pub and_then-IsOver :
    {World A B : Type 0} (m n : ℕ) (r : Run World A) (f : A → Action World B)
    → IsOver m r
    → ((a : A) (s : State World) → length s.keys < m → IsOver n (f a s))
    → IsOver n (and_then r f)
and_then-IsOver m n (done a s) f h k = k a s h
and_then-IsOver m n waiting f h k = tt
and_then-IsOver m n exhausted f h k = absurd h

pub if-IsOver :
    {World A : Type 0} (n : ℕ) (c : Bool) (m k : Action World A) (s : State World)
    → IsOver n (m s)
    → IsOver n (k s)
    → IsOver n ((if c then m else k) s)
if-IsOver n true m k s g h = g
if-IsOver n false m k s g h = h

length-text : (s : List ℕ) → length (text s) ≤ length s
length-text [] = omega arith
length-text (c ∷ s) = ground (arith, length-text s)

-- The keys after a line, if it was read.
abbrev Leaves : ℕ → Option (Input × List ℕ) → Type 0
Leaves n none = Unit {0}
Leaves n (some (i, keys)) = length keys < n

Leaves-mono : (m n : ℕ) (r : Option (Input × List ℕ)) → m ≤ n → Leaves m r → Leaves n r
Leaves-mono m n none le h = tt
Leaves-mono m n (some (i, keys)) le h = omega (arith, le, h)

read_keys-Leaves :
    (echo : Bool) (room : ℕ) (keys : List ℕ) (s : Input)
    → Leaves (length keys) (read_keys echo room keys s)
unfolding read_keys
read_keys-Leaves echo room [] s = tt
read_keys-Leaves echo room (key ∷ keys) s = elim (Bool-cases (key == 13)) [
  | inl e ↦ rw e (omega arith)
  | inr e ↦ rw e (Leaves-mono (length keys) _ _ (omega arith) (read_keys-Leaves echo room keys _))
]

module _ {World : Type 0} where
  after_line-IsOver :
      (n : ℕ) (s : State World) (r : Option (Input × List ℕ))
      → Leaves n r
      → IsOver n (after_line s r)
  after_line-IsOver n s none h = tt
  after_line-IsOver n s (some (i, keys)) h = h

  -- A line that was read has taken a key.
  pub read_line-IsOver :
      (n room : ℕ) (line : List ℕ) (s : State World)
      → length s.keys ≤ n
      → IsOver n (read_line room line s)
  unfolding read_line Text.read_line
  read_line-IsOver n room line s h =
      after_line-IsOver n s _
        (Leaves-mono (length s.keys) n _ h (read_keys-Leaves s.echo_enabled room s.keys _))

  module _ (fresh : ℕ → List ℕ) where
    pub read_secret-IsOver :
        (n room : ℕ) (s : State World) → length s.keys ≤ n → IsOver n (read_secret fresh room s)
    unfolding read_secret
    read_secret-IsOver n room s h =
        and_then-IsOver n n (read_line room (fresh room) (record s { echo_enabled = false })) _
          (read_line-IsOver n room (fresh room) _ h) (λ typed t k. k)

    -- A next round from a state with fewer than `m` keys, which leaves fewer than `n`.
    abbrev IsRound : ℕ → ℕ → Action World ℕ → Type 0
    IsRound m n again = (s : State World) → length s.keys < m → IsOver n (again s)

    try_login-IsOver :
        (m n : ℕ) (again : Action World ℕ) (username : List ℕ)
        → m ≤ n
        → IsRound m n again
        → IsRound m n (try_login fresh again username)
    unfolding try_login sign_in write write_line
    try_login-IsOver m n again username le more s h =
        and_then-IsOver m n (read_secret fresh 32 (write (chars "password: ") s)) _
          (read_secret-IsOver m 32 _ (omega (arith, h)))
          (λ typed t k.
            if-IsOver n (Accounts.login username typed.0 t.accounts).0 (return 1) _ _
              (omega (arith, k, le)) (more _ k))

    login_rounds-IsOver :
        (fuel n : ℕ) (s : State World)
        → length s.keys ≤ n
        → length s.keys < fuel
        → IsOver n (login_rounds fresh fuel s)
    unfolding login_rounds login_round write
    login_rounds-IsOver zero n s h k = absurd (omega arith)
    login_rounds-IsOver (suc fuel) n s h k =
        let m = length s.keys in
        let more : IsRound m n (login_rounds fresh fuel) =
          λ t l. login_rounds-IsOver fuel n t (omega (arith, h, l)) (omega (arith, k, l)) in
        and_then-IsOver m n (read_line 32 (fresh 32) (write (chars "login: ") s)) _
          (read_line-IsOver m 32 (fresh 32) _ (omega arith))
          (λ typed t l.
            if-IsOver n (typed.1 == 0) (login_rounds fresh fuel)
              (try_login fresh (login_rounds fresh fuel) typed.0) t (more t l)
              (try_login-IsOver m n (login_rounds fresh fuel) typed.0 h more t l))

    -- terminal_login ends, with keys taken, or it waits for a key.
    pub login-IsOver : (n : ℕ) (s : State World) → length s.keys ≤ n → IsOver n (login fresh s)
    unfolding login
    login-IsOver n s h = login_rounds-IsOver (length s.keys + 1) n s h (omega arith)

    edit-IsOver :
        (n count : ℕ) (line : List ℕ) (again : ℕ → Action World ℕ) (s : State World)
        → length s.keys < n
        → ((count : ℕ) (t : State World) → length t.keys ≤ length s.keys → IsOver n (again count t))
        → IsOver n (edit again count line s)
    unfolding edit write write_line
    edit-IsOver n count line again s h more =
        if-IsOver n (match_command line (chars "exit") || match_command line (chars "quit")) _ _ s h
          (if-IsOver n (match_command line (chars "save")) _ _ s h (
            if-IsOver n (leb max_editor_lines count) _ _ s (more count _ (omega arith))
              (more (count + 1) _ (omega arith))))

    nano_rounds-IsOver :
        (fuel n count : ℕ) (s : State World)
        → length s.keys ≤ n
        → length s.keys < fuel
        → IsOver n (nano_rounds fresh fuel count s)
    unfolding nano_rounds nano_round write
    nano_rounds-IsOver zero n count s h k = absurd (omega arith)
    nano_rounds-IsOver (suc fuel) n count s h k =
        let m = length s.keys in
        let more : (count : ℕ) → IsRound m n (nano_rounds fresh fuel count) = λ count t l.
          nano_rounds-IsOver fuel n count t (omega (arith, h, l)) (omega (arith, k, l)) in
        and_then-IsOver m n (read_line max_line (fresh max_line) (write (chars "nano> ") s)) _
          (read_line-IsOver m max_line (fresh max_line) _ (omega arith))
          (λ typed t l.
            if-IsOver n (typed.1 == 0) (nano_rounds fresh fuel count)
              (edit (nano_rounds fresh fuel) count typed.0) t (more count t l)
              (edit-IsOver n count typed.0 (nano_rounds fresh fuel) t (omega (arith, h, l))
                (λ count u j. more count u (omega (arith, j, l)))))

    -- terminal_run_nano ends, with keys taken, or it waits for a key.
    pub run_nano-IsOver :
        (n : ℕ) (s : State World) → length s.keys ≤ n → IsOver n (run_nano fresh s)
    unfolding run_nano write write_line
    run_nano-IsOver n s h = nano_rounds-IsOver (length s.keys + 1) n 0 _ h (omega arith)
