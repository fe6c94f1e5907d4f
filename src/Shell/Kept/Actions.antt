-- ===== src/Shell/Kept/Actions.antt =====
-- The actions of the terminal that read keys or open files, apart from the commands that run others.
use existent_os.Prelude.{
  ℕ, zero, suc, ◌+◌, Bool, true, false, ◌||◌, List, Option, none, some, leb, ◌==◌, if◌then◌else◌,
  length, ◌≡◌, refl,
}
use existent_os.CString.{chars}
use existent_os.Accounts.State as Accounts
use existent_os.Accounts.Valid.{IsChars}
use existent_os.Terminal as Text
use existent_os.Terminal.{max_line, match_command}
use existent_os.Terminal.Chars.{AreTyped, read_line-AreTyped}
use existent_os.Shell.State.{State, write, write_line}
use existent_os.Shell.Run.{Action, ◌>>◌, return, modify, after_line, read_line}
use existent_os.Shell.Programs.{
  sign_in, read_secret, try_login, login_round, login_rounds, login, edit, nano_round, nano_rounds,
  run_nano, max_editor_lines,
}
use existent_os.Shell.Kept.{Good, Ends, and_then-Ends}
use existent_os.Shell.Kept.Pure.{write-Good, write_line-Good, echo-Good}

module _ {World : Type 0} (P : Accounts.State → Type 0) (fresh : ℕ → List ℕ)
    (stack : (n : ℕ) → IsChars (fresh n)) where
  -- A state after a run, and the line that was read too.
  abbrev pub GoodState : {A : Type 0} → A → State World → Type 0
  GoodState a s = Good P s

  abbrev pub GoodLine : List ℕ × ℕ → State World → Type 0
  GoodLine (line, length) s = IsChars line × Good P s

  after_line-Ends :
      (s : State World) (r : Option (Text.Input × List ℕ))
      → AreTyped r
      → Good P s
      → Ends GoodLine (after_line s r)
  after_line-Ends s none h g = tt
  after_line-Ends s (some (i, keys)) h g =
      (h.0, record { accounts = g.accounts; keys = h.1; line = g.line })

  pub read_line-Ends :
      (room : ℕ) (line : List ℕ) (s : State World)
      → IsChars line
      → Good P s
      → Ends GoodLine (read_line room line s)
  unfolding read_line
  read_line-Ends room line s c g =
      after_line-Ends s _ (read_line-AreTyped s.echo_enabled room line s.keys c g.keys) g

  pub read_secret-Ends :
      (room : ℕ) (s : State World) → Good P s → Ends GoodLine (read_secret fresh room s)
  unfolding read_secret
  read_secret-Ends room s g =
      and_then-Ends GoodLine GoodLine
        (read_line room (fresh room) (record s { echo_enabled = false })) _
        (read_line-Ends room (fresh room) _ (stack room) (echo-Good P false s g))
        (λ typed t h. (h.0, echo-Good P true t h.1))

  -- One of two actions.
  pub either :
      (c : Bool) (m k : Action World ℕ) (s : State World)
      → Ends GoodState (m s)
      → Ends GoodState (k s)
      → Ends GoodState ((if c then m else k) s)
  either true m k s g h = g
  either false m k s g h = h

  -- `Q` is what a login that succeeded gives.
  module _ (Q : Accounts.State → Type 0)
      (login_keeps : (name password : List ℕ) (a : Accounts.State)
        → P a
        → P (Accounts.login name password a).1)
      (login_gives : (name password : List ℕ) (a : Accounts.State)
        → P a
        → (Accounts.login name password a).0 ≡ true
        → Q (Accounts.login name password a).1) where
    abbrev AfterSignIn : Bool → State World → Type 0
    AfterSignIn found s = Good P s × (found ≡ true → Good Q s)

    abbrev pub SignedIn : {A : Type 0} → A → State World → Type 0
    SignedIn a s = Good Q s

    sign_in-Ends :
        (name password : List ℕ) (s : State World)
        → Good P s
        → Ends AfterSignIn (sign_in name password s)
    unfolding sign_in
    sign_in-Ends name password s g = (
      record {
        accounts = login_keeps name password s.accounts g.accounts;
        keys = g.keys;
        line = g.line;
      },
      λ found. record {
        accounts = login_gives name password s.accounts g.accounts found;
        keys = g.keys;
        line = g.line;
      },
    )

    answered :
        (again : Action World ℕ)
        → ((s : State World) → Good P s → Ends SignedIn (again s))
        → (found : Bool) (s : State World) → AfterSignIn found s
        → Ends SignedIn (
            (if found
                then return 1
                else do modify (write_line (chars "invalid credentials")); again)
              s)
    answered again more true s g = g.1 refl
    answered again more false s g = more _ (write_line-Good P _ s g.0)

    try_login-Ends :
        (again : Action World ℕ)
        → ((s : State World) → Good P s → Ends SignedIn (again s))
        → (username : List ℕ) (s : State World) → Good P s
        → Ends SignedIn (try_login fresh again username s)
    unfolding try_login
    try_login-Ends again more username s g =
        and_then-Ends GoodLine SignedIn (read_secret fresh 32 (write (chars "password: ") s)) _
          (read_secret-Ends 32 _ (write-Good P (chars "password: ") s g))
          (λ typed t h.
            and_then-Ends AfterSignIn SignedIn (sign_in username typed.0 t) _
              (sign_in-Ends username typed.0 t h.1) (answered again more))

    by_length :
        (again : Action World ℕ)
        → ((s : State World) → Good P s → Ends SignedIn (again s))
        → (blank : Bool) (username : List ℕ) (s : State World) → Good P s
        → Ends SignedIn ((if blank then again else try_login fresh again username) s)
    by_length again more true username s g = more s g
    by_length again more false username s g = try_login-Ends again more username s g

    login_round-Ends :
        (again : Action World ℕ)
        → ((s : State World) → Good P s → Ends SignedIn (again s))
        → (s : State World) → Good P s
        → Ends SignedIn (login_round fresh again s)
    unfolding login_round
    login_round-Ends again more s g =
        and_then-Ends GoodLine SignedIn (read_line 32 (fresh 32) (write (chars "login: ") s)) _
          (read_line-Ends 32 (fresh 32) _ (stack 32) (write-Good P (chars "login: ") s g))
          (λ typed t h. by_length again more (typed.1 == 0) typed.0 t h.1)

    login_rounds-Ends :
        (fuel : ℕ) (s : State World) → Good P s → Ends SignedIn (login_rounds fresh fuel s)
    unfolding login_rounds
    login_rounds-Ends zero s g = tt
    login_rounds-Ends (suc fuel) s g =
        login_round-Ends (login_rounds fresh fuel) (login_rounds-Ends fuel) s g

    pub login-Ends : (s : State World) → Good P s → Ends SignedIn (login fresh s)
    unfolding login
    login-Ends s g = login_rounds-Ends (length s.keys + 1) s g

  edit-Ends :
      (again : ℕ → Action World ℕ)
      → ((count : ℕ) (s : State World) → Good P s → Ends GoodState (again count s))
      → (count : ℕ) (line : List ℕ) (s : State World) → Good P s
      → Ends GoodState (edit again count line s)
  unfolding edit
  edit-Ends again more count line s g =
      let said : (t : List ℕ) → Good P (write_line t s) = λ t. write_line-Good P t s g in
      either (match_command line (chars "exit") || match_command line (chars "quit")) _ _ s (said _)
        (either (match_command line (chars "save")) _ _ s (said _) (
          either (leb max_editor_lines count) _ _ s (more count _ (said _))
            (more (count + 1) _ (said _))))

  nano_rounds-Ends :
      (fuel count : ℕ) (s : State World)
      → Good P s
      → Ends GoodState (nano_rounds fresh fuel count s)
  unfolding nano_rounds nano_round
  nano_rounds-Ends zero count s g = tt
  nano_rounds-Ends (suc fuel) count s g =
      and_then-Ends GoodLine GoodState
        (read_line max_line (fresh max_line) (write (chars "nano> ") s)) _
        (read_line-Ends max_line (fresh max_line) _ (stack max_line)
          (write-Good P (chars "nano> ") s g))
        (λ typed t h.
          either (typed.1 == 0) (nano_rounds fresh fuel count) _ t
            (nano_rounds-Ends fuel count t h.1)
            (edit-Ends (nano_rounds fresh fuel) (nano_rounds-Ends fuel) count typed.0 t h.1))

  pub run_nano-Ends : (s : State World) → Good P s → Ends GoodState (run_nano fresh s)
  unfolding run_nano
  run_nano-Ends s g =
      nano_rounds-Ends (length s.keys + 1) 0 _ (write_line-Good P _ _ (write_line-Good P _ s g))
