-- ===== src/Shell/Programs.antt =====
-- The loops of the terminal that read keys: terminal_login and terminal_run_nano of
-- OSC/boot/efi_main.c. Each round reads at least one key, so the keys bound the rounds.
use existent_os.Prelude.{
  ℕ, zero, suc, ◌+◌, Bool, true, false, ◌||◌, List, leb, ◌==◌, if◌then◌else◌, length,
}
use existent_os.CString.{chars}
use existent_os.Accounts.State as Accounts
use existent_os.Terminal.{match_command, max_line}
use existent_os.Shell.State.{write, write_line}
use existent_os.Shell.Run.{
  done, exhausted, Action, ◌>>=◌, ◌>>◌, return, modify, set_echo, read_line,
}

abbrev pub max_editor_lines : ℕ
max_editor_lines = 8

module _ {World : Type 0} where
  unfoldable pub sign_in : List ℕ → List ℕ → Action World Bool
  sign_in username password s =
      let (found, accounts) = Accounts.login username password s.accounts in
      done found (record s { accounts = accounts })

  -- What terminal_run_nano does with a line that is not empty; `again` is the next round, with the
  -- number of lines.
  unfoldable pub edit : (ℕ → Action World ℕ) → ℕ → List ℕ → Action World ℕ
  edit again count line =
      if match_command line (chars "exit") || match_command line (chars "quit")
      then (do modify (write_line (chars "exiting nano")); return 0)
      else if match_command line (chars "save")
      then (do modify (write_line (chars "saved nano buffer")); return 0)
      else if leb max_editor_lines count
      then (do modify (write_line (chars "editor buffer full")); again count)
      else (do modify (write_line (chars "line added")); again (count + 1))

module _ {World : Type 0} (fresh : ℕ → List ℕ) where
  -- Reading a password: the echo is off while it is typed.
  unfoldable pub read_secret : ℕ → Action World (List ℕ × ℕ)
  read_secret room = do
    set_echo false
    typed ← read_line room (fresh room)
    set_echo true
    return typed

  -- A round of terminal_login after a name was read; `again` is the next round.
  unfoldable pub try_login : Action World ℕ → List ℕ → Action World ℕ
  try_login again username = do
    modify (write (chars "password: "))
    (password, _) ← read_secret 32
    found ← sign_in username password
    (if found then return 1 else do modify (write_line (chars "invalid credentials")); again)

  unfoldable pub login_round : Action World ℕ → Action World ℕ
  login_round again = do
    modify (write (chars "login: "))
    (username, length) ← read_line 32 (fresh 32)
    (if length == 0 then again else try_login again username)

  unfoldable pub login_rounds : ℕ → Action World ℕ
  login_rounds zero s = exhausted
  login_rounds (suc fuel) s = login_round (login_rounds fuel) s

  unfoldable pub login : Action World ℕ
  login s = login_rounds (length s.keys + 1) s

  unfoldable pub nano_round : (ℕ → Action World ℕ) → ℕ → Action World ℕ
  nano_round again count = do
    modify (write (chars "nano> "))
    (line, length) ← read_line max_line (fresh max_line)
    (if length == 0 then again count else edit again count line)

  unfoldable pub nano_rounds : ℕ → ℕ → Action World ℕ
  nano_rounds zero count s = exhausted
  nano_rounds (suc fuel) count s = nano_round (nano_rounds fuel) count s

  unfoldable pub run_nano : Action World ℕ
  run_nano s = nano_rounds (length s.keys + 1) 0 (
      write_line (chars "type lines, save, or exit")
        (write_line (chars "nano-like editor entered") s))
