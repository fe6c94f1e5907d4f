-- ===== src/Shell/Kept/Commands.antt =====
-- Every command keeps what the calls of accounts.c keep, and so do the inputs of whole sessions.
use existent_os.Prelude.{
  ℕ, Bool, true, false, not, List, [], ◌∷◌, Option, none, some, ltb, ◌==◌, length, drop, All,
}
use existent_os.CString.{chars}
use existent_os.Firmware.{Firmware}
use existent_os.Accounts.State as Accounts
use existent_os.Accounts.Valid.{IsChars}
use existent_os.Terminal.Chars.{argument-IsChars}
use existent_os.Shell.State.{State, Mode, write}
use existent_os.Shell.Run.{Action, ◌>>=◌}
use existent_os.Shell.Files.{cat_file, touch_file, remove_file, write_file, read_script}
use existent_os.Shell.Commands.{
  Command, switch_echo, rem, switch_lang, echo, nano, cat, touch, rm, source, system, list_drive,
  exit, cd, whoami, grep, users, useradd, passwd, login, unknown, write as write_command, enter,
  print,
}
use existent_os.Shell.Programs
use existent_os.Shell.Replies.{argument, or_usage, on_world, run_lines}
use existent_os.Shell.Execute.{
  add_user, store_password, change_password, list_directory, run_script, source_file, perform,
}
use existent_os.Shell.Kept.{IsKept, IsWide, Good, Ends, and_then-Ends, if-Ends}
use existent_os.Shell.Kept.Pure.{
  write-Good, write_line-Good, world-Good, switch_echo_to-Good, switch_lang_to-Good, set_mode-Good,
  write_arg_list-Good, print_lines-Good, choose_drive-Good, change_drive-Good,
  search_arguments-Good, write_users-Good, show_drive_root-Good,
}
use existent_os.Shell.Kept.Actions.{GoodLine, read_secret-Ends, login-Ends, run_nano-Ends, either}
use existent_os.Shell.Kept.Files.{AreLines, cat_file-Ends, read_script-AreLines}

module _ (F : Firmware) (ready : Bool) (fresh : ℕ → List ℕ) (P : Accounts.State → Type 0)
    (kept : IsKept F ready P) (wide : IsWide F fresh) where
  abbrev pub Keeps : {A : Type 0} → A → State F.World → Type 0
  Keeps a t = Good P t

  -- What an action that runs a command keeps, for a command of CHAR16 values.
  abbrev pub Runs : (List ℕ → Action F.World ℕ) → Type 0
  Runs run =
      (command : List ℕ) (s : State F.World)
      → IsChars command
      → Good P s
      → Ends Keeps (run command s)

  or_usage-Ends :
      (usage : List ℕ) (succeeded : Bool) (s : State F.World)
      → Good P s
      → Ends Keeps (or_usage usage succeeded s)
  unfolding or_usage
  or_usage-Ends usage true s g = g
  or_usage-Ends usage false s g = write_line-Good P usage s g

  on_world-Ends :
      (call : F.World → Bool × F.World) (s : State F.World)
      → Good P s
      → Ends Keeps (on_world call s)
  unfolding on_world
  on_world-Ends call s g = world-Good P _ s g

  -- A call on the world and the usage line where it fails.
  tried-Ends :
      (call : F.World → Bool × F.World) (usage : List ℕ) (s : State F.World)
      → Good P s
      → Ends Keeps ((do result ← on_world call; or_usage usage result) s)
  tried-Ends call usage s g =
      and_then-Ends Keeps Keeps (on_world call s) _ (on_world-Ends call s g) (or_usage-Ends usage)

  run_lines-Ends :
      (run : List ℕ → Action F.World ℕ)
      → Runs run
      → (lines : List (List ℕ)) (s : State F.World) → All IsChars lines
      → Good P s
      → Ends Keeps (run_lines run lines s)
  unfolding run_lines
  run_lines-Ends run runs [] s h g = g
  run_lines-Ends run runs (l ∷ lines) s h g =
      and_then-Ends Keeps Keeps (run l s) _ (runs l s h.0 g)
        (λ _ t k. run_lines-Ends run runs lines t h.1 k)

  add_user-Ends :
      (args : List (List ℕ)) (s : State F.World)
      → All IsChars args
      → Good P s
      → Ends Keeps (add_user F ready fresh args s)
  unfolding add_user
  add_user-Ends args s h g = if-Ends Keeps (not (length args == 3)) _ _ (write_line-Good P _ s g) (
      write_line-Good P _ _ (record {
        accounts =
            kept.add (argument args 1) (argument args 2) s.accounts s.world
              (argument-IsChars args 1 h) (argument-IsChars args 2 h) g.accounts;
        keys = g.keys;
        line = g.line;
      }))

  store_password-Ends :
      (old_password new_password : List ℕ) (s : State F.World)
      → IsChars new_password
      → Good P s
      → Ends Keeps (store_password F ready fresh old_password new_password s)
  unfolding store_password
  store_password-Ends old_password new_password s h g = write_line-Good P _ _ (record {
    accounts = kept.change old_password new_password s.accounts s.world h g.accounts;
    keys = g.keys;
    line = g.line;
  })

  change_password-Ends :
      (s : State F.World) → Good P s → Ends Keeps (change_password F ready fresh s)
  unfolding change_password
  change_password-Ends s g =
      and_then-Ends (GoodLine P fresh wide.stack) Keeps
        (Programs.read_secret fresh 32 (write (chars "current password: ") s)) _
        (read_secret-Ends P fresh wide.stack 32 _ (write-Good P (chars "current password: ") s g))
        (λ old t h.
          and_then-Ends (GoodLine P fresh wide.stack) Keeps
            (Programs.read_secret fresh 32 (write (chars "new password: ") t)) _
            (read_secret-Ends P fresh wide.stack 32 _ (write-Good P (chars "new password: ") t h.1))
            (λ new u k. store_password-Ends old.0 new.0 u k.0 k.1))

  source_file-Ends :
      (run : List ℕ → Action F.World ℕ)
      → Runs run
      → (path : List ℕ) (s : State F.World) → Good P s
      → Ends Keeps (source_file F ready fresh run path s)
  unfolding source_file run_script
  source_file-Ends run runs path s g =
      by_lines (read_script F ready path s.world).0 (read_script-AreLines F ready wide path s.world)
        (record s { world = (read_script F ready path s.world).1 }) (world-Good P _ s g)
    where
      by_lines :
          (lines : Option (List (List ℕ)))
          → AreLines lines
          → (t : State F.World) → Good P t
          → Ends {A = Bool} Keeps (run_script F ready fresh run lines t)
      by_lines none h t k = k
      by_lines (some lines) h t k =
          and_then-Ends Keeps Keeps (run_lines run lines t) _ (run_lines-Ends run runs lines t h k)
            (λ _ u m. m)

  pub perform-Ends :
      (run : List ℕ → Action F.World ℕ)
      → Runs run
      → (fuel : ℕ) (command : Command) (args : List (List ℕ)) (rest : List ℕ) (s : State F.World)
      → All IsChars args
      → Good P s
      → Ends Keeps (perform F ready fresh run fuel command args rest s)
  unfolding perform list_directory
  perform-Ends run runs fuel switch_echo args rest s h g = switch_echo_to-Good P args s g
  perform-Ends run runs fuel rem args rest s h g = g
  perform-Ends run runs fuel switch_lang args rest s h g = switch_lang_to-Good P args s g
  perform-Ends run runs fuel echo args rest s h g =
      write_line-Good P [] _ (write_arg_list-Good P true (drop 1 args) s g)
  perform-Ends run runs fuel nano args rest s h g =
      and_then-Ends Keeps Keeps (Programs.run_nano fresh s) _ (run_nano-Ends P fresh wide.stack s g)
        (λ _ t k. k)
  perform-Ends run runs fuel cat args rest s h g =
      either P fresh wide.stack (length args == 2) _ _ s
        (and_then-Ends Keeps Keeps (cat_file F ready fuel (argument args 1) s) _
          (cat_file-Ends F ready P fuel (argument args 1) s g) (or_usage-Ends _))
        (or_usage-Ends _ false s g)
  perform-Ends run runs fuel touch args rest s h g =
      either P fresh wide.stack (length args == 2) _ _ s
        (tried-Ends (touch_file F ready (argument args 1)) _ s g) (or_usage-Ends _ false s g)
  perform-Ends run runs fuel rm args rest s h g =
      either P fresh wide.stack (length args == 2) _ _ s
        (tried-Ends (remove_file F ready (argument args 1)) _ s g) (or_usage-Ends _ false s g)
  perform-Ends run runs fuel (write_command append) args rest s h g =
      either P fresh wide.stack (ltb (length args) 3) _ _ s (or_usage-Ends _ false s g)
        (tried-Ends (write_file F ready append (argument args 1) (drop 2 args)) _ s g)
  perform-Ends run runs fuel source args rest s h g =
      either P fresh wide.stack (length args == 2) _ _ s
        (and_then-Ends Keeps Keeps (source_file F ready fresh run (argument args 1) s) _
          (source_file-Ends run runs (argument args 1) s g) (or_usage-Ends _))
        (or_usage-Ends _ false s g)
  perform-Ends run runs fuel system args rest s h g = write_line-Good P rest s g
  perform-Ends run runs fuel list_drive args rest s h g =
      show_drive_root-Good F ready fresh P _ _ (choose_drive-Good P args s g)
  perform-Ends run runs fuel exit args rest s h g = write_line-Good P _ s g
  perform-Ends run runs fuel cd args rest s h g = change_drive-Good P args s g
  perform-Ends run runs fuel whoami args rest s h g = write_line-Good P _ s g
  perform-Ends run runs fuel grep args rest s h g = search_arguments-Good P args s g
  perform-Ends run runs fuel users args rest s h g = write_users-Good P _ 0 s g
  perform-Ends run runs fuel useradd args rest s h g = add_user-Ends args s h g
  perform-Ends run runs fuel passwd args rest s h g = change_password-Ends s g
  perform-Ends run runs fuel login args rest s h g =
      and_then-Ends Keeps Keeps (Programs.login fresh s) _
        (login-Ends P fresh wide.stack P kept.login
          (λ name password a h _. kept.login name password a h) s g)
        (λ _ t k. k)
  perform-Ends run runs fuel (enter Mode.bash) args rest s h g =
      write_line-Good P _ _ (set_mode-Good P Mode.bash s g)
  perform-Ends run runs fuel (enter Mode.batch) args rest s h g =
      write_line-Good P _ _ (set_mode-Good P Mode.batch s g)
  perform-Ends run runs fuel (print lines) args rest s h g = print_lines-Good P lines s g
  perform-Ends run runs fuel unknown args rest s h g = write_line-Good P _ s g
