-- ===== src/Shell/Execute.antt =====
-- terminal_execute_command with the commands that read keys or call the firmware, and what runs the
-- lines of a script (OSC/boot/efi_main.c). A command may run a script that runs commands, without a
-- bound, so the recursion is on fuel.
use existent_os.Prelude.{
  ℕ, zero, suc, Bool, true, false, not, List, [], Option, none, some, ltb, ◌==◌, if◌then◌else◌,
  length, drop,
}
use existent_os.CString.{text, chars}
use existent_os.Firmware.{Firmware}
use existent_os.Accounts.State as Accounts
use existent_os.Terminal.{max_line}
use existent_os.Terminal.Segments.{command_args, copy_segment, cut}
use existent_os.Shell.State.{
  State, Mode, write, write_line, set_mode, write_arg_list, show_drive_root,
}
use existent_os.Shell.Run.{done, exhausted, Action, ◌>>=◌, ◌>>◌, return, modify}
use existent_os.Shell.Files.{cat_file, touch_file, remove_file, write_file, read_script}
use existent_os.Shell.Commands.{
  Command, switch_echo, rem, switch_lang, echo, nano, cat, touch, rm, source, system, list_drive,
  exit, cd, whoami, grep, users, useradd, passwd, login, unknown, write as write_command, enter,
  print, command_of,
}
use existent_os.Shell.Programs
use existent_os.Shell.Replies.{
  argument, parse, switch_echo_to, switch_lang_to, print_lines, choose_drive, change_drive,
  search_arguments, write_users, or_usage, on_world, run_lines, try_pipeline,
}

module _ (F : Firmware) (ready : Bool) (fresh : ℕ → List ℕ) where
  open F use {World}

  unfoldable pub add_user : List (List ℕ) → Action World ℕ
  add_user args s =
      let (added, accounts, w) =
        Accounts.add F ready (argument args 1) (argument args 2) s.accounts s.world in
      let s' = record s { accounts = accounts; world = w } in
      let usage = chars "usage: useradd <name> <password>" in
      if not (length args == 3)
      then done 0 (write_line usage s)
      else done 0 (write_line (if added then chars "user created" else usage) s')

  unfoldable pub store_password : List ℕ → List ℕ → Action World ℕ
  store_password old_password new_password s =
      let (changed, accounts, w) =
        Accounts.change_password F ready old_password new_password s.accounts s.world in
      done 0 (
        write_line (if changed then chars "password updated" else chars "password not changed")
          (record s { accounts = accounts; world = w }))

  unfoldable pub change_password : Action World ℕ
  change_password = do
    modify (write (chars "current password: "))
    (old_password, _) ← Programs.read_secret fresh 32
    modify (write (chars "new password: "))
    (new_password, _) ← Programs.read_secret fresh 32
    store_password old_password new_password

  unfoldable pub list_directory : List (List ℕ) → State World → State World
  list_directory args s =
      let s' = (choose_drive args s).1 in show_drive_root F ready fresh s'.current_drive s'

  unfoldable pub run_script : (List ℕ → Action World ℕ) → Option (List (List ℕ)) → Action World Bool
  run_script run none = return false
  run_script run (some lines) = do run_lines run lines; return true

  unfoldable pub source_file : (List ℕ → Action World ℕ) → List ℕ → Action World Bool
  source_file run path s =
      let (lines, w) = read_script F ready path s.world in
      run_script run lines (record s { world = w })

  -- The body of each command; `run` carries out the lines of a script, `fuel` bounds the rounds of
  -- `cat`, and `rest` is the command without its first word. Only `exit` answers 1.
  unfoldable pub perform :
      (List ℕ → Action World ℕ) → ℕ → Command → List (List ℕ) → List ℕ → Action World ℕ
  perform run fuel switch_echo args rest s = done 0 (switch_echo_to args s)
  perform run fuel rem args rest s = done 0 s
  perform run fuel switch_lang args rest s = done 0 (switch_lang_to args s)
  perform run fuel echo args rest s = done 0 (write_line [] (write_arg_list true (drop 1 args) s))
  perform run fuel nano args rest s = (do Programs.run_nano fresh; return 0) s
  perform run fuel cat args rest s =
      (if length args == 2
          then (do
            shown ← cat_file F ready fuel (argument args 1)
            or_usage (chars "usage: cat <file>") shown)
          else or_usage (chars "usage: cat <file>") false)
        s
  perform run fuel touch args rest s =
      (if length args == 2
          then (do
            made ← on_world (touch_file F ready (argument args 1))
            or_usage (chars "usage: touch <file>") made)
          else or_usage (chars "usage: touch <file>") false)
        s
  perform run fuel rm args rest s =
      (if length args == 2
          then (do
            removed ← on_world (remove_file F ready (argument args 1))
            or_usage (chars "usage: rm <file>") removed)
          else or_usage (chars "usage: rm <file>") false)
        s
  perform run fuel (write_command append) args rest s =
      (if ltb (length args) 3
          then or_usage (chars "usage: write|append <file> <text") false
          else (do
            written ← on_world (write_file F ready append (argument args 1) (drop 2 args))
            or_usage (chars "usage: write|append <file> <text") written))
        s
  perform run fuel source args rest s =
      (if length args == 2
          then (do
            sourced ← source_file run (argument args 1)
            or_usage (chars "usage: source <script>") sourced)
          else or_usage (chars "usage: source <script>") false)
        s
  perform run fuel system args rest s = done 0 (write_line rest s)
  perform run fuel list_drive args rest s = done 0 (list_directory args s)
  perform run fuel exit args rest s = done 1 (write_line (chars "shutdown command received") s)
  perform run fuel cd args rest s = done 0 (change_drive args s)
  perform run fuel whoami args rest s = done 0 (write_line (Accounts.current_user s.accounts) s)
  perform run fuel grep args rest s = done 0 (search_arguments args s)
  perform run fuel users args rest s = done 0 (write_users s.accounts.account_count 0 s)
  perform run fuel useradd args rest s = add_user args s
  perform run fuel passwd args rest s = change_password s
  perform run fuel login args rest s = (do Programs.login fresh; return 0) s
  perform run fuel (enter Mode.bash) args rest s =
      done 0 (write_line (chars "bash mode enabled") (set_mode Mode.bash s))
  perform run fuel (enter Mode.batch) args rest s =
      done 0 (write_line (chars "batch mode enabled") (set_mode Mode.batch s))
  perform run fuel (print lines) args rest s = done 0 (print_lines lines s)
  perform run fuel unknown args rest s = done 0 (write_line (chars "unknown command") s)

  -- A command without `&`.
  unfoldable pub run_single :
      (List ℕ → Action World ℕ) → ℕ → List ℕ → List (List ℕ) → Action World ℕ
  run_single run fuel command args s = elim (try_pipeline fresh command s) [
    | some s' ↦ done 0 s'
    | none ↦
        if length args == 0
        then done 0 s
        else perform run fuel (command_of (argument args 0)) args (command_args command) s
  ]

  -- One call of terminal_execute_command, where `run` makes the calls inside it.
  unfoldable pub execute_step : (List ℕ → Action World ℕ) → ℕ → List ℕ → Action World ℕ
  execute_step run fuel command s =
      let (args, s') = parse command s in
      elim (cut b'&' command) [
        | none ↦ run_single run fuel command args s'
        | some (before, after) ↦
            (do
              run (copy_segment (fresh max_line) before)
              run (copy_segment (fresh max_line) (text after)))
              s'
      ]

  unfoldable pub execute_command : ℕ → List ℕ → Action World ℕ
  execute_command zero command s = exhausted
  execute_command (suc fuel) command s = execute_step (execute_command fuel) fuel command s
