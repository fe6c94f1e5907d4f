-- ===== src/Shell/Commands.antt =====
-- The names that terminal_execute_command compares the first argument with, in the order of the
-- source, and what each stands for (OSC/boot/efi_main.c).
use existent_os.Prelude.{ℕ, Bool, true, false, List, [], ◌∷◌, if◌then◌else◌}
use existent_os.CString.{chars}
use existent_os.Terminal.{match_command}
use existent_os.Shell.State.{Mode}

-- `print` writes its lines and does nothing else; `enter` is `bash` or `batch`.
pub data Command : Type 0 where
  switch_echo rem switch_lang echo nano cat touch rm source system list_drive exit cd : Command
  whoami grep users useradd passwd login unknown : Command
  write : Bool → Command
  enter : Mode → Command
  print : List (List ℕ) → Command

abbrev say : List ℕ → Command
say t = print (t ∷ [])

abbrev help_text : List ℕ
help_text =
    chars
      "available commands: help, echo, status, system, ver, dir, ls, mem, clear, cls, pause, exit, shutdown, reboot, type, set, time, date, cd, copy, del, ren, md, rd, path, whoami, pwd, switchlang"

abbrev pub commands : List (List ℕ × Command)
commands =
    (chars "@echo", switch_echo)
    ∷ (chars "rem", rem)
    ∷ (chars "switchlang", switch_lang)
    ∷ (chars "help", say help_text)
    ∷ (chars "echo", echo)
    ∷ (chars "nano", nano)
    ∷ (chars "apps", say (chars "apps: nano, calc, cat, memo, todo"))
    ∷ (chars "calc", say (chars "calculator stub ready"))
    ∷ (chars "cat", cat)
    ∷ (chars "touch", touch)
    ∷ (chars "rm", rm)
    ∷ (chars "write", write false)
    ∷ (chars "append", write true)
    ∷ (chars "source", source)
    ∷ (chars "memo", say (chars "memo app ready"))
    ∷ (chars "todo", say (chars "todo: some more junk"))
    ∷ (chars "status", say (chars "ok"))
    ∷ (chars "system", system)
    ∷ (chars "ver", say (chars "Fisix OS batch terminal 0.1"))
    ∷ (chars "dir", list_drive)
    ∷ (chars "ls", list_drive)
    ∷ (chars "mem", say (chars "memory manager ready"))
    ∷ (chars "clear", print (chars " " ∷ chars " " ∷ chars " " ∷ []))
    ∷ (chars "cls", print (chars " " ∷ chars " " ∷ chars " " ∷ []))
    ∷ (chars "pause", say (chars "press any key to continue"))
    ∷ (chars "exit", exit)
    ∷ (chars "shutdown", exit)
    ∷ (chars "reboot", say (chars "reboot command received"))
    ∷ (chars "type", say (chars "bat script execution support active"))
    ∷ (chars "set", say (chars "environment variables set"))
    ∷ (chars "time", say (chars "00:00:00"))
    ∷ (chars "date", say (chars "06/08/2026"))
    ∷ (chars "cd", cd)
    ∷ (chars "copy", say (chars "copy operation supported"))
    ∷ (chars "del", say (chars "delete operation supported"))
    ∷ (chars "ren", say (chars "rename operation supported"))
    ∷ (chars "md", say (chars "directory creation supported"))
    ∷ (chars "rd", say (chars "directory removal supported"))
    ∷ (chars "path", say (chars "path set to Fisix OS"))
    ∷ (chars "whoami", whoami)
    ∷ (chars "grep", grep)
    ∷ (chars "users", users)
    ∷ (chars "useradd", useradd)
    ∷ (chars "passwd", passwd)
    ∷ (chars "login", login)
    ∷ (chars "pwd", say (chars "/"))
    ∷ (chars "bash", enter Mode.bash)
    ∷ (chars "batch", enter Mode.batch)
    ∷ []

-- The first of some names that a word matches.
unfoldable pub first_match : List (List ℕ × Command) → List ℕ → Command
first_match [] word = unknown
first_match ((name, command) ∷ rest) word =
    if match_command word name then command else first_match rest word

unfoldable pub command_of : List ℕ → Command
command_of word = first_match commands word
