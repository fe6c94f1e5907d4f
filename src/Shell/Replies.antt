-- ===== src/Shell/Replies.antt =====
-- The commands of terminal_execute_command that neither read a key nor call the firmware, and
-- terminal_try_pipeline (OSC/boot/efi_main.c).
use existent_os.Prelude.{
  ℕ, zero, suc, ◌+◌, Bool, true, false, not, ◌&&◌, ◌||◌, List, [], ◌∷◌, Option, none, some, ltb,
  ◌==◌, if◌then◌else◌, get_or, length, drop,
}
use existent_os.Prelude.Int.{pos}
use existent_os.CString.{text, chars}
use existent_os.Accounts.State as Accounts
use existent_os.Terminal.{max_args, max_line, match_command, contains, parse_command, arguments}
use existent_os.Terminal.Segments.{copy_segment, cut}
use existent_os.Shell.State.{State, Mode, write_line, set_drive, set_mode, drive_prefix}
use existent_os.Shell.Run.{done, Action, ◌>>◌, return}

abbrev pub argument : List (List ℕ) → ℕ → List ℕ
argument args i = get_or args i []

abbrev pub user_name : Option (List ℕ) → List ℕ
user_name none = []
user_name (some name) = name

module _ {World : Type 0} where
  -- The strings of argv; the static line is overwritten.
  unfoldable pub parse : List ℕ → State World → List (List ℕ) × State World
  parse command s =
      let r = parse_command command max_args s.line in (arguments r, record s { line = r.0 })

  unfoldable pub print_lines : List (List ℕ) → State World → State World
  print_lines [] s = s
  print_lines (t ∷ ts) s = print_lines ts (write_line t s)

  unfoldable pub switch_echo_to : List (List ℕ) → State World → State World
  switch_echo_to args s =
      if ltb 1 (length args) && match_command (argument args 1) (chars "off")
      then record s { echo_enabled = false }
      else if ltb 1 (length args) && match_command (argument args 1) (chars "on")
      then record s { echo_enabled = true }
      else s

  unfoldable pub switch_lang_to : List (List ℕ) → State World → State World
  switch_lang_to args s =
      if ltb 1 (length args) && match_command (argument args 1) (chars "bash")
      then write_line (chars "switched to bash") (set_mode Mode.bash s)
      else if ltb 1 (length args) && match_command (argument args 1) (chars "batch")
      then write_line (chars "switched to batch") (set_mode Mode.batch s)
      else write_line (chars "usage: switchlang bash | batch") s

  -- `argc > 1 && terminal_drive_prefix(argv[1], &terminal_current_drive)`: the drive is stored before
  -- terminal_set_drive looks at it.
  unfoldable pub choose_drive : List (List ℕ) → State World → Bool × State World
  choose_drive args s = elim (drive_prefix (argument args 1)) [
    | none ↦ (false, s)
    | some drive ↦
        if ltb 1 (length args)
        then (true, set_drive drive (record s { current_drive = drive }))
        else (false, s)
  ]

  unfoldable pub change_drive : List (List ℕ) → State World → State World
  change_drive args s =
      let (chosen, s') = choose_drive args s in
      if chosen
      then write_line s'.current_path (write_line (chars "drive set to") s')
      else write_line s.current_path s

  -- The arguments from the third on that hold the pattern.
  unfoldable pub write_matches : List ℕ → List (List ℕ) → State World → State World
  write_matches pattern [] s = s
  write_matches pattern (a ∷ args) s =
      write_matches pattern args (if contains a pattern then write_line a s else s)

  unfoldable pub search_arguments : List (List ℕ) → State World → State World
  search_arguments args s =
      if ltb (length args) 3
      then write_line (chars "usage: grep <pattern> <text>") s
      else write_matches (argument args 1) (drop 2 args) s

  -- `for (int i = 0; i < accounts_count(); ++i)`, with `n` users left.
  unfoldable pub write_users : ℕ → ℕ → State World → State World
  write_users zero i s = s
  write_users (suc n) i s =
      write_users n (i + 1) (write_line (user_name (Accounts.user_at s.accounts (pos i))) s)

  -- A usage line where a command with arguments was not carried out.
  unfoldable pub or_usage : List ℕ → Bool → Action World ℕ
  or_usage usage succeeded s = done 0 (if succeeded then s else write_line usage s)

  unfoldable pub on_world : (World → Bool × World) → Action World Bool
  on_world call s = let (result, w) = call s.world in done result (record s { world = w })

  -- The lines of a script, each by `run`; the results are not looked at.
  unfoldable pub run_lines : (List ℕ → Action World ℕ) → List (List ℕ) → Action World ℕ
  run_lines run [] = return 0
  run_lines run (l ∷ lines) = do run l; run_lines run lines

  -- A trivial pipeline is carried out, any other input is left to the commands.
  unfoldable pub echo_to_grep : (ℕ → List ℕ) → List ℕ → List ℕ → State World → State World
  echo_to_grep fresh before after s =
      let left = copy_segment (fresh max_line) before in
      let right = copy_segment (fresh max_line) (text after) in
      let (left_args, s₁) = parse left s in
      let (right_args, s₂) = parse right s₁ in
      let shown = copy_segment left (drop 5 before) in
      if ltb (length left_args) 2 || not (match_command (argument left_args 0) (chars "echo"))
      then write_line (chars "pipes currently support echo | grep") s₁
      else if not (length right_args == 2)
          || not (match_command (argument right_args 0) (chars "grep"))
      then write_line (chars "usage: echo <text> | grep <pattern>") s₂
      else if contains shown (argument right_args 1)
      then write_line shown s₂
      else s₂

  -- `none` is -1: there is no `|` in the command.
  unfoldable pub try_pipeline : (ℕ → List ℕ) → List ℕ → State World → Option (State World)
  try_pipeline fresh command s = elim (cut b'|' command) [
    | none ↦ none
    | some (before, after) ↦ some (echo_to_grep fresh before after s)
  ]
