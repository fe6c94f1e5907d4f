-- ===== src/Shell/Kept/Pure.antt =====
-- The functions of the terminal that neither read a key nor open a file.
use existent_os.Prelude.{
  ℕ, zero, suc, ◌+◌, Bool, true, false, not, ◌&&◌, ◌||◌, List, [], ◌∷◌, Option, none, some,
  Bool-cases, inl, inr, ltb, ◌==◌, if◌then◌else◌, length, drop, All,
}
use existent_os.CString.{text, chars}
use existent_os.Firmware.{Firmware}
use existent_os.Accounts.State as Accounts
use existent_os.Accounts.Valid.{IsChars}
use existent_os.Eosfs.{Entry, Place}
use existent_os.Terminal.{max_args, max_line, contains, match_command, parse_command}
use existent_os.Terminal.Segments.{copy_segment, cut}
use existent_os.Terminal.Chars.{
  parse_command-IsChars, arguments-IsChars, copy_segment-IsChars, cut-AreParts, AreParts,
  text-IsChars,
}
use existent_os.Shell.State.{
  State, Mode, write, write_line, set_drive, set_mode, drive_prefix, write_arg_list, write_entry,
  write_entries, show_listing, show_outcome, show_drive_root,
}
use existent_os.Shell.Replies.{
  parse, print_lines, switch_echo_to, switch_lang_to, choose_drive, change_drive, write_matches,
  search_arguments, write_users, echo_to_grep, try_pipeline, argument,
}
use existent_os.Shell.Kept.{Good}

module _ {World : Type 0} (P : Accounts.State → Type 0) where
  pub write-Good : (t : List ℕ) (s : State World) → Good P s → Good P (write t s)
  unfolding write
  write-Good t s g = record { accounts = g.accounts; keys = g.keys; line = g.line }

  pub world-Good : (w : World) (s : State World) → Good P s → Good P (record s { world = w })
  world-Good w s g = record { accounts = g.accounts; keys = g.keys; line = g.line }

  pub write_line-Good : (t : List ℕ) (s : State World) → Good P s → Good P (write_line t s)
  unfolding write_line
  write_line-Good t s g = write-Good (13 ∷ 10 ∷ []) (write t s) (write-Good t s g)

  if-Good : {s t : State World} (c : Bool) → Good P s → Good P t → Good P (if c then s else t)
  if-Good true g h = g
  if-Good false g h = h

  pub echo-Good :
      (echo : Bool) (s : State World) → Good P s → Good P (record s { echo_enabled = echo })
  echo-Good echo s g = record { accounts = g.accounts; keys = g.keys; line = g.line }

  set_drive-Good : (drive : ℕ) (s : State World) → Good P s → Good P (set_drive drive s)
  unfolding set_drive
  set_drive-Good drive s g = elim (Bool-cases (drive == b'B' || drive == b'C')) [
    | inl e ↦ rw e (record { accounts = g.accounts; keys = g.keys; line = g.line })
    | inr e ↦ rw e g
  ]

  pub set_mode-Good : (mode : Mode) (s : State World) → Good P s → Good P (set_mode mode s)
  unfolding set_mode
  set_mode-Good mode s g = record { accounts = g.accounts; keys = g.keys; line = g.line }

  pub write_arg_list-Good :
      (first : Bool) (args : List (List ℕ)) (s : State World)
      → Good P s
      → Good P (write_arg_list first args s)
  unfolding write_arg_list
  write_arg_list-Good first [] s g = g
  write_arg_list-Good true (a ∷ args) s g =
      write_arg_list-Good false args (write a s) (write-Good a s g)
  write_arg_list-Good false (a ∷ args) s g =
      write_arg_list-Good false args (write a (write _ s))
        (write-Good a (write _ s) (write-Good _ s g))

  write_entry-Good : (e : Entry) (s : State World) → Good P s → Good P (write_entry e s)
  unfolding write_entry
  write_entry-Good e s g =
      write_line-Good [] _ (write-Good _ _ (write-Good _ _ (write-Good e.name s g)))

  write_entries-Good :
      (entries : List Entry) (s : State World) → Good P s → Good P (write_entries entries s)
  unfolding write_entries
  write_entries-Good [] s g = g
  write_entries-Good (e ∷ entries) s g =
      write_entries-Good entries (write_entry e s) (write_entry-Good e s g)

  pub print_lines-Good :
      (lines : List (List ℕ)) (s : State World) → Good P s → Good P (print_lines lines s)
  unfolding print_lines
  print_lines-Good [] s g = g
  print_lines-Good (t ∷ lines) s g = print_lines-Good lines (write_line t s) (write_line-Good t s g)

  pub switch_echo_to-Good :
      (args : List (List ℕ)) (s : State World) → Good P s → Good P (switch_echo_to args s)
  unfolding switch_echo_to
  switch_echo_to-Good args s g =
      if-Good (ltb 1 (length args) && match_command (argument args 1) (chars "off"))
        (echo-Good false s g)
        (if-Good (ltb 1 (length args) && match_command (argument args 1) (chars "on"))
          (echo-Good true s g) g)

  pub switch_lang_to-Good :
      (args : List (List ℕ)) (s : State World) → Good P s → Good P (switch_lang_to args s)
  unfolding switch_lang_to
  switch_lang_to-Good args s g =
      if-Good (ltb 1 (length args) && match_command (argument args 1) (chars "bash"))
        (write_line-Good (chars "switched to bash") _ (set_mode-Good Mode.bash s g))
        (if-Good (ltb 1 (length args) && match_command (argument args 1) (chars "batch"))
          (write_line-Good (chars "switched to batch") _ (set_mode-Good Mode.batch s g))
          (write_line-Good (chars "usage: switchlang bash | batch") s g))

  pub choose_drive-Good :
      (args : List (List ℕ)) (s : State World) → Good P s → Good P (choose_drive args s).1
  unfolding choose_drive
  choose_drive-Good args s g = by_prefix (drive_prefix (argument args 1))
    where
      by_prefix :
          (d : Option ℕ)
          → Good P
              (elim d as (λ d. Bool × State World) [
                | none ↦ (false, s)
                | some drive ↦
                    if ltb 1 (length args)
                    then (true, set_drive drive (record s { current_drive = drive }))
                    else (false, s)
              ]).1
      by_prefix none = g
      by_prefix (some drive) = elim (Bool-cases (ltb 1 (length args))) [
        | inl e ↦ rw e (
            set_drive-Good drive (record s { current_drive = drive })
              (record { accounts = g.accounts; keys = g.keys; line = g.line }))
        | inr e ↦ rw e g
      ]

  pub change_drive-Good :
      (args : List (List ℕ)) (s : State World) → Good P s → Good P (change_drive args s)
  unfolding change_drive
  change_drive-Good args s g = elim (Bool-cases (choose_drive args s).0) [
    | inl e ↦ rw e (write_line-Good _ _ (write_line-Good _ _ (choose_drive-Good args s g)))
    | inr e ↦ rw e (write_line-Good s.current_path s g)
  ]

  write_matches-Good :
      (pattern : List ℕ) (args : List (List ℕ)) (s : State World)
      → Good P s
      → Good P (write_matches pattern args s)
  unfolding write_matches
  write_matches-Good pattern [] s g = g
  write_matches-Good pattern (a ∷ args) s g =
      write_matches-Good pattern args _ (if-Good (contains a pattern) (write_line-Good a s g) g)

  pub search_arguments-Good :
      (args : List (List ℕ)) (s : State World) → Good P s → Good P (search_arguments args s)
  unfolding search_arguments
  search_arguments-Good args s g = elim (Bool-cases (ltb (length args) 3)) [
    | inl e ↦ rw e (write_line-Good _ s g)
    | inr e ↦ rw e (write_matches-Good (argument args 1) (drop 2 args) s g)
  ]

  pub write_users-Good : (n i : ℕ) (s : State World) → Good P s → Good P (write_users n i s)
  unfolding write_users
  write_users-Good zero i s g = g
  write_users-Good (suc n) i s g = write_users-Good n (i + 1) _ (write_line-Good _ s g)

  -- The strings of argv and the static line are CHAR16 strings if the command is one.
  pub parse-Good :
      (command : List ℕ) (s : State World)
      → IsChars command
      → Good P s
      → All IsChars (parse command s).0 × Good P (parse command s).1
  unfolding parse
  parse-Good command s c g =
      let line = parse_command-IsChars command s.line max_args c g.line in
      (
        arguments-IsChars (parse_command command max_args s.line) line,
        record { accounts = g.accounts; keys = g.keys; line = line },
      )

  module _ (fresh : ℕ → List ℕ) (stack : (n : ℕ) → IsChars (fresh n)) where
    echo_to_grep-Good :
        (before after : List ℕ) (s : State World)
        → IsChars before
        → IsChars after
        → Good P s
        → Good P (echo_to_grep fresh before after s)
    unfolding echo_to_grep
    echo_to_grep-Good before after s cb ca g =
        let left = copy_segment-IsChars (fresh max_line) before (stack max_line) cb in
        let right =
          copy_segment-IsChars (fresh max_line) (text after) (stack max_line)
            (text-IsChars after ca) in
        let s₁ = (parse (copy_segment (fresh max_line) before) s).1 in
        let g₁ : Good P s₁ = (parse-Good (copy_segment (fresh max_line) before) s left g).1 in
        let s₂ = (parse (copy_segment (fresh max_line) (text after)) s₁).1 in
        let g₂ : Good P s₂ =
          (parse-Good (copy_segment (fresh max_line) (text after)) s₁ right g₁).1 in
        let left_args = (parse (copy_segment (fresh max_line) before) s).0 in
        let right_args = (parse (copy_segment (fresh max_line) (text after)) s₁).0 in
        let shown = copy_segment (copy_segment (fresh max_line) before) (drop 5 before) in
        if-Good
          (ltb (length left_args) 2 || not (match_command (argument left_args 0) (chars "echo")))
          (write_line-Good (chars "pipes currently support echo | grep") s₁ g₁)
          (if-Good
            (not (length right_args == 2)
              || not (match_command (argument right_args 0) (chars "grep")))
            (write_line-Good (chars "usage: echo <text> | grep <pattern>") s₂ g₂)
            (if-Good (contains shown (argument right_args 1)) (write_line-Good shown s₂ g₂) g₂))

    -- The outcome of a pipeline, if the command is one.
    abbrev pub AfterPipeline : Option (State World) → Type 0
    AfterPipeline none = Unit {0}
    AfterPipeline (some s) = Good P s

    pub try_pipeline-Good :
        (command : List ℕ) (s : State World)
        → IsChars command
        → Good P s
        → AfterPipeline (try_pipeline fresh command s)
    unfolding try_pipeline
    try_pipeline-Good command s c g = by_parts (cut b'|' command) (cut-AreParts b'|' command c)
      where
        by_parts :
            (parts : Option (List ℕ × List ℕ))
            → AreParts parts
            → AfterPipeline (elim parts as (λ p. Option (State World)) [
              | none ↦ none
              | some (before, after) ↦ some (echo_to_grep fresh before after s)
            ])
        by_parts none h = tt
        by_parts (some (before, after)) h = echo_to_grep-Good before after s h.0 h.1 g

-- The listing takes the state only through what it writes and the world.
module _ (F : Firmware) (ready : Bool) (fresh : ℕ → List ℕ) (P : Accounts.State → Type 0) where
  show_listing-Good :
      (drive : ℕ) (place : Place Entry) (s : State F.World)
      → Good P s
      → Good P (show_listing F ready fresh drive place s)
  unfolding show_listing
  show_listing-Good drive place s g = write_entries-Good P _ _ (write_line-Good P _ s g)

  show_outcome-Good :
      (drive : ℕ) (r : Bool × Option (Place Entry) × F.World) (s : State F.World)
      → Good P s
      → Good P (show_outcome F ready fresh drive r s)
  unfolding show_outcome
  show_outcome-Good drive (true, some place, w) s g =
      show_listing-Good drive place _ (world-Good P w s g)
  show_outcome-Good drive (true, none, w) s g = write_line-Good P _ _ (world-Good P w s g)
  show_outcome-Good drive (false, some place, w) s g = write_line-Good P _ _ (world-Good P w s g)
  show_outcome-Good drive (false, none, w) s g = write_line-Good P _ _ (world-Good P w s g)

  pub show_drive_root-Good :
      (drive : ℕ) (s : State F.World) → Good P s → Good P (show_drive_root F ready fresh drive s)
  unfolding show_drive_root
  show_drive_root-Good drive s g = show_outcome-Good drive _ s g
