-- ===== src/Shell/Loops/Keys.antt =====
-- The functions of the terminal that read no key leave the keys as they are.
use existent_os.Prelude.{
  ℕ, zero, suc, ◌+◌, ◌≡◌, refl, ◌∙◌, Bool, true, false, List, [], ◌∷◌, Option, none, some, arith,
  if◌then◌else◌, ltb, length, drop, Bool-cases, inl, inr,
}
use existent_os.Firmware.{Firmware}
use existent_os.Eosfs.{Entry, Place}
use existent_os.Terminal.{contains}
use existent_os.Terminal.Segments.{cut}
use existent_os.Shell.State.{
  State, write, write_line, set_drive, set_mode, write_arg_list, write_entry, write_entries,
  drive_prefix, show_listing, show_outcome, show_drive_root,
}
use existent_os.Shell.Replies.{
  parse, argument, print_lines, switch_echo_to, switch_lang_to, choose_drive, change_drive,
  write_matches, search_arguments, write_users, echo_to_grep, try_pipeline,
}
use existent_os.Shell.Execute.{list_directory}

module _ {World : Type 0} where
  if-keys :
      (c : Bool) (t u : State World) {ks : List ℕ}
      → t.keys ≡ ks
      → u.keys ≡ ks
      → (if c then t else u).keys ≡ ks
  if-keys true t u h k = h
  if-keys false t u h k = k

  pub write_line-keys : (t : List ℕ) (s : State World) → (write_line t s).keys ≡ s.keys
  unfolding write_line write
  write_line-keys t s = refl

  pub write_arg_list-keys :
      (first : Bool) (args : List (List ℕ)) (s : State World)
      → (write_arg_list first args s).keys ≡ s.keys
  unfolding write_arg_list write
  write_arg_list-keys first [] s = refl
  write_arg_list-keys true (a ∷ args) s = write_arg_list-keys false args _
  write_arg_list-keys false (a ∷ args) s = write_arg_list-keys false args _

  write_entries-keys :
      (entries : List Entry) (s : State World) → (write_entries entries s).keys ≡ s.keys
  unfolding write_entries write_entry write_line write
  write_entries-keys [] s = refl
  write_entries-keys (e ∷ entries) s = write_entries-keys entries (write_entry e s)

  pub print_lines-keys : (ts : List (List ℕ)) (s : State World) → (print_lines ts s).keys ≡ s.keys
  unfolding print_lines write_line write
  print_lines-keys [] s = refl
  print_lines-keys (t ∷ ts) s = print_lines-keys ts (write_line t s)

  pub switch_echo_to-keys :
      (args : List (List ℕ)) (s : State World) → (switch_echo_to args s).keys ≡ s.keys
  unfolding switch_echo_to
  switch_echo_to-keys args s = ground arith

  pub switch_lang_to-keys :
      (args : List (List ℕ)) (s : State World) → (switch_lang_to args s).keys ≡ s.keys
  unfolding switch_lang_to set_mode write_line write
  switch_lang_to-keys args s = ground arith

  set_drive-keys : (drive : ℕ) (s : State World) → (set_drive drive s).keys ≡ s.keys
  unfolding set_drive
  set_drive-keys drive s = ground arith

  pub choose_drive-keys :
      (args : List (List ℕ)) (s : State World) → (choose_drive args s).1.keys ≡ s.keys
  unfolding choose_drive
  choose_drive-keys args s = by_prefix (drive_prefix (argument args 1))
    where
      by_prefix :
          (d : Option ℕ)
          → (elim d as (λ d. Bool × State World) [
            | none ↦ (false, s)
            | some drive ↦
                if ltb 1 (length args)
                then (true, set_drive drive (record s { current_drive = drive }))
                else (false, s)
          ]).1.keys
            ≡ s.keys
      by_prefix none = refl
      by_prefix (some drive) = elim (Bool-cases (ltb 1 (length args))) [
        | inl e ↦ rw e (set_drive-keys drive _)
        | inr e ↦ rw e refl
      ]

  pub change_drive-keys :
      (args : List (List ℕ)) (s : State World) → (change_drive args s).keys ≡ s.keys
  unfolding change_drive write_line write
  change_drive-keys args s = if-keys (choose_drive args s).0 _ _ (choose_drive-keys args s) refl

  write_matches-keys :
      (pattern : List ℕ) (args : List (List ℕ)) (s : State World)
      → (write_matches pattern args s).keys ≡ s.keys
  unfolding write_matches
  write_matches-keys pattern [] s = refl
  write_matches-keys pattern (a ∷ args) s =
      write_matches-keys pattern args _
      ∙ if-keys (contains a pattern) _ _ (write_line-keys a s) refl

  pub search_arguments-keys :
      (args : List (List ℕ)) (s : State World) → (search_arguments args s).keys ≡ s.keys
  unfolding search_arguments
  search_arguments-keys args s =
      if-keys (ltb (length args) 3) _ _ (write_line-keys _ s)
        (write_matches-keys (argument args 1) (drop 2 args) s)

  pub write_users-keys : (n i : ℕ) (s : State World) → (write_users n i s).keys ≡ s.keys
  unfolding write_users
  write_users-keys zero i s = refl
  write_users-keys (suc n) i s = write_users-keys n (i + 1) _ ∙ write_line-keys _ s

  pub parse-keys : (command : List ℕ) (s : State World) → (parse command s).1.keys ≡ s.keys
  unfolding parse
  parse-keys command s = refl

  echo_to_grep-keys :
      (fresh : ℕ → List ℕ) (before after : List ℕ) (s : State World)
      → (echo_to_grep fresh before after s).keys ≡ s.keys
  unfolding echo_to_grep parse write_line write
  echo_to_grep-keys fresh before after s = ground arith

  -- The keys after a pipeline, if the command is one.
  abbrev pub SameKeys : List ℕ → Option (State World) → Type 0
  SameKeys ks none = Unit {0}
  SameKeys ks (some s) = s.keys ≡ ks

  pub try_pipeline-keys :
      (fresh : ℕ → List ℕ) (command : List ℕ) (s : State World)
      → SameKeys s.keys (try_pipeline fresh command s)
  unfolding try_pipeline
  try_pipeline-keys fresh command s = by_parts (cut b'|' command)
    where
      by_parts :
          (parts : Option (List ℕ × List ℕ))
          → SameKeys s.keys (elim parts as (λ p. Option (State World)) [
            | none ↦ none
            | some (before, after) ↦ some (echo_to_grep fresh before after s)
          ])
      by_parts none = tt
      by_parts (some (before, after)) = echo_to_grep-keys fresh before after s

module _ (F : Firmware) (ready : Bool) (fresh : ℕ → List ℕ) where
  show_outcome-keys :
      (drive : ℕ) (r : Bool × Option (Place Entry) × F.World) (s : State F.World)
      → (show_outcome F ready fresh drive r s).keys ≡ s.keys
  unfolding show_outcome show_listing write_line write
  show_outcome-keys drive (true, some place, w) s = write_entries-keys _ _
  show_outcome-keys drive (true, none, w) s = refl
  show_outcome-keys drive (false, some place, w) s = refl
  show_outcome-keys drive (false, none, w) s = refl

  pub list_directory-keys :
      (args : List (List ℕ)) (s : State F.World)
      → (list_directory F ready fresh args s).keys ≡ s.keys
  unfolding list_directory show_drive_root
  list_directory-keys args s = show_outcome-keys _ _ _ ∙ choose_drive-keys args s
