-- ===== src/Shell/Dispatch.antt =====
-- Which command a name stands for.
use existent_os.Prelude.{
  ℕ, zero, suc, ◌<◌, ◌≡◌, refl, sym, ◌∙◌, Bool, true, false, not, ◌&&◌, List, [], ◌∷◌, arith,
  length, get_or, Bool-cases, inl, inr,
}
use existent_os.CString.{text}
use existent_os.Accounts.Directory.{same, same_iff, no_space}
use existent_os.Terminal.{match_command}
use existent_os.Shell.Commands.{Command, unknown, commands, first_match, command_of}

-- A word without spaces matches a name just when they are the same text.
match_command-same :
    (word name : List ℕ)
    → no_space (text word) ≡ true
    → match_command word name ≡ same (text word) (text name)
unfolding match_command same
match_command-same [] [] h = refl
match_command-same [] (n ∷ name) h = ground arith
match_command-same (c ∷ word) [] h = ground arith
match_command-same (c ∷ word) (n ∷ name) h = ground (arith, match_command-same word name)

-- The text of the name in an entry.
abbrev pub name_of : List ℕ × Command → List ℕ
name_of entry = text entry.0

-- No name of the table is the text of another.
unfoldable pub is_new : List ℕ → List (List ℕ × Command) → Bool
is_new name [] = true
is_new name (e ∷ table) = not (same name (name_of e)) && is_new name table

unfoldable are_distinct : List (List ℕ × Command) → Bool
are_distinct [] = true
are_distinct (e ∷ table) = is_new (name_of e) table && are_distinct table

distinct_commands : are_distinct commands ≡ true
unfolding are_distinct is_new same
distinct_commands = refl

is_new-get_or :
    (name : List ℕ) (table : List (List ℕ × Command)) (i : ℕ)
    → i < length table
    → is_new name table ≡ true
    → same name (name_of (get_or table i ([], unknown))) ≡ false
unfolding is_new
is_new-get_or name [] i below h = absurd (omega arith)
is_new-get_or name (e ∷ table) zero below h = ground arith
is_new-get_or name (e ∷ table) (suc i) below h =
    is_new-get_or name table i (omega arith) (ground arith)

module _ (word : List ℕ) (plain : no_space (text word) ≡ true) where
  -- A word with the name of a later entry is not that of an earlier one.
  earlier :
      (e : List ℕ × Command) (table : List (List ℕ × Command)) (i : ℕ)
      → suc i < length (e ∷ table)
      → is_new (name_of e) table ≡ true
      → text word ≡ name_of (get_or table i ([], unknown))
      → same (text word) (text e.0) ≡ false
  earlier e table i below new h = elim (Bool-cases (same (text word) (text e.0))) [
    | inl s ↦
        let at : name_of e ≡ name_of (get_or table i ([], unknown)) =
          sym ((same_iff (text word) (text e.0)).0 s) ∙ h in
        let other = is_new-get_or (name_of e) table i (omega arith) new in
        let one = (same_iff (name_of e) (name_of (get_or table i ([], unknown)))).1 at in
        absurd (cc (other, one))
    | inr s ↦ s
  ]

  first_match-entry :
      (table : List (List ℕ × Command)) (i : ℕ)
      → are_distinct table ≡ true
      → i < length table
      → text word ≡ name_of (get_or table i ([], unknown))
      → first_match table word ≡ (get_or table i ([], unknown)).1
  unfolding are_distinct first_match
  first_match-entry [] i d below h = absurd (omega arith)
  first_match-entry (e ∷ table) zero d below h =
      rw (match_command-same word e.0 plain, (same_iff (text word) (text e.0)).1 h)
  first_match-entry (e ∷ table) (suc i) d below h =
      rw (match_command-same word e.0 plain, earlier e table i below (ground arith) h)
        (first_match-entry table i (ground arith) (omega arith) h)

  first_match-unknown :
      (table : List (List ℕ × Command))
      → is_new (text word) table ≡ true
      → first_match table word ≡ unknown
  unfolding first_match is_new
  first_match-unknown [] new = refl
  first_match-unknown (e ∷ table) new =
      ground (arith, match_command-same word e.0 plain, first_match-unknown table)

  -- A first argument without spaces whose text is one of the names of the source runs the command of
  -- that name: no name is hidden behind one that is compared before it.
  pub command_of-entry :
      (i : ℕ)
      → i < length commands
      → text word ≡ name_of (get_or commands i ([], unknown))
      → command_of word ≡ (get_or commands i ([], unknown)).1
  unfolding command_of
  command_of-entry i below h = first_match-entry commands i distinct_commands below h

  -- A first argument without spaces whose text is none of these names is an unknown command.
  pub command_of-unknown : is_new (text word) commands ≡ true → command_of word ≡ unknown
  unfolding command_of
  command_of-unknown new = first_match-unknown commands new
