-- ===== src/Shell/Examples.antt =====
-- The theorems about the terminal at concrete states, and test runs.
use existent_os.Prelude.{
  ℕ, zero, suc, ◌-◌, ◌<◌, ◌≡◌, refl, true, false, List, [], ◌∷◌, ◌++◌, some, arith, replicate,
}
use existent_os.CString.{chars}
use existent_os.Firmware.ReadOnly.{read_only, All-take}
use existent_os.Firmware.Sequential.{sequential, read_fewer}
use existent_os.Accounts.Examples.{sample, sample-IsValid}
use existent_os.Accounts.Valid.{IsValid, IsChars}
use existent_os.Accounts.State.{account}
use existent_os.CString.{copy_upto, copy_from}
use existent_os.Terminal.{
  match_command, starts_with, search_from, contains, parse_command, arguments, split_line,
}
use existent_os.Terminal.Segments.{
  cut, copy_segment, copy_range, trim_start, trim_end, command_args, skip_word, skip_spaces,
}
use existent_os.Firmware.OneFile.{one_file}
use existent_os.Shell.State.{State, loaded, write, write_line}
use existent_os.Shell.Run.{Run, done, waiting, exhausted}
use existent_os.Firmware.OpenFile.{open_file}
use existent_os.Shell.Files.{
  write_file, place_and_write, write_to, put_args, put_chars, read_script, read_script_from,
  file_bytes, script_lines,
}
use existent_os.Shell.Commands.{Command, command_of, first_match}
use existent_os.Shell.Programs.{login}
use existent_os.Shell.Replies.{try_pipeline, echo_to_grep, parse, argument, run_lines, or_usage}
use existent_os.Shell.Execute.{
  execute_command, execute_step, run_single, perform, source_file, run_script,
}
use existent_os.Shell.Session.{batch_lines}
use existent_os.Shell.Kept.{IsWide, Good, Ends}
use existent_os.Shell.Kept.Trusted.{KeepsTable, execute_command-KeepsTable}
use existent_os.Shell.Scripts.{script_lines-file_bytes}
use existent_os.Shell.Loops.{IsOver}
use existent_os.Shell.Loops.Commands.{IsFinite}
use existent_os.Shell.Loops.Lines.{RunsNoScript, alone, execute_command-IsOver}
use existent_os.Shell.Welcome.{IsWelcome, login-IsWelcome}

abbrev pub fresh : ℕ → List ℕ
fresh n = replicate n 7

-- The administrator at the terminal, with some keys to come.
abbrev pub signed_in : List ℕ → State (Unit {0})
signed_in keys = record (loaded keys tt) { accounts = sample }

abbrev pub hello : List ℕ
hello = chars "echo hi"

pub fresh-IsChars : (n : ℕ) → IsChars (fresh n)
fresh-IsChars zero = tt
fresh-IsChars (suc n) = (omega arith, fresh-IsChars n)

hello-IsWide : IsWide (read_only hello) fresh
hello-IsWide = record {
  file_bytes = λ file size w. All-take (λ c. c < 65536) size hello (omega arith);
  stack = fresh-IsChars;
}

signed_in-Good : Good IsValid (signed_in (chars "useradd bob pw" ++ (13 ∷ [])))
signed_in-Good = record { accounts = sample-IsValid; keys = omega arith; line = omega arith }

execute_command-KeepsTable_example :
    let s = signed_in (chars "useradd bob pw" ++ (13 ∷ [])) in
    Ends
      (KeepsTable s)
      (execute_command (read_only hello) true fresh 3 (chars "useradd bob pw & source x") s)
execute_command-KeepsTable_example =
    execute_command-KeepsTable (read_only hello) true fresh hello-IsWide
      (signed_in (chars "useradd bob pw" ++ (13 ∷ []))) signed_in-Good 3
      (chars "useradd bob pw & source x") (omega arith)

-- "ls" is not `source`, whatever the static line held.
cat_is_no_source :
    (line : List ℕ)
    → command_of (argument (arguments (parse_command (chars "cat a") 8 line)) 0) ≡ Command.source
    → ⊥
unfolding command_of first_match match_command parse_command arguments split_line copy_upto
    copy_from
cat_is_no_source [] e = absurd (cc (e))
cat_is_no_source (a ∷ []) e = absurd (cc (e))
cat_is_no_source (a ∷ b ∷ []) e = absurd (cc (e))
cat_is_no_source (a ∷ b ∷ c ∷ []) e = absurd (cc (e))
cat_is_no_source (a ∷ b ∷ c ∷ d ∷ []) e = absurd (cc (e))
cat_is_no_source (a ∷ b ∷ c ∷ d ∷ f ∷ []) e = absurd (cc (e))
cat_is_no_source (a ∷ b ∷ c ∷ d ∷ f ∷ g ∷ line) e = absurd (cc (e))

cat-RunsNoScript : RunsNoScript ℕ fresh (chars "cat a")
unfolding cut parse
cat-RunsNoScript = alone (chars "cat a") refl (λ s. cat_is_no_source s.line)

-- A file that takes three reads.
abbrev long_file : List ℕ
long_file = replicate 300 b'x'

long_file-IsFinite : IsFinite (sequential long_file) 300
long_file-IsFinite = record {
  left = λ file w. 300 - w;
  bounded = λ file w. omega arith;
  shrinks = λ file w succeeds full.
      let fewer = read_fewer 120 w long_file (omega arith) full in omega (arith, fewer, full);
}

execute_command-IsOver_example : IsOver 1 (
    execute_command
      (sequential long_file)
      true
      fresh
      307
      (chars "cat a")
      (record (loaded [] 0) { accounts = sample }))
execute_command-IsOver_example =
    execute_command-IsOver (sequential long_file) true fresh 300 long_file-IsFinite refl 1 307
      (chars "cat a") (omega arith) cat-RunsNoScript (record (loaded [] 0) { accounts = sample })
      (omega arith)

-- A batch line of more cells than the array of a line has.
long_batch_line : batch_lines [] (replicate 200 b'x') ≡ replicate 200 b'x' ∷ []
unfolding batch_lines
long_batch_line = refl

script_lines-file_bytes_example :
    script_lines [] (file_bytes (chars "echo" ∷ chars "hi" ∷ [])) ≡ chars "echo hi" ∷ []
script_lines-file_bytes_example =
    script_lines-file_bytes (chars "echo" ∷ chars "hi" ∷ []) (omega arith) (omega arith)

login-IsWelcome_example :
    IsWelcome
      (chars "ls")
      0
      (login fresh (signed_in (chars "admin" ++ (13 ∷ (chars "fisix" ++ (13 ∷ chars "ls"))))))
unfolding account
login-IsWelcome_example =
    login-IsWelcome fresh (omega arith) (chars "ls") 0
      (record { name = chars "admin"; password = chars "fisix"; admin = true })
      (signed_in (chars "admin" ++ (13 ∷ (chars "fisix" ++ (13 ∷ chars "ls"))))) sample-IsValid
      (omega arith) refl (omega arith) (omega arith) (omega arith) (omega arith) (omega arith) refl

-- The texts that a command writes, the latest first.
abbrev shown : {A : Type 0} → Run (Unit {0}) A → List (List ℕ)
shown (done a s) = s.written
shown waiting = []
shown exhausted = []

-- A pipeline whose text holds the pattern shows the text; blanks around the parts do not matter.
piped :
    shown
      (execute_command (read_only []) true fresh 2 (chars "echo hello | grep ell") (signed_in []))
    ≡ (13 ∷ 10 ∷ []) ∷ chars "hello" ∷ []
unfolding execute_command execute_step parse parse_command arguments split_line copy_upto copy_from
    cut run_single try_pipeline echo_to_grep copy_segment copy_range trim_start trim_end contains
    search_from starts_with write_line write match_command
piped = refl

-- A script that runs itself takes all the fuel there is.
self_sourcing :
    execute_command (read_only (chars "source a")) true fresh 4 (chars "source a") (signed_in [])
    ≡ exhausted
unfolding execute_command execute_step parse parse_command arguments split_line copy_upto copy_from
    cut run_single try_pipeline command_args skip_word skip_spaces command_of first_match
    match_command perform source_file read_script read_script_from open_file script_lines run_script
    run_lines or_usage
self_sourcing = refl

-- A shorter text does not replace the file: its rest stays.
written_over :
    (write_file one_file true false (chars "f") (chars "a" ∷ []) (some (chars "hello"))).1
    ≡ some (b'a' ∷ 10 ∷ chars "llo")
unfolding write_file open_file place_and_write write_to file_bytes put_args put_chars
written_over = refl
