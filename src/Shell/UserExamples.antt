-- ===== src/Shell/UserExamples.antt =====
-- The theorems about the useradd and passwd commands at concrete command lines.
use existent_os.Prelude.{ℕ, ◌≡◌, refl, true, List, [], ◌∷◌, ◌++◌, Option, none, arith}
use existent_os.CString.{chars}
use existent_os.Firmware.ReadOnly.{read_only}
use existent_os.Accounts.Examples.{sample, sample-IsValid}
use existent_os.Accounts.State as Accounts
use existent_os.Accounts.State.{account}
use existent_os.CString.{equal, copy_upto, copy_from}
use existent_os.Prelude.Scan.{first_index}
use existent_os.Accounts.Image.{image}
use existent_os.Terminal.{parse_command, arguments, split_line}
use existent_os.Terminal.Segments.{cut}
use existent_os.Firmware.OneFile.{one_file, one_file-IsDurable}
use existent_os.Shell.Restart.{IsCreated, execute_command-IsCreated}
use existent_os.Shell.Alone.{IsAlone}
use existent_os.Shell.Passwords.{IsChanged, execute_command-IsChanged}
use existent_os.Shell.Users.{IsUseradd, IsAdded, execute_command-IsAdded}
use existent_os.Shell.State.{State, loaded}
use existent_os.Firmware.OpenFile.{open_file}
use existent_os.Shell.Replies.{parse, argument}
use existent_os.Shell.Execute.{execute_command}
use existent_os.Shell.Examples.{fresh, signed_in, hello}

abbrev adding : List ℕ
adding = chars "useradd bob pw"

-- The strings of argv.
abbrev adding_words : List (List ℕ)
adding_words = (parse adding (signed_in [])).0

adding-IsUseradd :
    IsUseradd adding (argument adding_words 1) (argument adding_words 2) (signed_in [])
unfolding cut parse parse_command arguments split_line copy_upto copy_from
adding-IsUseradd = record {
  word = argument adding_words 0;
  named = refl;
  alone = record { alone = refl; no_pipe = refl; words = refl };
}

execute_command-IsAdded_example :
    IsAdded
      (read_only hello)
      true
      fresh
      (argument adding_words 1)
      (argument adding_words 2)
      sample
      tt
      []
      (execute_command (read_only hello) true fresh 2 adding (signed_in []))
execute_command-IsAdded_example =
    execute_command-IsAdded (read_only hello) true fresh 1 adding (argument adding_words 1)
      (argument adding_words 2) (signed_in []) sample-IsValid adding-IsUseradd

-- The administrator at the terminal, on an empty volume that keeps what is written.
abbrev at_start : State (Option (List ℕ))
at_start = record (loaded [] none) { accounts = sample }

at_start-IsUseradd : IsUseradd adding (argument adding_words 1) (argument adding_words 2) at_start
unfolding cut parse parse_command arguments split_line copy_upto copy_from
at_start-IsUseradd = record {
  word = argument adding_words 0;
  named = refl;
  alone = record { alone = refl; no_pipe = refl; words = refl };
}

adding_saves :
    (Accounts.add one_file true (argument adding_words 1) (argument adding_words 2) sample none).0
    ≡ true
unfolding parse parse_command arguments split_line copy_upto copy_from Accounts.add Accounts.may_add
    Accounts.is_admin account Accounts.valid Accounts.name_taken first_index equal Accounts.save
    open_file image Accounts.store_of Accounts.append_account Accounts.copy
adding_saves = refl

execute_command-IsCreated_example :
    IsCreated one_file true fresh
      (argument adding_words 1)
      (argument adding_words 2)
      (chars "pw")
      Accounts.initial
      at_start
      (execute_command one_file true fresh 2 adding at_start)
unfolding parse parse_command arguments split_line copy_upto copy_from
execute_command-IsCreated_example =
    execute_command-IsCreated one_file true fresh 1 adding (argument adding_words 1)
      (argument adding_words 2) (chars "pw") Accounts.initial at_start one_file-IsDurable
      (omega arith) (omega arith) sample-IsValid at_start-IsUseradd adding_saves

-- The administrator's password, a new one, and a key behind them.
abbrev at_prompt : State (Unit {0})
at_prompt = signed_in (chars "fisix" ++ (13 ∷ (chars "s3c" ++ (13 ∷ b'x' ∷ []))))

abbrev changing : List ℕ
changing = chars "passwd"

changing-IsAlone : IsAlone changing (argument (parse changing at_prompt).0 0) [] at_prompt
unfolding cut parse parse_command arguments split_line copy_upto copy_from
changing-IsAlone = record { alone = refl; no_pipe = refl; words = refl }

execute_command-IsChanged_example :
    IsChanged
      (read_only hello)
      true
      fresh
      (chars "fisix")
      (chars "s3c")
      (b'x' ∷ [])
      sample
      (execute_command (read_only hello) true fresh 1 changing at_prompt)
unfolding parse parse_command arguments split_line copy_upto copy_from
execute_command-IsChanged_example =
    execute_command-IsChanged (read_only hello) true fresh (omega arith) 0 changing
      (argument (parse changing at_prompt).0 0) (chars "fisix") (chars "s3c") (b'x' ∷ []) at_prompt
      changing-IsAlone refl sample-IsValid (omega arith) (omega arith) (omega arith) (omega arith)
      refl
