-- ===== src/Shell/FileExamples.antt =====
-- The write command at a concrete state.
use existent_os.Prelude.{ℕ, List, [], Option, none}
use existent_os.CString.{chars}
use existent_os.Shell.State.{State, loaded}
use existent_os.Shell.Replies.{parse}

-- "write a hi you" on an empty volume.
abbrev at_start : State (Option (List ℕ))
at_start = loaded [] none

abbrev writing : List ℕ
writing = chars "write a hi you"

abbrev words : List (List ℕ)
words = (parse writing at_start).0
