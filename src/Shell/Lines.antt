-- ===== src/Shell/Lines.antt =====
-- The lines that terminal_run_batch_file runs (OSC/boot/efi_main.c).
use existent_os.Prelude.{
  ℕ, zero, suc, ◌≡◌, List, [], ◌∷◌, ◌++◌, ◌==◌, ◌||◌, if◌then◌else◌, length, take, drop,
}
use existent_os.CString.{text}
use existent_os.Shell.Session.{batch_lines}

-- A text split at each carriage return and each line feed: the part before the first one, and the
-- parts after it.
unfoldable pub split_at_ends : List ℕ → List ℕ × List (List ℕ)
split_at_ends [] = ([], [])
split_at_ends (c ∷ s) =
    let (l, ls) = split_at_ends s in if c == 13 || c == 10 then ([], l ∷ ls) else (c ∷ l, ls)

-- A list in pieces of 255, the last one shorter; nothing for the empty list. The length of the list
-- is more rounds than it has pieces.
unfoldable pub pieces_from : ℕ → List ℕ → List (List ℕ)
pieces_from zero l = []
pieces_from (suc rounds) [] = []
pieces_from (suc rounds) (c ∷ l) = take 255 (c ∷ l) ∷ pieces_from rounds (drop 255 (c ∷ l))

abbrev pub pieces : List ℕ → List (List ℕ)
pieces l = pieces_from (length l) l

-- The pieces of each part.
unfoldable pub all_pieces : List (List ℕ) → List (List ℕ)
all_pieces [] = []
all_pieces (l ∷ ls) = pieces l ++ all_pieces ls

-- What batch_lines does with a line that has been begun.
abbrev Cut : List ℕ → List ℕ → Type 0
Cut line s =
    let (l, ls) = split_at_ends (text s) in batch_lines line s ≡ pieces (line ++ l) ++ all_pieces ls
