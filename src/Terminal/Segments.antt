-- ===== src/Terminal/Segments.antt =====
-- Parts of a command line: terminal_command_args, terminal_copy_segment and the scans for a
-- separator (OSC/boot/efi_main.c).
use existent_os.Prelude.{
  ℕ, ◌+◌, ◌||◌, List, [], ◌∷◌, Option, none, some, ltb, ◌==◌, if◌then◌else◌, set,
}
use existent_os.Terminal.{max_line, is_blank}

-- `while (*command && *command != ' ') command++;`
unfoldable pub skip_word : List ℕ → List ℕ
skip_word [] = []
skip_word (c ∷ s) = if c == 0 || c == b' ' then c ∷ s else skip_word s

-- `while (*command == ' ') command++;`
unfoldable pub skip_spaces : List ℕ → List ℕ
skip_spaces [] = []
skip_spaces (c ∷ s) = if c == b' ' then skip_spaces s else c ∷ s

unfoldable pub command_args : List ℕ → List ℕ
command_args command = skip_spaces (skip_word command)

-- The two trimming loops of terminal_copy_segment, on the cells from `start` to `end`.
unfoldable pub trim_start : List ℕ → List ℕ
trim_start [] = []
trim_start (c ∷ s) = if is_blank c then trim_start s else c ∷ s

-- A blank with nothing left behind it is dropped.
abbrev pub push_back : ℕ → List ℕ → List ℕ
push_back c [] = if is_blank c then [] else c ∷ []
push_back c (d ∷ s) = c ∷ d ∷ s

unfoldable pub trim_end : List ℕ → List ℕ
trim_end [] = []
trim_end (c ∷ s) = push_back c (trim_end s)

-- `while (start < end && length + 1 < TERMINAL_MAX_LINE) destination[length++] = *start++;` and the
-- terminator.
unfoldable pub copy_range : ℕ → List ℕ → List ℕ → List ℕ
copy_range at destination [] = set destination at 0
copy_range at destination (c ∷ cells) =
    if ltb (at + 1) max_line
    then copy_range (at + 1) (set destination at c) cells
    else set destination at 0

unfoldable pub copy_segment : List ℕ → List ℕ → List ℕ
copy_segment destination cells = copy_range 0 destination (trim_end (trim_start cells))

-- `while (*s && *s != mark) ++s;` and the test for the mark: the cells before it and those after it.
abbrev pub put_first : ℕ → Option (List ℕ × List ℕ) → Option (List ℕ × List ℕ)
put_first c none = none
put_first c (some (before, after)) = some (c ∷ before, after)

unfoldable pub cut : ℕ → List ℕ → Option (List ℕ × List ℕ)
cut mark [] = none
cut mark (c ∷ s) =
    let rest = put_first c (cut mark s) in
    if c == 0 then none else if c == mark then some ([], s) else rest
