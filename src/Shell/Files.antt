-- ===== src/Shell/Files.antt =====
-- The file commands of the terminal: terminal_cat_file, terminal_touch_file, terminal_remove_file,
-- terminal_write_file and the reading part of terminal_source_file (OSC/boot/efi_main.c).
use existent_os.Prelude.{
  ℕ, zero, suc, ◌+◌, ◌%◌, Bool, true, false, not, List, [], ◌∷◌, ◌++◌, Option, none, some, ltb,
  ◌==◌, if◌then◌else◌, length,
}
use existent_os.Firmware.{Firmware, is_error, mode_read, mode_read_write, mode_create}
use existent_os.Firmware.OpenFile.{open_file}
use existent_os.Terminal.{max_line}
use existent_os.Shell.State.{write, write_line}
use existent_os.Shell.Run.{done, exhausted, Action}

abbrev pub archive : ℕ
archive = 0x20

-- The bytes of an argument, as far as there is room for the line's end.
unfoldable pub put_chars : List ℕ → List ℕ → List ℕ
put_chars [] bytes = bytes
put_chars (c ∷ arg) bytes =
    if c == 0
    then bytes
    else if ltb (length bytes + 2) max_line
    then put_chars arg (bytes ++ ((c % 256) ∷ []))
    else bytes

-- The loop on the arguments from `start` on; `first` is whether none has been written.
unfoldable pub put_args : Bool → List (List ℕ) → List ℕ → List ℕ
put_args first [] bytes = bytes
put_args first (arg ∷ args) bytes =
    if ltb (length bytes + 2) max_line
    then put_args false args (put_chars arg (if first then bytes else bytes ++ (b' ' ∷ [])))
    else bytes

unfoldable pub file_bytes : List (List ℕ) → List ℕ
file_bytes args = put_args true args [] ++ (10 ∷ [])

-- The lines of a script: carriage returns are left out, a line feed ends a line, and so does the end
-- of the file; empty lines are not run, and a line is cut to what its array holds.
abbrev pub next_line : ℕ → List ℕ → List ℕ
next_line b line =
    if b == 13
    then line
    else if b == 10
    then []
    else if ltb (length line + 1) max_line
    then line ++ (b ∷ [])
    else line

abbrev pub emit : List ℕ → List (List ℕ) → List (List ℕ)
emit [] rest = rest
emit (c ∷ line) rest = (c ∷ line) ∷ rest

unfoldable pub script_lines : List ℕ → List ℕ → List (List ℕ)
script_lines line [] = emit line []
script_lines line (b ∷ bytes) =
    let rest = script_lines (next_line b line) bytes in if b == 10 then emit line rest else rest

module _ (F : Firmware) (ready : Bool) where
  open F use {World, read, write as write_bytes, set_position, flush, delete, close}

  unfoldable pub cat_rounds : ℕ → ℕ → Action World Bool
  cat_rounds zero file s = exhausted
  cat_rounds (suc fuel) file s =
      let (status, bytes, w) = read file 120 s.world in
      let s' = record s { world = w } in
      let shown = if length bytes == 0 then s' else write bytes s' in
      let rest = cat_rounds fuel file shown in
      if is_error status
      then done false (record s { world = close file w })
      else if length bytes == 120
      then rest
      else done true (write_line [] (record shown { world = close file w }))

  unfoldable pub cat_file : ℕ → List ℕ → Action World Bool
  cat_file fuel path s =
      let (found, file, w) = open_file F ready path mode_read 0 s.world in
      let s' = record s { world = w } in if found then cat_rounds fuel file s' else done false s'

  unfoldable pub touch_file : List ℕ → World → Bool × World
  touch_file path w =
      let (found, file, w') = open_file F ready path mode_create archive w in
      if found then (true, close file w') else (false, w')

  unfoldable pub remove_file : List ℕ → World → Bool × World
  remove_file path w =
      let (found, file, w₁) = open_file F ready path mode_read_write 0 w in
      let (status, w₂) = delete file w₁ in
      if found then (not (is_error status), w₂) else (false, w₁)

  -- After the position is set.
  unfoldable pub write_to : ℕ → List (List ℕ) → World → Bool × World
  write_to file args w =
      let (status, count, w') = write_bytes file (file_bytes args) w in
      if is_error status then (false, close file w') else (true, close file (flush file w'))

  -- `append` moves to the end of the file and ignores the answer.
  unfoldable pub place_and_write : Bool → ℕ → List (List ℕ) → World → Bool × World
  place_and_write true file args w =
      let (status, w') = set_position file 0xffffffffffffffff w in write_to file args w'
  place_and_write false file args w =
      let (status, w') = set_position file 0 w in
      if is_error status then (false, close file w') else write_to file args w'

  unfoldable pub write_file : Bool → List ℕ → List (List ℕ) → World → Bool × World
  write_file append path args w =
      let (found, file, w') = open_file F ready path mode_create archive w in
      if found then place_and_write append file args w' else (false, w')

  unfoldable pub read_script_from : ℕ → World → Option (List (List ℕ)) × World
  read_script_from file w =
      let (status, bytes, w') = read file 4095 w in
      if is_error status
      then (none, close file w')
      else (some (script_lines [] bytes), close file w')

  -- The lines that terminal_source_file runs, where it can read the file.
  unfoldable pub read_script : List ℕ → World → Option (List (List ℕ)) × World
  read_script path w =
      let (found, file, w') = open_file F ready path mode_read 0 w in
      if found then read_script_from file w' else (none, w')
