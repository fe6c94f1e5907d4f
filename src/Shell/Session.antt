-- ===== src/Shell/Session.antt =====
-- What runs whole inputs of commands: terminal_run_batch_file, terminal_run_batch and
-- terminal_run_shell (OSC/boot/efi_main.c).
use existent_os.Prelude.{
  ℕ, zero, suc, ◌+◌, ◌-◌, ◌*◌, Bool, not, ◌||◌, List, [], ◌∷◌, ◌++◌, ltb, ◌==◌, if◌then◌else◌,
  length,
}
use existent_os.CString.{chars}
use existent_os.Terminal.{max_line}
use existent_os.Shell.State.{write, write_line, current_prompt}
use existent_os.Shell.Run.{done, exhausted, Action, ◌>>=◌, ◌>>◌, return, read_line}
use existent_os.Shell.Files.{emit}

abbrev crlf : List ℕ
crlf = 13 ∷ 10 ∷ []

-- The static text autoexec_batch.
abbrev pub autoexec_batch : List ℕ
autoexec_batch =
    chars "@echo off"
    ++ (crlf
        ++ (chars "help"
            ++ (crlf
                ++ (chars "status"
                    ++ (crlf
                        ++ (chars "ver"
                            ++ (crlf
                                ++ (chars "ls"
                                    ++ (crlf
                                        ++ (chars "mem"
                                            ++ (crlf ++ (chars "clear" ++ crlf))))))))))))

abbrev pub ends_line : ℕ → Bool
ends_line c = c == 13 || c == 10

-- `sizeof(line) - 1`: the bound of the copying loop, in bytes of an array of max_line cells of two
-- bytes each.
abbrev pub batch_bound : ℕ
batch_bound = 2 * max_line - 1

-- The lines that terminal_run_batch_file runs: a line ends at `\r`, at `\n`, and at the bound;
-- empty lines are left out. `line` is what has been copied of the current one, taken to be stored
-- and read back also beyond its array, where the source's behaviour is undefined.
unfoldable pub batch_lines : List ℕ → List ℕ → List (List ℕ)
batch_lines line [] = emit line []
batch_lines line (c ∷ text) =
    let full = ends_line c || not (ltb (length line) batch_bound) in
    let next = if ends_line c then [] else if full then c ∷ [] else line ++ (c ∷ []) in
    let rest = batch_lines next text in
    if c == 0 then emit line [] else if full then emit line rest else rest

module _ {World : Type 0} where
  unfoldable pub run_batch_lines : (List ℕ → Action World ℕ) → List (List ℕ) → Action World ℕ
  run_batch_lines run [] s = done 0 s
  run_batch_lines run (l ∷ lines) s =
      (do run l; run_batch_lines run lines)
        (if s.echo_enabled then write (current_prompt s) s else s)

  -- A round of terminal_run_shell; `again` is the next one.
  unfoldable pub shell_round :
      (List ℕ → Action World ℕ) → (ℕ → List ℕ) → Action World ℕ → Action World ℕ
  shell_round run fresh again s =
      (do
        (line, length) ← read_line max_line (fresh max_line)
        (if length == 0
            then again
            else (do left ← run line; (if left == 0 then again else return 0))))
        (write (current_prompt s) s)

  unfoldable pub shell_rounds : (List ℕ → Action World ℕ) → (ℕ → List ℕ) → ℕ → Action World ℕ
  shell_rounds run fresh zero s = exhausted
  shell_rounds run fresh (suc rounds) s = shell_round run fresh (shell_rounds run fresh rounds) s

  -- Each round reads a key, so the keys bound the rounds.
  unfoldable pub run_shell : (List ℕ → Action World ℕ) → (ℕ → List ℕ) → Action World ℕ
  run_shell run fresh s =
      shell_rounds run fresh (length s.keys + 1) (write_line (chars "Fisix OS shell ready") s)

  unfoldable pub run_batch : (List ℕ → Action World ℕ) → Action World ℕ
  run_batch run s =
      run_batch_lines run (batch_lines [] autoexec_batch)
        (write_line (chars "Fisix OS batch terminal ready") s)
